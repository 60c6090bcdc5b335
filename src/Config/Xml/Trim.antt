-- ===== src/Config/Xml/Trim.antt =====
-- What trim leaves of a text.
use recording_agent_continuo.Prelude.{
  ◌≡◌, refl, ap, sym, ◌∙◌, inl, inr, none, some, [], ◌∷◌, ◌++◌, arith,
}
use recording_agent_continuo.Prelude.Text.{Text}
use recording_agent_continuo.Config.Xml.{skip_blanks, drop_blanks, drop_found, trim}
use recording_agent_continuo.Config.Xml.Document.{IsBlank, Starts, Ends, IsTrimmed}

pub skip_blanks-blank : (s : Text) → IsBlank s → skip_blanks s ≡ none
unfolding skip_blanks
skip_blanks-blank [] h = refl
skip_blanks-blank (c ∷ s) h = ground (arith, skip_blanks-blank s h.1)

skip_blanks-lead : (lead s : Text) → IsBlank lead → Starts s → skip_blanks (lead ++ s) ≡ some s
unfolding skip_blanks
skip_blanks-lead [] [] h t = absurd t
skip_blanks-lead [] (c ∷ s) h t = ground arith
skip_blanks-lead (b ∷ lead) s h t = ground (arith, skip_blanks-lead lead s h.1 t)

drop_blanks-blank : (s : Text) → IsBlank s → drop_blanks s ≡ []
unfolding drop_blanks
drop_blanks-blank [] h = refl
drop_blanks-blank (c ∷ s) h = ground (arith, drop_blanks-blank s h.1)

drop_blanks-core :
    (core trail : Text) → IsBlank trail → Ends core → drop_blanks (core ++ trail) ≡ core
unfolding drop_blanks
drop_blanks-core [] trail h t = absurd t
drop_blanks-core (c ∷ []) trail h t = ground (arith, drop_blanks-blank trail h)
drop_blanks-core (c ∷ d ∷ ds) trail h t = ground (arith, drop_blanks-core (d ∷ ds) trail h t)

Starts-append : (s t : Text) → Starts s → Starts (s ++ t)
Starts-append [] t h = absurd h
Starts-append (c ∷ s) t h = h

trim-nonempty : (lead s : Text) → Starts s → trim (lead ++ s) ≡ drop_found (skip_blanks (lead ++ s))
unfolding trim
trim-nonempty [] [] h = absurd h
trim-nonempty [] (c ∷ s) h = refl
trim-nonempty (b ∷ lead) s h = refl

pub trim-IsTrimmed : (t v : Text) → IsTrimmed t v → trim t ≡ some v
trim-IsTrimmed t v (inl (et, ev)) = ap trim et ∙ unfold trim in ap some (sym ev)
trim-IsTrimmed t v (inr (lead, trail, e, hl, ht, starts, ends)) =
    let from = Starts-append v trail starts in
    ap trim e
    ∙ trim-nonempty lead (v ++ trail) from
    ∙ ap drop_found (skip_blanks-lead lead (v ++ trail) hl from)
    ∙ ap some (drop_blanks-core v trail ht ends)
