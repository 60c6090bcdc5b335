-- ===== src/EventControl/Kept.antt =====
-- The effects of a kind among those sent.
use recording_agent_continuo.Prelude.{
  ℕ, ◌+◌, ◌≡◌, refl, ap, inl, inr, Bool, true, false, if◌then◌else◌, List, [], ◌∷◌, ◌++◌,
  append-nil, length, length-append, Bool-cases,
}
use recording_agent_continuo.EventControl.State.{Effect}

module _ (is_kept : Effect → Bool) where
  abbrev pub kept : List Effect → List Effect
  kept [] = []
  kept (e ∷ es) = if is_kept e then e ∷ kept es else kept es

  pub kept-append : (es fs : List Effect) → kept (es ++ fs) ≡ kept es ++ kept fs
  kept-append [] fs = refl
  kept-append (e ∷ es) fs = elim (Bool-cases (is_kept e)) [
    | inl h ↦ rw h (ap (λ r. e ∷ r) (kept-append es fs))
    | inr h ↦ rw h (kept-append es fs)
  ]

  pub kept-other :
      (es : List Effect) (e : Effect) → is_kept e ≡ false → kept (es ++ (e ∷ [])) ≡ kept es
  kept-other es e h = rw (kept-append es (e ∷ [])) (rw h (append-nil (kept es)))

  abbrev pub count_kept : List Effect → ℕ
  count_kept es = length (kept es)

  pub count-other :
      (es : List Effect) (e : Effect)
      → is_kept e ≡ false
      → count_kept (es ++ (e ∷ [])) ≡ count_kept es
  count-other es e h = ap length (kept-other es e h)

  pub count-one :
      (es : List Effect) (e : Effect)
      → is_kept e ≡ true
      → count_kept (es ++ (e ∷ [])) ≡ count_kept es + 1
  count-one es e h = rw (kept-append es (e ∷ [])) (rw h (length-append (kept es) (e ∷ [])))
