-- ===== src/Config/Dom/Hosts.antt =====
-- What stands in URLs and documents once an address is new.
use recording_agent_continuo.Prelude.{
  ◌==◌, length, drop, Bool, true, false, not, ◌&&◌, ◌||◌, ◌≡◌, ◌≢◌, refl, ap, ap₂, ◌∙◌, inl, inr,
  Bool-cases, some, if◌then◌else◌, List, [], ◌∷◌, ◌++◌, arith, All,
}
use recording_agent_continuo.Prelude.Text.{Text, codes, text_eq}
use recording_agent_continuo.Config.Dom.Written.{text_eq-eq}
use recording_agent_continuo.Config.Dom.Urls.{
  one_more, find_text, find_char, or_else, find_scheme, find_end, replace_at, replace_host,
  replace_ip, NewUrls, next_found, changed, new_value, update_from, update_configuration_file,
}

abbrev pub IsColonless : Text → Type 0
IsColonless = All (λ c. c ≢ b':')

find_char-colon :
    (t rest : Text) → IsColonless t → find_char b':' (t ++ b':' ∷ rest) ≡ some (length t)
unfolding find_char
find_char-colon [] rest h = refl
find_char-colon (c ∷ t) rest h =
    let other : (c == b':') ≡ false = let ne = h.0 in ground arith in
    rw other (ap one_more (find_char-colon t rest h.1))

drop-append : (s t : Text) → drop (length s) (s ++ t) ≡ t
drop-append [] t = refl
drop-append (c ∷ s) t = drop-append s t

-- In a URL of http that has a colon behind the scheme, all between the scheme and the first colon
-- behind it is replaced by the new address, be it the address, a user name or a path.
pub replace_ip-colon :
    (t rest new_ip : Text)
    → IsColonless t
    → replace_ip (codes "http://" ++ t ++ b':' ∷ rest) new_ip
      ≡ codes "http://" ++ new_ip ++ b':' ∷ rest
unfolding replace_ip find_scheme find_text replace_host replace_at find_end
replace_ip-colon t rest new_ip h =
    ap
      (λ o.
        replace_at 7 (or_else o (find_char b'/' (t ++ b':' ∷ rest)))
          (codes "http://" ++ t ++ b':' ∷ rest) new_ip)
      (find_char-colon t rest h)
    ∙ ap (λ r. codes "http://" ++ new_ip ++ r) (drop-append t (b':' ∷ rest))

module _ (u : NewUrls) where
  text_eq_refl : (s : Text) → text_eq s s ≡ true
  text_eq_refl [] = refl
  text_eq_refl (c ∷ s) = ground (arith, text_eq_refl s)

  text_eq-changed : (new old : Text) → text_eq new (changed new old) ≡ true
  text_eq-changed new old = elim (Bool-cases (text_eq new old)) [
    | inl same ↦ rw (same, same) refl
    | inr other ↦ rw other (text_eq_refl new)
  ]

  changed-again : (new old : Text) → changed new (changed new old) ≡ changed new old
  changed-again new old = rw (text_eq-changed new old) refl

  new_value-again : (e v : Text) → new_value u e (new_value u e v) ≡ new_value u e v
  unfolding new_value
  new_value-again e v =
      ground
        (arith, changed-again u.home_page v, changed-again u.snap_url v, changed-again u.strm_url v)

  new_value-name : (e v : Text) → text_eq e (codes "name") ≡ true → new_value u e v ≡ v
  unfolding new_value
  new_value-name e v h = rw (text_eq-eq e (codes "name") h) refl

  new_value-stream :
      (e v : Text)
      → text_eq e (codes "stream_url") ≡ true
      → text_eq u.strm_url (new_value u e v) ≡ true
  unfolding new_value
  new_value-stream e v h = rw (text_eq-eq e (codes "stream_url") h) (text_eq-changed u.strm_url v)

  -- The value that the walk leaves at an element.
  abbrev left : (here : Bool) → (e v : Text) → Text
  left here e v = if here then new_value u e v else v

  next_found-again :
      (prev found here : Bool) (e v : Text)
      → next_found prev found u.tag e (left here e v) ≡ next_found prev found u.tag e v
  unfolding next_found
  next_found-again prev found false e v = refl
  next_found-again prev found true e v = elim (Bool-cases (text_eq e (codes "name"))) [
    | inl name ↦ ap (next_found prev found u.tag e) (new_value-name e v name)
    | inr other ↦ rw other refl
  ]

  left-again : (here : Bool) (e v : Text) → left here e (left here e v) ≡ left here e v
  left-again true e v = new_value-again e v
  left-again false e v = refl

  stream-again :
      (here is_stream : Bool) (e v : Text)
      → text_eq e (codes "stream_url") ≡ is_stream
      → (here && (is_stream && not (text_eq u.strm_url (left here e v)))) ≡ false
  stream-again false is_stream e v h = refl
  stream-again true false e v h = refl
  stream-again true true e v h = rw (new_value-stream e v h) refl

  update_from-again :
      (prev found : Bool) (doc : List (Text × Text))
      → update_from u prev found (update_from u prev found doc).0
        ≡ ((update_from u prev found doc).0, false)
  unfolding update_from
  update_from-again prev found [] = refl
  update_from-again prev found ((e, v) ∷ rest) =
      let p = prev || text_eq e (codes "camera") in
      let here = next_found p found u.tag e v in
      let v1 = left here e v in
      let s = text_eq e (codes "stream_url") in
      let r1 = (update_from u p (here && not s) rest).0 in
      ap
        (λ h. (
          (e, left h e v1) ∷ (update_from u p (h && not s) r1).0,
          (h && (s && not (text_eq u.strm_url v1))) || (update_from u p (h && not s) r1).1,
        ))
        (next_found-again p found here e v)
      ∙ ap
          (λ (q : List (Text × Text) × Bool).
            ((e, left here e v1) ∷ q.0, (here && (s && not (text_eq u.strm_url v1))) || q.1))
          (update_from-again p (here && not s) rest)
      ∙ ap₂ (λ x b. ((e, x) ∷ r1, b || false)) (left-again here e v) (stream-again here s e v refl)

  -- C.
  pub update_configuration_file-again :
      (doc : List (Text × Text))
      → update_configuration_file u (update_configuration_file u doc).0
        ≡ ((update_configuration_file u doc).0, false)
  unfolding update_configuration_file
  update_configuration_file-again doc = update_from-again false false doc
