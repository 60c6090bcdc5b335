-- ===== src/Search/Names.antt =====
-- Names of cameras and locomotives, filled up with underscores and cut again.
use recording_agent_continuo.Prelude.{
  ℕ, zero, suc, ◌+◌, ◌-◌, ◌≤◌, ◌==◌, length, false, ◌&&◌, ◌≡◌, ◌≢◌, ◌⊎◌, refl, ap, ◌∙◌, [], ◌∷◌,
  ◌++◌, arith,
}
use recording_agent_continuo.Prelude.Text.{Text}
use recording_agent_continuo.Search.{
  is_trailing, trim_trailing_undersore, underscores, add_trailing_underscore,
}

-- No underscore at the end, and no two side by side.
abbrev pub IsTrimmedName : Text → Type 0
IsTrimmedName [] = Unit
IsTrimmedName (c ∷ []) = c ≢ b'_'
IsTrimmedName (c ∷ d ∷ ds) = ((c ≢ b'_') ⊎ (d ≢ b'_')) × IsTrimmedName (d ∷ ds)

trim-underscores : (n : ℕ) → trim_trailing_undersore n (underscores n) ≡ []
unfolding trim_trailing_undersore is_trailing underscores
trim-underscores zero = refl
trim-underscores (suc zero) = refl
trim-underscores (suc (suc n)) = refl

trim-fill :
    (len n : ℕ) (s : Text)
    → IsTrimmedName s
    → length s + n ≡ len
    → trim_trailing_undersore len (s ++ underscores n) ≡ s
unfolding trim_trailing_undersore is_trailing
trim-fill len n [] h e =
    let same : len ≡ n = omega arith in
    ap (λ m. trim_trailing_undersore m (underscores n)) same ∙ trim-underscores n
trim-fill zero n (c ∷ cs) h e = absurd (omega arith)
trim-fill (suc len) n (c ∷ []) h e =
    let plain : (c == b'_') ≡ false = ground arith in
    rw plain (ap (λ r. c ∷ r) (trim-fill len n [] tt (omega arith)))
trim-fill (suc zero) n (c ∷ d ∷ ds) h e = absurd (omega arith)
trim-fill (suc (suc len)) n (c ∷ d ∷ ds) h e =
    let keep : ((c == b'_') && (d == b'_')) ≡ false = ground arith in
    rw keep (ap (λ r. c ∷ r) (trim-fill (suc len) n (d ∷ ds) h.1 (omega arith)))

-- A name of at most len characters with no underscore at its end and no two side by side is filled
-- up with underscores to len characters and comes back when they are trimmed.
pub trim-add :
    (len : ℕ) (s : Text)
    → IsTrimmedName s
    → length s ≤ len
    → trim_trailing_undersore len (add_trailing_underscore len s) ≡ s
unfolding add_trailing_underscore
trim-add len s h le = trim-fill len (len - length s) s h (omega arith)
