-- ===== src/Config/Media/Names.antt =====
-- Canonical MAC addresses.
use recording_agent_continuo.Prelude.{
  ℕ, zero, suc, ◌-◌, ◌≤◌, ◌==◌, length, take, Bool, false, ◌||◌, ◌≡◌, refl, ap, sym, ◌∙◌, inl, inr,
  Bool-cases, if◌then◌else◌, [], ◌∷◌, ◌++◌, arith,
}
use recording_agent_continuo.Prelude.Text.{Text, codes}
use recording_agent_continuo.Config.Media.{is_hex, hex_digits, fill, fill_up, canonical_mac}

abbrev is_among : ℕ → Text → Bool
is_among c [] = false
is_among c (d ∷ ds) = (c == d) || is_among c ds

-- The hexadecimal digits of a text.
abbrev pub hexadecimal : Text → Text
hexadecimal [] = []
hexadecimal (c ∷ cs) =
    let rest = hexadecimal cs in
    if is_among c (codes "0123456789ABCDEFabcdef") then c ∷ rest else rest

is_hex-among : (c : ℕ) → is_hex c ≡ is_among c (codes "0123456789ABCDEFabcdef")
unfolding is_hex
is_hex-among c = ground arith

hex_digits-hexadecimal : (n : ℕ) (s : Text) → hex_digits n s ≡ take n (hexadecimal s)
unfolding hex_digits
hex_digits-hexadecimal zero s = refl
hex_digits-hexadecimal (suc n) [] = refl
hex_digits-hexadecimal (suc n) (c ∷ cs) = elim (Bool-cases (is_hex c)) [
  | inl hex ↦ rw (hex, sym (is_hex-among c) ∙ hex) (ap (λ r. c ∷ r) (hex_digits-hexadecimal n cs))
  | inr other ↦ rw (other, sym (is_hex-among c) ∙ other) (hex_digits-hexadecimal (suc n) cs)
]

take-fill : (n k c : ℕ) → n ≤ k → take n (fill c k) ≡ fill c n
unfolding fill
take-fill zero k c h = refl
take-fill (suc n) zero c h = absurd (omega arith)
take-fill (suc n) (suc k) c h = ap (λ r. c ∷ r) (take-fill n k c (omega arith))

-- A text that is cut and then filled up.
fill_up-take : (n k c : ℕ) (s : Text) → n ≤ k → fill_up c n (take n s) ≡ take n (s ++ fill c k)
unfolding fill_up
fill_up-take zero k c s h = unfold fill in refl
fill_up-take (suc n) k c [] h =
    let whole : suc n - 0 ≡ suc n = omega arith in ap (fill c) whole ∙ sym (take-fill (suc n) k c h)
fill_up-take (suc n) k c (x ∷ s) h =
    let shorter : suc n - length (x ∷ take n s) ≡ n - length (take n s) = omega arith in
    ap (λ l. x ∷ (take n s ++ fill c l)) shorter
    ∙ ap (λ r. x ∷ r) (fill_up-take n k c s (omega arith))

-- The canonical form of a MAC address is the first twelve of its hexadecimal digits, in order,
-- with zeros on the right where it has fewer.
pub canonical_mac-digits :
    (s : Text) → canonical_mac s ≡ take 12 (hexadecimal s ++ codes "000000000000")
unfolding canonical_mac
canonical_mac-digits s =
    ap (fill_up b'0' 12) (hex_digits-hexadecimal 12 s)
    ∙ fill_up-take 12 12 b'0' (hexadecimal s) (omega arith)
    ∙ (unfold fill in refl)
