-- ===== src/Prelude/Text.antt =====
-- C strings as lists of character codes, without their terminating zero, and the conversions of
-- printf and atoi that the program uses.
use Prim.Native.Char.{code}
use Prim.Native.String.{String}
use Prim.Native.Nat.{ℕ, zero, suc, ◌+◌, ◌-◌, ◌*◌, ◌/◌, ◌%◌, ◌^◌}
use mathlib.Core.List.{List, [], ◌∷◌, ◌++◌}
use mathlib.Core.Bool.{Bool, true, false, ◌&&◌, ◌||◌}
use mathlib.Core.Option.{Option, none, some}
use recording_agent_continuo.Prelude.Lists.{length}
use recording_agent_continuo.Prelude.Tests.{leb, ltb, ◌==◌, if◌then◌else◌}

abbrev pub Text : Type 0
Text = List ℕ

-- The codes of a literal.
abbrev pub codes : String → Text
codes String.[] = []
codes (String.◌∷◌ c s) = code c ∷ codes s

-- strcmp (a, b) == 0
abbrev pub text_eq : Text → Text → Bool
text_eq [] [] = true
text_eq [] (b ∷ bs) = false
text_eq (a ∷ as') [] = false
text_eq (a ∷ as') (b ∷ bs) = a == b && text_eq as' bs

-- printf's %0wd for a value of at most w digits: exactly w digits.
abbrev pub digits_of : ℕ → ℕ → Text → Text
digits_of zero n acc = acc
digits_of (suc w) n acc = digits_of w (n / 10) ((48 + n % 10) ∷ acc)

abbrev pub pad : ℕ → ℕ → Text
pad w n = digits_of w n []

-- The decimal digits of a number below 10 ^ fuel, with no leading zero.
abbrev pub decimal_acc : ℕ → ℕ → Text → Text
decimal_acc zero n acc = acc
decimal_acc (suc fuel) n acc =
    let more = decimal_acc fuel (n / 10) ((48 + n % 10) ∷ acc) in
    if n / 10 == 0 then (48 + n % 10) ∷ acc else more

-- printf's %d and %lu, for a value that 64 bits hold.
abbrev pub decimal : ℕ → Text
decimal n = decimal_acc 20 n []

-- printf's %0wd: at least w digits.
unfoldable pub format_0 : ℕ → ℕ → Text
format_0 w n = if ltb n (10 ^ w) then pad w n else decimal n

abbrev pub blanks : ℕ → Text
blanks zero = []
blanks (suc n) = 32 ∷ blanks n

-- printf's %wd: at least w characters.
unfoldable pub format : ℕ → ℕ → Text
format w n = blanks (w - length (decimal n)) ++ decimal n

abbrev pub is_digit : ℕ → Bool
is_digit c = leb 48 c && leb c 57

-- atoi and atol of a text with no sign and no leading space: the value of its longest run of
-- digits.
abbrev pub parse_digits : ℕ → Text → ℕ
parse_digits acc [] = acc
parse_digits acc (c ∷ cs) =
    let rest = parse_digits (acc * 10 + (c - 48)) cs in if is_digit c then rest else acc

-- strrchr (s, c): the suffix from the last c on.
abbrev pub last_from : ℕ → Text → Option Text
last_from c [] = none
last_from c (d ∷ ds) = elim (last_from c ds) [
  | some r ↦ some r
  | none ↦ if d == c then some (d ∷ ds) else none
]

abbrev pub starts_with : Text → Text → Bool
starts_with [] s = true
starts_with (p ∷ ps) [] = false
starts_with (p ∷ ps) (c ∷ cs) = p == c && starts_with ps cs

-- strstr (s, p) != NULL
abbrev pub contains : Text → Text → Bool
contains p [] = starts_with p []
contains p (c ∷ cs) = starts_with p (c ∷ cs) || contains p cs
