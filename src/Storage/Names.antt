-- ===== src/Storage/Names.antt =====
-- The names that the recorder gives to its chunk files (metarec/src/metachunk.c), read by the
-- programs that walk a drive.
use recording_agent_continuo.Prelude.{
  ℕ, zero, suc, ◌+◌, ◌-◌, ◌*◌, ◌/◌, ◌%◌, ◌^◌, ◌<◌, ◌≤◌, ◌≡◌, refl, sym, ◌∙◌, ap, arith, Bool-cases,
  inl, inr, ltb, lt→ltb, ltb→lt, [], ◌∷◌, ◌++◌, drop,
}
use recording_agent_continuo.Prelude.Text.{
  Text, codes, digits_of, pad, decimal_acc, decimal, format_0, format, parse_digits,
}
use recording_agent_continuo.Metarec.Recorder.{Tm}
use recording_agent_continuo.Metarec.Chunk.{chunk_name, final_name}
use recording_agent_continuo.Storage.{atoi, tm_of_name}

-- A year of four digits, and two digits for each other part.
pub record IsCalendar (t : Tm) : Type 0 where
  pub year_min : 1000 ≤ t.tm_year
  pub year_max : t.tm_year < 10000
  pub mon : t.tm_mon < 100
  pub mday : t.tm_mday < 100
  pub hour : t.tm_hour < 100
  pub min : t.tm_min < 100
  pub sec : t.tm_sec < 100

digit_value : (k d : ℕ) → k * 10 + (48 + d - 48) ≡ k * 10 + d
digit_value k d = omega arith

-- Reading one digit.
parse_digit :
    (k d : ℕ) (r : Text) → d < 10 → parse_digits k ((48 + d) ∷ r) ≡ parse_digits (k * 10 + d) r
parse_digit k d r h = ground (arith, ap (λ m. parse_digits m r) (digit_value k d))

parse-digits_of :
    (w n : ℕ) (r : Text) → n < 10 ^ w → parse_digits 0 (digits_of w n r) ≡ parse_digits n r
parse-digits_of zero n r h = ap (λ m. parse_digits m r) (omega arith)
parse-digits_of (suc w) n r h =
    parse-digits_of w (n / 10) ((48 + n % 10) ∷ r) (omega arith)
    ∙ parse_digit (n / 10) (n % 10) r (omega arith)
    ∙ ap (λ m. parse_digits m r) (omega arith)

parse-pad_two :
    (k n : ℕ) (r : Text) → n < 100 → parse_digits k (digits_of 2 n r) ≡ parse_digits (k * 100 + n) r
parse-pad_two k n r h =
    parse_digit k (n / 10 % 10) ((48 + n % 10) ∷ r) (omega arith)
    ∙ parse_digit (k * 10 + n / 10 % 10) (n % 10) r (omega arith)
    ∙ ap (λ m. parse_digits m r) (omega arith)

pub decimal_last : (f n : ℕ) (r : Text) → n < 10 → decimal_acc (suc f) n r ≡ (48 + n % 10) ∷ r
decimal_last f n r h = ground arith

pub decimal_more :
    (f n : ℕ) (r : Text)
    → 10 ≤ n
    → decimal_acc (suc f) n r ≡ decimal_acc f (n / 10) ((48 + n % 10) ∷ r)
decimal_more f n r h = ground arith

parse-decimal_acc :
    (f n : ℕ) (r : Text) → n < 10 ^ f → parse_digits 0 (decimal_acc f n r) ≡ parse_digits n r
parse-decimal_acc zero n r h = ap (λ m. parse_digits m r) (omega arith)
parse-decimal_acc (suc f) n r h = elim (Bool-cases (ltb n 10)) [
  | inl small ↦
      ap (parse_digits 0) (decimal_last f n r (ltb→lt n 10 small))
      ∙ parse_digit 0 (n % 10) r (omega arith)
      ∙ ap (λ m. parse_digits m r) (omega (arith, ltb→lt n 10 small))
  | inr large ↦
      ap (parse_digits 0) (decimal_more f n r (ground arith))
      ∙ parse-decimal_acc f (n / 10) ((48 + n % 10) ∷ r) (omega arith)
      ∙ parse_digit (n / 10) (n % 10) r (omega arith)
      ∙ ap (λ m. parse_digits m r) (omega arith)
]

pub digits_of-append : (w n : ℕ) (acc r : Text) → digits_of w n acc ++ r ≡ digits_of w n (acc ++ r)
digits_of-append zero n acc r = refl
digits_of-append (suc w) n acc r = digits_of-append w (n / 10) ((48 + n % 10) ∷ acc) r

pub decimal_acc-append :
    (f n : ℕ) (acc r : Text) → decimal_acc f n acc ++ r ≡ decimal_acc f n (acc ++ r)
decimal_acc-append zero n acc r = refl
decimal_acc-append (suc f) n acc r = elim (Bool-cases (ltb n 10)) [
  | inl small ↦
      ap (λ s. s ++ r) (decimal_last f n acc (ltb→lt n 10 small))
      ∙ sym (decimal_last f n (acc ++ r) (ltb→lt n 10 small))
  | inr large ↦
      ap (λ s. s ++ r) (decimal_more f n acc (ground arith))
      ∙ decimal_acc-append f (n / 10) ((48 + n % 10) ∷ acc) r
      ∙ sym (decimal_more f n (acc ++ r) (ground arith))
]

-- atoi reads back what %0wd and %lu print, up to the first character that is no digit.
parse-format_0 :
    (w n : ℕ) (r : Text) → n < 10 ^ 20 → parse_digits 0 (format_0 w n ++ r) ≡ parse_digits n r
unfolding format_0
parse-format_0 w n r h = elim (Bool-cases (ltb n (10 ^ w))) [
  | inl fits ↦ rw fits (
      ap (parse_digits 0) (digits_of-append w n [] r)
      ∙ parse-digits_of w n r (ltb→lt n (10 ^ w) fits))
  | inr long ↦
      rw long (ap (parse_digits 0) (decimal_acc-append 20 n [] r) ∙ parse-decimal_acc 20 n r h)
]

format_two : (n : ℕ) → n < 100 → format_0 2 n ≡ pad 2 n
unfolding format_0
format_two n h = rw (lt→ltb n 100 h) refl

decimal_four : (n : ℕ) → 1000 ≤ n → n < 10000 → decimal n ≡ pad 4 n
decimal_four n low high =
    decimal_more 19 n [] (omega arith)
    ∙ decimal_more 18 (n / 10) _ (omega arith)
    ∙ decimal_more 17 (n / 10 / 10) _ (omega arith)
    ∙ decimal_last 16 (n / 10 / 10 / 10) _ (omega arith)

format_four : (n : ℕ) → 1000 ≤ n → n < 10000 → format 4 n ≡ pad 4 n
unfolding format
format_four n low high = rw (decimal_four n low high) refl

-- The name of a chunk file with its digits spelled out, in front of the rest of a name.
unfoldable pub stamped : Tm → Text → Text
stamped t r = digits_of 4 t.tm_year (
    digits_of 2 t.tm_mon (
      digits_of 2 t.tm_mday
        (45 ∷ digits_of 2 t.tm_hour (digits_of 2 t.tm_min (digits_of 2 t.tm_sec r)))))

pub final_name-stamped :
    (t : Tm) (duration : ℕ)
    → IsCalendar t
    → final_name (chunk_name t) duration ≡ stamped t (46 ∷ (format_0 9 duration ++ codes ".data"))
unfolding final_name chunk_name stamped
final_name-stamped t duration c =
    rw
      (
        format_four t.tm_year c.year_min c.year_max,
        format_two t.tm_mon c.mon,
        format_two t.tm_mday c.mday,
        format_two t.tm_hour c.hour,
        format_two t.tm_min c.min,
        format_two t.tm_sec c.sec,
      )
      refl

-- Reading three numbers that are printed behind each other.
parse_three :
    (w a b c : ℕ) (r : Text)
    → a < 10 ^ w
    → b < 100
    → c < 100
    → parse_digits 0 (digits_of w a (digits_of 2 b (digits_of 2 c r)))
      ≡ parse_digits ((a * 100 + b) * 100 + c) r
parse_three w a b c r h k l =
    parse-digits_of w a (digits_of 2 b (digits_of 2 c r)) h
    ∙ parse-pad_two a b (digits_of 2 c r) k
    ∙ parse-pad_two (a * 100 + b) c r l

atoi_date :
    (t : Tm) (r : Text)
    → IsCalendar t
    → atoi (stamped t r) ≡ (t.tm_year * 100 + t.tm_mon) * 100 + t.tm_mday
unfolding stamped
atoi_date t r c =
    parse_three 4 t.tm_year t.tm_mon t.tm_mday
      (45 ∷ digits_of 2 t.tm_hour (digits_of 2 t.tm_min (digits_of 2 t.tm_sec r))) c.year_max c.mon
      c.mday

atoi_time :
    (t : Tm) (r : Text)
    → IsCalendar t
    → atoi (drop 9 (stamped t (46 ∷ r))) ≡ (t.tm_hour * 100 + t.tm_min) * 100 + t.tm_sec
unfolding stamped
atoi_time t r c = parse_three 2 t.tm_hour t.tm_min t.tm_sec (46 ∷ r) c.hour c.min c.sec

-- Three parts of two digits behind each other, taken apart.
parts :
    (a b c : ℕ)
    → b < 100
    → c < 100
    → (((a * 100 + b) * 100 + c) / 10000 ≡ a)
      × (((a * 100 + b) * 100 + c) % 10000 / 100 ≡ b)
      × (((a * 100 + b) * 100 + c) % 100 ≡ c)
parts a b c h k = (omega arith, omega arith, omega arith)

tm_of_stamped : (t : Tm) (r : Text) → IsCalendar t → tm_of_name (stamped t (46 ∷ r)) ≡ t
tm_of_stamped t r c =
    let date = parts t.tm_year t.tm_mon t.tm_mday c.mon c.mday in
    let time = parts t.tm_hour t.tm_min t.tm_sec c.min c.sec in
    rw (atoi_date t (46 ∷ r) c, atoi_time t r c)
      (λ i. record {
        tm_year = date.0 i;
        tm_mon = date.1 i;
        tm_mday = date.2 i;
        tm_hour = time.0 i;
        tm_min = time.1 i;
        tm_sec = time.2 i;
      })

-- For a time with a year of four digits and at most two digits in each other part, and a duration
-- below 10 ^ 20, the name that the recorder gives to a finished chunk file reads back as that time,
-- and the number at index 16 of the name is the duration.
pub final_name-tm_of_name :
    (t : Tm) (duration : ℕ)
    → IsCalendar t
    → duration < 10 ^ 20
    → (tm_of_name (final_name (chunk_name t) duration) ≡ t)
      × (atoi (drop 16 (final_name (chunk_name t) duration)) ≡ duration)
unfolding stamped
final_name-tm_of_name t duration c h = rw (final_name-stamped t duration c) (
  tm_of_stamped t (format_0 9 duration ++ codes ".data") c,
  parse-format_0 9 duration (codes ".data") h,
)
