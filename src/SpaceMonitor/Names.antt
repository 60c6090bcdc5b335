-- ===== src/SpaceMonitor/Names.antt =====
-- What the space monitor reads from the path of a chunk file that the recorder has named.
use recording_agent_continuo.Prelude.{
  ℕ, zero, suc, ◌+◌, ◌/◌, ◌%◌, ◌^◌, ◌<◌, ◌≡◌, ◌≢◌, refl, ◌∙◌, ap, arith, Bool-cases, inl, inr, ltb,
  ltb→lt, none, some, [], ◌∷◌, ◌++◌, drop,
}
use recording_agent_continuo.Prelude.Text.{Text, codes, digits_of, decimal_acc, format_0, last_from}
use recording_agent_continuo.Prelude.Int.{ℤ}
use recording_agent_continuo.Metarec.Recorder.{Tm}
use recording_agent_continuo.Metarec.Chunk.{chunk_name, final_name}
use recording_agent_continuo.Storage.{join_path, tm_of_name, atoi}
use recording_agent_continuo.Storage.Names.{
  IsCalendar, digits_of-append, decimal_acc-append, decimal_last, decimal_more, stamped,
  final_name-stamped, final_name-tm_of_name,
}
use recording_agent_continuo.SpaceMonitor.{get_file_duration, file_name_to_epoch}

-- No '/' in a text.
abbrev pub IsPlain : Text → Type 0
IsPlain s = last_from 47 s ≡ none

cons-IsPlain : (c : ℕ) (s : Text) → c ≢ 47 → IsPlain s → IsPlain (c ∷ s)
cons-IsPlain c s h k = ground (arith, h, k)

digits_of-IsPlain : (w n : ℕ) (r : Text) → IsPlain r → IsPlain (digits_of w n r)
digits_of-IsPlain zero n r h = h
digits_of-IsPlain (suc w) n r h =
    digits_of-IsPlain w (n / 10) ((48 + n % 10) ∷ r) (cons-IsPlain (48 + n % 10) r (omega arith) h)

decimal_acc-IsPlain : (f n : ℕ) (r : Text) → IsPlain r → IsPlain (decimal_acc f n r)
decimal_acc-IsPlain zero n r h = h
decimal_acc-IsPlain (suc f) n r h =
    let longer = cons-IsPlain (48 + n % 10) r (omega arith) h in
    elim (Bool-cases (ltb n 10)) [
      | inl small ↦ ap (last_from 47) (decimal_last f n r (ltb→lt n 10 small)) ∙ longer
      | inr large ↦
          ap (last_from 47) (decimal_more f n r (ground arith))
          ∙ decimal_acc-IsPlain f (n / 10) ((48 + n % 10) ∷ r) longer
    ]

format_0-IsPlain : (w n : ℕ) (r : Text) → IsPlain r → IsPlain (format_0 w n ++ r)
unfolding format_0
format_0-IsPlain w n r h = elim (Bool-cases (ltb n (10 ^ w))) [
  | inl fits ↦ rw fits (ap (last_from 47) (digits_of-append w n [] r) ∙ digits_of-IsPlain w n r h)
  | inr long ↦
      rw long (ap (last_from 47) (decimal_acc-append 20 n [] r) ∙ decimal_acc-IsPlain 20 n r h)
]

stamped-IsPlain : (t : Tm) (r : Text) → IsPlain r → IsPlain (stamped t r)
unfolding stamped
stamped-IsPlain t r h =
    let clock : Text = digits_of 2 t.tm_min (digits_of 2 t.tm_sec r) in
    let rest : Text = digits_of 2 t.tm_hour clock in
    let day : Text = digits_of 2 t.tm_mday (45 ∷ rest) in
    let clock_plain : IsPlain clock =
      digits_of-IsPlain 2 t.tm_min (digits_of 2 t.tm_sec r) (digits_of-IsPlain 2 t.tm_sec r h) in
    let rest_plain : IsPlain rest = digits_of-IsPlain 2 t.tm_hour clock clock_plain in
    let day_plain : IsPlain day =
      digits_of-IsPlain 2 t.tm_mday (45 ∷ rest) (cons-IsPlain 45 rest (omega arith) rest_plain) in
    digits_of-IsPlain 4 t.tm_year (digits_of 2 t.tm_mon day)
      (digits_of-IsPlain 2 t.tm_mon day day_plain)

final_name-IsPlain :
    (t : Tm) (duration : ℕ) → IsCalendar t → IsPlain (final_name (chunk_name t) duration)
final_name-IsPlain t duration c =
    ap (last_from 47) (final_name-stamped t duration c)
    ∙ stamped-IsPlain t (46 ∷ (format_0 9 duration ++ codes ".data")) (
        cons-IsPlain 46 (format_0 9 duration ++ codes ".data") (omega arith)
          (format_0-IsPlain 9 duration (codes ".data") refl))

-- The last part of a path, where it has no '/' in it.
last_from-join :
    (dir name : Text) → IsPlain name → last_from 47 (join_path dir name) ≡ some (47 ∷ name)
last_from-join [] name h = ground (arith, h)
last_from-join (c ∷ cs) name h = ground (arith, last_from-join cs name h)

epoch_parts :
    (mktime : Tm → ℤ) (path name : Text)
    → last_from 47 path ≡ some (47 ∷ name)
    → file_name_to_epoch mktime path ≡ mktime (tm_of_name name)
unfolding file_name_to_epoch
epoch_parts mktime path name h = ground (arith, h)

duration_parts :
    (path name : Text)
    → last_from 47 path ≡ some (47 ∷ name)
    → get_file_duration path ≡ some (atoi (drop 16 name))
unfolding get_file_duration
duration_parts path name h = ground (arith, h)

-- For a time with a year of four digits and at most two digits in each other part, a duration
-- below 10 ^ 20 and any directory, the space monitor gets from the path of a chunk file that the
-- recorder has named the epoch of the time in its name and the duration in its name.
pub file_name_to_epoch-final_name :
    (mktime : Tm → ℤ) (dir : Text) (t : Tm) (duration : ℕ)
    → IsCalendar t
    → duration < 10 ^ 20
    → let path = join_path dir (final_name (chunk_name t) duration) in
      (file_name_to_epoch mktime path ≡ mktime t) × (get_file_duration path ≡ some duration)
file_name_to_epoch-final_name mktime dir t duration c h =
    let name = final_name (chunk_name t) duration in
    let last = last_from-join dir name (final_name-IsPlain t duration c) in
    let read = final_name-tm_of_name t duration c h in
    (
      epoch_parts mktime (join_path dir name) name last ∙ ap mktime read.0,
      duration_parts (join_path dir name) name last ∙ ap some read.1,
    )
