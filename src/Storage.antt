-- ===== src/Storage.antt =====
-- What the programs that walk a drive share: the directory tree as readdir and stat show it, and
-- what they read from the name of a chunk file, YYYYMMDD-HHMMSS.duration.
pub mod Names
use recording_agent_continuo.Prelude.{
  ℕ, suc, ◌/◌, ◌%◌, ◌==◌, if◌then◌else◌, Bool, Option, none, some, [], ◌∷◌, ◌++◌, drop,
}
use recording_agent_continuo.Prelude.Text.{Text, codes, last_from, parse_digits}
use recording_agent_continuo.Prelude.Int.{ℤ}
use recording_agent_continuo.Metarec.Recorder.{Tm}

-- An entry of a directory: one that stat refuses, a regular file, a directory, which opendir may
-- refuse, or anything else.
mutual
  pub data Entry : Type 0 where
    unreadable : Text → Entry
    regular : Text → Entry
    directory : Text → (opens : Bool) → Entries → Entry
    special : Text → Entry

  pub data Entries : Type 0 where
    nil : Entries
    cons : Entry → Entries → Entries

-- `snprintf (path, PATH_MAX, "%s/%s", dir_path, d_name)`. Paths are taken to fit.
abbrev pub join_path : Text → Text → Text
join_path dir name = dir ++ (47 ∷ name)

-- Behind the last '/' of a path; none without one.
abbrev pub file_part : Text → Option Text
file_part path = elim (last_from 47 path) [ none ↦ none | some s ↦ some (drop 1 s) ]

-- atoi and atol of a text that starts with its digits.
abbrev pub atoi : Text → ℕ
atoi s = parse_digits 0 s

-- The time that a file name gives, as `struct tm` holds it with the year and month as written.
abbrev pub tm_of_name : Text → Tm
tm_of_name name = record {
  tm_year = atoi name / 10000;
  tm_mon = atoi name % 10000 / 100;
  tm_mday = atoi name % 100;
  tm_hour = atoi (drop 9 name) / 10000;
  tm_min = atoi (drop 9 name) % 10000 / 100;
  tm_sec = atoi (drop 9 name) % 100;
}

-- dirname: the path before its last '/', if it has one.
abbrev pub before_last : ℕ → Text → Option Text
before_last c [] = none
before_last c (d ∷ ds) = elim (before_last c ds) [
  | some r ↦ some (d ∷ r)
  | none ↦ if d == c then some [] else none
]

abbrev pub dirname : Text → Text
dirname path = elim (before_last 47 path) [ none ↦ codes "." | some d ↦ d ]

abbrev pub basename : Text → Text
basename path = elim (file_part path) [ none ↦ path | some n ↦ n ]

-- What the C library gives of a drive in the state `s`: the entries of a directory ('.' and '..'
-- among them; none if opendir fails), remove and rmdir (none if they fail), statvfs with the
-- available and all blocks, and mktime. CHM_PATH and RSSD_PATH are defined outside the repository.
pub record Disk (S : Type 0) : Type 0 where
  pub listing : S → Text → Option Entries
  pub remove : Text → S → Option S
  pub rmdir : Text → S → Option S
  pub statvfs : S → Text → Option (ℕ × ℕ)
  pub mktime : Tm → ℤ
  pub chm_path : Text
  pub rssd_path : Text

abbrev pub count_entries : Entries → ℕ
count_entries nil = 0
count_entries (cons e es) = suc (count_entries es)
