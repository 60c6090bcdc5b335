-- ===== src/SpaceMonitor.antt =====
-- space_monitor/src/ra_space_monitor.c: deleting the oldest files of a drive while its free space
-- is below a limit, and those of a camera while they hold more than its maximal age.
pub mod Groom
pub mod Search
pub mod Ends
pub mod Names
mod Tests
use recording_agent_continuo.Prelude.{
  ℕ, zero, suc, ◌+◌, ◌-◌, ◌*◌, ◌/◌, ◌%◌, ◌^◌, ltb, leb, ◌==◌, Bool, true, false, not, ◌&&◌, ◌||◌,
  Option, none, some, if◌then◌else◌, List, [], ◌∷◌, ◌++◌, drop,
}
use recording_agent_continuo.Prelude.Text.{Text, codes, text_eq, contains}
use recording_agent_continuo.Prelude.Int.{ℤ, pos, ltb_ℤ, eq_ℤ}
use recording_agent_continuo.Metarec.Recorder.{Tm}
use recording_agent_continuo.Storage.{
  Entry, unreadable, regular, directory, special, Entries, nil, cons, join_path, file_part, atoi,
  tm_of_name,
}

-- MAX_TIME_T
abbrev pub max_time_t : ℤ
max_time_t = pos 2147483647

-- The index of the duration in a file name.
abbrev pub index_duration : ℕ
index_duration = 16

-- `none` is the result -1, for a path with no '/'.
unfoldable pub get_file_duration : Text → Option ℕ
get_file_duration path = elim (file_part path) [
  | none ↦ none
  | some name ↦ some (atoi (drop index_duration name))
]

-- The names that `find_oldest_file` passes over.
unfoldable pub is_skipped : Text → Bool
is_skipped name =
    text_eq name (codes "..")
    || text_eq name (codes ".")
    || text_eq name (codes "lost+found")
    || text_eq name (codes "staging")

-- The names that `process_duration` passes over.
unfoldable pub is_uncounted : Text → Bool
unfolding is_skipped
is_uncounted name = is_skipped name || text_eq name (codes "METADATA")

-- The limit on space: at least 20, and 20 for 999999.
unfoldable pub parse_limit : ℕ → ℕ
parse_limit n = if ltb n 20 || n == 999999 then 20 else n

-- The oldest file so far: its path, empty for none, and its time.
pub record Oldest : Type 0 where
  pub path : Text
  pub time : ℤ

-- mktime is the C library's.
module _ (mktime : Tm → ℤ) where
  unfoldable pub file_name_to_epoch : Text → ℤ
  file_name_to_epoch path = elim (file_part path) [
    | none ↦ max_time_t
    | some name ↦ mktime (tm_of_name name)
  ]

  -- A regular file takes the place of the oldest if its time is smaller.
  unfoldable pub older : Text → Oldest → Oldest
  unfolding file_name_to_epoch
  older path o =
      let t = file_name_to_epoch path in
      if not (eq_ℤ t max_time_t) && ltb_ℤ t o.time then record { path = path; time = t } else o

  -- A walk through the entries of a directory; an entry that stat refuses ends it.
  unfoldable mutual
    unfolding older is_skipped

    pub find_oldest_entry : Text → Entry → Oldest → Oldest
    find_oldest_entry dir (unreadable name) o = o
    find_oldest_entry dir (regular name) o =
        if is_skipped name then o else older (join_path dir name) o
    find_oldest_entry dir (directory name opens es) o =
        if is_skipped name || not opens then o else find_oldest_entries (join_path dir name) es o
    find_oldest_entry dir (special name) o = o

    pub find_oldest_entries : Text → Entries → Oldest → Oldest
    find_oldest_entries dir nil o = o
    find_oldest_entries dir (cons (unreadable name) es) o = o
    find_oldest_entries dir (cons e es) o = find_oldest_entries dir es (find_oldest_entry dir e o)
