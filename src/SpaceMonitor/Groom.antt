-- ===== src/SpaceMonitor/Groom.antt =====
-- The loops of the space monitor, over the state of a drive. `while` loops take fuel; what fuel is
-- enough, and when none is, stands in the modules beside this one.
use recording_agent_continuo.Prelude.{
  ℕ, zero, suc, ◌+◌, ◌-◌, ◌*◌, ◌%◌, ◌^◌, ltb, leb, ◌==◌, Bool, true, false, not, ◌||◌, Option, none,
  some, if◌then◌else◌, List, [], ◌∷◌, ◌++◌,
}
use recording_agent_continuo.Prelude.Text.{Text, codes, text_eq, contains}
use recording_agent_continuo.Storage.{
  Entry, unreadable, regular, directory, special, Entries, nil, cons, join_path, Disk,
  count_entries, dirname, basename,
}
use recording_agent_continuo.SpaceMonitor.{
  Oldest, max_time_t, find_oldest_entries, get_file_duration, is_uncounted,
}

-- Sums of durations are of type uint64_t.
abbrev pub add_u64 : ℕ → ℕ → ℕ
add_u64 a b = (a + b) % 2 ^ 64

-- The duration of a file; -1 for a path with no '/'.
abbrev pub duration_of : Text → ℕ
duration_of path = elim (get_file_duration path) [ none ↦ 2 ^ 64 - 1 | some n ↦ n ]

unfoldable mutual
  unfolding is_uncounted

  pub process_entry : Text → Entry → ℕ
  process_entry dir (unreadable name) = 0
  process_entry dir (regular name) =
      if is_uncounted name then 0 else duration_of (join_path dir name)
  process_entry dir (directory name opens es) =
      if is_uncounted name || not opens then 0 else process_entries (join_path dir name) es
  process_entry dir (special name) = 0

  pub process_entries : Text → Entries → ℕ
  process_entries dir nil = 0
  process_entries dir (cons (unreadable name) es) = 0
  process_entries dir (cons e es) = add_u64 (process_entry dir e) (process_entries dir es)

-- The result of a loop, or of none if the fuel ran out.
pub data Outcome (A : Type 0) : Type 0 where
  finished : A → Outcome A
  out_of_fuel : Outcome A

-- The root of a drive, and a camera's directory in it, if one is given.
unfoldable pub search_path : Text → Option Text → Text
search_path root none = join_path root []
search_path root (some camera) = join_path root (camera ++ (47 ∷ []))

abbrev pub is_below : ℕ → ℕ × ℕ → Bool
is_below threshold (n, d) = ltb n (threshold * d)

module _ {S : Type 0} (disk : Disk S) where
  open disk use {listing, remove, rmdir, statvfs, mktime, chm_path, rssd_path}

  -- The drive that a monitored directory belongs to, by its name.
  unfoldable pub drive_root : Text → Text
  drive_root base = if contains (codes "chm") base then chm_path else rssd_path

  -- A directory that cannot be opened counts as not empty.
  unfoldable pub is_dir_empty : Text → S → Bool
  is_dir_empty dir s = elim (listing s dir) [ none ↦ false | some es ↦ leb (count_entries es) 2 ]

  unfoldable pub process_duration : Text → S → ℕ
  process_duration dir s = elim (listing s dir) [ none ↦ 0 | some es ↦ process_entries dir es ]

  unfoldable pub find_oldest_file : Text → S → Oldest
  find_oldest_file dir s =
      let start : Oldest = record { path = []; time = max_time_t } in
      elim (listing s dir) [ none ↦ start | some es ↦ find_oldest_entries mktime dir es start ]

  -- The loop over the levels of directories above a deleted file: it stops at one that is not
  -- empty, and passes over VideoFootages.
  unfoldable pub remove_dirs : ℕ → Text → S → S
  remove_dirs zero dir s = s
  remove_dirs (suc levels) dir s =
      let removed : S = elim (rmdir dir s) [ none ↦ s | some s' ↦ s' ] in
      let on = remove_dirs levels (dirname dir) removed in
      let past = remove_dirs levels (dirname dir) s in
      if text_eq (basename dir) (codes "VideoFootages")
      then past
      else if is_dir_empty dir s
      then on
      else s

  -- `none` is EXIT_FAILURE.
  unfoldable pub delete_oldest_file : Text → Option Text → S → Option S
  delete_oldest_file root camera s =
      let oldest = (find_oldest_file (search_path root camera) s).path in
      elim (remove oldest s) [ none ↦ none | some s' ↦ some (remove_dirs 5 (dirname oldest) s') ]

  -- The available space in percent, as a fraction; a failing statvfs gives EXIT_FAILURE, which is 1.
  -- The program computes it with floats.
  unfoldable pub process_available_space : Text → S → ℕ × ℕ
  process_available_space base s = elim (statvfs s base) [
    | none ↦ (1, 1)
    | some (avail, blocks) ↦ (avail * 100, blocks)
  ]

  -- `while (space_available < space_threshold)`
  unfoldable pub space_loop : ℕ → Text → ℕ → S → Outcome S
  space_loop zero base threshold s = out_of_fuel
  space_loop (suc fuel) base threshold s =
      elim (is_below threshold (process_available_space base s)) [
        | false ↦ finished s
        | true ↦ elim (delete_oldest_file (drive_root base) none s) [
          | none ↦ finished s
          | some s' ↦ space_loop fuel base threshold s'
        ]
      ]

  -- A result of 1 is taken for the failure.
  unfoldable pub space_handler : ℕ → Text → ℕ → S → Outcome S
  space_handler fuel base threshold s =
      let (n, d) = process_available_space base s in
      if n == d then finished s else space_loop fuel base threshold s

  -- `while (current_duration > camera_info.max_usec)`: the result of the deletion is not looked at.
  unfoldable pub groom_handler : ℕ → Text → Text → ℕ → S → Outcome S
  groom_handler zero base camera max_usec s = out_of_fuel
  groom_handler (suc fuel) base camera max_usec s =
      elim (ltb max_usec (process_duration (join_path base camera) s)) [
        | false ↦ finished s
        | true ↦
            groom_handler fuel base camera max_usec
              (elim (delete_oldest_file (drive_root base) (some camera) s) [
                | none ↦ s
                | some s' ↦ s'
              ])
      ]

  -- The loop of main over a drive's cameras with a maximal age.
  unfoldable pub groom_cameras : ℕ → Text → List (Text × ℕ) → S → Outcome S
  groom_cameras fuel base [] s = finished s
  groom_cameras fuel base ((camera, max_usec) ∷ cs) s =
      elim (groom_handler fuel base camera max_usec s) [
        | out_of_fuel ↦ out_of_fuel
        | finished s' ↦ groom_cameras fuel base cs s'
      ]

  -- A pass of main over one drive, unless grooming is not allowed.
  unfoldable pub monitor_drive : ℕ → Text → ℕ → List (Text × ℕ) → (allowed : Bool) → S → Outcome S
  monitor_drive fuel base threshold cs allowed s =
      let groomed : Outcome S = elim (space_handler fuel base threshold s) [
        | out_of_fuel ↦ out_of_fuel
        | finished s' ↦ groom_cameras fuel base cs s'
      ] in
      if allowed then groomed else finished s
