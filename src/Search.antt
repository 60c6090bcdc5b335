-- ===== src/Search.antt =====
-- The search for recorded data by the remote agent: reagent/src/ra_data_search.c, in the build
-- without VDOCK. A walk of nftw is the list of what it calls its callback with; every path of it
-- has a slash.
pub mod Names
pub mod Oldest
pub mod Tests
use recording_agent_continuo.Prelude.{
  ℕ, zero, suc, ◌+◌, ◌-◌, ◌*◌, ◌/◌, ◌==◌, ltb, leb, length, take, drop, Bool, true, false, not,
  ◌&&◌, ◌||◌, Option, none, some, if◌then◌else◌, List, [], ◌∷◌, ◌++◌, ◌>>=◌,
}
use recording_agent_continuo.Prelude.Text.{Text, codes, text_eq, contains, starts_with, last_from}
use recording_agent_continuo.Prelude.Int.{ℤ}
use recording_agent_continuo.Metarec.Recorder.{Tm}
use recording_agent_continuo.Storage.{tm_of_name, join_path, basename, file_part}

-- The copy of a file by blocks: what each fread gives, up to the end of the file, and how much of
-- each fwrite is written. The blocks written, and whether EXIT_SUCCESS is returned.
unfoldable pub copy_blocks : (reads : List Text) → (written : Text → ℕ) → List Text × Bool
copy_blocks [] written = ([], true)
copy_blocks ([] ∷ reads) written = copy_blocks reads written
copy_blocks ((c ∷ cs) ∷ reads) written =
    let rest = copy_blocks reads written in
    let block = c ∷ cs in
    let kept = take (written block) block in
    if written block == length block then (kept ∷ rest.0, rest.1) else (kept ∷ [], false)

-- None for a file that cannot be opened.
unfoldable pub copy_file :
    (source : Option (List Text))
    → (opens_dest : Bool) → (written : Text → ℕ) → Option (List Text) × Bool
copy_file none opens_dest written = (none, false)
copy_file (some reads) false written = (none, false)
copy_file (some reads) true written =
    let (blocks, done) = copy_blocks reads written in (some blocks, done)

-- The paths that _mkdir makes, from those characters of the path on that are left: the path before
-- each slash but the first character, and the path itself.
unfoldable pub mkdir_from : (before left : Text) → List Text
mkdir_from before [] = before ∷ []
mkdir_from before (c ∷ cs) =
    let rest = mkdir_from (before ++ c ∷ []) cs in if c == b'/' then before ∷ rest else rest

-- One slash at the end is dropped.
unfoldable pub drop_last_slash : Text → Text
drop_last_slash [] = []
drop_last_slash (c ∷ []) = if c == b'/' then [] else c ∷ []
drop_last_slash (c ∷ d ∷ ds) = c ∷ drop_last_slash (d ∷ ds)

unfoldable pub mkdir_all : Text → List Text
mkdir_all [] = [] ∷ []
mkdir_all (c ∷ cs) = mkdir_from (c ∷ []) cs

-- The calls of mkdir, in order; the path is cut to the buffer.
unfoldable pub _mkdir : Text → List Text
_mkdir dir = mkdir_all (drop_last_slash (take 255 dir))

abbrev pub path_max : ℕ
path_max = 4096

unfoldable pub link_to : Option Text → (destination : Text) → Option Text
link_to none destination = none
link_to (some name) destination =
    if ltb (path_max - 1 - length destination) (length name)
    then none
    else some (destination ++ name)

-- The path of the link that is made for a file; none where it fails before.
unfoldable pub mklink : (file destination : Text) → Option Text
mklink file destination = link_to (last_from b'/' file) destination

unfoldable pub get_file_size : (st_size : Option ℕ) → Option ℕ
get_file_size none = none
get_file_size (some size) = some (size / 1024)

unfoldable pub is_camera_dir : (cam_name : Text) → (d_name : Text) → Bool
is_camera_dir cam_name d_name =
    not (
      text_eq d_name (codes "..")
      || (text_eq d_name (codes ".") || text_eq d_name (codes "METADATA")))
    && contains cam_name d_name

unfoldable pub camera_dirs : (cam_name temp_path : Text) → List Text → List Text
camera_dirs cam_name temp_path [] = []
camera_dirs cam_name temp_path (d ∷ ds) =
    let rest = camera_dirs cam_name temp_path ds in
    if is_camera_dir cam_name d then join_path temp_path d ∷ rest else rest

abbrev pub found_dirs : List Text → Option (List Text)
found_dirs [] = none
found_dirs (d ∷ ds) = some (d ∷ ds)

-- The directories of a camera below the root, from the entries of the root; none for EXIT_FAILURE.
unfoldable pub get_camera_dir_path :
    (cam_name root_dir : Text) → (entries : Option (List Text)) → Option (List Text)
get_camera_dir_path cam_name root_dir none = none
get_camera_dir_path cam_name root_dir (some entries) =
    found_dirs (camera_dirs cam_name (root_dir ++ b'/' ∷ []) entries)

-- A call of the callback: the path, st_mtime and whether the flag is FTW_F.
pub record Visit : Type 0 where
  pub fpath : Text
  pub st_mtime : ℕ
  pub is_file : Bool

-- The static variables.
pub record Search : Type 0 where
  pub mtime_start : ℕ
  pub mtime_end : ℕ
  pub time_epoch : ℤ
  pub temp_buff : Text

-- The regular expression of check_ra_file_regex, and mktime.
module _ (matches : Text → Bool) (mktime : Tm → ℤ) where
  unfoldable pub file_name_to_epoch : Text → Option ℤ
  file_name_to_epoch name = if matches name then some (mktime (tm_of_name name)) else none

  unfoldable pub take_oldest : Visit → Option ℤ → Search → Search
  take_oldest v none s = s
  take_oldest v (some t) s = record s {
    mtime_start = v.st_mtime;
    temp_buff = v.fpath;
    time_epoch = t;
  }

  unfoldable pub get_oldest_timestamp : Visit → Search → Search
  get_oldest_timestamp v s =
      if v.is_file && ((s.mtime_start == 0) || ltb v.st_mtime s.mtime_start)
      then take_oldest v (file_name_to_epoch (basename v.fpath)) s
      else s

  unfoldable pub take_newest : Visit → Option ℤ → Search → Search
  take_newest v none s = s
  take_newest v (some t) s = record s {
    mtime_end = v.st_mtime;
    temp_buff = v.fpath;
    time_epoch = t;
  }

  unfoldable pub get_newest_timestamp : Visit → Search → Search
  get_newest_timestamp v s =
      if v.is_file && ((s.mtime_end == 0) || ltb s.mtime_end v.st_mtime)
      then take_newest v (file_name_to_epoch (basename v.fpath)) s
      else s

  unfoldable pub walk : (Visit → Search → Search) → List Visit → Search → Search
  walk f [] s = s
  walk f (v ∷ vs) s = walk f vs (f v s)

  -- The path that is returned, and the time of its name where it has one, with the variables that
  -- are left; none where the path has no slash, behind which the program looks for a name.
  unfoldable pub return_path : Search → Option (Option (Text × Option ℤ) × Search)
  return_path r = do
    name ← file_part r.temp_buff
    some (some (r.temp_buff, file_name_to_epoch name), r)

  -- What is returned is none where nftw fails.
  unfoldable pub get_data_start_time :
      (walked : Option (List Visit)) → Search → Option (Option (Text × Option ℤ) × Search)
  get_data_start_time none s = some (none, record s { mtime_start = 0 })
  get_data_start_time (some vs) s =
      return_path (walk get_oldest_timestamp vs (record s { mtime_start = 0 }))

  unfoldable pub get_data_end_time :
      (walked : Option (List Visit)) → Search → Option (Option (Text × Option ℤ) × Search)
  get_data_end_time none s = some (none, record s { mtime_end = 0 })
  get_data_end_time (some vs) s =
      return_path (walk get_newest_timestamp vs (record s { mtime_end = 0 }))

-- The text before the last of '.', '/' and a backslash, and from it on; none without one behind the
-- first character.
abbrev is_stop : ℕ → Bool
is_stop c = c == b'.' || (c == b'\\' || (c == b'/'))

unfoldable pub cut_at_last : Text → Option (Text × Text)
cut_at_last [] = none
cut_at_last (c ∷ cs) = elim (cut_at_last cs) [
  | some (a, b) ↦ some (c ∷ a, b)
  | none ↦ if is_stop c then some ([], c ∷ cs) else none
]

abbrev pub ends_in_separator : Text → Bool
ends_in_separator [] = true
ends_in_separator (c ∷ []) = c == b'\\' || (c == b'/')
ends_in_separator (c ∷ d ∷ ds) = ends_in_separator (d ∷ ds)

-- The text before a dot that is not the first character and not behind a separator.
unfoldable pub strip_cut : Option (Text × Text) → (fname : Text) → Text
strip_cut none fname = fname
strip_cut (some (a, [])) fname = fname
strip_cut (some (a, c ∷ b)) fname = if (c == b'.') && not (ends_in_separator a) then a else fname

unfoldable pub strip_ext : Text → Text
unfolding strip_cut cut_at_last
strip_ext fname = strip_cut (cut_at_last fname) fname

-- Whether what stands behind an underscore ends the text: its end, another, or the end of the array.
unfoldable pub is_trailing : (len : ℕ) → Text → Bool
is_trailing zero cs = true
is_trailing (suc len) [] = true
is_trailing (suc len) (c ∷ cs) = c == b'_'

-- The text that is left of an array of len characters, or fewer and their end.
unfoldable pub trim_trailing_undersore : (len : ℕ) → Text → Text
unfolding is_trailing
trim_trailing_undersore zero s = s
trim_trailing_undersore (suc len) [] = []
trim_trailing_undersore (suc len) (c ∷ cs) =
    let rest = c ∷ trim_trailing_undersore len cs in
    if (c == b'_') && is_trailing len cs then [] else rest

unfoldable pub underscores : ℕ → Text
underscores zero = []
underscores (suc n) = b'_' ∷ underscores n

unfoldable pub add_trailing_underscore : (len : ℕ) → Text → Text
unfolding underscores
add_trailing_underscore len s = s ++ underscores (len - length s)
