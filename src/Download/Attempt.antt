-- ===== src/Download/Attempt.antt =====
-- An attempt of a download, on one drive and then on the other: validate_destination, zip_files,
-- perform_download and do_download of reagent/src/ra_download.c.
use recording_agent_continuo.Prelude.{
  ℕ, ◌-◌, ◌*◌, ltb, ◌==◌, length, Bool, true, false, not, ◌&&◌, Option, none, some, if◌then◌else◌,
  List, [], ◌∷◌, ◌++◌,
}
use recording_agent_continuo.Prelude.Text.{Text}
use recording_agent_continuo.Search.{path_max, get_file_size}
use recording_agent_continuo.Download.{
  DrChunk, Drive, DownloadStatus, ok_full, failure, internal_err, size_err, range_err,
  insert_chunk_metadata,
}
use recording_agent_continuo.Download.Playback.{prepare_playback}

pub data RequestType : Type 0 where
  download : RequestType
  playback : RequestType

-- What retrive_data gives: -1, another number below 1, or some chunks.
pub data Retrieved : Type 0 where
  outside_range : Retrieved
  no_data : Retrieved
  found : List DrChunk → Retrieved

-- What the system gives in an attempt: the result of the rm of a playback, the destination, whether
-- it is a directory and can be cleaned, its free bytes at both calls of statvfs, the chunks, whether
-- there is a configuration, the files that can be opened and encrypted, the result of zip, the size
-- of the file, and the drive.
pub record Attempt : Type 0 where
  pub removes : Bool
  pub destination : Text
  pub is_dir : Bool
  pub cleans : Bool
  pub free : Option ℕ
  pub retrieved : Retrieved
  pub media_info : Bool
  pub opens_meta : Bool
  pub free_later : Option ℕ
  pub stat_buffer : ℕ
  pub encrypts_meta : Bool
  pub zips : Bool
  pub encrypts_zip : Bool
  pub st_size : Option ℕ
  pub drive : Drive

abbrev megabyte : ℕ
megabyte = 1048576

abbrev storage_limit : RequestType → ℕ
storage_limit download = 3200 * megabyte
storage_limit playback = 50 * megabyte

abbrev pub has_room : RequestType → Option ℕ → Bool
has_room type none = false
has_room type (some n) = not (ltb n (storage_limit type))

-- Whether EXIT_SUCCESS is returned.
unfoldable pub validate_destination : RequestType → Attempt → Bool
validate_destination type a = a.is_dir && (a.cleans && has_room type a.free)

-- What insert_maindata returns for an open file.
unfoldable pub maindata_status : Attempt → DownloadStatus
maindata_status a = if a.media_info && a.encrypts_meta then ok_full else internal_err

-- The status, and the size of the file in place of the one before.
unfoldable pub zip_files : Attempt → ℕ → DownloadStatus × ℕ
zip_files a file_size =
    if ltb (path_max - 4 - 1) (length a.destination)
    then (internal_err, file_size)
    else if a.zips && a.encrypts_zip
    then (ok_full, elim (get_file_size a.st_size) [ some n ↦ n | none ↦ file_size ])
    else (internal_err, file_size)

-- Whether EXIT_SUCCESS is returned, the status, and the size of the file.
pub record Outcome : Type 0 where
  pub success : Bool
  pub status : DownloadStatus
  file_size : ℕ

abbrev failed : DownloadStatus → Outcome
failed st = record { success = false; status = st; file_size = 0 }

-- The status for what insert_chunk_metadata returned when it failed.
abbrev pub status_of_chunks : DownloadStatus → DownloadStatus
status_of_chunks size_err = size_err
status_of_chunks internal_err = internal_err
status_of_chunks ok_full = failure
status_of_chunks failure = failure
status_of_chunks range_err = failure

-- The status for what insert_maindata or zip_files returned when it failed.
abbrev pub status_of_file : DownloadStatus → DownloadStatus
status_of_file internal_err = internal_err
status_of_file size_err = failure
status_of_file ok_full = failure
status_of_file failure = failure
status_of_file range_err = failure

abbrev pub is_full : DownloadStatus → Bool
is_full ok_full = true
is_full failure = false
is_full internal_err = false
is_full size_err = false
is_full range_err = false

unfoldable pub zip_outcome : DownloadStatus × ℕ → Outcome
zip_outcome (st, n) =
    if is_full st
    then record { success = true; status = ok_full; file_size = n }
    else record { success = false; status = status_of_file st; file_size = n }

-- init_meta_file refuses an empty path.
abbrev pub opens_in : Text → Bool
opens_in [] = false
opens_in (c ∷ cs) = true

-- The download of some chunks.
unfoldable pub download_chunks : Attempt → (destination : Text) → List DrChunk → Outcome
download_chunks a destination cs =
    let inserted = (insert_chunk_metadata a.drive destination a.free_later a.stat_buffer cs).1 in
    if not (a.media_info && (opens_in destination && a.opens_meta))
    then failed internal_err
    else if not (is_full inserted)
    then failed (status_of_chunks inserted)
    else if not (is_full (maindata_status a))
    then failed (status_of_file (maindata_status a))
    else zip_outcome (zip_files a 0)

-- The text up to the last slash and with it.
abbrev to_slash : Text → Option Text
to_slash [] = none
to_slash (c ∷ cs) = elim (to_slash cs) [
  | some r ↦ some (c ∷ r)
  | none ↦ if c == b'/' then some (c ∷ []) else none
]

unfoldable pub directory_of : Text → Text
directory_of path = elim (to_slash path) [ some dir ↦ dir | none ↦ path ]

-- The links of a playback are made, and the status stays as it was set at the start.
unfoldable pub play_chunks : Attempt → (destination : Text) → List DrChunk → Outcome
play_chunks a destination cs = elim (prepare_playback a.drive destination (0, 0) cs) [
  | none ↦ failed failure
  | some links ↦ record { success = true; status = failure; file_size = 0 }
]

unfoldable pub perform_retrieved :
    RequestType → Attempt → (destination : Text) → Retrieved → Outcome
perform_retrieved type a destination outside_range = failed range_err
perform_retrieved type a destination no_data = failed failure
perform_retrieved download a destination (found cs) = download_chunks a destination cs
perform_retrieved playback a destination (found cs) = play_chunks a destination cs

unfoldable pub perform_download : RequestType → Attempt → Outcome
perform_download playback a =
    if a.removes
    then perform_retrieved playback a (a.destination ++ b'/' ∷ []) a.retrieved
    else failed failure
perform_download download a =
    if validate_destination download a
    then perform_retrieved download a (directory_of a.destination) a.retrieved
    else failed internal_err

-- The attempt on the RSSD, and that on the CHM where it fails.
unfoldable pub do_download : (rssd chm : Attempt) → Outcome
do_download rssd chm =
    let first = perform_download download rssd in
    let second = perform_download download chm in if first.success then first else second
