-- ===== src/Download.antt =====
-- Downloads by the remote agent: reagent/src/ra_download.c. What is read of a drive, and the system
-- calls of an attempt, are given by records; the names of chunk files are shorter than 256 characters,
-- the headers' offsets below 2 ^ 53, where the way through double changes nothing, and the sizes of
-- insert_chunk_metadata are compared exactly. make_filepath fails
-- where it leaves the path empty. The offset for the main data, the main data and the commands that
-- are run are left out.
pub mod Attempt
pub mod Contents
pub mod Copies
pub mod Playback
pub mod Segments
pub mod Status
pub mod Tests
use recording_agent_continuo.Prelude.{
  ℕ, zero, suc, ◌+◌, ◌*◌, ◌/◌, ◌^◌, ◌==◌, ltb, leb, length, take, Bool, true, false, ◌&&◌, ◌||◌,
  Option, none, some, if◌then◌else◌, List, [], ◌∷◌, ◌++◌,
}
use recording_agent_continuo.Prelude.Text.{Text}
use recording_agent_continuo.Metarec.Recorder.{u64, sub_u64}
use recording_agent_continuo.Storage.{basename}
use recording_agent_continuo.Search.{mklink, get_file_size}

pub record DrChunk : Type 0 where
  pub epoch_time : ℕ
  pub duration : ℕ
  pub gap : Bool

-- The path of a chunk, if there is one; the size of a file, if stat succeeds; the header of a chunk,
-- if it can be read, with the offset of a valid time source; the current offset; the signature that
-- is stored in a file; and whether a file can be copied.
pub record Drive : Type 0 where
  pub make_filepath : DrChunk → Option Text
  pub size_of : Text → Option ℕ
  pub header : Text → Option (Option ℕ)
  pub timeoffset : ℕ
  pub stored_sig : Text → Text
  pub copies : Text → Text → Bool

unfoldable pub header_offset : Option (Option ℕ) → (timeoffset offset : ℕ) → ℕ
header_offset none now offset = offset
header_offset (some none) now offset = now
header_offset (some (some o)) now offset = o

-- The offset of the chunk in place of the one before.
unfoldable pub get_timeoffset_from_chunk_header : Drive → Text → ℕ → ℕ
get_timeoffset_from_chunk_header d tp offset = header_offset (d.header tp) d.timeoffset offset

-- What is written of the segments; a time is the argument of epoch_to_string.
pub data Piece : Type 0 where
  segment_start : Piece
  chunk : (name signature : Text) → Piece
  segment : (start_time end_time : ℕ) → Piece

-- The local variables; first_chunk is set where cc leaves 0.
pub record Writing : Type 0 where
  pub s : ℕ
  pub first_chunk_offset : ℕ
  pub last_chunk_offset : ℕ
  pub start_time : ℕ
  pub cc : ℕ

unfoldable pub start_first : Drive → Text → Writing → List Piece × Writing
start_first d tp w =
    let o = get_timeoffset_from_chunk_header d tp w.first_chunk_offset in
    let t = sub_u64 w.s o in
    if w.cc == 0
    then (segment_start ∷ [], record w { s = t; first_chunk_offset = o; start_time = t })
    else ([], w)

-- The end of a segment behind a chunk.
unfoldable pub end_segment : Drive → Text → DrChunk → Writing → List Piece × Writing
end_segment d tp c w =
    let o = get_timeoffset_from_chunk_header d tp w.last_chunk_offset in
    let t = u64 (sub_u64 c.epoch_time o + c.duration / 1000000) in
    (segment w.start_time t ∷ [], record w { s = t; last_chunk_offset = o })

-- The start of the next, from the offset of the same file.
unfoldable pub start_next : Drive → Text → List DrChunk → Writing → List Piece × Writing
start_next d tp [] w = ([], w)
start_next d tp (next ∷ cs) w =
    let o = get_timeoffset_from_chunk_header d tp w.first_chunk_offset in
    let t = sub_u64 next.epoch_time o in
    (segment_start ∷ [], record w { s = t; first_chunk_offset = o; start_time = t })

abbrev pub is_last : List DrChunk → Bool
is_last [] = true
is_last (c ∷ cs) = false

unfoldable pub end_if_gap : Drive → Text → DrChunk → List DrChunk → Writing → List Piece × Writing
end_if_gap d tp c cs w =
    let ended = end_segment d tp c w in
    let started = start_next d tp cs ended.1 in
    if c.gap || is_last cs then (ended.0 ++ started.0, started.1) else ([], w)

-- What is written of a chunk with a path.
unfoldable pub add_chunk : Drive → Text → DrChunk → List DrChunk → Writing → List Piece × Writing
add_chunk d tp c cs w =
    let opened = start_first d tp w in
    let w1 = record opened.1 { cc = opened.1.cc + 1 } in
    let ended = end_if_gap d tp c cs w1 in
    (opened.0 ++ (chunk (basename tp) (d.stored_sig tp) ∷ ended.0), ended.1)

unfoldable pub copy_path : (destination tp : Text) → Text
copy_path destination tp = take 4094 (destination ++ b'/' ∷ basename tp)

-- A chunk with its path, if it has one, and then the others; none in place of the variables where a
-- copy fails.
unfoldable pub add_path :
    Drive
    → (destination : Text) → Option Text
    → DrChunk
    → List DrChunk
    → (others : Writing → List Piece × Option Writing) → Writing
    → List Piece × Option Writing
add_path d destination none c cs others w = others w
add_path d destination (some tp) c cs others w =
    let added = add_chunk d tp c cs w in
    let rest = others added.1 in
    if d.copies tp (copy_path destination tp) then (added.0 ++ rest.0, rest.1) else (added.0, none)

-- What is written of the chunks.
unfoldable pub add_chunks :
    Drive → (destination : Text) → List DrChunk → Writing → List Piece × Option Writing
add_chunks d destination [] w = ([], some w)
add_chunks d destination (c ∷ cs) w =
    add_path d destination (d.make_filepath c) c cs (add_chunks d destination cs) w

-- The size of the files; where stat fails, that of the last stat counts again.
unfoldable pub total_size : Drive → (st_size : ℕ) → List DrChunk → ℕ
total_size d st_size [] = 0
total_size d st_size (c ∷ cs) = elim (d.make_filepath c) [
  | none ↦ total_size d st_size cs
  | some tp ↦ elim (d.size_of tp) [
    | none ↦ st_size + total_size d st_size cs
    | some size ↦ size + total_size d size cs
  ]
]

-- The numbers are defined outside.
pub data DownloadStatus : Type 0 where
  ok_full : DownloadStatus
  failure : DownloadStatus
  internal_err : DownloadStatus
  size_err : DownloadStatus
  range_err : DownloadStatus

-- At the start: the time of the first chunk, whether or not it has a path.
abbrev pub writing_at : ℕ → Writing
writing_at t = record {
  s = t;
  first_chunk_offset = 0;
  last_chunk_offset = 0;
  start_time = 0;
  cc = 0;
}

abbrev pub or_zero : Option ℕ → ℕ
or_zero none = 0
or_zero (some n) = n

unfoldable pub written_status : Option Writing → DownloadStatus
written_status none = internal_err
written_status (some w) = if w.cc == 0 then failure else ok_full

-- From the free bytes of the destination, if statvfs succeeds, and what the buffer of stat holds.
unfoldable pub insert_chunk_metadata :
    Drive
    → (destination : Text) → (free : Option ℕ) → (st_size : ℕ) → List DrChunk
    → List Piece × DownloadStatus
insert_chunk_metadata d destination free st_size [] = ([], internal_err)
insert_chunk_metadata d destination free st_size (c ∷ cs) =
    let added = add_chunks d destination (c ∷ cs) (writing_at c.epoch_time) in
    if leb (6 * or_zero free) (10 * total_size d st_size (c ∷ cs))
    then ([], size_err)
    else (added.0, written_status added.1)
