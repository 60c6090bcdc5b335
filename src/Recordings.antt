-- ===== src/Recordings.antt =====
-- recording_list/src/camera_recordings.c: the list of each camera's recorded segments on a drive.
pub mod Segments
mod Tests
use recording_agent_continuo.Prelude.{
  ℕ, zero, suc, ◌+◌, ◌-◌, ◌*◌, ◌/◌, ◌%◌, ◌^◌, ltb, leb, ◌==◌, Bool, true, false, not, ◌&&◌, ◌||◌,
  Option, none, some, if◌then◌else◌, List, [], ◌∷◌, ◌++◌, drop, take, length,
}
use recording_agent_continuo.Prelude.Text.{Text, codes, text_eq}
use recording_agent_continuo.Metarec.Recorder.{Tm}
use recording_agent_continuo.Storage.{
  Entry, unreadable, regular, directory, special, Entries, nil, cons, join_path, file_part, atoi,
  tm_of_name,
}

-- single_chunk_t: the start in seconds, and the duration in microseconds.
pub record SingleChunk : Type 0 where
  pub start_time : ℕ
  pub duration : ℕ

-- cam_rec_t. The number of chunks has 16 bits.
pub record CamRec : Type 0 where
  pub recording : List SingleChunk
  pub num_chunks : ℕ
  pub camera_name : Text

-- The array of cameras while a drive is searched: those that are complete, and the one at
-- `camera_increment`.
pub record TimeArray : Type 0 where
  pub complete : List CamRec
  pub current : CamRec

abbrev pub camera_name_length : ℕ
camera_name_length = 12

abbrev pub empty_camera : CamRec
empty_camera = record { recording = []; num_chunks = 0; camera_name = [] }

-- The '_' at a name's end are cut off; a name of '_' only is cut off whole.
abbrev pub strip_underscores : Text → Text
strip_underscores [] = []
strip_underscores (c ∷ cs) = elim (strip_underscores cs) [
  | [] ↦ if c == 95 then [] else c ∷ []
  | d ∷ ds ↦ c ∷ d ∷ ds
]

-- The name of a camera's directory: 12 characters of it. The loop that strips starts at the
-- twelfth, so that a shorter name, with zeros behind it, is kept whole.
unfoldable pub name_camera : Text → Text
name_camera name =
    if ltb (length name) camera_name_length
    then name
    else strip_underscores (take camera_name_length name)

-- The names that `search_directory` passes over.
unfoldable pub is_ignored : Text → Bool
is_ignored name =
    text_eq name (codes "..")
    || text_eq name (codes ".")
    || text_eq name (codes "lost+found")
    || text_eq name (codes "staging")
    || text_eq name (codes "METADATA")

-- A path in a drive has a '/', so that there is a file name.
unfoldable pub file_duration : Text → ℕ
file_duration path = elim (file_part path) [ none ↦ 0 | some name ↦ atoi (drop 16 name) ]

-- A directory at a drive's root is a camera, which is complete once it has been searched.
unfoldable pub end_camera : Bool → Text → TimeArray → TimeArray
unfolding name_camera
end_camera is_root name t =
    if is_root
    then record {
      complete =
          t.complete
          ++ (record {
            recording = t.current.recording;
            num_chunks = t.current.num_chunks;
            camera_name = name_camera name;
          }
              ∷ []);
      current = empty_camera;
    }
    else t

-- mktime is the C library's; a chunk's time is not negative.
module _ (mktime : Tm → ℕ) where
  unfoldable pub file_name_to_epoch : Text → ℕ
  file_name_to_epoch path = elim (file_part path) [
    | none ↦ 2147483647
    | some name ↦ mktime (tm_of_name name)
  ]

  -- A regular file is the next chunk of the camera.
  unfoldable pub add_chunk : Text → TimeArray → TimeArray
  unfolding file_name_to_epoch file_duration
  add_chunk path t = record {
    complete = t.complete;
    current = record {
      recording =
          t.current.recording
          ++ (record { start_time = file_name_to_epoch path; duration = file_duration path } ∷ []);
      num_chunks = (t.current.num_chunks + 1) % 2 ^ 16;
      camera_name = t.current.camera_name;
    };
  }

  -- A walk through the entries of a directory, of which `is_root` tells whether it is a drive's
  -- root; an entry that stat refuses ends it.
  unfoldable mutual
    unfolding add_chunk end_camera is_ignored

    pub search_entry : Bool → Text → Entry → TimeArray → TimeArray
    search_entry is_root dir (unreadable name) t = t
    search_entry is_root dir (regular name) t =
        if is_ignored name then t else add_chunk (join_path dir name) t
    search_entry is_root dir (directory name opens es) t =
        let below = search_directory false (join_path dir name) es t in
        if is_ignored name then t else end_camera is_root name (if opens then below else t)
    search_entry is_root dir (special name) t = t

    pub search_directory : Bool → Text → Entries → TimeArray → TimeArray
    search_directory is_root dir nil t = t
    search_directory is_root dir (cons (unreadable name) es) t = t
    search_directory is_root dir (cons e es) t =
        search_directory is_root dir es (search_entry is_root dir e t)

-- The end of a chunk, in seconds.
abbrev pub end_of : SingleChunk → ℕ
end_of c = c.start_time + c.duration / 1000000

-- More than a second between a chunk and the end of the one before it, in either direction.
unfoldable pub is_gap : SingleChunk → SingleChunk → Bool
is_gap previous c =
    ltb (end_of previous + 1) c.start_time || ltb (c.start_time + 1) (end_of previous)

-- The times that are printed for one camera: a start_time and an end_time for each segment. The
-- loop runs over the chunks behind the first; `previous` is the one before them.
unfoldable pub print_segments :
    (start : ℕ) (previous : SingleChunk) → List SingleChunk → List (ℕ × ℕ)
unfolding is_gap
print_segments start previous [] = (start, end_of previous) ∷ []
print_segments start previous (c ∷ cs) =
    let next = print_segments c.start_time c cs in
    let same = print_segments start c cs in
    if is_gap previous c then (start, end_of previous) ∷ next else same

-- A camera with no chunks is passed over. qsort is the C library's.
unfoldable pub print_camera :
    (qsort : List SingleChunk → List SingleChunk) → CamRec → Option (Text × List (ℕ × ℕ))
unfolding print_segments
print_camera qsort cam = elim (qsort (take cam.num_chunks cam.recording)) [
  | [] ↦ none
  | c ∷ cs ↦ some (cam.camera_name, print_segments c.start_time c cs)
]

-- The cameras of a drive, in the order of the search; a drive that does not open has none.
unfoldable pub print_ssd :
    (mktime : Tm → ℕ) (qsort : List SingleChunk → List SingleChunk)
    → (root : Text) → Option Entries
    → List (Option (Text × List (ℕ × ℕ)))
unfolding search_directory print_camera
print_ssd mktime qsort root none = []
print_ssd mktime qsort root (some es) =
    all_cameras
      (search_directory mktime true root es
        (record { complete = []; current = empty_camera })).complete
  where
    all_cameras : List CamRec → List (Option (Text × List (ℕ × ℕ)))
    all_cameras [] = []
    all_cameras (c ∷ cs) = print_camera qsort c ∷ all_cameras cs
