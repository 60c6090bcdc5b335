-- ===== src/Metarec/Chunk.antt =====
-- metarec/src/metachunk.c: when a new chunk file is due, closing the files of a chunk and moving
-- them from the staging directory, and opening the next. Path buffers are taken to be long enough,
-- and calls whose failure is only logged (fclose, rename, the file system event) are effects.
pub mod Parts
pub mod Due
use recording_agent_continuo.Prelude.{
  ℕ, zero, suc, ◌+◌, ◌-◌, ◌*◌, ◌/◌, ◌%◌, ◌^◌, ◌==◌, ltb, leb, Bool, true, false, not, ◌&&◌, ◌||◌,
  Option, none, some, if◌then◌else◌, List, [], ◌∷◌, ◌++◌,
}
use recording_agent_continuo.Prelude.Text.{Text, codes, format_0, format}
use recording_agent_continuo.Metarec.{MetaDataType, Desc}
use recording_agent_continuo.Metarec.Intf.{DigitalInput, name_scan}
use recording_agent_continuo.Metarec.Recorder.{
  Tm, RcdIdx, Effect, open_file, write_prefix, write_index, update_hmac, close_file, rename_file,
  fs_event, make_dir, DataLoc, ChunkDesc, Recorder, World, Sizes, put, log, each_location, stdout,
  u64, u32, sub_u64, nanoseconds,
}

-- metaio.c: the first `n` index records.
abbrev pub first_entries : (ℕ → RcdIdx) → ℕ → List RcdIdx
first_entries idx zero = []
first_entries idx (suc n) = first_entries idx n ++ (idx n ∷ [])

-- metaio.c: the counts and index records go into the prefix of the file, if there are any.
unfoldable pub metadata_finalize_header : ℕ → Recorder → Recorder
metadata_finalize_header h r =
    if r.idx_allocated && ltb 0 r.num_records
    then log (write_index h r.num_records r.max_records (first_entries r.idx_data r.num_records)) r
    else r

-- metaio.c
unfoldable pub metadata_reset_record_tracker : Recorder → Recorder
metadata_reset_record_tracker r = record r { num_records = 0 }

-- metaio.c
unfoldable pub is_meta_record_reach_max : Recorder → Bool
is_meta_record_reach_max r =
    leb r.max_records r.num_records || leb r.m_chunk.chunk_max_duration r.num_records

-- `"%04d/%02d/%02d/%02d/"` of the chunk's time.
unfoldable pub subpath_of : Tm → Text
subpath_of t =
    format_0 4 t.tm_year
    ++ codes "/"
    ++ format_0 2 t.tm_mon
    ++ codes "/"
    ++ format_0 2 t.tm_mday
    ++ codes "/"
    ++ format_0 2 t.tm_hour
    ++ codes "/"

-- `"%4d%02d%02d-%02d%02d%02d"`
unfoldable pub chunk_name : Tm → Text
chunk_name t =
    format 4 t.tm_year
    ++ format_0 2 t.tm_mon
    ++ format_0 2 t.tm_mday
    ++ codes "-"
    ++ format_0 2 t.tm_hour
    ++ format_0 2 t.tm_min
    ++ format_0 2 t.tm_sec

-- `"%s.%09lu.data"`
unfoldable pub final_name : Text → ℕ → Text
final_name name duration = name ++ (codes "." ++ (format_0 9 duration ++ codes ".data"))

-- The directory with a '/' (47) at its end, unless it is empty or has one.
unfoldable pub with_slash : Text → Text
with_slash [] = []
with_slash (c ∷ []) = if c == 47 then c ∷ [] else c ∷ 47 ∷ []
with_slash (c ∷ d ∷ ds) = c ∷ with_slash (d ∷ ds)

unfoldable pub prepare_subpath : Recorder → Recorder
unfolding with_slash
prepare_subpath r = each_location at_location r
  where
    at_location : ℕ → Recorder → Recorder
    at_location i r =
        let sub = subpath_of r.m_chunk.prev_tm in
        if (r.data_loc i).is_used
        then log (make_dir (with_slash (r.data_loc i).datadir ++ sub)) (record r { subpath = sub })
        else r

unfoldable pub is_new_path_required : ChunkDesc → Tm → Bool
is_new_path_required c t =
    c.session_just_started
    || not (c.prev_tm.tm_hour == t.tm_hour)
    || not (c.prev_tm.tm_mday == t.tm_mday)
    || not (c.prev_tm.tm_mon == t.tm_mon)
    || not (c.prev_tm.tm_year == t.tm_year)

-- A time change is taken note of once: the flag is cleared.
unfoldable pub is_new_chunk_required : Tm → Recorder → Bool × Recorder
unfolding is_new_path_required is_meta_record_reach_max
is_new_chunk_required t r = (
  is_new_path_required r.m_chunk t
      || is_meta_record_reach_max r
      || r.forward_time_change_occurred
      || r.m_chunk.drive_status_updated,
  if r.forward_time_change_occurred then record r { forward_time_change_occurred = false } else r,
)

-- The mappings of the digital inputs 1 to 3; the buffer for the names starts with zeros and stays
-- from one call to the next. An entry that is not found keeps its zeros.
unfoldable pub digital_mappings : List DigitalInput → ℕ → ℕ → Text → List (ℕ × Text)
unfolding name_scan
digital_mappings ds zero idx buffer = []
digital_mappings ds (suc n) idx buffer =
    let (rc, found) = name_scan (idx + 1) (some buffer) ds in
    let name : Text = elim found [ none ↦ buffer | some t ↦ t ] in
    (if rc == 0 then (0, []) else (idx, name)) ∷ digital_mappings ds n (idx + 1) name

-- The prefix and the header; if the first cannot be written the second is not tried.
unfoldable pub metadata_chunk_header :
    Sizes → World → List DigitalInput → (i h sec usec : ℕ) → Recorder → Recorder
unfolding digital_mappings
metadata_chunk_header z w ds i h sec usec r =
    if w.fwrite_ok i
    then log (write_prefix h (digital_mappings ds 3 0 []) sec usec)
        (record r { offset = put r.offset h (z.prefix_size + z.header_size) })
    else r

-- Finalize a location's file, hash it, close it, move it to its directory and announce it.
unfoldable pub finish_file : ℕ → ℕ → Recorder → Recorder
unfolding metadata_finalize_header
finish_file i h r =
    let staging = (r.data_loc i).stagingdir in
    let name = final_name r.m_chunk.chunk_fname r.m_chunk.chunk_duration_usecs in
    log (fs_event (staging ++ name)) (
      log
        (rename_file (staging ++ r.m_chunk.chunk_fname)
          ((r.data_loc i).datadir ++ (r.subpath ++ name)))
        (log (close_file h) (log (update_hmac h) (metadata_finalize_header h r))))

-- The stream of a used location, if it is open and is not stdout.
abbrev pub open_stream : ℕ → Recorder → Option ℕ
open_stream i r =
    let h : Option ℕ = elim (r.m_chunk.fp i) [
      | none ↦ none
      | some h ↦ (if h == stdout then none else some h)
    ] in
    if (r.data_loc i).is_used then h else none

-- The first loop of `get_metadata_chunk_file`.
unfoldable pub close_old : ℕ → Recorder → Recorder
unfolding finish_file
close_old i r = elim (open_stream i r) [ none ↦ r | some h ↦ finish_file i h r ]

-- Its second loop, with the start of the chunk in nanoseconds.
unfoldable pub open_new : Sizes → World → List DigitalInput → Desc → ℕ → ℕ → Recorder → Recorder
unfolding metadata_chunk_header
open_new z w ds d t_start i r =
    let staging = (r.data_loc i).stagingdir in
    let path = staging ++ r.m_chunk.chunk_fname in
    let r1 = if w.is_dir_exist staging then r else log (make_dir staging) r in
    let f = w.fopen i path in
    let r2 = log (open_file path f) (record r1 {
      m_chunk = record r1.m_chunk { fp = put r1.m_chunk.fp i f; t0 = t_start };
      out = put r1.out i f;
    }) in
    let r3 : Recorder = elim f [
      | none ↦ r2
      | some h ↦ metadata_chunk_header z w ds i h d.ts_sec (d.ts_nsec / 1000) r2
    ] in
    if (r.data_loc i).is_used then r3 else r

-- The end of the old chunk: its flags are taken note of and its files closed.
unfoldable pub close_chunk : Recorder → Recorder
close_chunk r =
    let r1 = record r {
      m_chunk = record r.m_chunk { session_just_started = false; drive_status_updated = false };
    } in
    let r2 = metadata_reset_record_tracker (each_location close_old r1) in
    record r2 { m_chunk = record r2.m_chunk { chunk_duration_usecs = 0 } }

-- The name of the new chunk, and its directories where the hour has changed.
unfoldable pub name_chunk : Tm → Recorder → Recorder
name_chunk t r =
    let r1 = record r { m_chunk = record r.m_chunk { chunk_fname = chunk_name t } } in
    if is_new_path_required r.m_chunk t
    then prepare_subpath (record r1 { m_chunk = record r1.m_chunk { prev_tm = t } })
    else r1

-- From one chunk to the next, once a new one is due.
unfoldable pub next_chunk : Sizes → World → List DigitalInput → Desc → ℕ → Recorder → Recorder
next_chunk z w ds d t_start r =
    each_location (open_new z w ds d t_start) (name_chunk (w.gmtime d.tod_sec) (close_chunk r))

-- The duration of the chunk up to a time in nanoseconds.
unfoldable pub set_duration : ℕ → Recorder → Recorder
set_duration t r = record r {
  m_chunk = record r.m_chunk { chunk_duration_usecs = u32 (sub_u64 t r.m_chunk.t0 / 1000) };
}

-- The result is whether a new file was asked for.
unfoldable pub get_metadata_chunk_file :
    Sizes → World → List DigitalInput → Desc → Recorder → Bool × Recorder
get_metadata_chunk_file z w ds d r =
    let t_start = nanoseconds d.ts_sec d.ts_nsec in
    let (required, r1) = is_new_chunk_required (w.gmtime d.tod_sec) (set_duration t_start r) in
    if r.m_chunk.deltat == 0
    then (false, r)
    else if required
    then ((r.data_loc 0).is_used || (r.data_loc 1).is_used, next_chunk z w ds d t_start r1)
    else (false, r1)

-- The body of the loop of `metadata_chunk_finalize`: a chunk of no duration is left open.
unfoldable pub finalize_location : ℕ → Recorder → Recorder
unfolding finish_file
finalize_location i r = elim (open_stream i r) [
  | none ↦ r
  | some h ↦
      let r1 = finish_file i h r in
      if ltb 0 r.m_chunk.chunk_duration_usecs
      then record r1 { m_chunk = record r1.m_chunk { fp = put r1.m_chunk.fp i none } }
      else r
]

unfoldable pub metadata_chunk_finalize : Recorder → Recorder
metadata_chunk_finalize r =
    let r1 = metadata_reset_record_tracker (each_location finalize_location r) in
    record r1 { m_chunk = record r1.m_chunk { chunk_duration_usecs = 0 } }

-- `memset (pctx, 0, ...)`: the zero `struct tm` is written as January 1900.
abbrev pub zero_chunk : ChunkDesc
zero_chunk = record {
  session_just_started = false;
  drive_status_updated = false;
  prev_tm = record { tm_year = 1900; tm_mon = 1; tm_mday = 0; tm_hour = 0; tm_min = 0; tm_sec = 0 };
  chunk_fname = [];
  chunk_duration_usecs = 0;
  chunk_max_duration = 0;
  fp = λ i. none;
  t0 = 0;
  deltat = 0;
}

-- The two clocks in seconds and nanoseconds; `none` is a failing clock_gettime. No stream is left
-- to close once the descriptor is cleared. The result is whether the code is 0.
unfoldable pub metadata_chunk_init :
    Sizes → ℕ → (realtime monotonic : Option (ℕ × ℕ)) → Bool × ChunkDesc
metadata_chunk_init z chunk_size none monotonic = (false, zero_chunk)
metadata_chunk_init z chunk_size (some (s, n)) monotonic =
    let c = record zero_chunk {
      chunk_max_duration = if ltb 0 chunk_size then chunk_size else z.default_chunk_records;
      session_just_started = true;
    } in
    elim monotonic [
      | none ↦ (false, c)
      | some (ms, mn) ↦ (true, record c { deltat = sub_u64 (nanoseconds s n) (nanoseconds ms mn) })
    ]
