-- ===== src/Metarec/Io.antt =====
-- metarec/src/metaio.c: the recording thread. Each pass of its loop takes a descriptor from the
-- queue and records it, or finds none and looks whether the chunk has run for too long.
pub mod Bounds
pub mod Align
pub mod Streams
pub mod Points
use recording_agent_continuo.Prelude.{
  ℕ, zero, suc, ◌+◌, ◌-◌, ◌*◌, ◌/◌, ◌%◌, ◌^◌, ◌==◌, ltb, leb, Bool, true, false, not, ◌&&◌, ◌||◌,
  Option, none, some, if◌then◌else◌, List, [], ◌∷◌, ◌++◌,
}
use recording_agent_continuo.Metarec.{MetaDataType, gps, Desc}
use recording_agent_continuo.Metarec.Intf.{DigitalInput}
use recording_agent_continuo.Metarec.Recorder.{
  RcdIdx, Effect, write_data, tell, free_block, DataLoc, ChunkDesc, Recorder, World, Sizes, put,
  log, each_location, u64, u32, sub_u64, nanoseconds,
}
use recording_agent_continuo.Metarec.Chunk.{
  get_metadata_chunk_file, metadata_chunk_finalize, metadata_chunk_init, set_duration,
}

-- Whether a known state differs from the new one; -1 is `none`.
abbrev pub differs : Option Bool → Bool → Bool
differs none b = false
differs (some true) b = not b
differs (some false) b = b

-- The static variables hold the states of the last call.
unfoldable pub is_drive_status_updated : World → Recorder → Bool × Recorder
is_drive_status_updated w r =
    let chm = w.chm_commanded w.recording_mode in
    let ssd = w.ssd_commanded w.recording_mode in
    (
      differs r.pre_chm_rec chm || differs r.pre_ssd_rec ssd,
      record r { pre_chm_rec = some chm; pre_ssd_rec = some ssd },
    )

unfoldable pub drive_status_update_handler : World → Recorder → Recorder
drive_status_update_handler w r =
    let r1 = metadata_chunk_finalize r in
    let loc0 = record (r1.data_loc 0) { is_used = w.chm_commanded w.recording_mode } in
    let loc1 = record (r1.data_loc 1) { is_used = w.ssd_commanded w.recording_mode } in
    record r1 { data_loc = put (put r1.data_loc 0 loc0) 1 loc1 }

-- `fwrite` of the data to one location. A failure is only logged.
unfoldable pub write_location : World → Desc → ℕ → Recorder → Recorder
write_location w d i r = elim (r.out i) [
  | none ↦ r
  | some h ↦
      let r1 =
        log (write_data h (r.offset h) d)
          (record r { offset = put r.offset h (r.offset h + d.data_length) }) in
      if ltb i r.n_copies && (r.data_loc i).is_used && w.fwrite_ok i then r1 else r
]

unfoldable pub write_metadata : World → Desc → Recorder → Recorder
unfolding write_location
write_metadata w d r = each_location (write_location w d) r

-- `pos = ftell (...)` of the first stream that is not NULL.
unfoldable pub tell_pos : Recorder → Recorder
tell_pos r = elim (r.out 0) [
  | some h ↦ log (tell h) (record r { pos = r.offset h })
  | none ↦ elim (r.out 1) [ none ↦ r | some h ↦ log (tell h) (record r { pos = r.offset h }) ]
]

-- An index record for the descriptor, if there is room for one.
unfoldable pub add_index : Desc → Recorder → Recorder
add_index d r =
    let entry : RcdIdx = record {
      byteoffset = r.pos;
      timestamp = d.tod_sec;
      recordtype = d.data_type;
      recordlength = d.data_length;
    } in
    if r.idx_allocated && ltb r.num_records r.max_records
    then record r { idx_data = put r.idx_data r.num_records entry; num_records = r.num_records + 1 }
    else r

abbrev pub has_stream : Recorder → Bool
has_stream r = elim (r.out 0) [
  | some h ↦ true
  | none ↦ elim (r.out 1) [ some h ↦ true | none ↦ false ]
]

-- Whether the drives changed since the last pass, and what follows from it.
unfoldable pub follow_drives : World → Recorder → Recorder
follow_drives w r =
    let (updated, r1) = is_drive_status_updated w r in
    let r2 = record r1 { m_chunk = record r1.m_chunk { drive_status_updated = updated } } in
    if updated then drive_status_update_handler w r2 else r2

-- A pass that got a descriptor, up to its index record.
unfoldable pub index_descriptor : Sizes → World → List DigitalInput → Desc → Recorder → Recorder
index_descriptor z w ds d r =
    let (fresh, r1) = get_metadata_chunk_file z w ds d (follow_drives w r) in
    add_index d (if fresh then record r1 { pos = z.prefix_size + z.header_size } else r1)

-- The whole pass.
unfoldable pub record_descriptor : Sizes → World → List DigitalInput → Desc → Recorder → Recorder
record_descriptor z w ds d r =
    let r1 = index_descriptor z w ds d r in
    log (free_block d.block) (if has_stream r1 then tell_pos (write_metadata w d r1) else r1)

-- A pass that got none, after its nap.
unfoldable pub idle_pass : World → Recorder → Recorder
idle_pass w r =
    let t1 = nanoseconds w.mono_sec w.mono_nsec in
    let r1 = set_duration t1 r in
    let r2 = metadata_chunk_finalize r1 in
    let r3 = record r2 {
      m_chunk = record r2.m_chunk { session_just_started = true };
      out = λ i. none;
    } in
    if has_stream r
    then (if leb (u64 (r.m_chunk.t0 + u64 (r.m_chunk.chunk_max_duration * 1000000000))) t1
        then r3
        else r1)
    else r

-- What a pass of the loop meets.
pub data Pass : Type 0 where
  got : World → List DigitalInput → Desc → Pass
  idle : World → Pass

unfoldable pub pass : Sizes → Pass → Recorder → Recorder
pass z (got w ds d) r = record_descriptor z w ds d r
pass z (idle w) r = idle_pass w r

unfoldable pub passes : Sizes → List Pass → Recorder → Recorder
passes z [] r = r
passes z (p ∷ ps) r = passes z ps (pass z p r)

-- The start of the thread: `allocated` is whether calloc gave an array.
unfoldable pub start_thread :
    Sizes → (allocated : Bool) → (realtime monotonic : Option (ℕ × ℕ)) → Recorder → Recorder
unfolding metadata_chunk_init
start_thread z allocated realtime monotonic r =
    let zero_entry : RcdIdx = record {
      byteoffset = 0;
      timestamp = 0;
      recordtype = gps;
      recordlength = 0;
    } in
    record r {
      idx_allocated = allocated;
      idx_data = if allocated then (λ i. zero_entry) else r.idx_data;
      max_records = if allocated then z.index_capacity else r.max_records;
      num_records = if allocated then 0 else r.num_records;
      m_chunk = (metadata_chunk_init z r.chunk_duration realtime monotonic).1;
      out = λ i. none;
      pos = 0;
    }

-- The end of the thread: `done`, and the array given back.
unfoldable pub end_thread : Recorder → Recorder
end_thread r =
    let r1 = metadata_chunk_finalize r in
    if r1.idx_allocated
    then record r1 { idx_allocated = false; num_records = 0; max_records = 0 }
    else r1

-- The thread, for as many passes as `is_active` stays set.
unfoldable pub metadata_recording_thread :
    Sizes
    → (allocated : Bool) → (realtime monotonic : Option (ℕ × ℕ)) → List Pass
    → Recorder
    → Recorder
metadata_recording_thread z allocated realtime monotonic ps r =
    end_thread (passes z ps (start_thread z allocated realtime monotonic r))
