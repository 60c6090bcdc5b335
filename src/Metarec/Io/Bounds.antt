-- ===== src/Metarec/Io/Bounds.antt =====
-- The array of index records is never written out of bounds.
use recording_agent_continuo.Prelude.{
  ℕ, ◌≤◌, ◌≡◌, ◌∙◌, sym, Bool, true, false, Option, some, List, [], ◌∷◌, arith,
}
use recording_agent_continuo.Metarec.{Desc}
use recording_agent_continuo.Metarec.Intf.{DigitalInput}
use recording_agent_continuo.Metarec.Recorder.{Recorder, World, Sizes, nanoseconds}
use recording_agent_continuo.Metarec.Chunk.{
  is_new_chunk_required, set_duration, get_metadata_chunk_file, metadata_chunk_finalize,
}
use recording_agent_continuo.Metarec.Chunk.Parts.{
  SameParts, next_chunk-IsFresh, set_duration-SameParts, new_chunk_required-parts,
  metadata_chunk_finalize_parts,
}
use recording_agent_continuo.Metarec.Io.{
  is_drive_status_updated, drive_status_update_handler, follow_drives, write_location,
  write_metadata, tell_pos, add_index, index_descriptor, record_descriptor, idle_pass, Pass, got,
  idle, pass, passes, start_thread,
}

-- The tracker counts records that the array has room for, and claims no more room than there is.
pub record InBounds (z : Sizes) (r : Recorder) : Type 0 where
  pub counted : r.num_records ≤ r.max_records
  pub capacity : r.idx_allocated ≡ true → r.max_records ≤ z.index_capacity

module _ (z : Sizes) where
  finalize-InBounds : (r : Recorder) → InBounds z r → InBounds z (metadata_chunk_finalize r)
  finalize-InBounds r b = ground (arith, metadata_chunk_finalize_parts r)

  follow_drives-InBounds :
      (w : World) (r : Recorder) → InBounds z r → InBounds z (follow_drives w r)
  unfolding follow_drives is_drive_status_updated drive_status_update_handler
  follow_drives-InBounds w r b = ground (
    arith,
    metadata_chunk_finalize_parts (record r {
      pre_chm_rec = some (w.chm_commanded w.recording_mode);
      pre_ssd_rec = some (w.ssd_commanded w.recording_mode);
      m_chunk = record r.m_chunk { drive_status_updated = true };
    }),
  )

  same-InBounds : {r s : Recorder} → SameParts r s → InBounds z r → InBounds z s
  same-InBounds p b = record {
    counted = rw (p.num, p.max) b.counted;
    capacity = λ h. rw p.max (b.capacity (sym p.allocated ∙ h));
  }

  chunk_file-InBounds :
      (w : World) (ds : List DigitalInput) (d : Desc) (r : Recorder)
      → InBounds z r
      → InBounds z (get_metadata_chunk_file z w ds d r).1
  unfolding get_metadata_chunk_file
  chunk_file-InBounds w ds d r b =
      let t = nanoseconds d.ts_sec d.ts_nsec in
      let p = set_duration-SameParts t r in
      let n = new_chunk_required-parts (w.gmtime d.tod_sec) (set_duration t r) in
      ground (
        arith,
        p.num,
        p.max,
        p.allocated,
        n.0.num,
        n.0.max,
        n.0.allocated,
        next_chunk-IsFresh z w ds d t
            (is_new_chunk_required (w.gmtime d.tod_sec) (set_duration t r)).1,
      )

  add_index-InBounds : (d : Desc) (r : Recorder) → InBounds z r → InBounds z (add_index d r)
  unfolding add_index
  add_index-InBounds d r b = ground arith

  write_metadata-InBounds :
      (w : World) (d : Desc) (r : Recorder) → InBounds z r → InBounds z (write_metadata w d r)
  unfolding write_metadata write_location
  write_metadata-InBounds w d r b = ground arith

  tell_pos-InBounds : (r : Recorder) → InBounds z r → InBounds z (tell_pos r)
  unfolding tell_pos
  tell_pos-InBounds r b = ground arith

  record_descriptor-InBounds :
      (w : World) (ds : List DigitalInput) (d : Desc) (r : Recorder)
      → InBounds z r
      → InBounds z (record_descriptor z w ds d r)
  unfolding record_descriptor index_descriptor
  record_descriptor-InBounds w ds d r b = grind (
    arith,
    follow_drives-InBounds w r b,
    chunk_file-InBounds,
    add_index-InBounds,
    write_metadata-InBounds,
    tell_pos-InBounds,
  )

  idle_pass-InBounds : (w : World) (r : Recorder) → InBounds z r → InBounds z (idle_pass w r)
  unfolding idle_pass set_duration
  idle_pass-InBounds w r b =
      let t = nanoseconds w.mono_sec w.mono_nsec in
      ground (arith, metadata_chunk_finalize_parts (set_duration t r))

  all_passes : (ps : List Pass) (r : Recorder) → InBounds z r → InBounds z (passes z ps r)
  unfolding passes pass
  all_passes [] r b = b
  all_passes (got w ds d ∷ ps) r b = all_passes ps _ (record_descriptor-InBounds w ds d r b)
  all_passes (idle w ∷ ps) r b = all_passes ps _ (idle_pass-InBounds w r b)

  start-InBounds :
      (allocated : Bool) (realtime monotonic : Option (ℕ × ℕ)) (r : Recorder)
      → InBounds z r
      → InBounds z (start_thread z allocated realtime monotonic r)
  unfolding start_thread
  start-InBounds true realtime monotonic r b = ground arith
  start-InBounds false realtime monotonic r b = ground arith

  -- From a state within its bounds, after the start of the recording thread and any sequence of
  -- passes, the count of index records is at most the limit, and the limit is at most the size of
  -- the array where there is one.
  pub passes-InBounds :
      (allocated : Bool) (realtime monotonic : Option (ℕ × ℕ)) (ps : List Pass) (r : Recorder)
      → InBounds z r
      → InBounds z (passes z ps (start_thread z allocated realtime monotonic r))
  passes-InBounds allocated realtime monotonic ps r b =
      all_passes ps _ (start-InBounds allocated realtime monotonic r b)
