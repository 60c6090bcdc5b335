-- ===== src/Metarec/Chunk/Due.antt =====
-- When a new chunk is started, and that one descriptor starts at most one.
use recording_agent_continuo.Prelude.{
  ◌<◌, ◌≡◌, ◌≢◌, ◌∙◌, ap, Bool, true, false, ◌||◌, ◌==◌, ==_iff, Bool-cases, inl, inr, List, arith,
}
use recording_agent_continuo.Metarec.{Desc}
use recording_agent_continuo.Metarec.Intf.{DigitalInput}
use recording_agent_continuo.Metarec.Recorder.{Tm, Recorder, World, Sizes, nanoseconds}
use recording_agent_continuo.Metarec.Chunk.{
  is_new_path_required, is_meta_record_reach_max, is_new_chunk_required, next_chunk, set_duration,
  get_metadata_chunk_file,
}
use recording_agent_continuo.Metarec.Chunk.Parts.{
  SameParts, IsFresh, next_chunk-IsFresh, set_duration-SameParts, new_chunk_required-parts,
}

-- Nothing calls for a new chunk at the time t.
record IsQuiet (t : Tm) (r : Recorder) : Type 0 where
  path : is_new_path_required r.m_chunk t ≡ false
  room : is_meta_record_reach_max r ≡ false
  time_change : r.forward_time_change_occurred ≡ false
  drive : r.m_chunk.drive_status_updated ≡ false

quiet_no_chunk : (t : Tm) (r : Recorder) → IsQuiet t r → (is_new_chunk_required t r).0 ≡ false
unfolding is_new_chunk_required
quiet_no_chunk t r q = rw (q.path, q.room, q.time_change, q.drive)

no_chunk-IsQuiet : (t : Tm) (r : Recorder) → (is_new_chunk_required t r).0 ≡ false → IsQuiet t r
unfolding is_new_chunk_required
no_chunk-IsQuiet t r h = ground arith

IsQuiet-kept : {t : Tm} {r s : Recorder} → IsQuiet t r → SameParts r s → IsQuiet t s
unfolding is_new_path_required is_meta_record_reach_max
IsQuiet-kept {t} {r} q p = record {
  path = rw (p.session, p.prev) q.path;
  room = rw (p.num, p.max, p.longest) q.room;
  time_change = p.time_change ∙ q.time_change;
  drive = p.drive ∙ q.drive;
}

quiet_after :
    (t : Tm) (r : Recorder)
    → (is_new_chunk_required t r).0 ≡ false
    → (is_new_chunk_required t r).1 ≡ r
unfolding is_new_chunk_required
quiet_after t r h = ground arith

fresh-IsQuiet :
    {t : Tm} {r s : Recorder}
    → IsFresh t r s
    → r.forward_time_change_occurred ≡ false
    → 0 < r.max_records
    → 0 < r.m_chunk.chunk_max_duration
    → IsQuiet t s
unfolding is_meta_record_reach_max
fresh-IsQuiet f c m l = record {
  path = f.settled;
  room = rw (f.num, f.max, f.longest) (ground arith);
  time_change = f.time_change ∙ c;
  drive = f.drive;
}

module _ (z : Sizes) (w : World) (ds : List DigitalInput) (d : Desc) where
  quiet_no_file :
      (r : Recorder)
      → IsQuiet (w.gmtime d.tod_sec) r
      → (get_metadata_chunk_file z w ds d r).0 ≡ false
  unfolding get_metadata_chunk_file
  quiet_no_file r q =
      let t = nanoseconds d.ts_sec d.ts_nsec in
      ground (
        arith,
        quiet_no_chunk (w.gmtime d.tod_sec) (set_duration t r)
            (IsQuiet-kept q (set_duration-SameParts t r)),
      )

  unfoldable pub timed : Recorder → Recorder
  timed r = set_duration (nanoseconds d.ts_sec d.ts_nsec) r

  unfoldable pub due : Recorder → Bool × Recorder
  due r = is_new_chunk_required (w.gmtime d.tod_sec) (timed r)

  -- The three ways of the function.
  pub file_stopped :
      (r : Recorder) → r.m_chunk.deltat ≡ 0 → get_metadata_chunk_file z w ds d r ≡ (false, r)
  unfolding get_metadata_chunk_file
  file_stopped r h = ground arith

  pub file_new :
      (r : Recorder)
      → (r.m_chunk.deltat == 0) ≡ false
      → (due r).0 ≡ true
      → get_metadata_chunk_file z w ds d r ≡ (
        (r.data_loc 0).is_used || (r.data_loc 1).is_used,
        next_chunk z w ds d (nanoseconds d.ts_sec d.ts_nsec) (due r).1,
      )
  unfolding get_metadata_chunk_file due timed
  file_new r h n = rw (h, n)

  pub file_old :
      (r : Recorder)
      → (r.m_chunk.deltat == 0) ≡ false
      → (due r).0 ≡ false
      → get_metadata_chunk_file z w ds d r ≡ (false, (due r).1)
  unfolding get_metadata_chunk_file due timed
  file_old r h n = rw (h, n)

  -- With a positive limit of records and a positive maximal duration, asking for the chunk of the
  -- same descriptor a second time starts no further chunk.
  get_metadata_chunk_file-settles :
      (r : Recorder)
      → 0 < r.max_records
      → 0 < r.m_chunk.chunk_max_duration
      → (get_metadata_chunk_file z w ds d (get_metadata_chunk_file z w ds d r).1).0 ≡ false
  unfolding due timed
  get_metadata_chunk_file-settles r room long = elim (Bool-cases (r.m_chunk.deltat == 0)) [
    | inl stopped ↦
        let e = file_stopped r ((==_iff _ _).0 stopped) in rw (ap (λ p. p.1) e) (ap (λ p. p.0) e)
    | inr runs ↦ elim (Bool-cases (due r).0) [
      | inl new ↦ rw (ap (λ q. q.1) (file_new r runs new)) (quiet_no_file _ (after_new new))
      | inr old ↦ rw (ap (λ p. p.1) (file_old r runs old)) (quiet_no_file _ (after_old old))
    ]
  ]
    where
      t : Tm
      t = w.gmtime d.tod_sec

      p : SameParts r (timed r)
      p = set_duration-SameParts (nanoseconds d.ts_sec d.ts_nsec) r

      after_new :
          (due r).0 ≡ true
          → IsQuiet t (next_chunk z w ds d (nanoseconds d.ts_sec d.ts_nsec) (due r).1)
      after_new h =
          let n = new_chunk_required-parts t (timed r) in
          fresh-IsQuiet (next_chunk-IsFresh z w ds d (nanoseconds d.ts_sec d.ts_nsec) (due r).1) n.1
            (rw (n.0.max, p.max) room) (rw (n.0.longest, p.longest) long)

      after_old : (due r).0 ≡ false → IsQuiet t (due r).1
      after_old h = rw (quiet_after t (timed r) h) (no_chunk-IsQuiet t (timed r) h)

  -- With the clocks known and a positive limit of records, the chunk that a descriptor goes to has
  -- room for its index record.
  pub get_metadata_chunk_file-room :
      (r : Recorder)
      → r.m_chunk.deltat ≢ 0
      → 0 < r.max_records
      → let r' = (get_metadata_chunk_file z w ds d r).1 in r'.num_records < r'.max_records
  unfolding due timed is_meta_record_reach_max
  get_metadata_chunk_file-room r up room = elim (Bool-cases (due r).0) [
    | inl new ↦
        let f = next_chunk-IsFresh z w ds d (nanoseconds d.ts_sec d.ts_nsec) (due r).1 in
        rw (ap (λ q. q.1) (file_new r runs new)) (
          omega (
            arith,
            f.num,
            f.max,
            (new_chunk_required-parts (w.gmtime d.tod_sec) (timed r)).0.max,
            p.max,
          ))
    | inr old ↦
        rw (ap (λ q. q.1) (file_old r runs old), quiet_after (w.gmtime d.tod_sec) (timed r) old)
          (ground (arith, (no_chunk-IsQuiet (w.gmtime d.tod_sec) (timed r) old).room))
  ]
    where
      runs : (r.m_chunk.deltat == 0) ≡ false
      runs = ground arith

      p : SameParts r (timed r)
      p = set_duration-SameParts (nanoseconds d.ts_sec d.ts_nsec) r

  -- The index is kept allocated, or not.
  pub get_metadata_chunk_file-allocated :
      (r : Recorder) → (get_metadata_chunk_file z w ds d r).1.idx_allocated ≡ r.idx_allocated
  unfolding get_metadata_chunk_file due timed
  get_metadata_chunk_file-allocated r = ground (
    arith,
    (set_duration-SameParts (nanoseconds d.ts_sec d.ts_nsec) r).allocated,
    (new_chunk_required-parts (w.gmtime d.tod_sec) (timed r)).0.allocated,
    (next_chunk-IsFresh z w ds d (nanoseconds d.ts_sec d.ts_nsec) (due r).1).allocated,
  )
