-- ===== src/Metarec/Io/Points.antt =====
-- A recorded descriptor's index record points at its data.
use recording_agent_continuo.Prelude.{
  ℕ, suc, ◌+◌, ◌<◌, ◌≡◌, ◌≢◌, refl, ◌∙◌, sym, Bool, true, false, ◌||◌, ◌==◌, ==_iff, Option, none,
  some, List, [], ◌∷◌, ◌++◌, arith, append_assoc, append-nil, Bool-cases, inl, inr, if◌then◌else◌,
}
use recording_agent_continuo.Metarec.{Desc}
use recording_agent_continuo.Metarec.Intf.{DigitalInput}
use recording_agent_continuo.Metarec.Recorder.{
  Recorder, World, Sizes, nanoseconds, log, Effect, write_data, tell, free_block,
}
use recording_agent_continuo.Metarec.Chunk.{
  close_chunk, name_chunk, next_chunk, get_metadata_chunk_file,
}
use recording_agent_continuo.Metarec.Chunk.Due.{
  timed, due, file_stopped, file_new, file_old, get_metadata_chunk_file-room,
  get_metadata_chunk_file-allocated,
}
use recording_agent_continuo.Metarec.Io.{
  is_drive_status_updated, follow_drives, tell_pos, write_location, write_metadata, add_index,
  index_descriptor, record_descriptor, has_stream,
}
use recording_agent_continuo.Metarec.Chunk.Parts.{next_chunk-IsFresh}
use recording_agent_continuo.Metarec.Io.Align.{
  IsAligned, IsSound, StandsAt, write_IsAligned, index_IsAligned, open_IsAligned,
}
use recording_agent_continuo.Metarec.Io.Streams.{
  SameStreams, SameStreams-trans, IsAligned-same, close_chunk-SameStreams, name_chunk-SameStreams,
  set_duration-SameStreams, required-SameStreams,
}

-- The state once a descriptor's chunk is known, with the position that a new file starts at.
abbrev with_pos : Sizes → Bool × Recorder → Recorder
with_pos z (fresh, r) = if fresh then record r { pos = z.prefix_size + z.header_size } else r

keep_pos :
    (pos : ℕ) (r : Recorder)
    → IsAligned (record r { pos = pos })
    → (r.data_loc 0).is_used ≡ false
    → (r.data_loc 1).is_used ≡ false
    → IsAligned r
keep_pos pos r a u0 u1 = ground arith

-- The write of a descriptor to a stream, at an offset.
abbrev pub writes : Option ℕ → ℕ → Desc → List Effect
writes none at d = []
writes (some h) at d = write_data h at d ∷ []

-- What follows the writes of a pass.
abbrev told_by : Option ℕ → Option ℕ → List Effect
told_by none none = []
told_by none (some h) = tell h ∷ []
told_by (some h) b = tell h ∷ []

abbrev tells : Recorder → Desc → List Effect
tells r d = told_by (r.out 0) (r.out 1) ++ free_block d.block ∷ []

location_written :
    (w : World) (d : Desc) (i : ℕ) (r : Recorder)
    → w.fwrite_ok i ≡ true
    → i < r.n_copies
    → ((r.data_loc i).is_used ≡ false → r.out i ≡ none)
    → StandsAt (r.out i) r.offset r.pos
    → (write_location w d i r).trace ≡ r.trace ++ writes (r.out i) r.pos d
unfolding write_location
location_written w d i r ok c u at = ground (arith, append-nil r.trace)

second_stands :
    (w : World) (d : Desc) (r : Recorder)
    → IsAligned r
    → let r' = write_location w d 0 r in
      (r'.out ≡ r.out)
      × (r'.pos ≡ r.pos)
      × (r'.data_loc ≡ r.data_loc)
      × (r'.n_copies ≡ r.n_copies)
      × StandsAt (r'.out 1) r'.offset r'.pos
unfolding write_location
second_stands w d r a = ground arith

pos_told : (r : Recorder) → (tell_pos r).trace ≡ r.trace ++ told_by (r.out 0) (r.out 1)
unfolding tell_pos
pos_told r = ground (arith, append-nil r.trace)

write_out : (w : World) (d : Desc) (r : Recorder) → (write_metadata w d r).out ≡ r.out
unfolding write_metadata write_location
write_out w d r = ground arith

no_stream :
    (w : World) (d : Desc) (r : Recorder)
    → has_stream r ≡ false
    → (write_metadata w d r ≡ r) × (told_by (r.out 0) (r.out 1) ≡ [])
unfolding write_metadata write_location
no_stream w d r h = (ground arith, ground arith)

told :
    (w : World) (d : Desc) (r : Recorder)
    → (if has_stream r then tell_pos (write_metadata w d r) else r).trace
      ≡ (write_metadata w d r).trace ++ told_by (r.out 0) (r.out 1)
told w d r = elim (Bool-cases (has_stream r)) [
  | inl some_stream ↦ rw some_stream (pos_told (write_metadata w d r) ∙ rw (write_out w d r))
  | inr none_open ↦ let n = no_stream w d r none_open in rw (none_open, n.0, n.1, append-nil)
]

both_written :
    (w : World) (s : IsSound w) (d : Desc) (r : Recorder)
    → IsAligned r
    → (write_metadata w d r).trace
      ≡ (r.trace ++ writes (r.out 0) r.pos d) ++ writes (r.out 1) r.pos d
unfolding write_metadata
both_written w s d r a =
    let r' = write_location w d 0 r in
    let b = second_stands w d r a in
    location_written w d 1 r' s.write1 (rw (b.3, a.copies) (omega arith)) (rw (b.2, b.0) a.unused1)
      b.4
    ∙ rw (b.0, b.1, location_written w d 0 r s.write0 (rw a.copies (omega arith)) a.unused0 a.at0)

written :
    (w : World) (s : IsSound w) (d : Desc) (r : Recorder)
    → IsAligned r
    → (log (free_block d.block) (if has_stream r then tell_pos (write_metadata w d r) else r)).trace
      ≡ r.trace ++ (writes (r.out 0) r.pos d ++ (writes (r.out 1) r.pos d ++ tells r d))
written w s d r a = rw (told w d r, both_written w s d r a) (simp append_assoc)

with_pos-index :
    (z : Sizes) (p : Bool × Recorder)
    → ((with_pos z p).num_records ≡ p.1.num_records)
      × ((with_pos z p).max_records ≡ p.1.max_records)
      × ((with_pos z p).idx_allocated ≡ p.1.idx_allocated)
with_pos-index z (true, r) = (refl, refl, refl)
with_pos-index z (false, r) = (refl, refl, refl)

module _ (z : Sizes) (w : World) (s : IsSound w) (ds : List DigitalInput) (d : Desc) where
  due-SameStreams : (r : Recorder) → SameStreams r (due z w ds d r).1
  unfolding due timed
  due-SameStreams r =
      SameStreams-trans (set_duration-SameStreams (nanoseconds d.ts_sec d.ts_nsec) r)
        (required-SameStreams (w.gmtime d.tod_sec) _)

  next_chunk-IsAligned :
      (t : ℕ) (r : Recorder)
      → IsAligned r
      → IsAligned (record (next_chunk z w ds d t r) { pos = z.prefix_size + z.header_size })
  unfolding next_chunk
  next_chunk-IsAligned t r a =
      let named = name_chunk (w.gmtime d.tod_sec) (close_chunk r) in
      let b = IsAligned-same a (
        SameStreams-trans (close_chunk-SameStreams r)
          (name_chunk-SameStreams (w.gmtime d.tod_sec) (close_chunk r))) in
      open_IsAligned z w s ds d t named b.unused0 b.unused1 b.copies

  chunk_file-IsAligned :
      (r : Recorder) → IsAligned r → IsAligned (with_pos z (get_metadata_chunk_file z w ds d r))
  chunk_file-IsAligned r a = elim (Bool-cases (r.m_chunk.deltat == 0)) [
    | inl stopped ↦ rw (file_stopped z w ds d r ((==_iff _ _).0 stopped)) a
    | inr runs ↦ elim (Bool-cases (due z w ds d r).0) [
      | inl new ↦
          rw (file_new z w ds d r runs new)
            (elim (Bool-cases ((r.data_loc 0).is_used || (r.data_loc 1).is_used)) [
              | inl used ↦ rw used opened
              | inr unused ↦ rw unused (
                  keep_pos (z.prefix_size + z.header_size) _ opened (rw locs (ground arith))
                    (rw locs (ground arith)))
            ])
      | inr old ↦ rw (file_old z w ds d r runs old) (IsAligned-same a (due-SameStreams r))
    ]
  ]
    where
      t : ℕ
      t = nanoseconds d.ts_sec d.ts_nsec

      opened : IsAligned (record (next_chunk z w ds d t (due z w ds d r).1) {
        pos = z.prefix_size + z.header_size;
      })
      opened = next_chunk-IsAligned t (due z w ds d r).1 (IsAligned-same a (due-SameStreams r))

      locs : (next_chunk z w ds d t (due z w ds d r).1).data_loc ≡ r.data_loc
      locs = (next_chunk-IsFresh z w ds d t (due z w ds d r).1).locs ∙ (due-SameStreams r).locs

  -- Where the drives have not changed, looking at them changes nothing that matters here.
  same_drives :
      (r : Recorder)
      → (is_drive_status_updated w r).0 ≡ false
      → SameStreams r (follow_drives w r)
        × ((follow_drives w r).max_records ≡ r.max_records)
        × ((follow_drives w r).idx_allocated ≡ r.idx_allocated)
        × ((follow_drives w r).m_chunk.deltat ≡ r.m_chunk.deltat)
  unfolding follow_drives is_drive_status_updated
  same_drives r h = ground arith

  -- The index record that a pass adds describes its descriptor.
  added :
      (r : Recorder)
      → r.idx_allocated ≡ true
      → r.num_records < r.max_records
      → let r' = add_index d r in
        (r'.num_records ≡ suc r.num_records)
        × ((r'.idx_data r.num_records).byteoffset ≡ r'.pos)
        × ((r'.idx_data r.num_records).timestamp ≡ d.tod_sec)
        × ((r'.idx_data r.num_records).recordtype ≡ d.data_type)
        × ((r'.idx_data r.num_records).recordlength ≡ d.data_length)
  unfolding add_index
  added r a h = ground arith

  -- With sound writes and unchanged drives, a pass of the recording thread keeps the open streams
  -- of the two locations different, at the position that the thread keeps, and only in locations
  -- that are used.
  record_descriptor-IsAligned :
      (r : Recorder)
      → (is_drive_status_updated w r).0 ≡ false
      → IsAligned r
      → IsAligned (record_descriptor z w ds d r)
  unfolding record_descriptor index_descriptor
  record_descriptor-IsAligned r h a =
      let b = IsAligned-same a (same_drives r h).0 in
      let c =
        write_IsAligned w s d _
          (index_IsAligned d _ (chunk_file-IsAligned (follow_drives w r) b)) in
      record {
        unused0 = c.unused0;
        unused1 = c.unused1;
        apart = c.apart;
        at0 = c.at0;
        at1 = c.at1;
        copies = c.copies;
      }

  -- With sound writes, unchanged drives, known clocks, an array for the index and room for a
  -- record in a chunk, a pass of the recording thread over an aligned state adds an index record
  -- with the descriptor's time, type and length, and the data is written to the stream of each
  -- location at the byte offset that the record names.
  pub record_descriptor-points :
      (r : Recorder)
      → (is_drive_status_updated w r).0 ≡ false
      → IsAligned r
      → r.m_chunk.deltat ≢ 0
      → r.idx_allocated ≡ true
      → 0 < r.max_records
      → let r1 = index_descriptor z w ds d r in
        (k : ℕ) × (rest : List Effect) × (r1.num_records ≡ suc k)
        × ((r1.idx_data k).timestamp ≡ d.tod_sec)
        × ((r1.idx_data k).recordtype ≡ d.data_type)
        × ((r1.idx_data k).recordlength ≡ d.data_length)
        × ((record_descriptor z w ds d r).trace
            ≡ r1.trace
              ++ (writes (r1.out 0) (r1.idx_data k).byteoffset d
                  ++ (writes (r1.out 1) (r1.idx_data k).byteoffset d ++ rest)))
  unfolding record_descriptor index_descriptor
  record_descriptor-points r h a up alloc room =
      let e = same_drives r h in
      let b = IsAligned-same a e.0 in
      let followed = follow_drives w r in
      let c = chunk_file-IsAligned followed b in
      let r0 = with_pos z (get_metadata_chunk_file z w ds d followed) in
      let k = with_pos-index z (get_metadata_chunk_file z w ds d followed) in
      let allocated : r0.idx_allocated ≡ true =
        k.2 ∙ get_metadata_chunk_file-allocated z w ds d followed ∙ e.2 ∙ alloc in
      let has_room : r0.num_records < r0.max_records = omega (
        arith,
        k.0,
        k.1,
        get_metadata_chunk_file-room z w ds d followed (λ q. up (sym e.3 ∙ q)) (rw e.1 room),
      ) in
      let i = added r0 allocated has_room in
      (
        r0.num_records,
        tells (add_index d r0) d,
        i.0,
        i.2,
        i.3,
        i.4,
        rw i.1 (written w s d (add_index d r0) (index_IsAligned d r0 c)),
      )
