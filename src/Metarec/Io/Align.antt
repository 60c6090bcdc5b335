-- ===== src/Metarec/Io/Align.antt =====
-- Where the index records point: the stream offsets and the position that the thread keeps.
use recording_agent_continuo.Prelude.{
  ℕ, ◌+◌, ◌≡◌, ◌≢◌, ◌∙◌, Bool, true, false, Option, none, some, List, ◌++◌, arith, if◌then◌else◌,
}
use recording_agent_continuo.Prelude.Text.{Text}
use recording_agent_continuo.Metarec.{Desc}
use recording_agent_continuo.Metarec.Intf.{DigitalInput}
use recording_agent_continuo.Metarec.Recorder.{Recorder, World, Sizes, each_location, put}
use recording_agent_continuo.Metarec.Chunk.{open_new, metadata_chunk_header}
use recording_agent_continuo.Metarec.Io.{
  write_location, write_metadata, tell_pos, add_index, has_stream,
}

-- An open stream stands at a position.
abbrev pub StandsAt : Option ℕ → (ℕ → ℕ) → ℕ → Type 0
StandsAt none offset pos = Unit
StandsAt (some h) offset pos = offset h ≡ pos

-- Two open streams are different.
abbrev pub AreApart : Option ℕ → Option ℕ → Type 0
AreApart none b = Unit
AreApart (some h) none = Unit
AreApart (some h) (some k) = h ≢ k

-- Only used locations have streams, the two streams differ, both stand at the position that the
-- thread keeps, and both locations are written to.
pub record IsAligned (r : Recorder) : Type 0 where
  pub unused0 : (r.data_loc 0).is_used ≡ false → r.out 0 ≡ none
  pub unused1 : (r.data_loc 1).is_used ≡ false → r.out 1 ≡ none
  pub apart : AreApart (r.out 0) (r.out 1)
  pub at0 : StandsAt (r.out 0) r.offset r.pos
  pub at1 : StandsAt (r.out 1) r.offset r.pos
  pub copies : r.n_copies ≡ 2

-- Every write succeeds, and the streams of the two locations are different.
pub record IsSound (w : World) : Type 0 where
  pub write0 : w.fwrite_ok 0 ≡ true
  pub write1 : w.fwrite_ok 1 ≡ true
  pub distinct : (p q : Text) → AreApart (w.fopen 0 p) (w.fopen 1 q)

pub write_IsAligned :
    (w : World) (s : IsSound w) (d : Desc) (r : Recorder)
    → IsAligned r
    → IsAligned (if has_stream r then tell_pos (write_metadata w d r) else r)
unfolding write_metadata write_location tell_pos
write_IsAligned w s d r a = ground (arith, s.write0, s.write1)

pub index_IsAligned : (d : Desc) (r : Recorder) → IsAligned r → IsAligned (add_index d r)
unfolding add_index
index_IsAligned d r a = ground arith

-- The offsets once a stream was given its prefix and header.
abbrev opened_offset : Option ℕ → (ℕ → ℕ) → ℕ → ℕ → ℕ
opened_offset none offset start = offset
opened_offset (some h) offset start = put offset h start

-- What `open_new` does to the streams of its location.
record HasOpened (r r' : Recorder) (i : ℕ) (f : Option ℕ) (start : ℕ) : Type 0 where
  out : r'.out ≡ (if (r.data_loc i).is_used then put r.out i f else r.out)
  offset : r'.offset ≡ (if (r.data_loc i).is_used then opened_offset f r.offset start else r.offset)
  locs : r'.data_loc ≡ r.data_loc
  copies : r'.n_copies ≡ r.n_copies
  name : r'.m_chunk.chunk_fname ≡ r.m_chunk.chunk_fname

-- Both locations in turn, over their flags, new streams and the table of streams.
record OpensBoth (u0 u1 : Bool) (out : ℕ → Option ℕ) (offset : ℕ → ℕ) (start : ℕ) : Type 0 where
  none0 : u0 ≡ false → out 0 ≡ none
  none1 : u1 ≡ false → out 1 ≡ none
  apart : AreApart (out 0) (out 1)
  at0 : StandsAt (out 0) offset start
  at1 : StandsAt (out 1) offset start

abbrev opened_out : Bool → ℕ → Option ℕ → (ℕ → Option ℕ) → ℕ → Option ℕ
opened_out u i f out = if u then put out i f else out

abbrev opened_at : Bool → Option ℕ → (ℕ → ℕ) → ℕ → ℕ → ℕ
opened_at u f offset start = if u then opened_offset f offset start else offset

opens_both :
    (u0 u1 : Bool) (f0 f1 : Option ℕ) (out : ℕ → Option ℕ) (offset : ℕ → ℕ) (start : ℕ)
    → AreApart f0 f1
    → (u0 ≡ false → out 0 ≡ none)
    → (u1 ≡ false → out 1 ≡ none)
    → OpensBoth u0 u1
        (opened_out u1 1 f1 (opened_out u0 0 f0 out))
        (opened_at u1 f1 (opened_at u0 f0 offset start) start)
        start
opens_both true true f0 f1 out offset start p h0 h1 = ground arith
opens_both true false f0 f1 out offset start p h0 h1 = ground arith
opens_both false true f0 f1 out offset start p h0 h1 = ground arith
opens_both false false f0 f1 out offset start p h0 h1 = ground arith

abbrev staged : Recorder → ℕ → Text
staged r i = (r.data_loc i).stagingdir ++ r.m_chunk.chunk_fname

module _ (z : Sizes) (w : World) (s : IsSound w) (ds : List DigitalInput) (d : Desc) (t : ℕ) where
  open_new-HasOpened :
      (i : ℕ) (r : Recorder)
      → w.fwrite_ok i ≡ true
      → HasOpened r
          (open_new z w ds d t i r)
          i
          (w.fopen i (staged r i))
          (z.prefix_size + z.header_size)
  unfolding open_new metadata_chunk_header
  open_new-HasOpened i r ok = ground arith

  pub open_IsAligned :
      (r : Recorder)
      → ((r.data_loc 0).is_used ≡ false → r.out 0 ≡ none)
      → ((r.data_loc 1).is_used ≡ false → r.out 1 ≡ none)
      → r.n_copies ≡ 2
      → IsAligned
          (record (each_location (open_new z w ds d t) r) { pos = z.prefix_size + z.header_size })
  open_IsAligned r u0 u1 c =
      let r1 = open_new z w ds d t 0 r in
      let r2 = open_new z w ds d t 1 r1 in
      let a = open_new-HasOpened 0 r s.write0 in
      let b = open_new-HasOpened 1 r1 s.write1 in
      let used0 = (r.data_loc 0).is_used in
      let used1 = (r.data_loc 1).is_used in
      let loc0 : (r2.data_loc 0).is_used ≡ used0 = rw (b.locs, a.locs) in
      let loc1 : (r2.data_loc 1).is_used ≡ used1 = rw (b.locs, a.locs) in
      let f1 = w.fopen 1 (staged r1 1) in
      let streams : r2.out
          ≡ opened_out used1 1 f1 (opened_out used0 0 (w.fopen 0 (staged r 0)) r.out) =
        b.out ∙ rw (a.out, a.locs) in
      let offsets : r2.offset
          ≡ opened_at used1 f1
              (opened_at used0 (w.fopen 0 (staged r 0)) r.offset (z.prefix_size + z.header_size))
              (z.prefix_size + z.header_size) =
        b.offset ∙ rw (a.offset, a.locs) in
      let both =
        opens_both used0 used1 (w.fopen 0 (staged r 0)) f1 r.out r.offset
          (z.prefix_size + z.header_size) (s.distinct (staged r 0) (staged r1 1)) u0 u1 in
      record {
        unused0 = rw (loc0, streams) both.none0;
        unused1 = rw (loc1, streams) both.none1;
        apart = rw streams both.apart;
        at0 = rw (streams, offsets) both.at0;
        at1 = rw (streams, offsets) both.at1;
        copies = b.copies ∙ a.copies ∙ c;
      }
