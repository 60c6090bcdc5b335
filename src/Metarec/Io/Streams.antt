-- ===== src/Metarec/Io/Streams.antt =====
-- What closing files, naming a chunk and testing for a new one leave alone: the streams of the
-- thread, their offsets and the position that it keeps.
use recording_agent_continuo.Prelude.{ℕ, ◌≡◌, ◌∙◌, false, arith}
use recording_agent_continuo.Metarec.Recorder.{Tm, Recorder}
use recording_agent_continuo.Metarec.Chunk.{
  close_old, close_chunk, prepare_subpath, name_chunk, is_new_chunk_required, set_duration,
  metadata_reset_record_tracker,
}
use recording_agent_continuo.Metarec.Io.Align.{IsAligned}

-- The parts that matter here, and that closing files and naming a chunk leave alone.
pub record SameStreams (r r' : Recorder) : Type 0 where
  pub out : r'.out ≡ r.out
  pub offset : r'.offset ≡ r.offset
  pub pos : r'.pos ≡ r.pos
  pub locs : r'.data_loc ≡ r.data_loc
  pub copies : r'.n_copies ≡ r.n_copies

pub SameStreams-trans : {r s t : Recorder} → SameStreams r s → SameStreams s t → SameStreams r t
SameStreams-trans p q = record {
  out = q.out ∙ p.out;
  offset = q.offset ∙ p.offset;
  pos = q.pos ∙ p.pos;
  locs = q.locs ∙ p.locs;
  copies = q.copies ∙ p.copies;
}

close_old-SameStreams : (i : ℕ) (r : Recorder) → SameStreams r (close_old i r)
unfolding close_old
close_old-SameStreams i r = ground arith

pub close_chunk-SameStreams : (r : Recorder) → SameStreams r (close_chunk r)
unfolding close_chunk metadata_reset_record_tracker
close_chunk-SameStreams r =
    let r1 = record r {
      m_chunk = record r.m_chunk { session_just_started = false; drive_status_updated = false };
    } in
    let p =
      SameStreams-trans (close_old-SameStreams 0 r1) (close_old-SameStreams 1 (close_old 0 r1)) in
    record { out = p.out; offset = p.offset; pos = p.pos; locs = p.locs; copies = p.copies }

pub name_chunk-SameStreams : (t : Tm) (r : Recorder) → SameStreams r (name_chunk t r)
unfolding name_chunk prepare_subpath
name_chunk-SameStreams t r = ground arith

pub set_duration-SameStreams : (t : ℕ) (r : Recorder) → SameStreams r (set_duration t r)
unfolding set_duration
set_duration-SameStreams t r = ground arith

pub required-SameStreams : (t : Tm) (r : Recorder) → SameStreams r (is_new_chunk_required t r).1
unfolding is_new_chunk_required
required-SameStreams t r = ground arith

pub IsAligned-same : {r s : Recorder} → IsAligned r → SameStreams r s → IsAligned s
IsAligned-same a p = record {
  unused0 = rw (p.locs, p.out) a.unused0;
  unused1 = rw (p.locs, p.out) a.unused1;
  apart = rw p.out a.apart;
  at0 = rw (p.out, p.offset, p.pos) a.at0;
  at1 = rw (p.out, p.offset, p.pos) a.at1;
  copies = p.copies ∙ a.copies;
}
