-- ===== src/Metarec/Chunk/Parts.antt =====
-- What the functions of metachunk.c leave alone: the tracker of index records, and which locations
-- are used.
use recording_agent_continuo.Prelude.{ℕ, ◌≡◌, refl, ◌∙◌, false, List, arith}
use recording_agent_continuo.Metarec.{Desc}
use recording_agent_continuo.Metarec.Intf.{DigitalInput}
use recording_agent_continuo.Metarec.Recorder.{Tm, Recorder, World, Sizes, each_location}
use recording_agent_continuo.Metarec.Chunk.{
  finish_file, metadata_reset_record_tracker, is_new_path_required, set_duration,
  is_new_chunk_required, close_chunk, name_chunk, chunk_name, close_old, open_new, prepare_subpath,
  next_chunk, finalize_location, metadata_chunk_finalize, metadata_chunk_header,
}

-- The parts that opening and closing files do not touch.
pub record SameParts (r r' : Recorder) : Type 0 where
  pub num : r'.num_records ≡ r.num_records
  pub max : r'.max_records ≡ r.max_records
  pub allocated : r'.idx_allocated ≡ r.idx_allocated
  pub locs : r'.data_loc ≡ r.data_loc
  pub copies : r'.n_copies ≡ r.n_copies
  pub time_change : r'.forward_time_change_occurred ≡ r.forward_time_change_occurred
  pub session : r'.m_chunk.session_just_started ≡ r.m_chunk.session_just_started
  pub drive : r'.m_chunk.drive_status_updated ≡ r.m_chunk.drive_status_updated
  pub prev : r'.m_chunk.prev_tm ≡ r.m_chunk.prev_tm
  pub longest : r'.m_chunk.chunk_max_duration ≡ r.m_chunk.chunk_max_duration
  pub delta : r'.m_chunk.deltat ≡ r.m_chunk.deltat

pub SameParts-trans : {r s t : Recorder} → SameParts r s → SameParts s t → SameParts r t
SameParts-trans p q = record {
  num = q.num ∙ p.num;
  max = q.max ∙ p.max;
  allocated = q.allocated ∙ p.allocated;
  locs = q.locs ∙ p.locs;
  copies = q.copies ∙ p.copies;
  time_change = q.time_change ∙ p.time_change;
  session = q.session ∙ p.session;
  drive = q.drive ∙ p.drive;
  prev = q.prev ∙ p.prev;
  longest = q.longest ∙ p.longest;
  delta = q.delta ∙ p.delta;
}

each_location-SameParts :
    (body : ℕ → Recorder → Recorder) (r : Recorder)
    → ((i : ℕ) (s : Recorder) → SameParts s (body i s))
    → SameParts r (each_location body r)
each_location-SameParts body r h = SameParts-trans (h 0 r) (h 1 (body 0 r))

finish_file-SameParts : (i h : ℕ) (r : Recorder) → SameParts r (finish_file i h r)
unfolding finish_file
finish_file-SameParts i h r = ground arith

close_old-SameParts : (i : ℕ) (r : Recorder) → SameParts r (close_old i r)
unfolding close_old
close_old-SameParts i r = ground arith

header-SameParts :
    (z : Sizes) (w : World) (ds : List DigitalInput) (i h sec usec : ℕ) (r : Recorder)
    → SameParts r (metadata_chunk_header z w ds i h sec usec r)
unfolding metadata_chunk_header
header-SameParts z w ds i h sec usec r = ground arith

open_new-SameParts :
    (z : Sizes) (w : World) (ds : List DigitalInput) (d : Desc) (t i : ℕ) (r : Recorder)
    → SameParts r (open_new z w ds d t i r)
unfolding open_new
open_new-SameParts z w ds d t i r = ground arith

prepare_subpath-SameParts : (r : Recorder) → SameParts r (prepare_subpath r)
unfolding prepare_subpath
prepare_subpath-SameParts r = ground arith

finalize_location-SameParts : (i : ℕ) (r : Recorder) → SameParts r (finalize_location i r)
unfolding finalize_location
finalize_location-SameParts i r = ground arith

-- After the change of chunks: no records yet, no reason left to change again, the chunk's time is
-- in the hour of the descriptor, and the rest as before.
pub record IsFresh (t : Tm) (r r' : Recorder) : Type 0 where
  pub num : r'.num_records ≡ 0
  pub max : r'.max_records ≡ r.max_records
  pub allocated : r'.idx_allocated ≡ r.idx_allocated
  pub locs : r'.data_loc ≡ r.data_loc
  pub copies : r'.n_copies ≡ r.n_copies
  pub time_change : r'.forward_time_change_occurred ≡ r.forward_time_change_occurred
  pub longest : r'.m_chunk.chunk_max_duration ≡ r.m_chunk.chunk_max_duration
  pub delta : r'.m_chunk.deltat ≡ r.m_chunk.deltat
  pub settled : is_new_path_required r'.m_chunk t ≡ false
  pub drive : r'.m_chunk.drive_status_updated ≡ false

close_chunk-parts :
    (r : Recorder)
    → let r' = close_chunk r in
      (r'.num_records ≡ 0)
      × (r'.m_chunk.session_just_started ≡ false)
      × (r'.m_chunk.drive_status_updated ≡ false)
      × (r'.max_records ≡ r.max_records)
      × (r'.idx_allocated ≡ r.idx_allocated)
      × (r'.data_loc ≡ r.data_loc)
      × (r'.n_copies ≡ r.n_copies)
      × (r'.forward_time_change_occurred ≡ r.forward_time_change_occurred)
      × (r'.m_chunk.chunk_max_duration ≡ r.m_chunk.chunk_max_duration)
      × (r'.m_chunk.deltat ≡ r.m_chunk.deltat)
unfolding close_chunk metadata_reset_record_tracker
close_chunk-parts r =
    let p = each_location-SameParts close_old _ close_old-SameParts in
    (
      refl, p.session, p.drive, p.max, p.allocated, p.locs, p.copies, p.time_change, p.longest,
      p.delta,
    )

name_chunk-IsFresh :
    (t : Tm) (r : Recorder)
    → r.num_records ≡ 0
    → r.m_chunk.session_just_started ≡ false
    → r.m_chunk.drive_status_updated ≡ false
    → IsFresh t r (name_chunk t r)
unfolding name_chunk is_new_path_required
name_chunk-IsFresh t r n s d = ground (
  arith,
  prepare_subpath-SameParts
      (record r { m_chunk = record r.m_chunk { chunk_fname = chunk_name t; prev_tm = t } }),
)

IsFresh-kept : {t : Tm} {r s s' : Recorder} → IsFresh t r s → SameParts s s' → IsFresh t r s'
unfolding is_new_path_required
IsFresh-kept f p = record {
  num = p.num ∙ f.num;
  max = p.max ∙ f.max;
  allocated = p.allocated ∙ f.allocated;
  locs = p.locs ∙ f.locs;
  copies = p.copies ∙ f.copies;
  time_change = p.time_change ∙ f.time_change;
  longest = p.longest ∙ f.longest;
  delta = p.delta ∙ f.delta;
  settled = rw (p.session, p.prev) f.settled;
  drive = p.drive ∙ f.drive;
}

pub next_chunk-IsFresh :
    (z : Sizes) (w : World) (ds : List DigitalInput) (d : Desc) (t_start : ℕ) (r : Recorder)
    → IsFresh (w.gmtime d.tod_sec) r (next_chunk z w ds d t_start r)
unfolding next_chunk
next_chunk-IsFresh z w ds d t_start r =
    let c = close_chunk-parts r in
    let n = name_chunk-IsFresh (w.gmtime d.tod_sec) (close_chunk r) c.0 c.1 c.2 in
    let f : IsFresh (w.gmtime d.tod_sec) r (name_chunk (w.gmtime d.tod_sec) (close_chunk r)) =
      record {
        num = n.num;
        max = n.max ∙ c.3;
        allocated = n.allocated ∙ c.4;
        locs = n.locs ∙ c.5;
        copies = n.copies ∙ c.6;
        time_change = n.time_change ∙ c.7;
        longest = n.longest ∙ c.8;
        delta = n.delta ∙ c.9;
        settled = n.settled;
        drive = n.drive;
      } in
    IsFresh-kept f
      (each_location-SameParts (open_new z w ds d t_start) _ (open_new-SameParts z w ds d t_start))

pub metadata_chunk_finalize_parts :
    (r : Recorder)
    → let r' = metadata_chunk_finalize r in
      (r'.num_records ≡ 0)
      × (r'.max_records ≡ r.max_records)
      × (r'.idx_allocated ≡ r.idx_allocated)
      × (r'.data_loc ≡ r.data_loc)
unfolding metadata_chunk_finalize metadata_reset_record_tracker
metadata_chunk_finalize_parts r =
    let p = each_location-SameParts finalize_location r finalize_location-SameParts in
    (refl, p.max, p.allocated, p.locs)

pub set_duration-SameParts : (t : ℕ) (r : Recorder) → SameParts r (set_duration t r)
unfolding set_duration
set_duration-SameParts t r = ground arith

-- The test for a new chunk takes note of a time change and leaves the rest alone.
pub new_chunk_required-parts :
    (t : Tm) (r : Recorder)
    → let r' = (is_new_chunk_required t r).1 in
      SameParts r (record r' { forward_time_change_occurred = r.forward_time_change_occurred })
      × (r'.forward_time_change_occurred ≡ false)
unfolding is_new_chunk_required
new_chunk_required-parts t r = ground arith
