-- ===== src/Download/Segments.antt =====
-- The segments that a download writes for the runs of its chunks.
use recording_agent_continuo.Prelude.{
  ℕ, ◌+◌, ◌/◌, ◌≡◌, ◌==◌, refl, Bool, true, false, ◌||◌, some, List, [], ◌∷◌, ◌++◌, map, All, arith,
  ap, ◌∙◌,
}
use recording_agent_continuo.Prelude.Text.{Text}
use recording_agent_continuo.Metarec.Recorder.{u64, sub_u64}
use recording_agent_continuo.Storage.{basename}
use recording_agent_continuo.Download.{
  DrChunk, Drive, Writing, Piece, segment_start, chunk, segment, header_offset,
  get_timeoffset_from_chunk_header, start_first, start_next, end_segment, end_if_gap, add_chunk,
  add_path, add_chunks, copy_path, writing_at,
}

-- The first chunk up to a gap, and the others.
pub record Run : Type 0 where
  pub first : DrChunk
  pub others : List DrChunk

abbrev pub last_of : DrChunk → List DrChunk → DrChunk
last_of c [] = c
last_of c (n ∷ cs) = last_of n cs

-- Only the last may have a gap behind it.
abbrev pub IsGapless : DrChunk → List DrChunk → Type 0
IsGapless c [] = Unit
IsGapless c (n ∷ cs) = (c.gap ≡ false) × IsGapless n cs

-- Runs with a gap behind each but the last.
abbrev pub AreRuns : Run → List Run → Type 0
AreRuns r [] = IsGapless r.first r.others
AreRuns r (q ∷ qs) =
    IsGapless r.first r.others × ((last_of r.first r.others).gap ≡ true) × AreRuns q qs

abbrev pub chunks_of : List Run → List DrChunk
chunks_of [] = []
chunks_of (r ∷ rs) = r.first ∷ (r.others ++ chunks_of rs)

AreRuns-gap :
    (c n : DrChunk) (others : List DrChunk) (rs : List Run)
    → AreRuns (record { first = c; others = n ∷ others }) rs
    → c.gap ≡ false
AreRuns-gap c n others [] runs = runs.0
AreRuns-gap c n others (r ∷ rs) ((gap, gapless), ended, runs) = gap

AreRuns-tail :
    (c n : DrChunk) (others : List DrChunk) (rs : List Run)
    → AreRuns (record { first = c; others = n ∷ others }) rs
    → AreRuns (record { first = n; others = others }) rs
AreRuns-tail c n others [] runs = runs.1
AreRuns-tail c n others (r ∷ rs) ((gap, gapless), ended, runs) = (gapless, ended, runs)

or_true : (b : Bool) → (b || true) ≡ true
or_true b = ground arith

module _ (d : Drive) (destination : Text) (path : DrChunk → Text) (offset : DrChunk → ℕ) where
  -- The chunk has its path, its header has its offset, and its file can be copied.
  abbrev pub IsGood : DrChunk → Type 0
  IsGood c =
      (d.make_filepath c ≡ some (path c))
      × (d.header (path c) ≡ some (some (offset c)))
      × (d.copies (path c) (copy_path destination (path c)) ≡ true)

  abbrev piece : DrChunk → Piece
  piece c = chunk (basename (path c)) (d.stored_sig (path c))

  -- The end of a chunk, by its own offset.
  abbrev pub end_of : DrChunk → ℕ
  end_of c = u64 (sub_u64 c.epoch_time (offset c) + c.duration / 1000000)

  -- What is to be written of some runs, the first started by an offset: each has its chunks between
  -- its start and its times, and the offset of its last chunk gives the start of the next.
  abbrev pub segments : ℕ → List Run → List Piece
  segments o [] = []
  segments o (r ∷ rs) =
      segment_start
      ∷ (map piece (r.first ∷ r.others)
          ++ (segment (sub_u64 r.first.epoch_time o) (end_of (last_of r.first r.others))
              ∷ segments (offset (last_of r.first r.others)) rs))

  -- What is written behind a chunk.
  abbrev behind : DrChunk → List DrChunk → Writing → List Piece
  behind c cs w =
      let ended = end_if_gap d (path c) c cs w in ended.0 ++ (add_chunks d destination cs ended.1).0

  good-step :
      (c : DrChunk) (cs : List DrChunk) (w : Writing)
      → IsGood c
      → (w.cc == 0) ≡ false
      → (add_chunks d destination (c ∷ cs) w).0 ≡ piece c ∷ behind c cs (record w { cc = w.cc + 1 })
  unfolding add_chunks add_path add_chunk start_first
  good-step c cs w good later = rw (good.0, good.2, later) refl

  good-offset :
      (c : DrChunk) (o : ℕ) → IsGood c → get_timeoffset_from_chunk_header d (path c) o ≡ offset c
  unfolding get_timeoffset_from_chunk_header header_offset
  good-offset c o good = rw good.1 refl

  -- Behind the last chunk of all.
  end-last :
      (c : DrChunk) (w : Writing)
      → IsGood c
      → (end_if_gap d (path c) c [] w).0 ≡ segment w.start_time (end_of c) ∷ []
  unfolding end_if_gap end_segment start_next
  end-last c w good = rw (or_true c.gap, good-offset c w.last_chunk_offset good) refl

  abbrev counted : Writing → Writing
  counted w = record w { cc = w.cc + 1 }

  -- The variables once the run of n was started behind c.
  abbrev started : DrChunk → DrChunk → Writing → Writing
  started c n w = record w {
    s = sub_u64 n.epoch_time (offset c);
    first_chunk_offset = offset c;
    last_chunk_offset = offset c;
    start_time = sub_u64 n.epoch_time (offset c);
  }

  -- The variables once the first run was started and its first chunk written.
  abbrev at_first : DrChunk → Writing
  at_first c = record {
    s = sub_u64 c.epoch_time (offset c);
    first_chunk_offset = offset c;
    last_chunk_offset = 0;
    start_time = sub_u64 c.epoch_time (offset c);
    cc = 1;
  }

  -- Behind the last chunk of a run that is not the last.
  end-gap :
      (c n : DrChunk) (cs : List DrChunk) (w : Writing)
      → IsGood c
      → c.gap ≡ true
      → end_if_gap d (path c) c (n ∷ cs) w
        ≡ (segment w.start_time (end_of c) ∷ (segment_start ∷ []), started c n w)
  unfolding end_if_gap end_segment start_next
  end-gap c n cs w good gap =
      rw (good-offset c w.last_chunk_offset good, good-offset c w.first_chunk_offset good, gap) refl

  -- Behind any other.
  end-none :
      (c n : DrChunk) (cs : List DrChunk) (w : Writing)
      → c.gap ≡ false
      → end_if_gap d (path c) c (n ∷ cs) w ≡ ([], w)
  unfolding end_if_gap
  end-none c n cs w gap = rw gap refl

  behind-run :
      (c : DrChunk) (others : List DrChunk) (rs : List Run) (w : Writing)
      → AreRuns (record { first = c; others = others }) rs
      → All IsGood (c ∷ (others ++ chunks_of rs))
      → (w.cc == 0) ≡ false
      → behind c (others ++ chunks_of rs) w
        ≡ map piece others
          ++ (segment w.start_time (end_of (last_of c others))
              ∷ segments (offset (last_of c others)) rs)
  unfolding add_chunks
  behind-run c [] [] w runs good later = ap (λ e. e ++ []) (end-last c w good.0)
  behind-run c [] (r ∷ rs) w (gapless, gap, runs) good later =
      let cs = r.others ++ chunks_of rs in
      let w1 = started c r.first w in
      let rest = behind-run r.first r.others rs (counted w1) runs good.1 (ground arith) in
      ap (λ e. e.0 ++ (add_chunks d destination (r.first ∷ cs) e.1).0)
        (end-gap c r.first cs w good.0 gap)
      ∙ ap (λ e. segment w.start_time (end_of c) ∷ (segment_start ∷ e))
          (good-step r.first cs w1 good.1.0 later ∙ ap (λ e. piece r.first ∷ e) rest)
  behind-run c (n ∷ others) rs w runs good later =
      let cs = others ++ chunks_of rs in
      let rest =
        behind-run n others rs (counted w) (AreRuns-tail c n others rs runs) good.1
          (ground arith) in
      ap (λ e. e.0 ++ (add_chunks d destination (n ∷ cs) e.1).0)
        (end-none c n cs w (AreRuns-gap c n others rs runs))
      ∙ (good-step n cs w good.1.0 later ∙ ap (λ e. piece n ∷ e) rest)

  first-step :
      (c : DrChunk) (cs : List DrChunk)
      → IsGood c
      → (add_chunks d destination (c ∷ cs) (writing_at c.epoch_time)).0
        ≡ segment_start ∷ (piece c ∷ behind c cs (at_first c))
  unfolding add_chunks add_path add_chunk start_first
  first-step c cs good = rw (good.0, good.2, good-offset c 0 good) refl

  pub add_chunks-segments :
      (r : Run) (rs : List Run)
      → AreRuns r rs
      → All IsGood (chunks_of (r ∷ rs))
      → (add_chunks d destination (chunks_of (r ∷ rs)) (writing_at r.first.epoch_time)).0
        ≡ segments (offset r.first) (r ∷ rs)
  unfolding add_chunks
  add_chunks-segments r rs runs good =
      let cs = r.others ++ chunks_of rs in
      first-step r.first cs good.0
      ∙ ap (λ e. segment_start ∷ (piece r.first ∷ e))
          (behind-run r.first r.others rs (at_first r.first) runs good refl)
