-- ===== src/Download/Contents.antt =====
-- What a download of runs of chunks writes and returns.
use recording_agent_continuo.Prelude.{
  ℕ, ◌*◌, ◌≡◌, leb, refl, true, false, Option, List, [], ◌∷◌, ◌++◌, All, arith, ap₂, ◌∙◌,
}
use recording_agent_continuo.Prelude.Text.{Text}
use recording_agent_continuo.Download.{
  DrChunk, Drive, DownloadStatus, ok_full, failure, internal_err, size_err, range_err, or_zero,
  total_size, written_status, writing_at, add_chunks, insert_chunk_metadata,
}
use recording_agent_continuo.Download.Attempt.{is_full}
use recording_agent_continuo.Download.Copies.{any_path, all_copied, add_chunks-full}
use recording_agent_continuo.Download.Segments.{
  Run, AreRuns, chunks_of, IsGood, segments, add_chunks-segments,
}

is_full-ok : (st : DownloadStatus) → is_full st ≡ true → st ≡ ok_full
is_full-ok ok_full h = refl
is_full-ok failure h = absurd cc
is_full-ok internal_err h = absurd cc
is_full-ok size_err h = absurd cc
is_full-ok range_err h = absurd cc

module _ (d : Drive) (destination : Text) (path : DrChunk → Text) (offset : DrChunk → ℕ) where
  abbrev Good : DrChunk → Type 0
  Good = IsGood d destination path offset

  Good-copied : (cs : List DrChunk) → All Good cs → all_copied d destination cs ≡ true
  Good-copied [] h = refl
  Good-copied (c ∷ cs) (h, hs) = rw (h.0, h.2) (Good-copied cs hs)

  Good-path : (c : DrChunk) (cs : List DrChunk) → Good c → any_path d (c ∷ cs) ≡ true
  Good-path c cs h = rw h.0 refl

  Good-status :
      (c : DrChunk) (cs : List DrChunk)
      → All Good (c ∷ cs)
      → written_status (add_chunks d destination (c ∷ cs) (writing_at c.epoch_time)).1 ≡ ok_full
  Good-status c cs h =
      let full = add_chunks-full d destination (c ∷ cs) (writing_at c.epoch_time) in
      let copied = Good-copied (c ∷ cs) h in
      let found = Good-path c cs h.0 in
      is_full-ok (written_status (add_chunks d destination (c ∷ cs) (writing_at c.epoch_time)).1)
        (full ∙ ground (arith, copied, found))

  -- If the files of some runs of chunks take less than 60 percent of the free bytes, and each
  -- chunk has its path, the offset in its header and a file that can be copied, the chunks are
  -- downloaded, and for each run there is written its start, its chunks and its times, where the
  -- start time of the first run is that of its first chunk less the offset of this chunk, and that
  -- of each later run is the time of its first chunk less the offset of the chunk before it.
  pub insert_chunk_metadata-segments :
      (r : Run) (rs : List Run) (free : Option ℕ) (st_size : ℕ)
      → AreRuns r rs
      → All Good (chunks_of (r ∷ rs))
      → leb (6 * or_zero free) (10 * total_size d st_size (chunks_of (r ∷ rs))) ≡ false
      → insert_chunk_metadata d destination free st_size (chunks_of (r ∷ rs))
        ≡ (segments d destination path offset (offset r.first) (r ∷ rs), ok_full)
  unfolding insert_chunk_metadata
  insert_chunk_metadata-segments r rs free st_size runs h fits = rw fits (
      ap₂ (λ out st. (out, st)) (add_chunks-segments d destination path offset r rs runs h)
        (Good-status r.first (r.others ++ chunks_of rs) h))
