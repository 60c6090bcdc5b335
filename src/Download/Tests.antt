-- ===== src/Download/Tests.antt =====
-- The theorems at a download of two runs.
use recording_agent_continuo.Prelude.{
  ℕ, ◌+◌, ◌≡◌, Bool, true, false, ◌||◌, some, if◌then◌else◌, [], ◌∷◌, refl,
}
use recording_agent_continuo.Prelude.Text.{Text, codes, text_eq}
use recording_agent_continuo.Download.{total_size, DrChunk, Drive, ok_full, insert_chunk_metadata}
use recording_agent_continuo.Download.Attempt.{Attempt, Retrieved, found, no_data, do_download}
use recording_agent_continuo.Download.Status.{SucceedsIff, is_attempt_ready, do_download-succeeds}
use recording_agent_continuo.Download.Segments.{Run, chunks_of, segments}
use recording_agent_continuo.Download.Contents.{insert_chunk_metadata-segments}

abbrev chunk_at : ℕ → Bool → DrChunk
chunk_at t gap = record { epoch_time = t; duration = 60000000; gap = gap }

abbrev run_at : ℕ → Bool → Run
run_at t gap = record { first = chunk_at t false; others = chunk_at (t + 60) gap ∷ [] }

-- A chunk behind which there is a gap has another path.
abbrev path : DrChunk → Text
path c = if c.gap then codes "/d/last" else codes "/d/next"

abbrev offset : DrChunk → ℕ
offset c = if c.gap then 7 else 5

abbrev offset_of_path : Text → ℕ
offset_of_path tp = if text_eq tp (codes "/d/last") then 7 else 5

abbrev drive : Drive
drive = record {
  make_filepath = λ c. some (path c);
  size_of = λ tp. some 1000;
  header = λ tp. some (some (offset_of_path tp));
  timeoffset = 0;
  stored_sig = λ tp. codes "00";
  copies = λ tp tq. true;
}

insert_chunk_metadata-segments_example :
    insert_chunk_metadata drive
      (codes "/x")
      (some 100000)
      0
      (chunks_of (run_at 1000 true ∷ (run_at 2000 false ∷ [])))
    ≡ (
      segments drive (codes "/x") path offset 5 (run_at 1000 true ∷ (run_at 2000 false ∷ [])),
      ok_full,
    )
unfolding total_size
insert_chunk_metadata-segments_example =
    insert_chunk_metadata-segments drive (codes "/x") path offset (run_at 1000 true)
      (run_at 2000 false ∷ []) (some 100000) 0 ((refl, tt), refl, (refl, tt))
      ((refl, refl, refl), ((refl, refl, refl), ((refl, refl, refl), ((refl, refl, refl), tt))))
      refl

-- An attempt that lacks nothing but, perhaps, the chunks.
abbrev attempt : Retrieved → Attempt
attempt r = record {
  removes = true;
  destination = codes "/x/y";
  is_dir = true;
  cleans = true;
  free = some 4000000000;
  retrieved = r;
  media_info = true;
  opens_meta = true;
  free_later = some 4000000000;
  stat_buffer = 0;
  encrypts_meta = true;
  zips = true;
  encrypts_zip = true;
  st_size = some 5000;
  drive = drive;
}

do_download-succeeds_example :
    SucceedsIff
      (is_attempt_ready (attempt no_data)
        || is_attempt_ready (attempt (found (chunk_at 1000 false ∷ []))))
      (do_download (attempt no_data) (attempt (found (chunk_at 1000 false ∷ []))))
do_download-succeeds_example =
    do_download-succeeds (attempt no_data) (attempt (found (chunk_at 1000 false ∷ [])))
