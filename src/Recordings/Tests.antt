-- ===== src/Recordings/Tests.antt =====
-- The recordings of a small drive.
use recording_agent_continuo.Prelude.{ℕ, ◌≡◌, refl, [], ◌∷◌, ◌++◌}
use recording_agent_continuo.Recordings.{SingleChunk, is_gap, print_segments}
use recording_agent_continuo.Recordings.Segments.{Run, AreRuns, chunks_of, print_segments-spans}

abbrev chunk : ℕ → SingleChunk
chunk t = record { start_time = t; duration = 300000000 }

-- Two chunks in a row, and a third after a pause.
abbrev morning : Run
morning = record { first = chunk 1000; others = chunk 1301 ∷ [] }

abbrev evening : Run
evening = record { first = chunk 9000; others = [] }

two_runs : AreRuns morning (evening ∷ [])
unfolding is_gap
two_runs = ((refl, tt), refl, tt)

print_segments-spans_example :
    print_segments 1000 (chunk 1000) ((chunk 1301 ∷ []) ++ chunks_of (evening ∷ []))
    ≡ (1000, 1601) ∷ (9000, 9300) ∷ []
print_segments-spans_example = print_segments-spans morning (evening ∷ []) two_runs
