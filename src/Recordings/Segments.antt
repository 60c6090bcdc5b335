-- ===== src/Recordings/Segments.antt =====
-- What is printed of a camera's chunks, and how many chunks a camera has.
use recording_agent_continuo.Prelude.{
  ℕ, ◌%◌, ◌^◌, ◌≡◌, refl, ◌∙◌, ap, Bool, true, false, List, [], ◌∷◌, ◌++◌, length, length-append,
  arith, All, Bool-cases, inl, inr,
}
use recording_agent_continuo.Prelude.Text.{Text}
use recording_agent_continuo.Metarec.Recorder.{Tm}
use recording_agent_continuo.Storage.{
  Entry, unreadable, regular, directory, special, Entries, nil, cons, join_path,
}
use recording_agent_continuo.Recordings.{
  SingleChunk, CamRec, TimeArray, end_of, is_gap, print_segments, is_ignored, add_chunk, end_camera,
  search_entry, search_directory, file_duration, file_name_to_epoch,
}

-- A run of chunks: the first, and those behind it.
pub record Run : Type 0 where
  pub first : SingleChunk
  pub others : List SingleChunk

abbrev pub last_of : SingleChunk → List SingleChunk → SingleChunk
last_of c [] = c
last_of c (d ∷ ds) = last_of d ds

-- No gap behind `c` nor between the chunks that follow it.
abbrev pub IsGapless : SingleChunk → List SingleChunk → Type 0
IsGapless c [] = Unit
IsGapless c (d ∷ ds) = (is_gap c d ≡ false) × IsGapless d ds

-- Runs without gaps, and a gap between each run and the next.
abbrev pub AreRuns : Run → List Run → Type 0
AreRuns r [] = IsGapless r.first r.others
AreRuns r (q ∷ qs) =
    IsGapless r.first r.others × (is_gap (last_of r.first r.others) q.first ≡ true) × AreRuns q qs

-- The chunks of some runs, one behind the other.
abbrev pub chunks_of : List Run → List SingleChunk
chunks_of [] = []
chunks_of (r ∷ rs) = r.first ∷ (r.others ++ chunks_of rs)

-- From the start of a run's first chunk to the end of its last.
abbrev pub span : Run → ℕ × ℕ
span r = (r.first.start_time, end_of (last_of r.first r.others))

abbrev pub spans : List Run → List (ℕ × ℕ)
spans [] = []
spans (r ∷ rs) = span r ∷ spans rs

print_same :
    (start : ℕ) (previous c : SingleChunk) (cs : List SingleChunk)
    → is_gap previous c ≡ false
    → print_segments start previous (c ∷ cs) ≡ print_segments start c cs
unfolding print_segments
print_same start previous c cs h = ground (arith, h)

print_next :
    (start : ℕ) (previous c : SingleChunk) (cs : List SingleChunk)
    → is_gap previous c ≡ true
    → print_segments start previous (c ∷ cs)
      ≡ (start, end_of previous) ∷ print_segments c.start_time c cs
unfolding print_segments
print_next start previous c cs h = ground (arith, h)

-- The chunks of a run are passed.
print_run :
    (start : ℕ) (c : SingleChunk) (ds cs : List SingleChunk)
    → IsGapless c ds
    → print_segments start c (ds ++ cs) ≡ print_segments start (last_of c ds) cs
print_run start c [] cs h = refl
print_run start c (d ∷ ds) cs (h, rest) =
    print_same start c d (ds ++ cs) h ∙ print_run start d ds cs rest

print_last :
    (start : ℕ) (previous : SingleChunk)
    → print_segments start previous [] ≡ (start, end_of previous) ∷ []
unfolding print_segments
print_last start previous = refl

-- If some chunks are runs without gaps with a gap between each run and the next, one segment is
-- printed for each run, from the start of its first chunk to the end of its last.
pub print_segments-spans :
    (r : Run) (rs : List Run)
    → AreRuns r rs
    → print_segments r.first.start_time r.first (r.others ++ chunks_of rs) ≡ spans (r ∷ rs)
print_segments-spans r [] h =
    print_run r.first.start_time r.first r.others [] h
    ∙ print_last r.first.start_time (last_of r.first r.others)
print_segments-spans r (q ∷ qs) (h, gap, rest) =
    print_run r.first.start_time r.first r.others (chunks_of (q ∷ qs)) h
    ∙ print_next r.first.start_time (last_of r.first r.others) q.first (q.others ++ chunks_of qs)
        gap
    ∙ ap (λ l. span r ∷ l) (print_segments-spans q qs rest)

-- A camera's number of chunks is that of its recordings, as 16 bits hold it.
abbrev pub IsCounted : CamRec → Type 0
IsCounted c = c.num_chunks ≡ length c.recording % 2 ^ 16

abbrev pub AreCounted : TimeArray → Type 0
AreCounted t = All IsCounted t.complete × IsCounted t.current

pub All-snoc :
    (cs : List CamRec) (c : CamRec)
    → All IsCounted cs
    → IsCounted c
    → All IsCounted (cs ++ (c ∷ []))
All-snoc [] c h k = (k, tt)
All-snoc (d ∷ ds) c (h, hs) k = (h, All-snoc ds c hs k)

end_camera-AreCounted :
    (is_root : Bool) (name : Text) (t : TimeArray)
    → AreCounted t
    → AreCounted (end_camera is_root name t)
unfolding end_camera
end_camera-AreCounted false name t h = h
end_camera-AreCounted true name t (complete, current) =
    (All-snoc t.complete _ complete current, refl)

module _ (mktime : Tm → ℕ) where
  add_chunk-AreCounted :
      (path : Text) (t : TimeArray) → AreCounted t → AreCounted (add_chunk mktime path t)
  unfolding add_chunk
  add_chunk-AreCounted path t (complete, current) = (
    complete,
    omega (
      arith,
      current,
      length-append t.current.recording (
          record { start_time = file_name_to_epoch mktime path; duration = file_duration path }
          ∷ []),
    ),
  )

  mutual
    unfolding search_entry search_directory

    search_entry_counted :
        (is_root : Bool) (dir : Text) (e : Entry) (t : TimeArray)
        → AreCounted t
        → AreCounted (search_entry mktime is_root dir e t)
    search_entry_counted is_root dir (unreadable name) t h = h
    search_entry_counted is_root dir (regular name) t h = elim (Bool-cases (is_ignored name)) [
      | inl e ↦ rw e h
      | inr e ↦ rw e (add_chunk-AreCounted (join_path dir name) t h)
    ]
    search_entry_counted is_root dir (directory name opens es) t h =
        elim (Bool-cases (is_ignored name)) [
          | inl e ↦ rw e h
          | inr e ↦ rw e (elim (Bool-cases opens) [
            | inl o ↦ rw o (
                end_camera-AreCounted is_root name _
                  (search_directory_counted false (join_path dir name) es t h))
            | inr o ↦ rw o (end_camera-AreCounted is_root name t h)
          ])
        ]
    search_entry_counted is_root dir (special name) t h = h

    search_directory_counted :
        (is_root : Bool) (dir : Text) (es : Entries) (t : TimeArray)
        → AreCounted t
        → AreCounted (search_directory mktime is_root dir es t)
    search_directory_counted is_root dir nil t h = h
    search_directory_counted is_root dir (cons (unreadable name) es) t h = h
    search_directory_counted is_root dir (cons (regular name) es) t h =
        search_directory_counted is_root dir es _
          (search_entry_counted is_root dir (regular name) t h)
    search_directory_counted is_root dir (cons (directory name opens es') es) t h =
        search_directory_counted is_root dir es _
          (search_entry_counted is_root dir (directory name opens es') t h)
    search_directory_counted is_root dir (cons (special name) es) t h =
        search_directory_counted is_root dir es _
          (search_entry_counted is_root dir (special name) t h)

  -- If the number of chunks of each camera found so far is the number of its recorded chunks
  -- modulo 2 ^ 16, it is so after the search of any directory.
  search_directory-AreCounted :
      (is_root : Bool) (dir : Text) (es : Entries) (t : TimeArray)
      → AreCounted t
      → AreCounted (search_directory mktime is_root dir es t)
  search_directory-AreCounted is_root dir es t h = search_directory_counted is_root dir es t h
