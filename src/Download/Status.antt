-- ===== src/Download/Status.antt =====
-- When a download succeeds, and what its status says.
use recording_agent_continuo.Prelude.{
  ℕ, ◌-◌, ◌*◌, ◌≡◌, leb, refl, Bool, true, false, not, ◌&&◌, ◌||◌, length, List, [], ◌∷◌, arith,
  Bool-cases, inl, inr, ap, sym, ◌∙◌,
}
use recording_agent_continuo.Prelude.Text.{Text}
use recording_agent_continuo.Search.{path_max}
use recording_agent_continuo.Download.{
  DrChunk, DownloadStatus, ok_full, failure, internal_err, size_err, range_err, total_size, or_zero,
  writing_at, insert_chunk_metadata,
}
use recording_agent_continuo.Download.Copies.{any_path, all_copied, add_chunks-full}
use recording_agent_continuo.Download.Attempt.{
  Attempt, Outcome, Retrieved, outside_range, no_data, found, download, is_full, zip_outcome,
  zip_files, maindata_status, status_of_file, status_of_chunks, download_chunks, perform_retrieved,
  perform_download, validate_destination, do_download, directory_of, opens_in,
}

-- The files take less than 60 percent of the free bytes.
abbrev pub fits : Attempt → List DrChunk → Bool
fits a cs = not (leb (6 * or_zero a.free_later) (10 * total_size a.drive a.stat_buffer cs))

-- Some chunk has a path, the files fit, and all of them can be copied.
abbrev are_chunks_ready : Attempt → Text → List DrChunk → Bool
are_chunks_ready a destination cs =
    any_path a.drive cs && (fits a cs && all_copied a.drive destination cs)

insert_chunk_metadata-full :
    (a : Attempt) (destination : Text) (cs : List DrChunk)
    → is_full (insert_chunk_metadata a.drive destination a.free_later a.stat_buffer cs).1
      ≡ are_chunks_ready a destination cs
unfolding insert_chunk_metadata
insert_chunk_metadata-full a destination [] = refl
insert_chunk_metadata-full a destination (c ∷ cs) =
    let added = add_chunks-full a.drive destination (c ∷ cs) (writing_at c.epoch_time) in
    elim (Bool-cases
      (leb (6 * or_zero a.free_later) (10 * total_size a.drive a.stat_buffer (c ∷ cs)))) [
        | inl full ↦ rw full (ground arith)
        | inr room ↦ rw room (added ∙ ground arith)
      ]

-- The name of the file is not too long, and it can be packed and encrypted.
abbrev is_zip_ready : Attempt → Bool
is_zip_ready a = leb (length a.destination) (path_max - 4 - 1) && (a.zips && a.encrypts_zip)

-- There is a configuration, and the files of the download can be written.
abbrev are_files_ready : Attempt → Text → Bool
are_files_ready a destination =
    (a.media_info && (opens_in destination && a.opens_meta)) && (a.encrypts_meta && is_zip_ready a)

-- Success is reported exactly if b is true, and exactly with the status for it.
abbrev pub SucceedsIff : Bool → Outcome → Type 0
SucceedsIff b o = (o.success ≡ b) × (is_full o.status ≡ b)

status_of_file-full : (st : DownloadStatus) → is_full (status_of_file st) ≡ false
status_of_file-full ok_full = refl
status_of_file-full failure = refl
status_of_file-full internal_err = refl
status_of_file-full size_err = refl
status_of_file-full range_err = refl

status_of_chunks-full : (st : DownloadStatus) → is_full (status_of_chunks st) ≡ false
status_of_chunks-full ok_full = refl
status_of_chunks-full failure = refl
status_of_chunks-full internal_err = refl
status_of_chunks-full size_err = refl
status_of_chunks-full range_err = refl

zip_outcome-full : (z : DownloadStatus × ℕ) → SucceedsIff (is_full z.0) (zip_outcome z)
unfolding zip_outcome
zip_outcome-full (ok_full, n) = (refl, refl)
zip_outcome-full (failure, n) = (refl, refl)
zip_outcome-full (internal_err, n) = (refl, refl)
zip_outcome-full (size_err, n) = (refl, refl)
zip_outcome-full (range_err, n) = (refl, refl)

zip_files-full : (a : Attempt) (n : ℕ) → is_full (zip_files a n).0 ≡ is_zip_ready a
unfolding zip_files
zip_files-full a n = ground arith

maindata_status-full :
    (a : Attempt) → is_full (maindata_status a) ≡ (a.media_info && a.encrypts_meta)
unfolding maindata_status
maindata_status-full a = ground arith

encrypts-of :
    (a : Attempt) (destination : Text) {b : Bool}
    → (a.media_info && (opens_in destination && a.opens_meta)) ≡ true
    → (a.media_info && a.encrypts_meta) ≡ b
    → a.encrypts_meta ≡ b
encrypts-of a destination usable h = ground arith

download_chunks-succeeds :
    (a : Attempt) (destination : Text) (cs : List DrChunk)
    → SucceedsIff
        (are_chunks_ready a destination cs && are_files_ready a destination)
        (download_chunks a destination cs)
unfolding download_chunks
download_chunks-succeeds a destination cs =
    let inserted = (insert_chunk_metadata a.drive destination a.free_later a.stat_buffer cs).1 in
    let chunks = insert_chunk_metadata-full a destination cs in
    let main = maindata_status-full a in
    elim (Bool-cases (a.media_info && (opens_in destination && a.opens_meta))) [
      | inr unopened ↦ rw unopened (ground arith, ground arith)
      | inl usable ↦ elim (Bool-cases (is_full inserted)) [
        | inr fails ↦ rw (usable, fails, sym chunks ∙ fails) (refl, status_of_chunks-full inserted)
        | inl full ↦ elim (Bool-cases (is_full (maindata_status a))) [
          | inr fails ↦
              let plain = encrypts-of a destination usable (sym main ∙ fails) in
              let never = ap (λ b. b && is_zip_ready a) (sym plain) in
              rw (usable, full, sym chunks ∙ full, fails)
                (never, status_of_file-full (maindata_status a) ∙ never)
          | inl done ↦
              let ciphered = encrypts-of a destination usable (sym main ∙ done) in
              let files = zip_files-full a 0 ∙ ap (λ b. b && is_zip_ready a) (sym ciphered) in
              let zipped = zip_outcome-full (zip_files a 0) in
              rw (usable, full, sym chunks ∙ full, done) (zipped.0 ∙ files, zipped.1 ∙ files)
        ]
      ]
    ]

-- The chunks that were found.
abbrev is_found_ready : Attempt → Text → Retrieved → Bool
is_found_ready a destination outside_range = false
is_found_ready a destination no_data = false
is_found_ready a destination (found cs) =
    are_chunks_ready a destination cs && are_files_ready a destination

-- All that an attempt needs.
abbrev pub is_attempt_ready : Attempt → Bool
is_attempt_ready a =
    validate_destination download a && is_found_ready a (directory_of a.destination) a.retrieved

perform_retrieved-succeeds :
    (a : Attempt) (destination : Text) (r : Retrieved)
    → SucceedsIff (is_found_ready a destination r) (perform_retrieved download a destination r)
unfolding perform_retrieved
perform_retrieved-succeeds a destination outside_range = (refl, refl)
perform_retrieved-succeeds a destination no_data = (refl, refl)
perform_retrieved-succeeds a destination (found cs) = download_chunks-succeeds a destination cs

-- An attempt of a download succeeds exactly if the destination is valid and has room, some chunk
-- that was found has a path, the files fit, all of them can be copied, there is a configuration, and
-- the file of the download can be written.
perform_download-succeeds :
    (a : Attempt) → SucceedsIff (is_attempt_ready a) (perform_download download a)
unfolding perform_download
perform_download-succeeds a = elim (Bool-cases (validate_destination download a)) [
  | inr bad ↦ rw bad (refl, refl)
  | inl good ↦ rw good (perform_retrieved-succeeds a (directory_of a.destination) a.retrieved)
]

-- A download reports success exactly if one of the drives has all that an attempt needs: a valid
-- destination with room, a chunk with a path, room for the files, all of which can be copied, a
-- configuration, and a file of the download that can be written. Its status is that of success in
-- the same cases.
pub do_download-succeeds :
    (rssd chm : Attempt)
    → SucceedsIff (is_attempt_ready rssd || is_attempt_ready chm) (do_download rssd chm)
unfolding do_download
do_download-succeeds rssd chm =
    let first = perform_download-succeeds rssd in
    let second = perform_download-succeeds chm in
    elim (Bool-cases (is_attempt_ready rssd)) [
      | inl ready ↦ rw (first.0 ∙ ready, ready) (refl, first.1 ∙ ready)
      | inr fails ↦ rw (first.0 ∙ fails, fails) second
    ]
