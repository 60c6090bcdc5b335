-- ===== src/Search/Oldest.antt =====
-- What the search for the start of the data finds.
use recording_agent_continuo.Prelude.{
  ◌<◌, ◌≤◌, ◌==◌, ltb, Bool, true, false, ◌&&◌, ◌||◌, ◌≡◌, refl, ap, sym, ◌∙◌, ◌⊎◌, inl, inr,
  Bool-cases, none, some, List, [], ◌∷◌, ◌++◌, arith, All, ◌>>=◌,
}
use recording_agent_continuo.Prelude.Text.{Text}
use recording_agent_continuo.Prelude.Int.{ℤ}
use recording_agent_continuo.Metarec.Recorder.{Tm}
use recording_agent_continuo.Storage.{basename, file_part}
use recording_agent_continuo.Search.{
  Visit, Search, file_name_to_epoch, take_oldest, get_oldest_timestamp, walk, return_path,
  get_data_start_time,
}

basename-file_part : (path name : Text) → file_part path ≡ some name → name ≡ basename path
basename-file_part path name h = sym (ap (λ o. elim o [ none ↦ path | some n ↦ n ]) h)

module _ (matches : Text → Bool) (mktime : Tm → ℤ) where
  -- A regular file with the name of a recorded chunk.
  abbrev pub is_recorded : Visit → Bool
  is_recorded v = v.is_file && matches (basename v.fpath)

  abbrev pub IsUnrecorded : Visit → Type 0
  IsUnrecorded v = is_recorded v ≡ false

  abbrev visit : Visit → Search → Search
  visit = get_oldest_timestamp matches mktime

  visit-unrecorded : (v : Visit) (s : Search) → IsUnrecorded v → visit v s ≡ s
  unfolding get_oldest_timestamp file_name_to_epoch take_oldest
  visit-unrecorded v s h = ground arith

  visit-recorded :
      (v : Visit) (s : Search)
      → is_recorded v ≡ true
      → 0 < v.st_mtime
      → ((visit v s).mtime_start ≤ v.st_mtime) × (0 < (visit v s).mtime_start)
  unfolding get_oldest_timestamp file_name_to_epoch take_oldest
  visit-recorded v s h pos = ground arith

  visit-falls :
      (v : Visit) (s : Search)
      → 0 < v.st_mtime
      → 0 < s.mtime_start
      → ((visit v s).mtime_start ≤ s.mtime_start) × (0 < (visit v s).mtime_start)
  unfolding get_oldest_timestamp file_name_to_epoch take_oldest
  visit-falls v s pos set = ground arith

  abbrev pub IsDated : Visit → Type 0
  IsDated v = 0 < v.st_mtime

  walk-falls :
      (vs : List Visit) (s : Search)
      → All IsDated vs
      → 0 < s.mtime_start
      → ((walk matches mktime visit vs s).mtime_start ≤ s.mtime_start)
        × (0 < (walk matches mktime visit vs s).mtime_start)
  unfolding walk
  walk-falls [] s h set = (omega arith, set)
  walk-falls (v ∷ vs) s h set =
      let one = visit-falls v s h.0 set in
      let rest = walk-falls vs (visit v s) h.1 one.1 in (omega arith, rest.1)

  walk-recorded :
      (before : List Visit) (v : Visit) (after : List Visit) (s : Search)
      → All IsDated (before ++ v ∷ after)
      → is_recorded v ≡ true
      → let r = walk matches mktime visit (before ++ v ∷ after) s in
        (r.mtime_start ≤ v.st_mtime) × (0 < r.mtime_start)
  unfolding walk
  walk-recorded [] v after s h recorded =
      let one = visit-recorded v s recorded h.0 in
      let rest = walk-falls after (visit v s) h.1 one.1 in (omega arith, rest.1)
  walk-recorded (w ∷ before) v after s h recorded =
      walk-recorded before v after (visit w s) h.1 recorded

  -- The path and the time are those of a recorded file of the walk.
  abbrev pub ComesFrom : List Visit → Search → Type 0
  ComesFrom [] r = ⊥
  ComesFrom (v ∷ vs) r =
      ((is_recorded v ≡ true) × (r.temp_buff ≡ v.fpath) × (r.mtime_start ≡ v.st_mtime))
      ⊎ ComesFrom vs r

  abbrev IsKept : Search → Search → Type 0
  IsKept s r = (r.temp_buff ≡ s.temp_buff) × (r.mtime_start ≡ s.mtime_start)

  visit-from : (v : Visit) (s : Search) → IsKept s (visit v s) ⊎ ComesFrom (v ∷ []) (visit v s)
  unfolding get_oldest_timestamp file_name_to_epoch take_oldest
  visit-from v s =
      elim (Bool-cases (v.is_file && ((s.mtime_start == 0) || ltb v.st_mtime s.mtime_start))) [
        | inr past ↦ rw past (inl (refl, refl))
        | inl sooner ↦ elim (Bool-cases (matches (basename v.fpath))) [
          | inr other ↦ rw (sooner, other) (inl (refl, refl))
          | inl match ↦ rw (sooner, match) (inr (inl (ground arith, refl, refl)))
        ]
      ]

  walk-from :
      (vs : List Visit) (s : Search)
      → IsKept s (walk matches mktime visit vs s) ⊎ ComesFrom vs (walk matches mktime visit vs s)
  unfolding walk
  walk-from [] s = inl (refl, refl)
  walk-from (v ∷ vs) s = elim (walk-from vs (visit v s)) [
    | inr later ↦ inr (inr later)
    | inl kept ↦ elim (visit-from v s) [
      | inl old ↦ inl (kept.0 ∙ old.0, kept.1 ∙ old.1)
      | inr new ↦ elim new [
        | inl (recorded, path, time) ↦ inr (inl (recorded, kept.0 ∙ path, kept.1 ∙ time))
        | inr none_left ↦ absurd none_left
      ]
    ]
  ]

  -- There is a slash in the path.
  abbrev HasSlash : Text → Type 0
  HasSlash path = (name : Text) × (file_part path ≡ some name)

  abbrev pub IsPath : Visit → Type 0
  IsPath v = HasSlash v.fpath

  ComesFrom-HasSlash :
      (vs : List Visit) (r : Search) → All IsPath vs → ComesFrom vs r → HasSlash r.temp_buff
  ComesFrom-HasSlash [] r h from = absurd from
  ComesFrom-HasSlash (v ∷ vs) r ((name, slash), h) (inl (recorded, path, time)) =
      (name, ap file_part path ∙ slash)
  ComesFrom-HasSlash (v ∷ vs) r (slash, h) (inr later) = ComesFrom-HasSlash vs r h later

  return_path-slash :
      (r : Search)
      → HasSlash r.temp_buff
      → return_path matches mktime r
        ≡ some (some (r.temp_buff, file_name_to_epoch matches mktime (basename r.temp_buff)), r)
  unfolding return_path
  return_path-slash r (name, slash) = rw slash (
      ap (λ n. some (some (r.temp_buff, file_name_to_epoch matches mktime n), r))
        (basename-file_part r.temp_buff name slash))

  -- If all files of a walk have a modification time other than 0 and a slash in their path, and v
  -- is a regular file of it with the name of a chunk, the search for the start of the data returns
  -- the path, and the time in the name, of a file of the walk of this kind whose modification time
  -- is at most that of v.
  pub get_data_start_time-oldest :
      (before : List Visit) (v : Visit) (after : List Visit) (s : Search)
      → All IsDated (before ++ v ∷ after)
      → All IsPath (before ++ v ∷ after)
      → is_recorded v ≡ true
      → let vs = before ++ v ∷ after in
        (r : Search) × (get_data_start_time matches mktime (some vs) s
          ≡ some (some (r.temp_buff, file_name_to_epoch matches mktime (basename r.temp_buff)), r))
        × ComesFrom vs r
        × (r.mtime_start ≤ v.st_mtime)
  unfolding get_data_start_time
  get_data_start_time-oldest before v after s dated paths recorded =
      let vs = before ++ v ∷ after in
      let s0 = record s { mtime_start = 0 } in
      let r = walk matches mktime visit vs s0 in
      let least = walk-recorded before v after s0 dated recorded in
      elim (walk-from vs s0) [
        | inr found ↦ (r, return_path-slash r (ComesFrom-HasSlash vs r paths found), found, least.0)
        | inl kept ↦ absurd (let never = kept.1 in omega arith)
      ]

  walk-unrecorded :
      (vs : List Visit) (s : Search) → All IsUnrecorded vs → walk matches mktime visit vs s ≡ s
  unfolding walk
  walk-unrecorded [] s h = refl
  walk-unrecorded (v ∷ vs) s h =
      ap (walk matches mktime visit vs) (visit-unrecorded v s h.0) ∙ walk-unrecorded vs s h.1

  -- If no file of a walk is a regular file with the name of a chunk, the search for the start of
  -- the data returns the path that the last search left, and the time in its name; where none was
  -- left, so that there is no slash in it, it reads behind a null pointer.
  pub get_data_start_time-stale :
      (vs : List Visit) (s : Search)
      → All IsUnrecorded vs
      → get_data_start_time matches mktime (some vs) s ≡ (do
        name ← file_part s.temp_buff
        some (
          some (s.temp_buff, file_name_to_epoch matches mktime name),
          record s { mtime_start = 0 },
        ))
  unfolding get_data_start_time return_path
  get_data_start_time-stale vs s h =
      ap (return_path matches mktime) (walk-unrecorded vs (record s { mtime_start = 0 }) h)
