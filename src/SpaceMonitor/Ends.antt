-- ===== src/SpaceMonitor/Ends.antt =====
-- How the loops of the space monitor end, and when they do not.
use recording_agent_continuo.Prelude.{
  ltb→lt, ltb, ◌<◌, ◌≤◌, ℕ, zero, suc, ◌*◌, ◌≡◌, refl, ap, ◌⊎◌, inl, inr, true, false, Option, none,
  some, arith, Bool-cases, Option-cases,
}
use recording_agent_continuo.Prelude.Text.{Text}
use recording_agent_continuo.Storage.{Disk, join_path, dirname}
use recording_agent_continuo.SpaceMonitor.Groom.{
  finished, out_of_fuel, remove_dirs, delete_oldest_file, find_oldest_file, search_path,
  process_available_space, is_below, space_loop, space_handler, groom_handler, process_duration,
  drive_root,
}

-- What a drive does to the number of its files: remove takes one away, and rmdir adds none.
pub record Counts {S : Type 0} (disk : Disk S) (files : S → ℕ) : Type 0 where
  pub removes : (p : Text) (s t : S) → disk.remove p s ≡ some t → files t < files s
  pub keeps : (p : Text) (s t : S) → disk.rmdir p s ≡ some t → files t ≤ files s

module _ {S : Type 0} (disk : Disk S) where
  module _ (files : S → ℕ) (c : Counts disk files) where
    remove_dirs-le :
        (levels : ℕ) (dir : Text) (s : S) → files (remove_dirs disk levels dir s) ≤ files s
    unfolding remove_dirs
    remove_dirs-le zero dir s = omega arith
    remove_dirs-le (suc levels) dir s = elim (Option-cases (disk.rmdir dir s)) [
      | inl e ↦ rw e (ground (arith, remove_dirs-le levels (dirname dir) s))
      | inr (t, e) ↦ rw e (
          ground (
            arith,
            c.keeps dir s t e,
            remove_dirs-le levels (dirname dir) t,
            remove_dirs-le levels (dirname dir) s,
          ))
    ]

    -- A deletion leaves fewer files.
    delete-lt :
        (root : Text) (camera : Option Text) (s t : S)
        → delete_oldest_file disk root camera s ≡ some t
        → files t < files s
    unfolding delete_oldest_file
    delete-lt root camera s t h = elim (Option-cases (disk.remove path s)) [
      | inl e ↦ absurd (no_file e)
      | inr (u, e) ↦
          omega
            (arith, c.removes path s u e, remove_dirs-le 5 (dirname path) u, ap files (after u e))
    ]
      where
        path : Text
        path = (find_oldest_file disk (search_path root camera) s).path

        no_file : disk.remove path s ≡ none → ⊥
        no_file e = ground arith

        after : (u : S) → disk.remove path s ≡ some u → remove_dirs disk 5 (dirname path) u ≡ t
        after u e = ground arith

    -- The three ways of a round.
    loop_enough :
        (fuel : ℕ) (base : Text) (threshold : ℕ) (s : S)
        → is_below threshold (process_available_space disk base s) ≡ false
        → space_loop disk (suc fuel) base threshold s ≡ finished s
    unfolding space_loop
    loop_enough fuel base threshold s h = ground arith

    loop_stuck :
        (fuel : ℕ) (base : Text) (threshold : ℕ) (s : S)
        → delete_oldest_file disk (drive_root disk base) none s ≡ none
        → space_loop disk (suc fuel) base threshold s ≡ finished s
    unfolding space_loop
    loop_stuck fuel base threshold s h = ground arith

    loop_on :
        (fuel : ℕ) (base : Text) (threshold : ℕ) (s u : S)
        → is_below threshold (process_available_space disk base s) ≡ true
        → delete_oldest_file disk (drive_root disk base) none s ≡ some u
        → space_loop disk (suc fuel) base threshold s ≡ space_loop disk fuel base threshold u
    unfolding space_loop
    loop_on fuel base threshold s u h e = ground arith

    -- On a drive where a removal leaves fewer files and rmdir leaves no more, with fuel for more
    -- rounds than there are files, the loop on free space ends in a state where the free space is
    -- at or above the limit or no file can be deleted.
    pub space_loop-ends :
        (fuel : ℕ) (base : Text) (threshold : ℕ) (s : S)
        → files s < fuel
        → (t : S) × (space_loop disk fuel base threshold s ≡ finished t)
          × ((is_below threshold (process_available_space disk base t) ≡ false)
              ⊎ (delete_oldest_file disk (drive_root disk base) none t ≡ none))
    space_loop-ends zero base threshold s h = absurd (omega arith)
    space_loop-ends (suc fuel) base threshold s h =
        elim (Bool-cases (is_below threshold (process_available_space disk base s))) [
          | inr enough ↦ (s, loop_enough fuel base threshold s enough, inl enough)
          | inl low ↦ elim (Option-cases (delete_oldest_file disk (drive_root disk base) none s)) [
            | inl stuck ↦ (s, loop_stuck fuel base threshold s stuck, inr stuck)
            | inr (u, e) ↦ rw (loop_on fuel base threshold s u low e) (
                space_loop-ends fuel base threshold u
                  (omega (arith, delete-lt (drive_root disk base) none s u e)))
          ]
        ]

    -- On a drive where a removal leaves fewer files and rmdir leaves no more, if statvfs always
    -- fails and the limit is above 1, the loop on free space, given fuel for more rounds than
    -- there are files, ends only where no file can be deleted.
    pub space_loop-blind :
        (fuel : ℕ) (base : Text) (threshold : ℕ) (s : S)
        → ((t : S) → disk.statvfs t base ≡ none)
        → 1 < threshold
        → files s < fuel
        → (t : S) × (space_loop disk fuel base threshold s ≡ finished t)
          × (delete_oldest_file disk (drive_root disk base) none t ≡ none)
    unfolding process_available_space
    space_loop-blind fuel base threshold s blind high h =
        let (t, e, why) = space_loop-ends fuel base threshold s h in
        (t, e, elim why [ inl enough ↦ absurd (always_low t enough) | inr stuck ↦ stuck ])
      where
        always_low : (t : S) → is_below threshold (process_available_space disk base t) ≡ false → ⊥
        always_low t e = ground (arith, blind t)

    groom_enough :
        (fuel : ℕ) (base camera : Text) (max_usec : ℕ) (s : S)
        → ltb max_usec (process_duration disk (join_path base camera) s) ≡ false
        → groom_handler disk (suc fuel) base camera max_usec s ≡ finished s
    unfolding groom_handler
    groom_enough fuel base camera max_usec s h = ground arith

    groom_on :
        (fuel : ℕ) (base camera : Text) (max_usec : ℕ) (s u : S)
        → ltb max_usec (process_duration disk (join_path base camera) s) ≡ true
        → delete_oldest_file disk (drive_root disk base) (some camera) s ≡ some u
        → groom_handler disk (suc fuel) base camera max_usec s
          ≡ groom_handler disk fuel base camera max_usec u
    unfolding groom_handler
    groom_on fuel base camera max_usec s u h e = ground arith

    -- On a drive where a removal leaves fewer files and rmdir leaves no more, and where a deletion
    -- succeeds whenever a camera holds more than its maximal age, with fuel for more rounds than
    -- there are files the grooming of the camera ends in a state where the camera holds no more
    -- than its maximal age.
    pub groom_handler-ends :
        (fuel : ℕ) (base camera : Text) (max_usec : ℕ) (s : S)
        → ((t : S)
            → max_usec < process_duration disk (join_path base camera) t
            → (u : S) × (delete_oldest_file disk (drive_root disk base) (some camera) t ≡ some u))
        → files s < fuel
        → (t : S) × (groom_handler disk fuel base camera max_usec s ≡ finished t)
          × (process_duration disk (join_path base camera) t ≤ max_usec)
    groom_handler-ends zero base camera max_usec s deletes h = absurd (omega arith)
    groom_handler-ends (suc fuel) base camera max_usec s deletes h =
        elim (Bool-cases (ltb max_usec (process_duration disk (join_path base camera) s))) [
          | inr enough ↦ (s, groom_enough fuel base camera max_usec s enough, ground arith)
          | inl long ↦
              let (u, e) =
                deletes s
                  (ltb→lt max_usec (process_duration disk (join_path base camera) s) long) in
              rw (groom_on fuel base camera max_usec s u long e) (
                groom_handler-ends fuel base camera max_usec u deletes
                  (omega (arith, delete-lt (drive_root disk base) (some camera) s u e)))
        ]

  -- A drive whose available space is exactly 1 percent is left as it is, whatever the limit.
  pub space_handler-one_percent :
      (fuel : ℕ) (base : Text) (threshold avail blocks : ℕ) (s : S)
      → disk.statvfs s base ≡ some (avail, blocks)
      → avail * 100 ≡ blocks
      → space_handler disk fuel base threshold s ≡ finished s
  unfolding space_handler process_available_space
  space_handler-one_percent fuel base threshold avail blocks s h e = ground arith

  -- If a camera holds more than its maximal age and the deletion of its oldest file fails, no
  -- number of rounds ends the grooming of the camera.
  groom_handler-stuck :
      (fuel : ℕ) (base camera : Text) (max_usec : ℕ) (s : S)
      → max_usec < process_duration disk (join_path base camera) s
      → delete_oldest_file disk (drive_root disk base) (some camera) s ≡ none
      → groom_handler disk fuel base camera max_usec s ≡ out_of_fuel
  unfolding groom_handler
  groom_handler-stuck zero base camera max_usec s h stuck = refl
  groom_handler-stuck (suc fuel) base camera max_usec s h stuck =
      ground (arith, groom_handler-stuck fuel base camera max_usec s h stuck)
