-- ===== src/EventControl/Door.antt =====
-- How often the mount of the removable drive is started.
use recording_agent_continuo.Prelude.{
  ℕ, ◌+◌, ◌≤◌, ◌≡◌, refl, inl, inr, Bool, true, false, List, [], ◌∷◌, ◌++◌, Bool-cases,
  Option-cases, arith, ltb, ◌∙◌,
}
use recording_agent_continuo.EventControl.Bits.{to_nat}
use recording_agent_continuo.EventControl.State.{
  DriveFlag, DoorLock, door_locked, door_unlocked, Timers, Effect, mount_removable_thread,
  mount_chm, umount_chm, shutdown_removable_ssd, mount_removable_partitions, removable_power,
  own_footages, own_downloads, Control,
}
use recording_agent_continuo.EventControl.Drives.{
  ChmReading, check_chm_connect_threshold, connect_chm, report_chm, process_chm_connect_status,
  note_lock, at_unlocked, at_locked, at_lock, process_door_lock_status, MountCheck, note_mount,
  mount_removable_ssd_timer_event_handler, hold_off_mount_timer_event_handler,
  removable_ssd_thread_handler,
}
use recording_agent_continuo.EventControl.Kept.{count_kept, count-other, count-one}

abbrev pub is_mount_thread : Effect → Bool
is_mount_thread mount_removable_thread = true
is_mount_thread _ = false

-- The number of mounts that were started.
abbrev pub mounts : {T : Type 0} → Control T → ℕ
mounts s = count_kept is_mount_thread s.sent

-- A reading of the door behind another: 1 where it was unlocked and is locked.
abbrev pub relock : (prev lock : DoorLock) → ℕ
relock door_unlocked door_locked = 1
relock _ _ = 0

-- What happens to the drives, in any order: a reading of the door, the end of a timer, the thread
-- that mounts, the CHM, and the handlers of the shutdown timers, which are in another file and
-- change the drive's flag, the flag of the shutdown and the timers.
pub data Move (T : Type 0) : Type 0 where
  door : DoorLock → Move T
  mount_timer : MountCheck → Move T
  hold_off_timer : Move T
  mount_thread : DoorLock → Move T
  chm : ChmReading → Move T
  outside : (removable_ready : DriveFlag) → (is_shutdown_started : Bool) → (timers : T) → Move T

-- The times that the door is locked after it was unlocked, in a sequence of moves.
abbrev pub relocks : {T : Type 0} → (prev : DoorLock) → List (Move T) → ℕ
relocks prev [] = 0
relocks prev (door lock ∷ ms) = relock prev lock + relocks lock ms
relocks prev (m ∷ ms) = relocks prev ms

-- The same door, no further mount, and no new reason for one.
abbrev pub IsCalm : {T : Type 0} → Control T → Control T → Type 0
IsCalm s t =
    (mounts t ≡ mounts s)
    × (t.check_mount ≡ s.check_mount)
    × (t.prev_lock_status ≡ s.prev_lock_status)

module _ {T : Type 0} (ptc : Timers T)
    (video_shutdown_timeout removable_ssd_mount_timeout : ℕ) where
  unfoldable pub move : Move T → Control T → Control T
  move (door lock) s =
      process_door_lock_status ptc video_shutdown_timeout removable_ssd_mount_timeout lock s
  move (mount_timer c) s = mount_removable_ssd_timer_event_handler ptc c s
  move hold_off_timer s = hold_off_mount_timer_event_handler ptc s
  move (mount_thread lock) s = removable_ssd_thread_handler lock s
  move (chm r) s = process_chm_connect_status r s
  move (outside removable is_shutdown_started timers) s = record s {
    removable_ready = removable;
    shutdown_started = is_shutdown_started;
    timers = timers;
  }

  unfoldable pub moves : List (Move T) → Control T → Control T
  moves [] s = s
  moves (m ∷ ms) s = moves ms (move m s)

module _ {T : Type 0} where
  connect-IsCalm :
      (r : ChmReading) (connect : ℕ) (s : Control T) → IsCalm s (connect_chm r connect s)
  unfolding connect_chm
  connect-IsCalm r connect s = ground (
    arith,
    count-other is_mount_thread s.sent mount_chm refl,
    count-other is_mount_thread s.sent umount_chm refl,
  )

  report-IsCalm : (s : Control T) → IsCalm s (report_chm s)
  unfolding report_chm
  report-IsCalm s = ground arith

  chm-IsCalm : (r : ChmReading) (s : Control T) → IsCalm s (process_chm_connect_status r s)
  unfolding process_chm_connect_status
  chm-IsCalm r s = elim (Bool-cases (ltb s.check_counter check_chm_connect_threshold)) [
    | inl h ↦ rw h (refl, refl, refl)
    | inr h ↦ elim (Option-cases r.chm_connect) [
      | inl g ↦ rw h (rw g (refl, refl, refl))
      | inr (connect, g) ↦
          let checked = record s { check_counter = 0 } in
          let one = connect-IsCalm r connect checked in
          let two = report-IsCalm (connect_chm r connect checked) in
          rw h (rw g (two.0 ∙ one.0, two.1 ∙ one.1, two.2 ∙ one.2))
    ]
  ]

  note_mount-IsCalm : (c : MountCheck) (s : Control T) → IsCalm s (note_mount c s)
  unfolding note_mount
  note_mount-IsCalm c s = ground (
    arith,
    count-other is_mount_thread s.sent (removable_power false) refl,
    count-other is_mount_thread s.sent own_footages refl,
    count-other is_mount_thread s.sent own_downloads refl,
    count-other is_mount_thread (s.sent ++ (own_footages ∷ [])) own_downloads refl,
  )

  thread-IsCalm : (lock : DoorLock) (s : Control T) → IsCalm s (removable_ssd_thread_handler lock s)
  unfolding removable_ssd_thread_handler
  thread-IsCalm lock s =
      let powered = s.sent ++ (removable_power true ∷ []) in
      ground (
        arith,
        count-other is_mount_thread s.sent (removable_power true) refl,
        count-other is_mount_thread powered (removable_power false) refl,
        count-other is_mount_thread powered mount_removable_partitions refl,
      )

  module _ (ptc : Timers T) where
    mount_timer-IsCalm :
        (c : MountCheck) (s : Control T)
        → IsCalm s (mount_removable_ssd_timer_event_handler ptc c s)
    unfolding mount_removable_ssd_timer_event_handler
    mount_timer-IsCalm c s = ground (arith, note_mount-IsCalm c s)

    module _ (video_shutdown_timeout removable_ssd_mount_timeout : ℕ) where
      -- What is left of a reason to start a mount.
      unlocked-IsCalm :
          (s : Control T)
          → IsCalm s (at_unlocked ptc video_shutdown_timeout removable_ssd_mount_timeout s)
      unfolding at_unlocked
      unlocked-IsCalm s =
          ground (arith, count-other is_mount_thread s.sent shutdown_removable_ssd refl)

      locked-bound :
          (s : Control T)
          → (let t = at_locked ptc video_shutdown_timeout removable_ssd_mount_timeout s in
              (mounts t + to_nat t.check_mount ≡ mounts s + to_nat s.check_mount)
              × (t.prev_lock_status ≡ s.prev_lock_status))
      unfolding at_locked
      locked-bound s = ground (arith, count-one is_mount_thread s.sent mount_removable_thread refl)

      note_lock-bound :
          (lock : DoorLock) (s : Control T)
          → (mounts (note_lock lock s) ≡ mounts s)
            × (to_nat (note_lock lock s).check_mount
                ≤ to_nat s.check_mount + relock s.prev_lock_status lock)
            × ((note_lock lock s).prev_lock_status ≡ lock)
      unfolding note_lock
      note_lock-bound lock s = ground arith

      door-bound :
          (lock : DoorLock) (s : Control T)
          → (let t =
                process_door_lock_status ptc video_shutdown_timeout removable_ssd_mount_timeout lock
                  s in
              (mounts t + to_nat t.check_mount
                ≤ mounts s + to_nat s.check_mount + relock s.prev_lock_status lock)
              × (t.prev_lock_status ≡ lock))
      unfolding process_door_lock_status at_lock
      door-bound lock s = ground (
        arith,
        note_lock-bound lock s,
        unlocked-IsCalm (note_lock lock s),
        locked-bound (note_lock lock s),
      )

      -- Over any sequence of door readings, timers, mount threads, CHM readings and outside
      -- changes of the drive's flag, the shutdown flag and the timers, the mounts of the removable
      -- drive that are started are at most the times that the door is locked after it was
      -- unlocked, and one more if a check is due at the start.
      pub moves-mounts :
          (ms : List (Move T)) (s : Control T)
          → mounts (moves ptc video_shutdown_timeout removable_ssd_mount_timeout ms s)
            ≤ mounts s + to_nat s.check_mount + relocks s.prev_lock_status ms
      unfolding moves move hold_off_mount_timer_event_handler
      moves-mounts [] s = omega arith
      moves-mounts (door lock ∷ ms) s =
          let now =
            process_door_lock_status ptc video_shutdown_timeout removable_ssd_mount_timeout lock
              s in
          ground (arith, moves-mounts ms now, door-bound lock s)
      moves-mounts (mount_timer c ∷ ms) s = ground (
        arith,
        moves-mounts ms (mount_removable_ssd_timer_event_handler ptc c s),
        mount_timer-IsCalm c s,
      )
      moves-mounts (hold_off_timer ∷ ms) s = moves-mounts ms _
      moves-mounts (mount_thread lock ∷ ms) s =
          ground
            (arith, moves-mounts ms (removable_ssd_thread_handler lock s), thread-IsCalm lock s)
      moves-mounts (chm r ∷ ms) s =
          ground (arith, moves-mounts ms (process_chm_connect_status r s), chm-IsCalm r s)
      moves-mounts (outside removable started timers ∷ ms) s = moves-mounts ms _
