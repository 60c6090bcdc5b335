-- ===== src/EventControl/Power.antt =====
-- The loss of power: when it is noticed, and what is sent from then on.
use recording_agent_continuo.Prelude.{
  ℕ, ◌≡◌, refl, ap, ◌∙◌, inl, inr, Bool, true, false, ◌||◌, Option, List, [], ◌∷◌, ◌++◌, Bool-cases,
  Option-cases, arith, ltb,
}
use recording_agent_continuo.EventControl.State.{
  DoorLock, Configuration, Timers, Effect, ready_status, shutdown_power_loss,
  shutdown_removable_ssd, video_event_info, camera_record_pause, camera_frame_rate, mount_chm,
  umount_chm, mount_removable_thread, Control,
}
use recording_agent_continuo.EventControl.Drives.{
  ChmReading, check_chm_connect_threshold, connect_chm, report_chm, process_chm_connect_status,
  note_lock, at_unlocked, at_locked, at_lock, process_door_lock_status,
}
use recording_agent_continuo.EventControl.Poll.{
  Reading, Platform, power_check, send_drive_status, poll_inputs, poll_drives, poll_rest, go_on,
  go_on_loss, go_on_poll, check_for_event, check_for_events,
}
use recording_agent_continuo.EventControl.Kept.{kept, kept-other}

-- The effects that have no place in a loss of power: that a drive is ready, and messages about
-- inputs and cameras.
abbrev pub is_loud : Effect → Bool
is_loud (ready_status r) = r.chm_ready || r.removable_ssd_ready
is_loud (video_event_info name value) = true
is_loud (camera_record_pause name is_record) = true
is_loud (camera_frame_rate name rate) = true
is_loud _ = false

-- Nothing of this kind is sent, and the power still goes down.
abbrev pub IsHushed : {T : Type 0} → Control T → Control T → Type 0
IsHushed s t =
    (kept is_loud t.sent ≡ kept is_loud s.sent)
    × (t.power_going_down ≡ s.power_going_down)
    × (t.power_down_check_shm_counter ≡ s.power_down_check_shm_counter)

module _ {T : Type 0} where
  connect-IsHushed :
      (r : ChmReading) (connect : ℕ) (s : Control T) → IsHushed s (connect_chm r connect s)
  unfolding connect_chm
  connect-IsHushed r connect s =
      ground
        (arith, kept-other is_loud s.sent mount_chm refl, kept-other is_loud s.sent umount_chm refl)

  report-IsHushed : (s : Control T) → IsHushed s (report_chm s)
  unfolding report_chm
  report-IsHushed s = ground arith

  chm-IsHushed : (r : ChmReading) (s : Control T) → IsHushed s (process_chm_connect_status r s)
  unfolding process_chm_connect_status
  chm-IsHushed r s = elim (Bool-cases (ltb s.check_counter check_chm_connect_threshold)) [
    | inl h ↦ rw h (refl, refl, refl)
    | inr h ↦ elim (Option-cases r.chm_connect) [
      | inl g ↦ rw h (rw g (refl, refl, refl))
      | inr (connect, g) ↦
          let checked = record s { check_counter = 0 } in
          let one = connect-IsHushed r connect checked in
          let two = report-IsHushed (connect_chm r connect checked) in
          rw h (rw g (two.0 ∙ one.0, two.1 ∙ one.1, two.2 ∙ one.2))
    ]
  ]

  note_lock-IsHushed : (lock : DoorLock) (s : Control T) → IsHushed s (note_lock lock s)
  unfolding note_lock
  note_lock-IsHushed lock s = ground arith

  pub power_check-sent : (pson : Option Bool) (s : Control T) → (power_check pson s).sent ≡ s.sent
  unfolding power_check
  power_check-sent pson s = ground arith

  power_check-going :
      (pson : Option Bool) (s : Control T)
      → s.power_going_down ≡ true
      → (power_check pson s).power_going_down ≡ true
  unfolding power_check
  power_check-going pson s h = ground arith

  -- With the power going down, the status says that no drive is ready.
  send-IsHushed : (s : Control T) → s.power_going_down ≡ true → IsHushed s (send_drive_status s)
  unfolding send_drive_status
  send-IsHushed s h =
      let none_ready : Effect =
        ready_status (record { chm_ready = false; removable_ssd_ready = false }) in
      rw h (
        kept-other is_loud (s.sent ++ (none_ready ∷ [])) shutdown_power_loss refl
            ∙ kept-other is_loud s.sent none_ready refl,
        refl,
        refl,
      )

  module _ (ptc : Timers T) (video_shutdown_timeout removable_ssd_mount_timeout : ℕ) where
    unlocked-IsHushed :
        (s : Control T)
        → IsHushed s (at_unlocked ptc video_shutdown_timeout removable_ssd_mount_timeout s)
    unfolding at_unlocked
    unlocked-IsHushed s = ground (arith, kept-other is_loud s.sent shutdown_removable_ssd refl)

    locked-IsHushed :
        (s : Control T)
        → IsHushed s (at_locked ptc video_shutdown_timeout removable_ssd_mount_timeout s)
    unfolding at_locked
    locked-IsHushed s = ground (arith, kept-other is_loud s.sent mount_removable_thread refl)

    door-IsHushed :
        (lock : DoorLock) (s : Control T)
        → IsHushed s
            (process_door_lock_status ptc video_shutdown_timeout removable_ssd_mount_timeout lock s)
    unfolding process_door_lock_status at_lock
    door-IsHushed lock s = ground (
      arith,
      note_lock-IsHushed lock s,
      unlocked-IsHushed (note_lock lock s),
      locked-IsHushed (note_lock lock s),
    )

module _ {T : Type 0} (ptc : Timers T) (platform : Platform) (config : Configuration) where
  pub poll_drives-IsHushed :
      (r : Reading) (s : Control T) → IsHushed s (poll_drives ptc platform config r s)
  unfolding poll_drives
  poll_drives-IsHushed r s =
      let one = chm-IsHushed r.chm s in
      let two =
        door-IsHushed ptc platform.video_shutdown_timeout platform.removable_ssd_mount_timeout
          r.lock (process_chm_connect_status r.chm s) in
      (two.0 ∙ one.0, two.1 ∙ one.1, two.2 ∙ one.2)

  poll_inputs_going :
      (reg_data : ℕ) (s : Control T)
      → s.power_going_down ≡ true
      → poll_inputs ptc platform config reg_data s ≡ s
  unfolding poll_inputs
  poll_inputs_going reg_data s h = rw h refl

  poll_rest-IsHushed :
      (r : Reading) (s : Control T)
      → s.power_going_down ≡ true
      → IsHushed s (poll_rest ptc platform config r s)
  unfolding poll_rest
  poll_rest-IsHushed r s h =
      let polled = poll_drives-IsHushed r s in
      rw (poll_inputs_going r.reg_data (poll_drives ptc platform config r s) (polled.1 ∙ h)) polled

  go_on-IsHushed :
      (r : Reading) (s : Control T)
      → s.power_going_down ≡ true
      → IsHushed s (go_on ptc platform config r s)
  go_on-IsHushed r s h = elim (Bool-cases s.drive_status_requested) [
    | inl g ↦ rw (go_on_loss ptc platform config r s g h) (send-IsHushed s h)
    | inr g ↦ rw (go_on_poll ptc platform config r s g) (poll_rest-IsHushed r s h)
  ]

  check-IsHushed :
      (r : Reading) (s : Control T)
      → s.power_going_down ≡ true
      → (kept is_loud (check_for_event ptc platform config r s).sent ≡ kept is_loud s.sent)
        × ((check_for_event ptc platform config r s).power_going_down ≡ true)
  unfolding check_for_event
  check-IsHushed r s h =
      let going = power_check-going r.pson s h in
      let on = go_on-IsHushed r (power_check r.pson s) going in
      (on.0 ∙ ap (kept is_loud) (power_check-sent r.pson s), on.1 ∙ going)

  -- Once the power is known to go down, no number of passes sends that a drive is ready, an
  -- input's value or a command for a camera.
  pub check_for_events-hush :
      (rs : List Reading) (s : Control T)
      → s.power_going_down ≡ true
      → kept is_loud (check_for_events ptc platform config rs s).sent ≡ kept is_loud s.sent
  unfolding check_for_events
  check_for_events-hush [] s h = refl
  check_for_events-hush (r ∷ rs) s h =
      let now = check-IsHushed r s h in
      check_for_events-hush rs (check_for_event ptc platform config r s) now.1 ∙ now.0
