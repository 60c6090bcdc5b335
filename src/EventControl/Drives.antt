-- ===== src/EventControl/Drives.antt =====
-- The drives: process_chm_connect_status, process_door_lock_status, the handlers of the mount
-- timers, and the thread that mounts the removable drive. Sleeps and log lines are left out.
use recording_agent_continuo.Prelude.{
  ℕ, ◌+◌, ◌==◌, ltb, Bool, true, false, not, ◌&&◌, Option, none, some, if◌then◌else◌,
}
use recording_agent_continuo.EventControl.State.{
  DriveFlag, ready, not_ready, is_ready, DoorLock, door_unknown, door_locked, door_unlocked,
  video_shutdown_timer, holdoff_mount_timer, mount_removable_ssd_timer, Timers, mount_chm,
  umount_chm, shutdown_removable_ssd, mount_removable_thread, mount_removable_partitions,
  removable_power, own_footages, own_downloads, Control, emit, request_drive_status,
}

-- What the pass reads of the CHM: chm_connect (none: the read fails), and whether it is mounted
-- at the first question and at the second.
pub record ChmReading : Type 0 where
  pub chm_connect : Option ℕ
  pub is_mounted : Bool
  pub is_mounted_then : Bool

-- What the handler of the mount timer finds: whether the drive is mounted, whether each of the
-- two directories was created now, and the door.
pub record MountCheck : Type 0 where
  pub is_mounted : Bool
  pub is_footages_created : Bool
  pub is_downloads_created : Bool
  pub lock : DoorLock

abbrev pub check_chm_connect_threshold : ℕ
check_chm_connect_threshold = 10

unfoldable pub is_same_flag : DriveFlag → Option DriveFlag → Bool
is_same_flag flag none = false
is_same_flag ready (some seen) = is_ready seen
is_same_flag not_ready (some seen) = not (is_ready seen)

module _ {T : Type 0} where
  -- Mounting or unmounting, and the flag of the CHM.
  unfoldable pub connect_chm : ChmReading → ℕ → Control T → Control T
  connect_chm r connect s =
      if connect == 1
      then (let asked = if r.is_mounted then s else emit mount_chm s in
          if r.is_mounted_then then record asked { chm_ready_flag = ready } else asked)
      else if connect == 0 && not s.rec_status_on_chm
      then (let asked = if r.is_mounted then emit umount_chm s else s in
          if r.is_mounted_then then asked else record asked { chm_ready_flag = not_ready })
      else s

  -- A change of the flag, which is reported except the first one.
  unfoldable pub report_chm : Control T → Control T
  unfolding is_same_flag
  report_chm s =
      if is_same_flag s.chm_ready_flag s.chm_ready
      then s
      else record (elim s.chm_ready [ none ↦ s | some _ ↦ request_drive_status s ]) {
        chm_ready = some s.chm_ready_flag;
      }

  unfoldable pub process_chm_connect_status : ChmReading → Control T → Control T
  unfolding connect_chm report_chm
  process_chm_connect_status r s =
      if ltb s.check_counter check_chm_connect_threshold
      then record s { check_counter = s.check_counter + 1 }
      else (let checked = record s { check_counter = 0 } in
          elim r.chm_connect [
            | none ↦ checked
            | some connect ↦ report_chm (connect_chm r connect checked)
          ])

  -- A door that is locked after it was unlocked asks for a check of the mount.
  unfoldable pub note_lock : DoorLock → Control T → Control T
  note_lock door_locked s = elim s.prev_lock_status [
    | door_unlocked ↦ record s { check_mount = true; prev_lock_status = door_locked }
    | _ ↦ record s { prev_lock_status = door_locked }
  ]
  note_lock lock s = record s { prev_lock_status = lock }

  unfoldable pub note_mount : MountCheck → Control T → Control T
  note_mount c s =
      if c.is_mounted
      then (let up = record s { removable_ready = ready } in
          let footages = if c.is_footages_created then emit own_footages up else up in
          if c.is_downloads_created then emit own_downloads footages else footages)
      else emit (removable_power false) (record s { removable_ready = not_ready })

  module _ (ptc : Timers T) where
    open ptc use {is_active, start, stop}

    module _ (video_shutdown_timeout removable_ssd_mount_timeout : ℕ) where
      unfoldable pub at_unlocked : Control T → Control T
      at_unlocked s =
          if is_ready s.removable_ready
          then (let begun = record s { shutdown_started = true } in
              if is_active video_shutdown_timer s.timers
              then begun
              else record (emit shutdown_removable_ssd begun) {
                timers = start video_shutdown_timer video_shutdown_timeout s.timers;
              })
          else if s.startup
          then request_drive_status s
          else s

      unfoldable pub at_locked : Control T → Control T
      at_locked s =
          if not (is_ready s.removable_ready)
            && s.check_mount
            && not (is_active mount_removable_ssd_timer s.timers)
            && not s.shutdown_started
          then record (emit mount_removable_thread s) {
            timers = start mount_removable_ssd_timer removable_ssd_mount_timeout s.timers;
            check_mount = false;
          }
          else s

      unfoldable pub at_lock : DoorLock → Control T → Control T
      unfolding at_unlocked at_locked
      at_lock door_unlocked s = at_unlocked s
      at_lock door_locked s = at_locked s
      at_lock door_unknown s = s

      unfoldable pub process_door_lock_status : DoorLock → Control T → Control T
      unfolding at_lock note_lock
      process_door_lock_status lock s = record (at_lock lock (note_lock lock s)) { startup = false }

    unfoldable pub mount_removable_ssd_timer_event_handler : MountCheck → Control T → Control T
    unfolding note_mount
    mount_removable_ssd_timer_event_handler c s =
        let noted = note_mount c s in
        let asked : Control T = elim c.lock [
          | door_locked ↦ request_drive_status noted
          | _ ↦ noted
        ] in
        record asked { timers = stop mount_removable_ssd_timer asked.timers }

    unfoldable pub hold_off_mount_timer_event_handler : Control T → Control T
    hold_off_mount_timer_event_handler s = record s { timers = stop holdoff_mount_timer s.timers }

  -- The door is read again after the drive has power.
  unfoldable pub removable_ssd_thread_handler : DoorLock → Control T → Control T
  removable_ssd_thread_handler lock s =
      let powered = emit (removable_power true) s in
      let done : Control T = elim lock [
        | door_locked ↦ emit mount_removable_partitions powered
        | door_unlocked ↦ emit (removable_power false) powered
        | door_unknown ↦ powered
      ] in
      record done { mount_process_complete = true }
