-- ===== src/Agent/Commands.antt =====
-- The messages for the cameras: msgcb_ready_status, msgcb_shutdown_rec and
-- handle_camera_record_pause, and reset_camera_stream. The set-up of shared memory is left out, and
-- so is set_drive_availability, which tells other processes what these flags hold.
use recording_agent_continuo.Prelude.{
  ℕ, ◌==◌, ltb, Bool, true, false, not, ◌&&◌, ◌||◌, Option, none, some, if◌then◌else◌,
}
use recording_agent_continuo.Prelude.Text.{Text}
use recording_agent_continuo.Agent.State.{
  Flags, no_flags, Camera, application_error, camera_offline, Agent, World, emit, put_camera,
  raconf_find_camera, has_video,
}
use recording_agent_continuo.Agent.Record.{
  clear_chm, clear_ssd, status_of_mode, send_recording_status, stop_recording_process,
  start_recording_process,
}

-- The mode of a camera that may record on the drives that are ready.
unfoldable pub mode_of_drives : (is_chm_ready is_rssd_ready : Bool) → Camera → Flags
mode_of_drives is_chm_ready is_rssd_ready c = record {
  chm_video = is_chm_ready;
  chm_audio = is_chm_ready && c.do_audio;
  ssd_video = is_rssd_ready;
  ssd_audio = is_rssd_ready && c.do_audio;
  dont_use_chm = false;
}

unfoldable pub ready_camera : (is_chm_ready is_rssd_ready : Bool) → Camera → Camera
unfolding mode_of_drives status_of_mode
ready_camera is_chm_ready is_rssd_ready c =
    let mode =
      if c.is_online && not c.commanded_paused
      then mode_of_drives is_chm_ready is_rssd_ready c
      else c.recording_mode_flags in
    record c {
      recording_mode_flags = mode;
      recording_status_flags =
          if c.worker_pid == 0 then c.recording_status_flags else status_of_mode mode;
    }

-- Every configured camera, in the order of the array.
unfoldable pub each_camera : (Camera → Camera) → ℕ → (ℕ → Camera) → ℕ → Camera
each_camera f n cameras j = if ltb j n then f (cameras j) else cameras j

unfoldable pub msgcb_ready_status :
    (is_version : Bool) → (is_chm_ready is_rssd_ready : Bool) → Agent → Agent
unfolding each_camera ready_camera
msgcb_ready_status is_version is_chm_ready is_rssd_ready s =
    if is_version
    then send_recording_status (record s {
      is_chm_ready = is_chm_ready;
      is_rssd_ready = is_rssd_ready;
      cameras = each_camera (ready_camera is_chm_ready is_rssd_ready) s.n_cameras s.cameras;
    })
    else s

pub data Shutdown : Type 0 where
  shutdown_chm shutdown_removable_ssd shutdown_all invalid_function : Shutdown

unfoldable pub shut_camera : (is_chm_ready is_rssd_ready : Bool) → Camera → Camera
shut_camera is_chm_ready is_rssd_ready c =
    let off_chm = if is_chm_ready then c else record c {
      recording_mode_flags = clear_chm c.recording_mode_flags;
      recording_status_flags = clear_chm c.recording_status_flags;
    } in
    if is_rssd_ready then off_chm else record off_chm {
      recording_mode_flags = clear_ssd off_chm.recording_mode_flags;
      recording_status_flags = clear_ssd off_chm.recording_status_flags;
    }

unfoldable pub shut_cameras : Agent → Agent
unfolding each_camera shut_camera
shut_cameras s = record s {
  cameras = each_camera (shut_camera s.is_chm_ready s.is_rssd_ready) s.n_cameras s.cameras;
}

unfoldable pub shut_down : Shutdown → Agent → Agent
unfolding shut_cameras
shut_down shutdown_chm s = shut_cameras (record s { is_chm_ready = false })
shut_down shutdown_removable_ssd s = shut_cameras (record s { is_rssd_ready = false })
shut_down shutdown_all s =
    shut_cameras
      (record s { is_chm_ready = false; is_rssd_ready = false; is_shutdown_in_process = true })
shut_down invalid_function s = s

unfoldable pub msgcb_shutdown_rec : (is_version : Bool) → Shutdown → Agent → Agent
unfolding shut_down
msgcb_shutdown_rec is_version f s = if is_version then shut_down f s else s

-- A camera that is told to record or to pause, and is online and assigned.
unfoldable pub record_pause : World → (is_record : Bool) → ℕ → Agent → Bool × Agent
record_pause w is_record i s =
    let c = s.cameras i in
    if has_video c.recording_status_flags
    then (if is_record
        then (true, s)
        else stop_recording_process w i (
            put_camera i (record c { recording_mode_flags = no_flags; commanded_paused = true }) s))
    else (if is_record
        then (if s.is_chm_ready || s.is_rssd_ready
            then start_recording_process w i
                (put_camera i (record c { commanded_paused = false }) s)
            else (false, s))
        else (true, s))

unfoldable pub found_record_pause : World → (is_record : Bool) → Option ℕ → Agent → Bool × Agent
unfolding record_pause
found_record_pause w is_record none s = (false, s)
found_record_pause w is_record (some i) s =
    if (s.cameras i).is_online && (s.cameras i).is_assigned
    then record_pause w is_record i s
    else (false, emit (application_error camera_offline) s)

-- With whether it succeeds.
unfoldable pub handle_camera_record_pause :
    World → (name : Text) → (is_record : Bool) → Agent → Bool × Agent
unfolding found_record_pause
handle_camera_record_pause w name is_record s =
    if s.is_shutdown_in_process
    then (false, s)
    else found_record_pause w is_record (raconf_find_camera w name s) s

unfoldable pub msgcb_camera_record_pause :
    World → (is_version : Bool) → (name : Text) → (is_record : Bool) → Agent → Agent
unfolding handle_camera_record_pause
msgcb_camera_record_pause w is_version name is_record s =
    if is_version then (handle_camera_record_pause w name is_record s).1 else s

-- A pause and then a start; the start is not tried if the pause fails. The two calls are in
-- surroundings of their own.
unfoldable pub reset_camera_stream :
    (at_pause at_start : World) → (name : Text) → Agent → Bool × Agent
unfolding handle_camera_record_pause
reset_camera_stream at_pause at_start name s =
    let paused = handle_camera_record_pause at_pause name false s in
    if paused.0 then handle_camera_record_pause at_start name true paused.1 else (false, paused.1)
