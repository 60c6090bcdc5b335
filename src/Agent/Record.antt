-- ===== src/Agent/Record.antt =====
-- Starting and stopping the recording process of a camera, and the processes that go with it:
-- start_recording_process, stop_recording_process, camera_recording_just_stopped, handle_metarec,
-- handle_space_monitor, stop_space_monitor and see_if_recording. The preparation of command lines,
-- the branch of handle_space_monitor under `&& 0` and log lines are left out.
use recording_agent_continuo.Prelude.{
  ℕ, zero, suc, ◌+◌, ◌-◌, ◌==◌, ltb, Bool, true, false, not, ◌&&◌, ◌||◌, Option, none, some,
  if◌then◌else◌, set_at,
}
use recording_agent_continuo.Agent.State.{
  Flags, Camera, camera_status, recording_status, spawn_recorder, spawn_metarec,
  spawn_space_monitor, quit, kill, Agent, World, emit, put_camera, is_dead, find_first,
}

abbrev pub clear_chm : Flags → Flags
clear_chm f = record f { chm_video = false; chm_audio = false }

abbrev pub clear_ssd : Flags → Flags
clear_ssd f = record f { ssd_video = false; ssd_audio = false }

-- The status of a camera whose recording process runs in a mode.
unfoldable pub status_of_mode : Flags → Flags
status_of_mode mode = record {
  chm_video = mode.chm_video;
  chm_audio = mode.chm_video && mode.chm_audio;
  ssd_video = mode.ssd_video;
  ssd_audio = mode.ssd_video && mode.ssd_audio;
  dont_use_chm = false;
}

-- The two bits of the recording status: whether no camera keeps a drive from it.
unfoldable pub keeps_chm : Camera → Bool
keeps_chm c = not (
    c.is_essential_set
    && (c.recording_mode_flags.chm_video && not c.recording_status_flags.chm_video))

unfoldable pub keeps_rssd : Camera → Bool
keeps_rssd c = not (c.recording_mode_flags.ssd_video && not c.recording_status_flags.ssd_video)

unfoldable pub see_if_recording : (keeps : Camera → Bool) → (cameras : ℕ → Camera) → ℕ → Bool
see_if_recording keeps cameras zero = true
see_if_recording keeps cameras (suc n) = see_if_recording keeps cameras n && keeps (cameras n)

unfoldable pub send_recording_status : Agent → Agent
send_recording_status s =
    emit
      (recording_status (see_if_recording keeps_chm s.cameras s.n_cameras)
        (see_if_recording keeps_rssd s.cameras s.n_cameras))
      s

unfoldable pub send_camera_status : ℕ → Agent → Agent
send_camera_status i s = emit (camera_status i (s.cameras i).recording_status_flags) s

abbrev pub start_metarec : World → Agent → Agent
start_metarec w s = record (emit spawn_metarec s) {
  metarec_pid = elim w.metarec [ none ↦ 0 | some pid ↦ pid ];
}

-- A metadata recorder that died is started again in the same call.
unfoldable pub handle_metarec : World → Agent → Agent
handle_metarec w s =
    if s.is_chm_ready || s.is_rssd_ready
    then (if s.metarec_pid == 0 || is_dead w s.metarec_pid then start_metarec w s else s)
    else s

abbrev pub start_space_monitor : World → Agent → Agent
start_space_monitor w s = record (emit spawn_space_monitor s) {
  space_monitor_pid = elim w.space_monitor [ none ↦ 0 | some pid ↦ pid ];
}

unfoldable pub handle_space_monitor : World → Agent → Agent
handle_space_monitor w s =
    if ltb 0 s.n_cams_recording
    then (if s.space_monitor_pid == 0 || is_dead w s.space_monitor_pid
        then start_space_monitor w s
        else s)
    else s

unfoldable pub stop_space_monitor : Agent → Agent
stop_space_monitor s =
    if s.space_monitor_pid == 0
    then s
    else record (emit (kill s.space_monitor_pid) s) { space_monitor_pid = 0 }

-- The monitor is stopped, to be started again, where the camera's recordings have a maximal age.
unfoldable pub restart_space_monitor : Camera → Agent → Agent
unfolding stop_space_monitor
restart_space_monitor c s = if ltb 0 c.max_age then stop_space_monitor s else s

unfoldable pub after_stop : World → Agent → Agent
unfolding handle_metarec handle_space_monitor
after_stop w s = handle_space_monitor w (handle_metarec w s)

unfoldable pub camera_recording_just_stopped : World → ℕ → Agent → Agent
unfolding send_recording_status send_camera_status after_stop
camera_recording_just_stopped w i s =
    let c = s.cameras i in
    let status = clear_ssd (clear_chm c.recording_status_flags) in
    let cleared = put_camera i (record c { worker_pid = 0; recording_status_flags = status }) s in
    let told = send_recording_status (send_camera_status i cleared) in
    after_stop w (record told { n_cams_recording = told.n_cams_recording - 1 })

-- With whether it succeeds.
unfoldable pub stop_recording_process : World → ℕ → Agent → Bool × Agent
unfolding camera_recording_just_stopped restart_space_monitor
stop_recording_process w i s =
    let c = s.cameras i in
    if c.worker_pid == 0 then (false, s) else (
      true,
      restart_space_monitor c (camera_recording_just_stopped w i (emit (quit c.worker_pid) s)),
    )

abbrev pub or_zero : Option ℕ → ℕ
or_zero none = 0
or_zero (some j) = j

-- The slot of a camera's count of attempts: the first camera with its name, or the first one.
unfoldable pub retry_slot : World → ℕ → Agent → ℕ
retry_slot w i s = or_zero (
    find_first (λ j. w.is_same (s.cameras i).name (s.cameras j).name w.camera_name_length)
      s.n_cameras 0)

unfoldable pub default_mode : Camera → Flags
default_mode c =
    let mode = c.recording_mode_flags in
    let chm =
      if c.is_essential
      then record mode { chm_video = true; chm_audio = mode.chm_audio || c.do_audio }
      else record mode { dont_use_chm = true } in
    record chm { ssd_video = true; ssd_audio = chm.ssd_audio || c.do_audio }

abbrev pub set_mode : ℕ → Flags → Agent → Agent
set_mode i mode s = put_camera i (record (s.cameras i) { recording_mode_flags = mode }) s

abbrev pub set_retry : ℕ → ℕ → Agent → Agent
set_retry slot n s = record s { retry_count = set_at slot n s.retry_count }

-- The recording process runs: the count, the status, and the messages.
unfoldable pub note_running : ℕ → (slot pid : ℕ) → Agent → Agent
unfolding status_of_mode send_recording_status send_camera_status
note_running i slot pid s =
    let c = s.cameras i in
    let status = status_of_mode c.recording_mode_flags in
    let running =
      put_camera i (record c { worker_pid = pid; recording_status_flags = status })
        (set_retry slot 0 s) in
    let counted = record running { n_cams_recording = running.n_cams_recording + 1 } in
    send_recording_status (send_camera_status i counted)

unfoldable pub note_started : ℕ → (slot pid : ℕ) → Agent → Agent
unfolding note_running restart_space_monitor
note_started i slot pid s = restart_space_monitor (s.cameras i) (note_running i slot pid s)

-- The attempt to start the process, where the camera is assigned and has none.
unfoldable pub try_spawn : World → ℕ → (slot : ℕ) → Agent → Bool × Agent
unfolding note_started
try_spawn w i slot s =
    let c = s.cameras i in
    let tried = emit (spawn_recorder i) s in
    if c.is_assigned && (c.worker_pid == 0)
    then elim (w.recorder i) [
      | some pid ↦ (true, note_started i slot pid tried)
      | none ↦ (false, set_retry slot (s.retry_count slot + 1) tried)
    ]
    else (true, s)

unfoldable pub spawn_recording : World → ℕ → (slot : ℕ) → Agent → Bool × Agent
unfolding try_spawn after_stop
spawn_recording w i slot s = let tried = try_spawn w i slot s in (tried.0, after_stop w tried.1)

-- After the fourth call with three failures behind it the camera is given up. The mode always has
-- the bit of the removable drive when it is looked at.
unfoldable pub start_recording_process : World → ℕ → Agent → Bool × Agent
unfolding default_mode spawn_recording retry_slot
start_recording_process w i s =
    let c = s.cameras i in
    let slot = retry_slot w i s in
    let mode = default_mode c in
    let left = if s.is_rssd_ready then mode else clear_ssd mode in
    if ltb 2 (s.retry_count slot)
    then (false, put_camera i (record c { is_assigned = false }) s)
    else if mode.chm_video && not s.is_chm_ready
    then (false, set_retry slot 0 (set_mode i mode s))
    else spawn_recording w i slot (set_mode i left s)
