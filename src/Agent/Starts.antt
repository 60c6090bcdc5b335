-- ===== src/Agent/Starts.antt =====
-- What a start of a recording process does, and what becomes of a camera whose process cannot be
-- started.
use recording_agent_continuo.Prelude.{
  ℕ, ◌+◌, ◌≤◌, ltb, ◌==◌, ◌≡◌, refl, ap, ◌∙◌, true, false, not, ◌&&◌, some, if◌then◌else◌,
  set_at_same, arith,
}
use recording_agent_continuo.Agent.State.{
  Flags, Camera, spawn_recorder, Agent, World, emit, put_camera, has_recording,
}
use recording_agent_continuo.Agent.Record.{
  clear_ssd, status_of_mode, default_mode, retry_slot, note_running, note_started, try_spawn,
  spawn_recording, start_recording_process, send_recording_status, send_camera_status,
}
use recording_agent_continuo.Agent.Workers.{after_stop-IsSame, restart-IsSame}

-- A camera whose process runs in its mode.
abbrev pub running : ℕ → Camera → Camera
running pid c = record c {
  worker_pid = pid;
  recording_status_flags = status_of_mode c.recording_mode_flags;
}

-- The mode that a start leaves a camera in.
abbrev pub start_mode : Agent → Camera → Flags
start_mode s c = if s.is_rssd_ready then default_mode c else clear_ssd (default_mode c)

note_running-camera :
    (i slot pid : ℕ) (s : Agent)
    → ((note_running i slot pid s).cameras i ≡ running pid (s.cameras i))
      × ((note_running i slot pid s).n_cams_recording ≡ s.n_cams_recording + 1)
unfolding note_running send_recording_status send_camera_status
note_running-camera i slot pid s = (set_at_same i (running pid (s.cameras i)) s.cameras, refl)

note_started-camera :
    (i slot pid : ℕ) (s : Agent)
    → ((note_started i slot pid s).cameras i ≡ running pid (s.cameras i))
      × ((note_started i slot pid s).n_cams_recording ≡ s.n_cams_recording + 1)
unfolding note_started
note_started-camera i slot pid s =
    let noted = note_running-camera i slot pid s in
    let same = restart-IsSame (s.cameras i) (note_running i slot pid s) in
    (ap (λ f. f i) same.0 ∙ noted.0, same.2 ∙ noted.1)

try_spawn-some :
    (w : World) (i slot pid : ℕ) (s : Agent)
    → (s.cameras i).is_assigned ≡ true
    → (s.cameras i).worker_pid ≡ 0
    → w.recorder i ≡ some pid
    → (let t = try_spawn w i slot s in
        (t.0 ≡ true)
        × (t.1.cameras i ≡ running pid (s.cameras i))
        × (t.1.n_cams_recording ≡ s.n_cams_recording + 1))
unfolding try_spawn
try_spawn-some w i slot pid s assigned idle spawned =
    let due : ((s.cameras i).is_assigned && ((s.cameras i).worker_pid == 0)) ≡ true =
      ground arith in
    let noted = note_started-camera i slot pid (emit (spawn_recorder i) s) in
    rw due (rw spawned (refl, noted.0, noted.1))

spawn_recording-some :
    (w : World) (i slot pid : ℕ) (s : Agent)
    → (s.cameras i).is_assigned ≡ true
    → (s.cameras i).worker_pid ≡ 0
    → w.recorder i ≡ some pid
    → (let t = spawn_recording w i slot s in
        (t.0 ≡ true)
        × (t.1.cameras i ≡ running pid (s.cameras i))
        × (t.1.n_cams_recording ≡ s.n_cams_recording + 1))
unfolding spawn_recording
spawn_recording-some w i slot pid s assigned idle spawned =
    let tried = try_spawn-some w i slot pid s assigned idle spawned in
    let same = after_stop-IsSame w (try_spawn w i slot s).1 in
    (tried.0, ap (λ f. f i) same.0 ∙ tried.1, same.2 ∙ tried.2)

-- A camera that is assigned and has no process, with at most two failures behind it, and with the
-- CHM ready if its mode wants it: if the process can be spawned, the start succeeds and counts,
-- and the camera has the process and the status of its mode.
pub start-running :
    (w : World) (i pid : ℕ) (s : Agent)
    → s.retry_count (retry_slot w i s) ≤ 2
    → ((default_mode (s.cameras i)).chm_video && not s.is_chm_ready) ≡ false
    → (s.cameras i).is_assigned ≡ true
    → (s.cameras i).worker_pid ≡ 0
    → w.recorder i ≡ some pid
    → (let t = start_recording_process w i s in
        let c = record (s.cameras i) { recording_mode_flags = start_mode s (s.cameras i) } in
        (t.0 ≡ true)
        × (t.1.cameras i ≡ running pid c)
        × (t.1.n_cams_recording ≡ s.n_cams_recording + 1))
unfolding start_recording_process
start-running w i pid s few drive assigned idle spawned =
    let slot = retry_slot w i s in
    let c = record (s.cameras i) { recording_mode_flags = start_mode s (s.cameras i) } in
    let moded = put_camera i c s in
    let at = set_at_same i c s.cameras in
    let more : ltb 2 (s.retry_count slot) ≡ false = ground arith in
    let done =
      spawn_recording-some w i slot pid moded (ap (λ d. d.is_assigned) at ∙ assigned)
        (ap (λ d. d.worker_pid) at ∙ idle) spawned in
    rw more (rw drive (done.0, done.1 ∙ ap (running pid) at, done.2))

default_mode-without_chm :
    (c : Camera)
    → c.is_essential ≡ false
    → c.recording_mode_flags.chm_video ≡ false
    → ((default_mode c).chm_video ≡ false)
      × (has_recording (status_of_mode (clear_ssd (default_mode c))) ≡ false)
unfolding default_mode status_of_mode
default_mode-without_chm c other off = rw other (rw off (refl, refl))

-- With no drive ready, a camera that is assigned, not essential, not commanded to the CHM, without
-- a process and with at most two failures behind it: if the process can be spawned, the start
-- succeeds: it starts a recording process, which is counted and records on no drive.
pub start-driveless :
    (w : World) (i pid : ℕ) (s : Agent)
    → s.retry_count (retry_slot w i s) ≤ 2
    → s.is_chm_ready ≡ false
    → s.is_rssd_ready ≡ false
    → (s.cameras i).is_essential ≡ false
    → (s.cameras i).recording_mode_flags.chm_video ≡ false
    → (s.cameras i).is_assigned ≡ true
    → (s.cameras i).worker_pid ≡ 0
    → w.recorder i ≡ some pid
    → (let t = start_recording_process w i s in
        (t.0 ≡ true)
        × ((t.1.cameras i).worker_pid ≡ pid)
        × (has_recording (t.1.cameras i).recording_status_flags ≡ false)
        × (t.1.n_cams_recording ≡ s.n_cams_recording + 1))
start-driveless w i pid s few no_chm no_ssd other off assigned idle spawned =
    let c = s.cameras i in
    let bare = default_mode-without_chm c other off in
    let drive : ((default_mode c).chm_video && not s.is_chm_ready) ≡ false = rw bare.0 refl in
    let done = start-running w i pid s few drive assigned idle spawned in
    let empty : has_recording (status_of_mode (start_mode s c)) ≡ false = rw no_ssd bare.1 in
    (
      done.0,
      ap (λ d. d.worker_pid) done.1,
      ap (λ d. has_recording d.recording_status_flags) done.1 ∙ empty,
      done.2,
    )
