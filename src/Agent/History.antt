-- ===== src/Agent/History.antt =====
-- Sequences of messages and passes.
use recording_agent_continuo.Prelude.{
  refl, ℕ, ltb, Bool, if◌then◌else◌, List, [], ◌∷◌, if_both, Bool-cases, inl, inr, arith, All,
}
use recording_agent_continuo.Prelude.Text.{Text}
use recording_agent_continuo.Agent.State.{Agent, World}
use recording_agent_continuo.Agent.Commands.{
  msgcb_ready_status, Shutdown, msgcb_shutdown_rec, shut_down, handle_camera_record_pause,
  msgcb_camera_record_pause, reset_camera_stream,
}
use recording_agent_continuo.Agent.Settings.{
  CameraSettings, camera_resolution, camera_compression, camera_frame_rate, msgcb_camera_settings,
  msgcb_camera_resolution, msgcb_camera_compression, msgcb_camera_frame_rate,
  msgcb_request_camera_status,
}
use recording_agent_continuo.Agent.Changes.{
  reset-IsCounted, setting-IsCounted, settings-IsCounted, request-IsCounted,
}
use recording_agent_continuo.Agent.Supervise.{reflect_camera_online_status, supervise}
use recording_agent_continuo.Agent.Workers.{IsCounted, HasPids}
use recording_agent_continuo.Agent.Counts.{
  ready_status-IsCounted, shut_down-IsCounted, handle-IsCounted,
}
use recording_agent_continuo.Agent.Passes.{reflect-IsCounted, supervise-IsCounted}

-- A message, a report on a camera, or the part of a 1 Hz pass that watches the processes.
pub data Command : Type 0 where
  ready_status : (is_version is_chm_ready is_rssd_ready : Bool) → Command
  shutdown : (is_version : Bool) → Shutdown → Command
  camera_record_pause : (is_version : Bool) → (name : Text) → (is_record : Bool) → Command
  reset : (at_start : World) → (name : Text) → Command
  settings : (expected_version : ℕ) → CameraSettings → Command
  resolution : (at_start : World) → (is_version : Bool) → (name : Text) → ℕ → Command
  compression : (at_start : World) → (is_version : Bool) → (name : Text) → ℕ → Command
  frame_rate : (at_start : World) → (is_version : Bool) → (name : Text) → ℕ → Command
  request_camera_status : (is_version : Bool) → Command
  report : (camera : ℕ) → (is_alive : Bool) → Command
  watch : Command

unfoldable pub obey : World → Command → Agent → Agent
obey w (ready_status is_version is_chm_ready is_rssd_ready) s =
    msgcb_ready_status is_version is_chm_ready is_rssd_ready s
obey w (shutdown is_version f) s = msgcb_shutdown_rec is_version f s
obey w (camera_record_pause is_version name is_record) s =
    msgcb_camera_record_pause w is_version name is_record s
obey w (reset at_start name) s = (reset_camera_stream w at_start name s).1
obey w (settings expected m) s = msgcb_camera_settings w expected m s
obey w (resolution at_start is_version name value) s =
    msgcb_camera_resolution w at_start is_version name value s
obey w (compression at_start is_version name value) s =
    msgcb_camera_compression w at_start is_version name value s
obey w (frame_rate at_start is_version name value) s =
    msgcb_camera_frame_rate w at_start is_version name value s
obey w (request_camera_status is_version) s = msgcb_request_camera_status is_version s
obey w (report i is_alive) s =
    if ltb i s.n_cameras then (reflect_camera_online_status w i is_alive s).1 else s
obey w watch s = supervise w s

unfoldable pub obey_all : List (World × Command) → Agent → Agent
obey_all [] s = s
obey_all ((w, c) ∷ cs) s = obey_all cs (obey w c s)

-- The surroundings of a command start processes with process numbers.
abbrev pub GivesPids : World × Command → Type 0
GivesPids (w, reset at_start name) = HasPids w × HasPids at_start
GivesPids (w, resolution at_start is_version name value) = HasPids w × HasPids at_start
GivesPids (w, compression at_start is_version name value) = HasPids w × HasPids at_start
GivesPids (w, frame_rate at_start is_version name value) = HasPids w × HasPids at_start
GivesPids (w, c) = HasPids w

obey-IsCounted :
    (n : ℕ) (w : World) (c : Command) (s : Agent)
    → GivesPids (w, c)
    → IsCounted n s
    → IsCounted n (obey w c s)
unfolding obey msgcb_shutdown_rec msgcb_camera_record_pause msgcb_camera_resolution
    msgcb_camera_compression msgcb_camera_frame_rate
obey-IsCounted n w (ready_status v chm ssd) s pids h = ready_status-IsCounted n v chm ssd s h
obey-IsCounted n w (shutdown v f) s pids h =
    if_both (IsCounted n) v (shut_down f s) s (shut_down-IsCounted n f s h) h
obey-IsCounted n w (camera_record_pause v name is_record) s pids h =
    if_both (IsCounted n) v (handle_camera_record_pause w name is_record s).1 s
      (handle-IsCounted n w pids name is_record s h) h
obey-IsCounted n w (reset at_start name) s pids h =
    reset-IsCounted n w at_start name s pids.0 pids.1 h
obey-IsCounted n w (settings expected m) s pids h = settings-IsCounted n w expected m s h
obey-IsCounted n w (resolution w' v name value) s pids h =
    setting-IsCounted n w w' v camera_resolution (λ c. record c { resolution = value }) name s
      pids.0 pids.1 (λ c. refl) h
obey-IsCounted n w (compression w' v name value) s pids h =
    setting-IsCounted n w w' v camera_compression (λ c. record c { compression = value }) name s
      pids.0 pids.1 (λ c. refl) h
obey-IsCounted n w (frame_rate w' v name value) s pids h =
    setting-IsCounted n w w' v camera_frame_rate (λ c. record c { frame_rate = value }) name s
      pids.0 pids.1 (λ c. refl) h
obey-IsCounted n w (request_camera_status v) s pids h = request-IsCounted n v s h
obey-IsCounted n w (report i is_alive) s pids h = elim (Bool-cases (ltb i s.n_cameras)) [
  | inl g ↦ rw g (reflect-IsCounted n w pids i is_alive s (ground (arith, h.0, g)) h)
  | inr g ↦ rw g h
]
obey-IsCounted n w watch s pids h = supervise-IsCounted n w pids s h

-- If n_cams_recording is the number of cameras that have a recording process, it is so after any
-- sequence of messages and passes whose new processes have numbers other than 0.
pub obey_all-IsCounted :
    (n : ℕ) (cs : List (World × Command)) (s : Agent)
    → All GivesPids cs
    → IsCounted n s
    → IsCounted n (obey_all cs s)
unfolding obey_all
obey_all-IsCounted n [] s pids h = h
obey_all-IsCounted n ((w, c) ∷ cs) s pids h =
    obey_all-IsCounted n cs (obey w c s) pids.1 (obey-IsCounted n w c s pids.0 h)
