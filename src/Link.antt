-- ===== src/Link.antt =====
-- The messages that event control (host_utils/ra_video_rec/event_control/event_control.c) sends to
-- the remote agent (reagent/src/ptc_intf.c), delivered in their order.
mod Tests
use recording_agent_continuo.Prelude.{
  ℕ, ◌-◌, ◌+◌, ◌≤◌, ◌==◌, ◌≡◌, refl, ap, ◌∙◌, Bool, true, false, if◌then◌else◌, List, [], ◌∷◌, ◌++◌,
  some, set_at, set_at_same,
}
use recording_agent_continuo.EventControl.State.{
  CameraFunction, record_camera, pause_camera, set_frame_rate, EventInput, CameraConfig,
  ReadyStatus, Effect, ready_status, shutdown_removable_ssd, camera_record_pause, camera_frame_rate,
  Control,
}
use recording_agent_continuo.EventControl.Discrete.{perform_function, perform_discrete_input_action}
use recording_agent_continuo.Agent.State.{Agent, World, has_recording}
use recording_agent_continuo.Agent.Record.{retry_slot}
use recording_agent_continuo.Agent.Commands.{
  msgcb_ready_status, msgcb_shutdown_rec, msgcb_camera_record_pause,
}
use recording_agent_continuo.Agent.Commands
use recording_agent_continuo.Agent.Settings.{msgcb_camera_frame_rate}
use recording_agent_continuo.Agent.Resets.{StandsStill, camera_frame_rate-starts}
use recording_agent_continuo.Agent.Stops.{Records, pause-stops}

-- What the agent does with a message. The messages about inputs go to the recorder of metadata, and
-- the function of the shutdown at a loss of power is set outside the repository. The second world
-- is that of the second half of a reset.
unfoldable pub receive : (w w' : World) → Effect → Agent → Agent
receive w w' (ready_status r) a = msgcb_ready_status true r.chm_ready r.removable_ssd_ready a
receive w w' shutdown_removable_ssd a = msgcb_shutdown_rec true Commands.shutdown_removable_ssd a
receive w w' (camera_record_pause name is_record) a =
    msgcb_camera_record_pause w true name is_record a
receive w w' (camera_frame_rate name rate) a = msgcb_camera_frame_rate w w' true name rate a
receive w w' e a = a

unfoldable pub receive_all : (w w' : World) → List Effect → Agent → Agent
receive_all w w' [] a = a
receive_all w w' (e ∷ es) a = receive_all w w' es (receive w w' e a)

-- A pause that event control performs on a camera that the agent records, once it is delivered:
-- both have the camera as paused, its recording process is gone, and it is taken off the count.
pub pause-agrees :
    {T : Type 0} (w w' : World) (camera : CameraConfig) (e : EventInput) (k i : ℕ) (s : Control T)
    (a : Agent)
    → e.camera_function ≡ pause_camera
    → Records w camera.name i a
    → (let t = perform_discrete_input_action camera e k s in
        let b = receive_all w w' (camera_record_pause camera.name false ∷ []) a in
        (t.sent ≡ s.sent ++ (camera_record_pause camera.name false ∷ []))
        × (t.camera_commanded_pause k ≡ true)
        × ((b.cameras i).commanded_paused ≡ true)
        × ((b.cameras i).worker_pid ≡ 0)
        × (has_recording (b.cameras i).recording_status_flags ≡ false)
        × (b.n_cams_recording ≡ a.n_cams_recording - 1))
unfolding perform_discrete_input_action perform_function receive_all receive
pause-agrees w w' camera e k i s a pause records =
    let done = pause-stops w camera.name i a records in
    rw pause (refl, set_at_same k true s.camera_commanded_pause, done.1, done.0, done.2, done.3)

-- A change of the frame rate that event control performs on a camera that it has as paused, once
-- it is delivered to an agent where the camera is found, online, assigned, without a process and
-- not recorded, outside a shutdown, with the CHM ready and at most two failures behind it: if the
-- process can be spawned, event control still has the camera as paused, and the agent records it.
pub frame_rate-disagrees :
    {T : Type 0} (w w' : World) (camera : CameraConfig) (e : EventInput) (k i pid : ℕ)
    (s : Control T) (a : Agent)
    → e.camera_function ≡ set_frame_rate
    → s.camera_commanded_pause k ≡ true
    → StandsStill w camera.name i a
    → StandsStill w' camera.name i a
    → a.is_chm_ready ≡ true
    → a.retry_count (retry_slot w' i a) ≤ 2
    → w'.recorder i ≡ some pid
    → (let t = perform_discrete_input_action camera e k s in
        let message = camera_frame_rate camera.name e.frame_rate_during_event in
        let b = receive_all w w' (message ∷ []) a in
        (t.sent ≡ s.sent ++ (message ∷ []))
        × (t.camera_commanded_pause k ≡ true)
        × ((b.cameras i).commanded_paused ≡ false)
        × ((b.cameras i).worker_pid ≡ pid)
        × (b.n_cams_recording ≡ a.n_cams_recording + 1))
unfolding perform_discrete_input_action perform_function receive_all receive
frame_rate-disagrees w w' camera e k i pid s a rate paused still still' ready few spawned =
    let done =
      camera_frame_rate-starts w w' camera.name e.frame_rate_during_event i pid a still still' ready
        few spawned in
    rw rate (refl, paused, done.1, done.0, done.3)
