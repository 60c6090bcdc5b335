-- ===== src/Link/Tests.antt =====
-- Event control and an agent, at concrete cameras.
use recording_agent_continuo.Prelude.{
  ℕ, Bool, ◌≡◌, refl, true, false, [], ◌∷◌, ◌++◌, if◌then◌else◌, ◌==◌, arith,
}
use recording_agent_continuo.Prelude.Text.{codes}
use recording_agent_continuo.EventControl.State.{
  pause_camera, set_frame_rate, EventInput, CameraConfig, camera_record_pause, camera_frame_rate,
  Control,
}
use recording_agent_continuo.EventControl.Discrete.{perform_discrete_input_action}
use recording_agent_continuo.EventControl.Samples.{started}
use recording_agent_continuo.Agent.State.{Agent, has_recording, raconf_find_camera, find_first}
use recording_agent_continuo.Agent.Resets.{StandsStill}
use recording_agent_continuo.Agent.Stops.{Records}
use recording_agent_continuo.Agent.Samples.{front, rear, agent, world}
use recording_agent_continuo.Link.{receive_all, pause-agrees, frame_rate-disagrees}

abbrev front_config : CameraConfig
front_config = record {
  name = codes "front";
  camera_control_by_event = true;
  event_for_controlled_camera = [];
}

abbrev pausing : EventInput
pausing = record {
  digital_input_num = 1;
  event_input_state = 0;
  action_delay = 0;
  camera_function = pause_camera;
  frame_rate_during_event = 10;
}

abbrev rating : EventInput
rating = record pausing { camera_function = set_frame_rate }

abbrev paused_host : Control (ℕ → Bool)
paused_host = record started { camera_commanded_pause = λ i. true }

-- The first camera is recorded on the CHM.
abbrev recording_agent : Agent
recording_agent = record agent {
  cameras = λ i.
      if i == 0
      then record front {
        recording_status_flags = record {
          chm_video = true;
          chm_audio = false;
          ssd_video = false;
          ssd_audio = false;
          dont_use_chm = false;
        };
        worker_pid = 77;
      }
      else rear;
  n_cams_recording = 1;
}

front-Records : Records world (codes "front") 0 recording_agent
unfolding raconf_find_camera find_first
front-Records = (refl, refl, refl, refl, refl)

front-StandsStill : StandsStill world (codes "front") 0 agent
unfolding raconf_find_camera find_first
front-StandsStill = (refl, refl, refl, refl, refl)

pause-agrees_example :
    (let t = perform_discrete_input_action front_config pausing 0 started in
      let b =
        receive_all world world (camera_record_pause (codes "front") false ∷ []) recording_agent in
      (t.sent ≡ [] ++ (camera_record_pause (codes "front") false ∷ []))
      × (t.camera_commanded_pause 0 ≡ true)
      × ((b.cameras 0).commanded_paused ≡ true)
      × ((b.cameras 0).worker_pid ≡ 0)
      × (has_recording (b.cameras 0).recording_status_flags ≡ false)
      × (b.n_cams_recording ≡ 0))
pause-agrees_example =
    pause-agrees world world front_config pausing 0 0 started recording_agent refl front-Records

frame_rate-disagrees_example :
    (let t = perform_discrete_input_action front_config rating 0 paused_host in
      let message = camera_frame_rate (codes "front") 10 in
      let b = receive_all world world (message ∷ []) agent in
      (t.sent ≡ [] ++ (message ∷ []))
      × (t.camera_commanded_pause 0 ≡ true)
      × ((b.cameras 0).commanded_paused ≡ false)
      × ((b.cameras 0).worker_pid ≡ 100)
      × (b.n_cams_recording ≡ 1))
frame_rate-disagrees_example =
    frame_rate-disagrees world world front_config rating 0 0 100 paused_host agent refl refl
      front-StandsStill front-StandsStill refl (omega arith) refl
