-- ===== src/EventControl/Tests.antt =====
-- A program with two cameras and three inputs: runs of it, and the theorems at them.
use recording_agent_continuo.Prelude.{◌≤◌, ◌&&◌, ◌≡◌, refl, true, [], ◌∷◌, ◌++◌, arith}
use recording_agent_continuo.Prelude.Text.{codes}
use recording_agent_continuo.EventControl.Bits.{bit, bitwise}
use recording_agent_continuo.EventControl.State.{
  door_locked, door_unlocked, video_event_info, camera_record_pause, pause_camera, record_camera,
  EventInput, CameraConfig,
}
use recording_agent_continuo.EventControl.Discrete.{
  trigger_value, find_event, check_digital_events, perform_function, perform_discrete_input_action,
  schedule, process_camera, process_cameras, process_event, process_discrete_input_data,
  discrete_input_timer_event_handler,
}
use recording_agent_continuo.EventControl.Poll.{
  new_events, changed_inputs, is_change, process_register, check_for_event, check_for_events,
}
use recording_agent_continuo.EventControl.Inputs.{due_inputs, process_register-infos}
use recording_agent_continuo.EventControl.Infos.{infos, infos_of, power_state}
use recording_agent_continuo.EventControl.Kept.{kept}
use recording_agent_continuo.EventControl.Door.{door, mounts, moves, moves-mounts}
use recording_agent_continuo.EventControl.Power.{is_loud, check_for_events-hush}
use recording_agent_continuo.EventControl.Watch.{power_loss_messages, check_for_events-loss}
use recording_agent_continuo.EventControl.Delay.{IsAlike, schedules, handler-last}
use recording_agent_continuo.EventControl.Samples.{running, platform, config, started, set_reading}

-- The first register: the two recorded inputs are reported, the front camera records at once, and
-- the rear one waits for its timer.
first_register :
    (process_register running platform config 5 started).sent
    ≡ video_event_info (codes "door") 1
      ∷ (camera_record_pause (codes "front") true ∷ (video_event_info (codes "bell") 1 ∷ []))
unfolding process_register process_discrete_input_data check_digital_events trigger_value find_event
    process_camera process_cameras process_event schedule perform_function new_events bit bitwise
    changed_inputs is_change perform_discrete_input_action
first_register = refl

rear_timer : (process_register running platform config 5 started).timers 4 ≡ true
unfolding process_register process_discrete_input_data check_digital_events trigger_value find_event
    process_camera process_cameras process_event schedule perform_function new_events bit bitwise
    changed_inputs is_change perform_discrete_input_action
rear_timer = refl

process_register-infos_example :
    (let current = bitwise ◌&&◌ 8 5 7 in
      let after = process_register running platform config 5 started in
      (infos after.sent
        ≡ infos [] ++ infos_of config.digital_inputs current (due_inputs 99 current))
      × (after.discrete_fpga_reg ≡ current)
      × (after.prev_discrete_fpga_reg ≡ current)
      × (power_state after ≡ power_state started))
process_register-infos_example =
    process_register-infos running platform config 5 started (omega arith) refl

moves-mounts_example :
    mounts (
      moves running 5000 30000
        (door door_locked ∷ (door door_unlocked ∷ (door door_locked ∷ [])))
        started)
    ≤ 2
moves-mounts_example =
    moves-mounts running 5000 30000
      (door door_locked ∷ (door door_unlocked ∷ (door door_locked ∷ []))) started

check_for_events-hush_example :
    kept is_loud
      (check_for_events running platform config
        (set_reading ∷ (set_reading ∷ []))
        (record started { power_going_down = true })).sent
    ≡ []
check_for_events-hush_example =
    check_for_events-hush running platform config (set_reading ∷ (set_reading ∷ []))
      (record started { power_going_down = true }) refl

check_for_events-loss_example :
    (let before =
        check_for_events running platform config (set_reading ∷ (set_reading ∷ [])) started in
      let after = check_for_event running platform config set_reading before in
      (after.sent ≡ before.sent ++ power_loss_messages) × (after.power_going_down ≡ true))
check_for_events-loss_example =
    check_for_events-loss running platform config 0 (set_reading ∷ (set_reading ∷ [])) set_reading
      started refl refl refl

-- An input that pauses the front camera after five seconds, and one that has it record after two.
abbrev pause_later : EventInput
pause_later = record {
  digital_input_num = 1;
  event_input_state = 1;
  action_delay = 5;
  camera_function = pause_camera;
  frame_rate_during_event = 0;
}

abbrev record_later : EventInput
record_later = record {
  digital_input_num = 2;
  event_input_state = 1;
  action_delay = 2;
  camera_function = record_camera;
  frame_rate_during_event = 0;
}

abbrev front : CameraConfig
front = record {
  name = codes "front";
  camera_control_by_event = true;
  event_for_controlled_camera = pause_later ∷ (record_later ∷ []);
}

handler-last_example : IsAlike (perform_discrete_input_action front record_later 0 started) (
    discrete_input_timer_event_handler running 0 (
      schedule running 0 front record_later (schedules running 0 front (pause_later ∷ []) started)))
handler-last_example =
    handler-last running 0 front (pause_later ∷ []) record_later started (omega arith, tt)
      (omega arith)
