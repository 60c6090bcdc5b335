-- ===== src/EventControl/Discrete.antt =====
-- The discrete inputs: check_digital_events, process_discrete_input_data, the actions on cameras
-- and their timers. The search for a digital input whose result is not used is left out.
use recording_agent_continuo.Prelude.{
  set_at, ℕ, suc, ◌*◌, ◌==◌, ltb, true, false, ◌&&◌, Option, none, some, if◌then◌else◌, List, [],
  ◌∷◌,
}
use recording_agent_continuo.EventControl.Bits.{bit, to_nat}
use recording_agent_continuo.EventControl.State.{
  CameraFunction, record_camera, pause_camera, set_frame_rate, other_function, DigitalInput,
  EventInput, CameraConfig, Configuration, camera_timer, Timers, video_event_info,
  camera_record_pause, camera_frame_rate, Control, emit,
}

-- The state of an input in the register; 99 for a number that is no input.
unfoldable pub trigger_value : ℕ → (event : ℕ) → ℕ
trigger_value reg event =
    if event == 1
    then to_nat (bit 0 reg)
    else if event == 2
    then to_nat (bit 1 reg)
    else if event == 3
    then to_nat (bit 2 reg)
    else 99

-- The entries for a camera, up to the first that matches.
unfoldable pub find_event : (event trigger : ℕ) → List EventInput → Option EventInput
find_event event trigger [] = none
find_event event trigger (e ∷ es) =
    let rest = find_event event trigger es in
    if e.digital_input_num == event && (e.event_input_state == trigger) then some e else rest

module _ {T : Type 0} where
  -- The first digital input with the number of the event decides.
  unfoldable pub check_digital_events :
      List DigitalInput → (event trigger : ℕ) → Control T → Control T
  check_digital_events [] event trigger s = s
  check_digital_events (d ∷ ds) event trigger s =
      let rest = check_digital_events ds event trigger s in
      if d.number == event
      then (if d.recording then emit (video_event_info d.name trigger) s else s)
      else rest

  unfoldable pub perform_function :
      CameraFunction → CameraConfig → EventInput → ℕ → Control T → Control T
  perform_function record_camera camera e i s =
      record (emit (camera_record_pause camera.name true) s) {
        camera_commanded_pause = set_at i false s.camera_commanded_pause;
      }
  perform_function pause_camera camera e i s =
      record (emit (camera_record_pause camera.name false) s) {
        camera_commanded_pause = set_at i true s.camera_commanded_pause;
      }
  perform_function set_frame_rate camera e i s =
      record (emit (camera_frame_rate camera.name e.frame_rate_during_event) s) {
        camera_frame_rates = set_at i e.frame_rate_during_event s.camera_frame_rates;
      }
  perform_function other_function camera e i s = s

  unfoldable pub perform_discrete_input_action :
      CameraConfig → EventInput → ℕ → Control T → Control T
  unfolding perform_function
  perform_discrete_input_action camera e i s = perform_function e.camera_function camera e i s

  -- The action of an entry that is kept for the timer of camera i.
  unfoldable pub perform_slot : Option (EventInput × CameraConfig) → ℕ → Control T → Control T
  perform_slot none i s = s
  perform_slot (some (e, camera)) i s = perform_discrete_input_action camera e i s

  module _ (ptc : Timers T) where
    open ptc use {is_active, start, stop}

    -- The matched entry is kept for the timer; its action waits for the timer, or is done now. A
    -- timer that runs for the camera is stopped first.
    unfoldable pub schedule : ℕ → CameraConfig → EventInput → Control T → Control T
    schedule i camera e s =
        let saved = record s { slots = set_at i (some (e, camera)) s.slots } in
        let halted =
          if is_active (camera_timer i) s.timers
          then record saved { timers = stop (camera_timer i) s.timers }
          else saved in
        if ltb 0 e.action_delay
        then record halted { timers = start (camera_timer i) (e.action_delay * 1000) halted.timers }
        else perform_discrete_input_action camera e i halted

    unfoldable pub process_camera : (event trigger i : ℕ) → CameraConfig → Control T → Control T
    unfolding schedule find_event
    process_camera event trigger i camera s =
        if camera.camera_control_by_event
        then elim (find_event event trigger camera.event_for_controlled_camera) [
          | none ↦ s
          | some e ↦ schedule i camera e s
        ]
        else s

    unfoldable pub process_cameras :
        (event trigger i : ℕ) → List CameraConfig → Control T → Control T
    process_cameras event trigger i [] s = s
    process_cameras event trigger i (c ∷ cs) s =
        process_cameras event trigger (suc i) cs (process_camera event trigger i c s)

    unfoldable pub process_event : Configuration → ℕ → Control T → Control T
    unfolding process_cameras check_digital_events
    process_event config event s =
        let trigger = trigger_value s.discrete_fpga_reg event in
        process_cameras event trigger 0 config.cameras
          (check_digital_events config.digital_inputs event trigger s)

    unfoldable pub process_discrete_input_data : Configuration → List ℕ → Control T → Control T
    process_discrete_input_data config [] s = s
    process_discrete_input_data config (event ∷ events) s =
        process_discrete_input_data config events (process_event config event s)

    -- The handler for the timer of camera i, whose slot was filled when the timer was started.
    unfoldable pub discrete_input_timer_event_handler : ℕ → Control T → Control T
    discrete_input_timer_event_handler i s =
        perform_slot (s.slots i) i (record s { timers = stop (camera_timer i) s.timers })
