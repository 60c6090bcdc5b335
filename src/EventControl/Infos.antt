-- ===== src/EventControl/Infos.antt =====
-- The messages about the discrete inputs that processing them sends.
use recording_agent_continuo.Prelude.{
  ℕ, suc, ◌==◌, ltb, ◌≡◌, refl, sym, ap, ◌∙◌, inl, inr, ap₂, Bool, if◌then◌else◌, List, [], ◌∷◌,
  ◌++◌, append-nil, append_assoc, Bool-cases, Option-cases,
}
use recording_agent_continuo.EventControl.State.{
  CameraFunction, record_camera, pause_camera, set_frame_rate, other_function, DigitalInput,
  EventInput, CameraConfig, Configuration, camera_timer, Timers, Effect, ready_status,
  shutdown_power_loss, shutdown_removable_ssd, video_event_info, camera_record_pause,
  camera_frame_rate, mount_chm, umount_chm, mount_removable_thread, mount_removable_partitions,
  removable_power, own_footages, own_downloads, Control,
}
use recording_agent_continuo.EventControl.Discrete.{
  trigger_value, find_event, check_digital_events, perform_function, perform_discrete_input_action,
  schedule, process_camera, process_cameras, process_event, process_discrete_input_data,
}

-- The messages about inputs among the effects.
abbrev pub infos : List Effect → List Effect
infos [] = []
infos (video_event_info name value ∷ es) = video_event_info name value ∷ infos es
infos (e ∷ es) = infos es

infos-append : (es fs : List Effect) → infos (es ++ fs) ≡ infos es ++ infos fs
infos-append [] fs = refl
infos-append (ready_status r ∷ es) fs = infos-append es fs
infos-append (shutdown_power_loss ∷ es) fs = infos-append es fs
infos-append (shutdown_removable_ssd ∷ es) fs = infos-append es fs
infos-append (video_event_info n v ∷ es) fs =
    ap (λ r. video_event_info n v ∷ r) (infos-append es fs)
infos-append (camera_record_pause n r ∷ es) fs = infos-append es fs
infos-append (camera_frame_rate n r ∷ es) fs = infos-append es fs
infos-append (mount_chm ∷ es) fs = infos-append es fs
infos-append (umount_chm ∷ es) fs = infos-append es fs
infos-append (mount_removable_thread ∷ es) fs = infos-append es fs
infos-append (mount_removable_partitions ∷ es) fs = infos-append es fs
infos-append (removable_power p ∷ es) fs = infos-append es fs
infos-append (own_footages ∷ es) fs = infos-append es fs
infos-append (own_downloads ∷ es) fs = infos-append es fs

-- The message for an input with a value: of the first entry with its number, if that is recorded.
abbrev pub info_of : List DigitalInput → (event trigger : ℕ) → List Effect
info_of [] event trigger = []
info_of (d ∷ ds) event trigger =
    if d.number == event
    then (if d.recording then video_event_info d.name trigger ∷ [] else [])
    else info_of ds event trigger

abbrev pub infos_of : List DigitalInput → (reg : ℕ) → (events : List ℕ) → List Effect
infos_of ds reg [] = []
infos_of ds reg (e ∷ es) = info_of ds e (trigger_value reg e) ++ infos_of ds reg es

-- What the watch of the power keeps.
abbrev pub power_state : {T : Type 0} → Control T → ℕ × Bool
power_state s = (s.power_down_check_shm_counter, s.power_going_down)

-- The same inputs, messages about them, and watch of the power.
abbrev pub IsQuiet : {T : Type 0} → Control T → Control T → Type 0
IsQuiet s t =
    (infos t.sent ≡ infos s.sent)
    × (t.discrete_fpga_reg ≡ s.discrete_fpga_reg)
    × (t.prev_discrete_fpga_reg ≡ s.prev_discrete_fpga_reg)
    × (power_state t ≡ power_state s)

-- The same, with further messages about them.
abbrev pub Tells : {T : Type 0} → List Effect → Control T → Control T → Type 0
Tells es s t =
    (infos t.sent ≡ infos s.sent ++ es)
    × (t.discrete_fpga_reg ≡ s.discrete_fpga_reg)
    × (t.prev_discrete_fpga_reg ≡ s.prev_discrete_fpga_reg)
    × (power_state t ≡ power_state s)

module _ {T : Type 0} where
  perform-IsQuiet :
      (f : CameraFunction) (camera : CameraConfig) (e : EventInput) (i : ℕ) (s : Control T)
      → IsQuiet s (perform_function f camera e i s)
  unfolding perform_function
  perform-IsQuiet record_camera camera e i s =
      (infos-append s.sent _ ∙ append-nil _, refl, refl, refl)
  perform-IsQuiet pause_camera camera e i s =
      (infos-append s.sent _ ∙ append-nil _, refl, refl, refl)
  perform-IsQuiet set_frame_rate camera e i s =
      (infos-append s.sent _ ∙ append-nil _, refl, refl, refl)
  perform-IsQuiet other_function camera e i s = (refl, refl, refl, refl)

  check-Tells :
      (ds : List DigitalInput) (event trigger : ℕ) (s : Control T)
      → Tells (info_of ds event trigger) s (check_digital_events ds event trigger s)
  unfolding check_digital_events
  check-Tells [] event trigger s = (sym (append-nil _), refl, refl, refl)
  check-Tells (d ∷ ds) event trigger s = elim (Bool-cases (d.number == event)) [
    | inr h ↦ rw h (check-Tells ds event trigger s)
    | inl h ↦ elim (Bool-cases d.recording) [
      | inl g ↦ rw h (rw g (infos-append s.sent _, refl, refl, refl))
      | inr g ↦ rw h (rw g (sym (append-nil _), refl, refl, refl))
    ]
  ]

  module _ (ptc : Timers T) where
    schedule-IsQuiet :
        (i : ℕ) (camera : CameraConfig) (e : EventInput) (s : Control T)
        → IsQuiet s (schedule ptc i camera e s)
    unfolding schedule perform_discrete_input_action
    schedule-IsQuiet i camera e s = elim (Bool-cases (ltb 0 e.action_delay)) [
      | inl h ↦ elim (Bool-cases (ptc.is_active (camera_timer i) s.timers)) [
        | inl g ↦ rw h (rw g (refl, refl, refl, refl))
        | inr g ↦ rw h (rw g (refl, refl, refl, refl))
      ]
      | inr h ↦ elim (Bool-cases (ptc.is_active (camera_timer i) s.timers)) [
        | inl g ↦ rw h (rw g (perform-IsQuiet e.camera_function camera e i _))
        | inr g ↦ rw h (rw g (perform-IsQuiet e.camera_function camera e i _))
      ]
    ]

    process_camera-IsQuiet :
        (event trigger i : ℕ) (camera : CameraConfig) (s : Control T)
        → IsQuiet s (process_camera ptc event trigger i camera s)
    unfolding process_camera
    process_camera-IsQuiet event trigger i camera s =
        elim (Bool-cases camera.camera_control_by_event) [
          | inr h ↦ rw h (refl, refl, refl, refl)
          | inl h ↦
              elim (Option-cases (find_event event trigger camera.event_for_controlled_camera)) [
                | inl g ↦ rw h (rw g (refl, refl, refl, refl))
                | inr (e, g) ↦ rw h (rw g (schedule-IsQuiet i camera e s))
              ]
        ]

    process_cameras-IsQuiet :
        (event trigger i : ℕ) (cs : List CameraConfig) (s : Control T)
        → IsQuiet s (process_cameras ptc event trigger i cs s)
    unfolding process_cameras
    process_cameras-IsQuiet event trigger i [] s = (refl, refl, refl, refl)
    process_cameras-IsQuiet event trigger i (c ∷ cs) s =
        let one = process_camera-IsQuiet event trigger i c s in
        let rest =
          process_cameras-IsQuiet event trigger (suc i) cs
            (process_camera ptc event trigger i c s) in
        (rest.0 ∙ one.0, rest.1 ∙ one.1, rest.2 ∙ one.2, rest.3 ∙ one.3)

    module _ (config : Configuration) where
      process_event-Tells :
          (event : ℕ) (s : Control T)
          → Tells
              (info_of config.digital_inputs event (trigger_value s.discrete_fpga_reg event))
              s
              (process_event ptc config event s)
      unfolding process_event
      process_event-Tells event s =
          let trigger = trigger_value s.discrete_fpga_reg event in
          let told = check-Tells config.digital_inputs event trigger s in
          let quiet =
            process_cameras-IsQuiet event trigger 0 config.cameras
              (check_digital_events config.digital_inputs event trigger s) in
          (quiet.0 ∙ told.0, quiet.1 ∙ told.1, quiet.2 ∙ told.2, quiet.3 ∙ told.3)

      pub process_data-Tells :
          (events : List ℕ) (s : Control T)
          → Tells
              (infos_of config.digital_inputs s.discrete_fpga_reg events)
              s
              (process_discrete_input_data ptc config events s)
      unfolding process_discrete_input_data
      process_data-Tells [] s = (sym (append-nil _), refl, refl, refl)
      process_data-Tells (e ∷ es) s =
          let told = process_event-Tells e s in
          let rest = process_data-Tells es (process_event ptc config e s) in
          (
            rest.0
                ∙ ap₂ ◌++◌ told.0 (ap (λ r. infos_of config.digital_inputs r es) told.1)
                ∙ append_assoc (infos s.sent)
                    (info_of config.digital_inputs e (trigger_value s.discrete_fpga_reg e))
                    (infos_of config.digital_inputs s.discrete_fpga_reg es),
            rest.1 ∙ told.1,
            rest.2 ∙ told.2,
            rest.3 ∙ told.3,
          )
