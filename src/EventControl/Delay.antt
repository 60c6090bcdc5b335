-- ===== src/EventControl/Delay.antt =====
-- Actions on cameras that wait for their timer (process_discrete_input_data and
-- discreteInputTimerEventHandler of host_utils/ra_video_rec/event_control/event_control.c).
use recording_agent_continuo.Prelude.{
  ℕ, ◌<◌, ◌≡◌, refl, sym, subst, ap, ◌∙◌, true, false, some, List, [], ◌∷◌, ◌++◌, set_at,
  set_at_same, lt→ltb, Bool-cases, inl, inr, All,
}
use recording_agent_continuo.EventControl.State.{
  CameraFunction, record_camera, pause_camera, set_frame_rate, other_function, EventInput,
  CameraConfig, Timers, camera_timer, Control, camera_record_pause, camera_frame_rate,
}
use recording_agent_continuo.EventControl.Discrete.{
  perform_function, perform_discrete_input_action, schedule, perform_slot,
  discrete_input_timer_event_handler,
}

-- The same messages, pauses and frame rates.
abbrev pub IsAlike : {T : Type 0} → Control T → Control T → Type 0
IsAlike s t =
    (t.sent ≡ s.sent)
    × (t.camera_commanded_pause ≡ s.camera_commanded_pause)
    × (t.camera_frame_rates ≡ s.camera_frame_rates)

abbrev IsDelayed : EventInput → Type 0
IsDelayed e = 0 < e.action_delay

module _ {T : Type 0} where
  perform_function-IsAlike :
      (f : CameraFunction) (camera : CameraConfig) (e : EventInput) (i : ℕ) (s t : Control T)
      → IsAlike s t
      → IsAlike (perform_function f camera e i s) (perform_function f camera e i t)
  unfolding perform_function
  perform_function-IsAlike record_camera camera e i s t h = (
    ap (λ es. es ++ (camera_record_pause camera.name true ∷ [])) h.0,
    ap (set_at i false) h.1,
    h.2,
  )
  perform_function-IsAlike pause_camera camera e i s t h = (
    ap (λ es. es ++ (camera_record_pause camera.name false ∷ [])) h.0,
    ap (set_at i true) h.1,
    h.2,
  )
  perform_function-IsAlike set_frame_rate camera e i s t h = (
    ap (λ es. es ++ (camera_frame_rate camera.name e.frame_rate_during_event ∷ [])) h.0,
    h.1,
    ap (set_at i e.frame_rate_during_event) h.2,
  )
  perform_function-IsAlike other_function camera e i s t h = h

  module _ (ptc : Timers T) (i : ℕ) (camera : CameraConfig) where
    -- A delayed action leaves all but its slot and its timer as they are.
    schedule-waits :
        (e : EventInput) (s : Control T)
        → IsDelayed e
        → IsAlike s (schedule ptc i camera e s)
          × ((schedule ptc i camera e s).slots i ≡ some (e, camera))
    unfolding schedule
    schedule-waits e s h =
        let late = lt→ltb 0 e.action_delay h in
        elim (Bool-cases (ptc.is_active (camera_timer i) s.timers)) [
          | inl g ↦ rw late (rw g ((refl, refl, refl), set_at_same i (some (e, camera)) s.slots))
          | inr g ↦ rw late (rw g ((refl, refl, refl), set_at_same i (some (e, camera)) s.slots))
        ]

    -- Entries that match one after another.
    unfoldable pub schedules : List EventInput → Control T → Control T
    schedules [] s = s
    schedules (e ∷ es) s = schedules es (schedule ptc i camera e s)

    schedules-IsAlike :
        (es : List EventInput) (s : Control T) → All IsDelayed es → IsAlike s (schedules es s)
    unfolding schedules
    schedules-IsAlike [] s h = (refl, refl, refl)
    schedules-IsAlike (e ∷ es) s h =
        let one = (schedule-waits e s h.0).0 in
        let rest = schedules-IsAlike es (schedule ptc i camera e s) h.1 in
        (rest.0 ∙ one.0, rest.1 ∙ one.1, rest.2 ∙ one.2)

    handler-acts :
        (e : EventInput) (s t : Control T)
        → IsAlike s t
        → t.slots i ≡ some (e, camera)
        → IsAlike
            (perform_discrete_input_action camera e i s)
            (discrete_input_timer_event_handler ptc i t)
    unfolding discrete_input_timer_event_handler perform_slot perform_discrete_input_action
    handler-acts e s t h slot =
        let stopped = record t { timers = ptc.stop (camera_timer i) t.timers } in
        subst (λ o. IsAlike (perform_discrete_input_action camera e i s) (perform_slot o i stopped))
          (sym slot) (perform_function-IsAlike e.camera_function camera e i s stopped h)

    -- After delayed entries that match one after another for a camera, its timer sends the
    -- messages, and leaves the pauses and the frame rates, of the action of the last entry alone,
    -- as if that were performed at the start.
    pub handler-last :
        (es : List EventInput) (e : EventInput) (s : Control T)
        → All IsDelayed es
        → IsDelayed e
        → IsAlike
            (perform_discrete_input_action camera e i s)
            (discrete_input_timer_event_handler ptc i (schedule ptc i camera e (schedules es s)))
    handler-last es e s hs h =
        let before = schedules-IsAlike es s hs in
        let last = schedule-waits e (schedules es s) h in
        handler-acts e s (schedule ptc i camera e (schedules es s))
          (last.0.0 ∙ before.0, last.0.1 ∙ before.1, last.0.2 ∙ before.2) last.1
