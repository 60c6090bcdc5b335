-- ===== src/Agent/Persists.antt =====
-- A shutdown of all drives stays in process over every message and every pass.
use recording_agent_continuo.Prelude.{
  ℕ, zero, suc, ◌-◌, ltb, Bool, true, false, ◌≡◌, refl, ◌∙◌, Option, none, some, Option-cases, inl,
  inr, if◌then◌else◌, if_both, List, [], ◌∷◌,
}
use recording_agent_continuo.Prelude.Text.{Text}
use recording_agent_continuo.Agent.State.{
  Camera, Agent, World, ApplicationError, application_error, emit, put_camera, raconf_find_camera,
}
use recording_agent_continuo.Agent.Record.{
  send_recording_status, send_camera_status, handle_metarec,
}
use recording_agent_continuo.Agent.Commands.{
  handle_camera_record_pause, reset_camera_stream, msgcb_ready_status, Shutdown, shutdown_chm,
  shutdown_removable_ssd, shutdown_all, invalid_function, shut_cameras, shut_down,
  msgcb_shutdown_rec, msgcb_camera_record_pause,
}
use recording_agent_continuo.Agent.Settings.{
  SettingsMessage, error_handle_failure, CameraSettings, config_errors, send_errors,
  process_config_error, set_age, set_camera, msgcb_camera_settings, change_setting,
  send_camera_statuses, msgcb_request_camera_status, msgcb_camera_resolution,
  msgcb_camera_compression, msgcb_camera_frame_rate, camera_resolution, camera_compression,
  camera_frame_rate,
}
use recording_agent_continuo.Agent.Supervise.{
  set_camon_ttl, go_offline, go_online, note_online, reflect_camera_online_status, supervise_camera,
  supervise_cameras, supervise,
}
use recording_agent_continuo.Agent.History.{
  Command, ready_status, shutdown, camera_record_pause, reset, settings, resolution, compression,
  frame_rate, request_camera_status, report, watch, obey, obey_all,
}
use recording_agent_continuo.Agent.Down.{
  down, down-if, if_same, down-both, metarec-down, monitor-down, just_stopped-down, stop-down,
  start-down, handle-down,
}

reset-down :
    (w w' : World) (name : Text) (s : Agent) → down (reset_camera_stream w w' name s).1 ≡ down s
unfolding reset_camera_stream
reset-down w w' name s =
    let paused = handle_camera_record_pause w name false s in
    down-both paused.0 (handle_camera_record_pause w' name true paused.1) (false, paused.1) s
      (handle-down w' name true paused.1 ∙ handle-down w name false s) (handle-down w name false s)

errors-down : (es : List ApplicationError) (s : Agent) → down (send_errors es s) ≡ down s
unfolding send_errors
errors-down [] s = refl
errors-down (e ∷ es) s = errors-down es (emit (application_error e) s)

change-down :
    (w w' : World) (m : SettingsMessage) (change : Camera → Camera) (name : Text) (o : Option ℕ)
    (s : Agent)
    → down (change_setting w w' m change name o s) ≡ down s
unfolding change_setting process_config_error
change-down w w' m change name none s = refl
change-down w w' m change name (some i) s =
    let changed = put_camera i (change (s.cameras i)) s in
    let reset = reset_camera_stream w w' name changed in
    let kept = reset-down w w' name changed in
    if_both (λ r. down r ≡ down s) reset.0 reset.1
      (send_errors (config_errors error_handle_failure m) reset.1) kept
      (errors-down (config_errors error_handle_failure m) reset.1 ∙ kept)

-- A handler of a message that changes a setting.
setting-down :
    (w w' : World) (is_version : Bool) (m : SettingsMessage) (change : Camera → Camera)
    (name : Text) (s : Agent)
    → down (
        if is_version then change_setting w w' m change name (raconf_find_camera w name s) s else s)
      ≡ down s
setting-down w w' is_version m change name s =
    if_both (λ r. down r ≡ down s) is_version
      (change_setting w w' m change name (raconf_find_camera w name s) s) s
      (change-down w w' m change name (raconf_find_camera w name s) s) refl

settings-down :
    (w : World) (expected : ℕ) (m : CameraSettings) (s : Agent)
    → down (msgcb_camera_settings w expected m s) ≡ down s
unfolding msgcb_camera_settings set_camera set_age
settings-down w expected m s = elim (Option-cases (raconf_find_camera w m.camera s)) [
  | inl missing ↦ rw missing (simp (down-if, if_same))
  | inr (i, found) ↦ rw found (simp (down-if, if_same))
]

statuses-down : (n : ℕ) (s : Agent) → down (send_camera_statuses n s) ≡ down s
unfolding send_camera_statuses send_camera_status
statuses-down zero s = refl
statuses-down (suc n) s = statuses-down n s

request-down : (v : Bool) (s : Agent) → down (msgcb_request_camera_status v s) ≡ down s
unfolding msgcb_request_camera_status
request-down v s =
    if_both (λ r. down r ≡ down s) v (send_camera_statuses s.n_cameras s) s
      (statuses-down s.n_cameras s) refl

ready_status-down : (v chm ssd : Bool) (s : Agent) → down (msgcb_ready_status v chm ssd s) ≡ down s
unfolding msgcb_ready_status send_recording_status
ready_status-down true chm ssd s = refl
ready_status-down false chm ssd s = refl

shut_down-down : (f : Shutdown) (s : Agent) → down s ≡ true → down (shut_down f s) ≡ true
unfolding shut_down shut_cameras
shut_down-down shutdown_chm s h = h
shut_down-down shutdown_removable_ssd s h = h
shut_down-down shutdown_all s h = refl
shut_down-down invalid_function s h = h

module _ (w : World) where
  offline-down : (i : ℕ) (s : Agent) → down (go_offline w i s) ≡ down s
  unfolding go_offline
  offline-down i s = simp (down-if, just_stopped-down, stop-down, if_same)

  online-down : (i : ℕ) (s : Agent) → down (go_online w i s) ≡ down s
  unfolding go_online
  online-down i s = simp (down-if, start-down, if_same)

  note-down : (i : ℕ) (v : Bool) (s : Agent) → down (note_online w i v s) ≡ down s
  unfolding note_online send_camera_status
  note-down i v s = refl

  reflect-down :
      (i : ℕ) (v : Bool) (s : Agent) → down (reflect_camera_online_status w i v s).1 ≡ down s
  unfolding reflect_camera_online_status
  reflect-down i true s =
      let seen = set_camon_ttl i w.camon_ttl_start s in
      down-both (s.cameras i).is_online (false, seen)
        (true, note_online w i true (go_online w i seen)) s refl
        (note-down i true (go_online w i seen) ∙ online-down i seen)
  reflect-down i false s =
      let waits = ltb 1 (s.camon_ttl i) in
      let waiting = set_camon_ttl i (s.camon_ttl i - 1) s in
      let gone = note_online w i false (go_offline w i s) in
      down-both (s.cameras i).is_online (if waits then (true, waiting) else (false, gone))
        (false, s) s
        (down-both waits (true, waiting) (false, gone) s refl
          (note-down i false (go_offline w i s) ∙ offline-down i s))
        refl

  camera-down : (i : ℕ) (s : Agent) → down (supervise_camera w i s) ≡ down s
  unfolding supervise_camera
  camera-down i s = simp (down-if, start-down, just_stopped-down, if_same)

  cameras-down : (n : ℕ) (s : Agent) → down (supervise_cameras w n s) ≡ down s
  unfolding supervise_cameras
  cameras-down zero s = refl
  cameras-down (suc n) s = camera-down n (supervise_cameras w n s) ∙ cameras-down n s

  supervise-down : (s : Agent) → down (supervise w s) ≡ down s
  unfolding supervise
  supervise-down s =
      let seen = supervise_cameras w s.n_cameras s in
      monitor-down w (handle_metarec w seen) ∙ metarec-down w seen ∙ cameras-down s.n_cameras s

obey-down : (w : World) (c : Command) (s : Agent) → down s ≡ true → down (obey w c s) ≡ true
unfolding obey msgcb_shutdown_rec msgcb_camera_record_pause msgcb_camera_resolution
    msgcb_camera_compression msgcb_camera_frame_rate
obey-down w (ready_status v chm ssd) s h = ready_status-down v chm ssd s ∙ h
obey-down w (shutdown v f) s h =
    if_both (λ r. down r ≡ true) v (shut_down f s) s (shut_down-down f s h) h
obey-down w (camera_record_pause v name is_record) s h =
    if_both (λ r. down r ≡ true) v (handle_camera_record_pause w name is_record s).1 s
      (handle-down w name is_record s ∙ h) h
obey-down w (reset at_start name) s h = reset-down w at_start name s ∙ h
obey-down w (settings expected m) s h = settings-down w expected m s ∙ h
obey-down w (resolution w' v name value) s h =
    setting-down w w' v camera_resolution (λ c. record c { resolution = value }) name s ∙ h
obey-down w (compression w' v name value) s h =
    setting-down w w' v camera_compression (λ c. record c { compression = value }) name s ∙ h
obey-down w (frame_rate w' v name value) s h =
    setting-down w w' v camera_frame_rate (λ c. record c { frame_rate = value }) name s ∙ h
obey-down w (request_camera_status v) s h = request-down v s ∙ h
obey-down w (report i is_alive) s h =
    if_both (λ r. down r ≡ true) (ltb i s.n_cameras) (reflect_camera_online_status w i is_alive s).1
      s (reflect-down w i is_alive s ∙ h) h
obey-down w watch s h = supervise-down w s ∙ h

pub obey_all-down :
    (cs : List (World × Command)) (s : Agent) → down s ≡ true → down (obey_all cs s) ≡ true
unfolding obey_all
obey_all-down [] s h = h
obey_all-down ((w, c) ∷ cs) s h = obey_all-down cs (obey w c s) (obey-down w c s h)
