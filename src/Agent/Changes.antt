-- ===== src/Agent/Changes.antt =====
-- The count of recorded cameras over the messages for a camera's settings.
use recording_agent_continuo.Prelude.{
  ℕ, zero, suc, ◌<◌, ◌==◌, ltb, ◌≡◌, refl, Bool, true, false, not, ◌&&◌, Option, none, some,
  if◌then◌else◌, if_both, List, [], ◌∷◌, arith,
}
use recording_agent_continuo.Prelude.Text.{Text}
use recording_agent_continuo.Agent.State.{
  Camera, ApplicationError, application_error, camera_name_mismatch, set_track_age, Agent, World,
  emit, put_camera, raconf_find_camera,
}
use recording_agent_continuo.Agent.Record.{send_camera_status}
use recording_agent_continuo.Agent.Commands.{handle_camera_record_pause, reset_camera_stream}
use recording_agent_continuo.Agent.Settings.{
  SettingsMessage, error_handle_failure, CameraSettings, config_errors, send_errors,
  process_config_error, microseconds, settings_mode, set_age, set_camera, msgcb_camera_settings,
  change_setting, send_camera_statuses, msgcb_request_camera_status,
}
use recording_agent_continuo.Agent.Workers.{weight, IsCounted, HasPids, put-IsCounted}
use recording_agent_continuo.Agent.Counts.{find_camera-lt, handle-IsCounted}

send_errors-IsCounted :
    (n : ℕ) (es : List ApplicationError) (s : Agent)
    → IsCounted n s
    → IsCounted n (send_errors es s)
unfolding send_errors
send_errors-IsCounted n [] s h = h
send_errors-IsCounted n (e ∷ es) s h = send_errors-IsCounted n es (emit (application_error e) s) h

process_config_error-IsCounted :
    (n : ℕ) (m : SettingsMessage) (s : Agent)
    → IsCounted n s
    → IsCounted n (process_config_error error_handle_failure m s)
unfolding process_config_error
process_config_error-IsCounted n m s =
    send_errors-IsCounted n (config_errors error_handle_failure m) s

pub reset-IsCounted :
    (n : ℕ) (at_pause at_start : World) (name : Text) (s : Agent)
    → HasPids at_pause
    → HasPids at_start
    → IsCounted n s
    → IsCounted n (reset_camera_stream at_pause at_start name s).1
unfolding reset_camera_stream
reset-IsCounted n at_pause at_start name s pids pids' h =
    let paused = handle_camera_record_pause at_pause name false s in
    let counted = handle-IsCounted n at_pause pids name false s h in
    if_both (λ r. IsCounted n r.1) paused.0 (handle_camera_record_pause at_start name true paused.1)
      (false, paused.1) (handle-IsCounted n at_start pids' name true paused.1 counted) counted

change-IsCounted :
    (n : ℕ) (w w' : World) (m : SettingsMessage) (change : Camera → Camera) (name : Text)
    (found : Option ℕ) (s : Agent)
    → HasPids w
    → HasPids w'
    → ((c : Camera) → weight (change c) ≡ weight c)
    → ((i : ℕ) → found ≡ some i → i < n)
    → IsCounted n s
    → IsCounted n (change_setting w w' m change name found s)
unfolding change_setting
change-IsCounted n w w' m change name none s pids pids' same lt h = h
change-IsCounted n w w' m change name (some i) s pids pids' same lt h =
    let c = change (s.cameras i) in
    let changed = put_camera i c s in
    let reset = reset_camera_stream w w' name changed in
    let counted =
      reset-IsCounted n w w' name changed pids pids'
        (put-IsCounted n i (lt i refl) c s (same (s.cameras i)) h) in
    if_both (IsCounted n) reset.0 reset.1 (process_config_error error_handle_failure m reset.1)
      counted (process_config_error-IsCounted n m reset.1 counted)

pub setting-IsCounted :
    (n : ℕ) (w w' : World) (is_version : Bool) (m : SettingsMessage) (change : Camera → Camera)
    (name : Text) (s : Agent)
    → HasPids w
    → HasPids w'
    → ((c : Camera) → weight (change c) ≡ weight c)
    → IsCounted n s
    → IsCounted n (
        if is_version then change_setting w w' m change name (raconf_find_camera w name s) s else s)
setting-IsCounted n w w' is_version m change name s pids pids' same h =
    let found = raconf_find_camera w name s in
    if_both (IsCounted n) is_version (change_setting w w' m change name found s) s
      (change-IsCounted n w w' m change name found s pids pids' same
        (λ i e. omega (arith, find_camera-lt w name s i e, h.0)) h)
      h

set_age-IsCounted :
    (n i : ℕ) (m : CameraSettings) (s : Agent) → i < n → IsCounted n s → IsCounted n (set_age i m s)
unfolding set_age
set_age-IsCounted n i m s lt h =
    let c = record (s.cameras i) { runtime_max_age = m.grooming_duration } in
    if_both (IsCounted n)
      (ltb 2 m.version && not ((s.cameras i).runtime_max_age == m.grooming_duration))
      (emit (set_track_age i (microseconds m.grooming_duration)) (put_camera i c s)) s
      (put-IsCounted n i lt c s refl h) h

set_camera-IsCounted :
    (n i : ℕ) (m : CameraSettings) (s : Agent)
    → i < n
    → IsCounted n s
    → IsCounted n (set_camera i m s)
unfolding set_camera
set_camera-IsCounted n i m s lt h =
    let c = record (s.cameras i) {
      resolution = m.resolution;
      compression = m.compression;
      frame_rate = m.frame_rate;
    } in
    let aged = set_age i m (put_camera i c s) in
    let mode = settings_mode m (aged.cameras i).recording_mode_flags in
    put-IsCounted n i lt (record (aged.cameras i) { recording_mode_flags = mode }) aged refl
      (set_age-IsCounted n i m (put_camera i c s) lt (put-IsCounted n i lt c s refl h))

found_settings-IsCounted :
    (n : ℕ) (m : CameraSettings) (found : Option ℕ) (s : Agent)
    → ((i : ℕ) → found ≡ some i → i < n)
    → IsCounted n s
    → IsCounted n (elim found [
      | none ↦ emit (application_error camera_name_mismatch) s
      | some i ↦ set_camera i m s
    ])
found_settings-IsCounted n m none s lt h = h
found_settings-IsCounted n m (some i) s lt h = set_camera-IsCounted n i m s (lt i refl) h

pub settings-IsCounted :
    (n : ℕ) (w : World) (expected : ℕ) (m : CameraSettings) (s : Agent)
    → IsCounted n s
    → IsCounted n (msgcb_camera_settings w expected m s)
unfolding msgcb_camera_settings
settings-IsCounted n w expected m s h =
    if_both (IsCounted n) (m.version == expected)
      (elim (raconf_find_camera w m.camera s) [
        | none ↦ emit (application_error camera_name_mismatch) s
        | some i ↦ set_camera i m s
      ])
      s
      (found_settings-IsCounted n m (raconf_find_camera w m.camera s) s
        (λ i e. omega (arith, find_camera-lt w m.camera s i e, h.0)) h)
      h

send_statuses-IsCounted :
    (n count : ℕ) (s : Agent) → IsCounted n s → IsCounted n (send_camera_statuses count s)
unfolding send_camera_statuses send_camera_status
send_statuses-IsCounted n zero s h = h
send_statuses-IsCounted n (suc count) s h = send_statuses-IsCounted n count s h

pub request-IsCounted :
    (n : ℕ) (is_version : Bool) (s : Agent)
    → IsCounted n s
    → IsCounted n (msgcb_request_camera_status is_version s)
unfolding msgcb_request_camera_status
request-IsCounted n is_version s h =
    if_both (IsCounted n) is_version (send_camera_statuses s.n_cameras s) s
      (send_statuses-IsCounted n s.n_cameras s h) h
