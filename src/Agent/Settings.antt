-- ===== src/Agent/Settings.antt =====
-- The messages that change a camera's settings: msgcb_camera_settings, msgcb_camera_resolution,
-- msgcb_camera_compression, msgcb_camera_frame_rate, the errors that they report
-- (processConfigError), and msgcb_request_camera_status. The structures that these handlers fill
-- and do not use are left out.
use recording_agent_continuo.Prelude.{
  ℕ, zero, suc, ◌*◌, ◌%◌, ◌^◌, ◌==◌, ltb, Bool, true, false, not, ◌&&◌, ◌||◌, Option, none, some,
  if◌then◌else◌, List, [], ◌∷◌, ◌++◌,
}
use recording_agent_continuo.Prelude.Text.{Text}
use recording_agent_continuo.Agent.State.{
  Flags, Camera, ApplicationError, no_error, camera_offline, camera_name_mismatch,
  camera_settings_failure, set_resolution_failure, set_compression_failure, set_frame_rate_failure,
  camera_no_data_received, camera_unable_to_send_data, camera_setup_failure,
  camera_invalid_credentials, application_error, set_track_age, Agent, World, emit, put_camera,
  raconf_find_camera,
}
use recording_agent_continuo.Agent.Record.{clear_chm, send_camera_status, set_mode}
use recording_agent_continuo.Agent.Commands.{reset_camera_stream}

-- The errors of a camera's configuration, and the messages that they are reported for.
pub data ConfigError : Type 0 where
  error_none error_connection_failure error_malloc_failure error_https_not_supported
        error_received_timeout error_invalid_content error_null_content error_parse_failure
        error_handle_failure error_http_response error_authentication_failure error_other :
      ConfigError

pub data SettingsMessage : Type 0 where
  camera_settings camera_resolution camera_compression camera_frame_rate other_message :
      SettingsMessage

-- What could not be done, after the errors that are given.
unfoldable pub failure_after : List ApplicationError → SettingsMessage → List ApplicationError
failure_after cause camera_settings = cause ++ (camera_settings_failure ∷ [])
failure_after cause camera_resolution = cause ++ (set_resolution_failure ∷ [])
failure_after cause camera_compression = cause ++ (set_compression_failure ∷ [])
failure_after cause camera_frame_rate = cause ++ (set_frame_rate_failure ∷ [])
failure_after cause other_message = []

-- The errors that are reported, in order.
unfoldable pub config_errors : ConfigError → SettingsMessage → List ApplicationError
unfolding failure_after
config_errors error_none m = no_error ∷ []
config_errors error_connection_failure m = failure_after (camera_offline ∷ []) m
config_errors error_malloc_failure m = failure_after [] m
config_errors error_https_not_supported m = failure_after [] m
config_errors error_received_timeout m = failure_after (camera_no_data_received ∷ []) m
config_errors error_invalid_content m = failure_after (camera_unable_to_send_data ∷ []) m
config_errors error_null_content m = failure_after (camera_unable_to_send_data ∷ []) m
config_errors error_parse_failure m = failure_after (camera_unable_to_send_data ∷ []) m
config_errors error_handle_failure m = failure_after [] m
config_errors error_http_response m = failure_after (camera_setup_failure ∷ []) m
config_errors error_authentication_failure m = failure_after (camera_invalid_credentials ∷ []) m
config_errors error_other m = []

unfoldable pub send_errors : List ApplicationError → Agent → Agent
send_errors [] s = s
send_errors (e ∷ es) s = send_errors es (emit (application_error e) s)

unfoldable pub process_config_error : ConfigError → SettingsMessage → Agent → Agent
unfolding config_errors send_errors
process_config_error e m s = send_errors (config_errors e m) s

-- camera_settings_t
pub record CameraSettings : Type 0 where
  pub version : ℕ
  pub camera : Text
  pub resolution : ℕ
  pub compression : ℕ
  pub frame_rate : ℕ
  pub no_audio_recording : Bool
  pub no_chm_recording : Bool
  pub grooming_duration : ℕ

-- Hours in microseconds, of type uint64_t.
abbrev pub microseconds : ℕ → ℕ
microseconds hours = hours * 3600000000 % 2 ^ 64

-- The mode after a change of the audio setting.
unfoldable pub audio_mode : (no_audio : Bool) → Flags → Flags
audio_mode no_audio mode =
    if no_audio
    then record mode { chm_audio = false; ssd_audio = false }
    else if mode.chm_audio || mode.ssd_audio
    then mode
    else record mode { chm_audio = true; ssd_audio = true }

-- The mode after a change of the CHM setting.
unfoldable pub chm_mode : (no_chm : Bool) → Flags → Flags
chm_mode no_chm mode =
    if mode.chm_video
    then (if no_chm then clear_chm mode else mode)
    else if no_chm
    then mode
    else record mode { chm_video = true; chm_audio = true }

unfoldable pub settings_mode : CameraSettings → Flags → Flags
unfolding audio_mode chm_mode
settings_mode m mode = chm_mode m.no_chm_recording (audio_mode m.no_audio_recording mode)

-- The maximal age is set for the messages of later versions.
unfoldable pub set_age : ℕ → CameraSettings → Agent → Agent
set_age i m s =
    let c = s.cameras i in
    if ltb 2 m.version && not (c.runtime_max_age == m.grooming_duration)
    then emit (set_track_age i (microseconds m.grooming_duration))
        (put_camera i (record c { runtime_max_age = m.grooming_duration }) s)
    else s

unfoldable pub set_camera : ℕ → CameraSettings → Agent → Agent
unfolding settings_mode set_age
set_camera i m s =
    let c = s.cameras i in
    let set = record c {
      resolution = m.resolution;
      compression = m.compression;
      frame_rate = m.frame_rate;
    } in
    let aged = set_age i m (put_camera i set s) in
    set_mode i (settings_mode m (aged.cameras i).recording_mode_flags) aged

unfoldable pub msgcb_camera_settings :
    World → (expected_version : ℕ) → CameraSettings → Agent → Agent
unfolding set_camera
msgcb_camera_settings w expected m s =
    if m.version == expected
    then elim (raconf_find_camera w m.camera s) [
      | none ↦ emit (application_error camera_name_mismatch) s
      | some i ↦ set_camera i m s
    ]
    else s

-- A setting of a camera is changed by a handler of its own, which then resets the recording.
unfoldable pub change_setting :
    (at_pause at_start : World)
    → SettingsMessage
    → (Camera → Camera)
    → (name : Text) → Option ℕ
    → Agent
    → Agent
unfolding process_config_error
change_setting w w' m change name none s = s
change_setting w w' m change name (some i) s =
    let changed = put_camera i (change (s.cameras i)) s in
    let reset = reset_camera_stream w w' name changed in
    if reset.0 then reset.1 else process_config_error error_handle_failure m reset.1

module _ (w w' : World) (is_version : Bool) (name : Text) (value : ℕ) (s : Agent) where
  unfoldable pub msgcb_camera_resolution : Agent
  unfolding change_setting
  msgcb_camera_resolution =
      if is_version
      then change_setting w w' camera_resolution (λ c. record c { resolution = value }) name
          (raconf_find_camera w name s) s
      else s

  unfoldable pub msgcb_camera_compression : Agent
  unfolding change_setting
  msgcb_camera_compression =
      if is_version
      then change_setting w w' camera_compression (λ c. record c { compression = value }) name
          (raconf_find_camera w name s) s
      else s

  unfoldable pub msgcb_camera_frame_rate : Agent
  unfolding change_setting
  msgcb_camera_frame_rate =
      if is_version
      then change_setting w w' camera_frame_rate (λ c. record c { frame_rate = value }) name
          (raconf_find_camera w name s) s
      else s

unfoldable pub send_camera_statuses : (count : ℕ) → Agent → Agent
send_camera_statuses zero s = s
send_camera_statuses (suc n) s = send_camera_status n (send_camera_statuses n s)

unfoldable pub msgcb_request_camera_status : (is_version : Bool) → Agent → Agent
unfolding send_camera_statuses
msgcb_request_camera_status is_version s =
    if is_version then send_camera_statuses s.n_cameras s else s
