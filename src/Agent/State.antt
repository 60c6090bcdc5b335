-- ===== src/Agent/State.antt =====
-- The state of the remote agent for its cameras: media_info_t, camdef_t and the static variables of
-- reagent/src/ptc_intf.c, as far as recording uses them.
use recording_agent_continuo.Prelude.{
  ℕ, zero, suc, ◌==◌, ltb, length, Bool, false, ◌||◌, Option, none, some, if◌then◌else◌, List, [],
  ◌∷◌, ◌++◌, set_at,
}
use recording_agent_continuo.Prelude.Text.{Text}

-- The bits of recording_mode_flags and of recording_status_flags. No other bit is set.
pub record Flags : Type 0 where
  pub chm_video : Bool
  pub chm_audio : Bool
  pub ssd_video : Bool
  pub ssd_audio : Bool
  pub dont_use_chm : Bool

abbrev pub no_flags : Flags
no_flags = record {
  chm_video = false;
  chm_audio = false;
  ssd_video = false;
  ssd_audio = false;
  dont_use_chm = false;
}

-- A camera. do_audio is what str2bool says of its text, max_age the number that its text holds,
-- is_essential_set whether the text of is_essential is not empty. A worker_pid of 0 is no process.
pub record Camera : Type 0 where
  pub name : Text
  pub do_audio : Bool
  pub max_age : ℕ
  pub is_essential_set : Bool
  pub is_essential : Bool
  pub resolution : ℕ
  pub compression : ℕ
  pub frame_rate : ℕ
  pub runtime_max_age : ℕ
  pub is_assigned : Bool
  pub is_online : Bool
  pub commanded_paused : Bool
  pub recording_mode_flags : Flags
  pub recording_status_flags : Flags
  pub worker_pid : ℕ

-- The errors that are reported to the recorder.
pub data ApplicationError : Type 0 where
  no_error camera_offline camera_name_mismatch camera_settings_failure set_resolution_failure
        set_compression_failure set_frame_rate_failure camera_no_data_received
        camera_unable_to_send_data camera_setup_failure camera_invalid_credentials :
      ApplicationError

-- The messages sent and the calls that start and end processes.
pub data Effect : Type 0 where
  camera_status : (camera : ℕ) → (status : Flags) → Effect
  recording_status : (is_on_chm is_on_rssd : Bool) → Effect
  application_error : ApplicationError → Effect
  spawn_recorder : (camera : ℕ) → Effect
  spawn_metarec : Effect
  spawn_space_monitor : Effect
  set_track_age : (camera : ℕ) → (microseconds : ℕ) → Effect
  quit : (pid : ℕ) → Effect
  kill : (pid : ℕ) → Effect

-- MAX_CAMS cameras stand in an array, of which the first n_cameras are configured.
pub record Agent : Type 0 where
  pub cameras : ℕ → Camera
  pub n_cameras : ℕ
  pub is_chm_ready : Bool
  pub is_rssd_ready : Bool
  pub n_cams_recording : ℕ
  pub metarec_pid : ℕ
  pub space_monitor_pid : ℕ
  pub is_shutdown_in_process : Bool
  pub retry_count : ℕ → ℕ
  pub camon_ttl : ℕ → ℕ
  pub rp_ttl : ℕ → ℕ
  pub sent : List Effect

-- What waitpid with WNOHANG says of a process.
pub data Wait : Type 0 where
  no_change exited signaled stopped continued other_change no_process : Wait

-- The surroundings of a call: what spawning each kind of process returns (none: -1), what waitpid
-- says of a process, whether two names agree in their first characters (strncasecmp), and
-- CAMERA_NAME_LENGTH and CAMON_TTL, which are defined outside the repository.
pub record World : Type 0 where
  pub recorder : ℕ → Option ℕ
  pub metarec : Option ℕ
  pub space_monitor : Option ℕ
  pub wait : ℕ → Wait
  pub is_same : Text → Text → ℕ → Bool
  pub camera_name_length : ℕ
  pub camon_ttl_start : ℕ

abbrev pub emit : Effect → Agent → Agent
emit e s = record s { sent = s.sent ++ (e ∷ []) }

-- A camera replaced.
abbrev pub put_camera : ℕ → Camera → Agent → Agent
put_camera i c s = record s { cameras = set_at i c s.cameras }

unfoldable pub check_worker_status : Wait → ℕ
check_worker_status no_change = 0
check_worker_status exited = 1
check_worker_status signaled = 1
check_worker_status stopped = 1
check_worker_status continued = 0
check_worker_status other_change = 0
check_worker_status no_process = 1

abbrev pub is_dead : World → ℕ → Bool
is_dead w pid = ltb 0 (check_worker_status (w.wait pid))

-- The first index below `index + count` for which a test holds.
unfoldable pub find_first : (test : ℕ → Bool) → (count index : ℕ) → Option ℕ
find_first test zero index = none
find_first test (suc count) index =
    let rest = find_first test count (suc index) in if test index then some index else rest

-- A camera by the beginning of its name: it is compared as far as the name that is looked for goes.
unfoldable pub raconf_find_camera : World → Text → Agent → Option ℕ
raconf_find_camera w name s =
    if length name == 0
    then none
    else find_first (λ i. w.is_same name (s.cameras i).name (length name)) s.n_cameras 0

abbrev pub has_video : Flags → Bool
has_video f = f.chm_video || f.ssd_video

abbrev pub has_recording : Flags → Bool
has_recording f = f.chm_video || (f.chm_audio || (f.ssd_video || f.ssd_audio))

abbrev pub is_any : Flags → Bool
is_any f = has_recording f || f.dont_use_chm
