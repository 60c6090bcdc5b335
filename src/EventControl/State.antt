-- ===== src/EventControl/State.antt =====
-- The state of event control, what it reads of its surroundings, and what it sends and starts.
use recording_agent_continuo.Prelude.{ℕ, Bool, true, false, Option, List, [], ◌∷◌, ◌++◌}
use recording_agent_continuo.Prelude.Text.{Text}

pub data DriveFlag : Type 0 where
  ready not_ready : DriveFlag

abbrev pub is_ready : DriveFlag → Bool
is_ready ready = true
is_ready not_ready = false

pub data DoorLock : Type 0 where
  door_unknown door_locked door_unlocked : DoorLock

-- The fields of the configuration that event control reads. What a camera does on an event is one
-- of three actions, or a value that the code passes over.
pub data CameraFunction : Type 0 where
  record_camera pause_camera set_frame_rate other_function : CameraFunction

pub record DigitalInput : Type 0 where
  pub number : ℕ
  pub name : Text
  pub recording : Bool

pub record EventInput : Type 0 where
  pub digital_input_num : ℕ
  pub event_input_state : ℕ
  pub action_delay : ℕ
  pub camera_function : CameraFunction
  pub frame_rate_during_event : ℕ

pub record CameraConfig : Type 0 where
  pub name : Text
  pub camera_control_by_event : Bool
  pub event_for_controlled_camera : List EventInput

pub record Configuration : Type 0 where
  pub digital_inputs : List DigitalInput
  pub cameras : List CameraConfig

pub record ReadyStatus : Type 0 where
  pub chm_ready : Bool
  pub removable_ssd_ready : Bool

-- The timers that event control starts or stops: three of the drives, and one for each camera.
pub data Timer : Type 0 where
  video_shutdown_timer holdoff_mount_timer mount_removable_ssd_timer : Timer
  camera_timer : ℕ → Timer

-- The timer library, over a state of its own: ptc_timer_active, ptc_timer_start with a time in
-- milliseconds, and ptc_timer_stop.
pub record Timers (T : Type 0) : Type 0 where
  pub is_active : Timer → T → Bool
  pub start : Timer → ℕ → T → T
  pub stop : Timer → T → T

-- The messages sent and the actions on drives.
pub data Effect : Type 0 where
  ready_status : ReadyStatus → Effect
  shutdown_power_loss : Effect
  shutdown_removable_ssd : Effect
  video_event_info : (name : Text) → (value : ℕ) → Effect
  camera_record_pause : (name : Text) → (is_record : Bool) → Effect
  camera_frame_rate : (name : Text) → (rate : ℕ) → Effect
  mount_chm : Effect
  umount_chm : Effect
  mount_removable_thread : Effect
  mount_removable_partitions : Effect
  removable_power : (is_on : Bool) → Effect
  own_footages : Effect
  own_downloads : Effect

-- The fields of pVideoRecInfo that event control uses, and the static variables of the file. The
-- variable chm_ready has no value where the source has -1.
pub record Control (T : Type 0) : Type 0 where
  pub vra_shutdown_in_progress : Bool
  pub drive_status_requested : Bool
  pub drive_ready_status : ReadyStatus
  pub shutdown_started : Bool
  pub chm_ready_flag : DriveFlag
  pub removable_ready : DriveFlag
  pub rec_status_on_chm : Bool
  pub is_digital_config_sent : Bool
  pub mount_process_complete : Bool
  pub power_down_check_shm_counter : ℕ
  pub power_going_down : Bool
  pub check_counter : ℕ
  pub chm_ready : Option DriveFlag
  pub prev_lock_status : DoorLock
  pub check_mount : Bool
  pub startup : Bool
  pub discrete_fpga_reg : ℕ
  pub prev_discrete_fpga_reg : ℕ
  pub slots : ℕ → Option (EventInput × CameraConfig)
  pub camera_commanded_pause : ℕ → Bool
  pub camera_frame_rates : ℕ → ℕ
  pub timers : T
  pub sent : List Effect

-- An effect, behind those so far.
abbrev pub emit : {T : Type 0} → Effect → Control T → Control T
emit e s = record s { sent = s.sent ++ (e ∷ []) }

-- The ready status that is sent in a later pass.
abbrev pub request_drive_status : {T : Type 0} → Control T → Control T
request_drive_status s = record s {
  drive_ready_status = record {
    chm_ready = is_ready s.chm_ready_flag;
    removable_ssd_ready = is_ready s.removable_ready;
  };
  drive_status_requested = true;
}
