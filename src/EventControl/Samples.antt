-- ===== src/EventControl/Samples.antt =====
-- A host with two cameras and three inputs.
use recording_agent_continuo.Prelude.{set_at, ℕ, ◌+◌, Bool, true, false, none, some, [], ◌∷◌}
use recording_agent_continuo.Prelude.Text.{codes}
use recording_agent_continuo.EventControl.State.{
  ready, not_ready, door_unknown, door_locked, record_camera, set_frame_rate, Configuration, Timer,
  video_shutdown_timer, holdoff_mount_timer, mount_removable_ssd_timer, camera_timer, Timers,
  Control,
}
use recording_agent_continuo.EventControl.Poll.{Reading, Platform}

abbrev pub timer_number : Timer → ℕ
timer_number video_shutdown_timer = 0
timer_number holdoff_mount_timer = 1
timer_number mount_removable_ssd_timer = 2
timer_number (camera_timer i) = i + 3

-- Timers as the set of those that run.
abbrev pub running : Timers (ℕ → Bool)
running = record {
  is_active = λ t ts. ts (timer_number t);
  start = λ t n ts. set_at (timer_number t) true ts;
  stop = λ t ts. set_at (timer_number t) false ts;
}

abbrev pub platform : Platform
platform = record {
  video_shutdown_timeout = 5000;
  removable_ssd_mount_timeout = 30000;
  din_reg_data_unknown = 255;
  discrete_input_reg_mask = 7;
}

abbrev pub config : Configuration
config = record {
  digital_inputs =
      record { number = 1; name = codes "door"; recording = true }
      ∷ (record { number = 2; name = codes "horn"; recording = false }
          ∷ (record { number = 3; name = codes "bell"; recording = true } ∷ []));
  cameras =
      record {
        name = codes "front";
        camera_control_by_event = true;
        event_for_controlled_camera =
            record {
              digital_input_num = 1;
              event_input_state = 1;
              action_delay = 0;
              camera_function = record_camera;
              frame_rate_during_event = 0;
            }
            ∷ [];
      }
      ∷ (record {
        name = codes "rear";
        camera_control_by_event = true;
        event_for_controlled_camera =
            record {
              digital_input_num = 3;
              event_input_state = 1;
              action_delay = 5;
              camera_function = set_frame_rate;
              frame_rate_during_event = 10;
            }
            ∷ [];
      }
          ∷ []);
}

abbrev pub started : Control (ℕ → Bool)
started = record {
  vra_shutdown_in_progress = false;
  drive_status_requested = false;
  drive_ready_status = record { chm_ready = true; removable_ssd_ready = false };
  shutdown_started = false;
  chm_ready_flag = ready;
  removable_ready = not_ready;
  rec_status_on_chm = false;
  is_digital_config_sent = true;
  mount_process_complete = false;
  power_down_check_shm_counter = 0;
  power_going_down = false;
  check_counter = 10;
  chm_ready = none;
  prev_lock_status = door_unknown;
  check_mount = true;
  startup = true;
  discrete_fpga_reg = 99;
  prev_discrete_fpga_reg = 99;
  slots = λ i. none;
  camera_commanded_pause = λ i. false;
  camera_frame_rates = λ i. 0;
  timers = λ i. false;
  sent = [];
}

abbrev pub set_reading : Reading
set_reading = record {
  pson = some true;
  chm = record { chm_connect = some 1; is_mounted = true; is_mounted_then = true };
  lock = door_locked;
  reg_data = 5;
}
