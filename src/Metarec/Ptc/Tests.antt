-- ===== src/Metarec/Ptc/Tests.antt =====
-- Message handlers on concrete messages.
use recording_agent_continuo.Prelude.{◌≡◌, refl, ◌||◌, true, false, [], ◌∷◌}
use recording_agent_continuo.Prelude.Int.{pos, negsuc}
use recording_agent_continuo.Prelude.Text.{codes}
use recording_agent_continuo.Metarec.{Layout, Desc, gps, gps_memory}
use recording_agent_continuo.Metarec.Intf.{Intf, Env, initial_config_map}
use recording_agent_continuo.Metarec.Ptc.{Ptc, TimeInfo}
use recording_agent_continuo.Prelude.{arith, ◌++◌}
use recording_agent_continuo.Queue.Inv.{IsValid}
use recording_agent_continuo.Queue.Window.{contents}
use recording_agent_continuo.Metarec.Intf.{describe}
use recording_agent_continuo.Metarec.Intf.Fifo.{IsUp, own_block}
use recording_agent_continuo.Metarec.Ptc.{GpsData, GpsParser, msgcb_gps_data_meta_rec}
use recording_agent_continuo.Metarec.Ptc.Gps.{msgcb_gps_data_meta_rec-contents}
use recording_agent_continuo.Metarec.Ptc.Times.{receive_times, falls_to_zero, receive_times-flag}

abbrev layout : Layout
layout = record {
  gps_size = 12;
  time_size = 48;
  event_size = 40;
  loco_size = 16;
  time_source_name_len = 32;
  event_name_size = 32;
  max_loco_id_size = 16;
  time_info_version = 1;
  loco_version = 1;
  video_event_version = 1;
  gps_version = 2;
  digital_inputs_version = 1;
  ready_status_version = 3;
  shutdown_version = 1;
}

abbrev calm : Env
calm = record { mutex = 0; timedwait = λ q. (110, q); tod_sec = 100; ts_sec = 50; ts_nsec = 7 }

abbrev position : Desc
position = record {
  data_type = gps;
  data_length = 12;
  payload = gps_memory (pos 1) (pos 2) (pos 3);
  block = 0;
  tod_sec = 0;
  ts_sec = 0;
  ts_nsec = 0;
}

abbrev intf : Intf
intf = record {
  queue = record {
    initialized = true;
    buf = λ i. position;
    head = 0;
    tail = 0;
    full = false;
    empty = true;
    not_full_signals = 0;
    not_empty_signals = 0;
  };
  config_map = initial_config_map;
  next_block = 1;
}

-- Both drives are commanded to record.
abbrev recording : Ptc
recording = record {
  commanded_recording_mode = 3;
  previous_time_offset = pos 0;
  forward_time_change_occurred = false;
  intf = intf;
}

abbrev behind : TimeInfo
behind = record { version = 1; system_time = 90; time_offset = negsuc 9; time_source = codes "NTP" }

abbrev level : TimeInfo
level = record { version = 1; system_time = 100; time_offset = pos 0; time_source = codes "NTP" }

receive_times-flag_example :
    (receive_times layout calm (behind ∷ level ∷ []) recording).forward_time_change_occurred
    ≡ (falls_to_zero (pos 0) (behind ∷ level ∷ []) || false)
receive_times-flag_example =
    receive_times-flag layout calm (behind ∷ level ∷ []) recording
      ((refl, refl), ((refl, refl), tt))

-- Every direction is west, and every value 7.
abbrev parser : GpsParser
parser = record {
  get_gps_direction = λ t. 87;
  parse_gps_latitude = λ t. pos 7;
  parse_gps_longitude = λ t. pos 7;
  parse_gps_speed = λ t. pos 7;
}

abbrev fix : GpsData
fix = record { version = 2; latitude = codes "7N"; longitude = codes "7W"; speed = codes "7" }

intf-IsUp : IsUp calm intf
intf-IsUp = record { up = refl; free = refl }

intf-IsValid : IsValid intf.queue
intf-IsValid = ground arith

msgcb_gps_data_meta_rec-contents_example :
    contents (msgcb_gps_data_meta_rec layout calm true parser fix recording).intf.queue
    ≡ contents intf.queue
      ++ (own_block intf (describe calm gps 12 (gps_memory (pos 7) (negsuc 6) (pos 7))) ∷ [])
msgcb_gps_data_meta_rec-contents_example =
    msgcb_gps_data_meta_rec-contents layout calm parser fix recording intf-IsUp intf-IsValid refl
      refl refl
