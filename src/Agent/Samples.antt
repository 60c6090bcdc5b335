-- ===== src/Agent/Samples.antt =====
-- An agent with two cameras, and its surroundings.
use recording_agent_continuo.Prelude.{◌==◌, true, false, none, some, [], take, if◌then◌else◌}
use recording_agent_continuo.Prelude.Text.{codes, text_eq}
use recording_agent_continuo.Agent.State.{no_flags, Camera, Agent, World, no_change}

abbrev pub front : Camera
front = record {
  name = codes "front";
  do_audio = true;
  max_age = 0;
  is_essential_set = true;
  is_essential = true;
  resolution = 1;
  compression = 1;
  frame_rate = 5;
  runtime_max_age = 0;
  is_assigned = true;
  is_online = true;
  commanded_paused = false;
  recording_mode_flags = no_flags;
  recording_status_flags = no_flags;
  worker_pid = 0;
}

-- The second camera is not essential.
abbrev pub rear : Camera
rear = record front { name = codes "rear"; is_essential = false }

abbrev pub agent : Agent
agent = record {
  cameras = λ i. if i == 0 then front else rear;
  n_cameras = 2;
  is_chm_ready = true;
  is_rssd_ready = true;
  n_cams_recording = 0;
  metarec_pid = 0;
  space_monitor_pid = 0;
  is_shutdown_in_process = false;
  retry_count = λ i. 0;
  camon_ttl = λ i. 3;
  rp_ttl = λ i. 0;
  sent = [];
}

abbrev pub bare : Agent
bare = record agent { is_chm_ready = false; is_rssd_ready = false }

abbrev pub world : World
world = record {
  recorder = λ i. some 100;
  metarec = some 200;
  space_monitor = some 300;
  wait = λ pid. no_change;
  is_same = λ a b n. text_eq (take n a) (take n b);
  camera_name_length = 16;
  camon_ttl_start = 3;
}

abbrev pub broken : World
broken = record world { recorder = λ i. none }
