-- ===== src/Metarec.antt =====
-- The metadata recorder (metarec/src): what its modules share is the descriptor that goes from the
-- message handlers through the queue to the recording thread.
pub mod Intf
pub mod Ptc
pub mod Recorder
pub mod Chunk
pub mod Io
mod Tests
use recording_agent_continuo.Prelude.{ℕ, Bool, true, false, Option, ◌==◌}
use recording_agent_continuo.Prelude.Int.{ℤ}
use recording_agent_continuo.Prelude.Text.{Text}

-- `eMetaDataType`, as far as this repository names its values.
pub data MetaDataType : Type 0 where
  gps time_info video_event locomotive_id : MetaDataType

-- The records that a descriptor's data pointer leads to.
pub data Payload : Type 0 where
  gps_memory : (latitude longitude speed : ℤ) → Payload
  time_memory : (linux_time : ℕ) (offset : ℤ) (source : Text) → Payload
  event_recording : (name : Text) (value : ℕ) → Payload
  loco_id : Text → Payload

-- `metadata_desc_t`, whose header is not part of the repository: the fields that the code uses.
-- `block` numbers the memory that the queueing function allocates for the data, and is 0 before
-- that.
pub record Desc : Type 0 where
  pub data_type : MetaDataType
  pub data_length : ℕ
  pub payload : Payload
  pub block : ℕ
  pub tod_sec : ℕ
  pub ts_sec : ℕ
  pub ts_nsec : ℕ

-- The sizes of the record types and the lengths of their text fields, which headers outside the
-- repository define.
pub record Layout : Type 0 where
  pub gps_size : ℕ
  pub time_size : ℕ
  pub event_size : ℕ
  pub loco_size : ℕ
  pub time_source_name_len : ℕ
  pub event_name_size : ℕ
  pub max_loco_id_size : ℕ
  pub time_info_version : ℕ
  pub loco_version : ℕ
  pub video_event_version : ℕ
  pub gps_version : ℕ
  pub digital_inputs_version : ℕ
  pub ready_status_version : ℕ
  pub shutdown_version : ℕ
