-- ===== src/Metarec/Intf.antt =====
-- metarec/src/metaintf.c: the functions by which the message handlers put metadata into the queue
-- of descriptors and the recording thread takes it out, and the map of digital inputs.
pub mod Fifo
pub mod Digital
mod Tests
use recording_agent_continuo.Prelude.{
  ℕ, ◌+◌, ◌-◌, ◌*◌, ◌/◌, ◌%◌, ◌^◌, ◌==◌, Bool, true, false, not, Option, none, some, if◌then◌else◌,
  List, [], ◌∷◌, length, take,
}
use recording_agent_continuo.Prelude.Int.{ℤ, pos}
use recording_agent_continuo.Prelude.Text.{Text}
use recording_agent_continuo.Queue.{
  Queue, Rc, rc_is_zero, lock, wait_for_room, wait_for_data, isempty, init, deinit, enq, deq,
}
use recording_agent_continuo.Metarec.{
  MetaDataType, gps, time_info, video_event, locomotive_id, Payload, gps_memory, time_memory,
  event_recording, loco_id, Desc, Layout,
}

-- `digital_input_descriptor_t`
pub record DigitalInput : Type 0 where
  pub di_name : Text
  pub di_number : ℕ
  pub di_recording : Bool

abbrev pub digital_input : Text → ℕ → Bool → DigitalInput
digital_input name number recording = record {
  di_name = name;
  di_number = number;
  di_recording = recording;
}

-- The static variables of the file. `next_block` is the number of the next allocation.
pub record Intf : Type 0 where
  pub queue : Queue Desc
  pub config_map : List DigitalInput
  pub next_block : ℕ

-- The initial `digital_events_config_map`.
abbrev pub initial_config_map : List DigitalInput
initial_config_map =
    digital_input [] 0 false ∷ digital_input [] 1 false ∷ digital_input [] 2 false ∷ []

-- What a call meets: the result of the mutex, a wait on a condition variable, and the two clocks.
pub record Env : Type 0 where
  pub mutex : ℕ
  pub timedwait : Queue Desc → ℕ × Queue Desc
  pub tod_sec : ℕ
  pub ts_sec : ℕ
  pub ts_nsec : ℕ

-- `(n + 32) & 0xfffffff0`, on 32 bits.
unfoldable pub alloc_size : ℕ → ℕ
alloc_size n = (n + 32) % 2 ^ 32 / 16 * 16

-- The result is the returned code. The data is copied into a block of its own.
unfoldable pub enq_metadata_descriptor : Env → Intf → Desc → ℕ × Intf
unfolding lock wait_for_room
enq_metadata_descriptor e s d =
    let (room, q) = wait_for_room e.timedwait s.queue in
    let queued = record s {
      queue = enq q (record d { block = s.next_block });
      next_block = s.next_block + 1;
    } in
    if rc_is_zero (lock s.queue e.mutex)
    then (if rc_is_zero room then (1, queued) else (0, record s { queue = q }))
    else (0, s)

-- The pointer into the array, by its index.
unfoldable pub deq_metadata_descriptor : Env → Intf → Option ℕ × Intf
unfolding lock wait_for_data
deq_metadata_descriptor e s =
    let (there, q) = wait_for_data e.timedwait s.queue in
    let (p, q') = deq q in
    if rc_is_zero (lock s.queue e.mutex)
    then (if rc_is_zero there then (p, record s { queue = q' }) else (none, record s { queue = q }))
    else (none, s)

-- `memset` clears the queue, then `meta_q_init` sets it up. The array is left as it is: no slot is
-- read before it is written.
unfoldable pub init_metadata_recording_queue : Intf → Intf
unfolding init
init_metadata_recording_queue s = record s { queue = init (record s.queue { initialized = false }) }

unfoldable pub deinit_metadata_recording_queue : Intf → Intf
unfolding deinit
deinit_metadata_recording_queue s = record s { queue = deinit s.queue }

-- `memcpy` of the descriptor, through the pointer and with no lock held: `meanwhile` is what the
-- other threads do between the unlocking of the queue and the copy. `none` is the result 0.
unfoldable pub get_metadata_descriptor : Env → (Intf → Intf) → Intf → Option Desc × Intf
unfolding deq_metadata_descriptor isempty
get_metadata_descriptor e meanwhile s =
    let (p, s1) = deq_metadata_descriptor e s in
    let s2 = meanwhile s1 in
    if not (isempty s.queue)
    then elim p [ none ↦ (none, s1) | some i ↦ (some (s2.queue.buf i), s2) ]
    else (none, s)

-- A descriptor with the data, its type and length, and the times of the call.
unfoldable pub describe : Env → MetaDataType → ℕ → Payload → Desc
describe e t n p = record {
  data_type = t;
  data_length = n;
  payload = p;
  block = 0;
  tod_sec = e.tod_sec;
  ts_sec = e.ts_sec;
  ts_nsec = e.ts_nsec;
}

-- The setters return 0 whether the descriptor was queued or not; the state is the result.
module _ (l : Layout) (e : Env) where
  unfoldable pub set_gps : (latitude longitude speed : ℤ) → Intf → Intf
  unfolding enq_metadata_descriptor describe
  set_gps latitude longitude speed s =
      (enq_metadata_descriptor e s
        (describe e gps l.gps_size (gps_memory latitude longitude speed))).1

  unfoldable pub set_time_info : ℕ → ℤ → Text → Intf → Intf
  unfolding enq_metadata_descriptor describe
  set_time_info system_time time_offset time_source s =
      (enq_metadata_descriptor e s (
        describe e time_info l.time_size
          (time_memory system_time time_offset (take l.time_source_name_len time_source)))).1

  -- A null pointer queues nothing.
  unfoldable pub set_locomotive_id : Option Text → Intf → Intf
  unfolding enq_metadata_descriptor describe
  set_locomotive_id none s = s
  set_locomotive_id (some id) s =
      (enq_metadata_descriptor e s
        (describe e locomotive_id l.loco_size (loco_id (take l.max_loco_id_size id)))).1

  -- The last byte of the name is its terminator.
  unfoldable pub set_video_event : Text → ℕ → Intf → Intf
  unfolding enq_metadata_descriptor describe
  set_video_event digital_name digital_value s =
      (enq_metadata_descriptor e s (
        describe e video_event l.event_size
          (event_recording (take (l.event_name_size - 1) digital_name) digital_value))).1

-- `strncpy (to, from, strlen (to))`: no longer than the text that was there.
unfoldable pub strncpy_own_length : Text → Text → Text
strncpy_own_length to from = take (length to) from

-- The loop over the map: the first entry whose number is 0 is replaced.
unfoldable pub config_scan : Text → ℕ → Bool → List DigitalInput → ℕ × List DigitalInput
unfolding strncpy_own_length
config_scan name number recording [] = (0, [])
config_scan name number recording (d ∷ ds) =
    let (rc, ds') = config_scan name number recording ds in
    if d.di_number == 0
    then (1, digital_input (strncpy_own_length d.di_name name) number recording ∷ ds)
    else (rc, d ∷ ds')

unfoldable pub set_digital_input_config : Text → ℕ → Bool → Intf → ℕ × Intf
unfolding config_scan
set_digital_input_config name number recording s =
    let (rc, m) = config_scan name number recording s.config_map in
    (rc, record s { config_map = m })

-- The loop of `get_digital_input_name`; `digital_name` is the caller's buffer, which may be null.
unfoldable pub name_scan : ℕ → Option Text → List DigitalInput → ℕ × Option Text
unfolding strncpy_own_length
name_scan number none ds = (0, none)
name_scan number (some buffer) [] = (0, some buffer)
name_scan number (some buffer) (d ∷ ds) =
    if d.di_number == number
    then (1, some (strncpy_own_length buffer d.di_name))
    else name_scan number (some buffer) ds

unfoldable pub get_digital_input_name : ℕ → Option Text → Intf → ℕ × Option Text
unfolding name_scan
get_digital_input_name number buffer s = name_scan number buffer s.config_map
