-- ===== src/Metacollector/Reader.antt =====
-- metacollector/src/metareader.c: the index records of a chunk file of a type and a time range, and
-- the records that they point at.
pub mod Filter
use recording_agent_continuo.Prelude.{
  ℕ, zero, suc, ◌+◌, ◌-◌, ltb, leb, ◌==◌, Bool, true, false, not, ◌&&◌, ◌||◌, Option, none, some,
  if◌then◌else◌, List, [], ◌∷◌, length,
}
use recording_agent_continuo.Prelude.Text.{Text}
use recording_agent_continuo.Metarec.{
  MetaDataType, gps, time_info, video_event, locomotive_id, Payload,
}
use recording_agent_continuo.Metarec.Recorder.{RcdIdx}

-- A chunk file as the reader meets it: whether it can seek to an index slot and what it reads
-- there, the digital mappings, whether it can seek to an offset and the data of a length there;
-- `none` is a read that fails.
pub record ChunkFile : Type 0 where
  pub seeks_index : ℕ → Bool
  pub index_slot : ℕ → Option RcdIdx
  pub mappings : Option (List (ℕ × Text))
  pub seeks : ℕ → Bool
  pub data_at : (offset length : ℕ) → Option Payload

-- A record of the collector: the time, and the data. The four types of records differ in their
-- data only.
pub record MetaRecord : Type 0 where
  pub record_time : ℕ
  pub payload : Payload

abbrev pub type_number : MetaDataType → ℕ
type_number gps = 0
type_number time_info = 1
type_number video_event = 2
type_number locomotive_id = 3

-- The type matches, and both ends of the range are 0, or neither is and the time lies in it.
unfoldable pub is_match : (starttime endtime : ℕ) → MetaDataType → RcdIdx → Bool
is_match starttime endtime type p =
    type_number p.recordtype == type_number type
    && ((starttime == 0 && endtime == 0)
        || ((not (starttime == 0) && leb starttime p.timestamp)
            && (not (endtime == 0) && leb p.timestamp endtime)))

unfoldable pub is_initialized : RcdIdx → Bool
is_initialized p = not (p.timestamp == 0) && not (p.byteoffset == 0)

-- The loop over the slots: `n` of them are left, from `idx` on. A slot that cannot be read is
-- passed over, and one that is not initialized ends the loop.
unfoldable pub scan_index :
    ChunkFile → (starttime endtime : ℕ) → MetaDataType → (n idx : ℕ) → List RcdIdx
unfolding is_match is_initialized
scan_index f starttime endtime type zero idx = []
scan_index f starttime endtime type (suc n) idx =
    let rest = scan_index f starttime endtime type n (idx + 1) in
    let read : List RcdIdx = elim (f.index_slot idx) [
      | none ↦ rest
      | some p ↦
          if is_initialized p
          then (if is_match starttime endtime type p then p ∷ rest else rest)
          else []
    ] in
    if f.seeks_index idx then read else rest

-- `max_records` is the number of slots of a file. A null file is a failure.
unfoldable pub get_all_filtered_index_records :
    (max_records : ℕ)
    → Option ChunkFile
    → (starttime endtime : ℕ) → MetaDataType
    → Option (List RcdIdx)
unfolding scan_index
get_all_filtered_index_records max_records none starttime endtime type = none
get_all_filtered_index_records max_records (some f) starttime endtime type =
    some (scan_index f starttime endtime type max_records 0)

-- The loop over the matched index records: `none` is the early return on a failing seek. A record
-- that cannot be read takes no place in the result.
unfoldable pub read_records : ChunkFile → List RcdIdx → Option (List MetaRecord)
read_records f [] = some []
read_records f (p ∷ ps) =
    let rest = read_records f ps in
    let here : Option (List MetaRecord) = elim (f.data_at p.byteoffset p.recordlength) [
      | none ↦ rest
      | some d ↦ elim rest [
        | none ↦ none
        | some rs ↦ some (record { record_time = p.timestamp; payload = d } ∷ rs)
      ]
    ] in
    if f.seeks p.byteoffset then here else none

-- The records and their number as the caller gets it; `none` is EXIT_FAILURE. The four branches of
-- the switch read into records that differ in their data only.
unfoldable pub get_metadata_records :
    (max_records : ℕ)
    → Option ChunkFile
    → (starttime endtime : ℕ) → MetaDataType
    → Option (List MetaRecord × ℕ)
unfolding get_all_filtered_index_records read_records
get_metadata_records max_records none starttime endtime type = none
get_metadata_records max_records (some f) starttime endtime type =
    let matched = scan_index f starttime endtime type max_records 0 in
    elim (read_records f matched) [ none ↦ none | some rs ↦ some (rs, length matched) ]

-- The first mapping of a digital input's number; the name is empty where there is none.
unfoldable pub config_name : List (ℕ × Text) → ℕ → Text
config_name [] number = []
config_name ((n, name) ∷ ms) number = if n == number then name else config_name ms number

unfoldable pub get_digital_config_name : Option ChunkFile → ℕ → Text
unfolding config_name
get_digital_config_name none number = []
get_digital_config_name (some f) number = elim f.mappings [
  | none ↦ []
  | some ms ↦ config_name ms number
]
