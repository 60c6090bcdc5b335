-- ===== src/Metacollector/Reader/Filter.antt =====
-- What the reader of chunk files gets from an index that the recorder wrote.
use recording_agent_continuo.Prelude.{
  none, ℕ, zero, suc, ◌+◌, ◌<◌, ◌≡◌, refl, ◌∙◌, ap, Bool, true, false, Option, some, if◌then◌else◌,
  List, [], ◌∷◌, length, arith,
}
use recording_agent_continuo.Metarec.{MetaDataType, Payload}
use recording_agent_continuo.Metarec.Recorder.{RcdIdx}
use recording_agent_continuo.Metacollector.Reader.{
  ChunkFile, MetaRecord, is_match, is_initialized, scan_index, read_records, get_metadata_records,
}

-- The file's slots from `idx` on hold the entries, and none that is initialized behind them.
abbrev pub HoldsIndex : ChunkFile → List RcdIdx → ℕ → Type 0
HoldsIndex f [] idx =
    (f.seeks_index idx ≡ true)
    × ((p : RcdIdx) × (f.index_slot idx ≡ some p) × (is_initialized p ≡ false))
HoldsIndex f (e ∷ es) idx =
    (f.seeks_index idx ≡ true)
    × (f.index_slot idx ≡ some e)
    × (is_initialized e ≡ true)
    × HoldsIndex f es (idx + 1)

-- The entries that a test keeps.
unfoldable pub select : (RcdIdx → Bool) → List RcdIdx → List RcdIdx
select keep [] = []
select keep (e ∷ es) = if keep e then e ∷ select keep es else select keep es

-- The records that some entries point at can all be read.
abbrev pub Reads : ChunkFile → List RcdIdx → List Payload → Type 0
Reads f [] [] = Unit
Reads f [] (d ∷ ds) = ⊥
Reads f (e ∷ es) [] = ⊥
Reads f (e ∷ es) (d ∷ ds) =
    (f.seeks e.byteoffset ≡ true) × (f.data_at e.byteoffset e.recordlength ≡ some d) × Reads f es ds

-- The entries' times beside the data.
pub stamp : List RcdIdx → List Payload → List MetaRecord
stamp [] ds = []
stamp (e ∷ es) [] = []
stamp (e ∷ es) (d ∷ ds) = record { record_time = e.timestamp; payload = d } ∷ stamp es ds

-- What the caller gets: the stamped data, and the number of the entries.
abbrev pub found : List RcdIdx → List Payload → Option (List MetaRecord × ℕ)
found es ds = some (stamp es ds, length es)

-- One turn of the loop at a slot that holds an initialized entry.
scan_index-step :
    (f : ChunkFile) (starttime endtime : ℕ) (type : MetaDataType) (n idx : ℕ) (e : RcdIdx)
    → f.seeks_index idx ≡ true
    → f.index_slot idx ≡ some e
    → is_initialized e ≡ true
    → scan_index f starttime endtime type (suc n) idx ≡ (
        if is_match starttime endtime type e
        then e ∷ scan_index f starttime endtime type n (idx + 1)
        else scan_index f starttime endtime type n (idx + 1))
unfolding scan_index
scan_index-step f starttime endtime type n idx e seeks slot initialized =
    ground (arith, seeks, slot, initialized)

scan_index-stop :
    (f : ChunkFile) (starttime endtime : ℕ) (type : MetaDataType) (n idx : ℕ) (e : RcdIdx)
    → f.seeks_index idx ≡ true
    → f.index_slot idx ≡ some e
    → is_initialized e ≡ false
    → scan_index f starttime endtime type (suc n) idx ≡ []
unfolding scan_index
scan_index-stop f starttime endtime type n idx e seeks slot initialized =
    ground (arith, seeks, slot, initialized)

-- The loop gives the matching entries of the index, in their order.
pub scan_index-select :
    (f : ChunkFile) (starttime endtime : ℕ) (type : MetaDataType) (es : List RcdIdx) (n idx : ℕ)
    → HoldsIndex f es idx
    → length es < n
    → scan_index f starttime endtime type n idx ≡ select (is_match starttime endtime type) es
unfolding select
scan_index-select f starttime endtime type es zero idx h lt = absurd (omega arith)
scan_index-select f starttime endtime type [] (suc n) idx (seeks, (p, slot, initialized)) lt =
    scan_index-stop f starttime endtime type n idx p seeks slot initialized
scan_index-select f starttime endtime type (e ∷ es) (suc n) idx (seeks, slot, initialized, rest)
      lt =
    scan_index-step f starttime endtime type n idx e seeks slot initialized
    ∙ ap (λ r. if is_match starttime endtime type e then e ∷ r else r)
        (scan_index-select f starttime endtime type es n (idx + 1) rest (omega arith))

-- The loop over readable entries gives their data under their times.
pub read_records-stamp :
    (f : ChunkFile) (es : List RcdIdx) (ds : List Payload)
    → Reads f es ds
    → read_records f es ≡ some (stamp es ds)
unfolding read_records stamp
read_records-stamp f [] [] h = refl
read_records-stamp f [] (d ∷ ds) h = absurd h
read_records-stamp f (e ∷ es) [] h = absurd h
read_records-stamp f (e ∷ es) (d ∷ ds) (seeks, read_data, rest) =
    let induction = read_records-stamp f es ds rest in ground arith

records_of :
    (max_records : ℕ) (f : ChunkFile) (starttime endtime : ℕ) (type : MetaDataType)
    (matched : List RcdIdx) (rs : List MetaRecord)
    → scan_index f starttime endtime type max_records 0 ≡ matched
    → read_records f matched ≡ some rs
    → get_metadata_records max_records (some f) starttime endtime type ≡ some (rs, length matched)
unfolding get_metadata_records
records_of max_records f starttime endtime type matched rs scanned records =
    ground (arith, scanned, records)

-- If the first index slots of a chunk file hold initialized entries with an unused slot behind
-- them, fewer entries than slots, and the data of the matching entries can be read, the caller
-- gets exactly these data in the index's order under their entries' times, and their number.
pub get_metadata_records-stamp :
    (max_records : ℕ) (f : ChunkFile) (starttime endtime : ℕ) (type : MetaDataType)
    (es : List RcdIdx) (ds : List Payload)
    → HoldsIndex f es 0
    → length es < max_records
    → Reads f (select (is_match starttime endtime type) es) ds
    → get_metadata_records max_records (some f) starttime endtime type
      ≡ found (select (is_match starttime endtime type) es) ds
get_metadata_records-stamp max_records f starttime endtime type es ds h lt reads =
    records_of max_records f starttime endtime type _ _
      (scan_index-select f starttime endtime type es max_records 0 h lt)
      (read_records-stamp f (select (is_match starttime endtime type) es) ds reads)

read_records-unreadable :
    (f : ChunkFile) (es : List RcdIdx)
    → ((offset : ℕ) → f.seeks offset ≡ true)
    → ((offset length : ℕ) → f.data_at offset length ≡ none)
    → read_records f es ≡ some []
unfolding read_records
read_records-unreadable f [] seeks unreadable = refl
read_records-unreadable f (e ∷ es) seeks unreadable = ground (
  arith,
  seeks e.byteoffset,
  unreadable e.byteoffset e.recordlength,
  read_records-unreadable f es seeks unreadable,
)

-- If the first index slots of a chunk file hold initialized entries with an unused slot behind
-- them, fewer entries than slots, and every seek succeeds but no data can be read, the caller gets
-- no record, and the number of matching entries as the number of records.
get_metadata_records-overcount :
    (max_records : ℕ) (f : ChunkFile) (starttime endtime : ℕ) (type : MetaDataType)
    (es : List RcdIdx)
    → HoldsIndex f es 0
    → length es < max_records
    → ((offset : ℕ) → f.seeks offset ≡ true)
    → ((offset length : ℕ) → f.data_at offset length ≡ none)
    → get_metadata_records max_records (some f) starttime endtime type
      ≡ some ([], length (select (is_match starttime endtime type) es))
get_metadata_records-overcount max_records f starttime endtime type es h lt seeks unreadable =
    records_of max_records f starttime endtime type _ _
      (scan_index-select f starttime endtime type es max_records 0 h lt)
      (read_records-unreadable f (select (is_match starttime endtime type) es) seeks unreadable)
