-- ===== src/Metacollector/Tests.antt =====
-- The collector on a small archive.
use recording_agent_continuo.Prelude.{
  ◌==◌, ◌≡◌, refl, true, false, none, some, if◌then◌else◌, List, [], ◌∷◌, arith,
}
use recording_agent_continuo.Prelude.Text.{codes}
use recording_agent_continuo.Prelude.Int.{pos}
use recording_agent_continuo.Metarec.{gps, time_info, Payload, gps_memory}
use recording_agent_continuo.Metarec.Recorder.{Tm, RcdIdx}
use recording_agent_continuo.Metacollector.Reader.{
  ChunkFile, is_match, is_initialized, get_metadata_records,
}
use recording_agent_continuo.Metacollector.Reader.Filter.{
  HoldsIndex, Reads, select, found, get_metadata_records-stamp,
}
use recording_agent_continuo.Metacollector.Writer.{
  Archive, CollectorInput, FoundFile, XmlEvent, write_metadata_xml_document,
}
use recording_agent_continuo.Metacollector.Writer.Nested.{
  follow_all, write_metadata_xml_document-follow,
}

abbrev first_entry : RcdIdx
first_entry = record { byteoffset = 800; timestamp = 100; recordtype = gps; recordlength = 12 }

abbrev second_entry : RcdIdx
second_entry = record {
  byteoffset = 812;
  timestamp = 101;
  recordtype = time_info;
  recordlength = 48;
}

abbrev unused_entry : RcdIdx
unused_entry = record { byteoffset = 0; timestamp = 0; recordtype = gps; recordlength = 0 }

abbrev position : Payload
position = gps_memory (pos 1) (pos 2) (pos 3)

-- A file with two entries.
abbrev chunk : ChunkFile
chunk = record {
  seeks_index = λ i. true;
  index_slot = λ i.
      if i == 0 then some first_entry else if i == 1 then some second_entry else some unused_entry;
  mappings = none;
  seeks = λ o. true;
  data_at = λ o n. some position;
}

abbrev entries : List RcdIdx
entries = first_entry ∷ second_entry ∷ []

chunk-HoldsIndex : HoldsIndex chunk entries 0
unfolding is_initialized
chunk-HoldsIndex = (refl, refl, refl, (refl, refl, refl, (refl, (unused_entry, refl, refl))))

chunk-Reads : Reads chunk (select (is_match 50 150 gps) entries) (position ∷ [])
unfolding is_match select
chunk-Reads = (refl, refl, tt)

get_metadata_records-stamp_example :
    get_metadata_records 2000 (some chunk) 50 150 gps
    ≡ found (select (is_match 50 150 gps) entries) (position ∷ [])
get_metadata_records-stamp_example =
    get_metadata_records-stamp 2000 chunk 50 150 gps entries (position ∷ []) chunk-HoldsIndex
      (omega arith) chunk-Reads

abbrev noon : Tm
noon = record { tm_year = 2020; tm_mon = 5; tm_mday = 17; tm_hour = 12; tm_min = 0; tm_sec = 0 }

abbrev chunk_file : FoundFile
chunk_file = record {
  epochseconds = 100;
  duration_seconds = 300;
  filename = codes "20200517-120000.300000000.data";
}

abbrev archive : Archive
archive = record {
  max_records = 2000;
  get_all_files = λ base s e. some (chunk_file ∷ []);
  localtime = λ t. noon;
  fopen = λ p. some chunk;
  validate_metadata_chunk = λ p. false;
  exists = λ p. false;
}

abbrev request : CollectorInput
request = record {
  file = codes "out.xml";
  storage_location = codes "/mnt/chm";
  start_time = 50;
  end_time = 150;
  validate_hash = true;
  gps_enabled = true;
  event_enabled = false;
  timeoffset_enable = true;
  loco_id_enable = true;
}

abbrev document : List XmlEvent
document = elim (write_metadata_xml_document archive (some request)) [ none ↦ [] | some es ↦ es ]

written : write_metadata_xml_document archive (some request) ≡ some document
unfolding write_metadata_xml_document
written = refl

write_metadata_xml_document-follow_example : follow_all none document ≡ some none
write_metadata_xml_document-follow_example =
    write_metadata_xml_document-follow archive request document written
