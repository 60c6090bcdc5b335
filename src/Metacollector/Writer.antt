-- ===== src/Metacollector/Writer.antt =====
-- metacollector/src/metawriter.c: the document that the collector writes, as the sequence of calls
-- of metacollector/src/xml_writer.c.
pub mod Nested
use recording_agent_continuo.Prelude.{
  ℕ, ltb, Bool, true, false, not, ◌&&◌, ◌==◌, Option, none, some, if◌then◌else◌, List, [], ◌∷◌,
  ◌++◌,
}
use recording_agent_continuo.Prelude.Text.{Text, codes, format_0, contains}
use recording_agent_continuo.Metarec.{MetaDataType, gps, time_info, video_event, locomotive_id}
use recording_agent_continuo.Metarec.Recorder.{Tm}
use recording_agent_continuo.Storage.{join_path}
use recording_agent_continuo.Metacollector.Reader.{ChunkFile, MetaRecord, get_metadata_records}

-- What a list of the document holds.
pub data ListKind : Type 0 where
  records_list : MetaDataType → ListKind
  corruption_list : ListKind

-- The calls of the XML writer: the declaration, a list's start and its close, a corrupt segment,
-- and a list of records with the number that is written of it.
pub data XmlEvent : Type 0 where
  declaration : XmlEvent
  list_start : ListKind → XmlEvent
  list_close : ListKind → XmlEvent
  corrupt_segment : (epochseconds duration_seconds : ℕ) → XmlEvent
  record_list : MetaDataType → List MetaRecord → (count : ℕ) → XmlEvent

-- chunk_file_t
pub record FoundFile : Type 0 where
  pub epochseconds : ℕ
  pub duration_seconds : ℕ
  pub filename : Text

-- collector_input_chan_t
pub record CollectorInput : Type 0 where
  pub file : Text
  pub storage_location : Text
  pub start_time : ℕ
  pub end_time : ℕ
  pub validate_hash : Bool
  pub gps_enabled : Bool
  pub event_enabled : Bool
  pub timeoffset_enable : Bool
  pub loco_id_enable : Bool

-- The file system and the library: the files that the directory walk finds (none: it fails),
-- localtime, fopen for reading, whether a chunk's hash is right, and whether a file exists.
pub record Archive : Type 0 where
  pub max_records : ℕ
  pub get_all_files : Text → (start_time end_time : ℕ) → Option (List FoundFile)
  pub localtime : ℕ → Tm
  pub fopen : Text → Option ChunkFile
  pub validate_metadata_chunk : Text → Bool
  pub exists : Text → Bool

-- "%s/%04d/%02d/%02d/%02d/%s"; the years and months of `Tm` are as written.
unfoldable pub full_path : Archive → (base : Text) → FoundFile → Text
full_path archive base found =
    let t = archive.localtime found.epochseconds in
    join_path
      (join_path
        (join_path (join_path (join_path base (format_0 4 t.tm_year)) (format_0 2 t.tm_mon))
          (format_0 2 t.tm_mday))
        (format_0 2 t.tm_hour))
      found.filename

unfoldable pub corrupt_segments : Archive → (base : Text) → List FoundFile → List XmlEvent
corrupt_segments archive base [] = []
corrupt_segments archive base (f ∷ fs) =
    let rest = corrupt_segments archive base fs in
    if archive.validate_metadata_chunk (full_path archive base f)
    then rest
    else corrupt_segment f.epochseconds f.duration_seconds ∷ rest

-- Without a file of its own, that is on standard output, it writes nothing.
unfoldable pub validate_and_write_metadata :
    Archive → (has_file : Bool) → (base : Text) → List FoundFile → List XmlEvent
unfolding corrupt_segments
validate_and_write_metadata archive has_file base found =
    if has_file
    then list_start corruption_list
      ∷ (corrupt_segments archive base found ++ (list_close corruption_list ∷ []))
    else []

-- What is written of a file that was read: no list where the reader failed or found no record.
unfoldable pub write_found : MetaDataType → Option (List MetaRecord × ℕ) → List XmlEvent
write_found type none = []
write_found type (some (rs, n)) = if ltb 0 n then record_list type rs n ∷ [] else []

-- One file of the search; nothing is written of one that cannot be opened.
unfoldable pub write_file :
    Archive → (start_time end_time : ℕ) → MetaDataType → Option ChunkFile → List XmlEvent
unfolding write_found
write_file archive start_time end_time type none = []
write_file archive start_time end_time type (some f) =
    write_found type (get_metadata_records archive.max_records (some f) start_time end_time type)

unfoldable pub search_and_write_metadata :
    Archive
    → (base : Text) → (start_time end_time : ℕ) → MetaDataType
    → List FoundFile
    → List XmlEvent
unfolding write_file
search_and_write_metadata archive base start_time end_time type [] = []
search_and_write_metadata archive base start_time end_time type (f ∷ fs) =
    let rest = search_and_write_metadata archive base start_time end_time type fs in
    if contains (codes ".data") f.filename
    then write_file archive start_time end_time type (archive.fopen (full_path archive base f))
      ++ rest
    else rest

-- The list of a type, if it is asked for.
unfoldable pub write_list :
    Archive → Bool → (base : Text) → CollectorInput → MetaDataType → List FoundFile → List XmlEvent
unfolding search_and_write_metadata
write_list archive enabled base pchan type found =
    if enabled
    then list_start (records_list type)
      ∷ (search_and_write_metadata archive base pchan.start_time pchan.end_time type found
          ++ (list_close (records_list type) ∷ []))
    else []

-- The lists of the files found.
unfoldable pub write_lists :
    Archive → (base : Text) → CollectorInput → List FoundFile → List XmlEvent
unfolding validate_and_write_metadata write_list
write_lists archive base pchan found =
    (if pchan.validate_hash
      then validate_and_write_metadata archive (not (is_unnamed pchan.file)) base found
      else [])
    ++ (write_list archive pchan.gps_enabled base pchan gps found
        ++ (write_list archive pchan.event_enabled base pchan video_event found
            ++ (write_list archive pchan.timeoffset_enable base pchan time_info found
                ++ write_list archive pchan.loco_id_enable base pchan locomotive_id found)))
  where
    is_unnamed : Text → Bool
    is_unnamed [] = true
    is_unnamed (c ∷ cs) = false

-- The declaration is left out where the document's file exists already.
unfoldable pub begin_document : Archive → (file : Text) → List XmlEvent
begin_document archive [] = declaration ∷ []
begin_document archive (c ∷ cs) = if archive.exists (c ∷ cs) then [] else declaration ∷ []

-- Nothing is written where the search for files fails.
unfoldable pub write_search :
    Archive → (base : Text) → CollectorInput → Option (List FoundFile) → List XmlEvent
unfolding write_lists
write_search archive base pchan none = []
write_search archive base pchan (some found) = write_lists archive base pchan found

-- `none` is EXIT_FAILURE, for a null input. The file is taken to open, and the static file pointer
-- to be null before the call.
unfoldable pub write_metadata_xml_document :
    Archive → Option CollectorInput → Option (List XmlEvent)
unfolding begin_document write_search
write_metadata_xml_document archive none = none
write_metadata_xml_document archive (some pchan) =
    let base = join_path pchan.storage_location (codes "METADATA") in
    let found = archive.get_all_files base pchan.start_time pchan.end_time in
    some (begin_document archive pchan.file ++ write_search archive base pchan found)
