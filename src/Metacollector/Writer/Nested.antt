-- ===== src/Metacollector/Writer/Nested.antt =====
-- The shape of the collector's document.
use recording_agent_continuo.Prelude.{
  ℕ, sym, ltb, ◌≡◌, refl, ◌∙◌, Bool, true, false, ◌==◌, inl, inr, Bool-cases, Option-cases, ◌&&◌,
  Option, none, some, if◌then◌else◌, List, [], ◌∷◌, ◌++◌, arith,
}
use recording_agent_continuo.Prelude.Text.{Text, codes, contains}
use recording_agent_continuo.Metarec.{MetaDataType, gps, time_info, video_event, locomotive_id}
use recording_agent_continuo.Storage.{join_path}
use recording_agent_continuo.Metacollector.Reader.{
  ChunkFile, MetaRecord, type_number, get_metadata_records,
}
use recording_agent_continuo.Metacollector.Writer.{
  ListKind, records_list, corruption_list, XmlEvent, declaration, list_start, list_close,
  corrupt_segment, record_list, FoundFile, CollectorInput, Archive, full_path, corrupt_segments,
  validate_and_write_metadata, write_file, search_and_write_metadata, write_list, write_lists,
  write_found, begin_document, write_search, write_metadata_xml_document,
}

abbrev pub same_kind : ListKind → ListKind → Bool
same_kind (records_list t) (records_list u) = type_number t == type_number u
same_kind (records_list t) corruption_list = false
same_kind corruption_list (records_list u) = false
same_kind corruption_list corruption_list = true

-- The list that is open behind some events, where one is open before them at most: `none` where
-- an event stands at a place that is not its own. The declaration stands outside the lists, a
-- list starts where none is open and closes where it is open, a corrupt segment stands in the
-- corruption list, and records stand in the list of their type, and there is one at least.
pub follow : Option ListKind → XmlEvent → Option (Option ListKind)
follow none declaration = some none
follow none (list_start k) = some (some k)
follow none (list_close k) = none
follow none (corrupt_segment e d) = none
follow none (record_list t rs n) = none
follow (some k) declaration = none
follow (some k) (list_start l) = none
follow (some k) (list_close l) = if same_kind k l then some none else none
follow (some k) (corrupt_segment e d) = if same_kind k corruption_list then some (some k) else none
follow (some k) (record_list t rs n) =
    if same_kind k (records_list t) && ltb 0 n then some (some k) else none

pub follow_all : Option ListKind → List XmlEvent → Option (Option ListKind)
follow_all left [] = some left
follow_all left (e ∷ es) = elim (follow left e) [ none ↦ none | some next ↦ follow_all next es ]

follow_step :
    (left next : Option ListKind) (e : XmlEvent) (es : List XmlEvent)
    → follow left e ≡ some next
    → follow_all left (e ∷ es) ≡ follow_all next es
unfolding follow_all
follow_step left next e es h = ground (arith, h)

-- What stands behind some events takes up the list that they leave open.
follow_all-append :
    (left next : Option ListKind) (es fs : List XmlEvent)
    → follow_all left es ≡ some next
    → follow_all left (es ++ fs) ≡ follow_all next fs
unfolding follow_all
follow_all-append left next [] fs h = cc
follow_all-append left next (e ∷ es) fs h = elim (Option-cases (follow left e)) [
  | inl stuck ↦ absurd (no_step stuck)
  | inr (middle, step) ↦
      follow_step left middle e (es ++ fs) step
      ∙ follow_all-append middle next es fs (sym (follow_step left middle e es step) ∙ h)
]
  where
    no_step : follow left e ≡ none → ⊥
    no_step stuck = ground (arith, stuck, h)

corrupt_segments-follow :
    (archive : Archive) (base : Text) (found : List FoundFile)
    → follow_all (some corruption_list) (corrupt_segments archive base found)
      ≡ some (some corruption_list)
unfolding corrupt_segments follow_all follow
corrupt_segments-follow archive base [] = refl
corrupt_segments-follow archive base (f ∷ fs) =
    let rest = corrupt_segments-follow archive base fs in ground arith

same_kind_refl : (k : ListKind) → same_kind k k ≡ true
same_kind_refl (records_list gps) = refl
same_kind_refl (records_list time_info) = refl
same_kind_refl (records_list video_event) = refl
same_kind_refl (records_list locomotive_id) = refl
same_kind_refl corruption_list = refl

-- A start, events inside the list and the close make one complete list.
bracket :
    (k : ListKind) (es : List XmlEvent)
    → follow_all (some k) es ≡ some (some k)
    → follow_all none (list_start k ∷ (es ++ (list_close k ∷ []))) ≡ some none
unfolding follow follow_all
bracket k es h =
    follow_all-append (some k) (some k) es (list_close k ∷ []) h ∙ ground (arith, same_kind_refl k)

write_found-follow :
    (type : MetaDataType) (found : Option (List MetaRecord × ℕ))
    → follow_all (some (records_list type)) (write_found type found)
      ≡ some (some (records_list type))
unfolding follow_all follow write_found
write_found-follow type none = refl
write_found-follow type (some (rs, n)) = ground (arith, same_kind_refl (records_list type))

write_file-follow :
    (archive : Archive) (s e : ℕ) (type : MetaDataType) (f : Option ChunkFile)
    → follow_all (some (records_list type)) (write_file archive s e type f)
      ≡ some (some (records_list type))
unfolding write_file follow_all
write_file-follow archive s e type none = refl
write_file-follow archive s e type (some f) =
    write_found-follow type (get_metadata_records archive.max_records (some f) s e type)

search-follow :
    (archive : Archive) (base : Text) (s e : ℕ) (type : MetaDataType) (found : List FoundFile)
    → follow_all (some (records_list type)) (search_and_write_metadata archive base s e type found)
      ≡ some (some (records_list type))
unfolding search_and_write_metadata follow_all
search-follow archive base s e type [] = refl
search-follow archive base s e type (f ∷ fs) =
    elim (Bool-cases (contains (codes ".data") f.filename)) [
      | inl data_file ↦ rw data_file (
          follow_all-append (some (records_list type)) (some (records_list type)) _
            (search_and_write_metadata archive base s e type fs)
            (write_file-follow archive s e type (archive.fopen (full_path archive base f)))
          ∙ search-follow archive base s e type fs)
      | inr other ↦ rw other (search-follow archive base s e type fs)
    ]

write_list-follow :
    (archive : Archive) (enabled : Bool) (base : Text) (pchan : CollectorInput)
    (type : MetaDataType) (found : List FoundFile)
    → follow_all none (write_list archive enabled base pchan type found) ≡ some none
unfolding write_list follow_all
write_list-follow archive false base pchan type found = refl
write_list-follow archive true base pchan type found =
    bracket (records_list type) _
      (search-follow archive base pchan.start_time pchan.end_time type found)

validate-follow :
    (archive : Archive) (has_file : Bool) (base : Text) (found : List FoundFile)
    → follow_all none (validate_and_write_metadata archive has_file base found) ≡ some none
unfolding validate_and_write_metadata follow_all
validate-follow archive false base found = refl
validate-follow archive true base found =
    bracket corruption_list _ (corrupt_segments-follow archive base found)

-- Complete lists one behind the other.
join :
    (es fs : List XmlEvent)
    → follow_all none es ≡ some none
    → follow_all none fs ≡ some none
    → follow_all none (es ++ fs) ≡ some none
join es fs h k = follow_all-append none none es fs h ∙ k

validated :
    (wanted : Bool) (es : List XmlEvent)
    → follow_all none es ≡ some none
    → follow_all none (if wanted then es else []) ≡ some none
unfolding follow_all
validated false es h = refl
validated true es h = h

write_lists-follow :
    (archive : Archive) (base : Text) (pchan : CollectorInput) (found : List FoundFile)
    → follow_all none (write_lists archive base pchan found) ≡ some none
unfolding write_lists
write_lists-follow archive base pchan found =
    join _ _ (validated pchan.validate_hash _ (validate-follow archive _ base found)) (
      join _ _ (write_list-follow archive pchan.gps_enabled base pchan gps found) (
        join _ _ (write_list-follow archive pchan.event_enabled base pchan video_event found) (
          join _ _ (write_list-follow archive pchan.timeoffset_enable base pchan time_info found)
            (write_list-follow archive pchan.loco_id_enable base pchan locomotive_id found))))

begin_document-follow :
    (archive : Archive) (file : Text) → follow_all none (begin_document archive file) ≡ some none
unfolding begin_document follow_all follow
begin_document-follow archive [] = refl
begin_document-follow archive (c ∷ cs) = ground arith

write_search-follow :
    (archive : Archive) (base : Text) (pchan : CollectorInput) (found : Option (List FoundFile))
    → follow_all none (write_search archive base pchan found) ≡ some none
unfolding write_search follow_all
write_search-follow archive base pchan none = refl
write_search-follow archive base pchan (some found) = write_lists-follow archive base pchan found

-- For every request and every archive, in the document each list that is started is closed before
-- another starts, all are closed at the end, records stand only in the list of their type and are
-- at least one at a time, corrupt segments stand only in the corruption list, and the declaration
-- stands in no list.
pub write_metadata_xml_document-follow :
    (archive : Archive) (pchan : CollectorInput) (es : List XmlEvent)
    → write_metadata_xml_document archive (some pchan) ≡ some es
    → follow_all none es ≡ some none
unfolding write_metadata_xml_document
write_metadata_xml_document-follow archive pchan es h =
    let base = join_path pchan.storage_location (codes "METADATA") in
    let found = archive.get_all_files base pchan.start_time pchan.end_time in
    let document =
      join _ _ (begin_document-follow archive pchan.file)
        (write_search-follow archive base pchan found) in
    cc
