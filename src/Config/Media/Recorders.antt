-- ===== src/Config/Media/Recorders.antt =====
-- raconf_parse and raconf_init of reagent/src/config/reagent_config.c: the recorders that the
-- configuration files describe, and the command lines of the processes that work for them.
use recording_agent_continuo.Prelude.{
  ℕ, zero, suc, ◌+◌, ◌*◌, ltb, take, drop, Bool, false, not, ◌&&◌, Option, none, some,
  if◌then◌else◌, List, [], ◌∷◌, ◌++◌,
}
use recording_agent_continuo.Prelude.Text.{Text, codes, text_eq, parse_digits, decimal}
use recording_agent_continuo.Config.Xml.{Reader, File, get_cfg_params}
use recording_agent_continuo.Config.Media.{Layout, cfg_tag_tpl, fill_up, l_wordexp}

-- A camera as it is set up: what its texts hold, and the start of its run-time part.
pub record CameraSetup : Type 0 where
  pub name : Text
  pub disp_mac : Text
  pub stream_url : Text
  pub resolution : ℕ
  pub compression : ℕ
  pub frame_rate : ℕ
  pub is_essential : ℕ
  pub is_assigned : Bool
  pub is_online : Bool

pub record Recorder : Type 0 where
  pub loco_id : Text
  pub cameras : List CameraSetup
  pub is_chm_ready : Bool
  pub is_rssd_ready : Bool
  pub space_monitor_words : Option (List Text)

abbrev pub max_recorders : ℕ
max_recorders = 8

abbrev pub max_cams : ℕ
max_cams = 16

abbrev pub max_cam_name_size : ℕ
max_cam_name_size = 12

abbrev pub is_set : Text → Bool
is_set s = not (text_eq s [])

-- cmd_tpl_metarec, filled; the flags are printed with two hexadecimal digits.
unfoldable pub metarec_command :
    (is_chm_ready is_rssd_ready : Bool) → (loco_id chunk_length chm rssd : Text) → Text
metarec_command is_chm_ready is_rssd_ready loco_id chunk_length chm rssd =
    codes "/opt/reagent/bin/metarec -l "
    ++ loco_id
    ++ codes " -d "
    ++ chunk_length
    ++ codes " -r 0"
    ++ ((48 + ((if is_chm_ready then 1 else 0) + (if is_rssd_ready then 2 else 0))) ∷ [])
    ++ codes " -1 "
    ++ chm
    ++ codes " -2 "
    ++ rssd

-- The words of the command line, which is cut to the size of worker_cmd.
unfoldable pub raconf_prepare_for_metarecording :
    (is_chm_ready is_rssd_ready : Bool)
    → (loco_id chunk_length chm rssd : Text) → Option (List Text)
raconf_prepare_for_metarecording is_chm_ready is_rssd_ready loco_id chunk_length chm rssd =
    l_wordexp (take 510 (metarec_command is_chm_ready is_rssd_ready loco_id chunk_length chm rssd))

unfoldable pub space_monitor_command : (max_age : ℕ) → (chm rssd : Text) → Text
space_monitor_command max_age chm rssd =
    codes "/opt/reagent/bin/space_monitor -l "
    ++ decimal max_age
    ++ codes " "
    ++ chm
    ++ codes " "
    ++ rssd

module _ (l : Layout) where
  -- Camera j of the values that a file left.
  unfoldable pub init_camera : (values : ℕ → Text) → (offset : ℕ) → CameraSetup
  init_camera values offset = record {
    name = fill_up b'_' max_cam_name_size (values (l.name + offset));
    disp_mac = values (l.disp_mac + offset);
    stream_url = values (l.stream_url + offset);
    resolution = parse_digits 0 (values (l.resolution + offset));
    compression = parse_digits 0 (values (l.compression + offset));
    frame_rate = parse_digits 0 (values (l.frame_rate + offset));
    is_essential = parse_digits 0 (values (l.is_essential + offset));
    is_assigned = is_set (values (l.disp_mac + offset)) && is_set (values (l.stream_url + offset));
    is_online = false;
  }

  -- The cameras up to the first without a name, rounds of them at most.
  unfoldable pub init_cameras : (rounds j : ℕ) → (values : ℕ → Text) → List CameraSetup
  init_cameras zero j values = []
  init_cameras (suc rounds) j values =
      let rest = init_cameras rounds (suc j) values in
      if is_set (values (l.name + j * l.camdef_size))
      then init_camera values (j * l.camdef_size) ∷ rest
      else []

  -- The locomotive is filled up in the loop over the cameras.
  unfoldable pub init_loco_id : List CameraSetup → (loco_id : Text) → Text
  init_loco_id [] loco_id = loco_id
  init_loco_id (c ∷ cs) loco_id = fill_up b'_' l.max_loco_id_size loco_id

  -- The age of the recorder before is kept where the file gives none.
  unfoldable pub next_max_age : (max_age : ℕ) → Text → ℕ
  next_max_age max_age [] = max_age
  next_max_age max_age (c ∷ cs) = parse_digits 0 (c ∷ cs)

  unfoldable pub init_recorder :
      (chm_ready removable_ssd_ready : Bool) → (max_age : ℕ) → (values : ℕ → Text) → Recorder
  init_recorder chm_ready removable_ssd_ready max_age values =
      let cameras = init_cameras max_cams 0 values in
      record {
        loco_id = init_loco_id cameras (values l.loco_id);
        cameras = cameras;
        is_chm_ready = chm_ready;
        is_rssd_ready = removable_ssd_ready;
        space_monitor_words = l_wordexp (
            take 1022 (
              space_monitor_command max_age (values l.chm_footage_base)
                (values l.rssd_footage_base)));
      }

  unfoldable pub init_recorders :
      (chm_ready removable_ssd_ready : Bool) → (max_age : ℕ) → List (ℕ → Text) → List Recorder
  init_recorders chm_ready removable_ssd_ready max_age [] = []
  init_recorders chm_ready removable_ssd_ready max_age (values ∷ rest) =
      let age = next_max_age max_age (values l.media_max_age) in
      init_recorder chm_ready removable_ssd_ready age values
      ∷ init_recorders chm_ready removable_ssd_ready age rest

  -- One file, read into the cleared tmp_conf; the reader's static variables stay.
  unfoldable pub read_file : Option File → Reader → Option (ℕ × Reader)
  read_file file r =
      get_cfg_params ((cfg_tag_tpl l, file) ∷ []) 0 (record r { values = λ address. [] })

  abbrev pub keep_read : Option (ℕ × Reader) → List (ℕ → Text) → Option (Reader × List (ℕ → Text))
  keep_read none found = none
  keep_read (some (n, r)) found = some (r, if ltb 0 n then found ++ r.values ∷ [] else found)

  -- What the files that can be read leave, behind what was found before; none where the reader
  -- reads outside its objects.
  unfoldable pub read_files :
      List (Option File) → Reader → List (ℕ → Text) → Option (Reader × List (ℕ → Text))
  read_files [] r found = some (r, found)
  read_files (file ∷ files) r found = elim (keep_read (read_file file r) found) [
    | none ↦ none
    | some (s, more) ↦ read_files files s more
  ]

  module _ (open_file : Text → Option File) where
    abbrev pub open_all : List Text → List (Option File)
    open_all [] = []
    open_all (name ∷ names) = open_file name ∷ open_all names

    -- argv[i] behind the loop over the arguments; a null pointer cannot be opened.
    abbrev pub fallback : List Text → Option File
    fallback [] = none
    fallback (name ∷ names) = open_file name

    unfoldable pub read_fallback :
        List Text → Reader → List (ℕ → Text) → Option (Reader × List (ℕ → Text))
    read_fallback args r [] = read_files (fallback (drop max_recorders args) ∷ []) r []
    read_fallback args r (values ∷ rest) = some (r, values ∷ rest)

    abbrev pub or_fallback :
        List Text → Option (Reader × List (ℕ → Text)) → Option (Reader × List (ℕ → Text))
    or_fallback args none = none
    or_fallback args (some (s, found)) = read_fallback args s found

    unfoldable pub read_arguments : List Text → Reader → Option (Reader × List (ℕ → Text))
    read_arguments args r = or_fallback args (read_files (open_all (take max_recorders args)) r [])

    abbrev pub set_up :
        (chm_ready removable_ssd_ready : Bool)
        → Option (Reader × List (ℕ → Text))
        → Option (Reader × List Recorder)
    set_up chm_ready removable_ssd_ready none = none
    set_up chm_ready removable_ssd_ready (some (s, found)) =
        some (s, init_recorders chm_ready removable_ssd_ready 0 found)

    -- The arguments behind the program's name. Without one, or with "-", the recorders stay.
    unfoldable pub raconf_init :
        (chm_ready removable_ssd_ready : Bool)
        → List Text
        → Reader
        → List Recorder
        → Option (Reader × List Recorder)
    raconf_init chm_ready removable_ssd_ready [] r old = some (r, old)
    raconf_init chm_ready removable_ssd_ready (arg ∷ args) r old =
        if text_eq arg (codes "-")
        then some (r, old)
        else set_up chm_ready removable_ssd_ready (read_arguments (arg ∷ args) r)
