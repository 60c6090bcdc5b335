-- ===== src/Config/Media.antt =====
-- The recorders of the agent from their configuration files: reagent/src/config/reagent_config.c.
pub mod Recorders
pub mod Words
pub mod Names
pub mod Fallback
pub mod Tests
use recording_agent_continuo.Prelude.{
  ℕ, zero, suc, ◌+◌, ◌-◌, ◌==◌, ltb, leb, length, take, drop, Bool, true, false, not, ◌&&◌, ◌||◌,
  Option, none, some, if◌then◌else◌, List, [], ◌∷◌, ◌++◌, map,
}
use recording_agent_continuo.Prelude.Text.{Text, codes, text_eq, parse_digits}
use recording_agent_continuo.Config.Xml.{Param, Reader, File, get_cfg_params}

-- strtok_r with blanks, from the characters of a word that has begun.
unfoldable pub split_words : (word : Text) → Text → List Text
split_words [] [] = []
split_words (w ∷ ws) [] = (w ∷ ws) ∷ []
split_words [] (c ∷ cs) =
    let next = split_words [] cs in
    let more = split_words (c ∷ []) cs in if c == b' ' then next else more
split_words (w ∷ ws) (c ∷ cs) =
    let next = split_words [] cs in
    let more = split_words ((w ∷ ws) ++ c ∷ []) cs in if c == b' ' then (w ∷ ws) ∷ next else more

abbrev pub lwe_maxarg : ℕ
lwe_maxarg = 32

-- None where -1 is returned.
unfoldable pub l_wordexp : Text → Option (List Text)
l_wordexp [] = none
l_wordexp (c ∷ cs) = some (take lwe_maxarg (split_words [] (c ∷ cs)))

unfoldable pub str2bool : Text → Bool
str2bool [] = false
str2bool (c ∷ cs) = c == b'1' || (c == b'T' || (c == b't' || (c == b'Y' || (c == b'y'))))

unfoldable pub is_hex : ℕ → Bool
is_hex c = (leb b'0' c && leb c b'9') || ((leb b'A' c && leb c b'F') || (leb b'a' c && leb c b'f'))

-- The hexadecimal digits of a text, n of them at most.
unfoldable pub hex_digits : (n : ℕ) → Text → Text
unfolding is_hex
hex_digits zero s = []
hex_digits (suc n) [] = []
hex_digits (suc n) (c ∷ cs) =
    let taken = c ∷ hex_digits n cs in
    let skipped = hex_digits (suc n) cs in if is_hex c then taken else skipped

unfoldable pub fill : (c n : ℕ) → Text
fill c zero = []
fill c (suc n) = c ∷ fill c n

-- The text, filled up to a length on the right.
unfoldable pub fill_up : (c n : ℕ) → Text → Text
unfolding fill
fill_up c n s = s ++ fill c (n - length s)

-- The canonical form of a MAC address, as raconf_prepare_for_recording makes it.
unfoldable pub canonical_mac : Text → Text
unfolding hex_digits fill_up
canonical_mac disp_mac = fill_up b'0' 12 (hex_digits 12 disp_mac)

-- Where the elements of tmp_conf stand, those of a camera in its first camera.
pub record Layout : Type 0 where
  pub rec_ser_num : ℕ
  pub loco_id : ℕ
  pub staging_base : ℕ
  pub chunk_length : ℕ
  pub chm_footage_base : ℕ
  pub rssd_footage_base : ℕ
  pub media_max_age : ℕ
  pub name : ℕ
  pub disp_mac : ℕ
  pub model : ℕ
  pub homepage : ℕ
  pub stream_url : ℕ
  pub mjpeg_url : ℕ
  pub snapshot_url : ℕ
  pub chm_auto_rec : ℕ
  pub rssd_auto_rec : ℕ
  pub is_essential : ℕ
  pub max_age : ℕ
  pub resolution : ℕ
  pub compression : ℕ
  pub frame_rate : ℕ
  pub do_audio : ℕ
  pub mount_type : ℕ
  pub accessory_pwr : ℕ
  pub camdef_size : ℕ
  pub max_ser_num_size : ℕ
  pub max_loco_id_size : ℕ
  pub max_uri : ℕ
  pub camera_name_length : ℕ

abbrev recorder_tag : (depth : ℕ) → Text → (address max_val_len : ℕ) → Param
recorder_tag depth name address max_val_len = record {
  depth = depth;
  is_per_camera = false;
  name = name;
  value = some address;
  max_val_len = max_val_len;
}

abbrev camera_tag : Text → (address max_val_len : ℕ) → Param
camera_tag name address max_val_len = record {
  depth = 2;
  is_per_camera = true;
  name = name;
  value = some address;
  max_val_len = max_val_len;
}

abbrev plain_tag : Text → (max_val_len : ℕ) → Param
plain_tag name max_val_len = record {
  depth = 1;
  is_per_camera = false;
  name = name;
  value = none;
  max_val_len = max_val_len;
}

module _ (l : Layout) where
  open l use {max_uri, camdef_size}

  abbrev pub cfg_tag_tpl : List Param
  cfg_tag_tpl =
      recorder_tag 1 (codes "serial_number") l.rec_ser_num (l.max_ser_num_size + 1)
      ∷ recorder_tag 1 (codes "loco_id") l.loco_id (l.max_loco_id_size + 1)
      ∷ plain_tag (codes "video_storage") 0
      ∷ plain_tag (codes "camera") camdef_size
      ∷ recorder_tag 2 (codes "staging_base_dir") l.staging_base max_uri
      ∷ recorder_tag 2 (codes "video_chunk_duration") l.chunk_length 6
      ∷ recorder_tag 2 (codes "chm_video_base_dir") l.chm_footage_base max_uri
      ∷ recorder_tag 2 (codes "rssd_video_base_dir") l.rssd_footage_base max_uri
      ∷ recorder_tag 2 (codes "max_age") l.media_max_age 12
      ∷ camera_tag (codes "name") l.name (l.camera_name_length + 1)
      ∷ camera_tag (codes "serial") l.disp_mac 19
      ∷ camera_tag (codes "model") l.model 21
      ∷ camera_tag (codes "home_page") l.homepage max_uri
      ∷ camera_tag (codes "stream_url") l.stream_url max_uri
      ∷ camera_tag (codes "mjpeg_url") l.mjpeg_url max_uri
      ∷ camera_tag (codes "snapshot_url") l.snapshot_url max_uri
      ∷ camera_tag (codes "auto_record_to_chm") l.chm_auto_rec 4
      ∷ camera_tag (codes "auto_record_to_rssd") l.rssd_auto_rec 4
      ∷ camera_tag (codes "camera_essential") l.is_essential 4
      ∷ camera_tag (codes "camera_max_recording_age") l.max_age 4
      ∷ camera_tag (codes "resolution") l.resolution 4
      ∷ camera_tag (codes "compression") l.compression 4
      ∷ camera_tag (codes "frame_rate") l.frame_rate 4
      ∷ camera_tag (codes "record_audio") l.do_audio 4
      ∷ camera_tag (codes "mount_type") l.mount_type 4
      ∷ camera_tag (codes "accessory_power") l.accessory_pwr 4
      ∷ []
