-- ===== src/Config/Media/Tests.antt =====
-- A command line, a MAC address and a start without files.
use recording_agent_continuo.Prelude.{
  ◌==◌, take, ◌++◌, true, ◌≡◌, refl, if◌then◌else◌, Option, none, some, List, [], ◌∷◌, arith,
}
use recording_agent_continuo.Prelude.Text.{Text, codes}
use recording_agent_continuo.Config.Xml.{Reader, File}
use recording_agent_continuo.Config.Media.{Layout, canonical_mac, l_wordexp}
use recording_agent_continuo.Config.Media.Recorders.{raconf_init}
use recording_agent_continuo.Config.Media.Words.{line, l_wordexp-line}
use recording_agent_continuo.Config.Media.Names.{hexadecimal, canonical_mac-digits}
use recording_agent_continuo.Config.Media.Fallback.{raconf_init-missing}
use recording_agent_continuo.Config.Samples.{reader, file}

abbrev words : List Text
words = codes "rtsprec" ∷ (codes "-l" ∷ (codes "LOCO" ∷ []))

l_wordexp-line_example : l_wordexp (line words) ≡ some words
l_wordexp-line_example =
    l_wordexp-line (codes "rtsprec") (codes "-l" ∷ (codes "LOCO" ∷ [])) (ground arith) (omega arith)

canonical_mac-digits_example :
    canonical_mac (codes "ac:cc-8e")
    ≡ take 12 (hexadecimal (codes "ac:cc-8e") ++ codes "000000000000")
canonical_mac-digits_example = canonical_mac-digits (codes "ac:cc-8e")

abbrev layout : Layout
layout = record {
  rec_ser_num = 0;
  loco_id = 1;
  staging_base = 2;
  chunk_length = 3;
  chm_footage_base = 4;
  rssd_footage_base = 5;
  media_max_age = 6;
  name = 10;
  disp_mac = 11;
  model = 12;
  homepage = 13;
  stream_url = 14;
  mjpeg_url = 15;
  snapshot_url = 16;
  chm_auto_rec = 17;
  rssd_auto_rec = 18;
  is_essential = 19;
  max_age = 20;
  resolution = 21;
  compression = 22;
  frame_rate = 23;
  do_audio = 24;
  mount_type = 25;
  accessory_pwr = 26;
  camdef_size = 100;
  max_ser_num_size = 11;
  max_loco_id_size = 10;
  max_uri = 256;
  camera_name_length = 12;
}

-- Only the base configuration can be opened.
abbrev only_base : Text → Option File
only_base [] = none
only_base (c ∷ cs) = if c == b'/' then some file else none

raconf_init-missing_example :
    (s : Reader) × (raconf_init layout only_base true true (codes "current.xml" ∷ []) reader []
      ≡ some (s, []))
raconf_init-missing_example =
    raconf_init-missing layout only_base true true (codes "current.xml") [] reader [] refl
      (omega arith) (refl, tt)
