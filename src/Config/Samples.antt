-- ===== src/Config/Samples.antt =====
-- A configuration file of two cameras, and a document of four elements.
use recording_agent_continuo.Prelude.{
  ℕ, ◌==◌, true, false, Option, none, some, if◌then◌else◌, List, [], ◌∷◌,
}
use recording_agent_continuo.Prelude.Text.{Text, codes, text_eq}
use recording_agent_continuo.Config.Xml.{Param, Reader, File}
use recording_agent_continuo.Config.Xml.Document.{Field, CameraElement}
use recording_agent_continuo.Config.Xml.Files.{document}
use recording_agent_continuo.Config.Dom.{Mxml, CameraDef}

abbrev pub camera_param : Param
camera_param = record {
  depth = 1;
  is_per_camera = false;
  name = codes "camera";
  value = none;
  max_val_len = 100;
}

abbrev pub name_param : Param
name_param = record {
  depth = 2;
  is_per_camera = true;
  name = codes "name";
  value = some 10;
  max_val_len = 13;
}

abbrev pub params : List Param
params = camera_param ∷ (name_param ∷ [])

abbrev pub name_field : List Text → Text → Field
name_field pieces text = record {
  param = name_param;
  address = 10;
  pieces = pieces;
  text = text;
  gap = codes " " ∷ [];
}

abbrev pub front_field : Field
front_field = name_field (codes "fro" ∷ codes "nt" ∷ []) (codes "front")

abbrev pub rear_field : Field
rear_field = name_field (codes " re" ∷ codes "ar " ∷ []) (codes "rear")

abbrev pub camera_element : Field → CameraElement
camera_element f = record { gap_inside = codes " " ∷ []; fields = f ∷ []; gap = [] }

abbrev pub front : CameraElement
front = camera_element front_field

abbrev pub rear : CameraElement
rear = camera_element rear_field

abbrev pub file : File
file = record {
  blocks = [];
  final = some (document (codes "recorder") (codes " " ∷ []) (front ∷ rear ∷ []), true);
}

abbrev pub reader : Reader
reader = record {
  params = [];
  grab_next_value = true;
  cur_param = none;
  cur_level = 4;
  cur_offset = 7;
  char_data_buffer = codes "x";
  overflow = true;
  values = λ a. [];
}

-- Documents of four texts: the locomotive, and the name, the resolution and the frame rate of one
-- camera, which is node 9.
abbrev pub find_node : (tag : Text) → Option ℕ
find_node tag =
    if text_eq tag (codes "loco_id")
    then some 0
    else if text_eq tag (codes "name")
    then some 1
    else if text_eq tag (codes "resolution")
    then some 2
    else if text_eq tag (codes "frame_rate")
    then some 3
    else none

-- A node without a text stays so.
abbrev pub put_text : Text → Option Text → Option Text
put_text t none = none
put_text t (some old) = some t

abbrev pub mxml : Mxml (ℕ → Option Text) ℕ
mxml = record {
  root = λ d. 10;
  find = λ d n tag. find_node tag;
  cameras = λ d. 9 ∷ [];
  value = λ d n. d n;
  set_value = λ n t d k. if n == k then put_text t (d k) else d k;
  delete = λ n d. d;
  adopt = λ to from to_doc from_doc. (to_doc, from_doc);
}

abbrev pub doc : ℕ → Option Text
doc n =
    if n == 0
    then some (codes "LOCO")
    else if n == 1
    then some (codes "front")
    else if n == 2
    then some (codes "1")
    else some (codes "0")

abbrev pub front_def : CameraDef
front_def = record {
  camera = codes "front";
  resolution = 2;
  compression = 1;
  frame_rate = 3;
  audio_enable = 0;
  is_essential = 1;
  camera_max_recording_hours = 24;
}
