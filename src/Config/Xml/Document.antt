-- ===== src/Config/Xml/Document.antt =====
-- The part of a configuration file that describes cameras, as the calls of the handlers that it
-- leads to, and the values that are to be stored for it.
use recording_agent_continuo.Prelude.{
  ℕ, ◌+◌, ◌-◌, ◌<◌, ◌≤◌, length, take, true, false, ◌≡◌, ◌⊎◌, Option, some, List, [], ◌∷◌, ◌++◌,
  set_at, All,
}
use recording_agent_continuo.Prelude.Text.{Text, codes, text_eq}
use recording_agent_continuo.Config.Xml.{
  Param, Reader, Event, start_of, end_of, characters, buffer_size, find_param,
}

-- An element for a parameter with an address: its text in the pieces in which expat gives it, the
-- text without the blanks around it, and the pieces between this element and the next tag.
pub record Field : Type 0 where
  pub param : Param
  pub address : ℕ
  pub pieces : List Text
  pub text : Text
  pub gap : List Text

pub record CameraElement : Type 0 where
  pub gap_inside : List Text
  pub fields : List Field
  pub gap : List Text

abbrev pub join : List Text → Text
join [] = []
join (s ∷ ss) = s ++ join ss

abbrev pub pieces_then : List Text → List Event → List Event
pieces_then [] rest = rest
pieces_then (s ∷ ss) rest = characters s ∷ pieces_then ss rest

abbrev pub field_then : Field → List Event → List Event
field_then f rest =
    start_of f.param.name ∷ pieces_then f.pieces (end_of f.param.name ∷ pieces_then f.gap rest)

abbrev pub fields_then : List Field → List Event → List Event
fields_then [] rest = rest
fields_then (f ∷ fs) rest = field_then f (fields_then fs rest)

abbrev pub camera_then : CameraElement → List Event → List Event
camera_then c rest =
    start_of (codes "camera")
    ∷ pieces_then c.gap_inside
        (fields_then c.fields (end_of (codes "camera") ∷ pieces_then c.gap rest))

abbrev pub cameras_then : List CameraElement → List Event → List Event
cameras_then [] rest = rest
cameras_then (c ∷ cs) rest = camera_then c (cameras_then cs rest)

-- Each field's text goes to its address, moved by the size of a camera for each camera before.
abbrev pub store_field : (offset : ℕ) → Field → (ℕ → Text) → ℕ → Text
store_field offset f = set_at (f.address + offset) (take (f.param.max_val_len - 1) f.text)

abbrev pub store_fields : (offset : ℕ) → List Field → (ℕ → Text) → ℕ → Text
store_fields offset [] vs = vs
store_fields offset (f ∷ fs) vs = store_fields offset fs (store_field offset f vs)

abbrev pub store_cameras : (size offset : ℕ) → List CameraElement → (ℕ → Text) → ℕ → Text
store_cameras size offset [] vs = vs
store_cameras size offset (c ∷ cs) vs =
    store_cameras size (offset + size) cs (store_fields offset c.fields vs)

abbrev pub IsBlank : Text → Type 0
IsBlank = All (λ c. c ≤ b' ')

-- The first character is no blank.
abbrev pub Starts : Text → Type 0
Starts [] = ⊥
Starts (c ∷ cs) = b' ' < c

-- The last character is no blank.
abbrev pub Ends : Text → Type 0
Ends [] = ⊥
Ends (c ∷ []) = b' ' < c
Ends (c ∷ d ∷ ds) = Ends (d ∷ ds)

-- Both are empty, or the value is what stands between the blanks of the text.
abbrev pub IsTrimmed : (text value : Text) → Type 0
IsTrimmed text value =
    ((text ≡ []) × (value ≡ []))
    ⊎ ((lead : Text) × (trail : Text) × (text ≡ lead ++ (value ++ trail))
        × IsBlank lead
        × IsBlank trail
        × Starts value
        × Ends value)

-- The table has the field's parameter, for cameras, and its text is short enough for the buffer and
-- is empty or has a character that is no blank.
pub record IsField (params : List Param) (f : Field) : Type 0 where
  pub found : find_param 2 f.param.name params ≡ some f.param
  pub addressed : f.param.value ≡ some f.address
  pub per_camera : f.param.is_per_camera ≡ true
  pub named : text_eq f.param.name (codes "camera") ≡ false
  pub short : length (join f.pieces) < buffer_size
  pub trimmed : IsTrimmed (join f.pieces) f.text

abbrev pub IsCameraElement : List Param → CameraElement → Type 0
IsCameraElement params c = All (IsField params) c.fields

-- The reader between two tags.
abbrev pub between : List Param → Option Param → (level offset : ℕ) → (ℕ → Text) → Reader
between params p level offset vs = record {
  params = params;
  grab_next_value = false;
  cur_param = p;
  cur_level = level;
  cur_offset = offset;
  char_data_buffer = [];
  overflow = false;
  values = vs;
}
