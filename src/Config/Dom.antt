-- ===== src/Config/Dom.antt =====
-- The configuration files as XML documents: reagent/src/config/domutil.c. The XML library mxml is
-- an interface: D is a document, N a node of it.
pub mod Accept
pub mod Ends
pub mod Files
pub mod Flags
pub mod Written
pub mod Urls
pub mod Hosts
pub mod Tests
use recording_agent_continuo.Prelude.{
  ℕ, zero, suc, ◌+◌, ◌==◌, ltb, length, Bool, true, false, not, ◌&&◌, ◌||◌, Option, none, some,
  if◌then◌else◌, List, [], ◌∷◌, ◌++◌, ◌>>=◌,
}
use recording_agent_continuo.Prelude.Text.{Text, codes, text_eq, decimal}

-- mxmlFindElement below a node, the enumeration of an index of the camera elements, mxmlGetOpaque,
-- which gives no text for an element without one, mxmlSetOpaque, mxmlDelete, and mxmlAdd as the last child of a recorder node,
-- which takes the node out of the document that it stands in.
pub record Mxml (D N : Type 0) : Type 0 where
  pub root : D → N
  pub find : D → N → (tag : Text) → Option N
  pub cameras : D → List N
  pub value : D → N → Option Text
  pub set_value : N → Text → D → D
  pub delete : N → D → D
  pub adopt : (to from : N) → (to_doc from_doc : D) → D × D

-- camera_list_element_t. A name is up to its end or to the end of its array.
pub record CameraDef : Type 0 where
  pub camera : Text
  pub resolution : ℕ
  pub compression : ℕ
  pub frame_rate : ℕ
  pub audio_enable : ℕ
  pub is_essential : ℕ
  pub camera_max_recording_hours : ℕ

-- The definitions before the first that has no name.
unfoldable pub count_user_camdefs : List CameraDef → ℕ
count_user_camdefs [] = 0
count_user_camdefs (c ∷ cs) =
    let rest = count_user_camdefs cs in if text_eq c.camera [] then 0 else suc rest

-- An empty text, or a null pointer, is no parameter.
unfoldable pub recorder_params : (recorder_sn uc_locoid : Text) → List (Text × Text)
recorder_params recorder_sn uc_locoid =
    (if text_eq recorder_sn [] then [] else (codes "serial_number", recorder_sn) ∷ [])
    ++ (if text_eq uc_locoid [] then [] else (codes "loco_id", uc_locoid) ∷ [])

unfoldable pub camera_params : CameraDef → List (Text × Text)
camera_params c =
    (codes "resolution", decimal c.resolution)
    ∷ (codes "compression", decimal c.compression)
    ∷ (codes "frame_rate", decimal c.frame_rate)
    ∷ (codes "record_audio", decimal c.audio_enable)
    ∷ (codes "camera_essential", decimal c.is_essential)
    ∷ (codes "camera_max_recording_age", decimal c.camera_max_recording_hours)
    ∷ []

module _ {D N : Type 0} (m : Mxml D N) where
  open m use {root, find, cameras, value, set_value, delete, adopt}

  -- strcmp with the text of a found element; none where there is no text, a null pointer.
  unfoldable pub set_found :
      N → (cur_value : Option Text) → (new_val : Text) → D → Option (D × Bool)
  set_found n none new_val d = none
  set_found n (some cur) new_val d =
      if text_eq new_val cur then some (d, false) else some (set_value n new_val d, true)

  unfoldable pub set_data : Option N → (new_val : Text) → D → Option (D × Bool)
  set_data none new_val d = some (d, false)
  set_data (some n) new_val d = set_found n (value d n) new_val d

  -- The document and whether it was changed; none where the program reads through a null pointer.
  unfoldable pub du_set_child_new_data : N → (tag new_val : Text) → D → Option (D × Bool)
  du_set_child_new_data node tag new_val d = set_data (find d node tag) new_val d

  -- Calls of du_set_child_new_data one after another, with the flags put together by |=.
  unfoldable pub set_children : N → List (Text × Text) → D → Option (D × Bool)
  set_children node [] d = some (d, false)
  set_children node ((tag, v) ∷ rest) d = do
    (d1, dirty) ← du_set_child_new_data node tag v d
    (d2, more) ← set_children node rest d1
    some (d2, dirty || more)

  unfoldable pub patch_recorder_params : (recorder_sn uc_locoid : Text) → D → Option (D × Bool)
  patch_recorder_params recorder_sn uc_locoid d =
      set_children (root d) (recorder_params recorder_sn uc_locoid) d

  -- same_name is strncasecmp over CAMERA_NAME_LENGTH characters.
  module _ (same_name : Text → Text → Bool) where
    unfoldable pub find_camdef : (name : Text) → List CameraDef → Option CameraDef
    find_camdef name [] = none
    find_camdef name (c ∷ cs) =
        let rest = find_camdef name cs in
        if not (text_eq c.camera []) && same_name name c.camera then some c else rest

    -- The definition with a name; none where strncasecmp is called with a null pointer, which it is
    -- for the first definition that has a name.
    unfoldable pub camdef_of : (name : Option Text) → List CameraDef → Option (Option CameraDef)
    camdef_of (some name) uc_cameras = some (find_camdef name uc_cameras)
    camdef_of none [] = some none
    camdef_of none (c ∷ cs) =
        let rest = camdef_of none cs in if text_eq c.camera [] then rest else none

    unfoldable pub patch_found : N → Option CameraDef → D → Option (D × Bool × ℕ)
    patch_found node none d = some (d, false, 0)
    patch_found node (some c) d = do
      (d1, dirty) ← set_children node (camera_params c) d
      some (d1, dirty, 1)

    -- The camera element's name is looked up among the definitions.
    unfoldable pub patch_named : N → Option N → List CameraDef → D → Option (D × Bool × ℕ)
    patch_named node none uc_cameras d = some (d, false, 0)
    patch_named node (some name) uc_cameras d = do
      camdef ← camdef_of (value d name) uc_cameras
      patch_found node camdef d

    unfoldable pub patch_nodes : List N → List CameraDef → D → Option (D × Bool × ℕ)
    patch_nodes [] uc_cameras d = some (d, false, 0)
    patch_nodes (node ∷ nodes) uc_cameras d = do
      (d1, dirty, one) ← patch_named node (find d node (codes "name")) uc_cameras d
      (d2, more, matched) ← patch_nodes nodes uc_cameras d1
      some (d2, dirty || more, one + matched)

    -- The document, whether it is dirty, and the number of cameras that were matched.
    unfoldable pub patch_camdefs : List CameraDef → D → Option (D × Bool × ℕ)
    patch_camdefs uc_cameras d = do
      (d1, dirty, matched) ← patch_nodes (cameras d) uc_cameras d
      some (d1, dirty || not (matched == length uc_cameras), matched)

  -- With fuel for the elements that are deleted.
  unfoldable pub delete_found : (fuel : ℕ) → (tag : Text) → Option N → D → D
  delete_found fuel tag none d = d
  delete_found zero tag (some n) d = d
  delete_found (suc fuel) tag (some n) d =
      let left = delete n d in delete_found fuel tag (find left (root left) tag) left

  unfoldable pub du_del_children_by_tag : (fuel : ℕ) → (tag : Text) → D → D
  du_del_children_by_tag fuel tag d = delete_found fuel tag (find d (root d) tag) d

  unfoldable pub adopt_found : (fuel : ℕ) → (to : N) → Option N → (to_doc from_doc : D) → D
  adopt_found fuel to none to_doc from_doc = to_doc
  adopt_found zero to (some n) to_doc from_doc = to_doc
  adopt_found (suc fuel) to (some n) to_doc from_doc =
      let (to_left, left) = adopt to n to_doc from_doc in
      adopt_found fuel to (find left (root left) (codes "camera")) to_left left

  unfoldable pub adopt_into : (fuel : ℕ) → Option N → (to_doc from_doc : D) → D
  adopt_into fuel none to_doc from_doc = to_doc
  adopt_into fuel (some to) to_doc from_doc =
      adopt_found fuel to (find from_doc (root from_doc) (codes "camera")) to_doc from_doc

  unfoldable pub du_adopt_child_nodes : (fuel : ℕ) → (to_doc from_doc : D) → D
  du_adopt_child_nodes fuel to_doc from_doc =
      adopt_into fuel (find to_doc (root to_doc) (codes "recorder")) to_doc from_doc
