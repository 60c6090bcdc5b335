-- ===== src/Config/Dom/Accept.antt =====
-- Taking the user's configuration over into the files of the configuration: make_usercam_dom and
-- du_accept_user_config of reagent/src/config/domutil.c. A file is what parsing it gives.
use recording_agent_continuo.Prelude.{
  ℕ, ◌==◌, ltb, length, take, Bool, true, false, not, ◌&&◌, ◌||◌, Option, none, some, if◌then◌else◌,
  List, [], ◌∷◌, ◌++◌, ◌>>=◌,
}
use recording_agent_continuo.Prelude.Text.{Text, codes, decimal}
use recording_agent_continuo.Config.Dom.{
  Mxml, CameraDef, count_user_camdefs, patch_recorder_params, patch_camdefs, du_del_children_by_tag,
  du_adopt_child_nodes,
}

-- The files base_config.xml and current_config.xml; none cannot be opened and parsed.
pub record Disk (D : Type 0) : Type 0 where
  pub base_config : Option D
  pub current_config : Option D

-- What saving a file does: whether it succeeds, for each of the two files; and what the copy of the
-- one to the other leaves of the latter where it fails.
pub record Saving (D : Type 0) : Type 0 where
  pub saves_base : Bool
  pub saves_current : Bool
  pub failed_copy : Option (Option D)

abbrev element : (name : Text) → (value : Text) → Text
element name v = codes "<" ++ name ++ codes ">" ++ v ++ codes "</" ++ name ++ codes ">\n"

-- usercam_tpl, filled for one camera.
unfoldable pub camdef_to_xml : CameraDef → Text
camdef_to_xml c =
    codes "\n <camera>\n"
    ++ codes "   "
    ++ element (codes "name") c.camera
    ++ codes "   "
    ++ element (codes "camera_essential") (decimal c.is_essential)
    ++ codes "   "
    ++ element (codes "camera_max_recording_age") (decimal c.camera_max_recording_hours)
    ++ codes "   "
    ++ element (codes "resolution") (decimal c.resolution)
    ++ codes "   "
    ++ element (codes "compression") (decimal c.compression)
    ++ codes "   "
    ++ element (codes "frame_rate") (decimal c.frame_rate)
    ++ codes "   "
    ++ element (codes "record_audio") (decimal c.audio_enable)
    ++ codes "   "
    ++ element (codes "auto_record_to_chm") (codes "0")
    ++ codes "   "
    ++ element (codes "auto_record_to_rssd") (codes "0")
    ++ codes "   "
    ++ element (codes "mount_type") (codes "N")
    ++ codes " </camera>\n"

unfoldable pub camdefs_to_xml : List CameraDef → Text
camdefs_to_xml [] = []
camdefs_to_xml (c ∷ cs) = camdef_to_xml c ++ camdefs_to_xml cs

unfoldable pub user_camdefs_to_xml : List CameraDef → Text
user_camdefs_to_xml cs = codes "<recorder>\n" ++ camdefs_to_xml cs ++ codes "</recorder>\n"

-- What is given to du_accept_user_config.
pub record UserConfig : Type 0 where
  pub recorder_sn : Text
  pub uc_locoid : Text
  pub uc_cameras : List CameraDef

-- A file that is saved is what a later call parses.
abbrev pub save : {D : Type 0} → (saved : Bool) → D → Option D → Option D
save true d old = some d
save false d old = old

abbrev pub save_if : {D : Type 0} → (dirty saved : Bool) → D → Option D → Option D
save_if true saved d old = save saved d old
save_if false saved d old = old

-- rc is 0 unless the last file that is saved cannot be written.
abbrev pub save_rc : (dirty saved : Bool) → (rc_ok : Bool) → Bool
save_rc true saved rc_ok = saved
save_rc false saved rc_ok = rc_ok

abbrev pub is_none : {D : Type 0} → Option D → Bool
is_none none = true
is_none (some d) = false

-- load_string is mxmlLoadString; fuel is for the loops that delete and adopt elements.
module _ {D N : Type 0} (m : Mxml D N) (load_string : Text → Option D)
    (same_name : Text → Text → Bool) (fuel : ℕ) where
  unfoldable pub make_usercam_dom : List CameraDef → Option D
  make_usercam_dom [] = none
  make_usercam_dom (c ∷ cs) = load_string (user_camdefs_to_xml (c ∷ cs))

  unfoldable pub adopt_user : Option D → D → D
  adopt_user none d = d
  adopt_user (some user) d = du_adopt_child_nodes m fuel d user

  -- The camera elements are replaced by those of the user's document.
  unfoldable pub replace_camdefs : List CameraDef → D → D
  replace_camdefs uc d =
      adopt_user (make_usercam_dom uc) (du_del_children_by_tag m fuel (codes "camera") d)

  -- The cameras are replaced unless all were matched.
  unfoldable pub unless_matched :
      (base_n : ℕ) → List CameraDef → D × Bool × ℕ → Option (D × Bool × Bool)
  unless_matched base_n uc (d1, dirty, matched) =
      if not (matched == base_n)
      then some (replace_camdefs uc d1, true, true)
      else some (d1, dirty, false)

  -- The change of the base configuration behind its parameters: the document, whether it is dirty,
  -- and whether the cameras were replaced.
  unfoldable pub accept_cameras : List CameraDef → D → Option (D × Bool × Bool)
  accept_cameras uc d =
      let base_n = length (m.cameras d) in
      if ltb 0 (length uc) && (base_n == length uc)
      then patch_camdefs m same_name uc d >>= unless_matched base_n uc
      else some (replace_camdefs uc d, true, true)

  -- The result of cp is not looked at.
  unfoldable pub cp_base_to_current : (failed_copy : Option (Option D)) → Disk D → Disk D
  cp_base_to_current none disk = record disk { current_config = disk.base_config }
  cp_base_to_current (some left) disk = record disk { current_config = left }

  -- The current configuration: changed in place, or a copy of the file of the base configuration.
  unfoldable pub accept_current :
      UserConfig
      → List CameraDef
      → Saving D
      → Option D
      → (rc_ok : Bool) → Disk D
      → Option (Bool × Disk D)
  accept_current u uc saving none rc_ok disk =
      some (rc_ok, cp_base_to_current saving.failed_copy disk)
  accept_current u uc saving (some d) rc_ok disk = do
    (d1, dirty) ← patch_recorder_params m u.recorder_sn u.uc_locoid d
    (d2, more, matched) ← patch_camdefs m same_name uc d1
    some (
      save_rc (dirty || more) saving.saves_current rc_ok,
      record disk {
        current_config = save_if (dirty || more) saving.saves_current d2 disk.current_config;
      },
    )

  unfoldable pub finish_current :
      UserConfig
      → List CameraDef
      → Saving D
      → (replaced : Bool) → (rc_ok : Bool) → Disk D
      → Option (Bool × Disk D)
  finish_current u uc saving replaced rc_ok disk =
      if replaced
      then some (rc_ok, cp_base_to_current saving.failed_copy disk)
      else accept_current u uc saving disk.current_config rc_ok disk

  -- The base configuration, and then the current one.
  unfoldable pub accept_base :
      UserConfig → List CameraDef → Saving D → D → Disk D → Option (Bool × Disk D)
  accept_base u uc saving d disk = do
    (d1, dirty) ← patch_recorder_params m u.recorder_sn u.uc_locoid d
    (d2, more, replaced) ← accept_cameras uc d1
    finish_current u uc saving (replaced || (not (dirty || more) && is_none disk.current_config))
        (save_rc (dirty || more) saving.saves_base true)
        (record disk {
          base_config = save_if (dirty || more) saving.saves_base d2 disk.base_config;
        })

  abbrev pub accept_disk :
      UserConfig → List CameraDef → Saving D → Option D → Disk D → Option (Bool × Disk D)
  accept_disk u uc saving none disk = some (false, disk)
  accept_disk u uc saving (some d) disk = accept_base u uc saving d disk

  -- Whether 0 is returned, and the files; none where the program reads through a null pointer.
  unfoldable pub du_accept_user_config : UserConfig → Saving D → Disk D → Option (Bool × Disk D)
  du_accept_user_config u saving disk =
      accept_disk u (take (count_user_camdefs u.uc_cameras) u.uc_cameras) saving disk.base_config
        disk
