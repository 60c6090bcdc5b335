-- ===== src/Config/Dom/Files.antt =====
-- The files of the configuration after the user's was accepted.
use recording_agent_continuo.Prelude.{
  ℕ, take, Bool, true, false, not, ◌&&◌, ◌||◌, ◌≡◌, refl, ap, ap₂, sym, ◌∙◌, Option, none, some,
  List, ◌>>=◌, >>=_agree_twice,
}
use recording_agent_continuo.Prelude.Text.{Text}
use recording_agent_continuo.Config.Dom.{
  Mxml, CameraDef, count_user_camdefs, patch_recorder_params, patch_camdefs,
}
use recording_agent_continuo.Config.Dom.Accept.{
  UserConfig, Disk, Saving, accept_cameras, save_if, save_rc, accept_current, finish_current,
  cp_base_to_current, accept_base, du_accept_user_config,
}
use recording_agent_continuo.Config.Dom.Flags.{
  IsSound, IsSoundPair, IsSoundTriple, both-IsSound, patch_recorder_params-IsSound,
  patch_camdefs-IsSound, accept_cameras-IsSound,
}

save_if_sound :
    {D : Type 0} (old new : D) (dirty : Bool)
    → IsSound old dirty new
    → save_if dirty true new (some old) ≡ some new
save_if_sound old new true h = refl
save_if_sound old new false h = ap some (sym (h refl))

-- The definitions that are taken over.
abbrev used : UserConfig → List CameraDef
used u = take (count_user_camdefs u.uc_cameras) u.uc_cameras

-- Every file can be saved and copied.
abbrev pub all_saved : {D : Type 0} → Saving D
all_saved = record { saves_base = true; saves_current = true; failed_copy = none }

abbrev pub both_files : {D : Type 0} → D → D → Disk D
both_files d c = record { base_config = some d; current_config = some c }

-- The two files.
abbrev pub files : {D : Type 0} → Bool × Disk D → Option D × Option D
files (rc, disk) = (disk.base_config, disk.current_config)

or_and_false : (b c : Bool) → (b || (c && false)) ≡ b
or_and_false true c = refl
or_and_false false true = refl
or_and_false false false = refl

module _ {D N : Type 0} (m : Mxml D N) (load_string : Text → Option D)
    (same_name : Text → Text → Bool) (fuel : ℕ) where
  abbrev recorder : UserConfig → D → Option (D × Bool)
  recorder u d = patch_recorder_params m u.recorder_sn u.uc_locoid d

  abbrev cameras : UserConfig → D → Option (D × Bool × Bool)
  cameras u d = accept_cameras m load_string same_name fuel (used u) d

  -- The change of a base configuration, without flags, and whether its cameras are replaced.
  abbrev pub wanted : UserConfig → D → Option (D × Bool)
  wanted u d = do
    (d1, dirty) ← recorder u d
    (d2, more, replaced) ← cameras u d1
    some (d2, replaced)

  -- The change of a current configuration that is kept, without flags.
  abbrev pub changed : UserConfig → D → Option D
  changed u c = do
    (c1, dirty) ← recorder u c
    (c2, more, matched) ← patch_camdefs m same_name (used u) c1
    some c2

  -- The current configuration beside a changed base configuration.
  abbrev pub beside : UserConfig → D → D × Bool → Option (Option D × Option D)
  beside u c (w, true) = some (some w, some w)
  beside u c (w, false) = do c' ← changed u c; some (some w, some c')

  accept_current-files :
      (u : UserConfig) (w c : D) (rc_ok : Bool)
      → (do
        r ←
            accept_current m load_string same_name fuel u
              (used u)
              all_saved
              (some c)
              rc_ok
              (both_files w c)
        some (files r))
        ≡ beside u c (w, false)
  unfolding accept_current
  accept_current-files u w c rc_ok =
      >>=_agree_twice (IsSoundPair c) (λ a. IsSoundTriple a.0) (recorder u c)
        (λ a. patch_camdefs m same_name (used u) a.0) _ _ (λ a b. b.0)
        (λ c'. some (some w, some c')) (patch_recorder_params-IsSound m u.recorder_sn u.uc_locoid c)
        (λ a. patch_camdefs-IsSound m same_name (used u) a.0)
        (λ a b one more.
          ap (λ o. some (some w, o))
            (save_if_sound c b.0 (a.1 || b.1) (both-IsSound c a.0 b.0 a.1 b.1 one more)))

  finish_current-files :
      (u : UserConfig) (d w c : D) (dirty replaced rc_ok : Bool)
      → IsSound d dirty w
      → (do
        r ←
            finish_current m load_string same_name fuel u
              (used u)
              all_saved
              (replaced || (not dirty && false))
              rc_ok
              (record { base_config = save_if dirty true w (some d); current_config = some c })
        some (files r))
        ≡ beside u c (w, replaced)
  unfolding finish_current cp_base_to_current
  finish_current-files u d w c dirty true rc_ok h =
      ap (λ o. some (o, o)) (save_if_sound d w dirty h)
  finish_current-files u d w c dirty false rc_ok h =
      ap₂
        (λ b o. do
          r ←
              finish_current m load_string same_name fuel u (used u) all_saved b rc_ok
                (record { base_config = o; current_config = some c })
          some (files r))
        (or_and_false false (not dirty)) (save_if_sound d w dirty h)
      ∙ accept_current-files u w c rc_ok

  -- If both files of the configuration can be parsed, saved and copied, then accepting the user's
  -- configuration fails exactly where one of its changes does, and otherwise the base
  -- configuration is the document with all changes made to it, and the current configuration is
  -- the same document if the cameras were replaced, and otherwise its own with all changes made:
  -- the flags that skip a save lose no change.
  pub du_accept_user_config-files :
      (u : UserConfig) (d c : D)
      → (do
        r ← du_accept_user_config m load_string same_name fuel u all_saved (both_files d c)
        some (files r))
        ≡ (wanted u d >>= beside u c)
  unfolding du_accept_user_config accept_base
  du_accept_user_config-files u d c =
      >>=_agree_twice (IsSoundPair d) (λ a. IsSoundTriple a.0) (recorder u d) (λ a. cameras u a.0) _
        _ (λ a b. (b.0, b.2)) (beside u c)
        (patch_recorder_params-IsSound m u.recorder_sn u.uc_locoid d)
        (λ a. accept_cameras-IsSound m same_name load_string fuel (used u) a.0)
        (λ a b one more.
          finish_current-files u d b.0 c (a.1 || b.1) b.2 (save_rc (a.1 || b.1) true true)
            (both-IsSound d a.0 b.0 a.1 b.1 one more))
