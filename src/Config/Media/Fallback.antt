-- ===== src/Config/Media/Fallback.antt =====
-- Start-up when no configuration file can be opened.
use recording_agent_continuo.Prelude.{
  ℕ, zero, suc, ◌≤◌, length, take, drop, Bool, false, ◌≡◌, refl, ap, ◌∙◌, Option, none, some, List,
  [], ◌∷◌, arith, All, if_false,
}
use recording_agent_continuo.Prelude.Text.{Text, codes, text_eq}
use recording_agent_continuo.Config.Xml.{Reader, File, do_file, get_cfg_params}
use recording_agent_continuo.Config.Media.{Layout}
use recording_agent_continuo.Config.Media.Recorders.{
  Recorder, max_recorders, read_file, read_files, open_all, fallback, read_fallback, read_arguments,
  or_fallback, set_up, init_recorders, raconf_init,
}

module _ (l : Layout) (open_file : Text → Option File) where
  abbrev pub IsMissing : Text → Type 0
  IsMissing name = open_file name ≡ none

  read_files-missing :
      (files : List Text) (r : Reader)
      → All IsMissing files
      → (s : Reader) × (read_files l (open_all l open_file files) r [] ≡ some (s, []))
  unfolding read_files read_file get_cfg_params do_file
  read_files-missing [] r h = (r, refl)
  read_files-missing (f ∷ files) r h =
      rw h.0 (read_files-missing files (record r { values = λ a. [] }) h.1)

  All-take : (n : ℕ) (files : List Text) → All IsMissing files → All IsMissing (take n files)
  All-take zero files h = tt
  All-take (suc n) [] h = tt
  All-take (suc n) (f ∷ files) h = (h.0, All-take n files h.1)

  drop-short : (n : ℕ) (files : List Text) → length files ≤ n → drop n files ≡ []
  drop-short zero [] h = refl
  drop-short zero (f ∷ files) h = absurd (omega arith)
  drop-short (suc n) [] h = refl
  drop-short (suc n) (f ∷ files) h = drop-short n files (omega arith)

  read_fallback-missing :
      (args : List Text) (r : Reader)
      → drop max_recorders args ≡ []
      → (s : Reader) × (read_fallback l open_file args r [] ≡ some (s, []))
  unfolding read_fallback read_files read_file get_cfg_params do_file
  read_fallback-missing args r h = (
    record r { values = λ a. [] },
    ap (λ left. read_files l (fallback l open_file left ∷ []) r []) h,
  )

  -- If the agent is given one to eight configuration files, the first not named -, and none of
  -- them can be opened, it has no recorder, whatever other file can be opened.
  pub raconf_init-missing :
      (chm ssd : Bool) (arg : Text) (args : List Text) (r : Reader) (old : List Recorder)
      → text_eq arg (codes "-") ≡ false
      → length (arg ∷ args) ≤ max_recorders
      → All IsMissing (arg ∷ args)
      → (s : Reader) × (raconf_init l open_file chm ssd (arg ∷ args) r old ≡ some (s, []))
  unfolding raconf_init read_arguments
  raconf_init-missing chm ssd arg args r old named few missing =
      let all = arg ∷ args in
      let (s, none_read) =
        read_files-missing (take max_recorders all) r (All-take max_recorders all missing) in
      let (t, none_left) = read_fallback-missing all s (drop-short max_recorders all few) in
      (
        t,
        if_false (text_eq arg (codes "-")) (some (r, old))
              (set_up l open_file chm ssd (read_arguments l open_file all r)) named
            ∙ ap (λ o. set_up l open_file chm ssd (or_fallback l open_file all o)) none_read
            ∙ ap (set_up l open_file chm ssd) none_left
            ∙ (unfold init_recorders in refl),
      )
