-- ===== src/Agent/Audio.antt =====
-- What CAMERA_SETTINGS makes of a camera's mode.
use recording_agent_continuo.Prelude.{
  ℕ, ltb, ◌==◌, ◌≡◌, refl, ap, ◌∙◌, true, false, not, ◌&&◌, some, ==_same, set_at_same, Bool-cases,
  inl, inr, arith,
}
use recording_agent_continuo.Agent.State.{Flags, Agent, World, put_camera, raconf_find_camera}
use recording_agent_continuo.Agent.Settings.{
  CameraSettings, audio_mode, chm_mode, settings_mode, set_age, set_camera, msgcb_camera_settings,
}

settings_mode-chm :
    (m : CameraSettings) (mode : Flags)
    → m.no_audio_recording ≡ true
    → m.no_chm_recording ≡ false
    → mode.chm_video ≡ false
    → ((settings_mode m mode).chm_video ≡ true)
      × ((settings_mode m mode).chm_audio ≡ true)
      × ((settings_mode m mode).ssd_audio ≡ false)
unfolding settings_mode audio_mode chm_mode
settings_mode-chm m mode silent chm off = rw silent (rw chm (rw off (refl, refl, refl)))

set_age-mode :
    (i : ℕ) (m : CameraSettings) (s : Agent)
    → ((set_age i m s).cameras i).recording_mode_flags ≡ (s.cameras i).recording_mode_flags
unfolding set_age
set_age-mode i m s =
    elim (Bool-cases
      (ltb 2 m.version && not ((s.cameras i).runtime_max_age == m.grooming_duration))) [
        | inl h ↦ rw h (rw (==_same i) refl)
        | inr h ↦ rw h refl
      ]

set_camera-mode :
    (i : ℕ) (m : CameraSettings) (s : Agent)
    → ((set_camera i m s).cameras i).recording_mode_flags
      ≡ settings_mode m (s.cameras i).recording_mode_flags
unfolding set_camera
set_camera-mode i m s =
    let set = record (s.cameras i) {
      resolution = m.resolution;
      compression = m.compression;
      frame_rate = m.frame_rate;
    } in
    let aged = set_age-mode i m (put_camera i set s) in
    let here = ap (λ c. c.recording_mode_flags) (set_at_same i set s.cameras) in
    ap (λ c. c.recording_mode_flags) (set_at_same i _ (set_age i m (put_camera i set s)).cameras)
    ∙ ap (settings_mode m) (aged ∙ here)

-- A CAMERA_SETTINGS message of the expected version that asks for no audio, but for the CHM, of a
-- camera that is not on the CHM, puts the CHM with audio into its mode.
camera_settings-audio :
    (w : World) (expected i : ℕ) (m : CameraSettings) (s : Agent)
    → m.version ≡ expected
    → raconf_find_camera w m.camera s ≡ some i
    → m.no_audio_recording ≡ true
    → m.no_chm_recording ≡ false
    → (s.cameras i).recording_mode_flags.chm_video ≡ false
    → (let mode = ((msgcb_camera_settings w expected m s).cameras i).recording_mode_flags in
        (mode.chm_video ≡ true) × (mode.chm_audio ≡ true) × (mode.ssd_audio ≡ false))
unfolding msgcb_camera_settings
camera_settings-audio w expected i m s version found silent chm off =
    let same : (m.version == expected) ≡ true = ground arith in
    let mode = settings_mode-chm m (s.cameras i).recording_mode_flags silent chm off in
    let set = set_camera-mode i m s in
    rw same (
      rw found (
        ap (λ f. f.chm_video) set ∙ mode.0,
        ap (λ f. f.chm_audio) set ∙ mode.1,
        ap (λ f. f.ssd_audio) set ∙ mode.2,
      ))
