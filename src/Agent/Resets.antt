-- ===== src/Agent/Resets.antt =====
-- What the change of a setting does to a camera that does not record.
use recording_agent_continuo.Prelude.{
  ℕ, ◌+◌, ◌≤◌, ◌==◌, ◌≡◌, refl, ap, ◌∙◌, Bool, true, false, not, ◌&&◌, ◌||◌, none, some,
  if◌then◌else◌, if_true, if_false, set_at_same, arith, length,
}
use recording_agent_continuo.Prelude.Text.{Text}
use recording_agent_continuo.Agent.State.{
  Camera, Agent, World, put_camera, raconf_find_camera, has_video,
}
use recording_agent_continuo.Agent.Record.{default_mode, retry_slot, start_recording_process}
use recording_agent_continuo.Agent.Commands.{
  record_pause, found_record_pause, handle_camera_record_pause, reset_camera_stream,
}
use recording_agent_continuo.Agent.Settings.{
  change_setting, camera_frame_rate, msgcb_camera_frame_rate,
}
use recording_agent_continuo.Agent.Attempts.{find_first-same, put_name, retry_slot-put}
use recording_agent_continuo.Agent.Starts.{start-running}

-- A camera is found as before when its fields but the name change.
find_camera-put :
    (w : World) (name : Text) (i : ℕ) (c : Camera) (s : Agent)
    → c.name ≡ (s.cameras i).name
    → raconf_find_camera w name (put_camera i c s) ≡ raconf_find_camera w name s
unfolding raconf_find_camera
find_camera-put w name i c s h =
    ap (λ found. if length name == 0 then none else found)
      (find_first-same (λ j. w.is_same name ((put_camera i c s).cameras j).name (length name))
        (λ j. w.is_same name (s.cameras j).name (length name)) s.n_cameras 0
        (λ j. ap (λ a. w.is_same name a (length name)) (put_name i j c s.cameras h)))

module _ (w : World) (name : Text) (i : ℕ) (s : Agent) where
  pub handle-found :
      (is_record : Bool)
      → s.is_shutdown_in_process ≡ false
      → raconf_find_camera w name s ≡ some i
      → ((s.cameras i).is_online && (s.cameras i).is_assigned) ≡ true
      → handle_camera_record_pause w name is_record s ≡ record_pause w is_record i s
  unfolding handle_camera_record_pause found_record_pause
  handle-found is_record awake found fit =
      if_false _ _ _ awake ∙ ap (λ o. found_record_pause w is_record o s) found ∙ if_true _ _ _ fit

  record_pause-idle :
      has_video (s.cameras i).recording_status_flags ≡ false → record_pause w false i s ≡ (true, s)
  unfolding record_pause
  record_pause-idle idle = if_false _ _ _ idle

  record_pause-start :
      has_video (s.cameras i).recording_status_flags ≡ false
      → s.is_chm_ready ≡ true
      → record_pause w true i s
        ≡ start_recording_process w i
            (put_camera i (record (s.cameras i) { commanded_paused = false }) s)
  unfolding record_pause
  record_pause-start idle ready =
      let drive : (s.is_chm_ready || s.is_rssd_ready) ≡ true = ground arith in
      if_false _ _ _ idle ∙ if_true _ _ _ drive

  -- A reset of a camera that does not record is a start.
  reset-idle :
      (w' : World)
      → handle_camera_record_pause w name false s ≡ (true, s)
      → reset_camera_stream w w' name s ≡ handle_camera_record_pause w' name true s
  unfolding reset_camera_stream
  reset-idle w' paused =
      ap (λ p. if p.0 then handle_camera_record_pause w' name true p.1 else (false, p.1)) paused

-- A camera that stands still is found, online, assigned, and has no process.
abbrev pub StandsStill : World → Text → ℕ → Agent → Type 0
StandsStill w name i s =
    (s.is_shutdown_in_process ≡ false)
    × (raconf_find_camera w name s ≡ some i)
    × (((s.cameras i).is_online && (s.cameras i).is_assigned) ≡ true)
    × (has_video (s.cameras i).recording_status_flags ≡ false)
    × ((s.cameras i).worker_pid ≡ 0)

reset-starts :
    (w w' : World) (name : Text) (i pid : ℕ) (s : Agent)
    → StandsStill w name i s
    → StandsStill w' name i s
    → s.is_chm_ready ≡ true
    → s.retry_count (retry_slot w' i s) ≤ 2
    → w'.recorder i ≡ some pid
    → (let t = reset_camera_stream w w' name s in
        (t.0 ≡ true)
        × ((t.1.cameras i).worker_pid ≡ pid)
        × ((t.1.cameras i).commanded_paused ≡ false)
        × ((t.1.cameras i).frame_rate ≡ (s.cameras i).frame_rate)
        × (t.1.n_cams_recording ≡ s.n_cams_recording + 1))
reset-starts w w' name i pid s still still' ready few spawned =
    let c = record (s.cameras i) { commanded_paused = false } in
    let told = put_camera i c s in
    let at = set_at_same i c s.cameras in
    let paused =
      handle-found w name i s false still.0 still.1 still.2
      ∙ record_pause-idle w name i s still.3 in
    let goes =
      reset-idle w name i s w' paused
      ∙ handle-found w' name i s true still'.0 still'.1 still'.2
      ∙ record_pause-start w' name i s still.3 ready in
    let assigned : (s.cameras i).is_assigned ≡ true = ground (arith, still.2) in
    let drive : ((default_mode (told.cameras i)).chm_video && not told.is_chm_ready) ≡ false =
      ground (arith, ready) in
    let slot = ap s.retry_count (retry_slot-put w' i c s refl) in
    let few' : told.retry_count (retry_slot w' i told) ≤ 2 = omega (arith, slot, few) in
    let done =
      start-running w' i pid told few' drive (ap (λ d. d.is_assigned) at ∙ assigned)
        (ap (λ d. d.worker_pid) at ∙ still.4) spawned in
    rw goes (
      done.0,
      ap (λ d. d.worker_pid) done.1,
      ap (λ d. d.commanded_paused) done.1 ∙ ap (λ d. d.commanded_paused) at,
      ap (λ d. d.frame_rate) done.1 ∙ ap (λ d. d.frame_rate) at,
      done.2,
    )

still-rate :
    (w : World) (name : Text) (i value : ℕ) (s : Agent)
    → StandsStill w name i s
    → StandsStill w name i (put_camera i (record (s.cameras i) { frame_rate = value }) s)
still-rate w name i value s still =
    let c = record (s.cameras i) { frame_rate = value } in
    let at = set_at_same i c s.cameras in
    (
      still.0,
      find_camera-put w name i c s refl ∙ still.1,
      ap (λ d. d.is_online && d.is_assigned) at ∙ still.2,
      ap (λ d. has_video d.recording_status_flags) at ∙ still.3,
      ap (λ d. d.worker_pid) at ∙ still.4,
    )

change_setting-done :
    (w w' : World) (value : ℕ) (name : Text) (i : ℕ) (s : Agent)
    → (let changed = put_camera i (record (s.cameras i) { frame_rate = value }) s in
        (reset_camera_stream w w' name changed).0 ≡ true
        → change_setting w w' camera_frame_rate
            (λ c. record c { frame_rate = value })
            name
            (some i)
            s
          ≡ (reset_camera_stream w w' name changed).1)
unfolding change_setting
change_setting-done w w' value name i s h = if_true _ _ _ h

-- A CAMERA_FRAME_RATE message for a camera that is online and assigned, has no process and does
-- not record, paused or not, outside a shutdown, with the CHM ready and at most two failures
-- behind the camera: if its process can be spawned, the camera is no longer paused, and its
-- recording is started and counted.
pub camera_frame_rate-starts :
    (w w' : World) (name : Text) (value i pid : ℕ) (s : Agent)
    → StandsStill w name i s
    → StandsStill w' name i s
    → s.is_chm_ready ≡ true
    → s.retry_count (retry_slot w' i s) ≤ 2
    → w'.recorder i ≡ some pid
    → (let t = msgcb_camera_frame_rate w w' true name value s in
        ((t.cameras i).worker_pid ≡ pid)
        × ((t.cameras i).commanded_paused ≡ false)
        × ((t.cameras i).frame_rate ≡ value)
        × (t.n_cams_recording ≡ s.n_cams_recording + 1))
unfolding msgcb_camera_frame_rate
camera_frame_rate-starts w w' name value i pid s still still' ready few spawned =
    let c = record (s.cameras i) { frame_rate = value } in
    let changed = put_camera i c s in
    let slot = ap s.retry_count (retry_slot-put w' i c s refl) in
    let few' : changed.retry_count (retry_slot w' i changed) ≤ 2 = omega (arith, slot, few) in
    let done =
      reset-starts w w' name i pid changed (still-rate w name i value s still)
        (still-rate w' name i value s still') ready few' spawned in
    let goes =
      ap
        (λ o. change_setting w w' camera_frame_rate (λ d. record d { frame_rate = value }) name o s)
        still.1
      ∙ change_setting-done w w' value name i s done.0 in
    rw goes (done.1, done.2, done.3 ∙ ap (λ d. d.frame_rate) (set_at_same i c s.cameras), done.4)
