-- ===== src/Agent/Stops.antt =====
-- What a stop of a recording process does.
use recording_agent_continuo.Prelude.{
  ℕ, ◌-◌, ◌==◌, ◌≡◌, ap, ◌∙◌, true, false, ◌&&◌, if_true, set_at_same, some,
}
use recording_agent_continuo.Prelude.Text.{Text}
use recording_agent_continuo.Agent.State.{
  no_flags, Camera, quit, Agent, World, emit, put_camera, raconf_find_camera, has_video,
  has_recording,
}
use recording_agent_continuo.Agent.Record.{
  clear_chm, clear_ssd, send_recording_status, send_camera_status, camera_recording_just_stopped,
  stop_recording_process,
}
use recording_agent_continuo.Agent.Commands.{record_pause, msgcb_camera_record_pause}
use recording_agent_continuo.Agent.Workers.{after_stop-IsSame, restart-IsSame}
use recording_agent_continuo.Agent.Resets.{handle-found}

-- A camera without a process.
abbrev pub stopped : Camera → Camera
stopped c = record c {
  worker_pid = 0;
  recording_status_flags = clear_ssd (clear_chm c.recording_status_flags);
}

just_stopped-camera :
    (w : World) (i : ℕ) (s : Agent)
    → (let t = camera_recording_just_stopped w i s in
        (t.cameras i ≡ stopped (s.cameras i)) × (t.n_cams_recording ≡ s.n_cams_recording - 1))
unfolding camera_recording_just_stopped send_recording_status send_camera_status
just_stopped-camera w i s =
    let told =
      send_recording_status (send_camera_status i (put_camera i (stopped (s.cameras i)) s)) in
    let same = after_stop-IsSame w (record told { n_cams_recording = told.n_cams_recording - 1 }) in
    (ap (λ f. f i) same.0 ∙ set_at_same i (stopped (s.cameras i)) s.cameras, same.2)

stop-camera :
    (w : World) (i : ℕ) (s : Agent)
    → ((s.cameras i).worker_pid == 0) ≡ false
    → (let t = stop_recording_process w i s in
        (t.1.cameras i ≡ stopped (s.cameras i)) × (t.1.n_cams_recording ≡ s.n_cams_recording - 1))
unfolding stop_recording_process
stop-camera w i s busy =
    let quitted = emit (quit (s.cameras i).worker_pid) s in
    let just = just_stopped-camera w i quitted in
    let same = restart-IsSame (s.cameras i) (camera_recording_just_stopped w i quitted) in
    rw busy (ap (λ f. f i) same.0 ∙ just.0, same.2 ∙ just.1)

-- A camera that records is found, online, assigned, has a process and a video bit in its status.
abbrev pub Records : World → Text → ℕ → Agent → Type 0
Records w name i s =
    (s.is_shutdown_in_process ≡ false)
    × (raconf_find_camera w name s ≡ some i)
    × (((s.cameras i).is_online && (s.cameras i).is_assigned) ≡ true)
    × (has_video (s.cameras i).recording_status_flags ≡ true)
    × (((s.cameras i).worker_pid == 0) ≡ false)

record_pause-stop :
    (w : World) (i : ℕ) (s : Agent)
    → has_video (s.cameras i).recording_status_flags ≡ true
    → record_pause w false i s
      ≡ stop_recording_process w i (
          put_camera i
            (record (s.cameras i) { recording_mode_flags = no_flags; commanded_paused = true })
            s)
unfolding record_pause
record_pause-stop w i s busy = if_true _ _ _ busy

pub pause-stops :
    (w : World) (name : Text) (i : ℕ) (s : Agent)
    → Records w name i s
    → (let t = msgcb_camera_record_pause w true name false s in
        ((t.cameras i).worker_pid ≡ 0)
        × ((t.cameras i).commanded_paused ≡ true)
        × (has_recording (t.cameras i).recording_status_flags ≡ false)
        × (t.n_cams_recording ≡ s.n_cams_recording - 1))
unfolding msgcb_camera_record_pause
pause-stops w name i s r =
    let c = record (s.cameras i) { recording_mode_flags = no_flags; commanded_paused = true } in
    let at = set_at_same i c s.cameras in
    let done = stop-camera w i (put_camera i c s) (ap (λ d. d.worker_pid == 0) at ∙ r.4) in
    rw (handle-found w name i s false r.0 r.1 r.2 ∙ record_pause-stop w i s r.3) (
      ap (λ d. d.worker_pid) done.0,
      ap (λ d. d.commanded_paused) (done.0 ∙ ap stopped at),
      ap (λ d. has_recording d.recording_status_flags) done.0,
      done.1,
    )
