-- ===== src/Agent/Down.antt =====
-- A shutdown of all drives stays in process.
use recording_agent_continuo.Prelude.{
  ℕ, ◌-◌, ltb, Bool, true, false, not, ◌&&◌, ◌≡◌, refl, ◌∙◌, Option, none, some, Option-cases, inl,
  inr, if◌then◌else◌,
}
use recording_agent_continuo.Prelude.Text.{Text}
use recording_agent_continuo.Agent.State.{
  Camera, Agent, World, emit, put_camera, quit, raconf_find_camera, no_flags,
}
use recording_agent_continuo.Agent.Record.{
  send_recording_status, send_camera_status, handle_metarec, handle_space_monitor,
  stop_space_monitor, restart_space_monitor, after_stop, camera_recording_just_stopped,
  stop_recording_process, set_retry, set_mode, note_running, note_started, try_spawn,
  spawn_recording, start_recording_process, retry_slot, default_mode, clear_ssd, clear_chm,
}
use recording_agent_continuo.Agent.Commands.{
  record_pause, found_record_pause, handle_camera_record_pause,
}

-- Whether a shutdown of all drives is in process.
abbrev pub down : Agent → Bool
down s = s.is_shutdown_in_process

pub down-if : (b : Bool) (s t : Agent) → down (if b then s else t) ≡ (if b then down s else down t)
down-if true s t = refl
down-if false s t = refl

pub if_same : (b c : Bool) → (if b then c else c) ≡ c
if_same true c = refl
if_same false c = refl

down-if_pair :
    (b : Bool) (p q : Bool × Agent)
    → down (if b then p else q).1 ≡ (if b then down p.1 else down q.1)
down-if_pair true p q = refl
down-if_pair false p q = refl

pub down-both :
    (b : Bool) (p q : Bool × Agent) (u : Agent)
    → down p.1 ≡ down u
    → down q.1 ≡ down u
    → down (if b then p else q).1 ≡ down u
down-both true p q u h k = h
down-both false p q u h k = k

module _ (w : World) where
  pub metarec-down : (s : Agent) → down (handle_metarec w s) ≡ down s
  unfolding handle_metarec
  metarec-down s = simp (down-if, if_same)

  pub monitor-down : (s : Agent) → down (handle_space_monitor w s) ≡ down s
  unfolding handle_space_monitor stop_space_monitor
  monitor-down s = simp (down-if, if_same)

  after_stop-down : (s : Agent) → down (after_stop w s) ≡ down s
  unfolding after_stop
  after_stop-down s = monitor-down (handle_metarec w s) ∙ metarec-down s

  restart-down : (c : Camera) (s : Agent) → down (restart_space_monitor c s) ≡ down s
  unfolding restart_space_monitor stop_space_monitor
  restart-down c s = simp (down-if, if_same)

  pub just_stopped-down : (i : ℕ) (s : Agent) → down (camera_recording_just_stopped w i s) ≡ down s
  unfolding camera_recording_just_stopped send_recording_status send_camera_status
  just_stopped-down i s =
      let told = send_recording_status (
        send_camera_status i (
          put_camera i
            (record (s.cameras i) {
              worker_pid = 0;
              recording_status_flags = clear_ssd (clear_chm (s.cameras i).recording_status_flags);
            })
            s)) in
      after_stop-down (record told { n_cams_recording = told.n_cams_recording - 1 })

  pub stop-down : (i : ℕ) (s : Agent) → down (stop_recording_process w i s).1 ≡ down s
  unfolding stop_recording_process
  stop-down i s =
      let quitting = emit (quit (s.cameras i).worker_pid) s in
      down-both _ (false, s) _ s refl
        (restart-down (s.cameras i) (camera_recording_just_stopped w i quitting)
          ∙ just_stopped-down i quitting)

  started-down : (i slot pid : ℕ) (s : Agent) → down (note_started i slot pid s) ≡ down s
  unfolding note_started note_running send_recording_status send_camera_status
  started-down i slot pid s = restart-down (s.cameras i) (note_running i slot pid s)

  spawn-down : (i slot : ℕ) (s : Agent) → down (try_spawn w i slot s).1 ≡ down s
  unfolding try_spawn
  spawn-down i slot s = elim (Option-cases (w.recorder i)) [
    | inl fails ↦ rw fails (simp (down-if_pair, if_same))
    | inr (pid, runs) ↦ rw runs (simp (down-if_pair, started-down, if_same))
  ]

  spawned-down : (i slot : ℕ) (s : Agent) → down (spawn_recording w i slot s).1 ≡ down s
  unfolding spawn_recording
  spawned-down i slot s = after_stop-down (try_spawn w i slot s).1 ∙ spawn-down i slot s

  pub start-down : (i : ℕ) (s : Agent) → down (start_recording_process w i s).1 ≡ down s
  unfolding start_recording_process
  start-down i s =
      let c = s.cameras i in
      let slot = retry_slot w i s in
      let mode = default_mode c in
      let left = if s.is_rssd_ready then mode else clear_ssd mode in
      let spawned = spawn_recording w i slot (set_mode i left s) in
      let waiting = mode.chm_video && not s.is_chm_ready in
      let unready = set_retry slot 0 (set_mode i mode s) in
      down-both (ltb 2 (s.retry_count slot))
        (false, put_camera i (record c { is_assigned = false }) s)
        (if waiting then (false, unready) else spawned) s refl
        (down-both waiting (false, unready) spawned s refl
          (spawned-down i slot (set_mode i left s)))

  record_pause-down :
      (is_record : Bool) (i : ℕ) (s : Agent) → down (record_pause w is_record i s).1 ≡ down s
  unfolding record_pause
  record_pause-down is_record i s =
      let c = s.cameras i in
      down-both _ _ _ s
        (down-both is_record (true, s) _ s refl
          (stop-down i (
            put_camera i (record c { recording_mode_flags = no_flags; commanded_paused = true })
              s)))
        (down-both is_record _ (true, s) s
          (down-both _ _ (false, s) s
            (start-down i (put_camera i (record c { commanded_paused = false }) s)) refl)
          refl)

  found-down :
      (is_record : Bool) (o : Option ℕ) (s : Agent)
      → down (found_record_pause w is_record o s).1 ≡ down s
  unfolding found_record_pause
  found-down is_record none s = refl
  found-down is_record (some i) s = down-both _ _ _ s (record_pause-down is_record i s) refl

  pub handle-down :
      (name : Text) (is_record : Bool) (s : Agent)
      → down (handle_camera_record_pause w name is_record s).1 ≡ down s
  unfolding handle_camera_record_pause
  handle-down name is_record s =
      down-both _ _ _ s refl (found-down is_record (raconf_find_camera w name s) s)
