-- ===== src/Agent/Workers.antt =====
-- The number of cameras that are recorded: n_cams_recording against the processes that run.
use recording_agent_continuo.Prelude.{
  ℕ, ◌+◌, ◌-◌, ◌<◌, ◌==◌, ltb, ◌≡◌, refl, sym, ap, ◌∙◌, inl, inr, false, not, ◌&&◌, some,
  if◌then◌else◌, total, total-set_at, Bool-cases, Option-cases, arith,
}
use recording_agent_continuo.Agent.State.{
  Camera, spawn_recorder, quit, Agent, World, emit, put_camera,
}
use recording_agent_continuo.Agent.Record.{
  handle_metarec, handle_space_monitor, stop_space_monitor, restart_space_monitor, after_stop,
  send_recording_status, send_camera_status, camera_recording_just_stopped, stop_recording_process,
  retry_slot, default_mode, clear_ssd, clear_chm, set_mode, status_of_mode, note_running,
  note_started, try_spawn, spawn_recording, start_recording_process,
}

abbrev pub weight : Camera → ℕ
weight c = if c.worker_pid == 0 then 0 else 1

-- The count is the number of the first n cameras that have a recording process.
abbrev pub IsCounted : ℕ → Agent → Type 0
IsCounted n s = (s.n_cameras ≡ n) × (s.n_cams_recording ≡ total weight n s.cameras)

-- A new process has a process number.
abbrev pub HasPids : World → Type 0
HasPids w = (i pid : ℕ) → w.recorder i ≡ some pid → (pid == 0) ≡ false

-- The same cameras and the same count.
abbrev pub IsSame : Agent → Agent → Type 0
IsSame s t =
    (t.cameras ≡ s.cameras)
    × (t.n_cameras ≡ s.n_cameras)
    × (t.n_cams_recording ≡ s.n_cams_recording)

IsSame-IsCounted : (n : ℕ) (s t : Agent) → IsSame s t → IsCounted n s → IsCounted n t
IsSame-IsCounted n s t h c = (h.1 ∙ c.0, h.2 ∙ c.1 ∙ ap (total weight n) (sym h.0))

metarec-IsSame : (w : World) (s : Agent) → IsSame s (handle_metarec w s)
unfolding handle_metarec
metarec-IsSame w s = ground arith

monitor-IsSame : (w : World) (s : Agent) → IsSame s (handle_space_monitor w s)
unfolding handle_space_monitor
monitor-IsSame w s = ground arith

pub restart-IsSame : (c : Camera) (s : Agent) → IsSame s (restart_space_monitor c s)
unfolding restart_space_monitor stop_space_monitor
restart-IsSame c s = ground arith

restart-IsCounted :
    (n : ℕ) (c : Camera) (s : Agent) → IsCounted n s → IsCounted n (restart_space_monitor c s)
restart-IsCounted n c s = IsSame-IsCounted n s (restart_space_monitor c s) (restart-IsSame c s)

pub after_stop-IsSame : (w : World) (s : Agent) → IsSame s (after_stop w s)
unfolding after_stop
after_stop-IsSame w s =
    let one = metarec-IsSame w s in
    let two = monitor-IsSame w (handle_metarec w s) in (two.0 ∙ one.0, two.1 ∙ one.1, two.2 ∙ one.2)

pub after_stop-IsCounted :
    (n : ℕ) (w : World) (s : Agent) → IsCounted n s → IsCounted n (after_stop w s)
after_stop-IsCounted n w s = IsSame-IsCounted n s (after_stop w s) (after_stop-IsSame w s)

module _ (n i : ℕ) (in_range : i < n) where
  -- A camera replaced by one with a process where it had one, and none where it had none.
  pub put-IsCounted :
      (c : Camera) (s : Agent)
      → weight c ≡ weight (s.cameras i)
      → IsCounted n s
      → IsCounted n (put_camera i c s)
  put-IsCounted c s same h =
      (h.0, omega (arith, h.1, same, total-set_at weight n s.cameras i c in_range))

  pub just_stopped-cameras :
      (w : World) (s : Agent)
      → (let t = camera_recording_just_stopped w i s in
          (t.n_cameras ≡ s.n_cameras)
          × (t.n_cams_recording ≡ s.n_cams_recording - 1)
          × (total weight n t.cameras + weight (s.cameras i) ≡ total weight n s.cameras))
  unfolding camera_recording_just_stopped send_recording_status send_camera_status
  just_stopped-cameras w s =
      let c = s.cameras i in
      let cleared = record c {
        worker_pid = 0;
        recording_status_flags = clear_ssd (clear_chm c.recording_status_flags);
      } in
      let told = send_recording_status (send_camera_status i (put_camera i cleared s)) in
      let same =
        after_stop-IsSame w (record told { n_cams_recording = told.n_cams_recording - 1 }) in
      (
        same.1,
        same.2,
        ap (λ f. total weight n f + weight c) same.0
            ∙ omega (arith, total-set_at weight n s.cameras i cleared in_range),
      )

  -- The process of a camera that had one is taken off the count.
  pub just_stopped-IsCounted :
      (w : World) (s : Agent)
      → weight (s.cameras i) ≡ 1
      → IsCounted n s
      → IsCounted n (camera_recording_just_stopped w i s)
  just_stopped-IsCounted w s one h =
      let t = just_stopped-cameras w s in (t.0 ∙ h.0, omega (arith, t.1, t.2, one, h.1))

  pub stop-IsCounted :
      (w : World) (s : Agent) → IsCounted n s → IsCounted n (stop_recording_process w i s).1
  unfolding stop_recording_process
  stop-IsCounted w s h = elim (Bool-cases ((s.cameras i).worker_pid == 0)) [
    | inl g ↦ rw g h
    | inr g ↦
        let quitted = emit (quit (s.cameras i).worker_pid) s in
        let one : weight (s.cameras i) ≡ 1 = rw g refl in
        let stopped = just_stopped-IsCounted w quitted one h in
        rw g (restart-IsCounted n (s.cameras i) (camera_recording_just_stopped w i quitted) stopped)
  ]

  note_running-IsCounted :
      (slot pid : ℕ) (s : Agent)
      → (pid == 0) ≡ false
      → weight (s.cameras i) ≡ 0
      → IsCounted n s
      → IsCounted n (note_running i slot pid s)
  unfolding note_running send_recording_status send_camera_status
  note_running-IsCounted slot pid s new none_yet h =
      let c = s.cameras i in
      let running = record c {
        worker_pid = pid;
        recording_status_flags = status_of_mode c.recording_mode_flags;
      } in
      let one : weight running ≡ 1 = rw new refl in
      (h.0, omega (arith, h.1, one, none_yet, total-set_at weight n s.cameras i running in_range))

  note_started-IsCounted :
      (slot pid : ℕ) (s : Agent)
      → (pid == 0) ≡ false
      → weight (s.cameras i) ≡ 0
      → IsCounted n s
      → IsCounted n (note_started i slot pid s)
  unfolding note_started
  note_started-IsCounted slot pid s new none_yet h =
      restart-IsCounted n (s.cameras i) (note_running i slot pid s)
        (note_running-IsCounted slot pid s new none_yet h)

  module _ (w : World) (pids : HasPids w) where
    try_spawn-IsCounted :
        (slot : ℕ) (s : Agent) → IsCounted n s → IsCounted n (try_spawn w i slot s).1
    unfolding try_spawn
    try_spawn-IsCounted slot s h =
        elim (Bool-cases ((s.cameras i).is_assigned && ((s.cameras i).worker_pid == 0))) [
          | inr g ↦ rw g h
          | inl g ↦ elim (Option-cases (w.recorder i)) [
            | inl e ↦ rw g (rw e h)
            | inr (pid, e) ↦
                let none_yet : weight (s.cameras i) ≡ 0 = ground arith in
                rw g (
                  rw e (
                    note_started-IsCounted slot pid (emit (spawn_recorder i) s) (pids i pid e)
                      none_yet h))
          ]
        ]

    pub start-IsCounted :
        (s : Agent) → IsCounted n s → IsCounted n (start_recording_process w i s).1
    unfolding start_recording_process spawn_recording
    start-IsCounted s h =
        let slot = retry_slot w i s in
        let c = s.cameras i in
        let mode = default_mode c in
        let left = if s.is_rssd_ready then mode else clear_ssd mode in
        elim (Bool-cases (ltb 2 (s.retry_count slot))) [
          | inl g ↦ rw g (put-IsCounted (record c { is_assigned = false }) s refl h)
          | inr g ↦ elim (Bool-cases (mode.chm_video && not s.is_chm_ready)) [
            | inl e ↦
                rw g (rw e (put-IsCounted (record c { recording_mode_flags = mode }) s refl h))
            | inr e ↦ rw g (
                rw e (
                  after_stop-IsCounted n w (try_spawn w i slot (set_mode i left s)).1 (
                    try_spawn-IsCounted slot (set_mode i left s)
                      (put-IsCounted (record c { recording_mode_flags = left }) s refl h))))
          ]
        ]
