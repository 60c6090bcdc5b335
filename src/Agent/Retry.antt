-- ===== src/Agent/Retry.antt =====
-- How often the recording process of a camera is tried.
use recording_agent_continuo.Prelude.{
  ℕ, zero, suc, ◌+◌, ◌<◌, ◌≤◌, ltb, ◌==◌, ◌≡◌, refl, ap, ◌∙◌, true, false, not, ◌&&◌, none,
  if_false, [], ◌∷◌, set_at_same, arith,
}
use recording_agent_continuo.Agent.State.{spawn_recorder, Agent, World, emit, put_camera}
use recording_agent_continuo.Agent.Record.{
  default_mode, retry_slot, set_retry, try_spawn, spawn_recording, start_recording_process,
  after_stop,
}
use recording_agent_continuo.Agent.Workers.{after_stop-IsSame}
use recording_agent_continuo.Agent.Starts.{start_mode}
use recording_agent_continuo.Agent.Attempts.{
  attempts, attempts-append, after_stop-IsStill, retry_slot-put,
}

-- A camera at its slot with a number of failures behind it.
abbrev IsTried : World → (i slot failures : ℕ) → Agent → Type 0
IsTried w i slot failures s = (retry_slot w i s ≡ slot) × (s.retry_count slot ≡ failures)

-- It is assigned, has no process, and could be recorded.
abbrev IsDue : ℕ → Agent → Type 0
IsDue i s =
    (s.is_chm_ready ≡ true) × ((s.cameras i).is_assigned ≡ true) × ((s.cameras i).worker_pid ≡ 0)

module _ (w : World) (i : ℕ) where
  try_spawn-fails :
      (slot : ℕ) (s : Agent)
      → IsDue i s
      → w.recorder i ≡ none
      → try_spawn w i slot s
        ≡ (false, set_retry slot (s.retry_count slot + 1) (emit (spawn_recorder i) s))
  unfolding try_spawn
  try_spawn-fails slot s due fails =
      let tried : ((s.cameras i).is_assigned && ((s.cameras i).worker_pid == 0)) ≡ true =
        ground arith in
      rw tried (rw fails refl)

  after_stop-slot : (s : Agent) → retry_slot w i (after_stop w s) ≡ retry_slot w i s
  unfolding retry_slot
  after_stop-slot s = let same = after_stop-IsSame w s in rw same.0 (rw same.1 refl)

  failed-slot :
      (slot : ℕ) (s : Agent)
      → retry_slot w i (set_retry slot (s.retry_count slot + 1) (emit (spawn_recorder i) s))
        ≡ retry_slot w i s
  unfolding retry_slot
  failed-slot slot s = refl

  spawn_recording-fails :
      (slot failures : ℕ) (s : Agent)
      → IsTried w i slot failures s
      → IsDue i s
      → w.recorder i ≡ none
      → (let t = spawn_recording w i slot s in
          IsTried w i slot (suc failures) t.1
          × IsDue i t.1
          × (attempts t.1.sent ≡ suc (attempts s.sent)))
  unfolding spawn_recording
  spawn_recording-fails slot failures s tried due fails =
      let t = set_retry slot (s.retry_count slot + 1) (emit (spawn_recorder i) s) in
      let same = after_stop-IsSame w t in
      let still = after_stop-IsStill w t in
      let camera = ap (λ f. f i) same.0 in
      rw (try_spawn-fails slot s due fails) (
        (
          after_stop-slot t ∙ failed-slot slot s ∙ tried.0,
          ap (λ f. f slot) still.0
              ∙ set_at_same slot (s.retry_count slot + 1) s.retry_count
              ∙ omega (arith, tried.1),
        ),
        (
          still.1 ∙ due.0,
          ap (λ c. c.is_assigned) camera ∙ due.1,
          ap (λ c. c.worker_pid) camera ∙ due.2,
        ),
        still.2 ∙ omega (arith, attempts-append s.sent (spawn_recorder i ∷ [])),
      )

  -- With the CHM ready and few failures, a start goes on to the process.
  start-goes :
      (s : Agent)
      → ltb 2 (s.retry_count (retry_slot w i s)) ≡ false
      → s.is_chm_ready ≡ true
      → start_recording_process w i s
        ≡ spawn_recording w i (retry_slot w i s) (
            put_camera i
              (record (s.cameras i) { recording_mode_flags = start_mode s (s.cameras i) })
              s)
  unfolding start_recording_process
  start-goes s few ready =
      let drive : ((default_mode (s.cameras i)).chm_video && not s.is_chm_ready) ≡ false =
        ground arith in
      if_false _ _ _ few ∙ if_false _ _ _ drive

  -- A start that fails, and is not the last.
  start-fails :
      (slot failures : ℕ) (s : Agent)
      → failures ≤ 2
      → IsTried w i slot failures s
      → IsDue i s
      → w.recorder i ≡ none
      → (let t = start_recording_process w i s in
          IsTried w i slot (suc failures) t.1
          × IsDue i t.1
          × (attempts t.1.sent ≡ suc (attempts s.sent)))
  start-fails slot failures s few tried due fails =
      let c = record (s.cameras i) { recording_mode_flags = start_mode s (s.cameras i) } in
      let at = set_at_same i c s.cameras in
      let goes = start-goes s (rw tried.0 (rw tried.1 (ground arith))) due.0 in
      rw (goes ∙ ap (λ k. spawn_recording w i k (put_camera i c s)) tried.0) (
        spawn_recording-fails slot failures (put_camera i c s)
          (retry_slot-put w i c s refl ∙ tried.0, tried.1)
          (due.0, ap (λ d. d.is_assigned) at ∙ due.1, ap (λ d. d.worker_pid) at ∙ due.2) fails)

  -- The start that gives the camera up.
  start-gives_up :
      (slot failures : ℕ) (s : Agent)
      → 2 < failures
      → IsTried w i slot failures s
      → (let t = start_recording_process w i s in
          (t.0 ≡ false)
          × IsTried w i slot failures t.1
          × ((t.1.cameras i).is_assigned ≡ false)
          × (attempts t.1.sent ≡ attempts s.sent))
  unfolding start_recording_process
  start-gives_up slot failures s many tried =
      let c = record (s.cameras i) { is_assigned = false } in
      let here : ltb 2 (s.retry_count (retry_slot w i s)) ≡ true =
        rw tried.0 (rw tried.1 (ground arith)) in
      rw here (
        refl,
        (retry_slot-put w i c s refl ∙ tried.0, tried.1),
        ap (λ d. d.is_assigned) (set_at_same i c s.cameras),
        refl,
      )

  unfoldable pub starts : ℕ → Agent → Agent
  starts zero s = s
  starts (suc n) s = starts n (start_recording_process w i s).1

  starts-given_up :
      (n slot failures : ℕ) (s : Agent)
      → 2 < failures
      → IsTried w i slot failures s
      → (s.cameras i).is_assigned ≡ false
      → (((starts n s).cameras i).is_assigned ≡ false)
        × (attempts (starts n s).sent ≡ attempts s.sent)
  unfolding starts
  starts-given_up zero slot failures s many tried off = (off, refl)
  starts-given_up (suc n) slot failures s many tried off =
      let t = start-gives_up slot failures s many tried in
      let on = starts-given_up n slot failures (start_recording_process w i s).1 many t.1 t.2 in
      (on.0, on.1 ∙ t.3)

  starts-left :
      (left n slot failures : ℕ) (s : Agent)
      → failures + left ≡ 3
      → left < n
      → IsTried w i slot failures s
      → (0 < left → IsDue i s)
      → w.recorder i ≡ none
      → (((starts n s).cameras i).is_assigned ≡ false)
        × (attempts (starts n s).sent ≡ attempts s.sent + left)
  unfolding starts
  starts-left left zero slot failures s sum less tried due fails = absurd (omega arith)
  starts-left zero (suc n) slot failures s sum less tried due fails =
      let many : 2 < failures = omega arith in
      let t = start-gives_up slot failures s many tried in
      let on = starts-given_up n slot failures (start_recording_process w i s).1 many t.1 t.2 in
      (on.0, omega (arith, on.1, t.3))
  starts-left (suc left) (suc n) slot failures s sum less tried due fails =
      let t = start-fails slot failures s (omega arith) tried (due (omega arith)) fails in
      let on =
        starts-left left n slot (suc failures) (start_recording_process w i s).1 (omega arith)
          (omega arith) t.0 (λ _. t.1) fails in
      (on.0, omega (arith, on.1, t.2))

  -- With the CHM ready, if the process of a camera that is assigned and has no process cannot be
  -- spawned, and no failure is behind it, four or more starts in a row try three times to spawn it
  -- and leave the camera unassigned.
  pub starts-three :
      (n : ℕ) (s : Agent)
      → 3 < n
      → s.retry_count (retry_slot w i s) ≡ 0
      → IsDue i s
      → w.recorder i ≡ none
      → (((starts n s).cameras i).is_assigned ≡ false)
        × (attempts (starts n s).sent ≡ attempts s.sent + 3)
  starts-three n s more none_yet due fails =
      starts-left 3 n (retry_slot w i s) 0 s refl more (refl, none_yet) (λ _. due) fails
