-- ===== src/Agent/Passes.antt =====
-- The count of recorded cameras over any sequence of messages and passes.
use recording_agent_continuo.Prelude.{
  ℕ, zero, suc, ◌-◌, ◌*◌, ◌<◌, ◌≤◌, ◌==◌, ltb, ◌≡◌, refl, ap, ◌∙◌, inl, inr, Bool, true, false, not,
  ◌&&◌, ◌||◌, if◌then◌else◌, set_at_same, if_both, total-set_at, Bool-cases, arith,
}
use recording_agent_continuo.Agent.State.{Agent, World, put_camera, is_dead, has_recording, is_any}
use recording_agent_continuo.Agent.Record.{
  send_camera_status, camera_recording_just_stopped, clear_chm, clear_ssd, after_stop,
}
use recording_agent_continuo.Agent.Supervise.{
  set_camon_ttl, set_rp_ttl, go_offline, go_online, note_online, reflect_camera_online_status,
  supervise_camera, supervise_cameras, supervise,
}
use recording_agent_continuo.Agent.Workers.{
  weight, IsCounted, HasPids, put-IsCounted, just_stopped-cameras, just_stopped-IsCounted,
  stop-IsCounted, start-IsCounted, after_stop-IsCounted,
}

module _ (n : ℕ) (w : World) (pids : HasPids w) where
  go_offline-IsCounted :
      (i : ℕ) (s : Agent) → i < n → IsCounted n s → IsCounted n (go_offline w i s)
  unfolding go_offline
  go_offline-IsCounted i s lt h =
      let c = s.cameras i in
      elim (Bool-cases (has_recording c.recording_status_flags)) [
        | inr g ↦ rw g h
        | inl g ↦ elim (Bool-cases (c.worker_pid == 0)) [
          | inl e ↦
              let cleared = record c {
                recording_status_flags = clear_ssd (clear_chm c.recording_status_flags);
              } in
              rw g (rw e (put-IsCounted n i lt cleared s refl h))
          | inr e ↦ elim (Bool-cases (is_dead w c.worker_pid)) [
            | inl k ↦
                let one : weight c ≡ 1 = rw e refl in
                rw g (rw e (rw k (just_stopped-IsCounted n i lt w s one h)))
            | inr k ↦ rw g (rw e (rw k (stop-IsCounted n i lt w s h)))
          ]
        ]
      ]

  go_online-IsCounted : (i : ℕ) (s : Agent) → i < n → IsCounted n s → IsCounted n (go_online w i s)
  unfolding go_online
  go_online-IsCounted i s lt h =
      let c = s.cameras i in
      let waits =
        (not (c.worker_pid == 0) && not (is_dead w c.worker_pid))
        || ((c.worker_pid == 0) && ltb 0 (s.camon_ttl i)) in
      elim (Bool-cases (c.is_assigned && is_any c.recording_mode_flags)) [
        | inr g ↦ rw g h
        | inl g ↦ elim (Bool-cases waits) [
          | inl e ↦ rw g (rw e h)
          | inr e ↦ rw g (rw e (start-IsCounted n i lt w pids s h))
        ]
      ]

  note_online-IsCounted :
      (i : ℕ) (is_alive : Bool) (s : Agent)
      → i < n
      → IsCounted n s
      → IsCounted n (note_online w i is_alive s)
  unfolding note_online send_camera_status
  note_online-IsCounted i is_alive s lt h =
      put-IsCounted n i lt (record (s.cameras i) { is_online = is_alive }) s refl h

  pub reflect-IsCounted :
      (i : ℕ) (is_alive : Bool) (s : Agent)
      → i < n
      → IsCounted n s
      → IsCounted n (reflect_camera_online_status w i is_alive s).1
  unfolding reflect_camera_online_status
  reflect-IsCounted i true s lt h =
      let seen = set_camon_ttl i w.camon_ttl_start s in
      elim (Bool-cases (s.cameras i).is_online) [
        | inl g ↦ rw g h
        | inr g ↦
            rw g (
              note_online-IsCounted i true (go_online w i seen) lt
                (go_online-IsCounted i seen lt h))
      ]
  reflect-IsCounted i false s lt h =
      let gone = note_online w i false (go_offline w i s) in
      let left = set_camon_ttl i (s.camon_ttl i - 1) s in
      let IsFine : Bool × Agent → Type 0 = λ r. IsCounted n r.1 in
      if_both IsFine (s.cameras i).is_online
        (if ltb 1 (s.camon_ttl i) then (true, left) else (false, gone)) (false, s)
        (if_both IsFine (ltb 1 (s.camon_ttl i)) (true, left) (false, gone) h
          (note_online-IsCounted i false (go_offline w i s) lt (go_offline-IsCounted i s lt h)))
        h

  -- The process is taken off the camera before its end is noted.
  died-IsCounted :
      (i : ℕ) (s : Agent)
      → i < n
      → weight (s.cameras i) ≡ 1
      → IsCounted n s
      → IsCounted n (
          camera_recording_just_stopped w i
            (put_camera i (record (s.cameras i) { worker_pid = 0; is_online = false }) s))
  died-IsCounted i s lt one h =
      let c = record (s.cameras i) { worker_pid = 0; is_online = false } in
      let gone = put_camera i c s in
      let none_left : weight (gone.cameras i) ≡ 0 = ap weight (set_at_same i c s.cameras) in
      let t = just_stopped-cameras n i lt w gone in
      (
        t.0 ∙ h.0,
        omega (arith, t.1, t.2, one, none_left, h.1, total-set_at weight n s.cameras i c lt),
      )

  supervise_camera-IsCounted :
      (i : ℕ) (s : Agent) → i < n → IsCounted n s → IsCounted n (supervise_camera w i s)
  unfolding supervise_camera
  supervise_camera-IsCounted i s lt h =
      let c = s.cameras i in
      elim (Bool-cases (is_any c.recording_mode_flags)) [
        | inr g ↦ rw g h
        | inl g ↦ elim (Bool-cases (c.worker_pid == 0)) [
          | inl e ↦ elim (Bool-cases (c.is_online && c.is_assigned)) [
            | inl k ↦ elim (Bool-cases (ltb (2 * w.camon_ttl_start) (s.rp_ttl i))) [
              | inl l ↦
                  rw g (rw e (rw k (rw l (start-IsCounted n i lt w pids (set_rp_ttl i 0 s) h))))
              | inr l ↦ rw g (rw e (rw k (rw l h)))
            ]
            | inr k ↦ rw g (rw e (rw k h))
          ]
          | inr e ↦
              let one : weight c ≡ 1 = rw e refl in
              elim (Bool-cases (is_dead w c.worker_pid)) [
                | inl k ↦ rw g (rw e (rw k (died-IsCounted i (set_rp_ttl i 0 s) lt one h)))
                | inr k ↦ rw g (rw e (rw k h))
              ]
        ]
      ]

  supervise_cameras-IsCounted :
      (count : ℕ) (s : Agent)
      → count ≤ n
      → IsCounted n s
      → IsCounted n (supervise_cameras w count s)
  unfolding supervise_cameras
  supervise_cameras-IsCounted zero s le h = h
  supervise_cameras-IsCounted (suc count) s le h =
      supervise_camera-IsCounted count (supervise_cameras w count s) (omega arith)
        (supervise_cameras-IsCounted count s (omega arith) h)

  pub supervise-IsCounted : (s : Agent) → IsCounted n s → IsCounted n (supervise w s)
  unfolding supervise after_stop
  supervise-IsCounted s h =
      after_stop-IsCounted n w (supervise_cameras w s.n_cameras s)
        (supervise_cameras-IsCounted s.n_cameras s (omega (arith, h.0)) h)
