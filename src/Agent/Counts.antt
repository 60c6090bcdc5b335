-- ===== src/Agent/Counts.antt =====
-- The count of recorded cameras over the messages for the cameras.
use recording_agent_continuo.Prelude.{
  ℕ, zero, suc, ◌+◌, ◌<◌, ◌==◌, ltb, ◌≡◌, refl, sym, ◌∙◌, inl, inr, Bool, true, false, ◌&&◌, ◌||◌,
  Option, none, some, total, total-same, if_both, Bool-cases, arith, length,
}
use recording_agent_continuo.Prelude.Text.{Text}
use recording_agent_continuo.Agent.State.{
  no_flags, Camera, Agent, World, put_camera, find_first, raconf_find_camera, has_video,
}
use recording_agent_continuo.Agent.Record.{send_recording_status}
use recording_agent_continuo.Agent.Commands.{
  ready_camera, each_camera, msgcb_ready_status, Shutdown, shutdown_chm, shutdown_removable_ssd,
  shutdown_all, invalid_function, shut_camera, shut_cameras, shut_down, record_pause,
  found_record_pause, handle_camera_record_pause,
}
use recording_agent_continuo.Agent.Workers.{
  weight, IsCounted, HasPids, put-IsCounted, stop-IsCounted, start-IsCounted,
}

find_first-lt :
    (test : ℕ → Bool) (count index i : ℕ) → find_first test count index ≡ some i → i < index + count
unfolding find_first
find_first-lt test zero index i h = absurd cc
find_first-lt test (suc count) index i h = elim (Bool-cases (test index)) [
  | inl g ↦ ground arith
  | inr g ↦ omega (arith, find_first-lt test count (suc index) i (ground (arith, g, h)))
]

pub find_camera-lt :
    (w : World) (name : Text) (s : Agent) (i : ℕ)
    → raconf_find_camera w name s ≡ some i
    → i < s.n_cameras
unfolding raconf_find_camera
find_camera-lt w name s i h = elim (Bool-cases (length name == 0)) [
  | inl g ↦ absurd (ground (arith, g, h))
  | inr g ↦ omega (
    arith,
    find_first-lt (λ j. w.is_same name (s.cameras j).name (length name)) s.n_cameras 0 i
        (ground (arith, g, h)),
  )
]

each-weight :
    (f : Camera → Camera) (m : ℕ) (cameras : ℕ → Camera)
    → ((c : Camera) → weight (f c) ≡ weight c)
    → (j : ℕ) → weight (each_camera f m cameras j) ≡ weight (cameras j)
unfolding each_camera
each-weight f m cameras h j = elim (Bool-cases (ltb j m)) [
  | inl g ↦ rw g (h (cameras j))
  | inr g ↦ rw g refl
]

total-each :
    (f : Camera → Camera) (m n : ℕ) (cameras : ℕ → Camera)
    → ((c : Camera) → weight (f c) ≡ weight c)
    → total weight n (each_camera f m cameras) ≡ total weight n cameras
total-each f m n cameras h =
    total-same weight n cameras (each_camera f m cameras) (each-weight f m cameras h)

ready_camera-weight :
    (is_chm is_rssd : Bool) (c : Camera) → weight (ready_camera is_chm is_rssd c) ≡ weight c
unfolding ready_camera
ready_camera-weight is_chm is_rssd c = refl

shut_camera-weight :
    (is_chm is_rssd : Bool) (c : Camera) → weight (shut_camera is_chm is_rssd c) ≡ weight c
unfolding shut_camera
shut_camera-weight true true c = refl
shut_camera-weight true false c = refl
shut_camera-weight false true c = refl
shut_camera-weight false false c = refl

pub ready_status-IsCounted :
    (n : ℕ) (is_version is_chm is_rssd : Bool) (s : Agent)
    → IsCounted n s
    → IsCounted n (msgcb_ready_status is_version is_chm is_rssd s)
unfolding msgcb_ready_status send_recording_status
ready_status-IsCounted n false is_chm is_rssd s h = h
ready_status-IsCounted n true is_chm is_rssd s h = (
  h.0,
  h.1
      ∙ sym (
          total-each (ready_camera is_chm is_rssd) s.n_cameras n s.cameras
            (ready_camera-weight is_chm is_rssd)),
)

shut_cameras-IsCounted : (n : ℕ) (s : Agent) → IsCounted n s → IsCounted n (shut_cameras s)
unfolding shut_cameras
shut_cameras-IsCounted n s h = (
  h.0,
  h.1
      ∙ sym (
          total-each (shut_camera s.is_chm_ready s.is_rssd_ready) s.n_cameras n s.cameras
            (shut_camera-weight s.is_chm_ready s.is_rssd_ready)),
)

pub shut_down-IsCounted :
    (n : ℕ) (f : Shutdown) (s : Agent) → IsCounted n s → IsCounted n (shut_down f s)
unfolding shut_down
shut_down-IsCounted n shutdown_chm s h =
    shut_cameras-IsCounted n (record s { is_chm_ready = false }) h
shut_down-IsCounted n shutdown_removable_ssd s h =
    shut_cameras-IsCounted n (record s { is_rssd_ready = false }) h
shut_down-IsCounted n shutdown_all s h =
    shut_cameras-IsCounted n
      (record s { is_chm_ready = false; is_rssd_ready = false; is_shutdown_in_process = true }) h
shut_down-IsCounted n invalid_function s h = h

module _ (n : ℕ) (w : World) (pids : HasPids w) where
  record_pause-IsCounted :
      (i : ℕ) (is_record : Bool) (s : Agent)
      → i < n
      → IsCounted n s
      → IsCounted n (record_pause w is_record i s).1
  unfolding record_pause
  record_pause-IsCounted i true s lt h =
      elim (Bool-cases (has_video (s.cameras i).recording_status_flags)) [
        | inl g ↦ rw g h
        | inr g ↦ elim (Bool-cases (s.is_chm_ready || s.is_rssd_ready)) [
          | inl e ↦
              let c = record (s.cameras i) { commanded_paused = false } in
              rw g (
                rw e (
                  start-IsCounted n i lt w pids (put_camera i c s)
                    (put-IsCounted n i lt c s refl h)))
          | inr e ↦ rw g (rw e h)
        ]
      ]
  record_pause-IsCounted i false s lt h =
      elim (Bool-cases (has_video (s.cameras i).recording_status_flags)) [
        | inl g ↦
            let c = record (s.cameras i) {
              recording_mode_flags = no_flags;
              commanded_paused = true;
            } in
            rw g (stop-IsCounted n i lt w (put_camera i c s) (put-IsCounted n i lt c s refl h))
        | inr g ↦ rw g h
      ]

  found-IsCounted :
      (found : Option ℕ) (is_record : Bool) (s : Agent)
      → ((i : ℕ) → found ≡ some i → i < n)
      → IsCounted n s
      → IsCounted n (found_record_pause w is_record found s).1
  unfolding found_record_pause
  found-IsCounted none is_record s lt h = h
  found-IsCounted (some i) is_record s lt h =
      elim (Bool-cases ((s.cameras i).is_online && (s.cameras i).is_assigned)) [
        | inl k ↦ rw k (record_pause-IsCounted i is_record s (lt i refl) h)
        | inr k ↦ rw k h
      ]

  pub handle-IsCounted :
      (name : Text) (is_record : Bool) (s : Agent)
      → IsCounted n s
      → IsCounted n (handle_camera_record_pause w name is_record s).1
  unfolding handle_camera_record_pause
  handle-IsCounted name is_record s h =
      if_both (λ r. IsCounted n r.1) s.is_shutdown_in_process (false, s)
        (found_record_pause w is_record (raconf_find_camera w name s) s) h
        (found-IsCounted (raconf_find_camera w name s) is_record s
          (λ i e. omega (arith, find_camera-lt w name s i e, h.0)) h)
