-- ===== src/Agent/Attempts.antt =====
-- Attempts to start recording processes, and the slots that count failures.
use recording_agent_continuo.Prelude.{
  ℕ, zero, suc, ◌+◌, ◌==◌, ◌≡◌, refl, ap, ap₂, ◌∙◌, inl, inr, Bool, List, [], ◌∷◌, ◌++◌, set_at,
  Bool-cases, arith,
}
use recording_agent_continuo.Agent.State.{
  Camera, Effect, camera_status, recording_status, application_error, set_track_age, spawn_recorder,
  spawn_metarec, spawn_space_monitor, quit, kill, Agent, World, put_camera, find_first,
}
use recording_agent_continuo.Agent.Record.{
  or_zero, retry_slot, after_stop, handle_metarec, handle_space_monitor,
}

-- The times that the recording process of a camera was tried.
abbrev pub attempts : List Effect → ℕ
attempts [] = 0
attempts (spawn_recorder i ∷ es) = suc (attempts es)
attempts (e ∷ es) = attempts es

pub attempts-append : (es fs : List Effect) → attempts (es ++ fs) ≡ attempts es + attempts fs
attempts-append [] fs = omega arith
attempts-append (camera_status i f ∷ es) fs = attempts-append es fs
attempts-append (recording_status a b ∷ es) fs = attempts-append es fs
attempts-append (application_error e ∷ es) fs = attempts-append es fs
attempts-append (set_track_age i n ∷ es) fs = attempts-append es fs
attempts-append (spawn_recorder i ∷ es) fs = omega (arith, attempts-append es fs)
attempts-append (spawn_metarec ∷ es) fs = attempts-append es fs
attempts-append (spawn_space_monitor ∷ es) fs = attempts-append es fs
attempts-append (quit p ∷ es) fs = attempts-append es fs
attempts-append (kill p ∷ es) fs = attempts-append es fs

-- The same counts of failures, CHM and attempts.
abbrev pub IsStill : Agent → Agent → Type 0
IsStill s t =
    (t.retry_count ≡ s.retry_count)
    × (t.is_chm_ready ≡ s.is_chm_ready)
    × (attempts t.sent ≡ attempts s.sent)

metarec-IsStill : (w : World) (s : Agent) → IsStill s (handle_metarec w s)
unfolding handle_metarec
metarec-IsStill w s = ground (arith, attempts-append s.sent (spawn_metarec ∷ []))

monitor-IsStill : (w : World) (s : Agent) → IsStill s (handle_space_monitor w s)
unfolding handle_space_monitor
monitor-IsStill w s = ground (arith, attempts-append s.sent (spawn_space_monitor ∷ []))

pub after_stop-IsStill : (w : World) (s : Agent) → IsStill s (after_stop w s)
unfolding after_stop
after_stop-IsStill w s =
    let one = metarec-IsStill w s in
    let two = monitor-IsStill w (handle_metarec w s) in
    (two.0 ∙ one.0, two.1 ∙ one.1, two.2 ∙ one.2)

pub find_first-same :
    (f g : ℕ → Bool) (count index : ℕ)
    → ((j : ℕ) → f j ≡ g j)
    → find_first f count index ≡ find_first g count index
unfolding find_first
find_first-same f g zero index h = refl
find_first-same f g (suc count) index h =
    rw (h index) (rw (find_first-same f g count (suc index) h) refl)

pub put_name :
    (i j : ℕ) (c : Camera) (cameras : ℕ → Camera)
    → c.name ≡ (cameras i).name
    → (set_at i c cameras j).name ≡ (cameras j).name
put_name i j c cameras h = elim (Bool-cases (i == j)) [
  | inl g ↦ let same : i ≡ j = ground arith in rw g (h ∙ ap (λ k. (cameras k).name) same)
  | inr g ↦ rw g refl
]

-- A camera is found under its slot as before when its fields but the name change.
pub retry_slot-put :
    (w : World) (i : ℕ) (c : Camera) (s : Agent)
    → c.name ≡ (s.cameras i).name
    → retry_slot w i (put_camera i c s) ≡ retry_slot w i s
unfolding retry_slot
retry_slot-put w i c s h = ap or_zero (
    find_first-same
      (λ j.
        w.is_same (set_at i c s.cameras i).name (set_at i c s.cameras j).name w.camera_name_length)
      (λ j. w.is_same (s.cameras i).name (s.cameras j).name w.camera_name_length) s.n_cameras 0
      (λ j.
        ap₂ (λ a b. w.is_same a b w.camera_name_length) (put_name i i c s.cameras h)
          (put_name i j c s.cameras h)))
