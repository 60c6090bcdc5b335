-- ===== src/Agent/Drives.antt =====
-- What a shutdown of the drives leaves of recording.
use recording_agent_continuo.Prelude.{
  ℕ, zero, suc, ◌<◌, ◌≡◌, refl, ap, ◌∙◌, Bool, true, false, lt→ltb, if_true, List, arith,
}
use recording_agent_continuo.Prelude.Text.{Text}
use recording_agent_continuo.Agent.State.{Camera, Agent, World, has_recording}
use recording_agent_continuo.Agent.Record.{keeps_chm, keeps_rssd, see_if_recording}
use recording_agent_continuo.Agent.Commands.{
  each_camera, shut_camera, shut_cameras, shutdown_all, shut_down, msgcb_shutdown_rec,
  handle_camera_record_pause,
}
use recording_agent_continuo.Agent.History.{Command, obey_all}
use recording_agent_continuo.Agent.Down.{down}
use recording_agent_continuo.Agent.Persists.{obey_all-down}

each_at :
    (f : Camera → Camera) (n i : ℕ) (cameras : ℕ → Camera)
    → i < n
    → each_camera f n cameras i ≡ f (cameras i)
unfolding each_camera
each_at f n i cameras h = rw (lt→ltb i n h) refl

shut_camera_both :
    (c : Camera)
    → (has_recording (shut_camera false false c).recording_mode_flags ≡ false)
      × (has_recording (shut_camera false false c).recording_status_flags ≡ false)
      × ((shut_camera false false c).worker_pid ≡ c.worker_pid)
unfolding shut_camera
shut_camera_both c = (refl, refl, refl)

pause-refused :
    (w : World) (name : Text) (is_record : Bool) (s : Agent)
    → down s ≡ true
    → handle_camera_record_pause w name is_record s ≡ (false, s)
unfolding handle_camera_record_pause
pause-refused w name is_record s h = if_true s.is_shutdown_in_process (false, s) _ h

-- After a SHUTDOWN of all drives, no camera has a bit of a drive in its mode or its status, every
-- recording process is left as it is, and each CAMERA_RECORD_PAUSE that comes behind any further
-- messages and passes fails and changes nothing.
pub shutdown_all-rests :
    (s : Agent) (i : ℕ) (cs : List (World × Command)) (w : World) (name : Text) (is_record : Bool)
    → i < s.n_cameras
    → (let t = msgcb_shutdown_rec true shutdown_all s in
        let later = obey_all cs t in
        (has_recording (t.cameras i).recording_mode_flags ≡ false)
        × (has_recording (t.cameras i).recording_status_flags ≡ false)
        × ((t.cameras i).worker_pid ≡ (s.cameras i).worker_pid)
        × (handle_camera_record_pause w name is_record later ≡ (false, later)))
unfolding msgcb_shutdown_rec shut_down shut_cameras
shutdown_all-rests s i cs w name is_record h =
    let at = each_at (shut_camera false false) s.n_cameras i s.cameras h in
    let shut = shut_camera_both (s.cameras i) in
    let t = msgcb_shutdown_rec true shutdown_all s in
    (
      ap (λ c. has_recording c.recording_mode_flags) at ∙ shut.0,
      ap (λ c. has_recording c.recording_status_flags) at ∙ shut.1,
      ap (λ c. c.worker_pid) at ∙ shut.2,
      pause-refused w name is_record (obey_all cs t) (obey_all-down cs t refl),
    )

see_all :
    (keeps : Camera → Bool) (cameras : ℕ → Camera) (n : ℕ)
    → ((i : ℕ) → i < n → keeps (cameras i) ≡ true)
    → see_if_recording keeps cameras n ≡ true
unfolding see_if_recording
see_all keeps cameras zero h = refl
see_all keeps cameras (suc n) h =
    let before = see_all keeps cameras n (λ i lt. h i (omega (arith, lt))) in
    rw before (h n (omega arith))

keeps-without :
    (c : Camera)
    → has_recording c.recording_mode_flags ≡ false
    → (keeps_chm c ≡ true) × (keeps_rssd c ≡ true)
unfolding keeps_chm keeps_rssd
keeps-without c h = ground arith

shut-keeps :
    (s : Agent) (i : ℕ)
    → i < s.n_cameras
    → (let t = msgcb_shutdown_rec true shutdown_all s in
        (keeps_chm (t.cameras i) ≡ true) × (keeps_rssd (t.cameras i) ≡ true))
unfolding msgcb_shutdown_rec shut_down shut_cameras
shut-keeps s i h = keeps-without (each_camera (shut_camera false false) s.n_cameras s.cameras i) (
    ap (λ c. has_recording c.recording_mode_flags)
      (each_at (shut_camera false false) s.n_cameras i s.cameras h)
    ∙ (shut_camera_both (s.cameras i)).0)

shut-bare :
    (s : Agent) (i : ℕ)
    → i < s.n_cameras
    → has_recording ((msgcb_shutdown_rec true shutdown_all s).cameras i).recording_status_flags
      ≡ false
unfolding msgcb_shutdown_rec shut_down shut_cameras
shut-bare s i h =
    ap (λ c. has_recording c.recording_status_flags)
      (each_at (shut_camera false false) s.n_cameras i s.cameras h)
    ∙ (shut_camera_both (s.cameras i)).1

-- After a SHUTDOWN of all drives the recording status says that both drives are recorded on, while
-- no camera has a bit of a drive in its status.
shutdown_all-status :
    (s : Agent)
    → (let t = msgcb_shutdown_rec true shutdown_all s in
        (see_if_recording keeps_chm t.cameras s.n_cameras ≡ true)
        × (see_if_recording keeps_rssd t.cameras s.n_cameras ≡ true)
        × ((i : ℕ) → i < s.n_cameras → has_recording (t.cameras i).recording_status_flags ≡ false))
shutdown_all-status s =
    let t = msgcb_shutdown_rec true shutdown_all s in
    (
      see_all keeps_chm t.cameras s.n_cameras (λ i lt. (shut-keeps s i lt).0),
      see_all keeps_rssd t.cameras s.n_cameras (λ i lt. (shut-keeps s i lt).1),
      λ i lt. shut-bare s i lt,
    )
