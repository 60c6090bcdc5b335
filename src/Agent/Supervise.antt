-- ===== src/Agent/Supervise.antt =====
-- The parts of _1Hz_timer_callback for one camera: whether it is online
-- (reflect_camera_online_status), and whether its recording process runs. The search for a camera's
-- new address and the status for the web server are left out.
use recording_agent_continuo.Prelude.{
  ℕ, zero, suc, ◌+◌, ◌-◌, ◌*◌, ◌==◌, ltb, Bool, true, false, not, ◌&&◌, ◌||◌, if◌then◌else◌, set_at,
}
use recording_agent_continuo.Agent.State.{Agent, World, put_camera, is_dead, has_recording, is_any}
use recording_agent_continuo.Agent.Record.{
  clear_chm, clear_ssd, send_camera_status, camera_recording_just_stopped, stop_recording_process,
  start_recording_process, handle_metarec, handle_space_monitor,
}

abbrev pub set_camon_ttl : ℕ → ℕ → Agent → Agent
set_camon_ttl i n s = record s { camon_ttl = set_at i n s.camon_ttl }

abbrev pub set_rp_ttl : ℕ → ℕ → Agent → Agent
set_rp_ttl i n s = record s { rp_ttl = set_at i n s.rp_ttl }

-- A camera that is no longer reported, after its last chance.
unfoldable pub go_offline : World → ℕ → Agent → Agent
go_offline w i s =
    let c = s.cameras i in
    if has_recording c.recording_status_flags
    then (if c.worker_pid == 0
        then put_camera i
            (record c { recording_status_flags = clear_ssd (clear_chm c.recording_status_flags) }) s
        else if is_dead w c.worker_pid
        then camera_recording_just_stopped w i s
        else (stop_recording_process w i s).1)
    else s

-- A camera that is reported again. Its recording is started where its process died, or where no
-- chance is left; the counter of chances is at its start here.
unfoldable pub go_online : World → ℕ → Agent → Agent
go_online w i s =
    let c = s.cameras i in
    let waits =
      (not (c.worker_pid == 0) && not (is_dead w c.worker_pid))
      || ((c.worker_pid == 0) && ltb 0 (s.camon_ttl i)) in
    if c.is_assigned && is_any c.recording_mode_flags
    then (if waits
        then set_camon_ttl i (10 * w.camon_ttl_start) s
        else (start_recording_process w i s).1)
    else s

unfoldable pub note_online : World → ℕ → (is_alive : Bool) → Agent → Agent
unfolding send_camera_status
note_online w i is_alive s =
    set_camon_ttl i w.camon_ttl_start
      (send_camera_status i (put_camera i (record (s.cameras i) { is_online = is_alive }) s))

-- With what is taken for its state from then on.
unfoldable pub reflect_camera_online_status : World → ℕ → (is_alive : Bool) → Agent → Bool × Agent
unfolding go_offline go_online note_online
reflect_camera_online_status w i is_alive s =
    let c = s.cameras i in
    if is_alive
    then (let seen = set_camon_ttl i w.camon_ttl_start s in
        if c.is_online then (false, seen) else (true, note_online w i true (go_online w i seen)))
    else if c.is_online
    then (if ltb 1 (s.camon_ttl i)
        then (true, set_camon_ttl i (s.camon_ttl i - 1) s)
        else (false, note_online w i false (go_offline w i s)))
    else (false, s)

-- A camera that is to record: a process that died is noted, and one that is missing is started
-- after some passes.
unfoldable pub supervise_camera : World → ℕ → Agent → Agent
supervise_camera w i s =
    let c = s.cameras i in
    if is_any c.recording_mode_flags
    then (if c.worker_pid == 0
        then (if c.is_online && c.is_assigned
            then (if ltb (2 * w.camon_ttl_start) (s.rp_ttl i)
                then (start_recording_process w i (set_rp_ttl i 0 s)).1
                else set_rp_ttl i (s.rp_ttl i + 1) s)
            else s)
        else (let seen = set_rp_ttl i 0 s in
            if is_dead w c.worker_pid
            then camera_recording_just_stopped w i
                (put_camera i (record c { worker_pid = 0; is_online = false }) seen)
            else seen))
    else s

unfoldable pub supervise_cameras : World → (count : ℕ) → Agent → Agent
unfolding supervise_camera
supervise_cameras w zero s = s
supervise_cameras w (suc n) s = supervise_camera w n (supervise_cameras w n s)

-- The loop over the cameras, and the processes that go with them.
unfoldable pub supervise : World → Agent → Agent
unfolding supervise_cameras
supervise w s = handle_space_monitor w (handle_metarec w (supervise_cameras w s.n_cameras s))
