-- ===== src/Agent/Tests.antt =====
-- An agent with two cameras: runs of it, and the theorems at them.
use recording_agent_continuo.Prelude.{◌≡◌, refl, true, false, List, [], ◌∷◌, arith, total}
use recording_agent_continuo.Prelude.Text.{codes}
use recording_agent_continuo.Agent.State.{
  World, exited, has_recording, find_first, spawn_recorder, camera_status, recording_status,
  spawn_metarec, spawn_space_monitor,
}
use recording_agent_continuo.Agent.Record.{
  default_mode, status_of_mode, keeps_chm, keeps_rssd, see_if_recording, retry_slot,
  start_recording_process, spawn_recording, try_spawn, note_started, note_running,
  restart_space_monitor, after_stop, handle_metarec, handle_space_monitor, send_recording_status,
  send_camera_status,
}
use recording_agent_continuo.Agent.Commands.{
  shutdown_all, msgcb_shutdown_rec, handle_camera_record_pause,
}
use recording_agent_continuo.Agent.Workers.{IsCounted, HasPids}
use recording_agent_continuo.Agent.History.{
  Command, ready_status, shutdown, camera_record_pause, report, watch, obey_all, obey_all-IsCounted,
}
use recording_agent_continuo.Agent.Drives.{shutdown_all-rests}
use recording_agent_continuo.Agent.Starts.{start-driveless}
use recording_agent_continuo.Agent.Attempts.{attempts}
use recording_agent_continuo.Agent.Retry.{starts, starts-three}
use recording_agent_continuo.Agent.Samples.{agent, bare, world, broken}

world-HasPids : HasPids world
world-HasPids i pid h = ground arith

abbrev orders : List (World × Command)
orders =
    (world, ready_status true true true)
    ∷ ((world, camera_record_pause true (codes "front") true)
        ∷ ((world, camera_record_pause true (codes "rear") true)
            ∷ ((record world { wait = λ pid. exited }, watch)
                ∷ ((world, shutdown true shutdown_all) ∷ ((world, report 1 false) ∷ [])))))

-- The start of the first camera starts the other processes too.
first_start :
    (start_recording_process world 0 agent).1.sent
    ≡ spawn_recorder 0
      ∷ (camera_status 0 (record {
        chm_video = true;
        chm_audio = true;
        ssd_video = true;
        ssd_audio = true;
        dont_use_chm = false;
      })
          ∷ (recording_status true true ∷ (spawn_metarec ∷ (spawn_space_monitor ∷ []))))
unfolding start_recording_process retry_slot find_first default_mode spawn_recording try_spawn
    note_started note_running status_of_mode see_if_recording keeps_chm keeps_rssd
    restart_space_monitor after_stop handle_metarec handle_space_monitor send_recording_status
    send_camera_status
first_start = refl

obey_all-IsCounted_example : IsCounted 2 (obey_all orders agent)
unfolding total
obey_all-IsCounted_example =
    obey_all-IsCounted 2 orders agent
      (
        world-HasPids,
        (world-HasPids, (world-HasPids, (world-HasPids, (world-HasPids, (world-HasPids, tt))))),
      )
      (refl, refl)

shutdown_all-rests_example :
    (let t = msgcb_shutdown_rec true shutdown_all agent in
      let later = obey_all orders t in
      (has_recording (t.cameras 1).recording_mode_flags ≡ false)
      × (has_recording (t.cameras 1).recording_status_flags ≡ false)
      × ((t.cameras 1).worker_pid ≡ 0)
      × (handle_camera_record_pause world (codes "rear") true later ≡ (false, later)))
shutdown_all-rests_example =
    shutdown_all-rests agent 1 orders world (codes "rear") true (omega arith)

start-driveless_example :
    (let t = start_recording_process world 1 bare in
      (t.0 ≡ true)
      × ((t.1.cameras 1).worker_pid ≡ 100)
      × (has_recording (t.1.cameras 1).recording_status_flags ≡ false)
      × (t.1.n_cams_recording ≡ 1))
start-driveless_example =
    start-driveless world 1 100 bare (omega arith) refl refl refl refl refl refl refl

starts-three_example :
    (((starts broken 0 5 agent).cameras 0).is_assigned ≡ false)
    × (attempts (starts broken 0 5 agent).sent ≡ 3)
starts-three_example = starts-three broken 0 5 agent (omega arith) refl (refl, refl, refl) refl
