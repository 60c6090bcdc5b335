-- ===== src/Metarec/Tests.antt =====
-- Passes of the recording thread on concrete states.
use recording_agent_continuo.Prelude.{
  ℕ, suc, ◌+◌, ◌≡◌, refl, true, false, none, some, List, [], ◌∷◌, ◌++◌, arith,
}
use recording_agent_continuo.Prelude.Text.{codes}
use recording_agent_continuo.Metarec.{Desc, gps, gps_memory}
use recording_agent_continuo.Prelude.Int.{pos}
use recording_agent_continuo.Metarec.Recorder.{Tm, RcdIdx, Effect, Recorder, World, Sizes}
use recording_agent_continuo.Metarec.Io.{
  is_drive_status_updated, index_descriptor, record_descriptor, Pass, got, idle, passes,
  start_thread,
}
use recording_agent_continuo.Metarec.Io.Bounds.{InBounds, passes-InBounds}
use recording_agent_continuo.Metarec.Io.Align.{IsAligned, IsSound}
use recording_agent_continuo.Metarec.Io.Points.{writes, record_descriptor-points}

abbrev sizes : Sizes
sizes = record {
  prefix_size = 64;
  header_size = 80000;
  index_capacity = 2000;
  default_chunk_records = 1800;
}

abbrev noon : Tm
noon = record { tm_year = 2020; tm_mon = 5; tm_mday = 17; tm_hour = 12; tm_min = 0; tm_sec = 0 }

-- Both drives are commanded, every file opens, the first location's as stream 3, the other's as
-- stream 4, and every write succeeds.
abbrev world : World
world = record {
  gmtime = λ t. noon;
  fopen = λ i p. some (3 + i);
  fwrite_ok = λ i. true;
  is_dir_exist = λ p. true;
  recording_mode = some 3;
  chm_commanded = λ m. true;
  ssd_commanded = λ m. true;
  mono_sec = 5000;
  mono_nsec = 0;
}

world-IsSound : IsSound world
world-IsSound = record { write0 = refl; write1 = refl; distinct = λ p q. ground arith }

abbrev entry : RcdIdx
entry = record { byteoffset = 0; timestamp = 0; recordtype = gps; recordlength = 0 }

-- Both locations are used, and no chunk is open yet.
abbrev started : Recorder
started = record {
  data_loc = λ i. record {
    is_used = true;
    basedir = codes "/mnt";
    datadir = codes "METADATA";
    stagingdir = codes "staging";
  };
  subpath = [];
  n_copies = 2;
  chunk_duration = 300;
  m_chunk = record {
    session_just_started = true;
    drive_status_updated = false;
    prev_tm = noon;
    chunk_fname = [];
    chunk_duration_usecs = 0;
    chunk_max_duration = 300;
    fp = λ i. none;
    t0 = 7;
    deltat = 1000;
  };
  num_records = 0;
  max_records = 2000;
  idx_allocated = true;
  idx_data = λ i. entry;
  forward_time_change_occurred = false;
  pre_chm_rec = some true;
  pre_ssd_rec = some true;
  out = λ i. none;
  pos = 0;
  offset = λ h. 0;
  trace = [];
}

abbrev position : Desc
position = record {
  data_type = gps;
  data_length = 12;
  payload = gps_memory (pos 1) (pos 2) (pos 3);
  block = 1;
  tod_sec = 1589716800;
  ts_sec = 5000;
  ts_nsec = 0;
}

started-IsAligned : IsAligned started
started-IsAligned = ground arith

started_drives : (is_drive_status_updated world started).0 ≡ false
unfolding is_drive_status_updated
started_drives = refl

record_descriptor-points_example :
    let r1 = index_descriptor sizes world [] position started in
    (k : ℕ) × (rest : List Effect) × (r1.num_records ≡ suc k)
    × ((r1.idx_data k).timestamp ≡ 1589716800)
    × ((r1.idx_data k).recordtype ≡ gps)
    × ((r1.idx_data k).recordlength ≡ 12)
    × ((record_descriptor sizes world [] position started).trace
        ≡ r1.trace
          ++ (writes (r1.out 0) (r1.idx_data k).byteoffset position
              ++ (writes (r1.out 1) (r1.idx_data k).byteoffset position ++ rest)))
record_descriptor-points_example =
    record_descriptor-points sizes world world-IsSound [] position started started_drives
      started-IsAligned (ground arith) refl (omega arith)

started-InBounds : InBounds sizes started
started-InBounds = ground arith

abbrev some_passes : List Pass
some_passes = got world [] position ∷ idle world ∷ got world [] position ∷ []

passes-InBounds_example :
    InBounds sizes
      (passes sizes some_passes (start_thread sizes true (some (100, 0)) (some (50, 0)) started))
passes-InBounds_example =
    passes-InBounds sizes true (some (100, 0)) (some (50, 0)) some_passes started started-InBounds
