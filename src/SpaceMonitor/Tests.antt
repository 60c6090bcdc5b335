-- ===== src/SpaceMonitor/Tests.antt =====
-- The space monitor on a small drive.
use recording_agent_continuo.Prelude.{
  ◌≤◌, ℕ, zero, suc, ◌+◌, ◌-◌, ◌*◌, ◌<◌, ◌≡◌, refl, ◌⊎◌, false, true, none, some, [], arith, All,
}
use recording_agent_continuo.Prelude.Text.{codes}
use recording_agent_continuo.Prelude.Int.{ℤ, pos}
use recording_agent_continuo.Metarec.Recorder.{Tm}
use recording_agent_continuo.Storage.{Entries, regular, directory, nil, cons, Disk, join_path}
use recording_agent_continuo.SpaceMonitor.{
  Oldest, max_time_t, file_name_to_epoch, find_oldest_entries, get_file_duration,
}
use recording_agent_continuo.SpaceMonitor.Groom.{
  process_entries, finished, is_below, drive_root, process_duration, process_available_space,
  delete_oldest_file, space_loop, groom_handler,
}
use recording_agent_continuo.Metarec.Chunk.{chunk_name, final_name}
use recording_agent_continuo.Storage.Names.{IsCalendar}
use recording_agent_continuo.SpaceMonitor.Names.{file_name_to_epoch-final_name}
use recording_agent_continuo.SpaceMonitor.Search.{Le_ℤ, visited, Holds, find_oldest_entries-oldest}
use recording_agent_continuo.SpaceMonitor.Ends.{Counts, space_loop-ends, groom_handler-ends}

-- Minutes of the day.
abbrev minutes : Tm → ℤ
minutes t = pos (t.tm_hour * 60 + t.tm_min)

abbrev camera : Entries
camera =
    cons (regular (codes "20200517-130000.300000000"))
      (cons (regular (codes "20200517-120000.300000000")) nil)

abbrev tree : Entries
tree = cons (directory (codes "CAM1") true camera) nil

-- The state is the number of files; the available space is what the files leave of ten blocks.
abbrev small : Disk ℕ
small = record {
  listing = λ s p. some tree;
  remove = λ p s. elim s [ zero ↦ none | suc n ↦ some n ];
  rmdir = λ p s. none;
  statvfs = λ s p. some (10 - s, 10);
  mktime = minutes;
  chm_path = codes "/mnt/chm";
  rssd_path = codes "/mnt/ssd";
}

small-Counts : Counts small (λ n. n)
small-Counts = record { removes = λ p s t h. ground arith; keeps = λ p s t h. ground arith }

space_loop-ends_example :
    (t : ℕ) × (space_loop small 10 (codes "/mnt/chm") 50 9 ≡ finished t)
    × ((is_below 50 (process_available_space small (codes "/mnt/chm") t) ≡ false)
        ⊎ (delete_oldest_file small (drive_root small (codes "/mnt/chm")) none t ≡ none))
space_loop-ends_example =
    space_loop-ends small (λ n. n) small-Counts 10 (codes "/mnt/chm") 50 9 (omega arith)

find_oldest_entries-oldest_example :
    let start : Oldest = record { path = []; time = max_time_t } in
    let o = find_oldest_entries minutes (codes "/mnt/chm") tree start in
    All (λ p. Le_ℤ o.time (file_name_to_epoch minutes p)) (visited (codes "/mnt/chm") tree)
    × ((o ≡ start)
        ⊎ (Holds (visited (codes "/mnt/chm") tree) o.path
            × (o.time ≡ file_name_to_epoch minutes o.path)))
find_oldest_entries-oldest_example = find_oldest_entries-oldest minutes (codes "/mnt/chm") tree

-- 20200517-150409.300000000.data
abbrev afternoon : Tm
afternoon = record {
  tm_year = 2020;
  tm_mon = 5;
  tm_mday = 17;
  tm_hour = 15;
  tm_min = 4;
  tm_sec = 9;
}

afternoon-IsCalendar : IsCalendar afternoon
afternoon-IsCalendar = record {
  year_min = omega arith;
  year_max = omega arith;
  mon = omega arith;
  mday = omega arith;
  hour = omega arith;
  min = omega arith;
  sec = omega arith;
}

file_name_to_epoch-final_name_example :
    let path = join_path (codes "/mnt/chm") (final_name (chunk_name afternoon) 300000000) in
    (file_name_to_epoch minutes path ≡ pos 904) × (get_file_duration path ≡ some 300000000)
file_name_to_epoch-final_name_example =
    file_name_to_epoch-final_name minutes (codes "/mnt/chm") afternoon 300000000
      afternoon-IsCalendar (omega arith)

-- Each directory holds the camera's files until all files are deleted.
abbrev emptying : Disk ℕ
emptying = record small { listing = λ s p. elim s [ zero ↦ some nil | suc n ↦ some camera ] }

emptying-Counts : Counts emptying (λ n. n)
emptying-Counts = record { removes = λ p s t h. ground arith; keeps = λ p s t h. ground arith }

emptying_deletes :
    (t : ℕ)
    → 1000 < process_duration emptying (join_path (codes "/mnt/chm") (codes "CAM1")) t
    → (u : ℕ) × (delete_oldest_file emptying
          (drive_root emptying (codes "/mnt/chm"))
          (some (codes "CAM1"))
          t
        ≡ some u)
unfolding process_duration process_entries delete_oldest_file
emptying_deletes zero h = absurd (omega (arith, h))
emptying_deletes (suc n) h = (_, refl)

groom_handler-ends_example :
    (t : ℕ) × (groom_handler emptying 10 (codes "/mnt/chm") (codes "CAM1") 1000 2 ≡ finished t)
    × (process_duration emptying (join_path (codes "/mnt/chm") (codes "CAM1")) t ≤ 1000)
groom_handler-ends_example =
    groom_handler-ends emptying (λ n. n) emptying-Counts 10 (codes "/mnt/chm") (codes "CAM1") 1000 2
      emptying_deletes (omega arith)
