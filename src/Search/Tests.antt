-- ===== src/Search/Tests.antt =====
-- The theorems at a camera's name and at a walk over three files.
use recording_agent_continuo.Prelude.{
  ℕ, ◌≤◌, ◌==◌, Bool, true, false, ◌≡◌, refl, some, List, [], ◌∷◌, arith,
}
use recording_agent_continuo.Prelude.Text.{Text, codes}
use recording_agent_continuo.Prelude.Int.{ℤ, pos}
use recording_agent_continuo.Metarec.Recorder.{Tm}
use recording_agent_continuo.Storage.{basename}
use recording_agent_continuo.Search.{
  Visit, Search, file_name_to_epoch, get_data_start_time, trim_trailing_undersore,
  add_trailing_underscore,
}
use recording_agent_continuo.Search.Names.{trim-add}
use recording_agent_continuo.Search.Oldest.{
  ComesFrom, get_data_start_time-oldest, get_data_start_time-stale,
}

trim-add_example :
    trim_trailing_undersore 12 (add_trailing_underscore 12 (codes "CAB_FRONT")) ≡ codes "CAB_FRONT"
trim-add_example = trim-add 12 (codes "CAB_FRONT") (ground arith) (omega arith)

-- Names that start with a digit.
abbrev dated : Text → Bool
dated [] = false
dated (c ∷ cs) = c == b'2'

abbrev to_zero : Tm → ℤ
to_zero t = pos 0

abbrev visit : Text → ℕ → Visit
visit path time = record { fpath = path; st_mtime = time; is_file = true }

abbrev searched : Search
searched = record {
  mtime_start = 3;
  mtime_end = 0;
  time_epoch = pos 0;
  temp_buff = codes "/old/2019";
}

abbrev walked : List Visit
walked = visit (codes "/d/x") 1 ∷ (visit (codes "/d/20") 9 ∷ (visit (codes "/d/21") 7 ∷ []))

get_data_start_time-oldest_example :
    (r : Search) × (get_data_start_time dated to_zero (some walked) searched
      ≡ some (some (r.temp_buff, file_name_to_epoch dated to_zero (basename r.temp_buff)), r))
    × ComesFrom dated to_zero walked r
    × (r.mtime_start ≤ 9)
get_data_start_time-oldest_example =
    get_data_start_time-oldest dated to_zero (visit (codes "/d/x") 1 ∷ []) (visit (codes "/d/20") 9)
      (visit (codes "/d/21") 7 ∷ []) searched (omega arith)
      ((codes "x", refl), ((codes "20", refl), ((codes "21", refl), tt))) refl

get_data_start_time-stale_example :
    get_data_start_time dated to_zero (some (visit (codes "/d/x") 1 ∷ [])) searched
    ≡ some (
      some (codes "/old/2019", file_name_to_epoch dated to_zero (codes "2019")),
      record searched { mtime_start = 0 },
    )
get_data_start_time-stale_example =
    get_data_start_time-stale dated to_zero (visit (codes "/d/x") 1 ∷ []) searched (refl, tt)
