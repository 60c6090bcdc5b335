-- ===== src/Config/Tests.antt =====
-- The theorems at a configuration file of two cameras and at some messages.
use recording_agent_continuo.Prelude.{
  ◌+◌, ◌-◌, ◌*◌, length, take, true, ◌≡◌, refl, inr, none, some, [], ◌∷◌, arith,
}
use recording_agent_continuo.Prelude.Text.{codes}
use recording_agent_continuo.Config.Xml.{
  Reader, start_of, end_of, characters, find_param, handle_all, do_file,
}
use recording_agent_continuo.Config.Xml.Document.{IsField, between}
use recording_agent_continuo.Config.Xml.Files.{document, do_file-value}
use recording_agent_continuo.Config.Xml.Blank.{handle_all-blank}
use recording_agent_continuo.Config.Samples.{
  camera_param, name_param, params, front_field, rear_field, front, rear, file, reader,
}

front_field-IsField : IsField params front_field
unfolding find_param
front_field-IsField = record {
  found = refl;
  addressed = refl;
  per_camera = refl;
  named = refl;
  short = omega arith;
  trimmed = inr ([], [], refl, tt, tt, omega arith, omega arith);
}

rear_field-IsField : IsField params rear_field
unfolding find_param
rear_field-IsField = record {
  found = refl;
  addressed = refl;
  per_camera = refl;
  named = refl;
  short = omega arith;
  trimmed =
      inr (
        codes " ",
        codes " ",
        refl,
        (omega arith, tt),
        (omega arith, tt),
        omega arith,
        omega arith,
      );
}

do_file-value_example :
    (s : Reader) × (do_file params (some file) reader ≡ some (true, s))
    × (s.values (10 + length (front ∷ []) * 100) ≡ take (13 - 1) (codes "rear"))
unfolding find_param
do_file-value_example =
    do_file-value params (codes "recorder") (codes " " ∷ []) camera_param 10 (front ∷ []) rear [] []
      rear_field [] file (document (codes "recorder") (codes " " ∷ []) (front ∷ rear ∷ [])) reader
      refl refl refl ((front_field-IsField, tt), ((rear_field-IsField, tt), tt)) (omega arith) refl
      tt tt refl refl

handle_all-blank_example :
    handle_all
      (start_of (codes "name") ∷ characters (codes "  ") ∷ end_of (codes "name") ∷ [])
      (between params none 2 0 (λ a. []))
    ≡ none
unfolding find_param
handle_all-blank_example =
    handle_all-blank params (codes "name") name_param 10 b' ' (codes " ") [] none 2 0 (λ a. []) refl
      refl (omega arith) (omega arith)
