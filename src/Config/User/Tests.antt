-- ===== src/Config/User/Tests.antt =====
-- The collection of a user's configuration in two rounds of messages.
use recording_agent_continuo.Prelude.{
  ℕ, zero, suc, ◌<◌, ◌==◌, true, false, ◌≡◌, refl, none, if◌then◌else◌, List, [], ◌∷◌, map, arith,
}
use recording_agent_continuo.Prelude.Text.{Text, codes}
use recording_agent_continuo.Config.User.{
  Versions, Message, init_camera_list, time_info, locomotive_id, clear_user_config, User, Blank,
  video_application_status, send, uc_is_ready, clear_camera_list, clear_time_info, clear_locoid,
  uc_msgcb, poll, uc_collect,
}
use recording_agent_continuo.Config.User.Items.{
  Holds, offered, camera_act, time_act, loco_act, poll-first,
}
use recording_agent_continuo.Config.User.Collect.{polled, uc_collect-ready}

abbrev versions : Versions
versions = record {
  init_camera_list_version = 1;
  time_info_version = 1;
  locomotive_id_version = 1;
  clear_user_config_version = 1;
  heartbeat_request_version = 1;
  ready_status_version = 1;
}

abbrev blank : Blank Text ℕ Text
blank = record { camera_list = []; info = 0; id = [] }

abbrev started : User Text ℕ Text
started = record {
  has_camera_list = false;
  has_time_info = false;
  has_locoid = false;
  uc_camera_list = [];
  uc_time_info = 0;
  uc_loco_id = [];
  chm_ready = false;
  removable_ssd_ready = false;
  time_info_variable = none;
  sent = [];
}

abbrev messages : List (Message Text ℕ Text)
messages =
    init_camera_list true 1 (codes "one")
    ∷ (clear_user_config true 1 true false false
        ∷ (init_camera_list true 1 (codes "two")
            ∷ (init_camera_list true 1 (codes "three")
                ∷ (time_info true 1 5 ∷ (locomotive_id true 2 (codes "LOCO") ∷ [])))))

poll-first_example :
    let v = poll versions blank messages started in
    Holds [] (offered [] (map (camera_act versions) messages)) v.has_camera_list v.uc_camera_list
    × Holds 0 (offered [] (map (time_act versions) messages)) v.has_time_info v.uc_time_info
    × Holds [] (offered [] (map (loco_act versions) messages)) v.has_locoid v.uc_loco_id
poll-first_example =
    poll-first versions blank messages started (refl, refl) (refl, refl) (refl, refl)

-- The locomotive's name comes in the second round.
abbrev polls : ℕ → List (Message Text ℕ Text)
polls i = if i == 0 then messages else locomotive_id true 1 (codes "LOCO") ∷ []

first_round :
    (j : ℕ)
    → j < 1
    → uc_is_ready
        (polled versions blank polls (suc j) 0 (send (video_application_status true) started))
      ≡ false
unfolding polled poll uc_msgcb clear_camera_list clear_time_info clear_locoid uc_is_ready
first_round zero lt = refl
first_round (suc j) lt = absurd (omega arith)

uc_collect-ready_example :
    uc_collect versions blank 7 true true polls started
    ≡ (1, polled versions blank polls 2 0 (send (video_application_status true) started))
unfolding polled poll uc_msgcb clear_camera_list clear_time_info clear_locoid uc_is_ready
uc_collect-ready_example =
    uc_collect-ready versions blank polls 7 1 started refl (omega arith) first_round refl
