-- ===== src/Config/User.antt =====
-- The user's part of the configuration, which the recorder's host sends:
-- reagent/src/config/user_config.c. What a message carries is copied as it is, so its type is a
-- parameter; blank holds what memset leaves of it. PTC_VERIFY_MSG_WITH_PAYLOAD is the flag verified.
pub mod Items
pub mod Collect
pub mod Tests
use recording_agent_continuo.Prelude.{
  ℕ, zero, suc, ◌==◌, ltb, Bool, true, false, not, ◌&&◌, Option, none, some, if◌then◌else◌, List,
  [], ◌∷◌, ◌++◌,
}

-- The versions of the messages that the agent expects.
pub record Versions : Type 0 where
  pub init_camera_list_version : ℕ
  pub time_info_version : ℕ
  pub locomotive_id_version : ℕ
  pub clear_user_config_version : ℕ
  pub heartbeat_request_version : ℕ
  pub ready_status_version : ℕ

abbrev pub uc_timeout : ℕ
uc_timeout = 10

abbrev pub to_int : Bool → ℕ
to_int true = 1
to_int false = 0

pub data Sent : Type 0 where
  video_application_status : (configuration_info_available : Bool) → Sent
  heartbeat_response : (sequence : ℕ) → Sent

module _ (C T L : Type 0) where
  pub data Message : Type 0 where
    init_camera_list : (verified : Bool) → (version : ℕ) → (camera_list : C) → Message
    time_info : (verified : Bool) → (version : ℕ) → (info : T) → Message
    locomotive_id : (verified : Bool) → (version : ℕ) → (id : L) → Message
    clear_user_config :
        (verified : Bool)
        → (version : ℕ) → (clear_camera_list clear_timeoffset_info clear_locoid_info : Bool)
        → Message
    heartbeat_request : (verified : Bool) → (version : ℕ) → (sequence : ℕ) → Message
    ready_status :
        (verified : Bool) → (version : ℕ) → (chm_ready removable_ssd_ready : Bool) → Message

  -- The static variables. uc_state has three bits, and time_info_variable is what the environment
  -- variable TIME_INFO was made from.
  pub record User : Type 0 where
    pub has_camera_list : Bool
    pub has_time_info : Bool
    pub has_locoid : Bool
    pub uc_camera_list : C
    pub uc_time_info : T
    pub uc_loco_id : L
    pub chm_ready : Bool
    pub removable_ssd_ready : Bool
    pub time_info_variable : Option T
    pub sent : List Sent

  pub record Blank : Type 0 where
    pub camera_list : C
    pub info : T
    pub id : L

module _ {C T L : Type 0} where
  abbrev pub send : Sent → User C T L → User C T L
  send m u = record u { sent = u.sent ++ m ∷ [] }

  unfoldable pub uc_is_ready : User C T L → Bool
  uc_is_ready u = u.has_camera_list && (u.has_time_info && u.has_locoid)

  unfoldable pub clear_camera_list : Blank C T L → Bool → User C T L → User C T L
  clear_camera_list blank clear u =
      if clear then record u { uc_camera_list = blank.camera_list; has_camera_list = false } else u

  unfoldable pub clear_time_info : Blank C T L → Bool → User C T L → User C T L
  clear_time_info blank clear u =
      if clear then record u { uc_time_info = blank.info; has_time_info = false } else u

  unfoldable pub clear_locoid : Blank C T L → Bool → User C T L → User C T L
  clear_locoid blank clear u =
      if clear then record u { uc_loco_id = blank.id; has_locoid = false } else u

  module _ (versions : Versions) (blank : Blank C T L) where
    open versions use {
      init_camera_list_version, time_info_version, locomotive_id_version, clear_user_config_version,
      heartbeat_request_version, ready_status_version,
    }

    -- The handlers uc_msgcb_init_camera_list, uc_msgcb_time_info, uc_msgcb_locomotive_id,
    -- uc_msgcb_clear_uc, uc_msgcb_hb_request and uc_msgcb_ready_status.
    unfoldable pub uc_msgcb : Message C T L → User C T L → User C T L
    uc_msgcb (init_camera_list verified version cameras) u =
        if not u.has_camera_list && (verified && (version == init_camera_list_version))
        then record u { uc_camera_list = cameras; has_camera_list = true }
        else u
    uc_msgcb (time_info verified version info) u =
        if not u.has_time_info && (verified && (version == time_info_version))
        then record u { uc_time_info = info; has_time_info = true; time_info_variable = some info }
        else u
    uc_msgcb (locomotive_id verified version id) u =
        if not u.has_locoid && (verified && (version == locomotive_id_version))
        then record u { uc_loco_id = id; has_locoid = true }
        else u
    uc_msgcb (clear_user_config verified version cameras info id) u =
        if verified && (version == clear_user_config_version)
        then clear_locoid blank id (clear_time_info blank info (clear_camera_list blank cameras u))
        else u
    uc_msgcb (heartbeat_request verified version sequence) u =
        if verified && (version == heartbeat_request_version)
        then send (heartbeat_response sequence) u
        else u
    uc_msgcb (ready_status verified version chm ssd) u =
        if verified && (version == ready_status_version)
        then record u { chm_ready = chm; removable_ssd_ready = ssd }
        else u

    -- The messages of a call of ptc_poll, in order.
    unfoldable pub poll : List (Message C T L) → User C T L → User C T L
    poll [] u = u
    poll (m ∷ ms) u = poll ms (uc_msgcb m u)

    -- The loop of uc_collect, of which polls gives the messages of each round from i on; each round
    -- but the last waits a second. No handler ends it, that of the signals neither.
    unfoldable pub collect_loop :
        (uc_ttl : ℕ) → (polls : ℕ → List (Message C T L)) → (i : ℕ) → User C T L → User C T L
    collect_loop zero polls i u = u
    collect_loop (suc uc_ttl) polls i u =
        let polled = poll (polls i) u in
        let rest = collect_loop uc_ttl polls (suc i) polled in
        if ltb 0 uc_ttl then (if uc_is_ready polled then polled else rest) else u

    unfoldable pub collect :
        (attached : Bool) → (polls : ℕ → List (Message C T L)) → User C T L → User C T L
    collect attached polls u =
        if attached
        then collect_loop uc_timeout polls 0 (send (video_application_status true) u)
        else u

    -- exit_ptc_init_err is the value of EXIT_PTC_INIT_ERR.
    unfoldable pub uc_collect :
        (exit_ptc_init_err : ℕ)
        → (connected attached : Bool) → (polls : ℕ → List (Message C T L)) → User C T L
        → ℕ × User C T L
    uc_collect exit_ptc_init_err connected attached polls u =
        if uc_is_ready u
        then (1, u)
        else if connected
        then (let v = collect attached polls u in (to_int (uc_is_ready v), v))
        else (exit_ptc_init_err, u)
