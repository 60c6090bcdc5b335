-- ===== src/Config/User/Items.antt =====
-- Which of the messages' contents are held: an item is offered by one kind of message and dropped
-- by CLEAR_USER_CONFIG.
use recording_agent_continuo.Prelude.{
  ℕ, ◌==◌, Bool, true, false, ◌&&◌, ◌≡◌, if◌then◌else◌, List, [], ◌∷◌, ◌++◌, map, arith,
}
use recording_agent_continuo.Config.User.{
  Versions, Message, init_camera_list, time_info, locomotive_id, clear_user_config,
  heartbeat_request, ready_status, User, Blank, uc_msgcb, poll, clear_camera_list, clear_time_info,
  clear_locoid,
}

pub data Act (A : Type 0) : Type 0 where
  offer : A → Act A
  drop_item : Act A
  idle : Act A

module _ {A : Type 0} where
  abbrev pub keep : List A → Act A → List A
  keep offers (offer a) = offers ++ a ∷ []
  keep offers drop_item = []
  keep offers idle = offers

  -- All that was offered since the item was dropped last, in order.
  abbrev pub offered : List A → List (Act A) → List A
  offered offers [] = offers
  offered offers (a ∷ as') = offered (keep offers a) as'

  abbrev pub is_held : List A → Bool
  is_held [] = false
  is_held (a ∷ offers) = true

  abbrev pub first_or : A → List A → A
  first_or blank [] = blank
  first_or blank (a ∷ offers) = a

  -- An item is held if some was offered, and it is the first.
  abbrev pub Holds : A → List A → (is_set : Bool) → A → Type 0
  Holds blank offers is_set a = (is_set ≡ is_held offers) × (a ≡ first_or blank offers)

abbrev cleared : {A : Type 0} → Versions → (verified : Bool) → (version : ℕ) → Bool → Act A
cleared versions verified version clear =
    if verified && (version == versions.clear_user_config_version)
    then (if clear then drop_item else idle)
    else idle

module _ {C T L : Type 0} (versions : Versions) where
  abbrev pub camera_act : Message C T L → Act C
  camera_act (init_camera_list verified version cameras) =
      if verified && (version == versions.init_camera_list_version) then offer cameras else idle
  camera_act (clear_user_config verified version cameras info id) =
      cleared versions verified version cameras
  camera_act (time_info verified version info) = idle
  camera_act (locomotive_id verified version id) = idle
  camera_act (heartbeat_request verified version sequence) = idle
  camera_act (ready_status verified version chm ssd) = idle

  abbrev pub time_act : Message C T L → Act T
  time_act (time_info verified version info) =
      if verified && (version == versions.time_info_version) then offer info else idle
  time_act (clear_user_config verified version cameras info id) =
      cleared versions verified version info
  time_act (init_camera_list verified version cameras) = idle
  time_act (locomotive_id verified version id) = idle
  time_act (heartbeat_request verified version sequence) = idle
  time_act (ready_status verified version chm ssd) = idle

  abbrev pub loco_act : Message C T L → Act L
  loco_act (locomotive_id verified version id) =
      if verified && (version == versions.locomotive_id_version) then offer id else idle
  loco_act (clear_user_config verified version cameras info id) =
      cleared versions verified version id
  loco_act (init_camera_list verified version cameras) = idle
  loco_act (time_info verified version info) = idle
  loco_act (heartbeat_request verified version sequence) = idle
  loco_act (ready_status verified version chm ssd) = idle

  module _ (blank : Blank C T L) where
    uc_msgcb-camera :
        (m : Message C T L) (u : User C T L) (offers : List C)
        → Holds blank.camera_list offers u.has_camera_list u.uc_camera_list
        → Holds blank.camera_list
            (keep offers (camera_act m))
            (uc_msgcb versions blank m u).has_camera_list
            (uc_msgcb versions blank m u).uc_camera_list
    unfolding uc_msgcb clear_camera_list clear_time_info clear_locoid
    uc_msgcb-camera m u [] h = ground arith
    uc_msgcb-camera m u (c ∷ cs) h = ground arith

    uc_msgcb-time :
        (m : Message C T L) (u : User C T L) (offers : List T)
        → Holds blank.info offers u.has_time_info u.uc_time_info
        → Holds blank.info
            (keep offers (time_act m))
            (uc_msgcb versions blank m u).has_time_info
            (uc_msgcb versions blank m u).uc_time_info
    unfolding uc_msgcb clear_camera_list clear_time_info clear_locoid
    uc_msgcb-time m u [] h = ground arith
    uc_msgcb-time m u (c ∷ cs) h = ground arith

    uc_msgcb-loco :
        (m : Message C T L) (u : User C T L) (offers : List L)
        → Holds blank.id offers u.has_locoid u.uc_loco_id
        → Holds blank.id
            (keep offers (loco_act m))
            (uc_msgcb versions blank m u).has_locoid
            (uc_msgcb versions blank m u).uc_loco_id
    unfolding uc_msgcb clear_camera_list clear_time_info clear_locoid
    uc_msgcb-loco m u [] h = ground arith
    uc_msgcb-loco m u (c ∷ cs) h = ground arith

    poll-offered :
        (ms : List (Message C T L)) (u : User C T L) (cs : List C) (ts : List T) (ls : List L)
        → Holds blank.camera_list cs u.has_camera_list u.uc_camera_list
        → Holds blank.info ts u.has_time_info u.uc_time_info
        → Holds blank.id ls u.has_locoid u.uc_loco_id
        → let v = poll versions blank ms u in
          Holds blank.camera_list
            (offered cs (map camera_act ms))
            v.has_camera_list
            v.uc_camera_list
          × Holds blank.info (offered ts (map time_act ms)) v.has_time_info v.uc_time_info
          × Holds blank.id (offered ls (map loco_act ms)) v.has_locoid v.uc_loco_id
    unfolding poll
    poll-offered [] u cs ts ls hc ht hl = (hc, ht, hl)
    poll-offered (m ∷ ms) u cs ts ls hc ht hl =
        poll-offered ms (uc_msgcb versions blank m u) (keep cs (camera_act m))
          (keep ts (time_act m)) (keep ls (loco_act m)) (uc_msgcb-camera m u cs hc)
          (uc_msgcb-time m u ts ht) (uc_msgcb-loco m u ls hl)

    -- From a state that holds nothing, after any sequence of messages the camera list, the time
    -- and the locomotive's name are each held exactly if one was offered by a verified message of
    -- the expected version since the last that cleared it, and what is held is the first of them.
    pub poll-first :
        (ms : List (Message C T L)) (u : User C T L)
        → (u.has_camera_list ≡ false) × (u.uc_camera_list ≡ blank.camera_list)
        → (u.has_time_info ≡ false) × (u.uc_time_info ≡ blank.info)
        → (u.has_locoid ≡ false) × (u.uc_loco_id ≡ blank.id)
        → let v = poll versions blank ms u in
          Holds blank.camera_list
            (offered [] (map camera_act ms))
            v.has_camera_list
            v.uc_camera_list
          × Holds blank.info (offered [] (map time_act ms)) v.has_time_info v.uc_time_info
          × Holds blank.id (offered [] (map loco_act ms)) v.has_locoid v.uc_loco_id
    poll-first ms u hc ht hl = poll-offered ms u [] [] [] hc ht hl
