-- ===== src/Metarec/Ptc.antt =====
-- metarec/src/ptc_meta_intf.c: the handlers of the messages that the recorder subscribes to, and
-- the commanded recording mode that they share with the recording thread. Each handler takes the
-- decoded message beside `verified`, the result of the PTC macro that checks a message and returns
-- from the handler if it is not one of the expected type and size.
pub mod Mode
pub mod Times
pub mod Gps
mod Tests
use recording_agent_continuo.Prelude.{
  ℕ, zero, suc, ◌+◌, ◌-◌, ◌*◌, ◌/◌, ◌%◌, ◌==◌, Bool, true, false, not, ◌&&◌, ◌||◌, Option, none,
  some, if◌then◌else◌, List, [], ◌∷◌,
}
use recording_agent_continuo.Prelude.Int.{ℤ, is_negative, is_positive, is_zero, negate}
use recording_agent_continuo.Prelude.Text.{Text}
use recording_agent_continuo.Metarec.{Layout}
use recording_agent_continuo.Metarec.Intf.{
  Intf, Env, DigitalInput, set_gps, set_time_info, set_locomotive_id, set_video_event,
  set_digital_input_config,
}

-- The static variables of ptc_meta_intf.c, the time change flag of metaio.c, and the state of
-- metaintf.c.
pub record Ptc : Type 0 where
  pub commanded_recording_mode : ℕ
  pub previous_time_offset : ℤ
  pub forward_time_change_occurred : Bool
  pub intf : Intf

-- The messages, after their headers: the fields that the handlers read.
pub record TimeInfo : Type 0 where
  pub version : ℕ
  pub system_time : ℕ
  pub time_offset : ℤ
  pub time_source : Text

pub record GpsData : Type 0 where
  pub version : ℕ
  pub latitude : Text
  pub longitude : Text
  pub speed : Text

pub record ReadyStatus : Type 0 where
  pub version : ℕ
  pub chm_ready : Bool
  pub removable_ssd_ready : Bool

-- The function type of a SHUTDOWN message; `other` is any value that the switch does not name.
pub data FunctionType : Type 0 where
  shutdown_chm shutdown_removable_ssd shutdown_all other : FunctionType

pub record Shutdown : Type 0 where
  pub version : ℕ
  pub function_type : FunctionType

-- The conversions of GPS texts, which the repository does not define.
pub record GpsParser : Type 0 where
  pub get_gps_direction : Text → ℕ
  pub parse_gps_latitude : Text → ℤ
  pub parse_gps_longitude : Text → ℤ
  pub parse_gps_speed : Text → ℤ

-- metaio.c's setter of the time change flag, under its mutex.
unfoldable pub update_forward_time_change_status : Bool → Ptc → Ptc
update_forward_time_change_status status s = record s { forward_time_change_occurred = status }

-- `text[0] != '\0'`
abbrev pub is_nonempty : Text → Bool
is_nonempty [] = false
is_nonempty (c ∷ cs) = true

-- `rm |= DO_RECORD_CHM_META`, `rm |= DO_RECORD_SSD_META`: the bits of value 1 and 2.
unfoldable pub or_chm : ℕ → ℕ
or_chm rm = rm / 2 * 2 + 1

unfoldable pub or_ssd : ℕ → ℕ
or_ssd rm = rm / 4 * 4 + 2 + rm % 2

-- `rm &= ~DO_RECORD_CHM_META`, `rm &= ~DO_RECORD_SSD_META`
unfoldable pub and_not_chm : ℕ → ℕ
and_not_chm rm = rm / 2 * 2

unfoldable pub and_not_ssd : ℕ → ℕ
and_not_ssd rm = rm / 4 * 4 + rm % 2

-- `lock` is the result of pthread_mutex_lock, 0 for success; the mutex is released before the
-- function returns. `none` is the result -1.
unfoldable pub ptci_get_rm_meta : (lock : ℕ) → Ptc → Option ℕ
ptci_get_rm_meta lock s = if lock == 0 then some s.commanded_recording_mode else none

unfoldable pub ptci_set_rm_meta : (lock : ℕ) → ℕ → Ptc → Ptc
ptci_set_rm_meta lock rm s = if lock == 0 then record s { commanded_recording_mode = rm } else s

module _ (l : Layout) (e : Env) (verified : Bool) where
  unfoldable pub msgcb_time_info_meta_rec : TimeInfo → Ptc → Ptc
  unfolding update_forward_time_change_status
  msgcb_time_info_meta_rec m s =
      let s1 = record s {
        intf = set_time_info l e m.system_time m.time_offset m.time_source s.intf;
      } in
      let s2 =
        if is_negative s1.previous_time_offset && is_zero m.time_offset
        then update_forward_time_change_status true s1
        else s1 in
      if verified && m.version == l.time_info_version && is_nonempty m.time_source
      then record s2 { previous_time_offset = m.time_offset }
      else s

  unfoldable pub msgcb_locomotive_id : (version : ℕ) → Text → Ptc → Ptc
  msgcb_locomotive_id version id s =
      if verified && version == l.loco_version && is_nonempty id
      then record s { intf = set_locomotive_id l e (some id) s.intf }
      else s

  unfoldable pub msgcb_video_event_info_meta_rec : (version : ℕ) → Text → (value : ℕ) → Ptc → Ptc
  msgcb_video_event_info_meta_rec version name value s =
      if verified && version == l.video_event_version && is_nonempty name
      then record s { intf = set_video_event l e name value s.intf }
      else s

  -- 's' and 'S' are 115 and 83, 'w' and 'W' are 119 and 87.
  unfoldable pub southern : ℕ → ℤ → ℤ
  southern d x = if (d == 115 || d == 83) && is_positive x then negate x else x

  unfoldable pub western : ℕ → ℤ → ℤ
  western d x = if (d == 119 || d == 87) && is_positive x then negate x else x

  unfoldable pub msgcb_gps_data_meta_rec : GpsParser → GpsData → Ptc → Ptc
  unfolding southern western
  msgcb_gps_data_meta_rec p m s =
      let lat_d = p.get_gps_direction m.latitude in
      let lon_d = p.get_gps_direction m.longitude in
      let latitude = p.parse_gps_latitude m.latitude in
      let longitude = p.parse_gps_longitude m.longitude in
      let speed = p.parse_gps_speed m.speed in
      if verified
        && m.version == l.gps_version
        && not (is_zero latitude && is_zero longitude && is_zero speed)
      then record s {
        intf = set_gps l e (southern lat_d latitude) (western lon_d longitude) speed s.intf;
      }
      else s

  -- The loop over the message's inputs; an input whose number is 0 is not one.
  unfoldable pub set_inputs : List DigitalInput → Ptc → Ptc
  set_inputs [] s = s
  set_inputs (d ∷ ds) s = set_inputs ds (
      if d.di_number == 0 then s else record s {
        intf = (set_digital_input_config d.di_name d.di_number d.di_recording s.intf).1;
      })

  unfoldable pub msgcb_digital_config_meta_rec : (version : ℕ) → List DigitalInput → Ptc → Ptc
  unfolding set_inputs
  msgcb_digital_config_meta_rec version inputs s =
      if verified && version == l.digital_inputs_version then set_inputs inputs s else s

  unfoldable pub msgcb_ready_status_meta_rec : (lock : ℕ) → ReadyStatus → Ptc → Ptc
  unfolding or_chm or_ssd
  msgcb_ready_status_meta_rec lock m s =
      let chm = if m.chm_ready then or_chm 0 else 0 in
      let rm = if m.removable_ssd_ready then or_ssd chm else chm in
      if verified && m.version == l.ready_status_version
      then record s { commanded_recording_mode = if lock == 0 then rm else 0 }
      else s

  -- The switch on the function type.
  unfoldable pub shut_down : FunctionType → ℕ → ℕ
  unfolding and_not_chm and_not_ssd
  shut_down shutdown_chm rm = and_not_chm rm
  shut_down shutdown_removable_ssd rm = and_not_ssd rm
  shut_down shutdown_all rm = rm / 4 * 4
  shut_down other rm = rm

  unfoldable pub msgcb_shutdown_meta_rec : (lock : ℕ) → Shutdown → Ptc → Ptc
  unfolding shut_down
  msgcb_shutdown_meta_rec lock m s =
      if verified && m.version == l.shutdown_version && lock == 0
      then record s {
        commanded_recording_mode = shut_down m.function_type s.commanded_recording_mode;
      }
      else s
