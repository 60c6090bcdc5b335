-- ===== src/EventControl/Poll.antt =====
-- check_for_event: the 10 Hz pass, with what it reads in the pass as an argument.
use recording_agent_continuo.Prelude.{
  ℕ, zero, suc, ◌+◌, ◌%◌, ◌^◌, ◌==◌, ◌≡◌, ◌∙◌, Bool, true, false, not, ◌&&◌, ◌||◌, Option, none,
  some, if◌then◌else◌, if_true, if_false, List, [], ◌∷◌,
}
use recording_agent_continuo.EventControl.Bits.{bit, bitwise, differ}
use recording_agent_continuo.EventControl.State.{
  DoorLock, Configuration, Timers, ready_status, shutdown_power_loss, Control, emit,
}
use recording_agent_continuo.EventControl.Drives.{
  ChmReading, process_chm_connect_status, process_door_lock_status,
}
use recording_agent_continuo.EventControl.Discrete.{process_discrete_input_data}

-- What a pass reads: the flag PSON (none: the shared memory cannot be read), the CHM, the door, and
-- the register of the inputs.
pub record Reading : Type 0 where
  pub pson : Option Bool
  pub chm : ChmReading
  pub lock : DoorLock
  pub reg_data : ℕ

-- What is defined outside the repository: times in milliseconds, the value that stands for an
-- unknown register, and the mask of its inputs.
pub record Platform : Type 0 where
  pub video_shutdown_timeout : ℕ
  pub removable_ssd_mount_timeout : ℕ
  pub din_reg_data_unknown : ℕ
  pub discrete_input_reg_mask : ℕ

abbrev pub num_iterations_before_checking_pson : ℕ
num_iterations_before_checking_pson = 3

abbrev pub uninitialized_discretes : ℕ
uninitialized_discretes = 99

abbrev pub all_set : ℕ
all_set = 7

-- The inputs whose bits are set, from input number `index + 1` on.
unfoldable pub new_events : (count index : ℕ) → (changes : ℕ) → List ℕ
new_events zero index changes = []
new_events (suc count) index changes =
    let rest = new_events count (suc index) changes in
    if bit index changes then suc index ∷ rest else rest

-- The inputs that are acted on: all of them the first time, then those that changed.
unfoldable pub changed_inputs : (prev current : ℕ) → List ℕ
changed_inputs prev current =
    new_events 3 0
      (if prev == uninitialized_discretes then all_set else bitwise differ 8 current prev)

-- Whether the register is acted on: it has changed, or it is the first one.
unfoldable pub is_change : (prev current : ℕ) → Bool
is_change prev current = not (prev == current) || (prev == uninitialized_discretes)

module _ {T : Type 0} where
  unfoldable pub power_check : Option Bool → Control T → Control T
  power_check pson s =
      let count = (s.power_down_check_shm_counter + 1) % 2 ^ 8 in
      let counted = record s { power_down_check_shm_counter = count } in
      let again = record s { power_down_check_shm_counter = 0 } in
      if count == num_iterations_before_checking_pson && not s.power_going_down
      then elim pson [
        | none ↦ again
        | some going_down ↦
            if going_down
            then record counted {
              vra_shutdown_in_progress = true;
              drive_status_requested = true;
              power_going_down = true;
            }
            else again
      ]
      else counted

  -- A drive status that was asked for; with the power going down, that no drive is ready, and the
  -- shutdown.
  unfoldable pub send_drive_status : Control T → Control T
  send_drive_status s =
      let cleared = record s { drive_status_requested = false } in
      if s.power_going_down
      then emit shutdown_power_loss
          (emit (ready_status (record { chm_ready = false; removable_ssd_ready = false })) cleared)
      else emit (ready_status s.drive_ready_status) cleared

  module _ (ptc : Timers T) (platform : Platform) (config : Configuration) where
    open platform use {
      video_shutdown_timeout, removable_ssd_mount_timeout, din_reg_data_unknown,
      discrete_input_reg_mask,
    }

    unfoldable pub process_register : ℕ → Control T → Control T
    unfolding changed_inputs
    process_register reg_data s =
        let current = bitwise ◌&&◌ 8 reg_data discrete_input_reg_mask in
        let prev = s.prev_discrete_fpga_reg in
        let read = record s { discrete_fpga_reg = current } in
        if reg_data == din_reg_data_unknown
        then s
        else if not (current == uninitialized_discretes) && is_change prev current
        then process_discrete_input_data ptc config (changed_inputs prev current)
            (record read { prev_discrete_fpga_reg = current })
        else read

    unfoldable pub poll_inputs : ℕ → Control T → Control T
    unfolding process_register
    poll_inputs reg_data s =
        if not s.power_going_down && s.is_digital_config_sent
        then process_register reg_data s
        else s

    unfoldable pub poll_drives : Reading → Control T → Control T
    poll_drives r s =
        process_door_lock_status ptc video_shutdown_timeout removable_ssd_mount_timeout r.lock
          (process_chm_connect_status r.chm s)

    unfoldable pub poll_rest : Reading → Control T → Control T
    unfolding poll_drives poll_inputs
    poll_rest r s = poll_inputs r.reg_data (poll_drives r s)

    -- The pass after the check of the power: it ends with the messages of a loss of power.
    unfoldable pub go_on : Reading → Control T → Control T
    unfolding poll_rest send_drive_status
    go_on r s =
        if s.drive_status_requested
        then (if s.power_going_down then send_drive_status s else poll_rest r (send_drive_status s))
        else poll_rest r s

    unfoldable pub check_for_event : Reading → Control T → Control T
    unfolding go_on power_check
    check_for_event r s = go_on r (power_check r.pson s)

    unfoldable pub check_for_events : List Reading → Control T → Control T
    check_for_events [] s = s
    check_for_events (r ∷ rs) s = check_for_events rs (check_for_event r s)

    -- The three ways through a pass.
    pub go_on_loss :
        (r : Reading) (s : Control T)
        → s.drive_status_requested ≡ true
        → s.power_going_down ≡ true
        → go_on r s ≡ send_drive_status s
    unfolding go_on
    go_on_loss r s h g = if_true _ _ _ h ∙ if_true _ _ _ g

    pub go_on_status :
        (r : Reading) (s : Control T)
        → s.drive_status_requested ≡ true
        → s.power_going_down ≡ false
        → go_on r s ≡ poll_rest r (send_drive_status s)
    unfolding go_on
    go_on_status r s h g = if_true _ _ _ h ∙ if_false _ _ _ g

    pub go_on_poll :
        (r : Reading) (s : Control T) → s.drive_status_requested ≡ false → go_on r s ≡ poll_rest r s
    unfolding go_on
    go_on_poll r s h = if_false _ _ _ h
