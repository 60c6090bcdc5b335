-- ===== src/EventControl/Watch.antt =====
-- How soon a loss of power is noticed.
use recording_agent_continuo.Prelude.{
  ℕ, suc, ◌+◌, ◌<◌, ◌==◌, ◌≡◌, refl, ap, ◌∙◌, inl, inr, Bool, true, false, not, ◌&&◌, Option, some,
  List, [], ◌∷◌, ◌++◌, append_assoc, Bool-cases, arith, length,
}
use recording_agent_continuo.EventControl.Bits.{bitwise}
use recording_agent_continuo.EventControl.State.{
  Configuration, Timers, Effect, ready_status, shutdown_power_loss, Control,
}
use recording_agent_continuo.EventControl.Poll.{
  Reading, Platform, uninitialized_discretes, changed_inputs, is_change, power_check,
  send_drive_status, process_register, poll_inputs, poll_drives, poll_rest, go_on, go_on_loss,
  go_on_status, go_on_poll, check_for_event, check_for_events,
}
use recording_agent_continuo.EventControl.Infos.{power_state, process_data-Tells}
use recording_agent_continuo.EventControl.Power.{poll_drives-IsHushed}

-- That no drive is ready, and the shutdown.
abbrev pub power_loss_messages : List Effect
power_loss_messages =
    ready_status (record { chm_ready = false; removable_ssd_ready = false })
    ∷ (shutdown_power_loss ∷ [])

abbrev pub HasPson : Reading → Type 0
HasPson r = r.pson ≡ some true

module _ {T : Type 0} (ptc : Timers T) (platform : Platform) (config : Configuration) where
  process_register-power :
      (reg_data : ℕ) (s : Control T)
      → power_state (process_register ptc platform config reg_data s) ≡ power_state s
  unfolding process_register
  process_register-power reg_data s =
      let current = bitwise ◌&&◌ 8 reg_data platform.discrete_input_reg_mask in
      let prev = s.prev_discrete_fpga_reg in
      elim (Bool-cases (reg_data == platform.din_reg_data_unknown)) [
        | inl h ↦ rw h refl
        | inr h ↦
            elim (Bool-cases (not (current == uninitialized_discretes) && is_change prev current)) [
              | inl g ↦ rw h (
                  rw g
                    (process_data-Tells ptc config (changed_inputs prev current) (record s {
                      discrete_fpga_reg = current;
                      prev_discrete_fpga_reg = current;
                    })).3)
              | inr g ↦ rw h (rw g refl)
            ]
      ]

  poll_inputs-power :
      (reg_data : ℕ) (s : Control T)
      → power_state (poll_inputs ptc platform config reg_data s) ≡ power_state s
  unfolding poll_inputs
  poll_inputs-power reg_data s =
      elim (Bool-cases (not s.power_going_down && s.is_digital_config_sent)) [
        | inl h ↦ rw h (process_register-power reg_data s)
        | inr h ↦ rw h refl
      ]

  poll_rest-power :
      (r : Reading) (s : Control T)
      → power_state (poll_rest ptc platform config r s) ≡ power_state s
  unfolding poll_rest
  poll_rest-power r s =
      let drives = poll_drives-IsHushed ptc platform config r s in
      poll_inputs-power r.reg_data (poll_drives ptc platform config r s) ∙ ground (arith, drives)

  send-power : (s : Control T) → power_state (send_drive_status s) ≡ power_state s
  unfolding send_drive_status
  send-power s = elim (Bool-cases s.power_going_down) [ inl h ↦ rw h refl | inr h ↦ rw h refl ]

  go_on-power :
      (r : Reading) (s : Control T)
      → s.power_going_down ≡ false
      → power_state (go_on ptc platform config r s) ≡ power_state s
  go_on-power r s h = elim (Bool-cases s.drive_status_requested) [
    | inl g ↦
        rw (go_on_status ptc platform config r s g h)
          (poll_rest-power r (send_drive_status s) ∙ send-power s)
    | inr g ↦ rw (go_on_poll ptc platform config r s g) (poll_rest-power r s)
  ]

  send-loss :
      (s : Control T)
      → s.power_going_down ≡ true
      → ((send_drive_status s).sent ≡ s.sent ++ power_loss_messages)
        × ((send_drive_status s).power_going_down ≡ true)
  unfolding send_drive_status
  send-loss s g =
      let none_ready : Effect =
        ready_status (record { chm_ready = false; removable_ssd_ready = false }) in
      ground (arith, append_assoc s.sent (none_ready ∷ []) (shutdown_power_loss ∷ []))

  go_on-loss :
      (r : Reading) (s : Control T)
      → s.drive_status_requested ≡ true
      → s.power_going_down ≡ true
      → ((go_on ptc platform config r s).sent ≡ s.sent ++ power_loss_messages)
        × ((go_on ptc platform config r s).power_going_down ≡ true)
  go_on-loss r s h g = rw (go_on_loss ptc platform config r s h g) (send-loss s g)

module _ {T : Type 0} where
  power_check-counts :
      (pson : Option Bool) (s : Control T) (n : ℕ)
      → power_state s ≡ (n, false)
      → n < 2
      → power_state (power_check pson s) ≡ (suc n, false)
  unfolding power_check
  power_check-counts pson s n h small = ground arith

  power_check-finds :
      (s : Control T)
      → power_state s ≡ (2, false)
      → (let t = power_check (some true) s in
          (t.sent ≡ s.sent) × (t.drive_status_requested ≡ true) × (t.power_going_down ≡ true))
  unfolding power_check
  power_check-finds s h = ground arith

module _ {T : Type 0} (ptc : Timers T) (platform : Platform) (config : Configuration) where
  -- A pass that does not look at PSON counts.
  check-counts :
      (r : Reading) (s : Control T) (n : ℕ)
      → power_state s ≡ (n, false)
      → n < 2
      → power_state (check_for_event ptc platform config r s) ≡ (suc n, false)
  unfolding check_for_event
  check-counts r s n h small =
      let counted = power_check-counts r.pson s n h small in
      go_on-power ptc platform config r (power_check r.pson s) (ap (λ p. p.1) counted) ∙ counted

  -- A pass that looks at PSON and finds it.
  check-finds :
      (r : Reading) (s : Control T)
      → power_state s ≡ (2, false)
      → HasPson r
      → ((check_for_event ptc platform config r s).sent ≡ s.sent ++ power_loss_messages)
        × ((check_for_event ptc platform config r s).power_going_down ≡ true)
  unfolding check_for_event
  check-finds r s h p =
      let found = power_check-finds s h in
      let loss = go_on-loss ptc platform config r (power_check (some true) s) found.1 found.2 in
      rw p (loss.0 ∙ ap (λ es. es ++ power_loss_messages) found.0, loss.1)

  -- From a counter n below 3, not noticing a loss of power before, the pass that comes after 2 - n
  -- passes and reads PSON as set sends, as its only messages, that no drive is ready and then the
  -- shutdown, and the power is known to go down.
  pub check_for_events-loss :
      (n : ℕ) (rs : List Reading) (r : Reading) (s : Control T)
      → power_state s ≡ (n, false)
      → n + length rs ≡ 2
      → HasPson r
      → (let before = check_for_events ptc platform config rs s in
          let after = check_for_event ptc platform config r before in
          (after.sent ≡ before.sent ++ power_loss_messages) × (after.power_going_down ≡ true))
  unfolding check_for_events
  check_for_events-loss n [] r s h e p =
      let two : n ≡ 2 = omega arith in check-finds r s (h ∙ ap (λ m. (m, false)) two) p
  check_for_events-loss n (q ∷ rs) r s h e p =
      check_for_events-loss (suc n) rs r (check_for_event ptc platform config q s)
        (check-counts q s n h (omega arith)) (omega arith) p
