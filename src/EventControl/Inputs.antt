-- ===== src/EventControl/Inputs.antt =====
-- What a pass sends about the discrete inputs.
use recording_agent_continuo.Prelude.{
  ℕ, zero, suc, ◌+◌, ◌≤◌, ◌*◌, ◌/◌, ◌%◌, ◌==◌, ◌≡◌, refl, sym, inl, inr, Bool, true, false, ◌&&◌,
  if◌then◌else◌, List, [], ◌∷◌, ◌++◌, append-nil, Bool-cases, arith,
}
use recording_agent_continuo.EventControl.Bits.{bit, to_nat, bitwise, differ, bit-bitwise}
use recording_agent_continuo.EventControl.State.{Configuration, Timers, Control}
use recording_agent_continuo.EventControl.Poll.{
  Platform, uninitialized_discretes, new_events, changed_inputs, is_change, process_register,
}
use recording_agent_continuo.EventControl.Infos.{infos, infos_of, power_state, process_data-Tells}

-- The inputs of a list whose bits in two values of the register differ.
abbrev pub differing : (prev current : ℕ) → List ℕ → List ℕ
differing prev current [] = []
differing prev current (i ∷ is) =
    if differ (bit i current) (bit i prev)
    then suc i ∷ differing prev current is
    else differing prev current is

-- Reading the changes bit by bit.
new_events-differing :
    (prev current : ℕ)
    → new_events 3 0 (bitwise differ 8 current prev) ≡ differing prev current (0 ∷ 1 ∷ 2 ∷ [])
unfolding new_events
new_events-differing prev current = rw (bit-bitwise differ 0 8 current prev (omega arith)) (
    rw (bit-bitwise differ 1 8 current prev (omega arith))
      (rw (bit-bitwise differ 2 8 current prev (omega arith)) refl))

differ_same : (b : Bool) → differ b b ≡ false
differ_same true = refl
differ_same false = refl

differing_same : (n : ℕ) (is : List ℕ) → differing n n is ≡ []
differing_same n [] = refl
differing_same n (i ∷ is) = rw (differ_same (bit i n)) (differing_same n is)

to_nat-and : (a b : Bool) → to_nat (a && b) ≤ to_nat b
to_nat-and true b = omega arith
to_nat-and false b = omega arith

to_nat_low_bit : (n : ℕ) → to_nat (n % 2 == 1) + 2 * (n / 2) ≡ n
to_nat_low_bit n = ground arith

and-le : (w a b : ℕ) → bitwise ◌&&◌ w a b ≤ b
unfolding bitwise
and-le zero a b = omega arith
and-le (suc w) a b =
    omega (arith, to_nat-and (a % 2 == 1) (b % 2 == 1), to_nat_low_bit b, and-le w (a / 2) (b / 2))

-- The inputs that a pass acts on: all three if none was read before, else those that differ.
abbrev pub due_inputs : (prev current : ℕ) → List ℕ
due_inputs prev current =
    if prev == uninitialized_discretes
    then 1 ∷ 2 ∷ 3 ∷ []
    else differing prev current (0 ∷ 1 ∷ 2 ∷ [])

changed_inputs-due : (prev current : ℕ) → changed_inputs prev current ≡ due_inputs prev current
unfolding changed_inputs new_events bit
changed_inputs-due prev current = elim (Bool-cases (prev == uninitialized_discretes)) [
  | inl h ↦ rw h refl
  | inr h ↦ rw h (new_events-differing prev current)
]

due_same : (n : ℕ) → (n == uninitialized_discretes) ≡ false → due_inputs n n ≡ []
due_same n h = rw h (differing_same n (0 ∷ 1 ∷ 2 ∷ []))

no_change-due : (prev current : ℕ) → is_change prev current ≡ false → due_inputs prev current ≡ []
unfolding is_change
no_change-due prev current h =
    let same : prev ≡ current = ground arith in
    let later : (current == uninitialized_discretes) ≡ false = ground arith in
    rw same (due_same current later)

no_change-same : (prev current : ℕ) → is_change prev current ≡ false → prev ≡ current
unfolding is_change
no_change-same prev current h = ground arith

module _ {T : Type 0} (ptc : Timers T) (platform : Platform) (config : Configuration) where
  -- With a mask of at most the three inputs, the register, if it is known, is kept as the previous
  -- one, the watch of the power stays, and the messages about inputs that are sent are those of a
  -- reference: for each input whose bit differs from the previous register (for all three, if none
  -- was read before), in order, its value under the name of the first digital input with its
  -- number, if that one is recorded.
  pub process_register-infos :
      (reg_data : ℕ) (s : Control T)
      → platform.discrete_input_reg_mask ≤ 7
      → (reg_data == platform.din_reg_data_unknown) ≡ false
      → (let current = bitwise ◌&&◌ 8 reg_data platform.discrete_input_reg_mask in
          let after = process_register ptc platform config reg_data s in
          (infos after.sent
            ≡ infos s.sent
              ++ infos_of config.digital_inputs current
                  (due_inputs s.prev_discrete_fpga_reg current))
          × (after.discrete_fpga_reg ≡ current)
          × (after.prev_discrete_fpga_reg ≡ current)
          × (power_state after ≡ power_state s))
  unfolding process_register
  process_register-infos reg_data s small known =
      let current = bitwise ◌&&◌ 8 reg_data platform.discrete_input_reg_mask in
      let bounded : (current == uninitialized_discretes) ≡ false =
        ground (arith, and-le 8 reg_data platform.discrete_input_reg_mask) in
      elim (Bool-cases (is_change s.prev_discrete_fpga_reg current)) [
        | inl h ↦ rw known (
            rw bounded (
              rw h (
                rw (sym (changed_inputs-due s.prev_discrete_fpga_reg current)) (
                  process_data-Tells ptc config (changed_inputs s.prev_discrete_fpga_reg current)
                    (record s { discrete_fpga_reg = current; prev_discrete_fpga_reg = current })))))
        | inr h ↦ rw known (
            rw bounded (
              rw h (
                rw (no_change-due s.prev_discrete_fpga_reg current h) (
                  sym (append-nil (infos s.sent)),
                  refl,
                  no_change-same s.prev_discrete_fpga_reg current h,
                  refl,
                ))))
      ]
