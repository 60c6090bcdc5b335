-- ===== src/Metarec/Intf/Digital.antt =====
-- The map of digital inputs: what its names are after any configuration, and how many fit.
use recording_agent_continuo.Prelude.{ℕ, ◌≡◌, refl, ◌≢◌, Bool, List, [], ◌∷◌, arith, All}
use recording_agent_continuo.Prelude.Text.{Text}
use recording_agent_continuo.Metarec.Intf.{
  DigitalInput, Intf, initial_config_map, config_scan, set_digital_input_config,
}

-- A message's digital input: its name, number and recording flag.
abbrev pub Input : Type 0
Input = Text × ℕ × Bool

pub configure : List Input → Intf → Intf
configure [] s = s
configure ((name, number, recording) ∷ r) s =
    configure r (set_digital_input_config name number recording s).1

abbrev pub IsNameless : List DigitalInput → Type 0
IsNameless = All (λ d. d.di_name ≡ [])

abbrev pub IsTaken : List DigitalInput → Type 0
IsTaken = All (λ d. d.di_number ≢ 0)

config_scan-IsNameless :
    (name : Text) (n : ℕ) (r : Bool) (ds : List DigitalInput)
    → IsNameless ds
    → IsNameless (config_scan name n r ds).1
unfolding config_scan
config_scan-IsNameless name n r [] h = tt
config_scan-IsNameless name n r (d ∷ ds) (hd, hs) =
    ground (arith, config_scan-IsNameless name n r ds hs)

config_scan_taken :
    (name : Text) (n : ℕ) (r : Bool) (ds : List DigitalInput)
    → IsTaken ds
    → config_scan name n r ds ≡ (0, ds)
unfolding config_scan
config_scan_taken name n r [] h = refl
config_scan_taken name n r (d ∷ ds) (hd, hs) = ground (arith, config_scan_taken name n r ds hs)

-- If all names of the map of digital inputs are empty, they are so after any sequence of
-- configurations.
configure-IsNameless :
    (inputs : List Input) (s : Intf)
    → IsNameless s.config_map
    → IsNameless (configure inputs s).config_map
unfolding configure set_digital_input_config
configure-IsNameless [] s h = h
configure-IsNameless ((name, n, r) ∷ rest) s h =
    configure-IsNameless rest (set_digital_input_config name n r s).1
      (config_scan-IsNameless name n r s.config_map h)

-- From the map of the start of the program, one configuration with a number other than 0 is taken,
-- and the next one is refused and changes nothing.
set_digital_input_config_once :
    (s : Intf) (a b : Input)
    → s.config_map ≡ initial_config_map
    → a.1 ≢ 0
    → let (rc, s') = set_digital_input_config a.0 a.1 a.2 s in
      (rc ≡ 1) × (set_digital_input_config b.0 b.1 b.2 s' ≡ (0, s'))
unfolding set_digital_input_config config_scan
set_digital_input_config_once s a b e h = rw e (refl, ground arith)
