-- ===== src/Metarec/Ptc/Times.antt =====
-- When TIME_INFO messages announce a forward time change.
use recording_agent_continuo.Prelude.{
  ◌≡◌, refl, Bool, true, false, ◌&&◌, ◌||◌, List, [], ◌∷◌, arith, All,
}
use recording_agent_continuo.Prelude.Int.{ℤ, is_negative, is_zero}
use recording_agent_continuo.Metarec.{Layout}
use recording_agent_continuo.Metarec.Intf.{Env}
use recording_agent_continuo.Metarec.Ptc.{Ptc, TimeInfo, is_nonempty, msgcb_time_info_meta_rec}

-- A message that the handler records.
abbrev pub IsRecorded : Layout → TimeInfo → Type 0
IsRecorded l m = (m.version ≡ l.time_info_version) × (is_nonempty m.time_source ≡ true)

-- Somewhere in the offsets, a negative one is followed by 0.
abbrev pub falls_to_zero : ℤ → List TimeInfo → Bool
falls_to_zero previous [] = false
falls_to_zero previous (m ∷ ms) =
    (is_negative previous && is_zero m.time_offset) || falls_to_zero m.time_offset ms

module _ (l : Layout) (e : Env) where
  pub receive_times : List TimeInfo → Ptc → Ptc
  receive_times [] s = s
  receive_times (m ∷ ms) s = receive_times ms (msgcb_time_info_meta_rec l e true m s)

  time_info_step :
      (m : TimeInfo) (s : Ptc)
      → IsRecorded l m
      → let s' = msgcb_time_info_meta_rec l e true m s in
        (s'.previous_time_offset ≡ m.time_offset)
        × (s'.forward_time_change_occurred ≡ (
            (is_negative s.previous_time_offset && is_zero m.time_offset)
            || s.forward_time_change_occurred))
  unfolding msgcb_time_info_meta_rec
  time_info_step m s h = ground arith

  -- After any sequence of recorded TIME_INFO messages the time change flag is set exactly when it
  -- was set before or a negative offset, the remembered one included, was followed by the offset
  -- 0.
  pub receive_times-flag :
      (ms : List TimeInfo) (s : Ptc)
      → All (IsRecorded l) ms
      → (receive_times ms s).forward_time_change_occurred
        ≡ (falls_to_zero s.previous_time_offset ms || s.forward_time_change_occurred)
  unfolding receive_times
  receive_times-flag [] s h = refl
  receive_times-flag (m ∷ ms) s (hm, hs) = ground (
    arith,
    time_info_step m s hm,
    receive_times-flag ms (msgcb_time_info_meta_rec l e true m s) hs,
  )
