-- ===== src/Metarec/Ptc/Mode.antt =====
-- The commanded recording mode after READY_STATUS and SHUTDOWN messages.
use recording_agent_continuo.Prelude.{
  ℕ, ◌/◌, ◌%◌, ◌<◌, ◌==◌, ◌≡◌, refl, Bool, true, false, some, if◌then◌else◌, arith,
}
use recording_agent_continuo.Metarec.{Layout}
use recording_agent_continuo.Metarec.Intf.{Env}
use recording_agent_continuo.Metarec.Ptc.{
  Ptc, ReadyStatus, Shutdown, FunctionType, shutdown_chm, shutdown_removable_ssd, shutdown_all,
  other, ptci_get_rm_meta, msgcb_ready_status_meta_rec, msgcb_shutdown_meta_rec,
}

-- DO_RECORD_CHM_META and DO_RECORD_SSD_META in a mode.
abbrev pub chm_bit : ℕ → Bool
chm_bit rm = rm % 2 == 1

abbrev pub ssd_bit : ℕ → Bool
ssd_bit rm = rm / 2 % 2 == 1

-- The drives that a SHUTDOWN message names.
abbrev pub stops_chm : FunctionType → Bool
stops_chm shutdown_chm = true
stops_chm shutdown_removable_ssd = false
stops_chm shutdown_all = true
stops_chm other = false

abbrev pub stops_ssd : FunctionType → Bool
stops_ssd shutdown_chm = false
stops_ssd shutdown_removable_ssd = true
stops_ssd shutdown_all = true
stops_ssd other = false

module _ (l : Layout) (e : Env) where
  -- After a READY_STATUS message of the expected version, handled with the mutex taken, the
  -- recording thread reads a mode below 4 in which each drive is set exactly when it is ready.
  ready_status-get :
      (m : ReadyStatus) (s : Ptc)
      → m.version ≡ l.ready_status_version
      → (rm : ℕ) × (ptci_get_rm_meta 0 (msgcb_ready_status_meta_rec l e true 0 m s) ≡ some rm)
        × (rm < 4)
        × (chm_bit rm ≡ m.chm_ready)
        × (ssd_bit rm ≡ m.removable_ssd_ready)
  unfolding msgcb_ready_status_meta_rec ptci_get_rm_meta
  ready_status-get m s h = (
    (msgcb_ready_status_meta_rec l e true 0 m s).commanded_recording_mode,
    refl,
    ground arith,
    ground arith,
    ground arith,
  )

  -- A SHUTDOWN message of the expected version, handled with the mutex taken, clears the bits of
  -- the drives that it names and keeps every other bit of the recording mode.
  shutdown-bits :
      (m : Shutdown) (s : Ptc)
      → m.version ≡ l.shutdown_version
      → let rm = s.commanded_recording_mode in
        let rm' = (msgcb_shutdown_meta_rec l e true 0 m s).commanded_recording_mode in
        (chm_bit rm' ≡ (if stops_chm m.function_type then false else chm_bit rm))
        × (ssd_bit rm' ≡ (if stops_ssd m.function_type then false else ssd_bit rm))
        × (rm' / 4 ≡ rm / 4)
  unfolding msgcb_shutdown_meta_rec
  shutdown-bits m s h = (ground arith, ground arith, ground arith)
