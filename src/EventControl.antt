-- ===== src/EventControl.antt =====
-- host_utils/ra_video_rec/event_control/event_control.c, as it is built without QNX_BUILD and LNVR:
-- the 10 Hz pass over the door lock, the drives and the discrete inputs.
pub mod Bits
pub mod State
pub mod Drives
pub mod Discrete
pub mod Poll
pub mod Infos
pub mod Inputs
pub mod Kept
pub mod Door
pub mod Power
pub mod Watch
pub mod Delay
pub mod Samples
mod Tests
