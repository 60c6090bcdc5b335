-- ===== src/Agent.antt =====
-- reagent/src/ptc_intf.c: the remote agent's supervision of the recording processes of its cameras.
pub mod State
pub mod Record
pub mod Commands
pub mod Settings
pub mod Supervise
pub mod Workers
pub mod Counts
pub mod Changes
pub mod Passes
pub mod History
pub mod Down
pub mod Persists
pub mod Drives
pub mod Starts
pub mod Attempts
pub mod Retry
pub mod Resets
pub mod Stops
pub mod Audio
pub mod Samples
mod Tests
