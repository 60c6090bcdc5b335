-- ===== src/Config.antt =====
-- The configuration of the remote agent (reagent/src/config).
pub mod Xml
pub mod User
pub mod Dom
pub mod Media
pub mod Samples
pub mod Tests
