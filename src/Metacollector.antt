-- ===== src/Metacollector.antt =====
-- The metadata collector (metacollector/src): it reads the records of the chunk files that metarec
-- wrote and prints them as XML lists.
pub mod Reader
pub mod Writer
mod Tests
