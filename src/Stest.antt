-- ===== src/Stest.antt =====
-- stest/: the objects of the library's tests, with the accessors that `pagen` generates.
pub mod Human
pub mod Orc
