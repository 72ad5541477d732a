-- ===== src/Ua/Uas.antt =====
-- The states of an incoming call (sippy/UasState*.py).
pub mod Idle
pub mod Progressing
pub mod Updating
