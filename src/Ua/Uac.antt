-- ===== src/Ua/Uac.antt =====
-- The states of an outgoing call (sippy/UacState*.py).
pub mod Idle
pub mod Answer
pub mod Trying
pub mod Ringing
pub mod Cancelling
pub mod Updating
