-- ===== src/B2b/Laws.antt =====
-- What holds of the call controller.
pub mod Frame
pub mod Hunting
pub mod Within
pub mod Brought
pub mod Granted
pub mod Bound
pub mod Hops
pub mod Stopping
pub mod Exit
