-- ===== src/Ua/Laws.antt =====
-- What holds of the user agent.
pub mod Frame
pub mod Induction
pub mod Delivery
pub mod Ending
pub mod Timing
pub mod Graph
pub mod Challenges
