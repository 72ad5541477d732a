-- ===== src/B2b.antt =====
-- The call controller (sippy/b2bua.py), which joins two call legs.
pub mod Types
pub mod Route
pub mod Legs
pub mod Originate
pub mod Control
pub mod Machine
pub mod Map
pub mod Laws
pub mod Tests
