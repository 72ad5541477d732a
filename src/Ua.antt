-- ===== src/Ua.antt =====
-- The user agent (sippy/UA.py and sippy/U*State*.py): one call leg as a state machine.
pub mod Types
pub mod State
pub mod Timers
pub mod Queue
pub mod Requests
pub mod Change
pub mod Remote
pub mod Local
pub mod Uac
pub mod Uas
pub mod Connected
pub mod Dispatch
pub mod Agent
pub mod Incoming
pub mod Account
pub mod Machine
pub mod Laws
pub mod Tests
