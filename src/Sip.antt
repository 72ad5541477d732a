-- ===== src/Sip.antt =====
-- SIP messages as the call logic reads them, digest challenges, and the routing of requests in a
-- dialog.
pub mod Message
pub mod Auth
pub mod Routing
pub mod Text
pub mod Uri
pub mod Tests
