-- ===== src/Ua/Connected.antt =====
-- sippy/UaStateConnected.py: the call is up.
pub mod Requests
pub mod Events
