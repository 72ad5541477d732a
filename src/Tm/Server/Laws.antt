-- ===== src/Tm/Server/Laws.antt =====
-- Laws of server transactions.
pub mod Keys
pub mod Kept
pub mod Requests
pub mod Final
pub mod Expiry
pub mod Cancel
