-- ===== src/Tm.antt =====
-- Parts of the transaction manager (sippy/SipTransactionManager.py).
pub mod Cache
pub mod Consumers
pub mod Client
pub mod Server
pub mod Tests
