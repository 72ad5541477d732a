-- ===== src/Tm/Server.antt =====
-- Server transactions (sippy/SipTransactionManager.py: incomingRequest, sendResponse, doCancel,
-- timerA, timerD, timerE, timerF). A transaction is an object that the table, the consumers and the
-- timers share: the heap gives its attributes, and the table its number. What a message reads as on
-- the wire and where its Via leads are parameters; `res_out_cb` is taken not to be set.
pub mod Types
pub mod Send
pub mod Receive
pub mod Laws
pub mod Tests
