-- ===== src/Ua/Laws/Frame.antt =====
-- What the handlers of the states leave alone.
mod Uac
mod Parts
mod Uas
mod Handlers
pub use Parts.*
pub use Uac.{state_response-Frame}
pub use Handlers.{state_event-Frame, state_request-Frame, state_ack-Frame, try_auth-Frame}
