-- ===== src/Ua/Types.antt =====
-- The data of the user agent: call control events (sippy/CCEvents.py), the states that UA.py names,
-- the calls that it makes to the transaction manager, the timers and the application, and what a
-- handler of a state hands back.
use b2bua.Prelude.{ℕ, String, Bool, Option, none, some, List, [], ◌∷◌, ◌++◌}
use b2bua.Sip.Message.{Url, Header, Request, SdpError}

-- A status code, or the 'ACK' that `recvACK` puts in its place.
pub data Status : Type 0 where
  num : ℕ → Status
  ack_code : Status

-- `data` of CCEventTry: (cId, callingID, calledID, body, auth, callingName).
pub record TryData (B : Type 0) : Type 0 where
  pub call_id : Option String
  pub calling : Option String
  pub called : Option String
  pub body : Option B
  pub auth : Option Header
  pub name : Option String

-- The classes of CCEvents.py, each with what `getData()` returns.
pub data EventKind (B : Type 0) : Type 0 where
  try_call : TryData B → EventKind B
  ring : Option (ℕ × String × Option B) → EventKind B
  pre_connect : Status → String → Option B → EventKind B
  connect : Status → String → Option B → EventKind B
  update : Option B → EventKind B
  info : Option B → EventKind B
  disconnect : Option Url → EventKind B
  fail : Option (ℕ × String × Option B) → EventKind B
  redirect : Option (ℕ × String × Option B × Option (List Url)) → EventKind B

-- CCEventGeneric, with `max_forwards` (Try, Update) and `challenges`, `warning` (Fail).
pub record Event (B : Type 0) : Type 0 where
  pub kind : EventKind B
  pub seq : ℕ
  pub rtime : ℕ
  pub origin : Option String
  pub reason : Option Header
  pub extra_headers : List Header
  pub max_forwards : Option ℕ
  pub challenges : List Header
  pub warning : Option Header

abbrev opt_header : Option Header → List Header
opt_header none = []
opt_header (some h) = h ∷ []

-- CCEventGeneric.getExtraHeaders and CCEventFail.getExtraHeaders. An absent tuple is the empty list.
unfoldable pub get_extra_headers : {B : Type 0} → Event B → List Header
get_extra_headers e =
    e.extra_headers ++ (opt_header e.reason ++ (e.challenges ++ opt_header e.warning))

-- The classes that `UA.state` is an instance of.
pub data State : Type 0 where
  uas_idle uac_idle uas_trying uac_trying uas_ringing uac_ringing : State
  connected uas_updating uac_updating uac_cancelling disconnected failed dead : State

-- The callbacks of a timer.
pub data Timer : Type 0 where
  expires no_progress no_reply credit keep_alive go_dead go_idle late_disconnect : Timer

-- What answers a transaction that the UA starts.
pub data Reply : Type 0 where
  nobody to_ua to_keep_alive to_refer : Reply

-- What the UA makes of its surroundings.
pub data Call (B : Type 0) : Type 0 where
  -- `sendUasResponse`: code, reason, body, contacts, extra headers, ack_wait
  respond : Status → String → Option B → List Url → List Header → Bool → Call B
  -- `req.sendResponse`, or a response that `recvRequest` returns for the request itself
  reply : ℕ → String → Call B
  -- the provisional 100 that is sent as it stands
  provisional : Call B
  start : Request B → Reply → List Header → Call B
  cancel_transaction : Option ℕ → List Header → Call B
  send_ack : ℕ → Option B → Call B
  register unregister : String → Call B
  -- `tr.uack = True`: the ACK of this transaction waits for `send_ack`
  hold_ack : ℕ → Call B
  arm : Timer → ℕ → Call B
  disarm : Timer → Call B
  -- a callback of the tuples: which, rtime, origin, code
  notify : ℕ → ℕ → Option String → Option ℕ → Call B
  notify_dead : ℕ → Call B
  -- `on_local_sdp_change`
  update_local_sdp : B → Event B → Call B
  update_remote_sdp : B → Event B → Call B

-- How `on_remote_sdp_change(body, cb)` ends: a body, none yet, or an exception.
pub data RemoteOutcome (B : Type 0) : Type 0 where
  replaced : B → RemoteOutcome B
  pending : RemoteOutcome B
  sdp_error : SdpError → RemoteOutcome B
  crashed : String → RemoteOutcome B

-- How `on_local_sdp_change(body, cb)` ends.
pub data LocalOutcome : Type 0 where
  started : LocalOutcome
  sdp_error : SdpError → LocalOutcome
  crashed : String → LocalOutcome

-- The arguments for the callbacks of `changeState`.
pub record Notice : Type 0 where
  pub callbacks : List ℕ
  pub rtime : ℕ
  pub origin : Option String
  pub code : Option ℕ

-- What a handler returns: `None`, a tuple for `changeState`, or an exception that it lets pass.
pub data Next : Type 0 where
  stay : Next
  become : State → Option Notice → Next
  raised : SdpError → Next
  raised_other : String → Next
