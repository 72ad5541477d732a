-- ===== src/Tm/Client.antt =====
-- Client transactions (sippy/SipTransactionManager.py: newTransaction, cancelTransaction,
-- incomingResponse, timerA, timerB, timerC, timerG, sendACK, and the
-- part of handleIncoming that finds the transaction). A response callback is taken not to
-- call the manager for the same transaction, and `req_out_cb` is taken not to be set. What a request
-- reads as on the wire is a parameter, as are the addresses of messages.
pub mod Cancel
pub mod Once
pub mod Others
use b2bua.Prelude.{
  ℕ, ◌+◌, ◌*◌, String, Bool, true, false, Option, none, some, List, [], ◌∷◌, ◌&&◌, ltb, leb, not,
  if◌then◌else◌,
}
use b2bua.Prelude.Assoc.{Assoc, lookup, insert, remove, string_key}
use b2bua.Tm.Cache.{Entry, silence, Net, store, transmit_data}

pub data ClientState : Type 0 where
  trying ringing terminated uack : ClientState

-- A request to send: its transaction id, text, address and server, `expires` in seconds where it has
-- such a header, and for an INVITE the id and text of its CANCEL.
pub record Outgoing : Type 0 where
  pub tid : String
  pub text : String
  pub address : String × ℕ
  pub userv : ℕ
  pub is_invite : Bool
  pub expires : Option ℕ
  pub cancel : Option (String × String)

-- SipTransaction of a client. A timer is there with its timeout in milliseconds, or None. `watched`
-- tells whether `resp_cb` is set.
pub record Client : Type 0 where
  pub tid : String
  pub text : String
  pub address : String × ℕ
  pub userv : ℕ
  pub needack : Bool
  pub cancel : Option (String × String)
  pub state : ClientState
  pub tout : ℕ
  pub expires : ℕ
  pub cancel_pending : Bool
  pub uack : Bool
  pub watched : Bool
  pub te_a : Option ℕ
  pub te_b : Option ℕ
  pub te_c : Option ℕ
  pub te_g : Option ℕ
  pub ack : Option ((String × ℕ) × String × String)

-- What a response callback was called with: the transaction and the code, 408 for a timeout.
pub record Manager : Type 0 where
  pub tclient : Assoc String Client
  pub net : Net
  pub told : List (String × ℕ)

-- `self.tclient[t.tid] = t`.
abbrev pub add : Client → Manager → Manager
add t m = record m { tclient = insert t.tid t m.tclient }

abbrev pub is_known : Option Client → Bool
is_known none = false
is_known (some _) = true

-- The transaction object has changed, which shows in the table as long as it is listed. (A transaction
-- that is not listed any more is nobody's, but for timers that look at nothing else.)
abbrev pub put : Client → Manager → Manager
put t m = if is_known (lookup t.tid m.tclient) then add t m else m

abbrev pub forget : Client → Manager → Manager
forget t m = record m { tclient = remove t.tid m.tclient }

-- `t.resp_cb(msg)`, where it is set.
abbrev pub tell : Client → ℕ → Manager → Manager
tell t code m = if t.watched then record m { told = (t.tid, code) ∷ m.told } else m

abbrev pub expires_of : Outgoing → ℕ
expires_of o =
    if o.is_invite then elim o.expires [ none ↦ 300 | some n ↦ if ltb 0 n then n else 300 ] else 32

abbrev pub start_client : Outgoing → Bool → Client
start_client o watched = record {
  tid = o.tid;
  text = o.text;
  address = o.address;
  userv = o.userv;
  needack = o.is_invite;
  cancel = if o.is_invite then o.cancel else none;
  state = trying;
  tout = 500;
  expires = expires_of o * 1000;
  cancel_pending = false;
  uack = false;
  watched = watched;
  te_a = some 500;
  te_b = some 32000;
  te_c = none;
  te_g = none;
  ack = none;
}

-- newTransaction; `none` is the ValueError for a transaction id that is in use.
unfoldable pub new_transaction : Outgoing → Bool → Manager → Option Manager
new_transaction o watched m =
    if is_known (lookup o.tid m.tclient)
    then none
    else (let m1 = add (start_client o watched) m in
        some (record m1 { net = transmit_data o.userv o.text o.address none 0 m1.net }))

-- The CANCEL of an INVITE, sent by the INVITE's server.
abbrev pub cancel_of : Client → String × String → Outgoing
cancel_of t (tid, text) = record {
  tid = tid;
  text = text;
  address = t.address;
  userv = t.userv;
  is_invite = false;
  expires = none;
  cancel = none;
}

-- A transaction that is not an INVITE has no CANCEL: AttributeError.
unfoldable pub send_cancel : Client → Manager → Option Manager
send_cancel t m = elim t.cancel [ none ↦ none | some c ↦ new_transaction (cancel_of t c) false m ]

abbrev pub is_ringing : ClientState → Bool
is_ringing ringing = true
is_ringing _ = false

abbrev pub is_trying : ClientState → Bool
is_trying trying = true
is_trying _ = false

-- What the CANCEL reads as once the extra headers, if any, are appended to it.
abbrev pub with_text : Option String → Client → Client
with_text none t = t
with_text (some text) t = elim t.cancel [
  | none ↦ t
  | some c ↦ record t { cancel = some (c.0, text) }
]

-- cancelTransaction; `extra` is the text of the CANCEL with the extra headers, where some are given.
unfoldable pub cancel_transaction : Option String → Client → Manager → Option Manager
cancel_transaction extra t m =
    if is_ringing t.state
    then send_cancel (with_text extra t) (put (with_text extra t) m)
    else some (put (record t { cancel_pending = true }) m)

-- The timers that a response stops.
abbrev pub stop_timers : Client → Client
stop_timers t = record t { te_a = if is_trying t.state then none else t.te_a; te_b = none }

-- A provisional response: the first one lets a CANCEL go that waits for it.
unfoldable pub provisional : ℕ → String → Client → Manager → Option Manager
provisional code c t m =
    let first = is_trying t.state in
    let t1 = stop_timers t in
    let t2 = record t1 {
      state = ringing;
      cancel_pending = if first then false else t1.cancel_pending;
      te_b = some t1.expires;
    } in
    let m1 = put t2 m in
    let sent = if first && t.cancel_pending then send_cancel t m1 else some m1 in
    elim sent [
      | none ↦ none
      | some m2 ↦ some (tell t2 code (record m2 { net = store c silence m2.net }))
    ]

-- A final response; `ack` is where the ACK goes and what it reads as.
unfoldable pub final : ℕ → String → (String × ℕ) × String → Client → Manager → Manager
final code c ack t m =
    if t.needack
    then (if t.uack
        then (let t1 = record (stop_timers t) {
          state = uack;
          ack = some (ack.0, ack.1, c);
          te_g = some 64000;
        } in
            tell t1 code (put t1 (record m { net = store c silence m.net })))
        else forget t
            (tell t code (record m { net = transmit_data t.userv ack.1 ack.0 (some c) 0 m.net })))
    else forget t (tell t code (record m { net = store c silence m.net }))

-- incomingResponse.
unfoldable pub incoming_response :
    ℕ → String → (String × ℕ) × String → Client → Manager → Option Manager
incoming_response code c ack t m = elim t.state [
  | terminated ↦ some m
  | uack ↦ some m
  | trying ↦ if ltb code 200 then provisional code c t m else some (final code c ack t m)
  | ringing ↦ if ltb code 200 then provisional code c t m else some (final code c ack t m)
]

-- The request again, and twice the time until the next.
unfoldable pub timer_a : Client → Manager → Manager
timer_a t m =
    let t1 = record t { tout = 2 * t.tout; te_a = some (2 * t.tout) } in
    let m1 = put t1 m in record m1 { net = transmit_data t.userv t.text t.address none 0 m1.net }

unfoldable pub timer_b : Client → Manager → Manager
timer_b t m =
    let t1 = record t { te_a = none; te_b = none; te_c = some 32000; state = terminated } in
    tell t1 408 (put t1 m)

unfoldable pub timer_c : Client → Manager → Manager
timer_c t m = forget t m

-- timerG only drops itself and prints a warning.
unfoldable pub timer_g : Client → Manager → Manager
timer_g t m = put (record t { te_g = none }) m

-- sendACK for a transaction whose answer is there; without one it raises.
unfoldable pub send_ack : Client → Manager → Option Manager
send_ack t m = elim t.ack [
  | none ↦ none
  | some (address, text, c) ↦
      some (forget t (record m { net = transmit_data t.userv text address (some c) 0 m.net }))
]

abbrev pub route_response :
    Option Client → ℕ → String → (String × ℕ) × String → Manager → Option Manager
route_response none code c ack m = some (record m { net = store c silence m.net })
route_response (some t) code c ack m = incoming_response code c ack t m

-- A parsed response in handleIncoming: that of an unknown transaction is noted and dropped.
unfoldable pub response_in : ℕ → String → (String × ℕ) × String → String → Manager → Option Manager
response_in code c ack tid m = route_response (lookup tid m.tclient) code c ack m
