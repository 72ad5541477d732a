-- ===== src/Tm/Server/Receive.antt =====
-- incomingRequest.
use b2bua.Prelude.{
  ℕ, suc, ◌*◌, String, Bool, true, false, Option, none, some, List, [], ◌∷◌, ◌&&◌, ltb, str_eq,
  if◌then◌else◌,
}
use b2bua.Prelude.Assoc.{lookup, insert, remove, string_key}
use b2bua.Sip.Message.{Method, invite, ack, bye, cancel, refer, info, options, other}
use b2bua.Tm.Cache.{silence, store, transmit_data}
use b2bua.Tm.Consumers.{Consumer, listed}
use b2bua.Tm.Server.Types.{
  Tid, tid_key, Reply, ServerState, trying, completed, confirmed, Server, on_ack, Tm, Arriving,
  none_attribute, Attempt, ok, err, ◌>>=◌, set_object, set_net, clean, drop, is_open,
}
use b2bua.Tm.Server.Send.{call_back, resend, send_response, do_cancel}

-- What a request's owner returns from recvRequest: None, or a response if any with the callbacks
-- for a CANCEL and for a missing ACK.
pub data Handled : Type 0 where
  nothing : Handled
  answered : Option (Reply × ℕ) → Option ℕ → Option ℕ → Handled

-- Who the request is handed to: a consumer of its Call-ID, or `req_cb`.
pub data Owner : Type 0 where
  consumer : ℕ → Owner
  fallback : Owner

-- The consumers and the application: whether a consumer's `isYours` takes the request, whether
-- `req_cb` is set, and what the owner does with it, which may be anything.
pub record Owners : Type 0 where
  pub is_yours : ℕ → Arriving → Bool
  pub has_req_cb : Bool
  pub handle : Owner → ℕ → Arriving → Tm → Attempt (Handled × Tm)

unfoldable pub any_known : List String → Tm → Bool
any_known [] m = false
any_known (id ∷ ids) m = elim (lookup id m.client.tclient) [
  | some _ ↦ true
  | none ↦ any_known ids m
]

abbrev pub is_ack : Method → Bool
is_ack ack = true
is_ack _ = false

abbrev pub is_cancel : Method → Bool
is_cancel cancel = true
is_cancel _ = false

abbrev pub is_invite : Method → Bool
is_invite invite = true
is_invite _ = false

unfoldable pub same_method : Method → Method → Bool
same_method invite invite = true
same_method ack ack = true
same_method bye bye = true
same_method cancel cancel = true
same_method refer refer = true
same_method info info = true
same_method options options = true
same_method (other a) (other b) = str_eq a b
same_method _ _ = false

abbrev pub is_completed : ServerState → Bool
is_completed completed = true
is_completed _ = false

-- `self.transmitMsg(server, resp, ..., checksum)`.
abbrev pub transmit_reply : ℕ → Reply → String → Tm → Tm
transmit_reply userv r c m =
    set_net (transmit_data userv r.text r.address (some c) 0 m.client.net) m

-- `self.l1rcache[checksum] = SipTMRetransmitO()`.
abbrev pub note : String → Tm → Tm
note c m = set_net (store c silence m.client.net) m

-- The ACK of a final response: the transaction is over.
unfoldable pub take_ack : ℕ → Arriving → Tm → Attempt Tm
take_ack o req m =
    let t = m.heap o in
    drop t.tid m >>= λ m1. ok (
      note req.checksum
        (set_object o (clean (record t { state = confirmed })) (call_back on_ack t.ack_cb m1)))

unfoldable pub take_cancel : ℕ → Arriving → Tm → Attempt Tm
take_cancel o req m =
    let t = m.heap o in
    let answer = λ (userv : ℕ). transmit_reply userv req.ok200 req.checksum m in
    elim t.userv [
      | none ↦ err none_attribute
      | some userv ↦ if is_open t.state then do_cancel o (answer userv) else ok (answer userv)
    ]

-- A request of a transaction that is there.
unfoldable pub existing_request : ℕ → Arriving → Tm → Attempt Tm
unfolding take_ack take_cancel same_method
existing_request o req m =
    let t = m.heap o in
    if same_method req.method t.method
    then elim t.text [ none ↦ ok m | some _ ↦ resend t (some req.checksum) m ]
    else if is_cancel req.method
    then take_cancel o req m
    else if is_ack req.method && is_completed t.state
    then take_ack o req m
    else ok m

abbrev pub expire_time : Option ℕ → ℕ
expire_time none = 300
expire_time (some n) = if ltb 0 n then n else 300

-- The new transaction object.
abbrev pub new_server : Arriving → Server
new_server req = record {
  tid = some req.branch_tid;
  method = req.method;
  state = trying;
  text = none;
  address = none;
  userv = some req.own_server;
  checksum = req.checksum;
  needack = is_invite req.method;
  r487 = if is_invite req.method then some req.terminated487 else none;
  r487_expired = if is_invite req.method then some req.expired487 else none;
  cancel_cb = none;
  noack_cb = none;
  ack_cb = none;
  tout = 0;
  te_a = none;
  te_d = none;
  te_e = if is_invite req.method then some (expire_time req.expires * 1000) else none;
  te_f = none;
}

abbrev pub open_server : Arriving → Tm → Tm
open_server req m =
    let o = m.next_object in
    let m1 = set_object o (new_server req) (record m { next_object = suc o }) in
    record m1 { tserver = insert req.branch_tid o m1.tserver }

-- The first consumer whose `isYours` takes the request.
unfoldable pub owner_among : Owners → Arriving → List Consumer → Option Owner
owner_among ow req [] = if ow.has_req_cb then some fallback else none
owner_among ow req (c ∷ cs) =
    let rest = owner_among ow req cs in
    if ow.is_yours c.cobj req then some (consumer c.cobj) else rest

abbrev pub has_timer : Server → Bool
has_timer t = elim t.te_a [
  | some _ ↦ true
  | none ↦ elim t.te_d [
    | some _ ↦ true
    | none ↦ elim t.te_e [ some _ ↦ true | none ↦ elim t.te_f [ some _ ↦ true | none ↦ false ] ]
  ]
]

-- `if t.tid in self.tserver: del self.tserver[t.tid]`.
abbrev pub drop_if_listed : Option Tid → Tm → Tm
drop_if_listed none m = m
drop_if_listed (some tid) m = record m { tserver = remove tid m.tserver }

-- What is done with the owner's answer.
unfoldable pub conclude : ℕ → Handled → Tm → Attempt Tm
conclude o nothing m =
    let t = m.heap o in
    if has_timer t then ok m else ok (set_object o (clean t) (drop_if_listed t.tid m))
conclude o (answered r cancel_cb noack_cb) m =
    let m1 = set_object o (record (m.heap o) { cancel_cb = cancel_cb; noack_cb = noack_cb }) m in
    elim r [ none ↦ ok m1 | some (reply, lossemul) ↦ send_response o reply false none lossemul m1 ]

unfoldable pub new_request : Owners → Arriving → Tm → Attempt Tm
unfolding owner_among conclude
new_request ow req m =
    let o = m.next_object in
    let m1 = open_server req m in
    elim (owner_among ow req (listed (lookup req.branch_tid.call_id m.consumers))) [
      | none ↦ ok (note req.checksum m1)
      | some owner ↦ ow.handle owner o req m1 >>= λ r. conclude o r.0 r.1
    ]

abbrev pub request_tid : Arriving → Tid
request_tid req = if is_ack req.method then req.tag_tid else req.branch_tid

-- The request by the transaction that it finds, if any.
unfoldable pub match_request : Owners → Option ℕ → Arriving → Tm → Attempt Tm
unfolding existing_request new_request
match_request ow (some o) req m = existing_request o req m
match_request ow none req m =
    if is_ack req.method
    then ok (note req.checksum m)
    else if is_cancel req.method
    then ok (transmit_reply req.server req.gone481 req.checksum m)
    else new_request ow req m

-- incomingRequest.
unfoldable pub incoming_request : Owners → Arriving → Tm → Attempt Tm
unfolding any_known match_request
incoming_request ow req m =
    if any_known req.client_ids m
    then ok (transmit_reply req.server req.loop482 req.checksum m)
    else match_request ow (lookup (request_tid req) m.tserver) req m
