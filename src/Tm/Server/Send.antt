-- ===== src/Tm/Server/Send.antt =====
-- Sending responses, and the timers of a server transaction.
use b2bua.Prelude.{
  ℕ, ◌*◌, String, Bool, true, false, Option, none, some, ◌∷◌, ◌&&◌, not, ltb, if◌then◌else◌,
}
use b2bua.Prelude.Assoc.{insert}
use b2bua.Tm.Cache.{transmit_data}
use b2bua.Tm.Server.Types.{
  Tid, tid_key, Reply, ServerState, ringing, completed, confirmed, Server, Called, on_cancel,
  on_noack, Tm, finished, none_attribute, Attempt, ok, err, ◌>>=◌, set_object, set_net, clean, drop,
  is_open,
}

-- `if scode > 100 and toHF.getTag() == None: toHF.genTag()`.
abbrev pub sent_tag : Reply → Option String
sent_tag r = elim r.to_tag [
  | some t ↦ some t
  | none ↦ if ltb 100 r.code then some r.made_tag else none
]

-- `self.transmitData(t.userv, ...)`, where `t.userv` may be None.
abbrev pub transmit_by : Option ℕ → String → String × ℕ → Option String → ℕ → Tm → Attempt Tm
transmit_by none text address cachesum lossemul m = err none_attribute
transmit_by (some userv) text address cachesum lossemul m =
    ok (set_net (transmit_data userv text address cachesum lossemul m.client.net) m)

-- A provisional response was sent.
abbrev pub after_provisional : ℕ → Reply → Server → Tm → Tm
after_provisional o r t m =
    set_object o
      (record t {
        state = ringing;
        te_f = if ltb 0 m.retr && ltb 100 r.code then some m.retr else t.te_f;
      })
      m

-- The id under which the ACK will find the transaction.
abbrev pub ack_tid : Reply → Option Tid → Option Tid
ack_tid r none = none
ack_tid r (some tid) = some (record tid { last = sent_tag r })

abbrev pub list_under : Option Tid → ℕ → Tm → Tm
list_under none o m = m
list_under (some tid) o m = record m { tserver = insert tid o m.tserver }

-- A final response was sent: an INVITE waits for its ACK under a new id, and any other transaction
-- is over.
unfoldable pub after_final : ℕ → Reply → Option ℕ → Server → Tm → Attempt Tm
after_final o r ack_cb t m =
    let t1 = record t { state = completed; te_e = none; te_f = none } in
    drop t.tid m >>= λ m1. ok (
      if t.needack
      then list_under (ack_tid r t.tid) o (
          set_object o
            (record t1 {
              ack_cb = ack_cb;
              te_d = some 32000;
              tid = ack_tid r t.tid;
              tout = 500;
              te_a = some 500;
            })
            m1)
      else set_object o (clean t1) m1)

-- sendResponse for the transaction object `o`.
unfoldable pub send_response : ℕ → Reply → Bool → Option ℕ → ℕ → Tm → Attempt Tm
unfolding after_final
send_response o r retrans ack_cb lossemul m =
    let t = m.heap o in
    let t1 = record t { text = some r.text; address = some r.address } in
    if not (is_open t.state) && not retrans
    then err finished
    else transmit_by t.userv r.text r.address (some t.checksum) lossemul m >>= λ m1.
        if ltb r.code 200 then ok (after_provisional o r t1 m1) else after_final o r ack_cb t1 m1

abbrev pub call_back : (ℕ → Called) → Option ℕ → Tm → Tm
call_back c f m = record m { called = elim f [ none ↦ m.called | some f ↦ c f ∷ m.called ] }

-- doCancel.
unfoldable pub do_cancel : ℕ → Tm → Attempt Tm
unfolding send_response
do_cancel o m = elim (m.heap o).r487 [
  | none ↦ ok (call_back on_cancel (m.heap o).cancel_cb m)
  | some r ↦
      send_response o r true none 0 m >>= λ m1. ok (call_back on_cancel (m1.heap o).cancel_cb m1)
]

-- What timerA and timerF send: the last response; `none` where there is none.
abbrev pub resend : Server → Option String → Tm → Attempt Tm
resend t cachesum m = elim t.text [
  | none ↦ err none_attribute
  | some text ↦ elim t.address [
    | none ↦ err none_attribute
    | some address ↦ transmit_by t.userv text address cachesum 0 m
  ]
]

-- timerA of a server transaction: a final response that no ACK has come for.
unfoldable pub timer_a : ℕ → Tm → Attempt Tm
timer_a o m =
    let t = m.heap o in
    resend t none m >>= λ m1.
    ok (set_object o (record t { tout = 2 * t.tout; te_a = some (2 * t.tout) }) m1)

abbrev pub is_confirmed : ServerState → Bool
is_confirmed confirmed = true
is_confirmed _ = false

-- timerD: no ACK came in time.
unfoldable pub timer_d : ℕ → Tm → Attempt Tm
timer_d o m =
    let t = m.heap o in
    drop t.tid (if is_confirmed t.state then m else call_back on_noack t.noack_cb m) >>= λ m1.
    ok (set_object o (clean (record t { te_d = none; te_a = none })) m1)

-- timerE: the INVITE has expired.
unfoldable pub timer_e : ℕ → Tm → Attempt Tm
unfolding do_cancel
timer_e o m =
    let t = record (m.heap o) { te_e = none; te_f = none } in
    if is_open t.state
    then do_cancel o
        (set_object o (record t { r487 = elim t.r487 [ none ↦ none | some _ ↦ t.r487_expired ] }) m)
    else ok (set_object o t m)

abbrev pub is_ringing : ServerState → Bool
is_ringing ringing = true
is_ringing _ = false

-- timerF: the last provisional response once more.
unfoldable pub timer_f : ℕ → Tm → Attempt Tm
timer_f o m =
    let t = record (m.heap o) { te_f = none } in
    if is_ringing t.state && ltb 0 m.retr
    then (resend t none m >>= λ m1. ok (set_object o (record t { te_f = some m.retr }) m1))
    else ok (set_object o t m)
