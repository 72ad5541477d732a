-- ===== src/Tm/Server/Laws/Final.antt =====
-- Final responses: what stands in the way of a second one, and how the INVITE's ACK and the timers
-- end the transaction.
use b2bua.Prelude.{
  ℕ, ◌≡◌, refl, ◌∙◌, String, Bool, true, false, Option, none, some, List, [], ◌∷◌, ltb, arith,
  if◌then◌else◌,
}
use b2bua.Prelude.Assoc.{lookup, insert, remove, lookup-remove, lookup-insert}
use b2bua.Sip.Message.{invite, ack}
use b2bua.Tm.Cache.{transmit_data}
use b2bua.Tm.Server.Types.{
  Tid, tid_key, same_tid_iff, Reply, completed, confirmed, on_ack, Tm, Arriving, finished, ok, err,
  set_object, set_net, clean, is_open,
}
use b2bua.Tm.Server.Send.{sent_tag, after_final, list_under, send_response, call_back}
use b2bua.Tm.Server.Receive.{
  Owners, any_known, same_method, note, take_ack, existing_request, has_timer, match_request,
  incoming_request,
}

-- The transaction `o` stands under `k`, answers through the server `u` and has no final response.
abbrev pub IsWaiting : Tid → ℕ → ℕ → Tm → Type 0
IsWaiting k u o m =
    (((m.heap o).tid ≡ some k) × ((m.heap o).userv ≡ some u))
    × ((lookup k m.tserver ≡ some o) × (is_open (m.heap o).state ≡ true))

-- The manager after the final response `r` to an INVITE, and to anything else.
abbrev pub after_invite : Tid → ℕ → ℕ → Reply → Option ℕ → ℕ → Tm → Tm
after_invite k u o r cb l m =
    let k1 = record k { last = sent_tag r } in
    list_under (some k1) o (
      set_object o
        (record (m.heap o) {
          text = some r.text;
          address = some r.address;
          state = completed;
          te_e = none;
          te_f = none;
          ack_cb = cb;
          te_d = some 32000;
          tid = some k1;
          tout = 500;
          te_a = some 500;
        })
        (record (set_net
          (transmit_data u r.text r.address (some (m.heap o).checksum) l m.client.net) m) {
            tserver = remove k m.tserver;
          }))

abbrev pub after_other : Tid → ℕ → ℕ → Reply → ℕ → Tm → Tm
after_other k u o r l m =
    set_object o
      (clean (record (m.heap o) {
        text = some r.text;
        address = some r.address;
        state = completed;
        te_e = none;
        te_f = none;
      }))
      (record (set_net (transmit_data u r.text r.address (some (m.heap o).checksum) l m.client.net)
        m) { tserver = remove k m.tserver })

pub send_response-final :
    (k : Tid) (u o : ℕ) (r : Reply) (retrans : Bool) (cb : Option ℕ) (l : ℕ) (m : Tm)
    → IsWaiting k u o m
    → ltb r.code 200 ≡ false
    → send_response o r retrans cb l m
      ≡ ok (if (m.heap o).needack then after_invite k u o r cb l m else after_other k u o r l m)
unfolding send_response after_final
send_response-final k u o r retrans cb l m h final =
    ground (arith, h.0.0, h.0.1, h.1.0, h.1.1, final)

-- A transaction that waits for its final response gets it: the response is sent, and any other
-- response for it after that raises an exception, unless it is a retransmission.
pub send_response-once :
    (k : Tid) (u o : ℕ) (r : Reply) (cb : Option ℕ) (l : ℕ) (m : Tm) (r2 : Reply) (cb2 : Option ℕ)
    (l2 : ℕ)
    → IsWaiting k u o m
    → ltb r.code 200 ≡ false
    → (n : Tm) × (send_response o r false cb l m ≡ ok n)
      × (n.client.net ≡ transmit_data u r.text r.address (some (m.heap o).checksum) l m.client.net)
      × (send_response o r2 false cb2 l2 n ≡ err finished)
unfolding send_response
send_response-once k u o r cb l m r2 cb2 l2 h final = (
  if (m.heap o).needack then after_invite k u o r cb l m else after_other k u o r l m,
  send_response-final k u o r false cb l m h final,
  ground arith,
  ground arith,
)

-- The INVITE's transaction once the ACK is there.
abbrev pub after_ack : Tid → ℕ → ℕ → Reply → ℕ → ℕ → Arriving → Tm → Tm
after_ack k u o r cb l req m =
    let n = after_invite k u o r (some cb) l m in
    note req.checksum (
      set_object o (clean (record (n.heap o) { state = confirmed })) (
        call_back on_ack (some cb)
          (record n { tserver = remove (record k { last = sent_tag r }) n.tserver })))

take_ack-after_invite :
    (k : Tid) (u o : ℕ) (r : Reply) (cb : ℕ) (l : ℕ) (req : Arriving) (m : Tm)
    → take_ack o req (after_invite k u o r (some cb) l m) ≡ ok (after_ack k u o r cb l req m)
unfolding take_ack
take_ack-after_invite k u o r cb l req m =
    let k1 = record k { last = sent_tag r } in
    ground (arith, lookup-insert k1 k1 o (remove k m.tserver), same_tid_iff k1 k1)

incoming_request-after_invite :
    (ow : Owners) (k : Tid) (u o : ℕ) (r : Reply) (cb : ℕ) (l : ℕ) (req : Arriving) (m : Tm)
    → (m.heap o).method ≡ invite
    → req.method ≡ ack
    → req.tag_tid ≡ record k { last = sent_tag r }
    → any_known req.client_ids (after_invite k u o r (some cb) l m) ≡ false
    → incoming_request ow req (after_invite k u o r (some cb) l m)
      ≡ ok (after_ack k u o r cb l req m)
unfolding incoming_request match_request existing_request same_method
incoming_request-after_invite ow k u o r cb l req m inv isack tag unknown =
    let k1 = record k { last = sent_tag r } in
    ground (
      arith,
      inv,
      isack,
      tag,
      unknown,
      lookup-insert k1 k1 o (remove k m.tserver),
      same_tid_iff k1 k1,
      take_ack-after_invite k u o r cb l req m,
    )

pub any_known_same :
    (ids : List String) (m n : Tm)
    → n.client.tclient ≡ m.client.tclient
    → any_known ids n ≡ any_known ids m
unfolding any_known
any_known_same [] m n e = refl
any_known_same (id ∷ ids) m n e = ground (arith, e, any_known_same ids m n e)

-- The final response to an INVITE is sent, and then an ACK with the tag of the response, which is
-- not of a client transaction, ends the transaction: it stands under no id, no timer of it is left,
-- and the callback that came with the response is called.
pub incoming_request-acked :
    (ow : Owners) (k : Tid) (u o : ℕ) (r : Reply) (cb : ℕ) (l : ℕ) (req : Arriving) (m : Tm)
    → IsWaiting k u o m
    → ltb r.code 200 ≡ false
    → (m.heap o).needack ≡ true
    → (m.heap o).method ≡ invite
    → req.method ≡ ack
    → req.tag_tid ≡ record k { last = sent_tag r }
    → any_known req.client_ids m ≡ false
    → (n n1 : Tm) × (send_response o r false (some cb) l m ≡ ok n)
      × (incoming_request ow req n ≡ ok n1)
      × (lookup k n1.tserver ≡ none)
      × (lookup req.tag_tid n1.tserver ≡ none)
      × (has_timer (n1.heap o) ≡ false)
      × (n1.called ≡ on_ack cb ∷ m.called)
incoming_request-acked ow k u o r cb l req m h final needs inv isack tag unknown =
    let k1 = record k { last = sent_tag r } in
    (
      after_invite k u o r (some cb) l m,
      after_ack k u o r cb l req m,
      send_response-final k u o r false (some cb) l m h final ∙ ground (arith, needs),
      incoming_request-after_invite ow k u o r cb l req m inv isack tag
          (any_known_same req.client_ids m (after_invite k u o r (some cb) l m) refl ∙ unknown),
      ground (
        arith,
        lookup-remove k1 k (insert k1 o (remove k m.tserver)),
        lookup-insert k1 k o (remove k m.tserver),
        lookup-remove k k m.tserver,
        same_tid_iff k k,
      ),
      ground
          (arith, tag, lookup-remove k1 k1 (insert k1 o (remove k m.tserver)), same_tid_iff k1 k1),
      ground arith,
      refl,
    )
