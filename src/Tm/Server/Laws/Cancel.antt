-- ===== src/Tm/Server/Laws/Cancel.antt =====
-- CANCELs of an INVITE, before and after its final response.
use b2bua.Prelude.{
  ℕ, ◌≤◌, ◌≡◌, refl, ◌∙◌, true, false, Option, none, some, List, ◌∷◌, ltb, arith, if_elim,
  if◌then◌else◌,
}
use b2bua.Prelude.Assoc.{lookup, remove, lookup-remove, lookup-insert}
use b2bua.Sip.Message.{invite, cancel}
use b2bua.Tm.Cache.{sending, store, transmit_data, screen, again}
use b2bua.Tm.Cache.Kept.{Change, change_all, purges, Spares, transmit_data-screen}
use b2bua.Tm.Server.Types.{
  Tid, tid_key, same_tid, same_tid_iff, Reply, completed, on_cancel, Tm, Arriving, ok,
}
use b2bua.Tm.Server.Send.{sent_tag, send_response, call_back, do_cancel}
use b2bua.Tm.Server.Receive.{
  Owners, any_known, same_method, transmit_reply, take_cancel, existing_request, match_request,
  incoming_request,
}
use b2bua.Tm.Server.Laws.Final.{
  IsWaiting, after_invite, after_other, send_response-final, any_known_same,
}

-- The INVITE's transaction once it was cancelled.
abbrev pub cancelled : Tid → ℕ → ℕ → Reply → Arriving → Tm → Tm
cancelled k u o r req m =
    call_back on_cancel (m.heap o).cancel_cb
      (after_invite k u o r none 0 (transmit_reply u req.ok200 req.checksum m))

take_cancel-cancelled :
    (k : Tid) (u o : ℕ) (r : Reply) (req : Arriving) (m : Tm)
    → IsWaiting k u o m
    → (m.heap o).r487 ≡ some r
    → ltb r.code 200 ≡ false
    → (m.heap o).needack ≡ true
    → take_cancel o req m ≡ ok (cancelled k u o r req m)
unfolding take_cancel do_cancel
take_cancel-cancelled k u o r req m h has final needs = ground (
  arith,
  h.0.1,
  h.1.1,
  has,
  needs,
  send_response-final k u o r true none 0 (transmit_reply u req.ok200 req.checksum m) h final,
)

incoming_request-found :
    (ow : Owners) (k : Tid) (o : ℕ) (req : Arriving) (m : Tm)
    → lookup k m.tserver ≡ some o
    → req.method ≡ cancel
    → req.branch_tid ≡ k
    → (m.heap o).method ≡ invite
    → any_known req.client_ids m ≡ false
    → incoming_request ow req m ≡ take_cancel o req m
unfolding incoming_request match_request existing_request same_method
incoming_request-found ow k o req m listed is_it own inv unknown =
    ground (arith, listed, is_it, own, inv, unknown)

-- A CANCEL of no known transaction.
incoming_request-lost :
    (ow : Owners) (req : Arriving) (m : Tm)
    → lookup req.branch_tid m.tserver ≡ none
    → req.method ≡ cancel
    → any_known req.client_ids m ≡ false
    → incoming_request ow req m ≡ ok (transmit_reply req.server req.gone481 req.checksum m)
unfolding incoming_request match_request
incoming_request-lost ow req m none_there is_it unknown = ground (arith, none_there, is_it, unknown)

-- A CANCEL of an INVITE that waits for its final response, not of a client transaction, is answered
-- with 200 and then the INVITE with 487, the application is told once, if it asked for it, and the
-- INVITE waits for its ACK; another CANCEL for it, that no entry of the cache answers, gets a 481
-- then and changes nothing else, where the branch is not the To tag of the 487.
pub incoming_request-cancelled :
    (ow : Owners) (k : Tid) (u o : ℕ) (r : Reply) (req later : Arriving) (m : Tm)
    → IsWaiting k u o m
    → (m.heap o).r487 ≡ some r
    → ltb r.code 200 ≡ false
    → (m.heap o).needack ≡ true
    → (m.heap o).method ≡ invite
    → req.method ≡ cancel
    → req.branch_tid ≡ k
    → any_known req.client_ids m ≡ false
    → later.method ≡ cancel
    → later.branch_tid ≡ k
    → any_known later.client_ids m ≡ false
    → same_tid (record k { last = sent_tag r }) k ≡ false
    → (n : Tm) × (incoming_request ow req m ≡ ok n)
      × (n.client.net.log
          ≡ sending u r.text r.address
            ∷ sending u req.ok200.text req.ok200.address
            ∷ m.client.net.log)
      × (n.called ≡ (call_back on_cancel (m.heap o).cancel_cb m).called)
      × ((n.heap o).state ≡ completed)
      × (lookup (record k { last = sent_tag r }) n.tserver ≡ some o)
      × (incoming_request ow later n
          ≡ ok (transmit_reply later.server later.gone481 later.checksum n))
unfolding transmit_data store
incoming_request-cancelled ow k u o r req later m h has final needs inv is_it own unknown is_later
      same unknown1 other =
    let k1 = record k { last = sent_tag r } in
    let n = cancelled k u o r req m in
    (
      n,
      incoming_request-found ow k o req m h.1.0 is_it own inv unknown
          ∙ take_cancel-cancelled k u o r req m h has final needs,
      refl,
      refl,
      ground arith,
      ground (arith, lookup-insert k1 k1 o (remove k m.tserver), same_tid_iff k1 k1),
      incoming_request-lost ow later n
          (ground (
            arith,
            same,
            other,
            lookup-insert k1 k o (remove k m.tserver),
            lookup-remove k k m.tserver,
            same_tid_iff k k,
          ))
          is_later (any_known_same later.client_ids m n refl ∙ unknown1),
    )

-- The response to a request is sent again, to the same address by the same server, when the
-- request's datagram comes again: after any other traffic, through one purge of the cache, and
-- without the datagram being parsed. So it is for every final response to a waiting transaction.
pub send_response-screen :
    (k : Tid) (u o : ℕ) (r : Reply) (cb : Option ℕ) (m : Tm) (size : ℕ) (cs : List Change)
    → IsWaiting k u o m
    → ltb r.code 200 ≡ false
    → 32 ≤ size
    → purges cs ≤ 1
    → Spares (m.heap o).checksum cs
    → (n : Tm) × (send_response o r false cb 0 m ≡ ok n)
      × (let s = change_all cs n.client.net in
          screen size (m.heap o).checksum s
          ≡ (again, record s { log = sending u r.text r.address ∷ s.log }))
send_response-screen k u o r cb m size cs h final big once other =
    let same =
      transmit_data-screen u r.text r.address (m.heap o).checksum size cs m.client.net big once
        other in
    (
      if (m.heap o).needack then after_invite k u o r cb 0 m else after_other k u o r 0 m,
      send_response-final k u o r false cb 0 m h final,
      if_elim
          (λ (n : Tm).
            let s = change_all cs n.client.net in
            screen size (m.heap o).checksum s
            ≡ (again, record s { log = sending u r.text r.address ∷ s.log }))
          (m.heap o).needack (λ _. same) (λ _. same),
    )
