-- ===== src/Ua/Connected/Requests.antt =====
-- sippy/UaStateConnected.py: requests and the ACK received while the call is up.
use b2bua.Prelude.{Bool, false, Option, none, some, [], str_eq, if◌then◌else◌}
use b2bua.Sip.Message.{InRequest}
use b2bua.Ua.Types.{
  State, ack_code, EventKind, connect, update, reply, provisional, Next, stay, become, raised_other,
}
use b2bua.Ua.State.{Ua}
use b2bua.Ua.Timers.{call, cancel_expires, cancel_credit_timer, start_credit_timer}
use b2bua.Ua.Queue.{make_event, count_event, post}
use b2bua.Ua.Requests.{own_contact, respond_with}
use b2bua.Ua.Change.{notice, notify_all}
use b2bua.Ua.Remote.{take_remote}
use b2bua.Ua.Local.{BodyOps}
use b2bua.Ua.Uac.Answer.{finish_remote}
use b2bua.Ua.Uas.Progressing.{disconnect_from_request}

module _ {B : Type 0} where
  -- _recvRequestInvite, once the body is known to be new: the application is told.
  unfoldable pub connected_update : InRequest B → Option B → Ua B → Next × Ua B
  connected_update req body s =
      let e = record (make_event (update body) req.rtime s.origin req.reason s) {
        max_forwards = req.max_forwards;
      } in
      finish_remote (take_remote body e (count_event s)) e (λ t. t) (become State.uas_updating none)

  abbrev same_text : BodyOps B → Option B → B → Bool
  same_text ops none b = str_eq "None" (ops.text b)
  same_text ops (some a) b = str_eq (ops.text a) (ops.text b)

  -- A re-INVITE without a body holds the call (`rSDP` is taken to be there: without it the code
  -- raises AttributeError); one with the body that is known is answered at once.
  unfoldable pub connected_invite : BodyOps B → InRequest B → Ua B → Next × Ua B
  unfolding connected_update
  connected_invite ops req s =
      let s1 = call provisional (record s { answering = some req.cseq }) in
      elim req.body [
        | none ↦ elim s1.media.rsdp [
          | none ↦ (raised_other "'NoneType' object has no attribute 'getCopy'", s1)
          | some b ↦ connected_update req (some (ops.hold b)) s1
        ]
        | some b ↦
            if same_text ops s1.media.rsdp b
            then (stay, respond_with 200 "OK" s1.media.lsdp (own_contact s1) [] false s1)
            else connected_update req (some b) s1
      ]

  unfoldable pub connected_bye : InRequest B → Ua B → Next × Ua B
  connected_bye req s =
      disconnect_from_request req.also req.rtime req.reason
        (cancel_credit_timer (call (reply 200 "OK") s))

  unfoldable pub connected_info : InRequest B → Ua B → Next × Ua B
  connected_info req s =
      (stay, post (EventKind.info req.body) req.rtime s.origin req.reason (call (reply 200 "OK") s))

  -- recvACK: the other side has taken the answer that waited for its ACK.
  unfoldable pub connected_ack : InRequest B → Ua B → Next × Ua B
  connected_ack req s =
      let e = make_event (connect ack_code "ACK" req.body) req.rtime s.origin none s in
      let s1 = cancel_credit_timer (cancel_expires (count_event s)) in
      let s2 = start_credit_timer req.rtime s1 in
      let s3 = record s2 { stamps = record s2.stamps { connect = some req.rtime } } in
      let s4 = notify_all (notice s3.cbs.conn req.rtime s3.origin none) s3 in
      finish_remote (take_remote req.body e s4) e (λ t. t) stay
