-- ===== src/Ua/Uas/Progressing.antt =====
-- sippy/UasStateGeneric.py, UasStateProgressing.py, UasStateTrying.py and UasStateRinging.py: what
-- the application makes of an incoming call, and the caller's CANCEL and BYE. `trying` tells the two
-- states apart where their methods differ.
use b2bua.Prelude.{
  ℕ, String, Bool, true, false, Option, none, some, List, [], ◌&&◌, ◌==◌, if◌then◌else◌,
}
use b2bua.Sip.Message.{Url, Header, InRequest}
use b2bua.Ua.Types.{
  State, Status, Event, disconnect, get_extra_headers, respond, reply, Next, stay, become,
}
use b2bua.Ua.State.{Ua}
use b2bua.Ua.Timers.{call, arm_expires, cancel_expires, cancel_no_progress, start_credit_timer}
use b2bua.Ua.Queue.{make_event, count_event, post, emit_event}
use b2bua.Ua.Requests.{is_some, own_contact, respond_with}
use b2bua.Ua.Change.{notice, notify_all, change_state}
use b2bua.Ua.Local.{BodyOps, delay_local, unless_delayed}

-- `contacts`, or no contact at all.
abbrev pub contact_list : Option (List Url) → List Url
contact_list none = []
contact_list (some us) = us

module _ {B : Type 0} where
  abbrev pub set_lsdp : Option B → Ua B → Ua B
  set_lsdp b s = record s { media = record s.media { lsdp = b } }

  abbrev pub stamp_disconnect : ℕ → Ua B → Ua B
  stamp_disconnect rtime s = record s { stamps = record s.stamps { disconnect = some rtime } }

  -- UasStateGeneric._recvEventRing, once the body is ready: the response is sent.
  unfoldable pub send_ring : ℕ → String → Option B → List Url → Event B → Ua B → Ua B
  send_ring code phrase body contacts e s =
      respond_with code phrase body contacts (get_extra_headers e) false (set_lsdp body s)

  abbrev pub ring_data : Option (ℕ × String × Option B) → ℕ × String × Option B
  ring_data none = (180, "Ringing", none)
  ring_data (some d) = d

  abbrev stamp_first_1xx : ℕ → Ua B → Ua B
  stamp_first_1xx rtime s = elim s.stamps.p1xx [
    | none ↦ record s { stamps = record s.stamps { p1xx = some rtime } }
    | some _ ↦ s
  ]

  -- `if self.ua.no_progress_timer is not None: ...` of UasStateTrying._recvEventRing.
  unfoldable pub ring_progress : Ua B → Ua B
  ring_progress s = elim s.timers.no_progress [
    | none ↦ s
    | some _ ↦
        let s1 = cancel_no_progress s in
        if is_some s1.limits.expire_time then arm_expires s1 else s1
  ]

  -- _recvEventRing of Trying, and of Ringing, once the response may be sent.
  unfoldable pub ring_sent : Bool → Event B → Option (ℕ × String × Option B) → Ua B → Next × Ua B
  unfolding ring_progress
  ring_sent trying e scode s =
      let (code, phrase, body) = ring_data scode in
      let s1 = send_ring code phrase body (own_contact s) e s in
      let s2 = stamp_first_1xx e.rtime (if trying then ring_progress s1 else s1) in
      let cbs = notice s2.cbs.ring e.rtime e.origin (some code) in
      if trying then (become State.uas_ringing cbs, s2) else (stay, notify_all cbs s2)

  -- A Ring event. Trying does not pass a 100 on.
  unfoldable pub progressing_ring :
      BodyOps B → Bool → Event B → Option (ℕ × String × Option B) → Ua B → Next × Ua B
  progressing_ring ops trying e scode s =
      let (code, phrase, body) = ring_data scode in
      if trying && (is_some scode && code == 100)
      then (stay, s)
      else unless_delayed (delay_local ops body e s) (ring_sent trying e scode s)

  -- `sendUasResponse` of a Connect or PreConnect event. Its code may be the 'ACK' of `recvACK`.
  abbrev pub respond_status :
      Status → String → Option B → List Url → List Header → Bool → Ua B → Ua B
  respond_status code phrase body contacts eh ack_wait =
      call (respond code phrase body contacts eh ack_wait)

  unfoldable pub progressing_connect :
      BodyOps B → Bool → Event B → Status → String → Option B → Ua B → Next × Ua B
  progressing_connect ops trying e code phrase body s =
      let s1 =
        respond_status code phrase body (own_contact s) (get_extra_headers e) false
          (set_lsdp body s) in
      let s2 = start_credit_timer e.rtime (cancel_expires s1) in
      let s3 = record s2 { stamps = record s2.stamps { connect = some e.rtime } } in
      unless_delayed (delay_local ops body e s) (
        become State.connected (notice s.cbs.conn e.rtime e.origin none),
        if trying then cancel_no_progress s3 else s3,
      )

  -- The response that waits for its ACK: the call is connected when that comes.
  unfoldable pub progressing_pre_connect :
      BodyOps B → Bool → Event B → Status → String → Option B → Ua B → Next × Ua B
  progressing_pre_connect ops trying e code phrase body s =
      let s1 =
        respond_status code phrase body (own_contact s) (get_extra_headers e) true
          (set_lsdp body s) in
      unless_delayed (delay_local ops body e s)
        (become State.connected none, if trying then cancel_no_progress s1 else s1)

  abbrev pub redirect_data :
      Option (ℕ × String × Option B × Option (List Url)) → ℕ × String × Option B × Option (List Url)
  redirect_data none = (500, "Failed", none, none)
  redirect_data (some d) = d

  -- `_cancelExpireTimer`, and in Trying `_cancelNoProgressTimer` after it.
  abbrev cancel_timers : Bool → Ua B → Ua B
  cancel_timers trying s =
      if trying then cancel_no_progress (cancel_expires s) else cancel_expires s

  unfoldable pub progressing_redirect :
      Bool → Event B → Option (ℕ × String × Option B × Option (List Url)) → Ua B → Next × Ua B
  progressing_redirect trying e d s =
      let (code, phrase, body, to) = redirect_data d in
      let s1 = respond_with code phrase body (contact_list to) (get_extra_headers e) false s in
      (
        become State.failed (notice s.cbs.fail e.rtime e.origin (some code)),
        stamp_disconnect e.rtime (cancel_timers trying s1),
      )

  abbrev pub fail_data : Option (ℕ × String × Option B) → ℕ × String × Option B
  fail_data none = (500, "Failed", none)
  fail_data (some d) = d

  unfoldable pub progressing_fail :
      Bool → Event B → Option (ℕ × String × Option B) → Ua B → Next × Ua B
  progressing_fail trying e d s =
      let (code, phrase, _) = fail_data d in
      let s1 = respond_with code phrase none [] (get_extra_headers e) false s in
      (
        become State.failed (notice s.cbs.fail e.rtime e.origin (some code)),
        stamp_disconnect e.rtime (cancel_timers trying s1),
      )

  unfoldable pub progressing_disconnect : Bool → Event B → Ua B → Next × Ua B
  progressing_disconnect trying e s =
      let s1 = respond_with 500 "Disconnected" none [] (get_extra_headers e) false s in
      (
        become State.disconnected (notice s.cbs.disc e.rtime e.origin (some s.last_scode)),
        stamp_disconnect e.rtime (cancel_timers trying s1),
      )

  -- cancel: the caller's CANCEL, or the transaction's own expiry (no request).
  unfoldable pub progressing_cancel : ℕ → Option Header → Ua B → Ua B
  progressing_cancel rtime reason s =
      let e = make_event (disconnect none) rtime s.origin reason s in
      let s1 = stamp_disconnect rtime (count_event s) in
      emit_event e (change_state State.disconnected (notice s1.cbs.disc rtime s1.origin none) s1)

  -- UaStateGeneric._disconnectFromRequest.
  unfoldable pub disconnect_from_request : Option Url → ℕ → Option Header → Ua B → Next × Ua B
  disconnect_from_request also rtime reason s = (
    become State.disconnected (notice s.cbs.disc rtime s.origin none),
    stamp_disconnect rtime (post (disconnect also) rtime s.origin reason s),
  )

  -- UasStateRinging._recvRequestBye.
  unfoldable pub ringing_bye : InRequest B → Ua B → Next × Ua B
  ringing_bye req s =
      let s1 = respond_with 487 "Request Terminated" none [] [] false s in
      disconnect_from_request req.also req.rtime req.reason
        (cancel_expires (call (reply 200 "OK") s1))
