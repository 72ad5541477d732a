-- ===== src/Ua/Uas/Updating.antt =====
-- sippy/UasStateUpdating.py: a re-INVITE from the other side waits for its answer.
use b2bua.Prelude.{ℕ, String, false, Option, none, some, List, []}
use b2bua.Sip.Message.{bye, Url, Header, InRequest}
use b2bua.Ua.Types.{State, Status, Event, disconnect, get_extra_headers, reply, Next, stay, become}
use b2bua.Ua.State.{Ua}
use b2bua.Ua.Timers.{call, cancel_credit_timer}
use b2bua.Ua.Queue.{make_event, count_event, emit_event}
use b2bua.Ua.Requests.{own_contact, respond_with, send_request}
use b2bua.Ua.Change.{notice, change_state}
use b2bua.Ua.Local.{BodyOps, delay_local, unless_delayed}
use b2bua.Ua.Uas.Progressing.{
  set_lsdp, stamp_disconnect, send_ring, disconnect_from_request, respond_status, redirect_data,
  fail_data, contact_list,
}

module _ {B : Type 0} where
  -- UasStateGeneric._recvEventRing, with no contacts. The code that it returns is taken by
  -- `recvEvent` for a state, which `changeState` cannot index: TypeError.
  unfoldable pub updating_ring :
      BodyOps B → Event B → Option (ℕ × String × Option B) → Ua B → Next × Ua B
  updating_ring ops e none s =
      (Next.raised_other "'int' object is not subscriptable", send_ring 180 "Ringing" none [] e s)
  updating_ring ops e (some (code, phrase, body)) s =
      unless_delayed (delay_local ops body e s)
        (Next.raised_other "'int' object is not subscriptable", send_ring code phrase body [] e s)

  unfoldable pub updating_connect :
      BodyOps B → Event B → Status → String → Option B → Ua B → Next × Ua B
  updating_connect ops e code phrase body s =
      let s1 =
        respond_status code phrase body (own_contact s) (get_extra_headers e) false
          (set_lsdp body s) in
      unless_delayed (delay_local ops body e s) (become State.connected none, s1)

  unfoldable pub updating_fail : Event B → Option (ℕ × String × Option B) → Ua B → Next × Ua B
  updating_fail e d s =
      let (code, phrase, _) = fail_data d in
      let s1 = record s { media = record s.media { rsdp = none } } in
      (become State.connected none, respond_with code phrase none [] (get_extra_headers e) false s1)

  -- UasStateGeneric._recvEventRedirect. The data that it returns is taken for a state: its first
  -- item is the status code, and calling that raises TypeError.
  unfoldable pub updating_redirect :
      Event B → Option (ℕ × String × Option B × Option (List Url)) → Ua B → Next × Ua B
  updating_redirect e d s =
      let (code, phrase, body, to) = redirect_data d in
      (
        Next.raised_other "'int' object is not callable",
        respond_with code phrase body (contact_list to) (get_extra_headers e) false s,
      )

  unfoldable pub updating_disconnect : Event B → Ua B → Next × Ua B
  updating_disconnect e s =
      let eh = get_extra_headers e in
      let s1 = send_request bye eh (respond_with 487 "Request Terminated" none [] eh false s) in
      (
        become State.disconnected (notice s.cbs.disc e.rtime e.origin none),
        stamp_disconnect e.rtime (cancel_credit_timer s1),
      )

  unfoldable pub updating_bye : InRequest B → Ua B → Next × Ua B
  updating_bye req s =
      let s1 = call (reply 200 "OK") (respond_with 487 "Request Terminated" none [] [] false s) in
      disconnect_from_request none req.rtime req.reason (cancel_credit_timer s1)

  unfoldable pub updating_refer : InRequest B → Ua B → Next × Ua B
  updating_refer req s = elim req.refer_to [
    | none ↦ (stay, call (reply 400 "Bad Request") s)
    | some to ↦
        let s1 =
          call (reply 202 "Accepted") (respond_with 487 "Request Terminated" none [] [] false s) in
        disconnect_from_request (some to) req.rtime none (cancel_credit_timer s1)
  ]

  -- cancel: the other side gave up its re-INVITE, which ends the call.
  unfoldable pub updating_cancel : ℕ → Option Header → Ua B → Ua B
  updating_cancel rtime reason s =
      let s1 = stamp_disconnect rtime (cancel_credit_timer (send_request bye [] s)) in
      let s2 = change_state State.disconnected (notice s1.cbs.disc rtime s1.origin none) s1 in
      emit_event (make_event (disconnect none) rtime s2.origin reason s2) (count_event s2)
