-- ===== src/Ua/Uac/Updating.antt =====
-- sippy/UacStateUpdating.py: a re-INVITE that the UA has sent is under way.
use b2bua.Prelude.{Option, none, some, List, [], ◌∷◌, ◌&&◌, ◌||◌, ◌==◌, ltb, leb, if◌then◌else◌}
use b2bua.Sip.Message.{bye, Header, Response, get_reason}
use b2bua.Ua.Types.{
  State, num, Event, EventKind, ring, connect, fail, disconnect, get_extra_headers,
  cancel_transaction, Next, stay, become,
}
use b2bua.Ua.State.{Ua}
use b2bua.Ua.Timers.{call, cancel_credit_timer}
use b2bua.Ua.Queue.{make_event, count_event, enqueue, post}
use b2bua.Ua.Requests.{send_request}
use b2bua.Ua.Change.{notice}
use b2bua.Ua.Remote.{Taken, done, waiting, failed, broken, take_remote}
use b2bua.Ua.Uac.Answer.{refusal}

abbrev opt_reason : Option Header → List Header → List Header
opt_reason none hs = hs
opt_reason (some h) hs = h ∷ []

module _ {B : Type 0} where
  -- updateFailed: the event is queued, BYE is sent with `bye_reason` or else with the event's
  -- headers, and a Disconnect event follows.
  unfoldable pub update_failed : Event B → Option Header → Option Header → Ua B → Next × Ua B
  update_failed e bye_reason disconnect_reason s =
      let s1 = enqueue e s in
      let s2 = send_request bye (opt_reason bye_reason (get_extra_headers e)) s1 in
      let s3 = cancel_credit_timer s2 in
      let s4 = record s3 { stamps = record s3.stamps { disconnect = some e.rtime } } in
      (
        become State.disconnected (notice s.cbs.disc e.rtime e.origin none),
        post (disconnect none) e.rtime s.origin disconnect_reason s4,
      )

  -- The branches on what the hook made of the 2xx body `connect_event` came with. The events that
  -- replace it are new ones, with no origin.
  unfoldable pub updated : Response B → Event B → Taken B → Next × Ua B
  updated resp e (done s) = (become State.connected none, enqueue e s)
  updated resp e (waiting s) = (become State.connected none, s)
  updated resp e (failed x s) =
      let bad = Header.reason 502 "Malformed SDP Body received from downstream" in
      update_failed
        (make_event (fail (some (502, "Bad Gateway", none))) resp.rtime none (some bad) s)
        (get_reason x) (some (Header.reason 500 "Fatal Dialog Refresh Error")) (count_event s)
  updated resp e (broken m s) =
      let e1 = make_event (fail (some (502, "Bad Gateway", none))) resp.rtime none none s in
      update_failed (record e1 { warning = some (Header.warning m) }) none none (count_event s)

  abbrev drop_lsdp : EventKind B → Ua B → Ua B
  drop_lsdp (fail _) s = record s { media = record s.media { lsdp = none } }
  drop_lsdp _ s = s

  -- A negative final response: 408 and 481 end the dialog.
  unfoldable pub update_refused : Response B → Ua B → Next × Ua B
  unfolding refusal
  update_refused resp s =
      let e = make_event (refusal resp) resp.rtime s.origin resp.reason s in
      let s1 = drop_lsdp (refusal resp) (count_event s) in
      if resp.code == 408 || resp.code == 481
      then update_failed e none none s1
      else (become State.connected none, enqueue e s1)

  unfoldable pub updating_response : Response B → Ua B → Next × Ua B
  unfolding updated update_refused
  updating_response resp s =
      if ltb resp.code 200
      then (
        stay,
        if resp.code == 100
            then s
            else post (ring (some (resp.code, resp.phrase, resp.body))) resp.rtime s.origin none s,
      )
      else if leb 200 resp.code && ltb resp.code 300
      then (let e =
            make_event (connect (num resp.code) resp.phrase resp.body) resp.rtime s.origin none s in
          updated resp e (take_remote resp.body e (count_event s)))
      else update_refused resp s

  -- recvEvent for Fail, Redirect and Disconnect.
  unfoldable pub updating_give_up : Event B → Ua B → Next × Ua B
  updating_give_up e s =
      let s1 = call (cancel_transaction s.tr []) s in
      let s2 = cancel_credit_timer (send_request bye (get_extra_headers e) s1) in
      (
        become State.disconnected (notice s.cbs.disc e.rtime e.origin none),
        record s2 { stamps = record s2.stamps { disconnect = some e.rtime } },
      )
