-- ===== src/Ua/Agent.antt =====
-- sippy/UA.py: what reaches a UA (requests, responses, ACKs, events, timers), and what it tells its
-- owner. A step hands back what its handler returned beside the new state, so that an exception
-- shows.
use b2bua.Prelude.{ℕ, String, Bool, true, false, Option, none, some, ◌&&◌, if◌then◌else◌}
use b2bua.Prelude.Assoc.{nat_key}
use b2bua.Sip.Message.{Method, refer, Url, InRequest}
use b2bua.Ua.Types.{
  State, Event, EventKind, try_call, fail, disconnect, reply, Next, stay, raised, raised_other,
  become,
}
use b2bua.Ua.State.{Ua, is_dead_state, is_connected_state}
use b2bua.Ua.Timers.{call}
use b2bua.Ua.Queue.{make_event, count_event, post, emit_pending}
use b2bua.Ua.Change.{change_state}
use b2bua.Ua.Local.{BodyOps, Env}
use b2bua.Ua.Dispatch.{state_event, state_request}

abbrev pub is_refer : Method → Bool
is_refer refer = true
is_refer _ = false

abbrev pub is_connected_exactly : State → Bool
is_connected_exactly State.connected = true
is_connected_exactly _ = false

module _ {B : Type 0} where
  -- `if newstate != None: changeState(newstate)`, then emitPendingEvents.
  unfoldable pub finish : Next × Ua B → Next × Ua B
  finish (raised x, s) = (raised x, s)
  finish (raised_other m, s) = (raised_other m, s)
  finish (stay, s) = (stay, emit_pending s)
  finish (become n c, s) = (become n c, emit_pending (change_state n c s))

  abbrev pub is_dead : Ua B → Bool
  is_dead s = elim s.state [ none ↦ false | some st ↦ is_dead_state st ]

  abbrev pub is_connected : Ua B → Bool
  is_connected s = elim s.state [ none ↦ false | some st ↦ is_connected_state st ]

  -- Whether an event may start an outgoing call.
  abbrev pub opens_call : EventKind B → Bool
  opens_call (try_call _) = true
  opens_call (fail _) = true
  opens_call (disconnect _) = true
  opens_call _ = false

  unfoldable pub event_in : BodyOps B → Env → Event B → Option State → Ua B → Next × Ua B
  event_in ops env e (some st) s = finish (state_event ops env st e s)
  event_in ops env e none s =
      if opens_call e.kind
      then finish (state_event ops env State.uac_idle e (change_state State.uac_idle none s))
      else (stay, s)

  unfoldable pub recv_event : BodyOps B → Env → Event B → Ua B → Next × Ua B
  unfolding event_in
  recv_event ops env e s = event_in ops env e s.state s

  -- disconnect: the event is queued for the application, and another one is taken by the state.
  unfoldable pub disconnect_ua : BodyOps B → Env → ℕ → Option String → Ua B → Next × Ua B
  disconnect_ua ops env rtime origin s =
      let s1 = post (disconnect none) rtime origin none s in
      recv_event ops env (make_event (disconnect none) rtime origin none s1) (count_event s1)

  -- expires, no_progress_expires, no_reply_expires, credit_expires.
  unfoldable pub expire : BodyOps B → Env → Ua B → Next × Ua B
  expire ops env s =
      disconnect_ua ops env env.now none (record s { timers = record s.timers { expires = none } })

  unfoldable pub no_progress_expire : BodyOps B → Env → Ua B → Next × Ua B
  no_progress_expire ops env s =
      disconnect_ua ops env env.now none
        (record s { timers = record s.timers { no_progress = none } })

  unfoldable pub no_reply_expire : BodyOps B → Env → Ua B → Next × Ua B
  no_reply_expire ops env s =
      disconnect_ua ops env env.now none (record s { timers = record s.timers { no_reply = none } })

  unfoldable pub credit_expire : BodyOps B → Env → ℕ → Ua B → Next × Ua B
  credit_expire ops env rtime s =
      disconnect_ua ops env rtime none (record s { timers = record s.timers { credit = none } })

  -- `return None`, unless the event's handler raised.
  unfoldable pub refer_result : Next × Ua B → Next × Ua B
  refer_result (become n c, t) = (stay, t)
  refer_result (stay, t) = (stay, t)
  refer_result (raised x, t) = (raised x, t)
  refer_result (raised_other m, t) = (raised_other m, t)

  -- UaStateConnected._recvRequestRefer, for what the Refer-To header holds.
  unfoldable pub refer_to_in : BodyOps B → Env → InRequest B → Option Url → Ua B → Next × Ua B
  refer_to_in ops env req none s = (stay, call (reply 400 "Bad Request") s)
  refer_to_in ops env req (some to) s =
      let s1 =
        post (disconnect (some to)) req.rtime s.origin none (call (reply 202 "Accepted") s) in
      refer_result (
        recv_event ops env (make_event (disconnect none) req.rtime s.origin none s1)
          (count_event s1))

  unfoldable pub connected_refer : BodyOps B → Env → InRequest B → Ua B → Next × Ua B
  unfolding refer_to_in refer_result
  connected_refer ops env req s = refer_to_in ops env req req.refer_to s

  -- `self.state.recvRequest(req)`.
  unfoldable pub take_request : BodyOps B → Env → State → InRequest B → Ua B → Next × Ua B
  take_request ops env st req s =
      if is_connected_exactly st && is_refer req.method
      then connected_refer ops env req s
      else state_request ops env st req s
