-- ===== src/Ua/Dispatch.antt =====
-- Which handler of a state takes a request, a response or an event: recv_request_handlers,
-- recv_event_handlers and the recvRequest, recvResponse, recvEvent of sippy/U*State*.py
-- (sippy/UaStateGeneric.py where a state has none of its own).
use b2bua.Prelude.{ℕ, Bool, true, false, none, []}
use b2bua.Sip.Message.{Method, invite, bye, refer, info, options, InRequest, Response}
use b2bua.Ua.Types.{
  State, Event, EventKind, try_call, ring, pre_connect, connect, update, disconnect, fail, redirect,
  reply, cancel_transaction, Next, stay, raised_other,
}
use b2bua.Ua.State.{Ua}
use b2bua.Ua.Timers.{call, cancel_credit_timer}
use b2bua.Ua.Local.{BodyOps, Env}
use b2bua.Ua.Uac.Idle.{idle_try, idle_give_up}
use b2bua.Ua.Uac.Trying.{trying_response, catch_sdp, trying_give_up}
use b2bua.Ua.Uac.Ringing.{ringing_response, ringing_give_up}
use b2bua.Ua.Uac.Cancelling.{cancelling_response}
use b2bua.Ua.Uac.Updating.{updating_response, updating_give_up}
use b2bua.Ua.Uas.Idle.{idle_invite}
use b2bua.Ua.Uas.Progressing.{
  progressing_ring, progressing_connect, progressing_pre_connect, progressing_redirect,
  progressing_fail, progressing_disconnect, ringing_bye, disconnect_from_request,
}
use b2bua.Ua.Uas.Updating.{
  updating_ring, updating_connect, updating_fail, updating_redirect, updating_disconnect,
  updating_bye, updating_refer,
}
use b2bua.Ua.Connected.Requests.{connected_invite, connected_bye, connected_info, connected_ack}
use b2bua.Ua.Connected.Events.{
  connected_give_up, refer_address, refer_first, connected_update_event, connected_info_event,
  connected_connect,
}

module _ {B : Type 0} where
  -- The events of an outgoing call that has not been answered.
  unfoldable pub idle_event : BodyOps B → Env → EventKind B → Event B → Ua B → Next × Ua B
  idle_event ops env (try_call d) e s = idle_try ops env e d s
  idle_event ops env (fail _) e s = idle_give_up env.now e s
  idle_event ops env (redirect _) e s = idle_give_up env.now e s
  idle_event ops env (disconnect _) e s = idle_give_up env.now e s
  idle_event ops env _ e s = (stay, s)

  unfoldable pub trying_event : ℕ → EventKind B → Event B → Ua B → Next × Ua B
  trying_event now (fail _) e s = trying_give_up now e s
  trying_event now (redirect _) e s = trying_give_up now e s
  trying_event now (disconnect _) e s = trying_give_up now e s
  trying_event now _ e s = (stay, s)

  unfoldable pub ringing_event : ℕ → EventKind B → Event B → Ua B → Next × Ua B
  ringing_event now (fail _) e s = ringing_give_up now e s
  ringing_event now (redirect _) e s = ringing_give_up now e s
  ringing_event now (disconnect _) e s = ringing_give_up now e s
  ringing_event now _ e s = (stay, s)

  unfoldable pub uac_updating_event : EventKind B → Event B → Ua B → Next × Ua B
  uac_updating_event (fail _) e s = updating_give_up e s
  uac_updating_event (redirect _) e s = updating_give_up e s
  uac_updating_event (disconnect _) e s = updating_give_up e s
  uac_updating_event _ e s = (stay, s)

  -- UasStateTrying (`trying`) and UasStateRinging.
  unfoldable pub progressing_event : BodyOps B → Bool → EventKind B → Event B → Ua B → Next × Ua B
  progressing_event ops trying (ring d) e s = progressing_ring ops trying e d s
  progressing_event ops trying (connect c p b) e s = progressing_connect ops trying e c p b s
  progressing_event ops trying (pre_connect c p b) e s =
      progressing_pre_connect ops trying e c p b s
  progressing_event ops trying (redirect d) e s = progressing_redirect trying e d s
  progressing_event ops trying (fail d) e s = progressing_fail trying e d s
  progressing_event ops trying (disconnect _) e s = progressing_disconnect trying e s
  progressing_event ops trying _ e s = (stay, s)

  unfoldable pub uas_updating_event : BodyOps B → EventKind B → Event B → Ua B → Next × Ua B
  uas_updating_event ops (ring d) e s = updating_ring ops e d s
  uas_updating_event ops (connect c p b) e s = updating_connect ops e c p b s
  uas_updating_event ops (redirect d) e s = updating_redirect e d s
  uas_updating_event ops (fail d) e s = updating_fail e d s
  uas_updating_event ops (disconnect _) e s = updating_disconnect e s
  uas_updating_event ops _ e s = (stay, s)

  unfoldable pub connected_event : BodyOps B → EventKind B → Event B → Ua B → Next × Ua B
  connected_event ops (disconnect also) e s = connected_give_up e (refer_address also) s
  connected_event ops (fail _) e s = connected_give_up e none s
  connected_event ops (redirect d) e s = connected_give_up e (refer_first d) s
  connected_event ops (update b) e s = connected_update_event ops e b s
  connected_event ops (EventKind.info b) e s = connected_info_event e b s
  connected_event ops (connect _ _ b) e s = connected_connect ops e b s
  connected_event ops _ e s = (stay, s)

  unfoldable pub state_event : BodyOps B → Env → State → Event B → Ua B → Next × Ua B
  state_event ops env State.uac_idle e s = idle_event ops env e.kind e s
  state_event ops env State.uac_trying e s = trying_event env.now e.kind e s
  state_event ops env State.uac_ringing e s = ringing_event env.now e.kind e s
  state_event ops env State.uac_updating e s = uac_updating_event e.kind e s
  state_event ops env State.uas_trying e s = progressing_event ops true e.kind e s
  state_event ops env State.uas_ringing e s = progressing_event ops false e.kind e s
  state_event ops env State.uas_updating e s = uas_updating_event ops e.kind e s
  state_event ops env State.connected e s = connected_event ops e.kind e s
  state_event ops env _ e s = (stay, s)

  unfoldable pub state_response : ℕ → State → Response B → Ua B → Next × Ua B
  state_response now State.uac_trying resp s = catch_sdp resp (trying_response now resp s)
  state_response now State.uac_ringing resp s = catch_sdp resp (ringing_response now resp s)
  state_response now State.uac_cancelling resp s = cancelling_response resp s
  state_response now State.uac_updating resp s = updating_response resp s
  state_response now _ resp s = (stay, s)

  -- The requests of a connected call but REFER, which calls `recvEvent` again.
  unfoldable pub connected_request : BodyOps B → Method → InRequest B → Ua B → Next × Ua B
  connected_request ops invite req s = connected_invite ops req s
  connected_request ops bye req s = connected_bye req s
  connected_request ops info req s = connected_info req s
  connected_request ops options req s = (stay, call (reply 200 "OK") s)
  connected_request ops _ req s = (stay, s)

  unfoldable pub uas_updating_request : Method → InRequest B → Ua B → Next × Ua B
  uas_updating_request invite req s = (stay, call (reply 491 "Request Pending") s)
  uas_updating_request bye req s = updating_bye req s
  uas_updating_request refer req s = updating_refer req s
  uas_updating_request _ req s = (stay, s)

  -- UacStateUpdating._recvRequestInvite and _recvRequestBye.
  unfoldable pub uac_updating_request : Method → InRequest B → Ua B → Next × Ua B
  uac_updating_request invite req s = (stay, call (reply 491 "Request Pending") s)
  uac_updating_request bye req s =
      disconnect_from_request none req.rtime req.reason
        (cancel_credit_timer (call (reply 200 "OK") (call (cancel_transaction s.tr []) s)))
  uac_updating_request _ req s = (stay, s)

  -- UaStateDisconnected.recvRequest.
  unfoldable pub disconnected_request : Method → Ua B → Next × Ua B
  disconnected_request bye s = (stay, call (reply 200 "OK") s)
  disconnected_request _ s = (stay, call (reply 500 "Disconnected") s)

  unfoldable pub uas_idle_request : Env → Method → InRequest B → Ua B → Next × Ua B
  uas_idle_request env invite req s = idle_invite env req s
  uas_idle_request env _ req s = (stay, s)

  unfoldable pub uas_ringing_request : Method → InRequest B → Ua B → Next × Ua B
  uas_ringing_request bye req s = ringing_bye req s
  uas_ringing_request _ req s = (stay, s)

  unfoldable pub state_request : BodyOps B → Env → State → InRequest B → Ua B → Next × Ua B
  state_request ops env State.uas_idle req s = uas_idle_request env req.method req s
  state_request ops env State.uas_ringing req s = uas_ringing_request req.method req s
  state_request ops env State.connected req s = connected_request ops req.method req s
  state_request ops env State.uas_updating req s = uas_updating_request req.method req s
  state_request ops env State.uac_updating req s = uac_updating_request req.method req s
  state_request ops env State.disconnected req s = disconnected_request req.method s
  state_request ops env _ req s = (stay, s)

  -- recvACK: only UaStateConnected has one, and `isConnected` holds in the Updating states too.
  unfoldable pub state_ack : State → InRequest B → Ua B → Next × Ua B
  state_ack State.connected req s = connected_ack req s
  state_ack _ req s = (raised_other "object has no attribute 'recvACK'", s)
