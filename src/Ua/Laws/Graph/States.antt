-- ===== src/Ua/Laws/Graph/States.antt =====
-- Events and responses: the states that may follow a state.
use b2bua.Prelude.{ℕ, refl, Bool, true, false, none}
use b2bua.Sip.Message.{Response}
use b2bua.Ua.Types.{
  State, Event, EventKind, try_call, fail, ring, pre_connect, connect, update, redirect, disconnect,
}
use b2bua.Ua.State.{Ua}
use b2bua.Ua.Local.{BodyOps, Env}
use b2bua.Ua.Dispatch.{
  idle_event, trying_event, ringing_event, uac_updating_event, progressing_event,
  uas_updating_event, connected_event, state_event, state_response,
}
use b2bua.Ua.Laws.Graph.{Follows}
use b2bua.Ua.Connected.Events.{refer_address, refer_first}
use b2bua.Ua.Laws.Graph.Uac.{
  idle_try-Follows, idle_give_up-Follows, trying_response-Follows, ringing_response-Follows,
  catch_sdp-Follows, trying_give_up-Follows, ringing_give_up-Follows, cancelling_response-Follows,
  updating_response-Follows, updating_give_up-Follows,
}
use b2bua.Ua.Laws.Graph.Uas.{
  progressing, progressing_ring-Follows, progressing_connect-Follows,
  progressing_pre_connect-Follows, progressing_redirect-Follows, progressing_fail-Follows,
  progressing_disconnect-Follows, updating_ring-Follows, updating_connect-Follows,
  updating_redirect-Follows, updating_fail-Follows, updating_disconnect-Follows,
  connected_give_up-Follows, connected_update_event-Follows, connected_info_event-Follows,
  connected_connect-Follows,
}

module _ {B : Type 0} where
  idle_event-Follows :
      (ops : BodyOps B) (env : Env) (k : EventKind B) (e : Event B) (s : Ua B)
      → Follows State.uac_idle (idle_event ops env k e s).0
  unfolding idle_event
  idle_event-Follows ops env (try_call d) e s = idle_try-Follows ops env e d s
  idle_event-Follows ops env (fail _) e s = idle_give_up-Follows env.now e s
  idle_event-Follows ops env (redirect _) e s = idle_give_up-Follows env.now e s
  idle_event-Follows ops env (disconnect _) e s = idle_give_up-Follows env.now e s
  idle_event-Follows ops env _ e s = tt

  trying_event-Follows :
      (now : ℕ) (k : EventKind B) (e : Event B) (s : Ua B)
      → Follows State.uac_trying (trying_event now k e s).0
  unfolding trying_event
  trying_event-Follows now (fail _) e s = trying_give_up-Follows now e s
  trying_event-Follows now (redirect _) e s = trying_give_up-Follows now e s
  trying_event-Follows now (disconnect _) e s = trying_give_up-Follows now e s
  trying_event-Follows now _ e s = tt

  ringing_event-Follows :
      (now : ℕ) (k : EventKind B) (e : Event B) (s : Ua B)
      → Follows State.uac_ringing (ringing_event now k e s).0
  unfolding ringing_event
  ringing_event-Follows now (fail _) e s = ringing_give_up-Follows now e s
  ringing_event-Follows now (redirect _) e s = ringing_give_up-Follows now e s
  ringing_event-Follows now (disconnect _) e s = ringing_give_up-Follows now e s
  ringing_event-Follows now _ e s = tt

  uac_updating_event-Follows :
      (k : EventKind B) (e : Event B) (s : Ua B)
      → Follows State.uac_updating (uac_updating_event k e s).0
  unfolding uac_updating_event
  uac_updating_event-Follows (fail _) e s = updating_give_up-Follows e s
  uac_updating_event-Follows (redirect _) e s = updating_give_up-Follows e s
  uac_updating_event-Follows (disconnect _) e s = updating_give_up-Follows e s
  uac_updating_event-Follows _ e s = tt

  progressing_event-Follows :
      (ops : BodyOps B) (trying : Bool) (k : EventKind B) (e : Event B) (s : Ua B)
      → Follows (progressing trying) (progressing_event ops trying k e s).0
  unfolding progressing_event
  progressing_event-Follows ops trying (ring d) e s = progressing_ring-Follows ops trying e d s
  progressing_event-Follows ops trying (connect c p b) e s =
      progressing_connect-Follows ops trying e c p b s
  progressing_event-Follows ops trying (pre_connect c p b) e s =
      progressing_pre_connect-Follows ops trying e c p b s
  progressing_event-Follows ops trying (redirect d) e s = progressing_redirect-Follows trying e d s
  progressing_event-Follows ops trying (fail d) e s = progressing_fail-Follows trying e d s
  progressing_event-Follows ops trying (disconnect _) e s =
      progressing_disconnect-Follows trying e s
  progressing_event-Follows ops trying _ e s = tt

  uas_updating_event-Follows :
      (ops : BodyOps B) (k : EventKind B) (e : Event B) (s : Ua B)
      → Follows State.uas_updating (uas_updating_event ops k e s).0
  unfolding uas_updating_event
  uas_updating_event-Follows ops (ring d) e s = updating_ring-Follows ops e d s
  uas_updating_event-Follows ops (connect c p b) e s = updating_connect-Follows ops e c p b s
  uas_updating_event-Follows ops (redirect d) e s = updating_redirect-Follows e d s
  uas_updating_event-Follows ops (fail d) e s = updating_fail-Follows e d s
  uas_updating_event-Follows ops (disconnect _) e s = updating_disconnect-Follows e s
  uas_updating_event-Follows ops _ e s = tt

  connected_event-Follows :
      (ops : BodyOps B) (k : EventKind B) (e : Event B) (s : Ua B)
      → Follows State.connected (connected_event ops k e s).0
  unfolding connected_event
  connected_event-Follows ops (disconnect also) e s =
      connected_give_up-Follows e (refer_address also) s
  connected_event-Follows ops (fail _) e s = connected_give_up-Follows e none s
  connected_event-Follows ops (redirect d) e s = connected_give_up-Follows e (refer_first d) s
  connected_event-Follows ops (update b) e s = connected_update_event-Follows ops e b s
  connected_event-Follows ops (EventKind.info b) e s = connected_info_event-Follows e b s
  connected_event-Follows ops (connect _ _ b) e s = connected_connect-Follows ops e b s
  connected_event-Follows ops _ e s = tt

  -- What a state makes of an event of the application is to stay, or to go to a state that follows
  -- it in `edge`, whatever the hooks do.
  pub state_event-Follows :
      (ops : BodyOps B) (env : Env) (st : State) (e : Event B) (s : Ua B)
      → Follows st (state_event ops env st e s).0
  unfolding state_event
  state_event-Follows ops env State.uac_idle e s = idle_event-Follows ops env e.kind e s
  state_event-Follows ops env State.uac_trying e s = trying_event-Follows env.now e.kind e s
  state_event-Follows ops env State.uac_ringing e s = ringing_event-Follows env.now e.kind e s
  state_event-Follows ops env State.uac_updating e s = uac_updating_event-Follows e.kind e s
  state_event-Follows ops env State.uas_trying e s = progressing_event-Follows ops true e.kind e s
  state_event-Follows ops env State.uas_ringing e s = progressing_event-Follows ops false e.kind e s
  state_event-Follows ops env State.uas_updating e s = uas_updating_event-Follows ops e.kind e s
  state_event-Follows ops env State.connected e s = connected_event-Follows ops e.kind e s
  state_event-Follows ops env _ e s = tt

  -- What a state makes of a response is to stay, or to go to a state that follows it in `edge`.
  pub state_response-Follows :
      (now : ℕ) (st : State) (r : Response B) (s : Ua B) → Follows st (state_response now st r s).0
  unfolding state_response
  state_response-Follows now State.uac_trying r s =
      catch_sdp-Follows State.uac_trying r _ refl (trying_response-Follows now r s)
  state_response-Follows now State.uac_ringing r s =
      catch_sdp-Follows State.uac_ringing r _ refl (ringing_response-Follows now r s)
  state_response-Follows now State.uac_cancelling r s = cancelling_response-Follows r s
  state_response-Follows now State.uac_updating r s = updating_response-Follows r s
  state_response-Follows now _ r s = tt
