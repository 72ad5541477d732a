-- ===== src/Ua/Laws/Frame/Handlers.antt =====
-- The frame of the handlers of each state: requests, ACKs, responses and events.
use b2bua.Prelude.{
  inl, inr, Option-cases, ℕ, List, String, Bool, true, false, Option, none, some, arith,
}
use b2bua.Sip.Message.{
  Method, invite, bye, refer, info, options, Url, Header, InRequest, Challenge, Request, Response,
}
use b2bua.Ua.Types.{
  provisional, State, EventKind, connect, pre_connect, ring, fail, redirect, disconnect, update,
  Event, Next,
}
use b2bua.Ua.State.{Ua}
use b2bua.Ua.Timers.{call, cancel_expires, cancel_credit_timer, start_credit_timer}
use b2bua.Ua.Queue.{post}
use b2bua.Ua.Incoming.{own_invite, try_auth}
use b2bua.Ua.Requests.{pick_challenge, process_challenge, retry_invite}
use b2bua.Ua.Local.{BodyOps, Env}
use b2bua.Ua.Uas.Progressing.{disconnect_from_request}
use b2bua.Ua.Uas.Updating.{updating_fail, updating_redirect}
use b2bua.Ua.Connected.Requests.{connected_invite}
use b2bua.Ua.Connected.Events.{
  connected_update_event, ack_late, connected_info_event, connected_connect, refer_address,
  refer_first,
}
use b2bua.Ua.Dispatch.{
  progressing_event, uas_updating_event, connected_event, state_event, connected_request,
  uas_updating_request, uac_updating_request, disconnected_request, uas_idle_request,
  uas_ringing_request, state_request, state_ack,
}
use b2bua.Ua.Laws.Frame.Parts.{
  cancel_expires-Frame, Frame, Frame-refl, Frame-trans, then_notify-Frame, delayed-Frame,
}
use b2bua.Ua.Laws.Frame.Uas.{
  idle_invite-Frame, progressing_ring-Frame, progressing_connect-Frame,
  progressing_pre_connect-Frame, progressing_redirect-Frame, progressing_fail-Frame,
  progressing_disconnect-Frame, ringing_bye-Frame, updating_ring-Frame, updating_connect-Frame,
  updating_disconnect-Frame, updating_bye-Frame, updating_refer-Frame, connected_update-Frame,
  connected_bye-Frame, connected_info-Frame, connected_ack-Frame, connected_give_up-Frame,
  ask_local-Frame, send_update-Frame,
}
use b2bua.Ua.Laws.Frame.Uac.{
  idle_event-Frame, trying_event-Frame, ringing_event-Frame, uac_updating_event-Frame,
}

module _ {B : Type 0} where
  updating_fail-Frame :
      (e : Event B) (d : Option (ℕ × String × Option B)) (s : Ua B)
      → Frame s (updating_fail e d s).1
  unfolding updating_fail
  updating_fail-Frame e d s = ground arith

  updating_redirect-Frame :
      (e : Event B) (d : Option (ℕ × String × Option B × Option (List Url))) (s : Ua B)
      → Frame s (updating_redirect e d s).1
  unfolding updating_redirect
  updating_redirect-Frame e d s = ground arith

  connected_invite-Frame :
      (ops : BodyOps B) (req : InRequest B) (s : Ua B) → Frame s (connected_invite ops req s).1
  unfolding connected_invite
  connected_invite-Frame ops req s =
      let s1 = call provisional (record s { answering = some req.cseq }) in
      elim (Option-cases req.body) [
        | inl e ↦ elim (Option-cases s.media.rsdp) [
          | inl f ↦ ground arith
          | inr (b, f) ↦ ground (arith, connected_update-Frame req (some (ops.hold b)) s1)
        ]
        | inr (b, e) ↦ ground (arith, connected_update-Frame req (some b) s1)
      ]

  connected_update_event-Frame :
      (ops : BodyOps B) (e : Event B) (b : Option B) (s : Ua B)
      → Frame s (connected_update_event ops e b s).1
  unfolding connected_update_event post
  connected_update_event-Frame ops e none s = Frame-refl s
  connected_update_event-Frame ops e (some b) s = elim (Option-cases s.media.on_local) [
    | inl n ↦ ground (arith, send_update-Frame e b s)
    | inr (hook, h) ↦ ground (arith, send_update-Frame e b s, ask_local-Frame b e (hook b) s)
  ]

  connected_info_event-Frame :
      (e : Event B) (b : Option B) (s : Ua B) → Frame s (connected_info_event e b s).1
  unfolding connected_info_event
  connected_info_event-Frame e b s = ground arith

  ack_late-Frame : (e : Event B) (b : Option B) (t : ℕ) (s : Ua B) → Frame s (ack_late e b t s)
  unfolding ack_late start_credit_timer cancel_credit_timer
  ack_late-Frame e b t s = then_notify-Frame _ _ _ (ground arith)

  connected_connect-Frame :
      (ops : BodyOps B) (e : Event B) (b : Option B) (s : Ua B)
      → Frame s (connected_connect ops e b s).1
  unfolding connected_connect
  connected_connect-Frame ops e b s = elim (Option-cases s.pending_tr) [
    | inl h ↦ ground arith
    | inr (t, h) ↦ ground (
      arith,
      delayed-Frame ops b e (Next.stay, ack_late e b t (cancel_expires s)) s (cancel_expires s)
          (cancel_expires-Frame s)
          (Frame-trans (cancel_expires-Frame s) (ack_late-Frame e b t (cancel_expires s))),
    )
  ]

  progressing_event-Frame :
      (ops : BodyOps B) (trying : Bool) (k : EventKind B) (e : Event B) (s : Ua B)
      → Frame s (progressing_event ops trying k e s).1
  unfolding progressing_event
  progressing_event-Frame ops trying (ring d) e s = progressing_ring-Frame ops trying e d s
  progressing_event-Frame ops trying (connect c p b) e s =
      progressing_connect-Frame ops trying e c p b s
  progressing_event-Frame ops trying (pre_connect c p b) e s =
      progressing_pre_connect-Frame ops trying e c p b s
  progressing_event-Frame ops trying (redirect d) e s = progressing_redirect-Frame trying e d s
  progressing_event-Frame ops trying (fail d) e s = progressing_fail-Frame trying e d s
  progressing_event-Frame ops trying (disconnect _) e s = progressing_disconnect-Frame trying e s
  progressing_event-Frame ops trying _ e s = Frame-refl s

  uas_updating_event-Frame :
      (ops : BodyOps B) (k : EventKind B) (e : Event B) (s : Ua B)
      → Frame s (uas_updating_event ops k e s).1
  unfolding uas_updating_event
  uas_updating_event-Frame ops (ring d) e s = updating_ring-Frame ops e d s
  uas_updating_event-Frame ops (connect c p b) e s = updating_connect-Frame ops e c p b s
  uas_updating_event-Frame ops (redirect d) e s = updating_redirect-Frame e d s
  uas_updating_event-Frame ops (fail d) e s = updating_fail-Frame e d s
  uas_updating_event-Frame ops (disconnect _) e s = updating_disconnect-Frame e s
  uas_updating_event-Frame ops _ e s = Frame-refl s

  connected_event-Frame :
      (ops : BodyOps B) (k : EventKind B) (e : Event B) (s : Ua B)
      → Frame s (connected_event ops k e s).1
  unfolding connected_event
  connected_event-Frame ops (disconnect also) e s = connected_give_up-Frame e (refer_address also) s
  connected_event-Frame ops (fail _) e s = connected_give_up-Frame e none s
  connected_event-Frame ops (redirect d) e s = connected_give_up-Frame e (refer_first d) s
  connected_event-Frame ops (update b) e s = connected_update_event-Frame ops e b s
  connected_event-Frame ops (EventKind.info b) e s = connected_info_event-Frame e b s
  connected_event-Frame ops (connect _ _ b) e s = connected_connect-Frame ops e b s
  connected_event-Frame ops _ e s = Frame-refl s

  pub state_event-Frame :
      (ops : BodyOps B) (env : Env) (st : State) (e : Event B) (s : Ua B)
      → Frame s (state_event ops env st e s).1
  unfolding state_event
  state_event-Frame ops env State.uac_idle e s = idle_event-Frame ops env e.kind e s
  state_event-Frame ops env State.uac_trying e s = trying_event-Frame env.now e.kind e s
  state_event-Frame ops env State.uac_ringing e s = ringing_event-Frame env.now e.kind e s
  state_event-Frame ops env State.uac_updating e s = uac_updating_event-Frame e.kind e s
  state_event-Frame ops env State.uas_trying e s = progressing_event-Frame ops true e.kind e s
  state_event-Frame ops env State.uas_ringing e s = progressing_event-Frame ops false e.kind e s
  state_event-Frame ops env State.uas_updating e s = uas_updating_event-Frame ops e.kind e s
  state_event-Frame ops env State.connected e s = connected_event-Frame ops e.kind e s
  state_event-Frame ops env _ e s = Frame-refl s

  connected_request-Frame :
      (ops : BodyOps B) (m : Method) (req : InRequest B) (s : Ua B)
      → Frame s (connected_request ops m req s).1
  unfolding connected_request
  connected_request-Frame ops invite req s = connected_invite-Frame ops req s
  connected_request-Frame ops bye req s = connected_bye-Frame req s
  connected_request-Frame ops info req s = connected_info-Frame req s
  connected_request-Frame ops options req s = ground arith
  connected_request-Frame ops _ req s = Frame-refl s

  uas_updating_request-Frame :
      (m : Method) (req : InRequest B) (s : Ua B) → Frame s (uas_updating_request m req s).1
  unfolding uas_updating_request
  uas_updating_request-Frame invite req s = ground arith
  uas_updating_request-Frame bye req s = updating_bye-Frame req s
  uas_updating_request-Frame refer req s = updating_refer-Frame req s
  uas_updating_request-Frame _ req s = Frame-refl s

  uac_updating_request-Frame :
      (m : Method) (req : InRequest B) (s : Ua B) → Frame s (uac_updating_request m req s).1
  unfolding uac_updating_request disconnect_from_request cancel_credit_timer post
  uac_updating_request-Frame invite req s = ground arith
  uac_updating_request-Frame bye req s = ground arith
  uac_updating_request-Frame _ req s = Frame-refl s

  disconnected_request-Frame : (m : Method) (s : Ua B) → Frame s (disconnected_request m s).1
  unfolding disconnected_request
  disconnected_request-Frame bye s = ground arith
  disconnected_request-Frame _ s = ground arith

  uas_idle_request-Frame :
      (env : Env) (m : Method) (req : InRequest B) (s : Ua B)
      → Frame s (uas_idle_request env m req s).1
  unfolding uas_idle_request
  uas_idle_request-Frame env invite req s = idle_invite-Frame env req s
  uas_idle_request-Frame env _ req s = Frame-refl s

  uas_ringing_request-Frame :
      (m : Method) (req : InRequest B) (s : Ua B) → Frame s (uas_ringing_request m req s).1
  unfolding uas_ringing_request
  uas_ringing_request-Frame bye req s = ringing_bye-Frame req s
  uas_ringing_request-Frame _ req s = Frame-refl s

  pub state_request-Frame :
      (ops : BodyOps B) (env : Env) (st : State) (req : InRequest B) (s : Ua B)
      → Frame s (state_request ops env st req s).1
  unfolding state_request
  state_request-Frame ops env State.uas_idle req s = uas_idle_request-Frame env req.method req s
  state_request-Frame ops env State.uas_ringing req s = uas_ringing_request-Frame req.method req s
  state_request-Frame ops env State.connected req s = connected_request-Frame ops req.method req s
  state_request-Frame ops env State.uas_updating req s = uas_updating_request-Frame req.method req s
  state_request-Frame ops env State.uac_updating req s = uac_updating_request-Frame req.method req s
  state_request-Frame ops env State.disconnected req s = disconnected_request-Frame req.method s
  state_request-Frame ops env _ req s = Frame-refl s

  pub state_ack-Frame : (st : State) (req : InRequest B) (s : Ua B) → Frame s (state_ack st req s).1
  unfolding state_ack
  state_ack-Frame State.connected req s = connected_ack-Frame req s
  state_ack-Frame _ req s = Frame-refl s

  retry_invite-Frame :
      (cseq : ℕ) (c : Challenge × Option String) (eh : List Header) (s : Ua B)
      → Frame s (retry_invite cseq c eh s)
  unfolding retry_invite
  retry_invite-Frame cseq (c, qop) eh s = ground arith

  process_challenge-Frame :
      (cseq : ℕ) (req : Request B) (cs : List Challenge) (hf : String) (eh : List Header) (s : Ua B)
      → Frame s (process_challenge cseq req cs hf eh s).1
  unfolding process_challenge
  process_challenge-Frame cseq req cs hf eh s =
      elim (Option-cases (pick_challenge s.config.auth_enalgs cs)) [
        | inl e ↦ ground arith
        | inr (c, e) ↦ ground (arith, retry_invite-Frame cseq c eh s)
      ]

  pub try_auth-Frame :
      (resp : Response B) (eh : List Header) (s : Ua B) → Frame s (try_auth resp eh s).1
  unfolding try_auth
  try_auth-Frame resp eh s = elim (Option-cases (own_invite resp s)) [
    | inl e ↦ ground arith
    | inr (req, e) ↦ ground (
      arith,
      process_challenge-Frame resp.cseq req resp.www "authorization" eh s,
      process_challenge-Frame resp.cseq req resp.proxy "proxy-authorization" eh s,
    )
  ]
