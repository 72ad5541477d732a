-- ===== src/Ua/Laws/Graph/Requests.antt =====
-- Requests: the states that may follow a state. A REFER of a connected call has the UA take an event.
use b2bua.Prelude.{
  ◌≡◌, ◌∙◌, sym, ◌&&◌, if◌then◌else◌, refl, Bool, true, false, Option, none, some, arith,
}
use b2bua.Sip.Message.{Method, invite, bye, refer, info, options, Url, InRequest}
use b2bua.Ua.Types.{State, disconnect, reply, Next, Notice, stay, become, raised, raised_other}
use b2bua.Ua.State.{Ua}
use b2bua.Ua.Local.{BodyOps, Env}
use b2bua.Ua.Dispatch.{
  connected_event, state_event, connected_request, uas_updating_request, uac_updating_request,
  disconnected_request, uas_idle_request, uas_ringing_request, state_request,
}
use mathlib.Core.Path.{subst}
use b2bua.Ua.Timers.{call}
use b2bua.Ua.Queue.{emit_pending, post, make_event, count_event}
use b2bua.Ua.Change.{change_state, notify_all}
use b2bua.Ua.Connected.Events.{connected_give_up}
use b2bua.Ua.Laws.Ending.{notify_each-keeps}
use b2bua.Ua.Agent.{
  event_in, recv_event, is_connected_exactly, is_refer, finish, refer_result, refer_to_in,
  connected_refer, take_request,
}
use b2bua.Ua.Laws.Graph.{Follows}
use b2bua.Ua.Uas.Progressing.{disconnect_from_request}
use b2bua.Ua.Laws.Graph.Uas.{
  idle_invite-Follows, ringing_bye-Follows, updating_bye-Follows, updating_refer-Follows,
  connected_invite-Follows, connected_bye-Follows, connected_info-Follows,
}

-- Where a REFER takes the UA: nowhere when it says not to whom, else to Disconnected.
abbrev pub ReferMoves : {B : Type 0} → Option Url → Ua B → Ua B → Type 0
ReferMoves none s t = t.state ≡ s.state
ReferMoves (some to) s t = t.state ≡ some State.disconnected

-- The same for a request that is a REFER of a connected call, if it is.
abbrev pub Referred : {B : Type 0} → Bool → Option Url → Ua B → Ua B → Type 0
Referred false to s t = Unit
Referred true to s t = ReferMoves to s t

module _ {B : Type 0} where
  connected_request-Follows :
      (ops : BodyOps B) (m : Method) (r : InRequest B) (s : Ua B)
      → Follows State.connected (connected_request ops m r s).0
  unfolding connected_request
  connected_request-Follows ops invite r s = connected_invite-Follows ops r s
  connected_request-Follows ops bye r s = connected_bye-Follows r s
  connected_request-Follows ops info r s = connected_info-Follows r s
  connected_request-Follows ops options r s = tt
  connected_request-Follows ops _ r s = tt

  uas_updating_request-Follows :
      (m : Method) (r : InRequest B) (s : Ua B)
      → Follows State.uas_updating (uas_updating_request m r s).0
  unfolding uas_updating_request
  uas_updating_request-Follows invite r s = tt
  uas_updating_request-Follows bye r s = updating_bye-Follows r s
  uas_updating_request-Follows refer r s = updating_refer-Follows r s
  uas_updating_request-Follows _ r s = tt

  uac_updating_request-Follows :
      (m : Method) (r : InRequest B) (s : Ua B)
      → Follows State.uac_updating (uac_updating_request m r s).0
  unfolding uac_updating_request disconnect_from_request
  uac_updating_request-Follows invite r s = tt
  uac_updating_request-Follows bye r s = refl
  uac_updating_request-Follows _ r s = tt

  disconnected_request-Follows :
      (m : Method) (s : Ua B) → Follows State.disconnected (disconnected_request m s).0
  unfolding disconnected_request
  disconnected_request-Follows bye s = tt
  disconnected_request-Follows _ s = tt

  uas_idle_request-Follows :
      (env : Env) (m : Method) (r : InRequest B) (s : Ua B)
      → Follows State.uas_idle (uas_idle_request env m r s).0
  unfolding uas_idle_request
  uas_idle_request-Follows env invite r s = idle_invite-Follows env r s
  uas_idle_request-Follows env _ r s = tt

  uas_ringing_request-Follows :
      (m : Method) (r : InRequest B) (s : Ua B)
      → Follows State.uas_ringing (uas_ringing_request m r s).0
  unfolding uas_ringing_request
  uas_ringing_request-Follows bye r s = ringing_bye-Follows r s
  uas_ringing_request-Follows _ r s = tt

  state_request-Follows :
      (ops : BodyOps B) (env : Env) (st : State) (r : InRequest B) (s : Ua B)
      → Follows st (state_request ops env st r s).0
  unfolding state_request
  state_request-Follows ops env State.uas_idle r s = uas_idle_request-Follows env r.method r s
  state_request-Follows ops env State.uas_ringing r s = uas_ringing_request-Follows r.method r s
  state_request-Follows ops env State.connected r s = connected_request-Follows ops r.method r s
  state_request-Follows ops env State.uas_updating r s = uas_updating_request-Follows r.method r s
  state_request-Follows ops env State.uac_updating r s = uac_updating_request-Follows r.method r s
  state_request-Follows ops env State.disconnected r s = disconnected_request-Follows r.method s
  state_request-Follows ops env _ r s = tt

  refer_result-Follows : (r : Next × Ua B) → Follows State.connected (refer_result r).0
  unfolding refer_result
  refer_result-Follows (become n c, t) = tt
  refer_result-Follows (stay, t) = tt
  refer_result-Follows (raised x, t) = tt
  refer_result-Follows (raised_other m, t) = tt

  refer_to_in-Follows :
      (ops : BodyOps B) (env : Env) (req : InRequest B) (o : Option Url) (s : Ua B)
      → Follows State.connected (refer_to_in ops env req o s).0
  unfolding refer_to_in
  refer_to_in-Follows ops env req none s = tt
  refer_to_in-Follows ops env req (some to) s = refer_result-Follows _

  change_state-state :
      (st : State) (n : Option Notice) (s : Ua B) → (change_state st n s).state ≡ some st
  unfolding change_state notify_all
  change_state-state st none s = refl
  change_state-state st (some n) s = (notify_each-keeps n.callbacks n _).0

  emit_pending-state : (s : Ua B) → (emit_pending s).state ≡ s.state
  unfolding emit_pending
  emit_pending-state s = ground arith

  finish_disconnected-state :
      (n : Option Notice) (s : Ua B)
      → (refer_result (finish (become State.disconnected n, s))).1.state ≡ some State.disconnected
  unfolding finish refer_result
  finish_disconnected-state n s =
      emit_pending-state (change_state State.disconnected n s)
      ∙ change_state-state State.disconnected n s

  refer_to_in-ReferMoves :
      (ops : BodyOps B) (env : Env) (req : InRequest B) (o : Option Url) (s : Ua B)
      → s.state ≡ some State.connected
      → ReferMoves o s (refer_to_in ops env req o s).1
  unfolding refer_to_in recv_event event_in state_event connected_event connected_give_up post
  refer_to_in-ReferMoves ops env req none s h = refl
  refer_to_in-ReferMoves ops env req (some to) s h =
      let s1 =
        post (disconnect (some to)) req.rtime s.origin none (call (reply 202 "Accepted") s) in
      let e = make_event (disconnect none) req.rtime s.origin none s1 in
      subst
        (λ o.
          (refer_result (event_in ops env e o (count_event s1))).1.state ≡ some State.disconnected)
        (sym h) (finish_disconnected-state _ _)

  -- What a state makes of a request that comes to a UA in this state is to stay, or to go to a state
  -- that follows it in `edge`. The handler of REFER in Connected stays, for it has the UA take a
  -- Disconnect itself: when the REFER says to whom, the UA is Disconnected afterwards, else where it
  -- was.
  pub take_request-Follows :
      (ops : BodyOps B) (env : Env) (st : State) (r : InRequest B) (s : Ua B)
      → s.state ≡ some st
      → let t = take_request ops env st r s in
        Follows st t.0 × Referred (is_connected_exactly st && is_refer r.method) r.refer_to s t.1
  unfolding take_request connected_refer
  take_request-Follows ops env State.connected r s h = by_refer (is_refer r.method)
    where
      by_refer :
          (b : Bool)
          → let t =
              (if b
                then refer_to_in ops env r r.refer_to s
                else state_request ops env State.connected r s) in
            Follows State.connected t.0 × Referred b r.refer_to s t.1
      by_refer true = (
        refer_to_in-Follows ops env r r.refer_to s,
        refer_to_in-ReferMoves ops env r r.refer_to s h,
      )
      by_refer false = (state_request-Follows ops env State.connected r s, tt)
  take_request-Follows ops env st r s h = (state_request-Follows ops env st r s, tt)
