-- ===== src/Ua/Laws/Graph.antt =====
-- The life of a call: which states follow which (sippy/UacState*.py, UasState*.py, UaState*.py).
pub mod Uac
pub mod Uas
pub mod States
pub mod Requests
use b2bua.Prelude.{
  ℕ, String, ◌≡◌, refl, inl, inr, Bool, true, false, Option, none, some, List, Option-cases, arith,
  if_elim, if◌then◌else◌,
}
use b2bua.Sip.Message.{Method, invite, bye, refer, info, options, Url, InRequest, Response}
use b2bua.Ua.Types.{
  State, LocalOutcome, TryData, update_local_sdp, Status, Event, EventKind, try_call, fail, ring,
  pre_connect, connect, update, redirect, disconnect, Next, stay, become, raised, raised_other,
}
use b2bua.Ua.State.{Ua}
use b2bua.Ua.Remote.{Taken, done, waiting, failed, broken}
use b2bua.Ua.Local.{settle_local, BodyOps, Env, delay_local, unless_delayed}
use b2bua.Ua.Timers.{call}
use b2bua.Ua.Requests.{update_routes, set_remote_tag}
use b2bua.Ua.Uac.Idle.{idle_try, place_call, idle_give_up}
use b2bua.Ua.Uac.Answer.{
  finish_remote, answered, answered_tagless, answered_early, answered_late, refused,
}
use b2bua.Ua.Uac.Trying.{
  trying_100, trying_1xx, trying_refused, trying_response, sdp_refused, catch_sdp, trying_give_up,
}
use b2bua.Ua.Uac.Ringing.{ringing_response, ringing_give_up}
use b2bua.Ua.Dispatch.{
  idle_event, trying_event, ringing_event, uac_updating_event, progressing_event,
  uas_updating_event, connected_event, state_event, state_response, connected_request,
  uas_updating_request, uac_updating_request, disconnected_request, uas_idle_request,
  uas_ringing_request, state_request, state_ack,
}

-- The states that may follow a state, by what it is told.
abbrev pub edge : State → State → Bool
edge State.uac_idle State.uac_trying = true
edge State.uac_idle State.dead = true
edge State.uac_trying State.uac_ringing = true
edge State.uac_trying State.connected = true
edge State.uac_trying State.failed = true
edge State.uac_trying State.uac_cancelling = true
edge State.uac_ringing State.connected = true
edge State.uac_ringing State.failed = true
edge State.uac_ringing State.uac_cancelling = true
edge State.uac_cancelling State.disconnected = true
edge State.uac_cancelling State.dead = true
edge State.uac_updating State.connected = true
edge State.uac_updating State.disconnected = true
edge State.uas_idle State.uas_trying = true
edge State.uas_trying State.uas_ringing = true
edge State.uas_trying State.connected = true
edge State.uas_trying State.failed = true
edge State.uas_trying State.disconnected = true
edge State.uas_ringing State.connected = true
edge State.uas_ringing State.failed = true
edge State.uas_ringing State.disconnected = true
edge State.uas_updating State.connected = true
edge State.uas_updating State.disconnected = true
edge State.connected State.uas_updating = true
edge State.connected State.uac_updating = true
edge State.connected State.disconnected = true
edge _ _ = false

-- What a handler of this state returns is a state that may follow, if any.
abbrev pub Follows : State → Next → Type 0
Follows st (become n c) = edge st n ≡ true
Follows st stay = Unit
Follows st (raised x) = Unit
Follows st (raised_other m) = Unit

module _ {B : Type 0} where
  pub finish_remote-Follows :
      (st : State) (r : Taken B) (e : Event B) (f : Ua B → Ua B) (next : Next)
      → Follows st next
      → Follows st (finish_remote r e f next).0
  unfolding finish_remote
  finish_remote-Follows st (done s) e f next h = h
  finish_remote-Follows st (waiting s) e f next h = h
  finish_remote-Follows st (failed x s) e f next h = tt
  finish_remote-Follows st (broken m s) e f next h = tt

  -- A hook that is asked, or refuses, leaves the state alone.
  pub unless_delayed-Follows :
      (st : State) (ops : BodyOps B) (body : Option B) (e : Event B) (s : Ua B) (r : Next × Ua B)
      → Follows st r.0
      → Follows st (unless_delayed (delay_local ops body e s) r).0
  unfolding unless_delayed delay_local
  unless_delayed-Follows st ops none e s r h = h
  unless_delayed-Follows st ops (some b) e s r h = elim (Option-cases s.media.on_local) [
    | inl e1 ↦ ground (arith, h, e1)
    | inr (hook, e1) ↦ ground (arith, h, e1, settled (hook b) (call (update_local_sdp b e) s))
  ]
    where
      settled : (o : LocalOutcome) (t : Ua B) → Follows st (settle_local o t).0
      settled LocalOutcome.started t = tt
      settled (LocalOutcome.sdp_error x) t = tt
      settled (LocalOutcome.crashed m) t = tt
