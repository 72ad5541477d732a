-- ===== src/Ua/Laws/Ending.antt =====
-- The Dead state of a UA (sippy/UaStateDead.py), and what still reaches a UA in it.
use b2bua.Prelude.{
  suc, ◌∙◌, ℕ, ◌≡◌, ◌⊎◌, refl, false, Option, none, some, List, [], ◌∷◌, String, arith,
}
use b2bua.Sip.Message.{InRequest, Response, Header}
use b2bua.Ua.Types.{State, Event, Notice}
use b2bua.Ua.State.{Ua}
use b2bua.Ua.Queue.{emit_pending, post, enqueue, count_event}
use b2bua.Ua.Requests.{update_ua}
use b2bua.Ua.Change.{change_state, enter, leave_current, notify_each, notify_all}
use b2bua.Ua.Local.{BodyOps, Env}
use b2bua.Ua.Dispatch.{state_event, state_request}
use b2bua.Ua.Agent.{
  finish, recv_event, disconnect_ua, expire, no_progress_expire, no_reply_expire, credit_expire,
  take_request,
}
use b2bua.Ua.Incoming.{
  recv_request, Verdict, nothing, answer, request_in, recv_response, response_in, recv_ack, ack_in,
  remote_ready, local_ready, sdp_failed, fail_event,
}
use b2bua.Prelude.Assoc.{Assoc}
use b2bua.Ua.Account.{reset_credit_time}
use b2bua.Ua.Machine.{Input, step, run}

-- What a dead UA lets the transaction manager answer.
abbrev pub IsRefusal : Verdict → Type 0
IsRefusal v = (v ≡ nothing) ⊎ (v ≡ answer 500 "Server Internal Error")

module _ {B : Type 0} where
  -- What a UA that is dead looks like: `event_cb` is gone.
  pub record IsDead (s : Ua B) : Type 0 where
    pub at : s.state ≡ some State.dead
    pub deaf : s.queue.listening ≡ false

  -- Nothing has left the UA between `s` and `t`.
  pub record IsSilent (s t : Ua B) : Type 0 where
    pub calls : t.calls ≡ s.calls
    pub delivered : t.queue.delivered ≡ s.queue.delivered

  -- What still can reach a UA that has gone: messages of its transactions, events of the
  -- application, hooks that answer late and timers that were not cancelled.
  abbrev pub IsLate : Input B → Type 0
  IsLate (Input.request req) = Unit
  IsLate (Input.ack req) = Unit
  IsLate (Input.response resp eh) = Unit
  IsLate (Input.event e) = Unit
  IsLate (Input.disconnect rtime origin) = Unit
  IsLate Input.expires = Unit
  IsLate Input.no_progress = Unit
  IsLate Input.no_reply = Unit
  IsLate (Input.credit rtime) = Unit
  IsLate (Input.local_sdp e) = Unit
  IsLate (Input.remote_sdp e b) = Unit
  IsLate (Input.sdp_error x) = Unit
  IsLate (Input.new_credit_times rtime times) = Unit
  IsLate _ = ⊥

  abbrev StillDead : Ua B → Ua B → Type 0
  StillDead s t = IsDead t × IsSilent s t

  recv_event-dead :
      (ops : BodyOps B) (env : Env) (e : Event B) (s : Ua B)
      → IsDead s
      → StillDead s (recv_event ops env e s).1
  unfolding recv_event state_event finish emit_pending
  recv_event-dead ops env e s h = ground arith

  disconnect_ua-dead :
      (ops : BodyOps B) (env : Env) (rtime : ℕ) (o : Option String) (s : Ua B)
      → IsDead s
      → StillDead s (disconnect_ua ops env rtime o s).1
  unfolding disconnect_ua recv_event state_event finish emit_pending post
  disconnect_ua-dead ops env rtime o s h = ground arith

  recv_request-dead :
      (ops : BodyOps B) (env : Env) (req : InRequest B) (s : Ua B)
      → IsDead s
      → StillDead s (recv_request ops env req s).1
  unfolding recv_request request_in take_request state_request finish emit_pending update_ua
  recv_request-dead ops env req s h = ground arith

  response-dead :
      (env : Env) (resp : Response B) (eh : List Header) (s : Ua B)
      → IsDead s
      → StillDead s (recv_response env resp eh s).1
  unfolding recv_response response_in
  response-dead env resp eh s h = ground arith

  ack-dead : (req : InRequest B) (s : Ua B) → IsDead s → StillDead s (recv_ack req s).1
  unfolding recv_ack ack_in
  ack-dead req s h = ground arith

  reset_credit_time-dead :
      (rtime : ℕ) (times : Assoc ℕ (Option ℕ)) (s : Ua B)
      → IsDead s
      → StillDead s (reset_credit_time rtime times s)
  unfolding reset_credit_time
  reset_credit_time-dead rtime times s h = ground (arith, h.at, h.deaf)

  step-dead :
      (ops : BodyOps B) (env : Env) (i : Input B) (s : Ua B)
      → IsDead s
      → IsLate i
      → StillDead s (step ops env i s)
  unfolding step expire no_progress_expire no_reply_expire credit_expire local_ready remote_ready
      sdp_failed emit_pending
  step-dead ops env (Input.request req) s h l = recv_request-dead ops env req s h
  step-dead ops env (Input.ack req) s h l = ack-dead req s h
  step-dead ops env (Input.response resp eh) s h l = response-dead env resp eh s h
  step-dead ops env (Input.event e) s h l = recv_event-dead ops env e s h
  step-dead ops env (Input.disconnect rtime o) s h l = disconnect_ua-dead ops env rtime o s h
  step-dead ops env Input.expires s h l =
      let t = record s { timers = record s.timers { expires = none } } in
      ground
        (arith, disconnect_ua-dead ops env env.now none t (record { at = h.at; deaf = h.deaf }))
  step-dead ops env Input.no_progress s h l =
      let t = record s { timers = record s.timers { no_progress = none } } in
      ground
        (arith, disconnect_ua-dead ops env env.now none t (record { at = h.at; deaf = h.deaf }))
  step-dead ops env Input.no_reply s h l =
      let t = record s { timers = record s.timers { no_reply = none } } in
      ground
        (arith, disconnect_ua-dead ops env env.now none t (record { at = h.at; deaf = h.deaf }))
  step-dead ops env (Input.credit rtime) s h l =
      let t = record s { timers = record s.timers { credit = none } } in
      ground (arith, disconnect_ua-dead ops env rtime none t (record { at = h.at; deaf = h.deaf }))
  step-dead ops env (Input.local_sdp e) s h l = recv_event-dead ops env e s h
  step-dead ops env (Input.remote_sdp e b) s h l = ground arith
  step-dead ops env (Input.sdp_error x) s h l =
      let e = fail_event env.now x s in
      let t = emit_pending (enqueue e (count_event s)) in
      let k : IsDead t = ground arith in ground (arith, recv_event-dead ops env e t k)
  step-dead ops env (Input.new_credit_times rtime times) s h l =
      reset_credit_time-dead rtime times s h
  step-dead ops env (Input.cancel st rtime reason) s h l = absurd l
  step-dead ops env _ s h l = absurd l

  abbrev pub AllLate : List (Env × Input B) → Type 0
  AllLate [] = Unit
  AllLate ((env, i) ∷ is) = IsLate i × AllLate is

  recv_request-IsRefusal :
      (ops : BodyOps B) (env : Env) (req : InRequest B) (s : Ua B)
      → IsDead s
      → IsRefusal (recv_request ops env req s).0
  unfolding recv_request request_in take_request state_request finish emit_pending update_ua
  recv_request-IsRefusal ops env req s h = ground arith

  run_dead-StillDead :
      (ops : BodyOps B) (is : List (Env × Input B)) (s : Ua B)
      → IsDead s
      → AllLate is
      → StillDead s (run ops is s)
  unfolding run
  run_dead-StillDead ops [] s h l = ground arith
  run_dead-StillDead ops ((env, i) ∷ is) s h l =
      let one = step-dead ops env i s h l.0 in
      let rest = run_dead-StillDead ops is (step ops env i s) one.0 l.1 in
      (
        rest.0,
        record {
          calls = rest.1.calls ∙ one.1.calls;
          delivered = rest.1.delivered ∙ one.1.delivered;
        },
      )

  -- Through any number of requests, responses, ACKs, events, calls of `disconnect`, hooks that answer
  -- late, timers of the call (expires, no progress, no reply, credit) and new credit times, a dead UA
  -- stays dead, asks nothing of the transaction manager or the timers, and delivers no event; and to
  -- any request that comes then it gives no response, or a 500. The response to a REFER, which may
  -- come to a dead UA too, and what goes to a state object the UA has left (a CANCEL, a keep-alive, the
  -- timers of goDead and goIdle) are not among the inputs.
  pub run_dead-IsSilent :
      (ops : BodyOps B) (is : List (Env × Input B)) (env : Env) (req : InRequest B) (s : Ua B)
      → IsDead s
      → AllLate is
      → let t = run ops is s in IsDead t × IsSilent s t × IsRefusal (recv_request ops env req t).0
  run_dead-IsSilent ops is env req s h l =
      let k = run_dead-StillDead ops is s h l in
      (k.0, k.1, recv_request-IsRefusal ops env req (run ops is s) k.0)

  pub notify_each-keeps :
      (fs : List ℕ) (n : Notice) (s : Ua B)
      → let t = notify_each fs n s in
        (t.state ≡ s.state)
        × (t.queue ≡ s.queue)
        × (t.tr ≡ s.tr)
        × (t.timers ≡ s.timers)
        × (t.dialog ≡ s.dialog)
        × (t.cbs ≡ s.cbs)
        × (t.media ≡ s.media)
  unfolding notify_each
  notify_each-keeps [] n s = (refl, refl, refl, refl, refl, refl, refl)
  notify_each-keeps (f ∷ fs) n s = notify_each-keeps fs n _

  -- No hook for the local or the remote session description is left.
  pub record IsHookless (s : Ua B) : Type 0 where
    pub no_local : s.media.on_local ≡ none
    pub no_remote : s.media.on_remote ≡ none

  pub record IsCallbackless (s : Ua B) : Type 0 where
    pub no_conn : s.cbs.conn ≡ []
    pub no_disc : s.cbs.disc ≡ []
    pub no_fail : s.cbs.fail ≡ []
    pub no_dead : s.cbs.dead ≡ []

  abbrev dead_object : Ua B → Ua B
  dead_object s =
      let t = enter State.dead (leave_current s.state s) in
      record t { state = some State.dead; instance_no = suc t.instance_no }

  -- Entering the Dead state, from any state, makes a UA dead in that sense, and sets free its
  -- transaction, its timers but the no-reply timer, both hooks, the requests that it kept and all its
  -- callbacks but those for ringing.
  pub change_state-dead :
      (n : Option Notice) (s : Ua B)
      → let t = change_state State.dead n s in
        IsDead t
        × (t.tr ≡ none)
        × (t.timers.expires ≡ none)
        × (t.timers.no_progress ≡ none)
        × (t.timers.credit ≡ none)
        × (t.dialog.reqs ≡ [])
        × IsHookless t
        × IsCallbackless t
  unfolding change_state enter notify_all
  change_state-dead none s = ground arith
  change_state-dead (some n) s = ground (arith, notify_each-keeps n.callbacks n (dead_object s))
