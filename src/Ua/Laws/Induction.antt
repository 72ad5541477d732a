-- ===== src/Ua/Laws/Induction.antt =====
-- An induction rule for runs of a UA: what holds of the events delivered and of the last CSeq taken,
-- and is kept by a delivery and by a fresh request, holds after any run.
use b2bua.Prelude.{
  ◌||◌, ◌==◌, not, ltb, ◌&&◌, ℕ, suc, ◌≡◌, sym, String, Bool, true, false, Option, none, some, List,
  [], ◌∷◌, arith, leb, if_elim,
}
use mathlib.Core.Path.{subst, subst₂}
use b2bua.Prelude.Assoc.{Assoc}
use b2bua.Sip.Message.{bye, Method, Url, Header, InRequest, Response}
use b2bua.Ua.Types.{State, Event, Next, stay, become, raised, raised_other}
use b2bua.Ua.State.{Ua, Queue, is_dead_state, is_connected_state}
use b2bua.Ua.Uas.Progressing.{progressing_cancel}
use b2bua.Ua.Uas.Updating.{updating_cancel}
use b2bua.Ua.Timers.{start_credit_timer, cancel_credit_timer}
use b2bua.Ua.Queue.{deliver, drain, emit_pending, emit_event, post}
use b2bua.Ua.Change.{change_state}
use b2bua.Ua.Local.{BodyOps, Env}
use b2bua.Ua.Agent.{
  expire, no_progress_expire, no_reply_expire, credit_expire, finish, opens_call, event_in,
  recv_event, disconnect_ua, refer_result, refer_to_in, take_request, connected_refer, is_refer,
  is_connected_exactly,
}
use b2bua.Ua.Incoming.{
  Verdict, verdict, request_in, recv_request, recv_ack, recv_response, try_auth, take_response,
  forget_request, unless_retried, response_in, ack_in, cancel_call, local_ready, remote_ready,
  sdp_failed, is_invite, is_stale, note_agent, set_rcseq,
}
use b2bua.Ua.Requests.{update_ua, is_some}
use b2bua.Ua.Account.{
  go_dead, go_idle, reset_credit_time, on_refer_complete, on_keep_alive, on_keep_alive_response,
  challenged,
}
use b2bua.Ua.Machine.{Input, step, run}
use b2bua.Ua.Laws.Frame.{
  Frame, Frame-trans, change_state-Frame, state_event-Frame, send_request-Frame,
  cancel_credit_timer-Frame, try_auth-Frame, state_request-Frame, state_response-Frame,
  state_ack-Frame,
}

module _ {B : Type 0} (Q : Option ℕ → List (Event B) → Option ℕ → Type 0)
    (on_deliver : (e : Event B) (q : Queue B) (r : Option ℕ)
      → Q q.elast_seq q.delivered r
      → Q (deliver e q).elast_seq (deliver e q).delivered r)
    (on_request : (c : ℕ) (o : Option ℕ) (d : List (Event B)) (r : Option ℕ)
      → is_stale c r ≡ false
      → Q o d r
      → Q o d (some c)) where
  abbrev pub IsFine : Ua B → Type 0
  IsFine s = Q s.queue.elast_seq s.queue.delivered s.dialog.rcseq

  drain-IsFine :
      (r : Option ℕ) (es : List (Event B)) (q : Queue B)
      → Q q.elast_seq q.delivered r
      → Q (drain es q).elast_seq (drain es q).delivered r
  unfolding drain
  drain-IsFine r [] q h = h
  drain-IsFine r (e ∷ es) q h = drain-IsFine r es (deliver e q) (on_deliver e q r h)

  Frame-IsFine : {s t : Ua B} → Frame s t → IsFine s → IsFine t
  Frame-IsFine {s} {t} f h =
      subst (Q t.queue.elast_seq t.queue.delivered) (sym f.rcseq)
        (subst₂ (λ o d. Q o d s.dialog.rcseq) (sym f.elast_seq) (sym f.delivered) h)

  emit_pending-IsFine : (s : Ua B) → IsFine s → IsFine (emit_pending s)
  unfolding emit_pending
  emit_pending-IsFine s h =
      if_elim (λ (t : Ua B). IsFine t) s.queue.listening
        (λ _. drain-IsFine s.dialog.rcseq s.queue.equeue (record s.queue { equeue = [] }) h)
        (λ _. h)

  finish-IsFine : (r : Next × Ua B) → IsFine r.1 → IsFine (finish r).1
  unfolding finish
  finish-IsFine (stay, s) h = emit_pending-IsFine s h
  finish-IsFine (become st n, s) h =
      emit_pending-IsFine _ (Frame-IsFine (change_state-Frame st n s) h)
  finish-IsFine (raised x, s) h = h
  finish-IsFine (raised_other m, s) h = h

  event_in-IsFine :
      (ops : BodyOps B) (env : Env) (e : Event B) (o : Option State) (s : Ua B)
      → IsFine s
      → IsFine (event_in ops env e o s).1
  unfolding event_in
  event_in-IsFine ops env e (some st) s h =
      finish-IsFine _ (Frame-IsFine (state_event-Frame ops env st e s) h)
  event_in-IsFine ops env e none s h =
      let s1 = change_state State.uac_idle none s in
      let f =
        Frame-trans (change_state-Frame State.uac_idle none s)
          (state_event-Frame ops env State.uac_idle e s1) in
      if_elim (λ (r : Next × Ua B). IsFine r.1) (opens_call e.kind)
        (λ _. finish-IsFine _ (Frame-IsFine f h)) (λ _. h)

  pub recv_event-IsFine :
      (ops : BodyOps B) (env : Env) (e : Event B) (s : Ua B)
      → IsFine s
      → IsFine (recv_event ops env e s).1
  unfolding recv_event
  recv_event-IsFine ops env e s h = event_in-IsFine ops env e s.state s h

  disconnect_ua-IsFine :
      (ops : BodyOps B) (env : Env) (rtime : ℕ) (origin : Option String) (s : Ua B)
      → IsFine s
      → IsFine (disconnect_ua ops env rtime origin s).1
  unfolding disconnect_ua post
  disconnect_ua-IsFine ops env rtime origin s h = recv_event-IsFine ops env _ _ h

  refer_result-IsFine : (r : Next × Ua B) → IsFine r.1 → IsFine (refer_result r).1
  unfolding refer_result
  refer_result-IsFine (become n c, t) h = h
  refer_result-IsFine (_, t) h = h

  refer_to_in-IsFine :
      (ops : BodyOps B) (env : Env) (req : InRequest B) (o : Option Url) (s : Ua B)
      → IsFine s
      → IsFine (refer_to_in ops env req o s).1
  unfolding refer_to_in post
  refer_to_in-IsFine ops env req none s h = h
  refer_to_in-IsFine ops env req (some to) s h =
      refer_result-IsFine _ (recv_event-IsFine ops env _ _ h)

  take_request-IsFine :
      (ops : BodyOps B) (env : Env) (st : State) (req : InRequest B) (s : Ua B)
      → IsFine s
      → IsFine (take_request ops env st req s).1
  unfolding take_request connected_refer
  take_request-IsFine ops env st req s h =
      if_elim (λ (r : Next × Ua B). IsFine r.1) (is_connected_exactly st && is_refer req.method)
        (λ _. refer_to_in-IsFine ops env req req.refer_to s h)
        (λ _. Frame-IsFine (state_request-Frame ops env st req s) h)

  verdict-IsFine : (m : Method) (r : Next × Ua B) → IsFine r.1 → IsFine (verdict m r).1
  verdict-IsFine m (stay, s) h = h
  verdict-IsFine m (_, s) h = h

  pub request_in-IsFine :
      (ops : BodyOps B) (env : Env) (req : InRequest B) (o : Option State) (s : Ua B)
      → IsFine s
      → IsFine (request_in ops env req o s).1
  unfolding request_in
  request_in-IsFine ops env req (some st) s h =
      verdict-IsFine req.method _ (finish-IsFine _ (take_request-IsFine ops env st req s h))
  request_in-IsFine ops env req none s h =
      let s1 = change_state State.uas_idle none s in
      let f = Frame-IsFine (change_state-Frame State.uas_idle none s) h in
      if_elim (λ (r : Verdict × Ua B). IsFine r.1) (is_invite req.method)
        (λ _.
          verdict-IsFine req.method _
            (finish-IsFine _ (take_request-IsFine ops env State.uas_idle req s1 f)))
        (λ _. h)

  update_ua-IsFine : (agent : Option String) (s : Ua B) → IsFine s → IsFine (update_ua agent s)
  unfolding update_ua
  update_ua-IsFine none s h = h
  update_ua-IsFine (some a) s h = h

  recv_request-IsFine :
      (ops : BodyOps B) (env : Env) (req : InRequest B) (s : Ua B)
      → IsFine s
      → IsFine (recv_request ops env req s).1
  unfolding recv_request
  recv_request-IsFine ops env req s h =
      let s0 = note_agent req s in
      let f =
        if_elim IsFine (is_some s.remote_agent) (λ _. h) (λ _. update_ua-IsFine req.agent s h) in
      if_elim (λ (r : Verdict × Ua B). IsFine r.1) (is_stale req.cseq s0.dialog.rcseq) (λ _. f)
        (λ fresh.
          request_in-IsFine ops env req s0.state (set_rcseq req.cseq s0)
            (on_request req.cseq s0.queue.elast_seq s0.queue.delivered s0.dialog.rcseq fresh f))

  try_auth-IsFine :
      (resp : Response B) (eh : List Header) (s : Ua B) → IsFine s → IsFine (try_auth resp eh s).1
  try_auth-IsFine resp eh s h = Frame-IsFine (try_auth-Frame resp eh s) h

  response_in-IsFine :
      (env : Env) (resp : Response B) (eh : List Header) (o : Option State) (s : Ua B)
      → IsFine s
      → IsFine (response_in env resp eh o s).1
  unfolding response_in
  response_in-IsFine env resp eh none s h = h
  response_in-IsFine env resp eh (some st) s h =
      let s1 = update_ua resp.agent s in
      if_elim (λ (r : Next × Ua B). IsFine r.1) (is_dead_state st) (λ _. h)
        (λ _.
          retried (try_auth resp eh s1)
            (try_auth-IsFine resp eh s1 (update_ua-IsFine resp.agent s h)))
    where
      forgotten : (t : Ua B) → IsFine t → IsFine (forget_request resp.code resp.cseq t)
      forgotten t k = if_elim IsFine (leb 200 resp.code) (λ _. k) (λ _. k)

      retried : (r : Bool × Ua B) → IsFine r.1 → IsFine (unless_retried env.now st resp r).1
      retried (true, t) k = k
      retried (false, t) k =
          unfold take_response in
          finish-IsFine _ (Frame-IsFine (state_response-Frame env.now st resp _) (forgotten t k))

  ack_in-IsFine :
      (req : InRequest B) (o : Option State) (s : Ua B) → IsFine s → IsFine (ack_in req o s).1
  unfolding ack_in
  ack_in-IsFine req none s h = h
  ack_in-IsFine req (some st) s h =
      if_elim (λ (r : Next × Ua B). IsFine r.1) (is_connected_state st)
        (λ _. finish-IsFine _ (Frame-IsFine (state_ack-Frame st req s) h)) (λ _. h)

  emit_event-IsFine : (e : Event B) (s : Ua B) → IsFine s → IsFine (emit_event e s)
  unfolding emit_event
  emit_event-IsFine e s h =
      if_elim IsFine s.queue.listening (λ _. on_deliver e s.queue s.dialog.rcseq h) (λ _. h)

  cancel_call-IsFine :
      (st : State) (rtime : ℕ) (reason : Option Header) (s : Ua B)
      → IsFine s
      → IsFine (cancel_call st rtime reason s)
  unfolding cancel_call progressing_cancel updating_cancel
  cancel_call-IsFine State.uas_trying rtime reason s h =
      emit_event-IsFine _ _ (Frame-IsFine (change_state-Frame _ _ _) h)
  cancel_call-IsFine State.uas_ringing rtime reason s h =
      emit_event-IsFine _ _ (Frame-IsFine (change_state-Frame _ _ _) h)
  cancel_call-IsFine State.uas_updating rtime reason s h = emit_event-IsFine _ _ (
      Frame-IsFine (change_state-Frame _ _ _)
        (Frame-IsFine (Frame-trans (send_request-Frame bye [] s) (cancel_credit_timer-Frame _)) h))
  cancel_call-IsFine _ rtime reason s h = h

  on_keep_alive_response-IsFine :
      (ops : BodyOps B) (env : Env) (k : ℕ) (resp : Response B) (s : Ua B)
      → IsFine s
      → IsFine (on_keep_alive_response ops env k resp s).1
  unfolding on_keep_alive_response
  on_keep_alive_response-IsFine ops env k resp s h =
      let P = λ (r : Next × Ua B). IsFine r.1 in
      if_elim P (not (s.instance_no == k)) (λ _. h)
        (λ _.
          if_elim P (challenged resp s) (λ _. h)
            (λ _.
              if_elim P (ltb resp.code 200) (λ _. h)
                (λ _.
                  if_elim P (resp.code == 408 || (resp.code == 481 || resp.code == 486))
                    (λ _.
                      if_elim P (suc s.keepalives == 1) (λ _. h)
                        (λ _. disconnect_ua-IsFine ops env env.now none _ h))
                    (λ _. h))))

  reset_credit_time-Frame :
      (rtime : ℕ) (times : Assoc ℕ (Option ℕ)) (s : Ua B)
      → Frame s (reset_credit_time rtime times s)
  unfolding reset_credit_time start_credit_timer cancel_credit_timer
  reset_credit_time-Frame rtime times s = ground arith

  -- One step keeps the order, whatever arrives.
  step-IsFine :
      (ops : BodyOps B) (env : Env) (i : Input B) (s : Ua B) → IsFine s → IsFine (step ops env i s)
  unfolding step expire no_progress_expire no_reply_expire credit_expire local_ready remote_ready
      sdp_failed go_dead go_idle on_refer_complete on_keep_alive recv_ack recv_response
  step-IsFine ops env (Input.request req) s h = recv_request-IsFine ops env req s h
  step-IsFine ops env (Input.ack req) s h = ack_in-IsFine req s.state s h
  step-IsFine ops env (Input.response resp eh) s h = response_in-IsFine env resp eh s.state s h
  step-IsFine ops env (Input.event e) s h = recv_event-IsFine ops env e s h
  step-IsFine ops env (Input.disconnect rtime o) s h = disconnect_ua-IsFine ops env rtime o s h
  step-IsFine ops env Input.expires s h = disconnect_ua-IsFine ops env env.now none _ h
  step-IsFine ops env Input.no_progress s h = disconnect_ua-IsFine ops env env.now none _ h
  step-IsFine ops env Input.no_reply s h = disconnect_ua-IsFine ops env env.now none _ h
  step-IsFine ops env (Input.credit rtime) s h = disconnect_ua-IsFine ops env rtime none _ h
  step-IsFine ops env (Input.local_sdp e) s h = recv_event-IsFine ops env e s h
  step-IsFine ops env (Input.remote_sdp e b) s h = emit_pending-IsFine _ h
  step-IsFine ops env (Input.sdp_error x) s h =
      recv_event-IsFine ops env _ _ (emit_pending-IsFine _ h)
  step-IsFine ops env (Input.cancel st rtime reason) s h = cancel_call-IsFine st rtime reason s h
  step-IsFine ops env (Input.new_credit_times rtime times) s h =
      Frame-IsFine (reset_credit_time-Frame rtime times s) h
  step-IsFine ops env Input.dead_timer s h = Frame-IsFine (change_state-Frame _ _ _) h
  step-IsFine ops env Input.idle_timer s h = Frame-IsFine (change_state-Frame _ _ _) h
  step-IsFine ops env Input.refer_complete s h = Frame-IsFine (send_request-Frame bye [] s) h
  step-IsFine ops env (Input.keep_alive k) s h =
      if_elim IsFine (s.instance_no == k) (λ _. h) (λ _. h)
  step-IsFine ops env (Input.keep_alive_response k resp) s h =
      on_keep_alive_response-IsFine ops env k resp s h

  -- Any run keeps it.
  pub run-IsFine :
      (ops : BodyOps B) (is : List (Env × Input B)) (s : Ua B) → IsFine s → IsFine (run ops is s)
  unfolding run
  run-IsFine ops [] s h = h
  run-IsFine ops ((env, i) ∷ is) s h = run-IsFine ops is _ (step-IsFine ops env i s h)
