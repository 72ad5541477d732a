-- ===== src/Ua/Laws/Frame/Uac.antt =====
-- The handlers of an outgoing call leave the frame alone.
use b2bua.Prelude.{ℕ, [], true, refl, Option, none, some, if◌then◌else◌, arith}
use b2bua.Sip.Message.{invite, Header, Request, Response, SdpError}
use b2bua.Ua.Types.{
  State, num, connect, try_call, fail, redirect, disconnect, Event, EventKind, Next, stay, become,
  raised, raised_other, TryData, get_extra_headers,
}
use b2bua.Ua.State.{Ua}
use b2bua.Ua.Timers.{
  cancel_credit_timer, arm_no_reply, arm_expires, arm_no_progress, cancel_expires,
  cancel_no_progress, cancel_no_reply, start_credit_timer,
}
use b2bua.Ua.Queue.{post, count_event, make_event}
use b2bua.Ua.Requests.{is_some, send_request, set_remote_tag, update_routes, gen_request, start_uac}
use b2bua.Ua.Remote.{take_remote, Taken, done, waiting, failed, broken, stamp_end}
use b2bua.Ua.Local.{BodyOps, Env}
use b2bua.Ua.Uac.Answer.{
  answered_tagless, answered_early, answered_late, answered, refused, refusal,
}
use b2bua.Ua.Uac.Trying.{
  on_reply, on_progress, trying_100, trying_1xx, trying_refused, trying_response, sdp_refused,
  catch_sdp, trying_give_up,
}
use b2bua.Ua.Uac.Ringing.{ringing_1xx, ringing_response, ringing_give_up}
use b2bua.Ua.Uac.Cancelling.{cancelling_response}
use b2bua.Ua.Uac.Updating.{
  update_failed, updated, update_refused, updating_response, updating_give_up,
}
use b2bua.Ua.Uac.Idle.{
  place_call, idle_try, idle_give_up, open_dialog, add_auth, arm_first, trim_limits, stamp_setup,
}
use b2bua.Ua.Dispatch.{state_response, idle_event, trying_event, ringing_event, uac_updating_event}
use b2bua.Ua.Laws.Frame.Parts.{
  gen_request-Frame, Frame, Frame-refl, Frame-trans, cancel_expires-Frame, update_routes-Frame,
  finish_take-Frame, then_notify-Frame, delayed-Frame, take_remote-Frame, taken_state,
}

module _ {B : Type 0} where
  on_reply-Frame : (code : ℕ) (s : Ua B) → Frame s (on_reply code s)
  unfolding on_reply cancel_no_reply arm_expires arm_no_progress
  on_reply-Frame code s = ground arith

  on_progress-Frame : (code : ℕ) (s : Ua B) → Frame s (on_progress code s)
  unfolding on_progress cancel_no_progress arm_expires
  on_progress-Frame code s = ground arith

  answered_tagless-Frame :
      (now : ℕ) (resp : Response B) (s : Ua B) → Frame s (answered_tagless now resp s).1
  unfolding answered_tagless post stamp_end send_request
  answered_tagless-Frame now resp s = ground arith

  answered_early-Frame : (resp : Response B) (s : Ua B) → Frame s (answered_early resp s).1
  unfolding answered_early start_credit_timer
  answered_early-Frame resp s = finish_take-Frame _ _ _ _ _ _ Frame-refl (ground arith)

  answered_late-Frame : (resp : Response B) (s : Ua B) → Frame s (answered_late resp s).1
  unfolding answered_late
  answered_late-Frame resp s = finish_take-Frame _ _ _ _ _ _ Frame-refl (ground arith)

  refused-Frame :
      (now : ℕ) (resp : Response B) (e : Event B) (s : Ua B) → Frame s (refused now resp e s).1
  unfolding refused stamp_end
  refused-Frame now resp e s = ground arith

  trying_refused-Frame :
      (now : ℕ) (resp : Response B) (s : Ua B) → Frame s (trying_refused now resp s).1
  unfolding trying_refused refused stamp_end
  trying_refused-Frame now resp s = ground arith

  trying_100-Frame : (resp : Response B) (s : Ua B) → Frame s (trying_100 resp s).1
  unfolding trying_100 post
  trying_100-Frame resp s = ground arith

  sdp_refused-Frame :
      (x : SdpError) (resp : Response B) (s : Ua B) → Frame s (sdp_refused x resp s).1
  unfolding sdp_refused send_request
  sdp_refused-Frame x resp s = ground arith

  catch_sdp-Frame :
      (resp : Response B) (s : Ua B) (r : Next × Ua B) → Frame s r.1 → Frame s (catch_sdp resp r).1
  unfolding catch_sdp
  catch_sdp-Frame resp s (raised x, t) h = Frame-trans h (sdp_refused-Frame x resp t)
  catch_sdp-Frame resp s (stay, t) h = h
  catch_sdp-Frame resp s (become n c, t) h = h
  catch_sdp-Frame resp s (raised_other m, t) h = h

  trying_give_up-Frame : (now : ℕ) (e : Event B) (s : Ua B) → Frame s (trying_give_up now e s).1
  unfolding trying_give_up cancel_expires cancel_no_progress cancel_no_reply stamp_end
  trying_give_up-Frame now e s = ground arith

  ringing_give_up-Frame : (now : ℕ) (e : Event B) (s : Ua B) → Frame s (ringing_give_up now e s).1
  unfolding ringing_give_up cancel_expires stamp_end
  ringing_give_up-Frame now e s = ground arith

  cancelling_response-Frame :
      (resp : Response B) (s : Ua B) → Frame s (cancelling_response resp s).1
  unfolding cancelling_response send_request update_routes
  cancelling_response-Frame resp s = ground arith

  update_failed-Frame :
      (e : Event B) (b d : Option Header) (s : Ua B) → Frame s (update_failed e b d s).1
  unfolding update_failed send_request cancel_credit_timer post
  update_failed-Frame e b d s = ground arith

  update_refused-Frame : (resp : Response B) (s : Ua B) → Frame s (update_refused resp s).1
  unfolding update_refused update_failed send_request cancel_credit_timer post
  update_refused-Frame resp s = ground arith

  updating_give_up-Frame : (e : Event B) (s : Ua B) → Frame s (updating_give_up e s).1
  unfolding updating_give_up send_request cancel_credit_timer
  updating_give_up-Frame e s = ground arith

  idle_give_up-Frame : (now : ℕ) (e : Event B) (s : Ua B) → Frame s (idle_give_up now e s).1
  unfolding idle_give_up stamp_end
  idle_give_up-Frame now e s = ground arith

  add_auth-Frame : (h : Option Header) (req : Request B) (s : Ua B) → Frame s (add_auth h req s).1
  unfolding add_auth
  add_auth-Frame none req s = Frame-refl s
  add_auth-Frame (some h) req s = ground arith

  then_arm_first-Frame : (rtime : ℕ) (s t : Ua B) → Frame s t → Frame s (arm_first rtime t)
  unfolding arm_first arm_no_reply arm_no_progress arm_expires
  then_arm_first-Frame rtime s t h = ground arith

  open_dialog-Frame : (env : Env) (d : TryData B) (s : Ua B) → Frame s (open_dialog env d s)
  unfolding open_dialog
  open_dialog-Frame env d s = record {
    delivered = refl;
    elast_seq = refl;
    rcseq = refl;
    next_seq = omega arith;
    config = refl;
  }

  place_call-Frame :
      (env : Env) (e : Event B) (d : TryData B) (s : Ua B) → Frame s (place_call env e d s).1
  unfolding place_call start_uac
  place_call-Frame env e d s =
      let eh = get_extra_headers e in
      let s1 = open_dialog env d s in
      let (req, s2) = gen_request invite d.body [] eh e.max_forwards s1 in
      let (req', s3) = add_auth d.auth req s2 in
      let s4 = start_uac req' eh s3 in
      then_arm_first-Frame e.rtime s (record s4 { limits = trim_limits e.rtime s4.limits })
        (Frame-trans {t = s3}
          (Frame-trans (open_dialog-Frame env d s) (
            Frame-trans (gen_request-Frame invite d.body [] eh e.max_forwards s1)
              (add_auth-Frame d.auth req s2)))
          (ground arith))

  trying_1xx-Frame : (resp : Response B) (s : Ua B) → Frame s (trying_1xx resp s).1
  unfolding trying_1xx
  trying_1xx-Frame resp s = finish_take-Frame _ _ _ _ _ _ (λ u. ground arith) (ground arith)

  ringing_1xx-Frame : (resp : Response B) (s : Ua B) → Frame s (ringing_1xx resp s).1
  unfolding ringing_1xx
  ringing_1xx-Frame resp s =
      finish_take-Frame _ _ _ _ _ _ Frame-refl (then_notify-Frame _ _ _ (ground arith))

  updated-Frame :
      (resp : Response B) (e : Event B) (k : Taken B) (s : Ua B)
      → Frame s (taken_state k)
      → Frame s (updated resp e k).1
  unfolding updated update_failed send_request cancel_credit_timer post
  updated-Frame resp e (done t) s h = ground arith
  updated-Frame resp e (waiting t) s h = h
  updated-Frame resp e (failed x t) s h = ground arith
  updated-Frame resp e (broken m t) s h = ground arith

  answered-Frame : (now : ℕ) (resp : Response B) (s : Ua B) → Frame s (answered now resp s).1
  unfolding answered
  answered-Frame now resp s =
      let s1 = update_routes resp s in
      ground (
        arith,
        update_routes-Frame resp s,
        answered_tagless-Frame now resp s1,
        answered_early-Frame resp (set_remote_tag resp.to_tag s1),
        answered_late-Frame resp (set_remote_tag resp.to_tag s1),
      )

  trying_response-Frame :
      (now : ℕ) (resp : Response B) (s : Ua B) → Frame s (trying_response now resp s).1
  unfolding trying_response
  trying_response-Frame now resp s =
      let s0 = record s { last_scode = resp.code } in
      let s1 = on_reply resp.code s0 in
      let s2 = on_progress resp.code s1 in
      let s3 = cancel_expires s2 in
      ground (
        arith,
        on_reply-Frame resp.code s0,
        trying_100-Frame resp s1,
        on_progress-Frame resp.code s1,
        trying_1xx-Frame resp s2,
        cancel_expires-Frame s2,
        answered-Frame now resp s3,
        trying_refused-Frame now resp s3,
      )

  ringing_response-Frame :
      (now : ℕ) (resp : Response B) (s : Ua B) → Frame s (ringing_response now resp s).1
  unfolding ringing_response
  ringing_response-Frame now resp s =
      let s1 = cancel_expires s in
      ground (
        arith,
        ringing_1xx-Frame resp s,
        cancel_expires-Frame s,
        answered-Frame now resp s1,
        refused-Frame now resp (make_event (refusal resp) resp.rtime s1.origin resp.reason s1) s1,
      )

  updating_response-Frame : (resp : Response B) (s : Ua B) → Frame s (updating_response resp s).1
  unfolding updating_response post
  updating_response-Frame resp s =
      let e =
        make_event (connect (num resp.code) resp.phrase resp.body) resp.rtime s.origin none s in
      let k = take_remote resp.body e (count_event s) in
      let counted : Frame s (count_event s) = ground arith in
      ground (
        arith,
        update_refused-Frame resp s,
        updated-Frame resp e k s
            (Frame-trans counted (take_remote-Frame resp.body e (count_event s))),
      )

  idle_try-Frame :
      (ops : BodyOps B) (env : Env) (e : Event B) (d : TryData B) (s : Ua B)
      → Frame s (idle_try ops env e d s).1
  unfolding idle_try
  idle_try-Frame ops env e d s =
      let s1 = record (stamp_setup e.rtime s) { origin = some "callee" } in
      let s2 =
        if is_some d.body then s1 else record s1 { media = record s1.media { late = true } } in
      delayed-Frame ops d.body e _ s s1 (ground arith)
        (Frame-trans {t = s2} (ground arith) (place_call-Frame env e d s2))

  pub state_response-Frame :
      (now : ℕ) (st : State) (resp : Response B) (s : Ua B)
      → Frame s (state_response now st resp s).1
  unfolding state_response
  state_response-Frame now State.uac_trying resp s =
      catch_sdp-Frame resp s _ (trying_response-Frame now resp s)
  state_response-Frame now State.uac_ringing resp s =
      catch_sdp-Frame resp s _ (ringing_response-Frame now resp s)
  state_response-Frame now State.uac_cancelling resp s = cancelling_response-Frame resp s
  state_response-Frame now State.uac_updating resp s = updating_response-Frame resp s
  state_response-Frame now _ resp s = Frame-refl s

  pub idle_event-Frame :
      (ops : BodyOps B) (env : Env) (k : EventKind B) (e : Event B) (s : Ua B)
      → Frame s (idle_event ops env k e s).1
  unfolding idle_event
  idle_event-Frame ops env (try_call d) e s = idle_try-Frame ops env e d s
  idle_event-Frame ops env (fail _) e s = idle_give_up-Frame env.now e s
  idle_event-Frame ops env (redirect _) e s = idle_give_up-Frame env.now e s
  idle_event-Frame ops env (disconnect _) e s = idle_give_up-Frame env.now e s
  idle_event-Frame ops env _ e s = Frame-refl s

  pub trying_event-Frame :
      (now : ℕ) (k : EventKind B) (e : Event B) (s : Ua B) → Frame s (trying_event now k e s).1
  unfolding trying_event
  trying_event-Frame now (fail _) e s = trying_give_up-Frame now e s
  trying_event-Frame now (redirect _) e s = trying_give_up-Frame now e s
  trying_event-Frame now (disconnect _) e s = trying_give_up-Frame now e s
  trying_event-Frame now _ e s = Frame-refl s

  pub ringing_event-Frame :
      (now : ℕ) (k : EventKind B) (e : Event B) (s : Ua B) → Frame s (ringing_event now k e s).1
  unfolding ringing_event
  ringing_event-Frame now (fail _) e s = ringing_give_up-Frame now e s
  ringing_event-Frame now (redirect _) e s = ringing_give_up-Frame now e s
  ringing_event-Frame now (disconnect _) e s = ringing_give_up-Frame now e s
  ringing_event-Frame now _ e s = Frame-refl s

  pub uac_updating_event-Frame :
      (k : EventKind B) (e : Event B) (s : Ua B) → Frame s (uac_updating_event k e s).1
  unfolding uac_updating_event
  uac_updating_event-Frame (fail _) e s = updating_give_up-Frame e s
  uac_updating_event-Frame (redirect _) e s = updating_give_up-Frame e s
  uac_updating_event-Frame (disconnect _) e s = updating_give_up-Frame e s
  uac_updating_event-Frame _ e s = Frame-refl s
