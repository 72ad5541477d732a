-- ===== src/Ua/Laws/Graph/Uac.antt =====
-- The states that the calling side goes through.
use b2bua.Prelude.{
  ℕ, ◌≡◌, ◌==◌, ◌&&◌, ltb, leb, refl, inl, inr, true, some, Option-cases, arith, if_elim,
}
use b2bua.Sip.Message.{Response}
use b2bua.Ua.Types.{State, TryData, Event, Next, stay, become, raised, raised_other}
use b2bua.Ua.State.{Ua}
use b2bua.Ua.Remote.{Taken, done, waiting, failed, broken}
use b2bua.Ua.Local.{BodyOps, Env}
use b2bua.Ua.Timers.{cancel_expires}
use b2bua.Ua.Requests.{update_routes, set_remote_tag}
use b2bua.Ua.Uac.Idle.{idle_try, place_call, idle_give_up}
use b2bua.Ua.Uac.Answer.{answered, answered_tagless, answered_early, answered_late, refused}
use b2bua.Ua.Uac.Trying.{
  on_reply, on_progress, trying_100, trying_1xx, trying_refused, trying_response, sdp_refused,
  catch_sdp, trying_give_up,
}
use b2bua.Ua.Uac.Ringing.{ringing_response, ringing_give_up}
use b2bua.Ua.Laws.Graph.{edge, Follows, finish_remote-Follows, unless_delayed-Follows}
use b2bua.Ua.Uac.Ringing.{ringing_1xx}
use b2bua.Ua.Uac.Cancelling.{cancelling_response}
use b2bua.Ua.Uac.Updating.{
  update_refused, update_failed, updated, updating_response, updating_give_up,
}

-- Trying and Ringing share the handling of final responses.
abbrev AnswersAs : State → Type 0
AnswersAs st = (edge st State.connected ≡ true) × (edge st State.failed ≡ true)

module _ {B : Type 0} where
  place_call-Follows :
      (env : Env) (e : Event B) (d : TryData B) (s : Ua B)
      → Follows State.uac_idle (place_call env e d s).0
  unfolding place_call
  place_call-Follows env e d s = ground arith

  pub idle_try-Follows :
      (ops : BodyOps B) (env : Env) (e : Event B) (d : TryData B) (s : Ua B)
      → Follows State.uac_idle (idle_try ops env e d s).0
  unfolding idle_try
  idle_try-Follows ops env e d s =
      unless_delayed-Follows State.uac_idle ops d.body e _ _ (place_call-Follows env e d _)

  answered_tagless-Follows :
      (st : State) (now : ℕ) (r : Response B) (s : Ua B)
      → AnswersAs st
      → Follows st (answered_tagless now r s).0
  unfolding answered_tagless
  answered_tagless-Follows st now r s h = h.1

  answered_early-Follows :
      (st : State) (r : Response B) (s : Ua B) → AnswersAs st → Follows st (answered_early r s).0
  unfolding answered_early
  answered_early-Follows st r s h = finish_remote-Follows st _ _ _ _ h.0

  answered_late-Follows :
      (st : State) (r : Response B) (s : Ua B) → AnswersAs st → Follows st (answered_late r s).0
  unfolding answered_late
  answered_late-Follows st r s h = finish_remote-Follows st _ _ _ _ h.0

  refused-Follows :
      (st : State) (now : ℕ) (r : Response B) (e : Event B) (s : Ua B)
      → AnswersAs st
      → Follows st (refused now r e s).0
  unfolding refused
  refused-Follows st now r e s h = h.1

  answered-Follows :
      (st : State) (now : ℕ) (r : Response B) (s : Ua B)
      → AnswersAs st
      → Follows st (answered now r s).0
  unfolding answered
  answered-Follows st now r s h = elim (Option-cases r.to_tag) [
    | inl e ↦ ground (arith, e, answered_tagless-Follows st now r (update_routes r s) h)
    | inr (t, e) ↦
        let s2 = set_remote_tag (some t) (update_routes r s) in
        ground (arith, e, answered_early-Follows st r s2 h, answered_late-Follows st r s2 h)
  ]

  pub idle_give_up-Follows :
      (now : ℕ) (e : Event B) (s : Ua B) → Follows State.uac_idle (idle_give_up now e s).0
  unfolding idle_give_up
  idle_give_up-Follows now e s = refl

  trying_100-Follows : (r : Response B) (s : Ua B) → Follows State.uac_trying (trying_100 r s).0
  unfolding trying_100
  trying_100-Follows r s = tt

  trying_1xx-Follows : (r : Response B) (s : Ua B) → Follows State.uac_trying (trying_1xx r s).0
  unfolding trying_1xx
  trying_1xx-Follows r s = finish_remote-Follows State.uac_trying _ _ _ _ refl

  trying_refused-Follows :
      (now : ℕ) (r : Response B) (s : Ua B) → Follows State.uac_trying (trying_refused now r s).0
  unfolding trying_refused refused
  trying_refused-Follows now r s = ground arith

  pub trying_response-Follows :
      (now : ℕ) (r : Response B) (s : Ua B) → Follows State.uac_trying (trying_response now r s).0
  unfolding trying_response
  trying_response-Follows now r s =
      let P = λ (x : Next × Ua B). Follows State.uac_trying x.0 in
      let s1 = on_reply r.code (record s { last_scode = r.code }) in
      let s2 = on_progress r.code s1 in
      let s3 = cancel_expires s2 in
      if_elim P (r.code == 100) (λ _. trying_100-Follows r s1)
        (λ _.
          if_elim P (ltb r.code 200) (λ _. trying_1xx-Follows r s2)
            (λ _.
              if_elim P (leb 200 r.code && ltb r.code 300)
                (λ _. answered-Follows State.uac_trying now r s3 (refl, refl))
                (λ _. trying_refused-Follows now r s3)))

  ringing_1xx-Follows : (r : Response B) (s : Ua B) → Follows State.uac_ringing (ringing_1xx r s).0
  unfolding ringing_1xx
  ringing_1xx-Follows r s = finish_remote-Follows State.uac_ringing _ _ _ _ tt

  pub ringing_response-Follows :
      (now : ℕ) (r : Response B) (s : Ua B) → Follows State.uac_ringing (ringing_response now r s).0
  unfolding ringing_response
  ringing_response-Follows now r s =
      let P = λ (x : Next × Ua B). Follows State.uac_ringing x.0 in
      if_elim P (ltb r.code 200) (λ _. ringing_1xx-Follows r s)
        (λ _.
          if_elim P (leb 200 r.code && ltb r.code 300)
            (λ _. answered-Follows State.uac_ringing now r (cancel_expires s) (refl, refl))
            (λ _. refused-Follows State.uac_ringing now r _ _ (refl, refl)))

  pub catch_sdp-Follows :
      (st : State) (r : Response B) (x : Next × Ua B)
      → edge st State.failed ≡ true
      → Follows st x.0
      → Follows st (catch_sdp r x).0
  unfolding catch_sdp sdp_refused
  catch_sdp-Follows st r (raised x, s) f h = f
  catch_sdp-Follows st r (stay, s) f h = h
  catch_sdp-Follows st r (become n c, s) f h = h
  catch_sdp-Follows st r (raised_other m, s) f h = h

  pub trying_give_up-Follows :
      (now : ℕ) (e : Event B) (s : Ua B) → Follows State.uac_trying (trying_give_up now e s).0
  unfolding trying_give_up
  trying_give_up-Follows now e s = refl

  pub ringing_give_up-Follows :
      (now : ℕ) (e : Event B) (s : Ua B) → Follows State.uac_ringing (ringing_give_up now e s).0
  unfolding ringing_give_up
  ringing_give_up-Follows now e s = refl

  pub cancelling_response-Follows :
      (r : Response B) (s : Ua B) → Follows State.uac_cancelling (cancelling_response r s).0
  unfolding cancelling_response
  cancelling_response-Follows r s = ground arith

  update_refused-Follows :
      (r : Response B) (s : Ua B) → Follows State.uac_updating (update_refused r s).0
  unfolding update_refused update_failed
  update_refused-Follows r s = ground arith

  updated-Follows :
      (r : Response B) (e : Event B) (t : Taken B) → Follows State.uac_updating (updated r e t).0
  unfolding updated update_failed
  updated-Follows r e (done s) = refl
  updated-Follows r e (waiting s) = refl
  updated-Follows r e (failed x s) = refl
  updated-Follows r e (broken m s) = refl

  pub updating_response-Follows :
      (r : Response B) (s : Ua B) → Follows State.uac_updating (updating_response r s).0
  unfolding updating_response
  updating_response-Follows r s =
      let P = λ (x : Next × Ua B). Follows State.uac_updating x.0 in
      if_elim P (ltb r.code 200) (λ _. tt)
        (λ _.
          if_elim P (leb 200 r.code && ltb r.code 300) (λ _. updated-Follows r _ _)
            (λ _. update_refused-Follows r s))

  pub updating_give_up-Follows :
      (e : Event B) (s : Ua B) → Follows State.uac_updating (updating_give_up e s).0
  unfolding updating_give_up
  updating_give_up-Follows e s = refl
