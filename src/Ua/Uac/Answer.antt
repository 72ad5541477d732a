-- ===== src/Ua/Uac/Answer.antt =====
-- A final response to the INVITE, in the Trying and Ringing states (sippy/UacStateTrying.py, lines
-- 82 to 141, and sippy/UacStateRinging.py, lines 65 to 119).
use b2bua.Prelude.{
  ℕ, Bool, true, false, none, some, List, [], ◌∷◌, ◌&&◌, ◌||◌, ◌==◌, not, if◌then◌else◌,
}
use b2bua.Sip.Message.{bye, Url, Response}
use b2bua.Ua.Types.{
  State, num, Event, EventKind, connect, pre_connect, fail, redirect, hold_ack, Next, become,
  raised, raised_other,
}
use b2bua.Ua.State.{Ua}
use b2bua.Ua.Timers.{call, start_credit_timer}
use b2bua.Ua.Queue.{make_event, count_event, enqueue, post}
use b2bua.Ua.Requests.{is_some, send_request, update_routes, set_remote_tag}
use b2bua.Ua.Change.{notice}
use b2bua.Ua.Remote.{Taken, done, waiting, failed, broken, take_remote, stamp_end}

abbrev pub has_contact : List Url → Bool
has_contact [] = false
has_contact (_ ∷ _) = true

abbrev first_contact : List Url → List Url
first_contact [] = []
first_contact (u ∷ _) = u ∷ []

module _ {B : Type 0} where
  -- After the remote description is handed over: the event is queued, or comes later by the
  -- hook's callback; `f` is what both branches do besides.
  unfoldable pub finish_remote : Taken B → Event B → (Ua B → Ua B) → Next → Next × Ua B
  finish_remote (done s) e f next = (next, f (enqueue e s))
  finish_remote (waiting s) e f next = (next, f s)
  finish_remote (failed x s) e f next = (raised x, s)
  finish_remote (broken m s) e f next = (raised_other m, s)

  -- A 2xx without a To tag: fail the call and send BYE.
  unfoldable pub answered_tagless : ℕ → Response B → Ua B → Next × Ua B
  answered_tagless now resp s =
      let s1 = post (fail (some (502, "Bad Gateway", none))) resp.rtime s.origin none s in
      let s2 = send_request bye [] s1 in
      (
        become State.failed (notice s.cbs.fail resp.rtime s.origin (some 502)),
        stamp_end now resp.rtime s2,
      )

  -- The call is connected.
  unfoldable pub answered_early : Response B → Ua B → Next × Ua B
  answered_early resp s =
      let e =
        make_event (connect (num resp.code) resp.phrase resp.body) resp.rtime s.origin none s in
      let s1 = count_event (record s { media = record s.media { late = false } }) in
      let s2 = start_credit_timer resp.rtime s1 in
      let s3 = record s2 { stamps = record s2.stamps { connect = some resp.rtime } } in
      finish_remote (take_remote resp.body e s3) e (λ t. t)
        (become State.connected (notice s.cbs.conn resp.rtime s.origin none))

  -- The offer is in the answer: the ACK is held back until the other leg has answered it.
  unfoldable pub answered_late : Response B → Ua B → Next × Ua B
  answered_late resp s =
      let e =
        make_event (pre_connect (num resp.code) resp.phrase resp.body) resp.rtime s.origin none s in
      let s1 = call (hold_ack resp.cseq) (count_event s) in
      let s2 = record s1 { pending_tr = some resp.cseq } in
      finish_remote (take_remote resp.body e s2) e (λ t. t) (become State.connected none)

  unfoldable pub answered : ℕ → Response B → Ua B → Next × Ua B
  unfolding answered_tagless answered_early answered_late
  answered now resp s =
      let s1 = update_routes resp s in
      elim resp.to_tag [
        | none ↦ answered_tagless now resp s1
        | some tag ↦
            let s2 = set_remote_tag (some tag) s1 in
            if not s2.media.late || not (is_some resp.body)
            then answered_early resp s2
            else answered_late resp s2
      ]

  -- What a negative final response becomes.
  unfoldable pub refusal : Response B → EventKind B
  refusal resp =
      if (resp.code == 301 || resp.code == 302) && has_contact resp.contacts
      then redirect (some (resp.code, resp.phrase, resp.body, some (first_contact resp.contacts)))
      else if resp.code == 300 && has_contact resp.contacts
      then redirect (some (resp.code, resp.phrase, resp.body, some resp.contacts))
      else fail (some (resp.code, resp.phrase, resp.body))

  -- The event is queued and the call has failed.
  unfoldable pub refused : ℕ → Response B → Event B → Ua B → Next × Ua B
  refused now resp e s = (
    become State.failed (notice s.cbs.fail resp.rtime s.origin (some resp.code)),
    stamp_end now resp.rtime (enqueue e (count_event s)),
  )
