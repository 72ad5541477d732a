-- ===== src/Ua/Uac/Trying.antt =====
-- sippy/UacStateTrying.py.
use b2bua.Prelude.{
  ℕ, Bool, true, false, none, some, List, [], ◌∷◌, map, ◌&&◌, ◌==◌, not, ltb, leb, if◌then◌else◌,
}
use b2bua.Sip.Message.{bye, Header, authorization, Challenge, Response, SdpError, get_reason}
use b2bua.Ua.Types.{
  State, Event, ring, fail, get_extra_headers, cancel_transaction, Next, stay, become, raised,
  raised_other,
}
use b2bua.Ua.State.{Ua}
use b2bua.Ua.Timers.{
  call, arm_expires, arm_no_progress, cancel_expires, cancel_no_progress, cancel_no_reply,
}
use b2bua.Ua.Queue.{make_event, count_event, enqueue, post}
use b2bua.Ua.Requests.{is_some, send_request}
use b2bua.Ua.Change.{notice}
use b2bua.Ua.Remote.{take_remote, stamp_end}
use b2bua.Ua.Uac.Answer.{finish_remote, answered, refusal, refused}

-- `[x.getCopy() for x in resp.getHFs(...)]`; the qop is chosen by who answers it.
abbrev challenge_headers : List Challenge → List Header
challenge_headers = map (λ c. authorization c none)

abbrev is_empty {ℓ} : {A : Type ℓ} → List A → Bool
is_empty [] = true
is_empty (_ ∷ _) = false

module _ {B : Type 0} where
  -- `if self.ua.no_reply_timer != None: ...`: the first response ends the wait for a reply.
  unfoldable pub on_reply : ℕ → Ua B → Ua B
  on_reply code s = elim s.timers.no_reply [
    | none ↦ s
    | some _ ↦
        let s1 = cancel_no_reply s in
        if code == 100 && is_some s1.limits.no_progress_time
        then arm_no_progress s1
        else if ltb code 200 && is_some s1.limits.expire_time
        then arm_expires s1
        else s1
  ]

  -- `if self.ua.no_progress_timer != None: ...`: a response above 100 is progress.
  unfoldable pub on_progress : ℕ → Ua B → Ua B
  on_progress code s = elim s.timers.no_progress [
    | none ↦ s
    | some _ ↦
        let s1 = cancel_no_progress s in
        if ltb code 200 && is_some s1.limits.expire_time then arm_expires s1 else s1
  ]

  abbrev stamp_100 : ℕ → Ua B → Ua B
  stamp_100 rtime s = elim s.stamps.p100 [
    | none ↦ record s { stamps = record s.stamps { p100 = some rtime } }
    | some _ ↦ s
  ]

  abbrev stamp_1xx : ℕ → Ua B → Ua B
  stamp_1xx rtime s = record s { stamps = record s.stamps { p1xx = some rtime } }

  unfoldable pub trying_100 : Response B → Ua B → Next × Ua B
  trying_100 resp s = (
    stay,
    post (ring (some (resp.code, resp.phrase, resp.body))) resp.rtime s.origin none
        (stamp_100 resp.rtime s),
  )

  unfoldable pub trying_1xx : Response B → Ua B → Next × Ua B
  trying_1xx resp s =
      let e =
        make_event (ring (some (resp.code, resp.phrase, resp.body))) resp.rtime s.origin none s in
      finish_remote (take_remote resp.body e (count_event s)) e (stamp_1xx resp.rtime)
        (become State.uac_ringing (notice s.cbs.ring resp.rtime s.origin (some resp.code)))

  -- A challenge that the UA does not answer itself is passed on with the event. For a 407 the code
  -- iterates over the one header that `getHF` returns, and raises TypeError.
  unfoldable pub trying_refused : ℕ → Response B → Ua B → Next × Ua B
  trying_refused now resp s =
      let e = make_event (refusal resp) resp.rtime s.origin resp.reason s in
      if not s.config.pass_auth
      then refused now resp e s
      else if resp.code == 401 && not (is_empty resp.www)
      then refused now resp (record e { challenges = challenge_headers resp.www }) s
      else if resp.code == 407 && not (is_empty resp.proxy)
      then (raised_other "'SipHeader' object is not iterable", count_event s)
      else refused now resp e s

  -- _recvResponse.
  unfoldable pub trying_response : ℕ → Response B → Ua B → Next × Ua B
  unfolding trying_100 trying_1xx trying_refused
  trying_response now resp s =
      let s1 = on_reply resp.code (record s { last_scode = resp.code }) in
      if resp.code == 100
      then trying_100 resp s1
      else (let s2 = on_progress resp.code s1 in
          if ltb resp.code 200
          then trying_1xx resp s2
          else (let s3 = cancel_expires s2 in
              if leb 200 resp.code && ltb resp.code 300
              then answered now resp s3
              else trying_refused now resp s3))

  -- The except branch of recvResponse.
  unfoldable pub sdp_refused : SdpError → Response B → Ua B → Next × Ua B
  sdp_refused x resp s =
      let e = make_event (fail (some (x.code, x.msg, none))) resp.rtime s.origin (get_reason x) s in
      let s1 = count_event s in
      let s2 =
        if ltb resp.code 200
        then call (cancel_transaction s1.tr (get_extra_headers e)) s1
        else if leb 200 resp.code && ltb resp.code 300
        then send_request bye [] s1
        else s1 in
      let s3 = enqueue e s2 in
      (
        become State.failed (notice s.cbs.fail resp.rtime s.origin (some x.code)),
        record s3 { stamps = record s3.stamps { disconnect = some resp.rtime } },
      )

  -- recvResponse: `try: return self._recvResponse(resp, tr)`.
  unfoldable pub catch_sdp : Response B → Next × Ua B → Next × Ua B
  catch_sdp resp (raised x, s) = sdp_refused x resp s
  catch_sdp resp (stay, s) = (stay, s)
  catch_sdp resp (become n c, s) = (become n c, s)
  catch_sdp resp (raised_other m, s) = (raised_other m, s)

  -- Fail, Redirect and Disconnect alike: give up the INVITE.
  unfoldable pub trying_give_up : ℕ → Event B → Ua B → Next × Ua B
  trying_give_up now e s =
      let s1 = call (cancel_transaction s.tr (get_extra_headers e)) s in
      let s2 = cancel_no_reply (cancel_no_progress (cancel_expires s1)) in
      (
        become State.uac_cancelling (notice s.cbs.disc e.rtime e.origin (some s.last_scode)),
        stamp_end now e.rtime s2,
      )
