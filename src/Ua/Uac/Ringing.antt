-- ===== src/Ua/Uac/Ringing.antt =====
-- sippy/UacStateRinging.py.
use b2bua.Prelude.{ℕ, none, some, ◌&&◌, ltb, leb, if◌then◌else◌}
use b2bua.Sip.Message.{Response}
use b2bua.Ua.Types.{State, Event, ring, get_extra_headers, cancel_transaction, Next, stay, become}
use b2bua.Ua.State.{Ua}
use b2bua.Ua.Timers.{call, cancel_expires}
use b2bua.Ua.Queue.{make_event, count_event}
use b2bua.Ua.Change.{notice, notify_all}
use b2bua.Ua.Remote.{take_remote, stamp_end}
use b2bua.Ua.Uac.Answer.{finish_remote, answered, refusal, refused}

module _ {B : Type 0} where
  abbrev stamp_first_1xx : ℕ → Ua B → Ua B
  stamp_first_1xx rtime s = elim s.stamps.p1xx [
    | none ↦ record s { stamps = record s.stamps { p1xx = some rtime } }
    | some _ ↦ s
  ]

  unfoldable pub ringing_1xx : Response B → Ua B → Next × Ua B
  ringing_1xx resp s =
      let s1 = record (stamp_first_1xx resp.rtime s) { last_scode = resp.code } in
      let e =
        make_event (ring (some (resp.code, resp.phrase, resp.body))) resp.rtime s.origin none s in
      let s2 =
        notify_all (notice s.cbs.ring resp.rtime s.origin (some resp.code)) (count_event s1) in
      finish_remote (take_remote resp.body e s2) e (λ t. t) stay

  -- _recvResponse.
  unfoldable pub ringing_response : ℕ → Response B → Ua B → Next × Ua B
  unfolding ringing_1xx
  ringing_response now resp s =
      if ltb resp.code 200
      then ringing_1xx resp s
      else (let s1 = cancel_expires s in
          if leb 200 resp.code && ltb resp.code 300
          then answered now resp s1
          else refused now resp (make_event (refusal resp) resp.rtime s1.origin resp.reason s1) s1)

  unfoldable pub ringing_give_up : ℕ → Event B → Ua B → Next × Ua B
  ringing_give_up now e s =
      let s1 = call (cancel_transaction s.tr (get_extra_headers e)) s in
      (
        become State.uac_cancelling (notice s.cbs.disc e.rtime e.origin (some s.last_scode)),
        stamp_end now e.rtime (cancel_expires s1),
      )
