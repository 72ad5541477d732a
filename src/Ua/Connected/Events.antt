-- ===== src/Ua/Connected/Events.antt =====
-- sippy/UaStateConnected.py: events received while the call is up.
use b2bua.Prelude.{
  ℕ, ◌-◌, String, Bool, false, Option, none, some, List, [], ◌∷◌, ◌++◌, ◌==◌, str_eq, if◌then◌else◌,
}
use b2bua.Sip.Message.{
  bye, invite, refer, info, Url, Header, refer_to, also, referred_by, Referred, address, status,
  get_reason,
}
use b2bua.Ua.Types.{
  State, num, Event, connect, fail, get_extra_headers, start, nobody, to_refer, send_ack,
  update_local_sdp, LocalOutcome, Next, stay, become, raised_other,
}
use b2bua.Ua.State.{Ua}
use b2bua.Ua.Timers.{call, cancel_expires, cancel_credit_timer, start_credit_timer}
use b2bua.Ua.Queue.{make_event, count_event, enqueue, post}
use b2bua.Ua.Requests.{gen_request, start_uac, send_request}
use b2bua.Ua.Change.{notice, notify_all}
use b2bua.Ua.Local.{BodyOps, delay_local, unless_delayed}
use b2bua.Ua.Uas.Progressing.{set_lsdp, stamp_disconnect}

abbrev less_one : Option ℕ → Option ℕ
less_one none = none
less_one (some n) = some (n - 1)

abbrev no_hops : Option ℕ → Bool
no_hops none = false
no_hops (some n) = n == 0

abbrev pub refer_address : Option Url → Option Referred
refer_address none = none
refer_address (some u) = some (address u)

module _ {B : Type 0} where
  abbrev lurl : Ua B → List Header
  lurl s = elim s.dialog.luri [ none ↦ [] | some p ↦ referred_by p.url ∷ [] ]

  -- REFER to where the event points, or BYE.
  unfoldable pub send_off : List Header → Option Referred → Ua B → Ua B
  unfolding gen_request send_request
  send_off eh none s = send_request bye eh s
  send_off eh (some to) s =
      if s.config.use_refer
      then (let (req, s1) = gen_request refer none [] eh none s in
          let req' = record req { headers = req.headers ++ (refer_to to ∷ lurl s) } in
          call (start req' to_refer []) s1)
      else (let (req, s1) = gen_request bye none [] eh none s in
          call (start (record req { headers = req.headers ++ also to ∷ [] }) nobody []) s1)

  -- _recvEventDisconnectFailRedirect.
  unfoldable pub connected_give_up : Event B → Option Referred → Ua B → Next × Ua B
  unfolding send_off
  connected_give_up e redirect s =
      let s1 = cancel_credit_timer (send_off (get_extra_headers e) redirect s) in
      (
        become State.disconnected (notice s.cbs.disc e.rtime e.origin none),
        stamp_disconnect e.rtime s1,
      )

  -- `redirects[0]` of a redirect event's data is its status code.
  abbrev pub refer_first : Option (ℕ × String × Option B × Option (List Url)) → Option Referred
  refer_first none = none
  refer_first (some d) = some (status d.0)

  -- The two `try` branches of _recvEventUpdate: a hook that raises fails the update.
  unfoldable pub ask_local : B → Event B → LocalOutcome → Ua B → Next × Ua B
  ask_local b e LocalOutcome.started s = (stay, call (update_local_sdp b e) s)
  ask_local b e (LocalOutcome.sdp_error x) s = (
    stay,
    post (fail (some (x.code, x.msg, none))) e.rtime none (get_reason x)
        (call (update_local_sdp b e) s),
  )
  ask_local b e (LocalOutcome.crashed m) s =
      let s1 = call (update_local_sdp b e) s in
      let f = make_event (fail (some (400, "Malformed SDP Body", none))) e.rtime none none s1 in
      (stay, enqueue (record f { warning = some (Header.warning m) }) (count_event s1))

  -- The re-INVITE. (Max-Forwards is never negative: it is read from digits.)
  unfoldable pub send_update : Event B → B → Ua B → Next × Ua B
  unfolding gen_request start_uac
  send_update e b s =
      let eh = get_extra_headers e in
      let (req, s1) = gen_request invite (some b) [] eh (less_one e.max_forwards) s in
      if no_hops e.max_forwards
      then (stay, post (fail (some (483, "Too Many Hops", none))) e.rtime none none s)
      else (become State.uac_updating none, start_uac req eh (set_lsdp (some b) s1))

  -- _recvEventUpdate. Without a local description, or with no body, the first test raises.
  unfoldable pub connected_update_event : BodyOps B → Event B → Option B → Ua B → Next × Ua B
  unfolding ask_local send_update
  connected_update_event ops e none s =
      (raised_other "'NoneType' object has no attribute 'localStr'", s)
  connected_update_event ops e (some b) s = elim s.media.lsdp [
    | none ↦ (raised_other "'NoneType' object has no attribute 'localStr'", s)
    | some l ↦
        if str_eq (ops.local_text l) (ops.local_text b)
        then (stay, post (connect (num 200) "OK" s.media.rsdp) e.rtime e.origin none s)
        else elim s.media.on_local [
          | none ↦ send_update e b s
          | some hook ↦ if ops.needs_update b then ask_local b e (hook b) s else send_update e b s
        ]
  ]

  unfoldable pub connected_info_event : Event B → Option B → Ua B → Next × Ua B
  unfolding gen_request
  connected_info_event e body s =
      let (req, s1) = gen_request info body [] (get_extra_headers e) none s in
      (stay, call (start req nobody []) s1)

  -- The answer is there: the ACK of transaction `t` goes out with it.
  unfoldable pub ack_late : Event B → Option B → ℕ → Ua B → Ua B
  ack_late e body t s =
      let s1 = start_credit_timer e.rtime (cancel_credit_timer s) in
      let s2 = set_lsdp body (record s1 { stamps = record s1.stamps { connect = some e.rtime } }) in
      let s3 = call (send_ack t body) (record s2 { pending_tr = none }) in
      notify_all (notice s3.cbs.conn e.rtime s3.origin none) s3

  -- _recvEventConnect: the answer to the offer that came in a 2xx.
  unfoldable pub connected_connect : BodyOps B → Event B → Option B → Ua B → Next × Ua B
  connected_connect ops e body s = elim s.pending_tr [
    | none ↦ (stay, s)
    | some t ↦
        let s1 = cancel_expires s in
        unless_delayed (delay_local ops body e s1) (stay, ack_late e body t s1)
  ]
