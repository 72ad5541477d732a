-- ===== src/Ua/Uac/Idle.antt =====
-- sippy/UacStateIdle.py: the call is set up and the INVITE sent.
use b2bua.Prelude.{
  ℕ, ◌+◌, String, Bool, true, false, Option, none, some, [], ◌∷◌, ◌++◌, ltb, leb, if◌then◌else◌,
}
use b2bua.Sip.Message.{invite, Url, Header, Request}
use b2bua.Ua.Types.{State, Event, TryData, register, Next, become, get_extra_headers}
use b2bua.Ua.State.{Ua, Limits}
use b2bua.Ua.Timers.{arm_expires, arm_no_progress, arm_no_reply}
use b2bua.Ua.Requests.{is_some, gen_request, start_uac}
use b2bua.Ua.Change.{notice}
use b2bua.Ua.Remote.{stamp_end}
use b2bua.Ua.Local.{BodyOps, Env, delay_local, unless_delayed}
use b2bua.Prelude.Assoc.{insert, nat_key}

-- `x != None and y >= x`: the limit `y` is not below the limit `x`.
abbrev pub covered_by : ℕ → Option ℕ → Bool
covered_by y none = false
covered_by y (some x) = leb x y

-- A no-progress limit that the expire limit covers is dropped.
unfoldable pub trim_no_progress : ℕ → Limits → Limits
trim_no_progress rtime l = elim l.no_progress_time [
  | none ↦ l
  | some p ↦
      let l1 = record l { no_progress_mtime = rtime + p } in
      if covered_by p l.expire_time then record l1 { no_progress_time = none } else l1
]

unfoldable pub set_expire_mtime : ℕ → Limits → Limits
set_expire_mtime rtime l = elim l.expire_time [
  | none ↦ l
  | some t ↦ record l { expire_mtime = rtime + t }
]

-- A no-reply limit of 32 seconds or more, or one that another limit covers, is dropped.
unfoldable pub trim_no_reply : Limits → Limits
trim_no_reply l = elim l.no_reply_time [
  | none ↦ l
  | some r ↦
      if ltb r 32000
      then (if covered_by r l.expire_time
          then record l { no_reply_time = none }
          else if covered_by r l.no_progress_time
          then record l { no_reply_time = none }
          else l)
      else record l { no_reply_time = none }
]

-- The limits as the timers are set by them.
unfoldable pub trim_limits : ℕ → Limits → Limits
unfolding trim_no_progress set_expire_mtime trim_no_reply
trim_limits rtime l = trim_no_reply (trim_no_progress rtime (set_expire_mtime rtime l))

-- A URL with nothing but its host and user; an absent host is the program's own address.
abbrev simple_url : Option String → String → Option ℕ → Option String → Url
simple_url user host port transport = record {
  username = user;
  host = host;
  port = port;
  transport = transport;
  lr = false;
  other = [];
  headers = [];
}

abbrev or_made : Option String → String → String
or_made none made = made
or_made (some id) made = id

abbrev contact_for : Option String → Url → Option Url → Option Url
contact_for user own none = some (record own { username = user })
contact_for user own (some u) = some (record u { username = user })

module _ {B : Type 0} where
  -- The one timer that starts: no-reply, else no-progress, else expire.
  unfoldable pub arm_first : ℕ → Ua B → Ua B
  arm_first rtime s = elim s.limits.no_reply_time [
    | some r ↦ arm_no_reply (rtime + r) s
    | none ↦ elim s.limits.no_progress_time [
      | some _ ↦ arm_no_progress s
      | none ↦ elim s.limits.expire_time [ some _ ↦ arm_expires s | none ↦ s ]
    ]
  ]

  abbrev pub stamp_setup : ℕ → Ua B → Ua B
  stamp_setup rtime s = elim s.stamps.setup [
    | none ↦ record s { stamps = record s.stamps { setup = some rtime } }
    | some _ ↦ s
  ]

  -- `if auth != None and self.ua.pass_auth: req.appendHeader(...)`, on the object that `reqs` holds.
  unfoldable pub add_auth : Option Header → Request B → Ua B → Request B × Ua B
  add_auth none req s = (req, s)
  add_auth (some h) req s =
      let req' = record req { headers = req.headers ++ h ∷ [] } in
      if s.config.pass_auth
      then (
        req',
        record s { dialog = record s.dialog { reqs = insert req.cseq req' s.dialog.reqs } },
      )
      else (req, s)

  -- The dialog that the INVITE opens.
  unfoldable pub open_dialog : Env → TryData B → Ua B → Ua B
  open_dialog env d s =
      let t = s.dialog.raddr0 in
      let id = or_made d.call_id env.made_call_id in
      let rtarget = simple_url d.called t.host (some t.port) (some t.transport) in
      let callee = simple_url d.called t.host none none in
      let caller = simple_url d.calling env.own_url.host none none in
      record s {
        dialog = record s.dialog {
          call_id = some id;
          rtarget = rtarget;
          ruri = some (record { name = none; url = callee; tag = none });
          luri = some (record { name = d.name; url = caller; tag = some s.dialog.ltag });
          lcseq = env.made_cseq;
          lcontact = contact_for d.calling env.own_url s.dialog.lcontact;
          routes = [];
        };
        media = record s.media { lsdp = d.body };
        calls = register id ∷ s.calls;
      }

  -- The rest of the Try event, once the body is ready.
  unfoldable pub place_call : Env → Event B → TryData B → Ua B → Next × Ua B
  unfolding open_dialog add_auth gen_request start_uac arm_first trim_limits
  place_call env e d s =
      let eh = get_extra_headers e in
      let (req, s1) = gen_request invite d.body [] eh e.max_forwards (open_dialog env d s) in
      let (req', s2) = add_auth d.auth req s1 in
      let s3 = start_uac req' eh s2 in
      let s4 = record s3 { limits = trim_limits e.rtime s3.limits } in
      (become State.uac_trying none, arm_first e.rtime s4)

  unfoldable pub idle_try : BodyOps B → Env → Event B → TryData B → Ua B → Next × Ua B
  idle_try ops env e d s =
      let s1 = record (stamp_setup e.rtime s) { origin = some "callee" } in
      let s2 =
        if is_some d.body then s1 else record s1 { media = record s1.media { late = true } } in
      unless_delayed (delay_local ops d.body e s1) (place_call env e d s2)

  -- Fail, Redirect and Disconnect before any Try.
  unfoldable pub idle_give_up : ℕ → Event B → Ua B → Next × Ua B
  idle_give_up now e s =
      (become State.dead (notice s.cbs.disc e.rtime e.origin none), stamp_end now e.rtime s)
