-- ===== src/B2b/Originate.antt =====
-- placeOriginate (sippy/b2bua.py).
use Prim.Native.String.{◌++◌ as append}
use b2bua.Prelude.{
  ℕ, suc, ◌-◌, String, Bool, true, Option, none, some, [], ◌==◌, ltb, str_eq, ◌&&◌, not,
  if◌then◌else◌,
}
use b2bua.Prelude.Text.{decimal}
use b2bua.Sip.Message.{Url, taddr}
use b2bua.Ua.Types.{Event, EventKind, TryData}
use b2bua.B2b.Types.{
  sip_ua, wss_ua, address, Route, Settings, Billing, LegSettings, make_leg, start_account,
  group_timer, no_account, Controller, Attempt, ok, err, ◌>>=◌, attribute_error, type_error,
}
use b2bua.B2b.Route.{get_nh_addr}
use b2bua.B2b.Legs.{World, command, new_event, count_event, tell_leg, give_up}

abbrev or_else {ℓ} : {A : Type ℓ} → A → Option A → A
or_else d none = d
or_else d (some a) = a

-- `re_replace` where it is configured.
abbrev pub rewritten : Option (String → String) → Option String → Attempt (Option String)
rewritten none s = ok s
rewritten (some f) none = err attribute_error
rewritten (some f) (some s) = ok (some (f s))

-- The host that is billed, the next hop and its transport, if one is given. Nothing is done by the
-- first of the two tests of `hostport`, since the second one's `else` comes after it.
abbrev pub next_hop : Route → String × ℕ → Url → Attempt (String × (String × ℕ) × Option String)
next_hop r source target = elim r.hostport [
  | wss_ua ↦
      ok (target.host, ((taddr target).host, (taddr target).port), some (taddr target).transport)
  | sip_ua ↦ get_nh_addr r source >>= λ a. ok (r.hostonly, a.0, none)
  | address _ ↦ get_nh_addr r source >>= λ a. ok (r.hostonly, a.0, none)
]

-- `if self.source != oroute.params.get('outbound_proxy', None)`.
abbrev pub proxy_for : String × ℕ → Option (String × ℕ) → Option (String × ℕ)
proxy_for source none = none
proxy_for source (some p) = if str_eq source.0 p.0 && (source.1 == p.1) then none else some p

-- The Call-ID of the leg.
abbrev pub leg_call_id : {B : Type 0} → Settings B → Option String → ℕ → Attempt (Option String)
leg_call_id st none rnum =
    if st.hide_call_id
    then ok (some (append (st.md5 "None") (append "-b2b_" (decimal rnum))))
    else err type_error
leg_call_id st (some c) rnum =
    ok (some (append (if st.hide_call_id then st.md5 c else c) (append "-b2b_" (decimal rnum))))

module _ {B : Type 0} (st : Settings B) (w : World B) where
  abbrev pub is_accounted : Route → Bool
  is_accounted r = not r.forward_on_fail && st.acct_enable

  abbrev pub billing : Route → Option String → String → Controller B → Billing
  billing r cld host c = record {
    username = or_else c.username r.bill_to;
    cli = or_else r.cli r.bill_cli;
    cld = or_else cld r.bill_cld;
    call_id = c.call_id;
    remote_ip = host;
  }

  abbrev pub leg_settings : Route → (String × ℕ) → Option String → Controller B → LegSettings
  leg_settings r nh transport c = record {
    user = r.user;
    passw = r.passw;
    nh_address = nh;
    nh_transport = transport;
    credit_time = r.credit_time;
    expire_time = r.expires;
    no_progress_time = r.no_progress_expires;
    no_reply_time = r.no_reply_expires;
    extra_headers = r.extra_headers;
    pass_auth = r.pass_auth;
    outbound_proxy = proxy_for c.source r.outbound_proxy;
    keepalive = st.keepalive_orig;
    through_rtp_proxy = c.rtp_session && or_else true r.rtpp;
    filtered = st.allowed_pts;
  }

  -- `self.acctO = ...`.
  abbrev pub open_account : Route → Option String → String → Controller B → Controller B
  open_account r cld host c =
      if is_accounted r
      then command (start_account c.next_leg (billing r cld host c))
          (record c { acct_o = some c.next_leg })
      else record c { acct_o = none }

  -- `self.uaO = UA(...)`, and what is set after it.
  abbrev pub open_leg : Route → (String × ℕ) → Option String → Controller B → Controller B
  open_leg r nh transport c =
      let n = c.next_leg in
      command (make_leg n (leg_settings r nh transport c)) (record c {
        legs =
            λ j. if n == j then record { state = none; accounted = is_accounted r } else c.legs j;
        ua_o = some n;
        next_leg = suc n;
        proxied = if c.rtp_session && or_else true r.rtpp then true else c.proxied;
      })

  abbrev pub start_group : Route → Controller B → Controller B
  start_group r c = elim r.group_timeout [
    | none ↦ c
    | some (timeout, skip) ↦ command (group_timer timeout skip) c
  ]

  abbrev pub charge : Route → Controller B → Attempt (Controller B)
  charge r c = elim c.acct_a [
    | no_account ↦ err attribute_error
    | _ ↦ ok (record c { acct_a_credit = r.credit_time })
  ]

  -- The Try for the new leg.
  abbrev pub leg_try :
      Route → Option String → Option String → Event B → TryData B → Controller B → Event B
  leg_try r cid cld e d c =
      record (new_event
        (EventKind.try_call (record {
          call_id = cid;
          calling = r.cli;
          called = cld;
          body = d.body;
          auth = d.auth;
          name = or_else c.caller_name r.caller_name;
        }))
        w.now none c) {
          reason = e.reason;
          max_forwards = elim e.max_forwards [ none ↦ none | some m ↦ some (m - 1) ];
        }

  abbrev pub has_hops : Option ℕ → Bool
  has_hops none = true
  has_hops (some m) = ltb 1 m

  abbrev pub changed_by : Option ℕ → Event B → Event B
  changed_by none e = e
  changed_by (some p) e = st.po_procs p e

  -- From `self.uaO = UA(...)` on.
  unfoldable pub call_leg :
      Route
      → Option String
      → (String × ℕ)
      → Option String
      → Event B
      → TryData B
      → Controller B
      → Attempt (Controller B)
  call_leg r cld nh transport e d c =
      let c1 = start_group r (open_leg r nh transport c) in
      leg_call_id st d.call_id r.rnum >>= λ cid.
      if has_hops e.max_forwards
      then tell_leg w c.next_leg (changed_by r.po_proc (leg_try r cid cld e d c1)) (count_event c1)
      else give_up w 483 "Too Many Hops" w.now (count_event c1)

  -- placeOriginate.
  unfoldable pub place_originate : Route → Controller B → Attempt (Controller B)
  unfolding call_leg
  place_originate r c = elim c.e_try [
    | none ↦ err attribute_error
    | some (e, d) ↦
        (rewritten st.tr_out r.cld >>= λ cld.
        (next_hop r c.source c.req_target >>= λ h.
        (charge r (
            open_account r cld h.0
              (record c { huntstop_scodes = some (or_else [] r.huntstop_scodes) }))
          >>= λ c1. call_leg r cld h.1 h.2 e d c1)))
  ]
