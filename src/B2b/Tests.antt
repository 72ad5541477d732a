-- ===== src/B2b/Tests.antt =====
-- The theorems on the call controller at concrete values.
use b2bua.Prelude.{Bool, String, ◌≡◌, refl, true, false, none, some, Option, List, [], ◌∷◌, arith}
use b2bua.Sip.Message.{Url, Header, invite}
use b2bua.Ua.Types.{State, Event, EventKind, TryData}
use b2bua.B2b.Types.{
  dead, err, ar_complete, fake, flag, address, Route, host, Settings, Controller, Attempt, ok,
}
use b2bua.Prelude.Text.{drop_prefix, is_blank, decimal, read_nat}
use b2bua.B2b.Route.{customize, first_of_family}
use b2bua.B2b.Legs.{World, tell_leg, same_state}
use b2bua.B2b.Control.{
  recv_event, r_done, ivr_values, credit_among, usable_routes, read_all, member,
}
use b2bua.B2b.Originate.{place_originate}
use b2bua.B2b.Machine.{Input, event, authorized, run}
use b2bua.B2b.Map.{
  MapSettings, CallMap, NewRequest, new_controller, MapInput, request, stop_timer, sighup, map_run,
}
use b2bua.B2b.Laws.Frame.{Holds}
use b2bua.B2b.Laws.Hops.{IsStuck, place_originate-IsStuck}
use b2bua.B2b.Laws.Stopping.{IsClosed, map_run-IsClosed}
use b2bua.B2b.Laws.Exit.{map_run-stopped}

abbrev settings0 : Settings String
settings0 = record {
  auth_enable = true;
  acct_enable = false;
  hide_call_id = false;
  rtp_proxy = false;
  allowed_pts = false;
  tr_in = none;
  tr_out = none;
  static_routes = none;
  max_credit_time = some 3600;
  keepalive_ans = 0;
  keepalive_orig = 0;
  md5 = λ s. s;
  po_procs = λ n e. e;
  mark_nated = λ b. b;
}

-- The caller's leg goes on trying, any other one too.
abbrev world0 : World String
world0 = record { reaction = λ n e c. ([], State.uas_trying, 7); now = 1000 }

abbrev route0 : Route
route0 = record {
  rnum = 0;
  hostport = address "10.0.0.1";
  hostonly = "10.0.0.1";
  ainfo = some (record { inet6 = false; host = "10.0.0.1"; port = 5060 } ∷ []);
  cld = none;
  cld_set = false;
  cli = none;
  cli_set = false;
  credit_time = none;
  crt_set = flag false;
  expires = none;
  no_progress_expires = none;
  no_reply_expires = none;
  forward_on_fail = false;
  user = none;
  passw = none;
  pass_auth = true;
  extra_headers = none;
  huntstop_scodes = none;
  caller_name = none;
  rtpp = none;
  outbound_proxy = none;
  po_proc = none;
  gt = none;
  group_timeout = none;
  bill_to = none;
  bill_cli = none;
  bill_cld = none;
}

abbrev read0 : String → Attempt Route
read0 s = ok route0

abbrev name0 : Header → Option String
name0 h = none

abbrev url0 : Url
url0 = record {
  username = some "200";
  host = "pbx";
  port = none;
  transport = none;
  lr = false;
  other = [];
  headers = [];
}

abbrev controller0 : Controller String
controller0 = record (new_controller "10.1.1.1" ("10.1.1.1", 5060) (host "10.1.1.1") url0 []) {
  legs = λ n. record { state = some State.uas_trying; accounted = false };
}

abbrev event0 : EventKind String → Event String
event0 k = record {
  kind = k;
  seq = 3;
  rtime = 900;
  origin = none;
  reason = none;
  extra_headers = [];
  max_forwards = some 1;
  challenges = [];
  warning = none;
}

abbrev data0 : TryData String
data0 = record {
  call_id = some "id1";
  calling = some "100";
  called = some "200";
  body = none;
  auth = none;
  name = none;
}

abbrev try0 : Event String
try0 = record (event0 (EventKind.try_call data0)) { max_forwards = some 70 }

-- Two routes, of which the first one fails.
abbrev inputs0 : List (World String × Input String)
inputs0 =
    (world0, event 0 try0)
    ∷ (
      world0,
      authorized (some (("h323-ivr-in", "Routing:a") ∷ ("h323-ivr-in", "Routing:b") ∷ [], 0)),
    )
    ∷ (world0, event 1 (event0 (EventKind.fail (some (503, "Busy", none)))))
    ∷ []

-- Two legs are made in that run.
run_test :
    let c = run settings0 read0 name0 inputs0 controller0 in (c.next_leg ≡ 3) × (c.routes ≡ [])
unfolding run recv_event r_done place_originate tell_leg drop_prefix same_state ivr_values
    credit_among usable_routes customize read_all is_blank decimal first_of_family member read_nat
run_test = (refl, refl)

abbrev placing0 : Controller String
placing0 = record controller0 {
  state = ar_complete;
  acct_a = fake;
  e_try = some (event0 (EventKind.try_call data0), data0);
}

place_originate-IsStuck_example :
    Holds (IsStuck settings0 world0 2 1) (place_originate settings0 world0 route0 placing0)
place_originate-IsStuck_example =
    place_originate-IsStuck settings0 world0 2 route0 (event0 (EventKind.try_call data0)) data0 1
      placing0 refl refl (omega arith) (omega arith)

abbrev map_settings0 : MapSettings String
map_settings0 = record {
  controller = settings0;
  accept_ips = none;
  digest_auth = false;
  digest_auth_only = false;
  pass_headers = [];
  pre_auth = λ c. c;
}

abbrev map0 : CallMap String
map0 = record {
  ccmap = 0 ∷ [];
  calls = λ n. record controller0 { state = ar_complete };
  next_call = 1;
  debug_mode = false;
  safe_restart = false;
  safe_stop = true;
  proxy_at = none;
  stop_count = 0;
  er_timer = true;
  stopped = false;
  restarted = false;
}

abbrev request0 : NewRequest
request0 = record {
  to_tag = none;
  method = invite;
  via = "10.1.1.1";
  second_via = none;
  source = ("10.1.1.1", 5060);
  transport = "udp";
  has_authorization = false;
  ruri = url0;
  headers = [];
}

abbrev map_inputs0 : List (World String × MapInput String)
map_inputs0 =
    (world0, request (λ r c. ok c) request0)
    ∷ (world0, stop_timer)
    ∷ (world0, stop_timer)
    ∷ (world0, sighup)
    ∷ (world0, stop_timer)
    ∷ (world0, stop_timer)
    ∷ (world0, stop_timer)
    ∷ []

map_run-IsClosed_example : IsClosed 1 1 (map_run map_settings0 read0 name0 map_inputs0 map0)
map_run-IsClosed_example = map_run-IsClosed map_settings0 read0 name0 map_inputs0 map0 refl

map_run-stopped_example : (map_run map_settings0 read0 name0 map_inputs0 map0).stopped ≡ true
map_run-stopped_example =
    map_run-stopped map_settings0 read0 name0 map_inputs0 map0 refl refl
      (tt, (tt, (tt, (tt, (tt, (tt, (tt, tt))))))) (omega arith)

abbrev is_ok : {A : Type 0} → Attempt A → Bool
is_ok (ok a) = true
is_ok (err e) = false

-- There is no exception in that example: the caller was refused, and one leg made.
stuck_test :
    Holds
      (λ c. (c.next_leg ≡ 2) × (c.state ≡ dead))
      (place_originate settings0 world0 route0 placing0)
    × (is_ok (place_originate settings0 world0 route0 placing0) ≡ true)
unfolding place_originate tell_leg decimal first_of_family drop_prefix
stuck_test = ((refl, refl), refl)
