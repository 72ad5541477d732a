-- ===== src/Ua/Tests.antt =====
-- A user agent with concrete settings, and each theorem at it.
use b2bua.Prelude.{
  ℕ, ◌≡◌, refl, Bool, true, false, Option, none, some, List, [], ◌∷◌, ◌++◌, String, ◌==◌, arith,
}
use b2bua.Prelude.Assoc.{lookup, nat_key}
use b2bua.Sip.Message.{
  invite, info, bye, refer, Url, Target, Party, Challenge, Request, InRequest, Response, count_hfs,
  taddr,
}
use b2bua.Sip.Auth.{supported_algorithm, is_digest_alg_supported, among, ends_with}
use b2bua.Sip.Routing.{route_dialog}
use b2bua.Sip.Routing.Hops.{route_dialog_path, first_hop, path_of}
use b2bua.Ua.Types.{State, Event, disconnect, become}
use b2bua.Ua.State.{Ua, Config, Limits, Timers}
use b2bua.Ua.Timers.{start_credit_timer, cancel_credit_timer}
use b2bua.Ua.Requests.{is_barred, pick_challenge, process_challenge, has_credentials}
use b2bua.Ua.Change.{change_state, notice}
use b2bua.Ua.Local.{BodyOps, Env}
use b2bua.Ua.Dispatch.{state_event, state_response, state_request, connected_request}
use b2bua.Ua.Agent.{take_request}
use b2bua.Ua.Connected.Requests.{connected_bye}
use b2bua.Ua.Uas.Progressing.{disconnect_from_request}
use b2bua.Ua.Incoming.{recv_request, answer, note_agent, try_auth}
use b2bua.Ua.Account.{reset_credit_time}
use b2bua.Ua.Machine.{Input, request, event, run}
use b2bua.Ua.Uac.Idle.{arm_first, trim_limits}
use b2bua.Ua.Laws.Delivery.{IsOrdered, run-IsOrdered, recv_request_once}
use b2bua.Ua.Laws.Ending.{
  IsDead, IsSilent, IsRefusal, IsHookless, IsCallbackless, run_dead-IsSilent, change_state-dead,
}
use b2bua.Ua.Laws.Challenges.{
  IsPicked, IsRetried, pick_challenge-IsPicked, process_challenge-retry, try_auth-once,
}
use b2bua.Ua.Laws.Timing.{
  OnlyTimer, after, limit_of, arm_first-earliest, IsFirst, start_credit_timer-IsFirst,
  reset_credit_time-IsFirst,
}
use b2bua.Ua.Laws.Graph.{Follows}
use b2bua.Ua.Laws.Graph.States.{state_event-Follows, state_response-Follows}
use b2bua.Ua.Laws.Graph.Requests.{Referred, take_request-Follows}

abbrev plain_ops : BodyOps String
plain_ops = record {
  needs_update = λ b. false;
  text = λ b. b;
  local_text = λ b. b;
  hold = λ b. "hold";
}

abbrev url_at : String → Url
url_at h = record {
  username = some "alice";
  host = h;
  port = some 5070;
  transport = none;
  lr = false;
  other = [];
  headers = [];
}

abbrev party_at : String → Party
party_at h = record { name = none; url = url_at h; tag = some "t1" }

abbrev env0 : Env
env0 = record { now = 1000; made_call_id = "id"; made_cseq = 7; own_url = url_at "self" }

abbrev target0 : Target
target0 = record { host = "next"; port = 5060; transport = "udp" }

abbrev config0 : Config
config0 = record {
  username = some "alice";
  password = some "secret";
  auth_enalgs = none;
  pass_auth = false;
  use_refer = true;
  outbound_proxy = none;
  extra_headers = [];
  ka_interval = 0;
  godead_timeout = 5000;
}

abbrev limits0 : Limits
limits0 = record {
  expire_time = some 60000;
  no_progress_time = some 20000;
  no_reply_time = some 5000;
  credit_time = some 90000;
  credit_times = (1, some 50000) ∷ (2, none) ∷ [];
  expire_mtime = 0;
  no_progress_mtime = 0;
}

abbrev no_timers : Timers
no_timers = record { expires = none; no_progress = none; no_reply = none; credit = none }

abbrev challenge0 : Challenge
challenge0 = record {
  proxy = false;
  realm = "realm";
  nonce = "nonce";
  algorithm = some "MD5";
  qop = none;
}

abbrev challenge1 : Challenge
challenge1 = record challenge0 { algorithm = some "SHA-1" }

abbrev invite0 : Request String
invite0 = record {
  method = invite;
  ruri = url_at "peer";
  to = none;
  from = none;
  cseq = 100;
  call_id = some "id";
  contact = none;
  routes = [];
  target = target0;
  max_forwards = none;
  body = some "sdp";
  headers = [];
}

abbrev ua_in : State → Ua String
ua_in st = record {
  state = some st;
  instance_no = 1;
  keepalives = 0;
  ka_tr = none;
  triedauth = false;
  te = false;
  tr = some 100;
  pending_tr = none;
  answering = some 5;
  last_scode = 100;
  origin = some "caller";
  remote_agent = none;
  config = config0;
  limits = limits0;
  timers = no_timers;
  stamps = record { setup = some 900; p100 = none; p1xx = none; connect = none; disconnect = none };
  dialog = record {
    call_id = some "id";
    ltag = "t0";
    luri = some (party_at "self");
    ruri = some (party_at "peer");
    lcseq = 101;
    rcseq = some 4;
    lcontact = some (url_at "self");
    rtarget = url_at "peer";
    raddr = target0;
    raddr0 = target0;
    routes = [];
    branch = none;
    reqs = (100, invite0) ∷ [];
  };
  media = record {
    lsdp = some "local";
    rsdp = some "remote";
    late = false;
    on_local = none;
    on_remote = none;
  };
  queue = record { equeue = []; elast_seq = none; next_seq = 1; listening = true; delivered = [] };
  cbs = record { conn = 1 ∷ []; disc = 2 ∷ []; fail = 3 ∷ []; ring = 4 ∷ []; dead = 5 ∷ [] };
  calls = [];
}

abbrev request_of : ℕ → InRequest String
request_of n = record {
  method = info;
  rtime = 1000;
  cseq = n;
  call_id = "id";
  from = party_at "peer";
  to = party_at "self";
  ruri = url_at "self";
  branch = none;
  contact = url_at "peer";
  record_routes = [];
  auth = none;
  reason = none;
  max_forwards = some 70;
  also = none;
  refer_to = none;
  agent = some "agent";
  body = some "data";
}

abbrev response_of : ℕ → ℕ → Response String
response_of code n = record {
  code = code;
  phrase = "phrase";
  rtime = 1000;
  cseq = n;
  method = invite;
  to_tag = some "t1";
  contacts = url_at "peer" ∷ [];
  record_routes = [];
  www = challenge1 ∷ challenge0 ∷ [];
  proxy = [];
  reason = none;
  agent = none;
  body = some "answer";
}

abbrev event_of : ℕ → Event String
event_of n = record {
  kind = disconnect none;
  seq = n;
  rtime = 1000;
  origin = none;
  reason = none;
  extra_headers = [];
  max_forwards = none;
  challenges = [];
  warning = none;
}

abbrev traffic : List (Env × Input String)
traffic =
    (env0, request (request_of 5))
    ∷ (env0, request (request_of 5))
    ∷ (env0, request (request_of 6))
    ∷ (env0, event (event_of 9))
    ∷ []

run-IsOrdered_example : IsOrdered (run plain_ops traffic (ua_in State.connected)).queue
run-IsOrdered_example = run-IsOrdered plain_ops traffic (ua_in State.connected) tt

recv_request_once_example :
    let t =
      run plain_ops traffic
        (recv_request plain_ops env0 (request_of 5) (ua_in State.connected)).1 in
    recv_request plain_ops env0 (request_of 5) t
    ≡ (answer 500 "Server Internal Error", note_agent (request_of 5) t)
recv_request_once_example =
    recv_request_once plain_ops env0 env0 (request_of 5) (request_of 5) traffic
      (ua_in State.connected) (omega arith)

state_event-Follows_example :
    Follows State.connected
      (state_event plain_ops env0 State.connected (event_of 3) (ua_in State.connected)).0
state_event-Follows_example =
    state_event-Follows plain_ops env0 State.connected (event_of 3) (ua_in State.connected)

state_response-Follows_example :
    Follows State.uac_trying
      (state_response 1000 State.uac_trying (response_of 200 100) (ua_in State.uac_trying)).0
state_response-Follows_example =
    state_response-Follows 1000 State.uac_trying (response_of 200 100) (ua_in State.uac_trying)

abbrev refer0 : InRequest String
refer0 = record (request_of 5) { method = refer; refer_to = some (url_at "third") }

take_request-Follows_example :
    let t = take_request plain_ops env0 State.connected refer0 (ua_in State.connected) in
    Follows State.connected t.0 × Referred true (some (url_at "third")) (ua_in State.connected) t.1
take_request-Follows_example =
    take_request-Follows plain_ops env0 State.connected refer0 (ua_in State.connected) refl

-- A BYE ends a connected call.
bye_test :
    (take_request plain_ops env0 State.connected
      (record (request_of 5) { method = bye })
      (ua_in State.connected)).0
    ≡ become State.disconnected (notice (2 ∷ []) 1000 (some "caller") none)
unfolding take_request state_request connected_request connected_bye disconnect_from_request
    cancel_credit_timer
bye_test = refl

abbrev dead_ua : Ua String
dead_ua = record (ua_in State.dead) {
  queue = record (ua_in State.dead).queue { listening = false };
}

abbrev dead_ua-IsDead : IsDead dead_ua
dead_ua-IsDead = record { at = refl; deaf = refl }

run_dead-IsSilent_example :
    let t = run plain_ops traffic dead_ua in
    IsDead t × IsSilent dead_ua t × IsRefusal (recv_request plain_ops env0 (request_of 6) t).0
run_dead-IsSilent_example =
    run_dead-IsSilent plain_ops traffic env0 (request_of 6) dead_ua dead_ua-IsDead
      (tt, (tt, (tt, (tt, tt))))

change_state-dead_example :
    let t = change_state State.dead none (ua_in State.failed) in
    IsDead t
    × (t.tr ≡ none)
    × (t.timers.expires ≡ none)
    × (t.timers.no_progress ≡ none)
    × (t.timers.credit ≡ none)
    × (t.dialog.reqs ≡ [])
    × IsHookless t
    × IsCallbackless t
change_state-dead_example = change_state-dead none (ua_in State.failed)

abbrev retried : Bool × Ua String
retried = try_auth (response_of 401 100) [] (ua_in State.uac_trying)

retried_test : retried.0 ≡ true
unfolding try_auth process_challenge pick_challenge is_barred supported_algorithm
    is_digest_alg_supported among ends_with count_hfs lookup
retried_test = refl

try_auth-once_example : try_auth (response_of 401 101) [] retried.1 ≡ (false, retried.1)
try_auth-once_example =
    try_auth-once (response_of 401 100) (response_of 401 101) [] [] (ua_in State.uac_trying)
      (refl, (refl, tt)) tt refl refl retried_test

pick_challenge-IsPicked_example :
    IsPicked none
      (challenge1 ∷ challenge0 ∷ [])
      (pick_challenge none (challenge1 ∷ challenge0 ∷ []))
pick_challenge-IsPicked_example = pick_challenge-IsPicked none (challenge1 ∷ challenge0 ∷ [])

abbrev processed : Bool × Ua String
processed =
    process_challenge 100 invite0 (challenge1 ∷ challenge0 ∷ []) "authorization" []
      (ua_in State.uac_trying)

processed_test : processed.0 ≡ true
unfolding process_challenge pick_challenge is_barred supported_algorithm is_digest_alg_supported
    among ends_with count_hfs
processed_test = refl

process_challenge-retry_example :
    (has_credentials (ua_in State.uac_trying) ≡ true)
    × ((count_hfs "authorization" invite0.headers == 0) ≡ true)
    × ((c : Challenge) × (q : Option String) × (again : Request String) × IsPicked none
          (challenge1 ∷ challenge0 ∷ [])
          (some (c, q))
        × IsRetried 100 c q [] (ua_in State.uac_trying) processed.1 again)
process_challenge-retry_example =
    process_challenge-retry 100 invite0 (challenge1 ∷ challenge0 ∷ []) "authorization" []
      (ua_in State.uac_trying) refl processed_test

arm_first-earliest_example :
    let s = ua_in State.uac_idle in
    OnlyTimer
      (arm_first 1000 (record s { limits = trim_limits 1000 s.limits })).timers
      (after 1000 (limit_of s.limits))
arm_first-earliest_example = arm_first-earliest 1000 (ua_in State.uac_idle) refl refl refl

start_credit_timer-IsFirst_example :
    let t = start_credit_timer 1000 (ua_in State.connected) in
    IsFirst t.timers.credit t.limits.credit_times
    × (t.limits.credit_time ≡ none)
    × (lookup 0 t.limits.credit_times ≡ some (some 91000))
start_credit_timer-IsFirst_example = start_credit_timer-IsFirst 1000 0 (ua_in State.connected) refl

reset_credit_time-IsFirst_example :
    let t = reset_credit_time 1000 ((1, some 30000) ∷ []) (ua_in State.connected) in
    IsFirst t.timers.credit t.limits.credit_times
    × (lookup 1 t.limits.credit_times ≡ some (some 30000))
reset_credit_time-IsFirst_example =
    reset_credit_time-IsFirst 1000 1 ((1, some 30000) ∷ []) (ua_in State.connected) refl

abbrev hops : List Url
hops = record (url_at "proxy1") { lr = true } ∷ url_at "proxy2" ∷ []

route_dialog_path_example :
    ((route_dialog false hops (url_at "peer") target0).raddr
      ≡ taddr (first_hop hops (url_at "peer")))
    × (path_of (first_hop hops (url_at "peer")).lr (route_dialog false hops (url_at "peer") target0)
        ≡ hops ++ url_at "peer" ∷ [])
route_dialog_path_example = route_dialog_path hops (url_at "peer") target0
