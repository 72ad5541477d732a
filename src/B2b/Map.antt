-- ===== src/B2b/Map.antt =====
-- CallMap (sippy/b2bua.py): the calls, and what stops the program.
pub mod Data
unfoldable pub use Data.*
use b2bua.Prelude.{
  ℕ, suc, String, Bool, true, false, Option, none, some, List, [], ◌∷◌, ◌++◌, ◌==◌, ltb, leb,
  str_eq, ◌&&◌, ◌||◌, not, if◌then◌else◌,
}
use b2bua.Sip.Message.{Method, invite, info, options, other, Url, Header, header_name}
use b2bua.Ua.Types.{State, Event}
use b2bua.B2b.Types.{
  CcState, idle, ar_complete, connected, Route, ReqSource, wss, proxy, host, Settings, Command,
  remove, no_account, Controller, Attempt, ok, err, ◌>>=◌, value_error,
}
use b2bua.B2b.Legs.{World, same_state}
use b2bua.B2b.Control.{disconnect_call}
use b2bua.B2b.Machine.{Input, step, survived}

module _ {B : Type 0} where
  -- How often `ccmap.remove(self)` was called.
  unfoldable pub removals : List (Command B) → ℕ
  removals [] = 0
  removals (remove ∷ xs) = suc (removals xs)
  removals (_ ∷ xs) = removals xs

  -- `ccmap.remove(cc)` for a call whose controller asked for it meanwhile.
  abbrev pub settle : ℕ → Controller B → CallMap B → Attempt (CallMap B)
  settle id c m =
      let m1 = record m { calls = λ j. if id == j then c else m.calls j } in
      if removals c.commands == removals (m.calls id).commands
      then ok m1
      else let rest = without id m.ccmap in
        if not (is_listed id m.ccmap) then err value_error else ok (record m1 { ccmap = rest })

  -- remoteIPAuth.
  abbrev pub remote_ip_auth : MapSettings B → CallMap B → (String × ℕ) × String → Option ReqSource
  remote_ip_auth ms m stran =
      let s =
        if str_eq stran.1 "wss"
        then wss
        else if same_target m.proxy_at stran
        then proxy
        else host stran.0.0 in
      elim ms.accept_ips [
        | none ↦ some s
        | some ips ↦ if text_in (source_text s) ips then some s else none
      ]

  -- CallController.__init__.
  abbrev pub new_controller : String → String × ℕ → ReqSource → Url → List Header → Controller B
  new_controller remote_ip source s target headers = record {
    state = idle;
    call_id = none;
    cli = none;
    cld = none;
    caller_name = none;
    e_try = none;
    routes = [];
    remote_ip = remote_ip;
    source = source;
    req_source = s;
    req_target = target;
    username = "";
    huntstop_scodes = none;
    pass_headers = headers;
    auth_proc = false;
    proxied = false;
    challenge = none;
    acct_a = no_account;
    acct_a_credit = none;
    acct_o = none;
    rtp_session = false;
    legs = λ n. record { state = none; accounted = false };
    ua_o = none;
    next_leg = 1;
    next_seq = 1;
    commands = [];
  }

  -- The digest challenge that the call has at hand.
  abbrev pub challenge_for : MapSettings B → NewRequest → Option Header
  challenge_for ms req =
      if ms.controller.auth_enable && (ms.digest_auth && not req.has_authorization)
      then some (Header.plain "www-authenticate" req.ruri.host)
      else none

  abbrev pub must_challenge : MapSettings B → NewRequest → Bool
  must_challenge ms req = elim (challenge_for ms req) [
    | none ↦ false
    | some _ ↦ ms.digest_auth_only
  ]

  -- The new call. `offer` is what the UA makes of the request, with what the controller does
  -- meanwhile.
  abbrev pub accept :
      MapSettings B
      → (NewRequest → Controller B → Attempt (Controller B))
      → ReqSource
      → NewRequest
      → CallMap B
      → Attempt (Answer × CallMap B)
  accept ms offer s req m =
      let c =
        new_controller (if is_wss s then req.source.0 else last_via req) req.source s req.ruri
          (passed_headers ms.pass_headers req.headers) in
      let id = m.next_call in
      offer req (record (ms.pre_auth c) { challenge = challenge_for ms req }) >>= λ c1. ok (
        by_call id,
        record m {
          calls = λ j. if id == j then c1 else m.calls j;
          next_call = suc id;
          ccmap = m.ccmap ++ id ∷ [];
        },
      )

  abbrev pub take_invite :
      MapSettings B
      → (NewRequest → Controller B → Attempt (Controller B))
      → NewRequest
      → CallMap B
      → Attempt (Answer × CallMap B)
  take_invite ms offer req m =
      if m.safe_restart || m.safe_stop
      then ok (respond 503 "Service Unavailable (restarting)", m)
      else elim (remote_ip_auth ms m (req.source, req.transport)) [
        | none ↦ ok (respond 403 "Forbidden", m)
        | some s ↦
            if must_challenge ms req
            then ok (respond 401 "Unauthorized", m)
            else accept ms offer s req m
      ]

  abbrev pub take_other : NewRequest → CallMap B → Answer
  take_other req m = elim req.method [
    | other name ↦
        if (str_eq name "REGISTER" || str_eq name "SUBSCRIBE") && has_proxy m.proxy_at
        then by_proxy
        else if str_eq name "NOTIFY" || str_eq name "PING"
        then respond 200 "OK"
        else respond 501 "Not Implemented"
    | _ ↦ respond 501 "Not Implemented"
  ]
    where
      has_proxy : Option ((String × ℕ) × String) → Bool
      has_proxy none = false
      has_proxy (some p) = true

  -- recvRequest, for a request whose To header can be read.
  unfoldable pub map_request :
      MapSettings B
      → (NewRequest → Controller B → Attempt (Controller B))
      → NewRequest
      → CallMap B
      → Attempt (Answer × CallMap B)
  map_request ms offer req m = elim req.to_tag [
    | some t ↦ ok (respond 481 "Call Leg/Transaction Does Not Exist", m)
    | none ↦ if is_invite req.method then take_invite ms offer req m else ok (take_other req m, m)
  ]

  -- discAll, for the calls that are in the map at the start.
  unfoldable pub disc_all : World B → List ℕ → CallMap B → Attempt (CallMap B)
  disc_all w [] m = ok m
  disc_all w (id ∷ ids) m =
      disconnect_call w none none (m.calls id) >>= λ c. (settle id c m >>= disc_all w ids)

  abbrev pub is_active : Controller B → Bool
  is_active c = same_state c.state connected || same_state c.state ar_complete

  -- getActiveCalls.
  unfoldable pub active_calls : List ℕ → CallMap B → List ℕ
  unfolding same_state
  active_calls [] m = []
  active_calls (id ∷ ids) m =
      let rest = active_calls ids m in if is_active (m.calls id) then id ∷ rest else rest

  -- safeStop.
  unfoldable pub safe_stop : World B → CallMap B → Attempt (CallMap B)
  unfolding disc_all
  safe_stop w m = disc_all w m.ccmap m >>= λ m1.
      ok (record m1 { safe_stop = true; stop_count = 0; er_timer = true })

  -- executeStop, each time that its timer fires.
  unfoldable pub execute_stop : CallMap B → CallMap B
  unfolding active_calls
  execute_stop m =
      if not m.safe_stop
      then m
      else let m1 = record m { stop_count = suc m.stop_count } in
        if not (is_empty (active_calls m.ccmap m)) && ltb m1.stop_count 5
        then m1
        else record m1 { er_timer = false; stopped = true }

  -- GClector, each time that its timer fires.
  unfoldable pub collect : CallMap B → CallMap B
  unfolding active_calls
  collect m =
      if m.safe_restart && is_empty (active_calls m.ccmap m)
      then record m { restarted = true }
      else m

-- What reaches the map: requests, what reaches one of its calls, the signals SIGHUP, SIGUSR2, SIGPROF
-- and SIGTERM, the timer of safeStop and the one of GClector.
pub data MapInput (B : Type 0) : Type 0 where
  request : (NewRequest → Controller B → Attempt (Controller B)) → NewRequest → MapInput B
  call : ℕ → Input B → MapInput B
  sighup sigusr2 sigprof sigterm : MapInput B
  stop_timer gc_timer : MapInput B

module _ {B : Type 0} (ms : MapSettings B) (read_route : String → Attempt Route)
    (name_of : Header → Option String) where
  unfoldable pub map_step : World B → MapInput B → CallMap B → Attempt (CallMap B)
  map_step w (request offer req) m = map_request ms offer req m >>= λ r. ok r.1
  map_step w (call id i) m =
      step ms.controller read_route name_of w i (m.calls id) >>= λ c. settle id c m
  map_step w sighup m = disc_all w m.ccmap m
  map_step w sigusr2 m = ok (record m { debug_mode = not m.debug_mode })
  map_step w sigprof m = ok (record m { safe_restart = true })
  map_step w sigterm m = safe_stop w m
  map_step w stop_timer m = ok (execute_stop m)
  map_step w gc_timer m = ok (collect m)

  unfoldable pub map_run : List (World B × MapInput B) → CallMap B → CallMap B
  unfolding map_step
  map_run [] m = m
  map_run ((w, i) ∷ is) m = map_run is (survived (map_step w i m) m)
