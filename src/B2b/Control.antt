-- ===== src/B2b/Control.antt =====
-- recvEvent, rDone, disconnect and group_expires (sippy/b2bua.py).
use b2bua.Prelude.{
  ℕ, suc, String, Bool, true, false, Option, none, some, List, [], ◌∷◌, ◌++◌, ◌==◌, str_eq, ◌&&◌,
  ◌||◌, not, if◌then◌else◌,
}
use b2bua.Prelude.Text.{drop_prefix, is_blank, read_nat}
use b2bua.Sip.Message.{Header}
use b2bua.Ua.Types.{State, Event, EventKind, TryData}
use b2bua.B2b.Types.{
  idle, wait_route, ar_complete, connected, disconnecting, Route, StaticRoutes, ReqSource, wss,
  proxy, host, Settings, authorize, start_account, fake, radius, Controller, Attempt, ok, err,
  ◌>>=◌, type_error, key_error, value_error,
}
use b2bua.B2b.Route.{customize}
use b2bua.B2b.Legs.{
  World, same_state, is_trying_leg, is_ringing_leg, command, tell_leg, tell_new, hang_up_leg,
  give_up, end_account,
}
use b2bua.B2b.Originate.{place_originate}

-- What the authorization ends with: a pair of attributes and a code, or something else.
abbrev pub Results : Type 0
Results = Option (List (String × String) × ℕ)

-- `[x[1][len(p):] for x in results[0] if x[0] == 'h323-ivr-in' and x[1].startswith(p)]`.
unfoldable pub ivr_values : String → List (String × String) → List String
ivr_values p [] = []
ivr_values p ((k, v) ∷ xs) =
    let rest = ivr_values p xs in
    if str_eq k "h323-ivr-in"
    then elim (drop_prefix p v) [ none ↦ rest | some s ↦ s ∷ rest ]
    else rest

-- The first one replaces what is there; the empty text is None.
abbrev pub replaced : List String → Option String → Option String
replaced [] old = old
replaced (v ∷ vs) old = if is_blank v then none else some v

-- `credit_time`.
unfoldable pub credit_among : List (String × String) → Attempt (Option ℕ)
credit_among [] = ok none
credit_among ((k, v) ∷ xs) =
    let rest = credit_among xs in
    if str_eq k "h323-credit-time"
    then elim (read_nat v) [ none ↦ err value_error | some n ↦ ok (some n) ]
    else rest

abbrev pub is_zero : Option ℕ → Bool
is_zero none = false
is_zero (some n) = n == 0

-- The loop over `routing`, which numbers the routes and leaves out those that allow no time.
unfoldable pub usable_routes : ℕ → (ℕ → Route → Route) → List Route → List Route
usable_routes rnum f [] = []
usable_routes rnum f (r ∷ rs) =
    let rest = usable_routes (suc rnum) f rs in
    let r1 = f (suc rnum) r in
    if is_zero r1.credit_time || is_zero r1.expires then rest else r1 ∷ rest

abbrev pub event_data : {B : Type 0} → Event B → Option (TryData B)
event_data e = elim e.kind [ EventKind.try_call d ↦ some d | _ ↦ none ]

abbrev pub user_of : Option Header → (Header → Option String) → Option String
user_of none f = none
user_of (some h) f = elim (f h) [ none ↦ none | some u ↦ if is_blank u then none else some u ]

abbrev pub is_setting_up : Option State → Bool
is_setting_up s = is_trying_leg s || is_ringing_leg s

unfoldable pub member : ℕ → List ℕ → Bool
member n [] = false
member n (m ∷ ms) = let rest = member n ms in if n == m then true else rest

abbrev pub from_default : StaticRoutes → Attempt (Option (List Route))
from_default t = elim t.default [ none ↦ err key_error | some r ↦ ok (some (r ∷ [])) ]

-- `_static_routes`, by where the request came from.
abbrev pub static_route : StaticRoutes → ReqSource → Attempt (Option (List Route))
static_route t proxy = elim t.for_proxy [ none ↦ from_default t | some r ↦ ok (some (r ∷ [])) ]
static_route t wss = from_default t
static_route t (host h) = from_default t

-- `read_route` is B2BRoute of a text, `name_of` the attribute `username` of a header.
module _ {B : Type 0} (st : Settings B) (w : World B) (read_route : String → Attempt Route)
    (name_of : Header → Option String) where
  unfoldable pub read_all : List String → Attempt (List Route)
  read_all [] = ok []
  read_all (s ∷ ss) = read_route s >>= λ r. (read_all ss >>= λ rs. ok (r ∷ rs))

  -- The routes before customize, or none where the call is to fail. A copy of a static route has all
  -- that the route has.
  abbrev pub given_routes : List String → Attempt (Option (List Route))
  given_routes [] = ok none
  given_routes (s ∷ ss) = read_all (s ∷ ss) >>= λ rs. ok (some rs)

  abbrev pub routing_for : List (String × String) → Controller B → Attempt (Option (List Route))
  routing_for attrs c = elim st.static_routes [
    | none ↦ given_routes (ivr_values "Routing:" attrs)
    | some t ↦ static_route t c.req_source
  ]

  abbrev pub first_attempt : List Route → Controller B → Attempt (Controller B)
  first_attempt [] c = give_up w 500 "Internal Server Error (3)" w.now c
  first_attempt (r ∷ rs) c = place_originate st w r (record c { routes = rs; state = ar_complete })

  abbrev pub route_call : Option ℕ → Option (List Route) → Controller B → Attempt (Controller B)
  route_call credit none c = give_up w 500 "Internal Server Error (2)" w.now c
  route_call credit (some rs) c =
      first_attempt
        (c.routes
          ++ usable_routes 0 (λ n. customize n c.cld c.cli credit c.pass_headers st.max_credit_time)
              rs)
        c

  -- An authorization that is no success.
  abbrev pub refuse_call : Controller B → Attempt (Controller B)
  refuse_call c =
      if is_trying_leg (c.legs 0).state
      then elim c.challenge [
        | none ↦ give_up w 403 "Auth Failed" w.now c
        | some _ ↦ give_up w 401 "Unauthorized" w.now c
      ]
      else ok c

  abbrev pub open_answer_account : Controller B → Controller B
  open_answer_account c =
      if st.acct_enable
      then command
          (start_account 0 (record {
            username = c.username;
            cli = c.cli;
            cld = c.cld;
            call_id = c.call_id;
            remote_ip = c.remote_ip;
          }))
          (record c { acct_a = radius; acct_a_credit = none })
      else record c { acct_a = fake; acct_a_credit = none }

  abbrev pub accept_call : List (String × String) → Controller B → Attempt (Controller B)
  accept_call attrs c =
      let c1 = open_answer_account c in
      if not (is_trying_leg (c.legs 0).state)
      then ok (end_account w.now (some "caller") 0 c1)
      else let c2 = record c1 {
        cli = replaced (ivr_values "CLI:" attrs) c1.cli;
        caller_name = replaced (ivr_values "CNAM:" attrs) c1.caller_name;
      } in
        credit_among attrs >>= λ credit.
        (routing_for attrs c2 >>= λ routing. route_call credit routing c2)

  -- rDone.
  unfoldable pub r_done : Results → Controller B → Attempt (Controller B)
  r_done none c = refuse_call c
  r_done (some (attrs, code)) c = if code == 0 then accept_call attrs c else refuse_call c

  -- The call is authorized, or goes on at once.
  abbrev pub admit : Option Header → Controller B → Attempt (Controller B)
  admit auth c =
      if st.auth_enable
      then elim (user_of auth name_of) [
        | none ↦ ok (
            command (authorize c.remote_ip c.cli c.cld c.call_id none)
              (record c { username = c.remote_ip; auth_proc = true }))
        | some u ↦ ok (
            command (authorize u c.cli c.cld c.call_id auth)
              (record c { username = u; auth_proc = true }))
      ]
      else r_done (some ([], 0)) (record c { username = c.remote_ip })

  -- A called number that begins with `nat-`.
  abbrev pub strip_nat : String → TryData B → String × TryData B
  strip_nat cld d = elim (drop_prefix "nat-" cld) [
    | none ↦ (cld, d)
    | some s ↦ (
      s,
      record d {
        called = some s;
        body = elim d.body [ none ↦ none | some b ↦ some (st.mark_nated b) ];
      },
    )
  ]

  abbrev pub translated : Option (String → String) → String × TryData B → String × TryData B
  translated none p = p
  translated (some f) (cld, d) = (f cld, record d { called = some (f cld) })

  -- The first Try of the calling side.
  unfoldable pub begin_call : Event B → TryData B → Controller B → Attempt (Controller B)
  unfolding r_done
  begin_call e d c =
      let c1 = record c {
        call_id = d.call_id;
        cli = d.calling;
        cld = d.called;
        caller_name = d.name;
      } in
      elim d.called [
        | none ↦ give_up w 500 "Internal Server Error (1)" e.rtime c1
        | some cld ↦
            let p = translated st.tr_in (strip_nat cld d) in
            admit d.auth (record c1 {
              cld = some p.0;
              rtp_session = if st.rtp_proxy then true else c1.rtp_session;
              e_try = some (record e { kind = EventKind.try_call p.1 }, p.1);
              state = wait_route;
            })
      ]

  -- An event of the calling side once the call is there.
  abbrev pub pass_to_o : Event B → Controller B → Attempt (Controller B)
  pass_to_o e c =
      if same_state c.state ar_complete
        || same_state c.state connected
        || same_state c.state disconnecting
      then elim c.ua_o [ none ↦ ok c | some n ↦ tell_leg w n e c ]
      else ok c

  unfoldable pub from_a : Event B → Controller B → Attempt (Controller B)
  unfolding begin_call same_state
  from_a e c =
      if same_state c.state idle
      then elim (event_data e) [
        | none ↦ tell_new w 0 (EventKind.disconnect none) e.rtime c
        | some d ↦ begin_call e d c
      ]
      else pass_to_o e c

  -- `code not in self.huntstop_scodes`.
  abbrev pub may_hunt : Option (List ℕ) → Option ℕ → Attempt Bool
  may_hunt codes none = ok true
  may_hunt none (some n) = err type_error
  may_hunt (some codes) (some n) = ok (not (member n codes))

  -- The code of a Fail, none for a Disconnect; any other event is `none` itself.
  abbrev pub failure : Event B → Option (Attempt (Option ℕ))
  failure e = elim e.kind [
    | EventKind.fail none ↦ some (err type_error)
    | EventKind.fail (some x) ↦ some (ok (some x.0))
    | EventKind.disconnect _ ↦ some (ok none)
    | _ ↦ none
  ]

  -- The next route, if the failure lets it be tried.
  unfoldable pub hunt : Event B → Attempt (Option ℕ) → Controller B → Attempt (Controller B)
  unfolding member
  hunt e code c = elim c.routes [
    | [] ↦ tell_leg w 0 e c
    | r ∷ rs ↦ code >>= λ n.
        (may_hunt c.huntstop_scodes n >>= λ b.
        (if b then place_originate st w r (record c { routes = rs }) else tell_leg w 0 e c))
  ]

  unfoldable pub from_o : Event B → Controller B → Attempt (Controller B)
  unfolding hunt same_state
  from_o e c = elim (failure e) [
    | none ↦ tell_leg w 0 e c
    | some code ↦
        if same_state c.state ar_complete && is_setting_up (c.legs 0).state
        then hunt e code c
        else tell_leg w 0 e c
  ]

  -- recvEvent of an event of the UA `n`.
  unfoldable pub recv_event : ℕ → Event B → Controller B → Attempt (Controller B)
  unfolding from_a from_o
  recv_event n e c = if n == 0 then from_a e c else from_o e c

module _ {B : Type 0} where
  -- disconnect.
  abbrev pub disconnect_call :
      World B → Option ℕ → Option String → Controller B → Attempt (Controller B)
  disconnect_call w rtime origin c =
      hang_up_leg w 0 (elim rtime [ none ↦ w.now | some t ↦ t ]) origin c

  -- group_expires: `self.routes[0][0]` of a B2BRoute is a TypeError.
  unfoldable pub group_expires : ℕ → Controller B → Attempt (Controller B)
  unfolding same_state
  group_expires skipto c =
      if not (same_state c.state ar_complete)
      then ok c
      else elim c.routes [ [] ↦ ok c | _ ∷ _ ↦ err type_error ]
