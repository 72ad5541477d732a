-- ===== src/Ua/Requests.antt =====
-- Requests and responses that a UA sends (sippy/UA.py: genRequest, newTransaction,
-- newUacTransaction, sendUasResponse, processChallenge, update_ua), and the route set that the
-- states take from a message.
use b2bua.Prelude.{
  ℕ, ◌+◌, String, Bool, true, false, Option, none, some, List, [], ◌∷◌, ◌++◌, ◌&&◌, ◌||◌, ◌==◌, not,
  if◌then◌else◌,
}
use mathlib.Core.List.{reverse}
use b2bua.Prelude.Assoc.{insert, remove, nat_key}
use b2bua.Sip.Message.{
  Method, invite, Url, Target, Party, Header, authorization, Challenge, Request, Response,
  count_hfs,
}
use b2bua.Sip.Auth.{among, supported_algorithm}
use b2bua.Sip.Routing.{route_dialog, RouteSet}
use b2bua.Ua.Types.{num, respond, start, to_ua, nobody}
use b2bua.Ua.State.{Ua, Dialog}
use b2bua.Ua.Timers.{call}

abbrev pub is_some {ℓ} : {A : Type ℓ} → Option A → Bool
is_some none = false
is_some (some _) = true

abbrev first_or : Url → List Url → Url
first_or u [] = u
first_or u (c ∷ _) = c

abbrev is_invite : Method → Bool
is_invite invite = true
is_invite _ = false

abbrev set_tag : Option String → Option Party → Option Party
set_tag t none = none
set_tag t (some p) = some (record p { tag = t })

-- `self.auth_enalgs is not None and challenge.algorithm not in self.auth_enalgs`.
unfoldable pub is_barred : Option (List String) → Option String → Bool
unfolding among
is_barred none a = false
is_barred (some algs) none = true
is_barred (some algs) (some a) = not (among a algs)

-- The challenge that the loop of processChallenge stops at, with its qop.
unfoldable pub pick_challenge :
    Option (List String) → List Challenge → Option (Challenge × Option String)
pick_challenge enalgs [] = none
pick_challenge enalgs (c ∷ cs) =
    let rest = pick_challenge enalgs cs in
    if is_barred enalgs c.algorithm
    then rest
    else if (supported_algorithm c).0
    then some (c, (supported_algorithm c).1)
    else rest

module _ {B : Type 0} where
  abbrev next_target : Ua B → Target
  next_target s = elim s.config.outbound_proxy [ none ↦ s.dialog.raddr | some t ↦ t ]

  -- The request that genRequest builds. `auth` is the header that answers a challenge.
  abbrev build_request : Method → Option B → List Header → List Header → Option ℕ → Ua B → Request B
  build_request m body auth eh mf s = record {
    method = m;
    ruri = s.dialog.rtarget;
    to = s.dialog.ruri;
    from = s.dialog.luri;
    cseq = s.dialog.lcseq;
    call_id = s.dialog.call_id;
    contact = s.dialog.lcontact;
    routes = s.dialog.routes;
    target = next_target s;
    max_forwards = mf;
    body = body;
    headers = auth ++ (s.config.extra_headers ++ eh);
  }

  -- genRequest: an INVITE is kept in `reqs` until its final response, and `lCSeq` is advanced.
  unfoldable pub gen_request :
      Method → Option B → List Header → List Header → Option ℕ → Ua B → Request B × Ua B
  gen_request m body auth eh mf s =
      let req = build_request m body auth eh mf s in
      let reqs = if is_invite m then insert s.dialog.lcseq req s.dialog.reqs else s.dialog.reqs in
      (req, record s { dialog = record s.dialog { reqs = reqs; lcseq = s.dialog.lcseq + 1 } })

  -- newUacTransaction: its responses go to `recvResponse`, and it is kept in `tr`.
  unfoldable pub start_uac : Request B → List Header → Ua B → Ua B
  start_uac req eh s = record s { tr = some req.cseq; calls = start req to_ua eh ∷ s.calls }

  -- genRequest and newTransaction for a request whose response nobody waits for.
  unfoldable pub send_request : Method → List Header → Ua B → Ua B
  unfolding gen_request
  send_request m eh s =
      let (req, s1) = gen_request m none [] eh none s in call (start req nobody []) s1

  -- sendUasResponse.
  abbrev pub respond_with : ℕ → String → Option B → List Url → List Header → Bool → Ua B → Ua B
  respond_with code phrase body contacts eh ack_wait =
      call (respond (num code) phrase body contacts eh ack_wait)

  -- `(self.ua.lContact,)`.
  abbrev pub own_contact : Ua B → List Url
  own_contact s = elim s.dialog.lcontact [ none ↦ [] | some u ↦ u ∷ [] ]

  -- The INVITE again, with an answer to the challenge, in place of the one that was challenged.
  unfoldable pub retry_invite : ℕ → Challenge × Option String → List Header → Ua B → Ua B
  unfolding gen_request start_uac
  retry_invite cseq (c, qop) eh s =
      let (req, s1) = gen_request invite s.media.lsdp (authorization c qop ∷ []) eh none s in
      let s2 = start_uac req eh s1 in
      record s2 { dialog = record s2.dialog { reqs = remove cseq s2.dialog.reqs } }

  -- `self.username == None or self.password == None`, negated.
  abbrev pub has_credentials : Ua B → Bool
  has_credentials s = is_some s.config.username && is_some s.config.password

  -- processChallenge for the INVITE `req` with this CSeq: whether it was sent again, and the state.
  unfoldable pub process_challenge :
      ℕ → Request B → List Challenge → String → List Header → Ua B → Bool × Ua B
  process_challenge cseq req challenges auth_hfname eh s =
      if not (has_credentials s) || not (count_hfs auth_hfname req.headers == 0)
      then (false, s)
      else elim (pick_challenge s.config.auth_enalgs challenges) [
        | none ↦ (false, s)
        | some c ↦ (true, retry_invite cseq c eh s)
      ]

  -- update_ua, given the name in a User-Agent or Server header.
  unfoldable pub update_ua : Option String → Ua B → Ua B
  update_ua none s = s
  update_ua (some n) s = record s { remote_agent = some n }

  -- Take over a route set.
  abbrev pub with_routes : RouteSet → Dialog B → Dialog B
  with_routes r d = record d { routes = r.routes; rtarget = r.rtarget; raddr = r.raddr }

  -- UacStateTrying.updateRoutes, and the same lines of UacStateCancelling.recvResponse: the remote
  -- target from the contact, the routes from the record-route headers in reverse.
  unfoldable pub update_routes : Response B → Ua B → Ua B
  unfolding route_dialog
  update_routes resp s =
      let t = first_or s.dialog.rtarget resp.contacts in
      let r =
        route_dialog (is_some s.config.outbound_proxy) (reverse resp.record_routes) t
          s.dialog.raddr in
      record s { dialog = with_routes r s.dialog }

  abbrev pub set_remote_tag : Option String → Ua B → Ua B
  set_remote_tag t s = record s { dialog = record s.dialog { ruri = set_tag t s.dialog.ruri } }
