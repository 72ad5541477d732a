-- ===== src/Ua/Incoming.antt =====
-- sippy/UA.py: recvRequest, recvResponse, recvACK, the `cancel` that recvRequest hands to the
-- transaction, and the delayed answers of the session description hooks.
use b2bua.Prelude.{
  ℕ, String, Bool, true, false, Option, none, some, List, ◌&&◌, ◌==◌, not, leb, if◌then◌else◌,
}
use b2bua.Prelude.Assoc.{lookup, remove, nat_key}
use b2bua.Sip.Message.{Method, invite, Header, InRequest, Request, Response, SdpError, get_reason}
use b2bua.Ua.Types.{State, Event, fail, Next, stay, become, raised, raised_other}
use b2bua.Ua.State.{Ua, is_dead_state, is_connected_state}
use b2bua.Ua.Queue.{make_event, count_event, enqueue, emit_pending}
use b2bua.Ua.Requests.{is_some, process_challenge, update_ua}
use b2bua.Ua.Change.{change_state}
use b2bua.Ua.Remote.{set_rsdp}
use b2bua.Ua.Local.{BodyOps, Env}
use b2bua.Ua.Dispatch.{state_response, state_ack}
use b2bua.Ua.Agent.{finish, recv_event, take_request}
use b2bua.Ua.Uas.Progressing.{progressing_cancel}
use b2bua.Ua.Uas.Updating.{updating_cancel}

abbrev pub is_invite : Method → Bool
is_invite invite = true
is_invite _ = false

-- What recvRequest gives the transaction: nothing, a response to send, or the callbacks
-- `self.state.cancel` and `self.disconnect`, with the state whose `cancel` it is.
pub data Verdict : Type 0 where
  nothing : Verdict
  answer : ℕ → String → Verdict
  callbacks : Option State → Verdict
  threw : Next → Verdict

-- `self.rCSeq != None and self.rCSeq >= cseq`.
abbrev pub is_stale : ℕ → Option ℕ → Bool
is_stale cseq none = false
is_stale cseq (some n) = leb cseq n

module _ {B : Type 0} where
  abbrev pub set_rcseq : ℕ → Ua B → Ua B
  set_rcseq n s = record s { dialog = record s.dialog { rcseq = some n } }

  abbrev pub verdict : Method → Next × Ua B → Verdict × Ua B
  verdict m (stay, s) = (nothing, s)
  verdict m (become n c, s) = (if is_invite m then callbacks s.state else nothing, s)
  verdict m (raised x, s) = (threw (raised x), s)
  verdict m (raised_other x, s) = (threw (raised_other x), s)

  -- The state takes the request; the first one must be an INVITE.
  unfoldable pub request_in : BodyOps B → Env → InRequest B → Option State → Ua B → Verdict × Ua B
  request_in ops env req (some st) s = verdict req.method (finish (take_request ops env st req s))
  request_in ops env req none s =
      if is_invite req.method
      then verdict req.method
          (finish (take_request ops env State.uas_idle req (change_state State.uas_idle none s)))
      else (nothing, s)

  -- `if self.remote_ua == None: self.update_ua(req)`.
  abbrev pub note_agent : InRequest B → Ua B → Ua B
  note_agent req s = if is_some s.remote_agent then s else update_ua req.agent s

  unfoldable pub recv_request : BodyOps B → Env → InRequest B → Ua B → Verdict × Ua B
  recv_request ops env req s =
      let s0 = note_agent req s in
      if is_stale req.cseq s0.dialog.rcseq
      then (answer 500 "Server Internal Error", s0)
      else request_in ops env req s0.state (set_rcseq req.cseq s0)

  -- `method == 'INVITE' and not self.pass_auth and cseq in self.reqs`, with what `reqs` holds.
  abbrev pub own_invite : Response B → Ua B → Option (Request B)
  own_invite resp s =
      if is_invite resp.method && not s.config.pass_auth
      then lookup resp.cseq s.dialog.reqs
      else none

  -- Answer a 401 or 407 by sending the INVITE again: whether it was.
  unfoldable pub try_auth : Response B → List Header → Ua B → Bool × Ua B
  try_auth resp eh s = elim (own_invite resp s) [
    | none ↦ (false, s)
    | some req ↦
        if resp.code == 401
        then process_challenge resp.cseq req resp.www "authorization" eh s
        else if resp.code == 407
        then process_challenge resp.cseq req resp.proxy "proxy-authorization" eh s
        else (false, s)
  ]

  abbrev pub forget_request : ℕ → ℕ → Ua B → Ua B
  forget_request code cseq s =
      if leb 200 code
      then record s { dialog = record s.dialog { reqs = remove cseq s.dialog.reqs } }
      else s

  -- The rest of recvResponse, when the response was not a challenge that was answered.
  unfoldable pub take_response : ℕ → State → Response B → Ua B → Next × Ua B
  take_response now st resp s =
      finish (state_response now st resp (forget_request resp.code resp.cseq s))

  abbrev pub unless_retried : ℕ → State → Response B → Bool × Ua B → Next × Ua B
  unless_retried now st resp (true, s) = (stay, s)
  unless_retried now st resp (false, s) = take_response now st resp s

  unfoldable pub response_in : Env → Response B → List Header → Option State → Ua B → Next × Ua B
  response_in env resp eh none s = (stay, s)
  response_in env resp eh (some st) s =
      if is_dead_state st
      then (stay, s)
      else unless_retried env.now st resp (try_auth resp eh (update_ua resp.agent s))

  -- recvResponse; `eh` is `tr.req_extra_headers`.
  unfoldable pub recv_response : Env → Response B → List Header → Ua B → Next × Ua B
  recv_response env resp eh s = response_in env resp eh s.state s

  unfoldable pub ack_in : InRequest B → Option State → Ua B → Next × Ua B
  ack_in req none s = (stay, s)
  ack_in req (some st) s = if is_connected_state st then finish (state_ack st req s) else (stay, s)

  unfoldable pub recv_ack : InRequest B → Ua B → Next × Ua B
  recv_ack req s = ack_in req s.state s

  -- `state.cancel`, bound to the state object `st` that took the INVITE.
  unfoldable pub cancel_call : State → ℕ → Option Header → Ua B → Ua B
  cancel_call State.uas_trying rtime reason s = progressing_cancel rtime reason s
  cancel_call State.uas_ringing rtime reason s = progressing_cancel rtime reason s
  cancel_call State.uas_updating rtime reason s = updating_cancel rtime reason s
  cancel_call _ rtime reason s = s

  -- The Fail event that stands for an error of a hook.
  abbrev pub fail_event : ℕ → SdpError → Ua B → Event B
  fail_event now x s = make_event (fail (some (x.code, x.msg, none))) now none (get_reason x) s

  -- delayed_remote_sdp_update and delayed_local_sdp_update with `ex = None`.
  unfoldable pub remote_ready : Event B → B → Ua B → Ua B
  remote_ready e b s = emit_pending (enqueue e (set_rsdp (some b) s))

  unfoldable pub local_ready : BodyOps B → Env → Event B → Ua B → Next × Ua B
  local_ready ops env e s = recv_event ops env e s

  -- Both with an error: the Fail event goes to the application and to the state.
  unfoldable pub sdp_failed : BodyOps B → Env → SdpError → Ua B → Next × Ua B
  sdp_failed ops env x s =
      let e = fail_event env.now x s in
      recv_event ops env e (emit_pending (enqueue e (count_event s)))
