-- ===== src/Ua/Machine.antt =====
-- What can reach a UA after it was made, as one step function, and runs of it: its transactions, its
-- application, its timers and those who call `disconnect` (noack_cb of sendUasResponse, the timer of
-- a keep-alive that was lost once). The environment decides what comes next; an exception ends a step and leaves the state as it was then.
use b2bua.Prelude.{ℕ, String, Option, List, [], ◌∷◌}
use b2bua.Prelude.Assoc.{Assoc}
use b2bua.Sip.Message.{Header, InRequest, Response, SdpError}
use b2bua.Ua.Types.{State, Event}
use b2bua.Ua.State.{Ua}
use b2bua.Ua.Local.{BodyOps, Env}
use b2bua.Ua.Agent.{
  recv_event, disconnect_ua, expire, no_progress_expire, no_reply_expire, credit_expire,
}
use b2bua.Ua.Incoming.{
  recv_request, recv_response, recv_ack, cancel_call, remote_ready, local_ready, sdp_failed,
}
use b2bua.Ua.Account.{
  reset_credit_time, go_dead, go_idle, on_keep_alive, on_keep_alive_response, on_refer_complete,
}

pub data Input (B : Type 0) : Type 0 where
  request ack : InRequest B → Input B
  response : Response B → List Header → Input B
  event : Event B → Input B
  disconnect : ℕ → Option String → Input B
  expires no_progress no_reply : Input B
  credit : ℕ → Input B
  local_sdp : Event B → Input B
  remote_sdp : Event B → B → Input B
  sdp_error : SdpError → Input B
  cancel : State → ℕ → Option Header → Input B
  new_credit_times : ℕ → Assoc ℕ (Option ℕ) → Input B
  dead_timer idle_timer refer_complete : Input B
  keep_alive : ℕ → Input B
  keep_alive_response : ℕ → Response B → Input B

module _ {B : Type 0} (ops : BodyOps B) where
  unfoldable pub step : Env → Input B → Ua B → Ua B
  step env (Input.request req) s = (recv_request ops env req s).1
  step env (Input.ack req) s = (recv_ack req s).1
  step env (Input.response resp eh) s = (recv_response env resp eh s).1
  step env (Input.event e) s = (recv_event ops env e s).1
  step env (Input.disconnect rtime origin) s = (disconnect_ua ops env rtime origin s).1
  step env Input.expires s = (expire ops env s).1
  step env Input.no_progress s = (no_progress_expire ops env s).1
  step env Input.no_reply s = (no_reply_expire ops env s).1
  step env (Input.credit rtime) s = (credit_expire ops env rtime s).1
  step env (Input.local_sdp e) s = (local_ready ops env e s).1
  step env (Input.remote_sdp e b) s = remote_ready e b s
  step env (Input.sdp_error x) s = (sdp_failed ops env x s).1
  step env (Input.cancel st rtime reason) s = cancel_call st rtime reason s
  step env (Input.new_credit_times rtime times) s = reset_credit_time rtime times s
  step env Input.dead_timer s = go_dead s
  step env Input.idle_timer s = go_idle s
  step env Input.refer_complete s = on_refer_complete s
  step env (Input.keep_alive k) s = on_keep_alive k s
  step env (Input.keep_alive_response k resp) s = (on_keep_alive_response ops env k resp s).1

  unfoldable pub run : List (Env × Input B) → Ua B → Ua B
  unfolding step
  run [] s = s
  run ((env, i) ∷ is) s = run is (step env i s)
