-- ===== src/Ua/Laws/Frame/Uas.antt =====
-- The handlers of an incoming call, and those of a connected one, leave the frame alone.
use b2bua.Prelude.{ℕ, List, String, Bool, true, false, Option, none, some, arith}
use b2bua.Sip.Message.{bye, Url, Header, InRequest, Referred}
use b2bua.Ua.Types.{Status, Event, get_extra_headers, LocalOutcome}
use b2bua.Ua.State.{Ua}
use b2bua.Ua.Timers.{
  arm_expires, arm_no_progress, cancel_expires, cancel_no_progress, cancel_credit_timer,
  start_credit_timer,
}
use b2bua.Ua.Queue.{post}
use b2bua.Ua.Requests.{send_request}
use b2bua.Ua.Local.{BodyOps, Env}
use b2bua.Ua.Uas.Idle.{idle_invite, accept_dialog, arm_progress}
use b2bua.Ua.Uas.Progressing.{
  ring_data, ring_sent, send_ring, ring_progress, progressing_ring, progressing_connect,
  progressing_pre_connect, progressing_redirect, progressing_fail, progressing_disconnect,
  disconnect_from_request, ringing_bye,
}
use b2bua.Ua.Uas.Updating.{
  updating_ring, updating_connect, updating_disconnect, updating_bye, updating_refer,
}
use b2bua.Ua.Connected.Requests.{connected_update, connected_bye, connected_info, connected_ack}
use b2bua.Ua.Connected.Events.{send_off, connected_give_up, ask_local, send_update}
use b2bua.Ua.Laws.Frame.Parts.{
  Frame, Frame-refl, finish_take-Frame, then_notify-Frame, delayed-Frame, send_request-Frame,
}

module _ {B : Type 0} where
  pub idle_invite-Frame :
      (env : Env) (req : InRequest B) (s : Ua B) → Frame s (idle_invite env req s).1
  unfolding idle_invite accept_dialog arm_progress arm_no_progress arm_expires
  idle_invite-Frame env req s = finish_take-Frame _ _ _ _ _ _ (λ u. ground arith) (ground arith)

  pub ring_sent-Frame :
      (trying : Bool) (e : Event B) (d : Option (ℕ × String × Option B)) (s : Ua B)
      → Frame s (ring_sent trying e d s).1
  unfolding ring_sent ring_progress send_ring cancel_no_progress arm_expires
  ring_sent-Frame true e d s = ground arith
  ring_sent-Frame false e d s = then_notify-Frame _ _ _ (ground arith)

  pub progressing_ring-Frame :
      (ops : BodyOps B) (trying : Bool) (e : Event B) (d : Option (ℕ × String × Option B))
      (s : Ua B)
      → Frame s (progressing_ring ops trying e d s).1
  unfolding progressing_ring
  progressing_ring-Frame ops trying e d s = ground (
    arith,
    delayed-Frame ops (ring_data d).2 e (ring_sent trying e d s) s s (Frame-refl s)
        (ring_sent-Frame trying e d s),
  )

  pub progressing_connect-Frame :
      (ops : BodyOps B) (trying : Bool) (e : Event B) (c : Status) (p : String) (b : Option B)
      (s : Ua B)
      → Frame s (progressing_connect ops trying e c p b s).1
  unfolding progressing_connect start_credit_timer cancel_expires cancel_no_progress
  progressing_connect-Frame ops trying e c p b s =
      delayed-Frame ops b e _ s s (Frame-refl s) (ground arith)

  pub progressing_pre_connect-Frame :
      (ops : BodyOps B) (trying : Bool) (e : Event B) (c : Status) (p : String) (b : Option B)
      (s : Ua B)
      → Frame s (progressing_pre_connect ops trying e c p b s).1
  unfolding progressing_pre_connect cancel_no_progress
  progressing_pre_connect-Frame ops trying e c p b s =
      delayed-Frame ops b e _ s s (Frame-refl s) (ground arith)

  pub progressing_redirect-Frame :
      (trying : Bool) (e : Event B) (d : Option (ℕ × String × Option B × Option (List Url)))
      (s : Ua B)
      → Frame s (progressing_redirect trying e d s).1
  unfolding progressing_redirect cancel_expires cancel_no_progress
  progressing_redirect-Frame trying e d s = ground arith

  pub progressing_fail-Frame :
      (trying : Bool) (e : Event B) (d : Option (ℕ × String × Option B)) (s : Ua B)
      → Frame s (progressing_fail trying e d s).1
  unfolding progressing_fail cancel_expires cancel_no_progress
  progressing_fail-Frame trying e d s = ground arith

  pub progressing_disconnect-Frame :
      (trying : Bool) (e : Event B) (s : Ua B) → Frame s (progressing_disconnect trying e s).1
  unfolding progressing_disconnect cancel_expires cancel_no_progress
  progressing_disconnect-Frame trying e s = ground arith

  pub ringing_bye-Frame : (req : InRequest B) (s : Ua B) → Frame s (ringing_bye req s).1
  unfolding ringing_bye disconnect_from_request cancel_expires post
  ringing_bye-Frame req s = ground arith

  pub updating_ring-Frame :
      (ops : BodyOps B) (e : Event B) (d : Option (ℕ × String × Option B)) (s : Ua B)
      → Frame s (updating_ring ops e d s).1
  unfolding updating_ring send_ring
  updating_ring-Frame ops e none s = ground arith
  updating_ring-Frame ops e (some (code, phrase, body)) s =
      delayed-Frame ops body e _ s s (Frame-refl s) (ground arith)

  pub updating_connect-Frame :
      (ops : BodyOps B) (e : Event B) (c : Status) (p : String) (b : Option B) (s : Ua B)
      → Frame s (updating_connect ops e c p b s).1
  unfolding updating_connect
  updating_connect-Frame ops e c p b s = delayed-Frame ops b e _ s s (Frame-refl s) (ground arith)

  pub updating_disconnect-Frame : (e : Event B) (s : Ua B) → Frame s (updating_disconnect e s).1
  unfolding updating_disconnect send_request cancel_credit_timer
  updating_disconnect-Frame e s = ground arith

  pub updating_bye-Frame : (req : InRequest B) (s : Ua B) → Frame s (updating_bye req s).1
  unfolding updating_bye disconnect_from_request cancel_credit_timer post
  updating_bye-Frame req s = ground arith

  pub updating_refer-Frame : (req : InRequest B) (s : Ua B) → Frame s (updating_refer req s).1
  unfolding updating_refer disconnect_from_request cancel_credit_timer post
  updating_refer-Frame req s = ground arith

  pub connected_update-Frame :
      (req : InRequest B) (b : Option B) (s : Ua B) → Frame s (connected_update req b s).1
  unfolding connected_update
  connected_update-Frame req b s = finish_take-Frame _ _ _ _ _ _ Frame-refl (ground arith)

  pub connected_bye-Frame : (req : InRequest B) (s : Ua B) → Frame s (connected_bye req s).1
  unfolding connected_bye disconnect_from_request cancel_credit_timer post
  connected_bye-Frame req s = ground arith

  pub connected_info-Frame : (req : InRequest B) (s : Ua B) → Frame s (connected_info req s).1
  unfolding connected_info post
  connected_info-Frame req s = ground arith

  pub connected_ack-Frame : (req : InRequest B) (s : Ua B) → Frame s (connected_ack req s).1
  unfolding connected_ack start_credit_timer cancel_credit_timer cancel_expires
  connected_ack-Frame req s =
      finish_take-Frame _ _ _ _ _ _ Frame-refl (then_notify-Frame _ _ _ (ground arith))

  pub send_off-Frame :
      (eh : List Header) (to : Option Referred) (s : Ua B) → Frame s (send_off eh to s)
  unfolding send_off
  send_off-Frame eh none s = send_request-Frame bye eh s
  send_off-Frame eh (some to) s = ground arith

  pub connected_give_up-Frame :
      (e : Event B) (to : Option Referred) (s : Ua B) → Frame s (connected_give_up e to s).1
  unfolding connected_give_up cancel_credit_timer
  connected_give_up-Frame e to s = ground (arith, send_off-Frame (get_extra_headers e) to s)

  pub ask_local-Frame :
      (b : B) (e : Event B) (o : LocalOutcome) (s : Ua B) → Frame s (ask_local b e o s).1
  unfolding ask_local post
  ask_local-Frame b e o s = ground arith

  pub send_update-Frame : (e : Event B) (b : B) (s : Ua B) → Frame s (send_update e b s).1
  unfolding send_update post
  send_update-Frame e b s = ground arith
