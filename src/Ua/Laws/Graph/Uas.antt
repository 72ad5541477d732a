-- ===== src/Ua/Laws/Graph/Uas.antt =====
-- The states that the called side goes through, and those of a connected call.
use b2bua.Prelude.{
  ℕ, String, ◌==◌, ◌&&◌, refl, inl, inr, Bool, true, false, Option, none, some, List, Option-cases,
  arith, if_elim,
}
use b2bua.Sip.Message.{Url, InRequest}
use b2bua.Ua.Types.{provisional, State, LocalOutcome, Status, Event, Next, stay}
use b2bua.Ua.State.{Ua}
use b2bua.Ua.Local.{BodyOps, Env}
use b2bua.Ua.Timers.{call, cancel_expires}
use b2bua.Ua.Requests.{is_some}
use b2bua.Sip.Message.{Referred}
use b2bua.Ua.Laws.Graph.{Follows, finish_remote-Follows, unless_delayed-Follows}
use b2bua.Ua.Uas.Idle.{idle_invite}
use b2bua.Ua.Uas.Progressing.{
  ring_data, ring_sent, progressing_ring, progressing_connect, progressing_pre_connect,
  progressing_redirect, progressing_fail, progressing_disconnect, disconnect_from_request,
  ringing_bye,
}
use b2bua.Ua.Uas.Updating.{
  updating_ring, updating_connect, updating_fail, updating_redirect, updating_disconnect,
  updating_bye, updating_refer,
}
use b2bua.Ua.Connected.Requests.{
  connected_invite, connected_update, connected_bye, connected_info, connected_ack,
}
use b2bua.Ua.Connected.Events.{
  connected_give_up, ask_local, send_update, connected_update_event, connected_info_event,
  connected_connect, ack_late,
}

-- UasStateTrying and UasStateRinging.
abbrev pub progressing : Bool → State
progressing true = State.uas_trying
progressing false = State.uas_ringing

module _ {B : Type 0} where
  pub idle_invite-Follows :
      (env : Env) (req : InRequest B) (s : Ua B) → Follows State.uas_idle (idle_invite env req s).0
  unfolding idle_invite
  idle_invite-Follows env req s = finish_remote-Follows State.uas_idle _ _ _ _ refl

  ring_sent-Follows :
      (trying : Bool) (e : Event B) (d : Option (ℕ × String × Option B)) (s : Ua B)
      → Follows (progressing trying) (ring_sent trying e d s).0
  unfolding ring_sent
  ring_sent-Follows true e d s = refl
  ring_sent-Follows false e d s = tt

  pub progressing_ring-Follows :
      (ops : BodyOps B) (trying : Bool) (e : Event B) (d : Option (ℕ × String × Option B))
      (s : Ua B)
      → Follows (progressing trying) (progressing_ring ops trying e d s).0
  unfolding progressing_ring
  progressing_ring-Follows ops trying e d s =
      if_elim (λ (x : Next × Ua B). Follows (progressing trying) x.0)
        (trying && (is_some d && (ring_data d).0 == 100)) (λ _. tt)
        (λ _.
          unless_delayed-Follows (progressing trying) ops _ e _ _ (ring_sent-Follows trying e d s))

  pub progressing_connect-Follows :
      (ops : BodyOps B) (trying : Bool) (e : Event B) (c : Status) (p : String) (b : Option B)
      (s : Ua B)
      → Follows (progressing trying) (progressing_connect ops trying e c p b s).0
  unfolding progressing_connect
  progressing_connect-Follows ops true e c p b s =
      unless_delayed-Follows State.uas_trying ops b e _ _ refl
  progressing_connect-Follows ops false e c p b s =
      unless_delayed-Follows State.uas_ringing ops b e _ _ refl

  pub progressing_pre_connect-Follows :
      (ops : BodyOps B) (trying : Bool) (e : Event B) (c : Status) (p : String) (b : Option B)
      (s : Ua B)
      → Follows (progressing trying) (progressing_pre_connect ops trying e c p b s).0
  unfolding progressing_pre_connect
  progressing_pre_connect-Follows ops true e c p b s =
      unless_delayed-Follows State.uas_trying ops b e _ _ refl
  progressing_pre_connect-Follows ops false e c p b s =
      unless_delayed-Follows State.uas_ringing ops b e _ _ refl

  pub progressing_redirect-Follows :
      (trying : Bool) (e : Event B) (d : Option (ℕ × String × Option B × Option (List Url)))
      (s : Ua B)
      → Follows (progressing trying) (progressing_redirect trying e d s).0
  unfolding progressing_redirect
  progressing_redirect-Follows true e d s = refl
  progressing_redirect-Follows false e d s = refl

  pub progressing_fail-Follows :
      (trying : Bool) (e : Event B) (d : Option (ℕ × String × Option B)) (s : Ua B)
      → Follows (progressing trying) (progressing_fail trying e d s).0
  unfolding progressing_fail
  progressing_fail-Follows true e d s = refl
  progressing_fail-Follows false e d s = refl

  pub progressing_disconnect-Follows :
      (trying : Bool) (e : Event B) (s : Ua B)
      → Follows (progressing trying) (progressing_disconnect trying e s).0
  unfolding progressing_disconnect
  progressing_disconnect-Follows true e s = refl
  progressing_disconnect-Follows false e s = refl

  pub ringing_bye-Follows :
      (r : InRequest B) (s : Ua B) → Follows State.uas_ringing (ringing_bye r s).0
  unfolding ringing_bye disconnect_from_request
  ringing_bye-Follows r s = refl

  pub updating_ring-Follows :
      (ops : BodyOps B) (e : Event B) (d : Option (ℕ × String × Option B)) (s : Ua B)
      → Follows State.uas_updating (updating_ring ops e d s).0
  unfolding updating_ring
  updating_ring-Follows ops e none s = tt
  updating_ring-Follows ops e (some (c, p, b)) s =
      unless_delayed-Follows State.uas_updating ops b e _ _ tt

  pub updating_connect-Follows :
      (ops : BodyOps B) (e : Event B) (c : Status) (p : String) (b : Option B) (s : Ua B)
      → Follows State.uas_updating (updating_connect ops e c p b s).0
  unfolding updating_connect
  updating_connect-Follows ops e c p b s =
      unless_delayed-Follows State.uas_updating ops b e _ _ refl

  pub updating_redirect-Follows :
      (e : Event B) (d : Option (ℕ × String × Option B × Option (List Url))) (s : Ua B)
      → Follows State.uas_updating (updating_redirect e d s).0
  unfolding updating_redirect
  updating_redirect-Follows e d s = tt

  pub updating_fail-Follows :
      (e : Event B) (d : Option (ℕ × String × Option B)) (s : Ua B)
      → Follows State.uas_updating (updating_fail e d s).0
  unfolding updating_fail
  updating_fail-Follows e d s = ground arith

  pub updating_disconnect-Follows :
      (e : Event B) (s : Ua B) → Follows State.uas_updating (updating_disconnect e s).0
  unfolding updating_disconnect
  updating_disconnect-Follows e s = refl

  pub updating_bye-Follows :
      (r : InRequest B) (s : Ua B) → Follows State.uas_updating (updating_bye r s).0
  unfolding updating_bye disconnect_from_request
  updating_bye-Follows r s = refl

  pub updating_refer-Follows :
      (r : InRequest B) (s : Ua B) → Follows State.uas_updating (updating_refer r s).0
  unfolding updating_refer disconnect_from_request
  updating_refer-Follows r s = ground arith

  connected_update-Follows :
      (r : InRequest B) (b : Option B) (s : Ua B)
      → Follows State.connected (connected_update r b s).0
  unfolding connected_update
  connected_update-Follows r b s = finish_remote-Follows State.connected _ _ _ _ refl

  pub connected_invite-Follows :
      (ops : BodyOps B) (r : InRequest B) (s : Ua B)
      → Follows State.connected (connected_invite ops r s).0
  unfolding connected_invite
  connected_invite-Follows ops r s =
      let s1 = call provisional (record s { answering = some r.cseq }) in
      elim (Option-cases r.body) [
        | inl e ↦ elim (Option-cases s.media.rsdp) [
          | inl f ↦ ground (arith, e, f)
          | inr (b, f) ↦ ground (arith, e, f, connected_update-Follows r (some (ops.hold b)) s1)
        ]
        | inr (b, e) ↦ ground (arith, e, connected_update-Follows r (some b) s1)
      ]

  pub connected_bye-Follows :
      (r : InRequest B) (s : Ua B) → Follows State.connected (connected_bye r s).0
  unfolding connected_bye disconnect_from_request
  connected_bye-Follows r s = refl

  pub connected_info-Follows :
      (r : InRequest B) (s : Ua B) → Follows State.connected (connected_info r s).0
  unfolding connected_info
  connected_info-Follows r s = tt

  connected_ack-Follows :
      (r : InRequest B) (s : Ua B) → Follows State.connected (connected_ack r s).0
  unfolding connected_ack
  connected_ack-Follows r s = finish_remote-Follows State.connected _ _ _ _ tt

  pub connected_give_up-Follows :
      (e : Event B) (d : Option Referred) (s : Ua B)
      → Follows State.connected (connected_give_up e d s).0
  unfolding connected_give_up
  connected_give_up-Follows e d s = refl

  ask_local-Follows :
      (b : B) (e : Event B) (o : LocalOutcome) (s : Ua B)
      → Follows State.connected (ask_local b e o s).0
  unfolding ask_local
  ask_local-Follows b e o s = ground arith

  send_update-Follows :
      (e : Event B) (b : B) (s : Ua B) → Follows State.connected (send_update e b s).0
  unfolding send_update
  send_update-Follows e b s = ground arith

  pub connected_update_event-Follows :
      (ops : BodyOps B) (e : Event B) (b : Option B) (s : Ua B)
      → Follows State.connected (connected_update_event ops e b s).0
  unfolding connected_update_event
  connected_update_event-Follows ops e none s = tt
  connected_update_event-Follows ops e (some b) s = elim (Option-cases s.media.on_local) [
    | inl n ↦ ground (arith, n, send_update-Follows e b s)
    | inr (hook, h) ↦ ground (arith, h, send_update-Follows e b s, ask_local-Follows b e (hook b) s)
  ]

  pub connected_info_event-Follows :
      (e : Event B) (b : Option B) (s : Ua B)
      → Follows State.connected (connected_info_event e b s).0
  unfolding connected_info_event
  connected_info_event-Follows e b s = tt

  pub connected_connect-Follows :
      (ops : BodyOps B) (e : Event B) (b : Option B) (s : Ua B)
      → Follows State.connected (connected_connect ops e b s).0
  unfolding connected_connect
  connected_connect-Follows ops e b s = elim (Option-cases s.pending_tr) [
    | inl h ↦ ground (arith, h)
    | inr (t, h) ↦ ground (
      arith,
      h,
      unless_delayed-Follows State.connected ops b e (cancel_expires s)
          (stay, ack_late e b t (cancel_expires s)) tt,
    )
  ]
