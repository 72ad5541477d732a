-- ===== src/B2b/Legs.antt =====
-- What the two call legs tell the controller (sippy/b2bua.py: oConn, aConn, aDisc, aDead, oDead), and
-- the controller's calls of them. The UAs are a parameter: when the controller calls one, it may call
-- back any of these meanwhile, and is in any state afterwards. The events that it emits then come
-- after the handler, which ends with that call, or only sets `state` after it.
use b2bua.Prelude.{
  ℕ, suc, String, Bool, true, false, Option, none, some, List, [], ◌∷◌, ◌==◌, ◌&&◌, not,
  if◌then◌else◌,
}
use b2bua.Ua.Types.{State, Event, EventKind}
use b2bua.B2b.Types.{
  CcState, idle, wait_route, ar_complete, connected, dead, disconnecting, Command, tell, hang_up,
  cancel_auth, account_connect, account_disconnect, remove, no_account, fake, radius, Controller,
  Attempt, ok, err, ◌>>=◌, attribute_error,
}

-- What a UA calls back: its conn_cbs, its disc_cbs or fail_cbs, its dead_cbs.
pub data Callback : Type 0 where
  on_conn : ℕ → Option String → Callback
  on_disc : ℕ → Option String → ℕ → Callback
  on_dead : Callback

abbrev pub is_dead_leg : Option State → Bool
is_dead_leg (some State.dead) = true
is_dead_leg _ = false

abbrev pub is_trying_leg : Option State → Bool
is_trying_leg (some State.uas_trying) = true
is_trying_leg _ = false

abbrev pub is_ringing_leg : Option State → Bool
is_ringing_leg (some State.uas_ringing) = true
is_ringing_leg _ = false

unfoldable pub same_state : CcState → CcState → Bool
same_state idle idle = true
same_state wait_route wait_route = true
same_state ar_complete ar_complete = true
same_state connected connected = true
same_state dead dead = true
same_state disconnecting disconnecting = true
same_state _ _ = false

abbrev pub has_leg : Option ℕ → Bool
has_leg none = false
has_leg (some n) = true

abbrev pub is_current : ℕ → Option ℕ → Bool
is_current n none = false
is_current n (some m) = n == m

module _ {B : Type 0} where
  abbrev pub command : Command B → Controller B → Controller B
  command x c = record c { commands = x ∷ c.commands }

  -- oConn.
  abbrev pub o_conn : ℕ → Option String → Controller B → Controller B
  o_conn rtime origin c = elim c.acct_o [
    | none ↦ c
    | some n ↦ command (account_connect n rtime origin) c
  ]

  -- aConn.
  unfoldable pub a_conn : ℕ → Option String → Controller B → Attempt (Controller B)
  a_conn rtime origin c = elim c.acct_a [
    | no_account ↦ err attribute_error
    | fake ↦ ok (record c { state = connected })
    | radius ↦ ok (command (account_connect 0 rtime origin) (record c { state = connected }))
  ]

  abbrev pub drop_auth : Controller B → Controller B
  drop_auth c =
      if same_state c.state wait_route && c.auth_proc
      then command cancel_auth (record c { auth_proc = false })
      else c

  abbrev pub end_account : ℕ → Option String → ℕ → Controller B → Controller B
  end_account rtime origin result c = elim c.acct_a [
    | no_account ↦ c
    | fake ↦ c
    | radius ↦ command (account_disconnect 0 rtime origin result) c
  ]

  -- aDisc.
  unfoldable pub a_disc : ℕ → Option String → ℕ → Controller B → Controller B
  unfolding same_state
  a_disc rtime origin result c =
      let c1 = drop_auth c in
      let c2 = record c1 {
        state = if has_leg c1.ua_o && not (same_state c1.state dead) then disconnecting else dead;
      } in
      record (end_account rtime origin result c2) { rtp_session = false }

  -- What both ends do once they are dead.
  abbrev pub forget_call : Controller B → Controller B
  forget_call c = command remove (record c { acct_a = no_account; acct_o = none })

  abbrev pub o_is_dead : Controller B → Bool
  o_is_dead c = elim c.ua_o [ none ↦ true | some n ↦ is_dead_leg (c.legs n).state ]

  -- aDead.
  unfoldable pub a_dead : Controller B → Controller B
  a_dead c = if o_is_dead c then forget_call c else c

  -- oDead of the UA `n`.
  unfoldable pub o_dead : ℕ → Controller B → Controller B
  o_dead n c = if is_current n c.ua_o && is_dead_leg (c.legs 0).state then forget_call c else c

  abbrev pub o_disc : ℕ → ℕ → Option String → ℕ → Controller B → Controller B
  o_disc n rtime origin result c =
      if (c.legs n).accounted then command (account_disconnect n rtime origin result) c else c

  unfoldable pub called_back : ℕ → Callback → Controller B → Attempt (Controller B)
  unfolding a_conn a_disc a_dead o_dead
  called_back n (on_conn rtime origin) c =
      if n == 0 then a_conn rtime origin c else ok (o_conn rtime origin c)
  called_back n (on_disc rtime origin result) c =
      ok (if n == 0 then a_disc rtime origin result c else o_disc n rtime origin result c)
  called_back n on_dead c = ok (if n == 0 then a_dead c else o_dead n c)

  unfoldable pub all_called_back : ℕ → List Callback → Controller B → Attempt (Controller B)
  all_called_back n [] c = ok c
  all_called_back n (k ∷ ks) c = called_back n k c >>= all_called_back n ks

  abbrev pub set_leg : ℕ → State → Controller B → Controller B
  set_leg n s c = record c {
    legs = λ j. if n == j then record (c.legs j) { state = some s } else c.legs j;
  }

-- The UAs and the clock: what a UA calls back while it is called, its state after that and the number
-- of the next event; what MonoTime() returns.
pub record World (B : Type 0) : Type 0 where
  pub reaction : ℕ → Event B → Controller B → List Callback × State × ℕ
  pub now : ℕ

module _ {B : Type 0} where
  -- An event that the controller makes, and `CCEventGeneric.seq += 1`.
  abbrev pub new_event : EventKind B → ℕ → Option String → Controller B → Event B
  new_event kind rtime origin c = record {
    kind = kind;
    seq = c.next_seq;
    rtime = rtime;
    origin = origin;
    reason = none;
    extra_headers = [];
    max_forwards = none;
    challenges = [];
    warning = none;
  }

  abbrev pub count_event : Controller B → Controller B
  count_event c = record c { next_seq = suc c.next_seq }

  abbrev pub reacted : World B → ℕ → Event B → Command B → Controller B → Attempt (Controller B)
  reacted w n e x c =
      let r = w.reaction n e c in
      all_called_back n r.0 (set_leg n r.1 (command x (record c { next_seq = r.2 })))

  -- `recvEvent(event)` of the UA `n`.
  unfoldable pub tell_leg : World B → ℕ → Event B → Controller B → Attempt (Controller B)
  unfolding all_called_back
  tell_leg w n e c = reacted w n e (tell n e) c

  -- `disconnect(rtime, origin)` of the UA `n`, which hands itself a Disconnect.
  unfoldable pub hang_up_leg :
      World B → ℕ → ℕ → Option String → Controller B → Attempt (Controller B)
  unfolding all_called_back
  hang_up_leg w n rtime origin c =
      reacted w n (new_event (EventKind.disconnect none) rtime origin c) (hang_up n rtime origin)
        (count_event c)

  -- `recvEvent` of the UA `n` with an event that the controller makes.
  abbrev pub tell_new : World B → ℕ → EventKind B → ℕ → Controller B → Attempt (Controller B)
  tell_new w n kind rtime c = tell_leg w n (new_event kind rtime none c) (count_event c)

  -- `self.state = CCStateDead`, after the event for `uaA`.
  abbrev pub give_up : World B → ℕ → String → ℕ → Controller B → Attempt (Controller B)
  give_up w code text rtime c =
      tell_new w 0 (EventKind.fail (some (code, text, none))) rtime c >>= λ c1.
      ok (record c1 { state = dead })
