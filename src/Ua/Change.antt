-- ===== src/Ua/Change.antt =====
-- UA.changeState (sippy/UA.py): the old state's `onStateChange`, the new state's `__init__`, and the
-- callbacks of the tuple.
use b2bua.Prelude.{
  ℕ, suc, String, true, false, Option, none, some, List, [], ◌∷◌, ltb, if◌then◌else◌,
}
use b2bua.Ua.Types.{
  State, keep_alive, go_dead, go_idle, Call, arm, cancel_transaction, send_ack, notify, notify_dead,
  unregister, Notice,
}
use b2bua.Ua.State.{Ua}
use b2bua.Ua.Timers.{call, cancel_expires}

-- The arguments of a tuple's callbacks, `newstate[1:]`.
abbrev pub notice : List ℕ → ℕ → Option String → Option ℕ → Option Notice
notice cbs rtime origin code =
    some (record { callbacks = cbs; rtime = rtime; origin = origin; code = code })

module _ {B : Type 0} where
  -- `if self.ka_tr != None: cancelTransaction(self.ka_tr)`.
  abbrev drop_keep_alive : Ua B → Ua B
  drop_keep_alive s = elim s.ka_tr [
    | none ↦ s
    | some t ↦ record s { ka_tr = none; calls = cancel_transaction (some t) [] ∷ s.calls }
  ]

  -- `if self.ua.pending_tr != None: sendACK(self.ua.pending_tr)`. The ACK has no body yet.
  abbrev ack_pending : Ua B → Ua B
  ack_pending s = elim s.pending_tr [
    | none ↦ s
    | some t ↦ record s { pending_tr = none; calls = send_ack t none ∷ s.calls }
  ]

  -- onStateChange: UaStateConnected alone overrides it.
  unfoldable pub leave : State → Ua B → Ua B
  leave State.connected s = cancel_expires (ack_pending (drop_keep_alive s))
  leave _ s = s

  abbrev no_hooks : Ua B → Ua B
  no_hooks s = record s { media = record s.media { on_local = none; on_remote = none } }

  -- UaStateConnected.__init__.
  unfoldable pub enter_connected : Ua B → Ua B
  enter_connected s =
      let s1 = record s {
        keepalives = 0;
        ka_tr = none;
        dialog = record s.dialog { branch = none };
      } in
      if ltb 0 s.config.ka_interval then call (arm keep_alive s.config.ka_interval) s1 else s1

  -- UaStateFailed.__init__ and UaStateDisconnected.__init__.
  unfoldable pub enter_ended : Ua B → Ua B
  enter_ended s = call (arm go_dead s.config.godead_timeout) (no_hooks s)

  -- UacStateCancelling.__init__.
  unfoldable pub enter_cancelling : Ua B → Ua B
  enter_cancelling s = call (arm go_idle 300000) (record (no_hooks s) { te = true })

  unregister_call : Option String → List (Call B) → List (Call B)
  unregister_call none cs = cs
  unregister_call (some id) cs = unregister id ∷ cs

  notify_dead_all : List ℕ → List (Call B) → List (Call B)
  notify_dead_all [] cs = cs
  notify_dead_all (f ∷ fs) cs = notify_dead_all fs (notify_dead f ∷ cs)

  -- UaStateDead.__init__. `reqs = None` is the empty dictionary: a dead UA does not read it. The
  -- transaction, an object of the manager, loses its `resp_cb` there; here its responses may still
  -- come, and find a dead UA.
  unfoldable pub enter_dead : Ua B → Ua B
  unfolding unregister_call notify_dead_all
  enter_dead s = record s {
    tr = none;
    timers = record s.timers { expires = none; no_progress = none; credit = none };
    dialog = record s.dialog { reqs = [] };
    media = record s.media { on_local = none; on_remote = none };
    queue = record s.queue { listening = false };
    cbs = record s.cbs { conn = []; disc = []; fail = []; dead = [] };
    calls = notify_dead_all s.cbs.dead (unregister_call s.dialog.call_id s.calls);
  }

  unfoldable pub enter : State → Ua B → Ua B
  unfolding enter_connected enter_ended enter_cancelling enter_dead
  enter State.connected s = enter_connected s
  enter State.disconnected s = enter_ended s
  enter State.failed s = enter_ended s
  enter State.uac_cancelling s = enter_cancelling s
  enter State.dead s = enter_dead s
  enter _ s = s

  -- `for callback in newstate[1]: callback(self, *newstate[2:])`.
  unfoldable pub notify_each : List ℕ → Notice → Ua B → Ua B
  notify_each [] n s = s
  notify_each (f ∷ fs) n s = notify_each fs n (call (notify f n.rtime n.origin n.code) s)

  unfoldable pub notify_all : Option Notice → Ua B → Ua B
  unfolding notify_each
  notify_all none s = s
  notify_all (some n) s = notify_each n.callbacks n s

  abbrev pub leave_current : Option State → Ua B → Ua B
  leave_current none s = s
  leave_current (some old) s = leave old s

  unfoldable pub change_state : State → Option Notice → Ua B → Ua B
  change_state new notice s =
      let s1 = leave_current s.state s in
      let s2 = enter new s1 in
      notify_all notice (record s2 { state = some new; instance_no = suc s2.instance_no })
