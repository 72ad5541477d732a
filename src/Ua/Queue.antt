-- ===== src/Ua/Queue.antt =====
-- Events on their way to the application (sippy/CCEvents.py, CCEventGeneric.__init__; sippy/UA.py,
-- emitEvent and emitPendingEvents). A callback is taken not to call back into the same UA.
use b2bua.Prelude.{
  ℕ, suc, String, true, Option, none, some, List, [], ◌∷◌, ◌++◌, Bool, not, leb, if◌then◌else◌,
}
use b2bua.Sip.Message.{Header}
use b2bua.Ua.Types.{Event, EventKind}
use b2bua.Ua.State.{Ua, Queue}

-- `self.elast_seq != None and self.elast_seq >= event.seq`, negated.
abbrev pub is_newer : ℕ → Option ℕ → Bool
is_newer seq none = true
is_newer seq (some n) = not (leb seq n)

module _ {B : Type 0} where
  -- A new event with the next number.
  abbrev pub make_event : EventKind B → ℕ → Option String → Option Header → Ua B → Event B
  make_event kind rtime origin reason s = record {
    kind = kind;
    seq = s.queue.next_seq;
    rtime = rtime;
    origin = origin;
    reason = reason;
    extra_headers = [];
    max_forwards = none;
    challenges = [];
    warning = none;
  }

  -- `CCEventGeneric.seq += 1`.
  abbrev pub count_event : Ua B → Ua B
  count_event s = record s { queue = record s.queue { next_seq = suc s.queue.next_seq } }

  -- `self.ua.equeue.append(event)`.
  abbrev pub enqueue : Event B → Ua B → Ua B
  enqueue e s = record s { queue = record s.queue { equeue = s.queue.equeue ++ e ∷ [] } }

  -- Construct an event and append it.
  unfoldable pub post : EventKind B → ℕ → Option String → Option Header → Ua B → Ua B
  post kind rtime origin reason s = enqueue (make_event kind rtime origin reason s) (count_event s)

  -- One turn of the loop: an event that is not newer than the last one is dropped.
  unfoldable pub deliver : Event B → Queue B → Queue B
  deliver e q =
      if is_newer e.seq q.elast_seq
      then record q { elast_seq = some e.seq; delivered = e ∷ q.delivered }
      else q

  unfoldable pub drain : List (Event B) → Queue B → Queue B
  drain [] q = q
  drain (e ∷ es) q = drain es (deliver e q)

  -- emitPendingEvents.
  unfoldable pub emit_pending : Ua B → Ua B
  emit_pending s =
      let q = s.queue in
      if q.listening then record s { queue = drain q.equeue (record q { equeue = [] }) } else s

  -- emitEvent.
  unfoldable pub emit_event : Event B → Ua B → Ua B
  emit_event e s = if s.queue.listening then record s { queue = deliver e s.queue } else s
