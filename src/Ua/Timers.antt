-- ===== src/Ua/Timers.antt =====
-- Starting and cancelling the timers of a UA (sippy/UA.py: cancelCreditTimer, startCreditTimer,
-- resetCreditTime; the repeated blocks `if self.ua.x_timer != None: cancel; = None` of the states).
use b2bua.Prelude.{ℕ, ◌+◌, Option, none, some, [], ◌∷◌, leb, if◌then◌else◌}
use b2bua.Prelude.Assoc.{Assoc, insert, nat_key}
use b2bua.Ua.Types.{expires, no_progress, no_reply, credit, Call, arm, disarm}
use b2bua.Ua.State.{Ua}

module _ {B : Type 0} where
  abbrev pub call : Call B → Ua B → Ua B
  call c s = record s { calls = c ∷ s.calls }

  -- `TimeoutAbsMono(cb, mtime)` kept in its attribute.
  unfoldable pub arm_expires : Ua B → Ua B
  arm_expires s = record s {
    timers = record s.timers { expires = some s.limits.expire_mtime };
    calls = arm expires s.limits.expire_mtime ∷ s.calls;
  }

  unfoldable pub arm_no_progress : Ua B → Ua B
  arm_no_progress s = record s {
    timers = record s.timers { no_progress = some s.limits.no_progress_mtime };
    calls = arm no_progress s.limits.no_progress_mtime ∷ s.calls;
  }

  unfoldable pub arm_no_reply : ℕ → Ua B → Ua B
  arm_no_reply mtime s = record s {
    timers = record s.timers { no_reply = some mtime };
    calls = arm no_reply mtime ∷ s.calls;
  }

  unfoldable pub cancel_expires : Ua B → Ua B
  cancel_expires s = elim s.timers.expires [
    | none ↦ s
    | some _ ↦ record s {
      timers = record s.timers { expires = none };
      calls = disarm expires ∷ s.calls;
    }
  ]

  unfoldable pub cancel_no_progress : Ua B → Ua B
  cancel_no_progress s = elim s.timers.no_progress [
    | none ↦ s
    | some _ ↦ record s {
      timers = record s.timers { no_progress = none };
      calls = disarm no_progress ∷ s.calls;
    }
  ]

  unfoldable pub cancel_no_reply : Ua B → Ua B
  cancel_no_reply s = elim s.timers.no_reply [
    | none ↦ s
    | some _ ↦ record s {
      timers = record s.timers { no_reply = none };
      calls = disarm no_reply ∷ s.calls;
    }
  ]

  unfoldable pub cancel_credit_timer : Ua B → Ua B
  cancel_credit_timer s = elim s.timers.credit [
    | none ↦ s
    | some _ ↦ record s {
      timers = record s.timers { credit = none };
      calls = disarm credit ∷ s.calls;
    }
  ]

unfoldable pub lesser : ℕ → Option ℕ → Option ℕ
lesser a none = some a
lesser a (some b) = if leb a b then some a else some b

-- `min([x for x in credit_times.values() if x != None])`, and `none` where that is empty.
unfoldable pub least : Assoc ℕ (Option ℕ) → Option ℕ
unfolding lesser
least [] = none
least ((_, none) ∷ d) = least d
least ((_, some t) ∷ d) = lesser t (least d)

-- `dict.update`.
unfoldable pub update_times : Assoc ℕ (Option ℕ) → Assoc ℕ (Option ℕ) → Assoc ℕ (Option ℕ)
update_times d [] = d
update_times d ((k, v) ∷ more) = update_times (insert k v d) more

module _ {B : Type 0} where
  -- The first half of startCreditTimer: the call's own credit time counts from `rtime`.
  unfoldable pub spend_credit_time : ℕ → Ua B → Ua B
  spend_credit_time rtime s = elim s.limits.credit_time [
    | none ↦ s
    | some t ↦ record s {
      limits = record s.limits {
        credit_time = none;
        credit_times = insert 0 (some (rtime + t)) s.limits.credit_times;
      };
    }
  ]

  unfoldable pub arm_credit : Ua B → Ua B
  arm_credit s = elim (least s.limits.credit_times) [
    | none ↦ s
    | some t ↦ record s {
      timers = record s.timers { credit = some t };
      calls = arm credit t ∷ s.calls;
    }
  ]

  unfoldable pub start_credit_timer : ℕ → Ua B → Ua B
  unfolding spend_credit_time arm_credit
  start_credit_timer rtime s = arm_credit (spend_credit_time rtime s)
