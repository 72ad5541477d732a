-- ===== src/Ua/Laws/Timing.antt =====
-- The timers of a call: which set-up timer an outgoing call starts (sippy/UacStateIdle.py), and when
-- the credit timer ends it (sippy/UA.py, startCreditTimer and resetCreditTime).
use b2bua.Prelude.{
  ℕ, ◌+◌, ◌≤◌, ◌≡◌, refl, sym, ap, ◌∙◌, ◌==◌, Option-cases, ◌⊎◌, inl, inr, true, Option, none, some,
  [], ◌∷◌, arith, ltb, leb, if◌then◌else◌, All, if_elim,
}
use mathlib.Core.Path.{subst₂}
use b2bua.Prelude.Assoc.{Assoc, lookup, insert, lookup-insert, nat_key}
use b2bua.Ua.State.{Ua, Timers, Limits}
use b2bua.Ua.Timers.{
  least, lesser, start_credit_timer, arm_credit, spend_credit_time, update_times,
  cancel_credit_timer, arm_no_reply, arm_no_progress, arm_expires,
}
use b2bua.Ua.Account.{reset_credit_time}
use b2bua.Ua.Agent.{is_connected}
use b2bua.Ua.Uac.Idle.{trim_limits, trim_no_progress, set_expire_mtime, trim_no_reply, arm_first}

-- The earlier of two times that may be absent.
abbrev pub earlier : Option ℕ → Option ℕ → Option ℕ
earlier none b = b
earlier (some a) none = some a
earlier (some a) (some b) = if leb a b then some a else some b

-- A no-reply limit counts when it is below the 32 seconds of a transaction.
abbrev pub short : Option ℕ → Option ℕ
short none = none
short (some r) = if ltb r 32000 then some r else none

abbrev pub after : ℕ → Option ℕ → Option ℕ
after rtime none = none
after rtime (some t) = some (rtime + t)

-- The set-up timers: which is armed, where no two are.
abbrev pub OnlyTimer : Timers → Option ℕ → Type 0
OnlyTimer t d =
    ((t.no_reply ≡ d) × (t.no_progress ≡ none) × (t.expires ≡ none))
    ⊎ (((t.no_reply ≡ none) × (t.no_progress ≡ d) × (t.expires ≡ none))
        ⊎ ((t.no_reply ≡ none) × (t.no_progress ≡ none) × (t.expires ≡ d)))

abbrev pub limit_of : Limits → Option ℕ
limit_of l = earlier (short l.no_reply_time) (earlier l.no_progress_time l.expire_time)

module _ {B : Type 0} where
  -- When no set-up timer is armed, an outgoing call arms one of them at most, and it ends at the
  -- earliest of the three limits that are set, a no-reply limit of 32 seconds or more aside.
  pub arm_first-earliest :
      (rtime : ℕ) (s : Ua B)
      → s.timers.no_reply ≡ none
      → s.timers.no_progress ≡ none
      → s.timers.expires ≡ none
      → OnlyTimer
          (arm_first rtime (record s { limits = trim_limits rtime s.limits })).timers
          (after rtime (limit_of s.limits))
  unfolding arm_first arm_no_reply arm_no_progress arm_expires trim_limits trim_no_progress
      set_expire_mtime trim_no_reply
  arm_first-earliest rtime s a b c = ground arith

-- `t` is one of the times of the dictionary.
abbrev pub OneOf : ℕ → Assoc ℕ (Option ℕ) → Type 0
OneOf t [] = ⊥
OneOf t ((_, o) ∷ d) = (o ≡ some t) ⊎ OneOf t d

abbrev pub NotBefore : Option ℕ → Option ℕ → Type 0
NotBefore none none = Unit
NotBefore none (some u) = ⊥
NotBefore (some t) none = Unit
NotBefore (some t) (some u) = t ≤ u

abbrev pub IsFirst : Option ℕ → Assoc ℕ (Option ℕ) → Type 0
IsFirst none d = All (λ kv. kv.1 ≡ none) d
IsFirst (some t) d = OneOf t d × All (λ kv. NotBefore (some t) kv.1) d

All-earlier :
    (t u : ℕ) (d : Assoc ℕ (Option ℕ))
    → u ≤ t
    → All (λ kv. NotBefore (some t) kv.1) d
    → All (λ kv. NotBefore (some u) kv.1) d
All-earlier t u [] le h = h
All-earlier t u ((_, none) ∷ d) le h = (tt, All-earlier t u d le h.1)
All-earlier t u ((_, some v) ∷ d) le h = (omega (arith, h.0), All-earlier t u d le h.1)

All-absent :
    (t : ℕ) (d : Assoc ℕ (Option ℕ))
    → All (λ kv. kv.1 ≡ none) d
    → All (λ kv. NotBefore (some t) kv.1) d
All-absent t [] h = h
All-absent t ((_, none) ∷ d) h = (tt, All-absent t d h.1)
All-absent t ((_, some v) ∷ d) h = ground arith

IsFirst-lesser :
    (k t : ℕ) (o : Option ℕ) (d : Assoc ℕ (Option ℕ))
    → IsFirst o d
    → IsFirst (lesser t o) ((k, some t) ∷ d)
unfolding lesser
IsFirst-lesser k t none d h = (inl refl, (omega arith, All-absent t d h))
IsFirst-lesser k t (some u) d h = ground (arith, All-earlier u t d)

IsFirst-absent :
    (k : ℕ) (o : Option ℕ) (d : Assoc ℕ (Option ℕ)) → IsFirst o d → IsFirst o ((k, none) ∷ d)
IsFirst-absent k none d h = (refl, h)
IsFirst-absent k (some t) d h = (inr h.0, (tt, h.1))

pub least-IsFirst : (d : Assoc ℕ (Option ℕ)) → IsFirst (least d) d
unfolding least
least-IsFirst [] = tt
least-IsFirst ((k, none) ∷ d) = IsFirst-absent k (least d) d (least-IsFirst d)
least-IsFirst ((k, some t) ∷ d) = IsFirst-lesser k t (least d) d (least-IsFirst d)

-- The time under key `k` once the call's own time, if any, counts from `rtime` under key 0; `old` is
-- what stood there.
abbrev pub own_time : ℕ → ℕ → Option ℕ → Option (Option ℕ) → Option (Option ℕ)
own_time k rtime none old = old
own_time k rtime (some c) old = if 0 == k then some (some (rtime + c)) else old

-- The time that `times` gives last for the key `k`, else `old`.
abbrev pub renewed : ℕ → Assoc ℕ (Option ℕ) → Option (Option ℕ) → Option (Option ℕ)
renewed k [] old = old
renewed k ((j, v) ∷ times) old = renewed k times (if j == k then some v else old)

lookup-update_times :
    (k : ℕ) (d times : Assoc ℕ (Option ℕ))
    → lookup k (update_times d times) ≡ renewed k times (lookup k d)
unfolding update_times
lookup-update_times k d [] = refl
lookup-update_times k d ((j, v) ∷ times) =
    lookup-update_times k (insert j v d) times ∙ ap (renewed k times) (lookup-insert j k v d)

module _ {B : Type 0} where
  spend_credit_time-timers :
      (rtime : ℕ) (s : Ua B)
      → s.timers.credit ≡ none
      → (spend_credit_time rtime s).timers.credit ≡ none
  unfolding spend_credit_time
  spend_credit_time-timers rtime s h = ground arith

  arm_credit-IsFirst :
      (s : Ua B)
      → s.timers.credit ≡ none
      → let t = arm_credit s in
        (t.timers.credit ≡ least s.limits.credit_times)
        × (t.limits.credit_times ≡ s.limits.credit_times)
  unfolding arm_credit
  arm_credit-IsFirst s h = ground arith

  arm_credit-own : (s : Ua B) → (arm_credit s).limits ≡ s.limits
  unfolding arm_credit
  arm_credit-own s = ground arith

  spend_credit_time-own :
      (rtime k : ℕ) (s : Ua B)
      → let t = spend_credit_time rtime s in
        (t.limits.credit_time ≡ none)
        × (lookup k t.limits.credit_times
            ≡ own_time k rtime s.limits.credit_time (lookup k s.limits.credit_times))
  unfolding spend_credit_time
  spend_credit_time-own rtime k s = elim (Option-cases s.limits.credit_time) [
    | inl e ↦ ground (arith, e)
    | inr (c, e) ↦ ground (arith, e, lookup-insert 0 k (some (rtime + c)) s.limits.credit_times)
  ]

  -- When a credit timer is started on a UA that has none, it ends at the first of the credit times
  -- that the UA has then; without any such time none is armed. The UA has the credit times that it
  -- had, but that the call's own time, if it is set, is added or replaced under key 0, counted from
  -- `rtime`, and is not set any more.
  pub start_credit_timer-IsFirst :
      (rtime k : ℕ) (s : Ua B)
      → s.timers.credit ≡ none
      → let t = start_credit_timer rtime s in
        IsFirst t.timers.credit t.limits.credit_times
        × (t.limits.credit_time ≡ none)
        × (lookup k t.limits.credit_times
            ≡ own_time k rtime s.limits.credit_time (lookup k s.limits.credit_times))
  unfolding start_credit_timer
  start_credit_timer-IsFirst rtime k s h =
      let s1 = spend_credit_time rtime s in
      let same = arm_credit-IsFirst s1 (spend_credit_time-timers rtime s h) in
      let own = spend_credit_time-own rtime k s in
      (
        subst₂ IsFirst (sym same.0) (sym same.1) (least-IsFirst s1.limits.credit_times),
        ap (λ (l : Limits). l.credit_time) (arm_credit-own s1) ∙ own.0,
        ap (lookup k) same.1 ∙ own.1,
      )

  cancel_credit_timer-none : (s : Ua B) → (cancel_credit_timer s).timers.credit ≡ none
  unfolding cancel_credit_timer
  cancel_credit_timer-none s = ground arith

  cancel_credit_timer-limits : (s : Ua B) → (cancel_credit_timer s).limits ≡ s.limits
  unfolding cancel_credit_timer
  cancel_credit_timer-limits s = ground arith

  -- New credit times during a connected call move the credit timer: whatever was armed, it ends at
  -- the first of the credit times that the UA has afterwards. Under each key these are the time that
  -- was given last for it, or else the one the UA had; and under key 0 the call's own time, if it is
  -- still set, counted from `rtime`.
  pub reset_credit_time-IsFirst :
      (rtime k : ℕ) (times : Assoc ℕ (Option ℕ)) (s : Ua B)
      → is_connected s ≡ true
      → let t = reset_credit_time rtime times s in
        IsFirst t.timers.credit t.limits.credit_times
        × (lookup k t.limits.credit_times
            ≡ own_time k rtime s.limits.credit_time
                (renewed k times (lookup k s.limits.credit_times)))
  unfolding reset_credit_time
  reset_credit_time-IsFirst rtime k times s h =
      let s1 = record s {
        limits = record s.limits { credit_times = update_times s.limits.credit_times times };
      } in
      let P = λ (t : Ua B).
        IsFirst t.timers.credit t.limits.credit_times
        × (lookup k t.limits.credit_times
            ≡ own_time k rtime s.limits.credit_time
                (renewed k times (lookup k s.limits.credit_times))) in
      if_elim P (is_connected s1)
        (λ _.
          let s2 = cancel_credit_timer s1 in
          let x = start_credit_timer-IsFirst rtime k s2 (cancel_credit_timer-none s1) in
          (
            x.0,
            x.2
                ∙ ap (λ (l : Limits). own_time k rtime l.credit_time (lookup k l.credit_times))
                    (cancel_credit_timer-limits s1)
                ∙ ap (own_time k rtime s.limits.credit_time)
                    (lookup-update_times k s.limits.credit_times times),
          ))
        (λ off. ground (arith, h, off))
