-- ===== src/B2b/Laws/Hops.antt =====
-- A call that has no hops left.
use b2bua.Prelude.{
  ◌∙◌, ℕ, ◌≤◌, ◌<◌, ◌≡◌, ◌==◌, refl, ap, String, Bool, true, false, Option, none, some, [], arith,
  if◌then◌else◌,
}
use b2bua.Ua.Types.{State, Event, TryData}
use b2bua.B2b.Types.{
  dead, Route, Settings, Controller, Attempt, ok, err, ◌>>=◌, attribute_error, Leg,
}
use b2bua.B2b.Legs.{give_up, World, set_leg, a_dead, o_dead, count_event}
use b2bua.B2b.Originate.{
  rewritten, next_hop, leg_call_id, charge, open_account, open_leg, call_leg, place_originate,
  has_hops,
}
use b2bua.B2b.Laws.Frame.{
  Holds, Holds-bind, Holds-map, any-Holds, opt-elim, Same, fail_event, give_up-Same,
}
use b2bua.B2b.Laws.Hunting.{opened, charge-Same, open_account-Same}

module _ {B : Type 0} (st : Settings B) (w : World B) where
  -- What oDead does for the leg `j`, unless it is the current one.
  abbrev UnlessCurrent : Bool → ℕ → Controller B → Type 0
  UnlessCurrent true j c = Unit
  UnlessCurrent false j c = o_dead j c ≡ c

  -- The call is over for the controller; the current leg `n` got no event, and neither the death of
  -- the caller's leg nor that of another leg `j` takes the call out of the map.
  abbrev pub IsStuck : ℕ → ℕ → Controller B → Type 0
  IsStuck j n c =
      (c.state ≡ dead)
      × (c.ua_o ≡ some n)
      × ((c.legs n).state ≡ none)
      × (a_dead c ≡ c)
      × UnlessCurrent (j == n) j c

  opened-untold :
      (r : Route) (nh : String × ℕ) (transport : Option String) (c : Controller B)
      → ((opened st w r nh transport c).ua_o ≡ some c.next_leg)
        × (((opened st w r nh transport c).legs c.next_leg).state ≡ none)
  opened-untold r nh transport c =
      opt-elim
        (λ (c1 : Controller B). (c1.ua_o ≡ some c.next_leg) × ((c1.legs c.next_leg).state ≡ none))
        r.group_timeout (open_leg st w r nh transport c) _ (refl, ground arith)
        (λ t. (refl, ground arith))

  stuck :
      (j n : ℕ) (s : State) (c0 c1 : Controller B)
      → 0 < n
      → c0.ua_o ≡ some n
      → (c0.legs n).state ≡ none
      → Same (set_leg 0 s c0) c1
      → (c1.ua_o ≡ some n)
        × ((c1.legs n).state ≡ none)
        × (a_dead c1 ≡ c1)
        × UnlessCurrent (j == n) j c1
  unfolding a_dead o_dead
  stuck j n s c0 c1 pos own untold same =
      let current = same.2 ∙ own in
      (current, idle, ground (arith, current, idle), other (j == n) refl)
    where
      other : (b : Bool) → (j == n) ≡ b → UnlessCurrent b j c1
      other true e = tt
      other false e = let current = same.2 ∙ own in ground (arith, current, e)

      idle : (c1.legs n).state ≡ none
      idle = ap (λ (f : ℕ → Leg). (f n).state) same.3 ∙ ground (arith, pos, untold)

  gave_up-IsStuck :
      (j : ℕ) (r : Route) (nh : String × ℕ) (transport : Option String) (c : Controller B)
      → 0 < c.next_leg
      → Holds
          (IsStuck j c.next_leg)
          (give_up w 483 "Too Many Hops" w.now (opened st w r nh transport c))
  gave_up-IsStuck j r nh transport c pos =
      let c1 = opened st w r nh transport c in
      let s = (w.reaction 0 (fail_event 483 "Too Many Hops" w.now c1) (count_event c1)).1 in
      Holds-map (λ c2. Same (set_leg 0 s c1) c2 × (c2.state ≡ dead)) (IsStuck j c.next_leg)
        (give_up w 483 "Too Many Hops" w.now c1) (give_up-Same w 483 "Too Many Hops" w.now c1)
        (λ c2 k.
          let own = opened-untold r nh transport c in
          let x = stuck j c.next_leg s c1 c2 pos own.0 own.1 k.0 in (k.1, x.0, x.1, x.2, x.3))

  if_false :
      (P : Attempt (Controller B) → Type 0) (b : Bool) (x y : Attempt (Controller B))
      → b ≡ false
      → P y
      → P (if b then x else y)
  if_false P false x y e h = h
  if_false P true x y e h = absurd (ground (arith, e))

  call_leg-IsStuck :
      (j : ℕ) (r : Route) (cld : Option String) (nh : String × ℕ) (transport : Option String)
      (e : Event B) (d : TryData B) (c : Controller B)
      → has_hops st w e.max_forwards ≡ false
      → 0 < c.next_leg
      → Holds (IsStuck j c.next_leg) (call_leg st w r cld nh transport e d c)
  unfolding call_leg
  call_leg-IsStuck j r cld nh transport e d c spent pos =
      any-Holds (IsStuck j c.next_leg) (leg_call_id st d.call_id r.rnum) _ (λ cid.
        if_false (Holds (IsStuck j c.next_leg)) (has_hops st w e.max_forwards) _ _ spent
          (gave_up-IsStuck j r nh transport c pos))

  -- Where the caller's INVITE has no hops left, and if there is no exception, the controller makes a
  -- leg for the route that it then tells nothing, so that it is in no state, and gives the call up.
  -- Then neither the end of the caller's UA nor that of any other leg `j` takes the call out of the
  -- map; only the end of the new leg, which was told nothing, could.
  pub place_originate-IsStuck :
      (j : ℕ) (r : Route) (e : Event B) (d : TryData B) (m : ℕ) (c : Controller B)
      → c.e_try ≡ some (e, d)
      → e.max_forwards ≡ some m
      → m ≤ 1
      → 0 < c.next_leg
      → Holds (IsStuck j c.next_leg) (place_originate st w r c)
  unfolding place_originate
  place_originate-IsStuck j r e d m c own hops few pos = by_try c.e_try own
    where
      hunting : Controller B
      hunting = record c {
        huntstop_scodes = some (elim r.huntstop_scodes [ none ↦ [] | some l ↦ l ]);
      }

      next :
          (n : ℕ) (a : Attempt (Controller B))
          → n ≡ c.next_leg
          → Holds (IsStuck j n) a
          → Holds (IsStuck j c.next_leg) a
      next n (ok c1) same h = ground (arith, same, h)
      next n (err x) same h = tt

      by_try :
          (x : Option (Event B × TryData B))
          → x ≡ some (e, d)
          → Holds (IsStuck j c.next_leg) (elim x [
            | none ↦ err attribute_error
            | some (e, d) ↦
                (rewritten st.tr_out r.cld >>= λ cld.
                (next_hop r c.source c.req_target >>= λ h.
                (charge st w r (open_account st w r cld h.0 hunting) >>= λ c1.
                call_leg st w r cld h.1 h.2 e d c1)))
          ])
      by_try none own = tt
      by_try (some p) own = any-Holds (IsStuck j c.next_leg) (rewritten st.tr_out r.cld) _ (λ cld.
          any-Holds (IsStuck j c.next_leg) (next_hop r c.source c.req_target) _ (λ h.
            Holds-bind (Same c) (IsStuck j c.next_leg)
              (charge st w r (open_account st w r cld h.0 hunting)) _
              (charge-Same st w r c (open_account st w r cld h.0 hunting)
                (open_account-Same st w r cld h.0 c hunting (refl, refl, refl, refl)))
              (λ c1 k. next c1.next_leg (call_leg st w r cld h.1 h.2 p.0 p.1 c1) k.1 (
                call_leg-IsStuck j r cld h.1 h.2 p.0 p.1 c1 (ground (arith, own, hops, few))
                  (ground (arith, pos, k.1))))))
