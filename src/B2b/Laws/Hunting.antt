-- ===== src/B2b/Laws/Hunting.antt =====
-- Hunting over the routes: how many legs a call can make.
use b2bua.Prelude.{◌∙◌, ℕ, suc, ◌≡◌, refl, ap, String, Option, none, some, [], if_elim}
use b2bua.Ua.Types.{Event, TryData}
use b2bua.B2b.Types.{
  Route, Settings, Account, no_account, fake, radius, Controller, ok, err, attribute_error,
}
use b2bua.B2b.Legs.{World, count_event}
use b2bua.B2b.Originate.{
  rewritten, next_hop, leg_call_id, charge, open_account, open_leg, start_group, has_hops, call_leg,
  place_originate, is_accounted,
}
use b2bua.B2b.Laws.Frame.{
  Holds, Holds-bind, Holds-map, any-Holds, opt-elim, Same, tell_leg-Same, give_up-Same,
}

module _ {B : Type 0} (st : Settings B) (w : World B) where
  -- A leg was made beside those of `c0`, it is current, and the routes are as they were.
  abbrev pub IsPlaced : Controller B → Controller B → Type 0
  IsPlaced c0 c =
      (c.next_leg ≡ suc c0.next_leg) × (c.routes ≡ c0.routes) × (c.ua_o ≡ some c0.next_leg)

  IsPlaced-Same :
      (c0 c1 c2 : Controller B)
      → IsPlaced c0 c1
      → (c2.routes ≡ c1.routes) × (c2.next_leg ≡ c1.next_leg) × (c2.ua_o ≡ c1.ua_o)
      → IsPlaced c0 c2
  IsPlaced-Same c0 c1 c2 h k = (k.1 ∙ h.0, k.0 ∙ h.1, k.2 ∙ h.2)

  -- The new leg, and the timer of its group.
  abbrev pub opened : Route → String × ℕ → Option String → Controller B → Controller B
  opened r nh transport c = count_event (start_group st w r (open_leg st w r nh transport c))

  opened-IsPlaced :
      (r : Route) (nh : String × ℕ) (transport : Option String) (c : Controller B)
      → IsPlaced c (opened r nh transport c)
  opened-IsPlaced r nh transport c =
      opt-elim (IsPlaced c) r.group_timeout (open_leg st w r nh transport c) _ (refl, refl, refl)
        (λ t. (refl, refl, refl))

  call_leg-IsPlaced :
      (r : Route) (cld : Option String) (nh : String × ℕ) (transport : Option String) (e : Event B)
      (d : TryData B) (c : Controller B)
      → Holds (IsPlaced c) (call_leg st w r cld nh transport e d c)
  unfolding call_leg
  call_leg-IsPlaced r cld nh transport e d c =
      let c1 = opened r nh transport c in
      any-Holds (IsPlaced c) (leg_call_id st d.call_id r.rnum) _ (λ cid.
        if_elim (Holds (IsPlaced c)) (has_hops st w e.max_forwards)
          (λ _.
            Holds-map _ (IsPlaced c) _ (tell_leg-Same w c.next_leg _ c1)
              (λ c2 k. IsPlaced-Same c c1 c2 (opened-IsPlaced r nh transport c) (k.0, k.1, k.2)))
          (λ _. Holds-map _ (IsPlaced c) _ (give_up-Same w 483 "Too Many Hops" w.now c1) (λ c2 k.
            IsPlaced-Same c c1 c2 (opened-IsPlaced r nh transport c) (k.0.0, k.0.1, k.0.2))))

  pub charge-Same :
      (r : Route) (c0 c : Controller B) → Same c0 c → Holds (Same c0) (charge st w r c)
  charge-Same r c0 c h = by_account c.acct_a
    where
      by_account :
          (a : Account)
          → Holds (Same c0) (elim a [
            | no_account ↦ err attribute_error
            | _ ↦ ok (record c { acct_a_credit = r.credit_time })
          ])
      by_account no_account = tt
      by_account fake = h
      by_account radius = h

  pub open_account-Same :
      (r : Route) (cld : Option String) (host : String) (c0 c : Controller B)
      → Same c0 c
      → Same c0 (open_account st w r cld host c)
  open_account-Same r cld host c0 c h = if_elim (Same c0) (is_accounted st w r) (λ _. h) (λ _. h)

  pub place_originate-IsPlaced :
      (r : Route) (c : Controller B) → Holds (IsPlaced c) (place_originate st w r c)
  unfolding place_originate
  place_originate-IsPlaced r c =
      opt-elim (Holds (IsPlaced c)) c.e_try (err attribute_error) _ tt (λ p.
        any-Holds (IsPlaced c) (rewritten st.tr_out r.cld) _ (λ cld.
          any-Holds (IsPlaced c) (next_hop r c.source c.req_target) _ (λ h.
            Holds-bind (Same c) (IsPlaced c)
              (charge st w r (open_account st w r cld h.0 (hunting r c))) _
              (charge-Same r c (open_account st w r cld h.0 (hunting r c))
                (open_account-Same r cld h.0 c (hunting r c) (refl, refl, refl, refl)))
              (λ c1 k.
                Holds-map (IsPlaced c1) (IsPlaced c) _ (call_leg-IsPlaced r cld h.1 h.2 p.0 p.1 c1)
                  (λ c2 q. (q.0 ∙ ap suc k.1, q.1 ∙ k.0, q.2 ∙ ap some k.1))))))
    where
      hunting : Route → Controller B → Controller B
      hunting r c = record c {
        huntstop_scodes = some (elim r.huntstop_scodes [ none ↦ [] | some l ↦ l ]);
      }
