-- ===== src/B2b/Laws/Granted.antt =====
-- The routes that an authorization gives a call, and the first leg that is made for them.
use b2bua.Prelude.{
  ℕ, suc, ◌+◌, ◌≤◌, refl, String, Bool, true, false, Option, none, some, List, [], ◌∷◌, ◌++◌, ◌==◌,
  not, arith, if_elim, if◌then◌else◌, length, length-append,
}
use b2bua.Sip.Message.{Header}
use b2bua.B2b.Types.{Route, Settings, Controller, Attempt, ok, err, ◌>>=◌}
use b2bua.B2b.Legs.{World, end_account, is_trying_leg}
use b2bua.B2b.Route.{customize}
use b2bua.B2b.Originate.{place_originate}
use b2bua.B2b.Control.{
  replaced, Results, ivr_values, usable_routes, routing_for, route_call, first_attempt, accept_call,
  refuse_call, r_done, open_answer_account, credit_among,
}
use b2bua.B2b.Laws.Frame.{Holds, Holds-map, any-Holds, opt-elim, Same, end_account-Same}
use b2bua.B2b.Laws.Within.{IsWithin, length-usable_routes, gave_up-IsWithin, IsWithin-Same}
use b2bua.B2b.Laws.Brought.{LengthWithin, granted, brings_routes, routing_for-LengthWithin}
use b2bua.B2b.Laws.Hunting.{place_originate-IsPlaced}

module _ {B : Type 0} (st : Settings B) (read_route : String → Attempt Route)
    (name_of : Header → Option String) where
  pub placed-IsWithin :
      (b : ℕ) (w : World B) (r : Route) (c0 c : Controller B)
      → suc c.next_leg + length c.routes ≤ c0.next_leg + length c0.routes + b
      → Holds (IsWithin b c0) (place_originate st w r c)
  placed-IsWithin b w r c0 c h =
      Holds-map _ (IsWithin b c0) (place_originate st w r c) (place_originate-IsPlaced st w r c)
        (λ c1 k. ground (arith, h, k.0, k.1))

  route_call-IsWithin :
      (w : World B) (n : ℕ) (credit : Option ℕ) (a : Attempt (Option (List Route)))
      (c : Controller B)
      → LengthWithin n a
      → Holds (IsWithin n c) (a >>= λ routing. route_call st w read_route name_of credit routing c)
  route_call-IsWithin w n credit (err e) c h = tt
  route_call-IsWithin w n credit (ok none) c h =
      gave_up-IsWithin n w 500 "Internal Server Error (2)" w.now c c (omega arith)
  route_call-IsWithin w n credit (ok (some rs)) c h =
      let f = λ (n : ℕ). customize n c.cld c.cli credit c.pass_headers st.max_credit_time in
      first (c.routes ++ usable_routes 0 f rs) (
        ground
          (arith, h, length-append c.routes (usable_routes 0 f rs), length-usable_routes 0 f rs))
    where
      first :
          (l : List Route)
          → length l ≤ length c.routes + n
          → Holds (IsWithin n c) (first_attempt st w read_route name_of l c)
      first [] h = gave_up-IsWithin n w 500 "Internal Server Error (3)" w.now c c (omega arith)
      first (r ∷ rs) h = placed-IsWithin n w r c _ (omega (arith, h))

  pub accept_call-IsWithin :
      (w : World B) (attrs : List (String × String)) (c : Controller B)
      → Holds (IsWithin (brings_routes st attrs) c) (accept_call st w read_route name_of attrs c)
  accept_call-IsWithin w attrs c =
      let c1 = open_answer_account st w read_route name_of c in
      let c2 = record c1 {
        cli = replaced (ivr_values "CLI:" attrs) c1.cli;
        caller_name = replaced (ivr_values "CNAM:" attrs) c1.caller_name;
      } in
      let n = brings_routes st attrs in
      let same =
        if_elim (Same c) st.acct_enable (λ _. (refl, refl, refl, refl))
          (λ _. (refl, refl, refl, refl)) in
      if_elim (Holds (IsWithin n c)) (not (is_trying_leg (c.legs 0).state))
        (λ _.
          IsWithin-Same n c c1 (end_account w.now (some "caller") 0 c1) same
            (end_account-Same c1 w.now (some "caller") 0 c1 (refl, refl, refl, refl)))
        (λ _. any-Holds (IsWithin n c) (credit_among attrs) _ (λ credit.
          Holds-map (IsWithin n c2) (IsWithin n c) _
            (route_call-IsWithin w n credit (routing_for st w read_route name_of attrs c2) c2
              (routing_for-LengthWithin st read_route name_of w attrs c2))
            (λ c3 k. ground (arith, k, same.0, same.1))))

  refuse_call-IsWithin :
      (w : World B) (n : ℕ) (c : Controller B)
      → Holds (IsWithin n c) (refuse_call st w read_route name_of c)
  refuse_call-IsWithin w n c =
      if_elim (Holds (IsWithin n c)) (is_trying_leg (c.legs 0).state)
        (λ _.
          opt-elim (Holds (IsWithin n c)) c.challenge _ _
            (gave_up-IsWithin n w 403 "Auth Failed" w.now c c (omega arith))
            (λ h. gave_up-IsWithin n w 401 "Unauthorized" w.now c c (omega arith)))
        (λ _. omega arith)

  pub r_done-IsWithin :
      (w : World B) (results : Results) (c : Controller B)
      → Holds (IsWithin (granted st results) c) (r_done st w read_route name_of results c)
  unfolding r_done
  r_done-IsWithin w none c = refuse_call-IsWithin w 0 c
  r_done-IsWithin w (some (attrs, code)) c = by_code (code == 0)
    where
      by_code :
          (b : Bool)
          → Holds (IsWithin (if b then brings_routes st attrs else 0) c) (
              if b
              then accept_call st w read_route name_of attrs c
              else refuse_call st w read_route name_of c)
      by_code true = accept_call-IsWithin w attrs c
      by_code false = refuse_call-IsWithin w 0 c
