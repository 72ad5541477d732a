-- ===== src/B2b/Laws/Within.antt =====
-- The measure of hunting: the legs that a call made, and the routes that it has left.
use b2bua.Prelude.{ℕ, suc, ◌+◌, ◌≤◌, String, List, [], ◌∷◌, ◌||◌, arith, if_elim, length}
use b2bua.Ua.Types.{Event}
use b2bua.B2b.Types.{Route, Controller}
use b2bua.B2b.Legs.{World, tell_leg, give_up}
use b2bua.B2b.Control.{usable_routes, is_zero}
use b2bua.B2b.Laws.Frame.{Holds, Holds-map, Same, tell_leg-Same, give_up-Same}

pub length-usable_routes :
    (n : ℕ) (f : ℕ → Route → Route) (rs : List Route) → length (usable_routes n f rs) ≤ length rs
unfolding usable_routes
length-usable_routes n f [] = omega arith
length-usable_routes n f (r ∷ rs) =
    let h = length-usable_routes (suc n) f rs in
    if_elim (λ (x : List Route). length x ≤ suc (length rs))
      (is_zero (f (suc n) r).credit_time || is_zero (f (suc n) r).expires) (λ _. omega (arith, h))
      (λ _. omega (arith, h))

module _ {B : Type 0} where
  -- The legs made and the routes left are at most those before, and `b` more.
  abbrev pub IsWithin : ℕ → Controller B → Controller B → Type 0
  IsWithin b c0 c = c.next_leg + length c.routes ≤ c0.next_leg + length c0.routes + b

  pub told-IsWithin :
      (b : ℕ) (w : World B) (n : ℕ) (e : Event B) (c0 c : Controller B)
      → IsWithin b c0 c
      → Holds (IsWithin b c0) (tell_leg w n e c)
  told-IsWithin b w n e c0 c h =
      Holds-map _ (IsWithin b c0) (tell_leg w n e c) (tell_leg-Same w n e c)
        (λ c1 k. ground (arith, h, k.0, k.1))

  pub gave_up-IsWithin :
      (b : ℕ) (w : World B) (code : ℕ) (text : String) (rtime : ℕ) (c0 c : Controller B)
      → IsWithin b c0 c
      → Holds (IsWithin b c0) (give_up w code text rtime c)
  gave_up-IsWithin b w code text rtime c0 c h =
      Holds-map _ (IsWithin b c0) (give_up w code text rtime c) (give_up-Same w code text rtime c)
        (λ c1 k. ground (arith, h, k.0.0, k.0.1))

  pub IsWithin-Same : (n : ℕ) (c0 c1 c2 : Controller B) → Same c0 c1 → Same c1 c2 → IsWithin n c0 c2
  IsWithin-Same n c0 c1 c2 h k = ground (arith, h.0, h.1, k.0, k.1)
