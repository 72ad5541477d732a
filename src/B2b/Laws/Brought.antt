-- ===== src/B2b/Laws/Brought.antt =====
-- How many routes an authorization gives a call.
use b2bua.Prelude.{
  ◌==◌, if◌then◌else◌, ℕ, suc, ◌≤◌, ◌≡◌, refl, ap, String, Option, none, some, List, [], ◌∷◌, arith,
  length,
}
use b2bua.Sip.Message.{Header}
use b2bua.B2b.Types.{
  Route, StaticRoutes, Settings, Controller, Attempt, ok, err, ◌>>=◌, ReqSource, proxy, wss, host,
  key_error,
}
use b2bua.B2b.Legs.{World}
use b2bua.B2b.Control.{
  Results, given_routes, static_route, from_default, ivr_values, read_all, routing_for,
}
use b2bua.B2b.Laws.Frame.{opt-elim}

module _ {B : Type 0} (st : Settings B) where
  -- How many routes an authorization brings: those that it gives, or the static one.
  abbrev pub brings_routes : List (String × String) → ℕ
  brings_routes attrs = elim st.static_routes [
    | none ↦ length (ivr_values "Routing:" attrs)
    | some t ↦ 1
  ]

  -- The routes that the result of an authorization brings, if it accepts the call.
  abbrev pub granted : Results → ℕ
  granted none = 0
  granted (some (attrs, code)) = if code == 0 then brings_routes attrs else 0

abbrev pub LengthWithin : ℕ → Attempt (Option (List Route)) → Type 0
LengthWithin n (ok none) = Unit
LengthWithin n (ok (some rs)) = length rs ≤ n
LengthWithin n (err e) = Unit

module _ {B : Type 0} (st : Settings B) (read_route : String → Attempt Route)
    (name_of : Header → Option String) where
  abbrev HasLength : ℕ → Attempt (List Route) → Type 0
  HasLength n (ok rs) = length rs ≡ n
  HasLength n (err e) = Unit

  read_all-HasLength :
      (w : World B) (ss : List String) → HasLength (length ss) (read_all st w read_route name_of ss)
  unfolding read_all
  read_all-HasLength w [] = refl
  read_all-HasLength w (s ∷ ss) =
      one_more (read_route s) (read_all st w read_route name_of ss) (read_all-HasLength w ss)
    where
      one_more :
          (x : Attempt Route) (a : Attempt (List Route))
          → HasLength (length ss) a
          → HasLength (suc (length ss)) (x >>= λ r. (a >>= λ rs. ok (r ∷ rs)))
      one_more (ok r) (ok rs) h = ap suc h
      one_more (ok r) (err e) h = tt
      one_more (err e) a h = tt

  given_routes-LengthWithin :
      (w : World B) (ss : List String)
      → LengthWithin (length ss) (given_routes st w read_route name_of ss)
  given_routes-LengthWithin w [] = tt
  given_routes-LengthWithin w (s ∷ ss) =
      some_of (read_all st w read_route name_of (s ∷ ss)) (read_all-HasLength w (s ∷ ss))
    where
      some_of :
          (a : Attempt (List Route))
          → HasLength (suc (length ss)) a
          → LengthWithin (suc (length ss)) (a >>= λ rs. ok (some rs))
      some_of (ok rs) h = omega (arith, h)
      some_of (err e) h = tt

  from_default-LengthWithin : (t : StaticRoutes) → LengthWithin 1 (from_default t)
  from_default-LengthWithin t =
      opt-elim (LengthWithin 1) t.default (err key_error) _ tt (λ r. omega arith)

  static_route-LengthWithin : (t : StaticRoutes) (s : ReqSource) → LengthWithin 1 (static_route t s)
  static_route-LengthWithin t proxy =
      opt-elim (LengthWithin 1) t.for_proxy _ _ (from_default-LengthWithin t) (λ r. omega arith)
  static_route-LengthWithin t wss = from_default-LengthWithin t
  static_route-LengthWithin t (host h) = from_default-LengthWithin t

  pub routing_for-LengthWithin :
      (w : World B) (attrs : List (String × String)) (c : Controller B)
      → LengthWithin (brings_routes st attrs) (routing_for st w read_route name_of attrs c)
  routing_for-LengthWithin w attrs c = by_static st.static_routes
    where
      by_static :
          (s : Option StaticRoutes)
          → LengthWithin
              (elim s [ none ↦ length (ivr_values "Routing:" attrs) | some t ↦ 1 ])
              (elim s [
                | none ↦ given_routes st w read_route name_of (ivr_values "Routing:" attrs)
                | some t ↦ static_route t c.req_source
              ])
      by_static none = given_routes-LengthWithin w (ivr_values "Routing:" attrs)
      by_static (some t) = static_route-LengthWithin t c.req_source
