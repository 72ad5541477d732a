-- ===== src/B2b/Laws/Bound.antt =====
-- How many legs a call can make.
use b2bua.Prelude.{ℕ, ◌+◌, String, Option, List, [], ◌∷◌, ◌==◌, ◌&&◌, if◌then◌else◌}
use b2bua.Sip.Message.{Header}
use b2bua.Ua.Requests.{is_some}
use b2bua.B2b.Types.{idle, Route, Settings, Controller, Attempt, ok, err}
use b2bua.B2b.Legs.{World, same_state}
use b2bua.B2b.Control.{event_data}
use b2bua.B2b.Machine.{Input, step, survived}
use b2bua.B2b.Laws.Brought.{granted, brings_routes}

module _ {B : Type 0} (st : Settings B) (read_route : String → Attempt Route)
    (name_of : Header → Option String) where
  -- The static route, where nobody is asked to authorize a call.
  abbrev static_budget : ℕ
  static_budget = if st.auth_enable then 0 else brings_routes st []

  -- The routes that an input brings: the Try of the caller to an idle controller, without
  -- authorization, and the authorization that accepts a call.
  abbrev pub brings : Input B → Controller B → ℕ
  brings (Input.event n e) c =
      if n == 0 && (same_state c.state idle && is_some (event_data e)) then static_budget else 0
  brings (Input.authorized results) c = granted st results
  brings _ c = 0

  -- Nothing, where the step ended with an exception.
  abbrev brought : ℕ → Attempt (Controller B) → ℕ
  brought b (ok c) = b
  brought b (err e) = 0

  abbrev pub all_bring : List (World B × Input B) → Controller B → ℕ
  all_bring [] c = 0
  all_bring ((w, i) ∷ is) c =
      let a = step st read_route name_of w i c in
      brought (brings i c) a + all_bring is (survived a c)
