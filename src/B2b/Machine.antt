-- ===== src/B2b/Machine.antt =====
-- What can reach a call controller, as one step function, and runs of it. The event loop
-- catches an exception and goes on; the step is taken to have changed nothing then.
use b2bua.Prelude.{ℕ, String, Option, List, [], ◌∷◌}
use b2bua.Sip.Message.{Header}
use b2bua.Ua.Types.{State, Event}
use b2bua.B2b.Types.{Route, Settings, Controller, Attempt, ok, err}
use b2bua.B2b.Legs.{Callback, World, called_back, set_leg}
use b2bua.B2b.Control.{Results, r_done, recv_event, disconnect_call, group_expires}

-- An event or a callback of a UA, a change of its state that the controller did not ask for (a CANCEL,
-- a BYE, a timer of the UA), the result of the authorization, a call of `disconnect`, the timer
-- of a group of routes.
pub data Input (B : Type 0) : Type 0 where
  event : ℕ → Event B → Input B
  callback : ℕ → Callback → Input B
  changed : ℕ → State → Input B
  authorized : Results → Input B
  disconnect : Option ℕ → Option String → Input B
  group : ℕ → Input B

-- After a step, or after the exception that it ended with.
abbrev pub survived {ℓ} : {A : Type ℓ} → Attempt A → A → A
survived (ok a) b = a
survived (err e) b = b

module _ {B : Type 0} (st : Settings B) (read_route : String → Attempt Route)
    (name_of : Header → Option String) where
  unfoldable pub step : World B → Input B → Controller B → Attempt (Controller B)
  step w (Input.event n e) c = recv_event st w read_route name_of n e c
  step w (Input.callback n k) c = called_back n k c
  step w (Input.changed n s) c = ok (set_leg n s c)
  step w (Input.authorized results) c = r_done st w read_route name_of results c
  step w (Input.disconnect rtime origin) c = disconnect_call w rtime origin c
  step w (Input.group skipto) c = group_expires skipto c

  unfoldable pub run : List (World B × Input B) → Controller B → Controller B
  unfolding step
  run [] c = c
  run ((w, i) ∷ is) c = run is (survived (step w i c) c)
