-- ===== src/B2b/Laws/Exit.antt =====
-- After SIGTERM the program ends, whatever the calls do.
use b2bua.Prelude.{
  ℕ, suc, ◌+◌, ◌≤◌, ◌≡◌, refl, String, Bool, true, false, Option, List, [], ◌∷◌, ◌&&◌, ◌||◌, not,
  ltb, leb, arith, if_elim, if◌then◌else◌,
}
use b2bua.Sip.Message.{Header}
use b2bua.B2b.Types.{Route, Attempt, ok, err}
use b2bua.B2b.Legs.{World}
use b2bua.B2b.Machine.{step, survived}
use b2bua.B2b.Map.{
  MapSettings, CallMap, active_calls, is_empty, execute_stop, collect, MapInput, request, call,
  sighup, sigusr2, sigprof, sigterm, stop_timer, gc_timer, map_step, map_run,
}
use b2bua.B2b.Laws.Stopping.{
  HoldsMap, any-HoldsMap, survived-HoldsMap, IsCalm, calm, map_request-closed, settle-IsCalm,
  disc_all-IsCalm,
}

module _ {B : Type 0} where
  -- SIGTERM was taken, and the timer fired `k` times since, or the program has ended.
  abbrev pub IsLeaving : ℕ → CallMap B → Type 0
  IsLeaving k m =
      (m.safe_stop ≡ true)
      × ((m.stopped || ltb m.stop_count 5) ≡ true)
      × ((m.stopped || leb k m.stop_count) ≡ true)

  IsLeaving-HoldsMap :
      (k : ℕ) (m0 : CallMap B) (a : Attempt (CallMap B))
      → IsLeaving k m0
      → HoldsMap (IsCalm m0) a
      → HoldsMap (IsLeaving k) a
  IsLeaving-HoldsMap k m0 (ok m) h q = ground (arith, h.0, h.1, h.2, q.3, q.4, q.5)
  IsLeaving-HoldsMap k m0 (err e) h q = tt

  execute_stop-IsLeaving :
      (k : ℕ) (m : CallMap B) → IsLeaving k m → IsLeaving (suc k) (execute_stop m)
  unfolding execute_stop
  execute_stop-IsLeaving k m h =
      if_elim (IsLeaving (suc k)) (not m.safe_stop) (λ e. absurd (ground (arith, e, h.0)))
        (λ _. fired (not (is_empty (active_calls m.ccmap m))))
    where
      fired :
          (b : Bool)
          → IsLeaving (suc k) (
              let m1 = record m { stop_count = suc m.stop_count } in
              if b && ltb m1.stop_count 5
              then m1
              else record m1 { er_timer = false; stopped = true })
      fired false = (h.0, refl, refl)
      fired true =
          if_elim (IsLeaving (suc k)) (ltb (suc m.stop_count) 5)
            (λ e. (h.0, ground (arith, e), ground (arith, h.2))) (λ e. (h.0, refl, refl))

-- How often the timer of safeStop fires.
abbrev pub tick : {B : Type 0} → MapInput B → ℕ → ℕ
tick stop_timer k = suc k
tick _ k = k

tick_add : {B : Type 0} (i : MapInput B) (a k : ℕ) → tick i a + k ≡ a + tick i k
tick_add (request offer req) a k = refl
tick_add (call id i) a k = refl
tick_add sighup a k = refl
tick_add sigusr2 a k = refl
tick_add sigprof a k = refl
tick_add sigterm a k = refl
tick_add stop_timer a k = omega arith
tick_add gc_timer a k = refl

abbrev pub firings : {B : Type 0} → List (World B × MapInput B) → ℕ
firings [] = 0
firings ((w, i) ∷ is) = tick i (firings is)

-- No other SIGTERM.
abbrev pub NotSigterm : {B : Type 0} → MapInput B → Type 0
NotSigterm sigterm = ⊥
NotSigterm _ = Unit

abbrev pub NoSigterm : {B : Type 0} → List (World B × MapInput B) → Type 0
NoSigterm [] = Unit
NoSigterm ((w, i) ∷ is) = NotSigterm i × NoSigterm is

module _ {B : Type 0} (ms : MapSettings B) (read_route : String → Attempt Route)
    (name_of : Header → Option String) where
  step-IsLeaving :
      (w : World B) (i : MapInput B) (k : ℕ) (m : CallMap B)
      → NotSigterm i
      → IsLeaving k m
      → HoldsMap (IsLeaving (tick i k)) (map_step ms read_route name_of w i m)
  unfolding map_step collect
  step-IsLeaving w (request offer req) k m other h =
      map_request-closed ms read_route name_of offer req (IsLeaving k) m (ground (arith, h.0)) h
  step-IsLeaving w (call id i) k m other h =
      any-HoldsMap (IsLeaving k) (step ms.controller read_route name_of w i (m.calls id)) _
        (λ c. IsLeaving-HoldsMap k m _ h (settle-IsCalm id c m m (calm m)))
  step-IsLeaving w sighup k m other h =
      IsLeaving-HoldsMap k m _ h (disc_all-IsCalm w m.ccmap m m (calm m))
  step-IsLeaving w sigusr2 k m other h = h
  step-IsLeaving w sigprof k m other h = h
  step-IsLeaving w sigterm k m other h = absurd other
  step-IsLeaving w stop_timer k m other h = execute_stop-IsLeaving k m h
  step-IsLeaving w gc_timer k m other h =
      if_elim (IsLeaving k) (m.safe_restart && is_empty (active_calls m.ccmap m)) (λ _. h) (λ _. h)

  -- A step that ends with an exception is no firing of the timer.
  survived-IsLeaving :
      (w : World B) (i : MapInput B) (k : ℕ) (m : CallMap B)
      → NotSigterm i
      → IsLeaving k m
      → IsLeaving (tick i k) (survived (map_step ms read_route name_of w i m) m)
  unfolding map_step
  survived-IsLeaving w (request offer req) k m other h =
      survived-HoldsMap (IsLeaving k) m _ h (step-IsLeaving w (request offer req) k m other h)
  survived-IsLeaving w (call id i) k m other h =
      survived-HoldsMap (IsLeaving k) m _ h (step-IsLeaving w (call id i) k m other h)
  survived-IsLeaving w sighup k m other h =
      survived-HoldsMap (IsLeaving k) m _ h (step-IsLeaving w sighup k m other h)
  survived-IsLeaving w sigusr2 k m other h = h
  survived-IsLeaving w sigprof k m other h = h
  survived-IsLeaving w sigterm k m other h = absurd other
  survived-IsLeaving w stop_timer k m other h = execute_stop-IsLeaving k m h
  survived-IsLeaving w gc_timer k m other h = step-IsLeaving w gc_timer k m other h

  run-IsLeaving :
      (is : List (World B × MapInput B)) (k : ℕ) (m : CallMap B)
      → NoSigterm is
      → IsLeaving k m
      → IsLeaving (firings is + k) (map_run ms read_route name_of is m)
  unfolding map_run
  run-IsLeaving [] k m others h = (h.0, h.1, ground (arith, h.2))
  run-IsLeaving ((w, i) ∷ is) k m others h =
      let q = run-IsLeaving is (tick i k) _ others.1 (survived-IsLeaving w i k m others.0 h) in
      (q.0, q.1, ground (arith, q.2, tick_add i (firings is) k))

  -- After SIGTERM was taken, and if no other follows, the event loop is broken once the timer of
  -- safeStop has fired five times, whatever else reaches the map.
  pub map_run-stopped :
      (is : List (World B × MapInput B)) (m : CallMap B)
      → m.safe_stop ≡ true
      → m.stop_count ≡ 0
      → NoSigterm is
      → 5 ≤ firings is
      → (map_run ms read_route name_of is m).stopped ≡ true
  map_run-stopped is m on start others five =
      let q = run-IsLeaving is 0 m others (on, ground (arith, start), ground (arith, start)) in
      ground (arith, q.1, q.2, five)
