-- ===== src/B2b/Laws/Stopping.antt =====
-- The end of the program: no new calls, and the event loop is broken.
use b2bua.Prelude.{
  ℕ, suc, ◌≤◌, ◌≡◌, refl, String, Bool, true, false, Option, none, some, List, [], ◌∷◌, ◌==◌, ◌&&◌,
  ◌||◌, not, ltb, arith, if_elim, if◌then◌else◌, length,
}
use b2bua.Sip.Message.{Header}
use b2bua.B2b.Types.{Route, Controller, Attempt, ok, err, ◌>>=◌}
use b2bua.B2b.Legs.{World}
use b2bua.B2b.Control.{disconnect_call}
use b2bua.B2b.Machine.{step, survived}
use b2bua.B2b.Map.{
  MapSettings, CallMap, Answer, respond, NewRequest, without, is_listed, is_invite, removals,
  settle, take_invite, take_other, map_request, disc_all, active_calls, is_empty, safe_stop,
  execute_stop, collect, MapInput, request, call, sighup, sigusr2, sigprof, sigterm, stop_timer,
  gc_timer, map_step, map_run,
}

length-without : (n : ℕ) (l : List ℕ) → length (without n l) ≤ length l
unfolding without
length-without n [] = omega arith
length-without n (m ∷ l) =
    if_elim (λ (x : List ℕ). length x ≤ suc (length l)) (n == m) (λ _. omega arith)
      (λ _. omega (arith, length-without n l))

module _ {B : Type 0} where
  abbrev pub HoldsMap : (CallMap B → Type 0) → Attempt (CallMap B) → Type 0
  HoldsMap P (ok m) = P m
  HoldsMap P (err e) = Unit

  pub bind-HoldsMap :
      (P Q : CallMap B → Type 0) (a : Attempt (CallMap B)) (f : CallMap B → Attempt (CallMap B))
      → HoldsMap P a
      → ((m : CallMap B) → P m → HoldsMap Q (f m))
      → HoldsMap Q (a >>= f)
  bind-HoldsMap P Q (ok m) f h k = k m h
  bind-HoldsMap P Q (err e) f h k = tt

  pub any-HoldsMap {κ} :
      {A : Type κ} (Q : CallMap B → Type 0) (a : Attempt A) (f : A → Attempt (CallMap B))
      → ((v : A) → HoldsMap Q (f v))
      → HoldsMap Q (a >>= f)
  any-HoldsMap Q (ok v) f k = k v
  any-HoldsMap Q (err e) f k = tt

  pub survived-HoldsMap :
      (P : CallMap B → Type 0) (m : CallMap B) (a : Attempt (CallMap B))
      → P m
      → HoldsMap P a
      → P (survived a m)
  survived-HoldsMap P m (ok n) h k = k
  survived-HoldsMap P m (err e) h k = h

  -- No call is new, none comes into the map, and the flags are the same.
  abbrev pub IsCalm : CallMap B → CallMap B → Type 0
  IsCalm m0 m =
      (m.next_call ≡ m0.next_call)
      × (length m.ccmap ≤ length m0.ccmap)
      × (m.safe_restart ≡ m0.safe_restart)
      × (m.safe_stop ≡ m0.safe_stop)
      × (m.stop_count ≡ m0.stop_count)
      × (m.stopped ≡ m0.stopped)

  pub settle-IsCalm :
      (id : ℕ) (c : Controller B) (m0 m : CallMap B)
      → IsCalm m0 m
      → HoldsMap (IsCalm m0) (settle id c m)
  settle-IsCalm id c m0 m h =
      if_elim (HoldsMap (IsCalm m0)) (removals c.commands == removals (m.calls id).commands)
        (λ _. h)
        (λ _.
          if_elim (HoldsMap (IsCalm m0)) (not (is_listed id m.ccmap)) (λ _. tt)
            (λ _. (h.0, omega (arith, h.1, length-without id m.ccmap), h.2, h.3, h.4, h.5)))

  pub disc_all-IsCalm :
      (w : World B) (ids : List ℕ) (m0 m : CallMap B)
      → IsCalm m0 m
      → HoldsMap (IsCalm m0) (disc_all w ids m)
  unfolding disc_all
  disc_all-IsCalm w [] m0 m h = h
  disc_all-IsCalm w (id ∷ ids) m0 m h =
      any-HoldsMap (IsCalm m0) (disconnect_call w none none (m.calls id)) _ (λ c.
        bind-HoldsMap (IsCalm m0) (IsCalm m0) (settle id c m) _ (settle-IsCalm id c m0 m h)
          (λ m1 k. disc_all-IsCalm w ids m0 m1 k))

  -- The program is about to end, and has made `n` calls, of which at most `l` are there.
  abbrev pub IsClosed : ℕ → ℕ → CallMap B → Type 0
  IsClosed n l m =
      ((m.safe_restart || m.safe_stop) ≡ true) × (m.next_call ≡ n) × (length m.ccmap ≤ l)

  IsClosed-IsCalm : (n l : ℕ) (m0 m : CallMap B) → IsClosed n l m0 → IsCalm m0 m → IsClosed n l m
  IsClosed-IsCalm n l m0 m h k = ground (arith, h.0, h.1, h.2, k.0, k.1, k.2, k.3)

  pub calm : (m : CallMap B) → IsCalm m m
  calm m = (refl, omega arith, refl, refl, refl, refl)

  IsClosed-HoldsMap :
      (n l : ℕ) (m0 : CallMap B) (a : Attempt (CallMap B))
      → IsClosed n l m0
      → HoldsMap (IsCalm m0) a
      → HoldsMap (IsClosed n l) a
  IsClosed-HoldsMap n l m0 (ok m) h k = IsClosed-IsCalm n l m0 m h k
  IsClosed-HoldsMap n l m0 (err e) h k = tt

module _ {B : Type 0} (ms : MapSettings B) (read_route : String → Attempt Route)
    (name_of : Header → Option String) where
  -- A request while the program is about to end changes nothing.
  pub map_request-closed :
      (offer : NewRequest → Controller B → Attempt (Controller B)) (req : NewRequest)
      (P : CallMap B → Type 0) (m : CallMap B)
      → (m.safe_restart || m.safe_stop) ≡ true
      → P m
      → HoldsMap P (map_request ms offer req m >>= λ r. ok r.1)
  unfolding map_request
  map_request-closed offer req P m closed h = by_tag req.to_tag
    where
      by_flag :
          (b : Bool)
          → b ≡ true
          → (a : Attempt (Answer × CallMap B))
          → HoldsMap P (
              (if b then ok (respond 503 "Service Unavailable (restarting)", m) else a) >>= λ r.
              ok r.1)
      by_flag true e a = h
      by_flag false e a = absurd (ground (arith, e))

      by_method :
          (b : Bool)
          → HoldsMap P
              ((if b then take_invite ms offer req m else ok (take_other req m, m)) >>= λ r. ok r.1)
      by_method true = by_flag (m.safe_restart || m.safe_stop) closed _
      by_method false = h

      by_tag :
          (t : Option String)
          → HoldsMap P (
              (elim t [
                | some t ↦ ok (respond 481 "Call Leg/Transaction Does Not Exist", m)
                | none ↦
                    if is_invite req.method
                    then take_invite ms offer req m
                    else ok (take_other req m, m)
              ])
              >>= λ r. ok r.1)
      by_tag none = by_method (is_invite req.method)
      by_tag (some t) = h

  step-IsClosed :
      (w : World B) (i : MapInput B) (n l : ℕ) (m : CallMap B)
      → IsClosed n l m
      → HoldsMap (IsClosed n l) (map_step ms read_route name_of w i m)
  unfolding map_step safe_stop execute_stop collect
  step-IsClosed w (request offer req) n l m h = map_request-closed offer req (IsClosed n l) m h.0 h
  step-IsClosed w (call id i) n l m h =
      any-HoldsMap (IsClosed n l) (step ms.controller read_route name_of w i (m.calls id)) _
        (λ c. IsClosed-HoldsMap n l m _ h (settle-IsCalm id c m m (calm m)))
  step-IsClosed w sighup n l m h =
      IsClosed-HoldsMap n l m _ h (disc_all-IsCalm w m.ccmap m m (calm m))
  step-IsClosed w sigusr2 n l m h = h
  step-IsClosed w sigprof n l m h = (refl, h.1, h.2)
  step-IsClosed w sigterm n l m h =
      bind-HoldsMap (IsClosed n l) (IsClosed n l) (disc_all w m.ccmap m) _
        (IsClosed-HoldsMap n l m _ h (disc_all-IsCalm w m.ccmap m m (calm m)))
        (λ m1 k. (ground arith, k.1, k.2))
  step-IsClosed w stop_timer n l m h =
      if_elim (IsClosed n l) (not m.safe_stop) (λ _. h)
        (λ _.
          if_elim (IsClosed n l)
            (not (is_empty (active_calls m.ccmap m)) && ltb (suc m.stop_count) 5) (λ _. h) (λ _. h))
  step-IsClosed w gc_timer n l m h =
      if_elim (IsClosed n l) (m.safe_restart && is_empty (active_calls m.ccmap m)) (λ _. h) (λ _. h)

  -- Once SIGTERM or SIGPROF was taken, over any run of what reaches the map after that, no call is
  -- made and none comes into the map.
  pub map_run-IsClosed :
      (is : List (World B × MapInput B)) (m : CallMap B)
      → (m.safe_restart || m.safe_stop) ≡ true
      → IsClosed m.next_call (length m.ccmap) (map_run ms read_route name_of is m)
  unfolding map_run
  map_run-IsClosed is m h = all is m (h, refl, omega arith)
    where
      all :
          (is : List (World B × MapInput B)) (m1 : CallMap B)
          → IsClosed m.next_call (length m.ccmap) m1
          → IsClosed m.next_call (length m.ccmap) (map_run ms read_route name_of is m1)
      all [] m1 k = k
      all ((w, i) ∷ is) m1 k = all is _ (
          survived-HoldsMap (IsClosed m.next_call (length m.ccmap)) m1
            (map_step ms read_route name_of w i m1) k
            (step-IsClosed w i m.next_call (length m.ccmap) m1 k))
