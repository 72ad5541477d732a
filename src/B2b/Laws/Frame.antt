-- ===== src/B2b/Laws/Frame.antt =====
-- What the call legs' callbacks leave as it is: the routes, the legs that were made, and which one
-- is current.
use b2bua.Prelude.{ℕ, ◌≡◌, refl, String, Option, none, some, List, [], ◌∷◌, ◌==◌, ◌&&◌, if_elim}
use b2bua.Ua.Types.{Event, EventKind}
use b2bua.B2b.Types.{
  wait_route, connected, dead, account_connect, account_disconnect, Account, no_account, fake,
  radius, Controller, Attempt, ok, err, ◌>>=◌, attribute_error,
}
use b2bua.B2b.Legs.{
  Callback, on_conn, on_disc, on_dead, World, same_state, is_dead_leg, command, a_conn, end_account,
  a_disc, o_is_dead, a_dead, is_current, o_dead, called_back, all_called_back, set_leg, new_event,
  count_event, tell_leg, hang_up_leg, tell_new, give_up,
}

pub opt-elim {κ} :
    {A : Type κ} {C : Type 0} (P : C → Type 0) (x : Option A) (a : C) (f : A → C)
    → P a
    → ((v : A) → P (f v))
    → P (elim x [ none ↦ a | some v ↦ f v ])
opt-elim P none a f h k = h
opt-elim P (some v) a f h k = k v

module _ {B : Type 0} where
  -- What holds of the controller if there is no exception.
  abbrev pub Holds : (Controller B → Type 0) → Attempt (Controller B) → Type 0
  Holds P (ok c) = P c
  Holds P (err e) = Unit

  pub Holds-bind :
      (P Q : Controller B → Type 0) (a : Attempt (Controller B))
      (f : Controller B → Attempt (Controller B))
      → Holds P a
      → ((c : Controller B) → P c → Holds Q (f c))
      → Holds Q (a >>= f)
  Holds-bind P Q (ok c) f h k = k c h
  Holds-bind P Q (err e) f h k = tt

  pub Holds-map :
      (P Q : Controller B → Type 0) (a : Attempt (Controller B))
      → Holds P a
      → ((c : Controller B) → P c → Q c)
      → Holds Q a
  Holds-map P Q (ok c) h k = k c h
  Holds-map P Q (err e) h k = tt

  pub any-Holds {κ} :
      {A : Type κ} (Q : Controller B → Type 0) (a : Attempt A) (f : A → Attempt (Controller B))
      → ((v : A) → Holds Q (f v))
      → Holds Q (a >>= f)
  any-Holds Q (ok v) f k = k v
  any-Holds Q (err e) f k = tt

  abbrev pub Same : Controller B → Controller B → Type 0
  Same c0 c =
      (c.routes ≡ c0.routes) × (c.next_leg ≡ c0.next_leg) × (c.ua_o ≡ c0.ua_o) × (c.legs ≡ c0.legs)

  pub end_account-Same :
      (c0 : Controller B) (rtime : ℕ) (origin : Option String) (result : ℕ) (c : Controller B)
      → Same c0 c
      → Same c0 (end_account rtime origin result c)
  end_account-Same c0 rtime origin result c h = by_account c.acct_a
    where
      by_account :
          (a : Account)
          → Same c0 (elim a [
            | no_account ↦ c
            | fake ↦ c
            | radius ↦ command (account_disconnect 0 rtime origin result) c
          ])
      by_account no_account = h
      by_account fake = h
      by_account radius = h

  a_conn-Same :
      (c0 : Controller B) (rtime : ℕ) (origin : Option String) (c : Controller B)
      → Same c0 c
      → Holds (Same c0) (a_conn rtime origin c)
  unfolding a_conn
  a_conn-Same c0 rtime origin c h = by_account c.acct_a
    where
      by_account :
          (a : Account)
          → Holds (Same c0) (elim a [
            | no_account ↦ err attribute_error
            | fake ↦ ok (record c { state = connected })
            | radius ↦
                ok (command (account_connect 0 rtime origin) (record c { state = connected }))
          ])
      by_account no_account = tt
      by_account fake = h
      by_account radius = h

  a_disc-Same :
      (c0 : Controller B) (rtime : ℕ) (origin : Option String) (result : ℕ) (c : Controller B)
      → Same c0 c
      → Same c0 (a_disc rtime origin result c)
  unfolding a_disc
  a_disc-Same c0 rtime origin result c h =
      end_account-Same c0 rtime origin result _
        (if_elim (Same c0) (same_state c.state wait_route && c.auth_proc) (λ _. h) (λ _. h))

  pub called_back-Same :
      (c0 : Controller B) (n : ℕ) (k : Callback) (c : Controller B)
      → Same c0 c
      → Holds (Same c0) (called_back n k c)
  unfolding called_back a_dead o_dead
  called_back-Same c0 n (on_conn rtime origin) c h =
      if_elim (Holds (Same c0)) (n == 0) (λ _. a_conn-Same c0 rtime origin c h)
        (λ _. opt-elim (Same c0) c.acct_o c _ h (λ _. h))
  called_back-Same c0 n (on_disc rtime origin result) c h =
      if_elim (Same c0) (n == 0) (λ _. a_disc-Same c0 rtime origin result c h)
        (λ _. if_elim (Same c0) (c.legs n).accounted (λ _. h) (λ _. h))
  called_back-Same c0 n on_dead c h =
      if_elim (Same c0) (n == 0) (λ _. if_elim (Same c0) (o_is_dead c) (λ _. h) (λ _. h))
        (λ _.
          if_elim (Same c0) (is_current n c.ua_o && is_dead_leg (c.legs 0).state) (λ _. h) (λ _. h))

  all_called_back-Same :
      (c0 : Controller B) (n : ℕ) (ks : List Callback) (c : Controller B)
      → Same c0 c
      → Holds (Same c0) (all_called_back n ks c)
  unfolding all_called_back
  all_called_back-Same c0 n [] c h = h
  all_called_back-Same c0 n (k ∷ ks) c h =
      Holds-bind (Same c0) (Same c0) (called_back n k c) _ (called_back-Same c0 n k c h)
        (λ c1 h1. all_called_back-Same c0 n ks c1 h1)

  pub tell_leg-Same :
      (w : World B) (n : ℕ) (e : Event B) (c : Controller B)
      → Holds (Same (set_leg n (w.reaction n e c).1 c)) (tell_leg w n e c)
  unfolding tell_leg
  tell_leg-Same w n e c =
      all_called_back-Same (set_leg n (w.reaction n e c).1 c) n (w.reaction n e c).0 _
        (refl, refl, refl, refl)

  -- The event by which a UA hangs up, and the one by which the controller gives up.
  abbrev pub bye_event : ℕ → Option String → Controller B → Event B
  bye_event rtime origin c = new_event (EventKind.disconnect none) rtime origin c

  abbrev pub fail_event : ℕ → String → ℕ → Controller B → Event B
  fail_event code text rtime c = new_event (EventKind.fail (some (code, text, none))) rtime none c

  pub hang_up_leg-Same :
      (w : World B) (n rtime : ℕ) (origin : Option String) (c : Controller B)
      → Holds
          (Same (set_leg n (w.reaction n (bye_event rtime origin c) (count_event c)).1 c))
          (hang_up_leg w n rtime origin c)
  unfolding hang_up_leg
  hang_up_leg-Same w n rtime origin c =
      let r = w.reaction n (bye_event rtime origin c) (count_event c) in
      all_called_back-Same (set_leg n r.1 c) n r.0 _ (refl, refl, refl, refl)

  pub give_up-Same :
      (w : World B) (code : ℕ) (text : String) (rtime : ℕ) (c : Controller B)
      → Holds
          (λ c1.
            Same (set_leg 0 (w.reaction 0 (fail_event code text rtime c) (count_event c)).1 c) c1
            × (c1.state ≡ dead))
          (give_up w code text rtime c)
  give_up-Same w code text rtime c =
      let c0 = set_leg 0 (w.reaction 0 (fail_event code text rtime c) (count_event c)).1 c in
      Holds-bind (Same c0) (λ c1. Same c0 c1 × (c1.state ≡ dead))
        (tell_new w 0 (EventKind.fail (some (code, text, none))) rtime c) _
        (tell_leg-Same w 0 (fail_event code text rtime c) (count_event c)) (λ c1 h. (h, refl))
