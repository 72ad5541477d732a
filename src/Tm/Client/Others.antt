-- ===== src/Tm/Client/Others.antt =====
-- What the rest of the traffic does to a client transaction of the table (`tclient`).
use b2bua.Prelude.{
  ℕ, ◌≡◌, ◌∙◌, refl, ap, String, Bool, true, false, Option, none, some, List, [], ◌∷◌, All, arith,
  str_eq, eq_iff, ltb, if◌then◌else◌, if_elim, ◌&&◌, ◌*◌,
}
use b2bua.Prelude.Assoc.{Assoc, lookup, insert, remove, lookup-remove, lookup-insert, string_key}
use b2bua.Tm.Cache.{silence, store, transmit_data}
use b2bua.Tm.Client.{
  ClientState, trying, ringing, terminated, uack, Client, Manager, Outgoing, put, forget, tell,
  is_known, is_ringing, is_trying, start_client, cancel_of, with_text, stop_timers, new_transaction,
  send_cancel, cancel_transaction, provisional, final, incoming_response, route_response, timer_a,
  timer_b, timer_c, timer_g, send_ack,
}

-- What holds of the manager if there is no exception.
abbrev pub Ok : (Assoc String Client → Type 0) → Option Manager → Type 0
Ok P none = Unit
Ok P (some m) = P m.tclient

Ok-elim {ℓ} :
    {A : Type ℓ} (P : Assoc String Client → Type 0) (o : Option A) (f : A → Option Manager)
    → ((a : A) → Ok P (f a))
    → Ok P (elim o [ none ↦ none | some a ↦ f a ])
Ok-elim P none f h = tt
Ok-elim P (some a) f h = h a

Ok-next :
    (P : Assoc String Client → Type 0) (o : Option Manager) (f : Manager → Option Manager)
    → Ok P o
    → ((n : Manager) → P n.tclient → Ok P (f n))
    → Ok P (elim o [ none ↦ none | some n ↦ f n ])
Ok-next P none f h g = tt
Ok-next P (some n) f h g = g n h

module _ (k : String) (t0 : Client) where
  -- The transaction is listed, just as it was.
  abbrev IsListed : Assoc String Client → Type 0
  IsListed d = lookup k d ≡ some t0

  insert-IsListed :
      (id : String) (t : Client) (d : Assoc String Client)
      → str_eq id k ≡ false
      → IsListed d
      → IsListed (insert id t d)
  insert-IsListed id t d other h = ground (arith, h, other, lookup-insert id k t d)

  put-IsListed :
      (t : Client) (m : Manager)
      → str_eq t.tid k ≡ false
      → IsListed m.tclient
      → IsListed (put t m).tclient
  put-IsListed t m other h =
      if_elim (λ (n : Manager). IsListed n.tclient) (is_known (lookup t.tid m.tclient))
        (λ _. insert-IsListed t.tid t m.tclient other h) (λ _. h)

  remove-IsListed :
      (id : String) (d : Assoc String Client)
      → str_eq id k ≡ false
      → IsListed d
      → IsListed (remove id d)
  remove-IsListed id d other h = ground (arith, h, other, lookup-remove id k d)

  tell-IsListed :
      (t : Client) (code : ℕ) (m : Manager) → IsListed m.tclient → IsListed (tell t code m).tclient
  tell-IsListed t code m h =
      if_elim (λ (n : Manager). IsListed n.tclient) t.watched (λ _. h) (λ _. h)

  -- The guard of newTransaction: a transaction id that is in use is not taken.
  new_transaction-IsListed :
      (o : Outgoing) (watched : Bool) (m : Manager)
      → IsListed m.tclient
      → Ok IsListed (new_transaction o watched m)
  unfolding new_transaction transmit_data
  new_transaction-IsListed o watched m h =
      if_elim (Ok IsListed) (is_known (lookup o.tid m.tclient)) (λ _. tt)
        (λ free.
          insert-IsListed o.tid (start_client o watched) m.tclient
            (ground (arith, h, free, eq_iff o.tid k)) h)

  send_cancel-IsListed :
      (t : Client) (m : Manager) → IsListed m.tclient → Ok IsListed (send_cancel t m)
  unfolding send_cancel
  send_cancel-IsListed t m h =
      Ok-elim IsListed t.cancel (λ c. new_transaction (cancel_of t c) false m)
        (λ c. new_transaction-IsListed (cancel_of t c) false m h)

  tid-with_text : (extra : Option String) (t : Client) → (with_text extra t).tid ≡ t.tid
  tid-with_text none t = refl
  tid-with_text (some text) t = ground arith

  cancel_transaction-IsListed :
      (extra : Option String) (t : Client) (m : Manager)
      → str_eq t.tid k ≡ false
      → IsListed m.tclient
      → Ok IsListed (cancel_transaction extra t m)
  unfolding cancel_transaction
  cancel_transaction-IsListed extra t m other h =
      let t1 = with_text extra t in
      if_elim (Ok IsListed) (is_ringing t.state)
        (λ _.
          send_cancel-IsListed t1 (put t1 m)
            (put-IsListed t1 m (ap (λ id. str_eq id k) (tid-with_text extra t) ∙ other) h))
        (λ _. put-IsListed (record t { cancel_pending = true }) m other h)

  final-IsListed :
      (code : ℕ) (c : String) (ack : (String × ℕ) × String) (t : Client) (m : Manager)
      → str_eq t.tid k ≡ false
      → IsListed m.tclient
      → IsListed (final code c ack t m).tclient
  unfolding final transmit_data
  final-IsListed code c ack t m other h =
      let P = λ (n : Manager). IsListed n.tclient in
      let quiet = record m { net = store c silence m.net } in
      let acked = record m { net = transmit_data t.userv ack.1 ack.0 (some c) 0 m.net } in
      if_elim P t.needack
        (λ _.
          if_elim P t.uack
            (λ _.
              let t1 = record (stop_timers t) {
                state = uack;
                ack = some (ack.0, ack.1, c);
                te_g = some 64000;
              } in
              tell-IsListed t1 code (put t1 quiet) (put-IsListed t1 quiet other h))
            (λ _. remove-IsListed t.tid _ other (tell-IsListed t code acked h)))
        (λ _. remove-IsListed t.tid _ other (tell-IsListed t code quiet h))

  provisional-IsListed :
      (code : ℕ) (c : String) (t : Client) (m : Manager)
      → str_eq t.tid k ≡ false
      → IsListed m.tclient
      → Ok IsListed (provisional code c t m)
  unfolding provisional
  provisional-IsListed code c t m other h =
      let first = is_trying t.state in
      let t1 = stop_timers t in
      let t2 = record t1 {
        state = ringing;
        cancel_pending = if first then false else t1.cancel_pending;
        te_b = some t1.expires;
      } in
      let m1 = put t2 m in
      let listed = put-IsListed t2 m other h in
      noted t2 (if first && t.cancel_pending then send_cancel t m1 else some m1) (
        if_elim (Ok IsListed) (first && t.cancel_pending) (λ _. send_cancel-IsListed t m1 listed)
          (λ _. listed))
    where
      noted :
          (u : Client) (o : Option Manager)
          → Ok IsListed o
          → Ok IsListed (elim o [
            | none ↦ none
            | some n ↦ some (tell u code (record n { net = store c silence n.net }))
          ])
      noted u none j = tt
      noted u (some n) j = tell-IsListed u code (record n { net = store c silence n.net }) j

  incoming_response-IsListed :
      (code : ℕ) (c : String) (ack : (String × ℕ) × String) (t : Client) (m : Manager)
      → str_eq t.tid k ≡ false
      → IsListed m.tclient
      → Ok IsListed (incoming_response code c ack t m)
  unfolding incoming_response
  incoming_response-IsListed code c ack t m other h = by_state t.state
    where
      open_case :
          Ok IsListed (if ltb code 200 then provisional code c t m else some (final code c ack t m))
      open_case =
          if_elim (Ok IsListed) (ltb code 200) (λ _. provisional-IsListed code c t m other h)
            (λ _. final-IsListed code c ack t m other h)

      by_state :
          (st : ClientState)
          → Ok IsListed (elim st [
            | terminated ↦ some m
            | uack ↦ some m
            | trying ↦ if ltb code 200 then provisional code c t m else some (final code c ack t m)
            | ringing ↦ if ltb code 200 then provisional code c t m else some (final code c ack t m)
          ])
      by_state terminated = h
      by_state uack = h
      by_state trying = open_case
      by_state ringing = open_case

-- What reaches the client side of the manager: its calls, responses that were found to be of a
-- transaction or of none, and timers of a transaction.
pub data Stimulus : Type 0 where
  begin : Outgoing → Bool → Stimulus
  abandon : Option String → Client → Stimulus
  response : ℕ → String → (String × ℕ) × String → Client → Stimulus
  stray : ℕ → String → Stimulus
  acknowledge : Client → Stimulus
  fire_a fire_b fire_c fire_g : Client → Stimulus

unfoldable pub react : Stimulus → Manager → Option Manager
react (begin o watched) m = new_transaction o watched m
react (abandon extra t) m = cancel_transaction extra t m
react (response code c ack t) m = route_response (some t) code c ack m
react (stray code c) m = route_response none code c (("", 0), "") m
react (acknowledge t) m = send_ack t m
react (fire_a t) m = some (timer_a t m)
react (fire_b t) m = some (timer_b t m)
react (fire_c t) m = some (timer_c t m)
react (fire_g t) m = some (timer_g t m)

-- One stimulus after the other, up to an exception.
unfoldable pub react_all : List Stimulus → Manager → Option Manager
unfolding react
react_all [] m = some m
react_all (i ∷ is) m = elim (react i m) [ none ↦ none | some n ↦ react_all is n ]

-- The stimulus is not for the transaction with this id. A new transaction never is.
abbrev pub IsForOthers : String → Stimulus → Type 0
IsForOthers k (begin o watched) = Unit
IsForOthers k (abandon extra t) = str_eq t.tid k ≡ false
IsForOthers k (response code c ack t) = str_eq t.tid k ≡ false
IsForOthers k (stray code c) = Unit
IsForOthers k (acknowledge t) = str_eq t.tid k ≡ false
IsForOthers k (fire_a t) = str_eq t.tid k ≡ false
IsForOthers k (fire_b t) = str_eq t.tid k ≡ false
IsForOthers k (fire_c t) = str_eq t.tid k ≡ false
IsForOthers k (fire_g t) = str_eq t.tid k ≡ false

abbrev pub AllForOthers : String → List Stimulus → Type 0
AllForOthers k is = All (IsForOthers k) is

module _ (k : String) (t0 : Client) where
  react-IsListed :
      (i : Stimulus) (m : Manager)
      → IsForOthers k i
      → IsListed k t0 m.tclient
      → Ok (IsListed k t0) (react i m)
  unfolding react send_ack timer_a timer_b timer_c timer_g transmit_data
  react-IsListed (begin o watched) m other h = new_transaction-IsListed k t0 o watched m h
  react-IsListed (abandon extra t) m other h = cancel_transaction-IsListed k t0 extra t m other h
  react-IsListed (response code c ack t) m other h =
      incoming_response-IsListed k t0 code c ack t m other h
  react-IsListed (stray code c) m other h = h
  react-IsListed (acknowledge t) m other h =
      Ok-elim (IsListed k t0) t.ack
        (λ a. some (forget t (record m { net = transmit_data t.userv a.1 a.0 (some a.2) 0 m.net })))
        (λ a. remove-IsListed k t0 t.tid m.tclient other h)
  react-IsListed (fire_a t) m other h =
      put-IsListed k t0 (record t { tout = 2 * t.tout; te_a = some (2 * t.tout) }) m other h
  react-IsListed (fire_b t) m other h =
      let t1 = record t { te_a = none; te_b = none; te_c = some 32000; state = terminated } in
      tell-IsListed k t0 t1 408 (put t1 m) (put-IsListed k t0 t1 m other h)
  react-IsListed (fire_c t) m other h = remove-IsListed k t0 t.tid m.tclient other h
  react-IsListed (fire_g t) m other h = put-IsListed k t0 (record t { te_g = none }) m other h

-- Over any run of what reaches the client side of the manager, up to an exception, a listed
-- transaction stays exactly as it is, as long as no call, response or timer is for it: whatever
-- happens to the other transactions, and even if a new request, or the CANCEL of another one, has its
-- id.
pub react_all-IsListed :
    (is : List Stimulus) (k : String) (t : Client) (m : Manager)
    → AllForOthers k is
    → lookup k m.tclient ≡ some t
    → Ok (λ d. lookup k d ≡ some t) (react_all is m)
unfolding react_all
react_all-IsListed [] k t m others h = h
react_all-IsListed (i ∷ is) k t m others h =
    Ok-next (IsListed k t) (react i m) (react_all is) (react-IsListed k t i m others.0 h)
      (λ n j. react_all-IsListed is k t n others.1 j)
