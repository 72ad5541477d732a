-- ===== src/Tm/Client/Once.antt =====
-- A client transaction ends once.
use b2bua.Prelude.{
  ℕ, ◌≤◌, ◌≡◌, refl, ◌⊎◌, inl, inr, String, Option, Option-cases, none, some, arith, eq_iff,
  if_elim,
}
use b2bua.Prelude.Assoc.{lookup, lookup-remove, lookup-insert, string_key}
use b2bua.Tm.Cache.{silence, store, transmit_data}
use b2bua.Tm.Client.{
  ClientState, trying, ringing, terminated, uack, Client, Manager, put, forget, final,
  incoming_response, response_in, timer_b, tell, stop_timers,
}

-- After this, a response to the transaction reaches nobody: it changes nothing, or is only noted in
-- the cache.
abbrev pub IsOver : String → Manager → Type 0
IsOver tid m =
    (code : ℕ) (c : String) (ack : (String × ℕ) × String)
    → (response_in code c ack tid m ≡ some m)
      ⊎ (response_in code c ack tid m ≡ some (record m { net = store c silence m.net }))

IsOver-absent : (tid : String) (m : Manager) → lookup tid m.tclient ≡ none → IsOver tid m
unfolding response_in
IsOver-absent tid m h code c ack = inr (ground (arith, h))

IsOver-ended :
    (tid : String) (m : Manager) (t : Client)
    → lookup tid m.tclient ≡ some t
    → (t.state ≡ uack) ⊎ (t.state ≡ terminated)
    → IsOver tid m
unfolding response_in incoming_response
IsOver-ended tid m t h ended code c ack = inl (ground (arith, h, ended))

abbrev pub IsOpen : ClientState → Type 0
IsOpen trying = Unit
IsOpen ringing = Unit
IsOpen _ = ⊥

lookup-put :
    (t : Client) (m : Manager)
    → (lookup t.tid (put t m).tclient ≡ some t) ⊎ (lookup t.tid (put t m).tclient ≡ none)
lookup-put t m = elim (Option-cases (lookup t.tid m.tclient)) [
  | inl e ↦ inr (ground (arith, e))
  | inr (u, e) ↦ inl (ground (arith, e, lookup-insert t.tid t.tid t m.tclient, eq_iff t.tid t.tid))
]

-- A transaction that was put there in a state that takes no response, if it is listed.
IsOver-put :
    (t : Client) (code : ℕ) (m : Manager)
    → (t.state ≡ uack) ⊎ (t.state ≡ terminated)
    → IsOver t.tid (tell t code (put t m))
IsOver-put t code m ended = elim (lookup-put t m) [
  | inl here ↦ IsOver-ended t.tid (tell t code (put t m)) t (told here) ended
  | inr gone ↦ IsOver-absent t.tid (tell t code (put t m)) (told gone)
]
  where
    told :
        {o : Option Client}
        → lookup t.tid (put t m).tclient ≡ o
        → lookup t.tid (tell t code (put t m)).tclient ≡ o
    told {o} h = if_elim (λ (n : Manager). lookup t.tid n.tclient ≡ o) t.watched (λ _. h) (λ _. h)

lookup-forget : (t : Client) (m : Manager) → lookup t.tid (forget t m).tclient ≡ none
lookup-forget t m = ground (arith, lookup-remove t.tid t.tid m.tclient, eq_iff t.tid t.tid)

final-IsOver :
    (code : ℕ) (c : String) (ack : (String × ℕ) × String) (t : Client) (m : Manager)
    → IsOver t.tid (final code c ack t m)
unfolding final
final-IsOver code c ack t m =
    let P = λ (n : Manager). IsOver t.tid n in
    if_elim P t.needack
      (λ _.
        if_elim P t.uack
          (λ _.
            let t1 = record (stop_timers t) {
              state = uack;
              ack = some (ack.0, ack.1, c);
              te_g = some 64000;
            } in
            IsOver-put t1 code (record m { net = store c silence m.net }) (inl refl))
          (λ _.
            gone (
              tell t code (record m { net = transmit_data t.userv ack.1 ack.0 (some c) 0 m.net }))))
      (λ _. gone (tell t code (record m { net = store c silence m.net })))
  where
    gone : (n : Manager) → IsOver t.tid (forget t n)
    gone n = IsOver-absent t.tid (forget t n) (lookup-forget t n)

-- Once a final response has come to a transaction, or it has timed out, no other response to it is
-- given to its owner: it changes nothing, but for a note in the cache of retransmissions.
pub incoming_response-IsOver :
    (code : ℕ) (c : String) (ack : (String × ℕ) × String) (t : Client) (m : Manager)
    → IsOpen t.state
    → 200 ≤ code
    → ((n : Manager) × (incoming_response code c ack t m ≡ some n) × IsOver t.tid n)
      × IsOver t.tid (timer_b t m)
unfolding incoming_response timer_b
incoming_response-IsOver code c ack t m open_state late = (
  (final code c ack t m, ground (arith, open_state, late), final-IsOver code c ack t m),
  (let t1 = record t { te_a = none; te_b = none; te_c = some 32000; state = terminated } in
      IsOver-put t1 408 m (inr refl)),
)
