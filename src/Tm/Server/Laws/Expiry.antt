-- ===== src/Tm/Server/Laws/Expiry.antt =====
-- The end of an INVITE that nobody answers and whose final response nobody acknowledges.
use b2bua.Prelude.{
  ℕ, zero, suc, ◌*◌, ◌^◌, ◌≡◌, refl, sym, ◌∙◌, ap, String, true, false, none, some, List, ◌∷◌, ltb,
  arith,
}
use native.Mathlib.Nat.{mul_assoc, mul_left_comm, pow-succ'}
use b2bua.Prelude.Assoc.{lookup, remove, lookup-remove, lookup-insert}
use b2bua.Tm.Cache.{Sent, sending, store, transmit_data}
use b2bua.Tm.Server.Types.{
  Tid, tid_key, same_tid_iff, Reply, completed, on_cancel, on_noack, Tm, Attempt, ok, ◌>>=◌,
  set_object, set_net, clean,
}
use b2bua.Tm.Server.Send.{sent_tag, call_back, do_cancel, timer_a, timer_d, timer_e}
use b2bua.Tm.Server.Receive.{has_timer}
use b2bua.Tm.Server.Laws.Final.{IsWaiting, after_invite, send_response-final}

-- timerA, so many times.
unfoldable pub resends : ℕ → ℕ → Tm → Attempt Tm
resends zero o m = ok m
resends (suc n) o m = timer_a o m >>= resends n o

-- So many copies of what was sent, and the rest of the log.
unfoldable pub copies : ℕ → Sent → List Sent → List Sent
copies zero s log = log
copies (suc n) s log = s ∷ copies n s log

-- The transaction `o` stands under `k`, and repeats a final response.
abbrev pub IsRepeating : Tid → ℕ → String → String × ℕ → ℕ → Tm → Type 0
IsRepeating k u text address o m =
    (((m.heap o).tid ≡ some k) × ((m.heap o).userv ≡ some u) × (lookup k m.tserver ≡ some o))
    × (((m.heap o).text ≡ some text) × ((m.heap o).address ≡ some address))
    × ((m.heap o).state ≡ completed)

-- The manager after one timerA.
abbrev pub repeated : ℕ → String → String × ℕ → ℕ → Tm → Tm
repeated u text address o m =
    let t = m.heap o in
    set_object o (record t { tout = 2 * t.tout; te_a = some (2 * t.tout) })
      (set_net (transmit_data u text address none 0 m.client.net) m)

timer_a-repeated :
    (k : Tid) (u : ℕ) (text : String) (address : String × ℕ) (o : ℕ) (m : Tm)
    → IsRepeating k u text address o m
    → timer_a o m ≡ ok (repeated u text address o m)
unfolding timer_a
timer_a-repeated k u text address o m h = ground (arith, h.0.1, h.1.0, h.1.1)

copies_end : (n : ℕ) (s : Sent) (log : List Sent) → copies n s (s ∷ log) ≡ s ∷ copies n s log
unfolding copies
copies_end zero s log = refl
copies_end (suc n) s log = ap (λ l. s ∷ l) (copies_end n s log)

pub resends-ok :
    (n : ℕ) (k : Tid) (u : ℕ) (text : String) (address : String × ℕ) (o : ℕ) (m : Tm)
    → IsRepeating k u text address o m
    → (m1 : Tm) × (resends n o m ≡ ok m1)
      × IsRepeating k u text address o m1
      × ((m1.heap o).tout ≡ 2 ^ n * (m.heap o).tout)
      × (m1.client.net.log ≡ copies n (sending u text address) m.client.net.log)
      × (m1.called ≡ m.called)
      × ((m1.heap o).noack_cb ≡ (m.heap o).noack_cb)
      × (m1.tserver ≡ m.tserver)
unfolding resends copies transmit_data
resends-ok zero k u text address o m h = (m, refl, h, ground arith, refl, refl, refl, refl)
resends-ok (suc n) k u text address o m h =
    let m0 = repeated u text address o m in
    let r =
      resends-ok n k u text address o m0 (ground (arith, h.0.0, h.0.1, h.0.2, h.1.0, h.1.1, h.2)) in
    (
      r.0,
      ground (arith, timer_a-repeated k u text address o m h, r.1),
      r.2,
      r.3 ∙ (ground (arith) ∙ grow),
      r.4 ∙ copies_end n (sending u text address) m.client.net.log,
      r.5,
      r.6 ∙ ground arith,
      r.7,
    )
  where
    a : ℕ
    a = (m.heap o).tout

    grow : 2 ^ n * (2 * a) ≡ 2 ^ suc n * a
    grow =
        mul_left_comm (2 ^ n) 2 a
        ∙ sym (mul_assoc 2 (2 ^ n) a)
        ∙ ap (λ x. x * a) (sym (pow-succ' 2 n))

-- The INVITE once it has expired, and then once it was told so and gave up on the ACK.
abbrev pub expired : ℕ → Tm → Tm
expired o m =
    set_object o (record (m.heap o) { te_e = none; te_f = none; r487 = (m.heap o).r487_expired }) m

abbrev pub refused : Tid → ℕ → ℕ → Reply → Tm → Tm
refused k u o r m =
    call_back on_cancel (m.heap o).cancel_cb (after_invite k u o r none 0 (expired o m))

timer_e-refused :
    (k : Tid) (u o : ℕ) (q r : Reply) (m : Tm)
    → IsWaiting k u o m
    → (m.heap o).r487 ≡ some q
    → (m.heap o).r487_expired ≡ some r
    → ltb r.code 200 ≡ false
    → (m.heap o).needack ≡ true
    → timer_e o m ≡ ok (refused k u o r m)
unfolding timer_e do_cancel
timer_e-refused k u o q r m h has later final needs = ground (
  arith,
  h.1.1,
  has,
  later,
  needs,
  send_response-final k u o r true none 0 (expired o m)
      ((ground (arith, h.0.0), ground (arith, h.0.1)), (h.1.0, ground (arith, h.1.1))) final,
)

-- What timerD leaves of a transaction that repeats its final response.
abbrev pub given_up : Tid → ℕ → Tm → Tm
given_up k o m =
    let t = m.heap o in
    let m1 = call_back on_noack t.noack_cb m in
    set_object o (clean (record t { te_d = none; te_a = none }))
      (record m1 { tserver = remove k m.tserver })

timer_d-given_up :
    (k : Tid) (u : ℕ) (text : String) (address : String × ℕ) (o : ℕ) (m : Tm)
    → IsRepeating k u text address o m
    → timer_d o m ≡ ok (given_up k o m)
unfolding timer_d
timer_d-given_up k u text address o m h = ground (arith, h.0.0, h.0.2, h.2)

refused-IsRepeating :
    (k : Tid) (u o : ℕ) (r : Reply) (m : Tm)
    → IsWaiting k u o m
    → IsRepeating (record k { last = sent_tag r }) u r.text r.address o (refused k u o r m)
refused-IsRepeating k u o r m h =
    let k1 = record k { last = sent_tag r } in
    (
      (
        ground arith,
        ground (arith, h.0.1),
        ground (arith, lookup-insert k1 k1 o (remove k m.tserver), same_tid_iff k1 k1),
      ),
      (ground arith, ground arith),
      ground arith,
    )

-- An INVITE that waits for a final response when it expires gets the 487 of its expiry; while no ACK
-- comes, any number of firings of timerA send that response again, each after twice the time; and
-- when timerD fires then, the transaction is gone: it stands under no id and has no timer, and the
-- callbacks for a cancelled call and for a missing ACK were called, if set, in this order.
pub timer_e-timer_d :
    (n : ℕ) (k : Tid) (u o : ℕ) (q r : Reply) (m : Tm)
    → IsWaiting k u o m
    → (m.heap o).r487 ≡ some q
    → (m.heap o).r487_expired ≡ some r
    → ltb r.code 200 ≡ false
    → (m.heap o).needack ≡ true
    → (m1 m2 m3 : Tm) × (timer_e o m ≡ ok m1)
      × (resends n o m1 ≡ ok m2)
      × (timer_d o m2 ≡ ok m3)
      × (m2.client.net.log ≡ copies (suc n) (sending u r.text r.address) m.client.net.log)
      × ((m2.heap o).tout ≡ 2 ^ n * 500)
      × (lookup k m3.tserver ≡ none)
      × (lookup (record k { last = sent_tag r }) m3.tserver ≡ none)
      × (has_timer (m3.heap o) ≡ false)
      × (m3.called
          ≡ (call_back on_noack
              (m.heap o).noack_cb
              (call_back on_cancel (m.heap o).cancel_cb m)).called)
unfolding copies transmit_data store
timer_e-timer_d n k u o q r m h has later final needs =
    let k1 = record k { last = sent_tag r } in
    let m1 = refused k u o r m in
    let a = resends-ok n k1 u r.text r.address o m1 (refused-IsRepeating k u o r m h) in
    (
      m1,
      a.0,
      given_up k1 o a.0,
      timer_e-refused k u o q r m h has later final needs,
      a.1,
      timer_d-given_up k1 u r.text r.address o a.0 a.2,
      a.4 ∙ copies_end n (sending u r.text r.address) m.client.net.log,
      a.3 ∙ ground arith,
      ground (
        arith,
        a.7,
        lookup-remove k1 k a.0.tserver,
        lookup-insert k1 k o (remove k m.tserver),
        lookup-remove k k m.tserver,
        same_tid_iff k k,
      ),
      ground (arith, lookup-remove k1 k1 a.0.tserver, same_tid_iff k1 k1),
      ground arith,
      ground (arith, a.5, a.6),
    )
