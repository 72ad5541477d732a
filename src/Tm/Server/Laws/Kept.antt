-- ===== src/Tm/Server/Laws/Kept.antt =====
-- Every operation on server transactions keeps the table in order.
use b2bua.Prelude.{
  ℕ, ◌<◌, ◌≡◌, refl, sym, ◌∙◌, String, Bool, true, Option, none, some, ◌&&◌, not, ltb, if_elim,
}
use b2bua.Tm.Cache.{Net, transmit_data}
use b2bua.Tm.Server.Types.{
  tid_key, Reply, Server, on_cancel, on_noack, Tm, none_attribute, Attempt, ok, err, ◌>>=◌,
  set_object, set_net, clean, drop, is_open,
}
use b2bua.Tm.Server.Send.{
  transmit_by, ack_tid, after_final, send_response, call_back, do_cancel, resend, timer_a, timer_d,
  timer_e, timer_f, is_confirmed, is_ringing,
}
use b2bua.Tm.Server.Laws.Keys.{
  IsKeyed, Holds, Holds-bind, opt-Holds, drop-Holds, set_object-IsKeyed, unlist-IsKeyed,
  relist-IsKeyed,
}

-- Operations act on an object that is there.
abbrev pub Knows : ℕ → Tm → Type 0
Knows o m = IsKeyed m × (o < m.next_object)

-- Sending changes nothing of this; `net` and the log are all that it does.
transmit_by-Holds :
    (P : Tm → Type 0) (u : Option ℕ) (text : String) (address : String × ℕ) (c : Option String)
    (l : ℕ) (m : Tm) (f : Tm → Attempt Tm)
    → ((n : Net) → Holds P (f (set_net n m)))
    → Holds P (transmit_by u text address c l m >>= f)
transmit_by-Holds P none text address c l m f h = tt
transmit_by-Holds P (some u) text address c l m f h =
    h (transmit_data u text address c l m.client.net)

after_final-IsKeyed :
    (o : ℕ) (r : Reply) (cb : Option ℕ) (t : Server) (m : Tm)
    → t.tid ≡ (m.heap o).tid
    → Knows o m
    → Holds IsKeyed (after_final o r cb t m)
unfolding after_final
after_final-IsKeyed o r cb t m same h = drop-Holds IsKeyed t.tid m _ (λ k e.
    if_elim IsKeyed t.needack
      (λ _. relist-IsKeyed (ack_tid r t.tid) o _ k m (sym same ∙ e) h.1 refl h.0)
      (λ _. unlist-IsKeyed o _ k m (sym same ∙ e) h.0))

pub send_response-IsKeyed :
    (o : ℕ) (r : Reply) (retrans : Bool) (cb : Option ℕ) (l : ℕ) (m : Tm)
    → Knows o m
    → Holds IsKeyed (send_response o r retrans cb l m)
unfolding send_response
send_response-IsKeyed o r retrans cb l m h =
    let t1 = record (m.heap o) { text = some r.text; address = some r.address } in
    if_elim (Holds IsKeyed) (not (is_open (m.heap o).state) && not retrans) (λ _. tt)
      (λ _. transmit_by-Holds IsKeyed (m.heap o).userv r.text r.address _ l m _ (λ n.
        if_elim (Holds IsKeyed) (ltb r.code 200)
          (λ _. set_object-IsKeyed o _ (set_net n m) refl h.0)
          (λ _. after_final-IsKeyed o r cb t1 (set_net n m) refl h)))

pub do_cancel-IsKeyed : (o : ℕ) (m : Tm) → Knows o m → Holds IsKeyed (do_cancel o m)
unfolding do_cancel
do_cancel-IsKeyed o m h =
    opt-Holds IsKeyed (m.heap o).r487 (ok (call_back on_cancel (m.heap o).cancel_cb m)) _ h.0 (λ r.
      Holds-bind IsKeyed IsKeyed (send_response o r true none 0 m) _
        (send_response-IsKeyed o r true none 0 m h) (λ n k. k))

pub resend-Holds :
    (P : Tm → Type 0) (t : Server) (c : Option String) (m : Tm) (f : Tm → Attempt Tm)
    → ((n : Net) → Holds P (f (set_net n m)))
    → Holds P (resend t c m >>= f)
resend-Holds P t c m f h = by_text t.text
  where
    by_address :
        (text : String) (a : Option (String × ℕ))
        → Holds P (
            (elim a [
              | none ↦ err none_attribute
              | some address ↦ transmit_by t.userv text address c 0 m
            ])
            >>= f)
    by_address text none = tt
    by_address text (some a) = transmit_by-Holds P t.userv text a c 0 m f h

    by_text :
        (x : Option String)
        → Holds P (
            (elim x [
              | none ↦ err none_attribute
              | some text ↦ elim t.address [
                | none ↦ err none_attribute
                | some address ↦ transmit_by t.userv text address c 0 m
              ]
            ])
            >>= f)
    by_text none = tt
    by_text (some text) = by_address text t.address

pub timer_a-IsKeyed : (o : ℕ) (m : Tm) → IsKeyed m → Holds IsKeyed (timer_a o m)
unfolding timer_a
timer_a-IsKeyed o m h =
    resend-Holds IsKeyed (m.heap o) none m _ (λ n. set_object-IsKeyed o _ (set_net n m) refl h)

pub timer_d-IsKeyed : (o : ℕ) (m : Tm) → IsKeyed m → Holds IsKeyed (timer_d o m)
unfolding timer_d
timer_d-IsKeyed o m h =
    let t = m.heap o in
    if_elim
      (λ (n : Tm). Holds IsKeyed (
        drop t.tid n >>= λ m1.
        ok (set_object o (clean (record t { te_d = none; te_a = none })) m1)))
      (is_confirmed t.state) (λ _. drop-Holds IsKeyed t.tid m _ (λ k e. unlist-IsKeyed o _ k m e h))
      (λ _.
        drop-Holds IsKeyed t.tid (call_back on_noack t.noack_cb m) _
          (λ k e. unlist-IsKeyed o _ k (call_back on_noack t.noack_cb m) e h))

pub timer_e-IsKeyed : (o : ℕ) (m : Tm) → Knows o m → Holds IsKeyed (timer_e o m)
unfolding timer_e
timer_e-IsKeyed o m h =
    let t = record (m.heap o) { te_e = none; te_f = none } in
    let t1 = record t { r487 = elim t.r487 [ none ↦ none | some _ ↦ t.r487_expired ] } in
    if_elim (Holds IsKeyed) (is_open t.state)
      (λ _. do_cancel-IsKeyed o (set_object o t1 m) (set_object-IsKeyed o t1 m refl h.0, h.1))
      (λ _. set_object-IsKeyed o t m refl h.0)

pub timer_f-IsKeyed : (o : ℕ) (m : Tm) → IsKeyed m → Holds IsKeyed (timer_f o m)
unfolding timer_f
timer_f-IsKeyed o m h =
    let t = record (m.heap o) { te_f = none } in
    if_elim (Holds IsKeyed) (is_ringing t.state && ltb 0 m.retr)
      (λ _. resend-Holds IsKeyed t none m _ (λ n. set_object-IsKeyed o _ (set_net n m) refl h))
      (λ _. set_object-IsKeyed o t m refl h)
