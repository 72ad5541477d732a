-- ===== src/Tm/Server/Laws/Requests.antt =====
-- Requests keep the table in order, and so does whatever else reaches a server transaction.
use b2bua.Prelude.{
  ℕ, suc, ◌<◌, ◌≡◌, refl, sym, Bool, false, Option, none, some, ◌&&◌, arith, if_elim,
}
use b2bua.Prelude.Assoc.{lookup, string_key}
use b2bua.Tm.Consumers.{listed}
use b2bua.Tm.Server.Types.{
  Tid, tid_key, Reply, Tm, Arriving, none_attribute, Attempt, ok, err, ◌>>=◌, set_object, clean,
  is_open,
}
use b2bua.Tm.Server.Send.{send_response, resend, timer_a, timer_d, timer_e, timer_f}
use b2bua.Tm.Server.Receive.{
  Handled, nothing, answered, Owner, Owners, any_known, is_ack, is_cancel, is_completed,
  same_method, transmit_reply, take_ack, take_cancel, existing_request, new_server, open_server,
  owner_among, has_timer, drop_if_listed, conclude, new_request, request_tid, match_request,
  incoming_request,
}
use b2bua.Tm.Server.Laws.Keys.{
  IsKeyed, Holds, opt-Holds, drop-Holds, set_object-IsKeyed, unlist-IsKeyed, list-IsKeyed,
}
use b2bua.Tm.Server.Laws.Kept.{
  Knows, resend-Holds, send_response-IsKeyed, do_cancel-IsKeyed, timer_a-IsKeyed, timer_d-IsKeyed,
  timer_e-IsKeyed, timer_f-IsKeyed,
}

-- What holds of an owner's answer and of the manager after it.
abbrev pub HoldsOwner : (Tm → Type 0) → Attempt (Handled × Tm) → Type 0
HoldsOwner P (ok r) = P r.1
HoldsOwner P (err e) = Unit

-- An owner leaves the table in order, and no object goes away.
abbrev pub Keeps : Owners → Type 0
Keeps ow =
    (w : Owner) (o : ℕ) (req : Arriving) (m : Tm)
    → Knows o m
    → HoldsOwner (Knows o) (ow.handle w o req m)

take_ack-IsKeyed : (o : ℕ) (req : Arriving) (m : Tm) → IsKeyed m → Holds IsKeyed (take_ack o req m)
unfolding take_ack
take_ack-IsKeyed o req m h =
    drop-Holds IsKeyed (m.heap o).tid m _ (λ k e. unlist-IsKeyed o _ k m e h)

take_cancel-IsKeyed :
    (o : ℕ) (req : Arriving) (m : Tm) → Knows o m → Holds IsKeyed (take_cancel o req m)
unfolding take_cancel
take_cancel-IsKeyed o req m h =
    opt-Holds IsKeyed (m.heap o).userv (err none_attribute) _ tt (λ userv.
      if_elim (Holds IsKeyed) (is_open (m.heap o).state)
        (λ _. do_cancel-IsKeyed o (transmit_reply userv req.ok200 req.checksum m) h) (λ _. h.0))

bound : (a : Attempt Tm) → Holds IsKeyed (a >>= ok) → Holds IsKeyed a
bound (ok m) h = h
bound (err e) h = tt

existing_request-IsKeyed :
    (o : ℕ) (req : Arriving) (m : Tm) → Knows o m → Holds IsKeyed (existing_request o req m)
unfolding existing_request
existing_request-IsKeyed o req m h =
    if_elim (Holds IsKeyed) (same_method req.method (m.heap o).method)
      (λ _. opt-Holds IsKeyed (m.heap o).text (ok m) _ h.0 (λ _. again))
      (λ _.
        if_elim (Holds IsKeyed) (is_cancel req.method) (λ _. take_cancel-IsKeyed o req m h)
          (λ _.
            if_elim (Holds IsKeyed) (is_ack req.method && is_completed (m.heap o).state)
              (λ _. take_ack-IsKeyed o req m h.0) (λ _. h.0)))
  where
    again : Holds IsKeyed (resend (m.heap o) (some req.checksum) m)
    again =
        bound (resend (m.heap o) (some req.checksum) m)
          (resend-Holds IsKeyed (m.heap o) (some req.checksum) m ok (λ n. h.0))

conclude-IsKeyed : (o : ℕ) (a : Handled) (m : Tm) → Knows o m → Holds IsKeyed (conclude o a m)
unfolding conclude
conclude-IsKeyed o nothing m h =
    if_elim (Holds IsKeyed) (has_timer (m.heap o)) (λ _. h.0) (λ _. dropped (m.heap o).tid refl)
  where
    dropped :
        (x : Option Tid)
        → (m.heap o).tid ≡ x
        → IsKeyed (set_object o (clean (m.heap o)) (drop_if_listed x m))
    dropped none e = set_object-IsKeyed o _ m (sym e) h.0
    dropped (some k) e = unlist-IsKeyed o _ k m e h.0
conclude-IsKeyed o (answered r cancel_cb noack_cb) m h =
    let m1 = set_object o (record (m.heap o) { cancel_cb = cancel_cb; noack_cb = noack_cb }) m in
    let kept =
      set_object-IsKeyed o (record (m.heap o) { cancel_cb = cancel_cb; noack_cb = noack_cb }) m refl
        h.0 in
    opt-Holds IsKeyed r (ok m1) _ kept
      (λ a. send_response-IsKeyed o a.0 false none a.1 m1 (kept, h.1))

open_server-Knows : (req : Arriving) (m : Tm) → IsKeyed m → Knows m.next_object (open_server req m)
open_server-Knows req m h =
    (list-IsKeyed req.branch_tid m.next_object n (ground arith) (ground arith) fresh, ground arith)
  where
    n : Tm
    n = set_object m.next_object (new_server req) (record m { next_object = suc m.next_object })

    fresh : IsKeyed n
    fresh j i e = ground (arith, h j i e)

new_request-IsKeyed :
    (ow : Owners) (req : Arriving) (m : Tm)
    → Keeps ow
    → IsKeyed m
    → Holds IsKeyed (new_request ow req m)
unfolding new_request
new_request-IsKeyed ow req m ow_keeps h =
    opt-Holds IsKeyed (owner_among ow req (listed (lookup req.branch_tid.call_id m.consumers))) _ _
      (open_server-Knows req m h).0
      (λ w.
        handled (ow.handle w m.next_object req (open_server req m))
          (ow_keeps w m.next_object req (open_server req m) (open_server-Knows req m h)))
  where
    handled :
        (a : Attempt (Handled × Tm))
        → HoldsOwner (Knows m.next_object) a
        → Holds IsKeyed (a >>= λ r. conclude m.next_object r.0 r.1)
    handled (ok r) k = conclude-IsKeyed m.next_object r.0 r.1 k
    handled (err e) k = tt

match_request-IsKeyed :
    (ow : Owners) (x : Option ℕ) (req : Arriving) (m : Tm)
    → lookup (request_tid req) m.tserver ≡ x
    → Keeps ow
    → IsKeyed m
    → Holds IsKeyed (match_request ow x req m)
unfolding match_request
match_request-IsKeyed ow none req m e ow_keeps h =
    if_elim (Holds IsKeyed) (is_ack req.method) (λ _. h)
      (λ _.
        if_elim (Holds IsKeyed) (is_cancel req.method) (λ _. h)
          (λ _. new_request-IsKeyed ow req m ow_keeps h))
match_request-IsKeyed ow (some o) req m e ow_keeps h =
    existing_request-IsKeyed o req m (h, (h (request_tid req) o e).1)

-- What reaches the server side of the manager: requests, responses of the application, and timers.
pub data Stimulus : Type 0 where
  request : Arriving → Stimulus
  respond : ℕ → Reply → Bool → Option ℕ → ℕ → Stimulus
  fire_a fire_d fire_e fire_f : ℕ → Stimulus

unfoldable pub react : Owners → Stimulus → Tm → Attempt Tm
react ow (request req) m = incoming_request ow req m
react ow (respond o r retrans ack_cb lossemul) m = send_response o r retrans ack_cb lossemul m
react ow (fire_a o) m = timer_a o m
react ow (fire_d o) m = timer_d o m
react ow (fire_e o) m = timer_e o m
react ow (fire_f o) m = timer_f o m

-- The transaction that it is for is there.
abbrev pub IsThere : Stimulus → Tm → Type 0
IsThere (request req) m = Unit
IsThere (respond o r retrans ack_cb lossemul) m = o < m.next_object
IsThere (fire_a o) m = o < m.next_object
IsThere (fire_d o) m = o < m.next_object
IsThere (fire_e o) m = o < m.next_object
IsThere (fire_f o) m = o < m.next_object

-- Whatever reaches the server side of the manager, every transaction that the table lists stands
-- under its own id afterwards, so none stands under two: if it was so before, the owners of requests
-- keep it, the transaction that is answered or whose timer fires is there, and the code raises no
-- exception.
pub server-IsKeyed :
    (ow : Owners) (i : Stimulus) (m : Tm)
    → Keeps ow
    → IsThere i m
    → IsKeyed m
    → Holds IsKeyed (react ow i m)
unfolding react incoming_request
server-IsKeyed ow (request req) m ow_keeps there h =
    if_elim (Holds IsKeyed) (any_known req.client_ids m) (λ _. h)
      (λ _. match_request-IsKeyed ow (lookup (request_tid req) m.tserver) req m refl ow_keeps h)
server-IsKeyed ow (respond o r retrans ack_cb lossemul) m ow_keeps there h =
    send_response-IsKeyed o r retrans ack_cb lossemul m (h, there)
server-IsKeyed ow (fire_a o) m ow_keeps there h = timer_a-IsKeyed o m h
server-IsKeyed ow (fire_d o) m ow_keeps there h = timer_d-IsKeyed o m h
server-IsKeyed ow (fire_e o) m ow_keeps there h = timer_e-IsKeyed o m (h, there)
server-IsKeyed ow (fire_f o) m ow_keeps there h = timer_f-IsKeyed o m h
