-- ===== src/Tm/Server/Tests.antt =====
-- The theorems on server transactions at concrete values.
use b2bua.Prelude.{ℕ, ◌^◌, ◌*◌, String, ◌≡◌, refl, true, false, none, some, List, [], ◌∷◌, arith}
use b2bua.Prelude.Assoc.{lookup, string_key}
use b2bua.Sip.Message.{invite, ack, cancel}
use b2bua.Tm.Cache.{silence, sending, transmit_data, again, screen}
use b2bua.Tm.Cache.Kept.{Change, stored, purged, change_all}
use b2bua.Tm.Server.Types.{
  Tid, tid_key, same_tid_iff, Reply, trying, completed, Server, on_cancel, on_ack, on_noack, Tm,
  Arriving, finished, ok, err,
}
use b2bua.Tm.Server.Send.{send_response, timer_d, timer_e}
use b2bua.Tm.Server.Receive.{
  any_known, answered, Owners, has_timer, transmit_reply, incoming_request,
}
use b2bua.Tm.Server.Laws.Keys.{IsKeyed, Holds}
use b2bua.Tm.Server.Laws.Requests.{Keeps, request, react, server-IsKeyed}
use b2bua.Tm.Server.Laws.Final.{IsWaiting, send_response-once, incoming_request-acked}
use b2bua.Tm.Server.Laws.Expiry.{resends, copies, timer_e-timer_d}
use b2bua.Tm.Server.Laws.Cancel.{incoming_request-cancelled, send_response-screen}

abbrev peer : String × ℕ
peer = ("peer", 5060)

abbrev reply : ℕ → String → Reply
reply c text = record { code = c; text = text; address = peer; to_tag = some "b"; made_tag = "x" }

abbrev k0 : Tid
k0 = record { call_id = "id1"; from_tag = some "a"; cseq = 1; last = some "z9" }

abbrev k1 : Tid
k1 = record k0 { last = some "b" }

abbrev invite0 : Server
invite0 = record {
  tid = some k0;
  method = invite;
  state = trying;
  text = none;
  address = none;
  userv = some 1;
  checksum = "cc";
  needack = true;
  r487 = some (reply 487 "487 Terminated");
  r487_expired = some (reply 487 "487 Expired");
  cancel_cb = some 5;
  noack_cb = some 6;
  ack_cb = none;
  tout = 0;
  te_a = none;
  te_d = none;
  te_e = some 300000;
  te_f = none;
}

abbrev tm0 : Tm
tm0 = record {
  client = record { tclient = []; net = record { l1 = []; l2 = []; log = [] }; told = [] };
  consumers = [];
  heap = λ o. invite0;
  next_object = 1;
  tserver = (k0, 0) ∷ [];
  retr = 0;
  called = [];
}

abbrev ack0 : Arriving
ack0 = record {
  method = ack;
  client_ids = "t7" ∷ [];
  branch_tid = record k0 { last = some "z8" };
  tag_tid = k1;
  checksum = "dd";
  server = 1;
  own_server = 1;
  expires = none;
  loop482 = reply 482 "482";
  ok200 = reply 200 "200 to CANCEL";
  gone481 = reply 481 "481";
  terminated487 = reply 487 "487 Terminated";
  expired487 = reply 487 "487 Expired";
}

abbrev cancel0 : Arriving
cancel0 = record ack0 { method = cancel; branch_tid = k0; checksum = "ee" }

abbrev cancel1 : Arriving
cancel1 = record cancel0 { checksum = "ff" }

abbrev invite1 : Arriving
invite1 = record ack0 { method = invite; checksum = "gg" }

abbrev owners0 : Owners
owners0 = record {
  is_yours = λ c req. true;
  has_req_cb = true;
  handle = λ w o req m. ok (answered (some (reply 486 "486", 0)) none none, m);
}

waiting0 : IsWaiting k0 1 0 tm0
unfolding lookup
waiting0 = ((refl, refl), (refl, refl))

tm0-IsKeyed : IsKeyed tm0
unfolding lookup
tm0-IsKeyed k o e = ground (arith, e, same_tid_iff k0 k)

owners0-Keeps : Keeps owners0
owners0-Keeps w o req m h = h

server-IsKeyed_example : Holds IsKeyed (react owners0 (request invite1) tm0)
server-IsKeyed_example = server-IsKeyed owners0 (request invite1) tm0 owners0-Keeps tt tm0-IsKeyed

send_response-once_example :
    (n : Tm) × (send_response 0 (reply 486 "486") false none 0 tm0 ≡ ok n)
    × (n.client.net ≡ transmit_data 1 "486" peer (some "cc") 0 tm0.client.net)
    × (send_response 0 (reply 200 "200") false none 0 n ≡ err finished)
send_response-once_example =
    send_response-once k0 1 0 (reply 486 "486") none 0 tm0 (reply 200 "200") none 0 waiting0 refl

incoming_request-acked_example :
    (n n1 : Tm) × (send_response 0 (reply 486 "486") false (some 8) 0 tm0 ≡ ok n)
    × (incoming_request owners0 ack0 n ≡ ok n1)
    × (lookup k0 n1.tserver ≡ none)
    × (lookup k1 n1.tserver ≡ none)
    × (has_timer (n1.heap 0) ≡ false)
    × (n1.called ≡ on_ack 8 ∷ [])
incoming_request-acked_example =
    incoming_request-acked owners0 k0 1 0 (reply 486 "486") 8 0 ack0 tm0 waiting0 refl refl refl
      refl refl (unfold any_known lookup in refl)

timer_e-timer_d_example :
    (m1 m2 m3 : Tm) × (timer_e 0 tm0 ≡ ok m1)
    × (resends 3 0 m1 ≡ ok m2)
    × (timer_d 0 m2 ≡ ok m3)
    × (m2.client.net.log ≡ copies 4 (sending 1 "487 Expired" peer) [])
    × ((m2.heap 0).tout ≡ 2 ^ 3 * 500)
    × (lookup k0 m3.tserver ≡ none)
    × (lookup k1 m3.tserver ≡ none)
    × (has_timer (m3.heap 0) ≡ false)
    × (m3.called ≡ on_noack 6 ∷ on_cancel 5 ∷ [])
timer_e-timer_d_example =
    timer_e-timer_d 3 k0 1 0 (reply 487 "487 Terminated") (reply 487 "487 Expired") tm0 waiting0
      refl refl refl refl

incoming_request-cancelled_example :
    (n : Tm) × (incoming_request owners0 cancel0 tm0 ≡ ok n)
    × (n.client.net.log ≡ sending 1 "487 Terminated" peer ∷ sending 1 "200 to CANCEL" peer ∷ [])
    × (n.called ≡ on_cancel 5 ∷ [])
    × ((n.heap 0).state ≡ completed)
    × (lookup k1 n.tserver ≡ some 0)
    × (incoming_request owners0 cancel1 n ≡ ok (transmit_reply 1 (reply 481 "481") "ff" n))
incoming_request-cancelled_example =
    incoming_request-cancelled owners0 k0 1 0 (reply 487 "487 Terminated") cancel0 cancel1 tm0
      waiting0 refl refl refl refl refl refl (unfold any_known lookup in refl) refl refl
      (unfold any_known lookup in refl) refl

abbrev one_purge : List Change
one_purge = stored "bb" silence ∷ purged ∷ []

send_response-screen_example :
    (n : Tm) × (send_response 0 (reply 486 "486") false none 0 tm0 ≡ ok n)
    × (let s = change_all one_purge n.client.net in
        screen 400 "cc" s ≡ (again, record s { log = sending 1 "486" peer ∷ s.log }))
send_response-screen_example =
    send_response-screen k0 1 0 (reply 486 "486") none tm0 400 one_purge waiting0 refl (omega arith)
      (omega arith) (refl, tt)
