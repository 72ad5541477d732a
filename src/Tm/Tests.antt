-- ===== src/Tm/Tests.antt =====
-- The theorems on the transaction manager at concrete values.
use b2bua.Prelude.{
  ℕ, String, ◌≡◌, refl, Bool, true, false, Option, none, some, List, [], ◌∷◌, arith,
}
use b2bua.Prelude.Assoc.{lookup, insert, remove, string_key}
use b2bua.Tm.Cache.{silence, sending, Net, find, transmit_data, store, again, screen}
use b2bua.Tm.Cache.Kept.{Change, stored, purged, change_all, transmit_data-screen, find-change_all}
use b2bua.Tm.Client.{
  trying, Client, Outgoing, Manager, put, timer_b, timer_c, new_transaction, provisional,
  send_cancel, cancel_transaction, incoming_response,
}
use b2bua.Tm.Client.Others.{
  Ok, Stimulus, begin, abandon, response, fire_b, fire_c, react_all, react_all-IsListed,
}
use b2bua.Tm.Client.Once.{IsOver, incoming_response-IsOver}
use b2bua.Tm.Client.Cancel.{log_of, cancel_transaction-deferred}
use b2bua.Tm.Consumers.{Consumers, reg_consumer, unreg_consumer}
use b2bua.Tm.Consumers.Balance.{is_done, looks_up, unreg_consumer-reg_consumer}

abbrev net0 : Net
net0 = record { l1 = ("aa", silence) ∷ []; l2 = []; log = [] }

abbrev peer : String × ℕ
peer = ("peer", 5060)

abbrev one_purge : List Change
one_purge = stored "bb" silence ∷ purged ∷ stored "dd" silence ∷ []

transmit_data-screen_example :
    let t = change_all one_purge (transmit_data 1 "SIP/2.0 200 OK" peer (some "cc") 0 net0) in
    screen 400 "cc" t ≡ (again, record t { log = sending 1 "SIP/2.0 200 OK" peer ∷ t.log })
transmit_data-screen_example =
    transmit_data-screen 1 "SIP/2.0 200 OK" peer "cc" 400 one_purge net0 (omega arith) (omega arith)
      (refl, (refl, tt))

find-change_all_example : find "aa" (change_all (purged ∷ one_purge) net0) ≡ none
find-change_all_example =
    find-change_all "aa" (purged ∷ one_purge) net0 (omega arith) (refl, (refl, tt))

abbrev consumers0 : Consumers
consumers0 = ("id1", record { cobj = 4; compact = false } ∷ []) ∷ []

unreg_consumer-reg_consumer_example :
    let e = unreg_consumer 7 "id1" (reg_consumer 7 "id1" false consumers0) in
    (is_done e ≡ true) × (looks_up "id1" e ≡ lookup "id1" consumers0)
unfolding lookup
unreg_consumer-reg_consumer_example =
    unreg_consumer-reg_consumer 7 "id1" "id1" false consumers0 (refl, tt) tt

abbrev invite0 : Client
invite0 = record {
  tid = "t1";
  text = "INVITE";
  address = peer;
  userv = 1;
  needack = true;
  cancel = some ("t2", "CANCEL");
  state = trying;
  tout = 500;
  expires = 300000;
  cancel_pending = false;
  uack = false;
  watched = true;
  te_a = some 500;
  te_b = some 32000;
  te_c = none;
  te_g = none;
  ack = none;
}

abbrev manager0 : Manager
manager0 = record { tclient = ("t1", invite0) ∷ []; net = net0; told = [] }

incoming_response-IsOver_example :
    ((n : Manager) × (incoming_response 486 "cc" (peer, "ACK") invite0 manager0 ≡ some n)
      × IsOver invite0.tid n)
    × IsOver invite0.tid (timer_b invite0 manager0)
incoming_response-IsOver_example =
    incoming_response-IsOver 486 "cc" (peer, "ACK") invite0 manager0 tt (omega arith)

abbrev pending0 : Client
pending0 = record invite0 { cancel_pending = true }

cancel_transaction-deferred_example :
    (cancel_transaction none invite0 manager0 ≡ some (put pending0 manager0))
    × (log_of (incoming_response 180 "cc" (peer, "ACK") pending0 (put pending0 manager0))
        ≡ some (sending 1 "CANCEL" peer ∷ []))
cancel_transaction-deferred_example =
    cancel_transaction-deferred invite0 manager0 none "t2" "CANCEL" 180 "cc" (peer, "ACK") refl refl
      free refl (omega arith)
  where
    free : lookup "t2" manager0.tclient ≡ none
    free = unfold lookup in refl

abbrev outgoing0 : Outgoing
outgoing0 = record {
  tid = "t4";
  text = "INVITE";
  address = peer;
  userv = 1;
  is_invite = true;
  expires = none;
  cancel = none;
}

abbrev is_known_manager : Option Manager → Bool
is_known_manager none = false
is_known_manager (some m) = true

abbrev invite1 : Client
invite1 = record invite0 { tid = "t3"; watched = false }

abbrev manager1 : Manager
manager1 = record manager0 { tclient = ("t1", invite0) ∷ ("t3", invite1) ∷ [] }

-- Another transaction is rung, cancelled and times out, and a new one begins.
abbrev stimuli0 : List Stimulus
stimuli0 =
    response 180 "cc" (peer, "ACK") invite1
    ∷ abandon none invite1
    ∷ fire_b invite1
    ∷ fire_c invite1
    ∷ begin outgoing0 true
    ∷ []

react_all-IsListed_example : Ok (λ d. lookup "t1" d ≡ some invite0) (react_all stimuli0 manager1)
react_all-IsListed_example =
    react_all-IsListed stimuli0 "t1" invite0 manager1 (refl, (refl, (refl, (refl, (tt, tt)))))
      listed
  where
    listed : lookup "t1" manager1.tclient ≡ some invite0
    listed = unfold lookup in refl

-- None of them raises an exception.
stimuli0_test : is_known_manager (react_all stimuli0 manager1) ≡ true
unfolding react_all new_transaction cancel_transaction incoming_response provisional send_cancel
    lookup insert remove timer_b timer_c transmit_data store
stimuli0_test = refl
