-- ===== src/Tm/Client/Cancel.antt =====
-- When a CANCEL is sent.
use b2bua.Prelude.{ℕ, ◌<◌, ◌≡◌, String, true, false, Option, none, some, List, ◌∷◌, arith, str_eq}
use b2bua.Prelude.Assoc.{lookup, insert, lookup-insert, string_key}
use b2bua.Tm.Cache.{Sent, silence, sending, store, transmit_data}
use b2bua.Tm.Client.{
  trying, ringing, Client, Manager, put, cancel_transaction, provisional, send_cancel,
  new_transaction, incoming_response, stop_timers,
}

abbrev pub log_of : Option Manager → Option (List b2bua.Tm.Cache.Sent)
log_of none = none
log_of (some m) = some m.net.log

-- A CANCEL that is asked for before any provisional response is not sent then, but when the first
-- one comes, once, to the INVITE's address by its server, when its transaction id is not in use.
pub cancel_transaction-deferred :
    (t : Client) (m : Manager) (extra : Option String) (tid text : String) (code : ℕ) (c : String)
    (ack : (String × ℕ) × String)
    → t.state ≡ trying
    → t.cancel ≡ some (tid, text)
    → lookup tid m.tclient ≡ none
    → str_eq t.tid tid ≡ false
    → code < 200
    → let t1 = record t { cancel_pending = true } in
      (cancel_transaction extra t m ≡ some (put t1 m))
      × (log_of (incoming_response code c ack t1 (put t1 m))
          ≡ some (sending t.userv text t.address ∷ m.net.log))
unfolding cancel_transaction incoming_response provisional send_cancel new_transaction transmit_data
    store
cancel_transaction-deferred t m extra tid text code c ack st has free other early =
    let t1 = record t { cancel_pending = true } in
    let t2 = record (stop_timers t1) {
      state = ringing;
      cancel_pending = false;
      te_b = some t.expires;
    } in
    let d = insert t.tid t1 m.tclient in
    ground (
      arith,
      st,
      has,
      free,
      other,
      early,
      lookup-insert t.tid tid t1 m.tclient,
      lookup-insert t.tid tid t2 d,
    )
