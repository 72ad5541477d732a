-- ===== src/Tm/Server/Types.antt =====
-- The data of server transactions, and what may go wrong.
use b2bua.Prelude.{
  ℕ, String, Bool, true, false, Option, none, some, List, ◌==◌, ◌&&◌, ◌≡◌, ◌↔◌, arith, str_eq,
  eq_iff, if◌then◌else◌,
}
use b2bua.Prelude.Assoc.{Assoc, Key, lookup, remove}
use b2bua.Sip.Message.{Method}
use b2bua.Tm.Cache.{Net}
use b2bua.Tm.Client.{Manager}
use b2bua.Tm.Consumers.{Consumers}

-- SipMsg.getTId of a server transaction: Call-ID, From tag, CSeq and, last, the branch or the To tag.
pub record Tid : Type 0 where
  pub call_id : String
  pub from_tag : Option String
  pub cseq : ℕ
  pub last : Option String

abbrev pub same_text : Option String → Option String → Bool
same_text none none = true
same_text (some a) (some b) = str_eq a b
same_text _ _ = false

pub same_text_iff : (a b : Option String) → (same_text a b ≡ true) ↔ (a ≡ b)
same_text_iff none none = ground arith
same_text_iff none (some b) = ground arith
same_text_iff (some a) none = ground arith
same_text_iff (some a) (some b) = ground (arith, eq_iff a b)

abbrev pub same_tid : Tid → Tid → Bool
same_tid a b =
    str_eq a.call_id b.call_id
    && (same_text a.from_tag b.from_tag && (a.cseq == b.cseq && same_text a.last b.last))

pub same_tid_iff : (a b : Tid) → (same_tid a b ≡ true) ↔ (a ≡ b)
same_tid_iff a b = ground (
  arith,
  eq_iff a.call_id b.call_id,
  same_text_iff a.from_tag b.from_tag,
  same_text_iff a.last b.last,
)

instance abbrev pub tid_key : Key Tid
tid_key = record { same = same_tid; same_iff = same_tid_iff }

-- A response: its code, text and address, the To tag that it has, and the one that `genTag` would
-- make for it.
pub record Reply : Type 0 where
  pub code : ℕ
  pub text : String
  pub address : String × ℕ
  pub to_tag : Option String
  pub made_tag : String

pub data ServerState : Type 0 where
  trying ringing completed confirmed : ServerState

-- SipTransaction of a server. The callbacks are numbers, timers are there with their timeout in
-- milliseconds. `tid` and `userv` are None once the transaction was cleaned up. `r487_expired` is
-- `r487` as timerE changes it.
pub record Server : Type 0 where
  pub tid : Option Tid
  pub method : Method
  pub state : ServerState
  pub text : Option String
  pub address : Option (String × ℕ)
  pub userv : Option ℕ
  pub checksum : String
  pub needack : Bool
  pub r487 : Option Reply
  pub r487_expired : Option Reply
  pub cancel_cb : Option ℕ
  pub noack_cb : Option ℕ
  pub ack_cb : Option ℕ
  pub tout : ℕ
  pub te_a : Option ℕ
  pub te_d : Option ℕ
  pub te_e : Option ℕ
  pub te_f : Option ℕ

-- Who was called back, or handed a request.
pub data Called : Type 0 where
  on_cancel on_noack on_ack : ℕ → Called

-- SipTransactionManager. `retr` is `provisional_retr` in milliseconds.
pub record Tm : Type 0 where
  pub client : Manager
  pub consumers : Consumers
  pub heap : ℕ → Server
  pub next_object : ℕ
  pub tserver : Assoc Tid ℕ
  pub retr : ℕ
  pub called : List Called

-- A request that arrives, with the ids of getTIds, its two server ids, the server that its
-- transaction is to use and the responses that the manager may make for it.
pub record Arriving : Type 0 where
  pub method : Method
  pub client_ids : List String
  pub branch_tid : Tid
  pub tag_tid : Tid
  pub checksum : String
  pub server : ℕ
  pub own_server : ℕ
  pub expires : Option ℕ
  pub loop482 : Reply
  pub ok200 : Reply
  pub gone481 : Reply
  pub terminated487 : Reply
  pub expired487 : Reply

-- The exceptions: a reply on a finished transaction (ValueError), a key that is not in the table
-- (KeyError), an attribute of None.
pub data Fault : Type 0 where
  finished missing_key none_attribute : Fault

pub data Attempt {ℓ} (A : Type ℓ) : Type ℓ where
  ok : A → Attempt A
  err : Fault → Attempt A

infixl 5 ◌>>=◌
abbrev pub ◌>>=◌ {ℓ κ} : {A : Type ℓ} {B : Type κ} → Attempt A → (A → Attempt B) → Attempt B
ok a >>= f = f a
err e >>= f = err e

-- `t.x = ...` on the object with this number.
abbrev pub set_object : ℕ → Server → Tm → Tm
set_object o t m = record m { heap = λ j. if o == j then t else m.heap j }

abbrev pub set_net : Net → Tm → Tm
set_net n m = record m { client = record m.client { net = n } }

-- `cleanup()`.
abbrev pub clean : Server → Server
clean t = record t {
  tid = none;
  address = none;
  userv = none;
  r487 = none;
  cancel_cb = none;
  noack_cb = none;
  ack_cb = none;
  te_a = none;
  te_d = none;
  te_e = none;
  te_f = none;
}

-- `del self.tserver[t.tid]`.
abbrev pub drop_found : Option ℕ → Tid → Tm → Attempt Tm
drop_found none tid m = err missing_key
drop_found (some o) tid m = ok (record m { tserver = remove tid m.tserver })

abbrev pub drop : Option Tid → Tm → Attempt Tm
drop none m = err missing_key
drop (some tid) m = drop_found (lookup tid m.tserver) tid m

abbrev pub is_open : ServerState → Bool
is_open trying = true
is_open ringing = true
is_open _ = false
