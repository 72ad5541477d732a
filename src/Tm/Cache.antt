-- ===== src/Tm/Cache.antt =====
-- The cache of what was answered (sippy/SipTransactionManager.py: l1rcache, l2rcache, the first part
-- of handleIncoming, transmitData, rCachePurge). A datagram is told by its MD5 checksum, which the
-- model takes as it is given.
pub mod Kept
use b2bua.Prelude.{
  ℕ, ◌-◌, String, Bool, true, false, Option, none, some, List, [], ◌∷◌, ◌==◌, ltb, not,
  if◌then◌else◌,
}
use b2bua.Prelude.Assoc.{Assoc, lookup, insert, string_key}

-- SipTMRetransmitO: nothing to send, or the server, the data, the address and `lossemul`.
pub data Entry : Type 0 where
  silence : Entry
  answer : ℕ → String → String × ℕ → ℕ → Entry

-- What was given to a server's `send_to`, or discarded to emulate loss.
pub data Sent : Type 0 where
  sending discarding : ℕ → String → String × ℕ → Sent

pub record Net : Type 0 where
  pub l1 : Assoc String Entry
  pub l2 : Assoc String Entry
  -- the newest first
  pub log : List Sent

-- `l1rcache.get(checksum)`, and where that is None `l2rcache.get(checksum)`.
unfoldable pub find : String → Net → Option Entry
find c s = elim (lookup c s.l1) [ some e ↦ some e | none ↦ lookup c s.l2 ]

-- `self.l1rcache[checksum] = ...`.
unfoldable pub store : String → Entry → Net → Net
store c e s = record s { l1 = insert c e s.l1 }

-- `self.l1rcache[cachesum] = ...`, where there is a checksum; `lossemul` is less by one then.
abbrev pub store_answer : Option String → ℕ → String → String × ℕ → ℕ → Net → Net
store_answer none userv data_out address lossemul s = s
store_answer (some c) userv data_out address lossemul s =
    store c (answer userv data_out address (lossemul - 1)) s

unfoldable pub transmit_data : ℕ → String → String × ℕ → Option String → ℕ → Net → Net
transmit_data userv data_out address cachesum lossemul s =
    let sent =
      if lossemul == 0 then sending userv data_out address else discarding userv data_out address in
    store_answer cachesum userv data_out address lossemul (record s { log = sent ∷ s.log })

unfoldable pub purge : Net → Net
purge s = record s { l2 = s.l1; l1 = [] }

-- How far handleIncoming gets by the cache: the datagram is dropped, was answered again, or is new
-- and is to be parsed.
pub data Outcome : Type 0 where
  dropped again fresh : Outcome

abbrev pub replay : Option Entry → Net → Outcome × Net
replay none s = (fresh, s)
replay (some silence) s = (again, s)
replay (some (answer userv data_out address lossemul)) s =
    (again, transmit_data userv data_out address none lossemul s)

-- The first part of handleIncoming, for a datagram of this many bytes.
unfoldable pub screen : ℕ → String → Net → Outcome × Net
screen size c s = if ltb size 32 then (dropped, s) else replay (find c s) s
