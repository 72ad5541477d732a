-- ===== src/Tm/Cache/Kept.antt =====
-- How long an answer is kept for retransmissions of what it answers.
use b2bua.Prelude.{
  ℕ, suc, ◌≤◌, ◌≡◌, refl, String, Option, none, some, List, [], ◌∷◌, arith, eq_iff, str_eq, false,
}
use b2bua.Prelude.Assoc.{Assoc, lookup, insert, lookup-insert, string_key}
use b2bua.Tm.Cache.{Entry, answer, sending, Net, find, store, transmit_data, purge, again, screen}

-- What happens to the cache meanwhile: other datagrams are stored, and it is purged.
pub data Change : Type 0 where
  stored : String → Entry → Change
  purged : Change

unfoldable pub change_all : List Change → Net → Net
change_all [] s = s
change_all (stored c e ∷ cs) s = change_all cs (store c e s)
change_all (purged ∷ cs) s = change_all cs (purge s)

abbrev pub purges : List Change → ℕ
purges [] = 0
purges (stored c e ∷ cs) = purges cs
purges (purged ∷ cs) = suc (purges cs)

-- None of the changes is about this checksum.
abbrev pub Spares : String → List Change → Type 0
Spares c [] = Unit
Spares c (stored d e ∷ cs) = (str_eq d c ≡ false) × Spares c cs
Spares c (purged ∷ cs) = Spares c cs

lookup-store :
    (c d : String) (e : Entry) (l : Assoc String Entry)
    → str_eq d c ≡ false
    → lookup c (insert d e l) ≡ lookup c l
lookup-store c d e l h = ground (arith, h, lookup-insert d c e l)

-- In the second cache and not in the first, it lasts while there is no purge.
change_all-old :
    (c : String) (o : Option Entry) (cs : List Change) (s : Net)
    → lookup c s.l1 ≡ none
    → lookup c s.l2 ≡ o
    → purges cs ≡ 0
    → Spares c cs
    → find c (change_all cs s) ≡ o
unfolding change_all find store
change_all-old c o [] s h k z n = ground (arith, h, k)
change_all-old c o (stored d e ∷ cs) s h k z n =
    change_all-old c o cs (store d e s) (ground (arith, h, lookup-store c d e s.l1 n.0)) k z n.1
change_all-old c o (purged ∷ cs) s h k z n = ground (arith, z)

-- In the first cache it lasts through one purge.
change_all-new :
    (c : String) (a : Entry) (cs : List Change) (s : Net)
    → lookup c s.l1 ≡ some a
    → purges cs ≤ 1
    → Spares c cs
    → find c (change_all cs s) ≡ some a
unfolding change_all find store purge lookup
change_all-new c a [] s h z n = ground (arith, h)
change_all-new c a (stored d e ∷ cs) s h z n =
    change_all-new c a cs (store d e s) (ground (arith, h, lookup-store c d e s.l1 n.0)) z n.1
change_all-new c a (purged ∷ cs) s h z n =
    change_all-old c (some a) cs (purge s) refl h (omega (arith, z)) n

-- A response or an ACK that was sent for a datagram is sent again, to the same address by the same
-- server, when the datagram comes again: after any other traffic, through one purge of the cache,
-- and without the datagram being parsed or the cache being changed.
pub transmit_data-screen :
    (userv : ℕ) (data_out : String) (address : String × ℕ) (c : String) (size : ℕ)
    (cs : List Change) (s : Net)
    → 32 ≤ size
    → purges cs ≤ 1
    → Spares c cs
    → let t = change_all cs (transmit_data userv data_out address (some c) 0 s) in
      screen size c t ≡ (again, record t { log = sending userv data_out address ∷ t.log })
unfolding screen transmit_data store find
transmit_data-screen userv data_out address c size cs s big once other =
    let e = answer userv data_out address 0 in
    let u = transmit_data userv data_out address (some c) 0 s in
    let kept =
      change_all-new c e cs u (ground (arith, lookup-insert c c e s.l1, eq_iff c c)) once other in
    ground (arith, kept, big)

-- In neither cache, it is not found.
change_all-unknown :
    (c : String) (cs : List Change) (s : Net)
    → lookup c s.l1 ≡ none
    → lookup c s.l2 ≡ none
    → Spares c cs
    → find c (change_all cs s) ≡ none
unfolding change_all find store purge lookup
change_all-unknown c [] s h k n = ground (arith, h, k)
change_all-unknown c (stored d e ∷ cs) s h k n =
    change_all-unknown c cs (store d e s) (ground (arith, h, lookup-store c d e s.l1 n.0)) k n.1
change_all-unknown c (purged ∷ cs) s h k n = change_all-unknown c cs (purge s) refl h n

change_all-later :
    (c : String) (cs : List Change) (s : Net)
    → lookup c s.l1 ≡ none
    → 1 ≤ purges cs
    → Spares c cs
    → find c (change_all cs s) ≡ none
unfolding change_all store purge lookup
change_all-later c [] s h z n = ground (arith, z)
change_all-later c (stored d e ∷ cs) s h z n =
    change_all-later c cs (store d e s) (ground (arith, h, lookup-store c d e s.l1 n.0)) z n.1
change_all-later c (purged ∷ cs) s h z n = change_all-unknown c cs (purge s) refl h n

-- An entry of the cache is forgotten after two purges, unless it is stored again: a datagram with
-- its checksum is then new.
pub find-change_all :
    (c : String) (cs : List Change) (s : Net)
    → 2 ≤ purges cs
    → Spares c cs
    → find c (change_all cs s) ≡ none
unfolding change_all purge lookup
find-change_all c [] s z n = ground (arith, z)
find-change_all c (stored d e ∷ cs) s z n = find-change_all c cs (store d e s) z n.1
find-change_all c (purged ∷ cs) s z n = change_all-later c cs (purge s) refl (omega (arith, z)) n
