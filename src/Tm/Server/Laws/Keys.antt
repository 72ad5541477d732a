-- ===== src/Tm/Server/Laws/Keys.antt =====
-- The table of server transactions (`tserver`) against the objects that it lists: the invariant, and
-- how single changes of the heap and of the table keep it.
use b2bua.Prelude.{ℕ, ◌<◌, ◌≡◌, refl, Option, none, some, arith}
use b2bua.Prelude.Assoc.{lookup, insert, remove, lookup-remove, lookup-insert}
use b2bua.Tm.Server.Types.{
  Tid, tid_key, same_tid_iff, Server, Tm, Attempt, ok, err, ◌>>=◌, set_object, drop, drop_found,
}
use b2bua.Tm.Server.Send.{list_under}

-- A listed object is there and has the id that it stands under; so no object stands under two ids.
abbrev pub IsKeyed : Tm → Type 0
IsKeyed m =
    (k : Tid) (o : ℕ)
    → lookup k m.tserver ≡ some o
    → ((m.heap o).tid ≡ some k) × (o < m.next_object)

-- What holds of the manager if there is no exception.
abbrev pub Holds : (Tm → Type 0) → Attempt Tm → Type 0
Holds P (ok m) = P m
Holds P (err e) = Unit

pub Holds-bind :
    (P Q : Tm → Type 0) (a : Attempt Tm) (f : Tm → Attempt Tm)
    → Holds P a
    → ((m : Tm) → P m → Holds Q (f m))
    → Holds Q (a >>= f)
Holds-bind P Q (ok m) f h k = k m h
Holds-bind P Q (err e) f h k = tt

pub opt-Holds {ℓ} :
    {A : Type ℓ} (P : Tm → Type 0) (x : Option A) (a : Attempt Tm) (f : A → Attempt Tm)
    → Holds P a
    → ((v : A) → Holds P (f v))
    → Holds P (elim x [ none ↦ a | some v ↦ f v ])
opt-Holds P none a f h k = h
opt-Holds P (some v) a f h k = k v

-- A `del` of the transaction's id is followed only if there is one, and then without it.
pub drop-Holds :
    (P : Tm → Type 0) (x : Option Tid) (m : Tm) (f : Tm → Attempt Tm)
    → ((k : Tid) → x ≡ some k → Holds P (f (record m { tserver = remove k m.tserver })))
    → Holds P (drop x m >>= f)
drop-Holds P none m f h = tt
drop-Holds P (some k) m f h = found (lookup k m.tserver)
  where
    found : (o : Option ℕ) → Holds P (drop_found o k m >>= f)
    found none = tt
    found (some o) = h k refl

-- A change that keeps the object's id.
pub set_object-IsKeyed :
    (o : ℕ) (t : Server) (m : Tm) → t.tid ≡ (m.heap o).tid → IsKeyed m → IsKeyed (set_object o t m)
set_object-IsKeyed o t m same h k j e = ground (arith, same, h k j e)

-- An object that is no longer listed may change its id.
pub unlist-IsKeyed :
    (o : ℕ) (t : Server) (k : Tid) (m : Tm)
    → (m.heap o).tid ≡ some k
    → IsKeyed m
    → IsKeyed (set_object o t (record m { tserver = remove k m.tserver }))
unlist-IsKeyed o t k m own h j i e =
    ground (arith, own, e, h j i, lookup-remove k j m.tserver, same_tid_iff k j)

pub list-IsKeyed :
    (x : Tid) (o : ℕ) (m : Tm)
    → (m.heap o).tid ≡ some x
    → o < m.next_object
    → IsKeyed m
    → IsKeyed (record m { tserver = insert x o m.tserver })
list-IsKeyed x o m own there h j i e =
    ground (arith, own, e, h j i, lookup-insert x j o m.tserver, same_tid_iff x j)

-- It may then be listed under its new id, in place of what stood there.
pub relist-IsKeyed :
    (x : Option Tid) (o : ℕ) (t : Server) (k : Tid) (m : Tm)
    → (m.heap o).tid ≡ some k
    → o < m.next_object
    → t.tid ≡ x
    → IsKeyed m
    → IsKeyed (list_under x o (set_object o t (record m { tserver = remove k m.tserver })))
relist-IsKeyed none o t k m own there new h j i e = unlist-IsKeyed o t k m own h j i e
relist-IsKeyed (some x) o t k m own there new h j i e =
    list-IsKeyed x o n (ground (arith, new)) there (unlist-IsKeyed o t k m own h) j i e
  where
    n : Tm
    n = set_object o t (record m { tserver = remove k m.tserver })
