-- ===== src/Prelude/Assoc.antt =====
-- Python's dict, as an association list without duplicate keys: `get`, `in`, `d[k] = v` and
-- `del d[k]`. The key's test is a parameter with its law.
use mathlib.Core.Path.{◌≡◌}
use mathlib.Core.Logic.{◌↔◌}
use mathlib.Core.Bool.{Bool, true}
use mathlib.Core.Option.{Option, none, some}
use mathlib.Core.List.{List, [], ◌∷◌}
use native.Mathlib.Omega.{arith}
use Prim.Native.Nat.{ℕ}
use Prim.Native.String.{String}
use text.Mathlib.Text.{◌==◌ as str_eq}
use text.Mathlib.TextEquality.{eq_iff}
use b2bua.Prelude.Tests.{if◌then◌else◌, ==_iff, ◌==◌ as nat_eq}

-- A type of keys with a lawful test.
pub record Key (K : Type 0) : Type 0 where
  pub same : K → K → Bool
  pub same_iff : (a b : K) → (same a b ≡ true) ↔ (a ≡ b)

instance abbrev pub nat_key : Key ℕ
nat_key = record { same = nat_eq; same_iff = ==_iff }

instance abbrev pub string_key : Key String
string_key = record { same = str_eq; same_iff = eq_iff }

abbrev pub Assoc : Type 0 → Type 0 → Type 0
Assoc K V = List (K × V)

module _ {K V : Type 0} ⦃key : Key K⦄ where
  unfoldable pub lookup : K → Assoc K V → Option V
  lookup k [] = none
  lookup k ((j, v) ∷ d) = if key.same j k then some v else lookup k d

  unfoldable pub remove : K → Assoc K V → Assoc K V
  remove k [] = []
  remove k ((j, v) ∷ d) = let rest = remove k d in if key.same j k then rest else (j, v) ∷ rest

  unfoldable pub insert : K → V → Assoc K V → Assoc K V
  insert k v d = (k, v) ∷ remove k d

  pub lookup-remove :
      (k j : K) (d : Assoc K V)
      → lookup j (remove k d) ≡ (if key.same k j then none else lookup j d)
  unfolding lookup remove
  lookup-remove k j [] = ground arith
  lookup-remove k j ((i, v) ∷ d) =
      ground (arith, lookup-remove k j d, key.same_iff i k, key.same_iff i j, key.same_iff k j)

  pub lookup-insert :
      (k j : K) (v : V) (d : Assoc K V)
      → lookup j (insert k v d) ≡ (if key.same k j then some v else lookup j d)
  unfolding insert lookup
  lookup-insert k j v d = ground (arith, lookup-remove k j d)

  -- What stands under a key that was just written, unless the removal of another took it.
  pub lookup-remove-insert :
      (k j : K) (v w : V) (d : Assoc K V) → lookup k (remove j (insert k v d)) ≡ some w → w ≡ v
  lookup-remove-insert k j v w d h =
      ground (arith, h, lookup-remove j k (insert k v d), lookup-insert k k v d, key.same_iff k k)

pub ruleset dict_laws = (lookup-remove, lookup-insert)
