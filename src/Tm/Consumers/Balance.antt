-- ===== src/Tm/Consumers/Balance.antt =====
-- Registering and taking back.
use b2bua.Prelude.{
  ℕ, String, ◌≡◌, refl, Bool, true, false, Option, none, some, List, [], ◌∷◌, ◌++◌, ◌==◌, arith,
  All, eq_iff, str_eq, if◌then◌else◌,
}
use b2bua.Prelude.Assoc.{lookup, insert, remove, lookup-insert, lookup-remove, string_key}
use b2bua.Tm.Consumers.{
  Consumer, Consumers, listed, reg_consumer, drop_consumer, put_back, unreg_consumer,
}

-- The consumer is not among these.
abbrev pub IsAbsent : ℕ → List Consumer → Type 0
IsAbsent consumer = All (λ c. (c.cobj == consumer) ≡ false)

drop_consumer-last :
    (consumer : ℕ) (compact : Bool) (cs : List Consumer)
    → IsAbsent consumer cs
    → drop_consumer consumer (cs ++ record { cobj = consumer; compact = compact } ∷ []) ≡ some cs
unfolding drop_consumer
drop_consumer-last consumer compact [] h = ground arith
drop_consumer-last consumer compact (c ∷ cs) h =
    ground (arith, h.0, drop_consumer-last consumer compact cs h.1)

-- The dictionary holds no empty list for this Call-ID.
abbrev pub NotEmpty : Option (List Consumer) → Type 0
NotEmpty none = Unit
NotEmpty (some []) = ⊥
NotEmpty (some (c ∷ cs)) = Unit

abbrev pub looks_up : String → Option Consumers → Option (List Consumer)
looks_up id none = none
looks_up id (some d) = lookup id d

abbrev pub is_done : Option Consumers → Bool
is_done none = false
is_done (some _) = true

lookup-put_back :
    (id j : String) (o : Option (List Consumer)) (d : Consumers)
    → NotEmpty o
    → o ≡ lookup id d
    → (e : Consumers) → ((k : String) → lookup k e ≡ (if str_eq id k then none else lookup k d))
    → lookup j (put_back id (listed o) e) ≡ lookup j d
lookup-put_back id j none d ne same e others = ground (arith, same, others j, eq_iff id j)
lookup-put_back id j (some []) d ne same e others = absurd ne
lookup-put_back id j (some (c ∷ cs)) d ne same e others =
    ground (arith, same, others j, lookup-insert id j (c ∷ cs) e, eq_iff id j)

-- A consumer that registers for a Call-ID and is not registered for it yet can unregister, and
-- afterwards every Call-ID has the consumers, in their order, that it had before.
pub unreg_consumer-reg_consumer :
    (consumer : ℕ) (id j : String) (compact : Bool) (d : Consumers)
    → IsAbsent consumer (listed (lookup id d))
    → NotEmpty (lookup id d)
    → let e = unreg_consumer consumer id (reg_consumer consumer id compact d) in
      (is_done e ≡ true) × (looks_up j e ≡ lookup j d)
unfolding unreg_consumer reg_consumer
unreg_consumer-reg_consumer consumer id j compact d absent ne =
    let cs = listed (lookup id d) in
    let all = cs ++ record { cobj = consumer; compact = compact } ∷ [] in
    let d1 : Consumers = insert id all d in
    let found : lookup id d1 ≡ some all = ground (arith, lookup-insert id id all d, eq_iff id id) in
    let others : (k : String)
        → lookup k (remove id d1) ≡ (if str_eq id k then none else lookup k d) =
      λ k. ground (arith, lookup-remove id k d1, lookup-insert id k all d) in
    let back = lookup-put_back id j (lookup id d) d ne refl (remove id d1) others in
    ground (arith, found, drop_consumer-last consumer compact cs absent, back)
