-- ===== src/Tm/Consumers.antt =====
-- Who takes the requests of a dialog (sippy/SipTransactionManager.py: regConsumer, unregConsumer).
pub mod Balance
use b2bua.Prelude.{ℕ, String, Bool, Option, none, some, List, [], ◌∷◌, ◌++◌, ◌==◌, if◌then◌else◌}
use b2bua.Prelude.Assoc.{Assoc, lookup, insert, remove, string_key}

-- SipTransactionConsumer: the object, by a number, and `compact`.
pub record Consumer : Type 0 where
  pub cobj : ℕ
  pub compact : Bool

abbrev pub Consumers : Type 0
Consumers = Assoc String (List Consumer)

abbrev pub listed : Option (List Consumer) → List Consumer
listed none = []
listed (some cs) = cs

-- `req_consumers.setdefault(call_id, []).append(cons)`.
unfoldable pub reg_consumer : ℕ → String → Bool → Consumers → Consumers
reg_consumer consumer call_id compact d =
    insert call_id (listed (lookup call_id d) ++ record { cobj = consumer; compact = compact } ∷ [])
      d

-- The loop: the list without the first entry of this consumer, or none where there is no such entry.
unfoldable pub drop_consumer : ℕ → List Consumer → Option (List Consumer)
drop_consumer consumer [] = none
drop_consumer consumer (c ∷ cs) =
    let rest = drop_consumer consumer cs in
    if c.cobj == consumer then some cs else elim rest [ none ↦ none | some ds ↦ some (c ∷ ds) ]

-- `if len(consumers) > 0: self.req_consumers[call_id] = consumers`.
abbrev pub put_back : String → List Consumer → Consumers → Consumers
put_back call_id [] d = d
put_back call_id (c ∷ cs) d = insert call_id (c ∷ cs) d

abbrev pub unreg_from : ℕ → String → Option (List Consumer) → Consumers → Option Consumers
unreg_from consumer call_id none d = none
unreg_from consumer call_id (some cs) d = elim (drop_consumer consumer cs) [
  | none ↦ none
  | some rest ↦ some (put_back call_id rest (remove call_id d))
]

-- unregConsumer: KeyError or IndexError is `none`, and leaves what is registered as it was.
unfoldable pub unreg_consumer : ℕ → String → Consumers → Option Consumers
unreg_consumer consumer call_id d = unreg_from consumer call_id (lookup call_id d) d
