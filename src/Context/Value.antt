-- ===== src/Context/Value.antt =====
-- src/chain/context/value.rs and src/chain/decision.rs: values, their comparison, and what the application
-- announces of them.
use rem_poc.Prelude.{ℕ, ◌≡◌, ◌↔◌, refl, List, Bool, true, compare, Ordering, arith, ◌==◌}
use rem_poc.Context.Height.{BaseHeight, BasePeerAddress}
use rem_poc.Context.Malachite.{Malachite}

abbrev pub BaseValueId : Type 0
BaseValueId = ℕ

pub record BaseValue (Transaction : Type 0) : Type 0 where
  pub id : ℕ
  pub transactions : List Transaction

pub record Decision : Type 0 where
  pub peer : BasePeerAddress
  pub value_id : BaseValueId
  pub height : BaseHeight

-- `ProposedValue` of the consensus library, with the fields that application.rs writes out; its
-- `extension` is always `None` there.
pub record ProposedValue (M : Malachite) (Transaction : Type 0) : Type 0 where
  pub height : BaseHeight
  pub round : M.Round
  pub valid_round : M.Round
  pub proposer : BasePeerAddress
  pub value : BaseValue Transaction
  pub validity : M.Validity

pub data DecisionStep (M : Malachite) (Transaction : Type 0) : Type 0 where
  proposed : ProposedValue M Transaction → DecisionStep M Transaction
  finalized : Decision → DecisionStep M Transaction

module _ {Transaction : Type 0} where
  unfoldable pub value_id : BaseValue Transaction → BaseValueId
  value_id v = v.id

  -- `PartialEq` and `Ord`: values are compared by their ids alone.
  unfoldable pub eq : BaseValue Transaction → BaseValue Transaction → Bool
  eq a b = a.id == b.id

  unfoldable pub cmp : BaseValue Transaction → BaseValue Transaction → Ordering
  cmp a b = compare a.id b.id

  -- The comparison agrees with the equality and with the ids, and reversing the arguments reverses
  -- it; and transactions never count.
  cmp-eq :
      (a b : BaseValue Transaction)
      → ((cmp a b ≡ Ordering.eq) ↔ (eq a b ≡ true))
        × ((eq a b ≡ true) ↔ (value_id a ≡ value_id b))
        × ((cmp a b ≡ Ordering.lt) ↔ (cmp b a ≡ Ordering.gt))
        × ((txs : List Transaction) → cmp (record a { transactions = txs }) b ≡ cmp a b)
  unfolding eq cmp value_id
  cmp-eq a b = (ground arith, ground arith, ground arith, λ txs. refl)
