-- ===== src/Pipeline/FromPool.antt =====
-- What consensus decides, against what the block builder of src/chain.rs got from the pool.
use mathlib.Core.Option
use mathlib.Core.List.{Mem, mem-cons_self, mem-cons_of_mem, exists_of_mem-map, Mem-prop}
use mathlib.Core.Logic.{∥∥₁_elim}
use rem_poc.Prelude.{
  ℕ, ◌≡◌, refl, subst, List, [], ◌∷◌, Option, none, some, All, add_u64, Bool-cases, inl, inr, ◌==◌,
}
use rem_poc.Context.Malachite.{Malachite}
use rem_poc.Context.Value.{BaseValue, DecisionStep, proposed, finalized}
use rem_poc.Chain.{build_values}
use rem_poc.Chain.Relay.{first_proposal}
use rem_poc.Simulator.Values.{Announces}
use rem_poc.Pipeline.{decided}

module _ {Transaction : Type 0} (batches : List (List Transaction)) where
  -- The transactions of a value are one of the sets.
  abbrev pub FromPool : BaseValue Transaction → Type 0
  FromPool v = Mem v.transactions batches

  pub build_values-FromPool :
      (counter : ℕ) (some_batches : List (List Transaction))
      → ((txs : List Transaction) → Mem txs some_batches → Mem txs batches)
      → All FromPool (build_values counter some_batches)
  unfolding build_values
  build_values-FromPool counter [] sub = tt
  build_values-FromPool counter (txs ∷ rest) sub = (
    sub txs mem-cons_self,
    build_values-FromPool (add_u64 counter 1) rest (λ t m. sub t (mem-cons_of_mem txs m)),
  )

is_that {ℓ} : {A : Type ℓ} (a b : A) → some a ≡ some b → a ≡ b
is_that a b e = cc

module _ {M : Malachite} {Transaction : Type 0} (batches : List (List Transaction)) where
  first_proposal-FromPool :
      (ds : List (DecisionStep M Transaction)) (h : ℕ) (v : BaseValue Transaction)
      → All (Announces (FromPool batches)) ds
      → first_proposal ds h ≡ some v
      → FromPool batches v
  unfolding first_proposal
  first_proposal-FromPool [] h v all e = cc
  first_proposal-FromPool (proposed p ∷ ds) h v all e = elim (Bool-cases (p.height == h)) [
    | inl hit ↦ subst (FromPool batches) (is_that p.value v (rw hit at e)) all.0
    | inr miss ↦ first_proposal-FromPool ds h v all.1 (rw miss at e)
  ]
  first_proposal-FromPool (finalized f ∷ ds) h v all e = first_proposal-FromPool ds h v all.1 e

  pub decided-FromPool :
      (ds : List (DecisionStep M Transaction)) (txs : List Transaction)
      → All (Announces (FromPool batches)) ds
      → Mem (some txs) (decided ds)
      → Mem txs batches
  decided-FromPool ds txs all m =
      ∥∥₁_elim (exists_of_mem-map m) Mem-prop (λ (h, i, is). from h (first_proposal ds h) refl is)
    where
      from :
          (h : ℕ) (o : Option (BaseValue Transaction))
          → first_proposal ds h ≡ o
          → Option.map (λ v. v.transactions) o ≡ some txs
          → Mem txs batches
      from h none e is = cc
      from h (some v) e is =
          subst (λ t. Mem t batches) (is_that v.transactions txs is)
            (first_proposal-FromPool ds h v all e)
