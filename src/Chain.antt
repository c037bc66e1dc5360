-- ===== src/Chain.antt =====
-- src/chain.rs: the builder of the chain's parts, the block builder that makes the values to propose, and
-- the consumer that relays what was decided to the execution task.
pub mod Consumer
pub mod Relay
pub mod Progress
pub mod Announced
pub mod Builder
use rem_poc.Prelude.{
  ℕ, ◌+◌, ◌<◌, ◌≡◌, refl, List, [], ◌∷◌, map, Option, none, some, arith, add_u64, u64_mod, length,
  get_elem?, zero, suc,
}
use rem_poc.Prelude.Run.{Run, ok, err, panic}
use rem_poc.Reth.{Reth, SealedHeader}
use rem_poc.Storage.{StorageInner, new}
use rem_poc.Storage.Chain.{IsChain, new-IsChain}
use rem_poc.Context.Value.{BaseValue}

-- A provider that panics is not told from one that fails.
-- `latest_header().ok().flatten().unwrap_or_else(|| genesis)`
unfoldable pub latest_or_genesis {ℓ} :
    {E : Type ℓ} → Run E (Option SealedHeader) → SealedHeader → SealedHeader
latest_or_genesis (ok (some header)) genesis = header
latest_or_genesis (ok none) genesis = genesis
latest_or_genesis (err e) genesis = genesis
latest_or_genesis panic genesis = genesis

-- `MalachiteChainBuilder::new`, as far as the storage goes.
unfoldable pub new_storage {ℓ} :
    {E : Type ℓ} (R : Reth) → Run E (Option SealedHeader) → SealedHeader → StorageInner R
new_storage R latest genesis = new (latest_or_genesis latest genesis)

pub latest_or_genesis-either {ℓ} :
    {E : Type ℓ} (P : SealedHeader → Type 0) (latest : Run E (Option SealedHeader))
    (genesis : SealedHeader)
    → ((h : SealedHeader) → latest ≡ ok (some h) → P h)
    → P genesis
    → P (latest_or_genesis latest genesis)
unfolding latest_or_genesis
latest_or_genesis-either P (ok (some h)) g of_latest of_genesis = of_latest h refl
latest_or_genesis-either P (ok none) g of_latest of_genesis = of_genesis
latest_or_genesis-either P (err e) g of_latest of_genesis = of_genesis
latest_or_genesis-either P panic g of_latest of_genesis = of_genesis

-- The storage that the builder makes is a well-formed chain of one block, from the provider's latest
-- header where there is one and else from the genesis header, if these are sealed with their hashes.
pub new_storage-IsChain {ℓ} :
    {E : Type ℓ} (R : Reth) (latest : Run E (Option SealedHeader)) (genesis : SealedHeader)
    → ((h : SealedHeader) → latest ≡ ok (some h) → R.hash_slow h.header ≡ h.hash)
    → R.hash_slow genesis.header ≡ genesis.hash
    → IsChain (new_storage R latest genesis) (new_storage R latest genesis).best_block
      × ((h : SealedHeader)
          → latest ≡ ok (some h)
          → (new_storage R latest genesis).best_hash ≡ h.hash)
      × (((h : SealedHeader) → ¬ (latest ≡ ok (some h)))
          → (new_storage R latest genesis).best_hash ≡ genesis.hash)
unfolding new_storage latest_or_genesis new
new_storage-IsChain R (ok (some h)) g sealed gs =
    (new-IsChain R h (sealed h refl), (λ h' e. cc), λ absent. absurd (absent h refl))
new_storage-IsChain R (ok none) g sealed gs = (new-IsChain R g gs, (λ h' e. cc), λ _. refl)
new_storage-IsChain R (err e) g sealed gs = (new-IsChain R g gs, (λ h' e. cc), λ _. refl)
new_storage-IsChain R panic g sealed gs = (new-IsChain R g gs, (λ h' e. cc), λ _. refl)

module _ {Transaction : Type 0} where
  -- The block builder: one value for each set of transactions that the pool yields in turn, with
  -- `value_counter` for its id.
  unfoldable pub build_values : ℕ → List (List Transaction) → List (BaseValue Transaction)
  build_values value_counter [] = []
  build_values value_counter (txs ∷ rest) =
      record { id = value_counter; transactions = txs }
      ∷ build_values (add_u64 value_counter 1) rest

  build_values-from :
      (batches : List (List Transaction)) (start i : ℕ) (txs : List Transaction)
      → start + i < u64_mod
      → get_elem? batches i ≡ some txs
      → get_elem? (build_values start batches) i
        ≡ some (record { id = start + i; transactions = txs })
  unfolding build_values
  build_values-from [] start i txs h e = cc
  build_values-from (b ∷ bs) start zero txs h e = ground arith
  build_values-from (b ∷ bs) start (suc i) txs h e =
      ground (arith, build_values-from bs (add_u64 start 1) i txs)

  -- The i-th set of transactions becomes the i-th value, with id i, up to the range of a `u64`.
  pub build_values_ids :
      (batches : List (List Transaction)) (i : ℕ) (txs : List Transaction)
      → i < u64_mod
      → get_elem? batches i ≡ some txs
      → get_elem? (build_values 0 batches) i ≡ some (record { id = i; transactions = txs })
  build_values_ids batches i txs h e = ground (arith, build_values-from batches 0 i txs)
