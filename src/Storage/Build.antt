-- ===== src/Storage/Build.antt =====
-- src/chain/storage.rs: the template of a new header, and the building, execution and insertion of a
-- block.
use mathlib.Core.Option
use rem_poc.Prelude.{
  ℕ, List, [], ◌∷◌, Option, none, some, Bool, true, false, if◌then◌else◌, add_u64, bit_or,
}
use rem_poc.Prelude.HashMap
use rem_poc.Prelude.Run.{Run, ok, err, panic, ◌>>=◌, map_err, unwrap, ok_or}
use rem_poc.Reth.{Reth, Header, SealedHeader, BlockBody, BlockWithSenders, ExecutionOutput}
use rem_poc.Storage.Defs.{StorageInner, insert_new_block}

-- What a call of `build_and_execute` meets outside: the time since the epoch, none if the clock
-- stands before it, the provider's latest state, and the executor.
pub record Environment (R : Reth) : Type 0 where
  pub now : Option ℕ
  pub latest : Run R.ProviderError R.Database
  pub execute : R.Database → BlockWithSenders R → ℕ → Run R.ExecutionError (ExecutionOutput R)

abbrev pub unwrap_or {ℓ} : {A : Type ℓ} → Option A → A → A
unwrap_or none d = d
unwrap_or (some a) d = a

-- `b.then_some(a)`
abbrev pub then_some {ℓ} : {A : Type ℓ} → Bool → A → Option A
then_some true a = some a
then_some false a = none

-- `fold(Bloom::ZERO, |bloom, r| bloom | *r)`, from `bloom`
unfoldable pub fold_blooms : ℕ → List ℕ → ℕ
fold_blooms bloom [] = bloom
fold_blooms bloom (r ∷ rs) = fold_blooms (bit_or bloom r) rs

module _ (R : Reth) where
  -- The sum over the EIP-4844 transactions, from `sum_blob_gas_used`.
  sum_blob_gas : ℕ → List R.Transaction → ℕ
  sum_blob_gas sum [] = sum
  sum_blob_gas sum (tx ∷ txs) =
      sum_blob_gas (elim (R.eip4844_blob_gas tx) [ none ↦ sum | some gas ↦ add_u64 sum gas ]) txs

  -- The parent's excess blob gas and blob gas, both 0 unless Cancun is active for it.
  parent_blob_gas : Option Header → ℕ × ℕ
  parent_blob_gas none = (0, 0)
  parent_blob_gas (some parent) =
      if R.is_cancun_active_at_timestamp parent.timestamp
      then (unwrap_or parent.excess_blob_gas 0, unwrap_or parent.blob_gas_used 0)
      else (0, 0)

  -- `receipts.iter().map(|r| r.as_ref().unwrap().bloom_slow())`
  unfoldable pub blooms : List (Option R.Receipt) → Run R.ExecutionError (List ℕ)
  blooms [] = ok []
  blooms (r ∷ rs) = do receipt ← unwrap r; rest ← blooms rs; ok (R.bloom_slow receipt ∷ rest)

module _ {R : Reth} where
  base_fee : StorageInner R → ℕ → Option ℕ
  base_fee s timestamp = elim (HashMap.get s.headers s.best_block) [
    | none ↦ none
    | some parent ↦ R.next_block_base_fee parent (R.base_fee_params_at_timestamp timestamp)
  ]

  -- The last block of `build_header_template`, under Cancun.
  with_cancun_fields : StorageInner R → Header → Header
  unfolding parent_blob_gas
  with_cancun_fields s header =
      let parent = HashMap.get s.headers s.best_block in
      let (excess, used) = parent_blob_gas R parent in
      record header {
        parent_beacon_block_root = elim parent [
          | none ↦ none
          | some p ↦ p.parent_beacon_block_root
        ];
        blob_gas_used = some 0;
        excess_blob_gas = some (R.calculate_excess_blob_gas excess used);
      }

  unfoldable pub build_header_template :
      StorageInner R
      → ℕ
      → List R.Transaction
      → List Header
      → Option R.Withdrawals
      → Option R.Requests
      → Header
  unfolding sum_blob_gas base_fee with_cancun_fields
  build_header_template s timestamp transactions ommers withdrawals requests =
      let blob_gas_used =
        if R.is_cancun_active_at_timestamp timestamp
        then some (sum_blob_gas R 0 transactions)
        else none in
      let header : Header = record {
        parent_hash = s.best_hash;
        ommers_hash = R.calculate_ommers_root ommers;
        beneficiary = 0;
        state_root = 0;
        transactions_root = R.calculate_transaction_root transactions;
        receipts_root = 0;
        withdrawals_root = Option.map R.calculate_withdrawals_root withdrawals;
        logs_bloom = 0;
        difficulty = 2;
        number = add_u64 s.best_block 1;
        gas_limit = R.max_gas_limit;
        gas_used = 0;
        timestamp = timestamp;
        mix_hash = 0;
        nonce = 0;
        base_fee_per_gas = base_fee s timestamp;
        blob_gas_used = blob_gas_used;
        excess_blob_gas = none;
        extra_data = [];
        parent_beacon_block_root = none;
        requests_root = Option.map R.calculate_requests_root requests;
      } in
      if R.is_cancun_active_at_timestamp timestamp then with_cancun_fields s header else header

  -- `build_and_execute` from the execution of the block to its completed header.
  unfoldable pub complete :
      Environment R
      → BlockWithSenders R
      → R.Database
      → Run R.ExecutionError (Header × BlockBody R × R.Outcome)
  unfolding blooms fold_blooms
  complete env block db = do
    output ← env.execute db block 0
    let outcome =
        R.new_outcome output.state output.receipts block.header.number (output.requests ∷ [])
    state_root ← map_err R.provider_error (R.state_root db (R.outcome_state outcome))
    receipts_with_bloom ← blooms R (R.receipts_by_block outcome block.header.number)
    receipts_root ← unwrap (R.receipts_root_slow outcome block.header.number)
    let header = record (block.header) {
      state_root = state_root;
      gas_used = output.gas_used;
      logs_bloom = fold_blooms 0 receipts_with_bloom;
      receipts_root = receipts_root;
    }
    let body : BlockBody R = record {
      transactions = block.body;
      ommers = block.ommers;
      withdrawals = block.withdrawals;
      requests = block.requests;
    }
    ok (header, body, outcome)

  -- `build_and_execute` up to the insertion.
  unfoldable pub prepare :
      Environment R
      → StorageInner R
      → List R.Transaction
      → List Header
      → Run R.ExecutionError (Header × BlockBody R × R.Outcome)
  prepare env s transactions ommers = do
    let timestamp = unwrap_or env.now 0
    let withdrawals = then_some (R.is_shanghai_active_at_timestamp timestamp) R.default_withdrawals
    let requests = then_some (R.is_prague_active_at_timestamp timestamp) R.default_requests
    senders ← ok_or (R.recover_signers transactions) R.sender_recovery_error
    let block : BlockWithSenders R = record {
      header = build_header_template s timestamp transactions ommers withdrawals requests;
      body = transactions;
      ommers = ommers;
      withdrawals = withdrawals;
      requests = requests;
      senders = senders;
    }
    db ← map_err R.latest_block_error env.latest
    complete env block db

  -- `build_and_execute` from the insertion on: the result, with the storage that is left.
  unfoldable pub insert_prepared :
      StorageInner R
      → Run R.ExecutionError (Header × BlockBody R × R.Outcome)
      → Run R.ExecutionError (SealedHeader × R.Outcome) × StorageInner R
  insert_prepared s (err e) = (err e, s)
  insert_prepared s panic = (panic, s)
  insert_prepared s (ok (header, body, outcome)) =
      let s' = insert_new_block s header body in
      (ok (record { header = header; hash = s'.best_hash }, outcome), s')

  unfoldable pub build_and_execute :
      Environment R
      → StorageInner R
      → List R.Transaction
      → List Header
      → Run R.ExecutionError (SealedHeader × R.Outcome) × StorageInner R
  unfolding insert_prepared
  build_and_execute env s transactions ommers =
      insert_prepared s (prepare env s transactions ommers)
