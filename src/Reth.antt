-- ===== src/Reth.antt =====
-- The execution client that the program is built on, as far as the program uses it: a parameter of
-- the model. Hashes, addresses, nonces and blooms are numbers; the other types are left open.
use rem_poc.Prelude.{ℕ, Bool, Option, List}
use rem_poc.Prelude.Run.{Run}

-- `reth::primitives::Header`, with the fields that storage.rs writes out.
pub record Header : Type 0 where
  pub parent_hash : ℕ
  pub ommers_hash : ℕ
  pub beneficiary : ℕ
  pub state_root : ℕ
  pub transactions_root : ℕ
  pub receipts_root : ℕ
  pub withdrawals_root : Option ℕ
  pub logs_bloom : ℕ
  pub difficulty : ℕ
  pub number : ℕ
  pub gas_limit : ℕ
  pub gas_used : ℕ
  pub timestamp : ℕ
  pub mix_hash : ℕ
  pub nonce : ℕ
  pub base_fee_per_gas : Option ℕ
  pub blob_gas_used : Option ℕ
  pub excess_blob_gas : Option ℕ
  pub extra_data : List ℕ
  pub parent_beacon_block_root : Option ℕ
  pub requests_root : Option ℕ

-- A header with the hash that stands for it, `SealedHeader`.
pub record SealedHeader : Type 0 where
  pub header : Header
  pub hash : ℕ

pub record Reth : Type 1 where
  -- types
  pub Transaction : Type 0
  pub Withdrawals : Type 0
  pub Requests : Type 0
  pub BaseFeeParams : Type 0
  pub Database : Type 0
  pub Bundle : Type 0
  pub Receipt : Type 0
  pub BlockRequests : Type 0
  pub Outcome : Type 0
  pub ProviderError : Type 0
  pub ExecutionError : Type 0
  pub PipelineEvents : Type 0
  -- hashes, roots and 256-bit numbers
  pub hash_slow : Header → ℕ
  pub add_u256 : ℕ → ℕ → ℕ
  pub calculate_ommers_root : List Header → ℕ
  pub calculate_transaction_root : List Transaction → ℕ
  pub calculate_withdrawals_root : Withdrawals → ℕ
  pub calculate_requests_root : Requests → ℕ
  -- transactions and headers
  pub transaction_hash : Transaction → ℕ
  -- the blob gas of an EIP-4844 transaction, none for the others
  pub eip4844_blob_gas : Transaction → Option ℕ
  pub recover_signers : List Transaction → Option (List ℕ)
  pub next_block_base_fee : Header → BaseFeeParams → Option ℕ
  pub calculate_excess_blob_gas : ℕ → ℕ → ℕ
  pub default_withdrawals : Withdrawals
  pub default_requests : Requests
  -- the chain's specification
  pub max_gas_limit : ℕ
  pub base_fee_params_at_timestamp : ℕ → BaseFeeParams
  pub is_shanghai_active_at_timestamp : ℕ → Bool
  pub is_cancun_active_at_timestamp : ℕ → Bool
  pub is_prague_active_at_timestamp : ℕ → Bool
  -- execution
  pub state_root : Database → Bundle → Run ProviderError ℕ
  pub new_outcome : Bundle → List Receipt → ℕ → List BlockRequests → Outcome
  pub outcome_state : Outcome → Bundle
  pub receipts_by_block : Outcome → ℕ → List (Option Receipt)
  pub receipts_root_slow : Outcome → ℕ → Option ℕ
  pub bloom_slow : Receipt → ℕ
  -- how errors become `BlockExecutionError`
  pub sender_recovery_error : ExecutionError
  pub latest_block_error : ProviderError → ExecutionError
  pub provider_error : ProviderError → ExecutionError

module _ (R : Reth) where
  -- `reth::primitives::BlockBody`
  pub record BlockBody : Type 0 where
    pub transactions : List R.Transaction
    pub ommers : List Header
    pub withdrawals : Option R.Withdrawals
    pub requests : Option R.Requests

  -- `Block` once its senders are recovered, `BlockWithSenders`
  pub record BlockWithSenders : Type 0 where
    pub header : Header
    pub body : List R.Transaction
    pub ommers : List Header
    pub withdrawals : Option R.Withdrawals
    pub requests : Option R.Requests
    pub senders : List ℕ

  -- `BlockExecutionOutput`
  pub record ExecutionOutput : Type 0 where
    pub state : R.Bundle
    pub receipts : List R.Receipt
    pub requests : R.BlockRequests
    pub gas_used : ℕ
