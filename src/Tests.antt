-- ===== src/Tests.antt =====
-- Concrete parameters and data, on which the tests below run the models of the program.
pub mod OnStorage
pub mod OnContext
pub mod OnPeers
pub mod OnPipeline
pub mod OnTask
pub mod OnSystem
pub mod OnWhole
pub mod OnSimulator
pub mod OnRuns
pub mod OnLauncher
pub mod OnMain
use mathlib.Core.Path.{◌≡◌, refl}
use rem_poc.Prelude.{
  Bool-cases, inl, inr, ℕ, suc, ◌+◌, List, [], ◌∷◌, length, map, Bool, true, false, arith, ltb,
  ◌==◌, ◌&&◌, if◌then◌else◌, none, some,
}
use rem_poc.Prelude.Run.{Run, ok, err}
use rem_poc.Reth.{Reth, Header, SealedHeader, BlockBody, BlockWithSenders, ExecutionOutput}
use rem_poc.Storage.{StorageInner, Environment, new, insert_new_block, default_body}
use rem_poc.Storage.Chain.{CollisionFree, IsChain, new-IsChain}
use rem_poc.Storage.Insert.{insert_new_block-IsChain}
use rem_poc.Context.Malachite.{Malachite}
use rem_poc.Context.Signing.{IsSound}

-- An execution client whose transactions are numbers and whose hashes are the heights, and 1000.
abbrev pub simple_reth : Reth
simple_reth = record {
  Transaction = ℕ;
  Withdrawals = Unit {0};
  Requests = Unit {0};
  BaseFeeParams = Unit {0};
  Database = Unit {0};
  Bundle = ℕ;
  Receipt = ℕ;
  BlockRequests = Unit {0};
  Outcome = ℕ × List ℕ;
  ProviderError = Unit {0};
  ExecutionError = ℕ;
  PipelineEvents = ℕ;
  hash_slow = λ h. h.number + 1000;
  add_u256 = λ a b. a + b;
  calculate_ommers_root = λ ommers. length ommers;
  calculate_transaction_root = λ txs. length txs;
  calculate_withdrawals_root = λ w. 3;
  calculate_requests_root = λ r. 4;
  transaction_hash = λ tx. tx;
  eip4844_blob_gas = λ tx. some tx;
  recover_signers = λ txs. some txs;
  next_block_base_fee = λ parent params. some 7;
  calculate_excess_blob_gas = λ excess used. excess + used;
  default_withdrawals = tt;
  default_requests = tt;
  max_gas_limit = 30000000;
  base_fee_params_at_timestamp = λ t. tt;
  is_shanghai_active_at_timestamp = λ t. true;
  is_cancun_active_at_timestamp = λ t. ltb 100 t;
  is_prague_active_at_timestamp = λ t. false;
  state_root = λ db bundle. ok bundle;
  new_outcome = λ bundle receipts n requests. (bundle, receipts);
  outcome_state = λ o. o.0;
  receipts_by_block = λ o n. [];
  receipts_root_slow = λ o n. some (length o.1);
  bloom_slow = λ receipt. receipt;
  sender_recovery_error = 1;
  latest_block_error = λ e. 2;
  provider_error = λ e. 3;
}

pub simple_reth-CollisionFree : CollisionFree simple_reth
simple_reth-CollisionFree h h' e = omega (arith, e)

abbrev pub plain_header : Header
plain_header = record {
  parent_hash = 0;
  ommers_hash = 0;
  beneficiary = 0;
  state_root = 0;
  transactions_root = 0;
  receipts_root = 0;
  withdrawals_root = none;
  logs_bloom = 0;
  difficulty = 2;
  number = 0;
  gas_limit = 30000000;
  gas_used = 0;
  timestamp = 0;
  mix_hash = 0;
  nonce = 0;
  base_fee_per_gas = none;
  blob_gas_used = none;
  excess_blob_gas = none;
  extra_data = [];
  parent_beacon_block_root = none;
  requests_root = none;
}

-- The first block, of number 5.
abbrev pub first_block : SealedHeader
first_block = record { header = record plain_header { number = 5 }; hash = 1005 }

abbrev pub body_of : List ℕ → BlockBody simple_reth
body_of txs = record { transactions = txs; ommers = []; withdrawals = none; requests = none }

-- Storages of one block and of three.
unfoldable pub one_block : StorageInner simple_reth
unfolding new
one_block = new first_block

unfoldable pub three_blocks : StorageInner simple_reth
unfolding one_block insert_new_block
three_blocks =
    insert_new_block (insert_new_block one_block plain_header (body_of (10 ∷ []))) plain_header
      (body_of (20 ∷ 30 ∷ []))

pub one_block-IsChain : IsChain one_block 5
unfolding one_block
one_block-IsChain = new-IsChain simple_reth first_block refl

pub three_blocks-IsChain : IsChain three_blocks 5
unfolding three_blocks new insert_new_block one_block
three_blocks-IsChain =
    insert_new_block-IsChain simple_reth-CollisionFree
      (insert_new_block one_block plain_header (body_of (10 ∷ []))) 5 plain_header
      (body_of (20 ∷ 30 ∷ [])) (omega arith)
      (insert_new_block-IsChain simple_reth-CollisionFree one_block 5 plain_header
        (body_of (10 ∷ [])) (omega arith) one_block-IsChain)

-- An execution that sums the transactions.
abbrev pub sum_list : List ℕ → ℕ
sum_list [] = 0
sum_list (n ∷ ns) = n + sum_list ns

abbrev pub served : Environment simple_reth
served = record {
  now = some 200;
  latest = ok tt;
  execute = λ db block difficulty.
      ok (record {
        state = sum_list block.body;
        receipts = block.body;
        requests = tt;
        gas_used = 21;
      });
}

abbrev pub failing : Environment simple_reth
failing = record served { execute = λ db block difficulty. err 9 }

-- A consensus library whose rounds are numbers, and a signature that is the key with the message.
abbrev pub same_bytes : List ℕ → List ℕ → Bool
same_bytes [] [] = true
same_bytes (a ∷ rest) (b ∷ others) = (a == b) && same_bytes rest others
same_bytes _ _ = false

same_bytes_refl : (l : List ℕ) → same_bytes l l ≡ true
same_bytes_refl [] = refl
same_bytes_refl (a ∷ rest) = ground (arith, same_bytes_refl rest)

same_bytes-eq : (xs ys : List ℕ) → same_bytes xs ys ≡ true → xs ≡ ys
same_bytes-eq [] [] e = refl
same_bytes-eq [] (b ∷ ys) e = cc
same_bytes-eq (a ∷ xs) [] e = cc
same_bytes-eq (a ∷ xs) (b ∷ ys) e = ground (arith, same_bytes-eq xs ys)

tail_same : (k : ℕ) (xs ys : List ℕ) → k ∷ xs ≡ k ∷ ys → xs ≡ ys
tail_same k xs ys e = cc

abbrev pub simple_malachite : Malachite
simple_malachite = record {
  Round = ℕ;
  nil_round = 0;
  NilOrVal = ℕ;
  SignedExtension = Unit {0};
  TimeoutKind = ℕ;
  is_commit = λ kind. kind == 1;
  ThresholdParams = Unit {0};
  default_threshold_params = tt;
  ValuePayload = Unit {0};
  proposal_only = tt;
  ValueOrigin = Unit {0};
  consensus_origin = tt;
  Validity = Unit {0};
  valid = tt;
  increment = λ h. suc h;
  SigningKey = ℕ;
  VerificationKey = ℕ;
  RawSignature = List ℕ;
  SignatureError = Unit {0};
  new_signing_key = λ random. random;
  signing_key_of_bytes = λ bytes. length bytes;
  verification_key = λ k. k;
  sign = λ k msg. k ∷ msg;
  verify = λ k signature msg. if same_bytes signature (k ∷ msg) then ok tt else err tt;
  signature_bytes = λ signature. signature;
  signature_of_bytes = λ bytes. ok bytes;
}

accepted :
    {b : Bool}
    → b ≡ false
    → ¬ (◌≡◌ {A = Run (Unit {0}) (Unit {0})} (if b then ok tt else err tt) (ok tt))
accepted is e = cc (rw is at e)

pub simple_malachite-IsSound : IsSound simple_malachite
simple_malachite-IsSound = record {
  verify-sign = λ k msg. rw (same_bytes_refl (k ∷ msg));
  verify-binds = λ k msg msg' e. elim (Bool-cases (same_bytes (k ∷ msg) (k ∷ msg'))) [
    | inl same ↦ tail_same k msg msg' (same_bytes-eq (k ∷ msg) (k ∷ msg') same)
    | inr other ↦ absurd (accepted other e)
  ];
  of_bytes-bytes = λ s. refl;
}
