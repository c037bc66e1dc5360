-- ===== src/Mac.antt =====
-- src/mac.rs: the consensus that the node is given for its own checks on blocks, all of which pass.
use rem_poc.Prelude.{ℕ}
use rem_poc.Prelude.Run.{Run, ok}
use rem_poc.Reth.{Header, SealedHeader}

-- The types of the execution client that the checks are about, a parameter.
pub record Checked : Type 1 where
  pub ChainSpec : Type 0
  pub SealedBlock : Type 0
  pub BlockWithSenders : Type 0
  pub PostExecutionInput : Type 0
  pub ConsensusError : Type 0
  -- `BuilderContext`, which a component is built from
  pub BuilderContext : Type 0
  pub chain_spec : BuilderContext → ChainSpec

module _ (K : Checked) where
  -- `dyn Consensus`: the checks that the node makes.
  pub record Checks : Type 0 where
    pub header : SealedHeader → Run K.ConsensusError (Unit {0})
    pub header_against_parent : SealedHeader → SealedHeader → Run K.ConsensusError (Unit {0})
    pub header_with_total_difficulty : Header → ℕ → Run K.ConsensusError (Unit {0})
    pub block_pre_execution : K.SealedBlock → Run K.ConsensusError (Unit {0})
    pub block_post_execution :
        K.BlockWithSenders → K.PostExecutionInput → Run K.ConsensusError (Unit {0})

  pub record MalachiteConsensus : Type 0 where
    pub chain_spec : K.ChainSpec

  pub record MalachiteConsensusBuilder : Type 0 where

module _ {K : Checked} where
  unfoldable pub new_consensus : K.ChainSpec → MalachiteConsensus K
  new_consensus spec = record { chain_spec = spec }

  unfoldable pub validate_header :
      MalachiteConsensus K → SealedHeader → Run K.ConsensusError (Unit {0})
  validate_header c header = ok tt

  unfoldable pub validate_header_against_parent :
      MalachiteConsensus K → SealedHeader → SealedHeader → Run K.ConsensusError (Unit {0})
  validate_header_against_parent c header parent = ok tt

  unfoldable pub validate_header_with_total_difficulty :
      MalachiteConsensus K → Header → ℕ → Run K.ConsensusError (Unit {0})
  validate_header_with_total_difficulty c header total_difficulty = ok tt

  unfoldable pub validate_block_pre_execution :
      MalachiteConsensus K → K.SealedBlock → Run K.ConsensusError (Unit {0})
  validate_block_pre_execution c block = ok tt

  unfoldable pub validate_block_post_execution :
      MalachiteConsensus K
      → K.BlockWithSenders
      → K.PostExecutionInput
      → Run K.ConsensusError (Unit {0})
  validate_block_post_execution c block input = ok tt

  -- `impl Consensus for MalachiteConsensus`
  unfoldable pub checks : MalachiteConsensus K → Checks K
  unfolding validate_header validate_header_against_parent validate_header_with_total_difficulty
      validate_block_pre_execution validate_block_post_execution
  checks c = record {
    header = validate_header c;
    header_against_parent = validate_header_against_parent c;
    header_with_total_difficulty = validate_header_with_total_difficulty c;
    block_pre_execution = validate_block_pre_execution c;
    block_post_execution = validate_block_post_execution c;
  }

  unfoldable pub build_consensus {ℓ} :
      {E : Type ℓ} → MalachiteConsensusBuilder K → K.BuilderContext → Run E (Checks K)
  unfolding new_consensus checks
  build_consensus builder ctx = ok (checks (new_consensus (K.chain_spec ctx)))
