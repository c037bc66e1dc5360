-- ===== src/Application/Messages.antt =====
-- The inputs, effects and parameters of the consensus library (`malachite_core_consensus`), with the
-- constructors and fields that application.rs and simulator.rs name, and what these send around.
use rem_poc.Prelude.{Option, Bool}
use rem_poc.Context.Malachite.{Malachite}
use rem_poc.Context.Height.{BaseHeight, BasePeerAddress}
use rem_poc.Context.PeerSet.{BasePeerSet}
use rem_poc.Context.Value.{BaseValue, BaseValueId, ProposedValue}
use rem_poc.Context.Vote.{BaseVote, BaseProposal}
use rem_poc.Context.Signing.{PublicKey, SignedMessage}

module _ (M : Malachite) (Transaction : Type 0) where
  abbrev pub ValidatorSet : Type 0
  ValidatorSet = BasePeerSet (PublicKey M)

  pub record Timeout : Type 0 where
    pub round : M.Round
    pub kind : M.TimeoutKind

  -- `ValueToPropose`; its `extension` is always `None`.
  pub record ValueToPropose : Type 0 where
    pub height : BaseHeight
    pub round : M.Round
    pub valid_round : M.Round
    pub value : BaseValue Transaction

  pub record CommitCertificate : Type 0 where
    pub height : BaseHeight
    pub value_id : BaseValueId

  pub record Params : Type 0 where
    pub initial_height : BaseHeight
    pub initial_validator_set : BasePeerSet (PublicKey M)
    pub address : BasePeerAddress
    pub threshold_params : M.ThresholdParams
    pub value_payload : M.ValuePayload

  pub data SignedConsensusMsg : Type 0 where
    vote : SignedMessage M (BaseVote M) → SignedConsensusMsg
    proposal : SignedMessage M (BaseProposal M Transaction) → SignedConsensusMsg

  pub data Input : Type 0 where
    start_height : BaseHeight → BasePeerSet (PublicKey M) → Input
    timeout_elapsed : Timeout → Input
    vote : SignedMessage M (BaseVote M) → Input
    proposal : SignedMessage M (BaseProposal M Transaction) → Input
    proposed_value : ProposedValue M Transaction → M.ValueOrigin → Input
    propose : ValueToPropose → Input

  -- The fields that the handler ignores are left out.
  pub data Effect : Type 0 where
    reset_timeouts cancel_all_timeouts cancel_timeout start_round : Effect
    schedule_timeout : Timeout → Effect
    publish : SignedConsensusMsg → Effect
    get_value : BaseHeight → M.Round → Effect
    get_validator_set : BaseHeight → Effect
    verify_signature : Effect
    decide : CommitCertificate → Effect
    restream_value persist_message persist_timeout : Effect
    sign_vote : BaseVote M → Effect
    sign_proposal : BaseProposal M Transaction → Effect
    get_vote_set send_vote_set_response verify_certificate : Effect

  -- What a handler hands back to the library.
  pub data Resume : Type 0 where
    continue : Resume
    validator_set : Option (BasePeerSet (PublicKey M)) → Resume
    signature_validity : Bool → Resume
    signed_vote : SignedMessage M (BaseVote M) → Resume
    signed_proposal : SignedMessage M (BaseProposal M Transaction) → Resume

  -- `Envelope` of chain/simulator.rs
  pub record Envelope : Type 0 where
    pub source : BasePeerAddress
    pub destination : BasePeerAddress
    pub payload : Input
