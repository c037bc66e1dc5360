-- ===== src/Application/Print.antt =====
-- What the application of src/chain/application.rs logs of the messages that it publishes and is asked to
-- verify. How the library prints a signed message is a parameter.
use rem_poc.Context.Malachite.{Malachite}
use rem_poc.Context.Vote.{BaseVote, BaseProposal}
use rem_poc.Context.Signing.{SignedMessage}
use rem_poc.Context.Display.{Text, Printed, display_vote, display_proposal}
use rem_poc.Application.Messages.{SignedConsensusMsg}

module _ (M : Malachite) (Transaction : Type 0) where
  -- `ConsensusMsg` of the library
  pub data ConsensusMsg : Type 0 where
    vote : BaseVote M → ConsensusMsg
    proposal : BaseProposal M Transaction → ConsensusMsg

  pub record PrintedSigned : Type 0 where
    pub signed_vote : SignedMessage M (BaseVote M) → Text
    pub signed_proposal : SignedMessage M (BaseProposal M Transaction) → Text

module _ {M : Malachite} {Transaction : Type 0} where
  unfoldable pub pretty_publish :
      PrintedSigned M Transaction → SignedConsensusMsg M Transaction → Text
  pretty_publish S (SignedConsensusMsg.vote sv) = S.signed_vote sv
  pretty_publish S (SignedConsensusMsg.proposal sp) = S.signed_proposal sp

  pretty_message : Printed M Transaction → ConsensusMsg M Transaction → Text
  unfolding display_vote display_proposal
  pretty_message S (ConsensusMsg.vote v) = display_vote S v
  pretty_message S (ConsensusMsg.proposal p) = display_proposal S p

  unfoldable pub pretty_verify_signature :
      Printed M Transaction → SignedMessage M (ConsensusMsg M Transaction) → Text
  unfolding pretty_message
  pretty_verify_signature S m = pretty_message S m.message
