-- ===== src/Context/Accessors.antt =====
-- src/chain/context.rs and src/chain/context/: the methods by which the consensus library reads the
-- program's heights, peers, votes and proposals.
use rem_poc.Prelude.{ℕ, ◌≡◌, refl, Option, none, some}
use rem_poc.Context.Malachite.{Malachite}
use rem_poc.Context.Height.{BaseHeight, BasePeerAddress}
use rem_poc.Context.PeerSet.{BasePeer}
use rem_poc.Context.Value.{BaseValue}
use rem_poc.Context.Vote.{BaseVote, BaseProposal, VoteType, prevote, precommit, extend, pol_round}
use rem_poc.Context.Signing.{BaseSigningProvider}
use rem_poc.Context.Base.{BaseContext, new_prevote, new_precommit, new_proposal}

-- `Height`
unfoldable as_u64 : BaseHeight → ℕ
as_u64 h = h

module _ {PublicKey : Type 0} where
  -- `Validator`
  unfoldable peer_address : BasePeer PublicKey → BasePeerAddress
  peer_address p = p.id

  unfoldable peer_public_key : BasePeer PublicKey → PublicKey
  peer_public_key p = p.public_key

module _ {M : Malachite} where
  -- `Context`
  unfoldable signing_provider_of : BaseContext M → BaseSigningProvider M
  signing_provider_of c = c.signing_provider

  -- `Vote`
  unfoldable vote_height : BaseVote M → BaseHeight
  vote_height v = v.height

  unfoldable vote_round : BaseVote M → M.Round
  vote_round v = v.round

  unfoldable vote_value : BaseVote M → M.NilOrVal
  vote_value v = v.value_id

  unfoldable take_vote_value : BaseVote M → M.NilOrVal
  take_vote_value v = v.value_id

  unfoldable vote_type_of : BaseVote M → VoteType
  vote_type_of v = v.vote_type

  unfoldable vote_validator_address : BaseVote M → BasePeerAddress
  vote_validator_address v = v.voter

  unfoldable vote_extension : BaseVote M → Option M.SignedExtension
  vote_extension v = v.extension

module _ {M : Malachite} {Transaction : Type 0} where
  -- `Proposal`
  unfoldable proposal_height : BaseProposal M Transaction → BaseHeight
  proposal_height p = p.height

  unfoldable proposal_round : BaseProposal M Transaction → M.Round
  proposal_round p = p.round

  unfoldable proposal_value : BaseProposal M Transaction → BaseValue Transaction
  proposal_value p = p.value

  unfoldable take_proposal_value : BaseProposal M Transaction → BaseValue Transaction
  take_proposal_value p = p.value

  unfoldable proposal_validator_address : BaseProposal M Transaction → BasePeerAddress
  proposal_validator_address p = p.proposer

module _ (M : Malachite) where
  -- What the library reads off a vote.
  abbrev Reads :
      BaseVote M
      → VoteType
      → BaseHeight
      → M.Round
      → M.NilOrVal
      → BasePeerAddress
      → Option M.SignedExtension
      → Type 0
  Reads v type height round value address extension =
      (vote_type_of v ≡ type)
      × (vote_height v ≡ height)
      × (vote_round v ≡ round)
      × (vote_value v ≡ value)
      × (take_vote_value v ≡ value)
      × (vote_validator_address v ≡ address)
      × (vote_extension v ≡ extension)

  -- The library reads off a new vote what it was made from, and no extension; and off an extended vote
  -- the extension, and all else as before.
  new_vote-Reads :
      (height : BaseHeight) (round : M.Round) (value : M.NilOrVal) (address : BasePeerAddress)
      (extension : M.SignedExtension)
      → Reads (new_prevote M height round value address) prevote height round value address none
        × Reads
            (new_precommit M height round value address)
            precommit
            height
            round
            value
            address
            none
        × Reads
            (extend (new_precommit M height round value address) extension)
            precommit
            height
            round
            value
            address
            (some extension)
  unfolding vote_type_of vote_height vote_round vote_value take_vote_value vote_validator_address
      vote_extension new_prevote new_precommit extend
  new_vote-Reads height round value address extension = (
    (refl, refl, refl, refl, refl, refl, refl),
    (refl, refl, refl, refl, refl, refl, refl),
    (refl, refl, refl, refl, refl, refl, refl),
  )

  -- The library reads off a new proposal what it was made from, but for the round of the proof of lock,
  -- which is always nil.
  new_proposal_read :
      {Transaction : Type 0} (height : BaseHeight) (round pol : M.Round)
      (value : BaseValue Transaction) (address : BasePeerAddress)
      → let p = new_proposal M height round value pol address in
        (proposal_height {M = M} p ≡ height)
        × (proposal_round p ≡ round)
        × (proposal_value p ≡ value)
        × (take_proposal_value p ≡ value)
        × (proposal_validator_address p ≡ address)
        × (pol_round p ≡ M.nil_round)
  unfolding proposal_height proposal_round proposal_value take_proposal_value
      proposal_validator_address pol_round new_proposal
  new_proposal_read height round pol value address = (refl, refl, refl, refl, refl, refl)
