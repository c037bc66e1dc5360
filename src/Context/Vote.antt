-- ===== src/Context/Vote.antt =====
-- src/chain/context/vote.rs and src/chain/context/proposals.rs: what the peers sign and send.
use rem_poc.Prelude.{
  ℕ, ◌+◌, ◌*◌, ◌/◌, ◌%◌, ◌^◌, ◌<◌, ◌≡◌, List, [], ◌∷◌, Option, some, arith, u64_mod,
}
use rem_poc.Context.Height.{BaseHeight, BasePeerAddress}
use rem_poc.Context.Malachite.{Malachite}
use rem_poc.Context.Value.{BaseValue}

pub data VoteType : Type 0 where
  prevote precommit : VoteType

pub record BaseVote (M : Malachite) : Type 0 where
  pub vote_type : VoteType
  pub height : BaseHeight
  pub value_id : M.NilOrVal
  pub round : M.Round
  pub voter : BasePeerAddress
  pub extension : Option M.SignedExtension

pub record BaseProposal (M : Malachite) (Transaction : Type 0) : Type 0 where
  pub height : BaseHeight
  pub value : BaseValue Transaction
  pub proposer : BasePeerAddress
  pub round : M.Round

-- A part of a proposal, which has its height alone.
pub record BaseProposalPart : Type 0 where
  pub height : BaseHeight

-- `u64::to_be_bytes`
unfoldable pub to_be_bytes : ℕ → List ℕ
to_be_bytes n =
    (n / 2 ^ 56) % 256
    ∷ (n / 2 ^ 48) % 256
    ∷ (n / 2 ^ 40) % 256
    ∷ (n / 2 ^ 32) % 256
    ∷ (n / 2 ^ 24) % 256
    ∷ (n / 2 ^ 16) % 256
    ∷ (n / 2 ^ 8) % 256
    ∷ n % 256
    ∷ []

-- The number that a list of bytes stands for, the first byte the highest, from `acc`.
pub of_be_bytes : ℕ → List ℕ → ℕ
of_be_bytes acc [] = acc
of_be_bytes acc (b ∷ bs) = of_be_bytes (acc * 256 + b) bs

pub of_be_bytes-to_be_bytes : (n : ℕ) → n < u64_mod → of_be_bytes 0 (to_be_bytes n) ≡ n
unfolding to_be_bytes of_be_bytes
of_be_bytes-to_be_bytes n h = omega arith

module _ {M : Malachite} where
  -- The payload to sign of a vote is its height alone.
  unfoldable pub vote_bytes : BaseVote M → List ℕ
  unfolding to_be_bytes
  vote_bytes v = to_be_bytes v.height

  unfoldable pub extend : BaseVote M → M.SignedExtension → BaseVote M
  extend v extension = record v { extension = some extension }

module _ {M : Malachite} {Transaction : Type 0} where
  -- The payload to sign of a proposal is the id of its value alone.
  unfoldable pub proposal_bytes : BaseProposal M Transaction → List ℕ
  unfolding to_be_bytes
  proposal_bytes p = to_be_bytes p.value.id

  -- The round that a proposal's proof of lock is of: always nil.
  unfoldable pub pol_round : BaseProposal M Transaction → M.Round
  pol_round p = M.nil_round
