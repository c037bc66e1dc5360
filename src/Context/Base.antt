-- ===== src/Context/Base.antt =====
-- src/chain/context.rs: the context that all peers share.
use rem_poc.Prelude.{ℕ, ◌<◌, ◌≡◌, refl, none, some, arith, get_first?, zero, suc}
use rem_poc.Prelude.Run.{Run, ok, panic, unwrap}
use rem_poc.Context.Malachite.{Malachite}
use rem_poc.Context.Height.{BaseHeight, BasePeerAddress}
use rem_poc.Context.PeerSet.{BasePeer, BasePeerSet, new_peer_set, get_by_address}
use rem_poc.Context.Value.{BaseValue}
use rem_poc.Context.Vote.{BaseVote, BaseProposal, prevote, precommit}
use rem_poc.Context.Signing.{PublicKey, BaseSigningProvider, public_key, new_signing_provider}

pub record BaseContext (M : Malachite) : Type 0 where
  pub signing_provider : BaseSigningProvider M

module _ (M : Malachite) where
  unfoldable pub new_context : ℕ → BaseContext M
  new_context random = record { signing_provider = new_signing_provider M random }

  unfoldable pub new_proposal :
      {Transaction : Type 0}
      → BaseHeight
      → M.Round
      → BaseValue Transaction
      → M.Round
      → BasePeerAddress
      → BaseProposal M Transaction
  new_proposal height round value pol_round address = record {
    height = height;
    value = value;
    proposer = address;
    round = round;
  }

  unfoldable pub new_prevote : BaseHeight → M.Round → M.NilOrVal → BasePeerAddress → BaseVote M
  new_prevote height round value_id address = record {
    vote_type = prevote;
    height = height;
    value_id = value_id;
    round = round;
    voter = address;
    extension = none;
  }

  unfoldable pub new_precommit : BaseHeight → M.Round → M.NilOrVal → BasePeerAddress → BaseVote M
  new_precommit height round value_id address = record {
    vote_type = precommit;
    height = height;
    value_id = value_id;
    round = round;
    voter = address;
    extension = none;
  }

module _ {M : Malachite} where
  unfoldable pub shared_public_key : BaseContext M → PublicKey M
  shared_public_key c = public_key c.signing_provider.private_key

  -- The same peer at every height and round: the first of the set. `expect` panics on an empty one.
  unfoldable pub select_proposer :
      BasePeerSet (PublicKey M) → BaseHeight → M.Round → Run (Unit {0}) (BasePeer (PublicKey M))
  select_proposer set height round = unwrap (get_first? set.peers)

  -- In a new peer set with any peer the proposer, at every height and in every round, is the peer
  -- with address 0, whom the set has under that address; a set of no peers panics.
  pub select_proposer_lem :
      (size : ℕ) (key : PublicKey M) (height : BaseHeight) (round : M.Round)
      → (0 < size
          → (p : BasePeer (PublicKey M)) × (select_proposer (new_peer_set size key) height round
              ≡ ok p)
            × (p.id ≡ 0)
            × (get_by_address (new_peer_set size key) 0 ≡ some p))
        × (size ≡ 0 → select_proposer (new_peer_set size key) height round ≡ panic)
  unfolding select_proposer new_peer_set get_by_address
  select_proposer_lem zero key height round = ((λ lt. absurd (omega arith)), λ e. refl)
  select_proposer_lem (suc size) key height round =
      ((λ lt. (record { id = 0; public_key = key }, refl, refl, refl)), λ e. absurd (omega arith))
