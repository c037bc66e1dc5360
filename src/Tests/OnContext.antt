-- ===== src/Tests/OnContext.antt =====
-- Runs of the types of the context.
use rem_poc.Prelude.{u64_mod, ℕ, ◌≤◌, ◌<◌, ◌≡◌, ◌↔◌, refl, some, none}
use rem_poc.Prelude.Run.{ok, panic}
use rem_poc.Context.Display.{codes, decimal, display_peer}
use rem_poc.Context.PeerSet.{
  BasePeer, new_peer_set, count, total_voting_power, get_by_index, get_by_address, new_peer_set_lem,
}
use rem_poc.Context.Vote.{BaseVote, BaseProposal, prevote, vote_bytes, proposal_bytes}
use rem_poc.Context.Signing.{
  PublicKey, BaseSigningProvider, public_key, verify, sign_vote, sign_proposal, verify-sign_vote,
}
use rem_poc.Context.Base.{new_prevote, select_proposer, select_proposer_lem}
use rem_poc.Tests.{simple_malachite, simple_malachite-IsSound}

abbrev vote_at : ℕ → BaseVote simple_malachite
vote_at h = record {
  vote_type = prevote;
  height = h;
  value_id = 1;
  round = 0;
  voter = 2;
  extension = none;
}

abbrev key : PublicKey simple_malachite
key = record { key = 9 }

abbrev provider : BaseSigningProvider simple_malachite
provider = record { private_key = record { key = 9 } }

new_prevote_example : new_prevote simple_malachite 4 0 1 2 ≡ vote_at 4
unfolding new_prevote
new_prevote_example = refl

new_peer_set_lem_example :
    let set = new_peer_set 4 key in
    (count set ≡ 4)
    × (total_voting_power set ≡ 4)
    × ((a : ℕ)
        → a < 4
        → (get_by_index set a ≡ some (record { id = a; public_key = key }))
          × (get_by_address set a ≡ get_by_index set a))
    × ((a : ℕ) → 4 ≤ a → (get_by_index set a ≡ none) × (get_by_address set a ≡ none))
new_peer_set_lem_example = new_peer_set_lem 4 key

verify-sign_vote_example :
    ((v w : BaseVote simple_malachite)
      → v.height < u64_mod
      → w.height < u64_mod
      → (verify (public_key provider.private_key) (vote_bytes w) (sign_vote provider v).signature
          ≡ ok tt)
        ↔ (v.height ≡ w.height))
    × ((v w : BaseProposal simple_malachite ℕ)
        → v.value.id < u64_mod
        → w.value.id < u64_mod
        → (verify
              (public_key provider.private_key)
              (proposal_bytes w)
              (sign_proposal provider v).signature
            ≡ ok tt)
          ↔ (v.value.id ≡ w.value.id))
verify-sign_vote_example = verify-sign_vote {Transaction = ℕ} simple_malachite-IsSound provider

select_proposer_lem_example :
    (0 < 4
      → (p : BasePeer (PublicKey simple_malachite)) × (select_proposer (new_peer_set 4 key) 7 2
          ≡ ok p)
        × (p.id ≡ 0)
        × (get_by_address (new_peer_set 4 key) 0 ≡ some p))
    × (◌≡◌ {A = ℕ} 4 0 → select_proposer (new_peer_set 4 key) 7 2 ≡ panic)
select_proposer_lem_example = select_proposer_lem 4 key 7 2

-- The word stands twice, since the address that a peer prints has it too.
peer_printed :
    display_peer {PublicKey = ℕ} (record { id = 307; public_key = 1 }) ≡ codes "peer peer 307"
unfolding display_peer decimal
peer_printed = refl
