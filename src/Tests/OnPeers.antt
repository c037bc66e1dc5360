-- ===== src/Tests/OnPeers.antt =====
-- Runs of the application, of the block builder and of the consumer.
use mathlib.Core.Option
use rem_poc.Prelude.{
  replicate, ℕ, ◌≡◌, ◌≢◌, ◌↔◌, refl, List, [], ◌∷◌, ◌++◌, map, Option, some, none, true, arith,
  length, get_elem?,
}
use rem_poc.Prelude.HashMap
use rem_poc.Prelude.Run.{Run, ok, err, panic, Returns}
use rem_poc.Reth.{SealedHeader}
use rem_poc.Storage.Chain.{IsChain}
use rem_poc.Context.PeerSet.{new_peer_set}
use rem_poc.Context.Value.{BaseValue, DecisionStep, proposed, finalized}
use rem_poc.Context.Vote.{BaseVote, BaseProposal, prevote}
use rem_poc.Context.Signing.{SignedMessage}
use rem_poc.Context.Base.{BaseContext}
use rem_poc.Application.Messages.{Params, SignedConsensusMsg, Effect, continue}
use rem_poc.Application.Channels.{Channels}
use rem_poc.Application.Handlers.{Application, handle_publish, handle_effect}
use rem_poc.Application.Publish.{
  proposed_of, votes_to_others, proposals_to_all, handle_publish_vote, handle_publish_proposal,
}
use rem_poc.Application.Outcome.{Handled, handle_effect_decided}
use rem_poc.Chain.{new_storage, new_storage-IsChain, build_values, build_values_ids}
use rem_poc.Chain.Consumer.{Consumer, empty_consumer, consume_step, consume}
use rem_poc.Chain.Relay.{first_proposal, finalized_heights, consume_relays}
use rem_poc.Chain.Progress.{Timely, consume_total}
use rem_poc.Tests.{simple_reth, simple_malachite, first_block}

abbrev params : Params simple_malachite ℕ
unfolding new_peer_set
params = record {
  initial_height = 0;
  initial_validator_set = new_peer_set 4 (record { key = 9 });
  address = 1;
  threshold_params = tt;
  value_payload = tt;
}

abbrev app : Application
app = record { peer_id = 1 }

abbrev channels : Channels simple_malachite ℕ
channels = record { network = []; decision_steps = []; consumer_alive = true; proposals = [] }

abbrev value_seven : BaseValue ℕ
value_seven = record { id = 7; transactions = 10 ∷ 20 ∷ [] }

abbrev signed_vote : SignedMessage simple_malachite (BaseVote simple_malachite)
signed_vote = record {
  message = record {
    vote_type = prevote;
    height = 3;
    value_id = 7;
    round = 0;
    voter = 1;
    extension = none;
  };
  signature = record { raw = [] };
}

abbrev signed_proposal : SignedMessage simple_malachite (BaseProposal simple_malachite ℕ)
signed_proposal = record {
  message = record { height = 3; value = value_seven; proposer = 1; round = 0 };
  signature = record { raw = [] };
}

handle_publish_vote_example :
    handle_publish app (SignedConsensusMsg.vote signed_vote) params channels ≡ (
      ok continue,
      record channels {
        network = [] ++ votes_to_others 1 signed_vote params.initial_validator_set.peers;
      },
    )
handle_publish_vote_example = handle_publish_vote app signed_vote params channels

handle_publish_proposal_example :
    handle_publish app (SignedConsensusMsg.proposal signed_proposal) params channels ≡ (
      ok continue,
      record channels {
        network = [] ++ proposals_to_all 1 signed_proposal params.initial_validator_set.peers;
        decision_steps =
            []
            ++ replicate
                (length (params.initial_validator_set.peers))
                (proposed (proposed_of signed_proposal));
      },
    )
handle_publish_proposal_example = handle_publish_proposal app signed_proposal params channels refl

abbrev context : BaseContext simple_malachite
context = record { signing_provider = record { private_key = record { key = 9 } } }

-- With no value to propose, the effect that asks for one panics.
handle_effect_decided_example :
    let e : Effect simple_malachite ℕ = Effect.get_value 3 0 in
    (params.address ≡ app.peer_id
      → (Handled params channels e → Returns (handle_effect app params context e channels).0)
        × (¬ Handled params channels e → (handle_effect app params context e channels).0 ≡ panic))
    × (params.address ≢ app.peer_id → (handle_effect app params context e channels).0 ≡ panic)
handle_effect_decided_example =
    handle_effect_decided app params context (Effect.get_value 3 0) channels

abbrev no_header : Run (Unit {0}) (Option SealedHeader)
no_header = err tt

new_storage-IsChain_example :
    let s = new_storage simple_reth no_header first_block in
    IsChain s s.best_block
    × ((h : SealedHeader) → no_header ≡ ok (some h) → s.best_hash ≡ h.hash)
    × (((h : SealedHeader) → ¬ (no_header ≡ ok (some h))) → s.best_hash ≡ first_block.hash)
new_storage-IsChain_example = new_storage-IsChain simple_reth no_header first_block (λ h e. cc) refl

build_values_ids_example :
    get_elem? (build_values {Transaction = ℕ} 0 ((5 ∷ []) ∷ (6 ∷ 8 ∷ []) ∷ [])) 1
    ≡ some (record { id = 1; transactions = 6 ∷ 8 ∷ [] })
build_values_ids_example =
    build_values_ids ((5 ∷ []) ∷ (6 ∷ 8 ∷ []) ∷ []) 1 (6 ∷ 8 ∷ []) (omega arith) refl

-- A value proposed twice for height 3, another for height 4, and both heights finalized by two peers.
abbrev steps : List (DecisionStep simple_malachite ℕ)
steps =
    proposed (proposed_of signed_proposal)
    ∷ proposed (proposed_of signed_proposal)
    ∷ finalized (record { peer = 1; value_id = 7; height = 3 })
    ∷ finalized (record { peer = 0; value_id = 7; height = 3 })
    ∷ []

abbrev after_steps : Consumer ℕ
after_steps = record {
  decisions = (3, value_seven) ∷ [];
  to_task = (10 ∷ 20 ∷ []) ∷ [];
  task_alive = true;
}

steps_consumed : consume empty_consumer steps ≡ ok after_steps
unfolding consume HashMap.get HashMap.insert HashMap.contains_key consume_step
steps_consumed = refl

consume_relays_example :
    map some after_steps.to_task
    ≡ map (λ h. Option.map (λ v. v.transactions) (first_proposal steps h)) (finalized_heights steps)
consume_relays_example = consume_relays after_steps steps steps_consumed

consume_total_example : Timely [] steps ↔ Returns (consume empty_consumer steps)
consume_total_example = consume_total steps
