-- ===== src/Application/Publish.antt =====
-- What a published message puts on the channels.
use rem_poc.Prelude.{
  replicate, ℕ, ◌≡◌, refl, ap, ◌∙◌, inl, inr, List, [], ◌∷◌, ◌++◌, append_assoc, append-nil, true,
  length, if◌then◌else◌, if_true, ◌==◌, Bool-cases,
}
use rem_poc.Prelude.Run.{ok}
use rem_poc.Context.Malachite.{Malachite}
use rem_poc.Context.PeerSet.{BasePeer}
use rem_poc.Context.Value.{ProposedValue, DecisionStep, proposed}
use rem_poc.Context.Vote.{BaseVote, BaseProposal}
use rem_poc.Context.Signing.{PublicKey, SignedMessage}
use rem_poc.Application.Messages.{Params, SignedConsensusMsg, Input, Envelope, continue}
use rem_poc.Application.Channels.{Channels, send, announce}
use rem_poc.Application.Handlers.{Application, publish_to, publish_all, handle_publish}

module _ {M : Malachite} {Transaction : Type 0} where
  -- What the application makes known of a signed proposal.
  abbrev pub proposed_of :
      SignedMessage M (BaseProposal M Transaction) → ProposedValue M Transaction
  proposed_of sp = record {
    height = sp.message.height;
    round = sp.message.round;
    valid_round = M.nil_round;
    proposer = sp.message.proposer;
    value = sp.message.value;
    validity = M.valid;
  }

  -- A vote for each peer but the sender, in the order of the peers.
  unfoldable pub votes_to_others :
      ℕ
      → SignedMessage M (BaseVote M)
      → List (BasePeer (PublicKey M))
      → List (Envelope M Transaction)
  votes_to_others self sv [] = []
  votes_to_others self sv (p ∷ ps) =
      let rest = votes_to_others self sv ps in
      if p.id == self
      then rest
      else record { source = self; destination = p.id; payload = Input.vote sv } ∷ rest

  -- The proposal and the proposed value, to every peer, the sender included.
  unfoldable pub proposals_to_all :
      ℕ
      → SignedMessage M (BaseProposal M Transaction)
      → List (BasePeer (PublicKey M))
      → List (Envelope M Transaction)
  proposals_to_all self sp [] = []
  proposals_to_all self sp (p ∷ ps) =
      record { source = self; destination = p.id; payload = Input.proposal sp }
      ∷ record {
        source = self;
        destination = p.id;
        payload = Input.proposed_value (proposed_of sp) M.consensus_origin;
      }
      ∷ proposals_to_all self sp ps

  publish_votes :
      (app : Application) (sv : SignedMessage M (BaseVote M)) (ps : List (BasePeer (PublicKey M)))
      (w : Channels M Transaction)
      → publish_all app (SignedConsensusMsg.vote sv) ps w
        ≡ (ok tt, record w { network = w.network ++ votes_to_others app.peer_id sv ps })
  unfolding publish_all publish_to send votes_to_others
  publish_votes app sv [] w = rw append-nil
  publish_votes app sv (p ∷ ps) w = elim (Bool-cases (p.id == app.peer_id)) [
    | inl self ↦ rw self (publish_votes app sv ps w)
    | inr other ↦
        let e : Envelope M Transaction = record {
          source = app.peer_id;
          destination = p.id;
          payload = Input.vote sv;
        } in
        rw other (
          publish_votes app sv ps (record w { network = w.network ++ e ∷ [] })
          ∙ ap (λ n. (ok tt, record w { network = n })) (append_assoc w.network (e ∷ []) _))
  ]

  pub announce_alive :
      (d : DecisionStep M Transaction) (w : Channels M Transaction)
      → w.consumer_alive ≡ true
      → announce d w ≡ (ok tt, record w { decision_steps = w.decision_steps ++ d ∷ [] })
  unfolding announce
  announce_alive d w alive = if_true w.consumer_alive _ _ alive

  publish_to_proposal :
      (app : Application) (sp : SignedMessage M (BaseProposal M Transaction)) (d : ℕ)
      (w : Channels M Transaction)
      → w.consumer_alive ≡ true
      → publish_to app (SignedConsensusMsg.proposal sp) d w ≡ (
        ok tt,
        record w {
          network =
              (w.network
                ++ record { source = app.peer_id; destination = d; payload = Input.proposal sp }
                  ∷ [])
              ++ record {
                source = app.peer_id;
                destination = d;
                payload = Input.proposed_value (proposed_of sp) M.consensus_origin;
              }
                ∷ [];
          decision_steps = w.decision_steps ++ proposed (proposed_of sp) ∷ [];
        },
      )
  unfolding publish_to send
  publish_to_proposal app sp d w alive =
      rw (announce_alive (proposed (proposed_of sp)) (record w { network = _ }) alive) refl

  publish_proposals :
      (app : Application) (sp : SignedMessage M (BaseProposal M Transaction))
      (ps : List (BasePeer (PublicKey M))) (w : Channels M Transaction)
      → w.consumer_alive ≡ true
      → publish_all app (SignedConsensusMsg.proposal sp) ps w ≡ (
        ok tt,
        record w {
          network = w.network ++ proposals_to_all app.peer_id sp ps;
          decision_steps = w.decision_steps ++ replicate (length ps) (proposed (proposed_of sp));
        },
      )
  unfolding publish_all proposals_to_all
  publish_proposals app sp [] w alive = rw (append-nil, append-nil)
  publish_proposals app sp (p ∷ ps) w alive =
      let pv = proposed (proposed_of sp) in
      rw (publish_to_proposal app sp p.id w alive) (
        publish_proposals app sp ps
          (record w {
            network = (w.network ++ _ ∷ []) ++ _ ∷ [];
            decision_steps = w.decision_steps ++ pv ∷ [];
          })
          alive
        ∙ rw (append_assoc, append_assoc, append_assoc) refl)

  -- Publishing a vote puts it on the network for each peer of the validator set but the sender, in
  -- their order, and announces nothing.
  pub handle_publish_vote :
      (app : Application) (sv : SignedMessage M (BaseVote M)) (params : Params M Transaction)
      (w : Channels M Transaction)
      → handle_publish app (SignedConsensusMsg.vote sv) params w ≡ (
        ok continue,
        record w {
          network = w.network ++ votes_to_others app.peer_id sv params.initial_validator_set.peers;
        },
      )
  unfolding handle_publish
  handle_publish_vote app sv params w =
      rw (publish_votes app sv params.initial_validator_set.peers w) refl

  -- Publishing a proposal, while the consumer lives, puts it and the value on the network for every
  -- peer of the validator set, the sender included, in their order, and announces the value once for
  -- each of them.
  pub handle_publish_proposal :
      (app : Application) (sp : SignedMessage M (BaseProposal M Transaction))
      (params : Params M Transaction) (w : Channels M Transaction)
      → w.consumer_alive ≡ true
      → let peers = params.initial_validator_set.peers in
        handle_publish app (SignedConsensusMsg.proposal sp) params w ≡ (
          ok continue,
          record w {
            network = w.network ++ proposals_to_all app.peer_id sp peers;
            decision_steps =
                w.decision_steps ++ replicate (length peers) (proposed (proposed_of sp));
          },
        )
  unfolding handle_publish
  handle_publish_proposal app sp params w alive =
      rw (publish_proposals app sp params.initial_validator_set.peers w alive) refl
