-- ===== src/Simulator/Announce.antt =====
-- What the handlers of src/chain/application.rs announce: a value for each proposal that they put on
-- the network, before it, and decisions.
pub mod Handlers
use rem_poc.Prelude.{
  ℕ, ◌≡◌, ◌≢◌, refl, inl, inr, List, [], ◌∷◌, ◌++◌, true, All, All-append, IsIn, IsIn-append, zero,
  suc, Bool-cases, ◌==◌, ==_iff, replicate, length,
}
use rem_poc.Prelude.Run.{Run, ok, err, panic}
use rem_poc.Context.Malachite.{Malachite}
use rem_poc.Context.PeerSet.{BasePeer}
use rem_poc.Context.Value.{BaseValue, Decision, ProposedValue, DecisionStep, proposed, finalized}
use rem_poc.Context.Vote.{BaseVote, BaseProposal}
use rem_poc.Context.Signing.{PublicKey, SignedMessage}
use rem_poc.Context.Base.{BaseContext}
use rem_poc.Chain.Progress.{Timely}
use rem_poc.Chain.Announced.{
  proposed_heights, proposed_heights-append, proposed_heights-last, Timely-append, Timely-decided,
}
use rem_poc.Application.Messages.{
  Params, SignedConsensusMsg, Envelope, Effect, Resume, continue, Timeout, CommitCertificate,
}
use rem_poc.Application.Channels.{
  Channels, HandlerError, Action, pure, ◌>>◌, continue_with, or_panic, send, try_recv, no_error,
}
use rem_poc.Application.Publish.{
  proposed_of, votes_to_others, proposals_to_all, announce_alive, handle_publish_vote,
  handle_publish_proposal,
}
use rem_poc.Application.Handlers.{
  Application, handle_schedule_timeout, handle_publish, handle_decide, handle_get_value,
  match_effect, handle_effect,
}
use rem_poc.Simulator.Library.{received, published, Allowed}

module _ {M : Malachite} {Transaction : Type 0} where
  -- The heights of the list have values among the decision steps.
  abbrev pub Announced : List ℕ → List (DecisionStep M Transaction) → Type 0
  Announced heights ds = (h : ℕ) → IsIn h heights → IsIn h (proposed_heights ds)

  -- The values that the envelopes bring have been announced.
  abbrev pub Sent : List (DecisionStep M Transaction) → List (Envelope M Transaction) → Type 0
  Sent ds es = All (λ (e : Envelope M Transaction). Announced (received e.payload) ds) es

  -- The consumer lives; the heights that a peer knows, and those of the values on the network, have
  -- been announced; and so had each height that was decided, before it.
  pub record IsAnnounced (heights : List ℕ) (w : Channels M Transaction) : Type 0 where
    pub alive : w.consumer_alive ≡ true
    pub knows : Announced heights w.decision_steps
    pub sent :
        All
          (λ (e : Envelope M Transaction). Announced (received e.payload) w.decision_steps)
          w.network
    pub timely : Timely [] w.decision_steps

  All-Announced :
      (es : List (Envelope M Transaction)) (ds ds' : List (DecisionStep M Transaction))
      → Sent ds es
      → Sent (ds ++ ds') es
  All-Announced [] ds ds' h = tt
  All-Announced (e ∷ es) ds ds' h =
      ((λ n i. proposed_heights-append ds ds' n (h.0 n i)), All-Announced es ds ds' h.1)

  pub IsAnnounced-sent :
      (heights : List ℕ) (w : Channels M Transaction) (es : List (Envelope M Transaction))
      → Sent w.decision_steps es
      → IsAnnounced heights w
      → IsAnnounced heights (record w { network = w.network ++ es })
  IsAnnounced-sent heights w es new is = record {
    alive = is.alive;
    knows = is.knows;
    sent = All-append _ w.network es is.sent new;
    timely = is.timely;
  }

  pub IsAnnounced-proposals :
      (heights : List ℕ) (w : Channels M Transaction) (vs : List (BaseValue Transaction))
      → IsAnnounced heights w
      → IsAnnounced heights (record w { proposals = vs })
  IsAnnounced-proposals heights w vs is = record {
    alive = is.alive;
    knows = is.knows;
    sent = is.sent;
    timely = is.timely;
  }

  pub IsAnnounced-announced :
      (heights : List ℕ) (w : Channels M Transaction) (ds : List (DecisionStep M Transaction))
      → Timely [] (w.decision_steps ++ ds)
      → IsAnnounced heights w
      → IsAnnounced heights (record w { decision_steps = w.decision_steps ++ ds })
  IsAnnounced-announced heights w ds timely is = record {
    alive = is.alive;
    knows = λ h i. proposed_heights-append w.decision_steps ds h (is.knows h i);
    sent = All-Announced w.network w.decision_steps ds is.sent;
    timely = timely;
  }

  pub Announced-append :
      (heights others : List ℕ) (ds : List (DecisionStep M Transaction))
      → Announced heights ds
      → Announced others ds
      → Announced (heights ++ others) ds
  Announced-append heights others ds here there h i = elim (IsIn-append h heights others i) [
    | inl left ↦ here h left
    | inr right ↦ there h right
  ]

  -- A peer that knows other heights, which have been announced.
  pub IsAnnounced-known :
      (heights others : List ℕ) (w : Channels M Transaction)
      → Announced others w.decision_steps
      → IsAnnounced heights w
      → IsAnnounced others w
  IsAnnounced-known heights others w knows is = record {
    alive = is.alive;
    knows = knows;
    sent = is.sent;
    timely = is.timely;
  }

  pub IsAnnounced-learnt :
      (heights more : List ℕ) (w : Channels M Transaction)
      → Announced more w.decision_steps
      → IsAnnounced heights w
      → IsAnnounced (more ++ heights) w
  IsAnnounced-learnt heights more w new is =
      IsAnnounced-known heights (more ++ heights) w
        (Announced-append more heights w.decision_steps new is.knows) is

  -- What the publication of a message puts on the network.
  pub votes-Announced :
      (self : ℕ) (sv : SignedMessage M (BaseVote M)) (ps : List (BasePeer (PublicKey M)))
      (ds : List (DecisionStep M Transaction))
      → Sent ds (votes_to_others self sv ps)
  unfolding votes_to_others
  votes-Announced self sv [] ds = tt
  votes-Announced self sv (p ∷ ps) ds = elim (Bool-cases (p.id == self)) [
    | inl same ↦ rw same (votes-Announced self sv ps ds)
    | inr other ↦ rw other ((λ h i. absurd i), votes-Announced self sv ps ds)
  ]

  pub proposals-Announced :
      (self : ℕ) (sp : SignedMessage M (BaseProposal M Transaction))
      (ps : List (BasePeer (PublicKey M))) (ds : List (DecisionStep M Transaction))
      → Announced (sp.message.height ∷ []) ds
      → Sent ds (proposals_to_all self sp ps)
  unfolding proposals_to_all
  proposals-Announced self sp [] ds is = tt
  proposals-Announced self sp (p ∷ ps) ds is = (is, (is, proposals-Announced self sp ps ds is))

  pub replicate-Timely :
      (n : ℕ) (pv : ProposedValue M Transaction) (seen : List ℕ)
      → Timely seen (replicate n (proposed pv))
  replicate-Timely zero pv seen = tt
  replicate-Timely (suc n) pv seen = replicate-Timely n pv (pv.height ∷ seen)

  pub replicate-Announced :
      (ps : List (BasePeer (PublicKey M))) (pv : ProposedValue M Transaction)
      → ps ≢ []
      → Announced (pv.height ∷ []) (replicate (length ps) (proposed pv))
  replicate-Announced [] pv some_peer h i = absurd (some_peer refl)
  replicate-Announced (p ∷ ps) pv some_peer h (inl here) = inl here
  replicate-Announced (p ∷ ps) pv some_peer h (inr none_left) = absurd none_left
