-- ===== src/Simulator/Announce/Handlers.antt =====
-- What each handler of src/chain/application.rs announces, and puts on the network.
use rem_poc.Prelude.{
  ℕ, ◌≡◌, ◌≢◌, refl, inl, inr, List, [], ◌∷◌, ◌++◌, IsIn, Bool-cases, ==_iff, replicate, length,
}
use rem_poc.Prelude.Run.{Run, ok, err, panic}
use rem_poc.Context.Malachite.{Malachite}
use rem_poc.Context.Value.{BaseValue, Decision, DecisionStep, proposed, finalized}
use rem_poc.Context.Base.{BaseContext}
use rem_poc.Chain.Announced.{proposed_heights-last, Timely-append, Timely-decided}
use rem_poc.Application.Messages.{
  Params, SignedConsensusMsg, Envelope, Effect, Resume, continue, Timeout, CommitCertificate,
}
use rem_poc.Application.Channels.{
  Channels, HandlerError, Action, pure, ◌>>◌, continue_with, or_panic, send, try_recv, no_error,
}
use rem_poc.Application.Publish.{
  proposed_of, announce_alive, handle_publish_vote, handle_publish_proposal,
}
use rem_poc.Application.Handlers.{
  Application, handle_schedule_timeout, handle_publish, handle_decide, handle_get_value,
  match_effect, handle_effect,
}
use rem_poc.Simulator.Library.{received, published, Allowed}
use rem_poc.Simulator.Announce.{
  Announced, IsAnnounced, IsAnnounced-sent, IsAnnounced-proposals, IsAnnounced-announced,
  IsAnnounced-learnt, votes-Announced, proposals-Announced, replicate-Timely, replicate-Announced,
}

module _ {M : Malachite} {Transaction : Type 0} where
  -- An action that keeps what is announced, with what it makes known.
  abbrev Announces : {A : Type 0} → List ℕ → List ℕ → Action M Transaction A → Type 0
  Announces heights more m =
      (w : Channels M Transaction) → IsAnnounced heights w → IsAnnounced (more ++ heights) (m w).1

  pub post_quiet :
      (heights : List ℕ) (e : Envelope M Transaction) (w : Channels M Transaction)
      → received e.payload ≡ []
      → IsAnnounced heights w
      → IsAnnounced heights (record w { network = w.network ++ e ∷ [] })
  post_quiet heights e w quiet is =
      IsAnnounced-sent heights w (e ∷ []) ((λ h i. absurd (rw quiet at i)), tt) is

  resumed-Announces :
      {A : Type 0} (heights more : List ℕ) (m : Action M Transaction A) (c : Resume M Transaction)
      → Announces heights more m
      → Announces heights more (or_panic m >> pure c)
  resumed-Announces {A = A} heights more m c hm w is = go (m w) (hm w is)
    where
      go :
          (x : Run HandlerError A × Channels M Transaction)
          → IsAnnounced (more ++ heights) x.1
          → IsAnnounced (more ++ heights) (continue_with (no_error x.0) (λ _. pure c) x.1).1
      go (ok a, w') h = h
      go (err e, w') h = h
      go (panic, w') h = h

  handle_schedule_timeout-Announces :
      (heights : List ℕ) (app : Application) (t : Timeout M Transaction)
      → Announces heights [] (handle_schedule_timeout app t)
  unfolding handle_schedule_timeout send
  handle_schedule_timeout-Announces heights app t w is = elim (Bool-cases (M.is_commit t.kind)) [
    | inl commit ↦ rw commit (post_quiet heights _ w refl is)
    | inr other ↦ rw other is
  ]

  handle_get_value-Announces :
      (heights : List ℕ) (app : Application) (height : ℕ) (r : M.Round)
      → Announces heights [] (handle_get_value app height r)
  unfolding handle_get_value try_recv send
  handle_get_value-Announces heights app height r w is = go w.proposals refl
    where
      go :
          (vs : List (BaseValue Transaction))
          → w.proposals ≡ vs
          → IsAnnounced heights (handle_get_value app height r w).1
      go [] e = rw e (IsAnnounced-proposals heights w [] is)
      go (v ∷ vs) e = rw e (
          post_quiet heights _ (record w { proposals = vs }) refl
            (record { alive = is.alive; knows = is.knows; sent = is.sent; timely = is.timely }))

  handle_decide-Announces :
      (heights : List ℕ) (app : Application) (c : CommitCertificate M Transaction)
      (params : Params M Transaction)
      → IsIn c.height heights
      → Announces heights [] (handle_decide app c params)
  unfolding handle_decide send
  handle_decide-Announces heights app c params allowed w is =
      let d : Decision = record { peer = app.peer_id; value_id = c.value_id; height = c.height } in
      rw (announce_alive (finalized d) w is.alive) (
        post_quiet heights _ (record w { decision_steps = w.decision_steps ++ finalized d ∷ [] })
          refl
          (IsAnnounced-announced heights w (finalized d ∷ [])
            (Timely-decided [] w.decision_steps d (inr (is.knows c.height allowed)) is.timely) is))

  handle_publish-Announces :
      (heights : List ℕ) (app : Application) (v : SignedConsensusMsg M Transaction)
      (params : Params M Transaction)
      → params.initial_validator_set.peers ≢ []
      → Announces heights (published (Effect.publish v)) (handle_publish app v params)
  handle_publish-Announces heights app (SignedConsensusMsg.vote sv) params some_peer w is =
      rw (handle_publish_vote app sv params w) (
        IsAnnounced-sent heights w _
          (votes-Announced app.peer_id sv params.initial_validator_set.peers w.decision_steps) is)
  handle_publish-Announces heights app (SignedConsensusMsg.proposal sp) params some_peer w is =
      let ps = params.initial_validator_set.peers in
      let pv = proposed_of sp in
      let ds : List (DecisionStep M Transaction) = replicate (length ps) (proposed pv) in
      let w' : Channels M Transaction = record w { decision_steps = w.decision_steps ++ ds } in
      let brought : Announced (pv.height ∷ []) w'.decision_steps = λ h i.
        proposed_heights-last w.decision_steps ds h (replicate-Announced ps pv some_peer h i) in
      let is' : IsAnnounced heights w' =
        IsAnnounced-announced heights w ds
          (Timely-append [] w.decision_steps ds (replicate-Timely (length ps) pv) is.timely) is in
      rw (handle_publish_proposal app sp params w is.alive) (
        IsAnnounced-learnt heights (pv.height ∷ []) _ brought (
          IsAnnounced-sent heights w' _
            (proposals-Announced app.peer_id sp ps w'.decision_steps brought) is'))

  match_effect-Announces :
      (heights : List ℕ) (app : Application) (params : Params M Transaction)
      (context : BaseContext M) (e : Effect M Transaction)
      → params.initial_validator_set.peers ≢ []
      → Allowed heights e
      → Announces heights (published e) (match_effect app params context e)
  unfolding match_effect
  match_effect-Announces heights app params context (Effect.schedule_timeout t) some_peer allowed w
        is =
      resumed-Announces heights [] (handle_schedule_timeout app t) continue
        (handle_schedule_timeout-Announces heights app t) w is
  match_effect-Announces heights app params context (Effect.publish v) some_peer allowed w is =
      resumed-Announces heights (published (Effect.publish v)) (handle_publish app v params)
        continue (handle_publish-Announces heights app v params some_peer) w is
  match_effect-Announces heights app params context (Effect.get_value h r) some_peer allowed w is =
      resumed-Announces heights [] (handle_get_value app h r) continue
        (handle_get_value-Announces heights app h r) w is
  match_effect-Announces heights app params context (Effect.decide c) some_peer allowed w is =
      resumed-Announces heights [] (handle_decide app c params) continue
        (handle_decide-Announces heights app c params allowed) w is
  match_effect-Announces heights app params context _ some_peer allowed w is = is

  -- While the consumer lives and all that is on the network or decided has been announced, a peer
  -- that handles an effect as the application of its own address, with at least one validator, keeps
  -- it so, if a decision is only for a height that it knows; and it then knows what it publishes.
  pub handle_effect-IsAnnounced :
      (heights : List ℕ) (app : Application) (params : Params M Transaction)
      (context : BaseContext M)
      → params.address ≡ app.peer_id
      → params.initial_validator_set.peers ≢ []
      → (e : Effect M Transaction) (w : Channels M Transaction) → Allowed heights e
      → IsAnnounced heights w
      → IsAnnounced (published e ++ heights) (handle_effect app params context e w).1
  unfolding handle_effect
  handle_effect-IsAnnounced heights app params context same some_peer e w allowed is =
      rw ((==_iff params.address app.peer_id).1 same)
        (match_effect-Announces heights app params context e some_peer allowed w is)
