-- ===== src/Application/Rule.antt =====
-- A rule for what the handlers of src/chain/application.rs keep of the channels: a property that each send
-- to a peer that may be written to, each announcement and each receipt of a value keeps.
use rem_poc.Prelude.{
  ℕ, ◌≡◌, refl, List, [], ◌∷◌, ◌++◌, Bool, true, false, Bool-cases, inl, inr, ◌==◌, All,
}
use rem_poc.Prelude.Run.{Run, ok, err, panic}
use rem_poc.Context.Malachite.{Malachite}
use rem_poc.Context.PeerSet.{BasePeer, BasePeerSet}
use rem_poc.Context.Value.{BaseValue, DecisionStep, Decision, proposed, finalized}
use rem_poc.Context.Vote.{BaseVote}
use rem_poc.Context.Signing.{PublicKey, SignedMessage}
use rem_poc.Context.Base.{BaseContext}
use rem_poc.Application.Messages.{
  Params, SignedConsensusMsg, Envelope, Input, Effect, Resume, continue, Timeout, CommitCertificate,
}
use rem_poc.Application.Channels.{
  Channels, HandlerError, Action, pure, continue_with, ◌>>=◌, ◌>>◌, or_panic, send, announce,
  try_recv,
}
use rem_poc.Application.Publish.{proposed_of}
use rem_poc.Application.Handlers.{
  Application, handle_schedule_timeout, publish_to, publish_all, handle_publish, handle_decide,
  handle_get_value, match_effect, handle_effect,
}

module _ {M : Malachite} {Transaction : Type 0} (P : Channels M Transaction → Type 0)
    (To : ℕ → Type 0) (B : Input M Transaction → Type 0)
    (D : DecisionStep M Transaction → Type 0) where
  -- Each send of an input that is as `B` says, to a peer that is as `To` says, keeps `P`, each announcement
  -- that is as `D` says, and each receipt of a value; and what the handlers send and announce by
  -- themselves is so.
  pub record Permits : Type 0 where
    pub timeouts : (t : Timeout M Transaction) → B (Input.timeout_elapsed t)
    pub starts : (h : ℕ) (set : BasePeerSet (PublicKey M)) → B (Input.start_height h set)
    pub votes : (sv : SignedMessage M (BaseVote M)) → B (Input.vote sv)
    pub finals : (f : Decision) → D (finalized f)
    pub sends :
        (e : Envelope M Transaction) (w : Channels M Transaction)
        → To e.destination
        → B e.payload
        → P w
        → P (record w { network = w.network ++ e ∷ [] })
    pub announces :
        (d : DecisionStep M Transaction) (w : Channels M Transaction)
        → D d
        → P w
        → P (record w { decision_steps = w.decision_steps ++ d ∷ [] })
    pub receives :
        (w : Channels M Transaction) (v : BaseValue Transaction) (vs : List (BaseValue Transaction))
        → w.proposals ≡ v ∷ vs
        → P w
        → P (record w { proposals = vs })
          × ((h : ℕ) (r r' : M.Round)
              → B (Input.propose (record { height = h; round = r; valid_round = r'; value = v })))

module _ {M : Malachite} {Transaction : Type 0} (B : Input M Transaction → Type 0)
    (D : DecisionStep M Transaction → Type 0) where
  -- What an effect publishes may be sent and announced.
  abbrev pub Publishes : Effect M Transaction → Type 0
  Publishes (Effect.publish (SignedConsensusMsg.proposal sp)) =
      B (Input.proposal sp)
      × D (proposed (proposed_of sp))
      × B (Input.proposed_value (proposed_of sp) M.consensus_origin)
  Publishes _ = Unit

module _ {M : Malachite} {Transaction : Type 0} where
  pub any-Publishes : (e : Effect M Transaction) → Publishes (λ input. Unit {0}) (λ d. Unit {0}) e
  any-Publishes (Effect.publish (SignedConsensusMsg.proposal sp)) = (tt, tt, tt)
  any-Publishes (Effect.publish (SignedConsensusMsg.vote sv)) = tt
  any-Publishes _ = tt

module _ {M : Malachite} {Transaction : Type 0} (P : Channels M Transaction → Type 0)
    (To : ℕ → Type 0) (B : Input M Transaction → Type 0) (D : DecisionStep M Transaction → Type 0)
    (permits : Permits P To B D) where
  record Keeps {A : Type 0} (m : Action M Transaction A) : Type 0 where
    pub keeps : (w : Channels M Transaction) → P w → P (m w).1

  bind-Keeps :
      {A B : Type 0} (m : Action M Transaction A) (f : A → Action M Transaction B)
      → Keeps m
      → ((a : A) → Keeps (f a))
      → Keeps (m >>= f)
  bind-Keeps {A} {B} m f hm hf = record { keeps = λ w h. go (m w) (hm.keeps w h) }
    where
      go : (x : Run HandlerError A × Channels M Transaction) → P x.1 → P (continue_with x.0 f x.1).1
      go (ok a, w') h' = (hf a).keeps w' h'
      go (err e, w') h' = h'
      go (panic, w') h' = h'

  pure-Keeps : {A : Type 0} (a : A) → Keeps (pure a)
  pure-Keeps a = record { keeps = λ w h. h }

  send-Keeps : (e : Envelope M Transaction) → To e.destination → B e.payload → Keeps (send e)
  unfolding send
  send-Keeps e to is = record { keeps = λ w h. permits.sends e w to is h }

  announce-Keeps : (d : DecisionStep M Transaction) → D d → Keeps (announce d)
  unfolding announce
  announce-Keeps d is = record { keeps = λ w h. go w w.consumer_alive h }
    where
      go :
          (w : Channels M Transaction) (alive : Bool)
          → P (record w { consumer_alive = alive })
          → P (announce d (record w { consumer_alive = alive })).1
      go w true h = permits.announces d (record w { consumer_alive = true }) is h
      go w false h = h

  publish_to-Keeps :
      (app : Application) (v : SignedConsensusMsg M Transaction) (d : ℕ)
      → To d
      → Publishes B D (Effect.publish v)
      → Keeps (publish_to app v d)
  unfolding publish_to
  publish_to-Keeps app (SignedConsensusMsg.vote sv) d to is = elim (Bool-cases (d == app.peer_id)) [
    | inl self ↦ rw self (pure-Keeps tt)
    | inr other ↦ rw other (send-Keeps _ to (permits.votes sv))
  ]
  publish_to-Keeps app (SignedConsensusMsg.proposal sp) d to is =
      bind-Keeps (send _) _ (send-Keeps _ to is.0)
        (λ _. bind-Keeps (announce _) _ (announce-Keeps _ is.1) (λ _. send-Keeps _ to is.2))

  publish_all-Keeps :
      (app : Application) (v : SignedConsensusMsg M Transaction)
      (ps : List (BasePeer (PublicKey M)))
      → All (λ p. To p.id) ps
      → Publishes B D (Effect.publish v)
      → Keeps (publish_all app v ps)
  unfolding publish_all
  publish_all-Keeps app v [] to is = pure-Keeps tt
  publish_all-Keeps app v (p ∷ ps) to is =
      bind-Keeps (publish_to app v p.id) _ (publish_to-Keeps app v p.id to.0 is)
        (λ _. publish_all-Keeps app v ps to.1 is)

  handle_schedule_timeout-Keeps :
      (app : Application) (t : Timeout M Transaction)
      → To app.peer_id
      → Keeps (handle_schedule_timeout app t)
  unfolding handle_schedule_timeout
  handle_schedule_timeout-Keeps app t to = elim (Bool-cases (M.is_commit t.kind)) [
    | inl commit ↦ rw commit (
        bind-Keeps (send _) (λ _. pure _) (send-Keeps _ to (permits.timeouts t))
          (λ _. pure-Keeps _))
    | inr other ↦ rw other (pure-Keeps _)
  ]

  handle_decide-Keeps :
      (app : Application) (c : CommitCertificate M Transaction) (params : Params M Transaction)
      → To app.peer_id
      → Keeps (handle_decide app c params)
  unfolding handle_decide
  handle_decide-Keeps app c params to =
      bind-Keeps (announce _) _ (announce-Keeps _ (permits.finals _)) (λ _.
        bind-Keeps (send _) (λ _. pure _) (send-Keeps _ to (permits.starts _ _))
          (λ _. pure-Keeps _))

  handle_get_value-Keeps :
      (app : Application) (height : ℕ) (r : M.Round)
      → To app.peer_id
      → Keeps (handle_get_value app height r)
  unfolding handle_get_value try_recv send
  handle_get_value-Keeps app height r to = record { keeps = λ w h. go w w.proposals h }
    where
      go :
          (w : Channels M Transaction) (vs : List (BaseValue Transaction))
          → P (record w { proposals = vs })
          → P (handle_get_value app height r (record w { proposals = vs })).1
      go w [] h = h
      go w (v ∷ vs) h =
          let (kept, is) = permits.receives (record w { proposals = v ∷ vs }) v vs refl h in
          permits.sends _ (record w { proposals = vs }) to (is height r M.nil_round) kept

  resumed-Keeps :
      {A : Type 0} (m : Action M Transaction A) (c : Resume M Transaction)
      → Keeps m
      → Keeps (or_panic m >> pure c)
  resumed-Keeps m c hm =
      bind-Keeps (or_panic m) (λ _. pure c) (record { keeps = hm.keeps }) (λ _. pure-Keeps c)

  match_effect-Keeps :
      (app : Application) (params : Params M Transaction) (context : BaseContext M)
      (e : Effect M Transaction)
      → To app.peer_id
      → All (λ p. To p.id) params.initial_validator_set.peers
      → Publishes B D e
      → Keeps (match_effect app params context e)
  unfolding match_effect handle_publish
  match_effect-Keeps app params context (Effect.schedule_timeout t) to peers is =
      resumed-Keeps (handle_schedule_timeout app t) continue
        (handle_schedule_timeout-Keeps app t to)
  match_effect-Keeps app params context (Effect.publish v) to peers is =
      resumed-Keeps (handle_publish app v params) continue (
        bind-Keeps (publish_all app v params.initial_validator_set.peers) (λ _. pure continue)
          (publish_all-Keeps app v params.initial_validator_set.peers peers is)
          (λ _. pure-Keeps continue))
  match_effect-Keeps app params context (Effect.get_value h r) to peers is =
      resumed-Keeps (handle_get_value app h r) continue (handle_get_value-Keeps app h r to)
  match_effect-Keeps app params context (Effect.decide c) to peers is =
      resumed-Keeps (handle_decide app c params) continue (handle_decide-Keeps app c params to)
  match_effect-Keeps app params context _ to peers is = record { keeps = λ w h. h }

  -- Handling an effect keeps the property, if what the effect publishes may be sent and announced, and
  -- the application and its validators may be written to.
  pub handle_effect-keeps :
      (app : Application) (params : Params M Transaction) (context : BaseContext M)
      (e : Effect M Transaction) (w : Channels M Transaction)
      → To app.peer_id
      → All (λ p. To p.id) params.initial_validator_set.peers
      → Publishes B D e
      → P w
      → P (handle_effect app params context e w).1
  unfolding handle_effect
  handle_effect-keeps app params context e w to peers is h =
      elim (Bool-cases (params.address == app.peer_id)) [
        | inl same ↦ rw same ((match_effect-Keeps app params context e to peers is).keeps w h)
        | inr other ↦ rw other h
      ]
