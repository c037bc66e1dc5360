-- ===== src/Application/Handlers.antt =====
-- The handlers of src/chain/application.rs.
use rem_poc.Prelude.{List, [], ◌∷◌, some, true, not, if◌then◌else◌, ◌==◌}
use rem_poc.Prelude.Run.{panic}
use rem_poc.Context.Malachite.{Malachite}
use rem_poc.Context.Height.{BaseHeight, BasePeerAddress}
use rem_poc.Context.PeerSet.{BasePeer}
use rem_poc.Context.Value.{ProposedValue, proposed, finalized}
use rem_poc.Context.Signing.{PublicKey, sign_vote, sign_proposal}
use rem_poc.Context.Base.{BaseContext}
use rem_poc.Application.Messages.{
  ValidatorSet, Timeout, CommitCertificate, Params, SignedConsensusMsg, Input, Effect, Resume,
  continue, validator_set, signature_validity, signed_vote, signed_proposal,
}
use rem_poc.Application.Channels.{
  Action, pure, abort, ◌>>=◌, ◌>>◌, or_panic, send, announce, try_recv,
}

-- The application; its channels are those of the state that each action changes.
pub record Application : Type 0 where
  pub peer_id : BasePeerAddress

module _ {M : Malachite} {Transaction : Type 0} where
  -- An envelope from the application's peer to `destination`.
  abbrev pub post :
      Application → BasePeerAddress → Input M Transaction → Action M Transaction (Unit {0})
  post app destination payload =
      send (record { source = app.peer_id; destination = destination; payload = payload })

  unfoldable pub init : Application → ValidatorSet M Transaction → Action M Transaction (Unit {0})
  init app initial_validator_set = post app app.peer_id (Input.start_height 0 initial_validator_set)

  unfoldable pub handle_schedule_timeout :
      Application → Timeout M Transaction → Action M Transaction (Resume M Transaction)
  handle_schedule_timeout app t =
      if M.is_commit t.kind
      then (do post app app.peer_id (Input.timeout_elapsed t); pure continue)
      else pure continue

  -- One round of the loop of `handle_publish`, for one destination.
  unfoldable pub publish_to :
      Application
      → SignedConsensusMsg M Transaction
      → BasePeerAddress
      → Action M Transaction (Unit {0})
  publish_to app (SignedConsensusMsg.vote sv) destination =
      if not (destination == app.peer_id) then post app destination (Input.vote sv) else pure tt
  publish_to app (SignedConsensusMsg.proposal sp) destination = do
    post app destination (Input.proposal sp)
    let pv : ProposedValue M Transaction = record {
      height = sp.message.height;
      round = sp.message.round;
      valid_round = M.nil_round;
      proposer = sp.message.proposer;
      value = sp.message.value;
      validity = M.valid;
    }
    announce (proposed pv)
    post app destination (Input.proposed_value pv M.consensus_origin)

  unfoldable pub publish_all :
      Application
      → SignedConsensusMsg M Transaction
      → List (BasePeer (PublicKey M))
      → Action M Transaction (Unit {0})
  publish_all app v [] = pure tt
  publish_all app v (destination ∷ rest) = do
    publish_to app v destination.id
    publish_all app v rest

  unfoldable pub handle_publish :
      Application
      → SignedConsensusMsg M Transaction
      → Params M Transaction
      → Action M Transaction (Resume M Transaction)
  handle_publish app v peer_params = do
    publish_all app v peer_params.initial_validator_set.peers
    pure continue

  unfoldable pub handle_decide :
      Application
      → CommitCertificate M Transaction
      → Params M Transaction
      → Action M Transaction (Resume M Transaction)
  handle_decide app certificate peer_params = do
    announce (
        finalized (record {
          peer = app.peer_id;
          value_id = certificate.value_id;
          height = certificate.height;
        }))
    post app app.peer_id
        (Input.start_height (M.increment certificate.height) peer_params.initial_validator_set)
    pure continue

  unfoldable pub handle_get_value :
      Application → BaseHeight → M.Round → Action M Transaction (Resume M Transaction)
  handle_get_value app h r = do
    value ← try_recv
    post app app.peer_id
        (Input.propose (record { height = h; round = r; valid_round = M.nil_round; value = value }))
    pure continue

  -- The match of `handle_effect`: `c.resume_with(())` is `continue`. An arm that is not implemented panics.
  unfoldable pub match_effect :
      Application
      → Params M Transaction
      → BaseContext M
      → Effect M Transaction
      → Action M Transaction (Resume M Transaction)
  unfolding handle_schedule_timeout handle_publish handle_decide handle_get_value
  match_effect app params context Effect.reset_timeouts = pure continue
  match_effect app params context Effect.cancel_all_timeouts = pure continue
  match_effect app params context Effect.cancel_timeout = pure continue
  match_effect app params context Effect.start_round = pure continue
  match_effect app params context (Effect.schedule_timeout t) = do
    or_panic (handle_schedule_timeout app t)
    pure continue
  match_effect app params context (Effect.publish v) = do
    or_panic (handle_publish app v params)
    pure continue
  match_effect app params context (Effect.get_value h r) = do
    or_panic (handle_get_value app h r)
    pure continue
  match_effect app params context (Effect.get_validator_set h) =
      pure (validator_set (some params.initial_validator_set))
  match_effect app params context Effect.verify_signature = pure (signature_validity true)
  match_effect app params context (Effect.decide certificate) = do
    or_panic (handle_decide app certificate params)
    pure continue
  match_effect app params context Effect.restream_value = abort
  match_effect app params context Effect.persist_message = pure continue
  match_effect app params context Effect.persist_timeout = pure continue
  match_effect app params context (Effect.sign_vote v) =
      pure (signed_vote (sign_vote context.signing_provider v))
  match_effect app params context (Effect.sign_proposal p) =
      pure (signed_proposal (sign_proposal context.signing_provider p))
  match_effect app params context Effect.get_vote_set = abort
  match_effect app params context Effect.send_vote_set_response = abort
  match_effect app params context Effect.verify_certificate = abort

  -- The assertion on the address comes first.
  unfoldable pub handle_effect :
      Application
      → Params M Transaction
      → BaseContext M
      → Effect M Transaction
      → Action M Transaction (Resume M Transaction)
  unfolding match_effect
  handle_effect app params context effect w =
      if params.address == app.peer_id then match_effect app params context effect w else (panic, w)
