-- ===== src/Application/Outcome.antt =====
-- When the handling of an effect returns, and when it panics; it never fails with an error.
use rem_poc.Prelude.{◌≡◌, ◌≢◌, refl, ap, ◌⊎◌, inl, inr, [], true, if_false, ◌==◌, ==_iff}
use rem_poc.Prelude.Run.{Run, panic, Returns}
use rem_poc.Context.Malachite.{Malachite}
use rem_poc.Context.Base.{BaseContext}
use rem_poc.Application.Messages.{Params, SignedConsensusMsg, Effect, Resume, continue}
use rem_poc.Application.Channels.{HandlerError, no_error, Channels}
use rem_poc.Application.Handlers.{
  Application, handle_effect, handle_get_value, handle_decide, handle_schedule_timeout,
  match_effect, handle_publish,
}
use rem_poc.Application.Publish.{handle_publish_vote}
use rem_poc.Application.Results.{
  nil_or_not, is_false, unwrapped_ok, unwrapped_panic, get_value_outcome, publish_proposal_outcome,
  decide_outcome, timeout-Returns,
}

module _ {M : Malachite} {Transaction : Type 0} where
  -- What the handling of an effect needs of the channels: a value to propose, for `get_value`, and a
  -- consumer, where something is to be announced. Four effects are not implemented.
  abbrev pub Handled : Params M Transaction → Channels M Transaction → Effect M Transaction → Type 0
  Handled params w (Effect.publish (SignedConsensusMsg.proposal sp)) =
      (params.initial_validator_set.peers ≡ []) ⊎ (w.consumer_alive ≡ true)
  Handled params w (Effect.get_value h r) = w.proposals ≢ []
  Handled params w (Effect.decide certificate) = w.consumer_alive ≡ true
  Handled params w Effect.restream_value = ⊥
  Handled params w Effect.get_vote_set = ⊥
  Handled params w Effect.send_vote_set_response = ⊥
  Handled params w Effect.verify_certificate = ⊥
  Handled params w e = Unit

module _ {M : Malachite} {Transaction : Type 0} (app : Application) (params : Params M Transaction)
    (context : BaseContext M) where
  -- Returns where the condition holds, and panics where it does not.
  abbrev Decided : Type 0 → Run HandlerError (Resume M Transaction) → Type 0
  Decided P r = (P → Returns r) × (¬ P → r ≡ panic)

  publish-Decided :
      (v : SignedConsensusMsg M Transaction) (w : Channels M Transaction)
      → Decided
          (Handled params w (Effect.publish v))
          (match_effect app params context (Effect.publish v) w).0
  unfolding match_effect
  publish-Decided (SignedConsensusMsg.vote sv) w = (
    (λ h. (
      continue,
      unwrapped_ok (handle_publish app (SignedConsensusMsg.vote sv) params) w continue
          (continue, ap (λ r. r.0) (handle_publish_vote app sv params w)),
    )),
    λ h. absurd (h tt),
  )
  publish-Decided (SignedConsensusMsg.proposal sp) w = (
    (λ h. (
      continue,
      unwrapped_ok (handle_publish app (SignedConsensusMsg.proposal sp) params) w continue
          (continue, (publish_proposal_outcome app sp params w).0 h),
    )),
    λ h.
        unwrapped_panic (handle_publish app (SignedConsensusMsg.proposal sp) params) w continue
          (ap no_error ((publish_proposal_outcome app sp params w).1 h)),
  )

  match_effect-Decided :
      (e : Effect M Transaction) (w : Channels M Transaction)
      → Decided (Handled params w e) (match_effect app params context e w).0
  unfolding match_effect
  match_effect-Decided (Effect.publish v) w = publish-Decided v w
  match_effect-Decided (Effect.get_value h r) w = (
    (λ more. (
      continue,
      unwrapped_ok (handle_get_value app h r) w continue
          (continue, (get_value_outcome app h r w).1 more),
    )),
    λ fewer. unwrapped_panic (handle_get_value app h r) w continue (elim (nil_or_not w.proposals) [
      | inl e ↦ ap no_error ((get_value_outcome app h r w).0 e)
      | inr more ↦ absurd (fewer more)
    ]),
  )
  match_effect-Decided (Effect.decide certificate) w = (
    (λ alive. (
      continue,
      unwrapped_ok (handle_decide app certificate params) w continue
          (continue, (decide_outcome app certificate params w).0 alive),
    )),
    λ gone. unwrapped_panic (handle_decide app certificate params) w continue (
        ap no_error ((decide_outcome app certificate params w).1 (is_false w.consumer_alive gone))),
  )
  match_effect-Decided (Effect.schedule_timeout t) w = (
    (λ h. (
      continue,
      unwrapped_ok (handle_schedule_timeout app t) w continue (timeout-Returns app t w),
    )),
    λ h. absurd (h tt),
  )
  match_effect-Decided Effect.restream_value w = ((λ h. absurd h), λ h. refl)
  match_effect-Decided Effect.get_vote_set w = ((λ h. absurd h), λ h. refl)
  match_effect-Decided Effect.send_vote_set_response w = ((λ h. absurd h), λ h. refl)
  match_effect-Decided Effect.verify_certificate w = ((λ h. absurd h), λ h. refl)
  match_effect-Decided Effect.reset_timeouts w = ((λ h. (_, refl)), λ h. absurd (h tt))
  match_effect-Decided _ w = ((λ h. (_, refl)), λ h. absurd (h tt))

  -- Handling an effect never comes to an error. Where the parameters are those of the application's
  -- peer, it returns exactly if the effect is implemented and the channels have what it needs, and
  -- else panics; for the parameters of another peer it panics.
  pub handle_effect_decided :
      (e : Effect M Transaction) (w : Channels M Transaction)
      → (params.address ≡ app.peer_id
          → (Handled params w e → Returns (handle_effect app params context e w).0)
            × (¬ Handled params w e → (handle_effect app params context e w).0 ≡ panic))
        × (params.address ≢ app.peer_id → (handle_effect app params context e w).0 ≡ panic)
  unfolding handle_effect
  handle_effect_decided e w = (
    (λ same. rw ((==_iff params.address app.peer_id).1 same) (match_effect-Decided e w)),
    λ other.
        ap (λ (r : Run HandlerError (Resume M Transaction) × Channels M Transaction). r.0)
          (if_false (params.address == app.peer_id) _ _
            (is_false _ (λ t. other ((==_iff params.address app.peer_id).0 t)))),
  )
