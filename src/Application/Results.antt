-- ===== src/Application/Results.antt =====
-- What each handler of src/chain/application.rs comes to.
use rem_poc.Prelude.{
  Bool, ℕ, ◌≡◌, ◌≢◌, refl, ap, ◌⊎◌, inl, inr, List, [], ◌∷◌, true, false, if_false, Bool-cases,
}
use rem_poc.Prelude.Run.{ok, err, panic, Returns}
use rem_poc.Context.Malachite.{Malachite}
use rem_poc.Context.PeerSet.{BasePeer}
use rem_poc.Context.Value.{BaseValue, DecisionStep, proposed, finalized}
use rem_poc.Context.Vote.{BaseProposal}
use rem_poc.Context.Signing.{PublicKey, SignedMessage}
use rem_poc.Application.Messages.{
  Params, SignedConsensusMsg, Resume, continue, CommitCertificate, Timeout,
}
use rem_poc.Application.Channels.{
  no_value, no_error, Action, pure, or_panic, ◌>>◌, Channels, send, announce, try_recv,
}
use rem_poc.Application.Handlers.{
  Application, handle_get_value, handle_decide, handle_schedule_timeout, handle_publish,
  publish_all, publish_to,
}
use rem_poc.Application.Publish.{handle_publish_proposal, announce_alive}

pub nil_or_not {ℓ} : {A : Type ℓ} (l : List A) → (l ≡ []) ⊎ (l ≢ [])
nil_or_not [] = inl refl
nil_or_not (x ∷ xs) = inr (λ e. cc)

pub is_false : (b : Bool) → ¬ (b ≡ true) → b ≡ false
is_false true h = absurd (h refl)
is_false false h = refl

module _ {M : Malachite} {Transaction : Type 0} where
  -- What the match makes of a handler's result.
  pub unwrapped_ok :
      (m : Action M Transaction (Resume M Transaction)) (w : Channels M Transaction)
      (c : Resume M Transaction)
      → Returns (m w).0
      → ((or_panic m >> pure c) w).0 ≡ ok c
  unwrapped_ok m w c (a, e) = rw e refl

  pub unwrapped_panic :
      (m : Action M Transaction (Resume M Transaction)) (w : Channels M Transaction)
      (c : Resume M Transaction)
      → no_error (m w).0 ≡ panic
      → ((or_panic m >> pure c) w).0 ≡ panic
  unwrapped_panic m w c e = rw e refl

  publish_nowhere :
      (app : Application) (v : SignedConsensusMsg M Transaction)
      (ps : List (BasePeer (PublicKey M))) (w : Channels M Transaction)
      → ps ≡ []
      → publish_all app v ps w ≡ (ok tt, w)
  unfolding publish_all
  publish_nowhere app v [] w e = refl
  publish_nowhere app v (p ∷ ps) w e = cc

  announce_fails :
      (d : DecisionStep M Transaction) (w : Channels M Transaction)
      → w.consumer_alive ≡ false
      → announce d w ≡ (panic, w)
  unfolding announce
  announce_fails d w gone = if_false w.consumer_alive _ _ gone

  publish_fails :
      (app : Application) (sp : SignedMessage M (BaseProposal M Transaction))
      (p : BasePeer (PublicKey M)) (ps : List (BasePeer (PublicKey M))) (w : Channels M Transaction)
      → w.consumer_alive ≡ false
      → (publish_all app (SignedConsensusMsg.proposal sp) (p ∷ ps) w).0 ≡ panic
  unfolding publish_all publish_to send
  publish_fails app sp p ps w gone =
      rw (announce_fails (proposed _) (record w { network = _ }) gone) refl

  pub get_value_outcome :
      (app : Application) (h : ℕ) (r : M.Round) (w : Channels M Transaction)
      → (w.proposals ≡ [] → (handle_get_value app h r w).0 ≡ err no_value)
        × (w.proposals ≢ [] → (handle_get_value app h r w).0 ≡ ok continue)
  unfolding handle_get_value try_recv send
  get_value_outcome app h r w = go w.proposals refl
    where
      go :
          (vs : List (BaseValue Transaction))
          → w.proposals ≡ vs
          → (w.proposals ≡ [] → (handle_get_value app h r w).0 ≡ err no_value)
            × (w.proposals ≢ [] → (handle_get_value app h r w).0 ≡ ok continue)
      go [] e = ((λ _. rw e refl), λ more. absurd (more e))
      go (v ∷ vs) e = ((λ none_left. cc), λ _. rw e refl)

  pub publish_proposal_outcome :
      (app : Application) (sp : SignedMessage M (BaseProposal M Transaction))
      (params : Params M Transaction) (w : Channels M Transaction)
      → let peers = params.initial_validator_set.peers in
        let r = (handle_publish app (SignedConsensusMsg.proposal sp) params w).0 in
        ((peers ≡ []) ⊎ (w.consumer_alive ≡ true) → r ≡ ok continue)
        × (¬ ((peers ≡ []) ⊎ (w.consumer_alive ≡ true)) → r ≡ panic)
  publish_proposal_outcome app sp params w = elim (Bool-cases w.consumer_alive) [
    | inl alive ↦ (
      (λ h. ap (λ r. r.0) (handle_publish_proposal app sp params w alive)),
      λ h. absurd (h (inr alive)),
    )
    | inr gone ↦ go params.initial_validator_set.peers refl gone
  ]
    where
      go :
          (ps : List (BasePeer (PublicKey M)))
          → params.initial_validator_set.peers ≡ ps
          → w.consumer_alive ≡ false
          → let r = (handle_publish app (SignedConsensusMsg.proposal sp) params w).0 in
            ((params.initial_validator_set.peers ≡ []) ⊎ (w.consumer_alive ≡ true)
              → r ≡ ok continue)
            × (¬ ((params.initial_validator_set.peers ≡ []) ⊎ (w.consumer_alive ≡ true))
                → r ≡ panic)
      go [] e gone =
          unfold handle_publish in
          (
            (λ h.
                rw
                  (publish_nowhere app (SignedConsensusMsg.proposal sp)
                    params.initial_validator_set.peers w e)
                  refl),
            λ h. absurd (h (inl e)),
          )
      go (p ∷ ps) e gone =
          unfold handle_publish in
          (
            (λ h. elim h [ inl none_left ↦ cc | inr alive ↦ cc ]),
            λ h. rw (e, publish_fails app sp p ps w gone) refl,
          )

  pub decide_outcome :
      (app : Application) (c : CommitCertificate M Transaction) (params : Params M Transaction)
      (w : Channels M Transaction)
      → (w.consumer_alive ≡ true → (handle_decide app c params w).0 ≡ ok continue)
        × (w.consumer_alive ≡ false → (handle_decide app c params w).0 ≡ panic)
  unfolding handle_decide send
  decide_outcome app c params w = (
    (λ alive. rw (announce_alive (finalized _) w alive) refl),
    λ gone. rw (announce_fails (finalized _) w gone) refl,
  )

  pub timeout-Returns :
      (app : Application) (t : Timeout M Transaction) (w : Channels M Transaction)
      → Returns (handle_schedule_timeout app t w).0
  unfolding handle_schedule_timeout send
  timeout-Returns app t w = elim (Bool-cases (M.is_commit t.kind)) [
    | inl commit ↦ (continue, rw commit refl)
    | inr other ↦ (continue, rw other refl)
  ]
