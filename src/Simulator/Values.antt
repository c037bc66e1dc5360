-- ===== src/Simulator/Values.antt =====
-- The handlers of src/chain/application.rs put no values on the channels but those that they are given.
use rem_poc.Prelude.{[], ◌∷◌, subst, All, All-append, All-of}
use rem_poc.Context.Malachite.{Malachite}
use rem_poc.Context.Value.{BaseValue, DecisionStep, proposed, finalized}
use rem_poc.Context.Base.{BaseContext}
use rem_poc.Application.Messages.{Params, SignedConsensusMsg, Envelope, Effect}
use rem_poc.Application.Channels.{Channels}
use rem_poc.Application.Handlers.{Application, handle_effect}
use rem_poc.Application.Rule.{Permits, Publishes, handle_effect-keeps}
use rem_poc.Simulator.Library.{Brings, Passes}

module _ {M : Malachite} {Transaction : Type 0} (V : BaseValue Transaction → Type 0) where
  abbrev pub Announces : DecisionStep M Transaction → Type 0
  Announces (proposed p) = V p.value
  Announces (finalized f) = Unit

  -- The values that wait to be proposed, that are on the network and that were announced.
  pub record HasValues (w : Channels M Transaction) : Type 0 where
    pub waiting : All V w.proposals
    pub sent : All (λ (e : Envelope M Transaction). Brings V e.payload) w.network
    pub announced : All Announces w.decision_steps

  HasValues-Permits : Permits HasValues (λ d. Unit) (Brings {M = M} V) Announces
  HasValues-Permits = record {
    timeouts = λ t. tt;
    starts = λ h set. tt;
    votes = λ sv. tt;
    finals = λ f. tt;
    sends = λ e w to brings h. record {
      waiting = h.waiting;
      sent = All-append (λ e'. Brings V e'.payload) w.network (e ∷ []) h.sent (brings, tt);
      announced = h.announced;
    };
    announces = λ d w is h. record {
      waiting = h.waiting;
      sent = h.sent;
      announced = All-append Announces w.decision_steps (d ∷ []) h.announced (is, tt);
    };
    receives = λ w v vs e h.
        let all : All V (v ∷ vs) = subst (All V) e h.waiting in
        (record { waiting = all.1; sent = h.sent; announced = h.announced }, λ height r r'. all.0);
  }

  Passes-Publishes : (e : Effect M Transaction) → Passes V e → Publishes (Brings V) Announces e
  Passes-Publishes (Effect.publish (SignedConsensusMsg.proposal sp)) is = (is, is, is)
  Passes-Publishes (Effect.publish (SignedConsensusMsg.vote sv)) is = tt
  Passes-Publishes _ is = tt

  -- Handling an effect keeps the values on the channels as they are said to be, whatever the
  -- parameters, if the effect publishes no others.
  pub handle_effect-HasValues :
      (app : Application) (params : Params M Transaction) (context : BaseContext M)
      (e : Effect M Transaction) (w : Channels M Transaction)
      → Passes V e
      → HasValues w
      → HasValues (handle_effect app params context e w).1
  handle_effect-HasValues app params context e w is h =
      handle_effect-keeps HasValues (λ d. Unit) (Brings V) Announces HasValues-Permits app params
        context e w tt (All-of (λ p. tt) params.initial_validator_set.peers) (Passes-Publishes e is)
        h
