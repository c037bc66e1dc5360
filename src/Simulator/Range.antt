-- ===== src/Simulator/Range.antt =====
-- The handlers of src/chain/application.rs address every envelope to a peer of the network.
use rem_poc.Prelude.{ℕ, ◌<◌, [], ◌∷◌, All, All-append}
use rem_poc.Context.Malachite.{Malachite}
use rem_poc.Context.Base.{BaseContext}
use rem_poc.Application.Messages.{Params, Envelope, Effect}
use rem_poc.Application.Channels.{Channels}
use rem_poc.Application.Handlers.{Application, handle_effect}
use rem_poc.Application.Rule.{Permits, any-Publishes, handle_effect-keeps}

module _ {M : Malachite} {Transaction : Type 0} (size : ℕ) where
  -- Each envelope on the network is for one of the `size` peers.
  abbrev pub InRange : Channels M Transaction → Type 0
  InRange w = All (λ (e : Envelope M Transaction). e.destination < size) w.network

  InRange-Permits : Permits InRange (λ d. d < size) (λ i. Unit) (λ d. Unit)
  InRange-Permits = record {
    timeouts = λ t. tt;
    starts = λ h set. tt;
    votes = λ sv. tt;
    finals = λ f. tt;
    sends = λ e w to is h. All-append (λ e'. e'.destination < size) w.network (e ∷ []) h (to, tt);
    announces = λ d w is h. h;
    receives = λ w v vs e h. (h, λ height r r'. tt);
  }

  -- The handler of a peer of the network, whose validators are peers of it too, addresses all that it
  -- sends to peers of the network, whatever the effect and however it ends.
  pub handle_effect-InRange :
      (app : Application) (params : Params M Transaction) (context : BaseContext M)
      → app.peer_id < size
      → All (λ p. p.id < size) params.initial_validator_set.peers
      → (e : Effect M Transaction) (w : Channels M Transaction) → InRange w
      → InRange (handle_effect app params context e w).1
  handle_effect-InRange app params context lt peers e w h =
      handle_effect-keeps InRange (λ d. d < size) (λ i. Unit) (λ d. Unit) InRange-Permits app params
        context e w lt peers (any-Publishes e) h
