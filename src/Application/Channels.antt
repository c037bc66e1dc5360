-- ===== src/Application/Channels.antt =====
-- The channels between the peers and their surroundings, and the actions on them. The network's
-- receiver lives as long as the simulator, so a send to it never fails; a send of a decision step
-- panics once the consumer is gone.
use rem_poc.Prelude.{List, [], ◌∷◌, ◌++◌, Bool, if◌then◌else◌}
use rem_poc.Prelude.Run.{Run, ok, err, panic}
use rem_poc.Context.Malachite.{Malachite}
use rem_poc.Context.Value.{BaseValue, DecisionStep}
use rem_poc.Application.Messages.{Envelope}

pub record Channels (M : Malachite) (Transaction : Type 0) : Type 0 where
  -- the envelopes that no peer has received yet, oldest first
  pub network : List (Envelope M Transaction)
  -- the decision steps sent, oldest first, and whether the consumer still receives
  pub decision_steps : List (DecisionStep M Transaction)
  pub consumer_alive : Bool
  -- the values to propose that wait on the channel
  pub proposals : List (BaseValue Transaction)

-- The error of a handler, `"no value"`.
pub data HandlerError : Type 0 where
  no_value : HandlerError

-- An action returns, fails or panics; what it has sent by then stays sent.
abbrev pub Action : Malachite → Type 0 → Type 0 → Type 0
Action M Transaction A = Channels M Transaction → Run HandlerError A × Channels M Transaction

-- `unwrap` of a result
abbrev pub no_error : {A : Type 0} → Run HandlerError A → Run HandlerError A
no_error (ok a) = ok a
no_error (err e) = panic
no_error panic = panic

module _ {M : Malachite} {Transaction : Type 0} where
  abbrev pub abort : {A : Type 0} → Action M Transaction A
  abort w = (panic, w)

  abbrev pub pure : {A : Type 0} → A → Action M Transaction A
  pure a w = (ok a, w)

  abbrev pub continue_with :
      {A B : Type 0} → Run HandlerError A → (A → Action M Transaction B) → Action M Transaction B
  continue_with (ok a) f w = f a w
  continue_with (err e) f w = (err e, w)
  continue_with panic f w = (panic, w)

  infixl 10 ◌>>=◌ ◌>>◌
  abbrev pub ◌>>=◌ :
      {A B : Type 0}
      → Action M Transaction A
      → (A → Action M Transaction B)
      → Action M Transaction B
  ◌>>=◌ m f w = let (r, w') = m w in continue_with r f w'

  abbrev pub ◌>>◌ :
      {A B : Type 0} → Action M Transaction A → Action M Transaction B → Action M Transaction B
  m >> n = m >>= λ _. n

  abbrev pub or_panic : {A : Type 0} → Action M Transaction A → Action M Transaction A
  or_panic m w = let (r, w') = m w in (no_error r, w')

  unfoldable pub send : Envelope M Transaction → Action M Transaction (Unit {0})
  send e w = (ok tt, record w { network = w.network ++ e ∷ [] })

  unfoldable pub announce : DecisionStep M Transaction → Action M Transaction (Unit {0})
  announce d w =
      if w.consumer_alive
      then (ok tt, record w { decision_steps = w.decision_steps ++ d ∷ [] })
      else (panic, w)

  take_value : List (BaseValue Transaction) → Action M Transaction (BaseValue Transaction)
  take_value [] w = (err no_value, w)
  take_value (v ∷ vs) w = (ok v, record w { proposals = vs })

  -- `proposal_rx.try_recv().map_err(|_| "no value")`
  unfoldable pub try_recv : Action M Transaction (BaseValue Transaction)
  unfolding take_value
  try_recv w = take_value w.proposals w
