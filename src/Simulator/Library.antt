-- ===== src/Simulator/Library.antt =====
-- The consensus library that the simulator drives, a parameter: `process` is the macro `process!`,
-- which runs the library on one input and calls the handler for each effect.
use rem_poc.Prelude.{ℕ, ◌≡◌, List, [], ◌∷◌, ◌++◌, IsIn}
use rem_poc.Prelude.Run.{Run}
use rem_poc.Context.Malachite.{Malachite}
use rem_poc.Context.Value.{BaseValue}
use rem_poc.Context.Base.{BaseContext}
use rem_poc.Application.Messages.{Params, SignedConsensusMsg, Input, Effect, Resume}
use rem_poc.Application.Channels.{Channels, Action}

pub record Consensus (M : Malachite) (Transaction : Type 0) : Type 1 where
  pub State : Type 0
  pub Metrics : Type 0
  pub Error : Type 0
  pub new_metrics : Metrics
  pub new_state : BaseContext M → Params M Transaction → State
  pub params : State → Params M Transaction
  pub ctx : State → BaseContext M
  pub process :
      (Effect M Transaction → Action M Transaction (Resume M Transaction))
      → Input M Transaction
      → State
      → Metrics
      → Channels M Transaction
      → Run Error (Unit {0}) × State × Channels M Transaction

-- What the program relies on: a state keeps the context and the parameters that it is made with, and
-- the library touches the channels through the handler alone, so that a property of the channels
-- that the handler keeps at each effect is kept.
pub record IsLawful {M : Malachite} {Transaction : Type 0} (C : Consensus M Transaction)
    : Type 1 where
  pub params-new_state :
      (c : BaseContext M) (p : Params M Transaction) → C.params (C.new_state c p) ≡ p
  pub process_keeps :
      (P : Channels M Transaction → Type 0)
      (handler : Effect M Transaction → Action M Transaction (Resume M Transaction))
      → ((e : Effect M Transaction) (w : Channels M Transaction) → P w → P (handler e w).1)
      → (input : Input M Transaction) (s : C.State) (m : C.Metrics) (w : Channels M Transaction)
      → P w
      → P (C.process handler input s m w).2

module _ {M : Malachite} {Transaction : Type 0} where
  -- The heights of the values that an input brings, and of the proposals that an effect publishes.
  abbrev pub received : Input M Transaction → List ℕ
  received (Input.proposal sp) = sp.message.height ∷ []
  received (Input.proposed_value pv origin) = pv.height ∷ []
  received _ = []

  abbrev pub published : Effect M Transaction → List ℕ
  published (Effect.publish (SignedConsensusMsg.proposal sp)) = sp.message.height ∷ []
  published _ = []

  -- A decision is for one of the heights.
  abbrev pub Allowed : List ℕ → Effect M Transaction → Type 0
  Allowed heights (Effect.decide certificate) = IsIn certificate.height heights
  Allowed heights _ = Unit

-- What the program relies on for its consumer: a peer decides a height only if it has received a
-- value for it or published a proposal for it, now or earlier. So a property of the heights that a
-- peer knows and of the channels is kept, if it passes to fewer heights, and if the handler keeps it
-- at each effect that is allowed, where the peer then also knows what it publishes.
pub record DecidesProposed {M : Malachite} {Transaction : Type 0} (C : Consensus M Transaction)
    : Type 1 where
  pub known : C.State → List ℕ
  pub known-new_state :
      (c : BaseContext M) (p : Params M Transaction) → known (C.new_state c p) ≡ []
  pub process_decides :
      (P : List ℕ → Channels M Transaction → Type 0)
      (handler : Effect M Transaction → Action M Transaction (Resume M Transaction))
      → ((heights fewer : List ℕ) (w : Channels M Transaction)
          → ((h : ℕ) → IsIn h fewer → IsIn h heights)
          → P heights w
          → P fewer w)
      → ((heights : List ℕ) (e : Effect M Transaction) (w : Channels M Transaction)
          → Allowed heights e
          → P heights w
          → P (published e ++ heights) (handler e w).1)
      → (input : Input M Transaction) (s : C.State) (m : C.Metrics) (w : Channels M Transaction)
      → P (received input ++ known s) w
      → let r = C.process handler input s m w in P (known r.1) r.2

module _ {M : Malachite} {Transaction : Type 0} (V : BaseValue Transaction → Type 0) where
  -- The values that an input brings and that an effect publishes are as `V` says.
  abbrev pub Brings : Input M Transaction → Type 0
  Brings (Input.proposal sp) = V sp.message.value
  Brings (Input.proposed_value pv origin) = V pv.value
  Brings (Input.propose v) = V v.value
  Brings _ = Unit

  abbrev pub Passes : Effect M Transaction → Type 0
  Passes (Effect.publish (SignedConsensusMsg.proposal sp)) = V sp.message.value
  Passes _ = Unit

-- What the program relies on for its blocks: the library makes no values up. What holds of the values
-- that a peer holds and is brought holds of those that it holds afterwards; and a property of the
-- channels is kept, if the handler keeps it at each effect that publishes no other values.
pub record MakesNoValues {M : Malachite} {Transaction : Type 0} (C : Consensus M Transaction)
    : Type 1 where
  pub Holds : (BaseValue Transaction → Type 0) → C.State → Type 0
  pub Holds-new_state :
      (V : BaseValue Transaction → Type 0) (c : BaseContext M) (p : Params M Transaction)
      → Holds V (C.new_state c p)
  pub process_passes :
      (V : BaseValue Transaction → Type 0) (P : Channels M Transaction → Type 0)
      (handler : Effect M Transaction → Action M Transaction (Resume M Transaction))
      → ((e : Effect M Transaction) (w : Channels M Transaction)
          → Passes V e
          → P w
          → P (handler e w).1)
      → (input : Input M Transaction) (s : C.State) (m : C.Metrics) (w : Channels M Transaction)
      → Brings V input
      → Holds V s
      → P w
      → let r = C.process handler input s m w in Holds V r.1 × P r.2
