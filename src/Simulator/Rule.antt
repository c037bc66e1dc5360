-- ===== src/Simulator/Rule.antt =====
-- A rule for what every step of the simulator keeps, and so every run.
use rem_poc.Prelude.{ℕ, ◌≡◌, ◌≢◌, refl, sym, subst, ◌∙◌, ◌<◌, List, [], ◌∷◌, All, some, get_elem?}
use rem_poc.Context.Malachite.{Malachite}
use rem_poc.Application.Messages.{Params, Envelope}
use rem_poc.Application.Channels.{Channels}
use rem_poc.Application.Handlers.{Application}
use rem_poc.Simulator.{
  Simulator, Step, blocked, stepped, crashed, step, steps, settle, apply_input, take_in,
}
use rem_poc.Simulator.Library.{Consensus, IsLawful}
use rem_poc.Simulator.Range.{InRange}
use rem_poc.Simulator.Routing.{IsWired, StepWell, step-StepWell, step-blocked, step_routed_to}
use rem_poc.Context.Value.{BaseValue}
use rem_poc.Simulator.Runs.{Arrivals, steps-stepped, steps-blocked, steps-crashed}

module _ {M : Malachite} {Transaction : Type 0} (C : Consensus M Transaction)
    (Q : List C.State → Channels M Transaction → Type 0) (D : Channels M Transaction → Type 0) where
  -- What holds where a step goes through, and where it crashes.
  abbrev pub After : Step C → Type 0
  After blocked = Unit
  After (stepped states w) = Q states w
  After (crashed w) = D w

  -- What is to be shown of a step, for the envelope and the peer that it is about.
  abbrev pub Keeps : List C.State → Channels M Transaction → Type 0
  Keeps states w =
      (e : Envelope M Transaction) (rest : List (Envelope M Transaction)) (s : C.State)
      (p : Params M Transaction) (m : C.Metrics) (app : Application)
      → w.network ≡ e ∷ rest
      → get_elem? states e.destination ≡ some s
      → p.address ≡ app.peer_id
      → p.initial_validator_set.peers ≢ []
      → After (
          settle C states e.destination
            (apply_input C app e.payload p m s (C.ctx s) (record w { network = rest })))

  pub step-After :
      (sim : Simulator C) (states : List C.State) (size : ℕ) (w : Channels M Transaction)
      → IsWired C sim states size
      → InRange size w
      → Keeps states w
      → After (step C sim states w)
  step-After sim states size w wired range keeps = on w.network refl
    where
      on : (net : List (Envelope M Transaction)) → w.network ≡ net → After (step C sim states w)
      on [] net = rw (step-blocked C sim states w net) tt
      on (e ∷ rest) net =
          let all : All (λ (e : Envelope M Transaction). e.destination < size) (e ∷ rest) =
            subst (All (λ e. e.destination < size)) net range in
          let (s, p, m, app, es, here, same, inside, some_peer, is) =
            step_routed_to C sim states size w e rest wired net all.0 in
          subst After (sym is) (keeps e rest s p m app net es (here ∙ sym same) some_peer)

  -- What every step keeps, in a network that is wired up, and what the values that come in keep, every
  -- number of steps keeps.
  pub steps-After :
      (lawful : IsLawful C) (V : BaseValue Transaction → Type 0)
      → ((states : List C.State) (w : Channels M Transaction) → Q states w → Keeps states w)
      → ((values : List (BaseValue Transaction)) (states : List C.State)
            (w : Channels M Transaction)
          → All V values
          → Q states w
          → Q states (take_in C values w))
      → (arrivals : Arrivals C) (sim : Simulator C) (states : List C.State) (size : ℕ)
        (w : Channels M Transaction)
      → IsWired C sim states size
      → InRange size w
      → All (All V) arrivals
      → Q states w
      → After (steps C arrivals sim states w)
  unfolding steps
  steps-After lawful V keeps takes [] sim states size w wired range fed q = q
  steps-After lawful V keeps takes (values ∷ arrivals) sim states size w wired range fed q =
      on (steps-After lawful V keeps takes arrivals) (step C sim states (take_in C values w)) refl
        (step-StepWell C lawful sim states size (take_in C values w) wired range)
        (step-After sim states size (take_in C values w) wired range
          (keeps states (take_in C values w) (takes values states w fed.0 q)))
    where
      on :
          ((sim : Simulator C) (states : List C.State) (size : ℕ) (w : Channels M Transaction)
            → IsWired C sim states size
            → InRange size w
            → All (All V) arrivals
            → Q states w
            → After (steps C arrivals sim states w))
          → (r : Step C) → step C sim states (take_in C values w) ≡ r
          → StepWell C sim states size (take_in C values w) r
          → After r
          → After (steps C (values ∷ arrivals) sim states w)
      on ih blocked e well h = rw (steps-blocked C sim states w values arrivals e) tt
      on ih (stepped states₁ w₁) e well h =
          rw (steps-stepped C sim states states₁ w w₁ values arrivals e)
            (ih sim states₁ size w₁ well.0 well.1 fed.1 h)
      on ih (crashed w') e well h = rw (steps-crashed C sim states w w' values arrivals e) h
