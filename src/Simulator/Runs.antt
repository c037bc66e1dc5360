-- ===== src/Simulator/Runs.antt =====
-- Simulator::run: what holds after any number of steps, and how a run can end.
use rem_poc.Prelude.{ℕ, ◌≡◌, refl, ap, ◌∙◌, List, [], ◌∷◌, ◌++◌}
use rem_poc.Context.Value.{BaseValue}
use rem_poc.Context.Malachite.{Malachite}
use rem_poc.Application.Channels.{Channels}
use rem_poc.Simulator.{Simulator, Step, blocked, stepped, crashed, step, steps, take_in}
use rem_poc.Simulator.Library.{Consensus, IsLawful}
use rem_poc.Simulator.Range.{InRange}
use rem_poc.Simulator.Routing.{IsWired, LibraryFails, StepWell, step-StepWell}

module _ {M : Malachite} {Transaction : Type 0} (C : Consensus M Transaction) where
  abbrev pub Arrivals : Type 0
  Arrivals = List (List (BaseValue Transaction))

  pub steps-stepped :
      (sim : Simulator C) (states states' : List C.State) (w w' : Channels M Transaction)
      (values : List (BaseValue Transaction)) (arrivals : Arrivals)
      → step C sim states (take_in C values w) ≡ stepped states' w'
      → steps C (values ∷ arrivals) sim states w ≡ steps C arrivals sim states' w'
  unfolding steps
  steps-stepped sim states states' w w' values arrivals e = rw (e, steps) refl

  pub steps-blocked :
      (sim : Simulator C) (states : List C.State) (w : Channels M Transaction)
      (values : List (BaseValue Transaction)) (arrivals : Arrivals)
      → step C sim states (take_in C values w) ≡ blocked
      → steps C (values ∷ arrivals) sim states w ≡ blocked
  unfolding steps
  steps-blocked sim states w values arrivals e = rw (e, steps) refl

  pub steps-crashed :
      (sim : Simulator C) (states : List C.State) (w w' : Channels M Transaction)
      (values : List (BaseValue Transaction)) (arrivals : Arrivals)
      → step C sim states (take_in C values w) ≡ crashed w'
      → steps C (values ∷ arrivals) sim states w ≡ crashed w'
  unfolding steps
  steps-crashed sim states w w' values arrivals e = rw (e, steps) refl

  -- Fewer steps than all go through; they leave states, and channels on which the next values come
  -- in, as `P` says.
  abbrev pub Reached :
      Simulator C
      → List C.State
      → Channels M Transaction
      → Arrivals
      → (List C.State → Channels M Transaction → Type 0)
      → Type 0
  Reached sim states w arrivals P =
      (before : Arrivals) × (values : List (BaseValue Transaction)) × (after : Arrivals)
      × (states' : List C.State) × (w' : Channels M Transaction) × (before ++ values ∷ after
          ≡ arrivals)
      × (steps C before sim states w ≡ stepped states' w')
      × P states' (take_in C values w')

  -- How a run ends.
  abbrev pub RunWell :
      Simulator C → List C.State → ℕ → Channels M Transaction → Arrivals → Step C → Type 0
  RunWell sim states size w arrivals blocked =
      Reached sim states w arrivals (λ _ w'. w'.network ≡ [])
  RunWell sim states size w arrivals (stepped states' w') =
      IsWired C sim states' size × InRange size w'
  RunWell sim states size w arrivals (crashed w'') =
      Reached sim states w arrivals (λ states' w'. LibraryFails C states' w' w'')

  Reached-cons :
      (sim : Simulator C) (states states₁ : List C.State) (w w₁ : Channels M Transaction)
      (first : List (BaseValue Transaction)) (arrivals : Arrivals)
      (P : List C.State → Channels M Transaction → Type 0)
      → step C sim states (take_in C first w) ≡ stepped states₁ w₁
      → Reached sim states₁ w₁ arrivals P
      → Reached sim states w (first ∷ arrivals) P
  Reached-cons sim states states₁ w w₁ first arrivals P e (before, values, after, s, w', is, r, h) =
      (
        first ∷ before,
        values,
        after,
        s,
        w',
        ap (λ l. first ∷ l) is,
        steps-stepped sim states states₁ w w₁ first before e ∙ r,
        h,
      )

  RunWell-cons :
      (sim : Simulator C) (states states₁ : List C.State) (size : ℕ) (w w₁ : Channels M Transaction)
      (first : List (BaseValue Transaction)) (arrivals : Arrivals) (r : Step C)
      → step C sim states (take_in C first w) ≡ stepped states₁ w₁
      → RunWell sim states₁ size w₁ arrivals r
      → RunWell sim states size w (first ∷ arrivals) r
  RunWell-cons sim states states₁ size w w₁ first arrivals blocked e h =
      Reached-cons sim states states₁ w w₁ first arrivals (λ _ w'. w'.network ≡ []) e h
  RunWell-cons sim states states₁ size w w₁ first arrivals (stepped states' w') e h = h
  RunWell-cons sim states states₁ size w w₁ first arrivals (crashed w'') e h =
      Reached-cons sim states states₁ w w₁ first arrivals
        (λ states' w'. LibraryFails C states' w' w'') e h

  -- In a network that is wired up, with envelopes for its peers alone, any number of steps that go
  -- through leaves it so, whatever values come in; a run blocks only where fewer steps have left the
  -- network empty; and it crashes only where, after fewer steps, the library fails on the first
  -- envelope, at the state of the peer that the envelope is for, with the parameters and the
  -- application of that address. So no lookup of a step ever fails. The library is taken to touch the
  -- channels through the handler alone.
  pub steps-RunWell :
      (lawful : IsLawful C) (arrivals : Arrivals) (sim : Simulator C) (states : List C.State)
      (size : ℕ) (w : Channels M Transaction)
      → IsWired C sim states size
      → InRange size w
      → RunWell sim states size w arrivals (steps C arrivals sim states w)
  unfolding steps
  steps-RunWell lawful [] sim states size w wired range = (wired, range)
  steps-RunWell lawful (values ∷ arrivals) sim states size w wired range =
      on (steps-RunWell lawful arrivals) (step C sim states (take_in C values w)) refl
        (step-StepWell C lawful sim states size (take_in C values w) wired range)
    where
      on :
          ((sim : Simulator C) (states : List C.State) (size : ℕ) (w : Channels M Transaction)
            → IsWired C sim states size
            → InRange size w
            → RunWell sim states size w arrivals (steps C arrivals sim states w))
          → (r : Step C) → step C sim states (take_in C values w) ≡ r
          → StepWell C sim states size (take_in C values w) r
          → RunWell sim states size w (values ∷ arrivals) (steps C (values ∷ arrivals) sim states w)
      on ih blocked e h =
          rw (steps-blocked sim states w values arrivals e)
            ([], values, arrivals, states, w, refl, refl, h)
      on ih (stepped states₁ w₁) e h =
          rw (steps-stepped sim states states₁ w w₁ values arrivals e) (
            RunWell-cons sim states states₁ size w w₁ values arrivals
              (steps C arrivals sim states₁ w₁) e (ih sim states₁ size w₁ h.0 h.1))
      on ih (crashed w') e h =
          rw (steps-crashed sim states w w' values arrivals e)
            ([], values, arrivals, states, w, refl, refl, h)
