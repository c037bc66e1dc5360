-- ===== src/Simulator/RunRule.antt =====
-- A rule for what whole runs of the simulator keep, from the construction of the network on.
use rem_poc.Prelude.{
  ℕ, zero, suc, ◌≡◌, subst, ◌≤◌, ◌<◌, List, [], ◌∷◌, ◌++◌, leb, ltb, ◌&&◌, inl, inr, All,
  All-append, Option-cases, Bool-cases,
}
use rem_poc.Prelude.HashMap
use rem_poc.Prelude.Run.{Run, ok, err, panic}
use rem_poc.Context.Malachite.{Malachite}
use rem_poc.Context.Base.{BaseContext}
use rem_poc.Application.Messages.{Params, ValidatorSet}
use rem_poc.Application.Channels.{Channels}
use rem_poc.Application.Handlers.{Application, init}
use rem_poc.Simulator.{Simulator, run, new, add_peers, initialize_system, take_in}
use rem_poc.Simulator.Library.{Consensus, IsLawful}
use rem_poc.Simulator.Range.{InRange}
use rem_poc.Simulator.Routing.{IsWired}
use rem_poc.Simulator.Rule.{After, Keeps, steps-After}
use rem_poc.Context.Value.{BaseValue}
use rem_poc.Simulator.Runs.{Arrivals}
use rem_poc.Simulator.Whole.{run-initialized}
use rem_poc.Simulator.Wiring.{initialize_system-IsWired}

module _ {M : Malachite} {Transaction : Type 0} (C : Consensus M Transaction) where
  add_peers-All :
      (P : C.State → Type 0) (ctx : BaseContext M) (set : ValidatorSet M Transaction) (rounds i : ℕ)
      (made : Simulator C × List C.State)
      → ((p : Params M Transaction) → P (C.new_state ctx p))
      → All P made.1
      → All P (add_peers C ctx set rounds i made).1
  unfolding add_peers
  add_peers-All P ctx set zero i made fresh all = all
  add_peers-All P ctx set (suc rounds) i (sim, states) fresh all =
      add_peers-All P ctx set rounds (suc i) (_, states ++ _ ∷ []) fresh
        (All-append P states (_ ∷ []) all (fresh _, tt))

  -- What holds of the result of a call that returns.
  abbrev Whenever : {A : Type 0} → (A → Type 0) → Run (Unit {0}) A → Type 0
  Whenever P (ok a) = P a
  Whenever P (err e) = Unit
  Whenever P panic = Unit

  new-All :
      (P : C.State → Type 0) (random size : ℕ)
      → ((c : BaseContext M) (p : Params M Transaction) → P (C.new_state c p))
      → Whenever (λ (made : Simulator C × List C.State). All P made.1) (new C random size)
  unfolding new
  new-All P random size fresh = elim (Bool-cases (leb 4 size && ltb size 25)) [
    | inl allowed ↦ rw allowed (add_peers-All P _ _ size 0 _ (fresh _) tt)
    | inr refused ↦ rw refused tt
  ]

  initialize_system-Whenever :
      (P : Channels M Transaction → Type 0)
      → ((app : Application) (set : ValidatorSet M Transaction) (w : Channels M Transaction)
          → P w
          → P (init app set w).1)
      → (states : List C.State) (sim : Simulator C) (w : Channels M Transaction) → P w
      → Whenever
          (λ (r : Simulator C × Channels M Transaction). P r.1)
          (initialize_system C sim states w)
  unfolding initialize_system
  initialize_system-Whenever P sends [] sim w is = is
  initialize_system-Whenever P sends (s ∷ states) sim w is =
      elim (Option-cases (HashMap.get sim.params (C.params s).address)) [
        | inl missing ↦ rw missing tt
        | inr (p, found) ↦ elim (Option-cases (HashMap.get sim.apps (C.params s).address)) [
          | inl missing ↦ rw (found, missing) tt
          | inr (app, there) ↦
              rw (found, there)
                (initialize_system-Whenever P sends states _ _
                  (sends app p.initial_validator_set w is))
        ]
      ]

  -- What holds of new states, and what holds of the channels at the start and the peers' first envelopes
  -- keep, holds when the network has been made and initialized.
  pub initialized :
      (P : Channels M Transaction → Type 0) (K : C.State → Type 0) (lawful : IsLawful C)
      → ((c : BaseContext M) (p : Params M Transaction) → K (C.new_state c p))
      → ((app : Application) (set : ValidatorSet M Transaction) (w : Channels M Transaction)
          → P w
          → P (init app set w).1)
      → (random size : ℕ) (w : Channels M Transaction) → 4 ≤ size
      → size < 25
      → InRange size w
      → P w
      → (sim : Simulator C) × (states : List C.State) × (sim' : Simulator C) × (w' : Channels M
          Transaction)
        × (new C random size ≡ ok (sim, states))
        × (initialize_system C sim states w ≡ ok (sim', w'))
        × IsWired C sim' states size
        × InRange size w'
        × All K states
        × P w'
  initialized P K lawful fresh sends random size w lo hi range is =
      let (sim, states, sim', w', made, started, wired, net, range') =
        initialize_system-IsWired C lawful random size w lo hi range in
      (
        sim,
        states,
        sim',
        w',
        made,
        started,
        wired,
        range',
        subst (Whenever (λ (m : Simulator C × List C.State). All K m.1)) made
            (new-All K random size fresh),
        subst (Whenever (λ (r : Simulator C × Channels M Transaction). P r.1)) started
            (initialize_system-Whenever P sends states sim w is),
      )

  -- What holds of new states and of the channels at the start, which the peers' first envelopes keep,
  -- and what every step and the values that come in keep, hold after a run.
  pub run-After :
      (Q : List C.State → Channels M Transaction → Type 0) (D : Channels M Transaction → Type 0)
      (P : Channels M Transaction → Type 0) (K : C.State → Type 0)
      (V : BaseValue Transaction → Type 0) (lawful : IsLawful C)
      → ((states : List C.State) (w : Channels M Transaction) → Q states w → Keeps C Q D states w)
      → ((values : List (BaseValue Transaction)) (states : List C.State)
            (w : Channels M Transaction)
          → All V values
          → Q states w
          → Q states (take_in C values w))
      → ((c : BaseContext M) (p : Params M Transaction) → K (C.new_state c p))
      → ((app : Application) (set : ValidatorSet M Transaction) (w : Channels M Transaction)
          → P w
          → P (init app set w).1)
      → ((states : List C.State) (w : Channels M Transaction) → All K states → P w → Q states w)
      → (random size : ℕ) (arrivals : Arrivals C) (w : Channels M Transaction) → 4 ≤ size
      → size < 25
      → InRange size w
      → All (All V) arrivals
      → P w
      → (sim : Simulator C) × (states : List C.State) × (new C random size ≡ ok (sim, states))
        × After C Q D (run C arrivals sim states w)
  run-After Q D P K V lawful keeps takes fresh sends start random size arrivals w lo hi range fed
        is =
      let (sim, states, sim', w', made, started, wired, range', all, is') =
        initialized P K lawful fresh sends random size w lo hi range is in
      (
        sim,
        states,
        made,
        rw (run-initialized C arrivals sim sim' states w w' started) (
            steps-After C Q D lawful V keeps takes arrivals sim' states size w' wired range' fed
              (start states w' all is')),
      )
