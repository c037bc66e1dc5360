-- ===== src/Simulator/Whole.antt =====
-- The simulator from its construction on: Simulator::new and Simulator::run together.
use rem_poc.Prelude.{ℕ, ◌≡◌, refl, ◌≤◌, ◌<◌, List}
use rem_poc.Prelude.Run.{ok}
use rem_poc.Context.Malachite.{Malachite}
use rem_poc.Application.Channels.{Channels}
use rem_poc.Simulator.{Simulator, new, initialize_system, run, steps}
use rem_poc.Simulator.Library.{Consensus, IsLawful}
use rem_poc.Simulator.Range.{InRange}
use rem_poc.Simulator.Runs.{Arrivals, RunWell, steps-RunWell}
use rem_poc.Simulator.Wiring.{initialize_system-IsWired}

module _ {M : Malachite} {Transaction : Type 0} (C : Consensus M Transaction) where
  pub run-initialized :
      (arrivals : Arrivals C) (sim sim' : Simulator C) (states : List C.State)
      (w w' : Channels M Transaction)
      → initialize_system C sim states w ≡ ok (sim', w')
      → run C arrivals sim states w ≡ steps C arrivals sim' states w'
  unfolding run
  run-initialized arrivals sim sim' states w w' e = rw (e, run) refl

  -- A simulator of 4 to 24 peers is made, whatever the randomness, and, run for any number of steps on
  -- a network with envelopes for its peers alone, whatever values come in and when, it initializes
  -- itself without a panic; the steps that go through leave it wired up; it blocks only where fewer
  -- steps have left the network empty; and it crashes only where, after fewer steps, the library fails
  -- on the first envelope, at the state of the peer that the envelope is for. So no lookup and no assertion on a size ever fails. The library is
  -- taken to keep the parameters of a state and to touch the channels through the handler alone.
  pub run-RunWell :
      (lawful : IsLawful C) (random size : ℕ) (arrivals : Arrivals C) (w : Channels M Transaction)
      → 4 ≤ size
      → size < 25
      → InRange size w
      → (sim : Simulator C) × (states : List C.State) × (sim' : Simulator C) × (w' : Channels M
          Transaction)
        × (new C random size ≡ ok (sim, states))
        × (initialize_system C sim states w ≡ ok (sim', w'))
        × RunWell C sim' states size w' arrivals (run C arrivals sim states w)
  run-RunWell lawful random size arrivals w lo hi range =
      let (sim, states, sim', w', made, started, wired, net, range') =
        initialize_system-IsWired C lawful random size w lo hi range in
      (
        sim,
        states,
        sim',
        w',
        made,
        started,
        rw (run-initialized arrivals sim sim' states w w' started)
            (steps-RunWell C lawful arrivals sim' states size w' wired range'),
      )
