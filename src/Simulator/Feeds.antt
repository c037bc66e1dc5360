-- ===== src/Simulator/Feeds.antt =====
-- Whole runs of the simulator, with the consumer that they feed.
use rem_poc.Prelude.{ℕ, ◌≡◌, refl, ◌≤◌, ◌<◌, List, [], All, All-of, All-map}
use rem_poc.Prelude.Run.{ok}
use rem_poc.Context.Malachite.{Malachite}
use rem_poc.Context.Value.{BaseValue}
use rem_poc.Application.Messages.{ValidatorSet}
use rem_poc.Application.Channels.{Channels, send}
use rem_poc.Application.Handlers.{Application, init}
use rem_poc.Simulator.{Simulator, Step, blocked, stepped, crashed, run, new, take_in}
use rem_poc.Simulator.Runs.{Arrivals}
use rem_poc.Chain.Builder.{idle}
use rem_poc.Simulator.Library.{Consensus, IsLawful, DecidesProposed}
use rem_poc.Simulator.Announce.Handlers.{post_quiet}
use rem_poc.Simulator.Announce.{IsAnnounced}
use rem_poc.Simulator.Consumed.{IsSafe, StepSafe, IsSafe-Keeps, Consumed, IsAnnounced-Consumed}
use rem_poc.Simulator.RunRule.{run-After}

module _ {M : Malachite} {Transaction : Type 0} (C : Consensus M Transaction) where
  -- The consumer goes through whatever a run leaves for it, and however much of it.
  abbrev pub RunConsumed : Step C → Type 0
  RunConsumed blocked = Unit
  RunConsumed (stepped states w) = Consumed w.decision_steps
  RunConsumed (crashed w) = Consumed w.decision_steps

  StepSafe-RunConsumed :
      (decides : DecidesProposed C) (r : Step C) → StepSafe C decides r → RunConsumed r
  StepSafe-RunConsumed decides blocked safe = tt
  StepSafe-RunConsumed decides (stepped states w) safe = IsAnnounced-Consumed [] w safe.quiet
  StepSafe-RunConsumed decides (crashed w) safe = IsAnnounced-Consumed [] w safe

  pub init-IsAnnounced :
      (app : Application) (set : ValidatorSet M Transaction) (w : Channels M Transaction)
      → IsAnnounced [] w
      → IsAnnounced [] (init app set w).1
  unfolding init send
  init-IsAnnounced app set w is = post_quiet [] _ w refl is

  pub idle-IsAnnounced : IsAnnounced {M = M} {Transaction = Transaction} [] idle
  idle-IsAnnounced = record { alive = refl; knows = λ h i. i; sent = tt; timely = tt }

  pub take_in-IsSafe :
      (decides : DecidesProposed C) (values : List (BaseValue Transaction)) (states : List C.State)
      (w : Channels M Transaction)
      → All (λ _. Unit {0}) values
      → IsSafe C decides states w
      → IsSafe C decides states (take_in C values w)
  take_in-IsSafe decides values states w any safe = record {
    quiet = record {
      alive = safe.quiet.alive;
      knows = safe.quiet.knows;
      sent = safe.quiet.sent;
      timely = safe.quiet.timely;
    };
    learnt = safe.learnt;
  }

  -- A simulator of 4 to 24 peers, made whatever the randomness and run for any number of steps from
  -- empty channels, whatever values come in and when, leaves decision steps that the consumer goes
  -- through without a panic, while the task receives, whether the last step goes through or crashes;
  -- and so does each beginning of these steps. So nobody finalizes for it a height without a value.
  -- The library is taken to keep the parameters of a state, to touch the channels through the handler
  -- alone, and to decide only heights that the peer has received a value for or published a proposal
  -- for.
  pub run-RunConsumed :
      (lawful : IsLawful C) (decides : DecidesProposed C) (random size : ℕ) (arrivals : Arrivals C)
      → 4 ≤ size
      → size < 25
      → (sim : Simulator C) × (states : List C.State) × (new C random size ≡ ok (sim, states))
        × RunConsumed (run C arrivals sim states idle)
  run-RunConsumed lawful decides random size arrivals lo hi =
      let (sim, states, made, safe) =
        run-After C (IsSafe C decides) (IsAnnounced []) (IsAnnounced []) (λ s. decides.known s ≡ [])
          (λ _. Unit {0}) lawful (IsSafe-Keeps C decides) (take_in-IsSafe decides)
          decides.known-new_state init-IsAnnounced
          (λ states w none_known quiet. record {
            quiet = quiet;
            learnt = All-map _ _ states (λ s e h i. absurd (rw e at i)) none_known;
          })
          random size arrivals idle lo hi tt (All-of (All-of (λ _. tt)) arrivals)
          idle-IsAnnounced in
      (sim, states, made, StepSafe-RunConsumed decides (run C arrivals sim states idle) safe)
