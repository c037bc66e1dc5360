-- ===== src/Tests/OnRuns.antt =====
-- Runs of a network whose peers propose a value when a height starts and decide on each that they
-- receive, with the consumer that it feeds.
use rem_poc.Prelude.{true, replicate, ℕ, ◌≡◌, refl, ◌<◌, List, [], ◌∷◌, ◌++◌, arith, IsIn, inl}
use rem_poc.Prelude.Run.{Run, ok}
use rem_poc.Context.Value.{BaseValue}
use rem_poc.Application.Messages.{SignedConsensusMsg, ValueToPropose, Input, Effect, Resume}
use rem_poc.Application.Channels.{Channels, Action, send, announce, try_recv}
use rem_poc.Application.Handlers.{init, handle_effect, publish_all, publish_to}
use rem_poc.Context.PeerSet.{new_peer_set}
use rem_poc.Prelude.HashMap
use rem_poc.Storage.{new as new_storage}
use rem_poc.Task.{new_task}
use rem_poc.Task.Life.{start}
use rem_poc.Simulator.{Simulator, new, initialize_system, run, Step, blocked, stepped, crashed}
use rem_poc.Chain.Consumer.{Consumer, empty_consumer, consume_step, consume}
use rem_poc.Simulator.Library.{
  Consensus, IsLawful, DecidesProposed, MakesNoValues, Brings, Passes, received, published, Allowed,
}
use rem_poc.Chain.Builder.{idle, interleave, All-interleave, poll_chain}
use rem_poc.Simulator.Pool.{RunAnnounces, run-RunAnnounces}
use rem_poc.Simulator.Feeds.{RunConsumed, run-RunConsumed}
use rem_poc.System.{System, Reach, started}
use rem_poc.System.Safe.{IsServing, Reach-IsServing}
use rem_poc.Pipeline.Program.{RunBuilt, poll_chain-RunBuilt}
use rem_poc.Tests.{simple_malachite, simple_reth, simple_reth-CollisionFree, first_block}
use rem_poc.Tests.OnSimulator.{Peer, finish}

abbrev Handler : Type 0
Handler = Effect simple_malachite ℕ → Action simple_malachite ℕ (Resume simple_malachite ℕ)

abbrev proposal_of : ValueToPropose simple_malachite ℕ → SignedConsensusMsg simple_malachite ℕ
proposal_of v = SignedConsensusMsg.proposal (record {
  message = record { height = v.height; round = v.round; value = v.value; proposer = 0 };
  signature = record { raw = [] };
})

-- What a peer does with an input, if anything.
abbrev answer : Input simple_malachite ℕ → List (Effect simple_malachite ℕ)
answer (Input.start_height h set) = Effect.start_round ∷ Effect.get_value h 0 ∷ []
answer (Input.propose v) = Effect.publish (proposal_of v) ∷ []
answer (Input.proposed_value v origin) =
    Effect.decide (record { height = v.height; value_id = v.value.id }) ∷ []
answer _ = []

abbrev perform :
    Handler
    → List (Effect simple_malachite ℕ)
    → Peer
    → Channels simple_malachite ℕ
    → Run (Unit {0}) (Unit {0}) × Peer × Channels simple_malachite ℕ
perform handler [] s w = (ok tt, s, w)
perform handler (e ∷ []) s w = let (r, w') = handler e w in (finish r, s, w')
perform handler (e ∷ es) s w = let (r, w') = handler e w in perform handler es s w'

abbrev pub deciding : Consensus simple_malachite ℕ
deciding = record {
  State = Peer;
  Metrics = Unit {0};
  Error = Unit {0};
  new_metrics = tt;
  new_state = λ c p. (c, p);
  params = λ s. s.1;
  ctx = λ s. s.0;
  process = λ handler input s m w. perform handler (answer input) s w;
}

perform_keeps :
    (P : Channels simple_malachite ℕ → Type 0) (handler : Handler)
    → ((e : Effect simple_malachite ℕ) (w : Channels simple_malachite ℕ) → P w → P (handler e w).1)
    → (es : List (Effect simple_malachite ℕ)) (s : Peer) (w : Channels simple_malachite ℕ) → P w
    → P (perform handler es s w).2
perform_keeps P handler keeps [] s w p = p
perform_keeps P handler keeps (e ∷ []) s w p = keeps e w p
perform_keeps P handler keeps (e ∷ e' ∷ es) s w p =
    perform_keeps P handler keeps (e' ∷ es) s (handler e w).1 (keeps e w p)

pub deciding-IsLawful : IsLawful deciding
deciding-IsLawful = record {
  params-new_state = λ c p. refl;
  process_keeps =
      λ P handler keeps input s m w p. perform_keeps P handler keeps (answer input) s w p;
}

process_decides :
    (P : List ℕ → Channels simple_malachite ℕ → Type 0) (handler : Handler)
    → ((heights fewer : List ℕ) (w : Channels simple_malachite ℕ)
        → ((h : ℕ) → IsIn h fewer → IsIn h heights)
        → P heights w
        → P fewer w)
    → ((heights : List ℕ) (e : Effect simple_malachite ℕ) (w : Channels simple_malachite ℕ)
        → Allowed heights e
        → P heights w
        → P (published e ++ heights) (handler e w).1)
    → (input : Input simple_malachite ℕ) (s : Peer) (w : Channels simple_malachite ℕ)
    → P (received input ++ []) w
    → P [] (perform handler (answer input) s w).2
process_decides P handler fewer keeps (Input.start_height h set) s w p =
    keeps [] (Effect.get_value h 0) _ tt (keeps [] Effect.start_round w tt p)
process_decides P handler fewer keeps (Input.propose v) s w p =
    fewer _ [] _ (λ h i. elim i [ ]) (keeps [] (Effect.publish (proposal_of v)) w tt p)
process_decides P handler fewer keeps (Input.proposed_value v origin) s w p =
    fewer _ [] _ (λ h i. elim i [ ]) (keeps (v.height ∷ []) (Effect.decide _) w (inl refl) p)
process_decides P handler fewer keeps (Input.proposal v) s w p = fewer _ [] w (λ h i. elim i [ ]) p
process_decides P handler fewer keeps (Input.timeout_elapsed t) s w p = p
process_decides P handler fewer keeps (Input.vote v) s w p = p

pub deciding-DecidesProposed : DecidesProposed deciding
deciding-DecidesProposed = record {
  known = λ s. [];
  known-new_state = λ c p. refl;
  process_decides =
      λ P handler fewer keeps input s m w p. process_decides P handler fewer keeps input s w p;
}

abbrev four_values : List (BaseValue ℕ)
four_values =
    record { id = 0; transactions = 10 ∷ [] }
    ∷ record { id = 1; transactions = [] }
    ∷ record { id = 2; transactions = 20 ∷ 30 ∷ [] }
    ∷ record { id = 3; transactions = [] }
    ∷ []

-- Thirty steps, with a pass of the block builder before each of the first four.
abbrev four_passes : List ℕ
four_passes = 1 ∷ 1 ∷ 1 ∷ 1 ∷ replicate 26 0

abbrev four_arrivals : List (List (BaseValue ℕ))
four_arrivals = interleave four_passes four_values

process_passes :
    (V : BaseValue ℕ → Type 0) (P : Channels simple_malachite ℕ → Type 0) (handler : Handler)
    → ((e : Effect simple_malachite ℕ) (w : Channels simple_malachite ℕ)
        → Passes V e
        → P w
        → P (handler e w).1)
    → (input : Input simple_malachite ℕ) (s : Peer) (w : Channels simple_malachite ℕ)
    → Brings V input
    → P w
    → P (perform handler (answer input) s w).2
process_passes V P handler keeps (Input.start_height h set) s w brings p =
    keeps (Effect.get_value h 0) _ tt (keeps Effect.start_round w tt p)
process_passes V P handler keeps (Input.propose v) s w brings p =
    keeps (Effect.publish (proposal_of v)) w brings p
process_passes V P handler keeps (Input.proposed_value v origin) s w brings p =
    keeps (Effect.decide _) w tt p
process_passes V P handler keeps (Input.proposal v) s w brings p = p
process_passes V P handler keeps (Input.timeout_elapsed t) s w brings p = p
process_passes V P handler keeps (Input.vote v) s w brings p = p

pub deciding-MakesNoValues : MakesNoValues deciding
deciding-MakesNoValues = record {
  Holds = λ V s. Unit {0};
  Holds-new_state = λ V c p. tt;
  process_passes = λ V P handler keeps input s m w brings held p.
      (tt, process_passes V P handler keeps input s w brings p);
}

abbrev pub three_batches : List (List ℕ)
three_batches = (10 ∷ []) ∷ [] ∷ (20 ∷ []) ∷ []

run-RunAnnounces_example :
    (sim : Simulator deciding) × (states : List Peer) × (new deciding 9 4 ≡ ok (sim, states))
    × RunAnnounces deciding deciding-MakesNoValues
        (λ v. v.id < 4)
        (run deciding four_arrivals sim states idle)
run-RunAnnounces_example =
    run-RunAnnounces deciding deciding-MakesNoValues (λ v. v.id < 4) deciding-IsLawful 9 4
      four_arrivals (omega arith) (omega arith)
      (All-interleave (λ v. v.id < 4) four_passes four_values
        (omega arith, (omega arith, (omega arith, (omega arith, tt)))))

run-RunConsumed_example :
    (sim : Simulator deciding) × (states : List Peer) × (new deciding 9 4 ≡ ok (sim, states))
    × RunConsumed deciding (run deciding four_arrivals sim states idle)
run-RunConsumed_example =
    run-RunConsumed deciding deciding-IsLawful deciding-DecidesProposed 9 4 four_arrivals
      (omega arith) (omega arith)

poll_chain-RunBuilt_example :
    (r : Step deciding) × (poll_chain deciding
        (record { pool = tt {0} })
        9
        three_batches
        four_passes
      ≡ ok r)
    × RunBuilt simple_reth deciding three_batches first_block r
poll_chain-RunBuilt_example =
    poll_chain-RunBuilt simple_reth deciding three_batches deciding-IsLawful
      deciding-DecidesProposed deciding-MakesNoValues simple_reth-CollisionFree
      (record { pool = tt {0} }) 9 four_passes first_block refl

-- What the consumer sends to the task, on the decision steps that a run leaves.
sent_on : Run (Unit {0}) (Consumer ℕ) → List (List ℕ)
sent_on (ok c) = c.to_task
sent_on _ = []

sent_by_run : Run (Unit {0}) (Simulator deciding × List Peer) → List (List ℕ)
unfolding run consume sent_on interleave
sent_by_run (ok (sim, states)) = of (run deciding four_arrivals sim states idle)
  where
    of : Step deciding → List (List ℕ)
    of blocked = []
    of (stepped states' w) = sent_on (consume empty_consumer w.decision_steps)
    of (crashed w) = []
sent_by_run _ = []

-- After 30 steps peer 0 has decided three times on height 0, and its first value is sent each time.
four_peers_sent : sent_by_run (new deciding 9 4) ≡ (10 ∷ []) ∷ (10 ∷ []) ∷ (10 ∷ []) ∷ []
unfolding new sent_by_run HashMap.get HashMap.insert HashMap.contains_key init send announce
    try_recv handle_effect publish_all publish_to new_peer_set consume_step
four_peers_sent = refl

Reach-IsServing_example :
    (sim : Simulator deciding) × (states : List Peer) × (sim' : Simulator deciding) × (w : Channels
      simple_malachite ℕ)
    × (new deciding 9 4 ≡ ok (sim, states))
    × (initialize_system deciding sim states idle ≡ ok (sim', w))
    × ((s : System simple_reth deciding)
        → Reach simple_reth deciding sim' three_batches
            (started simple_reth deciding states w (new_task (new_storage first_block) [] true))
            s
        → IsServing simple_reth deciding three_batches first_block s)
Reach-IsServing_example =
    Reach-IsServing simple_reth deciding deciding-IsLawful deciding-DecidesProposed
      deciding-MakesNoValues simple_reth-CollisionFree three_batches first_block refl 9 4
      (new_task (new_storage first_block) [] true) (omega arith) (omega arith) start
