-- ===== src/Tests/OnWhole.antt =====
-- A run of the program whose network is that of the tests of runs.
use rem_poc.Prelude.{ℕ, ◌≡◌, refl, List, ◌∷◌}
use rem_poc.Prelude.Run.{ok}
use rem_poc.Application.Channels.{Channels}
use rem_poc.Chain.{latest_or_genesis, build_values}
use rem_poc.Chain.Builder.{MalachiteChain, idle, interleave, make_network, poll_chain}
use rem_poc.Chain.Consumer.{empty_consumer}
use rem_poc.Task.{MalachiteTask}
use rem_poc.Simulator.{Simulator, initialize_system, steps}
use rem_poc.System.{System, Reach, started}
use rem_poc.System.Safe.{IsServing}
use rem_poc.Launcher.{Job, chain, malachite_consumer, mining_task}
use rem_poc.Main.{main}
use rem_poc.Main.Starts.{ready_context}
use rem_poc.Main.Whole.{Seals, main-IsServing}
use rem_poc.Tests.{simple_malachite, simple_reth, simple_reth-CollisionFree, first_block}
use rem_poc.Tests.OnLauncher.{dev_node}
use rem_poc.Tests.OnSimulator.{Peer}
use rem_poc.Tests.OnRuns.{
  deciding, deciding-IsLawful, deciding-DecidesProposed, deciding-MakesNoValues, three_batches,
}
use rem_poc.Tests.OnMain.{host, host-KeepsDev, two_blocks, custom_chain_read, two_watched}

dev_node-Seals : Seals dev_node
dev_node-Seals = record { latest = λ ctx h e. cc; genesis = λ ctx. refl }

main-IsServing_example :
    (ctx : dev_node.Context) × (ready_context host 2600 ≡ ok ctx)
    × (c : MalachiteChain (Unit {0})) × (t : MalachiteTask simple_reth) × (later : List
        (Job dev_node))
    × ((main host two_blocks).jobs
        ≡ chain c ∷ malachite_consumer empty_consumer ∷ mining_task t ∷ later)
    × (c.pool ≡ tt)
    × (sim : Simulator deciding) × (states : List Peer) × (sim' : Simulator deciding)
    × (w : Channels simple_malachite ℕ) × (make_network deciding c 9 ≡ ok (sim, states))
    × (initialize_system deciding sim states idle ≡ ok (sim', w))
    × ((batches : List (List ℕ)) (schedule : List ℕ)
        → poll_chain deciding c 9 batches schedule
          ≡ ok (steps deciding (interleave schedule (build_values 0 batches)) sim' states w))
    × ((s : System simple_reth deciding)
        → Reach simple_reth deciding sim' three_batches (started simple_reth deciding states w t) s
        → IsServing simple_reth deciding three_batches first_block s)
unfolding latest_or_genesis
main-IsServing_example =
    main-IsServing host deciding deciding-IsLawful deciding-DecidesProposed deciding-MakesNoValues
      simple_reth-CollisionFree host-KeepsDev dev_node-Seals 2600 custom_chain_read two_blocks
      two_watched 9 three_batches
