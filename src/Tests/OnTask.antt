-- ===== src/Tests/OnTask.antt =====
-- Runs of the execution task.
use rem_poc.Prelude.{◌≡◌, List, [], ◌∷◌, ◌++◌, some, none, map, replicate, true, arith}
use rem_poc.Prelude.Run.{ok}
use rem_poc.Reth.{SealedHeader}
use rem_poc.Task.Engine.{update_of, after_execution_lem}
use rem_poc.Task.{
  MalachiteTask, Meeting, new_task, awaiting, ready, pending, panicked, Reply, valid, invalid,
  syncing, failed, dropped, after_execution,
}
use rem_poc.Task.Poll.{poll}
use rem_poc.Task.Work.{work}
use rem_poc.Task.Order.{PollWell, poll-PollWell}
use rem_poc.Task.Rule.{left}
use rem_poc.Task.Blocks.{Stores, poll-Stores}
use rem_poc.Tests.{
  plain_header, simple_reth, simple_reth-CollisionFree, one_block, one_block-IsChain, served,
}

abbrev task : MalachiteTask simple_reth
unfolding new_task
task = new_task one_block ((10 ∷ []) ∷ (20 ∷ 30 ∷ []) ∷ []) true

abbrev meetings : List (Meeting simple_reth)
meetings =
    record { lock_free = true; environment = served; replies = syncing ∷ valid ∷ [] }
    ∷ record { lock_free = true; environment = served; replies = valid ∷ [] }
    ∷ []

poll-PollWell_example : PollWell (work task) (poll 3 task meetings)
unfolding task
poll-PollWell_example = poll-PollWell 3 task meetings (omega arith)

task-Stores : Stores 5 task
unfolding task one_block
task-Stores = (one_block-IsChain, omega arith)

poll-Stores_example : Stores 5 (left (poll 3 task meetings))
poll-Stores_example = poll-Stores simple_reth-CollisionFree 5 3 task meetings task-Stores

abbrev header : SealedHeader
header = record { header = plain_header; hash = 1006 }

-- The engine is syncing twice, and then one of its replies settles the block.
after_execution_lem_example :
    let u : MalachiteTask simple_reth = record task {
      removed = task.removed ++ map simple_reth.transaction_hash (10 ∷ []) ∷ [];
      to_engine = task.to_engine ++ replicate 3 (update_of header);
    } in
    let after = λ (rs : List Reply).
      after_execution task (10 ∷ []) (some 4) (syncing ∷ syncing ∷ rs) (ok (header, (0, []))) in
    (after [] ≡ pending u (awaiting header (some 4)))
    × ((rs : List Reply)
        → after (valid ∷ rs)
          ≡ ready
              (record u {
                heads = record {
                  canonical = some header;
                  safe = some header;
                  finalized = some header;
                };
              })
              (some 4))
    × ((rs : List Reply) → after (invalid ∷ rs) ≡ ready u none)
    × ((rs : List Reply) → after (failed ∷ rs) ≡ ready u none)
    × ((rs : List Reply) → after (dropped ∷ rs) ≡ panicked u)
after_execution_lem_example = after_execution_lem task (10 ∷ []) header (0, []) (some 4) 2
