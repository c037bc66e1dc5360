-- ===== src/Tests/OnPipeline.antt =====
-- Runs of the consumer and the task together.
use mathlib.Core.List.{Sublist}
use rem_poc.Prelude.{ℕ, ◌+◌, ◌≡◌, refl, List, [], ◌∷◌, ◌++◌, some, length, map, take, true, arith}
use rem_poc.Prelude.HashMap
use rem_poc.Prelude.Run.{ok}
use rem_poc.Storage.Insert.{insert_new_block-IsChain}
use rem_poc.Client.{rising, get_headers_with_priority, get_block_bodies_with_priority}
use rem_poc.Client.Serves.{get_block_bodies-Represents}
use rem_poc.Storage.{
  StorageInner, number, placed, new, insert_new_block, build_and_execute, prepare, complete,
  insert_prepared, build_header_template, blooms,
}
use rem_poc.Storage.Chain.{IsChain}
use rem_poc.Storage.Represents.{
  Block, transactions_of, Represents, insert_new_block-Represents, new-Represents,
}
use rem_poc.Context.Value.{DecisionStep, proposed, finalized}
use rem_poc.Chain.Consumer.{Consumer, empty_consumer, consume_step, consume}
use rem_poc.Storage.Served.{IsServed}
use rem_poc.Pipeline.Exact.{blocks-decided}
use rem_poc.Pipeline.Served.{Fetches, sets_of, fetched-decided, poll-fetched}
use rem_poc.Task.Healthy.{AllHealthy}
use rem_poc.Pipeline.{decided}
use rem_poc.Task.{
  MalachiteTask, Meeting, new_task, valid, syncing, poll_insert, after_execution, await_replies,
  send_update, set_heads,
}
use rem_poc.Task.Poll.{returned, poll, pass, receive, dispatch, drive, after_poll}
use rem_poc.Task.Work.{unexecuted}
use rem_poc.Task.Rule.{left}
use rem_poc.Task.Life.{Lives, start, arrive, polled}
use rem_poc.Tests.{
  first_block, simple_malachite, simple_reth, simple_reth-CollisionFree, one_block,
  one_block-IsChain, plain_header, body_of, served,
}

abbrev meetings : List (Meeting simple_reth)
meetings = record { lock_free = true; environment = served; replies = syncing ∷ valid ∷ [] } ∷ []

-- A value proposed for height 3, which peers 1 and 0 then finalize.
abbrev steps : List (DecisionStep simple_malachite ℕ)
steps =
    proposed (record {
      height = 3;
      round = 0;
      valid_round = 0;
      proposer = 1;
      value = record { id = 7; transactions = 10 ∷ 20 ∷ [] };
      validity = tt;
    })
    ∷ finalized (record { peer = 1; value_id = 7; height = 3 })
    ∷ finalized (record { peer = 0; value_id = 7; height = 3 })
    ∷ []

abbrev consumed : Consumer ℕ
consumed = record {
  decisions = (3, record { id = 7; transactions = 10 ∷ 20 ∷ [] }) ∷ [];
  to_task = (10 ∷ 20 ∷ []) ∷ [];
  task_alive = true;
}

consume-steps : consume empty_consumer steps ≡ ok consumed
unfolding consume consume_step HashMap.get HashMap.insert HashMap.contains_key
consume-steps = refl

abbrev arrived : MalachiteTask simple_reth
unfolding new_task
arrived = record (new_task (new first_block) [] true) { chain_rx = [] ++ (10 ∷ 20 ∷ []) ∷ [] }

-- The one set that has arrived is executed in the first poll.
poll_returns : poll 2 arrived meetings ≡ returned (left (poll 2 arrived meetings))
unfolding arrived poll pass receive dispatch drive after_poll poll_insert after_execution
    await_replies send_update set_heads build_and_execute prepare complete insert_prepared
    build_header_template blooms insert_new_block new
poll_returns = refl

one_removed : let t = left (poll 2 arrived meetings) in length t.removed ≡ length t.executed
unfolding arrived poll pass receive dispatch drive after_poll poll_insert after_execution
    await_replies send_update set_heads build_and_execute prepare complete insert_prepared
    build_header_template blooms insert_new_block new
one_removed = refl

lived : Lives (new first_block) (left (poll 2 arrived meetings)) ((10 ∷ 20 ∷ []) ∷ [])
unfolding arrived
lived = polled (arrive start (10 ∷ 20 ∷ [])) 2 meetings (omega arith) poll_returns

insert_new_block-Represents_example :
    Represents
      (insert_new_block one_block plain_header (body_of (40 ∷ [])))
      5
      ([] ++ (record plain_header { number = 6; parent_hash = 1005 }, body_of (40 ∷ [])) ∷ [])
unfolding one_block new
insert_new_block-Represents_example =
    insert_new_block-Represents simple_reth-CollisionFree one_block 5 plain_header
      (body_of (40 ∷ [])) (omega arith) one_block-IsChain [] (new-Represents first_block)

abbrev two_blocks : StorageInner simple_reth
two_blocks = insert_new_block one_block plain_header (body_of (40 ∷ []))

two_blocks_held : List (Block simple_reth)
two_blocks_held = (placed one_block plain_header, body_of (40 ∷ [])) ∷ []

get_block_bodies-Represents_example :
    let hs = map (λ (b : Block simple_reth). b.0) (take 10 two_blocks_held) in
    (get_headers_with_priority 77 two_blocks
        (record { start = number (5 + 1); limit = 10; direction = rising })
      ≡ ok (record { peer_id = 77; data_of = hs }))
    × (get_block_bodies_with_priority 78 two_blocks (map simple_reth.hash_slow hs)
        ≡ ok (record { peer_id = 78; data_of = map (λ b. b.1) (take 10 two_blocks_held) }))
unfolding two_blocks_held one_block new insert_new_block
get_block_bodies-Represents_example =
    get_block_bodies-Represents two_blocks 5 two_blocks_held 10 77 78
      (insert_new_block-IsChain simple_reth-CollisionFree one_block 5 plain_header
        (body_of (40 ∷ [])) (omega arith) one_block-IsChain)
      (insert_new_block-Represents simple_reth-CollisionFree one_block 5 plain_header
        (body_of (40 ∷ [])) (omega arith) one_block-IsChain [] (new-Represents first_block))
      (omega arith)

serves : IsServed served (new first_block) (10 ∷ 20 ∷ []) []
unfolding new
serves = record {
  senders = 10 ∷ 20 ∷ [];
  database = tt;
  output = record { state = 30; receipts = 10 ∷ 20 ∷ []; requests = tt; gas_used = 21 };
  state_root = 30;
  receipts = [];
  receipts_root = 2;
  recovered = refl;
  latest = refl;
  executed = refl;
  rooted = refl;
  present = refl;
  receipts_rooted = refl;
}

healthy : AllHealthy (new first_block) consumed.to_task meetings
healthy = (record { free = refl; serves = serves; conclusive = tt }, tt)

blocks-decided_example :
    let t = left (poll 2 arrived meetings) in
    IsChain t.storage 5
    × (blocks : List (Block simple_reth)) × Represents t.storage 5 blocks
    × (map (map simple_reth.transaction_hash) (transactions_of blocks) ≡ t.removed)
    × (map some (transactions_of blocks)
          ++ map some (unexecuted t.insert_task ++ (t.queued ++ t.chain_rx))
        ≡ decided steps)
blocks-decided_example =
    blocks-decided simple_reth-CollisionFree first_block steps consumed
      (left (poll 2 arrived meetings)) refl consume-steps lived (omega arith) one_removed

fetched-decided_example :
    Fetches
      (left (poll 2 arrived meetings)).storage
      6
      10
      77
      78
      (λ bodies. Sublist (map some (sets_of bodies)) (decided steps))
fetched-decided_example =
    fetched-decided simple_reth-CollisionFree first_block steps consumed refl consume-steps
      (omega arith) 10 77 78 (left (poll 2 arrived meetings)) lived

poll-fetched_example :
    (t : MalachiteTask simple_reth) × (poll 2
        (new_task (new first_block) consumed.to_task true)
        meetings
      ≡ returned t)
    × Fetches t.storage 6 10 77 78 (λ bodies. map some (sets_of bodies) ≡ decided steps)
poll-fetched_example =
    poll-fetched simple_reth-CollisionFree first_block steps consumed refl consume-steps
      (omega arith) 10 77 78 meetings 2 healthy (omega arith) (omega arith)
