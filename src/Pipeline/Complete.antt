-- ===== src/Pipeline/Complete.antt =====
-- The consumer and the task when nothing goes wrong: what was decided is what is built.
use rem_poc.Prelude.{
  ℕ, ◌++◌, ◌+◌, u64_mod, ◌<◌, ◌≡◌, refl, ap, ◌∙◌, List, [], map, none, some, true, arith, length,
}
use rem_poc.Prelude.Run.{ok}
use rem_poc.Reth.{Reth, SealedHeader}
use rem_poc.Storage.{new}
use rem_poc.Storage.Chain.{CollisionFree, IsChain, new-IsChain}
use rem_poc.Storage.Represents.{Block, transactions_of, Represents, new-Represents}
use rem_poc.Context.Malachite.{Malachite}
use rem_poc.Context.Value.{DecisionStep}
use rem_poc.Chain.Consumer.{Consumer, empty_consumer, consume}
use rem_poc.Chain.Relay.{consume_relays}
use rem_poc.Task.{MalachiteTask, Meeting, new_task}
use rem_poc.Task.Poll.{returned, poll}
use rem_poc.Task.Healthy.{AllHealthy}
use rem_poc.Task.Complete.{poll-IsComplete, IsComplete}
use rem_poc.Pipeline.{decided}

module _ {R : Reth} where
  new-IsComplete :
      (b : SealedHeader)
      → R.hash_slow b.header ≡ b.hash
      → IsComplete b.header.number (new {R = R} b) []
  new-IsComplete b sealed = record {
    chain = new-IsChain R b sealed;
    blocks = [];
    held = new-Represents b;
    same = refl;
  }

module _ {M : Malachite} {R : Reth} where
  -- Where the consumer has gone through the decision steps, a new task, started on the storage of a
  -- sealed header with what the consumer sent on its open channel, is polled, with fuel for more passes
  -- than there are sets. For each set, on the storage that those before it have left, the lock is free,
  -- the services answer on the block that is to be built of it, and the engine comes to a reply, valid or
  -- not, after any number that say that it is syncing. Then the poll returns, nothing is left to do,
  -- and the storage is a well-formed chain whose blocks above the first one hold exactly what was
  -- decided, one block for each finalization of peer 0, in their order. Headers at different heights
  -- are taken to have different hashes, and the heights to stay below 2^64.
  pub poll-decided :
      (free : CollisionFree R) (b : SealedHeader) (ds : List (DecisionStep M R.Transaction))
      (c : Consumer R.Transaction) (ms : List (Meeting R)) (fuel : ℕ)
      → R.hash_slow b.header ≡ b.hash
      → consume empty_consumer ds ≡ ok c
      → AllHealthy (new b) c.to_task ms
      → length c.to_task < fuel
      → b.header.number + length c.to_task < u64_mod
      → (t : MalachiteTask R) × (poll fuel (new_task (new b) c.to_task true) ms ≡ returned t)
        × (t.insert_task ≡ none)
        × (t.queued ++ t.chain_rx ≡ [])
        × IsChain t.storage b.header.number
        × (blocks : List (Block R)) × Represents t.storage b.header.number blocks
        × (map some (transactions_of blocks) ≡ decided ds)
  unfolding new_task
  poll-decided free b ds c ms fuel sealed e healthy fueled room =
      let (t, p, executed, idle, waits, complete) =
        poll-IsComplete free b.header.number c.to_task fuel (new_task (new b) c.to_task true) ms
          refl refl refl healthy fueled (omega (arith, room)) (new-IsComplete b sealed) in
      (
        t,
        p,
        idle,
        waits,
        complete.chain,
        complete.blocks,
        complete.held,
        ap (map some) complete.same ∙ consume_relays c ds e,
      )
