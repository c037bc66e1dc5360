-- ===== src/Pipeline/Exact.antt =====
-- The consumer and the task when every execution has led to a removal from the pool: the blocks follow what is decided without a gap.
use mathlib.Core.List.{map-append}
use rem_poc.Prelude.{
  ◌+◌, u64_mod, ◌<◌, ◌≡◌, sym, ap, ◌∙◌, List, ◌++◌, map, some, length, length-map, arith,
}
use rem_poc.Prelude.Run.{ok}
use rem_poc.Reth.{Reth, SealedHeader}
use rem_poc.Storage.{new}
use rem_poc.Storage.Chain.{CollisionFree, IsChain}
use rem_poc.Storage.Represents.{Block, transactions_of, Represents}
use rem_poc.Context.Malachite.{Malachite}
use rem_poc.Context.Value.{DecisionStep}
use rem_poc.Chain.Consumer.{Consumer, empty_consumer, consume}
use rem_poc.Chain.Relay.{consume_relays}
use rem_poc.Task.{MalachiteTask}
use rem_poc.Task.Life.{Lives, work-Lives, Lives-IsBuilt}
use rem_poc.Task.Work.{unexecuted}
use rem_poc.Pipeline.{decided}

module _ {M : Malachite} {R : Reth} where
  -- Nothing that was decided is lost, repeated or put out of order on its way into the chain, where the
  -- task has removed a set from the pool for each that it has executed. The task was started on the
  -- storage of a sealed header, and the sets that have arrived on its channel so far are those that a
  -- consumer has sent on going through the decision steps `ds`; between the arrivals the task was
  -- polled in any way, and each poll returned. Then the storage is a well-formed chain; what was removed
  -- from the pool are the transactions of its blocks above the first one, block for block; and the sets
  -- of these blocks, followed by the set that the insert future holds before it has the lock and by
  -- those that wait on the queue and on the channel, are exactly what was decided: the transactions of
  -- the values proposed first for the heights that peer 0 has finalized, in this order. Headers at
  -- different heights are taken to have different hashes, and the heights to stay below 2^64.
  pub blocks-decided :
      (free : CollisionFree R) (b : SealedHeader) (ds : List (DecisionStep M R.Transaction))
      (c : Consumer R.Transaction) (t : MalachiteTask R)
      → R.hash_slow b.header ≡ b.hash
      → consume empty_consumer ds ≡ ok c
      → Lives (new b) t c.to_task
      → b.header.number + length c.to_task < u64_mod
      → length t.removed ≡ length t.executed
      → IsChain t.storage b.header.number
        × (blocks : List (Block R)) × Represents t.storage b.header.number blocks
        × (map (map R.transaction_hash) (transactions_of blocks) ≡ t.removed)
        × (map some (transactions_of blocks)
              ++ map some (unexecuted t.insert_task ++ (t.queued ++ t.chain_rx))
            ≡ decided ds)
  blocks-decided free b ds c t sealed e l room none_failed =
      let waits = unexecuted t.insert_task ++ (t.queued ++ t.chain_rx) in
      let built = Lives-IsBuilt free b sealed l room in
      let all : transactions_of built.blocks ≡ t.executed = built.exact (
        omega (
          arith,
          none_failed,
          ap length built.removals_same,
          length-map (map R.transaction_hash) (transactions_of built.blocks),
          length-map (λ (b : Block R). b.1.transactions) built.blocks,
        )) in
      (
        built.chain,
        built.blocks,
        built.held,
        built.removals_same,
        sym (map-append some (transactions_of built.blocks) waits)
            ∙ (ap (λ sets. map some (sets ++ waits)) all
                ∙ (ap (map some) (work-Lives l) ∙ consume_relays c ds e)),
      )
