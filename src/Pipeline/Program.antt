-- ===== src/Pipeline/Program.antt =====
-- The whole program: the simulated network of src/chain/simulator.rs, the consumer of src/chain.rs and the
-- execution task of src/chain/task.rs.
use mathlib.Core.List.{Sublist, Mem, mem-map_of_mem}
use mathlib.Core.List.Sublist
use rem_poc.Prelude.{
  All, All-prefix, subst, sym, ℕ, arith, refl, ◌+◌, u64_mod, ◌<◌, ◌≡◌, List, ◌++◌, map, some,
  length,
}
use rem_poc.Prelude.Run.{ok, ok_unique}
use rem_poc.Reth.{Reth, SealedHeader}
use rem_poc.Storage.{new}
use rem_poc.Storage.Chain.{CollisionFree, IsChain}
use rem_poc.Storage.Represents.{Block, transactions_of, Represents}
use rem_poc.Task.{MalachiteTask}
use rem_poc.Task.Life.{Lives}
use rem_poc.Context.Malachite.{Malachite}
use rem_poc.Context.Value.{DecisionStep}
use rem_poc.Chain.Consumer.{Consumer, empty_consumer, consume}
use rem_poc.Simulator.{Simulator, Step, blocked, stepped, crashed, run}
use rem_poc.Chain.{build_values}
use rem_poc.Chain.Builder.{idle, interleave, All-interleave, MalachiteChain, poll_chain}
use rem_poc.Simulator.Library.{Consensus, IsLawful, DecidesProposed, MakesNoValues}
use rem_poc.Simulator.Pool.{RunAnnounces, run-RunAnnounces}
use rem_poc.Simulator.Values.{Announces}
use rem_poc.Simulator.Consumed.{Consumed}
use rem_poc.Simulator.Feeds.{RunConsumed, run-RunConsumed}
use rem_poc.Pipeline.FromPool.{FromPool, build_values-FromPool, decided-FromPool}
use rem_poc.Pipeline.{decided, Represents-decided}

module _ {M : Malachite} (R : Reth) (batches : List (List R.Transaction)) where
  -- What a task has built that started on the storage of the block `b` and has got the sets that a
  -- consumer sent: some of the decided ones, and all of them sets that the pool yielded.
  abbrev pub Built :
      SealedHeader → Consumer R.Transaction → List (DecisionStep M R.Transaction) → Type 0
  Built b c ds =
      (t : MalachiteTask R)
      → Lives (new b) t c.to_task
      → b.header.number + length c.to_task < u64_mod
      → IsChain t.storage b.header.number
        × (blocks : List (Block R)) × Represents t.storage b.header.number blocks
        × Sublist (map some (transactions_of blocks)) (decided ds)
        × ((txs : List R.Transaction) → Mem txs (transactions_of blocks) → Mem txs batches)

  -- The same for each beginning of the decision steps, which the consumer goes through.
  abbrev pub BuiltFrom : SealedHeader → List (DecisionStep M R.Transaction) → Type 0
  BuiltFrom b ds =
      (before after : List (DecisionStep M R.Transaction))
      → before ++ after ≡ ds
      → (c : Consumer R.Transaction) × (consume empty_consumer before ≡ ok c) × Built b c before

  Consumed-Built :
      (free : CollisionFree R) (b : SealedHeader) (ds : List (DecisionStep M R.Transaction))
      (c : Consumer R.Transaction)
      → R.hash_slow b.header ≡ b.hash
      → consume empty_consumer ds ≡ ok c
      → All (Announces (FromPool batches)) ds
      → Built b c ds
  Consumed-Built free b ds c sealed is from t life room =
      let (chain, blocks, held, sub) = Represents-decided free b ds c t sealed is life room in
      (
        chain,
        blocks,
        held,
        sub,
        λ txs m.
            decided-FromPool batches ds txs from
              (Sublist.subset sub (some txs) (mem-map_of_mem some m)),
      )

  Consumed-BuiltFrom :
      (free : CollisionFree R) (b : SealedHeader) (ds : List (DecisionStep M R.Transaction))
      → R.hash_slow b.header ≡ b.hash
      → Consumed ds
      → All (Announces (FromPool batches)) ds
      → BuiltFrom b ds
  Consumed-BuiltFrom free b ds sealed consumed from before after e =
      let (c, is) = consumed before after e in
      let from' : All (Announces (FromPool batches)) before =
        All-prefix _ before after (subst (All (Announces (FromPool batches))) (sym e) from) in
      (c, is, Consumed-Built free b before c sealed is from')

module _ {M : Malachite} (R : Reth) (C : Consensus M R.Transaction)
    (batches : List (List R.Transaction)) where
  abbrev pub RunBuilt : SealedHeader → Step C → Type 0
  RunBuilt b blocked = Unit
  RunBuilt b (stepped states w) = BuiltFrom R batches b w.decision_steps
  RunBuilt b (crashed w) = BuiltFrom R batches b w.decision_steps

  RunConsumed-RunBuilt :
      (free : CollisionFree R) (makes : MakesNoValues C) (b : SealedHeader) (r : Step C)
      → R.hash_slow b.header ≡ b.hash
      → RunConsumed C r
      → RunAnnounces C makes (FromPool batches) r
      → RunBuilt b r
  RunConsumed-RunBuilt free makes b blocked sealed h from = tt
  RunConsumed-RunBuilt free makes b (stepped states w) sealed h from =
      Consumed-BuiltFrom R batches free b _ sealed h from
  RunConsumed-RunBuilt free makes b (crashed w) sealed h from =
      Consumed-BuiltFrom R batches free b _ sealed h from

  -- The program, from the pool to the executed blocks. Whatever the randomness, the chain sets up its
  -- network of four peers, and runs it for any number of steps, with the sets of transactions that the
  -- block builder gets from the pool, whenever it sends them. The consumer goes without a panic through any beginning of the
  -- decision steps that are left where the last step goes through or crashes. And if an execution
  -- task, started on the storage of a sealed header, has got on its channel the sets that the consumer
  -- then sent, and was polled in any way in between, its storage is a well-formed chain, and the
  -- transactions of its blocks above the first one are, in the order of the blocks, some of the sets
  -- that were decided, in the order of their finalization; and each of them is one of the sets from the
  -- pool. The library is taken to keep the parameters of a state, to touch the channels through the
  -- handler alone, to decide only heights that the peer has received a value for or published a
  -- proposal for, and to make no values up; headers at different heights are taken to have different
  -- hashes, and the heights to stay below 2^64.
  pub poll_chain-RunBuilt :
      (lawful : IsLawful C) (decides : DecidesProposed C) (makes : MakesNoValues C)
      (free : CollisionFree R) {Pool : Type 0} (chain : MalachiteChain Pool) (random : ℕ)
      (schedule : List ℕ) (b : SealedHeader)
      → R.hash_slow b.header ≡ b.hash
      → (r : Step C) × (poll_chain C chain random batches schedule ≡ ok r) × RunBuilt b r
  unfolding poll_chain
  poll_chain-RunBuilt lawful decides makes free chain random schedule b sealed =
      let arrivals = interleave schedule (build_values 0 batches) in
      let (sim, states, made, consumed) =
        run-RunConsumed C lawful decides random 4 arrivals (omega arith) (omega arith) in
      let (sim', states', made', announced) =
        run-RunAnnounces C makes (FromPool batches) lawful random 4 arrivals (omega arith)
          (omega arith)
          (All-interleave (FromPool batches) schedule (build_values 0 batches)
            (build_values-FromPool batches 0 batches (λ txs m. m))) in
      let same : (sim', states') ≡ (sim, states) =
        ok_unique (rem_poc.Simulator.new C random 4) (sim', states') (sim, states) made' made in
      (
        run C arrivals sim states idle,
        rw made refl,
        RunConsumed-RunBuilt free makes b _ sealed consumed (
            subst
              (λ (x : Simulator C × List C.State).
                RunAnnounces C makes (FromPool batches) (run C arrivals x.0 x.1 idle))
              same announced),
      )
