-- ===== src/Pipeline.antt =====
-- From the decision steps to the executed blocks: src/chain.rs and src/chain/task.rs together. What the
-- consumer sends is what waits on the task's channel.
pub mod Complete
pub mod Exact
pub mod FromPool
pub mod Program
pub mod Served
use mathlib.Core.Option
use mathlib.Core.Logic.{∥∥₁_map}
use mathlib.Core.List.Sublist
use mathlib.Core.List.Sublistᴰ.{slnil, cons, cons-cons}
use mathlib.Core.List.{Sublist, Sublistᴰ, map-append, sublist-append_left}
use rem_poc.Prelude.{
  subst, ℕ, ◌+◌, u64_mod, ◌<◌, ◌≡◌, sym, ap, ◌∙◌, List, ◌++◌, map, Option, some, Bool, arith,
  length,
}
use rem_poc.Prelude.Run.{ok}
use rem_poc.Reth.{Reth, SealedHeader}
use rem_poc.Storage.{StorageInner, new}
use rem_poc.Storage.Chain.{CollisionFree, IsChain}
use rem_poc.Storage.Represents.{Block, transactions_of, Represents}
use rem_poc.Task.Life.{Lives, work-Lives, Lives-IsBuilt}
use rem_poc.Context.Malachite.{Malachite}
use rem_poc.Context.Value.{DecisionStep}
use rem_poc.Chain.Consumer.{Consumer, empty_consumer, consume}
use rem_poc.Chain.Relay.{first_proposal, finalized_heights, consume_relays}
use rem_poc.Task.{MalachiteTask, Meeting, new_task}
use rem_poc.Task.Poll.{Outcome, returned, crashed, out_of_fuel, poll}
use rem_poc.Task.Work.{work, unexecuted}
use rem_poc.Task.Order.{PollWell, poll-PollWell}
use rem_poc.Task.Rule.{left}

module _ {M : Malachite} {Transaction : Type 0} where
  -- The transactions of the values proposed first for the heights that peer 0 has finalized.
  abbrev pub decided : List (DecisionStep M Transaction) → List (Option (List Transaction))
  decided ds =
      map (λ h. Option.map (λ v. v.transactions) (first_proposal ds h)) (finalized_heights ds)

module _ {R : Reth} where
  work-PollWell : (w : List (List R.Transaction)) (o : Outcome R) → PollWell w o → work (left o) ≡ w
  work-PollWell w (returned t) h = h.0
  work-PollWell w (crashed t) h = h
  work-PollWell w (out_of_fuel t) h = absurd h

module _ {M : Malachite} {R : Reth} where
  -- Where the consumer has gone through the decision steps, a poll of a new task with what it has sent
  -- on the channel executes, in the order of finalization and without gaps or repetitions, the
  -- transactions of the values proposed first for the heights that peer 0 finalized: what is executed
  -- is a prefix of these, the rest is still held or waits, and it ends, given more fuel than there are
  -- sets.
  pub poll-consume :
      (ds : List (DecisionStep M R.Transaction)) (c : Consumer R.Transaction) (s : StorageInner R)
      (alive : Bool) (ms : List (Meeting R)) (fuel : ℕ)
      → consume empty_consumer ds ≡ ok c
      → length c.to_task < fuel
      → let o = poll fuel (new_task s c.to_task alive) ms in
        let t = left o in
        (map some t.executed ++ map some (unexecuted t.insert_task ++ (t.queued ++ t.chain_rx))
          ≡ decided ds)
        × PollWell c.to_task o
  unfolding new_task
  poll-consume ds c s alive ms fuel e lt =
      let well : PollWell c.to_task (poll fuel (new_task s c.to_task alive) ms) =
        poll-PollWell fuel (new_task s c.to_task alive) ms (omega (arith, lt)) in
      (
        sym (map-append some _ _)
            ∙ (ap (map some)
                  (work-PollWell c.to_task (poll fuel (new_task s c.to_task alive) ms) well)
                ∙ consume_relays c ds e),
        well,
      )

module _ {ℓ κ} {A : Type ℓ} {B : Type κ} (f : A → B) where
  map-Sublistᴰ : {xs ys : List A} → Sublistᴰ xs ys → Sublistᴰ (map f xs) (map f ys)
  map-Sublistᴰ slnil = slnil
  map-Sublistᴰ (cons s) = cons (map-Sublistᴰ s)
  map-Sublistᴰ (cons-cons e s) = cons-cons (ap f e) (map-Sublistᴰ s)

  pub map-Sublist : {xs ys : List A} → Sublist xs ys → Sublist (map f xs) (map f ys)
  map-Sublist s = ∥∥₁_map s map-Sublistᴰ

module _ {M : Malachite} {R : Reth} where
  -- What was executed is a beginning of what was decided, so that the sets of the blocks are some of it.
  pub ran-decided :
      (ds : List (DecisionStep M R.Transaction)) (c : Consumer R.Transaction) (s : StorageInner R)
      (t : MalachiteTask R) (blocks : List (Block R))
      → consume empty_consumer ds ≡ ok c
      → Lives s t c.to_task
      → Sublist (transactions_of blocks) t.executed
      → Sublist (map some (transactions_of blocks)) (decided ds)
  ran-decided ds c s t blocks e l ran =
      let waits = unexecuted t.insert_task ++ (t.queued ++ t.chain_rx) in
      let all : map some t.executed ++ map some waits ≡ decided ds =
        sym (map-append some t.executed waits)
        ∙ (ap (map some) (work-Lives l) ∙ consume_relays c ds e) in
      subst (Sublist (map some (transactions_of blocks))) all (
        Sublist.trans (map-Sublist some ran)
          (sublist-append_left (map some t.executed) (map some waits)))

  -- The chain that the execution task builds from consensus. Its storage was made from a sealed header,
  -- and the sets that have arrived on its channel so far are those that a consumer has sent on going
  -- through the decision steps `ds`; between the arrivals the task was polled in any way. Then the
  -- storage is a well-formed chain, and the transactions of its blocks above the first one are, in the
  -- order of the blocks, some of the sets that were decided, in the order of their finalization: of the
  -- values proposed first for the heights that peer 0 has finalized. Headers at different heights are
  -- taken to have different hashes, and the heights to stay below 2^64.
  pub Represents-decided :
      (free : CollisionFree R) (b : SealedHeader) (ds : List (DecisionStep M R.Transaction))
      (c : Consumer R.Transaction) (t : MalachiteTask R)
      → R.hash_slow b.header ≡ b.hash
      → consume empty_consumer ds ≡ ok c
      → Lives (new b) t c.to_task
      → b.header.number + length c.to_task < u64_mod
      → IsChain t.storage b.header.number
        × (blocks : List (Block R)) × Represents t.storage b.header.number blocks
        × Sublist (map some (transactions_of blocks)) (decided ds)
  Represents-decided free b ds c t sealed e l room =
      let built = Lives-IsBuilt free b sealed l room in
      (built.chain, built.blocks, built.held, ran-decided ds c (new b) t built.blocks e l built.ran)
