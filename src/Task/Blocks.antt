-- ===== src/Task/Blocks.antt =====
-- The task's storage: whatever a poll meets, it stays a well-formed chain.
use rem_poc.Prelude.{ℕ, suc, ◌+◌, ◌<◌, ◌≤◌, ◌≡◌, true, ap, List, [], arith, u64_mod}
use rem_poc.Prelude.Run.{Run, ok, err, panic}
use rem_poc.Reth.{Reth, SealedHeader}
use rem_poc.Storage.{StorageInner, build_and_execute}
use rem_poc.Storage.Chain.{CollisionFree, IsChain}
use rem_poc.Storage.Execute.{Executed, build_and_execute-Executed, build_and_execute-IsChain}
use rem_poc.Task.{MalachiteTask, Meeting}
use rem_poc.Task.Poll.{poll}
use rem_poc.Task.Rule.{waiting, left, poll-Holds}

-- The storage is a well-formed chain from `base`, with room for a block for each waiting set.
abbrev pub Stores : {R : Reth} → ℕ → MalachiteTask R → Type 0
Stores base t = IsChain t.storage base × (t.storage.best_block + waiting t < u64_mod)

module _ {R : Reth} (free : CollisionFree R) (base : ℕ) where
  -- A call makes the chain at most one block longer.
  Executed-best_block :
      (s : StorageInner R) (txs : List R.Transaction)
      (x : Run R.ExecutionError (SealedHeader × R.Outcome) × StorageInner R)
      → s.best_block + 1 < u64_mod
      → Executed s txs [] x
      → x.1.best_block ≤ suc s.best_block
  Executed-best_block s txs (ok (h, o), t) room h' = omega (arith, h'.2, h'.3, room)
  Executed-best_block s txs (err e, t) room same =
      omega (arith, ap (λ (s : StorageInner R). s.best_block) same)
  Executed-best_block s txs (panic, t) room same =
      omega (arith, ap (λ (s : StorageInner R). s.best_block) same)

  one_more :
      (m : Meeting R) (s : StorageInner R) (executed : List (List R.Transaction))
      (removed : List (List ℕ)) (txs : List R.Transaction) (n : ℕ)
      → m.lock_free ≡ true
      → IsChain s base × (s.best_block + suc n < u64_mod)
      → let t = (build_and_execute m.environment s txs []).1 in
        IsChain t base × (t.best_block + n < u64_mod)
  one_more m s executed removed txs n locked (chain, room) =
      let one : s.best_block + 1 < u64_mod = omega (arith, room) in
      let grown : (build_and_execute m.environment s txs []).1.best_block ≤ suc s.best_block =
        Executed-best_block s txs (build_and_execute m.environment s txs []) one
          (build_and_execute-Executed s txs [] m.environment) in
      (
        build_and_execute-IsChain free m.environment s base txs [] one chain,
        omega (arith, room, grown),
      )

  -- If the storage is a well-formed chain with room for a block for each set of transactions that the
  -- task has still to execute, and headers at different heights have different hashes, it is so again
  -- after a poll, also where the poll panics: whatever the clock, the provider, the executor and the
  -- engine do, and whatever the order in which sets arrive and the insert future waits.
  pub poll-Stores :
      (fuel : ℕ) (t : MalachiteTask R) (ms : List (Meeting R))
      → Stores base t
      → Stores base (left (poll fuel t ms))
  poll-Stores fuel t ms =
      poll-Holds (λ s executed removed n. IsChain s base × (s.best_block + n < u64_mod)) one_more
        fuel t ms
