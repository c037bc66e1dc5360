-- ===== src/Task.antt =====
-- src/chain/task.rs: the execution task, which takes sets of transactions off a channel and turns each
-- into a block. The modules below hold the proofs.
pub mod Poll
pub mod Work
pub mod Order
pub mod Rule
pub mod Blocks
pub mod Ledger
pub mod Life
pub mod Engine
mod Conclusive
pub mod Healthy
pub mod Complete
use rem_poc.Prelude.{
  ℕ, zero, suc, ◌+◌, List, [], ◌∷◌, ◌++◌, map, Option, none, some, Bool, true, false, if◌then◌else◌,
  length,
}
use rem_poc.Prelude.Run.{Run, ok, err, panic}
use rem_poc.Reth.{Reth, SealedHeader}
use rem_poc.Storage.{StorageInner, Environment, build_and_execute}

-- `ForkchoiceState`, as it is sent to the engine.
pub record ForkchoiceState : Type 0 where
  pub head_block_hash : ℕ
  pub finalized_block_hash : ℕ
  pub safe_block_hash : ℕ

-- What `rx.await` yields: a status, an error, or nothing, if the engine has dropped the sender.
pub data Reply : Type 0 where
  valid invalid syncing failed dropped : Reply

-- Where the insert future stands: before it has the storage's lock, or waiting for the engine's reply
-- on a block. Both hold the pipeline events that it will return.
pub data Insert (R : Reth) : Type 0 where
  locking : List R.Transaction → Option R.PipelineEvents → Insert R
  awaiting : SealedHeader → Option R.PipelineEvents → Insert R

-- What one poll of the insert future meets: whether the lock is free, the services that a block is
-- built with, and the replies of the engine that arrive without a wait, in order.
pub record Meeting (R : Reth) : Type 0 where
  pub lock_free : Bool
  pub environment : Environment R
  pub replies : List Reply

-- The heads that the task has set in the client.
pub record Heads : Type 0 where
  pub canonical : Option SealedHeader
  pub safe : Option SealedHeader
  pub finalized : Option SealedHeader

pub record MalachiteTask (R : Reth) : Type 0 where
  pub insert_task : Option (Insert R)
  pub storage : StorageInner R
  pub queued : List (List R.Transaction)
  pub pipe_line_events : Option R.PipelineEvents
  -- what waits on the channel, and whether its sender lives
  pub chain_rx : List (List R.Transaction)
  pub chain_open : Bool
  -- what was done outside, oldest first: the messages to the engine, the removals from the pool, and
  -- the sets of transactions that `build_and_execute` was called with
  pub to_engine : List ForkchoiceState
  pub removed : List (List ℕ)
  pub executed : List (List R.Transaction)
  pub heads : Heads

-- The result of a poll of the insert future, which changes the task's surroundings.
pub data Polled (R : Reth) : Type 0 where
  ready : MalachiteTask R → Option R.PipelineEvents → Polled R
  pending : MalachiteTask R → Insert R → Polled R
  panicked : MalachiteTask R → Polled R

module _ {R : Reth} where
  unfoldable pub new_task : StorageInner R → List (List R.Transaction) → Bool → MalachiteTask R
  new_task storage chain_rx chain_open = record {
    insert_task = none;
    storage = storage;
    queued = [];
    pipe_line_events = none;
    chain_rx = chain_rx;
    chain_open = chain_open;
    to_engine = [];
    removed = [];
    executed = [];
    heads = record { canonical = none; safe = none; finalized = none };
  }

  unfoldable pub set_pipeline_events : MalachiteTask R → R.PipelineEvents → MalachiteTask R
  set_pipeline_events t events = record t { pipe_line_events = some events }

  -- One `ForkchoiceUpdated` message for the new header.
  unfoldable pub send_update : MalachiteTask R → SealedHeader → MalachiteTask R
  send_update t h = record t {
    to_engine =
        t.to_engine
        ++ record {
          head_block_hash = h.hash;
          finalized_block_hash = h.hash;
          safe_block_hash = h.hash;
        }
          ∷ [];
  }

  unfoldable pub set_heads : MalachiteTask R → SealedHeader → MalachiteTask R
  set_heads t h = record t {
    heads = record { canonical = some h; safe = some h; finalized = some h };
  }

  -- The inner loop, from where a message has been sent: `syncing` sends it again.
  unfoldable pub await_replies :
      MalachiteTask R → SealedHeader → Option R.PipelineEvents → List Reply → Polled R
  unfolding send_update set_heads
  await_replies t h events [] = pending t (awaiting h events)
  await_replies t h events (valid ∷ rs) = ready (set_heads t h) events
  await_replies t h events (invalid ∷ rs) = ready t none
  await_replies t h events (failed ∷ rs) = ready t none
  await_replies t h events (dropped ∷ rs) = panicked t
  await_replies t h events (syncing ∷ rs) = await_replies (send_update t h) h events rs

  -- The insert future once it has the lock and `build_and_execute` has come to `r`.
  unfoldable pub after_execution :
      MalachiteTask R
      → List R.Transaction
      → Option R.PipelineEvents
      → List Reply
      → Run R.ExecutionError (SealedHeader × R.Outcome)
      → Polled R
  unfolding await_replies
  after_execution t txs events replies (err e) = ready t events
  after_execution t txs events replies panic = panicked t
  after_execution t txs events replies (ok (header, outcome)) =
      await_replies
        (send_update (record t { removed = t.removed ++ map R.transaction_hash txs ∷ [] }) header)
        header events replies

  unfoldable pub poll_insert : MalachiteTask R → Meeting R → Insert R → Polled R
  unfolding after_execution
  poll_insert t m (awaiting h events) = await_replies t h events m.replies
  poll_insert t m (locking txs events) =
      if m.lock_free
      then (let (r, storage) = build_and_execute m.environment t.storage txs [] in
          after_execution (record t { storage = storage; executed = t.executed ++ txs ∷ [] }) txs
            events m.replies r)
      else pending t (locking txs events)
