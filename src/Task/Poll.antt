-- ===== src/Task/Poll.antt =====
-- `MalachiteTask::poll`: the loop around the insert future. The meetings are what the polls of the
-- future meet, in order; where they end, nothing is ready.
use rem_poc.Prelude.{ℕ, zero, suc, List, [], ◌∷◌, ◌++◌, Option, none, some, Bool, true, false}
use rem_poc.Reth.{Reth}
use rem_poc.Task.{
  MalachiteTask, Meeting, Insert, locking, Polled, ready, pending, panicked, poll_insert,
}

-- One pass of the loop goes on, breaks out, or panics.
pub data Pass (R : Reth) : Type 0 where
  again : MalachiteTask R → List (Meeting R) → Pass R
  stop : MalachiteTask R → Pass R
  crash : MalachiteTask R → Pass R

pub data Outcome (R : Reth) : Type 0 where
  -- `Poll::Pending`
  returned : MalachiteTask R → Outcome R
  crashed : MalachiteTask R → Outcome R
  out_of_fuel : MalachiteTask R → Outcome R

module _ {R : Reth} where
  -- The receiving, and with it the rest of the pass: a closed and empty channel yields `None`, whose
  -- `unwrap` panics.
  unfoldable pub receive :
      MalachiteTask R → List (List R.Transaction) → Bool → Option (MalachiteTask R)
  receive t (v ∷ vs) alive = some (record t { chain_rx = vs; queued = t.queued ++ v ∷ [] })
  receive t [] true = some t
  receive t [] false = none

  -- The poll of the future that was taken out of `insert_task`.
  unfoldable pub after_poll : Polled R → List (Meeting R) → Pass R
  after_poll (ready t events) ms = again (record t { pipe_line_events = events }) ms
  after_poll (pending t fut) ms = stop (record t { insert_task = some fut })
  after_poll (panicked t) ms = crash t

  unfoldable pub drive : MalachiteTask R → List (Meeting R) → Insert R → Pass R
  unfolding after_poll poll_insert
  drive t [] fut = stop (record t { insert_task = some fut })
  drive t (m ∷ ms) fut = after_poll (poll_insert (record t { insert_task = none }) m fut) ms

  -- The pass after the receiving: a future at hand is polled, and where there is none one is made for
  -- the oldest set of transactions in the queue.
  unfoldable pub dispatch :
      MalachiteTask R → List (Meeting R) → Option (Insert R) → List (List R.Transaction) → Pass R
  unfolding drive
  dispatch t ms (some fut) queued = drive t ms fut
  dispatch t ms none [] = stop t
  dispatch t ms none (txs ∷ rest) =
      drive (record t { queued = rest; pipe_line_events = none }) ms
        (locking txs t.pipe_line_events)

  unfoldable pub pass : MalachiteTask R → List (Meeting R) → Pass R
  unfolding receive dispatch
  pass t ms = elim (receive t t.chain_rx t.chain_open) [
    | none ↦ crash t
    | some t' ↦ dispatch t' ms t'.insert_task t'.queued
  ]

  unfoldable pub poll : ℕ → MalachiteTask R → List (Meeting R) → Outcome R
  poll zero t ms = out_of_fuel t
  poll (suc fuel) t ms = elim (pass t ms) [
    | again t' ms' ↦ poll fuel t' ms'
    | stop t' ↦ returned t'
    | crash t' ↦ crashed t'
  ]
