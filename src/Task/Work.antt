-- ===== src/Task/Work.antt =====
-- The work of the task: what it has executed, what it holds, what waits on the channel. No poll loses,
-- repeats or reorders any of it, and every poll ends.
use rem_poc.Prelude.{
  ℕ, suc, ◌+◌, ◌≡◌, refl, subst, inl, inr, List, [], ◌∷◌, ◌++◌, append_assoc, Option, none, some,
  arith, length, Bool-cases,
}
use rem_poc.Prelude.Run.{Run, ok, err, panic}
use rem_poc.Reth.{Reth, SealedHeader}
use rem_poc.Storage.{build_and_execute}
use rem_poc.Task.{
  MalachiteTask, Meeting, Insert, locking, awaiting, Polled, ready, pending, panicked, Reply, valid,
  invalid, syncing, failed, dropped, poll_insert, after_execution, await_replies, send_update,
}

module _ {R : Reth} where
  -- The set of transactions that a future has still to execute.
  abbrev pub unexecuted : Option (Insert R) → List (List R.Transaction)
  unexecuted none = []
  unexecuted (some (locking txs events)) = txs ∷ []
  unexecuted (some (awaiting header events)) = []

  -- All sets of transactions that the task has to do with, oldest first.
  abbrev pub work : MalachiteTask R → List (List R.Transaction)
  work t = t.executed ++ (unexecuted t.insert_task ++ (t.queued ++ t.chain_rx))

  abbrev pub in_flight : Option (Insert R) → ℕ
  in_flight none = 0
  in_flight (some fut) = 1

  -- How many sets the task holds or will receive, one that is being inserted included.
  abbrev pub backlog : MalachiteTask R → ℕ
  backlog t = in_flight t.insert_task + (length t.queued + length t.chain_rx)

  -- A poll of the future on a task with no other leaves `left` sets in the backlog and changes none of
  -- the work.
  abbrev pub PolledWell : List (List R.Transaction) → ℕ → Polled R → Type 0
  PolledWell w left (ready t events) = (work t ≡ w) × (backlog t ≡ left)
  PolledWell w left (pending t fut) =
      (work (record t { insert_task = some fut }) ≡ w)
      × (backlog (record t { insert_task = some fut }) ≡ suc left)
  PolledWell w left (panicked t) = work t ≡ w

  await_replies-PolledWell :
      (t : MalachiteTask R) (h : SealedHeader) (events : Option R.PipelineEvents) (rs : List Reply)
      → t.insert_task ≡ none
      → PolledWell (work t) (backlog t) (await_replies t h events rs)
  unfolding await_replies send_update
  await_replies-PolledWell t h events [] e = (rw e refl, rw e (omega arith))
  await_replies-PolledWell t h events (valid ∷ rs) e = (refl, refl)
  await_replies-PolledWell t h events (invalid ∷ rs) e = (refl, refl)
  await_replies-PolledWell t h events (failed ∷ rs) e = (refl, refl)
  await_replies-PolledWell t h events (dropped ∷ rs) e = refl
  await_replies-PolledWell t h events (syncing ∷ rs) e =
      await_replies-PolledWell (send_update t h) h events rs e

  after_execution-PolledWell :
      (t : MalachiteTask R) (txs : List R.Transaction) (events : Option R.PipelineEvents)
      (rs : List Reply) (r : Run R.ExecutionError (SealedHeader × R.Outcome))
      → t.insert_task ≡ none
      → PolledWell (work t) (backlog t) (after_execution t txs events rs r)
  unfolding after_execution send_update
  after_execution-PolledWell t txs events rs (err x) e = (refl, refl)
  after_execution-PolledWell t txs events rs panic e = refl
  after_execution-PolledWell t txs events rs (ok (h, o)) e =
      await_replies-PolledWell (send_update (record t { removed = _ }) h) h events rs e

  pub poll_insert-PolledWell :
      (t : MalachiteTask R) (m : Meeting R) (fut : Insert R)
      → t.insert_task ≡ none
      → PolledWell (work (record t { insert_task = some fut })) (backlog t) (poll_insert t m fut)
  unfolding poll_insert
  poll_insert-PolledWell t m (awaiting h events) e =
      subst (λ w. PolledWell w (backlog t) (await_replies t h events m.replies)) (rw e)
        (await_replies-PolledWell t h events m.replies e)
  poll_insert-PolledWell t m (locking txs events) e = elim (Bool-cases m.lock_free) [
    | inr held ↦ rw held (refl, rw e (omega arith))
    | inl free ↦
        let (r, storage) = build_and_execute m.environment t.storage txs [] in
        let t' : MalachiteTask R = record t {
          storage = storage;
          executed = t.executed ++ txs ∷ [];
        } in
        let same : work t' ≡ t.executed ++ txs ∷ (t.queued ++ t.chain_rx) =
          rw (e, append_assoc) refl in
        rw free (
          subst (λ w. PolledWell w (backlog t') (after_execution t' txs events m.replies r)) same
            (after_execution-PolledWell t' txs events m.replies r e))
  ]
