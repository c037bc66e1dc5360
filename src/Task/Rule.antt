-- ===== src/Task/Rule.antt =====
-- The rule for what a poll keeps: a property of the storage, of what was executed, of what was removed from
-- the pool and of how many sets wait, which holds after each execution of a set if it held before.
use rem_poc.Prelude.{
  ℕ, zero, suc, ◌+◌, ◌≡◌, refl, ap, subst, List, [], ◌∷◌, ◌++◌, Option, none, some, Bool, true,
  false, arith, length, length-append, Bool-cases, inl, inr, map,
}
use rem_poc.Prelude.Run.{Run, ok, err, panic}
use rem_poc.Reth.{Reth, SealedHeader}
use rem_poc.Storage.{StorageInner, build_and_execute}
use rem_poc.Task.{
  MalachiteTask, Meeting, Insert, locking, awaiting, Polled, ready, pending, panicked, Reply, valid,
  invalid, syncing, failed, dropped, poll_insert, after_execution, await_replies, send_update,
  set_heads,
}
use rem_poc.Task.Poll.{
  Pass, again, stop, crash, Outcome, returned, crashed, out_of_fuel, receive, after_poll, drive,
  dispatch, pass, poll,
}
use rem_poc.Task.Work.{unexecuted}

module _ {R : Reth} where
  -- How many sets of transactions the task has still to execute.
  abbrev pub waiting : MalachiteTask R → ℕ
  waiting t = length (unexecuted t.insert_task) + (length t.queued + length t.chain_rx)

  -- The task that a poll leaves, also where it panics.
  abbrev pub left : Outcome R → MalachiteTask R
  left (returned t) = t
  left (crashed t) = t
  left (out_of_fuel t) = t

module _ (R : Reth) where
  -- What has been removed from the pool after an execution: its transactions, where it was a success.
  abbrev pub removals :
      Run R.ExecutionError (SealedHeader × R.Outcome)
      → List R.Transaction
      → List (List ℕ)
      → List (List ℕ)
  removals (ok x) txs removed = removed ++ map R.transaction_hash txs ∷ []
  removals (err e) txs removed = removed
  removals panic txs removed = removed

module _ {R : Reth} (Q : StorageInner R → List (List R.Transaction) → List (List ℕ) → ℕ → Type 0)
    (grows : (m : Meeting R) (s : StorageInner R) (executed : List (List R.Transaction))
        (removed : List (List ℕ)) (txs : List R.Transaction) (n : ℕ)
      → m.lock_free ≡ true
      → Q s executed removed (suc n)
      → let r = build_and_execute m.environment s txs [] in
        Q r.1 (executed ++ txs ∷ []) (removals R r.0 txs removed) n) where
  abbrev pub Holds : MalachiteTask R → Type 0
  Holds t = Q t.storage t.executed t.removed (waiting t)

  PolledHolds : Polled R → Type 0
  PolledHolds (ready t events) = Holds t
  PolledHolds (pending t fut) = Holds (record t { insert_task = some fut })
  PolledHolds (panicked t) = Holds t

  await_replies-PolledHolds :
      (t : MalachiteTask R) (h : SealedHeader) (events : Option R.PipelineEvents) (rs : List Reply)
      → t.insert_task ≡ none
      → Holds t
      → PolledHolds (await_replies t h events rs)
  unfolding await_replies send_update set_heads PolledHolds
  await_replies-PolledHolds t h events [] e s = rw e at s
  await_replies-PolledHolds t h events (valid ∷ rs) e s = s
  await_replies-PolledHolds t h events (invalid ∷ rs) e s = s
  await_replies-PolledHolds t h events (failed ∷ rs) e s = s
  await_replies-PolledHolds t h events (dropped ∷ rs) e s = s
  await_replies-PolledHolds t h events (syncing ∷ rs) e s =
      await_replies-PolledHolds (send_update t h) h events rs e s

  after_execution-PolledHolds :
      (t : MalachiteTask R) (txs : List R.Transaction) (events : Option R.PipelineEvents)
      (rs : List Reply) (r : Run R.ExecutionError (SealedHeader × R.Outcome))
      → t.insert_task ≡ none
      → Q t.storage t.executed (removals R r txs t.removed) (waiting t)
      → PolledHolds (after_execution t txs events rs r)
  unfolding after_execution send_update PolledHolds
  after_execution-PolledHolds t txs events rs (err x) e s = s
  after_execution-PolledHolds t txs events rs panic e s = s
  after_execution-PolledHolds t txs events rs (ok (h, o)) e s =
      await_replies-PolledHolds (send_update (record t { removed = _ }) h) h events rs e s

  poll_insert-PolledHolds :
      (t : MalachiteTask R) (m : Meeting R) (fut : Insert R)
      → t.insert_task ≡ none
      → Holds (record t { insert_task = some fut })
      → PolledHolds (poll_insert t m fut)
  unfolding poll_insert PolledHolds
  poll_insert-PolledHolds t m (awaiting h events) e s =
      await_replies-PolledHolds t h events m.replies e (rw e s)
  poll_insert-PolledHolds t m (locking txs events) e s = elim (Bool-cases m.lock_free) [
    | inr held ↦ rw held s
    | inl free ↦
        let r = build_and_execute m.environment t.storage txs [] in
        let t' : MalachiteTask R = record t { storage = r.1; executed = t.executed ++ txs ∷ [] } in
        rw free (
          after_execution-PolledHolds t' txs events m.replies r.0 e (
            rw e (
              grows m t.storage t.executed t.removed txs (0 + (length t.queued + length t.chain_rx))
                free (subst (Q t.storage t.executed t.removed) (omega arith) s))))
  ]

  PassHolds : Pass R → Type 0
  PassHolds (again t ms) = Holds t
  PassHolds (stop t) = Holds t
  PassHolds (crash t) = Holds t

  after_poll-PassHolds :
      (p : Polled R) (ms : List (Meeting R)) → PolledHolds p → PassHolds (after_poll p ms)
  unfolding after_poll PolledHolds PassHolds
  after_poll-PassHolds (ready t events) ms h = h
  after_poll-PassHolds (pending t fut) ms h = h
  after_poll-PassHolds (panicked t) ms h = h

  drive-PassHolds :
      (t : MalachiteTask R) (ms : List (Meeting R)) (fut : Insert R)
      → Holds (record t { insert_task = some fut })
      → PassHolds (drive t ms fut)
  unfolding drive PassHolds
  drive-PassHolds t [] fut s = s
  drive-PassHolds t (m ∷ ms) fut s =
      after_poll-PassHolds (poll_insert (record t { insert_task = none }) m fut) ms
        (poll_insert-PolledHolds (record t { insert_task = none }) m fut refl s)

  dispatch-PassHolds :
      (t : MalachiteTask R) (ms : List (Meeting R)) (fut : Option (Insert R))
      (queued : List (List R.Transaction))
      → t.insert_task ≡ fut
      → t.queued ≡ queued
      → Holds t
      → PassHolds (dispatch t ms fut queued)
  unfolding dispatch PassHolds
  dispatch-PassHolds t ms (some fut) queued e q s = drive-PassHolds t ms fut (rw e at s)
  dispatch-PassHolds t ms none [] e q s = s
  dispatch-PassHolds t ms none (txs ∷ rest) e q s =
      drive-PassHolds (record t { queued = rest; pipe_line_events = none }) ms
        (locking txs t.pipe_line_events)
        (subst (Q t.storage t.executed t.removed)
          (omega (arith, ap length q, ap (λ (f : Option (Insert R)). length (unexecuted f)) e)) s)

  ReceivedHolds : Option (MalachiteTask R) → Type 0
  ReceivedHolds none = Unit
  ReceivedHolds (some t) = Holds t

  receive-ReceivedHolds :
      (t : MalachiteTask R) (rx : List (List R.Transaction)) (alive : Bool)
      → t.chain_rx ≡ rx
      → Holds t
      → ReceivedHolds (receive t rx alive)
  unfolding receive ReceivedHolds
  receive-ReceivedHolds t [] true e s = s
  receive-ReceivedHolds t [] false e s = tt
  receive-ReceivedHolds t (v ∷ vs) alive e s =
      subst (Q t.storage t.executed t.removed)
        (omega (arith, ap length e, length-append t.queued (v ∷ []))) s

  pass-PassHolds : (t : MalachiteTask R) (ms : List (Meeting R)) → Holds t → PassHolds (pass t ms)
  pass-PassHolds t ms s =
      on (receive t t.chain_rx t.chain_open) refl
        (receive-ReceivedHolds t t.chain_rx t.chain_open refl s)
    where
      on :
          (o : Option (MalachiteTask R))
          → receive t t.chain_rx t.chain_open ≡ o
          → ReceivedHolds o
          → PassHolds (pass t ms)
      on none e h = unfold pass PassHolds in rw (e, pass) s
      on (some t') e h =
          unfold pass ReceivedHolds in
          rw (e, pass) (dispatch-PassHolds t' ms t'.insert_task t'.queued refl refl h)

  -- What each execution keeps, a poll keeps, also where it panics.
  pub poll-Holds :
      (fuel : ℕ) (t : MalachiteTask R) (ms : List (Meeting R))
      → Holds t
      → Holds (left (poll fuel t ms))
  unfolding poll PassHolds
  poll-Holds zero t ms s = s
  poll-Holds (suc fuel) t ms s = on (poll-Holds fuel) (pass t ms) refl (pass-PassHolds t ms s)
    where
      on :
          ((t' : MalachiteTask R) (ms' : List (Meeting R))
            → Holds t'
            → Holds (left (poll fuel t' ms')))
          → (p : Pass R) → pass t ms ≡ p
          → PassHolds p
          → Holds (left (poll (suc fuel) t ms))
      on ih (again t' ms') e h = rw (e, poll) (ih t' ms' h)
      on ih (stop t') e h = rw (e, poll) h
      on ih (crash t') e h = rw (e, poll) h
