-- ===== src/Task/Conclusive.antt =====
-- What the insert future comes to when the engine comes to a reply.
use rem_poc.Prelude.{◌≡◌, refl, List, [], ◌∷◌, Option, none}
use rem_poc.Prelude.Run.{Run, ok, err, panic, Returns}
use rem_poc.Reth.{Reth, SealedHeader}
use rem_poc.Task.{
  MalachiteTask, ready, Reply, valid, invalid, syncing, failed, dropped, await_replies,
  after_execution, send_update, set_heads,
}

-- The engine comes to a reply on the block, which is not that it has dropped it.
abbrev pub IsConclusive : List Reply → Type 0
IsConclusive [] = ⊥
IsConclusive (valid ∷ rs) = Unit
IsConclusive (invalid ∷ rs) = Unit
IsConclusive (failed ∷ rs) = Unit
IsConclusive (syncing ∷ rs) = IsConclusive rs
IsConclusive (dropped ∷ rs) = ⊥

module _ {R : Reth} where
  -- What the future leaves alone.
  pub record IsFramed (t t' : MalachiteTask R) : Type 0 where
    pub insert_task : t'.insert_task ≡ t.insert_task
    pub storage : t'.storage ≡ t.storage
    pub executed : t'.executed ≡ t.executed
    pub queued : t'.queued ≡ t.queued
    pub chain_rx : t'.chain_rx ≡ t.chain_rx
    pub chain_open : t'.chain_open ≡ t.chain_open

  framed : (t : MalachiteTask R) → IsFramed t t
  framed t = record {
    insert_task = refl;
    storage = refl;
    executed = refl;
    queued = refl;
    chain_rx = refl;
    chain_open = refl;
  }

  await_replies-ready :
      (t : MalachiteTask R) (h : SealedHeader) (events : Option R.PipelineEvents) (rs : List Reply)
      → IsConclusive rs
      → (t' : MalachiteTask R) × (events' : Option R.PipelineEvents) × (await_replies t h events rs
          ≡ ready t' events')
        × IsFramed t t'
  unfolding await_replies send_update set_heads
  await_replies-ready t h events [] c = absurd c
  await_replies-ready t h events (valid ∷ rs) c = (
    _,
    events,
    refl,
    record {
      insert_task = refl;
      storage = refl;
      executed = refl;
      queued = refl;
      chain_rx = refl;
      chain_open = refl;
    },
  )
  await_replies-ready t h events (invalid ∷ rs) c = (t, none, refl, framed t)
  await_replies-ready t h events (failed ∷ rs) c = (t, none, refl, framed t)
  await_replies-ready t h events (dropped ∷ rs) c = absurd c
  await_replies-ready t h events (syncing ∷ rs) c =
      let (t', events', e, f) = await_replies-ready (send_update t h) h events rs c in
      (
        t',
        events',
        e,
        record {
          insert_task = f.insert_task;
          storage = f.storage;
          executed = f.executed;
          queued = f.queued;
          chain_rx = f.chain_rx;
          chain_open = f.chain_open;
        },
      )

  pub after_execution-ready :
      (t : MalachiteTask R) (txs : List R.Transaction) (events : Option R.PipelineEvents)
      (rs : List Reply) (r : Run R.ExecutionError (SealedHeader × R.Outcome))
      → Returns r
      → IsConclusive rs
      → (t' : MalachiteTask R) × (events' : Option R.PipelineEvents) × (after_execution t txs events
            rs r
          ≡ ready t' events')
        × IsFramed t t'
  unfolding after_execution send_update
  after_execution-ready t txs events rs (ok (h, o)) is c =
      let (t', events', e, f) = await_replies-ready _ h events rs c in
      (
        t',
        events',
        e,
        record {
          insert_task = f.insert_task;
          storage = f.storage;
          executed = f.executed;
          queued = f.queued;
          chain_rx = f.chain_rx;
          chain_open = f.chain_open;
        },
      )
  after_execution-ready t txs events rs (err x) (a, e) c = cc
  after_execution-ready t txs events rs panic (a, e) c = cc
