-- ===== src/Task/Engine.antt =====
-- What the insert future tells the engine of a block, and what it makes of the engine's replies.
use rem_poc.Prelude.{
  replicate, ℕ, zero, suc, ◌≡◌, sym, ap, ◌∙◌, List, [], ◌∷◌, ◌++◌, append_assoc, append-nil, map,
  Option, none, some,
}
use rem_poc.Prelude.Run.{ok}
use rem_poc.Reth.{Reth, SealedHeader}
use rem_poc.Task.{
  MalachiteTask, ForkchoiceState, awaiting, ready, pending, panicked, Reply, valid, invalid,
  syncing, failed, dropped, after_execution, await_replies, send_update, set_heads,
}

-- The message that makes the block with this header the head.
abbrev pub update_of : SealedHeader → ForkchoiceState
update_of h = record {
  head_block_hash = h.hash;
  finalized_block_hash = h.hash;
  safe_block_hash = h.hash;
}

module _ {R : Reth} where
  await_replies-syncing :
      (k : ℕ) (t : MalachiteTask R) (h : SealedHeader) (events : Option R.PipelineEvents)
      (rs : List Reply)
      → await_replies t h events (replicate k syncing ++ rs)
        ≡ await_replies
            (record t { to_engine = t.to_engine ++ replicate k (update_of h) })
            h
            events
            rs
  unfolding await_replies send_update
  await_replies-syncing zero t h events rs =
      ap (λ l. await_replies (record t { to_engine = l }) h events rs)
        (sym (append-nil t.to_engine))
  await_replies-syncing (suc k) t h events rs =
      await_replies-syncing k (send_update t h) h events rs
      ∙ ap (λ l. await_replies (record t { to_engine = l }) h events rs)
          (append_assoc t.to_engine (update_of h ∷ []) (replicate k (update_of h)))

  -- For a block that was executed, the task removes its transactions from the pool and sends the
  -- engine one message that makes it the head, and the same again for each of `k` replies that the
  -- engine is syncing. While no other reply has come it waits. On a valid reply the block becomes
  -- the canonical, safe and finalized head, and the pipeline events are kept; on an invalid or
  -- failed one the heads stay, and the pipeline events are lost; where the engine drops the reply,
  -- the task panics.
  pub after_execution_lem :
      (t : MalachiteTask R) (txs : List R.Transaction) (h : SealedHeader) (o : R.Outcome)
      (events : Option R.PipelineEvents) (k : ℕ)
      → let u : MalachiteTask R = record t {
        removed = t.removed ++ map R.transaction_hash txs ∷ [];
        to_engine = t.to_engine ++ replicate (suc k) (update_of h);
      } in
        let after = λ (rs : List Reply).
          after_execution t txs events (replicate k syncing ++ rs) (ok (h, o)) in
        (after [] ≡ pending u (awaiting h events))
        × ((rs : List Reply)
            → after (valid ∷ rs)
              ≡ ready
                  (record u {
                    heads = record { canonical = some h; safe = some h; finalized = some h };
                  })
                  events)
        × ((rs : List Reply) → after (invalid ∷ rs) ≡ ready u none)
        × ((rs : List Reply) → after (failed ∷ rs) ≡ ready u none)
        × ((rs : List Reply) → after (dropped ∷ rs) ≡ panicked u)
  unfolding after_execution await_replies send_update set_heads
  after_execution_lem t txs h o events k =
      let t₁ : MalachiteTask R = record t {
        removed = t.removed ++ map R.transaction_hash txs ∷ [];
      } in
      let at = λ (rs : List Reply).
        await_replies-syncing k (send_update t₁ h) h events rs
        ∙ ap (λ l. await_replies (record t₁ { to_engine = l }) h events rs)
            (append_assoc t.to_engine (update_of h ∷ []) (replicate k (update_of h))) in
      (
        at [],
        λ rs. at (valid ∷ rs),
        λ rs. at (invalid ∷ rs),
        λ rs. at (failed ∷ rs),
        λ rs. at (dropped ∷ rs),
      )
