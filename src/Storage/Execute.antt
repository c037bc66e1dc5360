-- ===== src/Storage/Execute.antt =====
-- What `build_header_template` and `build_and_execute` promise.
use rem_poc.Prelude.{
  ℕ, ◌≡◌, refl, sym, ap, ◌∙◌, List, Option, some, none, true, false, arith, add_u64, u64_mod, ◌+◌,
  ◌<◌,
}
use rem_poc.Prelude.HashMap
use rem_poc.Prelude.HashMap.{get-insert_self}
use rem_poc.Prelude.Run.{Run, ok, err, panic}
use rem_poc.Reth.{Reth, Header, SealedHeader, BlockBody}
use rem_poc.Storage.Defs.{StorageInner, insert_new_block, placed}
use rem_poc.Storage.Chain.{CollisionFree, IsChain}
use rem_poc.Storage.Insert.{insert_new_block-IsChain}
use rem_poc.Storage.Build.{
  Environment, build_header_template, prepare, build_and_execute, complete, insert_prepared,
}

module _ {R : Reth} (s : StorageInner R) (txs : List R.Transaction) (ommers : List Header) where
  -- The template stands on the best block: its number is the next one and its parent the best hash.
  number-build_header_template :
      (time : ℕ) (w : Option R.Withdrawals) (r : Option R.Requests)
      → ((build_header_template s time txs ommers w r).number ≡ add_u64 s.best_block 1)
        × ((build_header_template s time txs ommers w r).parent_hash ≡ s.best_hash)
  unfolding build_header_template
  number-build_header_template time w r = ground arith

  -- What a header template says of blob gas: nothing before Cancun; under Cancun, that no blob gas is
  -- used, whatever the transactions, with the excess computed from the parent and its beacon root
  -- taken over.
  pub build_header_template_blobs :
      (time : ℕ) (w : Option R.Withdrawals) (r : Option R.Requests)
      → let h = build_header_template s time txs ommers w r in
        (R.is_cancun_active_at_timestamp time ≡ false
          → (h.blob_gas_used ≡ none)
            × (h.excess_blob_gas ≡ none)
            × (h.parent_beacon_block_root ≡ none))
        × (R.is_cancun_active_at_timestamp time ≡ true
            → (h.blob_gas_used ≡ some 0)
              × ((parent : Header)
                  → HashMap.get s.headers s.best_block ≡ some parent
                  → (h.parent_beacon_block_root ≡ parent.parent_beacon_block_root)
                    × (R.is_cancun_active_at_timestamp parent.timestamp ≡ false
                        → h.excess_blob_gas ≡ some (R.calculate_excess_blob_gas 0 0))
                    × ((excess used : ℕ)
                        → R.is_cancun_active_at_timestamp parent.timestamp ≡ true
                        → parent.excess_blob_gas ≡ some excess
                        → parent.blob_gas_used ≡ some used
                        → h.excess_blob_gas ≡ some (R.calculate_excess_blob_gas excess used))))
  unfolding build_header_template
  build_header_template_blobs time w r = (
    (λ inactive. ground arith),
    (λ active. (
      ground arith,
      λ parent at.
          (ground arith, (λ before. ground arith), (λ excess used during e u. ground arith)),
    )),
  )

  pub prepare_lem :
      (env : Environment R) (h : Header) (b : BlockBody R) (o : R.Outcome)
      → prepare env s txs ommers ≡ ok (h, b, o)
      → (placed s h ≡ h) × (b.transactions ≡ txs) × (b.ommers ≡ ommers)
  unfolding prepare complete build_header_template
  prepare_lem env h b o e = ground arith

  -- What a call leaves behind. A block that was executed is in the storage, one above the former
  -- best block and linked to it, with the given transactions for its body, and the sealed header
  -- that is returned bears the hash of its own contents. A call that fails or panics leaves the
  -- storage as it was.
  abbrev pub Executed : Run R.ExecutionError (SealedHeader × R.Outcome) × StorageInner R → Type 0
  Executed (ok (sealed, outcome), t) =
      (sealed.hash ≡ R.hash_slow sealed.header)
      × (sealed.header.parent_hash ≡ s.best_hash)
      × (sealed.header.number ≡ add_u64 s.best_block 1)
      × (t.best_block ≡ sealed.header.number)
      × (t.best_hash ≡ sealed.hash)
      × (HashMap.get t.headers t.best_block ≡ some sealed.header)
      × (HashMap.get t.hash_to_number sealed.hash ≡ some t.best_block)
      × (b : BlockBody R) × (HashMap.get t.bodies sealed.hash ≡ some b)
      × (b.transactions ≡ txs)
      × (b.ommers ≡ ommers)
  Executed (err e, t) = t ≡ s
  Executed (panic, t) = t ≡ s

  Executed-ok :
      (h : Header) (b : BlockBody R) (o : R.Outcome)
      → (placed s h ≡ h) × (b.transactions ≡ txs) × (b.ommers ≡ ommers)
      → let t = insert_new_block s h b in
        Executed (ok (record { header = h; hash = t.best_hash }, o), t)
  unfolding insert_new_block
  Executed-ok h b o (same, t, om) =
      let slot = (placed s h).number in
      let key = R.hash_slow (placed s h) in
      (
        ap R.hash_slow same,
        sym (ap (λ (x : Header). x.parent_hash) same),
        sym (ap (λ (x : Header). x.number) same),
        ap (λ (x : Header). x.number) same,
        refl,
        get-insert_self s.headers slot (placed s h) ∙ ap some same,
        get-insert_self s.hash_to_number key slot,
        b,
        get-insert_self s.bodies key b,
        t,
        om,
      )

  insert_prepared-Executed :
      (r : Run R.ExecutionError (Header × BlockBody R × R.Outcome))
      → ((h : Header) (b : BlockBody R) (o : R.Outcome)
          → r ≡ ok (h, b, o)
          → (placed s h ≡ h) × (b.transactions ≡ txs) × (b.ommers ≡ ommers))
      → Executed (insert_prepared s r)
  unfolding insert_prepared
  insert_prepared-Executed (err e) h = refl
  insert_prepared-Executed panic h = refl
  insert_prepared-Executed (ok (header, b, o)) h = Executed-ok header b o (h header b o refl)

  -- Whatever the clock, the provider and the executor do: a block that is built and returned is in
  -- the storage, with its body, under its number and its hash, one above the former best block
  -- (modulo 2^64) and linked to it, with the given transactions and ommers, and the header that is
  -- returned bears the hash of its own contents; and a call that fails or panics leaves the storage
  -- as it was.
  pub build_and_execute-Executed :
      (env : Environment R) → Executed (build_and_execute env s txs ommers)
  unfolding build_and_execute
  build_and_execute-Executed env =
      insert_prepared-Executed (prepare env s txs ommers) (prepare_lem env)

-- In a well-formed chain with room for one more block and no hash collisions, the call keeps the
-- chain well formed, whatever it comes to.
pub build_and_execute-IsChain :
    {R : Reth} (free : CollisionFree R) (env : Environment R) (s : StorageInner R) (base : ℕ)
    (txs : List R.Transaction) (ommers : List Header)
    → s.best_block + 1 < u64_mod
    → IsChain s base
    → IsChain (build_and_execute env s txs ommers).1 base
unfolding build_and_execute
build_and_execute-IsChain {R} free env s base txs ommers room chain =
    keeps (prepare env s txs ommers)
  where
    keeps :
        (r : Run R.ExecutionError (Header × BlockBody R × R.Outcome))
        → IsChain (insert_prepared s r).1 base
    keeps (err e) = chain
    keeps panic = chain
    keeps (ok (h, b, o)) = insert_new_block-IsChain free s base h b room chain
