-- ===== src/Storage/Represents.antt =====
-- The abstract chain: the list of the blocks above the first one, which the storage represents and
-- which an insertion appends to.
use rem_poc.Prelude.{
  ℕ, suc, ◌+◌, ◌<◌, ◌≡◌, inl, inr, refl, ap, ◌∙◌, subst, List, [], ◌∷◌, ◌++◌, map, some, arith,
  length, length-append, get_elem?, get_elem?-snoc, u64_mod,
}
use rem_poc.Prelude.HashMap
use rem_poc.Prelude.Run.{Run, ok, err, panic}
use rem_poc.Reth.{Reth, Header, SealedHeader, BlockBody}
use rem_poc.Storage.Defs.{StorageInner, insert_new_block, placed, new}
use rem_poc.Storage.Build.{Environment, prepare, insert_prepared, build_and_execute}
use rem_poc.Storage.Chain.{CollisionFree, IsChain}
use rem_poc.Storage.Execute.{prepare_lem}
use rem_poc.Storage.Insert.{
  number-placed, best_block-insert_new_block, headers-insert_new_block, bodies-insert_new_block,
}

abbrev pub Block : Reth → Type 0
Block R = Header × BlockBody R

abbrev pub transactions_of : {R : Reth} → List (Block R) → List (List R.Transaction)
transactions_of blocks = map (λ b. b.1.transactions) blocks

-- The storage holds these blocks, and no others, above height `base`.
pub record Represents {R : Reth} (s : StorageInner R) (base : ℕ) (blocks : List (Block R))
    : Type 0 where
  pub extent : s.best_block ≡ base + length blocks
  pub held :
      (i : ℕ) (h : Header) (b : BlockBody R)
      → get_elem? blocks i ≡ some (h, b)
      → (HashMap.get s.headers (base + suc i) ≡ some h)
        × (HashMap.get s.bodies (R.hash_slow h) ≡ some b)

module _ {R : Reth} where
  pub new-Represents : (b : SealedHeader) → Represents {R = R} (new b) b.header.number []
  unfolding new
  new-Represents b = record { extent = omega arith; held = λ i h body e. cc }

module _ {R : Reth} (free : CollisionFree R) (s : StorageInner R) (base : ℕ) (header : Header)
    (body : BlockBody R) (room : s.best_block + 1 < u64_mod) (chain : IsChain s base) where
  -- A stored header is found as before, and so is its body.
  kept :
      (n : ℕ) (h : Header) (b : BlockBody R)
      → HashMap.get s.headers n ≡ some h
      → HashMap.get s.bodies (R.hash_slow h) ≡ some b
      → let t = insert_new_block s header body in
        (HashMap.get t.headers n ≡ some h) × (HashMap.get t.bodies (R.hash_slow h) ≡ some b)
  kept n h b e f = (
    ground (arith, headers-insert_new_block s header body room n, chain.within n h e),
    ground (
      arith,
      bodies-insert_new_block s header body room (R.hash_slow h),
      free (placed s header) h,
      number-placed s header body room,
      chain.numbered n h e,
      chain.within n h e,
    ),
  )

  t : StorageInner R
  t = insert_new_block s header body

  newest :
      (HashMap.get t.headers (suc s.best_block) ≡ some (placed s header))
      × (HashMap.get t.bodies (R.hash_slow (placed s header)) ≡ some body)
  unfolding t
  newest = (
    ground (arith, headers-insert_new_block s header body room (suc s.best_block)),
    ground (arith, bodies-insert_new_block s header body room (R.hash_slow (placed s header))),
  )

  -- In a well-formed chain with room for one more block, inserting a block appends it, with its number
  -- and its parent's hash filled in, to the blocks that the storage holds above the first one, if
  -- headers at different heights have different hashes.
  pub insert_new_block-Represents :
      (blocks : List (Block R))
      → Represents s base blocks
      → Represents (insert_new_block s header body) base (blocks ++ (placed s header, body) ∷ [])
  unfolding t
  insert_new_block-Represents blocks r = record {
    extent = omega (
      arith,
      r.extent,
      best_block-insert_new_block s header body room,
      length-append blocks ((placed s header, body) ∷ []),
    );
    held = λ i h b e. elim (get_elem?-snoc blocks (placed s header, body) i (h, b) e) [
      | inl old ↦ let (at, with_body) = r.held i h b old in kept (base + suc i) h b at with_body
      | inr (last, same) ↦
          subst
            (λ (p : Block R).
              (HashMap.get t.headers (base + suc i) ≡ some p.0)
              × (HashMap.get t.bodies (R.hash_slow p.0) ≡ some p.1))
            same (ap (HashMap.get t.headers) (omega (arith, r.extent, last)) ∙ newest.0, newest.1)
    ];
  }

module _ {R : Reth} (free : CollisionFree R) (s : StorageInner R) (base : ℕ)
    (txs : List R.Transaction) (room : s.best_block + 1 < u64_mod) (chain : IsChain s base)
    (blocks : List (Block R)) where
  -- A call that returns a header appends its block, with the given transactions, to the abstract
  -- chain; one that fails or panics appends nothing.
  abbrev pub Grown : Run R.ExecutionError (SealedHeader × R.Outcome) × StorageInner R → Type 0
  Grown (ok (sealed, outcome), t) =
      (b : BlockBody R) × Represents t base (blocks ++ (sealed.header, b) ∷ [])
      × (b.transactions ≡ txs)
  Grown (err e, t) = Represents t base blocks
  Grown (panic, t) = Represents t base blocks

  insert_prepared-Grown :
      (r : Run R.ExecutionError (Header × BlockBody R × R.Outcome))
      → ((h : Header) (b : BlockBody R) (o : R.Outcome)
          → r ≡ ok (h, b, o)
          → (placed s h ≡ h) × (b.transactions ≡ txs))
      → Represents s base blocks
      → Grown (insert_prepared s r)
  unfolding insert_prepared
  insert_prepared-Grown (err e) f held = held
  insert_prepared-Grown panic f held = held
  insert_prepared-Grown (ok (h, b, o)) f held =
      let (same, with_txs) = f h b o refl in
      (
        b,
        subst (λ (h' : Header). Represents (insert_new_block s h b) base (blocks ++ (h', b) ∷ []))
            same (insert_new_block-Represents free s base h b room chain blocks held),
        with_txs,
      )

  pub build_and_execute-Grown :
      (env : Environment R) (ommers : List Header)
      → Represents s base blocks
      → Grown (build_and_execute env s txs ommers)
  unfolding build_and_execute
  build_and_execute-Grown env ommers = insert_prepared-Grown (prepare env s txs ommers) (λ h b o e.
      let (same, with_txs, _) = prepare_lem s txs ommers env h b o e in (same, with_txs))
