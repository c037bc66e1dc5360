-- ===== src/Storage/Insert.antt =====
-- `insert_new_block` extends the chain by one block.
use rem_poc.Prelude.{
  ℕ, suc, ◌+◌, ◌≤◌, ◌<◌, ◌≡◌, ◌⊎◌, inl, inr, false, some, arith, if◌then◌else◌, ◌==◌, Bool-cases,
  u64_mod, add_u64,
}
use rem_poc.Prelude.HashMap
use rem_poc.Prelude.HashMap.{get-insert, Distinct, insert-Distinct}
use rem_poc.Reth.{Reth, Header, BlockBody}
use rem_poc.Storage.Defs.{StorageInner, insert_new_block, placed}
use rem_poc.Storage.Chain.{CollisionFree, IsChain}

add_u64_lem : (n : ℕ) → n + 1 < u64_mod → add_u64 n 1 ≡ suc n
add_u64_lem n h = omega arith

module _ {R : Reth} (s : StorageInner R) (header : Header) (body : BlockBody R)
    (room : s.best_block + 1 < u64_mod) where
  pub number-placed : (placed s header).number ≡ suc s.best_block
  number-placed = add_u64_lem s.best_block room

  pub best_block-insert_new_block : (insert_new_block s header body).best_block ≡ suc s.best_block
  unfolding insert_new_block
  best_block-insert_new_block = number-placed

  pub headers-insert_new_block :
      (n : ℕ)
      → HashMap.get (insert_new_block s header body).headers n
        ≡ (if suc s.best_block == n then some (placed s header) else HashMap.get s.headers n)
  unfolding insert_new_block
  headers-insert_new_block n =
      rw (← number-placed) (get-insert s.headers (placed s header).number n (placed s header))

  pub hash_to_number-insert_new_block :
      (k : ℕ)
      → HashMap.get (insert_new_block s header body).hash_to_number k ≡ (
          if R.hash_slow (placed s header) == k
          then some (suc s.best_block)
          else HashMap.get s.hash_to_number k)
  unfolding insert_new_block
  hash_to_number-insert_new_block k =
      rw (← number-placed)
        (get-insert s.hash_to_number (R.hash_slow (placed s header)) k (placed s header).number)

  pub bodies-insert_new_block :
      (k : ℕ)
      → HashMap.get (insert_new_block s header body).bodies k
        ≡ (if R.hash_slow (placed s header) == k then some body else HashMap.get s.bodies k)
  unfolding insert_new_block
  bodies-insert_new_block k = get-insert s.bodies (R.hash_slow (placed s header)) k body

module _ {R : Reth} (free : CollisionFree R) (s : StorageInner R) (base : ℕ) (header : Header)
    (body : BlockBody R) (room : s.best_block + 1 < u64_mod) (chain : IsChain s base) where
  s' : StorageInner R
  s' = insert_new_block s header body

  -- A header of the new storage is the new one, at the new height, or an old one.
  header_cases :
      (n : ℕ) (h : Header)
      → HashMap.get s'.headers n ≡ some h
      → ((n ≡ suc s.best_block) × (h ≡ placed s header))
        ⊎ ((n ≤ s.best_block) × (base ≤ n) × (HashMap.get s.headers n ≡ some h))
  unfolding s'
  header_cases n h e = elim (Bool-cases (suc s.best_block == n)) [
    | inl hit ↦ inl (ground arith, ground (arith, headers-insert_new_block s header body room n))
    | inr miss ↦
        let old : HashMap.get s.headers n ≡ some h =
          ground (arith, headers-insert_new_block s header body room n) in
        inr ((chain.within n h old).1, (chain.within n h old).0, old)
  ]

  -- An old header does not collide with the new one.
  hash_ne :
      (n : ℕ) (h : Header)
      → HashMap.get s.headers n ≡ some h
      → (R.hash_slow (placed s header) == R.hash_slow h) ≡ false
  hash_ne n h e = ground (
    arith,
    free (placed s header) h,
    number-placed s header body room,
    chain.numbered n h e,
    chain.within n h e,
  )

  stored' :
      (n : ℕ) → base ≤ n → n ≤ suc s.best_block → (h : Header) × (HashMap.get s'.headers n ≡ some h)
  unfolding s'
  stored' n lo hi = elim (Bool-cases (suc s.best_block == n)) [
    | inl hit ↦ (placed s header, rw (headers-insert_new_block s header body room n, hit))
    | inr miss ↦
        let (h, e) = chain.stored n lo (ground arith) in
        (h, rw (headers-insert_new_block s header body room n, miss) e)
  ]

  numbered' : (n : ℕ) (h : Header) → HashMap.get s'.headers n ≡ some h → h.number ≡ n
  numbered' n h e =
      ground (arith, header_cases n h e, chain.numbered n h, number-placed s header body room)

  embodied' :
      (n : ℕ) (h : Header)
      → HashMap.get s'.headers n ≡ some h
      → (b : BlockBody R) × (HashMap.get s'.bodies (R.hash_slow h) ≡ some b)
  unfolding s'
  embodied' n h e = elim (header_cases n h e) [
    | inl (_, p) ↦ (
      body,
      rw p (
          ground
            (arith, bodies-insert_new_block s header body room (R.hash_slow (placed s header)))),
    )
    | inr (_, _, old) ↦
        let (b, at) = chain.embodied n h old in
        (b, rw (bodies-insert_new_block s header body room (R.hash_slow h), hash_ne n h old) at)
  ]

  linked' :
      (n : ℕ) (p h : Header)
      → HashMap.get s'.headers n ≡ some p
      → HashMap.get s'.headers (suc n) ≡ some h
      → h.parent_hash ≡ R.hash_slow p
  linked' n p h e f =
      ground (arith, header_cases n p e, header_cases (suc n) h f, chain.linked n p h, chain.tip p)

  indexed' :
      (n : ℕ) (h : Header)
      → base < n
      → HashMap.get s'.headers n ≡ some h
      → HashMap.get s'.hash_to_number (R.hash_slow h) ≡ some n
  unfolding s'
  indexed' n h lt e = elim (header_cases n h e) [
    | inl (at, p) ↦ rw p (
        rw (hash_to_number-insert_new_block s header body room (R.hash_slow (placed s header)))
          (ground arith))
    | inr (_, _, old) ↦
        rw (hash_to_number-insert_new_block s header body room (R.hash_slow h), hash_ne n h old)
          (chain.indexed n h lt old)
  ]

  original' :
      (k n : ℕ)
      → HashMap.get s'.hash_to_number k ≡ some n
      → (base < n) × (h : Header) × (HashMap.get s'.headers n ≡ some h) × (R.hash_slow h ≡ k)
  unfolding s'
  original' k n e = elim (Bool-cases (R.hash_slow (placed s header) == k)) [
    | inl hit ↦
        let at : n ≡ suc s.best_block =
          ground (arith, hash_to_number-insert_new_block s header body room k) in
        (
          ground (arith, chain.base_le),
          placed s header,
          ground (arith, headers-insert_new_block s header body room n),
          ground arith,
        )
    | inr miss ↦
        let old : HashMap.get s.hash_to_number k ≡ some n =
          ground (arith, hash_to_number-insert_new_block s header body room k) in
        let (lt, h, at, is) = chain.original k n old in
        (
          lt,
          h,
          ground (arith, headers-insert_new_block s header body room n, chain.within n h at),
          is,
        )
  ]

  tip' : (h : Header) → HashMap.get s'.headers s'.best_block ≡ some h → R.hash_slow h ≡ s'.best_hash
  unfolding s' insert_new_block
  tip' h e = ground (arith, get-insert s.headers s'.best_block s'.best_block (placed s header))

  distinct' : Distinct s'.hash_to_number
  unfolding s' insert_new_block
  distinct' = insert-Distinct s.hash_to_number _ _ chain.distinct

  -- Inserting a block into a well-formed chain gives a well-formed chain from the same first block,
  -- if there is room for one more block and headers at different heights have different hashes.
  pub insert_new_block-IsChain : IsChain (insert_new_block s header body) base
  unfolding s'
  insert_new_block-IsChain = record {
    base_le = omega (arith, best_block-insert_new_block s header body room, chain.base_le);
    stored = rw (best_block-insert_new_block s header body room) stored';
    numbered = numbered';
    embodied = embodied';
    within = λ n h e.
        ground (
          arith,
          header_cases n h e,
          best_block-insert_new_block s header body room,
          chain.base_le,
        );
    linked = linked';
    tip = tip';
    indexed = indexed';
    original = original';
    distinct = distinct';
  }
