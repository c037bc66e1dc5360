-- ===== src/Storage/Lookup.antt =====
-- What the lookups find in a well-formed chain, and right after an insertion.
use mathlib.Core.Option
use native.Mathlib.Decide.{dec_le}
use rem_poc.Prelude.{
  true, ltb, if◌then◌else◌, Bool-cases, ℕ, suc, ◌+◌, ◌≤◌, ◌<◌, ◌≡◌, ◌⊎◌, inl, inr, some, none,
  arith, Option-cases, u64_mod,
}
use rem_poc.Prelude.HashMap
use rem_poc.Prelude.HashMap.{get-insert_self, find_key-get, get-find_key}
use rem_poc.Reth.{Reth, Header, BlockBody}
use rem_poc.Storage.Defs.{
  StorageInner, hash, number, block_hash, header_by_hash_or_number, insert_new_block, placed,
}
use rem_poc.Storage.Chain.{CollisionFree, IsChain}
use rem_poc.Storage.Insert.{
  insert_new_block-IsChain, headers-insert_new_block, bodies-insert_new_block, number-placed,
}

module _ {R : Reth} (s : StorageInner R) (base : ℕ) (chain : IsChain s base) where
  pub block_hash_found :
      (n : ℕ) (h : Header)
      → base < n
      → HashMap.get s.headers n ≡ some h
      → block_hash s n ≡ some (R.hash_slow h)
  unfolding block_hash
  block_hash_found n h lt e =
      let (j, found) = get-find_key s.hash_to_number n (R.hash_slow h) (chain.indexed n h lt e) in
      let at : HashMap.get s.hash_to_number j ≡ some n =
        find_key-get s.hash_to_number n j chain.distinct found in
      let (_, h', stored, is) = chain.original j n at in cc

  pub block_hash_missing : (n : ℕ) → (n ≤ base) ⊎ (s.best_block < n) → block_hash s n ≡ none
  unfolding block_hash
  block_hash_missing n out = elim (Option-cases (block_hash s n)) [
    | inl e ↦ e
    | inr (k, e) ↦
        let (lt, h, stored, _) =
          chain.original k n (find_key-get s.hash_to_number n k chain.distinct e) in
        absurd (ground (arith, chain.within n h stored))
  ]

  above : (n : ℕ) → ltb base n ≡ true → HashMap.get s.headers n ≡ none → s.best_block < n
  above n high missing = elim (dec_le n s.best_block) [
    | no gt ↦ omega arith
    | yes le ↦ let (h, e) = chain.stored n (ground (arith, high)) le in cc
  ]

  -- In a well-formed chain `block_hash` finds, whatever the order of iteration of the map, the hash of
  -- the header that is stored at a height above the first block, and nothing where none is stored, or
  -- at the first block's height.
  pub block_hash_exact :
      (n : ℕ)
      → block_hash s n
        ≡ (if ltb base n then Option.map R.hash_slow (HashMap.get s.headers n) else none)
  block_hash_exact n = elim (Bool-cases (ltb base n)) [
    | inr low ↦ rw low (block_hash_missing n (inl (ground (arith, low))))
    | inl high ↦ elim (Option-cases (HashMap.get s.headers n)) [
      | inr (h, e) ↦ rw (high, e) (block_hash_found n h (ground (arith, high)) e)
      | inl missing ↦ rw (high, missing) (block_hash_missing n (inr (above n high missing)))
    ]
  ]

  -- Every header above the first block is found by its own hash.
  pub header_by_hash :
      (n : ℕ) (h : Header)
      → base < n
      → HashMap.get s.headers n ≡ some h
      → header_by_hash_or_number s (hash (R.hash_slow h)) ≡ some h
  unfolding header_by_hash_or_number
  header_by_hash n h lt e = rw (chain.indexed n h lt e) e

  pub base_hash_unknown :
      CollisionFree R
      → (h : Header) → HashMap.get s.headers base ≡ some h
      → header_by_hash_or_number s (hash (R.hash_slow h)) ≡ none
  unfolding header_by_hash_or_number
  base_hash_unknown free h e = elim (Option-cases (HashMap.get s.hash_to_number (R.hash_slow h))) [
    | inl no_entry ↦ rw no_entry
    | inr (n, entry) ↦
        let (lt, h', stored, is) = chain.original (R.hash_slow h) n entry in
        absurd (ground (arith, free h' h is, chain.numbered n h' stored, chain.numbered base h e))
  ]

  -- Without hash collisions, the header of the first block is found by its number, but not by its
  -- hash, and its hash is not found by its number.
  pub base_not_served :
      CollisionFree R
      → (h : Header) × (header_by_hash_or_number s (number base) ≡ some h)
        × (header_by_hash_or_number s (hash (R.hash_slow h)) ≡ none)
        × (block_hash s base ≡ none)
  unfolding header_by_hash_or_number
  base_not_served free =
      let (h, e) = chain.stored base (omega arith) chain.base_le in
      (h, e, base_hash_unknown free h e, block_hash_missing base (inl (omega arith)))

module _ {R : Reth} (s : StorageInner R) (header : Header) (body : BlockBody R)
    (room : s.best_block + 1 < u64_mod) where
  placed_lem :
      placed s header ≡ record header { number = suc s.best_block; parent_hash = s.best_hash }
  placed_lem = ground (arith, number-placed s header body room)

  new_header :
      HashMap.get (insert_new_block s header body).headers (suc s.best_block)
      ≡ some (record header { number = suc s.best_block; parent_hash = s.best_hash })
  new_header =
      ground (arith, placed_lem, headers-insert_new_block s header body room (suc s.best_block))

-- Right after an insertion into a well-formed chain with room for one more block below 2^64, where
-- headers at different heights have different hashes, the new header, with its number and its parent's hash filled in, is found
-- by its number and by its hash, its hash is found by its number, its body is found by its hash, and
-- every header found by its number before is still found.
pub insert_new_block_read_back :
    {R : Reth} (free : CollisionFree R) (s : StorageInner R) (base : ℕ) (header : Header)
    (body : BlockBody R)
    → s.best_block + 1 < u64_mod
    → IsChain s base
    → let t = insert_new_block s header body in
      let h = record header { number = suc s.best_block; parent_hash = s.best_hash } in
      (header_by_hash_or_number t (number (suc s.best_block)) ≡ some h)
      × (header_by_hash_or_number t (hash (R.hash_slow h)) ≡ some h)
      × (block_hash t (suc s.best_block) ≡ some (R.hash_slow h))
      × (HashMap.get t.bodies (R.hash_slow h) ≡ some body)
      × ((n : ℕ) (old : Header)
          → header_by_hash_or_number s (number n) ≡ some old
          → header_by_hash_or_number t (number n) ≡ some old)
unfolding header_by_hash_or_number
insert_new_block_read_back {R} free s base header body room chain =
    let t = insert_new_block s header body in
    let grown : IsChain t base = insert_new_block-IsChain free s base header body room chain in
    let at = new_header s header body room in
    let lt : base < suc s.best_block = omega (arith, chain.base_le) in
    (
      at,
      header_by_hash t base grown (suc s.best_block) _ lt at,
      block_hash_found t base grown (suc s.best_block) _ lt at,
      ground (
        arith,
        placed_lem s header body room,
        bodies-insert_new_block s header body room (R.hash_slow (placed s header)),
      ),
      λ n old e.
          ground (arith, headers-insert_new_block s header body room n, chain.within n old e),
    )
