-- ===== src/Storage/Chain.antt =====
-- The well-formedness of the stored chain, which a new storage has.
use rem_poc.Prelude.{ℕ, suc, ◌≤◌, ◌<◌, ◌≡◌, some, [], arith}
use rem_poc.Prelude.HashMap
use rem_poc.Prelude.HashMap.{Distinct}
use rem_poc.Reth.{Reth, Header, SealedHeader, BlockBody}
use rem_poc.Storage.Defs.{StorageInner, default_body, new}

-- Headers at different heights have different hashes.
abbrev pub CollisionFree : Reth → Type 0
CollisionFree R = (h h' : Header) → R.hash_slow h ≡ R.hash_slow h' → h.number ≡ h'.number

-- The storage holds one chain of headers, from `base`, the block that it was created with, to
-- `best_block`.
pub record IsChain {R : Reth} (s : StorageInner R) (base : ℕ) : Type 0 where
  pub base_le : base ≤ s.best_block
  -- each height of the chain has a header, that header has that number, and its body is stored
  pub stored :
      (n : ℕ) → base ≤ n → n ≤ s.best_block → (h : Header) × (HashMap.get s.headers n ≡ some h)
  pub numbered : (n : ℕ) (h : Header) → HashMap.get s.headers n ≡ some h → h.number ≡ n
  pub embodied :
      (n : ℕ) (h : Header)
      → HashMap.get s.headers n ≡ some h
      → (b : BlockBody R) × (HashMap.get s.bodies (R.hash_slow h) ≡ some b)
  -- no other height has one
  pub within :
      (n : ℕ) (h : Header) → HashMap.get s.headers n ≡ some h → (base ≤ n) × (n ≤ s.best_block)
  -- each header names its parent by its hash, and `best_hash` is the last one's
  pub linked :
      (n : ℕ) (p h : Header)
      → HashMap.get s.headers n ≡ some p
      → HashMap.get s.headers (suc n) ≡ some h
      → h.parent_hash ≡ R.hash_slow p
  pub tip : (h : Header) → HashMap.get s.headers s.best_block ≡ some h → R.hash_slow h ≡ s.best_hash
  -- the hashes are indexed, all but that of `base`
  pub indexed :
      (n : ℕ) (h : Header)
      → base < n
      → HashMap.get s.headers n ≡ some h
      → HashMap.get s.hash_to_number (R.hash_slow h) ≡ some n
  pub original :
      (k n : ℕ)
      → HashMap.get s.hash_to_number k ≡ some n
      → (base < n) × (h : Header) × (HashMap.get s.headers n ≡ some h) × (R.hash_slow h ≡ k)
  pub distinct : Distinct s.hash_to_number

only_base :
    (b : Header) (n : ℕ) (h : Header)
    → HashMap.get (HashMap.insert [] b.number b) n ≡ some h
    → (n ≡ b.number) × (h ≡ b)
unfolding HashMap.get HashMap.insert
only_base b n h e = ground arith

-- The storage made from a sealed header is a chain of that one block.
pub new-IsChain :
    (R : Reth) (b : SealedHeader)
    → R.hash_slow b.header ≡ b.hash
    → IsChain (new {R = R} b) b.header.number
unfolding new HashMap.get HashMap.insert
new-IsChain R b sealed = record {
  base_le = omega arith;
  stored = λ n lo hi. (b.header, ground arith);
  numbered = λ n h e. ground (arith, only_base b.header n h);
  embodied = λ n h e. (default_body, ground (arith, only_base b.header n h));
  within = λ n h e. ground (arith, only_base b.header n h);
  linked = λ n p h e f. ground (arith, only_base b.header n p, only_base b.header (suc n) h);
  tip = λ h e. ground (arith, only_base b.header b.header.number h);
  indexed = λ n h lt e. ground (arith, only_base b.header n h);
  original = λ k n e. cc;
  distinct = tt;
}
