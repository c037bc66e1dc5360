-- ===== src/Client/Headers.antt =====
-- Which headers a request gets from a well-formed chain.
use native.Mathlib.Decide.{dec_le, dec_lt}
use rem_poc.Prelude.{
  ◌⊎◌, ℕ, zero, suc, ◌+◌, ◌-◌, ◌≤◌, ◌<◌, ◌≡◌, refl, sym, ap, ◌∙◌, inl, inr, min, List, [], ◌∷◌,
  none, some, arith, length, get_elem?, u64_mod, add_u64, Option-cases,
}
use rem_poc.Prelude.HashMap
use rem_poc.Prelude.HashMap.{HashMap}
use rem_poc.Reth.{Reth, Header}
use rem_poc.Storage.{StorageInner, BlockId, hash, number, header_by_hash_or_number}
use rem_poc.Storage.Chain.{CollisionFree, IsChain}
use rem_poc.Storage.Lookup.{header_by_hash, block_hash_found, block_hash_missing, base_hash_unknown}
use rem_poc.Client.{HeadersDirection, falling, rising, next_block, collect_headers, fetch_headers}

-- `hs` are the headers at `n`, `n + 1`, …, `count` of them.
abbrev pub Ascending : HashMap Header → ℕ → ℕ → List Header → Type 0
Ascending m n count hs =
    (length hs ≡ count) × ((i : ℕ) → i < count → get_elem? hs i ≡ HashMap.get m (n + i))

-- `hs` are the headers at `n`, `n - 1`, …, `count` of them.
abbrev pub Descending : HashMap Header → ℕ → ℕ → List Header → Type 0
Descending m n count hs =
    (length hs ≡ count) × ((i : ℕ) → i < count → get_elem? hs i ≡ HashMap.get m (n - i))

Ascending-cons :
    (m : HashMap Header) (n count : ℕ) (h : Header) (hs : List Header)
    → HashMap.get m n ≡ some h
    → Ascending m (suc n) count hs
    → Ascending m n (suc count) (h ∷ hs)
Ascending-cons m n count h hs e (len, at) = (omega (arith, len), elem)
  where
    elem : (i : ℕ) → i < suc count → get_elem? (h ∷ hs) i ≡ HashMap.get m (n + i)
    elem zero lt = sym e ∙ ap (HashMap.get m) (omega arith)
    elem (suc i) lt = at i (omega arith) ∙ ap (HashMap.get m) (omega arith)

Descending-cons :
    (m : HashMap Header) (n count : ℕ) (h : Header) (hs : List Header)
    → HashMap.get m (suc n) ≡ some h
    → Descending m n count hs
    → Descending m (suc n) (suc count) (h ∷ hs)
Descending-cons m n count h hs e (len, at) = (omega (arith, len), elem)
  where
    elem : (i : ℕ) → i < suc count → get_elem? (h ∷ hs) i ≡ HashMap.get m (suc n - i)
    elem zero lt = sym e ∙ ap (HashMap.get m) (omega arith)
    elem (suc i) lt = at i (omega arith) ∙ ap (HashMap.get m) (omega arith)

module _ {R : Reth} (s : StorageInner R) (d : HeadersDirection) (block : BlockId) where
  collect_missing :
      (rounds : ℕ) → header_by_hash_or_number s block ≡ none → collect_headers s d rounds block ≡ []
  unfolding collect_headers
  collect_missing zero e = refl
  collect_missing (suc rounds) e = rw (e, collect_headers)

  collect_found :
      (rounds : ℕ) (h : Header) (rest : BlockId)
      → header_by_hash_or_number s block ≡ some h
      → next_block d h ≡ rest
      → collect_headers s d (suc rounds) block ≡ h ∷ collect_headers s d rounds rest
  unfolding collect_headers
  collect_found rounds h rest e q =
      rw (e, collect_headers) (ap (λ b. h ∷ collect_headers s d rounds b) q)

  collect_same :
      (rounds : ℕ) (other : BlockId)
      → header_by_hash_or_number s block ≡ header_by_hash_or_number s other
      → collect_headers s d rounds block ≡ collect_headers s d rounds other
  unfolding collect_headers
  collect_same zero other e = refl
  collect_same (suc rounds) other e = rw (e, collect_headers)

module _ {R : Reth} (s : StorageInner R) (base : ℕ) (chain : IsChain s base) where
  nothing_above : (n : ℕ) → s.best_block < n → HashMap.get s.headers n ≡ none
  nothing_above n out = elim (Option-cases (HashMap.get s.headers n)) [
    | inl e ↦ e
    | inr (h, e) ↦ absurd (ground (arith, chain.within n h e))
  ]

  by_number :
      (n : ℕ) (h : Header)
      → HashMap.get s.headers n ≡ some h
      → header_by_hash_or_number s (number n) ≡ some h
  unfolding header_by_hash_or_number
  by_number n h e = e

  collect_rising :
      (rounds n : ℕ)
      → s.best_block + 1 < u64_mod
      → base ≤ n
      → Ascending s.headers n
          (min rounds (suc s.best_block - n))
          (collect_headers s rising rounds (number n))
  unfolding header_by_hash_or_number
  collect_rising zero n room lo =
      unfold collect_headers in (omega arith, λ i lt. absurd (omega arith))
  collect_rising (suc rounds) n room lo = elim (dec_le n s.best_block) [
    | yes inside ↦
        let (h, e) = chain.stored n lo inside in
        let next : number (add_u64 h.number 1) ≡ number (suc n) =
          ap number (omega (arith, chain.numbered n h e)) in
        let count : min (suc rounds) (suc s.best_block - n)
            ≡ suc (min rounds (suc s.best_block - suc n)) =
          omega arith in
        rw (collect_found s rising (number n) rounds h _ e next, count)
          (Ascending-cons s.headers n _ h _ e (collect_rising rounds (suc n) room (omega arith)))
    | no outside ↦
        rw (collect_missing s rising (number n) (suc rounds) (nothing_above n (omega arith)))
          (omega arith, λ i lt. absurd (omega arith))
  ]

  collect_at_base :
      (rounds n : ℕ) (h : Header)
      → CollisionFree R
      → n ≤ base
      → HashMap.get s.headers n ≡ some h
      → collect_headers s falling rounds (hash (R.hash_slow h)) ≡ []
  collect_at_base rounds n h free hi e =
      let is_base : n ≡ base = omega (arith, chain.within n h e) in
      collect_missing s falling (hash (R.hash_slow h)) rounds
        (base_hash_unknown s base chain free h (rw (← is_base) e))

  collect_falling :
      (rounds n : ℕ) (h : Header)
      → CollisionFree R
      → HashMap.get s.headers n ≡ some h
      → Descending s.headers n
          (min rounds (n - base))
          (collect_headers s falling rounds (hash (R.hash_slow h)))
  collect_falling zero n h free e =
      unfold collect_headers in (omega arith, λ i lt. absurd (omega arith))
  collect_falling (suc rounds) zero h free e =
      rw (collect_at_base (suc rounds) 0 h free (omega arith) e)
        (omega arith, λ i lt. absurd (omega arith))
  collect_falling (suc rounds) (suc n) h free e = elim (dec_lt base (suc n)) [
    | yes lt ↦
        let (p, at) = chain.stored n (omega arith) (omega (arith, chain.within (suc n) h e)) in
        let count : min (suc rounds) (suc n - base) ≡ suc (min rounds (n - base)) = omega arith in
        rw
          (
            collect_found s falling (hash (R.hash_slow h)) rounds h _
                (header_by_hash s base chain (suc n) h lt e) (ap hash (chain.linked n p h at e)),
            count,
          )
          (Descending-cons s.headers n _ h _ e (collect_falling rounds n p free at))
    | no ge ↦
        rw (collect_at_base (suc rounds) (suc n) h free (omega arith) e)
          (omega arith, λ i lt. absurd (omega arith))
  ]

  -- A request for rising headers from a height above the first block gets the headers from that
  -- height on, up to the limit or to the best block, whichever comes first, if there is room for one
  -- more block.
  pub fetch_headers_rising :
      (n limit : ℕ)
      → s.best_block + 1 < u64_mod
      → base < n
      → Ascending s.headers n
          (min limit (suc s.best_block - n))
          (fetch_headers s (record { start = number n; limit = limit; direction = rising }))
  unfolding fetch_headers
  fetch_headers_rising n limit room lt = elim (dec_le n s.best_block) [
    | yes le ↦
        let (h, e) = chain.stored n (omega arith) le in
        rw
          (
            block_hash_found s base chain n h lt e,
            fetch_headers,
            collect_same s rising (hash (R.hash_slow h)) limit (number n)
                (header_by_hash s base chain n h lt e ∙ sym (by_number n h e)),
          )
          (collect_rising limit n room (omega arith))
    | no gt ↦
        rw (block_hash_missing s base chain n (inr (omega arith)), fetch_headers)
          (omega arith, λ i lt. absurd (omega arith))
  ]

  -- A request from the height of the first block or below, or from above the best block, gets no
  -- headers, in either direction.
  fetch_headers_none :
      (n limit : ℕ) (d : HeadersDirection)
      → (n ≤ base) ⊎ (s.best_block < n)
      → fetch_headers s (record { start = number n; limit = limit; direction = d }) ≡ []
  unfolding fetch_headers
  fetch_headers_none n limit d out = rw (block_hash_missing s base chain n out, fetch_headers)

  -- Without hash collisions, a request for falling headers from a height above the first block gets
  -- the headers from that height down, up to the limit, and stops short of the first block.
  pub fetch_headers_falling :
      (n limit : ℕ)
      → CollisionFree R
      → base < n
      → n ≤ s.best_block
      → Descending s.headers n
          (min limit (n - base))
          (fetch_headers s (record { start = number n; limit = limit; direction = falling }))
  unfolding fetch_headers
  fetch_headers_falling n limit free lt le =
      let (h, e) = chain.stored n (omega arith) le in
      rw (block_hash_found s base chain n h lt e, fetch_headers) (collect_falling limit n h free e)
