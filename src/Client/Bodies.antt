-- ===== src/Client/Bodies.antt =====
-- Which bodies a request gets.
use rem_poc.Prelude.{
  ℕ, zero, suc, ◌≡◌, refl, inl, inr, List, [], ◌∷◌, map, none, some, ap, arith, Option,
  Option-cases, All,
}
use rem_poc.Prelude.HashMap
use rem_poc.Prelude.HashMap.{HashMap}
use rem_poc.Reth.{Reth, Header, BlockBody}
use rem_poc.Storage.{StorageInner, BlockId, block_hash, header_by_hash_or_number, hash, number}
use rem_poc.Storage.Chain.{IsChain}
use rem_poc.Client.{
  HeadersDirection, HeadersRequest, collect_headers, fetch_headers, fetch_bodies, next_block,
}

-- The answer is for a prefix of the hashes: `bodies` match them one by one up to its end, where the
-- hashes end too or the next one has no body.
abbrev pub LongestPrefix : {V : Type 0} → HashMap V → List ℕ → List V → Type 0
LongestPrefix m [] [] = Unit
LongestPrefix m [] (b ∷ bs) = ⊥
LongestPrefix m (k ∷ ks) [] = HashMap.get m k ≡ none
LongestPrefix m (k ∷ ks) (b ∷ bs) = (HashMap.get m k ≡ some b) × LongestPrefix m ks bs

module _ {R : Reth} (s : StorageInner R) where
  -- A request for bodies gets those of the hashes, in their order, up to the first hash that the
  -- storage has no body for.
  pub fetch_bodies-LongestPrefix :
      (hashes : List ℕ) → LongestPrefix s.bodies hashes (fetch_bodies s hashes)
  unfolding fetch_bodies
  fetch_bodies-LongestPrefix [] = tt
  fetch_bodies-LongestPrefix (k ∷ ks) = elim (Option-cases (HashMap.get s.bodies k)) [
    | inl e ↦ rw (e, fetch_bodies) e
    | inr (b, e) ↦ rw (e, fetch_bodies) (e, fetch_bodies-LongestPrefix ks)
  ]

  abbrev Embodied : Header → Type 0
  Embodied h = (b : BlockBody R) × (HashMap.get s.bodies (R.hash_slow h) ≡ some b)

  -- The body that the storage has for a header.
  abbrev pub body_stored : Header → Option (BlockBody R)
  body_stored h = HashMap.get s.bodies (R.hash_slow h)

  fetch_bodies-All :
      (hs : List Header)
      → All Embodied hs
      → map some (fetch_bodies s (map R.hash_slow hs)) ≡ map body_stored hs
  unfolding fetch_bodies
  fetch_bodies-All [] h = refl
  fetch_bodies-All (h ∷ hs) ((b, e), rest) =
      rw (e, fetch_bodies) (ap (λ l. some b ∷ l) (fetch_bodies-All hs rest))

  module _ (base : ℕ) (chain : IsChain s base) where
    found-Embodied :
        (block : BlockId) (h : Header) → header_by_hash_or_number s block ≡ some h → Embodied h
    unfolding header_by_hash_or_number
    found-Embodied (number n) h e = chain.embodied n h e
    found-Embodied (hash k) h e = elim (Option-cases (HashMap.get s.hash_to_number k)) [
      | inl no_entry ↦ absurd (ground (arith, no_entry))
      | inr (n, at) ↦ chain.embodied n h (rw (at, header_by_hash_or_number) at e)
    ]

    collect_headers-Embodied :
        (d : HeadersDirection) (rounds : ℕ) (block : BlockId)
        → All Embodied (collect_headers s d rounds block)
    unfolding collect_headers
    collect_headers-Embodied d zero block = tt
    collect_headers-Embodied d (suc rounds) block =
        elim (Option-cases (header_by_hash_or_number s block)) [
          | inl e ↦ rw (e, collect_headers) tt
          | inr (h, e) ↦
              rw (e, collect_headers)
                (found-Embodied block h e, collect_headers-Embodied d rounds (next_block d h))
        ]

    fetch_headers-Embodied : (request : HeadersRequest) → All Embodied (fetch_headers s request)
    unfolding fetch_headers
    fetch_headers-Embodied request = from request.start refl
      where
        from : (start : BlockId) → request.start ≡ start → All Embodied (fetch_headers s request)
        from (hash k) p =
            rw (p, fetch_headers)
              (collect_headers-Embodied request.direction request.limit (hash k))
        from (number n) p = elim (Option-cases (block_hash s n)) [
          | inl e ↦ rw (p, e, fetch_headers) tt
          | inr (k, e) ↦
              rw (p, e, fetch_headers)
                (collect_headers-Embodied request.direction request.limit (hash k))
        ]

    -- In a well-formed chain, whatever headers a request gets, a request for their bodies is answered
    -- in full: with the body that is stored under the hash of each header, in the order of the
    -- headers.
    pub fetch_bodies-fetch_headers :
        (request : HeadersRequest)
        → map some (fetch_bodies s (map R.hash_slow (fetch_headers s request)))
          ≡ map body_stored (fetch_headers s request)
    fetch_bodies-fetch_headers request =
        fetch_bodies-All (fetch_headers s request) (fetch_headers-Embodied request)
