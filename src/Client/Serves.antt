-- ===== src/Client/Serves.antt =====
-- The download client serves the abstract chain.
use rem_poc.Prelude.{
  ℕ, suc, ◌+◌, ◌-◌, ◌<◌, ◌≡◌, refl, sym, ap, ◌∙◌, min, List, [], ◌∷◌, map, some, arith, length,
  take, get_elem?, get_elem?-some, get_elem?-take, get_elem?-map, get_elem?-eq, length-take,
  length-map, All, All-at, All-take, u64_mod,
}
use rem_poc.Prelude.HashMap
use rem_poc.Reth.{Reth, Header}
use rem_poc.Storage.{StorageInner, number}
use rem_poc.Storage.Chain.{IsChain}
use rem_poc.Storage.Represents.{Block, Represents}
use rem_poc.Client.{rising, fetch_bodies, get_headers_with_priority, get_block_bodies_with_priority}
use rem_poc.Prelude.Run.{ok}
use rem_poc.Client.Headers.{Ascending, fetch_headers_rising}

module _ {R : Reth} (s : StorageInner R) where
  fetch_bodies-exact :
      (blocks : List (Block R))
      → All (λ b. HashMap.get s.bodies (R.hash_slow b.0) ≡ some b.1) blocks
      → fetch_bodies s (map R.hash_slow (map (λ b. b.0) blocks)) ≡ map (λ b. b.1) blocks
  unfolding fetch_bodies
  fetch_bodies-exact [] held = refl
  fetch_bodies-exact (b ∷ blocks) held =
      rw (held.0, fetch_bodies) (ap (λ bs. b.1 ∷ bs) (fetch_bodies-exact blocks held.1))

  Ascending-take :
      (base : ℕ) (blocks : List (Block R)) (limit : ℕ) (hs : List Header)
      → Represents s base blocks
      → Ascending s.headers (base + 1) (min limit (suc s.best_block - (base + 1))) hs
      → hs ≡ map (λ b. b.0) (take limit blocks)
  Ascending-take base blocks limit hs held (len, at) =
      get_elem?-eq hs (map (λ b. b.0) (take limit blocks))
        (omega (
          arith,
          len,
          held.extent,
          length-map (λ (b : Block R). b.0) (take limit blocks),
          length-take limit blocks,
        ))
        same
    where
      same :
          (i : ℕ)
          → i < length hs
          → get_elem? hs i ≡ get_elem? (map (λ b. b.0) (take limit blocks)) i
      same i lt =
          let (b, e) = get_elem?-some blocks i (omega (arith, lt, len, held.extent)) in
          at i (omega (arith, lt, len))
          ∙ (ap (HashMap.get s.headers) (omega arith)
              ∙ ((held.held i b.0 b.1 e).0
                  ∙ sym (
                      get_elem?-map (λ b. b.0) (take limit blocks) i b
                        (get_elem?-take limit blocks i (omega (arith, lt, len)) ∙ e))))

  -- Where the storage is a well-formed chain that holds certain blocks above the first one, with room
  -- for one more, a peer that asks the client for the headers that rise from the block after the first
  -- gets those of the blocks, in their order and up to the limit; and if it asks for the bodies of
  -- these headers, it gets those of the same blocks.
  pub get_block_bodies-Represents :
      (base : ℕ) (blocks : List (Block R)) (limit random random' : ℕ)
      → IsChain s base
      → Represents s base blocks
      → s.best_block + 1 < u64_mod
      → let hs = map (λ (b : Block R). b.0) (take limit blocks) in
        (get_headers_with_priority random s
            (record { start = number (base + 1); limit = limit; direction = rising })
          ≡ ok (record { peer_id = random; data_of = hs }))
        × (get_block_bodies_with_priority random' s (map R.hash_slow hs)
            ≡ ok (record { peer_id = random'; data_of = map (λ b. b.1) (take limit blocks) }))
  unfolding get_headers_with_priority get_block_bodies_with_priority
  get_block_bodies-Represents base blocks limit random random' chain held room =
      let rises = fetch_headers_rising s base chain (base + 1) limit room (omega arith) in
      let stored : All (λ b. HashMap.get s.bodies (R.hash_slow b.0) ≡ some b.1) blocks =
        All-at _ blocks (λ i b e. (held.held i b.0 b.1 e).1) in
      (
        ap (λ l. ok (record { peer_id = random; data_of = l }))
            (Ascending-take base blocks limit _ held rises),
        ap (λ l. ok (record { peer_id = random'; data_of = l }))
            (fetch_bodies-exact (take limit blocks) (All-take _ limit blocks stored)),
      )
