-- ===== src/Pipeline/Served.antt =====
-- What the download client of src/chain/client.rs serves of what consensus has decided: the consumer, the
-- task and the client together.
use mathlib.Core.List.{Sublist, sublist-append_left, map-append}
use mathlib.Core.List.Sublist
use rem_poc.Prelude.{
  ℕ, zero, suc, ◌++◌, ◌+◌, u64_mod, ◌<◌, ◌≤◌, ◌≡◌, refl, sym, ap, subst, ◌∙◌, List, [], ◌∷◌, map,
  some, arith, length, length-map, true, take, drop,
}
use rem_poc.Prelude.Run.{ok}
use rem_poc.Reth.{Reth, Header, SealedHeader, BlockBody}
use rem_poc.Storage.{StorageInner, new, number}
use rem_poc.Storage.Chain.{CollisionFree, IsChain}
use rem_poc.Storage.Represents.{Block, transactions_of, Represents}
use rem_poc.Client.{rising, get_headers_with_priority, get_block_bodies_with_priority}
use rem_poc.Client.Serves.{get_block_bodies-Represents}
use rem_poc.Context.Malachite.{Malachite}
use rem_poc.Context.Value.{DecisionStep}
use rem_poc.Chain.Consumer.{Consumer, empty_consumer, consume}
use rem_poc.Chain.Relay.{consume_relays}
use rem_poc.Task.{MalachiteTask, Meeting, new_task}
use rem_poc.Task.Life.{Lives, work-Lives, length-work, Lives-IsBuilt}
use rem_poc.Task.Poll.{returned, poll}
use rem_poc.Task.Healthy.{AllHealthy}
use rem_poc.Pipeline.{decided, ran-decided, map-Sublist}
use rem_poc.Pipeline.Complete.{poll-decided}

module _ {ℓ} {A : Type ℓ} where
  take-drop : (n : ℕ) (xs : List A) → take n xs ++ drop n xs ≡ xs
  take-drop zero xs = refl
  take-drop (suc n) [] = refl
  take-drop (suc n) (x ∷ xs) = ap (λ l. x ∷ l) (take-drop n xs)

  take-all : (n : ℕ) (xs : List A) → length xs ≤ n → take n xs ≡ xs
  take-all zero [] le = refl
  take-all zero (x ∷ xs) le = absurd (omega (arith, le))
  take-all (suc n) [] le = refl
  take-all (suc n) (x ∷ xs) le = ap (λ l. x ∷ l) (take-all n xs (omega (arith, le)))

  take-Sublist {κ} :
      {B : Type κ} (f : A → B) (n : ℕ) (xs : List A) → Sublist (map f (take n xs)) (map f xs)
  take-Sublist f n xs =
      subst (Sublist (map f (take n xs)))
        (sym (map-append f (take n xs) (drop n xs)) ∙ ap (map f) (take-drop n xs))
        (sublist-append_left (map f (take n xs)) (map f (drop n xs)))

-- A peer asks the client for headers, from one height on, and then for the bodies of these headers: it
-- gets as many bodies, and these are as `P` says.
abbrev pub Fetches :
    {R : Reth} → StorageInner R → ℕ → ℕ → ℕ → ℕ → (List (BlockBody R) → Type 0) → Type 0
Fetches {R} s from limit random random' P =
    (hs : List Header) × (bodies : List (BlockBody R)) × (get_headers_with_priority random s
        (record { start = number from; limit = limit; direction = rising })
      ≡ ok (record { peer_id = random; data_of = hs }))
    × (get_block_bodies_with_priority random' s (map R.hash_slow hs)
        ≡ ok (record { peer_id = random'; data_of = bodies }))
    × P bodies

module _ {R : Reth} where
  fetches :
      (s : StorageInner R) (base : ℕ) (blocks : List (Block R)) (limit random random' : ℕ)
      (P : List (BlockBody R) → Type 0)
      → IsChain s base
      → Represents s base blocks
      → s.best_block + 1 < u64_mod
      → P (map (λ b. b.1) (take limit blocks))
      → Fetches s (base + 1) limit random random' P
  fetches s base blocks limit random random' P chain held room p =
      let (headers, bodies) =
        get_block_bodies-Represents s base blocks limit random random' chain held room in
      (_, _, headers, bodies, p)

  -- The transactions of bodies.
  abbrev pub sets_of : List (BlockBody R) → List (List R.Transaction)
  sets_of bodies = map (λ b. b.transactions) bodies

  map-sets_of :
      (limit : ℕ) (blocks : List (Block R))
      → map some (sets_of (map (λ b. b.1) (take limit blocks)))
        ≡ map some (transactions_of (take limit blocks))
  map-sets_of limit blocks = ap (map some) (go (take limit blocks))
    where
      go : (bs : List (Block R)) → sets_of (map (λ b. b.1) bs) ≡ transactions_of bs
      go [] = refl
      go (b ∷ bs) = ap (λ l. b.1.transactions ∷ l) (go bs)

module _ {M : Malachite} {R : Reth} (free : CollisionFree R) (b : SealedHeader)
    (ds : List (DecisionStep M R.Transaction)) (c : Consumer R.Transaction)
    (sealed : R.hash_slow b.header ≡ b.hash) (e : consume empty_consumer ds ≡ ok c)
    (room : b.header.number + length c.to_task + 1 < u64_mod) (limit random random' : ℕ) where
  -- What a peer can get of the chain. The task was started on the storage of a sealed header, and the
  -- sets that have arrived on its channel so far are those that a consumer has sent on going through
  -- the decision steps `ds`; between the arrivals the task was polled in any way. A peer asks the
  -- client for headers from the block after the first one on, up to any limit, and then for the bodies
  -- of these headers. Both requests are answered, and the transactions of the bodies are, in their
  -- order, some of the sets that were decided, in the order of their finalization. Headers at different
  -- heights are taken to have different hashes, and the heights to stay below 2^64.
  pub fetched-decided :
      (t : MalachiteTask R)
      → Lives (new b) t c.to_task
      → Fetches t.storage
          (b.header.number + 1)
          limit
          random
          random'
          (λ bodies. Sublist (map some (sets_of bodies)) (decided ds))
  fetched-decided t l =
      let built = Lives-IsBuilt free b sealed l (omega (arith, room)) in
      let small : t.storage.best_block + 1 < u64_mod =
        omega
          (arith, room, built.held.extent, built.fewer, length-work t, ap length (work-Lives l)) in
      fetches t.storage b.header.number built.blocks limit random random' _ built.chain built.held
        small
        (subst (λ l. Sublist l (decided ds)) (sym (map-sets_of limit built.blocks))
          (Sublist.trans
            (map-Sublist some (take-Sublist (λ b. b.1.transactions) limit built.blocks))
            (ran-decided ds c (new b) t built.blocks e l built.ran)))

  -- And all of it, where a new task executes all of it in one poll. The consumer has gone through the
  -- decision steps, and a new task, started on the storage of a sealed header with what the consumer
  -- sent on its open channel, is polled, with fuel for more passes than there are sets. For each set, on
  -- the storage that those before it have left, the insert future finds the lock free; the senders are
  -- recovered, the provider has a state, the block that is built of this set executes on it, its
  -- outcome has a state root, all its receipts and a receipts root; and the engine comes to a reply,
  -- valid or not, after any number that say that it is syncing. Then the poll returns; and a peer that
  -- asks the client for as many headers as there are sets, or more, from the block after the first one
  -- on, and then for the bodies of these headers, gets bodies with exactly the sets that were decided,
  -- one for each finalization of peer 0, in their order. Headers at different heights are taken to have
  -- different hashes, and the heights to stay below 2^64.
  pub poll-fetched :
      (ms : List (Meeting R)) (fuel : ℕ)
      → AllHealthy (new b) c.to_task ms
      → length c.to_task < fuel
      → length c.to_task ≤ limit
      → (t : MalachiteTask R) × (poll fuel (new_task (new b) c.to_task true) ms ≡ returned t)
        × Fetches t.storage
            (b.header.number + 1)
            limit
            random
            random'
            (λ bodies. map some (sets_of bodies) ≡ decided ds)
  poll-fetched ms fuel healthy fueled all =
      let (t, p, idle, waits, chain, blocks, held, same) =
        poll-decided free b ds c ms fuel sealed e healthy fueled (omega (arith, room)) in
      let count : length blocks ≡ length c.to_task =
        sym (length-map (λ (b : Block R). b.1.transactions) blocks)
        ∙ (sym (length-map some (transactions_of blocks))
            ∙ (ap length (same ∙ sym (consume_relays c ds e)) ∙ length-map some c.to_task)) in
      (
        t,
        p,
        fetches t.storage b.header.number blocks limit random random' _ chain held
            (omega (arith, room, held.extent, count))
            (map-sets_of limit blocks
              ∙ (ap (λ bs. map some (transactions_of bs))
                    (take-all limit blocks (omega (arith, all, count)))
                  ∙ same)),
      )
