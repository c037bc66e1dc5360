-- ===== src/Tests/OnStorage.antt =====
-- Runs of the storage and of the download client.
use mathlib.Core.Option
use rem_poc.Prelude.{
  ◌↔◌, ltb, if◌then◌else◌, ℕ, suc, ◌-◌, ◌≡◌, refl, [], ◌∷◌, some, none, arith, min, map, true,
  false,
}
use rem_poc.Prelude.HashMap
use rem_poc.Prelude.Run.{ok, Returns}
use rem_poc.Reth.{Header}
use rem_poc.Storage.{
  hash, number, insert_new_block, header_by_hash_or_number, block_hash, build_and_execute,
  build_header_template,
}
use rem_poc.Storage.Chain.{IsChain, new-IsChain}
use rem_poc.Storage.Insert.{insert_new_block-IsChain}
use rem_poc.Storage.Lookup.{insert_new_block_read_back, block_hash_exact, base_not_served}
use rem_poc.Storage.Execute.{Executed, build_and_execute-Executed, build_header_template_blobs}
use rem_poc.Storage.Served.{IsServed, header_of, built_body, outcome_of, build_and_execute-IsServed}
use rem_poc.Client.{falling, rising, collect_headers, fetch_headers, fetch_bodies}
use rem_poc.Client.Headers.{Ascending, Descending, fetch_headers_rising, fetch_headers_falling}
use rem_poc.Client.Bodies.{
  LongestPrefix, body_stored, fetch_bodies-LongestPrefix, fetch_bodies-fetch_headers,
}
use rem_poc.Tests.{
  failing, simple_reth, simple_reth-CollisionFree, plain_header, first_block, body_of, one_block,
  three_blocks, three_blocks-IsChain, served,
}

best_block-one_block : one_block.best_block ≡ 5
unfolding one_block
best_block-one_block = refl

best_block-three_blocks : three_blocks.best_block ≡ 7
unfolding three_blocks
best_block-three_blocks = refl

new-IsChain_example : IsChain one_block 5
unfolding one_block
new-IsChain_example = new-IsChain simple_reth first_block refl

insert_new_block-IsChain_example :
    IsChain (insert_new_block three_blocks plain_header (body_of [])) 5
insert_new_block-IsChain_example =
    insert_new_block-IsChain simple_reth-CollisionFree three_blocks 5 plain_header (body_of [])
      (omega (arith, best_block-three_blocks)) three_blocks-IsChain

insert_new_block_read_back_example :
    let t = insert_new_block three_blocks plain_header (body_of (40 ∷ [])) in
    let h = record plain_header {
      number = suc three_blocks.best_block;
      parent_hash = three_blocks.best_hash;
    } in
    (header_by_hash_or_number t (number (suc three_blocks.best_block)) ≡ some h)
    × (header_by_hash_or_number t (hash (simple_reth.hash_slow h)) ≡ some h)
    × (block_hash t (suc three_blocks.best_block) ≡ some (simple_reth.hash_slow h))
    × (HashMap.get t.bodies (simple_reth.hash_slow h) ≡ some (body_of (40 ∷ [])))
    × ((n : ℕ) (old : Header)
        → header_by_hash_or_number three_blocks (number n) ≡ some old
        → header_by_hash_or_number t (number n) ≡ some old)
insert_new_block_read_back_example =
    insert_new_block_read_back simple_reth-CollisionFree three_blocks 5 plain_header
      (body_of (40 ∷ [])) (omega (arith, best_block-three_blocks)) three_blocks-IsChain

block_hash_exact_example : block_hash three_blocks 6 ≡ (
    if ltb 5 6 then Option.map simple_reth.hash_slow (HashMap.get three_blocks.headers 6) else none)
block_hash_exact_example = block_hash_exact three_blocks 5 three_blocks-IsChain 6

base_not_served_example :
    (h : Header) × (header_by_hash_or_number three_blocks (number 5) ≡ some h)
    × (header_by_hash_or_number three_blocks (hash (simple_reth.hash_slow h)) ≡ none)
    × (block_hash three_blocks 5 ≡ none)
base_not_served_example =
    base_not_served three_blocks 5 three_blocks-IsChain simple_reth-CollisionFree

build_and_execute-Executed_example :
    Executed three_blocks (10 ∷ []) [] (build_and_execute served three_blocks (10 ∷ []) [])
build_and_execute-Executed_example = build_and_execute-Executed three_blocks (10 ∷ []) [] served

build_and_execute-IsServed_example :
    (Returns (build_and_execute served three_blocks (10 ∷ 20 ∷ []) []).0
      ↔ IsServed served three_blocks (10 ∷ 20 ∷ []) [])
    × ((x : IsServed served three_blocks (10 ∷ 20 ∷ []) [])
        → let header = header_of served three_blocks (10 ∷ 20 ∷ []) [] x in
          let t =
            insert_new_block three_blocks header
              (built_body served three_blocks (10 ∷ 20 ∷ []) [] x) in
          build_and_execute served three_blocks (10 ∷ 20 ∷ []) [] ≡ (
            ok (
              record { header = header; hash = t.best_hash },
              outcome_of served three_blocks (10 ∷ 20 ∷ []) [] x.senders x.output,
            ),
            t,
          ))
build_and_execute-IsServed_example =
    build_and_execute-IsServed served three_blocks (10 ∷ 20 ∷ []) []

-- The services of the tests answer on that block.
three_blocks-IsServed : IsServed served three_blocks (10 ∷ 20 ∷ []) []
three_blocks-IsServed = record {
  senders = 10 ∷ 20 ∷ [];
  database = tt;
  output = record { state = 30; receipts = 10 ∷ 20 ∷ []; requests = tt; gas_used = 21 };
  state_root = 30;
  receipts = [];
  receipts_root = 2;
  recovered = refl;
  latest = refl;
  executed = refl;
  rooted = refl;
  present = refl;
  receipts_rooted = refl;
}

-- An executor that always fails answers on none.
failing_not_served : ¬ IsServed failing three_blocks (10 ∷ []) []
failing_not_served x = let e = x.executed in cc

build_header_template_blobs_example :
    let h = build_header_template one_block 200 (10 ∷ 20 ∷ []) [] none none in
    (true ≡ false
      → (h.blob_gas_used ≡ none) × (h.excess_blob_gas ≡ none) × (h.parent_beacon_block_root ≡ none))
    × (true ≡ true
        → (h.blob_gas_used ≡ some 0)
          × ((parent : Header)
              → HashMap.get one_block.headers one_block.best_block ≡ some parent
              → (h.parent_beacon_block_root ≡ parent.parent_beacon_block_root)
                × (simple_reth.is_cancun_active_at_timestamp parent.timestamp ≡ false
                    → h.excess_blob_gas ≡ some 0)
                × ((excess used : ℕ)
                    → simple_reth.is_cancun_active_at_timestamp parent.timestamp ≡ true
                    → parent.excess_blob_gas ≡ some excess
                    → parent.blob_gas_used ≡ some used
                    → h.excess_blob_gas
                      ≡ some (simple_reth.calculate_excess_blob_gas excess used))))
build_header_template_blobs_example =
    build_header_template_blobs one_block (10 ∷ 20 ∷ []) [] 200 none none

fetch_headers_rising_example :
    Ascending three_blocks.headers 6
      (min 10 (suc three_blocks.best_block - 6))
      (fetch_headers three_blocks (record { start = number 6; limit = 10; direction = rising }))
fetch_headers_rising_example =
    fetch_headers_rising three_blocks 5 three_blocks-IsChain 6 10
      (omega (arith, best_block-three_blocks)) (omega arith)

fetch_headers_falling_example :
    Descending three_blocks.headers 7 2
      (fetch_headers three_blocks (record { start = number 7; limit = 10; direction = falling }))
fetch_headers_falling_example =
    fetch_headers_falling three_blocks 5 three_blocks-IsChain 7 10 simple_reth-CollisionFree
      (omega arith) (omega (arith, best_block-three_blocks))

fetch_bodies-LongestPrefix_example :
    LongestPrefix three_blocks.bodies
      (1006 ∷ 1 ∷ 1007 ∷ [])
      (fetch_bodies three_blocks (1006 ∷ 1 ∷ 1007 ∷ []))
fetch_bodies-LongestPrefix_example = fetch_bodies-LongestPrefix three_blocks (1006 ∷ 1 ∷ 1007 ∷ [])

fetch_bodies-fetch_headers_example :
    let answer =
      fetch_headers three_blocks (record { start = hash 1007; limit = 10; direction = falling }) in
    map some (fetch_bodies three_blocks (map simple_reth.hash_slow answer))
    ≡ map (body_stored three_blocks) answer
fetch_bodies-fetch_headers_example =
    fetch_bodies-fetch_headers three_blocks 5 three_blocks-IsChain
      (record { start = hash 1007; limit = 10; direction = falling })

-- The bodies that the storage has of three hashes, of which it knows the first and the last.
three_hashes : fetch_bodies three_blocks (1006 ∷ 1 ∷ 1007 ∷ []) ≡ body_of (10 ∷ []) ∷ []
unfolding three_blocks fetch_bodies HashMap.get HashMap.insert
three_hashes = refl

rising_from_six :
    map
      (λ (h : Header). h.number)
      (fetch_headers three_blocks (record { start = number 6; limit = 10; direction = rising }))
    ≡ 6 ∷ 7 ∷ []
unfolding three_blocks fetch_headers HashMap.get HashMap.insert header_by_hash_or_number block_hash
    HashMap.find_key collect_headers
rising_from_six = refl
