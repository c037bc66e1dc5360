-- ===== src/Client.antt =====
-- src/chain/client.rs: the download client, which serves headers and bodies from the storage.
pub mod Headers
pub mod Bodies
pub mod Serves
use rem_poc.Prelude.{ℕ, zero, suc, List, [], ◌∷◌, none, some, add_u64}
use rem_poc.Prelude.HashMap
use rem_poc.Prelude.Run.{Run, ok}
use rem_poc.Reth.{Reth, Header, BlockBody}
use rem_poc.Storage.{StorageInner, BlockId, hash, number, block_hash, header_by_hash_or_number}

pub data HeadersDirection : Type 0 where
  falling rising : HeadersDirection

pub record HeadersRequest : Type 0 where
  pub start : BlockId
  pub limit : ℕ
  pub direction : HeadersDirection

-- An answer with the id of the peer that gives it, `WithPeerId`.
pub record WithPeerId (A : Type 0) : Type 0 where
  pub peer_id : ℕ
  pub data_of : A

-- What the client may fail with, as far as it is known here: it never fails.
pub data RequestError : Type 0 where
  request_error : RequestError

-- The block that the loop asks for after `header`.
abbrev pub next_block : HeadersDirection → Header → BlockId
next_block falling header = hash header.parent_hash
next_block rising header = number (add_u64 header.number 1)

module _ {R : Reth} where
  -- `for _ in 0..limit`: the headers in the order in which they are pushed.
  unfoldable pub collect_headers : StorageInner R → HeadersDirection → ℕ → BlockId → List Header
  collect_headers s direction zero block = []
  collect_headers s direction (suc rounds) block = elim (header_by_hash_or_number s block) [
    | none ↦ []
    | some header ↦ header ∷ collect_headers s direction rounds (next_block direction header)
  ]

  unfoldable pub fetch_headers : StorageInner R → HeadersRequest → List Header
  fetch_headers s request = elim request.start [
    | hash start ↦ collect_headers s request.direction request.limit (hash start)
    | number num ↦ elim (block_hash s num) [
      | none ↦ []
      | some start ↦ collect_headers s request.direction request.limit (hash start)
    ]
  ]

  unfoldable pub fetch_bodies : StorageInner R → List ℕ → List (BlockBody R)
  fetch_bodies s [] = []
  fetch_bodies s (h ∷ hashes) = elim (HashMap.get s.bodies h) [
    | none ↦ []
    | some body ↦ body ∷ fetch_bodies s hashes
  ]

  -- The answers of `HeadersClient` and `BodiesClient`, with the random id of a peer.
  unfoldable pub get_headers_with_priority :
      ℕ → StorageInner R → HeadersRequest → Run RequestError (WithPeerId (List Header))
  unfolding fetch_headers
  get_headers_with_priority random s request =
      ok (record { peer_id = random; data_of = fetch_headers s request })

  unfoldable pub get_block_bodies_with_priority :
      ℕ → StorageInner R → List ℕ → Run RequestError (WithPeerId (List (BlockBody R)))
  unfolding fetch_bodies
  get_block_bodies_with_priority random s hashes =
      ok (record { peer_id = random; data_of = fetch_bodies s hashes })

  -- `DownloadClient`: a report changes nothing, and the client counts as one peer.
  unfoldable report_bad_message : ℕ → StorageInner R → StorageInner R
  report_bad_message peer_id s = s

  unfoldable num_connected_peers : StorageInner R → ℕ
  num_connected_peers s = 1
