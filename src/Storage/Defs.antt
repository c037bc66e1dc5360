-- ===== src/Storage/Defs.antt =====
-- src/chain/storage.rs: the blocks of the chain in memory, their lookup and the insertion of a block.
-- The lock around `StorageInner` is the caller's: each operation here runs under it.
use rem_poc.Prelude.{ℕ, [], Option, none, some, add_u64}
use rem_poc.Prelude.HashMap
use rem_poc.Prelude.HashMap.{HashMap}
use rem_poc.Reth.{Reth, Header, SealedHeader, BlockBody}

pub record StorageInner (R : Reth) : Type 0 where
  pub headers : HashMap Header
  pub hash_to_number : HashMap ℕ
  pub bodies : HashMap (BlockBody R)
  pub best_block : ℕ
  pub best_hash : ℕ
  pub total_difficulty : ℕ

-- `BlockHashOrNumber`
pub data BlockId : Type 0 where
  hash : ℕ → BlockId
  number : ℕ → BlockId

module _ {R : Reth} where
  abbrev pub default_body : BlockBody R
  default_body = record { transactions = []; ommers = []; withdrawals = none; requests = none }

  -- `Storage::new`
  unfoldable pub new : SealedHeader → StorageInner R
  new best_block = record {
    headers = HashMap.insert [] best_block.header.number best_block.header;
    hash_to_number = [];
    bodies = HashMap.insert [] best_block.hash default_body;
    best_block = best_block.header.number;
    best_hash = best_block.hash;
    total_difficulty = best_block.header.difficulty;
  }

  unfoldable pub block_hash : StorageInner R → ℕ → Option ℕ
  block_hash s num = HashMap.find_key s.hash_to_number num

  abbrev header_by_number : StorageInner R → Option ℕ → Option Header
  header_by_number s none = none
  header_by_number s (some num) = HashMap.get s.headers num

  unfoldable pub header_by_hash_or_number : StorageInner R → BlockId → Option Header
  header_by_hash_or_number s (hash h) = header_by_number s (HashMap.get s.hash_to_number h)
  header_by_hash_or_number s (number num) = header_by_number s (some num)

  -- The header as `insert_new_block` stores it.
  abbrev pub placed : StorageInner R → Header → Header
  placed s header = record header { number = add_u64 s.best_block 1; parent_hash = s.best_hash }

  unfoldable pub insert_new_block : StorageInner R → Header → BlockBody R → StorageInner R
  insert_new_block s header body =
      let header' = placed s header in
      let best_hash = R.hash_slow header' in
      record {
        headers = HashMap.insert s.headers header'.number header';
        hash_to_number = HashMap.insert s.hash_to_number best_hash header'.number;
        bodies = HashMap.insert s.bodies best_hash body;
        best_block = header'.number;
        best_hash = best_hash;
        total_difficulty = R.add_u256 s.total_difficulty header.difficulty;
      }
