-- ===== src/Ledger/Blockchain.antt =====
-- openchain/ledger/blockchain.go: the chain of blocks, stored under their numbers as 64-bit keys. That a
-- read of the database fails is not modelled.
use hyperledger_fabric.Base.{
  bytes_key, Bytes, encode_uint64, decode_to_uint64, ltb, if◌then◌else◌, ◌==◌, nat_key,
}
use hyperledger_fabric.Ledger.Store.{Db, Change, put_blockchain, write_batch, get_cf}
use hyperledger_fabric.Ledger.Block.{
  Env, Block, Timestamp, NonHashData, Transaction, get_block_hash,
}
use hyperledger_fabric.Ledger.Indexes.{
  add_index_data_for_persistence, fetch_block_number_by_block_hash, fetch_transaction_index_by_uuid,
}
use hyperledger_fabric.Statemgmt.Delta.{Slice}
use Prim.Native.Nat.{ℕ, zero, suc, ◌+◌, ◌-◌, ◌%◌}
use Prim.Native.String.{String}
use mathlib.Core.Bool.{Bool, true, false}
use mathlib.Core.Option.{Option, none, some}
use mathlib.Core.List.{List, [], ◌∷◌, ◌++◌}

pub record LastProcessedBlock : Type 0 where
  pub block : Block
  pub block_number : ℕ
  pub block_hash : Bytes

pub record Blockchain : Type 0 where
  pub size : ℕ
  pub previous_block_hash : Slice
  pub last_processed_block : Option LastProcessedBlock

abbrev pub block_count_key : Bytes
block_count_key = 98 ∷ 108 ∷ 111 ∷ 99 ∷ 107 ∷ 67 ∷ 111 ∷ 117 ∷ 110 ∷ 116 ∷ []

-- A result of a read: an error, or a pointer that may be nil.
pub data Fetched (A : Type 0) : Type 0 where
  fetch_error : Fetched A
  nothing : Fetched A
  fetched : A → Fetched A

abbrev pub unmarshalled : Option Block → Fetched Block
unmarshalled none = fetch_error
unmarshalled (some b) = fetched b

abbrev pub fetched_bytes : Env → Option Bytes → Fetched Block
fetched_bytes e none = nothing
fetched_bytes e (some b) = unmarshalled (e.unmarshal_block b)

unfoldable pub fetch_block_from_db : Env → ℕ → Db → Fetched Block
fetch_block_from_db e n d = fetched_bytes e (get_cf (encode_uint64 n) d.blockchain_cf)

-- `none` is a panic: a count of fewer than eight bytes.
abbrev pub counted : Option Bytes → Option ℕ
counted none = some 0
counted (some b) = decode_to_uint64 b

unfoldable pub fetch_blockchain_size_from_db : Db → Option ℕ
fetch_blockchain_size_from_db d = counted (get_cf block_count_key d.blockchain_cf)

abbrev pub chain_of : ℕ → Option Bytes → Option Blockchain
chain_of size none = none
chain_of size (some hash) =
    some (record { size = size; previous_block_hash = some hash; last_processed_block = none })

abbrev pub hash_of_fetched : Env → Fetched Block → Option Bytes
hash_of_fetched e fetch_error = none
hash_of_fetched e nothing = none
hash_of_fetched e (fetched b) = get_block_hash e b

abbrev pub chain_of_size : Env → Db → ℕ → Option Blockchain
chain_of_size e d zero =
    some (record { size = 0; previous_block_hash = none; last_processed_block = none })
chain_of_size e d (suc n) = chain_of (suc n) (hash_of_fetched e (fetch_block_from_db e n d))

abbrev pub sized : Env → Db → Option ℕ → Option Blockchain
sized e d none = none
sized e d (some size) = chain_of_size e d size

-- `newBlockchain`; `none` is an error or a panic, such as a last block that is missing.
unfoldable pub new_blockchain : Env → Db → Option Blockchain
new_blockchain e d = sized e d (fetch_blockchain_size_from_db d)

unfoldable pub get_last_block : Env → Blockchain → Db → Fetched Block
get_last_block e c d = if c.size == 0 then nothing else fetch_block_from_db e (c.size - 1) d

unfoldable pub get_block_by_hash : Env → Bytes → Db → Fetched Block
get_block_by_hash e hash d = fetch_block_from_db e (fetch_block_number_by_block_hash e hash d) d

abbrev pub nth : List Transaction → ℕ → Fetched Transaction
nth [] i = fetch_error
nth (tx ∷ txs) zero = fetched tx
nth (tx ∷ txs) (suc i) = nth txs i

-- A missing block has no transactions, and an index out of range is a panic, here an error.
abbrev pub nth_of : Fetched Block → ℕ → Fetched Transaction
nth_of fetch_error i = fetch_error
nth_of nothing i = fetch_error
nth_of (fetched b) i = nth b.transactions i

abbrev pub transaction_at : Env → Db → Option (ℕ × ℕ) → Fetched Transaction
transaction_at e d none = fetch_error
transaction_at e d (some (n, i)) = nth_of (fetch_block_from_db e n d) i

unfoldable pub get_transaction_by_uuid : Env → String → Db → Fetched Transaction
get_transaction_by_uuid e uuid d = transaction_at e d (fetch_transaction_index_by_uuid e uuid d)

unfoldable pub get_transaction : Env → ℕ → ℕ → Db → Fetched Transaction
get_transaction e n i d = nth_of (fetch_block_from_db e n d) i

pub record BlockchainInfo : Type 0 where
  pub height : ℕ
  pub current_block_hash : Slice
  pub previous_block_hash : Slice

abbrev info_of : Blockchain → Fetched Block → Fetched BlockchainInfo
info_of c fetch_error = fetch_error
info_of c nothing = fetch_error
info_of c (fetched b) = fetched (record {
  height = c.size;
  current_block_hash = c.previous_block_hash;
  previous_block_hash = b.previous_block_hash;
})

-- A last block that is missing is a nil pointer, here an error.
unfoldable pub get_blockchain_info : Env → Blockchain → Db → Fetched BlockchainInfo
get_blockchain_info e c d =
    if c.size == 0
    then fetched (record { height = 0; current_block_hash = none; previous_block_hash = none })
    else info_of c (get_last_block e c d)

abbrev pub build_block : Blockchain → Block → Slice → Block
build_block c b state_hash = record b {
  previous_block_hash = c.previous_block_hash;
  state_hash = state_hash;
}

abbrev pub committed_at : Timestamp → Option NonHashData → NonHashData
committed_at now none = record {
  local_ledger_commit_timestamp = some now;
  transaction_results = [];
}
committed_at now (some x) = record x { local_ledger_commit_timestamp = some now }

-- The block as it is stored: linked, with the hash of the state and the time.
abbrev pub stored_block : Timestamp → Blockchain → Block → Slice → Block
stored_block now c b state_hash = record (build_block c b state_hash) {
  non_hash_data = some (committed_at now b.non_hash_data);
}

-- The changes for a block, with its bytes and its hash.
abbrev pub block_changes : Env → Block → ℕ → Bytes → Bytes → List Change
block_changes e b n bytes hash =
    put_blockchain (encode_uint64 n) bytes
    ∷ put_blockchain block_count_key (encode_uint64 (n + 1))
    ∷ add_index_data_for_persistence e b n hash

abbrev pub prepared_block :
    Env → Block → Blockchain → Option Bytes → Option Bytes → Option (List Change × Blockchain)
prepared_block e b c none bytes = none
prepared_block e b c (some hash) none = none
prepared_block e b c (some hash) (some bytes) = some (
  block_changes e b c.size bytes hash,
  record c {
    last_processed_block = some (record { block = b; block_number = c.size; block_hash = hash });
  },
)

-- The changes that a new block adds to the batch, and the chain that waits for their persistence;
-- `none` is an error. The block's number is the chain's size.
unfoldable pub add_persistence_changes_for_new_block :
    Env → Timestamp → Block → Slice → Blockchain → Option (List Change × Blockchain)
add_persistence_changes_for_new_block e now b state_hash c =
    let x = stored_block now c b state_hash in
    prepared_block e x c (get_block_hash e x) (e.marshal_block x)

abbrev pub advanced : Option LastProcessedBlock → Blockchain → Option Blockchain
advanced none c = none
advanced (some p) c = some (record c {
  size = (c.size + 1) % 18446744073709551616;
  previous_block_hash = some p.block_hash;
  last_processed_block = none;
})

-- `none` is a panic: success is reported without a block.
unfoldable pub block_persistence_status : Bool → Blockchain → Option Blockchain
block_persistence_status true c = advanced c.last_processed_block c
block_persistence_status false c = some (record c { last_processed_block = none })

-- The part of `persistRawBlock` before the hash: the chain's size is moved already.
abbrev pub raised : ℕ → Blockchain → Blockchain
raised n c =
    let height = (n + 1) % 18446744073709551616 in
    if ltb c.size height then record c { size = height } else c

abbrev pub raw_changes : Env → Block → ℕ → Blockchain → Bytes → Bytes → List Change
raw_changes e b n c bytes hash =
    let height = (n + 1) % 18446744073709551616 in
    put_blockchain (encode_uint64 n) bytes
    ∷ ((if ltb c.size height
          then put_blockchain block_count_key (encode_uint64 height) ∷ []
          else [])
        ++ add_index_data_for_persistence e b n hash)

abbrev pub persist_hashed :
    Env → Block → ℕ → Blockchain → Db → Bytes → Option Bytes → Blockchain × Db × Bool
persist_hashed e b n c d bytes none = (raised n c, d, false)
persist_hashed e b n c d bytes (some hash) =
    let changes = raw_changes e b n c bytes hash in
    if e.write_error changes
    then (raised n c, d, false)
    else (raised n c, write_batch changes d, true)

abbrev pub persist_marshalled :
    Env → Block → ℕ → Blockchain → Db → Option Bytes → Blockchain × Db × Bool
persist_marshalled e b n c d none = (c, d, false)
persist_marshalled e b n c d (some bytes) = persist_hashed e b n c d bytes (get_block_hash e b)

-- The chain, the database, and whether there was no error.
unfoldable pub persist_raw_block : Env → Block → ℕ → Blockchain → Db → Blockchain × Db × Bool
persist_raw_block e b n c d = persist_marshalled e b n c d (e.marshal_block b)
