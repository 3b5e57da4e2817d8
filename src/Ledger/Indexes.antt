-- ===== src/Ledger/Indexes.antt =====
-- openchain/ledger/blockchain_indexes.go, with the synchronous indexer, which is the one in use. The map
-- from addresses to deployed chaincodes, which the code fills and does not read, is left out.
use hyperledger_fabric.Base.{string_key, bytes_key, Bytes, length}
use hyperledger_fabric.Base.Map.{Map, lookup, insert}
use hyperledger_fabric.Ledger.Store.{Db, Change, put_index, get_cf}
use hyperledger_fabric.Ledger.Block.{Env, Block, Transaction}
use Prim.Native.Nat.{ℕ, ◌+◌}
use Prim.Native.String.{String}
use mathlib.Core.Option.{Option, none, some}
use mathlib.Core.List.{List, [], ◌∷◌, ◌++◌}

abbrev pub encode_block_hash_key : Bytes → Bytes
encode_block_hash_key hash = 1 ∷ hash

abbrev pub encode_tx_uuid_key : Env → String → Bytes
encode_tx_uuid_key e uuid = 2 ∷ e.string_bytes uuid

-- `EncodeRawBytes` writes the length first.
abbrev encode_address_block_num_composite_key : Env → String → ℕ → Bytes
encode_address_block_num_composite_key e address n =
    let b = e.string_bytes address in 3 ∷ (e.encode_varint (length b) ++ (b ++ e.encode_varint n))

abbrev pub encode_block_num_tx_index : Env → ℕ → ℕ → Bytes
encode_block_num_tx_index e n i = e.encode_varint n ++ e.encode_varint i

abbrev pub decode_index : Env → ℕ → Option (ℕ × Bytes) → Option (ℕ × ℕ)
decode_index e n none = none
decode_index e n (some (i, rest)) = some (n, i)

abbrev pub decode_rest : Env → Option (ℕ × Bytes) → Option (ℕ × ℕ)
decode_rest e none = none
decode_rest e (some (n, rest)) = decode_index e n (e.decode_varint rest)

unfoldable pub decode_block_num_tx_index : Env → Bytes → Option (ℕ × ℕ)
decode_block_num_tx_index e b = decode_rest e (e.decode_varint b)

abbrev encode_list_tx_indexes : Env → List ℕ → Bytes
encode_list_tx_indexes e [] = []
encode_list_tx_indexes e (i ∷ is) = e.encode_varint i ++ encode_list_tx_indexes e is

-- `getTxExecutingAddress`, which is a stub in the source.
abbrev get_tx_executing_address : Transaction → String
get_tx_executing_address tx = "address1"

abbrev append_to : String → ℕ → Map String (List ℕ) → Map String (List ℕ)
append_to a i m = insert a (elim (lookup a m) [ none ↦ i ∷ [] | some is ↦ is ++ i ∷ [] ]) m

-- The loop over the transactions, from an index on: the entries by identifier, and the map by address.
unfoldable pub index_transactions : Env → ℕ → ℕ → List Transaction → List Change
index_transactions e n i [] = []
index_transactions e n i (tx ∷ txs) =
    put_index (encode_tx_uuid_key e tx.uuid) (encode_block_num_tx_index e n i)
    ∷ index_transactions e n (i + 1) txs

unfoldable pub tx_indexes_by_address :
    ℕ → List Transaction → Map String (List ℕ) → Map String (List ℕ)
tx_indexes_by_address i [] m = m
tx_indexes_by_address i (tx ∷ txs) m =
    tx_indexes_by_address (i + 1) txs (append_to (get_tx_executing_address tx) i m)

unfoldable pub index_addresses : Env → ℕ → Map String (List ℕ) → List Change
index_addresses e n [] = []
index_addresses e n ((address, is) ∷ m) =
    put_index (encode_address_block_num_composite_key e address n) (encode_list_tx_indexes e is)
    ∷ index_addresses e n m

unfoldable pub add_index_data_for_persistence : Env → Block → ℕ → Bytes → List Change
add_index_data_for_persistence e b n hash =
    put_index (encode_block_hash_key hash) (e.encode_varint n)
    ∷ (index_transactions e n 0 b.transactions
        ++ index_addresses e n (tx_indexes_by_address 0 b.transactions []))

abbrev pub decoded_number : Option (ℕ × Bytes) → ℕ
decoded_number none = 0
decoded_number (some (n, rest)) = n

-- A hash that is not indexed reads as nil, and `decodeBlockNumber` gives 0 for it.
abbrev pub decode_block_number : Env → Option Bytes → ℕ
decode_block_number e none = decoded_number (e.decode_varint [])
decode_block_number e (some b) = decoded_number (e.decode_varint b)

unfoldable pub fetch_block_number_by_block_hash : Env → Bytes → Db → ℕ
fetch_block_number_by_block_hash e hash d =
    decode_block_number e (get_cf (encode_block_hash_key hash) d.indexes_cf)

abbrev pub decoded_index : Env → Option Bytes → Option (ℕ × ℕ)
decoded_index e none = none
decoded_index e (some b) = decode_block_num_tx_index e b

-- `none` is an error: `ErrResourceNotFound`, or that of decoding.
unfoldable pub fetch_transaction_index_by_uuid : Env → String → Db → Option (ℕ × ℕ)
fetch_transaction_index_by_uuid e uuid d =
    decoded_index e (get_cf (encode_tx_uuid_key e uuid) d.indexes_cf)
