-- ===== src/Ledger/Chain.antt =====
-- A chain in the database: every block below a height is stored, with the hash of the one before it.
use hyperledger_fabric.Base.{
  Bytes, bytes_key, All, All-append, Bool-cases, ◌==◌, if_cases, same_refl, if◌then◌else◌, leb,
}
use hyperledger_fabric.Base.ByteSlices.{encode_uint64, encode_uint64-inj}
use hyperledger_fabric.Base.Map.{Map, lookup, insert, lookup-insert}
use hyperledger_fabric.Ledger.Store.{
  Db, Change, put_blockchain, put_state_delta, delete_state_delta, put_index, make_change,
  write_batch, not_empty,
}
use hyperledger_fabric.Ledger.Block.{Env, Block, Transaction, get_block_hash}
use hyperledger_fabric.Ledger.Indexes.{
  add_index_data_for_persistence, index_transactions, index_addresses, tx_indexes_by_address,
}
use hyperledger_fabric.Ledger.Blockchain.{
  fetched, fetch_block_from_db, fetched_bytes, unmarshalled, block_count_key, block_changes,
}
use hyperledger_fabric.Statemgmt.Delta.{Slice}
use hyperledger_fabric.Statemgmt.Delta.Marshal.{bytes_of}
use hyperledger_fabric.Statemgmt.State.Persistence.{delta_changes}
use Prim.Native.Nat.{ℕ, zero, suc, ◌+◌, ◌-◌, ◌<◌}
use Prim.Native.String.{String}
use mathlib.Core.Path.{◌≡◌, refl, ap, ◌∙◌}
use mathlib.Core.Logic.{◌≢◌, inl, inr}
use mathlib.Core.Bool.{false}
use mathlib.Core.Option.{some}
use mathlib.Core.List.{List, [], ◌∷◌, ◌++◌}
use native.Mathlib.Omega.{arith}

-- The chain of a number of blocks that ends in a hash; nil and the empty slice are the same here.
abbrev pub Chain : Env → ℕ → Slice → Db → Type 0
Chain e zero h d = bytes_of h ≡ []
Chain e (suc n) h d =
    (b : Block) × (fetch_block_from_db e n d ≡ fetched b)
    × (get_block_hash e b ≡ some (bytes_of h))
    × Chain e n b.previous_block_hash d

-- A change that touches no block.
abbrev pub SparesBlocks : Change → Type 0
SparesBlocks (put_blockchain k v) = ⊥
SparesBlocks (put_state_delta k v) = Unit
SparesBlocks (delete_state_delta k) = Unit
SparesBlocks (put_index k v) = Unit

pub blocks-write_batch :
    (cs : List Change) (d : Db)
    → All SparesBlocks cs
    → (write_batch cs d).blockchain_cf ≡ d.blockchain_cf
unfolding write_batch
blocks-write_batch [] d _ = refl
blocks-write_batch (put_blockchain k v ∷ cs) d h = absurd h.0
blocks-write_batch (put_state_delta k v ∷ cs) d h =
    blocks-write_batch cs (make_change (put_state_delta k v) d) h.1
blocks-write_batch (delete_state_delta k ∷ cs) d h =
    blocks-write_batch cs (make_change (delete_state_delta k) d) h.1
blocks-write_batch (put_index k v ∷ cs) d h =
    blocks-write_batch cs (make_change (put_index k v) d) h.1

index_transactions-SparesBlocks :
    (e : Env) (n i : ℕ) (txs : List Transaction) → All SparesBlocks (index_transactions e n i txs)
unfolding index_transactions
index_transactions-SparesBlocks e n i [] = tt
index_transactions-SparesBlocks e n i (tx ∷ txs) =
    (tt, index_transactions-SparesBlocks e n (i + 1) txs)

index_addresses-SparesBlocks :
    (e : Env) (n : ℕ) (m : Map String (List ℕ)) → All SparesBlocks (index_addresses e n m)
unfolding index_addresses
index_addresses-SparesBlocks e n [] = tt
index_addresses-SparesBlocks e n ((a, is) ∷ m) = (tt, index_addresses-SparesBlocks e n m)

pub add_index_data-SparesBlocks :
    (e : Env) (b : Block) (n : ℕ) (hash : Bytes)
    → All SparesBlocks (add_index_data_for_persistence e b n hash)
unfolding add_index_data_for_persistence
add_index_data-SparesBlocks e b n hash = (
  tt,
  All-append SparesBlocks (index_transactions e n 0 b.transactions)
      (index_addresses e n (tx_indexes_by_address 0 b.transactions []))
      (index_transactions-SparesBlocks e n 0 b.transactions)
      (index_addresses-SparesBlocks e n (tx_indexes_by_address 0 b.transactions [])),
)

pub delta_changes-SparesBlocks :
    (history n : ℕ) (bytes : Bytes) → All SparesBlocks (delta_changes history n bytes)
delta_changes-SparesBlocks history n bytes = (
  tt,
  if_cases (All SparesBlocks) (leb history n)
      (delete_state_delta (encode_uint64 (n - history)) ∷ []) [] (λ _. (tt, tt)) (λ _. tt),
)

-- No number's key is the key of the count.
block_count_key-ne : (m : ℕ) → encode_uint64 m ≢ block_count_key
unfolding encode_uint64
block_count_key-ne m same = cc same

-- A block's own changes and what follows them, at the key of a number.
lookup-block_changes :
    (e : Env) (b : Block) (n m : ℕ) (bytes hash : Bytes) (more : List Change) (d : Db)
    → All SparesBlocks more
    → lookup
        (encode_uint64 m)
        (write_batch (block_changes e b n bytes hash ++ more) d).blockchain_cf
      ≡ (if encode_uint64 n == encode_uint64 m
          then some bytes
          else lookup (encode_uint64 m) d.blockchain_cf)
unfolding write_batch
lookup-block_changes e b n m bytes hash more d spares =
    let rest = add_index_data_for_persistence e b n hash ++ more in
    let own = insert (encode_uint64 n) bytes d.blockchain_cf in
    let count = encode_uint64 (n + 1) in
    rw
      (blocks-write_batch rest (record d { blockchain_cf = insert block_count_key count own })
        (All-append SparesBlocks (add_index_data_for_persistence e b n hash) more
          (add_index_data-SparesBlocks e b n hash) spares))
      (ground (
        arith,
        lookup-insert count own block_count_key (encode_uint64 m),
        lookup-insert bytes d.blockchain_cf (encode_uint64 n) (encode_uint64 m),
        bytes_key.same_iff block_count_key (encode_uint64 m),
        block_count_key-ne m,
      ))

smaller_key :
    (n m : ℕ) → m < n → n < 18446744073709551616 → (encode_uint64 n == encode_uint64 m) ≡ false
smaller_key n m lt small = elim (Bool-cases (encode_uint64 n == encode_uint64 m)) [
  | inl same ↦
      let q : encode_uint64 n ≡ encode_uint64 m =
        (bytes_key.same_iff (encode_uint64 n) (encode_uint64 m)).0 same in
      absurd (omega (arith, encode_uint64-inj n m small (omega arith) q))
  | inr other ↦ other
]

pub fetch-block_changes_other :
    (e : Env) (b : Block) (n m : ℕ) (bytes hash : Bytes) (more : List Change) (d : Db)
    → All SparesBlocks more
    → m < n
    → n < 18446744073709551616
    → fetch_block_from_db e m (write_batch (block_changes e b n bytes hash ++ more) d)
      ≡ fetch_block_from_db e m d
unfolding fetch_block_from_db
fetch-block_changes_other e b n m bytes hash more d spares lt small =
    ap (λ o. fetched_bytes e (not_empty o)) {y = lookup (encode_uint64 m) d.blockchain_cf}
      (lookup-block_changes e b n m bytes hash more d spares ∙ rw (smaller_key n m lt small) refl)

pub fetch-block_changes_self :
    (e : Env) (b : Block) (n : ℕ) (byte : ℕ) (bytes hash : Bytes) (more : List Change) (d : Db)
    → All SparesBlocks more
    → fetch_block_from_db e n (write_batch (block_changes e b n (byte ∷ bytes) hash ++ more) d)
      ≡ unmarshalled (e.unmarshal_block (byte ∷ bytes))
unfolding fetch_block_from_db
fetch-block_changes_self e b n byte bytes hash more d spares =
    ap (λ o. fetched_bytes e (not_empty o)) {y = some (byte ∷ bytes)}
      (lookup-block_changes e b n n (byte ∷ bytes) hash more d spares
        ∙ rw (same_refl (encode_uint64 n)) refl)

-- A chain of which no block is overwritten stays a chain.
pub Chain-fetch :
    (e : Env) (n : ℕ) (h : Slice) (d d2 : Db)
    → ((m : ℕ) → m < n → fetch_block_from_db e m d2 ≡ fetch_block_from_db e m d)
    → Chain e n h d
    → Chain e n h d2
Chain-fetch e zero h d d2 same chain = chain
Chain-fetch e (suc n) h d d2 same (b, stored, hash, rest) = (
  b,
  same n (omega arith) ∙ stored,
  hash,
  Chain-fetch e n b.previous_block_hash d d2 (λ m lt. same m (omega arith)) rest,
)
