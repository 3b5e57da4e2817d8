-- ===== src/Ledger/Queries.antt =====
-- `GetBlockByHash` and `GetTransactionByUUID` after a commit.
use hyperledger_fabric.Base.{Bytes, bytes_key}
use hyperledger_fabric.Base.Map.{lookup}
use hyperledger_fabric.Ledger.Store.{Db, not_empty}
use hyperledger_fabric.Ledger.Block.{Env, Block, Timestamp, Transaction, TransactionResult}
use hyperledger_fabric.Ledger.Indexes.{
  encode_block_hash_key, encode_tx_uuid_key, encode_block_num_tx_index, decode_block_num_tx_index,
  decode_index, decode_rest, decoded_index, decoded_number, decode_block_number,
  fetch_block_number_by_block_hash, fetch_transaction_index_by_uuid,
}
use hyperledger_fabric.Ledger.Blockchain.{
  fetched, nth, nth_of, transaction_at, fetch_block_from_db, get_block_by_hash,
  get_transaction_by_uuid, stored_block,
}
use hyperledger_fabric.Ledger.Batches.{Ledger, batch_block, commit_tx_batch}
use hyperledger_fabric.Ledger.Proto.{IsProto, normal, normal_transaction}
use hyperledger_fabric.Ledger.CommitSteps.{commit_tx_batch-IsCommitted}
use hyperledger_fabric.Ledger.Lookup.{IsVarint, OnceEach, lookup-hash, lookup-uuid}
use hyperledger_fabric.Statemgmt.Delta.{Slice}
use hyperledger_fabric.Statemgmt.Delta.Hash.{Util}
use hyperledger_fabric.Statemgmt.Delta.Marshal.{Buffer, marshal}
use hyperledger_fabric.Statemgmt.State.{HashableState}
use Prim.Native.Nat.{ℕ, zero, suc, ◌+◌, ◌<◌}
use Prim.Native.String.{String}
use mathlib.Core.Path.{◌≡◌, refl, sym, ap, ◌∙◌}
use mathlib.Core.Logic.{◌≢◌}
use mathlib.Core.Bool.{true}
use mathlib.Core.Option.{Option, some}
use mathlib.Core.List.{List, [], ◌∷◌, ◌++◌, map, append-nil}
use native.Mathlib.Omega.{arith}

not_empty-append : (a b : Bytes) → a ≢ [] → not_empty (some (a ++ b)) ≡ some (a ++ b)
not_empty-append [] b h = absurd (h refl)
not_empty-append (x ∷ a) b h = refl

not_empty-some : (a : Bytes) → a ≢ [] → not_empty (some a) ≡ some a
not_empty-some [] h = absurd (h refl)
not_empty-some (x ∷ a) h = refl

nth-normal :
    (txs : List Transaction) (j : ℕ) (tx : Transaction)
    → nth txs j ≡ fetched tx
    → nth (map normal_transaction txs) j ≡ fetched (normal_transaction tx)
nth-normal [] j tx h = cc h
nth-normal (x ∷ txs) zero tx h = let q : x ≡ tx = cc h in ap (λ t. fetched (normal_transaction t)) q
nth-normal (x ∷ txs) (suc j) tx h = nth-normal txs j tx h

module _ (e : Env) (varint : IsVarint e) where
  decode_alone :
      (n : ℕ) → n < 18446744073709551616 → e.decode_varint (e.encode_varint n) ≡ some (n, [])
  decode_alone n small =
      ap e.decode_varint (sym (append-nil (e.encode_varint n)))
      ∙ varint.decode_varint-encode_varint n [] small

  number-indexed :
      (hash : Bytes) (n : ℕ) (d : Db)
      → n < 18446744073709551616
      → lookup (encode_block_hash_key hash) d.indexes_cf ≡ some (e.encode_varint n)
      → fetch_block_number_by_block_hash e hash d ≡ n
  unfolding fetch_block_number_by_block_hash
  number-indexed hash n d small q =
      ap (λ o. decode_block_number e (not_empty o)) q
      ∙ (ap (decode_block_number e) (not_empty-some (e.encode_varint n) (varint.some_bytes n))
          ∙ ap decoded_number (decode_alone n small))

  index-indexed :
      (uuid : String) (n j : ℕ) (d : Db)
      → n < 18446744073709551616
      → j < 18446744073709551616
      → lookup (encode_tx_uuid_key e uuid) d.indexes_cf ≡ some (encode_block_num_tx_index e n j)
      → fetch_transaction_index_by_uuid e uuid d ≡ some (n, j)
  unfolding fetch_transaction_index_by_uuid decode_block_num_tx_index
  index-indexed uuid n j d small few q =
      ap (λ o. decoded_index e (not_empty o)) q
      ∙ (ap (decoded_index e)
            (not_empty-append (e.encode_varint n) (e.encode_varint j) (varint.some_bytes n))
          ∙ (ap (decode_rest e) (varint.decode_varint-encode_varint n (e.encode_varint j) small)
              ∙ ap (decode_index e n) (decode_alone j few)))

module _ (i : HashableState) (util : Util) (e : Env) (p : Buffer) (varint : IsVarint e) where
  -- What a new block can be found by.
  pub record IsFound (txs : List Transaction) (l m : Ledger i util e p) : Type 0 where
    pub block : Block
    pub hash : Bytes
    pub tip : m.blockchain.previous_block_hash ≡ some hash
    pub by_number : fetch_block_from_db e l.blockchain.size m.db ≡ fetched block
    pub by_hash : get_block_by_hash e hash m.db ≡ fetched block
    pub transactions : block.transactions ≡ map normal_transaction txs
    pub by_uuid :
        (j : ℕ) (tx : Transaction)
        → j < 18446744073709551616
        → nth txs j ≡ fetched tx
        → get_transaction_by_uuid e tx.uuid m.db ≡ fetched (normal_transaction tx)

  -- After a commit that succeeds, the block that was added, which has the batch's transactions, is found
  -- by its number and by its hash, and each of the transactions by its identifier, if these differ;
  -- slices that are empty are nil in what is read. Varints are read back, and the strings' bytes differ.
  pub commit_tx_batch-IsFound :
      IsProto e
      → (now : Timestamp) (id : Option ℕ) (txs : List Transaction)
        (results : List TransactionResult) (metadata : Slice) (l m : Ledger i util e p)
        (delta : Bytes)
      → l.blockchain.size + 1 < 18446744073709551616
      → marshal p l.state.state_delta ≡ some delta
      → OnceEach txs
      → commit_tx_batch i util e p now id txs results metadata l ≡ some (m, true)
      → IsFound txs l m
  unfolding get_block_by_hash get_transaction_by_uuid
  commit_tx_batch-IsFound proto now id txs results metadata l m delta small marshalled once done =
      let a =
        commit_tx_batch-IsCommitted i util e p proto now id txs results metadata l m delta small
          marshalled done in
      let n = l.blockchain.size in
      let above : n < 18446744073709551616 = omega arith in
      let history = l.state.history_state_delta_size in
      let b = stored_block now l.blockchain (batch_block txs results metadata) a.state_hash in
      let number : fetch_block_number_by_block_hash e a.hash m.db ≡ n =
        number-indexed e varint a.hash n m.db above (
          ap (λ (x : Db). lookup (encode_block_hash_key a.hash) x.indexes_cf) a.batch
          ∙ lookup-hash e varint b history n a.bytes a.hash a.delta l.db) in
      record {
        block = normal b;
        hash = a.hash;
        tip = a.tip;
        by_number = a.stored;
        by_hash = ap (λ k. fetch_block_from_db e k m.db) number ∙ a.stored;
        transactions = refl;
        by_uuid = λ j tx few sits.
            let index = index-indexed e varint tx.uuid n j m.db above few (
              ap (λ (x : Db). lookup (encode_tx_uuid_key e tx.uuid) x.indexes_cf) a.batch
              ∙ lookup-uuid e varint b history n j tx a.bytes a.hash a.delta l.db once sits) in
            ap (transaction_at e m.db) index
            ∙ (ap (λ b. nth_of b j) a.stored ∙ nth-normal txs j tx sits);
      }
