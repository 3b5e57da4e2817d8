-- ===== src/Ledger/Restart.antt =====
-- The chain that a peer finds when it starts again after a commit.
use hyperledger_fabric.Base.{Bytes, bytes_key, All, All-append}
use hyperledger_fabric.Base.ByteSlices.{encode_uint64, decode_to_uint64-encode_uint64}
use hyperledger_fabric.Base.Map.{lookup, insert, lookup-insert_self}
use hyperledger_fabric.Ledger.Store.{Db, Change, not_empty, write_batch}
use hyperledger_fabric.Ledger.Block.{Env, Block, Timestamp, Transaction, TransactionResult}
use hyperledger_fabric.Ledger.Indexes.{add_index_data_for_persistence}
use hyperledger_fabric.Ledger.Blockchain.{
  block_count_key, block_changes, fetch_blockchain_size_from_db, new_blockchain, chain_of,
  hash_of_fetched, counted, sized, stored_block,
}
use hyperledger_fabric.Ledger.Batches.{Ledger, batch_block, commit_tx_batch}
use hyperledger_fabric.Ledger.Proto.{IsProto, get_block_hash-normal}
use hyperledger_fabric.Ledger.Chain.{
  SparesBlocks, blocks-write_batch, add_index_data-SparesBlocks, delta_changes-SparesBlocks,
}
use hyperledger_fabric.Ledger.CommitSteps.{commit_tx_batch-IsCommitted}
use hyperledger_fabric.Statemgmt.Delta.{Slice}
use hyperledger_fabric.Statemgmt.Delta.Hash.{Util}
use hyperledger_fabric.Statemgmt.Delta.Marshal.{Buffer, marshal}
use hyperledger_fabric.Statemgmt.State.{HashableState}
use hyperledger_fabric.Statemgmt.State.Persistence.{delta_changes}
use Prim.Native.Nat.{ℕ, suc, ◌+◌, ◌<◌}
use mathlib.Core.Path.{◌≡◌, refl, sym, ap, ◌∙◌}
use mathlib.Core.Bool.{true}
use mathlib.Core.Option.{Option, some}
use mathlib.Core.List.{List, ◌++◌}
use native.Mathlib.Omega.{arith}

lookup-count :
    (e : Env) (b : Block) (n : ℕ) (bytes hash : Bytes) (more : List Change) (d : Db)
    → All SparesBlocks more
    → lookup block_count_key (write_batch (block_changes e b n bytes hash ++ more) d).blockchain_cf
      ≡ some (encode_uint64 (n + 1))
unfolding write_batch
lookup-count e b n bytes hash more d spares =
    let rest = add_index_data_for_persistence e b n hash ++ more in
    let own = insert (encode_uint64 n) bytes d.blockchain_cf in
    ap (lookup block_count_key) (
      blocks-write_batch rest
        (record d { blockchain_cf = insert block_count_key (encode_uint64 (n + 1)) own })
        (All-append SparesBlocks (add_index_data_for_persistence e b n hash) more
          (add_index_data-SparesBlocks e b n hash) spares))
    ∙ lookup-insert_self (encode_uint64 (n + 1)) own block_count_key

size-count :
    (n : ℕ) (d : Db)
    → n < 18446744073709551616
    → lookup block_count_key d.blockchain_cf ≡ some (encode_uint64 n)
    → fetch_blockchain_size_from_db d ≡ some n
unfolding fetch_blockchain_size_from_db encode_uint64
size-count n d small count =
    ap (λ o. counted (not_empty o)) count ∙ decode_to_uint64-encode_uint64 n small

module _ (i : HashableState) (util : Util) (e : Env) (p : Buffer) where
  -- After a commit that succeeds, the chain that is read from the database by `newBlockchain` is the one
  -- that the ledger keeps: its size, and the hash that the next block is linked to.
  pub new_blockchain-commit_tx_batch :
      IsProto e
      → (now : Timestamp) (id : Option ℕ) (txs : List Transaction)
        (results : List TransactionResult) (metadata : Slice) (l m : Ledger i util e p)
        (delta : Bytes)
      → l.blockchain.size + 1 < 18446744073709551616
      → marshal p l.state.state_delta ≡ some delta
      → commit_tx_batch i util e p now id txs results metadata l ≡ some (m, true)
      → new_blockchain e m.db ≡ some m.blockchain
  unfolding new_blockchain
  new_blockchain-commit_tx_batch proto now id txs results metadata l m delta small marshalled done =
      let a =
        commit_tx_batch-IsCommitted i util e p proto now id txs results metadata l m delta small
          marshalled done in
      let n = l.blockchain.size in
      let b = stored_block now l.blockchain (batch_block txs results metadata) a.state_hash in
      let more = delta_changes l.state.history_state_delta_size n a.delta in
      let count : fetch_blockchain_size_from_db m.db ≡ some (n + 1) =
        size-count (n + 1) m.db small (
          ap (λ (x : Db). lookup block_count_key x.blockchain_cf) a.batch
          ∙ lookup-count e b n a.bytes a.hash more l.db
              (delta_changes-SparesBlocks l.state.history_state_delta_size n a.delta)) in
      let next : n + 1 ≡ suc n = omega arith in
      ap (sized e m.db) (count ∙ ap some next)
      ∙ (ap (λ x. chain_of (suc n) (hash_of_fetched e x)) a.stored
          ∙ (ap (chain_of (suc n))
                (get_block_hash-normal e proto b a.bytes a.marshalled ∙ a.hash_before)
              ∙ rw (sym a.size, sym a.tip, sym a.none_waiting) refl))
