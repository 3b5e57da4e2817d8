-- ===== src/Ledger/Commit.antt =====
-- `CommitTxBatch` and the chain of blocks.
use hyperledger_fabric.Base.{Bytes, if◌then◌else◌}
use hyperledger_fabric.Ledger.Store.{Db}
use hyperledger_fabric.Ledger.Block.{Env, Block, Timestamp, Transaction, TransactionResult}
use hyperledger_fabric.Ledger.Blockchain.{stored_block}
use hyperledger_fabric.Ledger.Batches.{Ledger, batch_block, commit_tx_batch}
use hyperledger_fabric.Ledger.Proto.{IsProto, normal, normal_slice, get_block_hash-normal}
use hyperledger_fabric.Ledger.Chain.{Chain, Chain-fetch}
use hyperledger_fabric.Statemgmt.Delta.{Slice}
use hyperledger_fabric.Statemgmt.Delta.Hash.{Util}
use hyperledger_fabric.Statemgmt.Delta.Marshal.{Buffer, bytes_of, marshal}
use hyperledger_fabric.Statemgmt.State.{HashableState, get_hash}
use Prim.Native.Nat.{ℕ, zero, suc, ◌+◌, ◌<◌}
use mathlib.Core.Path.{◌≡◌, sym, ap, ◌∙◌}
use mathlib.Core.Bool.{Bool, true, false}
use mathlib.Core.Option.{Option, some}
use mathlib.Core.List.{List}
use native.Mathlib.Omega.{arith}
use hyperledger_fabric.Ledger.Outcome.{AfterCommit, normal_slice_bytes}
use hyperledger_fabric.Ledger.CommitSteps.{commit_tx_batch-Commits}

Chain-bytes :
    (e : Env) (n : ℕ) (g h : Slice) (d : Db)
    → bytes_of g ≡ bytes_of h
    → Chain e n g d
    → Chain e n h d
Chain-bytes e zero g h d same chain = sym same ∙ chain
Chain-bytes e (suc n) g h d same (b, stored, hash, rest) = (b, stored, hash ∙ ap some same, rest)

module _ (i : HashableState) (util : Util) (e : Env) (p : Buffer) where
  -- The ledger's blocks form a chain that ends in the hash that it keeps.
  abbrev pub IsChained : Ledger i util e p → Type 0
  IsChained l = Chain e l.blockchain.size l.blockchain.previous_block_hash l.db

  AfterCommit-IsChained :
      IsProto e
      → (now : Timestamp) (b : Block) (o : Option Slice) (l : Ledger i util e p)
        (r : Ledger i util e p × Bool)
      → AfterCommit i util e p now b o l r
      → IsChained l
      → IsChained r.0
  AfterCommit-IsChained proto now b o l (m, true) a chain =
      let x = stored_block now l.blockchain b a.state_hash in
      let previous = l.blockchain.previous_block_hash in
      rw (a.size, a.tip)
        (
          normal x,
          a.stored,
          get_block_hash-normal e proto x a.bytes a.marshalled ∙ a.hash_before,
          Chain-bytes e l.blockchain.size previous (normal_slice previous) m.db
              (normal_slice_bytes previous)
              (Chain-fetch e l.blockchain.size previous l.db m.db a.others chain),
        )
  AfterCommit-IsChained proto now b o l (m, false) (size, hash, db) chain =
      rw (size, hash, db) chain

  size_after :
      (now : Timestamp) (b : Block) (o : Option Slice) (l m : Ledger i util e p) (ok : Bool)
      → AfterCommit i util e p now b o l (m, ok)
      → m.blockchain.size ≡ (if ok then l.blockchain.size + 1 else l.blockchain.size)
  size_after now b o l m true a = omega (arith, a.size)
  size_after now b o l m false (size, _, _) = size

  db_after :
      (now : Timestamp) (b : Block) (o : Option Slice) (l m : Ledger i util e p) (ok : Bool)
      → AfterCommit i util e p now b o l (m, ok)
      → ok ≡ false
      → m.db ≡ l.db
  db_after now b o l m true a never = cc never
  db_after now b o l m false (_, _, db) _ = db

  -- `CommitTxBatch` does not panic, if the block's delta can be marshalled, and keeps the chain: on
  -- success it has one block more, linked to the last; on each error, that of another batch included, the
  -- number of blocks and the database are as they were. There are fewer than 2^64 - 1 blocks.
  pub commit_tx_batch-IsChained :
      IsProto e
      → (now : Timestamp) (id : Option ℕ) (txs : List Transaction)
        (results : List TransactionResult) (metadata : Slice) (l : Ledger i util e p)
        (delta : Bytes)
      → IsChained l
      → l.blockchain.size + 1 < 18446744073709551616
      → marshal p l.state.state_delta ≡ some delta
      → (m : Ledger i util e p) × (ok : Bool) × (commit_tx_batch i util e p now id txs results
            metadata l
          ≡ some (m, ok))
        × IsChained m
        × (m.blockchain.size ≡ (if ok then l.blockchain.size + 1 else l.blockchain.size))
        × (ok ≡ false → m.db ≡ l.db)
  commit_tx_batch-IsChained proto now id txs results metadata l delta chain small marshalled =
      let ((m, ok), q, after) =
        commit_tx_batch-Commits i util e p proto now id txs results metadata l delta small
          marshalled in
      let b = batch_block txs results metadata in
      let hashing = (get_hash i util l.state).1 in
      (
        m,
        ok,
        q,
        AfterCommit-IsChained proto now b hashing l (m, ok) after chain,
        size_after now b hashing l m ok after,
        db_after now b hashing l m ok after,
      )
