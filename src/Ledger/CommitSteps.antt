-- ===== src/Ledger/CommitSteps.antt =====
-- `CommitTxBatch` step by step: each of its outcomes.
use hyperledger_fabric.Base.{Bytes, if_cases, Option-cases, Bool-cases}
use hyperledger_fabric.Ledger.Store.{write_batch}
use hyperledger_fabric.Ledger.Block.{
  Env, Block, Timestamp, Transaction, TransactionResult, get_block_hash,
}
use hyperledger_fabric.Ledger.Blockchain.{
  stored_block, block_changes, prepared_block, add_persistence_changes_for_new_block,
  block_persistence_status,
}
use hyperledger_fabric.Ledger.Batches.{
  Ledger, same_id, batch_block, abandon, committed, add_block, hashed, commit_tx_batch,
  reset_for_next_tx_group,
}
use hyperledger_fabric.Ledger.Proto.{IsProto}
use hyperledger_fabric.Ledger.Chain.{delta_changes-SparesBlocks, fetch-block_changes_other}
use hyperledger_fabric.Statemgmt.Delta.{Slice}
use hyperledger_fabric.Statemgmt.Delta.Hash.{Util}
use hyperledger_fabric.Statemgmt.Delta.Marshal.{Buffer, marshal}
use hyperledger_fabric.Statemgmt.State.{HashableState, State, get_hash}
use hyperledger_fabric.Statemgmt.State.Persistence.{delta_changes}
use Prim.Native.Nat.{ℕ, ◌+◌, ◌<◌}
use mathlib.Core.Path.{◌≡◌, refl, sym, ap, ◌∙◌, subst}
use mathlib.Core.Logic.{inl, inr}
use mathlib.Core.Bool.{true, false}
use mathlib.Core.Option.{Option, none, some}
use mathlib.Core.List.{List, ◌++◌}
use native.Mathlib.Omega.{arith}
use hyperledger_fabric.Ledger.Outcome.{
  IsCommitted, AfterCommit, Commits, delta-get_hash, history-get_hash, changes-add_changes,
  fetch-stored_block, next_number,
}

module _ (i : HashableState) (util : Util) (e : Env) (p : Buffer) where
  abandon-Commits :
      (now : Timestamp) (b : Block) (hashing : Option Slice) (l m : Ledger i util e p)
      → m.blockchain.size ≡ l.blockchain.size
      → m.blockchain.previous_block_hash ≡ l.blockchain.previous_block_hash
      → m.db ≡ l.db
      → Commits i util e p now b hashing l (abandon i util e p m)
  unfolding block_persistence_status reset_for_next_tx_group
  abandon-Commits now b hashing l m size hash db = (_, refl, (size, hash, db))

  write_changes-Commits :
      IsProto e
      → (now : Timestamp) (b : Block) (state_hash : Slice) (l : Ledger i util e p)
        (s : State i util) (bytes delta hash : Bytes)
      → l.blockchain.size + 1 < 18446744073709551616
      → marshal p l.state.state_delta ≡ some delta
      → s.state_delta ≡ l.state.state_delta
      → s.history_state_delta_size ≡ l.state.history_state_delta_size
      → e.marshal_block (stored_block now l.blockchain b state_hash) ≡ some bytes
      → get_block_hash e (stored_block now l.blockchain b state_hash) ≡ some hash
      → Commits i util e p now b (some state_hash) l (
          add_block i util e p
            (record l { state = s })
            (prepared_block e
              (stored_block now l.blockchain b state_hash)
              l.blockchain
              (some hash)
              (some bytes)))
  unfolding block_persistence_status reset_for_next_tx_group
  write_changes-Commits proto now b state_hash l s bytes delta hash small m same kept mb hb =
      let x = stored_block now l.blockchain b state_hash in
      let c = record l.blockchain {
        last_processed_block =
            some (record { block = x; block_number = l.blockchain.size; block_hash = hash });
      } in
      let changes = block_changes e x l.blockchain.size bytes hash in
      let more = delta_changes s.history_state_delta_size l.blockchain.size delta in
      let spares = delta_changes-SparesBlocks s.history_state_delta_size l.blockchain.size delta in
      let (t, own, q) =
        changes-add_changes i util e p l.blockchain.size delta s (ap (marshal p) same ∙ m) in
      rw q (
        if_cases (Commits i util e p now b (some state_hash) l) (e.write_error (changes ++ more))
          (abandon i util e p (record l { state = t; blockchain = c }))
          (committed i util e p (record l {
            state = record t { state_impl = i.write_changes own t.state_impl };
            blockchain = c;
            db = write_batch (changes ++ more) l.db;
          }))
          (λ _.
            abandon-Commits now b (some state_hash) l (record l { state = t; blockchain = c }) refl
              refl refl)
          (λ _. (
            _,
            refl,
            record {
              size = next_number l.blockchain.size small;
              state_hash = state_hash;
              hashed_state = refl;
              hash = hash;
              tip = refl;
              hash_before = hb;
              bytes = bytes;
              marshalled = mb;
              stored =
                  fetch-stored_block e proto now b state_hash l.blockchain bytes hash more l.db
                    spares mb;
              others = λ k lt.
                  fetch-block_changes_other e x l.blockchain.size k bytes hash more l.db spares lt
                    (omega arith);
              none_waiting = refl;
              delta = delta;
              delta_marshalled = m;
              batch =
                  ap
                    (λ history.
                      write_batch (changes ++ delta_changes history l.blockchain.size delta) l.db)
                    kept;
            },
          )))

  hashed-Commits :
      IsProto e
      → (now : Timestamp) (b : Block) (l : Ledger i util e p) (delta : Bytes) (s : State i util)
        (o : Option Slice)
      → l.blockchain.size + 1 < 18446744073709551616
      → marshal p l.state.state_delta ≡ some delta
      → s.state_delta ≡ l.state.state_delta
      → s.history_state_delta_size ≡ l.state.history_state_delta_size
      → Commits i util e p now b o l (hashed i util e p now b l (s, o))
  unfolding add_persistence_changes_for_new_block
  hashed-Commits proto now b l delta s none small m same kept =
      abandon-Commits now b none l (record l { state = s }) refl refl refl
  hashed-Commits proto now b l delta s (some state_hash) small m same kept =
      let x = stored_block now l.blockchain b state_hash in
      let failing =
        abandon-Commits now b (some state_hash) l (record l { state = s }) refl refl refl in
      elim (Option-cases (get_block_hash e x)) [
        | inl no_hash ↦ rw no_hash failing
        | inr (hash, hb) ↦ elim (Option-cases (e.marshal_block x)) [
          | inl no_bytes ↦ rw (hb, no_bytes) failing
          | inr (bytes, mb) ↦
              rw (hb, mb)
                (write_changes-Commits proto now b state_hash l s bytes delta hash small m same kept
                  mb hb)
        ]
      ]

  pub commit_tx_batch-Commits :
      IsProto e
      → (now : Timestamp) (id : Option ℕ) (txs : List Transaction)
        (results : List TransactionResult) (metadata : Slice) (l : Ledger i util e p)
        (delta : Bytes)
      → l.blockchain.size + 1 < 18446744073709551616
      → marshal p l.state.state_delta ≡ some delta
      → Commits i util e p now
          (batch_block txs results metadata)
          (get_hash i util l.state).1
          l
          (commit_tx_batch i util e p now id txs results metadata l)
  unfolding commit_tx_batch
  commit_tx_batch-Commits proto now id txs results metadata l delta small m =
      elim (Bool-cases (same_id l.current_id id)) [
        | inl ours ↦ rw ours (
            hashed-Commits proto now (batch_block txs results metadata) l delta
              (get_hash i util l.state).0 (get_hash i util l.state).1 small m
              (delta-get_hash i util e p l.state) (history-get_hash i util e p l.state))
        | inr another ↦ rw another ((l, false), refl, (refl, refl, refl))
      ]

  pub commit_tx_batch-IsCommitted :
      IsProto e
      → (now : Timestamp) (id : Option ℕ) (txs : List Transaction)
        (results : List TransactionResult) (metadata : Slice) (l m : Ledger i util e p)
        (delta : Bytes)
      → l.blockchain.size + 1 < 18446744073709551616
      → marshal p l.state.state_delta ≡ some delta
      → commit_tx_batch i util e p now id txs results metadata l ≡ some (m, true)
      → IsCommitted i util e p now
          (batch_block txs results metadata)
          (get_hash i util l.state).1
          l
          m
  commit_tx_batch-IsCommitted proto now id txs results metadata l m delta small marshalled done =
      let (r, q, after) =
        commit_tx_batch-Commits proto now id txs results metadata l delta small marshalled in
      let same : some r ≡ some (m, true) = sym q ∙ done in
      let e2 : r ≡ (m, true) = cc same in
      subst
        (λ r.
          AfterCommit i util e p now (batch_block txs results metadata) (get_hash i util l.state).1
            l r)
        e2 after
