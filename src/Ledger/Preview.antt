-- ===== src/Ledger/Preview.antt =====
-- `GetTXBatchPreviewBlock` and the block that `CommitTxBatch` stores.
use hyperledger_fabric.Base.{Bytes, Bool-cases}
use hyperledger_fabric.Ledger.Block.{
  Env, Block, Timestamp, Transaction, TransactionResult, get_block_hash, new_block,
}
use hyperledger_fabric.Ledger.Blockchain.{fetched, fetch_block_from_db, stored_block, build_block}
use hyperledger_fabric.Ledger.Batches.{
  Ledger, same_id, batch_block, commit_tx_batch, get_tx_batch_preview_block, built,
}
use hyperledger_fabric.Ledger.Proto.{IsProto, normal, get_block_hash-normal, get_block_hash-bare}
use hyperledger_fabric.Ledger.CommitSteps.{commit_tx_batch-IsCommitted}
use hyperledger_fabric.Ledger.Outcome.{delta-get_hash}
use hyperledger_fabric.Statemgmt.Delta.{Slice}
use hyperledger_fabric.Statemgmt.Delta.Hash.{Util}
use hyperledger_fabric.Statemgmt.Delta.Marshal.{Buffer, marshal}
use hyperledger_fabric.Statemgmt.State.{HashableState, State, get_hash}
use Prim.Native.Nat.{ℕ, ◌+◌, ◌<◌}
use mathlib.Core.Path.{◌≡◌, refl, sym, ap, ◌∙◌}
use mathlib.Core.Logic.{inl, inr}
use mathlib.Core.Bool.{true}
use mathlib.Core.Option.{Option, none, some}
use mathlib.Core.List.{List}

module _ (i : HashableState) (util : Util) (e : Env) (p : Buffer) where
  -- The hash of the state does not depend on how often it is asked for.
  abbrev pub HashesAgain : Type 0
  HashesAgain = (x : i.Impl) → (i.hash_state (i.hash_state x).0).1 ≡ (i.hash_state x).1

  get_hash-again :
      HashesAgain
      → (s : State i util) → (get_hash i util (get_hash i util s).0).1 ≡ (get_hash i util s).1
  unfolding get_hash
  get_hash-again again s = elim (Bool-cases s.update_state_impl) [
    | inl stale ↦ rw stale (again (i.prepare_working_set s.state_delta s.state_impl))
    | inr fresh ↦ rw fresh (again s.state_impl)
  ]

  abbrev previewed : Ledger i util e p → List Transaction → Slice → Slice → Block
  previewed l txs metadata hash = build_block l.blockchain (new_block txs metadata) hash

  built-parts :
      (l l2 : Ledger i util e p) (txs : List Transaction) (metadata : Slice) (preview : Block)
      (s : State i util) (o : Option Slice)
      → built i util e p l txs metadata (s, o) ≡ (l2, some preview)
      → (hash : Slice) × (o ≡ some hash)
        × (previewed l txs metadata hash ≡ preview)
        × (record l { state = s } ≡ l2)
  built-parts l l2 txs metadata preview s none h =
      cc (ap (λ (x : Ledger i util e p × Option Block). x.1) h)
  built-parts l l2 txs metadata preview s (some hash) h =
      let q : some (previewed l txs metadata hash) ≡ some preview =
        ap (λ (x : Ledger i util e p × Option Block). x.1) h in
      (hash, refl, cc q, ap (λ (x : Ledger i util e p × Option Block). x.0) h)

  preview-parts :
      (id : Option ℕ) (txs : List Transaction) (metadata : Slice) (l l2 : Ledger i util e p)
      (preview : Block)
      → get_tx_batch_preview_block i util e p id txs metadata l ≡ (l2, some preview)
      → (hash : Slice) × ((get_hash i util l.state).1 ≡ some hash)
        × (previewed l txs metadata hash ≡ preview)
        × (record l { state = (get_hash i util l.state).0 } ≡ l2)
  unfolding get_tx_batch_preview_block
  preview-parts id txs metadata l l2 preview h = elim (Bool-cases (same_id l.current_id id)) [
    | inl ours ↦
        built-parts l l2 txs metadata preview (get_hash i util l.state).0
          (get_hash i util l.state).1 (rw ours at h)
    | inr another ↦
        let q : (l, none) ≡ (l2, some preview) = rw another at h in
        cc (ap (λ (x : Ledger i util e p × Option Block). x.1) q)
  ]

  -- The commit of what was previewed with a given hash of the state.
  commit-previewed :
      IsProto e
      → HashesAgain
      → (now : Timestamp) (id : Option ℕ) (txs : List Transaction)
        (results : List TransactionResult) (metadata : Slice) (l m : Ledger i util e p)
        (hash : Slice) (delta bytes : Bytes)
      → (get_hash i util l.state).1 ≡ some hash
      → e.marshal_block (previewed l txs metadata hash) ≡ some bytes
      → l.blockchain.size + 1 < 18446744073709551616
      → marshal p l.state.state_delta ≡ some delta
      → commit_tx_batch i util e p now id txs results metadata
          (record l { state = (get_hash i util l.state).0 })
        ≡ some (m, true)
      → (b : Block) × (fetch_block_from_db e l.blockchain.size m.db ≡ fetched b)
        × (get_block_hash e b ≡ get_block_hash e (previewed l txs metadata hash))
  commit-previewed proto again now id txs results metadata l m hash delta bytes hashing marshalled
        small dm done =
      let l2 = record l { state = (get_hash i util l.state).0 } in
      let b = batch_block txs results metadata in
      let a =
        commit_tx_batch-IsCommitted i util e p proto now id txs results metadata l2 m delta small
          (ap (marshal p) (delta-get_hash i util e p l.state) ∙ dm) done in
      let x = stored_block now l.blockchain b a.state_hash in
      let q : some a.state_hash ≡ some hash =
        sym a.hashed_state ∙ (get_hash-again again l.state ∙ hashing) in
      let same : a.state_hash ≡ hash = cc q in
      (
        normal x,
        a.stored,
        get_block_hash-normal e proto x a.bytes a.marshalled
            ∙ get_block_hash-bare e proto x (previewed l txs metadata hash) a.bytes bytes
                a.marshalled marshalled (ap (λ (h : Slice). previewed l txs metadata h) same),
      )

  -- If a preview of a batch is followed by its commit, with the same transactions and metadata, then the
  -- block that is stored has the hash of the preview, whatever the results and the time. It is assumed
  -- that hashing the state twice gives one hash, and that the preview can be marshalled.
  pub get_tx_batch_preview_block-commit_tx_batch :
      IsProto e
      → HashesAgain
      → (now : Timestamp) (id : Option ℕ) (txs : List Transaction)
        (results : List TransactionResult) (metadata : Slice) (l l2 m : Ledger i util e p)
        (preview : Block) (delta bytes : Bytes)
      → get_tx_batch_preview_block i util e p id txs metadata l ≡ (l2, some preview)
      → e.marshal_block preview ≡ some bytes
      → l.blockchain.size + 1 < 18446744073709551616
      → marshal p l.state.state_delta ≡ some delta
      → commit_tx_batch i util e p now id txs results metadata l2 ≡ some (m, true)
      → (b : Block) × (fetch_block_from_db e l.blockchain.size m.db ≡ fetched b)
        × (get_block_hash e b ≡ get_block_hash e preview)
  get_tx_batch_preview_block-commit_tx_batch proto again now id txs results metadata l l2 m preview
        delta bytes shown marshalled small dm done =
      let (hash, hashing, is_preview, is_l2) = preview-parts id txs metadata l l2 preview shown in
      let (b, stored, same) =
        commit-previewed proto again now id txs results metadata l m hash delta bytes hashing
          (ap e.marshal_block is_preview ∙ marshalled) small dm
          (ap (commit_tx_batch i util e p now id txs results metadata) is_l2 ∙ done) in
      (b, stored, same ∙ ap (get_block_hash e) is_preview)
