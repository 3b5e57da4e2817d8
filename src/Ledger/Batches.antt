-- ===== src/Ledger/Batches.antt =====
-- openchain/ledger/ledger.go: the ledger, its batches of transactions and deltas, and the verification of
-- its chain. The event that is sent for a new block is not modelled.
use hyperledger_fabric.Base.{Bytes, bytes_beq, leb, ◌==◌, nat_key, if◌then◌else◌}
use hyperledger_fabric.Ledger.Store.{Db, Change, write_batch}
use hyperledger_fabric.Ledger.Block.{
  Env, Block, Timestamp, Transaction, TransactionResult, new_block, get_block_hash,
}
use hyperledger_fabric.Ledger.Blockchain.{
  Blockchain, Fetched, fetch_error, nothing, fetched, fetch_block_from_db, build_block,
  add_persistence_changes_for_new_block, block_persistence_status, persist_raw_block,
}
use hyperledger_fabric.Statemgmt.Delta.{Slice, StateDelta}
use hyperledger_fabric.Statemgmt.Delta.Hash.{Util}
use hyperledger_fabric.Statemgmt.Delta.Marshal.{Buffer, bytes_of}
use hyperledger_fabric.Statemgmt.State.{
  HashableState, State, get_hash, clear_in_memory_changes, apply_state_delta,
}
use hyperledger_fabric.Statemgmt.State.Persistence.{
  add_changes_for_persistence, commit_state_delta, fetch_state_delta_from_db,
}
use Prim.Native.Nat.{ℕ, zero, suc, ◌+◌, ◌-◌}
use mathlib.Core.Logic.{◌⊎◌, inl, inr}
use mathlib.Core.Bool.{Bool, true, false, not}
use mathlib.Core.Option.{Option, none, some}
use mathlib.Core.List.{List, ◌++◌}

-- `reflect.DeepEqual` of two identifiers, nil included.
abbrev pub same_id : Option ℕ → Option ℕ → Bool
same_id none none = true
same_id none (some y) = false
same_id (some x) none = false
same_id (some x) (some y) = x == y

abbrev pub with_results : List TransactionResult → Block → Block
with_results results b = record b {
  non_hash_data =
      some (record { local_ledger_commit_timestamp = none; transaction_results = results });
}

-- The block before it is linked, as `CommitTxBatch` makes it.
abbrev pub batch_block : List Transaction → List TransactionResult → Slice → Block
batch_block txs results metadata = with_results results (new_block txs metadata)

module _ (i : HashableState) (util : Util) (e : Env) (p : Buffer) where
  pub record Ledger : Type 0 where
    pub blockchain : Blockchain
    pub state : State i util
    pub current_id : Option ℕ
    pub db : Db

  abbrev pub is_idle : Ledger → Bool
  is_idle l = same_id l.current_id none

  -- Each operation that can fail gives the ledger and whether there was no error.
  unfoldable pub begin_tx_batch : Option ℕ → Ledger → Ledger × Bool
  begin_tx_batch id l = if is_idle l then (record l { current_id = id }, true) else (l, false)

  unfoldable pub reset_for_next_tx_group : Bool → Ledger → Ledger
  reset_for_next_tx_group committed l = record l {
    current_id = none;
    state = clear_in_memory_changes i util committed l.state;
  }

  abbrev pub built :
      Ledger → List Transaction → Slice → State i util × Option Slice → Ledger × Option Block
  built l txs metadata (s, none) = (record l { state = s }, none)
  built l txs metadata (s, some hash) =
      (record l { state = s }, some (build_block l.blockchain (new_block txs metadata) hash))

  unfoldable pub get_tx_batch_preview_block :
      Option ℕ → List Transaction → Slice → Ledger → Ledger × Option Block
  get_tx_batch_preview_block id txs metadata l =
      if not (same_id l.current_id id)
      then (l, none)
      else built l txs metadata (get_hash i util l.state)

  -- What each error of `CommitTxBatch` does.
  abbrev pub abandon : Ledger → Option (Ledger × Bool)
  abandon l = elim (block_persistence_status false l.blockchain) as (λ _. Option (Ledger × Bool)) [
    | none ↦ none
    | some c ↦ some (record (reset_for_next_tx_group false l) { blockchain = c }, false)
  ]

  abbrev pub committed : Ledger → Option (Ledger × Bool)
  committed l = elim (block_persistence_status true l.blockchain) as (λ _. Option (Ledger × Bool)) [
    | none ↦ none
    | some c ↦ some (record (reset_for_next_tx_group true l) { blockchain = c }, true)
  ]

  -- The last part: the batch is written.
  abbrev pub write_changes :
      List Change
      → Ledger
      → Option (State i util × i.Changes × List Change)
      → Option (Ledger × Bool)
  write_changes changes l none = none
  write_changes changes l (some (s, own, more)) =
      let all = changes ++ more in
      if e.write_error all
      then abandon (record l { state = s })
      else committed (record l {
        state = record s { state_impl = i.write_changes own s.state_impl };
        db = write_batch all l.db;
      })

  abbrev pub add_block : Ledger → Option (List Change × Blockchain) → Option (Ledger × Bool)
  add_block l none = abandon l
  add_block l (some (changes, c)) =
      write_changes changes (record l { blockchain = c })
        (add_changes_for_persistence i util p l.blockchain.size l.state)

  abbrev pub hashed :
      Timestamp → Block → Ledger → State i util × Option Slice → Option (Ledger × Bool)
  hashed now b l (s, none) = abandon (record l { state = s })
  hashed now b l (s, some hash) =
      add_block (record l { state = s })
        (add_persistence_changes_for_new_block e now b hash l.blockchain)

  -- `none` is a panic.
  unfoldable pub commit_tx_batch :
      Timestamp
      → Option ℕ
      → List Transaction
      → List TransactionResult
      → Slice
      → Ledger
      → Option (Ledger × Bool)
  commit_tx_batch now id txs results metadata l =
      if not (same_id l.current_id id)
      then some (l, false)
      else hashed now (batch_block txs results metadata) l (get_hash i util l.state)

  unfoldable pub rollback_tx_batch : Option ℕ → Ledger → Ledger × Bool
  rollback_tx_batch id l =
      if not (same_id l.current_id id) then (l, false) else (reset_for_next_tx_group false l, true)

  -- `ApplyStateDelta` of the ledger.
  unfoldable pub begin_state_delta : Option ℕ → StateDelta → Ledger → Ledger × Bool
  begin_state_delta id d l =
      if is_idle l
      then (record l { current_id = id; state = apply_state_delta i util d l.state }, true)
      else (l, false)

  -- `CommitStateDelta`, given whether the database takes the batch. The deferred reset follows in both
  -- cases.
  unfoldable pub commit_applied_delta : Bool → Option ℕ → Ledger → Ledger × Bool
  commit_applied_delta taken id l =
      if not (same_id l.current_id id)
      then (l, false)
      else let (s, ok) = commit_state_delta i util taken l.state in
        (reset_for_next_tx_group true (record l { state = s }), ok)

  -- `RollbackStateDelta` is the same code as `RollbackTxBatch`.
  unfoldable pub rollback_state_delta : Option ℕ → Ledger → Ledger × Bool
  rollback_state_delta id l =
      if not (same_id l.current_id id) then (l, false) else (reset_for_next_tx_group false l, true)

  unfoldable pub get_block_by_number : ℕ → Ledger → Fetched Block
  get_block_by_number n l =
      if leb l.blockchain.size n then fetch_error else fetch_block_from_db e n l.db

  -- `none` is `ErrOutOfBounds`.
  unfoldable pub get_state_delta : ℕ → Ledger → Option (Option StateDelta)
  get_state_delta n l =
      if leb l.blockchain.size n then none else some (fetch_state_delta_from_db p n l.db)

  unfoldable pub put_raw_block : Block → ℕ → Ledger → Ledger × Bool
  put_raw_block b n l =
      let (c, d, ok) = persist_raw_block e b n l.blockchain l.db in
      (record l { blockchain = c; db = d }, ok)

  -- Whether a block is linked to the one before; `none` is an error, of the number it is returned with.
  abbrev linked : ℕ → Block → Option Bytes → (ℕ × Bool) ⊎ Bool
  linked n b none = inl (n, false)
  linked n b (some hash) = inr (bytes_beq hash (bytes_of b.previous_block_hash))

  abbrev check_previous : ℕ → Block → Fetched Block → (ℕ × Bool) ⊎ Bool
  check_previous n b fetch_error = inl (n, false)
  check_previous n b nothing = inl (n, false)
  check_previous n b (fetched prev) = linked n b (get_block_hash e prev)

  -- One round of the loop, at the block after `n`: what it returns, or whether the link is right.
  abbrev pub check_link : ℕ → Fetched Block → Fetched Block → (ℕ × Bool) ⊎ Bool
  check_link n fetch_error prev = inl (suc n, false)
  check_link n nothing prev = inl (suc n, false)
  check_link n (fetched b) prev = check_previous n b prev

  abbrev pub verdict : ℕ → (ℕ × Bool) ⊎ Bool → ℕ × Bool → ℕ × Bool
  verdict n (inl r) rest = r
  verdict n (inr false) rest = (suc n, true)
  verdict n (inr true) rest = rest

  -- The rounds left, down to the block after `low`.
  unfoldable pub verify_loop : ℕ → ℕ → Ledger → ℕ × Bool
  verify_loop low zero l = (0, true)
  verify_loop low (suc k) l =
      let n = low + k in
      let rest = verify_loop low k l in
      verdict n (check_link n (get_block_by_number (suc n) l) (get_block_by_number n l)) rest

  -- The number that `VerifyChain` returns, and whether there was no error.
  unfoldable pub verify_chain : ℕ → ℕ → Ledger → ℕ × Bool
  verify_chain high low l =
      if leb l.blockchain.size high
      then (high, false)
      else if leb high low
      then (low, false)
      else verify_loop low (high - low) l
