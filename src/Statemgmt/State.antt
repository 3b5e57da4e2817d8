-- ===== src/Statemgmt/State.antt =====
-- openchain/ledger/statemgmt/state/state.go: the world state with the changes of the block's finished
-- transactions and of the one in progress, over an implementation of `HashableState`.
pub mod Transactions
pub mod Reads
pub mod Recorded
pub mod Block
pub mod Persistence
use hyperledger_fabric.Base.{string_key, ◌==◌, if◌then◌else◌}
use hyperledger_fabric.Base.Map.{Map, insert}
use hyperledger_fabric.Statemgmt.Delta as Delta
use hyperledger_fabric.Statemgmt.Delta.{
  Slice, UpdatedValue, StateDelta, new_state_delta, is_updated_value_set, apply_changes, is_empty,
}
use hyperledger_fabric.Statemgmt.Delta.Hash.{Util, compute_crypto_hash}
use Prim.Native.Nat.{ℕ}
use Prim.Native.String.{String}
use mathlib.Core.Bool.{Bool, true, false, not}
use mathlib.Core.Option.{Option, none, some}
use mathlib.Core.List.{[]}

-- The methods of the interface `HashableState` that `State` calls, on the implementation's own state,
-- which includes the column family that it keeps in the database; `none` is an error. `Changes` is what
-- the implementation adds to a write batch, and `write_changes` what the batch does to it when it is
-- written.
pub record HashableState : Type 1 where
  pub Impl : Type 0
  pub Changes : Type 0
  pub get_state : Impl → String → String → Option Slice
  pub prepare_working_set : StateDelta → Impl → Impl
  pub hash_state : Impl → Impl × Option Slice
  pub clear_working_set : Bool → Impl → Impl
  pub add_changes : Impl → Changes
  pub write_changes : Changes → Impl → Impl

-- How a call ends: a panic, an error with the state it leaves, or success.
pub data Result (S : Type 0) : Type 0 where
  panicked : Result S
  failed : S → Result S
  finished : S → Result S

module _ (i : HashableState) (util : Util) where
  open i use {Impl, get_state, prepare_working_set, hash_state, clear_working_set}

  pub record State : Type 0 where
    pub state_impl : Impl
    pub state_delta : StateDelta
    pub current_tx_state_delta : StateDelta
    pub current_tx_uuid : String
    pub tx_state_delta_hash : Map String Slice
    pub update_state_impl : Bool
    pub history_state_delta_size : ℕ

  abbrev pub tx_in_progress : State → Bool
  tx_in_progress s = not (s.current_tx_uuid == "")

  unfoldable pub tx_begin : String → State → Result State
  tx_begin uuid s =
      if tx_in_progress s then panicked else finished (record s { current_tx_uuid = uuid })

  -- What `TxFinish` merges for a transaction that was successful.
  abbrev pub merge_tx : String → State → State
  merge_tx uuid s =
      if not (is_empty s.current_tx_state_delta)
      then record s {
        state_delta = apply_changes s.current_tx_state_delta s.state_delta;
        tx_state_delta_hash =
            insert uuid (compute_crypto_hash util s.current_tx_state_delta) s.tx_state_delta_hash;
        update_state_impl = true;
      }
      else record s { tx_state_delta_hash = insert uuid none s.tx_state_delta_hash }

  unfoldable pub tx_finish : String → Bool → State → Result State
  tx_finish uuid successful s =
      if not (s.current_tx_uuid == uuid)
      then panicked
      else finished (record (if successful then merge_tx uuid s else s) {
        current_tx_state_delta = new_state_delta;
        current_tx_uuid = "";
      })

  -- The value of an entry that is found, or else of the next level.
  abbrev pub value_or : Option UpdatedValue → Option Slice → Option Slice
  value_or none other = other
  value_or (some u) other = some u.value

  unfoldable pub get : String → String → Bool → State → Option Slice
  get id key committed s =
      if not committed
      then value_or (Delta.get id key s.current_tx_state_delta)
          (value_or (Delta.get id key s.state_delta) (get_state s.state_impl id key))
      else get_state s.state_impl id key

  abbrev pub write_new : (Slice → StateDelta → StateDelta) → Option Slice → State → Result State
  write_new write none s = failed s
  write_new write (some previous) s =
      finished (record s { current_tx_state_delta = write previous s.current_tx_state_delta })

  -- `Set` and `Delete`, which differ in the write to the delta only.
  abbrev pub change : String → String → (Slice → StateDelta → StateDelta) → State → Result State
  change id key write s =
      if not (tx_in_progress s)
      then panicked
      else if is_updated_value_set id key s.current_tx_state_delta
      then write_new write (some none) s
      else write_new write (get id key true s) s

  unfoldable pub set : String → String → Slice → State → Result State
  set id key value s = change id key (Delta.set id key value) s

  unfoldable pub delete : String → String → State → Result State
  delete id key s = change id key (Delta.delete id key) s

  abbrev pub update_impl : State → State
  update_impl s =
      if s.update_state_impl
      then record s {
        state_impl = prepare_working_set s.state_delta s.state_impl;
        update_state_impl = false;
      }
      else s

  unfoldable pub get_hash : State → State × Option Slice
  get_hash s =
      let t = update_impl s in
      let (x, hash) = hash_state t.state_impl in (record t { state_impl = x }, hash)

  unfoldable pub clear_in_memory_changes : Bool → State → State
  clear_in_memory_changes persisted s = record s {
    state_delta = new_state_delta;
    tx_state_delta_hash = [];
    state_impl = clear_working_set persisted s.state_impl;
  }

  unfoldable pub apply_state_delta : StateDelta → State → State
  apply_state_delta d s = record s { state_delta = d; update_state_impl = true }
