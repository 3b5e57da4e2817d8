-- ===== src/Statemgmt/State/Persistence.antt =====
-- What `State` of state.go adds to a write batch, and the deltas of earlier blocks that it keeps in the
-- database.
use hyperledger_fabric.Base.{Bytes, bytes_key, encode_uint64, leb, if◌then◌else◌}
use hyperledger_fabric.Ledger.Store.{Db, Change, put_state_delta, delete_state_delta, get_cf}
use hyperledger_fabric.Statemgmt.Delta.{StateDelta, new_state_delta}
use hyperledger_fabric.Statemgmt.Delta.Hash.{Util}
use hyperledger_fabric.Statemgmt.Delta.Marshal.{Buffer, marshal, unmarshal}
use hyperledger_fabric.Statemgmt.State.{HashableState, State, update_impl}
use Prim.Native.Nat.{ℕ, ◌-◌}
use mathlib.Core.Bool.{Bool, true, false}
use mathlib.Core.Option.{Option, none, some}
use mathlib.Core.List.{List, [], ◌∷◌}

-- The new delta is put; the one that leaves the history, if there is one, is deleted.
abbrev pub delta_changes : ℕ → ℕ → Bytes → List Change
delta_changes history n bytes =
    put_state_delta (encode_uint64 n) bytes
    ∷ (if leb history n then delete_state_delta (encode_uint64 (n - history)) ∷ [] else [])

-- A delta that is missing is nil. The error of `Unmarshal` is not looked at.
abbrev pub decoded_delta : Buffer → Option Bytes → Option StateDelta
decoded_delta p none = none
decoded_delta p (some b) = some (unmarshal p b new_state_delta).0

unfoldable pub fetch_state_delta_from_db : Buffer → ℕ → Db → Option StateDelta
fetch_state_delta_from_db p n d = decoded_delta p (get_cf (encode_uint64 n) d.state_delta_cf)

module _ (i : HashableState) (util : Util) where
  abbrev with_delta :
      ℕ → State i util → Option Bytes → Option (State i util × i.Changes × List Change)
  with_delta n s none = none
  with_delta n s (some bytes) =
      some (s, i.add_changes s.state_impl, delta_changes s.history_state_delta_size n bytes)

  -- The state, the implementation's changes, and those of the history; `none` is a panic of `Marshal`.
  unfoldable pub add_changes_for_persistence :
      Buffer → ℕ → State i util → Option (State i util × i.Changes × List Change)
  add_changes_for_persistence p n s =
      let t = update_impl i util s in with_delta n t (marshal p t.state_delta)

  -- `CommitStateDelta`, given whether the database takes the batch.
  unfoldable pub commit_state_delta : Bool → State i util → State i util × Bool
  commit_state_delta taken s =
      let t = update_impl i util s in
      if taken
      then (
        record t { state_impl = i.write_changes (i.add_changes t.state_impl) t.state_impl },
        true,
      )
      else (t, false)
