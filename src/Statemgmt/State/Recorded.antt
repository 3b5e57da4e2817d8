-- ===== src/Statemgmt/State/Recorded.antt =====
-- The deltas of the `State` record the committed values, over whole runs of transactions.
use hyperledger_fabric.Base.{string_key, ◌==◌, if_cases}
use hyperledger_fabric.Statemgmt.Delta as Delta
use hyperledger_fabric.Statemgmt.Delta.{
  Slice, UpdatedValue, ChaincodeStateDelta, StateDelta, is_updated_value_set, apply_changes,
  is_empty, get_in, written, new_state_delta,
}
use hyperledger_fabric.Statemgmt.Delta.Hash.{Util}
use hyperledger_fabric.Statemgmt.Delta.Merge.{IsDelta}
use hyperledger_fabric.Statemgmt.Delta.Keys.{set-IsDelta, delete-IsDelta}
use hyperledger_fabric.Statemgmt.Delta.Rollback.{WorldState, Records, set-Records}
use hyperledger_fabric.Statemgmt.State.{HashableState, State, get, write_new, change, set, delete}
use hyperledger_fabric.Statemgmt.State.Transactions.{
  Write, set_key, delete_key, write, after, writes,
}
use Prim.Native.String.{String}
use mathlib.Core.Path.{◌≡◌, refl}
use mathlib.Core.Bool.{Bool, true, false}
use mathlib.Core.Option.{Option, none, some}
use mathlib.Core.List.{List, [], ◌∷◌}
use native.Mathlib.Omega.{arith}

pub record Tx : Type 0 where
  pub uuid : String
  pub successful : Bool
  pub body : List Write

is_updated_value_set-get :
    (id key : String) (v w : Slice) (d : StateDelta)
    → is_updated_value_set id key d ≡ true
    → Delta.get id key d ≡ none
    → v ≡ w
unfolding is_updated_value_set Delta.get
is_updated_value_set-get id key v w d h = ground arith

module _ (i : HashableState) (util : Util) (st : WorldState) where
  -- Both deltas are maps with each key once and record the committed values, which can be read.
  pub record IsRecorded (s : State i util) : Type 0 where
    pub reads : (id key : String) → i.get_state s.state_impl id key ≡ some (st id key)
    pub block_once : IsDelta s.state_delta
    pub block_records : Records s.state_delta st
    pub tx_once : IsDelta s.current_tx_state_delta
    pub tx_records : Records s.current_tx_state_delta st

  -- Another transaction's name and delta.
  pub with_tx-IsRecorded :
      (uuid : String) (d : StateDelta) (s : State i util)
      → IsRecorded s
      → IsDelta d
      → Records d st
      → IsRecorded (record s { current_tx_uuid = uuid; current_tx_state_delta = d })
  with_tx-IsRecorded uuid d s h once records = record {
    reads = h.reads;
    block_once = h.block_once;
    block_records = h.block_records;
    tx_once = once;
    tx_records = records;
  }

  -- What a write to a delta keeps.
  abbrev Keeps : String → String → (Slice → StateDelta → StateDelta) → Type 0
  Keeps id key f =
      (p : Slice) (d : StateDelta)
      → IsDelta d
      → Records d st
      → (Delta.get id key d ≡ none → p ≡ st id key)
      → IsDelta (f p d) × Records (f p d) st

  abbrev pub Leaves : State i util → Option (State i util) → Type 0
  Leaves s o =
      (d : StateDelta) × (o ≡ some (record s { current_tx_state_delta = d }))
      × IsDelta d
      × Records d st

  write_new-Leaves :
      (id key : String) (f : Slice → StateDelta → StateDelta) (p : Slice) (s : State i util)
      → Keeps id key f
      → IsRecorded s
      → (Delta.get id key s.current_tx_state_delta ≡ none → p ≡ st id key)
      → Leaves s (after i util (write_new i util f (some p) s))
  write_new-Leaves id key f p s keeps h new =
      let (once, records) = keeps p s.current_tx_state_delta h.tx_once h.tx_records new in
      (f p s.current_tx_state_delta, refl, once, records)

  change-Leaves :
      (id key : String) (f : Slice → StateDelta → StateDelta) (s : State i util)
      → Keeps id key f
      → (s.current_tx_uuid == "") ≡ false
      → IsRecorded s
      → Leaves s (after i util (change i util id key f s))
  unfolding get
  change-Leaves id key f s keeps busy h =
      rw (busy, h.reads id key)
        (if_cases (λ r. Leaves s (after i util r))
          (is_updated_value_set id key s.current_tx_state_delta) (write_new i util f (some none) s)
          (write_new i util f (some (st id key)) s)
          (λ here.
            write_new-Leaves id key f none s keeps h
              (is_updated_value_set-get id key none (st id key) s.current_tx_state_delta here))
          (λ _. write_new-Leaves id key f (st id key) s keeps h (λ _. refl)))

  write-Leaves :
      (w : Write) (s : State i util)
      → (s.current_tx_uuid == "") ≡ false
      → IsRecorded s
      → Leaves s (after i util (write i util w s))
  unfolding set delete Delta.set Delta.delete Delta.chaincode_set Delta.chaincode_remove
  write-Leaves (set_key id key value) s busy h =
      change-Leaves id key (Delta.set id key value) s
        (λ p d once records new.
          (set-IsDelta id key value p d once, set-Records id key value p d st records new))
        busy h
  write-Leaves (delete_key id key) s busy h =
      change-Leaves id key (Delta.delete id key) s
        (λ p d once records new.
          (delete-IsDelta id key p d once, set-Records id key none p d st records new))
        busy h

  pub writes-Leaves :
      (ws : List Write) (s : State i util)
      → (s.current_tx_uuid == "") ≡ false
      → IsRecorded s
      → Leaves s (writes i util ws s)
  unfolding writes
  writes-Leaves [] s busy h = (s.current_tx_state_delta, refl, h.tx_once, h.tx_records)
  writes-Leaves (w ∷ ws) s busy h =
      let (d, q, once, records) = write-Leaves w s busy h in
      let t : State i util = record s { current_tx_state_delta = d } in
      let (d2, q2, once2, records2) =
        writes-Leaves ws t busy (with_tx-IsRecorded s.current_tx_uuid d s h once records) in
      (d2, rw q q2, once2, records2)
