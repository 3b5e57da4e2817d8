-- ===== src/Statemgmt/State/Transactions.antt =====
-- Whole transactions on the `State`: writes between `TxBegin` and `TxFinish`.
use hyperledger_fabric.Base.{string_key, ◌==◌, if_cases, same_refl}
use hyperledger_fabric.Statemgmt.Delta as Delta
use hyperledger_fabric.Statemgmt.Delta.{
  Slice, UpdatedValue, StateDelta, new_state_delta, is_updated_value_set, apply_changes, is_empty,
}
use hyperledger_fabric.Statemgmt.Delta.Hash.{Util}
use hyperledger_fabric.Statemgmt.State.{
  HashableState, Result, panicked, failed, finished, State, tx_begin, tx_finish, get, write_new,
  change, set, delete,
}
use Prim.Native.String.{String}
use mathlib.Core.Path.{◌≡◌, refl}
use mathlib.Core.Bool.{Bool, true, false}
use mathlib.Core.Option.{Option, none, some}
use mathlib.Core.List.{List, [], ◌∷◌}

-- What a chaincode does to the state in a transaction.
pub data Write : Type 0 where
  set_key : String → String → Slice → Write
  delete_key : String → String → Write

module _ (i : HashableState) (util : Util) where
  abbrev pub write : Write → State i util → Result (State i util)
  write (set_key id key value) s = set i util id key value s
  write (delete_key id key) s = delete i util id key s

  -- The caller goes on after an error; a panic ends it.
  abbrev pub after : Result (State i util) → Option (State i util)
  after panicked = none
  after (failed s) = some s
  after (finished s) = some s

  abbrev pub and_then :
      (State i util → Option (State i util)) → Option (State i util) → Option (State i util)
  and_then next none = none
  and_then next (some s) = next s

  unfoldable pub writes : List Write → State i util → Option (State i util)
  writes [] s = some s
  writes (w ∷ ws) s = and_then (writes ws) (after (write w s))

  unfoldable pub in_tx : String → Bool → List Write → State i util → Option (State i util)
  in_tx uuid successful ws s =
      and_then (λ t. after (tx_finish i util uuid successful t))
        (and_then (writes ws) (after (tx_begin i util uuid s)))

  -- Writes in a transaction end, and change nothing but the transaction's own delta.
  abbrev pub IsSameBut : State i util → Option (State i util) → Type 0
  IsSameBut s o = (d : StateDelta) × (o ≡ some (record s { current_tx_state_delta = d }))

  write_new-same :
      (f : Slice → StateDelta → StateDelta) (o : Option Slice) (s : State i util)
      → IsSameBut s (after (write_new i util f o s))
  write_new-same f none s = (s.current_tx_state_delta, refl)
  write_new-same f (some previous) s = (f previous s.current_tx_state_delta, refl)

  change-same :
      (id key : String) (f : Slice → StateDelta → StateDelta) (s : State i util)
      → (s.current_tx_uuid == "") ≡ false
      → IsSameBut s (after (change i util id key f s))
  change-same id key f s busy = rw busy (
      if_cases (λ r. IsSameBut s (after r)) (is_updated_value_set id key s.current_tx_state_delta)
        (write_new i util f (some none) s) (write_new i util f (get i util id key true s) s)
        (λ _. write_new-same f (some none) s) (λ _. write_new-same f (get i util id key true s) s))

  write-same :
      (w : Write) (s : State i util)
      → (s.current_tx_uuid == "") ≡ false
      → IsSameBut s (after (write w s))
  unfolding set delete
  write-same (set_key id key value) s busy = change-same id key (Delta.set id key value) s busy
  write-same (delete_key id key) s busy = change-same id key (Delta.delete id key) s busy

  pub writes-same :
      (ws : List Write) (s : State i util)
      → (s.current_tx_uuid == "") ≡ false
      → IsSameBut s (writes ws s)
  unfolding writes
  writes-same [] s busy = (s.current_tx_state_delta, refl)
  writes-same (w ∷ ws) s busy =
      let (d, q) = write-same w s busy in
      let (d2, q2) = writes-same ws (record s { current_tx_state_delta = d }) busy in (d2, rw q q2)

  -- A transaction that is not successful ends without a panic, whatever it writes and whichever reads
  -- fail, and leaves the state as it was before. It has a name that is not empty, none is in progress,
  -- and the transaction's delta is empty, as `TxFinish` leaves it.
  pub aborted-unchanged :
      (uuid : String) (ws : List Write) (s : State i util)
      → (uuid == "") ≡ false
      → s.current_tx_uuid ≡ ""
      → s.current_tx_state_delta ≡ new_state_delta
      → in_tx uuid false ws s ≡ some s
  unfolding in_tx tx_begin tx_finish
  aborted-unchanged uuid ws s named idle clean =
      let (d, q) = writes-same ws (record s { current_tx_uuid = uuid }) named in
      rw ((string_key.same_iff s.current_tx_uuid "").1 idle, q, same_refl uuid) (cc (clean, idle))
