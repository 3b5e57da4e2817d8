-- ===== src/Statemgmt/State/Reads.antt =====
-- What the `State`'s `Get` finds after a write, and after `TxFinish`.
use hyperledger_fabric.Base.{string_key, nat_key, ◌==◌, if◌then◌else◌, if_cases, Bool-cases, length}
use hyperledger_fabric.Base.Map.{Map, lookup}
use hyperledger_fabric.Statemgmt.Delta as Delta
use hyperledger_fabric.Statemgmt.Delta.{
  Slice, UpdatedValue, ChaincodeStateDelta, StateDelta, is_updated_value_set, apply_changes,
  is_empty, new_state_delta, get_in, written,
}
use hyperledger_fabric.Statemgmt.Delta.Hash.{Util}
use hyperledger_fabric.Statemgmt.Delta.Merge.{
  merged, IsDelta, get-set, get-delete, get-apply_changes,
}
use hyperledger_fabric.Statemgmt.State.{
  HashableState, Result, finished, State, tx_finish, merge_tx, get, value_or, write_new, change,
  set, delete,
}
use Prim.Native.String.{String}
use mathlib.Core.Path.{◌≡◌, refl}
use mathlib.Core.Logic.{inl, inr}
use mathlib.Core.Bool.{Bool, true, false}
use mathlib.Core.Option.{Option, none, some}
use mathlib.Core.List.{[], ◌∷◌}
use native.Mathlib.Omega.{arith}

-- A read after a write of one key.
abbrev pub read_after :
    String → String → Slice → (String → String → Option Slice) → String → String → Option Slice
read_after id key value before j k =
    if id == j then (if key == k then some value else before j k) else before j k

no_deltas :
    (m : Map String ChaincodeStateDelta) (id key : String)
    → (length m == 0) ≡ true
    → get_in (lookup id m) key ≡ none
unfolding lookup
no_deltas [] id key h = refl
no_deltas (x ∷ m) id key h = ground arith

get-is_empty : (d : StateDelta) (id key : String) → is_empty d ≡ true → Delta.get id key d ≡ none
unfolding Delta.get is_empty
get-is_empty d id key h = no_deltas d.chaincode_state_deltas id key h

module _ (i : HashableState) (util : Util) where
  value_or-merged :
      (u o : Option UpdatedValue) (x : Option Slice)
      → value_or i util (merged u o) x ≡ value_or i util u (value_or i util o x)
  value_or-merged none o x = refl
  value_or-merged (some u) none x = refl
  value_or-merged (some u) (some o) x = refl

  abbrev closed : State i util → State i util
  closed s = record s { current_tx_state_delta = new_state_delta; current_tx_uuid = "" }

  get-closed :
      (uuid : String) (s : State i util) (id key : String) (committed : Bool)
      → IsDelta s.current_tx_state_delta
      → get i util id key committed (closed (merge_tx i util uuid s))
        ≡ get i util id key committed s
  unfolding get is_empty
  get-closed uuid s id key true once = elim (Bool-cases (is_empty s.current_tx_state_delta)) [
    | inl unused ↦ rw unused refl
    | inr used ↦ rw used refl
  ]
  get-closed uuid s id key false once =
      let x = i.get_state s.state_impl id key in
      elim (Bool-cases (is_empty s.current_tx_state_delta)) [
        | inl unused ↦
            rw
              (
                unused,
                get-is_empty s.current_tx_state_delta id key unused,
                get-is_empty new_state_delta id key refl,
              )
              refl
        | inr used ↦
            rw
              (
                used,
                get-is_empty new_state_delta id key refl,
                get-apply_changes s.current_tx_state_delta s.state_delta id key once,
              )
              (value_or-merged (Delta.get id key s.current_tx_state_delta)
                (Delta.get id key s.state_delta) x)
      ]

  -- `TxFinish` of the transaction in progress, if it was successful, ends without a panic, and each key
  -- reads as it did in the transaction, both with and without the uncommitted changes.
  pub get-tx_finish :
      (uuid : String) (s : State i util)
      → s.current_tx_uuid ≡ uuid
      → IsDelta s.current_tx_state_delta
      → (t : State i util) × (tx_finish i util uuid true s ≡ finished t)
        × ((id key : String) (committed : Bool)
            → get i util id key committed t ≡ get i util id key committed s)
  unfolding tx_finish
  get-tx_finish uuid s same once = (
    closed (merge_tx i util uuid s),
    rw ((string_key.same_iff s.current_tx_uuid uuid).1 same) refl,
    λ id key committed. get-closed uuid s id key committed once,
  )

  -- What a write promises of its result.
  abbrev Reads : String → String → Slice → State i util → Result (State i util) → Type 0
  Reads id key value s r =
      (t : State i util) × (r ≡ finished t)
      × ((j k : String)
          → (get i util j k false t ≡ read_after id key value (λ a b. get i util a b false s) j k)
            × (get i util j k true t ≡ get i util j k true s))

  -- A write to the transaction's delta, as `Set` and `Delete` make it.
  abbrev Writes : String → String → Slice → (Slice → StateDelta → StateDelta) → Type 0
  Writes id key value f =
      (p : Slice) (d : StateDelta) (j k : String)
      → Delta.get j k (f p d) ≡ (
          if id == j
          then (if key == k then some (written value p (Delta.get id key d)) else Delta.get j k d)
          else Delta.get j k d)

  value_or-written :
      (value p : Slice) (o : Option UpdatedValue) (x : Option Slice)
      → value_or i util (some (written value p o)) x ≡ some value
  value_or-written value p none x = refl
  value_or-written value p (some u) x = refl

  write_new-Reads :
      (id key : String) (value previous : Slice) (f : Slice → StateDelta → StateDelta)
      (s : State i util)
      → Writes id key value f
      → Reads id key value s (write_new i util f (some previous) s)
  unfolding get
  write_new-Reads id key value previous f s h = (
    record s { current_tx_state_delta = f previous s.current_tx_state_delta },
    refl,
    λ j k. (
      ground (
        arith,
        h previous s.current_tx_state_delta j k,
        value_or-written value previous (Delta.get id key s.current_tx_state_delta)
            (value_or i util (Delta.get j k s.state_delta) (i.get_state s.state_impl j k)),
      ),
      refl,
    ),
  )

  change-Reads :
      (id key : String) (value previous : Slice) (f : Slice → StateDelta → StateDelta)
      (s : State i util)
      → Writes id key value f
      → (s.current_tx_uuid == "") ≡ false
      → get i util id key true s ≡ some previous
      → Reads id key value s (change i util id key f s)
  change-Reads id key value previous f s h busy read =
      rw (busy, read)
        (if_cases (λ r. Reads id key value s r)
          (is_updated_value_set id key s.current_tx_state_delta) (write_new i util f (some none) s)
          (write_new i util f (some previous) s) (λ _. write_new-Reads id key value none f s h)
          (λ _. write_new-Reads id key value previous f s h))

  -- `Set` in a transaction, when the committed value can be read, ends with the state in which the key
  -- reads the new value, every other key reads as before, and the committed values are untouched.
  pub get-set_state :
      (id key : String) (value previous : Slice) (s : State i util)
      → (s.current_tx_uuid == "") ≡ false
      → get i util id key true s ≡ some previous
      → (t : State i util) × (set i util id key value s ≡ finished t)
        × ((j k : String)
            → (get i util j k false t ≡ read_after id key value (λ a b. get i util a b false s) j k)
              × (get i util j k true t ≡ get i util j k true s))
  unfolding set
  get-set_state id key value previous s busy read =
      change-Reads id key value previous (Delta.set id key value) s (get-set id key value) busy read

  -- `Delete` likewise, after which the key reads as absent.
  pub get-delete_state :
      (id key : String) (previous : Slice) (s : State i util)
      → (s.current_tx_uuid == "") ≡ false
      → get i util id key true s ≡ some previous
      → (t : State i util) × (delete i util id key s ≡ finished t)
        × ((j k : String)
            → (get i util j k false t ≡ read_after id key none (λ a b. get i util a b false s) j k)
              × (get i util j k true t ≡ get i util j k true s))
  unfolding delete
  get-delete_state id key previous s busy read =
      change-Reads id key none previous (Delta.delete id key) s (get-delete id key) busy read
