-- ===== src/Statemgmt/Delta/Keys.antt =====
-- The writes of a `StateDelta` keep each key once, as Go's maps do.
use hyperledger_fabric.Base.{string_key, Bool-cases, is_some}
use hyperledger_fabric.Base.Map.{
  Map, Entries-insert, Entries-lookup, DistinctKeys, insert-DistinctKeys, member, lookup,
}
use hyperledger_fabric.Statemgmt.Delta.{
  Slice, UpdatedValue, ChaincodeStateDelta, StateDelta, get, chaincode_set, chaincode_remove,
  found_or_new, put_chaincode, set, delete, previous_of, apply_one, apply_kvs, apply_deltas,
  apply_changes,
}
use hyperledger_fabric.Statemgmt.Delta.Merge.{IsDelta}
use Prim.Native.String.{String}
use mathlib.Core.Path.{◌≡◌, refl}
use mathlib.Core.Logic.{inl, inr}
use mathlib.Core.Bool.{Bool}
use mathlib.Core.Option.{Option, none, some}
use mathlib.Core.List.{[], ◌∷◌}

found_or_new-DistinctKeys :
    (id : String) (o : Option ChaincodeStateDelta)
    → ((c : ChaincodeStateDelta) → o ≡ some c → DistinctKeys c.updated_kvs)
    → DistinctKeys (found_or_new id o).updated_kvs
found_or_new-DistinctKeys id none h = tt
found_or_new-DistinctKeys id (some c) h = h c refl

put_chaincode-IsDelta :
    (id : String) (c : ChaincodeStateDelta) (d : StateDelta)
    → DistinctKeys c.updated_kvs
    → IsDelta d
    → IsDelta (put_chaincode id c d)
unfolding put_chaincode
put_chaincode-IsDelta id c d once h = record {
  once = insert-DistinctKeys id c d.chaincode_state_deltas h.once;
  once_each =
      Entries-insert (λ (_ : String) (x : ChaincodeStateDelta). DistinctKeys x.updated_kvs) id c
        d.chaincode_state_deltas once h.once_each;
}

pub set-IsDelta :
    (id key : String) (value previous : Slice) (d : StateDelta)
    → IsDelta d
    → IsDelta (set id key value previous d)
unfolding set chaincode_set
set-IsDelta id key value previous d h =
    put_chaincode-IsDelta id _ d
      (insert-DistinctKeys key _ _ (
        found_or_new-DistinctKeys id (lookup id d.chaincode_state_deltas) (λ c here.
          Entries-lookup (λ (_ : String) (x : ChaincodeStateDelta). DistinctKeys x.updated_kvs) id c
            d.chaincode_state_deltas h.once_each here)))
      h

pub delete-IsDelta :
    (id key : String) (previous : Slice) (d : StateDelta)
    → IsDelta d
    → IsDelta (delete id key previous d)
unfolding delete chaincode_remove set chaincode_set
delete-IsDelta id key previous d h = set-IsDelta id key none previous d h

apply_one-IsDelta :
    (id : String) (existing : Bool) (key : String) (u : UpdatedValue) (d : StateDelta)
    → IsDelta d
    → IsDelta (apply_one id existing key u d)
unfolding apply_one
apply_one-IsDelta id existing key u d h =
    let p = previous_of existing (get id key d) u in
    elim (Bool-cases (is_some u.value)) [
      | inl here ↦ rw here (set-IsDelta id key u.value p d h)
      | inr gone ↦ rw gone (delete-IsDelta id key p d h)
    ]

apply_kvs-IsDelta :
    (id : String) (existing : Bool) (kvs : Map String UpdatedValue) (d : StateDelta)
    → IsDelta d
    → IsDelta (apply_kvs id existing kvs d)
unfolding apply_kvs
apply_kvs-IsDelta id existing [] d h = h
apply_kvs-IsDelta id existing ((key, u) ∷ rest) d h =
    apply_kvs-IsDelta id existing rest _ (apply_one-IsDelta id existing key u d h)

apply_deltas-IsDelta :
    (m : Map String ChaincodeStateDelta) (d : StateDelta) → IsDelta d → IsDelta (apply_deltas m d)
unfolding apply_deltas
apply_deltas-IsDelta [] d h = h
apply_deltas-IsDelta ((id, c) ∷ rest) d h =
    apply_deltas-IsDelta rest _
      (apply_kvs-IsDelta id (member id d.chaincode_state_deltas) c.updated_kvs d h)

pub apply_changes-IsDelta : (another d : StateDelta) → IsDelta d → IsDelta (apply_changes another d)
unfolding apply_changes
apply_changes-IsDelta another d h = apply_deltas-IsDelta another.chaincode_state_deltas d h
