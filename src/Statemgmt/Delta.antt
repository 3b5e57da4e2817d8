-- ===== src/Statemgmt/Delta.antt =====
-- openchain/ledger/statemgmt/state_delta.go: the uncommitted changes of a batch, for each chaincode and
-- key the new value and the one before. A slice is `none` when it is nil, which stands for a key that
-- is absent or deleted; an empty slice is `some []`.
pub mod Merge
pub mod Rollback
pub mod Keys
pub mod Hash
pub mod Marshal
use hyperledger_fabric.Base.{nat_key, string_key, ◌==◌, if◌then◌else◌, is_some, length}
use hyperledger_fabric.Base.Map.{Map, lookup, insert, member}
use Prim.Native.Nat.{ℕ}
use Prim.Native.String.{String}
use mathlib.Core.Bool.{Bool, true, false, not}
use mathlib.Core.Option.{Option, none, some}
use mathlib.Core.List.{List, [], ◌∷◌}

abbrev pub Slice : Type 0
Slice = Option (List ℕ)

pub record UpdatedValue : Type 0 where
  pub value : Slice
  pub previous_value : Slice

pub record ChaincodeStateDelta : Type 0 where
  pub chaincode_id : String
  pub updated_kvs : Map String UpdatedValue

pub record StateDelta : Type 0 where
  pub chaincode_state_deltas : Map String ChaincodeStateDelta
  pub roll_backwards : Bool

abbrev pub new_state_delta : StateDelta
new_state_delta = record { chaincode_state_deltas = []; roll_backwards = false }

abbrev pub is_delete : UpdatedValue → Bool
is_delete u = not (is_some u.value)

-- A missing chaincode gives no value, as does a missing key.
abbrev pub get_in : Option ChaincodeStateDelta → String → Option UpdatedValue
get_in none key = none
get_in (some c) key = lookup key c.updated_kvs

unfoldable pub get : String → String → StateDelta → Option UpdatedValue
get id key d = get_in (lookup id d.chaincode_state_deltas) key

unfoldable pub is_updated_value_set : String → String → StateDelta → Bool
is_updated_value_set id key d = elim (lookup id d.chaincode_state_deltas) [
  | none ↦ false
  | some c ↦ member key c.updated_kvs
]

unfoldable pub is_empty : StateDelta → Bool
is_empty d = length d.chaincode_state_deltas == 0

-- The entry of a key after a write: one that is there keeps its previous value.
abbrev pub written : Slice → Slice → Option UpdatedValue → UpdatedValue
written value previous none = record { value = value; previous_value = previous }
written value previous (some u) = record u { value = value }

unfoldable pub chaincode_set : String → Slice → Slice → ChaincodeStateDelta → ChaincodeStateDelta
chaincode_set key value previous c = record c {
  updated_kvs = insert key (written value previous (lookup key c.updated_kvs)) c.updated_kvs;
}

unfoldable pub chaincode_remove : String → Slice → ChaincodeStateDelta → ChaincodeStateDelta
chaincode_remove key previous c = record c {
  updated_kvs = insert key (written none previous (lookup key c.updated_kvs)) c.updated_kvs;
}

abbrev pub found_or_new : String → Option ChaincodeStateDelta → ChaincodeStateDelta
found_or_new id none = record { chaincode_id = id; updated_kvs = [] }
found_or_new id (some c) = c

abbrev pub get_or_create_chaincode_state_delta : String → StateDelta → ChaincodeStateDelta
get_or_create_chaincode_state_delta id d = found_or_new id (lookup id d.chaincode_state_deltas)

-- A write through the pointer in the map.
unfoldable pub put_chaincode : String → ChaincodeStateDelta → StateDelta → StateDelta
put_chaincode id c d = record d { chaincode_state_deltas = insert id c d.chaincode_state_deltas }

unfoldable pub set : String → String → Slice → Slice → StateDelta → StateDelta
set id key value previous d =
    put_chaincode id (chaincode_set key value previous (get_or_create_chaincode_state_delta id d)) d

unfoldable pub delete : String → String → Slice → StateDelta → StateDelta
delete id key previous d =
    put_chaincode id (chaincode_remove key previous (get_or_create_chaincode_state_delta id d)) d

-- The previous value that `ApplyChanges` passes on: the one of the entry that is there, if the
-- chaincode was there when its loop began.
abbrev pub previous_of : Bool → Option UpdatedValue → UpdatedValue → Slice
previous_of false old u = u.previous_value
previous_of true none u = u.previous_value
previous_of true (some o) u = o.previous_value

unfoldable pub apply_one : String → Bool → String → UpdatedValue → StateDelta → StateDelta
apply_one id existing key u d =
    let previous = previous_of existing (get id key d) u in
    if is_delete u then delete id key previous d else set id key u.value previous d

unfoldable pub apply_kvs : String → Bool → Map String UpdatedValue → StateDelta → StateDelta
apply_kvs id existing [] d = d
apply_kvs id existing ((key, u) ∷ rest) d =
    apply_kvs id existing rest (apply_one id existing key u d)

unfoldable pub apply_deltas : Map String ChaincodeStateDelta → StateDelta → StateDelta
apply_deltas [] d = d
apply_deltas ((id, c) ∷ rest) d =
    apply_deltas rest (apply_kvs id (member id d.chaincode_state_deltas) c.updated_kvs d)

unfoldable pub apply_changes : StateDelta → StateDelta → StateDelta
apply_changes another d = apply_deltas another.chaincode_state_deltas d
