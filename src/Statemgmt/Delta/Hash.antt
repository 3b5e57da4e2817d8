-- ===== src/Statemgmt/Delta/Hash.antt =====
-- `ComputeCryptoHash` of openchain/ledger/statemgmt/state_delta.go.
use hyperledger_fabric.Base.{string_key, if◌then◌else◌}
use hyperledger_fabric.Base.Map.{Map, lookup}
use hyperledger_fabric.Statemgmt.Delta.{
  Slice, UpdatedValue, ChaincodeStateDelta, StateDelta, is_empty,
}
use Prim.Native.Nat.{ℕ}
use Prim.Native.String.{String}
use mathlib.Core.Option.{Option, none, some}
use mathlib.Core.List.{List, [], ◌∷◌, ◌++◌, map}

-- What the hash calls outside: `sort.Strings`, the bytes of a string, `util.ComputeCryptoHash`.
pub record Util : Type 0 where
  pub sort_strings : List String → List String
  pub string_bytes : String → List ℕ
  pub crypto_hash : List ℕ → List ℕ

-- `GetUpdatedChaincodeIds` and `getSortedKeys`, sorted.
abbrev pub sorted_keys : {V : Type 0} → Util → Map String V → List String
sorted_keys {V} u m = u.sort_strings (map (λ (x : String × V). x.0) m)

abbrev value_bytes : Option UpdatedValue → List ℕ
value_bytes none = []
value_bytes (some w) = elim w.value [ none ↦ [] | some b ↦ b ]

abbrev kvs_of : Option ChaincodeStateDelta → Map String UpdatedValue
kvs_of none = []
kvs_of (some c) = c.updated_kvs

-- The keys come from the map, so that each is found.
unfoldable pub keys_content : Util → Map String UpdatedValue → List String → List ℕ
keys_content u kvs [] = []
keys_content u kvs (key ∷ rest) =
    u.string_bytes key ++ value_bytes (lookup key kvs) ++ keys_content u kvs rest

unfoldable pub hashing_content : Util → Map String ChaincodeStateDelta → List String → List ℕ
hashing_content u m [] = []
hashing_content u m (id ∷ rest) =
    let kvs = kvs_of (lookup id m) in
    u.string_bytes id ++ keys_content u kvs (sorted_keys u kvs) ++ hashing_content u m rest

unfoldable pub compute_crypto_hash : Util → StateDelta → Slice
compute_crypto_hash u d =
    let m = d.chaincode_state_deltas in
    if is_empty d then none else some (u.crypto_hash (hashing_content u m (sorted_keys u m)))
