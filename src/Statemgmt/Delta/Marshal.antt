-- ===== src/Statemgmt/Delta/Marshal.antt =====
-- `Marshal` and `Unmarshal` of openchain/ledger/statemgmt/state_delta.go.
pub mod RoundTrip
use hyperledger_fabric.Base.{string_key, length}
use hyperledger_fabric.Base.Map.{Map, insert}
use hyperledger_fabric.Statemgmt.Delta.{Slice, UpdatedValue, ChaincodeStateDelta, StateDelta}
use Prim.Native.Nat.{ℕ, zero, suc}
use Prim.Native.String.{String}
use mathlib.Core.Bool.{Bool, true, false}
use mathlib.Core.Option.{Option, none, some}
use mathlib.Core.List.{List, [], ◌∷◌, ◌++◌}

-- The methods of `proto.Buffer` that the code calls. What an encoder appends, and what a decoder reads
-- with the bytes that are left; `none` is an error.
pub record Buffer : Type 0 where
  pub encode_varint : ℕ → Option (List ℕ)
  pub encode_string : String → Option (List ℕ)
  pub encode_raw : List ℕ → Option (List ℕ)
  pub decode_varint : List ℕ → Option (ℕ × List ℕ)
  pub decode_string : List ℕ → Option (String × List ℕ)
  pub decode_raw : List ℕ → Option (List ℕ × List ℕ)

abbrev pub bytes_of : Slice → List ℕ
bytes_of none = []
bytes_of (some b) = b

-- The two are appended, unless one is missing because of a panic.
abbrev pub followed_by : Option (List ℕ) → Option (List ℕ) → Option (List ℕ)
followed_by none rest = none
followed_by (some b) none = none
followed_by (some b) (some c) = some (b ++ c)

-- The loop over the keys: it ends at a key that cannot be encoded, and a value that cannot is a panic.
unfoldable pub marshal_kvs : Buffer → Map String UpdatedValue → Option (List ℕ)
marshal_kvs p [] = some []
marshal_kvs p ((key, u) ∷ rest) = elim (p.encode_string key) [
  | none ↦ some []
  | some k ↦ followed_by (some k) (
      followed_by (p.encode_raw (bytes_of u.value))
        (followed_by (p.encode_raw (bytes_of u.previous_value)) (marshal_kvs p rest)))
]

unfoldable pub chaincode_marshal : Buffer → ChaincodeStateDelta → Option (List ℕ)
chaincode_marshal p c =
    followed_by (p.encode_varint (length c.updated_kvs)) (marshal_kvs p c.updated_kvs)

-- An identifier that cannot be encoded is left out: the code does not look at the error.
abbrev pub encoded_id : Option (List ℕ) → Option (List ℕ)
encoded_id none = some []
encoded_id (some b) = some b

unfoldable pub marshal_deltas : Buffer → Map String ChaincodeStateDelta → Option (List ℕ)
marshal_deltas p [] = some []
marshal_deltas p ((id, c) ∷ rest) =
    followed_by (encoded_id (p.encode_string id))
      (followed_by (chaincode_marshal p c) (marshal_deltas p rest))

-- `none` is a panic.
unfoldable pub marshal : Buffer → StateDelta → Option (List ℕ)
marshal p d =
    followed_by (p.encode_varint (length d.chaincode_state_deltas))
      (marshal_deltas p d.chaincode_state_deltas)

-- An empty value is read as nil.
abbrev pub slice_of : List ℕ → Slice
slice_of [] = none
slice_of (b ∷ bs) = some (b ∷ bs)

-- One round of the loop over the keys: the key, its entry, and the bytes that are left.
unfoldable pub unmarshal_entry : Buffer → List ℕ → Option (String × UpdatedValue × List ℕ)
unmarshal_entry p bytes = elim (p.decode_string bytes) [
  | none ↦ none
  | some (key, b) ↦ elim (p.decode_raw b) [
    | none ↦ none
    | some (value, c) ↦ elim (p.decode_raw c) [
      | none ↦ none
      | some (previous, rest) ↦
          some (key, record { value = slice_of value; previous_value = slice_of previous }, rest)
    ]
  ]
]

unfoldable pub unmarshal_kvs :
    Buffer → ℕ → List ℕ → Map String UpdatedValue → Option (Map String UpdatedValue × List ℕ)
unmarshal_kvs p zero bytes kvs = some (kvs, bytes)
unmarshal_kvs p (suc n) bytes kvs = elim (unmarshal_entry p bytes) [
  | none ↦ none
  | some (key, u, rest) ↦ unmarshal_kvs p n rest (insert key u kvs)
]

unfoldable pub chaincode_unmarshal : Buffer → List ℕ → Option (Map String UpdatedValue × List ℕ)
chaincode_unmarshal p bytes = elim (p.decode_varint bytes) [
  | none ↦ none
  | some (size, rest) ↦ unmarshal_kvs p size rest []
]

-- The chaincodes read so far, and whether there was no error.
unfoldable pub unmarshal_deltas :
    Buffer → ℕ → List ℕ → Map String ChaincodeStateDelta → Map String ChaincodeStateDelta × Bool
unmarshal_deltas p zero bytes m = (m, true)
unmarshal_deltas p (suc n) bytes m = elim (p.decode_string bytes) [
  | none ↦ (m, false)
  | some (id, b) ↦ elim (chaincode_unmarshal p b) [
    | none ↦ (m, false)
    | some (kvs, rest) ↦
        unmarshal_deltas p n rest (insert id (record { chaincode_id = id; updated_kvs = kvs }) m)
  ]
]

abbrev pub filled : StateDelta → Map String ChaincodeStateDelta × Bool → StateDelta × Bool
filled d (m, ok) = (record d { chaincode_state_deltas = m }, ok)

-- The receiver after the call, and whether there was no error.
unfoldable pub unmarshal : Buffer → List ℕ → StateDelta → StateDelta × Bool
unmarshal p bytes d = elim (p.decode_varint bytes) [
  | none ↦ (d, false)
  | some (size, rest) ↦ filled d (unmarshal_deltas p size rest [])
]
