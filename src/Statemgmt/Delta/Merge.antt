-- ===== src/Statemgmt/Delta/Merge.antt =====
-- What `Get` finds in a `StateDelta` after each write and after `ApplyChanges`.
use hyperledger_fabric.Base.{string_key, ◌==◌, if◌then◌else◌, is_some, Option-cases, Bool-cases}
use hyperledger_fabric.Base.Map.{Map, lookup, lookup-insert, DistinctKeys, Entries, member}
use hyperledger_fabric.Statemgmt.Delta.{
  Slice, UpdatedValue, ChaincodeStateDelta, StateDelta, get_in, get, written, chaincode_set,
  chaincode_remove, get_or_create_chaincode_state_delta, put_chaincode, set, delete, previous_of,
  apply_one, apply_kvs, apply_deltas, apply_changes,
}
use Prim.Native.String.{String}
use mathlib.Core.Path.{◌≡◌, refl, sym}
use mathlib.Core.Logic.{inl, inr}
use mathlib.Core.Bool.{Bool, true, false}
use mathlib.Core.Option.{Option, none, some}
use mathlib.Core.List.{[], ◌∷◌}
use native.Mathlib.Omega.{arith}

-- The entry of a key in a merged delta: the later value, and the earlier of the previous values.
abbrev pub merged : Option UpdatedValue → Option UpdatedValue → Option UpdatedValue
merged none old = old
merged (some u) none = some u
merged (some u) (some o) = some (record o { value = u.value })

-- A chaincode that is missing is created empty, which `Get` does not tell apart.
get-create :
    (id k : String) (d : StateDelta)
    → lookup k (get_or_create_chaincode_state_delta id d).updated_kvs ≡ get id k d
unfolding get lookup
get-create id k d = elim (Option-cases (lookup id d.chaincode_state_deltas)) [
  | inl missing ↦ rw missing refl
  | inr (c, here) ↦ rw here refl
]

pub get-set :
    (id key : String) (value previous : Slice) (d : StateDelta) (i k : String)
    → get i k (set id key value previous d) ≡ (
        if id == i
        then (if key == k then some (written value previous (get id key d)) else get i k d)
        else get i k d)
unfolding get set put_chaincode chaincode_set
get-set id key value previous d i k =
    let c = get_or_create_chaincode_state_delta id d in
    let w = written value previous (lookup key c.updated_kvs) in
    ground (
      arith,
      string_key.same_iff id i,
      lookup-insert (chaincode_set key value previous c) d.chaincode_state_deltas id i,
      lookup-insert w c.updated_kvs key k,
      get-create id k d,
      get-create id key d,
    )

pub get-delete :
    (id key : String) (previous : Slice) (d : StateDelta) (i k : String)
    → get i k (delete id key previous d) ≡ (
        if id == i
        then (if key == k then some (written none previous (get id key d)) else get i k d)
        else get i k d)
unfolding set delete chaincode_remove chaincode_set
get-delete id key previous d i k = get-set id key none previous d i k

-- What a write of `ApplyChanges` leaves is the merged entry, whichever previous value it passes.
written-merged :
    (existing : Bool) (u : UpdatedValue) (value : Slice) (old : Option UpdatedValue)
    → value ≡ u.value
    → some (written value (previous_of existing old u) old) ≡ merged (some u) old
written-merged false u value none h = cc h
written-merged true u value none h = cc h
written-merged existing u value (some o) h = cc h

value_cases : (v : Slice) → is_some v ≡ false → none ≡ v
value_cases none h = refl
value_cases (some b) h = cc h

get-apply_one :
    (id : String) (existing : Bool) (key : String) (u : UpdatedValue) (d : StateDelta)
    (i k : String)
    → get i k (apply_one id existing key u d) ≡ (
        if id == i
        then (if key == k then merged (some u) (get id key d) else get i k d)
        else get i k d)
unfolding apply_one
get-apply_one id existing key u d i k =
    let p = previous_of existing (get id key d) u in
    elim (Bool-cases (is_some u.value)) [
      | inl here ↦
          rw (here, sym (written-merged existing u u.value (get id key d) refl))
            (get-set id key u.value p d i k)
      | inr gone ↦
          rw (gone, sym (written-merged existing u none (get id key d) (value_cases u.value gone)))
            (get-delete id key p d i k)
    ]

get-apply_kvs :
    (id : String) (existing : Bool) (kvs : Map String UpdatedValue) (d : StateDelta) (i k : String)
    → DistinctKeys kvs
    → get i k (apply_kvs id existing kvs d)
      ≡ (if id == i then merged (lookup k kvs) (get i k d) else get i k d)
unfolding apply_kvs lookup
get-apply_kvs id existing [] d i k _ = ground arith
get-apply_kvs id existing ((key, u) ∷ rest) d i k (new, others) = ground (
  arith,
  get-apply_kvs id existing rest (apply_one id existing key u d) i k others,
  get-apply_one id existing key u d i k,
  string_key.same_iff key k,
  string_key.same_iff id i,
  new,
)

-- Go's maps have each key once.
pub record IsDeltas (m : Map String ChaincodeStateDelta) : Type 0 where
  pub once : DistinctKeys m
  pub once_each : Entries (λ (_ : String) (c : ChaincodeStateDelta). DistinctKeys c.updated_kvs) m

get-apply_deltas :
    (m : Map String ChaincodeStateDelta) (d : StateDelta) (i k : String)
    → IsDeltas m
    → get i k (apply_deltas m d) ≡ merged (get_in (lookup i m) k) (get i k d)
unfolding apply_deltas lookup
get-apply_deltas [] d i k _ = refl
get-apply_deltas ((id, c) ∷ rest) d i k w =
    let t = apply_kvs id (member id d.chaincode_state_deltas) c.updated_kvs d in
    ground (
      arith,
      get-apply_deltas rest t i k record { once = w.once.1; once_each = w.once_each.1 },
      get-apply_kvs id (member id d.chaincode_state_deltas) c.updated_kvs d i k w.once_each.0,
      string_key.same_iff id i,
      w.once.0,
    )

abbrev pub IsDelta : StateDelta → Type 0
IsDelta d = IsDeltas d.chaincode_state_deltas

-- After `ApplyChanges`, for any two deltas: a key that the other delta does not have is as it was; a
-- key that only the other has is as there; a key that both have takes the other's value, a deletion
-- included, and keeps its own previous value.
pub get-apply_changes :
    (another d : StateDelta) (i k : String)
    → IsDelta another
    → get i k (apply_changes another d) ≡ merged (get i k another) (get i k d)
unfolding apply_changes get
get-apply_changes another d i k w = get-apply_deltas another.chaincode_state_deltas d i k w
