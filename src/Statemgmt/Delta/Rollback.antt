-- ===== src/Statemgmt/Delta/Rollback.antt =====
-- What a `StateDelta` means for the world state: the state it leads to, forwards and backwards.
use hyperledger_fabric.Base.{string_key, ◌==◌, if◌then◌else◌, if_cases}
use hyperledger_fabric.Statemgmt.Delta.{
  Slice, UpdatedValue, StateDelta, get, set, written, apply_changes,
}
use hyperledger_fabric.Statemgmt.Delta.Merge.{IsDelta, merged, get-set, get-apply_changes}
use Prim.Native.String.{String}
use mathlib.Core.Path.{◌≡◌, refl, subst₂}
use mathlib.Core.Option.{Option, none, some}
use native.Mathlib.Omega.{arith}

-- The value of each key of each chaincode.
abbrev pub WorldState : Type 0
WorldState = String → String → Slice

abbrev pub new_value : Option UpdatedValue → Slice → Slice
new_value none old = old
new_value (some u) old = u.value

abbrev pub old_value : Option UpdatedValue → Slice → Slice
old_value none new = new
old_value (some u) new = u.previous_value

-- The state once the changes of a delta are made, and once they are taken back.
unfoldable pub forwards : StateDelta → WorldState → WorldState
forwards d st i k = new_value (get i k d) (st i k)

unfoldable pub backwards : StateDelta → WorldState → WorldState
backwards d st i k = old_value (get i k d) (st i k)

abbrev pub RecordsValue : Option UpdatedValue → Slice → Type 0
RecordsValue none v = Unit
RecordsValue (some u) v = u.previous_value ≡ v

-- Every previous value of the delta is the one of the state before it.
abbrev pub Records : StateDelta → WorldState → Type 0
Records d st = (i k : String) → RecordsValue (get i k d) (st i k)

-- Applying the changes of another delta to a delta and then making them leads to the same state as
-- making the changes of the one and then of the other.
pub forwards-apply_changes :
    (another d : StateDelta) (st : WorldState) (i k : String)
    → IsDelta another
    → forwards (apply_changes another d) st i k ≡ forwards another (forwards d st) i k
unfolding forwards
forwards-apply_changes another d st i k w = ground (arith, get-apply_changes another d i k w)

restored :
    (o : Option UpdatedValue) (v : Slice) → RecordsValue o v → old_value o (new_value o v) ≡ v
restored none v h = refl
restored (some u) v h = h

-- A delta that records the state before it is taken back to that state.
pub backwards-forwards :
    (d : StateDelta) (st : WorldState) (i k : String)
    → Records d st
    → backwards d (forwards d st) i k ≡ st i k
unfolding backwards forwards
backwards-forwards d st i k records = restored (get i k d) (st i k) (records i k)

merged-RecordsValue :
    (u old : Option UpdatedValue) (v : Slice)
    → RecordsValue old v
    → (old ≡ none → RecordsValue u v)
    → RecordsValue (merged u old) v
merged-RecordsValue none old v first second = first
merged-RecordsValue (some u) none v first second = second refl
merged-RecordsValue (some u) (some o) v first second = first

-- If a delta records a state, and another delta records it at the keys that the first does not have,
-- then the first with the changes of the other applied records the state.
pub apply_changes-Records :
    (another d : StateDelta) (st : WorldState)
    → IsDelta another
    → Records d st
    → ((i k : String) → get i k d ≡ none → RecordsValue (get i k another) (st i k))
    → Records (apply_changes another d) st
apply_changes-Records another d st w first second i k =
    rw (get-apply_changes another d i k w)
      (merged-RecordsValue (get i k another) (get i k d) (st i k) (first i k) (second i k))

written-RecordsValue :
    (value previous : Slice) (old : Option UpdatedValue) (v : Slice)
    → RecordsValue old v
    → (old ≡ none → previous ≡ v)
    → RecordsValue (some (written value previous old)) v
written-RecordsValue value previous none v h new = new refl
written-RecordsValue value previous (some o) v h new = h

-- A write that passes the value of the state as the previous one of a key that is not there.
pub set-Records :
    (id key : String) (value previous : Slice) (d : StateDelta) (st : WorldState)
    → Records d st
    → (get id key d ≡ none → previous ≡ st id key)
    → Records (set id key value previous d) st
set-Records id key value previous d st h new i k = rw (get-set id key value previous d i k) (
    if_cases (λ o. RecordsValue o (st i k)) (id == i)
      (if key == k then some (written value previous (get id key d)) else get i k d) (get i k d)
      (λ same_id.
        if_cases (λ o. RecordsValue o (st i k)) (key == k)
          (some (written value previous (get id key d))) (get i k d)
          (λ same_key.
            subst₂ (λ a b. RecordsValue (some (written value previous (get id key d))) (st a b))
              ((string_key.same_iff id i).0 same_id) ((string_key.same_iff key k).0 same_key)
              (written-RecordsValue value previous (get id key d) (st id key) (h id key) new))
          (λ _. h i k))
      (λ _. h i k))
