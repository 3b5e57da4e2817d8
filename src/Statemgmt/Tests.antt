-- ===== src/Statemgmt/Tests.antt =====
-- Concrete deltas and states, and the theorems applied to them.
use hyperledger_fabric.Base.{string_key, ◌==◌, if◌then◌else◌}
use hyperledger_fabric.Base.Map.{lookup, insert}
use hyperledger_fabric.Statemgmt.Delta as Delta
use hyperledger_fabric.Statemgmt.Delta.{
  Slice, UpdatedValue, ChaincodeStateDelta, StateDelta, new_state_delta, apply_changes,
}
use hyperledger_fabric.Statemgmt.Delta.Hash.{Util}
use hyperledger_fabric.Statemgmt.Delta.Merge.{IsDelta, merged, get-apply_changes}
use hyperledger_fabric.Statemgmt.Delta.Rollback.{
  WorldState, forwards, backwards, forwards-apply_changes,
}
use hyperledger_fabric.Statemgmt.State.{HashableState, State, finished, tx_finish, get, set, delete}
use hyperledger_fabric.Statemgmt.State.Reads.{
  read_after, get-tx_finish, get-set_state, get-delete_state,
}
use hyperledger_fabric.Statemgmt.State.Transactions.{
  Write, set_key, delete_key, in_tx, aborted-unchanged,
}
use hyperledger_fabric.Statemgmt.State.Recorded.{Tx}
use hyperledger_fabric.Statemgmt.State.Block.{in_block, IsIdle, in_block-forwards}
use Prim.Native.String.{String}
use mathlib.Core.Path.{◌≡◌, refl}
use mathlib.Core.Bool.{Bool, true, false}
use mathlib.Core.Option.{none, some}
use mathlib.Core.List.{List, [], ◌∷◌}

abbrev entry : Slice → Slice → UpdatedValue
entry new old = record { value = new; previous_value = old }

-- The chaincode "cc" sets "a" and deletes "b".
abbrev first : StateDelta
first = record {
  chaincode_state_deltas =
      (
        "cc",
        record {
          chaincode_id = "cc";
          updated_kvs =
              ("a", entry (some (2 ∷ [])) (some (1 ∷ []))) ∷ ("b", entry none (some (5 ∷ []))) ∷ [];
        },
      )
      ∷ [];
  roll_backwards = false;
}

-- It sets "b" again.
abbrev second : StateDelta
second = record {
  chaincode_state_deltas =
      (
        "cc",
        record {
          chaincode_id = "cc";
          updated_kvs = ("b", entry (some (6 ∷ [])) (some (5 ∷ []))) ∷ [];
        },
      )
      ∷ [];
  roll_backwards = false;
}

merged_b :
    Delta.get "cc" "b" (apply_changes second first) ≡ some (entry (some (6 ∷ [])) (some (5 ∷ [])))
unfolding Delta.get apply_changes Delta.apply_deltas Delta.apply_kvs Delta.apply_one Delta.set
    Delta.delete Delta.put_chaincode Delta.chaincode_set lookup insert
merged_b = refl

second-IsDelta : IsDelta second
unfolding lookup
second-IsDelta = record { once = (refl, tt); once_each = ((refl, tt), tt) }

first-IsDelta : IsDelta first
unfolding lookup
first-IsDelta = record { once = (refl, tt); once_each = ((refl, (refl, tt)), tt) }

get-apply_changes_example :
    Delta.get "cc" "b" (apply_changes second first)
    ≡ merged (Delta.get "cc" "b" second) (Delta.get "cc" "b" first)
get-apply_changes_example = get-apply_changes second first "cc" "b" second-IsDelta

abbrev genesis : WorldState
genesis id key = if key == "b" then some (5 ∷ []) else none

forwards-apply_changes_example :
    forwards (apply_changes second first) genesis "cc" "b"
    ≡ forwards second (forwards first genesis) "cc" "b"
forwards-apply_changes_example = forwards-apply_changes second first genesis "cc" "b" second-IsDelta

-- An implementation that holds the committed values, and hashes nothing.
abbrev plain : HashableState
plain = record {
  Impl = WorldState;
  get_state = λ w id key. some (w id key);
  prepare_working_set = λ _ w. w;
  hash_state = λ w. (w, some none);
  clear_working_set = λ _ w. w;
  Changes = Unit {0};
  add_changes = λ _. tt;
  write_changes = λ _ w. w;
}

abbrev util : Util
util = record { sort_strings = λ ids. ids; string_bytes = λ _. []; crypto_hash = λ b. b }

abbrev start : State plain util
start = record {
  state_impl = genesis;
  state_delta = new_state_delta;
  current_tx_state_delta = new_state_delta;
  current_tx_uuid = "";
  tx_state_delta_hash = [];
  update_state_impl = false;
  history_state_delta_size = 500;
}

-- A transaction that has made the changes of `first`.
abbrev busy : State plain util
busy = record start { current_tx_uuid = "t1"; current_tx_state_delta = first }

abbrev some_writes : List Write
some_writes = set_key "cc" "a" (some (2 ∷ [])) ∷ delete_key "cc" "b" ∷ []

aborted-unchanged_example : in_tx plain util "t1" false some_writes start ≡ some start
aborted-unchanged_example = aborted-unchanged plain util "t1" some_writes start refl refl refl

get-tx_finish_example :
    (t : State plain util) × (tx_finish plain util "t1" true busy ≡ finished t)
    × ((id key : String) (committed : Bool)
        → get plain util id key committed t ≡ get plain util id key committed busy)
get-tx_finish_example = get-tx_finish plain util "t1" busy refl first-IsDelta

get-set_state_example :
    (t : State plain util) × (set plain util "cc" "c" (some []) busy ≡ finished t)
    × ((j k : String)
        → (get plain util j k false t
            ≡ read_after "cc" "c" (some []) (λ a b. get plain util a b false busy) j k)
          × (get plain util j k true t ≡ get plain util j k true busy))
unfolding get
get-set_state_example = get-set_state plain util "cc" "c" (some []) none busy refl refl

get-delete_state_example :
    (t : State plain util) × (delete plain util "cc" "b" busy ≡ finished t)
    × ((j k : String)
        → (get plain util j k false t
            ≡ read_after "cc" "b" none (λ a b. get plain util a b false busy) j k)
          × (get plain util j k true t ≡ get plain util j k true busy))
unfolding get
get-delete_state_example = get-delete_state plain util "cc" "b" (some (5 ∷ [])) busy refl refl

start-IsIdle : IsIdle plain util genesis start
unfolding Delta.get lookup
start-IsIdle = record {
  recorded = record {
    reads = λ _ _. refl;
    block_once = record { once = tt; once_each = tt };
    block_records = λ _ _. tt;
    tx_once = record { once = tt; once_each = tt };
    tx_records = λ _ _. tt;
  };
  no_tx = refl;
  no_changes = refl;
}

abbrev block : List Tx
block =
    record { uuid = "t1"; successful = true; body = some_writes }
    ∷ record { uuid = "t2"; successful = false; body = set_key "cc" "b" (some []) ∷ [] }
    ∷ []

in_block-forwards_example :
    (t : State plain util) × (in_block plain util block start ≡ some t)
    × ((id key : String)
        → (get plain util id key false t ≡ some (forwards t.state_delta genesis id key))
          × (backwards t.state_delta (forwards t.state_delta genesis) id key ≡ genesis id key))
in_block-forwards_example =
    in_block-forwards plain util genesis block start (refl, (refl, tt)) start-IsIdle
