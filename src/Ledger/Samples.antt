-- ===== src/Ledger/Samples.antt =====
-- Concrete ledgers and batches, and what the operations compute on them.
use hyperledger_fabric.Base.{Bytes}
use hyperledger_fabric.Base.ByteSlices.{bytes_beq, encode_uint64}
use hyperledger_fabric.Base.Map.{lookup, insert, delete}
use hyperledger_fabric.Ledger.Store.{write_batch}
use hyperledger_fabric.Ledger.Indexes.{
  add_index_data_for_persistence, index_transactions, index_addresses, tx_indexes_by_address,
}
use hyperledger_fabric.Ledger.Blockchain.{
  add_persistence_changes_for_new_block, block_persistence_status, persist_raw_block,
}
use hyperledger_fabric.Ledger.Codecs.{encode_items, decode_items}
use hyperledger_fabric.Ledger.Block.{
  chaincode_execute, new_block, Timestamp, Transaction, TransactionResult, Block, get_block_hash,
}
use hyperledger_fabric.Ledger.Batches.{
  Ledger, commit_tx_batch, reset_for_next_tx_group, get_tx_batch_preview_block, put_raw_block,
}
use hyperledger_fabric.Ledger.World.{env, memory, util}
use hyperledger_fabric.Statemgmt.CodecTests.{
  buffer, encode_list, decode_list, encode_text, decode_text,
}
use hyperledger_fabric.Statemgmt.Delta as Delta
use hyperledger_fabric.Statemgmt.Delta.{
  StateDelta, new_state_delta, is_updated_value_set, is_empty, put_chaincode, apply_changes,
  apply_deltas, apply_kvs, chaincode_set, apply_one,
}
use hyperledger_fabric.Statemgmt.Delta.Marshal.{
  bytes_of, marshal, marshal_deltas, marshal_kvs, chaincode_marshal,
}
use hyperledger_fabric.Statemgmt.Delta.Rollback.{WorldState}
use hyperledger_fabric.Statemgmt.State.{
  State, tx_begin, tx_finish, get_hash, clear_in_memory_changes,
}
use hyperledger_fabric.Statemgmt.State.Persistence.{add_changes_for_persistence}
use hyperledger_fabric.Statemgmt.State as State
use hyperledger_fabric.Statemgmt.State.Transactions.{set_key, delete_key, in_tx, writes}
use hyperledger_fabric.Statemgmt.State.Recorded.{Tx}
use hyperledger_fabric.Statemgmt.State.Block.{in_block}
use Prim.Native.Nat.{ℕ}
use mathlib.Core.Path.{◌≡◌, refl}
use mathlib.Core.Bool.{Bool, true, false}
use mathlib.Core.Option.{Option, none, some}
use mathlib.Core.List.{List, [], ◌∷◌}

abbrev pub genesis : WorldState
genesis id key = none

-- The chaincode "cc" sets "a".
abbrev pub change_a : StateDelta
change_a = record {
  chaincode_state_deltas =
      (
        "cc",
        record {
          chaincode_id = "cc";
          updated_kvs = ("a", record { value = some (2 ∷ []); previous_value = none }) ∷ [];
        },
      )
      ∷ [];
  roll_backwards = false;
}

abbrev pub clean : State memory util
clean = record {
  state_impl = (genesis, new_state_delta);
  state_delta = new_state_delta;
  current_tx_state_delta = new_state_delta;
  current_tx_uuid = "";
  tx_state_delta_hash = [];
  update_state_impl = false;
  history_state_delta_size = 1;
}

abbrev pub empty : (refuses : Bool) → Ledger memory util (env refuses) buffer
empty refuses = record {
  blockchain = record { size = 0; previous_block_hash = none; last_processed_block = none };
  state = clean;
  current_id = none;
  db = record { blockchain_cf = []; state_delta_cf = []; indexes_cf = [] };
}

-- A batch that has made the change.
abbrev pub changed : State memory util
changed = record clean { state_delta = change_a; update_state_impl = true }

abbrev pub open_batch : Ledger memory util (env false) buffer
open_batch = record (empty false) { current_id = some 7; state = changed }

abbrev pub transaction : Transaction
transaction = record {
  type = chaincode_execute;
  chaincode_id = some (4 ∷ []);
  payload = some [];
  metadata = none;
  uuid = "t1";
  timestamp = none;
  confidentiality_level = 0;
  nonce = none;
  cert = none;
  signature = none;
}

abbrev pub transactions : List Transaction
transactions = transaction ∷ record transaction { uuid = "t2" } ∷ []

abbrev pub results : List TransactionResult
results = record { uuid = "t1"; result = some []; error_code = 0; error = "" } ∷ []

abbrev pub now : Timestamp
now = record { seconds = 100; nanos = 5 }

abbrev pub ledger_of :
    Option (Ledger memory util (env false) buffer × Bool) → Ledger memory util (env false) buffer
ledger_of none = empty false
ledger_of (some (l, ok)) = l

abbrev pub first_commit : Option (Ledger memory util (env false) buffer × Bool)
first_commit =
    commit_tx_batch memory util (env false) buffer now (some 7) transactions results none open_batch

abbrev pub first_ledger : Ledger memory util (env false) buffer
first_ledger = ledger_of first_commit

-- A second batch, without transactions.
abbrev pub second_batch : Ledger memory util (env false) buffer
second_batch = record first_ledger { current_id = some 8 }

abbrev pub second_commit : Option (Ledger memory util (env false) buffer × Bool)
second_commit = commit_tx_batch memory util (env false) buffer now (some 8) [] [] none second_batch

abbrev pub second_ledger : Ledger memory util (env false) buffer
second_ledger = ledger_of second_commit

abbrev pub bytes_in : Option Bytes → Bytes
bytes_in none = []
bytes_in (some b) = b

abbrev pub head_of : Bytes → ℕ
head_of [] = 0
head_of (b ∷ bs) = b

abbrev pub tail_of : Bytes → Bytes
tail_of [] = []
tail_of (b ∷ bs) = bs

abbrev pub delta_bytes : StateDelta → Bytes
delta_bytes d = bytes_in (marshal buffer d)

abbrev pub change_bytes : Bytes
change_bytes = head_of (delta_bytes change_a) ∷ tail_of (delta_bytes change_a)

-- The preview of the first batch, and its commit after that.
abbrev pub preview : Ledger memory util (env false) buffer × Option Block
preview =
    get_tx_batch_preview_block memory util (env false) buffer (some 7) transactions none open_batch

abbrev pub preview_block : Block
preview_block = elim preview.1 [ none ↦ new_block [] none | some b ↦ b ]

abbrev pub block_bytes : Block → Bytes
block_bytes b = bytes_in ((env false).marshal_block b)

abbrev pub previewed_commit : Option (Ledger memory util (env false) buffer × Bool)
previewed_commit =
    commit_tx_batch memory util (env false) buffer now (some 7) transactions results none preview.0

-- A block that comes from elsewhere, put behind the first.
abbrev pub raw_block : Block
raw_block = new_block transactions (some (3 ∷ []))

abbrev pub raw_hash : Bytes
raw_hash = bytes_in (get_block_hash (env false) raw_block)

abbrev pub raw_put : Ledger memory util (env false) buffer × Bool
raw_put =
    put_raw_block memory util (env false) buffer raw_block second_batch.blockchain.size second_batch

abbrev pub put_commit : Option (Ledger memory util (env false) buffer × Bool)
put_commit = commit_tx_batch memory util (env false) buffer now (some 8) [] [] none raw_put.0

-- The transactions of a batch, as the chaincodes run them.
abbrev pub runs_of_batch : List Tx
runs_of_batch =
    record { uuid = "t1"; successful = true; body = set_key "cc" "a" (some (2 ∷ [])) ∷ [] }
    ∷ record { uuid = "t2"; successful = false; body = delete_key "cc" "a" ∷ [] }
    ∷ []

abbrev pub begun : Ledger memory util (env false) buffer
begun = record (empty false) { current_id = some 7 }

abbrev pub ran : State memory util
ran = elim (in_block memory util runs_of_batch clean) [ none ↦ clean | some t ↦ t ]

-- What these compute to.
pub record AsComputed : Type 0 where
  pub first : first_commit ≡ some (first_ledger, true)
  pub second : second_commit ≡ some (second_ledger, true)
  pub two_blocks : second_ledger.blockchain.size ≡ 2
  pub shown : preview ≡ (preview.0, some preview_block)
  pub shown_commit : previewed_commit ≡ some (ledger_of previewed_commit, true)
  pub was_put : raw_put ≡ (raw_put.0, true)
  pub put_then : put_commit ≡ some (ledger_of put_commit, true)
  pub other_hash : bytes_beq raw_hash (bytes_of second_batch.blockchain.previous_block_hash) ≡ false
  pub one_block : first_ledger.blockchain.size ≡ 1
  pub raw_hashed : get_block_hash (env false) raw_block ≡ some raw_hash
  pub raw_hashed_again : get_block_hash (env true) raw_block ≡ some raw_hash
  pub raw_marshalled :
      (env false).marshal_block raw_block
      ≡ some (head_of (block_bytes raw_block) ∷ tail_of (block_bytes raw_block))
  pub delta_marshalled : marshal buffer change_a ≡ some change_bytes
  pub no_delta_marshalled :
      marshal buffer second_batch.state.state_delta
      ≡ some (delta_bytes second_batch.state.state_delta)
  pub ran_all : in_block memory util runs_of_batch begun.state ≡ some ran
  pub ran_marshalled : marshal buffer ran.state_delta ≡ some (delta_bytes ran.state_delta)

pub as_computed : AsComputed
unfolding commit_tx_batch get_block_hash lookup insert delete add_persistence_changes_for_new_block
    block_persistence_status get_hash add_changes_for_persistence encode_uint64
    add_index_data_for_persistence index_transactions index_addresses tx_indexes_by_address
    write_batch bytes_beq marshal marshal_deltas marshal_kvs chaincode_marshal encode_list
    encode_text encode_items decode_items decode_list decode_text reset_for_next_tx_group
    clear_in_memory_changes get_tx_batch_preview_block put_raw_block persist_raw_block in_block
    in_tx tx_begin tx_finish writes State.set is_updated_value_set State.get State.delete is_empty
    Delta.set put_chaincode apply_changes apply_deltas apply_kvs chaincode_set apply_one
as_computed = record {
  first = refl;
  second = refl;
  two_blocks = refl;
  shown = refl;
  shown_commit = refl;
  was_put = refl;
  put_then = refl;
  other_hash = refl;
  one_block = refl;
  raw_hashed = refl;
  raw_hashed_again = refl;
  raw_marshalled = refl;
  delta_marshalled = refl;
  no_delta_marshalled = refl;
  ran_all = refl;
  ran_marshalled = refl;
}
