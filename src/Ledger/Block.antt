-- ===== src/Ledger/Block.antt =====
-- Blocks of protos/openchain.pb.go and protos/block.go, and what the ledger calls outside.
use hyperledger_fabric.Base.{Bytes}
use hyperledger_fabric.Ledger.Store.{Change}
use hyperledger_fabric.Statemgmt.Delta.{Slice}
use Prim.Native.Nat.{ℕ}
use Prim.Native.String.{String}
use mathlib.Core.Bool.{Bool}
use mathlib.Core.Option.{Option, none, some}
use mathlib.Core.List.{List}

pub data TransactionType : Type 0 where
  undefined : TransactionType
  chaincode_new : TransactionType
  chaincode_update : TransactionType
  chaincode_execute : TransactionType
  chaincode_query : TransactionType
  chaincode_terminate : TransactionType

pub record Timestamp : Type 0 where
  pub seconds : ℕ
  pub nanos : ℕ

pub record Transaction : Type 0 where
  pub type : TransactionType
  pub chaincode_id : Slice
  pub payload : Slice
  pub metadata : Slice
  pub uuid : String
  pub timestamp : Option Timestamp
  pub confidentiality_level : ℕ
  pub nonce : Slice
  pub cert : Slice
  pub signature : Slice

pub record TransactionResult : Type 0 where
  pub uuid : String
  pub result : Slice
  pub error_code : ℕ
  pub error : String

pub record NonHashData : Type 0 where
  pub local_ledger_commit_timestamp : Option Timestamp
  pub transaction_results : List TransactionResult

pub record Block : Type 0 where
  pub version : ℕ
  pub timestamp : Option Timestamp
  pub transactions : List Transaction
  pub state_hash : Slice
  pub previous_block_hash : Slice
  pub consensus_metadata : Slice
  pub non_hash_data : Option NonHashData

-- `NewBlock`.
abbrev pub new_block : List Transaction → Slice → Block
new_block transactions metadata = record {
  version = 0;
  timestamp = none;
  transactions = transactions;
  state_hash = none;
  previous_block_hash = none;
  consensus_metadata = metadata;
  non_hash_data = none;
}

-- Marshalling and varints by the protobuf library, the hash, and whether the database refuses a
-- batch. `none` is an error.
pub record Env : Type 0 where
  pub marshal_block : Block → Option Bytes
  pub unmarshal_block : Bytes → Option Block
  pub crypto_hash : Bytes → Bytes
  pub encode_varint : ℕ → Bytes
  pub decode_varint : Bytes → Option (ℕ × Bytes)
  pub string_bytes : String → Bytes
  pub write_error : List Change → Bool

abbrev hash_of_bytes : Env → Option Bytes → Option Bytes
hash_of_bytes e none = none
hash_of_bytes e (some b) = some (e.crypto_hash b)

abbrev hash_of_copy : Env → Option Block → Option Bytes
hash_of_copy e none = none
hash_of_copy e (some b) = hash_of_bytes e (e.marshal_block (record b { non_hash_data = none }))

abbrev copied : Env → Option Bytes → Option Block
copied e none = none
copied e (some b) = e.unmarshal_block b

-- `GetHash`: of a copy, made by marshalling, without the data that is not hashed.
unfoldable pub get_block_hash : Env → Block → Option Bytes
get_block_hash e b = hash_of_copy e (copied e (e.marshal_block b))
