-- ===== src/Pbft/Messages.antt =====
-- The protocol's messages: openchain/consensus/obcpbft/messages.pb.go and messages.proto.
-- A `uint64` is a number below 2^64, `bytes` a list of numbers, and a nil pointer `none`; a timestamp
-- is a number.
use hyperledger_fabric.Base.{Key, ◌==◌, nat_key, string_key}
use hyperledger_fabric.Base.Map.{Map}
use Prim.Native.Nat.{ℕ}
use Prim.Native.String.{String}
use mathlib.Core.Path.{◌≡◌}
use mathlib.Core.Logic.{◌↔◌}
use mathlib.Core.Bool.{Bool, true, ◌&&◌}
use mathlib.Core.Option.{Option}
use mathlib.Core.List.{List}
use native.Mathlib.Omega.{arith}
use text.Mathlib.TextEquality.{eq_iff}

abbrev pub Bytes : Type 0
Bytes = List ℕ

pub record Request : Type 0 where
  pub timestamp : Option ℕ
  pub payload : Bytes
  pub replica_id : ℕ

pub record PrePrepare : Type 0 where
  pub view : ℕ
  pub sequence_number : ℕ
  pub request_digest : String
  pub request : Option Request
  pub replica_id : ℕ

pub record Prepare : Type 0 where
  pub view : ℕ
  pub sequence_number : ℕ
  pub request_digest : String
  pub replica_id : ℕ

pub record Commit : Type 0 where
  pub view : ℕ
  pub sequence_number : ℕ
  pub request_digest : String
  pub replica_id : ℕ

pub record Checkpoint : Type 0 where
  pub sequence_number : ℕ
  pub replica_id : ℕ
  pub block_number : ℕ
  pub block_hash : String

-- `ViewChange_C`, a checkpoint in a view-change message.
pub record ViewChangeC : Type 0 where
  pub sequence_number : ℕ
  pub block_number : ℕ
  pub block_hash : String

-- `ViewChange_PQ`, an entry of the P or the Q set.
pub record ViewChangePq : Type 0 where
  pub sequence_number : ℕ
  pub digest : String
  pub view : ℕ

pub record ViewChange : Type 0 where
  pub view : ℕ
  pub h : ℕ
  pub cset : List ViewChangeC
  pub pset : List ViewChangePq
  pub qset : List ViewChangePq
  pub replica_id : ℕ
  pub signature : Bytes

pub record NewView : Type 0 where
  pub view : ℕ
  pub vset : List ViewChange
  pub xset : Map ℕ String
  pub replica_id : ℕ

pub record FetchRequest : Type 0 where
  pub request_digest : String
  pub replica_id : ℕ

-- The `oneof` of `Message`; `no_payload` is a message in which none is set.
pub data Message : Type 0 where
  request_message : Request → Message
  pre_prepare_message : PrePrepare → Message
  prepare_message : Prepare → Message
  commit_message : Commit → Message
  checkpoint_message : Checkpoint → Message
  view_change_message : ViewChange → Message
  new_view_message : NewView → Message
  fetch_request_message : FetchRequest → Message
  return_request_message : Request → Message
  no_payload : Message

-- Checkpoints are the keys of a map, so the source compares all their fields.
abbrev checkpoint_beq : Checkpoint → Checkpoint → Bool
checkpoint_beq a b =
    a.sequence_number == b.sequence_number
    && (a.replica_id == b.replica_id
        && (a.block_number == b.block_number && a.block_hash == b.block_hash))

pub checkpoint_beq_iff : (a b : Checkpoint) → (checkpoint_beq a b ≡ true) ↔ (a ≡ b)
checkpoint_beq_iff a b = ground (arith, eq_iff a.block_hash b.block_hash)

instance abbrev pub checkpoint_key : Key Checkpoint
checkpoint_key = record { same = checkpoint_beq; same_iff = checkpoint_beq_iff }

abbrev view_change_c_beq : ViewChangeC → ViewChangeC → Bool
view_change_c_beq a b =
    a.sequence_number == b.sequence_number
    && (a.block_number == b.block_number && a.block_hash == b.block_hash)

pub view_change_c_beq_iff : (a b : ViewChangeC) → (view_change_c_beq a b ≡ true) ↔ (a ≡ b)
view_change_c_beq_iff a b = ground (arith, eq_iff a.block_hash b.block_hash)

instance abbrev pub view_change_c_key : Key ViewChangeC
view_change_c_key = record { same = view_change_c_beq; same_iff = view_change_c_beq_iff }
