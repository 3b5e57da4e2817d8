-- ===== src/Pbft/Replica.antt =====
-- The state of a replica, `pbftCore` of openchain/consensus/obcpbft/pbft-core.go, and what the code
-- takes from outside.
use hyperledger_fabric.Base.{Key, ◌==◌, nat_key, string_key}
use hyperledger_fabric.Base.Map.{Map}
use hyperledger_fabric.Pbft.Messages.{
  Bytes, Request, PrePrepare, Prepare, Commit, Checkpoint, ViewChangePq, ViewChange, NewView,
  Message,
}
use Prim.Native.Nat.{ℕ, ◌%◌}
use Prim.Native.String.{String}
use mathlib.Core.Path.{◌≡◌}
use mathlib.Core.Logic.{◌↔◌}
use mathlib.Core.Bool.{Bool, true, false, ◌&&◌}
use mathlib.Core.Option.{Option, none}
use mathlib.Core.List.{List, ◌++◌, [], ◌∷◌}
use native.Mathlib.Omega.{arith}
use text.Mathlib.TextEquality.{eq_iff}

-- `uint64` arithmetic wraps.
abbrev pub u64 : ℕ → ℕ
u64 n = n % 18446744073709551616

-- An error value; its text is not modelled, only where it comes from.
pub data Error : Type 0 where
  validation : ℕ → Error
  signature : ℕ → Error
  marshalling : ℕ → Error
  unicasting : ℕ → Error
  sender_mismatch : ℕ → ℕ → Error
  invalid_message : Error

-- What a replica does to the world, in the order in which it does it. `execute` also records the
-- sequence number under which the payload is executed.
pub data Effect : Type 0 where
  broadcast : Message → Effect
  unicast : Message → ℕ → Effect
  execute : ℕ → Bytes → Effect
  view_changed : ℕ → Effect
  initiate : List ℕ → Effect
  add_target : ℕ → Bytes → List ℕ → ℕ → Effect

-- Code outside the replica. `crypto_hash`, `encode_base64`, `decode_base64`, `marshal_request`,
-- `marshal` and `serialize` are third-party; `validate`, `sign_raw`, `verify_raw` and
-- `unicast_error` are the consumer's; `last_block` is the ledger's height and last block hash, as a
-- function of what the replica has done so far (`none` if a query fails); `byzantine_draw` and
-- `ignored_replica` are the random draws of the testing fault.
pub record Env : Type 0 where
  pub marshal_request : Option Request → Bytes
  pub crypto_hash : Bytes → Bytes
  pub encode_base64 : Bytes → String
  pub decode_base64 : String → Option Bytes
  pub marshal : Message → Option Error
  pub validate : Bytes → Option Error
  pub serialize : ViewChange → Option Bytes
  pub sign_raw : Bytes → Option Bytes
  pub verify_raw : ℕ → Bytes → Bytes → Option Error
  pub unicast_error : Message → ℕ → Option Error
  pub last_block : List Effect → Option (ℕ × Bytes)
  pub byzantine_draw : List Effect → ℕ
  pub ignored_replica : List Effect → ℕ

pub record Qidx : Type 0 where
  pub d : String
  pub n : ℕ

pub record MsgId : Type 0 where
  pub v : ℕ
  pub n : ℕ

pub record Vcidx : Type 0 where
  pub v : ℕ
  pub id : ℕ

pub record MsgCert : Type 0 where
  pub pre_prepare : Option PrePrepare
  pub sent_prepare : Bool
  pub prepare : List Prepare
  pub sent_commit : Bool
  pub commit : List Commit

pub record BlockState : Type 0 where
  pub block_number : ℕ
  pub block_hash : String

abbrev qidx_beq : Qidx → Qidx → Bool
qidx_beq a b = a.d == b.d && a.n == b.n

pub qidx_beq_iff : (a b : Qidx) → (qidx_beq a b ≡ true) ↔ (a ≡ b)
qidx_beq_iff a b = ground (arith, eq_iff a.d b.d)

instance abbrev pub qidx_key : Key Qidx
qidx_key = record { same = qidx_beq; same_iff = qidx_beq_iff }

abbrev msg_id_beq : MsgId → MsgId → Bool
msg_id_beq a b = a.v == b.v && a.n == b.n

pub msg_id_beq_iff : (a b : MsgId) → (msg_id_beq a b ≡ true) ↔ (a ≡ b)
msg_id_beq_iff a b = ground arith

instance abbrev pub msg_id_key : Key MsgId
msg_id_key = record { same = msg_id_beq; same_iff = msg_id_beq_iff }

abbrev vcidx_beq : Vcidx → Vcidx → Bool
vcidx_beq a b = a.v == b.v && a.id == b.id

pub vcidx_beq_iff : (a b : Vcidx) → (vcidx_beq a b ≡ true) ↔ (a ≡ b)
vcidx_beq_iff a b = ground arith

instance abbrev pub vcidx_key : Key Vcidx
vcidx_key = record { same = vcidx_beq; same_iff = vcidx_beq_iff }

-- The names are those of the source's fields, in its order. `N`, `f` and `replicaCount` are Go
-- ints, taken as natural numbers. `pending` stands for an armed `newViewTimer`, `in_progress` for
-- `sts.InProgress()`, `notify_commit` for the channel's one place, `effects` for what was sent and
-- executed so far, and `crashed` says that the code has panicked, or that a recursion of the model has
-- used up its fuel: nothing that a crashed replica computes is observed.
pub record Replica : Type 0 where
  pub executing : Bool
  pub notify_commit : Bool
  pub active_view : Bool
  pub byzantine : Bool
  pub f : ℕ
  pub n : ℕ
  pub h : ℕ
  pub id : ℕ
  pub k : ℕ
  pub log_multiplier : ℕ
  pub l : ℕ
  pub last_exec : ℕ
  pub replica_count : ℕ
  pub seq_no : ℕ
  pub view : ℕ
  pub chkpts : Map ℕ BlockState
  pub pset : Map ℕ ViewChangePq
  pub qset : Map Qidx ViewChangePq
  pub h_chkpts : Map ℕ ℕ
  pub in_progress : Bool
  pub pending : Bool
  pub timer_active : Bool
  pub request_timeout : ℕ
  pub new_view_timeout : ℕ
  pub last_new_view_timeout : ℕ
  pub outstanding_reqs : Map String Request
  pub timer_expired_count : ℕ
  pub timer_reset_count : ℕ
  pub missing_reqs : Map String Bool
  pub req_store : Map String Request
  pub cert_store : Map MsgId MsgCert
  pub checkpoint_store : Map Checkpoint Bool
  pub view_change_store : Map Vcidx ViewChange
  pub new_view_store : Map ℕ NewView
  pub effects : List Effect
  pub crashed : Bool

-- A handler returns the state that it leaves and its `error`.
abbrev pub Outcome : Type 0
Outcome = Replica × Option Error

abbrev pub done : Replica → Outcome
done s = (s, none)

unfoldable pub emit : Effect → Replica → Replica
emit x s = record s { effects = s.effects ++ x ∷ [] }

unfoldable pub panic : Replica → Replica
panic s = record s { crashed = true }

-- `hashReq`; a nil request marshals to an error, which is dropped, and no bytes.
unfoldable pub hash_req : Env → Option Request → String
hash_req e r = e.encode_base64 (e.crypto_hash (e.marshal_request r))

abbrev pub empty_cert : MsgCert
empty_cert = record {
  pre_prepare = none;
  sent_prepare = false;
  prepare = [];
  sent_commit = false;
  commit = [];
}
