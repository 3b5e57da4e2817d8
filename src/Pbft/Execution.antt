-- ===== src/Pbft/Execution.antt =====
-- Execution of committed requests: `executeOne` and `executeOutstanding` of pbft-core.go. The code
-- gives up its lock while the application executes a request, so `executeOne` is in two parts,
-- `begin_execution` and `finish_execution`, between which other handlers may run.
pub mod Order
use hyperledger_fabric.Base.{◌==◌, nat_key, string_key, if◌then◌else◌, length, ltb}
use hyperledger_fabric.Base.Map.{Map, lookup, insert, delete}
use hyperledger_fabric.Pbft.Messages.{Bytes, Request, PrePrepare, Checkpoint, checkpoint_message}
use hyperledger_fabric.Pbft.Replica.{
  Env, Replica, MsgCert, MsgId, msg_id_key, execute, u64, emit, panic,
}
use hyperledger_fabric.Pbft.Quorum.{cert_pre_prepare, committed}
use hyperledger_fabric.Pbft.Timer.{start_timer, stop_timer}
use hyperledger_fabric.Pbft.Ordering.{inner_broadcast}
use Prim.Native.Nat.{ℕ, zero, suc, ◌+◌, ◌%◌}
use mathlib.Core.Bool.{true, false, not}
use mathlib.Core.Option.{Option, none, some}
use mathlib.Core.List.{[], ◌∷◌}

abbrev pub if_committed : Replica → MsgId → Option PrePrepare → Option PrePrepare
if_committed s i none = none
if_committed s i (some p) = if committed s p.request_digest i.v i.n then some p else none

-- The guards of `executeOne`: the pre-prepare of the next request, if it may be executed.
unfoldable pub ready : Replica → MsgId → Option PrePrepare
ready s i =
    if s.executing
    then none
    else if not (i.n == u64 (s.last_exec + 1))
    then none
    else if_committed s i (cert_pre_prepare (lookup i s.cert_store))

abbrev pub execute_request : ℕ → Option Request → Replica → Replica
execute_request n none s = panic s
execute_request n (some r) s = emit (execute n r.payload) s

-- From the commit certificate to the call of the application; the null request makes no call.
unfoldable pub begin_execution : PrePrepare → MsgId → Replica → Replica
begin_execution p i s =
    let t = stop_timer (record s { last_exec = i.n }) in
    let u = record t { last_new_view_timeout = t.new_view_timeout } in
    if p.request_digest == ""
    then u
    else execute_request i.n (lookup p.request_digest s.req_store) (record u {
      outstanding_reqs = delete p.request_digest u.outstanding_reqs;
      executing = true;
    })

abbrev pub own_checkpoint :
    Env → (Checkpoint → Replica → Replica) → Option (ℕ × Bytes) → Replica → Replica
own_checkpoint e self none s = panic s
own_checkpoint e self (some (height, hash)) s =
    let c : Checkpoint = record {
      sequence_number = s.last_exec;
      replica_id = s.id;
      block_number = u64 (height + 18446744073709551615);
      block_hash = e.encode_base64 hash;
    } in
    (inner_broadcast e (checkpoint_message c) (self c) (record s {
      chkpts =
          insert s.last_exec (record { block_number = c.block_number; block_hash = c.block_hash })
            s.chkpts;
    })).0

-- What follows the execution, with the lock held again. A period `K` of 0 is a division by zero.
-- `self` is what the replica does with its own checkpoint message.
unfoldable pub finish_execution : Env → (Checkpoint → Replica → Replica) → Replica → Replica
finish_execution e self s =
    let t = record s { executing = false } in
    let u = if ltb 0 (length t.outstanding_reqs) then start_timer t t.request_timeout else t in
    if u.k == 0
    then panic u
    else if u.last_exec % u.k == 0
    then own_checkpoint e self (e.last_block u.effects) u
    else u

abbrev pub execute_ready :
    Env → (Checkpoint → Replica → Replica) → MsgId → Option PrePrepare → Replica → Option Replica
execute_ready e self i none s = none
execute_ready e self i (some p) s = some (finish_execution e self (begin_execution p i s))

-- `executeOne` when no other handler runs meanwhile; `none` is its answer `false`.
unfoldable pub execute_one :
    Env → (Checkpoint → Replica → Replica) → MsgId → Replica → Option Replica
execute_one e self i s = execute_ready e self i (ready s i) s

-- The inner loop of `executeOutstanding`, up to its `break`.
unfoldable pub execute_first :
    Env → (Checkpoint → Replica → Replica) → Map MsgId MsgCert → Replica → Option Replica
execute_first e self [] s = none
execute_first e self ((i, c) ∷ rest) s = elim (execute_one e self i s) [
  | some t ↦ some t
  | none ↦ execute_first e self rest s
]

-- The outer loop, `none` if the fuel does not suffice.
unfoldable pub execute_loop : ℕ → Env → (Checkpoint → Replica → Replica) → Replica → Option Replica
execute_loop zero e self s = none
execute_loop (suc fuel) e self s = elim (execute_first e self s.cert_store s) [
  | some t ↦ execute_loop fuel e self t
  | none ↦ some s
]

unfoldable pub execute_outstanding :
    ℕ → Env → (Checkpoint → Replica → Replica) → Replica → Option Replica
execute_outstanding fuel e self s = if s.in_progress then some s else execute_loop fuel e self s
