-- ===== src/Pbft/Receive.antt =====
-- The entry points of pbft-core.go: `recvMsgSync` and the handlers that it chooses from,
-- `stateTransferCompleted`, and the steps of the executing thread.
pub mod Normal
pub mod Stable
use hyperledger_fabric.Base.{◌==◌, nat_key, string_key, ltb, leb, if◌then◌else◌}
use hyperledger_fabric.Base.Map.{lookup, insert, delete, member}
use hyperledger_fabric.Pbft.Messages.{
  Bytes, Request, Checkpoint, FetchRequest, Message, request_message, pre_prepare_message,
  prepare_message, commit_message, checkpoint_message, view_change_message, new_view_message,
  fetch_request_message, return_request_message, no_payload, checkpoint_key,
}
use hyperledger_fabric.Pbft.Replica.{
  Env, Outcome, Replica, sender_mismatch, invalid_message, unicast, done, emit, hash_req,
}
use hyperledger_fabric.Pbft.Quorum.{in_w, intersection_quorum}
use hyperledger_fabric.Pbft.Timer.{timer_fires, expiry_stands}
use hyperledger_fabric.Pbft.Ordering.{recv_request, recv_pre_prepare, recv_prepare, recv_commit}
use hyperledger_fabric.Pbft.Checkpoints.{
  move_watermarks, witness_checkpoint, witness_checkpoint_weak_cert, matching_checkpoints,
}
use hyperledger_fabric.Pbft.Execution.{execute_outstanding}
use hyperledger_fabric.Pbft.NewView.{
  process_new_view, recv_new_view, recv_view_change, send_view_change,
}
use Prim.Native.Nat.{ℕ, ◌+◌}
use mathlib.Core.Bool.{true, false, not, ◌&&◌}
use mathlib.Core.Option.{Option, none, some}

-- The end of `recvCheckpoint`, with the message stored.
unfoldable pub count_checkpoints : (Replica → Outcome) → Env → Checkpoint → Replica → Outcome
count_checkpoints send e c s =
    let matching = matching_checkpoints c s.checkpoint_store in
    let t =
      if s.in_progress && leb (s.f + 1) matching then witness_checkpoint_weak_cert e c s else s in
    if ltb matching (intersection_quorum t)
    then done t
    else if not (member c.sequence_number t.chkpts)
    then done t
    else process_new_view send e (move_watermarks e c.sequence_number t)

unfoldable pub recv_checkpoint : (Replica → Outcome) → Env → Checkpoint → Replica → Outcome
recv_checkpoint send e c s =
    let t = witness_checkpoint e c s in
    if not (in_w t c.sequence_number)
    then done t
    else count_checkpoints send e c
        (record t { checkpoint_store = insert c true t.checkpoint_store })

unfoldable pub recv_fetch_request : Env → FetchRequest → Replica → Outcome
recv_fetch_request e fr s = elim (lookup fr.request_digest s.req_store) [
  | none ↦ done s
  | some r ↦
      let m = return_request_message r in
      elim (e.marshal m) [
        | some x ↦ (s, some x)
        | none ↦ (emit (unicast m fr.replica_id) s, e.unicast_error m fr.replica_id)
      ]
]

unfoldable pub recv_return_request : (Replica → Outcome) → Env → Request → Replica → Outcome
recv_return_request send e r s =
    let digest = hash_req e (some r) in
    if not (member digest s.missing_reqs)
    then done s
    else process_new_view send e (record s {
      req_store = insert digest r s.req_store;
      missing_reqs = delete digest s.missing_reqs;
    })

abbrev pub from_sender : ℕ → ℕ → Replica → Outcome → Outcome
from_sender sender named s handled =
    if sender == named then handled else (s, some (sender_mismatch named sender))

-- `recvMsgSync`; the fuel is for a view change that a message sets off.
unfoldable pub recv_msg_sync : ℕ → Env → Message → ℕ → Replica → Outcome
recv_msg_sync fuel e (request_message r) sender s =
    from_sender sender r.replica_id s (recv_request e r s)
recv_msg_sync fuel e (pre_prepare_message p) sender s =
    from_sender sender p.replica_id s (recv_pre_prepare e p s)
recv_msg_sync fuel e (prepare_message p) sender s =
    from_sender sender p.replica_id s (recv_prepare e p s)
recv_msg_sync fuel e (commit_message c) sender s =
    from_sender sender c.replica_id s (recv_commit c s)
recv_msg_sync fuel e (checkpoint_message c) sender s =
    from_sender sender c.replica_id s (recv_checkpoint (send_view_change fuel e) e c s)
recv_msg_sync fuel e (view_change_message vc) sender s =
    from_sender sender vc.replica_id s (recv_view_change (send_view_change fuel e) e vc s)
recv_msg_sync fuel e (new_view_message nv) sender s =
    from_sender sender nv.replica_id s (recv_new_view (send_view_change fuel e) e nv s)
recv_msg_sync fuel e (fetch_request_message fr) sender s =
    from_sender sender fr.replica_id s (recv_fetch_request e fr s)
recv_msg_sync fuel e (return_request_message r) sender s =
    recv_return_request (send_view_change fuel e) e r s
recv_msg_sync fuel e no_payload sender s = (s, some invalid_message)

-- `request`: a payload from the local stack, wrapped as a message of its sender; it has
-- no timestamp.
unfoldable pub request : ℕ → Env → Bytes → ℕ → Replica → Replica
request fuel e payload sender s =
    (recv_msg_sync fuel e
      (request_message (record { timestamp = none; payload = payload; replica_id = sender })) sender
      s).0

-- What the replica does with its own checkpoint message.
abbrev pub checkpoint_to_self : ℕ → Env → Checkpoint → Replica → Replica
checkpoint_to_self fuel e c s = (recv_checkpoint (send_view_change fuel e) e c s).0

-- `stateTransferCompleted` with the metadata of this module; the transfer is over by then.
unfoldable pub state_transfer_completed : ℕ → ℕ → Env → ℕ → Replica → Option Replica
state_transfer_completed rounds fuel e n s =
    execute_outstanding rounds e (checkpoint_to_self fuel e)
      (record s { in_progress = false; last_exec = n })

-- The timer thread, under the lock.
unfoldable pub handle_timer : ℕ → Env → Replica → Replica
handle_timer fuel e s =
    let t = timer_fires s in if expiry_stands t then (send_view_change fuel e t).0 else t
