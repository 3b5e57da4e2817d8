-- ===== src/Pbft/Ordering.antt =====
-- The normal case of pbft-core.go: requests, pre-prepares, prepares and commits. `self` is what the
-- replica does with a message that it broadcasts to itself: `recvMsgSync` under its own id, whose
-- sender test then passes, so that the message's handler runs.
pub mod Rules
pub mod Keyed
pub mod PrimaryRules
pub mod Certs
pub mod Frame
pub mod NilRequest
use hyperledger_fabric.Base.{◌==◌, nat_key, string_key, if◌then◌else◌, any, is_some}
use hyperledger_fabric.Base.Map.{Map, insert, member}
use hyperledger_fabric.Pbft.Messages.{
  Request, PrePrepare, Prepare, Commit, Message, pre_prepare_message, prepare_message,
  commit_message,
}
use hyperledger_fabric.Pbft.Replica.{
  Env, Outcome, Replica, MsgCert, MsgId, unicast, broadcast, u64, done, emit, panic, hash_req,
}
use hyperledger_fabric.Pbft.Quorum.{
  primary, in_wv, get_cert, cert_at, put_cert, pre_prepared, prepared,
}
use hyperledger_fabric.Pbft.Timer.{start_timer}
use Prim.Native.Nat.{ℕ, zero, suc, ◌+◌, ◌%◌}
use Prim.Native.String.{String}
use mathlib.Core.Bool.{Bool, true, false, not, ◌&&◌}
use mathlib.Core.Option.{Option, none, some}
use mathlib.Core.List.{[], ◌∷◌, ◌++◌}

-- The testing fault: a unicast to each replica but the replica itself and one drawn at random.
unfoldable pub unicast_all_but : ℕ → ℕ → ℕ → Message → Replica → Replica
unicast_all_but zero start ignored m s = s
unicast_all_but (suc left) start ignored m s =
    unicast_all_but left (start + 1) ignored m
      (if not (start == ignored) && not (start == s.id) then emit (unicast m start) s else s)

unfoldable pub send_to_others : Env → Message → Replica → Replica
send_to_others e m s =
    if s.byzantine && e.byzantine_draw s.effects % 3 == 1
    then unicast_all_but s.n 0 (e.ignored_replica s.effects % s.n) m s
    else emit (broadcast m) s

-- `innerBroadcast`: with `toSelf`, `self` is the dispatch to the replica itself.
unfoldable pub inner_broadcast : Env → Message → (Replica → Replica) → Replica → Outcome
inner_broadcast e m self s = elim (e.marshal m) [
  | some x ↦ (s, some x)
  | none ↦ done (self (send_to_others e m s))
]

abbrev pub not_to_self : Replica → Replica
not_to_self s = s

unfoldable pub recv_commit : Commit → Replica → Outcome
recv_commit c s =
    if not (in_wv s c.view c.sequence_number)
    then done s
    else let t = get_cert s c.view c.sequence_number in
      let cert = cert_at s c.view c.sequence_number in
      if any (λ prev. prev.replica_id == c.replica_id) cert.commit
      then done t
      else done
          (record (put_cert t c.view c.sequence_number
            (record cert { commit = cert.commit ++ c ∷ [] })) { notify_commit = true })

-- The log line of this function reads `cert.prePrepare.View`, which panics on a nil pointer.
unfoldable pub maybe_send_commit : Env → String → ℕ → ℕ → Replica → Outcome
maybe_send_commit e digest v n s =
    let t = get_cert s v n in
    let cert = cert_at s v n in
    let commit : Commit = record {
      view = v;
      sequence_number = n;
      request_digest = digest;
      replica_id = s.id;
    } in
    if prepared t digest v n && not cert.sent_commit
    then if is_some cert.pre_prepare
      then inner_broadcast e (commit_message commit) (λ u. (recv_commit commit u).0)
          (put_cert t v n (record cert { sent_commit = true }))
      else done (panic t)
    else done t

unfoldable pub recv_prepare : Env → Prepare → Replica → Outcome
recv_prepare e p s =
    if not (not (primary s s.view == p.replica_id) && in_wv s p.view p.sequence_number)
    then done s
    else let t = get_cert s p.view p.sequence_number in
      let cert = cert_at s p.view p.sequence_number in
      if any (λ prev. prev.replica_id == p.replica_id) cert.prepare
      then done t
      else maybe_send_commit e p.request_digest p.view p.sequence_number
          (put_cert t p.view p.sequence_number (record cert { prepare = cert.prepare ++ p ∷ [] }))

abbrev pub other_digest : Option PrePrepare → String → Bool
other_digest none d = false
other_digest (some q) d = not (q.request_digest == d)

-- The first part of `recvPrePrepare` on the certificate: another digest is not stored.
unfoldable pub store_pre_prepare : PrePrepare → Replica → Replica
store_pre_prepare p s =
    let t = get_cert s p.view p.sequence_number in
    let cert = cert_at s p.view p.sequence_number in
    if other_digest cert.pre_prepare p.request_digest
    then t
    else put_cert t p.view p.sequence_number (record cert { pre_prepare = some p })

-- The second part: a request that is not in the store is checked and stored. `inl` returns early.
pub data Stored : Type 0 where
  returns : Outcome → Stored
  continues : Replica → Stored

abbrev pub admit_request : Env → PrePrepare → Option Request → Replica → Stored
admit_request e p none s = returns (done (panic s))
admit_request e p (some r) s = elim (e.validate r.payload) [
  | some x ↦ returns (s, some x)
  | none ↦ continues (record s {
    req_store = insert p.request_digest r s.req_store;
    outstanding_reqs = insert p.request_digest r s.outstanding_reqs;
  })
]

unfoldable pub store_request : Env → PrePrepare → Replica → Stored
store_request e p s =
    if member p.request_digest s.req_store
    then continues s
    else if not (hash_req e p.request == p.request_digest)
    then returns (done s)
    else admit_request e p p.request s

-- The last part: a backup answers with a prepare, once.
unfoldable pub send_prepare : Env → PrePrepare → Replica → Outcome
send_prepare e p s =
    let cert = cert_at s p.view p.sequence_number in
    let prep : Prepare = record {
      view = p.view;
      sequence_number = p.sequence_number;
      request_digest = p.request_digest;
      replica_id = s.id;
    } in
    if not (primary s s.view == s.id)
      && (pre_prepared s p.request_digest p.view p.sequence_number && not cert.sent_prepare)
    then inner_broadcast e (prepare_message prep) (λ u. (recv_prepare e prep u).0)
        (put_cert s p.view p.sequence_number (record cert { sent_prepare = true }))
    else done s

abbrev pub after_stored : Env → PrePrepare → Stored → Outcome
after_stored e p (returns o) = o
after_stored e p (continues t) =
    send_prepare e p (if not t.timer_active then start_timer t t.request_timeout else t)

unfoldable pub recv_pre_prepare : Env → PrePrepare → Replica → Outcome
recv_pre_prepare e p s =
    if not s.active_view
    then done s
    else if not (primary s s.view == p.replica_id)
    then done s
    else if not (in_wv s p.view p.sequence_number)
    then done s
    else after_stored e p (store_request e p (store_pre_prepare p s))

abbrev pub same_digest_elsewhere : String → ℕ → ℕ → Option PrePrepare → Bool
same_digest_elsewhere digest v n none = false
same_digest_elsewhere digest v n (some p) =
    p.view == v && (not (p.sequence_number == n) && p.request_digest == digest)

-- The loop of `recvRequest` over the certificates: another number has this digest.
unfoldable pub have_other : String → ℕ → ℕ → Map MsgId MsgCert → Bool
have_other digest v n certs =
    any (λ (x : MsgId × MsgCert). same_digest_elsewhere digest v n x.1.pre_prepare) certs

-- The primary's part of `recvRequest`.
unfoldable pub assign_request : Env → Request → String → Replica → Outcome
assign_request e r digest s =
    let n = u64 (s.seq_no + 1) in
    let p : PrePrepare = record {
      view = s.view;
      sequence_number = n;
      request_digest = digest;
      request = some r;
      replica_id = s.id;
    } in
    if not (in_wv s s.view n && not (have_other digest s.view n s.cert_store))
    then done s
    else let t = get_cert (record s { seq_no = n }) s.view n in
      let u = put_cert t s.view n (record (cert_at t s.view n) { pre_prepare = some p }) in
      maybe_send_commit e digest s.view n
        (inner_broadcast e (pre_prepare_message p) not_to_self u).0

-- `recvRequest` once the request is stored.
unfoldable pub accept_request : Env → Request → String → Replica → Outcome
accept_request e r digest s =
    let t = if not s.timer_active then start_timer s s.request_timeout else s in
    if primary t t.view == t.id && t.active_view then assign_request e r digest t else done t

unfoldable pub recv_request : Env → Request → Replica → Outcome
recv_request e r s =
    let digest = hash_req e (some r) in
    elim (e.validate r.payload) [
      | some x ↦ (s, some x)
      | none ↦ accept_request e r digest (record s {
        req_store = insert digest r s.req_store;
        outstanding_reqs = insert digest r s.outstanding_reqs;
      })
    ]

abbrev pub has_digest : String → Option PrePrepare → Bool
has_digest d none = false
has_digest d (some p) = p.request_digest == d

-- The loop of `resubmitRequests`. A map that is written while it is ranged over keeps its keys
-- here, since `recvRequest` writes the digest of a request that is outstanding already.
unfoldable pub resubmit_loop : Env → Map String Request → Replica → Replica
resubmit_loop e [] s = s
resubmit_loop e ((d, r) ∷ rest) s = resubmit_loop e rest (
    if any (λ (x : MsgId × MsgCert). has_digest d x.1.pre_prepare) s.cert_store
    then s
    else (recv_request e r s).0)

unfoldable pub resubmit_requests : Env → Replica → Replica
resubmit_requests e s =
    if not (primary s s.view == s.id) then s else resubmit_loop e s.outstanding_reqs s
