-- ===== src/Pbft/Checkpoints.antt =====
-- Watermarks and checkpoints of pbft-core.go: `moveWatermarks`, `witnessCheckpoint`,
-- `witnessCheckpointWeakCert`.
pub mod WeakMark
pub mod Ahead
use hyperledger_fabric.Base.{◌==◌, nat_key, string_key, ltb, leb, if◌then◌else◌, length, count}
use hyperledger_fabric.Base.Map.{Map, insert, delete, retain}
use hyperledger_fabric.Pbft.Messages.{Request, PrePrepare, Checkpoint}
use hyperledger_fabric.Pbft.Replica.{
  Env, Replica, MsgCert, MsgId, initiate, add_target, u64, emit, panic,
}
use hyperledger_fabric.Pbft.Ordering.{resubmit_requests}
use Prim.Native.Nat.{ℕ, zero, suc, ◌+◌, ◌-◌}
use Prim.Native.String.{String}
use mathlib.Core.Bool.{Bool, true, ◌&&◌}
use mathlib.Core.Option.{Option, none, some}
use mathlib.Core.List.{List, [], ◌∷◌, map}

abbrev drop_digest : Option PrePrepare → Map String Request → Map String Request
drop_digest none reqs = reqs
drop_digest (some p) reqs = delete p.request_digest reqs

-- The requests of the certificates up to `h` leave the store.
unfoldable pub drop_requests : ℕ → Map MsgId MsgCert → Map String Request → Map String Request
drop_requests h [] reqs = reqs
drop_requests h ((i, c) ∷ rest) reqs =
    drop_requests h rest (if leb i.n h then drop_digest c.pre_prepare reqs else reqs)

-- `moveWatermarks` before `resubmitRequests`.
unfoldable pub clean_log : ℕ → Replica → Replica
clean_log h s = record s {
  req_store = drop_requests h s.cert_store s.req_store;
  cert_store = retain (λ i _. ltb h i.n) s.cert_store;
  checkpoint_store = retain (λ c _. ltb h c.sequence_number) s.checkpoint_store;
  pset = retain (λ n _. ltb h n) s.pset;
  qset = retain (λ i _. ltb h i.n) s.qset;
  chkpts = retain (λ n _. leb h n) s.chkpts;
  h = h;
}

unfoldable pub move_watermarks : Env → ℕ → Replica → Replica
move_watermarks e h s = resubmit_requests e (clean_log h s)

-- `sort.Sort` of a `sortableUint64Slice`, ascending.
unfoldable pub insert_sorted : ℕ → List ℕ → List ℕ
insert_sorted x [] = x ∷ []
insert_sorted x (y ∷ ys) = let rest = insert_sorted x ys in if leb x y then x ∷ y ∷ ys else y ∷ rest

unfoldable pub sort_ascending : List ℕ → List ℕ
unfolding insert_sorted
sort_ascending [] = []
sort_ascending (x ∷ xs) = insert_sorted x (sort_ascending xs)

unfoldable pub elem_or_zero : List ℕ → ℕ → ℕ
elem_or_zero [] i = 0
elem_or_zero (x ∷ xs) zero = x
elem_or_zero (x ∷ xs) (suc i) = elem_or_zero xs i

abbrev pub seq_numbers : Map ℕ ℕ → List ℕ
seq_numbers m = map (λ (x : ℕ × ℕ). x.1) m

-- The (f+1)-th highest of the numbers that were observed.
unfoldable pub weak_mark : ℕ → Map ℕ ℕ → ℕ
weak_mark f m = elem_or_zero (sort_ascending (seq_numbers m)) (length m - (f + 1))

-- `sts.Initiate`.
unfoldable pub sts_initiate : List ℕ → Replica → Replica
sts_initiate peers s = emit (initiate peers) (record s { in_progress = true })

-- The replicas whose observed checkpoint is at `m` or higher.
unfoldable pub furthest_replicas : ℕ → Map ℕ ℕ → List ℕ
furthest_replicas m [] = []
furthest_replicas m ((r, n) ∷ rest) =
    let others = furthest_replicas m rest in if leb m n then r ∷ others else others

-- The array of `f+1` replica handles; one more is an index out of range.
unfoldable pub start_transfer : ℕ → Replica → Replica
start_transfer m s =
    let peers = furthest_replicas m s.h_chkpts in
    if ltb (s.f + 1) (length peers)
    then panic s
    else if s.in_progress
    then s
    else sts_initiate peers s

-- `f+1` replicas are known to be at or past `m`, above the high watermark.
unfoldable pub fall_behind : Env → ℕ → Replica → Replica
fall_behind e m s = start_transfer m (move_watermarks e m (record s { req_store = [] }))

unfoldable pub witness_checkpoint : Env → Checkpoint → Replica → Replica
witness_checkpoint e c s =
    let high = u64 (s.h + s.l) in
    if ltb c.sequence_number high
    then record s { h_chkpts = delete c.replica_id s.h_chkpts }
    else let seen = insert c.replica_id c.sequence_number s.h_chkpts in
      if ltb (length seen) (s.f + 1)
      then record s { h_chkpts = seen }
      else let t = record s { h_chkpts = retain (λ _ n. leb high n) seen } in
        let m = weak_mark s.f seen in if ltb high m then fall_behind e m t else t

abbrev pub same_checkpoint : Checkpoint → Checkpoint → Bool
same_checkpoint c d = d.sequence_number == c.sequence_number && d.block_hash == c.block_hash

unfoldable pub matching_checkpoints : Checkpoint → Map Checkpoint Bool → ℕ
matching_checkpoints c m = count (λ (x : Checkpoint × Bool). same_checkpoint c x.0) m

unfoldable pub checkpoint_members : Checkpoint → Map Checkpoint Bool → List ℕ
checkpoint_members c [] = []
checkpoint_members c ((d, _) ∷ rest) =
    let others = checkpoint_members c rest in
    if same_checkpoint c d then d.replica_id ∷ others else others

-- The array of `replicaCount` handles; one more is an index out of range.
unfoldable pub witness_checkpoint_weak_cert : Env → Checkpoint → Replica → Replica
witness_checkpoint_weak_cert e c s =
    let members = checkpoint_members c s.checkpoint_store in
    if ltb s.replica_count (length members) then panic s else elim (e.decode_base64 c.block_hash) [
      | none ↦ s
      | some hash ↦ emit (add_target c.block_number hash members c.sequence_number) s
    ]
