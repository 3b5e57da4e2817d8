-- ===== src/Pbft/Quorum.antt =====
-- The helpers and the quorum checks of pbft-core.go: primary, watermarks, and the predicates
-- pre-prepared, prepared and committed.
pub mod Window
pub mod Intersection
pub mod Votes
use hyperledger_fabric.Base.{◌==◌, nat_key, string_key, ltb, leb, if◌then◌else◌, count}
use hyperledger_fabric.Base.Map.{lookup, insert, member}
use hyperledger_fabric.Pbft.Messages.{PrePrepare, Prepare, Commit, ViewChangePq}
use hyperledger_fabric.Pbft.Replica.{MsgCert, MsgId, Replica, msg_id_key, qidx_key, u64, empty_cert}
use Prim.Native.Nat.{ℕ, ◌+◌, ◌-◌, ◌/◌, ◌%◌}
use Prim.Native.String.{String}
use mathlib.Core.Bool.{Bool, true, false, not, ◌&&◌}
use mathlib.Core.Option.{Option, none, some}

-- The primary that is expected in a view. `replicaCount` is not 0.
unfoldable pub primary : Replica → ℕ → ℕ
primary s v = v % s.replica_count

-- `n - instance.h` wraps below the low watermark.
unfoldable pub in_w : Replica → ℕ → Bool
in_w s n = let above = u64 (n + 18446744073709551616 - s.h) in ltb 0 above && leb above s.l

unfoldable pub in_wv : Replica → ℕ → ℕ → Bool
in_wv s v n = s.view == v && in_w s n

abbrev pub msg_id : ℕ → ℕ → MsgId
msg_id v n = record { v = v; n = n }

-- The certificate of an index; a new one is empty.
unfoldable pub cert_at : Replica → ℕ → ℕ → MsgCert
cert_at s v n = elim (lookup (msg_id v n) s.cert_store) [ none ↦ empty_cert | some c ↦ c ]

-- A write through the pointer that `getCert` returns, which is in the store from then on.
unfoldable pub put_cert : Replica → ℕ → ℕ → MsgCert → Replica
put_cert s v n c = record s { cert_store = insert (msg_id v n) c s.cert_store }

-- `getCert` itself: the store with the entry created if it was missing.
unfoldable pub get_cert : Replica → ℕ → ℕ → Replica
unfolding put_cert cert_at
get_cert s v n = put_cert s v n (cert_at s v n)

unfoldable pub intersection_quorum : Replica → ℕ
intersection_quorum s = (s.n + s.f + 1) / 2

unfoldable pub all_correct_replicas_quorum : Replica → ℕ
all_correct_replicas_quorum s = (s.n + s.f + 1) / 2

abbrev pub q_matches : Option ViewChangePq → ℕ → Bool
q_matches none v = false
q_matches (some q) v = q.view == v

abbrev pub pre_prepare_matches : Option PrePrepare → String → ℕ → ℕ → Bool
pre_prepare_matches none digest v n = false
pre_prepare_matches (some p) digest v n =
    p.view == v && (p.sequence_number == n && p.request_digest == digest)

abbrev pub cert_pre_prepare : Option MsgCert → Option PrePrepare
cert_pre_prepare none = none
cert_pre_prepare (some c) = c.pre_prepare

unfoldable pub pre_prepared : Replica → String → ℕ → ℕ → Bool
pre_prepared s digest v n =
    if not (digest == "") && not (member digest s.req_store)
    then false
    else if q_matches (lookup (record { d = digest; n = n }) s.qset) v
    then true
    else pre_prepare_matches (cert_pre_prepare (lookup (msg_id v n) s.cert_store)) digest v n

abbrev pub prepare_matches : String → ℕ → ℕ → Prepare → Bool
prepare_matches digest v n p = p.view == v && (p.sequence_number == n && p.request_digest == digest)

-- The test on a commit leaves its digest out.
abbrev pub commit_matches : ℕ → ℕ → Commit → Bool
commit_matches v n p = p.view == v && p.sequence_number == n

abbrev pub p_matches : Option ViewChangePq → String → ℕ → Bool
p_matches none digest v = false
p_matches (some p) digest v = p.view == v && p.digest == digest

-- `quorum >= intersectionQuorum()-1`, with both sides moved up by one.
abbrev pub prepare_quorum : Replica → Option MsgCert → String → ℕ → ℕ → Bool
prepare_quorum s none digest v n = false
prepare_quorum s (some c) digest v n =
    leb (intersection_quorum s) (count (prepare_matches digest v n) c.prepare + 1)

unfoldable pub prepared : Replica → String → ℕ → ℕ → Bool
prepared s digest v n =
    if not (pre_prepared s digest v n)
    then false
    else if p_matches (lookup n s.pset) digest v
    then true
    else prepare_quorum s (lookup (msg_id v n) s.cert_store) digest v n

abbrev pub commit_quorum : Replica → Option MsgCert → ℕ → ℕ → Bool
commit_quorum s none v n = false
commit_quorum s (some c) v n = leb (intersection_quorum s) (count (commit_matches v n) c.commit)

unfoldable pub committed : Replica → String → ℕ → ℕ → Bool
committed s digest v n =
    if not (prepared s digest v n)
    then false
    else commit_quorum s (lookup (msg_id v n) s.cert_store) v n
