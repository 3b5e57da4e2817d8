-- ===== src/Pbft/Agreement.antt =====
-- Agreement in one view: two replicas do not prepare different requests for one sequence number.
use hyperledger_fabric.Base.{◌==◌, nat_key, string_key, if◌then◌else◌, count, All}
use hyperledger_fabric.Base.Map.{lookup}
use hyperledger_fabric.Pbft.Messages.{Prepare}
use hyperledger_fabric.Pbft.Replica.{Replica, MsgCert, Qidx, msg_id_key, qidx_key}
use hyperledger_fabric.Pbft.Quorum.{
  primary, msg_id, intersection_quorum, q_matches, p_matches, cert_pre_prepare, pre_prepare_matches,
  prepare_matches, prepare_quorum, pre_prepared, prepared,
}
use hyperledger_fabric.Pbft.Quorum.Intersection.{members, quorums_share_correct}
use hyperledger_fabric.Pbft.Quorum.Votes.{
  has_id, DistinctIds, votes, members-add, votes-has_id, count-le-members,
}
use Prim.Native.Nat.{ℕ, ◌+◌, ◌%◌, ◌≤◌, ◌<◌}
use Prim.Native.String.{String}
use mathlib.Core.Path.{ap, ◌∙◌, ◌≡◌}
use mathlib.Core.Bool.{Bool, true, false, ◌&&◌}
use mathlib.Core.Option.{Option, none, some}
use mathlib.Core.List.{List}
use native.Mathlib.Omega.{arith}

abbrev pub prepares_of : Option MsgCert → List Prepare
prepares_of none = mathlib.Core.List.[]
prepares_of (some c) = c.prepare

-- Whether a replica stands behind a digest at a view and number, as far as `s` has seen: the primary
-- by its pre-prepare, a backup by a prepare.
abbrev pub stands_behind : Replica → String → ℕ → ℕ → ℕ → Bool
stands_behind s digest v n i =
    let c = lookup (msg_id v n) s.cert_store in
    if pre_prepare_matches (cert_pre_prepare c) digest v n && primary s v == i
    then true
    else votes (λ (p : Prepare). p.replica_id) (prepare_matches digest v n) (prepares_of c) i

-- What holds of the certificate for a view and number, and of the P and Q sets, while the view is
-- the first one or the current one: the prepares are by distinct backups, and the two sets speak of
-- other views.
pub record IsCurrent (s : Replica) (v n : ℕ) : Type 0 where
  pub distinct :
      DistinctIds (λ (p : Prepare). p.replica_id) (prepares_of (lookup (msg_id v n) s.cert_store))
  pub by_replicas :
      All (λ (p : Prepare). p.replica_id < s.n) (prepares_of (lookup (msg_id v n) s.cert_store))
  pub by_backups :
      has_id
        (λ (p : Prepare). p.replica_id)
        (primary s v)
        (prepares_of (lookup (msg_id v n) s.cert_store))
      ≡ false
  pub primary_known : primary s v < s.n
  pub no_p : (d : String) → p_matches (lookup n s.pset) d v ≡ false
  pub no_q :
      (d : String)
      → q_matches (lookup (let i : Qidx = record { d = d; n = n } in i) s.qset) v ≡ false

prepared-parts :
    (s : Replica) (d : String) (v n : ℕ)
    → prepared s d v n ≡ true
    → p_matches (lookup n s.pset) d v ≡ false
    → q_matches (lookup (let i : Qidx = record { d = d; n = n } in i) s.qset) v ≡ false
    → (pre_prepare_matches (cert_pre_prepare (lookup (msg_id v n) s.cert_store)) d v n ≡ true)
      × (prepare_quorum s (lookup (msg_id v n) s.cert_store) d v n ≡ true)
unfolding prepared pre_prepared
prepared-parts s d v n h hp hq = ground arith

prepare_quorum-count :
    (s : Replica) (c : Option MsgCert) (d : String) (v n : ℕ)
    → prepare_quorum s c d v n ≡ true
    → intersection_quorum s ≤ count (prepare_matches d v n) (prepares_of c) + 1
prepare_quorum-count s c d v n h = ground arith

-- The primary counts once more than the backups.
behind-split :
    (s : Replica) (d : String) (v n : ℕ)
    → pre_prepare_matches (cert_pre_prepare (lookup (msg_id v n) s.cert_store)) d v n ≡ true
    → IsCurrent s v n
    → members s.n (stands_behind s d v n)
      ≡ 1
        + members s.n (
            votes
              (λ (p : Prepare). p.replica_id)
              (prepare_matches d v n)
              (prepares_of (lookup (msg_id v n) s.cert_store)))
behind-split s d v n pre ok =
    let c = lookup (msg_id v n) s.cert_store in
    let id = λ (p : Prepare). p.replica_id in
    let test = prepare_matches d v n in
    let b = pre_prepare_matches (cert_pre_prepare c) d v n in
    members-add s.n (primary s v) b (votes id test (prepares_of c))
      (votes-has_id id test (primary s v) (prepares_of c) ok.by_backups) ok.primary_known
    ∙ ap (λ (x : Bool). (if x then 1 else 0) + members s.n (votes id test (prepares_of c))) pre

-- A prepared request has a quorum of replicas behind it.
pub quorum_behind :
    (s : Replica) (d : String) (v n : ℕ)
    → IsCurrent s v n
    → prepared s d v n ≡ true
    → intersection_quorum s ≤ members s.n (stands_behind s d v n)
quorum_behind s d v n ok h =
    let c = lookup (msg_id v n) s.cert_store in
    let id = λ (p : Prepare). p.replica_id in
    let (pre, count_ok) = prepared-parts s d v n h (ok.no_p d) (ok.no_q d) in
    omega (
      arith,
      prepare_quorum-count s c d v n count_ok,
      count-le-members id s.n (prepare_matches d v n) (prepares_of c) ok.distinct ok.by_replicas,
      behind-split s d v n pre ok,
    )

same_quorum :
    (s t : Replica) (p : ℕ → Bool)
    → t.n ≡ s.n
    → t.f ≡ s.f
    → intersection_quorum t ≤ members t.n p
    → intersection_quorum s ≤ members s.n p
unfolding intersection_quorum
same_quorum s t p same_n same_f h = rw (← same_n, ← same_f) h

-- If two replicas of a group with an odd `N + f` have prepared two digests for one view and sequence
-- number, the digests are the same: provided that at most `f` replicas are faulty, that no other
-- replica is seen to stand behind two digests for that view and number, and that both replicas'
-- certificates are well formed and their P and Q sets speak of other views.
pub prepared-agree :
    (s t : Replica) (d d' : String) (v n : ℕ) (faulty : ℕ → Bool)
    → IsCurrent s v n
    → IsCurrent t v n
    → t.n ≡ s.n
    → t.f ≡ s.f
    → (s.n + s.f) % 2 ≡ 1
    → members s.n faulty ≤ s.f
    → ((i : ℕ)
        → faulty i ≡ false
        → stands_behind s d v n i ≡ true
        → stands_behind t d' v n i ≡ true
        → d ≡ d')
    → prepared s d v n ≡ true
    → prepared t d' v n ≡ true
    → d ≡ d'
prepared-agree s t d d' v n faulty sok tok same_n same_f odd few honest hs ht =
    let (i, known, both, correct) =
      quorums_share_correct s (stands_behind s d v n) (stands_behind t d' v n) faulty odd
        (quorum_behind s d v n sok hs)
        (same_quorum s t (stands_behind t d' v n) same_n same_f (quorum_behind t d' v n tok ht))
        few in
    honest i correct both.0 both.1
