-- ===== src/Pbft/Ordering/Certs.antt =====
-- Well-formed certificates: what `recvPrepare`, `recvCommit` and `recvPrePrepare` let in.
use hyperledger_fabric.Base.{◌==◌, nat_key, string_key, Option-cases, All, All-append}
use hyperledger_fabric.Base.Map.{lookup, Entries, Entries-insert, Entries-lookup}
use hyperledger_fabric.Pbft.Messages.{PrePrepare, Prepare, Commit}
use hyperledger_fabric.Pbft.Replica.{
  Env, MsgCert, MsgId, Replica, msg_id_key, emit, panic, empty_cert,
}
use hyperledger_fabric.Pbft.Quorum.{primary, in_wv, msg_id, get_cert, cert_at, put_cert}
use hyperledger_fabric.Pbft.Quorum.Window.{in_wv-view}
use hyperledger_fabric.Pbft.Quorum.Votes.{has_id, DistinctIds, DistinctIds-append, has_id-append}
use hyperledger_fabric.Pbft.Timer.{start_timer}
use hyperledger_fabric.Pbft.Ordering.Rules.{Rules}
use hyperledger_fabric.Pbft.Ordering.PrimaryRules.{PrimaryRules}
use Prim.Native.Nat.{ℕ, ◌%◌}
use mathlib.Core.Path.{◌≡◌, refl}
use mathlib.Core.Logic.{inl, inr}
use mathlib.Core.Bool.{Bool, true, false}
use mathlib.Core.Option.{Option, none, some}
use mathlib.Core.List.{[], ◌∷◌, ◌++◌}
use native.Mathlib.Omega.{arith}

abbrev pub PreparedHere : MsgId → Prepare → Type 0
PreparedHere i p = (p.view ≡ i.v) × (p.sequence_number ≡ i.n)

abbrev pub CommittedHere : MsgId → Commit → Type 0
CommittedHere i c = (c.view ≡ i.v) × (c.sequence_number ≡ i.n)

abbrev pub PrePreparedHere : MsgId → Option PrePrepare → Type 0
PrePreparedHere i none = Unit {0}
PrePreparedHere i (some p) = (p.view ≡ i.v) × (p.sequence_number ≡ i.n)

-- A certificate holds messages of its own view and number only, at most one prepare and one commit
-- of each replica, and no prepare of the view's primary.
pub record IsCertificate (leader : ℕ) (i : MsgId) (c : MsgCert) : Type 0 where
  pub pre_prepared_here : PrePreparedHere i c.pre_prepare
  pub prepared_here : All (PreparedHere i) c.prepare
  pub one_prepare_each : DistinctIds (λ (p : Prepare). p.replica_id) c.prepare
  pub no_prepare_by_leader : has_id (λ (p : Prepare). p.replica_id) leader c.prepare ≡ false
  pub committed_here : All (CommittedHere i) c.commit
  pub one_commit_each : DistinctIds (λ (d : Commit). d.replica_id) c.commit

-- Every certificate of the store is well formed.
abbrev pub HasCertificates : Replica → Type 0
HasCertificates s =
    Entries (λ (i : MsgId) (c : MsgCert). IsCertificate (i.v % s.replica_count) i c) s.cert_store

empty_cert-IsCertificate : (leader : ℕ) (i : MsgId) → IsCertificate leader i empty_cert
empty_cert-IsCertificate leader i = record {
  pre_prepared_here = tt;
  prepared_here = tt;
  one_prepare_each = tt;
  no_prepare_by_leader = refl;
  committed_here = tt;
  one_commit_each = tt;
}

cert_at-IsCertificate :
    (s : Replica) (v n : ℕ)
    → HasCertificates s
    → IsCertificate (v % s.replica_count) (msg_id v n) (cert_at s v n)
unfolding cert_at
cert_at-IsCertificate s v n h = elim (Option-cases (lookup (msg_id v n) s.cert_store)) [
  | inl missing ↦ rw (missing, cert_at) (empty_cert-IsCertificate _ _)
  | inr (c, found) ↦ rw (found, cert_at) (Entries-lookup _ (msg_id v n) c s.cert_store h found)
]

put_cert-HasCertificates :
    (s : Replica) (v n : ℕ) (c : MsgCert)
    → IsCertificate (v % s.replica_count) (msg_id v n) c
    → HasCertificates s
    → HasCertificates (put_cert s v n c)
unfolding put_cert
put_cert-HasCertificates s v n c ok h = Entries-insert _ (msg_id v n) c s.cert_store ok h

get_cert-HasCertificates :
    (s : Replica) (v n : ℕ) → HasCertificates s → HasCertificates (get_cert s v n)
unfolding get_cert
get_cert-HasCertificates s v n h =
    put_cert-HasCertificates s v n _ (cert_at-IsCertificate s v n h) h

add_prepare :
    (leader : ℕ) (i : MsgId) (c : MsgCert) (p : Prepare)
    → PreparedHere i p
    → has_id (λ (q : Prepare). q.replica_id) p.replica_id c.prepare ≡ false
    → (p.replica_id == leader) ≡ false
    → IsCertificate leader i c
    → IsCertificate leader i (record c { prepare = c.prepare ++ p ∷ [] })
add_prepare leader i c p here new backup ok = record {
  pre_prepared_here = ok.pre_prepared_here;
  prepared_here = All-append (PreparedHere i) c.prepare (p ∷ []) ok.prepared_here (here, tt);
  one_prepare_each = DistinctIds-append _ c.prepare p new ok.one_prepare_each;
  no_prepare_by_leader = has_id-append _ leader c.prepare p ok.no_prepare_by_leader backup;
  committed_here = ok.committed_here;
  one_commit_each = ok.one_commit_each;
}

add_commit :
    (leader : ℕ) (i : MsgId) (c : MsgCert) (d : Commit)
    → CommittedHere i d
    → has_id (λ (q : Commit). q.replica_id) d.replica_id c.commit ≡ false
    → IsCertificate leader i c
    → IsCertificate leader i (record c { commit = c.commit ++ d ∷ [] })
add_commit leader i c d here new ok = record {
  pre_prepared_here = ok.pre_prepared_here;
  prepared_here = ok.prepared_here;
  one_prepare_each = ok.one_prepare_each;
  no_prepare_by_leader = ok.no_prepare_by_leader;
  committed_here = All-append (CommittedHere i) c.commit (d ∷ []) ok.committed_here (here, tt);
  one_commit_each = DistinctIds-append _ c.commit d new ok.one_commit_each;
}

mark :
    (leader : ℕ) (i : MsgId) (c : MsgCert) (a b : Bool) (o : Option PrePrepare)
    → PrePreparedHere i o
    → IsCertificate leader i c
    → IsCertificate leader i (record c { sent_prepare = a; sent_commit = b; pre_prepare = o })
mark leader i c a b o here ok = record {
  pre_prepared_here = here;
  prepared_here = ok.prepared_here;
  one_prepare_each = ok.one_prepare_each;
  no_prepare_by_leader = ok.no_prepare_by_leader;
  committed_here = ok.committed_here;
  one_commit_each = ok.one_commit_each;
}

-- A backup of the current view, at a message of that view.
not_leader :
    (s : Replica) (v n id : ℕ)
    → in_wv s v n ≡ true
    → (primary s s.view == id) ≡ false
    → (id == v % s.replica_count) ≡ false
unfolding primary
not_leader s v n id inside backup = rw (← in_wv-view s v n inside) (ground arith)

certificate_rules : Rules HasCertificates
unfolding emit panic
certificate_rules = record {
  emits = λ x s _ h. h;
  opens = λ s v n _ h. get_cert-HasCertificates s v n h;
  prepares = λ p s backup inside new h.
      put_cert-HasCertificates s p.view p.sequence_number _
        (add_prepare _ (msg_id p.view p.sequence_number) _ p (refl, refl) new
          (not_leader s p.view p.sequence_number p.replica_id inside backup)
          (cert_at-IsCertificate s p.view p.sequence_number h))
        h;
  commits = λ c s inside new h.
      put_cert-HasCertificates s c.view c.sequence_number _
        (add_commit _ (msg_id c.view c.sequence_number) _ c (refl, refl) new
          (cert_at-IsCertificate s c.view c.sequence_number h))
        h;
  marks_commit = λ s v n _ h.
      let ok = cert_at-IsCertificate s v n h in
      put_cert-HasCertificates s v n _ (mark _ _ _ _ _ _ ok.pre_prepared_here ok) h;
  halts = λ s digest v n _ _ _ h. h;
}

-- Handling requests, pre-prepares, prepares and commits keeps the certificates well formed.
pub certificate_primary_rules : (e : Env) → PrimaryRules e HasCertificates
unfolding emit panic start_timer
certificate_primary_rules e = record {
  base = certificate_rules;
  pre_prepares = λ p s _ _ h.
      put_cert-HasCertificates s p.view p.sequence_number _
        (mark _ _ _ _ _ _ (refl, refl) (cert_at-IsCertificate s p.view p.sequence_number h)) h;
  marks_prepare = λ s v n _ h.
      let ok = cert_at-IsCertificate s v n h in
      put_cert-HasCertificates s v n _ (mark _ _ _ _ _ _ ok.pre_prepared_here ok) h;
  stores = λ r d s _ h. h;
  starts_timer = λ timeout s h. h;
  numbers = λ n s h. h;
  nil_request = λ p s _ _ _ h. h;
}
