-- ===== src/Pbft/Ordering/Rules.antt =====
-- An induction rule for the handlers of the normal case: a predicate that each elementary write
-- keeps, under the tests that the code has made by then, is kept by the handlers.
use hyperledger_fabric.Base.{
  ◌==◌, nat_key, string_key, if◌then◌else◌, Option-cases, any, is_some, if_cases, &&-left,
}
use hyperledger_fabric.Base.Map.{insert-insert, lookup-insert_self}
use hyperledger_fabric.Pbft.Messages.{Prepare, Commit, Message}
use hyperledger_fabric.Pbft.Replica.{
  Effect, Env, MsgCert, Outcome, Replica, msg_id_key, unicast, broadcast, emit, panic,
}
use hyperledger_fabric.Pbft.Quorum.{
  primary, in_w, in_wv, msg_id, get_cert, cert_at, put_cert, prepared,
}
use hyperledger_fabric.Pbft.Quorum.Votes.{has_id}
use hyperledger_fabric.Pbft.Ordering.{
  unicast_all_but, send_to_others, inner_broadcast, recv_commit, maybe_send_commit, recv_prepare,
}
use Prim.Native.Nat.{ℕ, zero, suc, ◌+◌, ◌%◌}
use Prim.Native.String.{String}
use mathlib.Core.Path.{◌≡◌, refl, sym, ap, subst, ◌∙◌}
use mathlib.Core.Logic.{inl, inr}
use mathlib.Core.Bool.{true, false, not, ◌&&◌}
use mathlib.Core.Option.{Option, none, some}
use mathlib.Core.List.{[], ◌∷◌, ◌++◌}
use native.Mathlib.Omega.{arith}

pub cert_at-put_cert : (s : Replica) (v n : ℕ) {c : MsgCert} → cert_at (put_cert s v n c) v n ≡ c
unfolding cert_at put_cert
cert_at-put_cert s v n {c} = rw (lookup-insert_self c s.cert_store (msg_id v n), cert_at)

pub cert_at-get_cert : (s : Replica) (v n : ℕ) → cert_at (get_cert s v n) v n ≡ cert_at s v n
unfolding get_cert
cert_at-get_cert s v n = cert_at-put_cert s v n

pub put_cert-get_cert :
    (s : Replica) (v n : ℕ) (c : MsgCert) → put_cert (get_cert s v n) v n c ≡ put_cert s v n c
unfolding get_cert put_cert cert_at
put_cert-get_cert s v n c =
    ap (λ m. record s { cert_store = m })
      (insert-insert (msg_id v n) c (cert_at s v n) s.cert_store)

pub in_wv-get_cert : (s : Replica) (v n v' n' : ℕ) → in_wv (get_cert s v n) v' n' ≡ in_wv s v' n'
unfolding in_wv in_w get_cert
in_wv-get_cert s v n v' n' = refl

pub in_wv-put_cert :
    (s : Replica) (v n v' n' : ℕ) (c : MsgCert) → in_wv (put_cert s v n c) v' n' ≡ in_wv s v' n'
unfolding in_wv in_w put_cert
in_wv-put_cert s v n v' n' c = refl

-- Effects that send a message.
abbrev pub IsSending : Effect → Type 0
IsSending (broadcast m) = Unit {0}
IsSending (unicast m to) = Unit {0}
IsSending x = ⊥

-- The writes of `recvPrepare`, `maybeSendCommit` and `recvCommit`.
pub record Rules (P : Replica → Type 0) : Type 0 where
  pub emits : (x : Effect) (s : Replica) → IsSending x → P s → P (emit x s)
  pub opens : (s : Replica) (v n : ℕ) → in_wv s v n ≡ true → P s → P (get_cert s v n)
  pub prepares :
      (p : Prepare) (s : Replica)
      → (primary s s.view == p.replica_id) ≡ false
      → in_wv s p.view p.sequence_number ≡ true
      → has_id
          (λ (q : Prepare). q.replica_id)
          p.replica_id
          (cert_at s p.view p.sequence_number).prepare
        ≡ false
      → P s
      → P (
          put_cert s p.view p.sequence_number (record (cert_at s p.view p.sequence_number) {
            prepare = (cert_at s p.view p.sequence_number).prepare ++ p ∷ [];
          }))
  pub commits :
      (c : Commit) (s : Replica)
      → in_wv s c.view c.sequence_number ≡ true
      → has_id
          (λ (d : Commit). d.replica_id)
          c.replica_id
          (cert_at s c.view c.sequence_number).commit
        ≡ false
      → P s
      → P
          (record (put_cert s c.view c.sequence_number
            (record (cert_at s c.view c.sequence_number) {
              commit = (cert_at s c.view c.sequence_number).commit ++ c ∷ [];
            })) { notify_commit = true })
  pub marks_commit :
      (s : Replica) (v n : ℕ)
      → in_wv s v n ≡ true
      → P s
      → P (put_cert s v n (record (cert_at s v n) { sent_commit = true }))
  pub halts :
      (s : Replica) (digest : String) (v n : ℕ)
      → in_wv s v n ≡ true
      → prepared s digest v n ≡ true
      → (cert_at s v n).pre_prepare ≡ none
      → P s
      → P (panic s)

is_none {ℓ} : {A : Type ℓ} (o : Option A) → is_some o ≡ false → o ≡ none
is_none none h = refl
is_none (some a) h = cc

-- Sending alone.
module _ {P : Replica → Type 0}
    (emits : (x : Effect) (s : Replica) → IsSending x → P s → P (emit x s)) where
  unicast_all_but-kept :
      (left start ignored : ℕ) (m : Message) (s : Replica)
      → P s
      → P (unicast_all_but left start ignored m s)
  unfolding unicast_all_but
  unicast_all_but-kept zero start ignored m s h = h
  unicast_all_but-kept (suc left) start ignored m s h =
      unicast_all_but-kept left (start + 1) ignored m _
        (elim (not (start == ignored) && not (start == s.id))
          as (λ b. P (if b then emit (unicast m start) s else s)) [
            | true ↦ emits (unicast m start) s tt h
            | false ↦ h
          ])

  send_to_others-kept : (e : Env) (m : Message) (s : Replica) → P s → P (send_to_others e m s)
  unfolding send_to_others
  send_to_others-kept e m s h =
      if_cases P (s.byzantine && e.byzantine_draw s.effects % 3 == 1) _ _
        (λ _. unicast_all_but-kept s.n 0 (e.ignored_replica s.effects % s.n) m s h)
        (λ _. emits (broadcast m) s tt h)

  pub inner_broadcast-kept :
      (e : Env) (m : Message) (self : Replica → Replica) (s : Replica)
      → ((t : Replica) → P t → P (self t))
      → P s
      → P (inner_broadcast e m self s).0
  unfolding inner_broadcast
  inner_broadcast-kept e m self s keep h = elim (Option-cases (e.marshal m)) [
    | inl sent ↦ rw (sent, inner_broadcast) (keep _ (send_to_others-kept e m s h))
    | inr (x, failed) ↦ rw (failed, inner_broadcast) h
  ]

module _ {P : Replica → Type 0} (rules : Rules P) where
  abbrev Q : Outcome → Type 0
  Q o = P o.0

  pub recv_commit-kept : (c : Commit) (s : Replica) → P s → P (recv_commit c s).0
  unfolding recv_commit
  recv_commit-kept c s h =
      let t = get_cert s c.view c.sequence_number in
      let cert = cert_at s c.view c.sequence_number in
      if_cases Q (not (in_wv s c.view c.sequence_number)) _ _ (λ _. h)
        λ inside.
          if_cases Q (any (λ prev. prev.replica_id == c.replica_id) cert.commit) _ _
            (λ _. rules.opens s c.view c.sequence_number (ground arith) h)
            λ new.
              subst P
                (ap (λ (u : Replica). record u { notify_commit = true })
                  (sym (
                    put_cert-get_cert s c.view c.sequence_number
                      (record cert { commit = cert.commit ++ c ∷ [] }))))
                (rules.commits c s (ground arith) new h)

  pub maybe_send_commit-kept :
      (e : Env) (digest : String) (v n : ℕ) (s : Replica)
      → in_wv s v n ≡ true
      → P s
      → P (maybe_send_commit e digest v n s).0
  unfolding maybe_send_commit
  maybe_send_commit-kept e digest v n s inside h =
      let t = get_cert s v n in
      let cert = cert_at s v n in
      let inside' : in_wv t v n ≡ true = in_wv-get_cert s v n v n ∙ inside in
      let opened = rules.opens s v n inside h in
      if_cases Q (prepared t digest v n && not cert.sent_commit) _ _
        (λ sends.
          if_cases Q (is_some cert.pre_prepare) _ _
            (λ _.
              inner_broadcast-kept rules.emits e _ _ _ (λ u. recv_commit-kept _ u)
                (subst P (sym (put_cert-get_cert s v n (record cert { sent_commit = true })))
                  (rules.marks_commit s v n inside h)))
            λ missing.
              rules.halts t digest v n inside' (&&-left _ _ sends)
                (ap (λ (c : MsgCert). c.pre_prepare) (cert_at-get_cert s v n)
                  ∙ is_none cert.pre_prepare missing)
                opened)
        (λ _. opened)

  pub recv_prepare-kept : (e : Env) (p : Prepare) (s : Replica) → P s → P (recv_prepare e p s).0
  unfolding recv_prepare
  recv_prepare-kept e p s h =
      let t = get_cert s p.view p.sequence_number in
      let cert = cert_at s p.view p.sequence_number in
      let c = record cert { prepare = cert.prepare ++ p ∷ [] } in
      if_cases Q (not (not (primary s s.view == p.replica_id) && in_wv s p.view p.sequence_number))
        _ _ (λ _. h)
        λ passes.
          if_cases Q (any (λ prev. prev.replica_id == p.replica_id) cert.prepare) _ _
            (λ _. rules.opens s p.view p.sequence_number (ground arith) h)
            λ new.
              subst (λ u. Q (maybe_send_commit e p.request_digest p.view p.sequence_number u))
                (sym (put_cert-get_cert s p.view p.sequence_number c))
                (maybe_send_commit-kept e p.request_digest p.view p.sequence_number _
                  (in_wv-put_cert s p.view p.sequence_number p.view p.sequence_number c
                    ∙ ground arith)
                  (rules.prepares p s (ground arith) (ground arith) new h))
