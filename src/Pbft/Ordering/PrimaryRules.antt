-- ===== src/Pbft/Ordering/PrimaryRules.antt =====
-- The induction rule of `Rules` for pre-prepares and requests.
use hyperledger_fabric.Base.{
  ◌==◌, nat_key, string_key, if◌then◌else◌, Option-cases, any, if_cases, &&-left, nat_beq_iff,
}
use hyperledger_fabric.Base.Map.{Map, insert, member}
use hyperledger_fabric.Pbft.Messages.{Request, PrePrepare, pre_prepare_message}
use hyperledger_fabric.Pbft.Replica.{
  Effect, Env, MsgCert, MsgId, Outcome, Replica, u64, emit, panic, hash_req,
}
use hyperledger_fabric.Pbft.Quorum.{primary, in_w, in_wv, get_cert, cert_at, put_cert, pre_prepared}
use hyperledger_fabric.Pbft.Timer.{start_timer}
use hyperledger_fabric.Pbft.Ordering.{
  Stored, returns, continues, not_to_self, store_pre_prepare, store_request, admit_request,
  send_prepare, recv_pre_prepare, have_other, assign_request, recv_request, has_digest,
  resubmit_loop, resubmit_requests, other_digest, after_stored, accept_request,
}
use hyperledger_fabric.Pbft.Ordering.Rules.{
  Rules, in_wv-put_cert, put_cert-get_cert, inner_broadcast-kept, recv_prepare-kept,
  maybe_send_commit-kept, cert_at-get_cert,
}
use Prim.Native.Nat.{ℕ, ◌+◌}
use Prim.Native.String.{String}
use mathlib.Core.Path.{◌≡◌, refl, sym, ap, subst, ◌∙◌}
use mathlib.Core.Logic.{inl, inr}
use mathlib.Core.Bool.{true, not, ◌&&◌}
use mathlib.Core.Option.{Option, none, some}
use mathlib.Core.List.{[], ◌∷◌}
use native.Mathlib.Omega.{arith}
use text.Mathlib.TextEquality.{eq_iff}

-- The writes of `recvPrePrepare` and `recvRequest`.
pub record PrimaryRules (e : Env) (P : Replica → Type 0) : Type 0 where
  pub base : Rules P
  pub pre_prepares :
      (p : PrePrepare) (s : Replica)
      → primary s s.view ≡ p.replica_id
      → in_wv s p.view p.sequence_number ≡ true
      → P s
      → P (
          put_cert s p.view p.sequence_number
            (record (cert_at s p.view p.sequence_number) { pre_prepare = some p }))
  pub marks_prepare :
      (s : Replica) (v n : ℕ)
      → in_wv s v n ≡ true
      → P s
      → P (put_cert s v n (record (cert_at s v n) { sent_prepare = true }))
  pub stores :
      (r : Request) (d : String) (s : Replica)
      → hash_req e (some r) ≡ d
      → P s
      → P (record s {
        req_store = insert d r s.req_store;
        outstanding_reqs = insert d r s.outstanding_reqs;
      })
  pub starts_timer : (timeout : ℕ) (s : Replica) → P s → P (start_timer s timeout)
  pub numbers : (n : ℕ) (s : Replica) → P s → P (record s { seq_no = n })
  pub nil_request :
      (p : PrePrepare) (s : Replica)
      → p.request ≡ none
      → hash_req e none ≡ p.request_digest
      → primary s s.view ≡ p.replica_id
      → P s
      → P (panic s)

-- What a stored or refused request leaves, on both ways on.
abbrev AllStored : (Outcome → Type 0) → (Replica → Type 0) → Stored → Type 0
AllStored Q R (returns o) = Q o
AllStored Q R (continues t) = R t

in_wv-start_timer :
    (s : Replica) (timeout v n : ℕ) → in_wv (start_timer s timeout) v n ≡ in_wv s v n
unfolding in_wv in_w start_timer
in_wv-start_timer s timeout v n = refl

in_wv-emit : (x : Effect) (s : Replica) (v n : ℕ) → in_wv (emit x s) v n ≡ in_wv s v n
unfolding in_wv in_w emit
in_wv-emit x s v n = refl

in_wv-numbered : (s : Replica) (k v n : ℕ) → in_wv (record s { seq_no = k }) v n ≡ in_wv s v n
unfolding in_wv in_w
in_wv-numbered s k v n = refl

-- The primary writes its own pre-prepare through the certificate that it has just opened.
put_own :
    (s : Replica) (v n : ℕ) (p : PrePrepare)
    → put_cert (get_cert s v n) v n (record (cert_at (get_cert s v n) v n) { pre_prepare = some p })
      ≡ put_cert s v n (record (cert_at s v n) { pre_prepare = some p })
put_own s v n p =
    put_cert-get_cert s v n _
    ∙ ap (λ (c : MsgCert). put_cert s v n (record c { pre_prepare = some p }))
        (cert_at-get_cert s v n)

module _ {e : Env} {P : Replica → Type 0} (rules : PrimaryRules e P) where
  abbrev Q : Outcome → Type 0
  Q o = P o.0

  abbrev Ready : PrePrepare → Replica → Type 0
  Ready p t = P t × (in_wv t p.view p.sequence_number ≡ true)

  store_pre_prepare-kept :
      (p : PrePrepare) (s : Replica)
      → primary s s.view ≡ p.replica_id
      → Ready p s
      → Ready p (store_pre_prepare p s)
        × (primary (store_pre_prepare p s) s.view ≡ p.replica_id)
        × ((store_pre_prepare p s).view ≡ s.view)
  unfolding store_pre_prepare primary get_cert put_cert in_wv in_w
  store_pre_prepare-kept p s by_primary (h, inside) =
      let cert = cert_at s p.view p.sequence_number in
      let c = record cert { pre_prepare = some p } in
      (
        if_cases (Ready p) (other_digest cert.pre_prepare p.request_digest) _ _
            (λ _. (rules.base.opens s p.view p.sequence_number inside h, inside))
            (λ _. (
              subst P (sym (put_cert-get_cert s p.view p.sequence_number c))
                  (rules.pre_prepares p s by_primary inside h),
              inside,
            )),
        if_cases (λ (t : Replica). primary t s.view ≡ p.replica_id)
            (other_digest cert.pre_prepare p.request_digest) _ _ (λ _. by_primary)
            (λ _. by_primary),
        if_cases (λ (t : Replica). t.view ≡ s.view) (other_digest cert.pre_prepare p.request_digest)
            _ _ (λ _. refl) (λ _. refl),
      )

  admit_request-kept :
      (p : PrePrepare) (r : Option Request) (s : Replica)
      → p.request ≡ r
      → hash_req e r ≡ p.request_digest
      → primary s s.view ≡ p.replica_id
      → Ready p s
      → AllStored Q (Ready p) (admit_request e p r s)
  unfolding in_wv in_w
  admit_request-kept p none s nil same by_primary (h, inside) =
      rules.nil_request p s nil same by_primary h
  admit_request-kept p (some r) s given same by_primary (h, inside) =
      elim (Option-cases (e.validate r.payload)) [
        | inl valid ↦ rw (valid, AllStored) ((rules.stores r p.request_digest s same h, inside))
        | inr (x, invalid) ↦ rw (invalid, AllStored) h
      ]

  store_request-kept :
      (p : PrePrepare) (s : Replica)
      → primary s s.view ≡ p.replica_id
      → Ready p s
      → AllStored Q (Ready p) (store_request e p s)
  unfolding store_request
  store_request-kept p s by_primary (h, inside) =
      if_cases (AllStored Q (Ready p)) (member p.request_digest s.req_store) _ _ (λ _. (h, inside))
        λ _.
          if_cases (AllStored Q (Ready p)) (not (hash_req e p.request == p.request_digest)) _ _
            (λ _. h)
            λ same.
              admit_request-kept p p.request s refl
                (ground (arith, eq_iff (hash_req e p.request) p.request_digest)) by_primary
                (h, inside)

  send_prepare-kept : (p : PrePrepare) (s : Replica) → Ready p s → P (send_prepare e p s).0
  unfolding send_prepare
  send_prepare-kept p s (h, inside) =
      if_cases Q
        (not (primary s s.view == s.id)
          && (pre_prepared s p.request_digest p.view p.sequence_number
              && not (cert_at s p.view p.sequence_number).sent_prepare))
        _ _
        (λ _.
          inner_broadcast-kept rules.base.emits e _ _ _ (λ u. recv_prepare-kept rules.base e _ u)
            (rules.marks_prepare s p.view p.sequence_number inside h))
        (λ _. h)

  after_stored-kept :
      (p : PrePrepare) (x : Stored) → AllStored Q (Ready p) x → P (after_stored e p x).0
  after_stored-kept p (returns o) h = h
  after_stored-kept p (continues t) (h, inside) = send_prepare-kept p _ (
      if_cases (Ready p) (not t.timer_active) _ _
        (λ _. (
          rules.starts_timer t.request_timeout t h,
          in_wv-start_timer t t.request_timeout p.view p.sequence_number ∙ inside,
        ))
        (λ _. (h, inside)))

  pub recv_pre_prepare-kept : (p : PrePrepare) (s : Replica) → P s → P (recv_pre_prepare e p s).0
  unfolding recv_pre_prepare
  recv_pre_prepare-kept p s h =
      if_cases Q (not s.active_view) _ _ (λ _. h)
        λ _.
          if_cases Q (not (primary s s.view == p.replica_id)) _ _ (λ _. h)
            λ leads.
              if_cases Q (not (in_wv s p.view p.sequence_number)) _ _ (λ _. h)
                λ inside.
                  let (ok, by_primary, same_view) =
                    store_pre_prepare-kept p s (ground arith) (h, ground arith) in
                  after_stored-kept p _ (
                    store_request-kept p (store_pre_prepare p s)
                      (subst (λ v. primary (store_pre_prepare p s) v ≡ p.replica_id) (sym same_view)
                        by_primary)
                      ok)

  assign_request-kept :
      (r : Request) (digest : String) (s : Replica)
      → primary s s.view ≡ s.id
      → P s
      → P (assign_request e r digest s).0
  unfolding assign_request primary
  assign_request-kept r digest s leads h =
      let n = u64 (s.seq_no + 1) in
      let p : PrePrepare = record {
        view = s.view;
        sequence_number = n;
        request_digest = digest;
        request = some r;
        replica_id = s.id;
      } in
      let t = record s { seq_no = n } in
      if_cases Q (not (in_wv s s.view n && not (have_other digest s.view n s.cert_store))) _ _
        (λ _. h)
        λ passes.
          let inside : in_wv t s.view n ≡ true = in_wv-numbered s n s.view n ∙ ground arith in
          let ready : Ready p
              (put_cert t s.view n (record (cert_at t s.view n) { pre_prepare = some p })) =
            (
              rules.pre_prepares p t leads inside (rules.numbers n s h),
              in_wv-put_cert t s.view n s.view n _ ∙ inside,
            ) in
          let (ok, still) =
            inner_broadcast-kept {P = Ready p}
              (λ x u sends hu. (rules.base.emits x u sends hu.0, in_wv-emit x u s.view n ∙ hu.1)) e
              (pre_prepare_message p) not_to_self _ (λ u hu. hu)
              (subst (Ready p) (sym (put_own t s.view n p)) ready) in
          maybe_send_commit-kept rules.base e digest s.view n _ still ok

  accept_request-kept :
      (r : Request) (digest : String) (s : Replica) → P s → P (accept_request e r digest s).0
  unfolding accept_request
  accept_request-kept r digest s h =
      let t = if not s.timer_active then start_timer s s.request_timeout else s in
      let ok : P t =
        if_cases P (not s.timer_active) _ _ (λ _. rules.starts_timer s.request_timeout s h)
          (λ _. h) in
      if_cases Q (primary t t.view == t.id && t.active_view) _ _
        (λ leads. assign_request-kept r digest t ((nat_beq_iff _ _).0 (&&-left _ _ leads)) ok)
        (λ _. ok)

  pub recv_request-kept : (r : Request) (s : Replica) → P s → P (recv_request e r s).0
  unfolding recv_request
  recv_request-kept r s h = elim (Option-cases (e.validate r.payload)) [
    | inl valid ↦
        rw (valid, recv_request)
          (accept_request-kept r _ _ (rules.stores r (hash_req e (some r)) s refl h))
    | inr (x, invalid) ↦ rw (invalid, recv_request) h
  ]

  resubmit_loop-kept : (m : Map String Request) (s : Replica) → P s → P (resubmit_loop e m s)
  unfolding resubmit_loop
  resubmit_loop-kept [] s h = h
  resubmit_loop-kept ((d, r) ∷ rest) s h = resubmit_loop-kept rest _ (
      if_cases P (any (λ (x : MsgId × MsgCert). has_digest d x.1.pre_prepare) s.cert_store) _ _
        (λ _. h) (λ _. recv_request-kept r s h))

  pub resubmit_requests-kept : (s : Replica) → P s → P (resubmit_requests e s)
  unfolding resubmit_requests
  resubmit_requests-kept s h =
      if_cases P (not (primary s s.view == s.id)) _ _ (λ _. h)
        (λ _. resubmit_loop-kept s.outstanding_reqs s h)
