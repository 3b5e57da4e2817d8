-- ===== src/Pbft/Ordering/NilRequest.antt =====
-- A pre-prepare without a request.
use hyperledger_fabric.Base.{◌==◌, nat_key, string_key, if_cases}
use hyperledger_fabric.Base.Map.{member}
use hyperledger_fabric.Pbft.Messages.{PrePrepare}
use hyperledger_fabric.Pbft.Replica.{Env, Outcome, Replica, panic, hash_req}
use hyperledger_fabric.Pbft.Quorum.{primary, in_wv, get_cert, cert_at, put_cert}
use hyperledger_fabric.Pbft.Ordering.{
  Stored, other_digest, store_pre_prepare, store_request, admit_request, after_stored,
  recv_pre_prepare,
}
use mathlib.Core.Path.{◌≡◌, refl, ap, subst, sym}
use mathlib.Core.Bool.{true, false, not}
use mathlib.Core.Option.{none}
use native.Mathlib.Omega.{arith}
use text.Mathlib.TextEquality.{eq_iff}

req_store-store_pre_prepare :
    (p : PrePrepare) (s : Replica) → (store_pre_prepare p s).req_store ≡ s.req_store
unfolding store_pre_prepare get_cert put_cert
req_store-store_pre_prepare p s =
    if_cases (λ (t : Replica). t.req_store ≡ s.req_store)
      (other_digest (cert_at s p.view p.sequence_number).pre_prepare p.request_digest) _ _
      (λ _. refl) (λ _. refl)

-- A pre-prepare of the primary for the current view, between the watermarks, that carries no request
-- makes a replica in an active view crash, if its digest is the hash of no bytes and the replica
-- has no request of that digest.
pub recv_pre_prepare-crashes :
    (e : Env) (p : PrePrepare) (s : Replica)
    → s.active_view ≡ true
    → primary s s.view ≡ p.replica_id
    → in_wv s p.view p.sequence_number ≡ true
    → p.request ≡ none
    → hash_req e none ≡ p.request_digest
    → member p.request_digest s.req_store ≡ false
    → (recv_pre_prepare e p s).0.crashed ≡ true
unfolding recv_pre_prepare store_request panic
recv_pre_prepare-crashes e p s active leads inside nil same missing =
    let t = store_pre_prepare p s in
    let Crashed = λ (o : Outcome). o.0.crashed ≡ true in
    let Ends = λ (x : Stored). Crashed (after_stored e p x) in
    if_cases Crashed (not s.active_view) _ _ (λ bad. absurd (ground arith))
      λ _.
        if_cases Crashed (not (primary s s.view == p.replica_id)) _ _ (λ bad. absurd (ground arith))
          λ _.
            if_cases Crashed (not (in_wv s p.view p.sequence_number)) _ _
              (λ bad. absurd (ground arith))
              λ _.
                if_cases Ends (member p.request_digest t.req_store) _ _
                  (λ bad. absurd (
                    ground (arith, ap (member p.request_digest) (req_store-store_pre_prepare p s))))
                  λ _.
                    if_cases Ends (not (hash_req e p.request == p.request_digest)) _ _
                      (λ other.
                        absurd (ground (arith, eq_iff (hash_req e p.request) p.request_digest)))
                      λ _. subst (λ r. Ends (admit_request e p r t)) (sym nil) refl
