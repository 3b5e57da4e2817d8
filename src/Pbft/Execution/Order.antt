-- ===== src/Pbft/Execution/Order.antt =====
-- What `executeOne` executes: the next number, with a commit certificate, and a request that is
-- stored.
use hyperledger_fabric.Base.{Bytes, ◌==◌, nat_key, string_key, Option-cases, Bool-cases}
use hyperledger_fabric.Base.Map.{lookup, member, Entries-lookup}
use hyperledger_fabric.Pbft.Messages.{Request, PrePrepare}
use hyperledger_fabric.Pbft.Replica.{Env, Replica, MsgId, hash_req, msg_id_key, execute, u64, emit}
use hyperledger_fabric.Pbft.Quorum.{cert_pre_prepare, pre_prepared, prepared, committed}
use hyperledger_fabric.Pbft.Quorum.Intersection.{members}
use hyperledger_fabric.Pbft.Agreement.{IsCurrent, stands_behind, prepared-agree}
use hyperledger_fabric.Pbft.Timer.{stop_timer}
use hyperledger_fabric.Pbft.Ordering.Frame.{executed, executed-append}
use hyperledger_fabric.Pbft.Ordering.Keyed.{IsKeyed}
use hyperledger_fabric.Pbft.Execution.{if_committed, ready, execute_request, begin_execution}
use Prim.Native.Nat.{ℕ, ◌+◌, ◌%◌, ◌≤◌}
use Prim.Native.String.{String}
use mathlib.Core.Path.{◌≡◌, refl, sym, ap, ◌∙◌}
use mathlib.Core.Logic.{◌≢◌, inl, inr}
use mathlib.Core.Bool.{Bool, true, false, true≢false}
use mathlib.Core.Option.{Option, none, some}
use mathlib.Core.List.{List, [], ◌∷◌, ◌++◌, append-nil}
use native.Mathlib.Omega.{arith}
use text.Mathlib.TextEquality.{eq_iff}

committed-prepared :
    (s : Replica) (d : String) (v n : ℕ) → committed s d v n ≡ true → prepared s d v n ≡ true
unfolding committed
committed-prepared s d v n h = ground arith

prepared-pre_prepared :
    (s : Replica) (d : String) (v n : ℕ) → prepared s d v n ≡ true → pre_prepared s d v n ≡ true
unfolding prepared
prepared-pre_prepared s d v n h = ground arith

pre_prepared-member :
    (s : Replica) (d : String) (v n : ℕ)
    → pre_prepared s d v n ≡ true
    → (d == "") ≡ false
    → member d s.req_store ≡ true
unfolding pre_prepared
pre_prepared-member s d v n h some_request = ground arith

if_committed-parts :
    (s : Replica) (i : MsgId) (o : Option PrePrepare) (p : PrePrepare)
    → if_committed s i o ≡ some p
    → committed s p.request_digest i.v i.n ≡ true
if_committed-parts s i none p h = cc
if_committed-parts s i (some q) p h = ground arith

-- What the guards of `executeOne` have established.
ready-parts :
    (s : Replica) (i : MsgId) (p : PrePrepare)
    → ready s i ≡ some p
    → (s.executing ≡ false)
      × (i.n ≡ u64 (s.last_exec + 1))
      × (committed s p.request_digest i.v i.n ≡ true)
unfolding ready
ready-parts s i p h = elim (Bool-cases s.executing) [
  | inl busy ↦ ground arith
  | inr idle ↦ elim (Bool-cases (i.n == u64 (s.last_exec + 1))) [
    | inl next ↦ (
      idle,
      ground arith,
      if_committed-parts s i (cert_pre_prepare (lookup i s.cert_store)) p (ground arith),
    )
    | inr other ↦ ground arith
  ]
]

member-lookup :
    (s : Replica) (d : String)
    → member d s.req_store ≡ true
    → (r : Request) × (lookup d s.req_store ≡ some r)
member-lookup s d h = elim (Option-cases (lookup d s.req_store)) [
  | inl missing ↦ ground arith
  | inr found ↦ found
]

-- When `executeOne` passes its guards for a certificate with a request, the application is given
-- that request's stored payload and nothing else, under the number after the last executed one,
-- which becomes the last executed one; the code reads no nil request; and there is a commit
-- certificate.
pub begin_execution-request :
    (s : Replica) (i : MsgId) (p : PrePrepare)
    → ready s i ≡ some p
    → p.request_digest ≢ ""
    → (r : Request) × (lookup p.request_digest s.req_store ≡ some r)
      × (executed (begin_execution p i s).effects
          ≡ executed s.effects ++ (u64 (s.last_exec + 1), r.payload) ∷ [])
      × ((begin_execution p i s).last_exec ≡ u64 (s.last_exec + 1))
      × ((begin_execution p i s).crashed ≡ s.crashed)
      × (committed s p.request_digest i.v i.n ≡ true)
unfolding begin_execution stop_timer emit
begin_execution-request s i p h some_request =
    let (_, next, sure) = ready-parts s i p h in
    let given : (p.request_digest == "") ≡ false = ground (arith, eq_iff p.request_digest "") in
    let (r, found) = member-lookup s p.request_digest (
      pre_prepared-member s p.request_digest i.v i.n
        (prepared-pre_prepared s p.request_digest i.v i.n
          (committed-prepared s p.request_digest i.v i.n sure))
        given) in
    (
      r,
      found,
      rw (given, begin_execution)
          (rw (found, execute_request)
            (executed-append s.effects (execute i.n r.payload ∷ [])
              ∙ ap (λ (k : ℕ). executed s.effects ++ (k, r.payload) ∷ []) next)),
      rw (given, begin_execution) (rw (found, execute_request) next),
      rw (given, begin_execution) (rw (found, execute_request) refl),
      sure,
    )

stored-hash :
    (e : Env) (s : Replica) (d : String) (r : Request)
    → IsKeyed e s
    → lookup d s.req_store ≡ some r
    → hash_req e (some r) ≡ d
stored-hash e s d r keyed found =
    Entries-lookup (λ (d : String) (r : Request). hash_req e (some r) ≡ d) d r s.req_store keyed
      found

-- The null request moves the last executed number on and gives the application nothing.
pub begin_execution-null :
    (s : Replica) (i : MsgId) (p : PrePrepare)
    → ready s i ≡ some p
    → p.request_digest ≡ ""
    → ((begin_execution p i s).effects ≡ s.effects)
      × ((begin_execution p i s).last_exec ≡ u64 (s.last_exec + 1))
      × ((begin_execution p i s).executing ≡ false)
unfolding begin_execution stop_timer
begin_execution-null s i p h null =
    let (idle, next, _) = ready-parts s i p h in
    let e : (p.request_digest == "") ≡ true = (eq_iff p.request_digest "").1 null in
    (rw (e, begin_execution) refl, rw (e, begin_execution) next, rw (e, begin_execution) idle)

-- If two replicas of a group with an odd `N + f` both pass the guards of `executeOne` for one view and
-- sequence number, their pre-prepares have one digest, and both give the application the same payload
-- under that number, or both give it nothing; and the number becomes the last executed one of both. The
-- conditions are that at most `f` replicas are faulty, that no other replica is seen to stand behind two
-- digests for that view and number, that both replicas' certificates are well formed and their P and Q
-- sets speak of other views, that both store requests under their hashes, and that the two requests
-- that they store for the digests are equal if their hashes are.
pub ready-agree :
    (e : Env) (s t : Replica) (i : MsgId) (p q : PrePrepare) (faulty : ℕ → Bool)
    → IsCurrent s i.v i.n
    → IsCurrent t i.v i.n
    → t.n ≡ s.n
    → t.f ≡ s.f
    → (s.n + s.f) % 2 ≡ 1
    → members s.n faulty ≤ s.f
    → ((j : ℕ)
        → faulty j ≡ false
        → stands_behind s p.request_digest i.v i.n j ≡ true
        → stands_behind t q.request_digest i.v i.n j ≡ true
        → p.request_digest ≡ q.request_digest)
    → IsKeyed e s
    → IsKeyed e t
    → ((a b : Request)
        → lookup p.request_digest s.req_store ≡ some a
        → lookup q.request_digest t.req_store ≡ some b
        → hash_req e (some a) ≡ hash_req e (some b)
        → a ≡ b)
    → ready s i ≡ some p
    → ready t i ≡ some q
    → (p.request_digest ≡ q.request_digest)
      × ((given : List (ℕ × Bytes)) × (executed (begin_execution p i s).effects
            ≡ executed s.effects ++ given)
          × (executed (begin_execution q i t).effects ≡ executed t.effects ++ given))
      × ((begin_execution p i s).last_exec ≡ i.n)
      × ((begin_execution q i t).last_exec ≡ i.n)
ready-agree e s t i p q faulty sok tok same_n same_f odd few honest skeyed tkeyed apart hs ht =
    let (_, snext, ssure) = ready-parts s i p hs in
    let (_, tnext, tsure) = ready-parts t i q ht in
    let same =
      prepared-agree s t p.request_digest q.request_digest i.v i.n faulty sok tok same_n same_f odd
        few honest (committed-prepared s p.request_digest i.v i.n ssure)
        (committed-prepared t q.request_digest i.v i.n tsure) in
    elim (Bool-cases (p.request_digest == "")) [
      | inl null ↦
          let pnull = (eq_iff p.request_digest "").0 null in
          let (sgives, slast, _) = begin_execution-null s i p hs pnull in
          let (tgives, tlast, _) = begin_execution-null t i q ht (sym same ∙ pnull) in
          (
            same,
            (
              [],
              ap executed sgives ∙ sym (append-nil (executed s.effects)),
              ap executed tgives ∙ sym (append-nil (executed t.effects)),
            ),
            slast ∙ sym snext,
            tlast ∙ sym tnext,
          )
      | inr given ↦
          let some_request : p.request_digest ≢ "" =
            λ null. true≢false (sym ((eq_iff p.request_digest "").1 null) ∙ given) in
          let (a, afound, sgives, slast, _, _) = begin_execution-request s i p hs some_request in
          let (b, bfound, tgives, tlast, _, _) =
            begin_execution-request t i q ht (λ null. some_request (same ∙ null)) in
          let one : a ≡ b = apart a b afound bfound (
            stored-hash e s p.request_digest a skeyed afound
            ∙ (same ∙ sym (stored-hash e t q.request_digest b tkeyed bfound))) in
          (
            same,
            (
              (i.n, a.payload) ∷ [],
              sgives ∙ ap (λ (k : ℕ). executed s.effects ++ (k, a.payload) ∷ []) (sym snext),
              tgives
                  ∙ (ap (λ (k : ℕ). executed t.effects ++ (k, b.payload) ∷ []) (sym tnext)
                      ∙ ap (λ (r : Request). executed t.effects ++ (i.n, r.payload) ∷ [])
                          (sym one)),
            ),
            slast ∙ sym snext,
            tlast ∙ sym tnext,
          )
    ]
