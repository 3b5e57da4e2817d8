-- ===== src/Pbft/Checkpoints/Ahead.antt =====
-- `witnessCheckpoint`: how many replicas are seen above the high watermark, and that the array of
-- `f+1` handles is never overrun.
use hyperledger_fabric.Base.{◌==◌, nat_key, ltb, leb, length, count, if_cases}
use hyperledger_fabric.Base.Map.{Map, insert, delete, retain}
use hyperledger_fabric.Pbft.Messages.{Checkpoint}
use hyperledger_fabric.Pbft.Replica.{Env, Replica, u64, emit, panic}
use hyperledger_fabric.Pbft.Ordering.PrimaryRules.{resubmit_requests-kept}
use hyperledger_fabric.Pbft.Ordering.Frame.{Frame, frame, frame_primary_rules}
use hyperledger_fabric.Pbft.Checkpoints.{
  seq_numbers, weak_mark, furthest_replicas, clean_log, move_watermarks, sts_initiate,
  start_transfer, fall_behind, witness_checkpoint,
}
use hyperledger_fabric.Pbft.Checkpoints.WeakMark.{weak_mark_lem}
use Prim.Native.Nat.{ℕ, ◌+◌, ◌≤◌, ◌<◌}
use mathlib.Core.Path.{◌≡◌, refl, ap}
use mathlib.Core.Bool.{Bool, not}
use mathlib.Core.List.{[], ◌∷◌}
use native.Mathlib.Omega.{arith}

-- Replicas whose observed checkpoint is above `x`.
abbrev pub ahead_of : ℕ → Map ℕ ℕ → ℕ
ahead_of x seen = count (λ n. ltb x n) (seq_numbers seen)

-- No more than `f` replicas are seen above the high watermark.
abbrev pub FewAhead : Replica → Type 0
FewAhead s = ahead_of (s.h + s.l) s.h_chkpts ≤ s.f

count-retain-le :
    (p : ℕ → Bool) (q : ℕ → ℕ → Bool) (m : Map ℕ ℕ)
    → count p (seq_numbers (retain q m)) ≤ count p (seq_numbers m)
unfolding retain
count-retain-le p q [] = omega arith
count-retain-le p q ((r, n) ∷ m) = ground (arith, count-retain-le p q m)

ahead_of-antitone : (x y : ℕ) (m : Map ℕ ℕ) → x ≤ y → ahead_of y m ≤ ahead_of x m
ahead_of-antitone x y [] h = omega arith
ahead_of-antitone x y ((r, n) ∷ m) h = ground (arith, ahead_of-antitone x y m h)

length-seq : (m : Map ℕ ℕ) (p : ℕ → Bool) → count p (seq_numbers m) ≤ length m
length-seq [] p = omega arith
length-seq ((r, n) ∷ m) p = ground (arith, length-seq m p)

-- The new low watermark, and what stays, behind the resubmissions.
pub frame-move_watermarks :
    (e : Env) (h : ℕ) (s : Replica) → frame (move_watermarks e h s) ≡ frame (clean_log h s)
unfolding move_watermarks
frame-move_watermarks e h s =
    resubmit_requests-kept (frame_primary_rules (frame (clean_log h s)) e) (clean_log h s) refl

pub h-move_watermarks : (e : Env) (h : ℕ) (s : Replica) → (move_watermarks e h s).h ≡ h
unfolding clean_log
h-move_watermarks e h s = ap (λ (fr : Frame). fr.h) (frame-move_watermarks e h s)

watermarked :
    (e : Env) (h : ℕ) (s : Replica)
    → ((move_watermarks e h s).l ≡ s.l)
      × ((move_watermarks e h s).f ≡ s.f)
      × ((move_watermarks e h s).h_chkpts ≡ s.h_chkpts)
unfolding clean_log
watermarked e h s =
    let same = frame-move_watermarks e h s in
    (
      ap (λ (fr : Frame). fr.l) same,
      ap (λ (fr : Frame). fr.f) same,
      ap (λ (fr : Frame). fr.h_chkpts) same,
    )

start_transfer-FewAhead : (m : ℕ) (s : Replica) → FewAhead s → FewAhead (start_transfer m s)
unfolding start_transfer panic sts_initiate emit
start_transfer-FewAhead m s h =
    if_cases FewAhead (ltb (s.f + 1) (length (furthest_replicas m s.h_chkpts))) _ _ (λ _. h)
      (λ _. if_cases FewAhead s.in_progress _ _ (λ _. h) (λ _. h))

fall_behind-FewAhead :
    (e : Env) (m : ℕ) (s : Replica)
    → ahead_of (m + s.l) s.h_chkpts ≤ s.f
    → FewAhead (fall_behind e m s)
unfolding fall_behind
fall_behind-FewAhead e m s h =
    let t = record s { req_store = [] } in
    let (same_l, same_f, same_seen) = watermarked e m t in
    start_transfer-FewAhead m _ (rw (h-move_watermarks e m t, same_l, same_f, same_seen) h)

-- Each observed checkpoint leaves at most `f` replicas seen above the high watermark, if they were
-- so few and the high watermark is below 2^64.
pub witness_checkpoint-FewAhead :
    (e : Env) (c : Checkpoint) (s : Replica)
    → s.h + s.l < 18446744073709551616
    → FewAhead s
    → FewAhead (witness_checkpoint e c s)
unfolding witness_checkpoint
witness_checkpoint-FewAhead e c s fits few =
    let high = u64 (s.h + s.l) in
    let seen = insert c.replica_id c.sequence_number s.h_chkpts in
    let kept = retain (λ _ n. leb high n) seen in
    let m = weak_mark s.f seen in
    if_cases FewAhead (ltb c.sequence_number high) _ _
      (λ _.
        unfold delete in
        omega (
          arith,
          count-retain-le (λ n. ltb (s.h + s.l) n) (λ j _. not (j == c.replica_id)) s.h_chkpts,
        ))
      λ _.
        if_cases FewAhead (ltb (length seen) (s.f + 1)) _ _
          (λ short. ground (arith, length-seq seen (λ n. ltb (s.h + s.l) n)))
          λ enough.
            let (_, above) = weak_mark_lem s.f seen (ground arith) in
            if_cases FewAhead (ltb high m) _ _
              (λ behind.
                fall_behind-FewAhead e m (record s { h_chkpts = kept })
                  (omega (
                    arith,
                    count-retain-le (λ n. ltb (m + s.l) n) (λ _ n. leb high n) seen,
                    ahead_of-antitone m (m + s.l) seen (omega arith),
                    above,
                  )))
              λ level. omega (
                arith,
                count-retain-le (λ n. ltb (s.h + s.l) n) (λ _ n. leb high n) seen,
                ahead_of-antitone m (s.h + s.l) seen (ground arith),
                above,
              )
