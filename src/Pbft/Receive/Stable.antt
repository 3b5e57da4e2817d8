-- ===== src/Pbft/Receive/Stable.antt =====
-- When a checkpoint message makes a checkpoint stable.
use hyperledger_fabric.Base.{nat_key, ltb, leb, if◌then◌else◌, Option-cases}
use hyperledger_fabric.Base.Map.{Map, lookup, insert, delete, member}
use hyperledger_fabric.Pbft.Messages.{Checkpoint, checkpoint_key}
use hyperledger_fabric.Pbft.Replica.{Env, Outcome, Replica, u64}
use hyperledger_fabric.Pbft.Quorum.{in_w, intersection_quorum}
use hyperledger_fabric.Pbft.Quorum.Window.{in_w_iff}
use hyperledger_fabric.Pbft.Ordering.Frame.{Frame}
use hyperledger_fabric.Pbft.Checkpoints.Ahead.{h-move_watermarks, frame-move_watermarks}
use hyperledger_fabric.Pbft.Receive.{recv_checkpoint, count_checkpoints}
use hyperledger_fabric.Pbft.Checkpoints.{
  same_checkpoint, matching_checkpoints, clean_log, witness_checkpoint, move_watermarks,
}
use hyperledger_fabric.Pbft.NewView.{process_new_view}
use Prim.Native.Nat.{ℕ, ◌+◌, ◌<◌}
use mathlib.Core.Path.{◌≡◌, ap, ◌∙◌}
use mathlib.Core.Logic.{inl, inr}
use mathlib.Core.Bool.{Bool, true, false, ◌&&◌}
use mathlib.Core.Option.{none}
use mathlib.Core.List.{[], ◌∷◌}
use native.Mathlib.Omega.{arith}
use text.Mathlib.TextEquality.{eq_iff}

module _ (c : Checkpoint) where
  matching-insert :
      (m : Map Checkpoint Bool)
      → same_checkpoint c c ≡ true
      → lookup c m ≡ none
      → matching_checkpoints c (insert c true m) ≡ matching_checkpoints c m + 1
  unfolding matching_checkpoints lookup insert
  matching-insert [] self new = ground arith
  matching-insert ((d, b) ∷ m) self new =
      ground (arith, matching-insert m self, checkpoint_key.same_iff d c)

-- In an active view a new view is not looked at again.
process_new_view-active :
    (send : Replica → Outcome) (e : Env) (s : Replica)
    → s.active_view ≡ true
    → (process_new_view send e s).0 ≡ s
unfolding process_new_view
process_new_view-active send e s active = elim (Option-cases (lookup s.view s.new_view_store)) [
  | inl missing ↦ rw (missing, process_new_view)
  | inr (nv, found) ↦ rw (found, process_new_view) (rw active)
]

same_checkpoint_refl : (c : Checkpoint) → same_checkpoint c c ≡ true
same_checkpoint_refl c = ground (arith, eq_iff c.block_hash c.block_hash)

count_checkpoints-h :
    (send : Replica → Outcome) (e : Env) (c : Checkpoint) (s : Replica)
    → s.active_view ≡ true
    → s.in_progress ≡ false
    → (count_checkpoints send e c s).0.h ≡ (
        if leb (intersection_quorum s) (matching_checkpoints c s.checkpoint_store)
          && member c.sequence_number s.chkpts
        then c.sequence_number
        else s.h)
unfolding count_checkpoints clean_log
count_checkpoints-h send e c s active idle =
    let t = move_watermarks e c.sequence_number s in
    let still : t.active_view ≡ true =
      ap (λ (fr : Frame). fr.active_view) (frame-move_watermarks e c.sequence_number s) ∙ active in
    rw (idle, count_checkpoints)
      (ground (
        arith,
        ap (λ (u : Replica). u.h) (process_new_view-active send e t still),
        h-move_watermarks e c.sequence_number s,
      ))

witness_checkpoint-below :
    (e : Env) (c : Checkpoint) (s : Replica)
    → s.h + s.l < 18446744073709551616
    → c.sequence_number < s.h + s.l
    → witness_checkpoint e c s ≡ record s { h_chkpts = delete c.replica_id s.h_chkpts }
unfolding witness_checkpoint
witness_checkpoint-below e c s fits below =
    let test : ltb c.sequence_number (u64 (s.h + s.l)) ≡ true = ground arith in
    rw (test, witness_checkpoint)

-- A new checkpoint message between the watermarks moves the low watermark to its number exactly when
-- at least `intersectionQuorum` stored entries, itself included, match it and the replica has
-- reached that checkpoint; otherwise the low watermark stays. This is in an active view with no
-- state transfer in progress, with the high watermark below 2^64 and the message below it. Entries
-- count by themselves, whoever sent them.
pub h-recv_checkpoint :
    (send : Replica → Outcome) (e : Env) (c : Checkpoint) (s : Replica)
    → s.h + s.l < 18446744073709551616
    → s.h < c.sequence_number
    → c.sequence_number < s.h + s.l
    → s.active_view ≡ true
    → s.in_progress ≡ false
    → lookup c s.checkpoint_store ≡ none
    → (recv_checkpoint send e c s).0.h ≡ (
        if leb (intersection_quorum s) (matching_checkpoints c s.checkpoint_store + 1)
          && member c.sequence_number s.chkpts
        then c.sequence_number
        else s.h)
unfolding recv_checkpoint intersection_quorum in_w
h-recv_checkpoint send e c s fits above below active idle new =
    let t = record s { h_chkpts = delete c.replica_id s.h_chkpts } in
    let u = record t { checkpoint_store = insert c true s.checkpoint_store } in
    let inside : in_w t c.sequence_number ≡ true =
      (in_w_iff t c.sequence_number fits (omega arith)).1 (above, omega arith) in
    rw (witness_checkpoint-below e c s fits below, recv_checkpoint)
      (rw inside (
        count_checkpoints-h send e c u active idle
        ∙ ap
            (λ (k : ℕ).
              if leb (intersection_quorum s) k && member c.sequence_number s.chkpts
              then c.sequence_number
              else s.h)
            (matching-insert c s.checkpoint_store (same_checkpoint_refl c) new)))
