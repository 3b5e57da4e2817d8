-- ===== src/Pbft/ViewChange.antt =====
-- The view-change computations of openchain/consensus/obcpbft/viewchange.go that read no channel:
-- `correctViewChange`, the P and Q sets, `selectInitialCheckpoint`, `assignSequenceNumbers`; and
-- `sign` and `verify` of sign.go.
pub mod Carriers
pub mod Selected
use hyperledger_fabric.Base.{nat_key, string_key, ltb, leb, if◌then◌else◌, all, count, length}
use hyperledger_fabric.Base.Map.{Map, lookup, insert, delete, retain}
use hyperledger_fabric.Pbft.Messages.{
  ViewChange, ViewChangeC, ViewChangePq, PrePrepare, view_change_c_key,
}
use hyperledger_fabric.Pbft.Replica.{
  Env, Error, Replica, MsgCert, MsgId, Qidx, BlockState, qidx_key, signature, u64,
}
use hyperledger_fabric.Pbft.Quorum.{pre_prepared, prepared, intersection_quorum}
use hyperledger_fabric.Pbft.Timer.{stop_timer}
use Prim.Native.Nat.{ℕ, ◌+◌}
use Prim.Native.String.{String}
use mathlib.Core.Bool.{Bool, true, false, not, ◌&&◌}
use mathlib.Core.Option.{Option, none, some}
use mathlib.Core.List.{List, [], ◌∷◌, ◌++◌, map}

-- `sign` on a view change; an error leaves it unsigned, and `sendViewChange` drops it.
unfoldable pub sign : Env → ViewChange → ViewChange
sign e vc =
    let bare = record vc { signature = [] } in
    elim (e.serialize bare) [
      | none ↦ bare
      | some raw ↦ elim (e.sign_raw raw) [
        | none ↦ bare
        | some signed ↦ record vc { signature = signed }
      ]
    ]

unfoldable pub verify : Env → ViewChange → Option Error
verify e vc = elim (e.serialize (record vc { signature = [] })) [
  | none ↦ some (signature vc.replica_id)
  | some raw ↦ e.verify_raw vc.replica_id vc.signature raw
]

abbrev pub correct_pq : Replica → ViewChange → ViewChangePq → Bool
correct_pq s vc p =
    ltb p.view vc.view && (ltb vc.h p.sequence_number && leb p.sequence_number (u64 (vc.h + s.l)))

abbrev pub correct_c : Replica → ViewChange → ViewChangeC → Bool
correct_c s vc c = leb vc.h c.sequence_number && leb c.sequence_number (u64 (vc.h + s.l))

unfoldable pub correct_view_change : Replica → ViewChange → Bool
correct_view_change s vc =
    all (correct_pq s vc) (vc.pset ++ vc.qset) && all (correct_c s vc) vc.cset

abbrev later_view : Option ViewChangePq → ℕ → Bool
later_view none v = false
later_view (some p) v = ltb v p.view

abbrev pq : ℕ → String → ℕ → ViewChangePq
pq n d v = record { sequence_number = n; digest = d; view = v }

-- One round of the loop for the P set.
abbrev gather_p_one : MsgId → Option PrePrepare → Replica → Replica
gather_p_one i none s = s
gather_p_one i (some p) s =
    if not (prepared s p.request_digest i.v i.n)
    then s
    else if later_view (lookup i.n s.pset) i.v
    then s
    else record s { pset = insert i.n (pq i.n p.request_digest i.v) s.pset }

unfoldable pub gather_p : Map MsgId MsgCert → Replica → Replica
gather_p [] s = s
gather_p ((i, c) ∷ rest) s = gather_p rest (gather_p_one i c.pre_prepare s)

-- One round of the loop for the Q set.
abbrev gather_q_one : MsgId → Option PrePrepare → Replica → Replica
gather_q_one i none s = s
gather_q_one i (some p) s =
    let qi : Qidx = record { d = p.request_digest; n = i.n } in
    if not (pre_prepared s p.request_digest i.v i.n)
    then s
    else if later_view (lookup qi s.qset) i.v
    then s
    else record s { qset = insert qi (pq i.n p.request_digest i.v) s.qset }

unfoldable pub gather_q : Map MsgId MsgCert → Replica → Replica
gather_q [] s = s
gather_q ((i, c) ∷ rest) s = gather_q rest (gather_q_one i c.pre_prepare s)

-- `sendViewChange` up to the message: the next view is entered, and old messages are dropped.
unfoldable pub enter_next_view : Replica → Replica
enter_next_view s =
    let t = stop_timer s in
    let u = record t {
      new_view_store = delete t.view t.new_view_store;
      view = u64 (t.view + 1);
      active_view = false;
    } in
    let w = gather_q u.cert_store (gather_p u.cert_store u) in
    record w {
      cert_store = retain (λ i _. leb w.view i.v) w.cert_store;
      view_change_store = retain (λ i _. leb w.view i.v) w.view_change_store;
    }

abbrev pub checkpoint_entry : ℕ × BlockState → ViewChangeC
checkpoint_entry (n, b) = record {
  sequence_number = n;
  block_number = b.block_number;
  block_hash = b.block_hash;
}

-- The message that `sendViewChange` broadcasts.
unfoldable pub view_change_of : Env → Replica → ViewChange
view_change_of e s = sign e (record {
  view = s.view;
  h = s.h;
  cset = map checkpoint_entry s.chkpts;
  pset = map (λ (x : ℕ × ViewChangePq). x.1) s.pset;
  qset = map (λ (x : Qidx × ViewChangePq). x.1) s.qset;
  replica_id = s.id;
  signature = [];
})

-- The map from each checkpoint to the view changes that carry it, once for each time.
abbrev add_supporter :
    ViewChange → ViewChangeC → Map ViewChangeC (List ViewChange) → Map ViewChangeC (List ViewChange)
add_supporter vc c m = insert c (elim (lookup c m) [ none ↦ vc ∷ [] | some vcs ↦ vcs ++ vc ∷ [] ]) m

unfoldable pub add_cset :
    ViewChange
    → List ViewChangeC
    → Map ViewChangeC (List ViewChange)
    → Map ViewChangeC (List ViewChange)
add_cset vc [] m = m
add_cset vc (c ∷ cs) m = add_cset vc cs (add_supporter vc c m)

unfoldable pub collect_checkpoints :
    List ViewChange → Map ViewChangeC (List ViewChange) → Map ViewChangeC (List ViewChange)
collect_checkpoints [] m = m
collect_checkpoints (vc ∷ vcs) m = collect_checkpoints vcs (add_cset vc vc.cset m)

abbrev pub zero_checkpoint : ViewChangeC
zero_checkpoint = record { sequence_number = 0; block_number = 0; block_hash = "" }

-- Whether a checkpoint has its weak certificate and its quorum of low watermarks.
unfoldable pub is_candidate : Replica → ViewChangeC → List ViewChange → Bool
is_candidate s c vcs =
    ltb s.f (length vcs)
    && leb (intersection_quorum s) (count (λ (vc : ViewChange). leb vc.h c.sequence_number) vcs)

-- The loop over the candidates, with the results `checkpoint` and `ok` so far.
unfoldable pub pick_checkpoint :
    Replica → Map ViewChangeC (List ViewChange) → ViewChangeC × Bool → ViewChangeC × Bool
pick_checkpoint s [] best = best
pick_checkpoint s ((c, vcs) ∷ rest) best = pick_checkpoint s rest (
    if is_candidate s c vcs && leb best.0.sequence_number c.sequence_number
    then (c, true)
    else best)

unfoldable pub select_initial_checkpoint : Replica → List ViewChange → ViewChangeC × Bool
select_initial_checkpoint s vset =
    pick_checkpoint s (collect_checkpoints vset []) (zero_checkpoint, false)
