-- ===== src/Ledger/BatchHandover.antt =====
-- A batch from `BeginTxBatch` to `CommitTxBatch`, and what the implementation of the world state is made
-- to do by it.
use hyperledger_fabric.Base.{string_key, nat_key, ◌==◌, if◌then◌else◌, same_refl, Bool-cases, All}
use hyperledger_fabric.Ledger.Block.{Env, Block, Timestamp, Transaction, TransactionResult}
use hyperledger_fabric.Ledger.Batches.{
  Ledger, batch_block, same_id, begin_tx_batch, commit_tx_batch,
}
use hyperledger_fabric.Ledger.Proto.{IsProto}
use hyperledger_fabric.Ledger.Outcome.{AfterCommit}
use hyperledger_fabric.Ledger.CommitSteps.{commit_tx_batch-Commits}
use hyperledger_fabric.Ledger.Handover.{persisted, discarded, commit_tx_batch-impl}
use hyperledger_fabric.Statemgmt.Delta.{Slice, StateDelta, new_state_delta, is_empty}
use hyperledger_fabric.Statemgmt.Delta.Hash.{Util}
use hyperledger_fabric.Statemgmt.Delta.Marshal.{Buffer, marshal}
use hyperledger_fabric.Statemgmt.Delta.Rollback.{WorldState, forwards}
use hyperledger_fabric.Statemgmt.State.{
  HashableState, State, finished, get, get_hash, tx_begin, tx_finish, merge_tx, update_impl,
}
use hyperledger_fabric.Statemgmt.State.Transactions.{in_tx, writes-same}
use hyperledger_fabric.Statemgmt.State.Recorded.{Tx}
use hyperledger_fabric.Statemgmt.State.Block.{in_block, IsIdle, in_block-forwards}
use Prim.Native.Nat.{ℕ, ◌+◌, ◌<◌}
use Prim.Native.String.{String}
use mathlib.Core.Path.{◌≡◌, refl, sym, ap, ◌∙◌, subst}
use mathlib.Core.Logic.{◌⊎◌, inl, inr}
use mathlib.Core.Bool.{Bool, true, false}
use mathlib.Core.Option.{Option, none, some}
use mathlib.Core.List.{List, [], ◌∷◌}

same_id_refl : (id : Option ℕ) → same_id id id ≡ true
same_id_refl none = refl
same_id_refl (some x) = same_refl x

module _ (i : HashableState) (util : Util) (x : i.Impl) (d : StateDelta) where
  -- The implementation has not been touched; unless it is to be prepared, the delta is still `d`.
  record IsUntouched (s : State i util) : Type 0 where
    untouched : s.state_impl ≡ x
    same_delta : s.update_state_impl ≡ false → s.state_delta ≡ d

  abbrev IsReady : State i util → Type 0
  IsReady s = IsUntouched s × (s.current_tx_uuid ≡ "")

  merge_tx-IsUntouched :
      (uuid : String) (s : State i util) → IsUntouched s → IsUntouched (merge_tx i util uuid s)
  merge_tx-IsUntouched uuid s h = elim (Bool-cases (is_empty s.current_tx_state_delta)) [
    | inl unused ↦ rw unused record { untouched = h.untouched; same_delta = h.same_delta }
    | inr used ↦ rw used record { untouched = h.untouched; same_delta = λ never. cc never }
  ]

  tx_finish-IsReady :
      (uuid : String) (successful : Bool) (s : State i util)
      → s.current_tx_uuid ≡ uuid
      → IsUntouched s
      → (t : State i util) × (tx_finish i util uuid successful s ≡ finished t) × IsReady t
  unfolding tx_finish
  tx_finish-IsReady uuid true s same h =
      let m = merge_tx-IsUntouched uuid s h in
      (
        record (merge_tx i util uuid s) {
          current_tx_state_delta = new_state_delta;
          current_tx_uuid = "";
        },
        rw ((string_key.same_iff s.current_tx_uuid uuid).1 same) refl,
        (record { untouched = m.untouched; same_delta = m.same_delta }, refl),
      )
  tx_finish-IsReady uuid false s same h = (
    record s { current_tx_state_delta = new_state_delta; current_tx_uuid = "" },
    rw ((string_key.same_iff s.current_tx_uuid uuid).1 same) refl,
    (record { untouched = h.untouched; same_delta = h.same_delta }, refl),
  )

  in_tx-IsReady :
      (tx : Tx) (s : State i util)
      → (tx.uuid == "") ≡ false
      → IsReady s
      → (t : State i util) × (in_tx i util tx.uuid tx.successful tx.body s ≡ some t) × IsReady t
  unfolding in_tx tx_begin
  in_tx-IsReady tx s named (h, idle) =
      let busy : State i util = record s { current_tx_uuid = tx.uuid } in
      let (c, q) = writes-same i util tx.body busy named in
      let (t, q2, ready) =
        tx_finish-IsReady tx.uuid tx.successful (record busy { current_tx_state_delta = c }) refl
          record { untouched = h.untouched; same_delta = h.same_delta } in
      (t, rw ((string_key.same_iff s.current_tx_uuid "").1 idle, q, q2) refl, ready)

  in_block-IsReady :
      (xs : List Tx) (s : State i util)
      → All (λ (tx : Tx). (tx.uuid == "") ≡ false) xs
      → IsReady s
      → (t : State i util) × (in_block i util xs s ≡ some t) × IsReady t
  unfolding in_block
  in_block-IsReady [] s _ h = (s, refl, h)
  in_block-IsReady (tx ∷ xs) s (named, others) h =
      let (t, q, ready) = in_tx-IsReady tx s named h in
      let (t2, q2, ready2) = in_block-IsReady xs t others ready in (t2, rw q q2, ready2)

  -- The implementation told of a delta, or left alone with the delta that there was.
  abbrev pub IsWorkingSet : StateDelta → i.Impl → Type 0
  IsWorkingSet c y = (y ≡ i.prepare_working_set c x) ⊎ ((y ≡ x) × (c ≡ d))

  update_impl-IsWorkingSet :
      (s : State i util)
      → IsUntouched s
      → IsWorkingSet s.state_delta (update_impl i util s).state_impl
  update_impl-IsWorkingSet s h = elim (Bool-cases s.update_state_impl) [
    | inl stale ↦ rw stale (inl (ap (i.prepare_working_set s.state_delta) h.untouched))
    | inr fresh ↦ rw fresh (inr (h.untouched, h.same_delta fresh))
  ]

module _ (i : HashableState) (util : Util) (w : WorldState) where
  -- What `BeginTxBatch` does when it is not refused.
  begin-parts :
      (e : Env) (p : Buffer) (id : Option ℕ) (l l2 : Ledger i util e p)
      → begin_tx_batch i util e p id l ≡ (l2, true)
      → record l { current_id = id } ≡ l2
  unfolding begin_tx_batch
  begin-parts e p id l l2 h = elim (Bool-cases (same_id l.current_id none)) [
    | inl free ↦
        let q : (record l { current_id = id }, true) ≡ (l2, true) = rw free at h in
        ap (λ (x : Ledger i util e p × Bool). x.0) q
    | inr busy ↦
        let q : (l, false) ≡ (l2, true) = rw busy at h in
        cc (ap (λ (x : Ledger i util e p × Bool). x.1) q)
  ]

  db-AfterCommit :
      (e : Env) (p : Buffer) (now : Timestamp) (b : Block) (hashing : Option Slice)
      (l m : Ledger i util e p) (ok : Bool)
      → AfterCommit i util e p now b hashing l (m, ok)
      → ok ≡ false
      → m.db ≡ l.db
  db-AfterCommit e p now b hashing l m true after failed = cc failed
  db-AfterCommit e p now b hashing l m false (_, _, same) failed = same

  -- A batch whose transactions run between `BeginTxBatch`, which is not refused, and `CommitTxBatch`, from
  -- a state between transactions whose implementation, which can be any, reads the committed values. The
  -- commit does not panic. The batch's delta leads from the committed values to the values that were
  -- read at its end. Either the implementation, as it was before the batch, is told of exactly this
  -- delta, or it is left as it was and the delta too; it is then hashed. If the commit succeeds, its
  -- changes are taken and written and its working set is cleared as persisted; if it fails, none are
  -- written, its working set is cleared as not persisted, and the database is as before. In both cases
  -- no delta is left. The transactions' names are not empty, there are fewer than 2^64 - 1 blocks, and
  -- the batch's delta can be marshalled.
  pub commit_tx_batch-hands_over :
      (e : Env) (p : Buffer)
      → IsProto e
      → (now : Timestamp) (id : Option ℕ) (xs : List Tx) (txs : List Transaction)
        (results : List TransactionResult) (metadata : Slice) (l l2 : Ledger i util e p)
        (t : State i util) (delta : List ℕ)
      → All (λ (tx : Tx). (tx.uuid == "") ≡ false) xs
      → IsIdle i util w l.state
      → l.blockchain.size + 1 < 18446744073709551616
      → begin_tx_batch i util e p id l ≡ (l2, true)
      → in_block i util xs l2.state ≡ some t
      → marshal p t.state_delta ≡ some delta
      → (m : Ledger i util e p) × (ok : Bool) × (y : i.Impl) × (commit_tx_batch i util e p now id
            txs results metadata
            (record l2 { state = t })
          ≡ some (m, ok))
        × ((name key : String)
            → get i util name key false t ≡ some (forwards t.state_delta w name key))
        × IsWorkingSet i util l.state.state_impl l.state.state_delta t.state_delta y
        × (m.state.state_impl ≡ (
            if ok
            then persisted i util (i.hash_state y).0
            else discarded i util (i.hash_state y).0))
        × (m.state.state_delta ≡ new_state_delta)
        × (ok ≡ false → m.db ≡ l2.db)
  commit_tx_batch-hands_over e p proto now id xs txs results metadata l l2 t delta named idle small
        begun run marshalled =
      let is_begun = begin-parts e p id l l2 begun in
      let x = l.state.state_impl in
      let d = l.state.state_delta in
      let at_begin : in_block i util xs l.state ≡ some t =
        ap (λ (z : Ledger i util e p). in_block i util xs z.state) is_begun ∙ run in
      let (u, run2, (untouched, _)) =
        in_block-IsReady i util x d xs l.state named
          (record { untouched = refl; same_delta = λ _. refl }, idle.no_tx) in
      let (v, run3, reads) = in_block-forwards i util w xs l.state named idle in
      let same : u ≡ t = let q = sym run2 ∙ at_begin in cc q in
      let same2 : v ≡ t = let q = sym run3 ∙ at_begin in cc q in
      let l3 : Ledger i util e p = record l2 { state = t } in
      let ((m, ok), done, after) =
        commit_tx_batch-Commits i util e p proto now id txs results metadata l3 delta
          (subst (λ (z : Ledger i util e p). z.blockchain.size + 1 < 18446744073709551616) is_begun
            small)
          marshalled in
      let (impl, no_delta) =
        commit_tx_batch-impl i util e p now id txs results metadata l3 m ok
          (subst (λ (z : Ledger i util e p). same_id z.current_id id ≡ true) is_begun
            (same_id_refl id))
          done in
      (
        m,
        ok,
        (update_impl i util t).state_impl,
        done,
        λ name key.
            subst (λ z. get i util name key false z ≡ some (forwards z.state_delta w name key))
              same2 (reads name key).0,
        update_impl-IsWorkingSet i util x d t (subst (IsUntouched i util x d) same untouched),
        impl,
        no_delta,
        db-AfterCommit e p now (batch_block txs results metadata) (get_hash i util t).1 l3 m ok
            after,
      )
