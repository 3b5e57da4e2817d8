-- ===== src/Ledger/Handover.antt =====
-- What `CommitTxBatch` makes the implementation of the world state do.
use hyperledger_fabric.Base.{nat_key, if◌then◌else◌, if_cases, Bool-cases, Option-cases}
use hyperledger_fabric.Ledger.Store.{Change, write_batch}
use hyperledger_fabric.Ledger.Block.{Env, Block, Timestamp, Transaction, TransactionResult}
use hyperledger_fabric.Ledger.Blockchain.{
  block_persistence_status, add_persistence_changes_for_new_block,
}
use hyperledger_fabric.Ledger.Batches.{
  Ledger, same_id, batch_block, abandon, committed, write_changes, hashed, commit_tx_batch,
  reset_for_next_tx_group,
}
use hyperledger_fabric.Statemgmt.Delta.{Slice, new_state_delta}
use hyperledger_fabric.Statemgmt.Delta.Hash.{Util}
use hyperledger_fabric.Statemgmt.Delta.Marshal.{Buffer, marshal}
use hyperledger_fabric.Statemgmt.State.{
  HashableState, State, get_hash, update_impl, clear_in_memory_changes,
}
use hyperledger_fabric.Statemgmt.State.Persistence.{add_changes_for_persistence, delta_changes}
use Prim.Native.Nat.{ℕ}
use mathlib.Core.Path.{◌≡◌, refl, sym, ap, subst}
use mathlib.Core.Logic.{inl, inr}
use mathlib.Core.Bool.{Bool, true, false}
use mathlib.Core.Option.{Option, none, some}
use mathlib.Core.List.{List, ◌++◌}

module _ (i : HashableState) (util : Util) where
  -- The implementation's changes are taken and written, and its working set is cleared as persisted.
  abbrev pub persisted : i.Impl → i.Impl
  persisted x = i.clear_working_set true (i.write_changes (i.add_changes x) x)

  -- The working set is cleared as not persisted.
  abbrev pub discarded : i.Impl → i.Impl
  discarded x = i.clear_working_set false x

  abbrev IsPrepared : i.Impl → State i util → Type 0
  IsPrepared x s = (s.state_impl ≡ x) × (s.update_state_impl ≡ false)

  fresh-update_impl : (s : State i util) → (update_impl i util s).update_state_impl ≡ false
  fresh-update_impl s = elim (Bool-cases s.update_state_impl) [
    | inl stale ↦ rw stale refl
    | inr fresh ↦ rw fresh refl
  ]

  same-update_impl : (s : State i util) → s.update_state_impl ≡ false → update_impl i util s ≡ s
  same-update_impl s fresh =
      ap
        (λ (b : Bool).
          if b
          then record s {
            state_impl = i.prepare_working_set s.state_delta s.state_impl;
            update_state_impl = false;
          }
          else s)
        fresh

  get_hash-IsPrepared :
      (s : State i util)
      → IsPrepared (i.hash_state (update_impl i util s).state_impl).0 (get_hash i util s).0
  unfolding get_hash
  get_hash-IsPrepared s = (refl, fresh-update_impl s)

  module _ (e : Env) (p : Buffer) (x : i.Impl) where
    abbrev Outcome : Option (Ledger i util e p × Bool) → Type 0
    Outcome none = Unit
    Outcome (some (m, ok)) =
        (m.state.state_impl ≡ (if ok then persisted x else discarded x))
        × (m.state.state_delta ≡ new_state_delta)

    abandon-Outcome :
        (l : Ledger i util e p) → IsPrepared x l.state → Outcome (abandon i util e p l)
    unfolding block_persistence_status reset_for_next_tx_group clear_in_memory_changes
    abandon-Outcome l (same, _) = (ap discarded same, refl)

    committed-Outcome :
        (l : Ledger i util e p)
        → i.clear_working_set true l.state.state_impl ≡ persisted x
        → Outcome (committed i util e p l)
    unfolding block_persistence_status reset_for_next_tx_group clear_in_memory_changes
    committed-Outcome l same = elim (Option-cases l.blockchain.last_processed_block) [
      | inl missing ↦ rw missing tt
      | inr (b, waiting) ↦ rw waiting (same, refl)
    ]

    write_changes-Outcome :
        (changes more : List Change) (l : Ledger i util e p) (t : State i util)
        → IsPrepared x t
        → Outcome (write_changes i util e p changes l (some (t, i.add_changes t.state_impl, more)))
    write_changes-Outcome changes more l t h =
        let after = record l {
          state = record t {
            state_impl = i.write_changes (i.add_changes t.state_impl) t.state_impl;
          };
          db = write_batch (changes ++ more) l.db;
        } in
        if_cases Outcome (e.write_error (changes ++ more))
          (abandon i util e p (record l { state = t })) (committed i util e p after)
          (λ _. abandon-Outcome (record l { state = t }) h)
          (λ _. committed-Outcome after (ap persisted h.0))

    add_changes-Outcome :
        (changes : List Change) (n : ℕ) (l : Ledger i util e p) (s : State i util)
        → IsPrepared x s
        → Outcome (write_changes i util e p changes l (add_changes_for_persistence i util p n s))
    unfolding add_changes_for_persistence
    add_changes-Outcome changes n l s (same, fresh) =
        let t = update_impl i util s in
        let prepared : IsPrepared x t =
          subst (IsPrepared x) (sym (same-update_impl s fresh)) (same, fresh) in
        elim (Option-cases (marshal p t.state_delta)) [
          | inl panic ↦ rw panic tt
          | inr (bytes, q) ↦ rw q (
              write_changes-Outcome changes (delta_changes t.history_state_delta_size n bytes) l t
                prepared)
        ]

    hashed-Outcome :
        (now : Timestamp) (b : Block) (l : Ledger i util e p) (s : State i util) (o : Option Slice)
        → IsPrepared x s
        → Outcome (hashed i util e p now b l (s, o))
    hashed-Outcome now b l s none h = abandon-Outcome (record l { state = s }) h
    hashed-Outcome now b l s (some state_hash) h =
        elim (Option-cases
          (add_persistence_changes_for_new_block e now b state_hash l.blockchain)) [
            | inl failed ↦ rw failed (abandon-Outcome (record l { state = s }) h)
            | inr ((changes, c), q) ↦ rw q (
                add_changes-Outcome changes l.blockchain.size
                  (record l { state = s; blockchain = c }) s h)
          ]

  -- A commit hashes the implementation with its working set, and then persists or discards it.
  pub commit_tx_batch-impl :
      (e : Env) (p : Buffer) (now : Timestamp) (id : Option ℕ) (txs : List Transaction)
      (results : List TransactionResult) (metadata : Slice) (l m : Ledger i util e p) (ok : Bool)
      → same_id l.current_id id ≡ true
      → commit_tx_batch i util e p now id txs results metadata l ≡ some (m, ok)
      → let x = (i.hash_state (update_impl i util l.state).state_impl).0 in
        (m.state.state_impl ≡ (if ok then persisted x else discarded x))
        × (m.state.state_delta ≡ new_state_delta)
  unfolding commit_tx_batch
  commit_tx_batch-impl e p now id txs results metadata l m ok ours done =
      let x = (i.hash_state (update_impl i util l.state).state_impl).0 in
      subst (Outcome e p x) done (
        rw ours (
          hashed-Outcome e p x now (batch_block txs results metadata) l (get_hash i util l.state).0
            (get_hash i util l.state).1 (get_hash-IsPrepared l.state)))
