-- ===== src/Noops/Fifo.antt =====
-- The order in which the plugin executes transactions, over whole runs.
use hyperledger_fabric.Base.{length, ltb, nat_key, if_cases, Bool-cases, All, All-append}
use hyperledger_fabric.Noops.Txq.{
  Pointer, Txq, IsTxq, get_txs, size, take, waiting, capacity, length-waiting, get_txs-IsTxq,
}
use hyperledger_fabric.Noops.Plugin.{
  Call, begin_tx_batch, exec_txs, commit_tx_batch, rollback_tx_batch, notify_block_added, broadcast,
  Stack, Noops, call, after_exec, process_transactions, notified, after_transactions, process_block,
}
use Prim.Native.Nat.{ℕ, ◌<◌, ◌≤◌}
use mathlib.Core.Path.{◌≡◌, refl, sym, ap, ◌∙◌, subst}
use mathlib.Core.Logic.{inl, inr}
use mathlib.Core.Bool.{Bool, true, false}
use mathlib.Core.Option.{none, some}
use mathlib.Core.List.{List, [], ◌∷◌, ◌++◌, append-nil, append_assoc}
use native.Mathlib.Omega.{arith}

-- The transactions given to `ExecTxs`, one after the other.
unfoldable pub executed : List Call → List Pointer
executed [] = []
executed (begin_tx_batch ∷ cs) = executed cs
executed (exec_txs txs ∷ cs) = txs ++ executed cs
executed (commit_tx_batch ∷ cs) = executed cs
executed (rollback_tx_batch ∷ cs) = executed cs
executed (notify_block_added b d ∷ cs) = executed cs
executed (broadcast b ∷ cs) = executed cs

executed-append : (cs ds : List Call) → executed (cs ++ ds) ≡ executed cs ++ executed ds
unfolding executed
executed-append [] ds = refl
executed-append (begin_tx_batch ∷ cs) ds = executed-append cs ds
executed-append (exec_txs txs ∷ cs) ds =
    ap (λ x. txs ++ x) (executed-append cs ds) ∙ sym (append_assoc txs (executed cs) (executed ds))
executed-append (commit_tx_batch ∷ cs) ds = executed-append cs ds
executed-append (rollback_tx_batch ∷ cs) ds = executed-append cs ds
executed-append (notify_block_added b d ∷ cs) ds = executed-append cs ds
executed-append (broadcast b ∷ cs) ds = executed-append cs ds

-- A batch has a transaction, and at most as many as a block.
abbrev pub IsBatch : ℕ → Call → Type 0
IsBatch most begin_tx_batch = Unit
IsBatch most (exec_txs txs) = (0 < length txs) × (length txs ≤ most)
IsBatch most commit_tx_batch = Unit
IsBatch most rollback_tx_batch = Unit
IsBatch most (notify_block_added b d) = Unit
IsBatch most (broadcast b) = Unit

-- A call that executes nothing.
abbrev IsQuiet : Call → Type 0
IsQuiet begin_tx_batch = Unit
IsQuiet (exec_txs txs) = ⊥
IsQuiet commit_tx_batch = Unit
IsQuiet rollback_tx_batch = Unit
IsQuiet (notify_block_added b d) = Unit
IsQuiet (broadcast b) = Unit

executed-quiet : (c : Call) → IsQuiet c → executed (c ∷ []) ≡ []
unfolding executed
executed-quiet begin_tx_batch _ = refl
executed-quiet (exec_txs txs) h = absurd h
executed-quiet commit_tx_batch _ = refl
executed-quiet rollback_tx_batch _ = refl
executed-quiet (notify_block_added b d) _ = refl
executed-quiet (broadcast b) _ = refl

IsQuiet-IsBatch : (most : ℕ) (c : Call) → IsQuiet c → IsBatch most c
IsQuiet-IsBatch most begin_tx_batch _ = tt
IsQuiet-IsBatch most (exec_txs txs) h = absurd h
IsQuiet-IsBatch most commit_tx_batch _ = tt
IsQuiet-IsBatch most rollback_tx_batch _ = tt
IsQuiet-IsBatch most (notify_block_added b d) _ = tt
IsQuiet-IsBatch most (broadcast b) _ = tt

-- Nothing is executed between two states, and the queues stay.
record Quiet (most : ℕ) (s t : Noops) : Type 0 where
  same_q : t.tx_q ≡ s.tx_q
  same_channel : t.channel ≡ s.channel
  same_timer : t.timer ≡ s.timer
  same_executed : executed t.calls ≡ executed s.calls
  batches : All (IsBatch most) s.calls → All (IsBatch most) t.calls

Quiet-call : (most : ℕ) (c : Call) (s : Noops) → IsQuiet c → Quiet most s (call c s)
Quiet-call most c s h = record {
  same_q = refl;
  same_channel = refl;
  same_timer = refl;
  same_executed =
      executed-append s.calls (c ∷ [])
      ∙ (ap (λ x. executed s.calls ++ x) (executed-quiet c h) ∙ append-nil (executed s.calls));
  batches = λ hs. All-append (IsBatch most) s.calls (c ∷ []) hs (IsQuiet-IsBatch most c h, tt);
}

Quiet-trans : (most : ℕ) (s t u : Noops) → Quiet most s t → Quiet most t u → Quiet most s u
Quiet-trans most s t u a b = record {
  same_q = b.same_q ∙ a.same_q;
  same_channel = b.same_channel ∙ a.same_channel;
  same_timer = b.same_timer ∙ a.same_timer;
  same_executed = b.same_executed ∙ a.same_executed;
  batches = λ hs. b.batches (a.batches hs);
}

Quiet-same : (most : ℕ) (s : Noops) → Quiet most s s
Quiet-same most s = record {
  same_q = refl;
  same_channel = refl;
  same_timer = refl;
  same_executed = refl;
  batches = λ hs. hs;
}

module _ (st : Stack) (most : ℕ) where
  after_exec-Quiet : (s : Noops) → Quiet most s (after_exec st s).0
  after_exec-Quiet s =
      let t = call commit_tx_batch s in
      let committing = Quiet-call most commit_tx_batch s tt in
      if_cases (λ (r : Noops × Bool). Quiet most s r.0) (st.exec_error s.calls)
        (call rollback_tx_batch s, false) _ (λ _. Quiet-call most rollback_tx_batch s tt)
        (λ _.
          if_cases (λ (r : Noops × Bool). Quiet most s r.0) (st.commit_error t.calls)
            (call rollback_tx_batch t, false) (t, true)
            (λ _.
              Quiet-trans most s t (call rollback_tx_batch t) committing
                (Quiet-call most rollback_tx_batch t tt))
            (λ _. committing))

  after_transactions-Quiet :
      (s : Noops) (ok : Bool) → Quiet most s (after_transactions st (s, ok)).0
  after_transactions-Quiet s false = Quiet-same most s
  after_transactions-Quiet s true =
      elim (st.block_data s.calls) as (λ o. Quiet most s (notified st s o).0) [
        | none ↦ Quiet-same most s
        | some (b, d) ↦ Quiet-call most (notify_block_added b d) s tt
      ]

  -- What waits is executed, as one batch.
  pub record IsProcessed (s t : Noops) : Type 0 where
    pub well : IsTxq t.tx_q
    pub same_capacity : capacity t.tx_q ≡ capacity s.tx_q
    pub none_waits : waiting t.tx_q ≡ []
    pub same_channel : t.channel ≡ s.channel
    pub stopped : t.timer ≡ false
    pub all_executed : executed t.calls ≡ executed s.calls ++ waiting s.tx_q
    pub batches : All (IsBatch most) s.calls → All (IsBatch most) t.calls

  -- After the queue was emptied into a batch.
  handed_over : Noops → Noops
  handed_over s =
      call (exec_txs (get_txs s.tx_q).1)
        (record (call begin_tx_batch s) { tx_q = (get_txs s.tx_q).0; timer = false })

  Quiet-IsProcessed :
      (s t : Noops)
      → IsTxq s.tx_q
      → capacity s.tx_q ≡ most
      → 0 < length (waiting s.tx_q)
      → Quiet most (handed_over s) t
      → IsProcessed s t
  unfolding handed_over executed
  Quiet-IsProcessed s t h most_is some_wait a =
      let (well, cap, empty, txs) = get_txs-IsTxq s.tx_q h in
      let began = s.calls ++ begin_tx_batch ∷ [] in
      let batch : List Pointer = (get_txs s.tx_q).1 in
      record {
        well = subst IsTxq (sym a.same_q) well;
        same_capacity = ap capacity a.same_q ∙ cap;
        none_waits = ap waiting a.same_q ∙ empty;
        same_channel = a.same_channel;
        stopped = a.same_timer;
        all_executed =
            a.same_executed
            ∙ (executed-append began (exec_txs batch ∷ [])
                ∙ (ap (λ x. x ++ (batch ++ []))
                      (executed-append s.calls (begin_tx_batch ∷ [])
                        ∙ append-nil (executed s.calls))
                    ∙ ap (λ x. executed s.calls ++ x) (append-nil batch ∙ txs)));
        batches = λ hs. a.batches (
            All-append (IsBatch most) began (exec_txs batch ∷ [])
              (All-append (IsBatch most) s.calls (begin_tx_batch ∷ []) hs (tt, tt))
              (
                subst (λ (x : List Pointer). (0 < length x) × (length x ≤ most)) (sym txs)
                    (some_wait, omega (arith, length-waiting s.tx_q h, h.inside, most_is)),
                tt,
              ));
      }

  nothing_waits : (q : Txq) → IsTxq q → (ltb (size q) 1 ≡ true) → waiting q ≡ []
  nothing_waits q h none_there =
      let none_yet : q.i ≡ 0 = ground arith in ap (λ n. take n q.q) none_yet

  module _ (begins : (cs : List Call) → st.begin_error cs ≡ false) where
    pub process_block-IsProcessed :
        (s : Noops) → IsTxq s.tx_q → capacity s.tx_q ≡ most → IsProcessed s (process_block st s).0
    unfolding process_block process_transactions handed_over
    process_block-IsProcessed s h most_is = elim (Bool-cases (ltb (size s.tx_q) 1)) [
      | inl none_there ↦ rw none_there record {
        well = h;
        same_capacity = refl;
        none_waits = nothing_waits s.tx_q h none_there;
        same_channel = refl;
        stopped = refl;
        all_executed = sym (
            ap (λ x. executed s.calls ++ x) (nothing_waits s.tx_q h none_there)
            ∙ append-nil (executed s.calls));
        batches = λ hs. hs;
      }
      | inr some_there ↦
          rw (some_there, begins (s.calls ++ begin_tx_batch ∷ []))
            (let done = after_exec st (handed_over s) in
              Quiet-IsProcessed s (after_transactions st done).0 h most_is
                (ground (arith, some_there, length-waiting s.tx_q h))
                (Quiet-trans most (handed_over s) done.0 (after_transactions st done).0
                  (after_exec-Quiet (handed_over s)) (after_transactions-Quiet done.0 done.1)))
    ]
