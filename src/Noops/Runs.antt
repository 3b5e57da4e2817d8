-- ===== src/Noops/Runs.antt =====
-- Runs of the plugin: no transaction is lost, doubled or overtaken, and one that waits has a timer.
use hyperledger_fabric.Base.{
  length, length-append, ltb, ◌==◌, nat_key, if◌then◌else◌, Bool-cases, All,
}
use hyperledger_fabric.Noops.Txq.{
  Pointer, IsTxq, new_txq, append, is_full, is_full_iff, size, waiting, capacity, length-waiting,
  length-zeroed, append-IsAppended, new_txq-IsTxq,
}
use hyperledger_fabric.Noops.Plugin.{
  Call, Stack, Noops, new_noops, can_process_block, process_block, handle_transaction, Run, start,
  arrives, takes, timeout,
}
use hyperledger_fabric.Noops.Fifo.{executed, IsBatch, process_block-IsProcessed}
use Prim.Native.Nat.{ℕ, ◌+◌, ◌<◌}
use mathlib.Core.Path.{◌≡◌, refl, sym, ap, ◌∙◌, subst}
use mathlib.Core.Logic.{inl, inr}
use mathlib.Core.Bool.{true, false}
use mathlib.Core.List.{List, [], ◌∷◌, ◌++◌, append_assoc}
use native.Mathlib.Omega.{arith}

-- The state after the transactions `arrived` were put into the channel, in this order.
pub record IsOrdered (most : ℕ) (arrived : List Pointer) (s : Noops) : Type 0 where
  pub well : IsTxq s.tx_q
  pub most_is : capacity s.tx_q ≡ most
  pub room : length (waiting s.tx_q) < most
  pub order : executed s.calls ++ (waiting s.tx_q ++ s.channel) ≡ arrived
  pub batches : All (IsBatch most) s.calls
  pub timed : 0 < length (waiting s.tx_q) → s.timer ≡ true

-- What `canProcessBlock` leaves.
pub record IsTaken (most : ℕ) (tx : Pointer) (s t : Noops) : Type 0 where
  pub well : IsTxq t.tx_q
  pub most_is : capacity t.tx_q ≡ most
  pub waits : waiting t.tx_q ≡ waiting s.tx_q ++ tx ∷ []
  pub same_channel : t.channel ≡ s.channel
  pub same_calls : t.calls ≡ s.calls
  pub timed : t.timer ≡ true

pub can_process_block-IsTaken :
    (most : ℕ) (tx : Pointer) (s : Noops)
    → IsTxq s.tx_q
    → capacity s.tx_q ≡ most
    → length (waiting s.tx_q) < most
    → (0 < length (waiting s.tx_q) → s.timer ≡ true)
    → IsTaken most tx s (can_process_block tx s).0
      × ((can_process_block tx s).1 ≡ is_full (can_process_block tx s).0.tx_q)
unfolding can_process_block
can_process_block-IsTaken most tx s well most_is room timed =
    let a = append-IsAppended tx s.tx_q well in
    let q = append tx s.tx_q in
    let waits = a.waits (omega (arith, room, most_is)) in
    let one_more : length (waiting q) ≡ length (waiting s.tx_q) + 1 =
      ap length waits ∙ length-append (waiting s.tx_q) (tx ∷ []) in
    elim (Bool-cases (size q == 1)) [
      | inl first ↦ rw first (
        record {
          well = a.well;
          most_is = a.same_capacity ∙ most_is;
          waits = waits;
          same_channel = refl;
          same_calls = refl;
          timed = refl;
        },
        refl,
      )
      | inr later ↦ rw later (
        record {
          well = a.well;
          most_is = a.same_capacity ∙ most_is;
          waits = waits;
          same_channel = refl;
          same_calls = refl;
          timed = timed (ground (arith, later, one_more, length-waiting q a.well));
        },
        refl,
      )
    ]

module _ (st : Stack) (begins : (cs : List Call) → st.begin_error cs ≡ false) (most : ℕ) where
  -- A block, whether or not the queue has room.
  pub process_block-IsOrdered :
      (arrived : List Pointer) (s : Noops)
      → IsTxq s.tx_q
      → capacity s.tx_q ≡ most
      → executed s.calls ++ (waiting s.tx_q ++ s.channel) ≡ arrived
      → All (IsBatch most) s.calls
      → IsOrdered most arrived (process_block st s).0
  process_block-IsOrdered arrived s well most_is order batches =
      let a = process_block-IsProcessed st most begins s well most_is in
      let t = (process_block st s).0 in
      let none_left : length (waiting t.tx_q) ≡ 0 = ap length a.none_waits in
      record {
        well = a.well;
        most_is = a.same_capacity ∙ most_is;
        room = omega (arith, none_left, well.some_room, most_is);
        order =
            rw (a.all_executed, a.none_waits, a.same_channel)
              (append_assoc (executed s.calls) (waiting s.tx_q) s.channel ∙ order);
        batches = a.batches batches;
        timed = λ some_wait. absurd (omega (arith, none_left, some_wait));
      }

  handle_transaction-IsOrdered :
      (arrived rest : List Pointer) (tx : Pointer) (s : Noops)
      → IsOrdered most arrived s
      → s.channel ≡ tx ∷ rest
      → IsOrdered most arrived (handle_transaction st tx (record s { channel = rest }))
  unfolding handle_transaction
  handle_transaction-IsOrdered arrived rest tx s h next =
      let s2 = record s { channel = rest } in
      let (a, fullness) = can_process_block-IsTaken most tx s2 h.well h.most_is h.room h.timed in
      let t = (can_process_block tx s2).0 in
      let order : executed t.calls ++ (waiting t.tx_q ++ t.channel) ≡ arrived =
        rw (a.same_calls, a.waits, a.same_channel)
          (ap (λ x. executed s.calls ++ x)
              (append_assoc (waiting s.tx_q) (tx ∷ []) rest
                ∙ ap (λ x. waiting s.tx_q ++ x) (sym next))
            ∙ h.order) in
      let batches = subst (All (IsBatch most)) (sym a.same_calls) h.batches in
      elim (Bool-cases (can_process_block tx s2).1) [
        | inl full ↦ rw full (process_block-IsOrdered arrived t a.well a.most_is order batches)
        | inr room ↦
            let not_full : is_full t.tx_q ≡ false = sym fullness ∙ room in
            rw room record {
              well = a.well;
              most_is = a.most_is;
              room = ground (
                arith,
                not_full,
                is_full_iff t.tx_q a.well,
                a.well.inside,
                length-waiting t.tx_q a.well,
                a.most_is,
              );
              order = order;
              batches = batches;
              timed = λ _. a.timed;
            }
      ]

  pub Run-IsOrdered :
      {s : Noops} {arrived : List Pointer} {t : Noops}
      → IsOrdered most [] s
      → Run st s arrived t
      → IsOrdered most arrived t
  Run-IsOrdered h start = h
  Run-IsOrdered h (arrives {txs} {t} tx before room) =
      let b = Run-IsOrdered h before in
      record {
        well = b.well;
        most_is = b.most_is;
        room = b.room;
        order =
            ap (λ x. executed t.calls ++ x)
              (sym (append_assoc (waiting t.tx_q) t.channel (tx ∷ [])))
            ∙ (sym (append_assoc (executed t.calls) (waiting t.tx_q ++ t.channel) (tx ∷ []))
                ∙ ap (λ x. x ++ tx ∷ []) b.order);
        batches = b.batches;
        timed = b.timed;
      }
  Run-IsOrdered h (takes {txs} {t} tx rest before next) =
      handle_transaction-IsOrdered txs rest tx t (Run-IsOrdered h before) next
  Run-IsOrdered h (timeout {txs} {t} before) =
      let b = Run-IsOrdered h before in
      process_block-IsOrdered txs t b.well b.most_is b.order b.batches

-- In each run of a plugin whose calls of `BeginTxBatch` succeed, whatever else fails, the transactions
-- given to `ExecTxs`, those in the queue and those in the channel are, in this order, the ones that came
-- into the channel: none is lost, doubled or overtaken. Each batch has at least one transaction and at
-- most as many as the block's size, or 1 if that is 0; the queue has room, and while a transaction waits
-- in it, the timer runs.
pub new_noops-IsOrdered :
    (st : Stack) (block_size : ℕ) (arrived : List Pointer) (t : Noops)
    → ((cs : List Call) → st.begin_error cs ≡ false)
    → Run st (new_noops block_size) arrived t
    → IsOrdered (if ltb block_size 1 then 1 else block_size) arrived t
unfolding new_noops new_txq executed
new_noops-IsOrdered st block_size arrived t begins run =
    let (well, none_waits) = new_txq-IsTxq block_size in
    let most = if ltb block_size 1 then 1 else block_size in
    Run-IsOrdered st begins most
      (record {
        well = well;
        most_is = length-zeroed most;
        room = ground arith;
        order = refl;
        batches = tt;
        timed = λ some_wait. absurd (omega (arith, some_wait));
      })
      run
