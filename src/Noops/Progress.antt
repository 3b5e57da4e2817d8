-- ===== src/Noops/Progress.antt =====
-- What the plugin gets done, and where it gets stuck.
use hyperledger_fabric.Base.{length, length-append, ltb, ◌==◌, nat_key, if◌then◌else◌, Bool-cases}
use hyperledger_fabric.Noops.Txq.{
  Pointer, IsTxq, is_full, is_full_iff, size, append, waiting, capacity, length-waiting,
  append-IsAppended,
}
use hyperledger_fabric.Noops.Plugin.{
  Call, begin_tx_batch, Stack, Noops, new_noops, can_process_block, process_transactions,
  process_block, handle_transaction, Run, takes, timeout, Rounds, no_rounds, takes_next,
  timer_fires,
}
use hyperledger_fabric.Noops.Fifo.{executed, process_block-IsProcessed}
use hyperledger_fabric.Noops.Runs.{IsOrdered, can_process_block-IsTaken, new_noops-IsOrdered}
use Prim.Native.Nat.{ℕ, ◌+◌, ◌*◌, ◌<◌, ◌≤◌}
use mathlib.Core.Path.{◌≡◌, refl, sym, ap, ◌∙◌}
use mathlib.Core.Logic.{inl, inr}
use mathlib.Core.Bool.{true, false, true≢false}
use mathlib.Core.List.{List, [], ◌∷◌, ◌++◌, append-nil}
use native.Mathlib.Omega.{arith}

length-zero : (xs : List Pointer) → (0 < length xs → ⊥) → xs ≡ []
length-zero [] _ = refl
length-zero (x ∷ xs) none = absurd (none (omega arith))

module _ (st : Stack) (begins : (cs : List Call) → st.begin_error cs ≡ false) (block_size : ℕ) where
  abbrev most : ℕ
  most = if ltb block_size 1 then 1 else block_size

  channel-handle_transaction :
      (arrived rest : List Pointer) (tx : Pointer) (s : Noops)
      → IsOrdered most arrived s
      → (handle_transaction st tx (record s { channel = rest })).channel ≡ rest
  unfolding handle_transaction
  channel-handle_transaction arrived rest tx s h =
      let s2 = record s { channel = rest } in
      let (a, _) = can_process_block-IsTaken most tx s2 h.well h.most_is h.room h.timed in
      let t = (can_process_block tx s2).0 in
      elim (Bool-cases (can_process_block tx s2).1) [
        | inl full ↦ rw full (
            (process_block-IsProcessed st most begins t a.well a.most_is).same_channel
            ∙ a.same_channel)
        | inr room ↦ rw room a.same_channel
      ]

  Rounds-Run :
      {arrived : List Pointer} {t : Noops} {k : ℕ} {u : Noops}
      → Run st (new_noops block_size) arrived t
      → Rounds st t k u
      → Run st (new_noops block_size) arrived u
  Rounds-Run run no_rounds = run
  Rounds-Run run (takes_next tx rest before next) = takes tx rest (Rounds-Run run before) next
  Rounds-Run run (timer_fires before _) = timeout (Rounds-Run run before)

  Rounds-IsOrdered :
      {arrived : List Pointer} {t : Noops} {k : ℕ} {u : Noops}
      → Run st (new_noops block_size) arrived t
      → Rounds st t k u
      → IsOrdered most arrived u
  Rounds-IsOrdered {arrived} {t} {k} {u} run rounds =
      new_noops-IsOrdered st block_size arrived u begins (Rounds-Run run rounds)

  -- A bound on the rounds that can follow: each transaction may start the timer once.
  abbrev ahead : Noops → ℕ
  ahead s = 2 * length s.channel + (if s.timer then 1 else 0)

  ahead-le : (s : Noops) → ahead s ≤ 2 * length s.channel + 1
  ahead-le s = ground arith

  Rounds-ahead :
      {arrived : List Pointer} {t : Noops} {k : ℕ} {u : Noops}
      → Run st (new_noops block_size) arrived t
      → Rounds st t k u
      → k + ahead u ≤ ahead t
  Rounds-ahead run no_rounds = omega arith
  Rounds-ahead {arrived} run (takes_next {k} {t} tx rest before next) =
      let v = handle_transaction st tx (record t { channel = rest }) in
      let taken : length v.channel ≡ length rest =
        ap length (channel-handle_transaction arrived rest tx t (Rounds-IsOrdered run before)) in
      let one_more : length t.channel ≡ length rest + 1 =
        let q = ap length next in omega (arith, q) in
      ground (arith, Rounds-ahead run before, ahead-le v, taken, one_more)
  Rounds-ahead run (timer_fires {k} {t} before fires) =
      let h = Rounds-IsOrdered run before in
      let a = process_block-IsProcessed st most begins t h.well h.most_is in
      ground (arith, Rounds-ahead run before, ap length a.same_channel, a.stopped, fires)

  take_all :
      (waiting_there arrived : List Pointer) (t : Noops) (k : ℕ) (u : Noops)
      → Run st (new_noops block_size) arrived t
      → Rounds st t k u
      → u.channel ≡ waiting_there
      → (m : ℕ) × (v : Noops) × Rounds st t m v × (v.channel ≡ [])
  take_all [] arrived t k u run rounds none_there = (k, u, rounds, none_there)
  take_all (tx ∷ rest) arrived t k u run rounds next =
      take_all rest arrived t (k + 1) (handle_transaction st tx (record u { channel = rest })) run
        (takes_next tx rest rounds next)
        (channel-handle_transaction arrived rest tx u (Rounds-IsOrdered run rounds))

  -- What is executed when nothing is left to take and no timer runs.
  idle-executed :
      (arrived : List Pointer) (u : Noops)
      → IsOrdered most arrived u
      → u.channel ≡ []
      → u.timer ≡ false
      → executed u.calls ≡ arrived
  idle-executed arrived u h empty idle =
      let none_waits : waiting u.tx_q ≡ [] =
        length-zero (waiting u.tx_q) (λ some_wait. true≢false (sym (h.timed some_wait) ∙ idle)) in
      sym (append-nil (executed u.calls))
      ∙ (ap (λ x. executed u.calls ++ x) (sym (ap (λ x. x ++ u.channel) none_waits ∙ empty))
          ∙ h.order)

  -- From each state that the plugin reaches, when the calls of `BeginTxBatch` succeed and no further
  -- transactions arrive: there is no sequence of rounds with more than two rounds for each transaction
  -- in the channel and one more; when the channel is empty and the timer does not run after such
  -- rounds, so that no round can follow, then all that arrived were given to `ExecTxs`, in the order of
  -- their arrival; and there are rounds that lead there, whose timeouts are of a running timer.
  pub Run-executed :
      (arrived : List Pointer) (t : Noops)
      → Run st (new_noops block_size) arrived t
      → ((k : ℕ) (u : Noops)
          → Rounds st t k u
          → (k ≤ 2 * length t.channel + 1)
            × (u.channel ≡ [] → u.timer ≡ false → executed u.calls ≡ arrived))
        × ((k : ℕ) × (u : Noops) × Rounds st t k u × (u.channel ≡ []) × (u.timer ≡ false))
  Run-executed arrived t run = (
    λ k u rounds. (
      omega (arith, Rounds-ahead run rounds, ahead-le t),
      idle-executed arrived u (Rounds-IsOrdered run rounds),
    ),
    let (k, u, rounds, empty) = take_all t.channel arrived t 0 t run no_rounds refl in
        elim (Bool-cases u.timer) [
          | inl fires ↦
              let h = Rounds-IsOrdered run rounds in
              let a = process_block-IsProcessed st most begins u h.well h.most_is in
              (
                k + 1,
                (process_block st u).0,
                timer_fires rounds fires,
                a.same_channel ∙ empty,
                a.stopped,
              )
          | inr idle ↦ (k, u, rounds, empty, idle)
        ],
  )

-- When `BeginTxBatch` fails, the transactions stay in the queue and the timer is stopped; the next
-- transaction, unless it fills the queue, does not start it again.
pub process_block-stuck :
    (st : Stack) (s : Noops) (tx : Pointer)
    → IsTxq s.tx_q
    → 0 < length (waiting s.tx_q)
    → length (waiting s.tx_q) + 1 < capacity s.tx_q
    → st.begin_error (s.calls ++ begin_tx_batch ∷ []) ≡ true
    → (t : Noops) × (process_block st s ≡ (t, false))
      × (t.tx_q ≡ s.tx_q)
      × (t.timer ≡ false)
      × ((handle_transaction st tx t).timer ≡ false)
      × (waiting (handle_transaction st tx t).tx_q ≡ waiting s.tx_q ++ tx ∷ [])
unfolding process_block process_transactions handle_transaction can_process_block
process_block-stuck st s tx h some_wait room fails =
    let some_there : ltb (size s.tx_q) 1 ≡ false =
      ground (arith, some_wait, length-waiting s.tx_q h) in
    let a = append-IsAppended tx s.tx_q h in
    let q = append tx s.tx_q in
    let waits = a.waits (omega arith) in
    let one_more : length (waiting q) ≡ length (waiting s.tx_q) + 1 =
      ap length waits ∙ length-append (waiting s.tx_q) (tx ∷ []) in
    let later : (size q == 1) ≡ false =
      ground (arith, one_more, some_wait, length-waiting q a.well) in
    let not_full : is_full q ≡ false =
      ground (arith, is_full_iff q a.well, one_more, room, a.same_capacity) in
    (
      record s { timer = false; calls = s.calls ++ begin_tx_batch ∷ [] },
      rw (some_there, fails) refl,
      refl,
      refl,
      rw (later, not_full) refl,
      rw (later, not_full) waits,
    )
