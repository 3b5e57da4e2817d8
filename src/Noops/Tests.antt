-- ===== src/Noops/Tests.antt =====
-- A concrete stack, and runs of the plugin over it.
use hyperledger_fabric.Base.{length, ltb, if◌then◌else◌}
use hyperledger_fabric.Ledger.Block.{chaincode_execute}
use hyperledger_fabric.Noops.Txq.{Pointer, new_txq, append, is_full, waiting}
use hyperledger_fabric.Noops.Plugin.{
  Stack, Noops, new_noops, process_block, can_process_block, handle_transaction, Run, start,
  arrives, takes, Rounds,
}
use hyperledger_fabric.Noops.Fifo.{executed}
use hyperledger_fabric.Noops.Runs.{IsOrdered, new_noops-IsOrdered}
use hyperledger_fabric.Noops.Progress.{Run-executed, process_block-stuck}
use Prim.Native.Nat.{ℕ, ◌+◌, ◌*◌, ◌≤◌}
use Prim.Native.String.{String}
use mathlib.Core.Path.{◌≡◌, refl}
use mathlib.Core.Bool.{Bool, true, false}
use mathlib.Core.Option.{none, some}
use mathlib.Core.List.{List, [], ◌∷◌}
use native.Mathlib.Omega.{arith}

abbrev stack : (refuses : Bool) → Stack
stack refuses = record {
  begin_error = λ _. refuses;
  exec_error = λ _. false;
  commit_error = λ _. true;
  broadcast_error = λ _. false;
  block_data = λ _. none;
  unmarshal_transaction = λ _. none;
  marshal_transactions = λ _. none;
  unmarshal_transactions = λ _. none;
}

abbrev pointer : String → Pointer
pointer uuid = some (record {
  type = chaincode_execute;
  chaincode_id = none;
  payload = none;
  metadata = none;
  uuid = uuid;
  timestamp = none;
  confidentiality_level = 0;
  nonce = none;
  cert = none;
  signature = none;
})

abbrev all_arrived : List Pointer
all_arrived = pointer "t1" ∷ pointer "t2" ∷ pointer "t3" ∷ []

-- Three transactions come into the channel of a plugin with blocks of two, and two are taken from it.
abbrev in_channel : Noops
in_channel = record (new_noops 2) { channel = all_arrived }

abbrev one_taken : Noops
one_taken =
    handle_transaction (stack false) (pointer "t1")
      (record in_channel { channel = pointer "t2" ∷ pointer "t3" ∷ [] })

abbrev two_taken : Noops
two_taken =
    handle_transaction (stack false) (pointer "t2")
      (record one_taken { channel = pointer "t3" ∷ [] })

run : Run (stack false) (new_noops 2) all_arrived two_taken
unfolding new_noops new_txq handle_transaction can_process_block append is_full
run =
    takes (pointer "t2") (pointer "t3" ∷ [])
      (takes (pointer "t1") (pointer "t2" ∷ pointer "t3" ∷ [])
        (arrives (pointer "t3")
          (arrives (pointer "t2") (arrives (pointer "t1") start (omega arith)) (omega arith))
          (omega arith))
        refl)
      refl

new_noops-IsOrdered_example : IsOrdered (if ltb 2 1 then 1 else 2) all_arrived two_taken
new_noops-IsOrdered_example =
    new_noops-IsOrdered (stack false) 2 all_arrived two_taken (λ _. refl) run

Run-executed_example :
    ((k : ℕ) (u : Noops)
      → Rounds (stack false) two_taken k u
      → (k ≤ 2 * length two_taken.channel + 1)
        × (u.channel ≡ [] → u.timer ≡ false → executed u.calls ≡ all_arrived))
    × ((k : ℕ) × (u : Noops) × Rounds (stack false) two_taken k u
        × (u.channel ≡ [])
        × (u.timer ≡ false))
Run-executed_example = Run-executed (stack false) (λ _. refl) 2 all_arrived two_taken run

abbrev one_waits : Noops
one_waits = record {
  tx_q = record { i = 1; q = pointer "t1" ∷ none ∷ none ∷ [] };
  timer = true;
  channel = [];
  calls = [];
}

process_block-stuck_example :
    (t : Noops) × (process_block (stack true) one_waits ≡ (t, false))
    × (t.tx_q ≡ one_waits.tx_q)
    × (t.timer ≡ false)
    × ((handle_transaction (stack true) (pointer "t2") t).timer ≡ false)
    × (waiting (handle_transaction (stack true) (pointer "t2") t).tx_q
        ≡ pointer "t1" ∷ pointer "t2" ∷ [])
process_block-stuck_example =
    process_block-stuck (stack true) one_waits (pointer "t2")
      record { some_room = omega arith; inside = omega arith } (omega arith) (omega arith) refl
