-- ===== src/Ledger/Tests.antt =====
-- The theorems on the ledger, applied to concrete ledgers.
use hyperledger_fabric.Base.{string_key, if◌then◌else◌}
use hyperledger_fabric.Base.Map.{lookup}
use hyperledger_fabric.Ledger.Block.{Block, get_block_hash}
use hyperledger_fabric.Ledger.Blockchain.{fetched, nothing, fetch_block_from_db, new_blockchain}
use hyperledger_fabric.Ledger.Restart.{new_blockchain-commit_tx_batch}
use hyperledger_fabric.Ledger.Batches.{
  Ledger, begin_tx_batch, commit_tx_batch, verify_chain, put_raw_block, get_block_by_number,
}
use hyperledger_fabric.Ledger.Commit.{IsChained, commit_tx_batch-IsChained}
use hyperledger_fabric.Ledger.Verify.{verify_chain-Chain}
use hyperledger_fabric.Ledger.Preview.{get_tx_batch_preview_block-commit_tx_batch}
use hyperledger_fabric.Ledger.RawBlocks.{put_raw_block-verify_chain, put_raw_block-refused}
use hyperledger_fabric.Ledger.Handover.{persisted, discarded}
use hyperledger_fabric.Ledger.BatchHandover.{IsWorkingSet, commit_tx_batch-hands_over}
use hyperledger_fabric.Ledger.History.{HasDeltas}
use hyperledger_fabric.Ledger.StateHistory.{KeepsDeltas, commit_tx_batch-KeepsDeltas}
use hyperledger_fabric.Ledger.Queries.{IsFound, commit_tx_batch-IsFound}
use hyperledger_fabric.Ledger.World.{env, env-IsProto, env-IsVarint, memory, util}
use hyperledger_fabric.Ledger.Samples.{
  genesis, change_a, clean, empty, open_batch, transactions, results, now, ledger_of, first_ledger,
  first_commit, second_batch, second_commit, second_ledger, head_of, tail_of, delta_bytes,
  change_bytes, preview, preview_block, block_bytes, previewed_commit, raw_block, raw_hash, raw_put,
  put_commit, runs_of_batch, begun, ran, as_computed,
}
use hyperledger_fabric.Statemgmt.CodecTests.{buffer, buffer-IsCodec}
use hyperledger_fabric.Statemgmt.Delta as Delta
use hyperledger_fabric.Statemgmt.Delta.{new_state_delta}
use hyperledger_fabric.Statemgmt.Delta.Rollback.{forwards}
use hyperledger_fabric.Statemgmt.State.{get}
use hyperledger_fabric.Statemgmt.State.Block.{IsIdle}
use Prim.Native.Nat.{suc, ◌+◌, ◌<◌}
use Prim.Native.String.{String}
use mathlib.Core.Path.{◌≡◌, refl, sym, ◌∙◌, subst}
use mathlib.Core.Bool.{Bool, true, false}
use mathlib.Core.Option.{Option, none, some}
use mathlib.Core.List.{[]}
use native.Mathlib.Omega.{arith}

commit_tx_batch-IsChained_example :
    (m : Ledger memory util (env false) buffer) × (ok : Bool) × (first_commit ≡ some (m, ok))
    × IsChained memory util (env false) buffer m
    × (m.blockchain.size ≡ (if ok then 0 + 1 else 0))
    × (ok ≡ false → m.db ≡ open_batch.db)
commit_tx_batch-IsChained_example =
    commit_tx_batch-IsChained memory util (env false) buffer (env-IsProto false) now (some 7)
      transactions results none open_batch change_bytes refl (omega arith)
      as_computed.delta_marshalled

-- The ledger that a commit is known to leave.
same_ledger-IsChained :
    (l : Ledger memory util (env false) buffer)
    (o : Option (Ledger memory util (env false) buffer × Bool))
    → ((m : Ledger memory util (env false) buffer) × (ok : Bool) × (o ≡ some (m, ok))
        × IsChained memory util (env false) buffer m)
    → o ≡ some (l, true)
    → IsChained memory util (env false) buffer l
same_ledger-IsChained l o (m, ok, q, chained) done =
    let both : some (m, ok) ≡ some (l, true) = sym q ∙ done in
    let same : m ≡ l = cc both in subst (IsChained memory util (env false) buffer) same chained

first_ledger-IsChained : IsChained memory util (env false) buffer first_ledger
first_ledger-IsChained =
    let (m, ok, q, chained, _, _) = commit_tx_batch-IsChained_example in
    same_ledger-IsChained first_ledger first_commit (m, ok, q, chained) as_computed.first

second_ledger-IsChained : IsChained memory util (env false) buffer second_ledger
second_ledger-IsChained =
    let (m, ok, q, chained, _, _) =
      commit_tx_batch-IsChained memory util (env false) buffer (env-IsProto false) now (some 8) []
        [] none second_batch (delta_bytes second_batch.state.state_delta) first_ledger-IsChained
        (subst (λ n. n + 1 < 18446744073709551616) (sym as_computed.one_block) (omega arith))
        as_computed.no_delta_marshalled in
    same_ledger-IsChained second_ledger second_commit (m, ok, q, chained) as_computed.second

verify_chain-Chain_example :
    verify_chain memory util (env false) buffer 1 0 second_ledger ≡ (0, true)
verify_chain-Chain_example =
    verify_chain-Chain memory util (env false) buffer second_ledger 1 0 second_ledger-IsChained
      (omega arith) (subst (λ n. 1 < n) (sym as_computed.two_blocks) (omega arith))

get_tx_batch_preview_block-commit_tx_batch_example :
    (b : Block) × (fetch_block_from_db (env false) 0 (ledger_of previewed_commit).db ≡ fetched b)
    × (get_block_hash (env false) b ≡ get_block_hash (env false) preview_block)
get_tx_batch_preview_block-commit_tx_batch_example =
    get_tx_batch_preview_block-commit_tx_batch memory util (env false) buffer (env-IsProto false)
      (λ _. refl) now (some 7) transactions results none open_batch preview.0
      (ledger_of previewed_commit) preview_block change_bytes (block_bytes preview_block)
      as_computed.shown refl (omega arith) as_computed.delta_marshalled as_computed.shown_commit

commit_tx_batch-IsFound_example :
    IsFound memory util (env false) buffer (env-IsVarint false) transactions open_batch first_ledger
commit_tx_batch-IsFound_example =
    commit_tx_batch-IsFound memory util (env false) buffer (env-IsVarint false) (env-IsProto false)
      now (some 7) transactions results none open_batch first_ledger change_bytes (omega arith)
      as_computed.delta_marshalled ((refl, tt), (tt, tt)) as_computed.first

empty-HasDeltas : HasDeltas 1 0 (empty false).db
unfolding lookup
empty-HasDeltas k hk = ground arith

commit_tx_batch-KeepsDeltas_example :
    KeepsDeltas memory util (env false) buffer buffer-IsCodec open_batch first_ledger
unfolding lookup
commit_tx_batch-KeepsDeltas_example =
    commit_tx_batch-KeepsDeltas memory util (env false) buffer buffer-IsCodec (env-IsProto false)
      now (some 7) transactions results none open_batch first_ledger
      (head_of (delta_bytes change_a)) (tail_of (delta_bytes change_a)) (omega arith) (omega arith)
      record { once = (refl, tt); once_each = ((refl, tt), tt) } (omega arith) (omega arith, tt)
      as_computed.delta_marshalled empty-HasDeltas as_computed.first

clean-IsIdle : IsIdle memory util genesis clean
unfolding Delta.get lookup
clean-IsIdle = record {
  recorded = record {
    reads = λ _ _. refl;
    block_once = record { once = tt; once_each = tt };
    block_records = λ _ _. tt;
    tx_once = record { once = tt; once_each = tt };
    tx_records = λ _ _. tt;
  };
  no_tx = refl;
  no_changes = refl;
}

begun_lem : begin_tx_batch memory util (env false) buffer (some 7) (empty false) ≡ (begun, true)
unfolding begin_tx_batch
begun_lem = refl

commit_tx_batch-hands_over_example :
    (m : Ledger memory util (env false) buffer) × (ok : Bool) × (y : memory.Impl) × (commit_tx_batch
        memory util
        (env false)
        buffer
        now
        (some 7)
        transactions
        results
        none
        (record begun { state = ran })
      ≡ some (m, ok))
    × ((name key : String)
        → get memory util name key false ran ≡ some (forwards ran.state_delta genesis name key))
    × IsWorkingSet memory util clean.state_impl clean.state_delta ran.state_delta y
    × (m.state.state_impl ≡ (
        if ok
        then persisted memory util (memory.hash_state y).0
        else discarded memory util (memory.hash_state y).0))
    × (m.state.state_delta ≡ new_state_delta)
    × (ok ≡ false → m.db ≡ begun.db)
commit_tx_batch-hands_over_example =
    commit_tx_batch-hands_over memory util genesis (env false) buffer (env-IsProto false) now
      (some 7) runs_of_batch transactions results none (empty false) begun ran
      (delta_bytes ran.state_delta) (refl, (refl, tt)) clean-IsIdle (omega arith) begun_lem
      as_computed.ran_all as_computed.ran_marshalled

put_raw_block-verify_chain_example :
    verify_chain memory util
      (env false)
      buffer
      (suc second_batch.blockchain.size)
      second_batch.blockchain.size
      (ledger_of put_commit)
    ≡ (suc second_batch.blockchain.size, true)
put_raw_block-verify_chain_example =
    put_raw_block-verify_chain memory util (env false) buffer (env-IsProto false) raw_block
      second_batch raw_put.0 (ledger_of put_commit) (head_of (block_bytes raw_block))
      (tail_of (block_bytes raw_block)) raw_hash (delta_bytes second_batch.state.state_delta) now
      (some 8) [] [] none as_computed.raw_marshalled as_computed.raw_hashed as_computed.other_hash
      (subst (λ n. n + 2 < 18446744073709551616) (sym as_computed.one_block) (omega arith)) refl
      as_computed.no_delta_marshalled as_computed.was_put as_computed.put_then

put_raw_block-refused_example :
    (m : Ledger memory util (env true) buffer) × (put_raw_block memory util
        (env true)
        buffer
        raw_block
        0
        (empty true)
      ≡ (m, false))
    × (m.db ≡ (empty true).db)
    × (m.blockchain.size ≡ 0 + 1)
    × (get_block_by_number memory util (env true) buffer 0 m ≡ nothing)
unfolding fetch_block_from_db lookup
put_raw_block-refused_example =
    put_raw_block-refused memory util (env true) buffer raw_block (empty true)
      (block_bytes raw_block) raw_hash refl as_computed.raw_hashed_again (omega arith) refl refl

new_blockchain-commit_tx_batch_example :
    new_blockchain (env false) first_ledger.db ≡ some first_ledger.blockchain
new_blockchain-commit_tx_batch_example =
    new_blockchain-commit_tx_batch memory util (env false) buffer (env-IsProto false) now (some 7)
      transactions results none open_batch first_ledger change_bytes (omega arith)
      as_computed.delta_marshalled as_computed.first
