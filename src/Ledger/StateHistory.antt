-- ===== src/Ledger/StateHistory.antt =====
-- `GetStateDelta` after a commit.
use hyperledger_fabric.Base.{Bytes, bytes_key, leb, length}
use hyperledger_fabric.Base.ByteSlices.{encode_uint64}
use hyperledger_fabric.Base.Map.{lookup}
use hyperledger_fabric.Ledger.Store.{Db, not_empty}
use hyperledger_fabric.Ledger.Block.{Env, Timestamp, Transaction, TransactionResult}
use hyperledger_fabric.Ledger.Blockchain.{stored_block}
use hyperledger_fabric.Ledger.Batches.{Ledger, batch_block, commit_tx_batch, get_state_delta}
use hyperledger_fabric.Ledger.Proto.{IsProto}
use hyperledger_fabric.Ledger.CommitSteps.{commit_tx_batch-IsCommitted}
use hyperledger_fabric.Ledger.History.{
  HasDeltas, is_stored, HasDeltas-new_changes, lookup-new_delta, lookup-kept_delta,
}
use hyperledger_fabric.Statemgmt.Delta.{Slice, StateDelta, new_state_delta}
use hyperledger_fabric.Statemgmt.Delta.Hash.{Util}
use hyperledger_fabric.Statemgmt.Delta.Merge.{IsDelta}
use hyperledger_fabric.Statemgmt.Delta.Marshal.{Buffer, marshal, unmarshal}
use hyperledger_fabric.Statemgmt.Delta.Marshal.RoundTrip.{
  IsCodec, HaveSizes, kept_deltas, unmarshal-marshal,
}
use hyperledger_fabric.Statemgmt.State.{HashableState}
use hyperledger_fabric.Statemgmt.State.Persistence.{decoded_delta, fetch_state_delta_from_db}
use Prim.Native.Nat.{ℕ, suc, ◌+◌, ◌<◌, ◌≤◌}
use mathlib.Core.Path.{◌≡◌, refl, sym, ap, ◌∙◌, subst₂}
use mathlib.Core.Bool.{Bool, true, false}
use mathlib.Core.Option.{Option, none, some}
use mathlib.Core.List.{List, ◌∷◌}
use native.Mathlib.Omega.{arith}

fetch-lookup :
    (p : Buffer) (n : ℕ) (o : Option Bytes) (d : Db)
    → lookup (encode_uint64 n) d.state_delta_cf ≡ o
    → fetch_state_delta_from_db p n d ≡ decoded_delta p (not_empty o)
unfolding fetch_state_delta_from_db
fetch-lookup p n o d h = ap (λ x. decoded_delta p (not_empty x)) h

gone : (o : Option Bytes) → is_stored o ≡ false → o ≡ none
gone none h = refl
gone (some b) h = cc h

module _ (i : HashableState) (util : Util) (e : Env) (p : Buffer) (codec : IsCodec p) where
  -- What `GetStateDelta` gives once a commit has added a block.
  pub record KeepsDeltas (l m : Ledger i util e p) : Type 0 where
    -- The new block's delta, with empty slices as nil.
    pub newest :
        get_state_delta i util e p l.blockchain.size m
        ≡ some (
            some (record new_state_delta {
              chaincode_state_deltas = kept_deltas l.state.state_delta.chaincode_state_deltas;
            }))
    pub earlier :
        (k : ℕ)
        → k < l.blockchain.size
        → suc l.blockchain.size ≤ k + l.state.history_state_delta_size
        → get_state_delta i util e p k m ≡ get_state_delta i util e p k l
    pub dropped :
        (k : ℕ)
        → k + l.state.history_state_delta_size < suc l.blockchain.size
        → get_state_delta i util e p k m ≡ some none
    pub has : HasDeltas l.state.history_state_delta_size m.blockchain.size m.db

  get_state_delta-inside :
      (l : Ledger i util e p) (k : ℕ)
      → k < l.blockchain.size
      → get_state_delta i util e p k l ≡ some (fetch_state_delta_from_db p k l.db)
  unfolding get_state_delta
  get_state_delta-inside l k lt =
      let inside : leb l.blockchain.size k ≡ false = ground arith in rw inside refl

  unmarshal-own :
      (d : StateDelta) (byte : ℕ) (bytes : Bytes)
      → IsDelta d
      → length d.chaincode_state_deltas < 18446744073709551616
      → HaveSizes d.chaincode_state_deltas
      → marshal p d ≡ some (byte ∷ bytes)
      → (unmarshal p (byte ∷ bytes) new_state_delta).0
        ≡ (record new_state_delta { chaincode_state_deltas = kept_deltas d.chaincode_state_deltas })
  unmarshal-own d byte bytes once few sizes marshalled =
      let (b, q, r) = unmarshal-marshal p codec d new_state_delta once few sizes in
      let both : some b ≡ some (byte ∷ bytes) = sym q ∙ marshalled in
      let same : b ≡ byte ∷ bytes = cc both in
      ap (λ x. (unmarshal p x new_state_delta).0) (sym same) ∙ ap (λ (x : StateDelta × Bool). x.0) r

  -- A commit that succeeds puts the batch's delta into the history, if that is not of length 0, keeps the
  -- deltas of the last blocks, as many as the history is long, and drops the earlier ones. The database
  -- had exactly those of its last blocks before; the encoding reads back what it wrote.
  pub commit_tx_batch-KeepsDeltas :
      IsProto e
      → (now : Timestamp) (id : Option ℕ) (txs : List Transaction)
        (results : List TransactionResult) (metadata : Slice) (l m : Ledger i util e p) (byte : ℕ)
        (bytes : Bytes)
      → l.blockchain.size + 1 < 18446744073709551616
      → 0 < l.state.history_state_delta_size
      → IsDelta l.state.state_delta
      → length l.state.state_delta.chaincode_state_deltas < 18446744073709551616
      → HaveSizes l.state.state_delta.chaincode_state_deltas
      → marshal p l.state.state_delta ≡ some (byte ∷ bytes)
      → HasDeltas l.state.history_state_delta_size l.blockchain.size l.db
      → commit_tx_batch i util e p now id txs results metadata l ≡ some (m, true)
      → KeepsDeltas l m
  unfolding get_state_delta
  commit_tx_batch-KeepsDeltas proto now id txs results metadata l m byte bytes small long once few
        sizes marshalled has done =
      let a =
        commit_tx_batch-IsCommitted i util e p proto now id txs results metadata l m (byte ∷ bytes)
          small marshalled done in
      let n = l.blockchain.size in
      let history = l.state.history_state_delta_size in
      let b = stored_block now l.blockchain (batch_block txs results metadata) a.state_hash in
      let above : n < 18446744073709551616 = omega arith in
      let after : HasDeltas history m.blockchain.size m.db =
        subst₂ (λ size db. HasDeltas history size db) (sym a.size) (sym a.batch)
          (HasDeltas-new_changes e b history n a.bytes a.hash a.delta l.db above has) in
      let entry : Option Bytes = some (byte ∷ bytes) in
      let own : some a.delta ≡ entry = sym a.delta_marshalled ∙ marshalled in
      record {
        newest =
            get_state_delta-inside m n (omega (arith, a.size))
            ∙ ap some (
                fetch-lookup p n entry m.db (
                  ap (λ (x : Db). lookup (encode_uint64 n) x.state_delta_cf) a.batch
                  ∙ (lookup-new_delta e b history n a.bytes a.hash a.delta l.db above long ∙ own))
                ∙ ap some (unmarshal-own l.state.state_delta byte bytes once few sizes marshalled));
        earlier = λ k lt stays.
            get_state_delta-inside m k (omega (arith, a.size))
            ∙ (ap some (
                  fetch-lookup p k (lookup (encode_uint64 k) l.db.state_delta_cf) m.db (
                    ap (λ (x : Db). lookup (encode_uint64 k) x.state_delta_cf) a.batch
                    ∙ lookup-kept_delta e b history n k a.bytes a.hash a.delta l.db above lt stays)
                  ∙ sym (fetch-lookup p k (lookup (encode_uint64 k) l.db.state_delta_cf) l.db refl))
                ∙ sym (get_state_delta-inside l k lt));
        dropped = λ k out.
            get_state_delta-inside m k (omega (arith, a.size))
            ∙ ap some (
                fetch-lookup p k none m.db (
                  gone (lookup (encode_uint64 k) m.db.state_delta_cf)
                    (after k (omega arith) ∙ rw a.size (ground (arith, out)))));
        has = after;
      }
