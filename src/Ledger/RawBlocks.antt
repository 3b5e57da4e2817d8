-- ===== src/Ledger/RawBlocks.antt =====
-- `PutRawBlock` at the end of the chain, and the commit that follows it.
use hyperledger_fabric.Base.{Bytes, bytes_beq, ltb, leb}
use hyperledger_fabric.Ledger.Store.{write_batch}
use hyperledger_fabric.Ledger.Block.{
  Env, Block, Timestamp, Transaction, TransactionResult, get_block_hash,
}
use hyperledger_fabric.Ledger.Blockchain.{
  Blockchain, nothing, fetched, fetch_block_from_db, stored_block, block_changes, raw_changes,
  persist_raw_block, unmarshalled,
}
use hyperledger_fabric.Ledger.Batches.{
  Ledger, batch_block, commit_tx_batch, put_raw_block, get_block_by_number, verify_chain,
  verify_loop,
}
use hyperledger_fabric.Ledger.Proto.{IsProto, normal, get_block_hash-normal}
use hyperledger_fabric.Ledger.Chain.{fetch-block_changes_self}
use hyperledger_fabric.Ledger.CommitSteps.{commit_tx_batch-IsCommitted}
use hyperledger_fabric.Ledger.Outcome.{normal_slice_bytes}
use hyperledger_fabric.Statemgmt.Delta.{Slice}
use hyperledger_fabric.Statemgmt.Delta.Hash.{Util}
use hyperledger_fabric.Statemgmt.Delta.Marshal.{Buffer, bytes_of, marshal}
use hyperledger_fabric.Statemgmt.State.{HashableState}
use Prim.Native.Nat.{ℕ, suc, ◌+◌, ◌-◌, ◌%◌, ◌<◌}
use mathlib.Core.Path.{◌≡◌, refl, sym, ap, ◌∙◌, subst}
use mathlib.Core.Bool.{Bool, true, false}
use mathlib.Core.Option.{Option, some}
use mathlib.Core.List.{List, [], ◌∷◌, append-nil}
use native.Mathlib.Omega.{arith}

next_height :
    (n : ℕ)
    → n + 1 < 18446744073709551616
    → ((n + 1) % 18446744073709551616 ≡ n + 1) × (ltb n (n + 1) ≡ true)
next_height n small = (omega arith, ground arith)

raw-block_changes :
    (e : Env) (b : Block) (c : Blockchain) (bytes hash : Bytes)
    → c.size + 1 < 18446744073709551616
    → raw_changes e b c.size c bytes hash ≡ block_changes e b c.size bytes hash
raw-block_changes e b c bytes hash small =
    let (height, above) = next_height c.size small in rw (height, above) refl

module _ (i : HashableState) (util : Util) (e : Env) (p : Buffer) where
  -- A block put at the end moves the size and is stored; the hash that the next block is linked to
  -- stays.
  pub record AddsBlock (b : Block) (l m : Ledger i util e p) : Type 0 where
    pub done : put_raw_block i util e p b l.blockchain.size l ≡ (m, true)
    pub size : m.blockchain.size ≡ l.blockchain.size + 1
    pub tip : m.blockchain.previous_block_hash ≡ l.blockchain.previous_block_hash
    pub stored : fetch_block_from_db e l.blockchain.size m.db ≡ fetched (normal b)
    pub same_delta : m.state.state_delta ≡ l.state.state_delta

  put_raw_block-AddsBlock :
      IsProto e
      → (b : Block) (l : Ledger i util e p) (byte : ℕ) (bytes hash : Bytes)
      → e.marshal_block b ≡ some (byte ∷ bytes)
      → get_block_hash e b ≡ some hash
      → l.blockchain.size + 1 < 18446744073709551616
      → e.write_error (block_changes e b l.blockchain.size (byte ∷ bytes) hash) ≡ false
      → (m : Ledger i util e p) × AddsBlock b l m
  unfolding put_raw_block persist_raw_block
  put_raw_block-AddsBlock proto b l byte bytes hash mb hb small taken =
      let n = l.blockchain.size in
      let (height, above) = next_height n small in
      let changes = block_changes e b n (byte ∷ bytes) hash in
      (
        record l {
          blockchain = record l.blockchain { size = n + 1 };
          db = write_batch changes l.db;
        },
        record {
          done = rw (mb, hb, height, above, taken) refl;
          size = refl;
          tip = refl;
          stored =
              ap (λ cs. fetch_block_from_db e n (write_batch cs l.db)) (sym (append-nil changes))
              ∙ (fetch-block_changes_self e b n byte bytes hash [] l.db tt
                  ∙ ap unmarshalled (proto.read_back b (byte ∷ bytes) mb));
          same_delta = refl;
        },
      )

  -- The two last blocks, when the last is not linked to the one before.
  verify_chain-unlinked :
      (l : Ledger i util e p) (n : ℕ) (b previous : Block) (hash : Bytes)
      → l.blockchain.size ≡ suc (suc n)
      → fetch_block_from_db e (suc n) l.db ≡ fetched b
      → fetch_block_from_db e n l.db ≡ fetched previous
      → get_block_hash e previous ≡ some hash
      → bytes_beq hash (bytes_of b.previous_block_hash) ≡ false
      → verify_chain i util e p (suc n) n l ≡ (suc n, true)
  unfolding verify_chain verify_loop get_block_by_number
  verify_chain-unlinked l n b previous hash size stored before hb other =
      let one : suc n - n ≡ 1 = omega arith in
      let zero_more : n + 0 ≡ n = omega arith in
      let high : leb (suc (suc n)) (suc n) ≡ false = ground arith in
      let low : leb (suc n) n ≡ false = ground arith in
      let under : leb (suc (suc n)) n ≡ false = ground arith in
      rw (one, zero_more, size, high, low, under, stored, before, hb, other) refl

  -- `PutRawBlock` of a block at the end of the chain does not move the hash that the next block is linked
  -- to. If the database takes the block, and its hash is not the one that the ledger kept, then after
  -- each commit that succeeds next, `VerifyChain` reports the new block as wrongly linked.
  pub put_raw_block-verify_chain :
      IsProto e
      → (b : Block) (l m m2 : Ledger i util e p) (byte : ℕ) (bytes hash delta : Bytes)
        (now : Timestamp) (id : Option ℕ) (txs : List Transaction)
        (results : List TransactionResult) (metadata : Slice)
      → e.marshal_block b ≡ some (byte ∷ bytes)
      → get_block_hash e b ≡ some hash
      → bytes_beq hash (bytes_of l.blockchain.previous_block_hash) ≡ false
      → l.blockchain.size + 2 < 18446744073709551616
      → e.write_error (block_changes e b l.blockchain.size (byte ∷ bytes) hash) ≡ false
      → marshal p l.state.state_delta ≡ some delta
      → put_raw_block i util e p b l.blockchain.size l ≡ (m, true)
      → commit_tx_batch i util e p now id txs results metadata m ≡ some (m2, true)
      → verify_chain i util e p (suc l.blockchain.size) l.blockchain.size m2
        ≡ (suc l.blockchain.size, true)
  put_raw_block-verify_chain proto b l m m2 byte bytes hash delta now id txs results metadata mb hb
        other small taken dm put done =
      let (put_as, is_put) =
        put_raw_block-AddsBlock proto b l byte bytes hash mb hb (omega arith) taken in
      let same : put_as ≡ m = ap (λ (x : Ledger i util e p × Bool). x.0) (sym is_put.done ∙ put) in
      let a = subst (AddsBlock b l) same is_put in
      let c =
        commit_tx_batch-IsCommitted i util e p proto now id txs results metadata m m2 delta
          (omega (arith, a.size)) (ap (marshal p) a.same_delta ∙ dm) done in
      let n = l.blockchain.size in
      let msize : m.blockchain.size ≡ suc n = omega (arith, a.size) in
      let size : m2.blockchain.size ≡ suc (suc n) = c.size ∙ ap suc msize in
      let x = stored_block now m.blockchain (batch_block txs results metadata) c.state_hash in
      let tip : bytes_of x.previous_block_hash ≡ bytes_of l.blockchain.previous_block_hash =
        ap bytes_of a.tip in
      verify_chain-unlinked m2 n (normal x) (normal b) hash size
        (ap (λ k. fetch_block_from_db e k m2.db) (sym msize) ∙ c.stored)
        (c.others n (omega (arith, a.size)) ∙ a.stored)
        (get_block_hash-normal e proto b (byte ∷ bytes) mb ∙ hb)
        (ap (bytes_beq hash) (sym (normal_slice_bytes m.blockchain.previous_block_hash) ∙ tip)
          ∙ other)

  -- `PutRawBlock` of a block at the end of the chain that the database refuses answers with an error and
  -- leaves the database as it was, and yet counts the block: its number then reads as no block and no
  -- error.
  pub put_raw_block-refused :
      (b : Block) (l : Ledger i util e p) (bytes hash : Bytes)
      → e.marshal_block b ≡ some bytes
      → get_block_hash e b ≡ some hash
      → l.blockchain.size + 1 < 18446744073709551616
      → e.write_error (block_changes e b l.blockchain.size bytes hash) ≡ true
      → fetch_block_from_db e l.blockchain.size l.db ≡ nothing
      → (m : Ledger i util e p) × (put_raw_block i util e p b l.blockchain.size l ≡ (m, false))
        × (m.db ≡ l.db)
        × (m.blockchain.size ≡ l.blockchain.size + 1)
        × (get_block_by_number i util e p l.blockchain.size m ≡ nothing)
  unfolding put_raw_block persist_raw_block get_block_by_number
  put_raw_block-refused b l bytes hash mb hb small refused missing =
      let n = l.blockchain.size in
      let (height, above) = next_height n small in
      let inside : leb (n + 1) n ≡ false = ground arith in
      (
        record l { blockchain = record l.blockchain { size = n + 1 } },
        rw (mb, hb, height, above, refused) refl,
        refl,
        refl,
        rw inside missing,
      )
