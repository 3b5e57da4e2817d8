-- ===== src/Ledger/Verify.antt =====
-- `VerifyChain` on a chain.
use hyperledger_fabric.Base.{bytes_beq_iff, leb, Bool-cases, nat_beq, nat_beq_iff}
use hyperledger_fabric.Ledger.Store.{Db}
use hyperledger_fabric.Ledger.Block.{Env, Block, get_block_hash}
use hyperledger_fabric.Ledger.Blockchain.{fetched, fetch_block_from_db}
use hyperledger_fabric.Ledger.Batches.{
  Ledger, get_block_by_number, verify_loop, verify_chain, check_link,
}
use hyperledger_fabric.Ledger.Chain.{Chain}
use hyperledger_fabric.Statemgmt.Delta.{Slice}
use hyperledger_fabric.Statemgmt.Delta.Hash.{Util}
use hyperledger_fabric.Statemgmt.Delta.Marshal.{Buffer, bytes_of}
use hyperledger_fabric.Statemgmt.State.{HashableState}
use Prim.Native.Nat.{ℕ, zero, suc, ◌+◌, ◌-◌, ◌<◌}
use mathlib.Core.Path.{◌≡◌, refl, sym, subst}
use mathlib.Core.Logic.{inl, inr}
use mathlib.Core.Bool.{true, false}
use mathlib.Core.Option.{some}
use native.Mathlib.Omega.{arith}

-- A block and the one before it, both stored, linked by the hash.
pub record LinkAt (e : Env) (d : Db) (n : ℕ) : Type 0 where
  pub block : Block
  pub previous : Block
  pub stored : fetch_block_from_db e (suc n) d ≡ fetched block
  pub stored_previous : fetch_block_from_db e n d ≡ fetched previous
  pub hash : get_block_hash e previous ≡ some (bytes_of block.previous_block_hash)

Chain-LinkAt : (e : Env) (k n : ℕ) (h : Slice) (d : Db) → suc n < k → Chain e k h d → LinkAt e d n
Chain-LinkAt e zero n h d lt chain = absurd (omega arith)
Chain-LinkAt e (suc zero) n h d lt chain = absurd (omega arith)
Chain-LinkAt e (suc (suc k)) n h d lt (b, stored, hash, (c, before, previous, rest)) =
    elim (Bool-cases (nat_beq n k)) [
      | inl last ↦
          subst (λ x. LinkAt e d x) (sym ((nat_beq_iff n k).0 last))
            record {
              block = b;
              previous = c;
              stored = stored;
              stored_previous = before;
              hash = previous;
            }
      | inr before_it ↦
          Chain-LinkAt e (suc k) n b.previous_block_hash d (ground arith)
            (c, before, previous, rest)
    ]

leb-false : (a b : ℕ) → b < a → leb a b ≡ false
leb-false a b h = ground arith

module _ (i : HashableState) (util : Util) (e : Env) (p : Buffer) where
  check_link-LinkAt :
      (l : Ledger i util e p) (n : ℕ)
      → suc n < l.blockchain.size
      → LinkAt e l.db n
      → check_link i util e p n
          (get_block_by_number i util e p (suc n) l)
          (get_block_by_number i util e p n l)
        ≡ inr true
  unfolding get_block_by_number
  check_link-LinkAt l n lt link =
      rw
        (
          leb-false l.blockchain.size (suc n) lt,
          leb-false l.blockchain.size n (omega arith),
          link.stored,
          link.stored_previous,
          link.hash,
          (bytes_beq_iff (bytes_of link.block.previous_block_hash)
                (bytes_of link.block.previous_block_hash)).1
              refl,
        )
        refl

  verify_loop-Chain :
      (l : Ledger i util e p) (low k : ℕ)
      → Chain e l.blockchain.size l.blockchain.previous_block_hash l.db
      → low + k < l.blockchain.size
      → verify_loop i util e p low k l ≡ (0, true)
  unfolding verify_loop
  verify_loop-Chain l low zero chain lt = refl
  verify_loop-Chain l low (suc k) chain lt =
      rw
        (check_link-LinkAt l (low + k) (omega arith) (
          Chain-LinkAt e l.blockchain.size (low + k) l.blockchain.previous_block_hash l.db
            (omega arith) chain))
        (verify_loop-Chain l low k chain (omega arith))

  -- On a chain in the database, `VerifyChain` finds no error and no wrong link, for any bounds in the
  -- chain, the high one above the low one.
  pub verify_chain-Chain :
      (l : Ledger i util e p) (high low : ℕ)
      → Chain e l.blockchain.size l.blockchain.previous_block_hash l.db
      → low < high
      → high < l.blockchain.size
      → verify_chain i util e p high low l ≡ (0, true)
  unfolding verify_chain
  verify_chain-Chain l high low chain lt le =
      rw (leb-false l.blockchain.size high le, leb-false high low lt)
        (verify_loop-Chain l low (high - low) chain (omega arith))
