-- ===== src/Ledger/History.antt =====
-- The deltas of earlier blocks that the ledger keeps.
use hyperledger_fabric.Base.{
  Bytes, bytes_key, All, All-append, Bool-cases, ◌==◌, if◌then◌else◌, leb, ltb, nat_beq,
  nat_beq_iff,
}
use hyperledger_fabric.Base.ByteSlices.{encode_uint64, encode_uint64-inj}
use hyperledger_fabric.Base.Map.{Map, lookup, insert, lookup-insert, lookup-delete}
use hyperledger_fabric.Ledger.Store.{
  Db, Change, put_blockchain, put_state_delta, delete_state_delta, put_index, make_change,
  write_batch,
}
use hyperledger_fabric.Ledger.Block.{Env, Block, Transaction}
use hyperledger_fabric.Ledger.Indexes.{
  add_index_data_for_persistence, index_transactions, index_addresses, tx_indexes_by_address,
}
use hyperledger_fabric.Ledger.Blockchain.{block_changes}
use hyperledger_fabric.Statemgmt.State.Persistence.{delta_changes}
use Prim.Native.Nat.{ℕ, suc, ◌+◌, ◌-◌, ◌<◌, ◌≤◌}
use Prim.Native.String.{String}
use mathlib.Core.Path.{◌≡◌, refl, sym, ap, ◌∙◌}
use mathlib.Core.Logic.{inl, inr}
use mathlib.Core.Bool.{Bool, true, false, ◌&&◌}
use mathlib.Core.Option.{Option, none, some}
use mathlib.Core.List.{List, [], ◌∷◌, ◌++◌}
use native.Mathlib.Omega.{arith}

-- A change that touches no delta.
abbrev SparesDeltas : Change → Type 0
SparesDeltas (put_blockchain k v) = Unit
SparesDeltas (put_state_delta k v) = ⊥
SparesDeltas (delete_state_delta k) = ⊥
SparesDeltas (put_index k v) = Unit

write_batch-append :
    (cs more : List Change) (d : Db)
    → write_batch (cs ++ more) d ≡ write_batch more (write_batch cs d)
unfolding write_batch
write_batch-append [] more d = refl
write_batch-append (c ∷ cs) more d = write_batch-append cs more (make_change c d)

deltas-write_batch :
    (cs : List Change) (d : Db)
    → All SparesDeltas cs
    → (write_batch cs d).state_delta_cf ≡ d.state_delta_cf
unfolding write_batch
deltas-write_batch [] d _ = refl
deltas-write_batch (put_blockchain k v ∷ cs) d h =
    deltas-write_batch cs (make_change (put_blockchain k v) d) h.1
deltas-write_batch (put_state_delta k v ∷ cs) d h = absurd h.0
deltas-write_batch (delete_state_delta k ∷ cs) d h = absurd h.0
deltas-write_batch (put_index k v ∷ cs) d h =
    deltas-write_batch cs (make_change (put_index k v) d) h.1

index_transactions-SparesDeltas :
    (e : Env) (n i : ℕ) (txs : List Transaction) → All SparesDeltas (index_transactions e n i txs)
unfolding index_transactions
index_transactions-SparesDeltas e n i [] = tt
index_transactions-SparesDeltas e n i (tx ∷ txs) =
    (tt, index_transactions-SparesDeltas e n (i + 1) txs)

index_addresses-SparesDeltas :
    (e : Env) (n : ℕ) (m : Map String (List ℕ)) → All SparesDeltas (index_addresses e n m)
unfolding index_addresses
index_addresses-SparesDeltas e n [] = tt
index_addresses-SparesDeltas e n ((a, is) ∷ m) = (tt, index_addresses-SparesDeltas e n m)

block_changes-SparesDeltas :
    (e : Env) (b : Block) (n : ℕ) (bytes hash : Bytes)
    → All SparesDeltas (block_changes e b n bytes hash)
unfolding add_index_data_for_persistence
block_changes-SparesDeltas e b n bytes hash = (
  tt,
  (
    tt,
    (
      tt,
      All-append SparesDeltas (index_transactions e n 0 b.transactions)
          (index_addresses e n (tx_indexes_by_address 0 b.transactions []))
          (index_transactions-SparesDeltas e n 0 b.transactions)
          (index_addresses-SparesDeltas e n (tx_indexes_by_address 0 b.transactions [])),
    ),
  ),
)

-- The entry of a number after the changes for a block's delta.
lookup-delta_changes :
    (history n : ℕ) (bytes k : Bytes) (d : Db)
    → lookup k (write_batch (delta_changes history n bytes) d).state_delta_cf ≡ (
        if leb history n
        then if k == encode_uint64 (n - history)
          then none
          else if encode_uint64 n == k
          then some bytes
          else lookup k d.state_delta_cf
        else if encode_uint64 n == k
        then some bytes
        else lookup k d.state_delta_cf)
unfolding write_batch
lookup-delta_changes history n bytes k d = elim (Bool-cases (leb history n)) [
  | inl old ↦
      rw
        (
          old,
          lookup-delete (encode_uint64 (n - history)) k
              (insert (encode_uint64 n) bytes d.state_delta_cf),
          lookup-insert bytes d.state_delta_cf (encode_uint64 n) k,
        )
        refl
  | inr all_kept ↦ rw (all_kept, lookup-insert bytes d.state_delta_cf (encode_uint64 n) k) refl
]

abbrev pub is_stored : Option Bytes → Bool
is_stored none = false
is_stored (some b) = true

-- Of the numbers of 64 bits, exactly the last ones below `n` have an entry, as many as the history is
-- long.
abbrev pub HasDeltas : ℕ → ℕ → Db → Type 0
HasDeltas history n d =
    (k : ℕ)
    → k < 18446744073709551616
    → is_stored (lookup (encode_uint64 k) d.state_delta_cf) ≡ (ltb k n && leb n (k + history))

encode_uint64-same :
    (a b : ℕ)
    → a < 18446744073709551616
    → b < 18446744073709551616
    → (encode_uint64 a == encode_uint64 b) ≡ nat_beq a b
encode_uint64-same a b ha hb = elim (Bool-cases (encode_uint64 a == encode_uint64 b)) [
  | inl same ↦
      let q =
        encode_uint64-inj a b ha hb
          ((bytes_key.same_iff (encode_uint64 a) (encode_uint64 b)).0 same) in
      same ∙ sym ((nat_beq_iff a b).1 q)
  | inr other ↦ elim (Bool-cases (nat_beq a b)) [
    | inl equal ↦
        let q =
          (bytes_key.same_iff (encode_uint64 a) (encode_uint64 b)).1
            (ap encode_uint64 ((nat_beq_iff a b).0 equal)) in
        cc q
    | inr unequal ↦ other ∙ sym unequal
  ]
]

-- The block of number `n`, its indexes and its delta.
abbrev pub new_changes : Env → Block → ℕ → ℕ → Bytes → Bytes → Bytes → List Change
new_changes e b history n bytes hash delta =
    block_changes e b n bytes hash ++ delta_changes history n delta

lookup-new_changes :
    (e : Env) (b : Block) (history n k : ℕ) (bytes hash delta : Bytes) (d : Db)
    → n < 18446744073709551616
    → k < 18446744073709551616
    → lookup
        (encode_uint64 k)
        (write_batch (new_changes e b history n bytes hash delta) d).state_delta_cf
      ≡ (if leb history n && nat_beq k (n - history)
          then none
          else if nat_beq n k
          then some delta
          else lookup (encode_uint64 k) d.state_delta_cf)
lookup-new_changes e b history n k bytes hash delta d hn hk =
    let cs = block_changes e b n bytes hash in
    let own = write_batch cs d in
    rw
      (
        write_batch-append cs (delta_changes history n delta) d,
        lookup-delta_changes history n delta (encode_uint64 k) own,
        deltas-write_batch cs d (block_changes-SparesDeltas e b n bytes hash),
        encode_uint64-same k (n - history) hk (omega arith),
        encode_uint64-same n k hn hk,
      )
      (ground arith)

-- The entry of `k`, when there is one more block.
entry_after :
    (history n k : ℕ) (delta : Bytes) (o : Option Bytes)
    → is_stored o ≡ (ltb k n && leb n (k + history))
    → is_stored (
        if leb history n && nat_beq k (n - history)
        then none
        else if nat_beq n k
        then some delta
        else o)
      ≡ (ltb k (suc n) && leb (suc n) (k + history))
entry_after history n k delta none h = ground (arith, h)
entry_after history n k delta (some x) h = ground (arith, h)

pub HasDeltas-new_changes :
    (e : Env) (b : Block) (history n : ℕ) (bytes hash delta : Bytes) (d : Db)
    → n < 18446744073709551616
    → HasDeltas history n d
    → HasDeltas history (suc n) (write_batch (new_changes e b history n bytes hash delta) d)
HasDeltas-new_changes e b history n bytes hash delta d hn has k hk =
    ap is_stored (lookup-new_changes e b history n k bytes hash delta d hn hk)
    ∙ entry_after history n k delta (lookup (encode_uint64 k) d.state_delta_cf) (has k hk)

-- The entries that a new block leaves: its own, and those of the numbers that stay in the history.
pub lookup-new_delta :
    (e : Env) (b : Block) (history n : ℕ) (bytes hash delta : Bytes) (d : Db)
    → n < 18446744073709551616
    → 0 < history
    → lookup
        (encode_uint64 n)
        (write_batch (new_changes e b history n bytes hash delta) d).state_delta_cf
      ≡ some delta
lookup-new_delta e b history n bytes hash delta d hn long =
    lookup-new_changes e b history n n bytes hash delta d hn hn ∙ ground arith

pub lookup-kept_delta :
    (e : Env) (b : Block) (history n k : ℕ) (bytes hash delta : Bytes) (d : Db)
    → n < 18446744073709551616
    → k < n
    → suc n ≤ k + history
    → lookup
        (encode_uint64 k)
        (write_batch (new_changes e b history n bytes hash delta) d).state_delta_cf
      ≡ lookup (encode_uint64 k) d.state_delta_cf
lookup-kept_delta e b history n k bytes hash delta d hn lt stays =
    lookup-new_changes e b history n k bytes hash delta d hn (omega arith) ∙ ground arith
