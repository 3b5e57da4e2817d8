-- ===== src/Ledger/Lookup.antt =====
-- Blocks by hash and transactions by identifier, after the changes for a block.
use hyperledger_fabric.Base.ByteSlices.{bytes_beq}
use hyperledger_fabric.Base.{
  Bytes, bytes_key, nat_beq, leb, if_cases, encode_uint64, string_key, All, Bool-cases, ◌==◌,
  if◌then◌else◌, same_refl,
}
use hyperledger_fabric.Base.Map.{Map, lookup, lookup-insert}
use hyperledger_fabric.Ledger.Store.{
  Db, Change, put_blockchain, put_state_delta, delete_state_delta, put_index, make_change,
  write_batch,
}
use hyperledger_fabric.Ledger.Block.{Env, Block, Transaction}
use hyperledger_fabric.Ledger.Indexes.{
  encode_block_hash_key, encode_tx_uuid_key, encode_block_num_tx_index,
  add_index_data_for_persistence, index_transactions, index_addresses, tx_indexes_by_address,
}
use hyperledger_fabric.Ledger.Blockchain.{fetched, nth, block_changes}
use hyperledger_fabric.Statemgmt.State.Persistence.{delta_changes}
use Prim.Native.Nat.{ℕ, zero, suc, ◌+◌, ◌-◌, ◌<◌}
use Prim.Native.String.{String}
use mathlib.Core.Path.{◌≡◌, refl, ap, ◌∙◌, subst}
use mathlib.Core.Logic.{◌≢◌, inl, inr}
use mathlib.Core.Bool.{false}
use mathlib.Core.Option.{Option, some}
use mathlib.Core.List.{List, [], ◌∷◌, ◌++◌}
use native.Mathlib.Omega.{arith}

-- The documented behaviour of the varints, and of Go's bytes of a string.
pub record IsVarint (e : Env) : Type 0 where
  pub decode_varint-encode_varint :
      (n : ℕ) (rest : Bytes)
      → n < 18446744073709551616
      → e.decode_varint (e.encode_varint n ++ rest) ≡ some (n, rest)
  pub some_bytes : (n : ℕ) → e.encode_varint n ≢ []
  pub string_bytes-inj : (a b : String) → e.string_bytes a ≡ e.string_bytes b → a ≡ b

-- What changes make of the entry of a key in the index.
index_after : Bytes → List Change → Option Bytes → Option Bytes
index_after k [] o = o
index_after k (put_blockchain j v ∷ cs) o = index_after k cs o
index_after k (put_state_delta j v ∷ cs) o = index_after k cs o
index_after k (delete_state_delta j ∷ cs) o = index_after k cs o
index_after k (put_index j v ∷ cs) o = index_after k cs (if j == k then some v else o)

index_after_lem :
    (k : Bytes) (cs : List Change) (d : Db)
    → lookup k (write_batch cs d).indexes_cf ≡ index_after k cs (lookup k d.indexes_cf)
unfolding write_batch index_after
index_after_lem k [] d = refl
index_after_lem k (put_blockchain j v ∷ cs) d =
    index_after_lem k cs (make_change (put_blockchain j v) d)
index_after_lem k (put_state_delta j v ∷ cs) d =
    index_after_lem k cs (make_change (put_state_delta j v) d)
index_after_lem k (delete_state_delta j ∷ cs) d =
    index_after_lem k cs (make_change (delete_state_delta j) d)
index_after_lem k (put_index j v ∷ cs) d =
    index_after_lem k cs (make_change (put_index j v) d)
    ∙ ap (index_after k cs) (lookup-insert v d.indexes_cf j k)

index_after-append :
    (k : Bytes) (cs more : List Change) (o : Option Bytes)
    → index_after k (cs ++ more) o ≡ index_after k more (index_after k cs o)
unfolding index_after
index_after-append k [] more o = refl
index_after-append k (put_blockchain j v ∷ cs) more o = index_after-append k cs more o
index_after-append k (put_state_delta j v ∷ cs) more o = index_after-append k cs more o
index_after-append k (delete_state_delta j ∷ cs) more o = index_after-append k cs more o
index_after-append k (put_index j v ∷ cs) more o =
    index_after-append k cs more (if j == k then some v else o)

put_other :
    (j k v : Bytes) (cs : List Change) (o : Option Bytes)
    → (j == k) ≡ false
    → index_after k (put_index j v ∷ cs) o ≡ index_after k cs o
unfolding index_after
put_other j k v cs o h = ap (λ b. index_after k cs (if b then some v else o)) h

put_self :
    (k v : Bytes) (cs : List Change) (o : Option Bytes)
    → index_after k (put_index k v ∷ cs) o ≡ index_after k cs (some v)
unfolding index_after
put_self k v cs o = ap (λ b. index_after k cs (if b then some v else o)) (same_refl k)

-- The kinds of entries do not meet.
other_kind : (a b : ℕ) (x y : Bytes) → nat_beq a b ≡ false → ((a ∷ x) == (b ∷ y)) ≡ false
unfolding bytes_beq
other_kind a b x y h = rw h refl

index_after-addresses :
    (e : Env) (n kind : ℕ) (k : Bytes) (m : Map String (List ℕ)) (o : Option Bytes)
    → nat_beq 3 kind ≡ false
    → index_after (kind ∷ k) (index_addresses e n m) o ≡ o
unfolding index_after index_addresses
index_after-addresses e n kind k [] o h = refl
index_after-addresses e n kind k ((a, is) ∷ m) o h =
    put_other _ (kind ∷ k) _ (index_addresses e n m) o (other_kind 3 kind _ k h)
    ∙ index_after-addresses e n kind k m o h

index_after-delta_changes :
    (k : Bytes) (history n : ℕ) (bytes : Bytes) (o : Option Bytes)
    → index_after k (delta_changes history n bytes) o ≡ o
unfolding index_after
index_after-delta_changes k history n bytes o =
    if_cases (λ cs. index_after k cs o ≡ o) (leb history n)
      (delete_state_delta (encode_uint64 (n - history)) ∷ []) [] (λ _. refl) (λ _. refl)

index_after-transactions :
    (e : Env) (n i : ℕ) (hash : Bytes) (txs : List Transaction) (o : Option Bytes)
    → index_after (encode_block_hash_key hash) (index_transactions e n i txs) o ≡ o
unfolding index_after index_transactions
index_after-transactions e n i hash [] o = refl
index_after-transactions e n i hash (tx ∷ txs) o =
    put_other _ (encode_block_hash_key hash) _ (index_transactions e n (i + 1) txs) o
      (other_kind 2 1 (e.string_bytes tx.uuid) hash refl)
    ∙ index_after-transactions e n (i + 1) hash txs o

-- No other transaction of a list has the identifier.
abbrev IsNot : String → Transaction → Type 0
IsNot uuid tx = (tx.uuid == uuid) ≡ false

-- Each identifier once.
abbrev pub OnceEach : List Transaction → Type 0
OnceEach [] = Unit
OnceEach (tx ∷ txs) = All (IsNot tx.uuid) txs × OnceEach txs

module _ (e : Env) (varint : IsVarint e) where
  encode_tx_uuid_key-other :
      (a b : String) → (a == b) ≡ false → (encode_tx_uuid_key e a == encode_tx_uuid_key e b) ≡ false
  encode_tx_uuid_key-other a b h =
      elim (Bool-cases (encode_tx_uuid_key e a == encode_tx_uuid_key e b)) [
        | inl same ↦
            let q = (bytes_key.same_iff (encode_tx_uuid_key e a) (encode_tx_uuid_key e b)).0 same in
            let bytes : e.string_bytes a ≡ e.string_bytes b = cc q in
            cc (h, (string_key.same_iff a b).1 (varint.string_bytes-inj a b bytes))
        | inr other ↦ other
      ]

  index_after-others :
      (n i : ℕ) (uuid : String) (txs : List Transaction) (o : Option Bytes)
      → All (IsNot uuid) txs
      → index_after (encode_tx_uuid_key e uuid) (index_transactions e n i txs) o ≡ o
  unfolding index_after index_transactions
  index_after-others n i uuid [] o _ = refl
  index_after-others n i uuid (tx ∷ txs) o (other, others) =
      put_other _ (encode_tx_uuid_key e uuid) _ (index_transactions e n (i + 1) txs) o
        (encode_tx_uuid_key-other tx.uuid uuid other)
      ∙ index_after-others n (i + 1) uuid txs o others

  index_after-transaction :
      (n i j : ℕ) (txs : List Transaction) (tx : Transaction) (o : Option Bytes)
      → OnceEach txs
      → nth txs j ≡ fetched tx
      → index_after (encode_tx_uuid_key e tx.uuid) (index_transactions e n i txs) o
        ≡ some (encode_block_num_tx_index e n (i + j))
  unfolding index_after index_transactions
  index_after-transaction n i j [] tx o once sits = cc sits
  index_after-transaction n i zero (x ∷ txs) tx o (head_others, once) sits =
      let same : x ≡ tx = cc sits in
      subst
        (λ (t : Transaction).
          index_after (encode_tx_uuid_key e t.uuid) (index_transactions e n i (x ∷ txs)) o
          ≡ some (encode_block_num_tx_index e n (i + 0)))
        same
        (put_self (encode_tx_uuid_key e x.uuid) _ (index_transactions e n (i + 1) txs) o
          ∙ (index_after-others n (i + 1) x.uuid txs _ head_others
              ∙ ap (λ k. some (encode_block_num_tx_index e n k)) (omega arith)))
  index_after-transaction n i (suc j) (x ∷ txs) tx o (others, once) sits =
      index_after-transaction n (i + 1) j txs tx _ once sits
      ∙ ap (λ k. some (encode_block_num_tx_index e n k)) (omega arith)

  -- The entries of the block's hash and of its transactions, once its changes are written.
  pub lookup-hash :
      (b : Block) (history n : ℕ) (bytes hash delta : Bytes) (d : Db)
      → lookup
          (encode_block_hash_key hash)
          (write_batch
            (block_changes e b n bytes hash ++ delta_changes history n delta)
            d).indexes_cf
        ≡ some (e.encode_varint n)
  unfolding index_after add_index_data_for_persistence
  lookup-hash b history n bytes hash delta d =
      let k = encode_block_hash_key hash in
      let own = block_changes e b n bytes hash in
      let txs = index_transactions e n 0 b.transactions in
      let addresses = index_addresses e n (tx_indexes_by_address 0 b.transactions []) in
      let entry : Option Bytes = some (e.encode_varint n) in
      index_after_lem k (own ++ delta_changes history n delta) d
      ∙ (index_after-append k own (delta_changes history n delta) (lookup k d.indexes_cf)
          ∙ (index_after-delta_changes k history n delta _
              ∙ (put_self k (e.encode_varint n) (txs ++ addresses) (lookup k d.indexes_cf)
                  ∙ (index_after-append k txs addresses entry
                      ∙ (index_after-addresses e n 1 hash _ _ refl
                          ∙ index_after-transactions e n 0 hash b.transactions entry)))))

  pub lookup-uuid :
      (b : Block) (history n j : ℕ) (tx : Transaction) (bytes hash delta : Bytes) (d : Db)
      → OnceEach b.transactions
      → nth b.transactions j ≡ fetched tx
      → lookup
          (encode_tx_uuid_key e tx.uuid)
          (write_batch
            (block_changes e b n bytes hash ++ delta_changes history n delta)
            d).indexes_cf
        ≡ some (encode_block_num_tx_index e n j)
  unfolding index_after add_index_data_for_persistence
  lookup-uuid b history n j tx bytes hash delta d once sits =
      let k = encode_tx_uuid_key e tx.uuid in
      let own = block_changes e b n bytes hash in
      let txs = index_transactions e n 0 b.transactions in
      let addresses = index_addresses e n (tx_indexes_by_address 0 b.transactions []) in
      index_after_lem k (own ++ delta_changes history n delta) d
      ∙ (index_after-append k own (delta_changes history n delta) (lookup k d.indexes_cf)
          ∙ (index_after-delta_changes k history n delta _
              ∙ (index_after-append k txs addresses _
                  ∙ (index_after-addresses e n 2 (e.string_bytes tx.uuid) _ _ refl
                      ∙ (index_after-transaction n 0 j b.transactions tx _ once sits
                          ∙ ap (λ i. some (encode_block_num_tx_index e n i)) (omega arith))))))
