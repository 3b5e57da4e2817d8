-- ===== src/Ledger/Outcome.antt =====
-- What `CommitTxBatch` leaves, and lemmas on its parts.
use hyperledger_fabric.Base.{Bytes, Bool-cases, All}
use hyperledger_fabric.Ledger.Store.{Db, Change, write_batch}
use hyperledger_fabric.Ledger.Block.{Env, Block, Timestamp, get_block_hash}
use hyperledger_fabric.Ledger.Blockchain.{
  Blockchain, fetched, fetch_block_from_db, stored_block, block_changes,
}
use hyperledger_fabric.Ledger.Batches.{Ledger}
use hyperledger_fabric.Ledger.Proto.{IsProto, normal, normal_slice}
use hyperledger_fabric.Ledger.Chain.{SparesBlocks, fetch-block_changes_self}
use hyperledger_fabric.Statemgmt.Delta.{Slice}
use hyperledger_fabric.Statemgmt.Delta.Hash.{Util}
use hyperledger_fabric.Statemgmt.Delta.Marshal.{Buffer, bytes_of, marshal}
use hyperledger_fabric.Statemgmt.State.{HashableState, State, get_hash, update_impl}
use hyperledger_fabric.Statemgmt.State.Persistence.{add_changes_for_persistence, delta_changes}
use Prim.Native.Nat.{ℕ, suc, ◌+◌, ◌%◌, ◌<◌}
use mathlib.Core.Path.{◌≡◌, refl, ◌∙◌}
use mathlib.Core.Logic.{inl, inr}
use mathlib.Core.Bool.{Bool, true, false}
use mathlib.Core.Option.{Option, none, some}
use mathlib.Core.List.{List, [], ◌∷◌, ◌++◌}
use native.Mathlib.Omega.{arith}

pub normal_slice_bytes : (h : Slice) → bytes_of h ≡ bytes_of (normal_slice h)
normal_slice_bytes none = refl
normal_slice_bytes (some []) = refl
normal_slice_bytes (some (b ∷ bs)) = refl

-- The block of the next number is stored.
pub fetch-stored_block :
    (e : Env) (proto : IsProto e) (now : Timestamp) (b : Block) (state_hash : Slice)
    (c : Blockchain) (bytes hash : Bytes) (more : List Change) (d : Db)
    → All SparesBlocks more
    → e.marshal_block (stored_block now c b state_hash) ≡ some bytes
    → fetch_block_from_db e c.size (
        write_batch (block_changes e (stored_block now c b state_hash) c.size bytes hash ++ more) d)
      ≡ fetched (normal (stored_block now c b state_hash))
fetch-stored_block e proto now b state_hash c [] hash more d spares m =
    absurd (proto.some_bytes (stored_block now c b state_hash) _ refl m)
fetch-stored_block e proto now b state_hash c (byte ∷ bytes) hash more d spares m =
    let x = stored_block now c b state_hash in
    fetch-block_changes_self e x c.size byte bytes hash more d spares
    ∙ rw (proto.read_back x (byte ∷ bytes) m) refl

pub next_number : (n : ℕ) → n + 1 < 18446744073709551616 → (n + 1) % 18446744073709551616 ≡ suc n
next_number n small = omega arith

module _ (i : HashableState) (util : Util) (e : Env) (p : Buffer) where
  -- What a commit that succeeds leaves: one block more, built from the given one, linked to the hash that
  -- the chain kept, and the blocks below as they were.
  pub record IsCommitted (now : Timestamp) (b : Block) (hashing : Option Slice)
      (l m : Ledger i util e p) : Type 0 where
    pub size : m.blockchain.size ≡ suc l.blockchain.size
    pub state_hash : Slice
    pub hashed_state : hashing ≡ some state_hash
    pub hash : Bytes
    pub tip : m.blockchain.previous_block_hash ≡ some hash
    pub hash_before : get_block_hash e (stored_block now l.blockchain b state_hash) ≡ some hash
    pub bytes : Bytes
    pub marshalled : e.marshal_block (stored_block now l.blockchain b state_hash) ≡ some bytes
    pub stored :
        fetch_block_from_db e l.blockchain.size m.db
        ≡ fetched (normal (stored_block now l.blockchain b state_hash))
    pub others :
        (k : ℕ)
        → k < l.blockchain.size
        → fetch_block_from_db e k m.db ≡ fetch_block_from_db e k l.db
    pub none_waiting : m.blockchain.last_processed_block ≡ none
    pub delta : Bytes
    pub delta_marshalled : marshal p l.state.state_delta ≡ some delta
    pub batch :
        m.db
        ≡ write_batch
            (block_changes e
                (stored_block now l.blockchain b state_hash)
                l.blockchain.size
                bytes
                hash
              ++ delta_changes l.state.history_state_delta_size l.blockchain.size delta)
            l.db

  -- A commit that fails leaves the blocks and the database as they were.
  abbrev pub AfterCommit :
      Timestamp → Block → Option Slice → Ledger i util e p → Ledger i util e p × Bool → Type 0
  AfterCommit now b hashing l (m, true) = IsCommitted now b hashing l m
  AfterCommit now b hashing l (m, false) =
      (m.blockchain.size ≡ l.blockchain.size)
      × (m.blockchain.previous_block_hash ≡ l.blockchain.previous_block_hash)
      × (m.db ≡ l.db)

  abbrev pub Commits :
      Timestamp
      → Block
      → Option Slice
      → Ledger i util e p
      → Option (Ledger i util e p × Bool)
      → Type 0
  Commits now b hashing l o =
      (r : Ledger i util e p × Bool) × (o ≡ some r) × AfterCommit now b hashing l r

  pub delta-get_hash : (s : State i util) → (get_hash i util s).0.state_delta ≡ s.state_delta
  unfolding get_hash
  delta-get_hash s = elim (Bool-cases s.update_state_impl) [
    | inl stale ↦ rw stale refl
    | inr fresh ↦ rw fresh refl
  ]

  pub history-get_hash :
      (s : State i util)
      → (get_hash i util s).0.history_state_delta_size ≡ s.history_state_delta_size
  unfolding get_hash
  history-get_hash s = elim (Bool-cases s.update_state_impl) [
    | inl stale ↦ rw stale refl
    | inr fresh ↦ rw fresh refl
  ]

  pub changes-add_changes :
      (n : ℕ) (bytes : Bytes) (s : State i util)
      → marshal p s.state_delta ≡ some bytes
      → (t : State i util) × (own : i.Changes) × (add_changes_for_persistence i util p n s
          ≡ some (t, own, delta_changes s.history_state_delta_size n bytes))
  unfolding add_changes_for_persistence
  changes-add_changes n bytes s h = elim (Bool-cases s.update_state_impl) [
    | inl stale ↦
        (update_impl i util s, i.add_changes (update_impl i util s).state_impl, rw (stale, h) refl)
    | inr fresh ↦
        (update_impl i util s, i.add_changes (update_impl i util s).state_impl, rw (fresh, h) refl)
  ]
