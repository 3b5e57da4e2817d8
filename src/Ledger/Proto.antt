-- ===== src/Ledger/Proto.antt =====
-- What the ledger relies on in the protobuf library, and the hash of a block in those terms.
use hyperledger_fabric.Base.{Bytes}
use hyperledger_fabric.Ledger.Block.{
  Env, Block, Transaction, TransactionResult, NonHashData, get_block_hash,
}
use hyperledger_fabric.Statemgmt.Delta.{Slice}
use mathlib.Core.Path.{◌≡◌, refl, sym, ap, ◌∙◌}
use mathlib.Core.Logic.{◌≢◌}
use mathlib.Core.Option.{Option, none, some}
use mathlib.Core.List.{[], ◌∷◌, map}

-- A slice that was encoded: an empty one is left out, and is nil when it is read.
abbrev pub normal_slice : Slice → Slice
normal_slice none = none
normal_slice (some []) = none
normal_slice (some (b ∷ bs)) = some (b ∷ bs)

abbrev pub normal_transaction : Transaction → Transaction
normal_transaction t = record t {
  chaincode_id = normal_slice t.chaincode_id;
  payload = normal_slice t.payload;
  metadata = normal_slice t.metadata;
  nonce = normal_slice t.nonce;
  cert = normal_slice t.cert;
  signature = normal_slice t.signature;
}

abbrev pub normal_result : TransactionResult → TransactionResult
normal_result r = record r { result = normal_slice r.result }

abbrev pub normal_non_hash_data : Option NonHashData → Option NonHashData
normal_non_hash_data none = none
normal_non_hash_data (some x) =
    some (record x { transaction_results = map normal_result x.transaction_results })

abbrev pub normal : Block → Block
normal b = record b {
  transactions = map normal_transaction b.transactions;
  state_hash = normal_slice b.state_hash;
  previous_block_hash = normal_slice b.previous_block_hash;
  consensus_metadata = normal_slice b.consensus_metadata;
  non_hash_data = normal_non_hash_data b.non_hash_data;
}

-- The documented behaviour of the library: a block is read back as it was written, but for empty
-- slices, on which its bytes do not depend; a message with a field that is set is not empty; marshalling
-- does not fail for want of a field.
pub record IsProto (e : Env) : Type 0 where
  pub read_back :
      (b : Block) (bytes : Bytes)
      → e.marshal_block b ≡ some bytes
      → e.unmarshal_block bytes ≡ some (normal b)
  pub normal_bytes : (b : Block) → e.marshal_block (normal b) ≡ e.marshal_block b
  pub some_bytes :
      (b : Block) (x : NonHashData) → b.non_hash_data ≡ some x → e.marshal_block b ≢ some []
  pub without_data :
      (b : Block) (bytes : Bytes)
      → e.marshal_block b ≡ some bytes
      → (rest : Bytes) × (e.marshal_block (record b { non_hash_data = none }) ≡ some rest)

abbrev pub bare : Block → Block
bare b = record b { non_hash_data = none }

module _ (e : Env) (proto : IsProto e) where
  -- The hash of a block that can be marshalled is that of the bytes without the data that is not hashed.
  pub get_block_hash-marshal :
      (b : Block) (bytes rest : Bytes)
      → e.marshal_block b ≡ some bytes
      → e.marshal_block (bare b) ≡ some rest
      → get_block_hash e b ≡ some (e.crypto_hash rest)
  unfolding get_block_hash
  get_block_hash-marshal b bytes rest h r =
      rw (h, proto.read_back b bytes h, proto.normal_bytes (bare b), r) refl

  -- Blocks that differ in the data that is not hashed have one hash.
  pub get_block_hash-bare :
      (a b : Block) (x y : Bytes)
      → e.marshal_block a ≡ some x
      → e.marshal_block b ≡ some y
      → bare a ≡ bare b
      → get_block_hash e a ≡ get_block_hash e b
  get_block_hash-bare a b x y ha hb same =
      let (rest, r) = proto.without_data b y hb in
      get_block_hash-marshal a x rest ha (ap e.marshal_block same ∙ r)
      ∙ sym (get_block_hash-marshal b y rest hb r)

  pub get_block_hash-normal :
      (b : Block) (bytes : Bytes)
      → e.marshal_block b ≡ some bytes
      → get_block_hash e (normal b) ≡ get_block_hash e b
  unfolding get_block_hash
  get_block_hash-normal b bytes h = rw (proto.normal_bytes b, h, proto.read_back b bytes h) refl
