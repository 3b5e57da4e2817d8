-- ===== src/Ledger/World.antt =====
-- A concrete world of a ledger: an encoding of blocks, a database that takes each batch but those it is
-- told to refuse, and an implementation of the world state that keeps the committed values.
use hyperledger_fabric.Base.{Bytes, if◌then◌else◌}
use hyperledger_fabric.Ledger.Block.{Env, Block, Transaction, NonHashData}
use hyperledger_fabric.Ledger.Proto.{
  IsProto, normal, normal_slice, normal_transaction, normal_result, normal_non_hash_data,
}
use hyperledger_fabric.Ledger.Codecs as Codecs
use hyperledger_fabric.Ledger.Codecs.{Codec}
use hyperledger_fabric.Ledger.Lookup.{IsVarint}
use hyperledger_fabric.Statemgmt.CodecTests.{encode_text, decode_text, decode_text-encode_text}
use hyperledger_fabric.Statemgmt.Delta.{Slice, StateDelta, new_state_delta}
use hyperledger_fabric.Statemgmt.Delta.Hash.{Util}
use hyperledger_fabric.Statemgmt.Delta.Rollback.{WorldState, forwards, backwards}
use hyperledger_fabric.Statemgmt.State.{HashableState}
use Prim.Native.Nat.{ℕ}
use Prim.Native.String.{String}
use mathlib.Core.Path.{◌≡◌, refl, sym, ap, ap₂, ◌∙◌}
use mathlib.Core.Logic.{◌≢◌}
use mathlib.Core.Bool.{Bool, true, false}
use mathlib.Core.Option.{Option, none, some}
use mathlib.Core.List.{List, [], ◌∷◌, map, append-nil}

normal_slice-again : (s : Slice) → normal_slice (normal_slice s) ≡ normal_slice s
normal_slice-again none = refl
normal_slice-again (some []) = refl
normal_slice-again (some (b ∷ bs)) = refl

map-again :
    {A : Type 0} (f : A → A)
    → ((x : A) → f (f x) ≡ f x)
    → (xs : List A) → map f (map f xs) ≡ map f xs
map-again f h [] = refl
map-again f h (x ∷ xs) = ap₂ (λ a b. a ∷ b) (h x) (map-again f h xs)

normal_transaction-again :
    (t : Transaction) → normal_transaction (normal_transaction t) ≡ normal_transaction t
normal_transaction-again t =
    simp
      (
        normal_slice-again t.chaincode_id,
        normal_slice-again t.payload,
        normal_slice-again t.metadata,
        normal_slice-again t.nonce,
        normal_slice-again t.cert,
        normal_slice-again t.signature,
      )
      refl

normal_non_hash_data-again :
    (x : Option NonHashData)
    → normal_non_hash_data (normal_non_hash_data x) ≡ normal_non_hash_data x
normal_non_hash_data-again none = refl
normal_non_hash_data-again (some x) =
    ap (λ rs. some (record x { transaction_results = rs }))
      (map-again normal_result
        (λ r. ap (λ s. record r { result = s }) (normal_slice-again r.result))
        x.transaction_results)

normal-again : (b : Block) → normal (normal b) ≡ normal b
normal-again b =
    simp
      (
        map-again normal_transaction normal_transaction-again b.transactions,
        normal_slice-again b.state_hash,
        normal_slice-again b.previous_block_hash,
        normal_slice-again b.consensus_metadata,
        normal_non_hash_data-again b.non_hash_data,
      )
      refl

abbrev block_of : Option (Block × List ℕ) → Option Block
block_of none = none
block_of (some (b, rest)) = some b

abbrev read_varint : Bytes → Option (ℕ × Bytes)
read_varint [] = none
read_varint (n ∷ rest) = some (n, rest)

-- The database refuses every batch, or none.
abbrev pub env : Bool → Env
env refuses = record {
  marshal_block = λ b. some (Codecs.block.encode (normal b));
  unmarshal_block = λ bytes. block_of (Codecs.block.decode bytes);
  crypto_hash = λ b. b;
  encode_varint = λ n. n ∷ [];
  decode_varint = read_varint;
  string_bytes = encode_text;
  write_error = λ _. refuses;
}

decode-normal :
    (b : Block) → block_of (Codecs.block.decode (Codecs.block.encode (normal b))) ≡ some (normal b)
decode-normal b =
    ap (λ x. block_of (Codecs.block.decode x)) (sym (append-nil (Codecs.block.encode (normal b))))
    ∙ ap block_of (Codecs.block.decode-encode (normal b) [])

read_back :
    (b : Block) (bytes : Bytes)
    → some (Codecs.block.encode (normal b)) ≡ some bytes
    → block_of (Codecs.block.decode bytes) ≡ some (normal b)
read_back b bytes h =
    let same : Codecs.block.encode (normal b) ≡ bytes = cc h in
    ap (λ x. block_of (Codecs.block.decode x)) (sym same) ∙ decode-normal b

abbrev is_empty : Option Bytes → Bool
is_empty none = false
is_empty (some []) = true
is_empty (some (x ∷ xs)) = false

some_bytes : (b : Block) → some (Codecs.block.encode (normal b)) ≢ some []
some_bytes b h = let q : false ≡ true = ap is_empty h in cc q

pub env-IsProto : (refuses : Bool) → IsProto (env refuses)
env-IsProto refuses = record {
  read_back = λ b bytes h. read_back b bytes h;
  normal_bytes = λ b. ap (λ x. some (Codecs.block.encode x)) (normal-again b);
  some_bytes = λ b x _ h. some_bytes b h;
  without_data = λ b bytes h. (_, refl);
}

abbrev empty : Bytes → Bool
empty [] = true
empty (x ∷ xs) = false

text_read : (s : String) → decode_text (encode_text s) ≡ some (s, [])
text_read s = ap decode_text (sym (append-nil (encode_text s))) ∙ decode_text-encode_text s []

text_inj : (a b : String) → encode_text a ≡ encode_text b → a ≡ b
text_inj a b h =
    let q : some (a, []) ≡ some (b, []) = sym (text_read a) ∙ (ap decode_text h ∙ text_read b) in
    cc q

pub env-IsVarint : (refuses : Bool) → IsVarint (env refuses)
env-IsVarint refuses = record {
  decode_varint-encode_varint = λ n rest _. refl;
  some_bytes = λ n h. let q : false ≡ true = ap empty h in cc q;
  string_bytes-inj = λ a b h. text_inj a b h;
}

-- The values that a delta leads to, in its direction.
abbrev applied : StateDelta → WorldState → WorldState
applied d w = if d.roll_backwards then backwards d w else forwards d w

-- The committed values, and the delta of the working set.
abbrev pub memory : HashableState
memory = record {
  Impl = WorldState × StateDelta;
  get_state = λ x id key. some (x.0 id key);
  prepare_working_set = λ d x. (x.0, d);
  hash_state = λ x. (x, some none);
  clear_working_set = λ _ x. (x.0, new_state_delta);
  Changes = StateDelta;
  add_changes = λ x. x.1;
  write_changes = λ d x. (applied d x.0, x.1);
}

abbrev pub util : Util
util = record { sort_strings = λ ids. ids; string_bytes = λ _. []; crypto_hash = λ b. b }
