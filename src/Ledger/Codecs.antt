-- ===== src/Ledger/Codecs.antt =====
-- Encodings of blocks as sequences of numbers, each read back with whatever follows it: an instance of
-- what the ledger asks of the protobuf library.
use hyperledger_fabric.Base.Lists.{length}
use hyperledger_fabric.Ledger.Block.{
  TransactionType, undefined, chaincode_new, chaincode_update, chaincode_execute, chaincode_query,
  chaincode_terminate, Timestamp, Transaction, TransactionResult, NonHashData, Block,
}
use hyperledger_fabric.Statemgmt.Delta.{Slice}
use hyperledger_fabric.Statemgmt.CodecTests.{
  encode_list, decode_list, decode_list-encode_list, encode_text, decode_text,
  decode_text-encode_text,
}
use Prim.Native.Nat.{ℕ, zero, suc}
use Prim.Native.String.{String}
use mathlib.Core.Path.{◌≡◌, refl, ap, ◌∙◌}
use mathlib.Core.Option.{Option, none, some}
use mathlib.Core.List.{List, [], ◌∷◌, ◌++◌, append_assoc}

pub record Codec (A : Type 0) : Type 0 where
  pub encode : A → List ℕ
  pub decode : List ℕ → Option (A × List ℕ)
  pub decode-encode : (x : A) (rest : List ℕ) → decode (encode x ++ rest) ≡ some (x, rest)

abbrev read_number : List ℕ → Option (ℕ × List ℕ)
read_number [] = none
read_number (n ∷ rest) = some (n, rest)

abbrev number : Codec ℕ
number = record { encode = λ n. n ∷ []; decode = read_number; decode-encode = λ _ _. refl }

abbrev text : Codec String
text = record {
  encode = encode_text;
  decode = decode_text;
  decode-encode = decode_text-encode_text;
}

abbrev bytes : Codec (List ℕ)
bytes = record {
  encode = encode_list;
  decode = decode_list;
  decode-encode = decode_list-encode_list;
}

module _ {A B : Type 0} where
  abbrev mapped : (A → B) → Option (A × List ℕ) → Option (B × List ℕ)
  mapped f none = none
  mapped f (some (x, rest)) = some (f x, rest)

  -- A type that is as good as another.
  abbrev as_type : Codec A → (f : A → B) (g : B → A) → ((y : B) → f (g y) ≡ y) → Codec B
  as_type c f g section = record {
    encode = λ y. c.encode (g y);
    decode = λ b. mapped f (c.decode b);
    decode-encode =
        λ y rest. ap (mapped f) (c.decode-encode (g y) rest) ∙ ap (λ z. some (z, rest)) (section y);
  }

  abbrev paired : A → Option (B × List ℕ) → Option ((A × B) × List ℕ)
  paired x none = none
  paired x (some (y, rest)) = some ((x, y), rest)

  abbrev then_read : Codec B → Option (A × List ℕ) → Option ((A × B) × List ℕ)
  then_read d none = none
  then_read d (some (x, rest)) = paired x (d.decode rest)

  abbrev both : Codec A → Codec B → Codec (A × B)
  both c d = record {
    encode = λ x. c.encode x.0 ++ d.encode x.1;
    decode = λ b. then_read d (c.decode b);
    decode-encode = λ x rest.
        ap (λ b. then_read d (c.decode b)) (append_assoc (c.encode x.0) (d.encode x.1) rest)
        ∙ (ap (then_read d) (c.decode-encode x.0 (d.encode x.1 ++ rest))
            ∙ ap (paired x.0) (d.decode-encode x.1 rest));
  }

module _ {A : Type 0} (c : Codec A) where
  abbrev encode_option : Option A → List ℕ
  encode_option none = 0 ∷ []
  encode_option (some x) = 1 ∷ c.encode x

  abbrev decode_option : List ℕ → Option (Option A × List ℕ)
  decode_option [] = none
  decode_option (zero ∷ rest) = some (none, rest)
  decode_option (suc n ∷ rest) = mapped some (c.decode rest)

  pub decode_option-encode_option :
      (x : Option A) (rest : List ℕ) → decode_option (encode_option x ++ rest) ≡ some (x, rest)
  decode_option-encode_option none rest = refl
  decode_option-encode_option (some x) rest = ap (mapped some) (c.decode-encode x rest)

  abbrev option : Codec (Option A)
  option = record {
    encode = encode_option;
    decode = decode_option;
    decode-encode = decode_option-encode_option;
  }

  unfoldable pub encode_items : List A → List ℕ
  encode_items [] = []
  encode_items (x ∷ xs) = c.encode x ++ encode_items xs

  abbrev prepend : A → Option (List A × List ℕ) → Option (List A × List ℕ)
  prepend x none = none
  prepend x (some (xs, rest)) = some (x ∷ xs, rest)

  abbrev then_items :
      (List ℕ → Option (List A × List ℕ)) → Option (A × List ℕ) → Option (List A × List ℕ)
  then_items read none = none
  then_items read (some (x, rest)) = prepend x (read rest)

  unfoldable pub decode_items : ℕ → List ℕ → Option (List A × List ℕ)
  decode_items zero b = some ([], b)
  decode_items (suc n) b = then_items (decode_items n) (c.decode b)

  pub decode_items-encode_items :
      (xs : List A) (rest : List ℕ)
      → decode_items (length xs) (encode_items xs ++ rest) ≡ some (xs, rest)
  unfolding encode_items decode_items
  decode_items-encode_items [] rest = refl
  decode_items-encode_items (x ∷ xs) rest =
      ap (λ b. then_items (decode_items (length xs)) (c.decode b))
        (append_assoc (c.encode x) (encode_items xs) rest)
      ∙ (ap (then_items (decode_items (length xs))) (c.decode-encode x (encode_items xs ++ rest))
          ∙ ap (prepend x) (decode_items-encode_items xs rest))

  abbrev read_items : List ℕ → Option (List A × List ℕ)
  read_items [] = none
  read_items (n ∷ rest) = decode_items n rest

  abbrev items : Codec (List A)
  items = record {
    encode = λ xs. length xs ∷ encode_items xs;
    decode = read_items;
    decode-encode = decode_items-encode_items;
  }

abbrev slice : Codec Slice
slice = option bytes

-- Transaction types by their numbers.
abbrev type_number : TransactionType → ℕ
type_number undefined = 0
type_number chaincode_new = 1
type_number chaincode_update = 2
type_number chaincode_execute = 3
type_number chaincode_query = 4
type_number chaincode_terminate = 5

abbrev numbered : ℕ → TransactionType
numbered zero = undefined
numbered (suc zero) = chaincode_new
numbered (suc (suc zero)) = chaincode_update
numbered (suc (suc (suc zero))) = chaincode_execute
numbered (suc (suc (suc (suc zero)))) = chaincode_query
numbered (suc (suc (suc (suc (suc n))))) = chaincode_terminate

pub numbered-type_number : (t : TransactionType) → numbered (type_number t) ≡ t
numbered-type_number undefined = refl
numbered-type_number chaincode_new = refl
numbered-type_number chaincode_update = refl
numbered-type_number chaincode_execute = refl
numbered-type_number chaincode_query = refl
numbered-type_number chaincode_terminate = refl

abbrev transaction_type : Codec TransactionType
transaction_type = as_type number numbered type_number numbered-type_number

abbrev time : Codec Timestamp
time =
    as_type (both number number) (λ x. record { seconds = x.0; nanos = x.1 })
      (λ t. (t.seconds, t.nanos)) (λ _. refl)

abbrev transaction : Codec Transaction
transaction =
    as_type
      (both transaction_type (
        both (both slice (both slice slice))
          (both (both text (option time)) (both number (both slice (both slice slice))))))
      (λ x. record {
        type = x.0;
        chaincode_id = x.1.0.0;
        payload = x.1.0.1.0;
        metadata = x.1.0.1.1;
        uuid = x.1.1.0.0;
        timestamp = x.1.1.0.1;
        confidentiality_level = x.1.1.1.0;
        nonce = x.1.1.1.1.0;
        cert = x.1.1.1.1.1.0;
        signature = x.1.1.1.1.1.1;
      })
      (λ t. (
        t.type,
        (
          (t.chaincode_id, (t.payload, t.metadata)),
          ((t.uuid, t.timestamp), (t.confidentiality_level, (t.nonce, (t.cert, t.signature)))),
        ),
      ))
      (λ _. refl)

abbrev transaction_result : Codec TransactionResult
transaction_result =
    as_type (both (both text slice) (both number text))
      (λ x. record { uuid = x.0.0; result = x.0.1; error_code = x.1.0; error = x.1.1 })
      (λ r. ((r.uuid, r.result), (r.error_code, r.error))) (λ _. refl)

abbrev non_hash_data : Codec NonHashData
non_hash_data =
    as_type (both (option time) (items transaction_result))
      (λ x. record { local_ledger_commit_timestamp = x.0; transaction_results = x.1 })
      (λ d. (d.local_ledger_commit_timestamp, d.transaction_results)) (λ _. refl)

abbrev pub block : Codec Block
block =
    as_type
      (both number (
        both (both (option time) (items transaction))
          (both (both slice slice) (both slice (option non_hash_data)))))
      (λ x. record {
        version = x.0;
        timestamp = x.1.0.0;
        transactions = x.1.0.1;
        state_hash = x.1.1.0.0;
        previous_block_hash = x.1.1.0.1;
        consensus_metadata = x.1.1.1.0;
        non_hash_data = x.1.1.1.1;
      })
      (λ b. (
        b.version,
        (
          (b.timestamp, b.transactions),
          ((b.state_hash, b.previous_block_hash), (b.consensus_metadata, b.non_hash_data)),
        ),
      ))
      (λ _. refl)
