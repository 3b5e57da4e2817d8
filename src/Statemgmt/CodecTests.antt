-- ===== src/Statemgmt/CodecTests.antt =====
-- A concrete encoding, whose decoders read back what it wrote, and a delta marshalled with it.
use hyperledger_fabric.Base.Map.{lookup}
use hyperledger_fabric.Statemgmt.Delta.{StateDelta, new_state_delta}
use hyperledger_fabric.Statemgmt.Delta.Marshal.{Buffer, marshal, unmarshal}
use hyperledger_fabric.Statemgmt.Delta.Marshal.RoundTrip.{IsCodec, kept_deltas, unmarshal-marshal}
use Prim.Native.Nat.{ℕ, zero, suc, Ordering, compare}
use Prim.Native.Char.{Char, char, code, IsLt}
use Prim.Native.String.{String}
use mathlib.Core.Path.{◌≡◌, refl}
use mathlib.Core.Bool.{true, false}
use mathlib.Core.Option.{Option, none, some}
use mathlib.Core.List.{List, [], ◌∷◌, ◌++◌}
use native.Mathlib.Omega.{arith}

-- A number is 0 at the end of a sequence, and otherwise one more than an element.
unfoldable pub encode_list : List ℕ → List ℕ
encode_list [] = 0 ∷ []
encode_list (x ∷ xs) = suc x ∷ encode_list xs

abbrev put_front : ℕ → Option (List ℕ × List ℕ) → Option (List ℕ × List ℕ)
put_front x none = none
put_front x (some (xs, rest)) = some (x ∷ xs, rest)

unfoldable pub decode_list : List ℕ → Option (List ℕ × List ℕ)
decode_list [] = none
decode_list (zero ∷ rest) = some ([], rest)
decode_list (suc x ∷ rest) = put_front x (decode_list rest)

pub decode_list-encode_list :
    (xs rest : List ℕ) → decode_list (encode_list xs ++ rest) ≡ some (xs, rest)
unfolding encode_list decode_list
decode_list-encode_list [] rest = refl
decode_list-encode_list (x ∷ xs) rest = rw (decode_list-encode_list xs rest) refl

-- Whether a number is a character's, from the three comparisons of `IsScalar`.
abbrev BothBelow : Ordering → Ordering → Type 0
BothBelow Ordering.lt o = IsLt o
BothBelow Ordering.eq _ = IsLt Ordering.eq
BothBelow Ordering.gt _ = IsLt Ordering.eq

abbrev InRange : Ordering → Ordering → Ordering → Type 0
InRange Ordering.lt _ _ = Unit
InRange Ordering.eq o p = BothBelow o p
InRange Ordering.gt o p = BothBelow o p

abbrev both_proof : (o p : Ordering) → Option (BothBelow o p)
both_proof Ordering.lt Ordering.lt = some tt
both_proof Ordering.lt Ordering.eq = none
both_proof Ordering.lt Ordering.gt = none
both_proof Ordering.eq p = none
both_proof Ordering.gt p = none

abbrev proof_of : (o p q : Ordering) → Option (InRange o p q)
proof_of Ordering.lt p q = some tt
proof_of Ordering.eq p q = both_proof p q
proof_of Ordering.gt p q = both_proof p q

both_proof_lem : (o p : Ordering) (h : BothBelow o p) → both_proof o p ≡ some h
both_proof_lem Ordering.lt Ordering.lt h = refl
both_proof_lem Ordering.lt Ordering.eq h = absurd h
both_proof_lem Ordering.lt Ordering.gt h = absurd h
both_proof_lem Ordering.eq p h = absurd h
both_proof_lem Ordering.gt p h = absurd h

proof_of_lem : (o p q : Ordering) (h : InRange o p q) → proof_of o p q ≡ some h
proof_of_lem Ordering.lt p q h = refl
proof_of_lem Ordering.eq p q h = both_proof_lem p q h
proof_of_lem Ordering.gt p q h = both_proof_lem p q h

abbrev char_of : ℕ → Option Char
char_of n =
    elim (proof_of (compare n 55296) (compare 57343 n) (compare n 1114112)) as (λ _. Option Char) [
      | none ↦ none
      | some h ↦ some (char n h)
    ]

char_of-code : (c : Char) → char_of (code c) ≡ some c
char_of-code (char n h) =
    rw (proof_of_lem (compare n 55296) (compare 57343 n) (compare n 1114112) h, char_of) refl

unfoldable pub encode_text : String → List ℕ
encode_text String.[] = 0 ∷ []
encode_text (String.◌∷◌ c s) = suc (code c) ∷ encode_text s

abbrev put_char : Option Char → Option (String × List ℕ) → Option (String × List ℕ)
put_char none o = none
put_char (some c) none = none
put_char (some c) (some (s, rest)) = some (String.◌∷◌ c s, rest)

unfoldable pub decode_text : List ℕ → Option (String × List ℕ)
decode_text [] = none
decode_text (zero ∷ rest) = some (String.[], rest)
decode_text (suc n ∷ rest) = put_char (char_of n) (decode_text rest)

pub decode_text-encode_text :
    (s : String) (rest : List ℕ) → decode_text (encode_text s ++ rest) ≡ some (s, rest)
unfolding encode_text decode_text
decode_text-encode_text String.[] rest = refl
decode_text-encode_text (String.◌∷◌ c s) rest =
    rw (char_of-code c, decode_text-encode_text s rest) refl

abbrev decode_number : List ℕ → Option (ℕ × List ℕ)
decode_number [] = none
decode_number (n ∷ rest) = some (n, rest)

abbrev pub buffer : Buffer
buffer = record {
  encode_varint = λ n. some (n ∷ []);
  encode_string = λ s. some (encode_text s);
  encode_raw = λ b. some (encode_list b);
  decode_varint = decode_number;
  decode_string = decode_text;
  decode_raw = decode_list;
}

pub buffer-IsCodec : IsCodec buffer
buffer-IsCodec = record {
  varint = λ n _. (n ∷ [], refl, λ rest. refl);
  string = λ s. (encode_text s, refl, decode_text-encode_text s);
  raw = λ b. (encode_list b, refl, decode_list-encode_list b);
}

-- The chaincode "cc" sets "a", which had the empty slice, and deletes "b".
abbrev changed : StateDelta
changed = record {
  chaincode_state_deltas =
      (
        "cc",
        record {
          chaincode_id = "cc";
          updated_kvs =
              ("a", record { value = some (2 ∷ []); previous_value = some [] })
              ∷ ("b", record { value = none; previous_value = some (5 ∷ []) })
              ∷ [];
        },
      )
      ∷ [];
  roll_backwards = false;
}

unmarshal-marshal_example :
    (b : List ℕ) × (marshal buffer changed ≡ some b)
    × (unmarshal buffer b new_state_delta ≡ (
      record new_state_delta {
        chaincode_state_deltas = kept_deltas changed.chaincode_state_deltas;
      },
      true,
    ))
unfolding lookup
unmarshal-marshal_example =
    unmarshal-marshal buffer buffer-IsCodec changed new_state_delta
      record { once = (refl, tt); once_each = ((refl, (refl, tt)), tt) } (omega arith)
      (omega arith, tt)
