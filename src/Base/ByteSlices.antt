-- ===== src/Base/ByteSlices.antt =====
-- Byte slices: equality, as of the keys of a store, and `binary.BigEndian` on 64 bits.
use Prim.Native.Nat.{ℕ, ◌+◌, ◌*◌, ◌/◌, ◌%◌, ◌<◌}
use mathlib.Core.Path.{◌≡◌, ap}
use mathlib.Core.Logic.{◌↔◌}
use mathlib.Core.Bool.{Bool, true, false, ◌&&◌}
use mathlib.Core.Option.{Option, none, some}
use mathlib.Core.List.{List, [], ◌∷◌}
use native.Mathlib.Omega.{arith}
use hyperledger_fabric.Base.Tests.{nat_beq}
use hyperledger_fabric.Base.Keys.{Key}

abbrev pub Bytes : Type 0
Bytes = List ℕ

-- `bytes.Compare(a, b) == 0`.
unfoldable pub bytes_beq : Bytes → Bytes → Bool
bytes_beq [] [] = true
bytes_beq [] (y ∷ ys) = false
bytes_beq (x ∷ xs) [] = false
bytes_beq (x ∷ xs) (y ∷ ys) = nat_beq x y && bytes_beq xs ys

pub bytes_beq_iff : (a b : Bytes) → (bytes_beq a b ≡ true) ↔ (a ≡ b)
unfolding bytes_beq
bytes_beq_iff [] [] = ground arith
bytes_beq_iff [] (y ∷ ys) = ground arith
bytes_beq_iff (x ∷ xs) [] = ground arith
bytes_beq_iff (x ∷ xs) (y ∷ ys) = ground (arith, bytes_beq_iff xs ys)

instance abbrev pub bytes_key : Key Bytes
bytes_key = record { same = bytes_beq; same_iff = bytes_beq_iff }

-- `binary.BigEndian.PutUint64` and `Uint64`.
unfoldable pub encode_uint64 : ℕ → Bytes
encode_uint64 n =
    (n / 72057594037927936 % 256)
    ∷ (n / 281474976710656 % 256)
    ∷ (n / 1099511627776 % 256)
    ∷ (n / 4294967296 % 256)
    ∷ (n / 16777216 % 256)
    ∷ (n / 65536 % 256)
    ∷ (n / 256 % 256)
    ∷ (n % 256)
    ∷ []

-- Fewer than eight bytes are an index out of range; more are not looked at.
unfoldable pub decode_to_uint64 : Bytes → Option ℕ
decode_to_uint64 (a ∷ b ∷ c ∷ d ∷ e ∷ f ∷ g ∷ h ∷ _) =
    some (((((((a * 256 + b) * 256 + c) * 256 + d) * 256 + e) * 256 + f) * 256 + g) * 256 + h)
decode_to_uint64 _ = none

-- A number below 2^64 is read back from its eight bytes.
pub decode_to_uint64-encode_uint64 :
    (n : ℕ) → n < 18446744073709551616 → decode_to_uint64 (encode_uint64 n) ≡ some n
unfolding decode_to_uint64 encode_uint64
decode_to_uint64-encode_uint64 n h = ground arith

pub encode_uint64-inj :
    (m n : ℕ)
    → m < 18446744073709551616
    → n < 18446744073709551616
    → encode_uint64 m ≡ encode_uint64 n
    → m ≡ n
encode_uint64-inj m n hm hn same = cc (
  decode_to_uint64-encode_uint64 m hm,
  decode_to_uint64-encode_uint64 n hn,
  ap decode_to_uint64 same,
)
