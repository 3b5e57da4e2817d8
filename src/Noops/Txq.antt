-- ===== src/Noops/Txq.antt =====
-- openchain/consensus/noops/txq.go: a queue of transactions in a slice of fixed length. The slice that
-- `getTXs` returns shares its memory with the queue, and is used up before the next `append`.
use hyperledger_fabric.Base.{ltb→lt, length, ltb, ◌==◌, nat_key, if◌then◌else◌, Bool-cases}
use hyperledger_fabric.Ledger.Block.{Transaction}
use Prim.Native.Nat.{ℕ, zero, suc, ◌+◌, ◌<◌, ◌≤◌}
use mathlib.Core.Path.{◌≡◌, refl, ap}
use mathlib.Core.Logic.{◌↔◌, inl, inr}
use mathlib.Core.Bool.{Bool, true}
use mathlib.Core.Option.{Option, none}
use mathlib.Core.List.{List, [], ◌∷◌, ◌++◌}
use native.Mathlib.Omega.{arith}

-- `*pb.Transaction`.
abbrev pub Pointer : Type 0
Pointer = Option Transaction

pub record Txq : Type 0 where
  pub i : ℕ
  pub q : List Pointer

abbrev pub zeroed : ℕ → List Pointer
zeroed zero = []
zeroed (suc n) = none ∷ zeroed n

unfoldable pub new_txq : ℕ → Txq
new_txq size = record { i = 0; q = zeroed (if ltb size 1 then 1 else size) }

-- `xs[i] = x`, inside the slice, and the first elements of a slice.
abbrev pub assign : ℕ → Pointer → List Pointer → List Pointer
assign i x [] = []
assign zero x (y ∷ ys) = x ∷ ys
assign (suc i) x (y ∷ ys) = y ∷ assign i x ys

abbrev pub take : ℕ → List Pointer → List Pointer
take zero xs = []
take (suc n) [] = []
take (suc n) (x ∷ xs) = x ∷ take n xs

unfoldable pub append : Pointer → Txq → Txq
append tx o = if ltb o.i (length o.q) then record o { q = assign o.i tx o.q; i = o.i + 1 } else o

unfoldable pub get_txs : Txq → Txq × List Pointer
get_txs o = (record o { i = 0 }, take o.i o.q)

unfoldable pub is_full : Txq → Bool
is_full o = length o.q == o.i

abbrev pub size : Txq → ℕ
size o = o.i

unfoldable pub reset : Txq → Txq
reset o = record o { i = 0 }

-- The queue as a list, at most as long as the slice.
abbrev pub waiting : Txq → List Pointer
waiting o = take o.i o.q

abbrev pub capacity : Txq → ℕ
capacity o = length o.q

pub record IsTxq (o : Txq) : Type 0 where
  pub some_room : 0 < capacity o
  pub inside : o.i ≤ capacity o

pub length-zeroed : (n : ℕ) → length (zeroed n) ≡ n
length-zeroed zero = refl
length-zeroed (suc n) = ap suc (length-zeroed n)

pub new_txq-IsTxq : (n : ℕ) → IsTxq (new_txq n) × (waiting (new_txq n) ≡ [])
unfolding new_txq
new_txq-IsTxq n =
    let size = if ltb n 1 then 1 else n in
    let positive : 0 < size = ground arith in
    (record { some_room = omega (arith, length-zeroed size, positive); inside = omega arith }, refl)

length-assign : (i : ℕ) (x : Pointer) (xs : List Pointer) → length (assign i x xs) ≡ length xs
length-assign i x [] = refl
length-assign zero x (y ∷ ys) = refl
length-assign (suc i) x (y ∷ ys) = ap suc (length-assign i x ys)

take-assign :
    (i : ℕ) (x : Pointer) (xs : List Pointer)
    → i < length xs
    → take (suc i) (assign i x xs) ≡ take i xs ++ x ∷ []
take-assign i x [] h = absurd (omega arith)
take-assign zero x (y ∷ ys) h = refl
take-assign (suc i) x (y ∷ ys) h = ap (λ zs. y ∷ zs) (take-assign i x ys (omega arith))

length-take : (n : ℕ) (xs : List Pointer) → n ≤ length xs → length (take n xs) ≡ n
length-take zero xs h = refl
length-take (suc n) [] h = absurd (omega arith)
length-take (suc n) (x ∷ xs) h = ap suc (length-take n xs (omega arith))

pub length-waiting : (o : Txq) → IsTxq o → length (waiting o) ≡ o.i
length-waiting o h = length-take o.i o.q h.inside

pub is_full_iff : (o : Txq) → IsTxq o → (is_full o ≡ true) ↔ (length (waiting o) ≡ capacity o)
unfolding is_full
is_full_iff o h = ground (arith, length-waiting o h)

-- What `append` leaves, when there is room and when there is none.
pub record IsAppended (tx : Pointer) (o t : Txq) : Type 0 where
  pub well : IsTxq t
  pub same_capacity : capacity t ≡ capacity o
  pub waits : length (waiting o) < capacity o → waiting t ≡ waiting o ++ tx ∷ []
  pub dropped : length (waiting o) ≡ capacity o → waiting t ≡ waiting o

pub append-IsAppended : (tx : Pointer) (o : Txq) → IsTxq o → IsAppended tx o (append tx o)
unfolding append
append-IsAppended tx o h = elim (Bool-cases (ltb o.i (length o.q))) [
  | inl room ↦
      let below : o.i < length o.q = ltb→lt o.i (length o.q) room in
      rw room record {
        well = record {
          some_room = omega (arith, length-assign o.i tx o.q, h.some_room);
          inside = omega (arith, length-assign o.i tx o.q, below);
        };
        same_capacity = length-assign o.i tx o.q;
        waits =
            λ _. (let e : o.i + 1 ≡ suc o.i = omega arith in rw e (take-assign o.i tx o.q below));
        dropped = λ full. absurd (omega (arith, full, length-waiting o h, below));
      }
  | inr none_left ↦ rw none_left record {
    well = h;
    same_capacity = refl;
    waits = λ room. absurd (ground (arith, room, length-waiting o h, none_left));
    dropped = λ _. refl;
  }
]

pub get_txs-IsTxq :
    (o : Txq)
    → IsTxq o
    → IsTxq (get_txs o).0
      × (capacity (get_txs o).0 ≡ capacity o)
      × (waiting (get_txs o).0 ≡ [])
      × ((get_txs o).1 ≡ waiting o)
unfolding get_txs
get_txs-IsTxq o h = (record { some_room = h.some_room; inside = omega arith }, refl, refl, refl)
