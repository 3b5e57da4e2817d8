-- ===== src/Pbft/Assignment.antt =====
-- `assignSequenceNumbers` of openchain/consensus/obcpbft/viewchange.go.
pub mod Justified
use hyperledger_fabric.Base.{◌==◌, nat_key, string_key, ltb, leb, if◌then◌else◌, all, count}
use hyperledger_fabric.Base.Map.{Map, insert, retain}
use hyperledger_fabric.Pbft.Messages.{ViewChange, ViewChangePq}
use hyperledger_fabric.Pbft.Replica.{Replica, u64}
use hyperledger_fabric.Pbft.Quorum.{intersection_quorum}
use Prim.Native.Nat.{ℕ, zero, suc, ◌+◌, ◌-◌}
use Prim.Native.String.{String}
use mathlib.Core.Bool.{Bool, true, false, not, ◌&&◌, ◌||◌}
use mathlib.Core.Option.{Option, none, some}
use mathlib.Core.List.{List, [], ◌∷◌}

-- An entry of another P set that does not speak against `em` at number `n`.
abbrev pub agrees : ℕ → ViewChangePq → ViewChangePq → Bool
agrees n em emp =
    not (n == emp.sequence_number)
    || (ltb emp.view em.view || (emp.view == em.view && emp.digest == em.digest))

-- A message that the test A1 counts.
abbrev pub supports_a1 : ℕ → ViewChangePq → ViewChange → Bool
supports_a1 n em mp = ltb mp.h n && all (agrees n em) mp.pset

abbrev pub backs : ℕ → ViewChangePq → ViewChangePq → Bool
backs n em emp = n == emp.sequence_number && (leb em.view emp.view && emp.digest == em.digest)

-- The test A2 counts entries of Q sets.
unfoldable pub count_a2 : ℕ → ViewChangePq → List ViewChange → ℕ
count_a2 n em [] = 0
count_a2 n em (mp ∷ mps) = count (backs n em) mp.qset + count_a2 n em mps

unfoldable pub is_selectable : Replica → List ViewChange → ℕ → ViewChangePq → Bool
is_selectable s vset n em =
    leb (intersection_quorum s) (count (supports_a1 n em) vset)
    && leb (s.f + 1) (count_a2 n em vset)

-- The first entry of a P set that can be selected for a number.
unfoldable pub select_in : Replica → List ViewChange → ℕ → List ViewChangePq → Option ViewChangePq
select_in s vset n [] = none
select_in s vset n (em ∷ ems) =
    if is_selectable s vset n em then some em else select_in s vset n ems

-- The loop over the messages, in their order.
unfoldable pub select_for : Replica → List ViewChange → ℕ → List ViewChange → Option ViewChangePq
select_for s vset n [] = none
select_for s vset n (m ∷ ms) = elim (select_in s vset n m.pset) [
  | some em ↦ some em
  | none ↦ select_for s vset n ms
]

abbrev pub has_no_entry : ℕ → ViewChange → Bool
has_no_entry n m = all (λ (em : ViewChangePq). not (em.sequence_number == n)) m.pset

unfoldable pub null_quorum : Replica → List ViewChange → ℕ → Bool
null_quorum s vset n = leb (intersection_quorum s) (count (has_no_entry n) vset)

-- The digest of a number, and whether it came from a P set; `none` where neither rule applies.
unfoldable pub assign_one : Replica → List ViewChange → ℕ → Option (String × Bool)
assign_one s vset n = elim (select_for s vset n vset) [
  | some em ↦ some (em.digest, true)
  | none ↦ if null_quorum s vset n then some ("", false) else none
]

-- The loop `for n := h + 1; n <= h + L; n++` with the rounds left, `msgList` and `maxN`.
unfoldable pub assign_loop :
    ℕ → Replica → List ViewChange → ℕ → Map ℕ String → ℕ → Option (Map ℕ String × ℕ)
assign_loop zero s vset n msgs max_n = some (msgs, max_n)
assign_loop (suc left) s vset n msgs max_n = elim (assign_one s vset n) [
  | none ↦ none
  | some (d, selected) ↦
      assign_loop left s vset (n + 1) (insert n d msgs) (if selected then n else max_n)
]

unfoldable pub prune_nulls : ℕ → Map ℕ String → Map ℕ String
prune_nulls max_n msgs = retain (λ n d. not (ltb max_n n && d == "")) msgs

abbrev pub pruned : Option (Map ℕ String × ℕ) → Option (Map ℕ String)
pruned none = none
pruned (some (msgs, max_n)) = some (prune_nulls max_n msgs)

-- The rounds of the loop. (With `h + L` equal to 2^64 - 1 the source would not stop.)
unfoldable pub rounds : Replica → ℕ → ℕ
rounds s h = u64 (h + s.l) + 1 - u64 (h + 1)

unfoldable pub assign_sequence_numbers : Replica → List ViewChange → ℕ → Option (Map ℕ String)
assign_sequence_numbers s vset h =
    pruned (assign_loop (rounds s h) s vset (u64 (h + 1)) [] (u64 (h + 1)))
