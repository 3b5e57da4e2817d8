-- ===== src/Buckettree/Levels.antt =====
-- The levels of the tree: the loop that computes them ends, and parents and children fit.
use hyperledger_fabric.Base.{ltb, ltb→lt, ◌==◌, nat_key, if◌then◌else◌, Bool-cases}
use hyperledger_fabric.Buckettree.Config.{num_buckets_at_parent_level, level_loop}
use Prim.Native.Nat.{ℕ, zero, suc, ◌+◌, ◌*◌, ◌/◌, ◌%◌, ◌<◌, ◌≤◌}
use mathlib.Core.Path.{◌≡◌, refl, sym, ap, subst}
use mathlib.Core.Logic.{inl, inr}
use mathlib.Core.Bool.{false}
use mathlib.Core.Option.{Option, some}
use mathlib.Core.List.{List, [], ◌∷◌}
use native.Mathlib.Nat.{div-add-mod', mod-lt, mul-le-mul_left, suc-mul}
use native.Mathlib.Omega.{arith}

-- The group that a number belongs to, counted from 0: it is the last of those that begin below it.
pub record InGroup (g b p : ℕ) : Type 0 where
  pub group : ℕ
  pub number : p ≡ suc group
  pub begins_below : group * g < b
  pub ends_above : b ≤ group * g + g

pub parent-InGroup : (g b : ℕ) → 0 < g → 0 < b → InGroup g b (num_buckets_at_parent_level g b)
parent-InGroup g b some_group positive = go (b / g) (b % g) (div-add-mod' b g) (mod-lt b some_group)
  where
    go : (q r : ℕ) → q * g + r ≡ b → r < g → InGroup g b (if r == 0 then q else q + 1)
    go zero zero whole small = absurd (omega (arith, whole, positive))
    go (suc q) zero whole small = record {
      group = q;
      number = refl;
      begins_below = omega (arith, suc-mul q g, whole, some_group);
      ends_above = omega (arith, suc-mul q g, whole);
    }
    go q (suc r) whole small = record {
      group = q;
      number = ground arith;
      begins_below = omega (arith, whole);
      ends_above = omega (arith, whole, small);
    }

-- A level has fewer groups than buckets, if a group may have two.
pub parent_smaller : (g n : ℕ) → 2 ≤ g → 1 < n → num_buckets_at_parent_level g n < n
parent_smaller g n two more =
    let a = parent-InGroup g n (omega arith) (omega arith) in
    omega (arith, a.number, a.begins_below, mul-le-mul_left a.group two)

-- Each number is that of the groups at the next level.
abbrev pub Above : ℕ → ℕ → List ℕ → Type 0
Above g n [] = Unit
Above g n (m ∷ below) = (n ≡ num_buckets_at_parent_level g m) × Above g m below

abbrev pub last_of : ℕ → List ℕ → ℕ
last_of n [] = n
last_of n (m ∷ below) = last_of m below

pub record Ends (g n : ℕ) (below : List ℕ) (o : Option (List ℕ)) : Type 0 where
  pub rest : List ℕ
  pub result : o ≡ some (1 ∷ rest)
  pub levels : Above g 1 rest
  pub lowest : last_of 1 rest ≡ last_of n below

pub level_loop-Ends :
    (fuel g n : ℕ) (below : List ℕ)
    → 2 ≤ g
    → 0 < n
    → n ≤ fuel
    → Above g n below
    → Ends g n below (level_loop fuel g n below)
unfolding level_loop
level_loop-Ends zero g n below two some_bucket enough levels = absurd (omega arith)
level_loop-Ends (suc fuel) g n below two some_bucket enough levels = elim (Bool-cases (ltb 1 n)) [
  | inl more ↦
      let p = num_buckets_at_parent_level g n in
      let not_zero : (g == 0) ≡ false = ground arith in
      let a = parent-InGroup g n (omega arith) some_bucket in
      let below_it = parent_smaller g n two (ltb→lt 1 n more) in
      let r =
        level_loop-Ends fuel g p (n ∷ below) two (omega (arith, a.number)) (omega (arith, below_it))
          (refl, levels) in
      rw (more, not_zero)
        (record { rest = r.rest; result = r.result; levels = r.levels; lowest = r.lowest })
  | inr one_left ↦
      let one : n ≡ 1 = ground arith in
      rw one_left (record {
        rest = below;
        result = ap (λ m. some (m ∷ below)) one;
        levels = subst (λ m. Above g m below) one levels;
        lowest = ap (λ m. last_of m below) (sym one);
      })
]
