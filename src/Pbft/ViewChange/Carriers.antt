-- ===== src/Pbft/ViewChange/Carriers.antt =====
-- The map that `selectInitialCheckpoint` of viewchange.go builds: each checkpoint of the view changes
-- with those that carry it.
use hyperledger_fabric.Base.{◌==◌, if◌then◌else◌, any, count, count-append, length, All, Bool-cases}
use hyperledger_fabric.Base.Map.{
  Map, lookup, lookup-insert, DistinctKeys, insert-DistinctKeys, Entries, Entries-of_lookup,
}
use hyperledger_fabric.Pbft.Messages.{ViewChange, ViewChangeC, view_change_c_key}
use hyperledger_fabric.Pbft.ViewChange.{add_supporter, add_cset, collect_checkpoints}
use Prim.Native.Nat.{◌≤◌}
use mathlib.Core.Path.{subst, ◌≡◌, refl, sym, ap, ◌∙◌}
use mathlib.Core.Logic.{inl, inr}
use mathlib.Core.Bool.{Bool, true, false, ◌&&◌}
use mathlib.Core.Option.{Option, none, some}
use mathlib.Core.List.{List, [], ◌∷◌, ◌++◌, append_assoc, append-nil}
use native.Mathlib.Omega.{arith}

abbrev pub carriers_in : ViewChangeC → ViewChange → List ViewChangeC → List ViewChange
carriers_in c vc [] = []
carriers_in c vc (x ∷ xs) = (if x == c then vc ∷ [] else []) ++ carriers_in c vc xs

-- The view changes that carry a checkpoint, once for each time, in their order.
abbrev pub carriers : ViewChangeC → List ViewChange → List ViewChange
carriers c [] = []
carriers c (vc ∷ vcs) = carriers_in c vc vc.cset ++ carriers c vcs

abbrev pub found : Option (List ViewChange) → List ViewChange
found none = []
found (some vcs) = vcs

with_supporter :
    (vc : ViewChange) (o : Option (List ViewChange))
    → (elim o as (λ _. List ViewChange) [ none ↦ vc ∷ [] | some vcs ↦ vcs ++ vc ∷ [] ])
      ≡ found o ++ vc ∷ []
with_supporter vc none = refl
with_supporter vc (some vcs) = refl

found-add_supporter :
    (vc : ViewChange) (x c : ViewChangeC) (m : Map ViewChangeC (List ViewChange))
    → found (lookup c (add_supporter vc x m))
      ≡ found (lookup c m) ++ (if x == c then vc ∷ [] else [])
found-add_supporter vc x c m = ground (
  arith,
  lookup-insert
      (elim (lookup x m) as (λ _. List ViewChange) [ none ↦ vc ∷ [] | some vcs ↦ vcs ++ vc ∷ [] ]) m
      x c,
  view_change_c_key.same_iff x c,
  with_supporter vc (lookup x m),
  append-nil (found (lookup c m)),
)

found-add_cset :
    (vc : ViewChange) (cs : List ViewChangeC) (c : ViewChangeC)
    (m : Map ViewChangeC (List ViewChange))
    → found (lookup c (add_cset vc cs m)) ≡ found (lookup c m) ++ carriers_in c vc cs
unfolding add_cset
found-add_cset vc [] c m = sym (append-nil (found (lookup c m)))
found-add_cset vc (x ∷ xs) c m =
    found-add_cset vc xs c (add_supporter vc x m)
    ∙ rw (found-add_supporter vc x c m)
        (append_assoc (found (lookup c m)) (if x == c then vc ∷ [] else []) (carriers_in c vc xs))

pub found-collect_checkpoints :
    (vcs : List ViewChange) (c : ViewChangeC) (m : Map ViewChangeC (List ViewChange))
    → found (lookup c (collect_checkpoints vcs m)) ≡ found (lookup c m) ++ carriers c vcs
unfolding collect_checkpoints
found-collect_checkpoints [] c m = sym (append-nil (found (lookup c m)))
found-collect_checkpoints (vc ∷ vcs) c m =
    found-collect_checkpoints vcs c (add_cset vc vc.cset m)
    ∙ rw (found-add_cset vc vc.cset c m)
        (append_assoc (found (lookup c m)) (carriers_in c vc vc.cset) (carriers c vcs))

add_cset-DistinctKeys :
    (vc : ViewChange) (cs : List ViewChangeC) (m : Map ViewChangeC (List ViewChange))
    → DistinctKeys m
    → DistinctKeys (add_cset vc cs m)
unfolding add_cset
add_cset-DistinctKeys vc [] m h = h
add_cset-DistinctKeys vc (x ∷ xs) m h =
    add_cset-DistinctKeys vc xs (add_supporter vc x m) (insert-DistinctKeys x _ m h)

collect_checkpoints-DistinctKeys :
    (vcs : List ViewChange) (m : Map ViewChangeC (List ViewChange))
    → DistinctKeys m
    → DistinctKeys (collect_checkpoints vcs m)
unfolding collect_checkpoints
collect_checkpoints-DistinctKeys [] m h = h
collect_checkpoints-DistinctKeys (vc ∷ vcs) m h =
    collect_checkpoints-DistinctKeys vcs _ (add_cset-DistinctKeys vc vc.cset m h)

pub collected-carriers :
    (vcs : List ViewChange)
    → Entries
        (λ (c : ViewChangeC) (xs : List ViewChange). xs ≡ carriers c vcs)
        (collect_checkpoints vcs [])
unfolding lookup
collected-carriers vcs =
    Entries-of_lookup (λ (c : ViewChangeC) (xs : List ViewChange). xs ≡ carriers c vcs)
      (collect_checkpoints vcs []) (collect_checkpoints-DistinctKeys vcs [] tt)
      (λ c xs here. ap found (sym here) ∙ found-collect_checkpoints vcs c [])

-- Whether a view change carries a checkpoint.
abbrev pub carries : ViewChangeC → ViewChange → Bool
carries c vc = any (λ (x : ViewChangeC). x == c) vc.cset

-- No checkpoint twice.
abbrev pub ListsOnce : List ViewChangeC → Type 0
ListsOnce [] = Unit
ListsOnce (x ∷ xs) = (any (λ (y : ViewChangeC). y == x) xs ≡ false) × ListsOnce xs

module _ (p : ViewChange → Bool) (c : ViewChangeC) (vc : ViewChange) where
  count-carriers_in_none :
      (cs : List ViewChangeC)
      → any (λ (x : ViewChangeC). x == c) cs ≡ false
      → count p (carriers_in c vc cs) ≡ 0
  count-carriers_in_none [] _ = refl
  count-carriers_in_none (x ∷ xs) none_here = elim (Bool-cases (x == c)) [
    | inl same ↦ ground arith
    | inr other ↦ rw other (count-carriers_in_none xs (rw other at none_here))
  ]

  -- A view change that lists no checkpoint twice stands once among the carriers.
  count-carriers_in :
      (cs : List ViewChangeC)
      → ListsOnce cs
      → count p (carriers_in c vc cs)
        ≡ (if any (λ (x : ViewChangeC). x == c) cs && p vc then 1 else 0)
  count-carriers_in [] _ = refl
  count-carriers_in (x ∷ xs) (once, others) = elim (Bool-cases (x == c)) [
    | inl same ↦
        let xc : x ≡ c = (view_change_c_key.same_iff x c).0 same in
        let none_left =
          count-carriers_in_none xs
            (subst (λ (z : ViewChangeC). any (λ (y : ViewChangeC). y == z) xs ≡ false) xc once) in
        rw same (ground (arith, none_left))
    | inr other ↦ rw other (count-carriers_in xs others)
  ]

  -- Each time that the checkpoint is listed counts.
  pub count-carriers_in_all :
      (cs : List ViewChangeC)
      → p vc ≡ true
      → count p (carriers_in c vc cs) ≡ count (λ (x : ViewChangeC). x == c) cs
  count-carriers_in_all [] _ = refl
  count-carriers_in_all (x ∷ xs) passes = elim (Bool-cases (x == c)) [
    | inl same ↦ rw same (ground (arith, passes, count-carriers_in_all xs passes))
    | inr other ↦ rw other (ground (arith, count-carriers_in_all xs passes))
  ]

pub count-carriers :
    (p : ViewChange → Bool) (c : ViewChangeC) (vcs : List ViewChange)
    → All (λ (vc : ViewChange). ListsOnce vc.cset) vcs
    → count p (carriers c vcs) ≡ count (λ (vc : ViewChange). carries c vc && p vc) vcs
count-carriers p c [] _ = refl
count-carriers p c (vc ∷ vcs) (once, others) = omega (
  arith,
  count-append p (carriers_in c vc vc.cset) (carriers c vcs),
  count-carriers_in p c vc vc.cset once,
  count-carriers p c vcs others,
)

-- One view change contributes to the carriers as often as it lists the checkpoint.
pub count-carriers_one :
    (p : ViewChange → Bool) (c : ViewChangeC) (vc : ViewChange) (before after : List ViewChange)
    → p vc ≡ true
    → count (λ (x : ViewChangeC). x == c) vc.cset ≤ count p (carriers c (before ++ vc ∷ after))
count-carriers_one p c vc [] after passes = omega (
  arith,
  count-append p (carriers_in c vc vc.cset) (carriers c after),
  count-carriers_in_all p c vc vc.cset passes,
)
count-carriers_one p c vc (v ∷ before) after passes = omega (
  arith,
  count-append p (carriers_in c v v.cset) (carriers c (before ++ vc ∷ after)),
  count-carriers_one p c vc before after passes,
)

pub count-all : (vcs : List ViewChange) → count (λ _. true) vcs ≡ length vcs
count-all [] = refl
count-all (vc ∷ vcs) = ground (arith, count-all vcs)
