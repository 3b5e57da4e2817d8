-- ===== src/Pbft/Checkpoints/WeakMark.antt =====
-- The `f+1`-th highest observed checkpoint, and the array of the replicas at or above it.
use hyperledger_fabric.Base.{
  nat_key, ltb, leb, if◌then◌else◌, length, count, count-le-length, if_cases,
}
use hyperledger_fabric.Base.Map.{Map}
use hyperledger_fabric.Pbft.Checkpoints.{
  insert_sorted, sort_ascending, elem_or_zero, seq_numbers, weak_mark, furthest_replicas,
}
use Prim.Native.Nat.{ℕ, zero, suc, ◌+◌, ◌-◌, ◌≤◌, ◌<◌}
use mathlib.Core.Path.{◌≡◌, refl, ap, ◌∙◌}
use mathlib.Core.Bool.{Bool}
use mathlib.Core.List.{List, [], ◌∷◌}
use native.Mathlib.Omega.{arith}

abbrev at_least : ℕ → ℕ → Bool
at_least m x = leb m x

abbrev above : ℕ → ℕ → Bool
above m x = ltb m x

-- Sorting keeps how many pass a test.
count-insert_sorted :
    (p : ℕ → Bool) (x : ℕ) (xs : List ℕ)
    → count p (insert_sorted x xs) ≡ (if p x then 1 else 0) + count p xs
unfolding insert_sorted
count-insert_sorted p x [] = omega arith
count-insert_sorted p x (y ∷ ys) = ground (arith, count-insert_sorted p x ys)

count-sort_ascending : (p : ℕ → Bool) (xs : List ℕ) → count p (sort_ascending xs) ≡ count p xs
unfolding sort_ascending
count-sort_ascending p [] = refl
count-sort_ascending p (x ∷ xs) =
    omega (arith, count-insert_sorted p x (sort_ascending xs), count-sort_ascending p xs)

length-insert_sorted : (x : ℕ) (xs : List ℕ) → length (insert_sorted x xs) ≡ suc (length xs)
unfolding insert_sorted
length-insert_sorted x [] = refl
length-insert_sorted x (y ∷ ys) = ground (arith, length-insert_sorted x ys)

length-sort_ascending : (xs : List ℕ) → length (sort_ascending xs) ≡ length xs
unfolding sort_ascending
length-sort_ascending [] = refl
length-sort_ascending (x ∷ xs) =
    length-insert_sorted x (sort_ascending xs) ∙ ap suc (length-sort_ascending xs)

-- Each element is at most those behind it.
abbrev Lower : ℕ → List ℕ → Type 0
Lower x [] = Unit {0}
Lower x (y ∷ ys) = (x ≤ y) × Lower x ys

abbrev IsAscending : List ℕ → Type 0
IsAscending [] = Unit {0}
IsAscending (x ∷ xs) = Lower x xs × IsAscending xs

Lower-trans : (x y : ℕ) (xs : List ℕ) → x ≤ y → Lower y xs → Lower x xs
Lower-trans x y [] h l = tt
Lower-trans x y (z ∷ zs) h l = (omega arith, Lower-trans x y zs h l.1)

Lower-insert_sorted : (x y : ℕ) (xs : List ℕ) → x ≤ y → Lower x xs → Lower x (insert_sorted y xs)
unfolding insert_sorted
Lower-insert_sorted x y [] h l = (h, tt)
Lower-insert_sorted x y (z ∷ zs) h l =
    if_cases (Lower x) (leb y z) _ _ (λ _. (h, l)) (λ _. (l.0, Lower-insert_sorted x y zs h l.1))

insert_sorted-IsAscending :
    (x : ℕ) (xs : List ℕ) → IsAscending xs → IsAscending (insert_sorted x xs)
unfolding insert_sorted
insert_sorted-IsAscending x [] h = (tt, tt)
insert_sorted-IsAscending x (y ∷ ys) h =
    if_cases IsAscending (leb x y) _ _
      (λ small. ((ground arith, Lower-trans x y ys (ground arith) h.0), h))
      (λ large. (Lower-insert_sorted y x ys (ground arith) h.0, insert_sorted-IsAscending x ys h.1))

sort_ascending-IsAscending : (xs : List ℕ) → IsAscending (sort_ascending xs)
unfolding sort_ascending
sort_ascending-IsAscending [] = tt
sort_ascending-IsAscending (x ∷ xs) =
    insert_sorted-IsAscending x (sort_ascending xs) (sort_ascending-IsAscending xs)

count-Lower : (x : ℕ) (xs : List ℕ) → Lower x xs → count (at_least x) xs ≡ length xs
count-Lower x [] l = refl
count-Lower x (y ∷ ys) l = ground (arith, count-Lower x ys l.1)

-- In an ascending list the elements from index `i` on are at or above the one there, and only those
-- behind it can be above it.
count-at_least-elem :
    (xs : List ℕ) (i : ℕ)
    → IsAscending xs
    → i < length xs
    → length xs ≤ i + count (at_least (elem_or_zero xs i)) xs
unfolding elem_or_zero
count-at_least-elem [] i h b = absurd (omega arith)
count-at_least-elem (x ∷ xs) zero h b = ground (arith, count-Lower x xs h.0)
count-at_least-elem (x ∷ xs) (suc i) h b =
    ground (arith, count-at_least-elem xs i h.1 (omega arith))

Lower-elem : (x : ℕ) (xs : List ℕ) (i : ℕ) → Lower x xs → i < length xs → x ≤ elem_or_zero xs i
unfolding elem_or_zero
Lower-elem x [] i l b = absurd (omega arith)
Lower-elem x (y ∷ ys) zero l b = l.0
Lower-elem x (y ∷ ys) (suc i) l b = Lower-elem x ys i l.1 (omega arith)

count-above-elem :
    (xs : List ℕ) (i : ℕ)
    → IsAscending xs
    → i < length xs
    → count (above (elem_or_zero xs i)) xs + i + 1 ≤ length xs
unfolding elem_or_zero
count-above-elem [] i h b = absurd (omega arith)
count-above-elem (x ∷ xs) zero h b = ground (arith, count-le-length (above x) xs)
count-above-elem (x ∷ xs) (suc i) h b =
    ground (arith, count-above-elem xs i h.1 (omega arith), Lower-elem x xs i h.0 (omega arith))

length-seq_numbers : (m : Map ℕ ℕ) → length (seq_numbers m) ≡ length m
length-seq_numbers [] = refl
length-seq_numbers ((r, n) ∷ m) = ap suc (length-seq_numbers m)

pub length-furthest_replicas :
    (m : ℕ) (seen : Map ℕ ℕ)
    → length (furthest_replicas m seen) ≡ count (at_least m) (seq_numbers seen)
unfolding furthest_replicas
length-furthest_replicas m [] = refl
length-furthest_replicas m ((r, n) ∷ rest) = ground (arith, length-furthest_replicas m rest)

-- Among more than `f` observed checkpoints, at least `f + 1` are at or above the mark that the code
-- computes and at most `f` are above it.
pub weak_mark_lem :
    (f : ℕ) (seen : Map ℕ ℕ)
    → f + 1 ≤ length seen
    → (f + 1 ≤ count (λ x. leb (weak_mark f seen) x) (seq_numbers seen))
      × (count (λ x. ltb (weak_mark f seen) x) (seq_numbers seen) ≤ f)
unfolding weak_mark
weak_mark_lem f seen enough =
    let sorted = sort_ascending (seq_numbers seen) in
    let i = length seen - (f + 1) in
    let m = elem_or_zero sorted i in
    let same_length = length-sort_ascending (seq_numbers seen) ∙ length-seq_numbers seen in
    let ascending = sort_ascending-IsAscending (seq_numbers seen) in
    let inside : i < length sorted = omega (arith, same_length) in
    (
      omega (
        arith,
        same_length,
        count-at_least-elem sorted i ascending inside,
        count-sort_ascending (at_least m) (seq_numbers seen),
      ),
      omega (
        arith,
        same_length,
        count-above-elem sorted i ascending inside,
        count-sort_ascending (above m) (seq_numbers seen),
      ),
    )
