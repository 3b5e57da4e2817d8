-- ===== src/Pbft/Quorum/Votes.antt =====
-- From a list of messages by distinct replicas to a set of replica ids.
use hyperledger_fabric.Base.{◌==◌, nat_key, if◌then◌else◌, Bool-cases, any, count, All, nat_beq_iff}
use hyperledger_fabric.Pbft.Quorum.Intersection.{members}
use Prim.Native.Nat.{ℕ, zero, suc, ◌+◌, ◌≤◌, ◌<◌}
use mathlib.Core.Path.{◌≡◌, refl}
use mathlib.Core.Logic.{inl, inr}
use mathlib.Core.Bool.{Bool, true, false, ◌&&◌}
use mathlib.Core.List.{List, [], ◌∷◌, ◌++◌}
use native.Mathlib.Omega.{arith}

members-same :
    (n j : ℕ) (b : Bool) (q : ℕ → Bool)
    → n ≤ j
    → members n (λ i. if b && j == i then true else q i) ≡ members n q
members-same zero j b q h = refl
members-same (suc n) j b q h = ground (arith, members-same n j b q (omega arith))

pub members-add :
    (n j : ℕ) (b : Bool) (q : ℕ → Bool)
    → q j ≡ false
    → j < n
    → members n (λ i. if b && j == i then true else q i) ≡ (if b then 1 else 0) + members n q
members-add zero j b q new h = absurd (omega arith)
members-add (suc n) j b q new h = elim (Bool-cases (j == n)) [
  | inl last ↦
      let e : j ≡ n = (nat_beq_iff j n).0 last in ground (arith, members-same n j b q (omega arith))
  | inr other ↦ ground (arith, members-add n j b q new (ground arith))
]

module _ {ℓ} {A : Type ℓ} (id : A → ℕ) where
  -- Whether some message of the list is by the replica.
  abbrev pub has_id : ℕ → List A → Bool
  has_id i xs = any (λ x. id x == i) xs

  -- No two messages of the list are by the same replica.
  abbrev pub DistinctIds : List A → Type 0
  DistinctIds [] = Unit {0}
  DistinctIds (x ∷ xs) = (has_id (id x) xs ≡ false) × DistinctIds xs

  -- Whether some message of the list that passes the test is by the replica.
  abbrev pub votes : (A → Bool) → List A → ℕ → Bool
  votes p xs i = any (λ x. p x && id x == i) xs

  pub votes-has_id :
      (p : A → Bool) (i : ℕ) (xs : List A) → has_id i xs ≡ false → votes p xs i ≡ false
  votes-has_id p i [] h = refl
  votes-has_id p i (x ∷ xs) h = ground (arith, votes-has_id p i xs)

  pub has_id-append :
      (i : ℕ) (xs : List A) (y : A)
      → has_id i xs ≡ false
      → (id y == i) ≡ false
      → has_id i (xs ++ y ∷ []) ≡ false
  has_id-append i [] y h hy = ground arith
  has_id-append i (x ∷ xs) y h hy = ground (arith, has_id-append i xs y)

  -- The test that the code makes before it appends.
  pub DistinctIds-append :
      (xs : List A) (y : A) → has_id (id y) xs ≡ false → DistinctIds xs → DistinctIds (xs ++ y ∷ [])
  DistinctIds-append [] y new h = (refl, tt)
  DistinctIds-append (x ∷ xs) y new h =
      (has_id-append (id x) xs y h.0 (ground arith), DistinctIds-append xs y (ground arith) h.1)

  -- Messages by distinct replicas are no more than their senders.
  pub count-le-members :
      (n : ℕ) (p : A → Bool) (xs : List A)
      → DistinctIds xs
      → All (λ x. id x < n) xs
      → count p xs ≤ members n (votes p xs)
  count-le-members n p [] d b = omega arith
  count-le-members n p (x ∷ xs) d b = omega (
    arith,
    members-add n (id x) (p x) (votes p xs) (votes-has_id p (id x) xs d.0) b.0,
    count-le-members n p xs d.1 b.1,
  )
