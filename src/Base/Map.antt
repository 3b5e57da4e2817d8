-- ===== src/Base/Map.antt =====
-- Go's maps as association lists. A `range` loop visits the entries in the list's order; the
-- language leaves that order open, and the theorems hold for every list.
use hyperledger_fabric.Base.Lists.{All, length}
use hyperledger_fabric.Base.Tests.{if◌then◌else◌, is_some, Bool-cases, if_cases}
use hyperledger_fabric.Base.Keys.{Key, ◌==◌}
use Prim.Native.Nat.{◌≤◌}
use mathlib.Core.Path.{◌≡◌, refl, subst₂}
use mathlib.Core.Logic.{inl, inr}
use mathlib.Core.Bool.{Bool, true, false, not}
use mathlib.Core.Option.{Option, none, some}
use mathlib.Core.List.{List, [], ◌∷◌, ◌++◌}
use native.Mathlib.Omega.{arith}

abbrev pub Map {ℓ κ} : Type ℓ → Type κ → Type (ℓ ⊔ κ)
Map K V = List (K × V)

module _ {ℓ κ} {K : Type ℓ} {V : Type κ} where
  -- Keeps the entries that pass the test: a loop that deletes the others.
  unfoldable pub retain : (K → V → Bool) → Map K V → Map K V
  retain p [] = []
  retain p ((j, w) ∷ m) = let rest = retain p m in if p j w then (j, w) ∷ rest else rest

  pub length-retain : (p : K → V → Bool) (m : Map K V) → length (retain p m) ≤ length m
  unfolding retain
  length-retain p [] = omega arith
  length-retain p ((j, w) ∷ m) = ground (arith, length-retain p m)

module _ {ℓ κ} {K : Type ℓ} {V : Type κ} ⦃key : Key K⦄ where
  unfoldable pub lookup : K → Map K V → Option V
  lookup k [] = none
  lookup k ((j, w) ∷ m) = if j == k then some w else lookup k m

  unfoldable pub insert : K → V → Map K V → Map K V
  insert k v [] = (k, v) ∷ []
  insert k v ((j, w) ∷ m) = let rest = insert k v m in if j == k then (k, v) ∷ m else (j, w) ∷ rest

  unfoldable pub delete : K → Map K V → Map K V
  unfolding retain
  delete k = retain (λ j _. not (j == k))

  abbrev pub member : K → Map K V → Bool
  member k m = is_some (lookup k m)

  pub lookup-insert :
      (v : V) (m : Map K V) (i k : K)
      → lookup k (insert i v m) ≡ (if i == k then some v else lookup k m)
  unfolding lookup insert
  lookup-insert v [] i k = refl
  lookup-insert v ((j, w) ∷ m) i k =
      ground (arith, lookup-insert v m i k, key.same_iff j i, key.same_iff j k, key.same_iff i k)

  pub lookup-insert_self : (v : V) (m : Map K V) (k : K) → lookup k (insert k v m) ≡ some v
  lookup-insert_self v m k = ground (arith, lookup-insert v m k k, key.same_iff k k)

  pub insert-insert : (k : K) (v w : V) (m : Map K V) → insert k v (insert k w m) ≡ insert k v m
  unfolding insert
  insert-insert k v w [] = ground (arith, key.same_iff k k)
  insert-insert k v w ((j, x) ∷ m) = ground (arith, key.same_iff k k, insert-insert k v w m)

  -- A test of the key alone.
  pub lookup-retain :
      (p : K → Bool) (j : K) (m : Map K V)
      → lookup j (retain (λ k _. p k) m) ≡ (if p j then lookup j m else none)
  unfolding lookup retain
  lookup-retain p j [] = ground arith
  lookup-retain p j ((i, w) ∷ m) = ground (arith, key.same_iff i j, lookup-retain p j m)

  pub lookup-delete :
      (k j : K) (m : Map K V) → lookup j (delete k m) ≡ (if j == k then none else lookup j m)
  unfolding delete
  lookup-delete k j m = ground (arith, lookup-retain (λ i. not (i == k)) j m)

  -- Entries of a map, as a predicate, kept by each operation.
  module _ {μ} (P : K → V → Type μ) where
    abbrev pub Entries : Map K V → Type μ
    Entries = All (λ (x : K × V). P x.0 x.1)

    pub Entries-insert : (k : K) (v : V) (m : Map K V) → P k v → Entries m → Entries (insert k v m)
    unfolding insert
    Entries-insert k v [] h _ = (h, tt)
    Entries-insert k v ((j, w) ∷ m) h hs =
        elim (j == k) as (λ b. Entries (if b then (k, v) ∷ m else (j, w) ∷ insert k v m)) [
          | true ↦ (h, hs.1)
          | false ↦ (hs.0, Entries-insert k v m h hs.1)
        ]

    pub Entries-retain : (p : K → V → Bool) (m : Map K V) → Entries m → Entries (retain p m)
    unfolding retain
    Entries-retain p [] _ = tt
    Entries-retain p ((j, w) ∷ m) hs =
        elim (p j w) as (λ b. Entries (if b then (j, w) ∷ retain p m else retain p m)) [
          | true ↦ (hs.0, Entries-retain p m hs.1)
          | false ↦ Entries-retain p m hs.1
        ]

    pub Entries-lookup : (k : K) (v : V) (m : Map K V) → Entries m → lookup k m ≡ some v → P k v
    unfolding lookup
    Entries-lookup k v [] _ h = cc
    Entries-lookup k v ((j, w) ∷ m) hs h = elim (Bool-cases (j == k)) [
      | inl same ↦
          let q : some w ≡ some v = rw same at h in subst₂ P ((key.same_iff j k).0 same) (cc q) hs.0
      | inr other ↦ Entries-lookup k v m hs.1 (rw other at h)
    ]

  -- Every key once, as in a map of Go.
  abbrev pub DistinctKeys : Map K V → Type κ
  DistinctKeys [] = Unit
  DistinctKeys ((j, w) ∷ m) = (lookup j m ≡ none) × DistinctKeys m

  lookup-insert-none :
      (k j : K) (v : V) (m : Map K V)
      → (k == j) ≡ false
      → lookup j m ≡ none
      → lookup j (insert k v m) ≡ none
  lookup-insert-none k j v m other new = rw (lookup-insert v m k j, other) new

  pub insert-DistinctKeys :
      (k : K) (v : V) (m : Map K V) → DistinctKeys m → DistinctKeys (insert k v m)
  unfolding insert lookup
  insert-DistinctKeys k v [] _ = (refl, tt)
  insert-DistinctKeys k v ((j, w) ∷ m) (new, others) =
      if_cases DistinctKeys (j == k) ((k, v) ∷ m) ((j, w) ∷ insert k v m)
        (λ same. (rw ((key.same_iff j k).0 same) at new, others))
        (λ other. (
          lookup-insert-none k j v m (ground (arith, key.same_iff j k, key.same_iff k j)) new,
          insert-DistinctKeys k v m others,
        ))

  pub Entries-of_lookup {μ} :
      (P : K → V → Type μ) (m : Map K V)
      → DistinctKeys m
      → ((k : K) (v : V) → lookup k m ≡ some v → P k v)
      → Entries P m
  unfolding lookup
  Entries-of_lookup P [] _ _ = tt
  Entries-of_lookup P ((j, w) ∷ m) (new, others) h = (
    h j w (ground (arith, key.same_iff j j)),
    Entries-of_lookup P m others (λ k v here. h k v (ground (arith, key.same_iff j k, new, here))),
  )

  pub insert-fresh :
      (k : K) (v : V) (m : Map K V) → lookup k m ≡ none → insert k v m ≡ m ++ (k, v) ∷ []
  unfolding insert lookup
  insert-fresh k v [] new = refl
  insert-fresh k v ((j, w) ∷ m) new = ground (arith, key.same_iff j k, insert-fresh k v m, new)

  -- No key of the one map is in the other.
  abbrev pub Fresh : Map K V → Map K V → Type κ
  Fresh acc m = Entries (λ (k : K) (_ : V). lookup k acc ≡ none) m

  pub insert-Fresh :
      (k : K) (v : V) (acc m : Map K V) → lookup k m ≡ none → Fresh acc m → Fresh (insert k v acc) m
  unfolding lookup
  insert-Fresh k v acc [] new h = tt
  insert-Fresh k v acc ((j, w) ∷ m) new (fresh, others) = (
    lookup-insert-none k j v acc (ground (arith, key.same_iff j k, key.same_iff k j, new)) fresh,
    insert-Fresh k v acc m (ground (arith, new)) others,
  )
