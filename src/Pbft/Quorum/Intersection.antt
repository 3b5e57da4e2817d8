-- ===== src/Pbft/Quorum/Intersection.antt =====
-- Quorums as sets of replica ids below `N`: how many members two of them share.
use hyperledger_fabric.Base.{ltb, leb, if◌then◌else◌, Bool-cases}
use hyperledger_fabric.Pbft.Replica.{Replica}
use hyperledger_fabric.Pbft.Quorum.{intersection_quorum, all_correct_replicas_quorum}
use Prim.Native.Nat.{ℕ, zero, suc, ◌+◌, ◌-◌, ◌*◌, ◌%◌, ◌≤◌, ◌<◌}
use mathlib.Core.Path.{◌≡◌, refl}
use mathlib.Core.Logic.{inl, inr}
use mathlib.Core.Bool.{Bool, true, false, not, ◌&&◌}
use native.Mathlib.Omega.{arith}

-- How many ids below `n` are in the set.
abbrev pub members : ℕ → (ℕ → Bool) → ℕ
members zero p = 0
members (suc n) p = (if p n then 1 else 0) + members n p

pub members-and-le :
    (n : ℕ) (p q : ℕ → Bool) → members n p + members n q ≤ n + members n (λ i. p i && q i)
members-and-le zero p q = omega arith
members-and-le (suc n) p q = ground (arith, members-and-le n p q)

-- Below `n`, a bound at or above `n` makes no difference.
members-cong :
    (m n j k : ℕ)
    → m ≤ n
    → n ≤ k
    → members m (λ i. leb j i && ltb i k) ≡ members m (λ i. leb j i && ltb i n)
members-cong zero n j k h hk = refl
members-cong (suc m) n j k h hk = ground (arith, members-cong m n j k (omega arith) hk)

-- More members than another set has: some member is outside it.
pub member_outside :
    (n : ℕ) (p q : ℕ → Bool)
    → members n q < members n p
    → (i : ℕ) × (i < n) × (p i ≡ true) × (q i ≡ false)
member_outside zero p q h = absurd (omega arith)
member_outside (suc n) p q h = elim (Bool-cases (p n && not (q n))) [
  | inl here ↦ (n, omega arith, ground arith, ground arith)
  | inr not_here ↦
      let (i, below, inside, outside) = member_outside n p q (ground arith) in
      (i, omega arith, inside, outside)
]

-- For an odd `N + f`, two sets of `intersectionQuorum` ids below `N` share a member that is not
-- among at most `f` faulty ones.
pub quorums_share_correct :
    (s : Replica) (p q faulty : ℕ → Bool)
    → (s.n + s.f) % 2 ≡ 1
    → intersection_quorum s ≤ members s.n p
    → intersection_quorum s ≤ members s.n q
    → members s.n faulty ≤ s.f
    → (i : ℕ) × (i < s.n) × ((p i ≡ true) × (q i ≡ true)) × (faulty i ≡ false)
unfolding intersection_quorum
quorums_share_correct s p q faulty odd hp hq few =
    let (i, below, inside, outside) =
      member_outside s.n (λ j. p j && q j) faulty (omega (arith, members-and-le s.n p q)) in
    (i, below, (ground arith, ground arith), outside)

-- The ids from `j` up to `k`, without `k`.
abbrev between : ℕ → ℕ → ℕ → Bool
between j k i = leb j i && ltb i k

members-between : (n j k : ℕ) → k ≤ n → members n (between j k) ≡ k - j
members-between zero j k h = omega arith
members-between (suc n) j k h = elim (Bool-cases (ltb n k)) [
  | inl last ↦ ground (
    arith,
    members-between n j n (omega arith),
    members-cong n n j k (omega arith) (ground arith),
  )
  | inr below ↦ ground (arith, members-between n j k (ground arith))
]

-- For an even `N + f` with `f` at most `N`, there are two sets of `intersectionQuorum` ids below `N`
-- all of whose common members are among `f` ids, which may all be faulty.
pub quorums_may_share_faulty_only :
    (s : Replica)
    → (s.n + s.f) % 2 ≡ 0
    → s.f ≤ s.n
    → (p : (ℕ → Bool)) × (q : (ℕ → Bool)) × (faulty : (ℕ → Bool)) × (intersection_quorum s
        ≤ members s.n p)
      × (intersection_quorum s ≤ members s.n q)
      × (members s.n faulty ≤ s.f)
      × ((i : ℕ) → p i ≡ true → q i ≡ true → faulty i ≡ true)
unfolding intersection_quorum
quorums_may_share_faulty_only s even few =
    let k = intersection_quorum s in
    (
      between 0 k,
      between (s.n - k) s.n,
      between (s.n - k) k,
      omega (arith, members-between s.n 0 k (omega arith)),
      omega (arith, members-between s.n (s.n - k) s.n (omega arith)),
      omega (arith, members-between s.n (s.n - k) k (omega arith)),
      λ i hp hq. ground arith,
    )

-- With `N` equal to `3f + 1` the quorum is the number of correct replicas, `N - f`.
pub all_correct_replicas_quorum_lem :
    (s : Replica) → s.n ≡ 3 * s.f + 1 → all_correct_replicas_quorum s ≡ s.n - s.f
unfolding all_correct_replicas_quorum
all_correct_replicas_quorum_lem s h = omega arith

-- With more replicas than `3f + 1` it is smaller than the number of correct replicas.
pub all_correct_replicas_quorum-lt :
    (s : Replica) → 3 * s.f + 1 < s.n → all_correct_replicas_quorum s < s.n - s.f
unfolding all_correct_replicas_quorum
all_correct_replicas_quorum-lt s h = omega arith
