-- ===== src/Buckettree/Tree.antt =====
-- The configured tree, and the keys of its buckets.
use hyperledger_fabric.Base.{length, ltb, ltb→lt, ◌==◌, nat_key, Bool-cases}
use hyperledger_fabric.Buckettree.Config.{
  Config, num_buckets_at_parent_level, level_loop, config_of, new_config, at_level, get_num_buckets,
  BucketKey, checked, new_bucket_key, get_parent_key, get_child_index, get_child_key,
}
use hyperledger_fabric.Buckettree.Levels.{InGroup, parent-InGroup, Above, last_of, level_loop-Ends}
use Prim.Native.Nat.{ℕ, zero, suc, ◌+◌, ◌-◌, ◌*◌, ◌<◌, ◌≤◌}
use mathlib.Core.Path.{◌≡◌, refl, ap, ◌∙◌}
use mathlib.Core.Logic.{inl, inr}
use mathlib.Core.Bool.{true, false}
use mathlib.Core.Option.{none, some}
use mathlib.Core.List.{List, [], ◌∷◌}
use native.Mathlib.Nat.{mul-le-mul_right, suc-mul}
use native.Mathlib.Omega.{arith}

-- One bucket at the root, the configured number at the lowest level, and between them groups.
pub record IsTree (n : ℕ) (c : Config) : Type 0 where
  pub root : get_num_buckets 0 c ≡ some 1
  pub lowest : get_num_buckets c.lowest_level c ≡ some n
  pub groups :
      (level m : ℕ)
      → get_num_buckets (suc level) c ≡ some m
      → get_num_buckets level c ≡ some (num_buckets_at_parent_level c.max_grouping_at_each_level m)

at_level-last : (n : ℕ) (rest : List ℕ) → at_level (length rest) (n ∷ rest) ≡ some (last_of n rest)
at_level-last n [] = refl
at_level-last n (m ∷ rest) = at_level-last m rest

at_level-Above :
    (g n level m : ℕ) (rest : List ℕ)
    → Above g n rest
    → at_level (suc level) (n ∷ rest) ≡ some m
    → at_level level (n ∷ rest) ≡ some (num_buckets_at_parent_level g m)
at_level-Above g n level m [] levels here = cc here
at_level-Above g n zero m (k ∷ rest) (next, levels) here =
    let same : k ≡ m = cc here in ap some (next ∙ ap (num_buckets_at_parent_level g) same)
at_level-Above g n (suc level) m (k ∷ rest) (next, levels) here =
    at_level-Above g k level m rest levels here

-- A level that is found is not below the lowest.
get_num_buckets-at_level :
    (c : Config) (level m : ℕ)
    → get_num_buckets level c ≡ some m
    → (level ≤ c.lowest_level) × (at_level level c.level_to_num_buckets ≡ some m)
unfolding get_num_buckets
get_num_buckets-at_level c level m h = elim (Bool-cases (ltb c.lowest_level level)) [
  | inl below ↦ let q : none ≡ some m = rw below at h in cc q
  | inr inside ↦ (ground (arith, inside), rw inside at h)
]

get_num_buckets-inside :
    (c : Config) (level : ℕ)
    → level ≤ c.lowest_level
    → get_num_buckets level c ≡ at_level level c.level_to_num_buckets
unfolding get_num_buckets
get_num_buckets-inside c level h =
    let inside : ltb c.lowest_level level ≡ false = ground (arith, h) in rw inside refl

config-IsTree :
    (g n : ℕ) (rest : List ℕ)
    → Above g 1 rest
    → last_of 1 rest ≡ n
    → IsTree n (record {
      max_grouping_at_each_level = g;
      lowest_level = length (1 ∷ rest) - 1;
      level_to_num_buckets = 1 ∷ rest;
    })
config-IsTree g n rest levels lowest =
    let c : Config = record {
      max_grouping_at_each_level = g;
      lowest_level = length (1 ∷ rest) - 1;
      level_to_num_buckets = 1 ∷ rest;
    } in
    let depth : length (1 ∷ rest) - 1 ≡ length rest = omega arith in
    record {
      root = get_num_buckets-inside c 0 (omega arith);
      lowest =
          get_num_buckets-inside c c.lowest_level (omega arith)
          ∙ (ap (λ k. at_level k (1 ∷ rest)) depth ∙ (at_level-last 1 rest ∙ ap some lowest));
      groups = λ level m h.
          let (inside, here) = get_num_buckets-at_level c (suc level) m h in
          get_num_buckets-inside c level (omega (arith, inside))
          ∙ at_level-Above g 1 level m rest levels here;
    }

-- With groups of at least two and at least one bucket, the loop of `newConfig` ends, and as many rounds
-- as there are buckets suffice; the levels form a tree over the buckets, with one root.
pub new_config-IsTree :
    (fuel n g : ℕ)
    → 2 ≤ g
    → 0 < n
    → n ≤ fuel
    → (c : Config) × (new_config fuel n g ≡ some c)
      × (c.max_grouping_at_each_level ≡ g)
      × IsTree n c
unfolding new_config
new_config-IsTree fuel n g two some_bucket enough =
    let e = level_loop-Ends fuel g n [] two some_bucket enough tt in
    (_, ap (config_of g) e.result, refl, config-IsTree g n e.rest e.levels e.lowest)

parent_of_one : (n : ℕ) → num_buckets_at_parent_level 1 n ≡ n
parent_of_one n = ground arith

level_loop-endless : (fuel n : ℕ) (below : List ℕ) → 1 < n → level_loop fuel 1 n below ≡ none
unfolding level_loop
level_loop-endless zero n below more = refl
level_loop-endless (suc fuel) n below more =
    let several : ltb 1 n ≡ true = ground arith in
    rw several (
      ap (λ p. level_loop fuel 1 p (n ∷ below)) (parent_of_one n)
      ∙ level_loop-endless fuel n (n ∷ below) more)

-- With groups of one and more than one bucket, the loop does not end, whatever the number of rounds.
pub new_config-endless : (fuel n : ℕ) → 1 < n → new_config fuel n 1 ≡ none
unfolding new_config
new_config-endless fuel n more = ap (config_of 1) (level_loop-endless fuel n [] more)

new_bucket_key-some :
    (level b n : ℕ) (c : Config)
    → get_num_buckets level c ≡ some n
    → 0 < b
    → b ≤ n
    → new_bucket_key level b c ≡ some (record { level = level; bucket_number = b })
unfolding new_bucket_key
new_bucket_key-some level b n c has positive inside =
    let at_least : ltb b 1 ≡ false = ground arith in
    let at_most : ltb n b ≡ false = ground arith in
    ap (checked level b) has ∙ rw (at_least, at_most) refl

-- Of two numbers, the smaller is in no later group.
group_mono : (g b n p m : ℕ) → 0 < g → b ≤ n → (x : InGroup g b p) → (y : InGroup g n m) → p ≤ m
group_mono g b n p m some_group le x y = elim (Bool-cases (ltb y.group x.group)) [
  | inl later ↦
      let beyond : suc y.group * g ≤ x.group * g =
        mul-le-mul_right g (ltb→lt y.group x.group later) in
      absurd (omega (arith, beyond, suc-mul y.group g, x.begins_below, y.ends_above, le))
  | inr no_later ↦ ground (arith, no_later, x.number, y.number)
]

abbrev pub key : ℕ → ℕ → BucketKey
key level b = record { level = level; bucket_number = b }

child_index-some :
    (c : Config) (level b p : ℕ)
    → (x : InGroup c.max_grouping_at_each_level b p)
    → get_child_index (key level p) (key (suc level) b) c
      ≡ some (b - (x.group * c.max_grouping_at_each_level + 1))
unfolding get_child_index
child_index-some c level b p x =
    let g = c.max_grouping_at_each_level in
    let before : p - 1 ≡ x.group = omega (arith, x.number) in
    let last : p * g ≡ x.group * g + g = ap (λ q. q * g) x.number ∙ suc-mul x.group g in
    let low : ltb b (x.group * g + 1) ≡ false = ground (arith, x.begins_below) in
    let high : ltb (x.group * g + g) b ≡ false = ground (arith, x.ends_above) in
    rw (before, last, low, high) refl

-- Below the root, the parent of a bucket of the tree is one of the tree, the bucket is one of its
-- children, at an index below the size of a group, and the child at that index is the bucket. None of
-- the calls panics.
pub get_child_key-get_parent_key :
    (n level b m : ℕ) (c : Config)
    → IsTree n c
    → 0 < c.max_grouping_at_each_level
    → get_num_buckets (suc level) c ≡ some m
    → 0 < b
    → b ≤ m
    → (parent : BucketKey) × (index : ℕ) × (get_parent_key (key (suc level) b) c ≡ some parent)
      × (get_child_index parent (key (suc level) b) c ≡ some index)
      × (index < c.max_grouping_at_each_level)
      × (get_child_key index parent c ≡ some (key (suc level) b))
unfolding get_parent_key get_child_key
get_child_key-get_parent_key n level b m c tree some_group has positive inside =
    let g = c.max_grouping_at_each_level in
    let p = num_buckets_at_parent_level g b in
    let x = parent-InGroup g b some_group positive in
    let y = parent-InGroup g m some_group (omega arith) in
    let below_root : (suc level == 0) ≡ false = ground arith in
    let up : suc level - 1 ≡ level = omega arith in
    let before : p - 1 ≡ x.group = omega (arith, x.number) in
    let down : level + 1 ≡ suc level = omega arith in
    let first = x.group * g + 1 in
    let back : first + (b - first) ≡ b = omega (arith, x.begins_below) in
    (
      key level p,
      b - first,
      rw (below_root, up)
          (new_bucket_key-some level p (num_buckets_at_parent_level g m) c (tree.groups level m has)
            (omega (arith, x.number))
            (group_mono g b m p (num_buckets_at_parent_level g m) some_group inside x y)),
      child_index-some c level b p x,
      omega (arith, x.ends_above, x.begins_below),
      rw (before, down, back) (new_bucket_key-some (suc level) b m c has positive inside),
    )
