-- ===== src/Buckettree/Config.antt =====
-- openchain/ledger/statemgmt/buckettree/config.go and bucket_key.go: how many buckets each level has, and
-- the arithmetic of parents and children. The configured numbers are not negative, and neither are
-- levels: a level below the root's, as that of the root's parent, is an error here as in the code. The
-- map from levels to numbers of buckets is a list, the root's first.
use hyperledger_fabric.Base.{length, ltb, ◌==◌, nat_key, if◌then◌else◌}
use Prim.Native.Nat.{ℕ, zero, suc, ◌+◌, ◌-◌, ◌*◌, ◌/◌, ◌%◌}
use mathlib.Core.Option.{Option, none, some}
use mathlib.Core.List.{List, [], ◌∷◌}

pub record Config : Type 0 where
  pub max_grouping_at_each_level : ℕ
  pub lowest_level : ℕ
  pub level_to_num_buckets : List ℕ

-- The number of buckets at the level above.
abbrev pub num_buckets_at_parent_level : ℕ → ℕ → ℕ
num_buckets_at_parent_level g n = if n % g == 0 then n / g else n / g + 1

-- The loop of `newConfig`, with the numbers of the levels below; `none` is a division by zero, or fuel
-- that does not suffice.
unfoldable pub level_loop : ℕ → ℕ → ℕ → List ℕ → Option (List ℕ)
level_loop zero g n below = none
level_loop (suc fuel) g n below =
    let rest = level_loop fuel g (num_buckets_at_parent_level g n) (n ∷ below) in
    if ltb 1 n then if g == 0 then none else rest else some (n ∷ below)

abbrev pub config_of : ℕ → Option (List ℕ) → Option Config
config_of g none = none
config_of g (some levels) = some (record {
  max_grouping_at_each_level = g;
  lowest_level = length levels - 1;
  level_to_num_buckets = levels;
})

-- `newConfig`, on fuel.
unfoldable pub new_config : ℕ → ℕ → ℕ → Option Config
new_config fuel num_buckets g = config_of g (level_loop fuel g num_buckets [])

-- `none` is a panic: a level that the tree has not.
abbrev pub at_level : ℕ → List ℕ → Option ℕ
at_level level [] = none
at_level zero (n ∷ ns) = some n
at_level (suc level) (n ∷ ns) = at_level level ns

unfoldable pub get_num_buckets : ℕ → Config → Option ℕ
get_num_buckets level c =
    if ltb c.lowest_level level then none else at_level level c.level_to_num_buckets

abbrev pub compute_parent_bucket_number : ℕ → Config → ℕ
compute_parent_bucket_number b c = num_buckets_at_parent_level c.max_grouping_at_each_level b

pub record BucketKey : Type 0 where
  pub level : ℕ
  pub bucket_number : ℕ

abbrev pub checked : ℕ → ℕ → Option ℕ → Option BucketKey
checked level b none = none
checked level b (some n) =
    if ltb b 1
    then none
    else if ltb n b
    then none
    else some (record { level = level; bucket_number = b })

-- `newBucketKey`; `none` is a panic.
unfoldable pub new_bucket_key : ℕ → ℕ → Config → Option BucketKey
new_bucket_key level b c = checked level b (get_num_buckets level c)

unfoldable pub get_parent_key : BucketKey → Config → Option BucketKey
get_parent_key k c =
    if k.level == 0
    then none
    else new_bucket_key (k.level - 1) (compute_parent_bucket_number k.bucket_number c) c

-- `none` is a panic.
unfoldable pub get_child_index : BucketKey → BucketKey → Config → Option ℕ
get_child_index k child c =
    let first = (k.bucket_number - 1) * c.max_grouping_at_each_level + 1 in
    let last = k.bucket_number * c.max_grouping_at_each_level in
    if ltb child.bucket_number first
    then none
    else if ltb last child.bucket_number
    then none
    else some (child.bucket_number - first)

unfoldable pub get_child_key : ℕ → BucketKey → Config → Option BucketKey
get_child_key index k c =
    let first = (k.bucket_number - 1) * c.max_grouping_at_each_level + 1 in
    new_bucket_key (k.level + 1) (first + index) c
