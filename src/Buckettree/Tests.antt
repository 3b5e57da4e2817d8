-- ===== src/Buckettree/Tests.antt =====
-- Concrete trees of buckets.
use hyperledger_fabric.Buckettree.Config.{
  Config, BucketKey, level_loop, new_config, get_num_buckets, get_parent_key, get_child_index,
  get_child_key,
}
use hyperledger_fabric.Buckettree.Tree.{
  IsTree, key, new_config-IsTree, new_config-endless, get_child_key-get_parent_key,
}
use Prim.Native.Nat.{ℕ, ◌<◌}
use mathlib.Core.Path.{◌≡◌, refl, sym, ◌∙◌, subst}
use mathlib.Core.Option.{none, some}
use mathlib.Core.List.{[], ◌∷◌}
use native.Mathlib.Omega.{arith}

new_config-IsTree_example :
    (c : Config) × (new_config 26 26 3 ≡ some c) × (c.max_grouping_at_each_level ≡ 3) × IsTree 26 c
new_config-IsTree_example = new_config-IsTree 26 26 3 (omega arith) (omega arith) (omega arith)

new_config-endless_example : new_config 10 2 1 ≡ none
new_config-endless_example = new_config-endless 10 2 (omega arith)

-- 26 buckets in groups of 3.
abbrev small : Config
small = record {
  max_grouping_at_each_level = 3;
  lowest_level = 3;
  level_to_num_buckets = 1 ∷ 3 ∷ 9 ∷ 26 ∷ [];
}

small_lem : new_config 26 26 3 ≡ some small
unfolding new_config level_loop
small_lem = refl

small-IsTree : IsTree 26 small
small-IsTree =
    let (c, result, _, tree) =
      new_config-IsTree 26 26 3 (omega arith) (omega arith) (omega arith) in
    let both : some c ≡ some small = sym result ∙ small_lem in
    let same : c ≡ small = cc both in subst (IsTree 26) same tree

get_child_key-get_parent_key_example :
    (parent : BucketKey) × (index : ℕ) × (get_parent_key (key 3 26) small ≡ some parent)
    × (get_child_index parent (key 3 26) small ≡ some index)
    × (index < 3)
    × (get_child_key index parent small ≡ some (key 3 26))
unfolding get_num_buckets
get_child_key-get_parent_key_example =
    get_child_key-get_parent_key 26 2 26 26 small small-IsTree (omega arith) refl (omega arith)
      (omega arith)
