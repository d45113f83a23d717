-- ===== src/Families/Examples.antt =====
-- Tests of packages/core/src/adapters/clustering.js.
use valax_wearedevs_deobfusc.Prelude.{ℕ, ◌≡◌, refl, Option, none, some, List, [], ◌∷◌}
use valax_wearedevs_deobfusc.Prelude.Dict.{text_key, get}
use valax_wearedevs_deobfusc.Families.Clusterer.{Fingerprint, Fixture, classify, cluster}
use valax_wearedevs_deobfusc.Families.Grouping.{get-cluster}

abbrev tree_print : Option Fingerprint
tree_print = some (record {
  dispatcher_topology = "binary_search_tree";
  alphabet_hash = some "9f86d081";
  string_pool_size = 51;
  total_closure_constructors = 0;
})

abbrev fixtures : List (Fixture ℕ)
fixtures =
    record { fixture_id = 1; fingerprint = tree_print }
    ∷ record { fixture_id = 2; fingerprint = none }
    ∷ record { fixture_id = 3; fingerprint = tree_print }
    ∷ []

get-cluster_example :
    get "Variant_Family_A_WeAreDevs_BST_Alphabet" (cluster fixtures) ≡ some (1 ∷ 3 ∷ [])
unfolding classify
get-cluster_example = get-cluster "Variant_Family_A_WeAreDevs_BST_Alphabet" fixtures

tree_family : classify tree_print ≡ "Variant_Family_A_WeAreDevs_BST_Alphabet"
unfolding classify
tree_family = refl
