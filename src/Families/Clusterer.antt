-- ===== src/Families/Clusterer.antt =====
-- packages/core/src/adapters/clustering.js: `StructuralClusterer`.
use valax_wearedevs_deobfusc.Prelude.{
  ℕ, Bool, true, false, ◌&&◌, Option, none, some, List, [], ◌∷◌, ◌++◌, String, text_discrete, ite,
  ltb, if◌then◌else◌,
}
use valax_wearedevs_deobfusc.Prelude.Dict.{Dict, text_key, get, set, has}

-- What `classify` reads of a fingerprint. No alphabet and an empty text are both false in a test.
pub record Fingerprint : Type 0 where
  pub dispatcher_topology : String
  pub alphabet_hash : Option String
  pub string_pool_size : ℕ
  pub total_closure_constructors : ℕ

pub record Fixture (I : Type 0) : Type 0 where
  pub fixture_id : I
  pub fingerprint : Option Fingerprint

unfoldable pub is_text : String → String → Bool
unfolding text_discrete
is_text s t = ite (text_discrete s t) true false

unfoldable pub has_alphabet : Fingerprint → Bool
unfolding text_discrete
has_alphabet p = elim p.alphabet_hash [
  | none ↦ false
  | some h ↦ ite (text_discrete h "") false true
]

unfoldable pub classify : Option Fingerprint → String
unfolding is_text has_alphabet
classify none = "UNKNOWN_FAMILY"
classify (some p) =
    if is_text p.dispatcher_topology "binary_search_tree"
    then if has_alphabet p && ltb 50 p.string_pool_size
      then "Variant_Family_A_WeAreDevs_BST_Alphabet"
      else if has_alphabet p
      then "Variant_Family_A2_BST_Alphabet_Compact"
      else "Variant_Family_A3_BST_Custom_Pool"
    else if is_text p.dispatcher_topology "flat_switch"
    then "Variant_Family_B_Flat_Switch"
    else if is_text p.dispatcher_topology "linear_elseif"
    then "Variant_Family_C_Linear_Dispatcher"
    else if ltb 0 p.total_closure_constructors
    then "Variant_Family_D_Closure_Only"
    else "Variant_Family_E_Clean_Or_Minimal"

module _ {I : Type 0} where
  -- The list of a family is made when its first fixture comes.
  unfoldable pub opened : String → Dict String (List I) → Dict String (List I)
  unfolding has set
  opened family clusters = if has family clusters then clusters else set family [] clusters

  -- `clusters.get(fam).push(f.fixtureId)`, which is only called where the family is present
  unfoldable pub push_to : String → I → Dict String (List I) → Dict String (List I)
  unfolding get set
  push_to family id clusters = elim (get family clusters) [
    | none ↦ clusters
    | some ids ↦ set family (ids ++ (id ∷ [])) clusters
  ]

  -- One round of the loop of `cluster`.
  unfoldable pub add_fixture : Dict String (List I) → Fixture I → Dict String (List I)
  unfolding classify opened push_to
  add_fixture clusters f =
      let family = classify f.fingerprint in push_to family f.fixture_id (opened family clusters)

  unfoldable pub cluster_from : Dict String (List I) → List (Fixture I) → Dict String (List I)
  unfolding add_fixture
  cluster_from clusters [] = clusters
  cluster_from clusters (f ∷ fs) = cluster_from (add_fixture clusters f) fs

  unfoldable pub cluster : List (Fixture I) → Dict String (List I)
  unfolding cluster_from
  cluster fs = cluster_from [] fs
