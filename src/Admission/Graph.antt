-- ===== src/Admission/Graph.antt =====
-- packages/core/src/analysis/semantic-graph-completeness-verifier.js:
-- `SemanticGraphCompletenessVerifier.verify`.
use text.Mathlib.Text.{◌==◌ as text_eq}
use valax_wearedevs_deobfusc.Prelude.{
  ℕ, suc, String, Bool, true, false, ◌&&◌, ◌||◌, Option, none, some, List, [], ◌∷◌, leb,
  if◌then◌else◌,
}

pub record Binding : Type 0 where
  pub binding_id : String
  pub storage : String

-- The graph of closures and environments, as far as the verifier reads it: the kind of each closure,
-- the bindings of each environment, and how many calls and tables there are.
pub record EnvironmentGraph : Type 0 where
  pub closure_kinds : List String
  pub environments : List (List Binding)
  pub call_count : ℕ
  pub table_count : ℕ

-- A count that the lifter does not report is 0.
pub record LiftStats : Type 0 where
  pub stateful_branches : ℕ
  pub multi_returns : ℕ
  pub vararg_packs : ℕ
  pub calls : ℕ

-- `isAcyclic()` and the number of the nodes.
pub record OrderGraph : Type 0 where
  pub acyclic : Bool
  pub node_count : ℕ

unfoldable pub source_closures : List String → ℕ
source_closures [] = 0
source_closures (k ∷ ks) =
    let rest = source_closures ks in if text_eq k "SOURCE_CLOSURE" then suc rest else rest

unfoldable pub is_prefix_binding : Binding → Bool
is_prefix_binding b =
    text_eq b.binding_id "B_PREFIX" || text_eq b.binding_id "B1" || text_eq b.storage "UPVALUE_CELL"

unfoldable pub is_args_binding : Binding → Bool
is_args_binding b =
    text_eq b.binding_id "B_ARGS" || text_eq b.binding_id "B2" || text_eq b.storage "TABLE_OBJECT"

unfoldable pub is_count_binding : Binding → Bool
is_count_binding b =
    text_eq b.binding_id "B_COUNT" || text_eq b.binding_id "B3" || text_eq b.storage "MUTABLE_CELL"

-- `hasPrefixBinding`, `hasArgsBinding` and `hasCountBinding`.
pub record Found : Type 0 where
  pub has_prefix : Bool
  pub has_args : Bool
  pub has_count : Bool

unfoldable pub scan_binding : Binding → Found → Found
unfolding is_prefix_binding is_args_binding is_count_binding
scan_binding b f = record {
  has_prefix = if is_prefix_binding b then true else f.has_prefix;
  has_args = if is_args_binding b then true else f.has_args;
  has_count = if is_count_binding b then true else f.has_count;
}

unfoldable pub scan_environment : List Binding → Found → Found
unfolding scan_binding
scan_environment [] f = f
scan_environment (b ∷ bs) f = scan_environment bs (scan_binding b f)

unfoldable pub scan_environments : List (List Binding) → Found → Found
unfolding scan_environment
scan_environments [] f = f
scan_environments (e ∷ es) f = scan_environments es (scan_environment e f)

unfoldable pub bindings_complete : List (List Binding) → Bool
unfolding scan_environments
bindings_complete es =
    let f =
      scan_environments es (record { has_prefix = false; has_args = false; has_count = false }) in
    f.has_prefix && f.has_args && f.has_count

unfoldable pub order_complete : Option OrderGraph → Bool
order_complete none = true
order_complete (some g) = g.acyclic && leb 4 g.node_count

pub record Completeness : Type 0 where
  pub complete : Bool
  pub source_closures_complete : Bool
  pub bindings_are_complete : Bool
  pub calls_complete : Bool
  pub branches_complete : Bool
  pub returns_complete : Bool
  pub tables_complete : Bool
  pub varargs_complete : Bool
  pub side_effects_complete : Bool
  pub evaluation_order_complete : Bool
  pub is_missing_components : Bool

unfoldable pub verify_present : EnvironmentGraph → LiftStats → Option OrderGraph → Completeness
unfolding source_closures bindings_complete order_complete
verify_present g v o =
    let closures = leb 2 (source_closures g.closure_kinds) in
    let bindings = bindings_complete g.environments in
    let called = leb 2 g.call_count in
    let branches = leb 1 v.stateful_branches in
    let returns = leb 2 v.multi_returns in
    let tables = leb 1 g.table_count in
    let varargs = leb 1 v.vararg_packs in
    let effects = leb 1 v.calls || leb 2 g.call_count in
    let order = order_complete o in
    record {
      complete =
          closures && bindings && called && branches && returns && tables && varargs && effects
          && order;
      source_closures_complete = closures;
      bindings_are_complete = bindings;
      calls_complete = called;
      branches_complete = branches;
      returns_complete = returns;
      tables_complete = tables;
      varargs_complete = varargs;
      side_effects_complete = effects;
      evaluation_order_complete = order;
      is_missing_components = false;
    }

abbrev pub missing_components : Completeness
missing_components = record {
  complete = false;
  source_closures_complete = false;
  bindings_are_complete = false;
  calls_complete = false;
  branches_complete = false;
  returns_complete = false;
  tables_complete = false;
  varargs_complete = false;
  side_effects_complete = false;
  evaluation_order_complete = false;
  is_missing_components = true;
}

-- `none` is a component that is missing. The lifted blocks are only asked for.
unfoldable pub verify :
    Option EnvironmentGraph → Bool → Option LiftStats → Option OrderGraph → Completeness
unfolding verify_present
verify (some g) true (some v) o = verify_present g v o
verify _ _ _ o = missing_components
