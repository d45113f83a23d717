-- ===== src/Admission/Examples.antt =====
-- Tests and instances for the admission of recovered programs.
use valax_wearedevs_deobfusc.Prelude.{
  ◌≡◌, ◌↔◌, refl, true, false, not, ◌&&◌, ◌||◌, none, some, [], ◌∷◌, In,
}
use valax_wearedevs_deobfusc.Admission.Gate.{Evidence, evaluate, truthy}
use valax_wearedevs_deobfusc.Admission.Verdict.{
  Admissible, evaluate-Admissible, reasons-evaluate, oracle_only_vetoes,
}
use valax_wearedevs_deobfusc.Admission.Evidence.{
  static_ast, cfg, points_to, abstract_interpretation, Mixed, Features,
}
use valax_wearedevs_deobfusc.Admission.Integrity
use valax_wearedevs_deobfusc.Admission.Integrity.{Validation}
use valax_wearedevs_deobfusc.Admission.Required
use valax_wearedevs_deobfusc.Admission.Required.{
  RequiredReport, is_cross_feature, undefined, has_outcomes, is_given, is_true,
}
use valax_wearedevs_deobfusc.Admission.Graph.{EnvironmentGraph, LiftStats, verify}
use valax_wearedevs_deobfusc.Admission.Complete.{IsCovered, verify-IsCovered}
use valax_wearedevs_deobfusc.Admission.Contract.{IsMixedProven, validate-IsMixedProven}
use valax_wearedevs_deobfusc.Admission.Single.{all_safe, validate-all_safe, missing_undefined}

abbrev full_evidence : Evidence
full_evidence = record {
  whole_program_closed = some true;
  whole_program_complete = some true;
  required_proofs_pass = some true;
  proof_integrity_pass = some true;
  proof_completeness_pass = some true;
  unresolved_obligations = some [];
  safe_whole_program_replacement = some true;
  vm_detached = none;
  dispatcher_states_after = some 0;
  encoded_strings_remaining = none;
  runtime_decoder_remaining = some false;
  protection_runtime_remaining = none;
  veto = none;
  positive_evidence_used = none;
}

evaluate-Admissible_example :
    ((evaluate full_evidence).final_eligible ≡ true) ↔ Admissible full_evidence
evaluate-Admissible_example = evaluate-Admissible full_evidence

reasons-evaluate_example :
    ((evaluate full_evidence).failure_reasons ≡ [])
    ↔ ((evaluate full_evidence).final_eligible ≡ true)
reasons-evaluate_example = reasons-evaluate full_evidence

oracle_only_vetoes_example :
    (evaluate
      (record full_evidence { veto = some true; positive_evidence_used = none })).final_eligible
    ≡ ((evaluate
          (record full_evidence { veto = none; positive_evidence_used = none })).final_eligible
        && (not (truthy (some true)) && not (truthy none)))
oracle_only_vetoes_example = oracle_only_vetoes full_evidence (some true) none

admits_full : (evaluate full_evidence).final_eligible ≡ true
unfolding evaluate
admits_full = refl

abbrev full_mixed : Mixed
full_mixed = record {
  vararg_recovered = true;
  closure_recovered = true;
  persistent_state_proven = true;
  captured_table_identity_proven = true;
  evaluation_order_proven = true;
  vararg_to_table_expansion_proven = true;
  multi_return_expansion_proven = true;
  safe_whole_program_replacement = some true;
  branch_outcomes = some (true ∷ false ∷ []);
  captured_bindings = some ("prefix" ∷ []);
  multi_return_value_count = 2;
  invocation_count = 2;
  mutable_upvalue_count = 1;
  closure_instance_count = 1;
  environment_instance_count = 1;
  vararg_provenance = some static_ast;
  closure_provenance = some static_ast;
  state_provenance = some abstract_interpretation;
  branch_provenance = some abstract_interpretation;
  multi_return_provenance = some cfg;
  table_identity_provenance = some points_to;
  evaluation_order_provenance = some cfg;
}

abbrev mixed_features : Features
mixed_features = record {
  whole_program_closed = true;
  mixed_closed = some full_mixed;
  vararg_detected = true;
  vararg_safe_to_inline = true;
  multi_return_recovered = true;
  multi_return_safe_to_inline = true;
  closure_recovered = true;
  captured_binding_count = 1;
  closure_safe_to_inline = true;
  table_recovered = false;
  safe_to_inline_field = false;
  safe_to_eliminate_table = false;
  outer_recovered = false;
  inner_recovered = false;
  safe_to_inline_inner = false;
  safe_to_inline_outer = false;
  dead_branch_elimination_safe = false;
  inlining_safe = false;
}

-- An open program that returns several values, not safe to inline.
abbrev returning_features : Features
returning_features = record mixed_features {
  whole_program_closed = false;
  mixed_closed = none;
  vararg_detected = false;
  multi_return_safe_to_inline = false;
  closure_recovered = false;
}

mixed_is_cross : is_cross_feature mixed_features none ≡ true
unfolding is_cross_feature
mixed_is_cross = refl

returning_is_single : is_cross_feature returning_features none ≡ false
unfolding is_cross_feature
returning_is_single = refl

validate-IsMixedProven_example :
    ((Required.validate (some mixed_features) none).pass ≡ true)
    ↔ ((m : Mixed) × (mixed_features.mixed_closed ≡ some m) × IsMixedProven m)
validate-IsMixedProven_example = validate-IsMixedProven mixed_features none mixed_is_cross

validate-all_safe_example :
    (Required.validate (some returning_features) none).pass
    ≡ (returning_features.whole_program_closed || all_safe returning_features)
validate-all_safe_example = validate-all_safe returning_features none returning_is_single

missing_undefined_example : In undefined (Required.validate (some returning_features) none).missing
missing_undefined_example =
    missing_undefined returning_features none returning_is_single refl refl refl

abbrev full_graph : EnvironmentGraph
full_graph = record {
  closure_kinds = "SOURCE_CLOSURE" ∷ "SOURCE_CLOSURE" ∷ [];
  environments =
      (record { binding_id = "B1"; storage = "UPVALUE_CELL" }
        ∷ record { binding_id = "B2"; storage = "TABLE_OBJECT" }
        ∷ [])
      ∷ (record { binding_id = "B3"; storage = "MUTABLE_CELL" } ∷ [])
      ∷ [];
  call_count = 2;
  table_count = 1;
}

abbrev full_stats : LiftStats
full_stats = record { stateful_branches = 1; multi_returns = 2; vararg_packs = 1; calls = 3 }

verify-IsCovered_example :
    ((verify (some full_graph) true (some full_stats) none).complete ≡ true)
    ↔ IsCovered full_graph full_stats none
verify-IsCovered_example = verify-IsCovered full_graph full_stats none
