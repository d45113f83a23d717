-- ===== src/Admission/Integrity.antt =====
-- packages/core/src/analysis/proof-integrity-validator.js: `ProofIntegrityValidator.validate`.
use text.Mathlib.Text.{find?}
use valax_wearedevs_deobfusc.Prelude.{
  String, Bool, true, false, not, ◌||◌, Option, none, some, List, [], ◌∷◌, ◌++◌, ltb, length,
  if◌then◌else◌,
}
use valax_wearedevs_deobfusc.Admission.Evidence.{
  Source, static_ast, static_ir, static_vm_lifting, cfg, points_to, abstract_interpretation,
  semantic_trace, expected_source, fixture_metadata, oracle_trace, other, Mixed,
}

pub data Feature : Type 0 where
  vararg closure state branch multi_return table_identity evaluation_order : Feature

-- The names in `UNPROVEN_PREREQUISITE`.
pub data Prerequisite : Type 0 where
  vararg_to_table_expansion closure_recovery captured_table_identity persistent_state
        multi_return_expansion evaluation_order_proof :
      Prerequisite

pub data Violation : Type 0 where
  missing_provenance : Feature → Violation
  prohibited_source invalid_source : Feature → Source → Violation
  unproven_prerequisite : Prerequisite → Violation
  empty_captured_bindings invalid_branch_outcomes invalid_multi_return_count : Violation

-- `VALID_STATIC_SOURCES.has`
unfoldable pub is_static : Source → Bool
is_static static_ast = true
is_static static_ir = true
is_static static_vm_lifting = true
is_static cfg = true
is_static points_to = true
is_static abstract_interpretation = true
is_static _ = false

-- `PROHIBITED_INTERNAL_SOURCES.has`
unfoldable pub is_prohibited : Source → Bool
is_prohibited semantic_trace = true
is_prohibited expected_source = true
is_prohibited fixture_metadata = true
is_prohibited oracle_trace = true
is_prohibited _ = false

unfoldable pub has_outcomes : Option (List Bool) → Bool
has_outcomes none = false
has_outcomes (some bs) = ltb 0 (length bs)

unfoldable pub provenance_of : Feature → Mixed → Option Source
provenance_of vararg m = m.vararg_provenance
provenance_of closure m = m.closure_provenance
provenance_of state m = m.state_provenance
provenance_of branch m = m.branch_provenance
provenance_of multi_return m = m.multi_return_provenance
provenance_of table_identity m = m.table_identity_provenance
provenance_of evaluation_order m = m.evaluation_order_provenance

-- The feature is claimed as recovered or proven.
unfoldable pub is_claimed : Feature → Mixed → Bool
unfolding has_outcomes
is_claimed vararg m = m.vararg_recovered
is_claimed closure m = m.closure_recovered
is_claimed state m = m.persistent_state_proven
is_claimed branch m = has_outcomes m.branch_outcomes
is_claimed multi_return m = ltb 0 m.multi_return_value_count
is_claimed table_identity m = m.captured_table_identity_proven
is_claimed evaluation_order m = m.evaluation_order_proven

-- The body of the loop over the provenances.
unfoldable pub check_source : Feature → Bool → Option Source → List Violation
unfolding is_static is_prohibited
check_source f claimed none = if claimed then missing_provenance f ∷ [] else []
check_source f claimed (some src) =
    if is_prohibited src
    then prohibited_source f src ∷ []
    else if not (is_static src)
    then invalid_source f src ∷ []
    else []

unfoldable pub check_feature : Mixed → Feature → List Violation
unfolding is_claimed provenance_of check_source
check_feature m f = check_source f (is_claimed f m) (provenance_of f m)

abbrev pub features : List Feature
features = vararg ∷ closure ∷ state ∷ branch ∷ multi_return ∷ table_identity ∷ evaluation_order ∷ []

unfoldable pub check_features : Mixed → List Feature → List Violation
unfolding check_feature
check_features m [] = []
check_features m (f ∷ fs) = check_feature m f ++ check_features m fs

unfoldable pub require : Bool → Violation → List Violation
require true v = []
require false v = v ∷ []

-- The record says that the branches come from abstract interpretation, and there is no array.
unfoldable pub bad_outcomes : Option Source → Option (List Bool) → Bool
bad_outcomes (some abstract_interpretation) none = true
bad_outcomes _ _ = false

unfoldable pub has_bindings : Option (List String) → Bool
has_bindings none = false
has_bindings (some bs) = ltb 0 (length bs)

unfoldable pub check_replacement : Mixed → List Violation
unfolding require bad_outcomes has_bindings
check_replacement m =
    require m.vararg_to_table_expansion_proven (unproven_prerequisite vararg_to_table_expansion)
    ++ (require m.closure_recovered (unproven_prerequisite closure_recovery)
        ++ (require m.captured_table_identity_proven (unproven_prerequisite captured_table_identity)
            ++ (require m.persistent_state_proven (unproven_prerequisite persistent_state)
                ++ (require m.multi_return_expansion_proven
                      (unproven_prerequisite multi_return_expansion)
                    ++ (require m.evaluation_order_proven
                          (unproven_prerequisite evaluation_order_proof)
                        ++ (require (has_bindings m.captured_bindings) empty_captured_bindings
                            ++ (require (not (bad_outcomes m.branch_provenance m.branch_outcomes))
                                  invalid_branch_outcomes
                                ++ require (ltb 0 m.multi_return_value_count)
                                    invalid_multi_return_count)))))))

unfoldable pub claims_replacement : Mixed → Bool
claims_replacement m = elim m.safe_whole_program_replacement [ none ↦ false | some b ↦ b ]

unfoldable pub violations_of : Mixed → List Violation
unfolding check_features check_replacement claims_replacement
violations_of m =
    check_features m features ++ (if claims_replacement m then check_replacement m else [])

pub data IntegrityFailure : Type 0 where
  oracle_driven_proof_synthesis proof_integrity_failure : IntegrityFailure

unfoldable pub mentions : String → String → Bool
mentions s part = elim (find? s part) [ none ↦ false | some i ↦ true ]

-- The text of the violation has `PROHIBITED_SOURCE` or `MISSING_PROVENANCE` in it. The text of an
-- unknown source is part of the text.
unfoldable pub is_oracle_violation : Violation → Bool
unfolding mentions
is_oracle_violation (missing_provenance f) = true
is_oracle_violation (prohibited_source f s) = true
is_oracle_violation (invalid_source f (other s)) =
    mentions s "PROHIBITED_SOURCE" || mentions s "MISSING_PROVENANCE"
is_oracle_violation _ = false

unfoldable pub any_oracle : List Violation → Bool
unfolding is_oracle_violation
any_oracle [] = false
any_oracle (v ∷ vs) = is_oracle_violation v || any_oracle vs

pub record Validation : Type 0 where
  pub pass : Bool
  pub violations : List Violation
  pub failure_category : Option IntegrityFailure

unfoldable pub judge : List Violation → Validation
unfolding any_oracle
judge [] = record { pass = true; violations = []; failure_category = none }
judge (v ∷ vs) = record {
  pass = false;
  violations = v ∷ vs;
  failure_category =
      some (if any_oracle (v ∷ vs) then oracle_driven_proof_synthesis else proof_integrity_failure);
}

-- `none` is a report that is missing, or has no part on mixed closed programs.
unfoldable pub validate : Option Mixed → Validation
unfolding judge violations_of
validate none = judge []
validate (some m) = judge (violations_of m)
