-- ===== src/Admission/Provenance.antt =====
-- packages/core/src/analysis/proof-integrity-validator.js: what a report that passes has shown.
use valax_wearedevs_deobfusc.Prelude.{◌<◌, ◌≡◌, ◌↔◌, ◌⊎◌, Bool, true, false, none, some, [], arith}
use valax_wearedevs_deobfusc.Admission.Evidence.{Source, Mixed}
use valax_wearedevs_deobfusc.Admission.Integrity.{
  Feature, Violation, is_static, provenance_of, is_claimed, require, bad_outcomes, has_bindings,
  claims_replacement,
}

-- A feature is grounded: its proof comes from a static analysis, or there is none and it is not
-- claimed.
pub data IsGrounded (m : Mixed) (f : Feature) : Type 0 where
  from_analysis : (s : Source) → provenance_of f m ≡ some s → is_static s ≡ true → IsGrounded m f
  not_claimed : provenance_of f m ≡ none → is_claimed f m ≡ false → IsGrounded m f

-- Everything that a safe replacement of the whole program rests on.
pub record IsReplaceable (m : Mixed) : Type 0 where
  pub expansion : m.vararg_to_table_expansion_proven ≡ true
  pub closures : m.closure_recovered ≡ true
  pub identity : m.captured_table_identity_proven ≡ true
  pub persistence : m.persistent_state_proven ≡ true
  pub returns : m.multi_return_expansion_proven ≡ true
  pub order : m.evaluation_order_proven ≡ true
  pub bindings : has_bindings m.captured_bindings ≡ true
  pub outcomes : bad_outcomes m.branch_provenance m.branch_outcomes ≡ false
  pub count : 0 < m.multi_return_value_count

require_nil : (b : Bool) (v : Violation) → (require b v ≡ []) ↔ (b ≡ true)
unfolding require
require_nil b v = ground arith

-- What a report that passes has shown.
pub record IsSound (m : Mixed) : Type 0 where
  pub grounded : (f : Feature) → IsGrounded m f
  pub replaceable : (claims_replacement m ≡ false) ⊎ IsReplaceable m
