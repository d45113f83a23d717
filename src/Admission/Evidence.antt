-- ===== src/Admission/Evidence.antt =====
-- The analyzers' reports that the validators of packages/core/src/analysis read. A flag that is
-- missing reads as false and a count that is missing as 0, as the validators' tests do.
use valax_wearedevs_deobfusc.Prelude.{ℕ, String, Bool, Option, List}

-- What a proof's record says of its origin: `prov.source`.
pub data Source : Type 0 where
  static_ast static_ir static_vm_lifting cfg points_to abstract_interpretation : Source
  semantic_trace expected_source fixture_metadata oracle_trace : Source
  other : String → Source

-- The report of the analysis of mixed closed programs. A value that is no array is `none`.
pub record Mixed : Type 0 where
  pub vararg_recovered : Bool
  pub closure_recovered : Bool
  pub persistent_state_proven : Bool
  pub captured_table_identity_proven : Bool
  pub evaluation_order_proven : Bool
  pub vararg_to_table_expansion_proven : Bool
  pub multi_return_expansion_proven : Bool
  pub safe_whole_program_replacement : Option Bool
  pub branch_outcomes : Option (List Bool)
  pub captured_bindings : Option (List String)
  pub multi_return_value_count : ℕ
  pub invocation_count : ℕ
  pub mutable_upvalue_count : ℕ
  pub closure_instance_count : ℕ
  pub environment_instance_count : ℕ
  pub vararg_provenance : Option Source
  pub closure_provenance : Option Source
  pub state_provenance : Option Source
  pub branch_provenance : Option Source
  pub multi_return_provenance : Option Source
  pub table_identity_provenance : Option Source
  pub evaluation_order_provenance : Option Source

-- The reports on single features, as far as the validator of required proofs reads them.
pub record Features : Type 0 where
  pub whole_program_closed : Bool
  pub mixed_closed : Option Mixed
  pub vararg_detected : Bool
  pub vararg_safe_to_inline : Bool
  pub multi_return_recovered : Bool
  pub multi_return_safe_to_inline : Bool
  pub closure_recovered : Bool
  pub captured_binding_count : ℕ
  pub closure_safe_to_inline : Bool
  pub table_recovered : Bool
  pub safe_to_inline_field : Bool
  pub safe_to_eliminate_table : Bool
  pub outer_recovered : Bool
  pub inner_recovered : Bool
  pub safe_to_inline_inner : Bool
  pub safe_to_inline_outer : Bool
  pub dead_branch_elimination_safe : Bool
  pub inlining_safe : Bool
