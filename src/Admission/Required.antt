-- ===== src/Admission/Required.antt =====
-- packages/core/src/analysis/required-proof-validator.js: `RequiredProofValidator.validate`.
use text.Mathlib.Text.{◌==◌ as text_eq}
use valax_wearedevs_deobfusc.Prelude.{
  ℕ, suc, String, Bool, true, false, not, ◌&&◌, ◌||◌, Option, none, some, List, [], ◌∷◌, ◌++◌, ltb,
  leb, ◌==◌, length, if◌then◌else◌,
}
use valax_wearedevs_deobfusc.Admission.Evidence.{Source, Mixed, Features}

-- `MandatoryProofs`. A name that the object does not have reads as `undefined`.
pub data Proof : Type 0 where
  vararg_table_expansion closure_identity environment_identity captured_table_identity
        persistent_upvalue_state stateful_branch multireturn evaluation_order
        whole_program_replacement constant_propagation function_return_semantics
        constant_branch_elimination numeric_loop_bounds nested_function_call_chain
        return_propagation table_field_lookup vararg_binding_flow lexical_upvalue_capture :
      Proof
  undefined : Proof

unfoldable pub number_of : Proof → ℕ
number_of vararg_table_expansion = 0
number_of closure_identity = 1
number_of environment_identity = 2
number_of captured_table_identity = 3
number_of persistent_upvalue_state = 4
number_of stateful_branch = 5
number_of multireturn = 6
number_of evaluation_order = 7
number_of whole_program_replacement = 8
number_of constant_propagation = 9
number_of function_return_semantics = 10
number_of constant_branch_elimination = 11
number_of numeric_loop_bounds = 12
number_of nested_function_call_chain = 13
number_of return_propagation = 14
number_of table_field_lookup = 15
number_of vararg_binding_flow = 16
number_of lexical_upvalue_capture = 17
number_of undefined = 18

-- `===` on the names
unfoldable pub same_proof : Proof → Proof → Bool
unfolding number_of
same_proof p r = number_of p == number_of r

unfoldable pub includes : List Proof → Proof → Bool
includes [] p = false
includes (x ∷ xs) p = same_proof x p || includes xs p

-- The loop that computes the missing proofs.
unfoldable pub missing_of : List Proof → List Proof → List Proof
missing_of [] proven = []
missing_of (r ∷ rs) proven =
    let rest = missing_of rs proven in if not (includes proven r) then r ∷ rest else rest

-- An event of the trace: its type and its target.
abbrev pub Event : Type 0
Event = String × String

-- `events.filter(e => e.type === 'CALL' && e.target === 'print').length`
unfoldable pub print_calls : List Event → ℕ
print_calls [] = 0
print_calls ((type, target) ∷ es) =
    let rest = print_calls es in
    if text_eq type "CALL" && text_eq target "print" then suc rest else rest

unfoldable pub trace_is_mixed : Option (List Event) → Bool
unfolding print_calls
trace_is_mixed none = false
trace_is_mixed (some es) = leb 6 (print_calls es)

-- `x === false`
unfoldable pub is_false : Option Bool → Bool
is_false (some false) = true
is_false _ = false

-- `x`, tested
unfoldable pub is_true : Option Bool → Bool
is_true (some true) = true
is_true _ = false

unfoldable pub mixed_is_active : Option Mixed → Bool
unfolding is_false
mixed_is_active none = false
mixed_is_active (some m) =
    leb 2 m.invocation_count
    && (ltb 0 m.mutable_upvalue_count
        || m.vararg_recovered
        || is_false m.safe_whole_program_replacement)

unfoldable pub is_cross_feature : Features → Option (List Event) → Bool
unfolding trace_is_mixed mixed_is_active
is_cross_feature c trace = trace_is_mixed trace || mixed_is_active c.mixed_closed

-- `if (b) list.push(p)` in front of what is pushed later
unfoldable pub push_if : Bool → Proof → List Proof → List Proof
push_if true p ps = p ∷ ps
push_if false p ps = ps

abbrev pub mixed_required : List Proof
mixed_required =
    vararg_table_expansion ∷ closure_identity ∷ environment_identity ∷ captured_table_identity
    ∷ persistent_upvalue_state ∷ stateful_branch ∷ multireturn ∷ evaluation_order
    ∷ whole_program_replacement ∷ []

unfoldable pub has_outcomes : Option (List Bool) → Bool
has_outcomes none = false
has_outcomes (some bs) = ltb 0 (length bs)

unfoldable pub is_given : Option Source → Bool
is_given none = false
is_given (some s) = true

unfoldable pub mixed_proven : Option Mixed → List Proof
unfolding has_outcomes is_given is_true
mixed_proven none = []
mixed_proven (some m) = push_if m.vararg_to_table_expansion_proven vararg_table_expansion (
    push_if (m.closure_recovered && leb 1 m.closure_instance_count) closure_identity (
      push_if (leb 1 m.environment_instance_count) environment_identity (
        push_if m.captured_table_identity_proven captured_table_identity (
          push_if m.persistent_state_proven persistent_upvalue_state (
            push_if (has_outcomes m.branch_outcomes && is_given m.branch_provenance) stateful_branch
              (push_if (m.multi_return_expansion_proven && leb 1 m.multi_return_value_count)
                multireturn
                (push_if m.evaluation_order_proven evaluation_order (
                  push_if (is_true m.safe_whole_program_replacement) whole_program_replacement
                    []))))))))

-- The conditions of the single-feature contracts: the feature is there.
unfoldable pub needs_capture : Features → Bool
needs_capture c = c.closure_recovered && ltb 0 c.captured_binding_count

unfoldable pub needs_nested : Features → Bool
needs_nested c = c.outer_recovered && c.inner_recovered

-- `MandatoryProofs.MULTIRETURN_EXPANSION` is no field of `MandatoryProofs`.
unfoldable pub feature_required : Features → List Proof
unfolding push_if needs_capture needs_nested
feature_required c = push_if c.vararg_detected vararg_binding_flow (
    push_if c.multi_return_recovered undefined (
      push_if (needs_capture c) lexical_upvalue_capture (
        push_if c.table_recovered table_field_lookup (
          push_if (needs_nested c) nested_function_call_chain (
            push_if (needs_nested c) return_propagation (
              push_if c.dead_branch_elimination_safe constant_branch_elimination
                (push_if c.inlining_safe function_return_semantics [])))))))

-- The inner conditions: the feature is there, and safe to rewrite or part of a closed program.
unfoldable pub proves_vararg : Features → Bool
proves_vararg c = c.vararg_detected && (c.vararg_safe_to_inline || c.whole_program_closed)

unfoldable pub proves_multi_return : Features → Bool
proves_multi_return c =
    c.multi_return_recovered && (c.multi_return_safe_to_inline || c.whole_program_closed)

unfoldable pub proves_capture : Features → Bool
unfolding needs_capture
proves_capture c = needs_capture c && (c.closure_safe_to_inline || c.whole_program_closed)

unfoldable pub proves_lookup : Features → Bool
proves_lookup c =
    c.table_recovered
    && (c.safe_to_inline_field || c.safe_to_eliminate_table || c.whole_program_closed)

unfoldable pub proves_nested : Features → Bool
unfolding needs_nested
proves_nested c =
    needs_nested c && (c.safe_to_inline_inner && c.safe_to_inline_outer || c.whole_program_closed)

unfoldable pub feature_proven : Features → List Proof
unfolding push_if proves_vararg proves_multi_return proves_capture proves_lookup proves_nested
feature_proven c = push_if (proves_vararg c) vararg_binding_flow (
    push_if (proves_multi_return c) undefined (
      push_if (proves_capture c) lexical_upvalue_capture (
        push_if (proves_lookup c) table_field_lookup (
          push_if (proves_nested c) nested_function_call_chain (
            push_if (proves_nested c) return_propagation (
              push_if c.dead_branch_elimination_safe constant_branch_elimination
                (push_if c.inlining_safe function_return_semantics [])))))))

unfoldable pub is_empty : List Proof → Bool
is_empty [] = true
is_empty (p ∷ ps) = false

-- What a closed program adds to both lists: a baseline if nothing else is required, and the
-- replacement of the whole program.
unfoldable pub closed_part : Features → List Proof
unfolding feature_required push_if is_empty
closed_part c =
    push_if (is_empty (feature_required c) && c.whole_program_closed) constant_propagation
      (push_if c.whole_program_closed whole_program_replacement [])

unfoldable pub required_of : Features → Bool → List Proof
unfolding feature_required closed_part
required_of c cross = if cross then mixed_required else feature_required c ++ closed_part c

unfoldable pub proven_of : Features → Bool → List Proof
unfolding mixed_proven feature_proven closed_part
proven_of c cross = if cross then mixed_proven c.mixed_closed else feature_proven c ++ closed_part c

-- The report says that the program may not be replaced, and has several features.
unfoldable pub is_inconsistent : Option Mixed → Bool → Bool
unfolding is_false
is_inconsistent none cross = false
is_inconsistent (some m) cross = is_false m.safe_whole_program_replacement && cross

pub data RequiredFailure : Type 0 where
  l5w_admission_inconsistency missing_required_l5w_proof : RequiredFailure

pub record RequiredReport : Type 0 where
  pub pass : Bool
  pub required : List Proof
  pub proven : List Proof
  pub missing : List Proof
  pub failure_category : Option RequiredFailure

unfoldable pub report_on : List Proof → List Proof → Bool → RequiredReport
unfolding missing_of is_empty
report_on required proven inconsistent =
    let missing = missing_of required proven in
    let pass = is_empty missing && not inconsistent in
    record {
      pass = pass;
      required = required;
      proven = proven;
      missing = missing;
      failure_category =
          if pass
          then none
          else if inconsistent
          then some l5w_admission_inconsistency
          else some missing_required_l5w_proof;
    }

-- `none` is a completeness report that is missing.
unfoldable pub validate : Option Features → Option (List Event) → RequiredReport
unfolding is_cross_feature required_of proven_of is_inconsistent report_on
validate none trace = record {
  pass = false;
  required = whole_program_replacement ∷ [];
  proven = [];
  missing = whole_program_replacement ∷ [];
  failure_category = some missing_required_l5w_proof;
}
validate (some c) trace =
    let cross = is_cross_feature c trace in
    report_on (required_of c cross) (proven_of c cross) (is_inconsistent c.mixed_closed cross)
