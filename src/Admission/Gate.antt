-- ===== src/Admission/Gate.antt =====
-- packages/core/src/analysis/final-admission-gate.js: `FinalAdmissionGate.evaluate`. A field that is
-- missing is `none`; any truthy value is `some true`.
use valax_wearedevs_deobfusc.Prelude.{
  ℕ, String, Bool, true, false, not, ◌&&◌, Option, none, some, List, [], ◌∷◌, ltb, ◌==◌,
}

-- `!!x`
unfoldable pub truthy : Option Bool → Bool
truthy none = false
truthy (some b) = b

-- `x !== false`
unfoldable pub not_false : Option Bool → Bool
not_false none = true
not_false (some b) = b

-- `x ?? 0`
unfoldable pub count_or_zero : Option ℕ → ℕ
count_or_zero none = 0
count_or_zero (some n) = n

-- `x || []`
unfoldable pub listed : Option (List String) → List String
listed none = []
listed (some l) = l

unfoldable pub is_empty : List String → Bool
is_empty [] = true
is_empty (x ∷ xs) = false

pub record Evidence : Type 0 where
  pub whole_program_closed : Option Bool
  pub whole_program_complete : Option Bool
  pub required_proofs_pass : Option Bool
  pub proof_integrity_pass : Option Bool
  pub proof_completeness_pass : Option Bool
  pub unresolved_obligations : Option (List String)
  pub safe_whole_program_replacement : Option Bool
  pub vm_detached : Option Bool
  pub dispatcher_states_after : Option ℕ
  pub encoded_strings_remaining : Option ℕ
  pub runtime_decoder_remaining : Option Bool
  pub protection_runtime_remaining : Option Bool
  pub veto : Option Bool
  pub positive_evidence_used : Option Bool

-- The texts of `failureReasons`, with what is put into them.
pub data Reason : Type 0 where
  static_closure_fail static_completeness_fail : Reason
  required_proofs_fail : List String → Reason
  proof_integrity_fail : Reason
  proof_completeness_fail : List String → Reason
  safe_replacement_fail vm_attached : Reason
  residual_dispatcher_states encoded_strings_remain : ℕ → Reason
  runtime_decoder_remains protection_runtime_remains oracle_veto oracle_taint : Reason

-- The values that the gate reads off the evidence: the decision graph, without the verdict.
pub record Graph : Type 0 where
  pub static_closed : Bool
  pub static_complete : Bool
  pub required_proofs : Bool
  pub proof_integrity : Bool
  pub proof_completeness : Bool
  pub obligations : List String
  pub safe_replacement : Bool
  pub vm_detached : Bool
  pub dispatcher_states : ℕ
  pub encoded_strings : ℕ
  pub runtime_decoder : Bool
  pub protection_runtime : Bool
  pub oracle_veto : Bool
  pub positive_evidence : Bool

unfoldable pub graph_of : Evidence → Graph
unfolding truthy not_false count_or_zero listed is_empty
graph_of e = record {
  static_closed = truthy e.whole_program_closed;
  static_complete = truthy e.whole_program_complete;
  required_proofs = truthy e.required_proofs_pass;
  proof_integrity = truthy e.proof_integrity_pass;
  proof_completeness =
      truthy e.proof_completeness_pass && is_empty (listed e.unresolved_obligations);
  obligations = listed e.unresolved_obligations;
  safe_replacement = truthy e.safe_whole_program_replacement;
  vm_detached = not_false e.vm_detached;
  dispatcher_states = count_or_zero e.dispatcher_states_after;
  encoded_strings = count_or_zero e.encoded_strings_remaining;
  runtime_decoder = truthy e.runtime_decoder_remaining;
  protection_runtime = truthy e.protection_runtime_remaining;
  oracle_veto = truthy e.veto;
  positive_evidence = truthy e.positive_evidence_used;
}

unfoldable pub cleanup_pass : Graph → Bool
cleanup_pass g =
    g.vm_detached
    && g.dispatcher_states == 0
    && g.encoded_strings == 0
    && not g.runtime_decoder
    && not g.protection_runtime

unfoldable pub proof_pass : Graph → Bool
unfolding is_empty
proof_pass g =
    g.required_proofs && g.proof_integrity && g.proof_completeness && is_empty g.obligations

unfoldable pub eligible : Graph → Bool
unfolding cleanup_pass proof_pass
eligible g =
    (g.static_closed && g.static_complete)
    && proof_pass g
    && g.safe_replacement
    && cleanup_pass g
    && (not g.oracle_veto && not g.positive_evidence)

-- `if (b) failureReasons.push(r)`
unfoldable pub push_if : Bool → Reason → List Reason → List Reason
push_if true r rs = r ∷ rs
push_if false r rs = rs

unfoldable pub reasons : Graph → List Reason
unfolding push_if
reasons g = push_if (not g.static_closed) static_closure_fail (
    push_if (not g.static_complete) static_completeness_fail (
      push_if (not g.required_proofs) (required_proofs_fail g.obligations) (
        push_if (not g.proof_integrity) proof_integrity_fail (
          push_if (not g.proof_completeness) (proof_completeness_fail g.obligations) (
            push_if (not g.safe_replacement) safe_replacement_fail (
              push_if (not g.vm_detached) vm_attached (
                push_if (ltb 0 g.dispatcher_states) (residual_dispatcher_states g.dispatcher_states)
                  (push_if (ltb 0 g.encoded_strings) (encoded_strings_remain g.encoded_strings) (
                    push_if g.runtime_decoder runtime_decoder_remains (
                      push_if g.protection_runtime protection_runtime_remains (
                        push_if g.oracle_veto oracle_veto
                          (push_if g.positive_evidence oracle_taint []))))))))))))

pub record Decision : Type 0 where
  pub final_eligible : Bool
  pub failure_reasons : List Reason
  pub decision_graph : Graph

unfoldable pub evaluate : Evidence → Decision
unfolding graph_of eligible reasons
evaluate e =
    let g = graph_of e in
    record { final_eligible = eligible g; failure_reasons = reasons g; decision_graph = g }
