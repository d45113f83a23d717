-- ===== src/Admission/Verdict.antt =====
-- packages/core/src/analysis/final-admission-gate.js: what the gate's verdict means.
use valax_wearedevs_deobfusc.Prelude.{
  ◌≡◌, ◌↔◌, ◌≢◌, refl, String, Bool, true, false, not, ◌&&◌, Option, none, some, List, [], arith,
}
use valax_wearedevs_deobfusc.Admission.Gate.{
  Evidence, Graph, truthy, not_false, count_or_zero, listed, is_empty, graph_of, cleanup_pass,
  proof_pass, eligible, reasons, evaluate,
}

-- The hard gate of the source's header. A proof that is missing fails it; a missing `vmDetached`, count
-- or trouble does not.
pub record Admissible (e : Evidence) : Type 0 where
  pub closed : e.whole_program_closed ≡ some true
  pub complete : e.whole_program_complete ≡ some true
  pub proofs_present : e.required_proofs_pass ≡ some true
  pub integrity : e.proof_integrity_pass ≡ some true
  pub completeness : e.proof_completeness_pass ≡ some true
  pub no_obligations : listed e.unresolved_obligations ≡ []
  pub replaceable : e.safe_whole_program_replacement ≡ some true
  pub detached : e.vm_detached ≢ some false
  pub no_states : count_or_zero e.dispatcher_states_after ≡ 0
  pub no_strings : count_or_zero e.encoded_strings_remaining ≡ 0
  pub no_decoder : e.runtime_decoder_remaining ≢ some true
  pub no_runtime : e.protection_runtime_remaining ≢ some true
  pub no_veto : e.veto ≢ some true
  pub no_taint : e.positive_evidence_used ≢ some true

eligible_all :
    (g : Graph)
    → (eligible g ≡ true) ↔ (
        (g.static_closed ≡ true)
        × (g.static_complete ≡ true)
        × (g.required_proofs ≡ true)
        × (g.proof_integrity ≡ true)
        × (g.proof_completeness ≡ true)
        × (is_empty g.obligations ≡ true)
        × (g.safe_replacement ≡ true)
        × (g.vm_detached ≡ true)
        × (g.dispatcher_states ≡ 0)
        × (g.encoded_strings ≡ 0)
        × (g.runtime_decoder ≡ false)
        × (g.protection_runtime ≡ false)
        × (g.oracle_veto ≡ false)
        × (g.positive_evidence ≡ false))
unfolding eligible cleanup_pass proof_pass
eligible_all g = ground arith

truthy_iff : (o : Option Bool) → (truthy o ≡ true) ↔ (o ≡ some true)
unfolding truthy
truthy_iff o = ground arith

falsy_iff : (o : Option Bool) → (truthy o ≡ false) ↔ (o ≢ some true)
unfolding truthy
falsy_iff none = (λ h e. cc, λ h. refl)
falsy_iff (some true) = (λ h. cc, λ h. absurd (h refl))
falsy_iff (some false) = (λ h e. cc, λ h. refl)

not_false_iff : (o : Option Bool) → (not_false o ≡ true) ↔ (o ≢ some false)
unfolding not_false
not_false_iff none = (λ h e. cc, λ h. refl)
not_false_iff (some true) = (λ h e. cc, λ h. refl)
not_false_iff (some false) = (λ h. cc, λ h. absurd (h refl))

empty_iff : (l : List String) → (is_empty l ≡ true) ↔ (l ≡ [])
unfolding is_empty
empty_iff l = ground arith

Admissible-of_eligible : (e : Evidence) → (evaluate e).final_eligible ≡ true → Admissible e
unfolding evaluate graph_of
Admissible-of_eligible e h =
    let (c, k, p, i, m, o, s, v, d, t, r, q, w, x) = (eligible_all (graph_of e)).0 h in
    record {
      closed = (truthy_iff _).0 c;
      complete = (truthy_iff _).0 k;
      proofs_present = (truthy_iff _).0 p;
      integrity = (truthy_iff _).0 i;
      completeness = (truthy_iff _).0 (ground (arith, m));
      no_obligations = (empty_iff _).0 o;
      replaceable = (truthy_iff _).0 s;
      detached = (not_false_iff _).0 v;
      no_states = d;
      no_strings = t;
      no_decoder = (falsy_iff _).0 r;
      no_runtime = (falsy_iff _).0 q;
      no_veto = (falsy_iff _).0 w;
      no_taint = (falsy_iff _).0 x;
    }

eligible_of_Admissible : (e : Evidence) → Admissible e → (evaluate e).final_eligible ≡ true
unfolding evaluate graph_of
eligible_of_Admissible e a = (eligible_all (graph_of e)).1 (
  (truthy_iff _).1 a.closed,
  (truthy_iff _).1 a.complete,
  (truthy_iff _).1 a.proofs_present,
  (truthy_iff _).1 a.integrity,
  ground (
    arith,
    (truthy_iff e.proof_completeness_pass).1 a.completeness,
    (empty_iff (listed e.unresolved_obligations)).1 a.no_obligations,
  ),
  (empty_iff _).1 a.no_obligations,
  (truthy_iff _).1 a.replaceable,
  (not_false_iff _).1 a.detached,
  a.no_states,
  a.no_strings,
  (falsy_iff _).1 a.no_decoder,
  (falsy_iff _).1 a.no_runtime,
  (falsy_iff _).1 a.no_veto,
  (falsy_iff _).1 a.no_taint,
)

-- The gate admits a program exactly when all parts of the hard gate hold of the evidence: closed,
-- complete, all proofs there, no obligation open, safe to replace, and no attached machine,
-- dispatcher states, encoded strings, decoder, runtime, veto or taint reported against it.
pub evaluate-Admissible : (e : Evidence) → ((evaluate e).final_eligible ≡ true) ↔ Admissible e
evaluate-Admissible e = (Admissible-of_eligible e, eligible_of_Admissible e)

reasons_nil :
    (g : Graph)
    → (g.proof_completeness ≡ true → is_empty g.obligations ≡ true)
    → (reasons g ≡ []) ↔ (eligible g ≡ true)
unfolding reasons eligible cleanup_pass proof_pass
reasons_nil g h = ground (arith, h)

-- A program is refused exactly when a reason is given.
pub reasons-evaluate :
    (e : Evidence) → ((evaluate e).failure_reasons ≡ []) ↔ ((evaluate e).final_eligible ≡ true)
unfolding evaluate graph_of
reasons-evaluate e = reasons_nil (graph_of e) (λ m. ground (arith, m))

-- The oracle can veto and cannot promote: what is admitted beside an oracle's evidence is admitted
-- without it too, and a veto or positive evidence refuses any program.
pub oracle_only_vetoes :
    (e : Evidence) (v p : Option Bool)
    → ((evaluate (record e { veto = v; positive_evidence_used = p })).final_eligible ≡ (
        (evaluate (record e { veto = none; positive_evidence_used = none })).final_eligible
        && (not (truthy v) && not (truthy p))))
unfolding evaluate graph_of eligible
oracle_only_vetoes e v p = ground arith
