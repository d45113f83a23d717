-- ===== src/Admission/Contract.antt =====
-- packages/core/src/analysis/required-proof-validator.js: what the two contracts come to.
use valax_wearedevs_deobfusc.Prelude.{
  ◌≤◌, ◌≡◌, ◌↔◌, inl, inr, refl, ap, ◌∙◌, Bool, true, false, not, ◌&&◌, ◌||◌, Option, none, some,
  List, [], ◌∷◌, ◌++◌, leb, arith, Option-cases,
}
use mathlib.Core.Bool.{
  and-true, and-false, true-and, false-and, true-or, or-true, false-or, or-false, not-or_self,
}
use valax_wearedevs_deobfusc.Admission.Evidence.{Mixed, Features}
use valax_wearedevs_deobfusc.Admission.Required.{
  Proof, same_proof, includes, missing_of, Event, is_true, is_false, has_outcomes, is_given,
  is_cross_feature, push_if, mixed_required, mixed_proven, is_empty, required_of, proven_of,
  is_inconsistent, report_on, validate,
}

pub includes_push :
    (b : Bool) (p r : Proof) (ps : List Proof)
    → includes (push_if b p ps) r ≡ ((b && same_proof p r) || includes ps r)
unfolding includes push_if
includes_push true p r ps = refl
includes_push false p r ps = refl

pub includes_append :
    (ps qs : List Proof) (r : Proof) → includes (ps ++ qs) r ≡ (includes ps r || includes qs r)
unfolding includes
includes_append [] qs r = refl
includes_append (p ∷ ps) qs r = rw (includes_append ps qs r) (ground arith)

-- Nothing of the list is missing.
abbrev pub covered : List Proof → List Proof → Bool
covered rs proven = is_empty (missing_of rs proven)

pub covered_push :
    (b : Bool) (p : Proof) (rs proven : List Proof)
    → covered (push_if b p rs) proven ≡ ((not b || includes proven p) && covered rs proven)
unfolding missing_of push_if is_empty
covered_push true p rs proven = ground arith
covered_push false p rs proven = refl

pub covered_append :
    (ps qs proven : List Proof)
    → covered (ps ++ qs) proven ≡ (covered ps proven && covered qs proven)
unfolding missing_of is_empty
covered_append [] qs proven = refl
covered_append (p ∷ ps) qs proven = ground (arith, covered_append ps qs proven)

pub absorb : (a b : Bool) → (not a || (a && b)) ≡ (not a || b)
absorb true b = refl
absorb false b = refl

pub ruleset bool_laws = (
  and-true, and-false, true-and, false-and, true-or, or-true, false-or, or-false, not-or_self,
  absorb,
)

pub covered_cons :
    (p : Proof) (rs proven : List Proof)
    → covered (p ∷ rs) proven ≡ (includes proven p && covered rs proven)
unfolding missing_of is_empty
covered_cons p rs proven = ground arith

pub covered_nil : (proven : List Proof) → covered [] proven ≡ true
unfolding missing_of is_empty
covered_nil proven = refl

-- The nine proofs of the contract for mixed programs.
pub record IsMixedProven (m : Mixed) : Type 0 where
  pub expansion : m.vararg_to_table_expansion_proven ≡ true
  pub closure : m.closure_recovered ≡ true
  pub instances : 1 ≤ m.closure_instance_count
  pub environments : 1 ≤ m.environment_instance_count
  pub table : m.captured_table_identity_proven ≡ true
  pub state : m.persistent_state_proven ≡ true
  pub outcomes : has_outcomes m.branch_outcomes ≡ true
  pub branches : is_given m.branch_provenance ≡ true
  pub returns : m.multi_return_expansion_proven ≡ true
  pub values : 1 ≤ m.multi_return_value_count
  pub order : m.evaluation_order_proven ≡ true
  pub replacement : m.safe_whole_program_replacement ≡ some true

-- The tests of the nine proofs, in one value.
mixed_flags : Mixed → Bool
mixed_flags m =
    m.vararg_to_table_expansion_proven
    && ((m.closure_recovered && leb 1 m.closure_instance_count)
        && (leb 1 m.environment_instance_count
            && (m.captured_table_identity_proven
                && (m.persistent_state_proven
                    && ((has_outcomes m.branch_outcomes && is_given m.branch_provenance)
                        && ((m.multi_return_expansion_proven && leb 1 m.multi_return_value_count)
                            && (m.evaluation_order_proven
                                && is_true m.safe_whole_program_replacement)))))))

mixed_covered : (m : Mixed) → covered mixed_required (mixed_proven (some m)) ≡ mixed_flags m
unfolding mixed_flags mixed_proven same_proof includes
mixed_covered m = simp (covered_cons, covered_nil, includes_push, bool_laws)

mixed_none : covered mixed_required (mixed_proven none) ≡ false
unfolding mixed_proven includes missing_of is_empty
mixed_none = refl

mixed_flags_iff : (m : Mixed) → (mixed_flags m ≡ true) ↔ IsMixedProven m
unfolding mixed_flags is_true
mixed_flags_iff m = ground arith

report_pass :
    (rs proven : List Proof) (inconsistent : Bool)
    → (report_on rs proven inconsistent).pass ≡ (covered rs proven && not inconsistent)
unfolding report_on
report_pass rs proven inconsistent = refl

cross_pass :
    (c : Features) (trace : Option (List Event)) (o : Option Mixed)
    → is_cross_feature c trace ≡ true
    → c.mixed_closed ≡ o
    → (validate (some c) trace).pass
      ≡ (covered mixed_required (mixed_proven o) && not (is_inconsistent o true))
unfolding validate required_of proven_of report_on
cross_pass c trace o x e =
    ap (λ b. covered (required_of c b) (proven_of c b) && not (is_inconsistent c.mixed_closed b)) x
    ∙ ap (λ o. covered mixed_required (mixed_proven o) && not (is_inconsistent o true)) e

mixed_back :
    (m : Mixed) → IsMixedProven m → (mixed_flags m && not (is_inconsistent (some m) true)) ≡ true
unfolding is_inconsistent is_false
mixed_back m k = ground (arith, (mixed_flags_iff m).1 k)

-- A program with several features passes exactly when the analysis of mixed programs is there and has
-- proved all nine parts of its contract.
pub validate-IsMixedProven :
    (c : Features) (trace : Option (List Event))
    → is_cross_feature c trace ≡ true
    → ((validate (some c) trace).pass ≡ true)
      ↔ ((m : Mixed) × (c.mixed_closed ≡ some m) × IsMixedProven m)
validate-IsMixedProven c trace x = elim (Option-cases c.mixed_closed) [
  | inl n ↦
      let p = cross_pass c trace none x n in
      (λ h. absurd (cc (p, mixed_none, h)), λ (m, e, k). absurd (cc (n, e)))
  | inr (m, e) ↦
      let p = cross_pass c trace (some m) x e in
      let q = ap (λ b. b && not (is_inconsistent (some m) true)) (mixed_covered m) in
      (
        λ h. (m, e, (mixed_flags_iff m).0 (ground (arith, p, q))),
        λ (m', e', k). p ∙ (q ∙ mixed_back m (ground (arith, e, e', k))),
      )
]
