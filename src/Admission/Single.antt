-- ===== src/Admission/Single.antt =====
-- packages/core/src/analysis/required-proof-validator.js: the contracts of single features.
use mathlib.Core.Bool.{and_self, and-true, and-false}
use valax_wearedevs_deobfusc.Prelude.{
  ◌≡◌, refl, sym, ap, ◌∙◌, Bool, true, false, not, ◌&&◌, ◌||◌, Option, none, some, List, [], ◌∷◌,
  ◌++◌, In, In-append_left, inl, inr, arith, Bool-cases,
}
use valax_wearedevs_deobfusc.Admission.Evidence.{Mixed, Features}
use valax_wearedevs_deobfusc.Admission.Required.{
  Proof, same_proof, includes, missing_of, Event, is_cross_feature, push_if, feature_required,
  feature_proven, closed_part, required_of, proven_of, is_inconsistent, report_on, validate,
  undefined, needs_capture, needs_nested, proves_vararg, proves_multi_return, proves_capture,
  proves_lookup, proves_nested,
}
use valax_wearedevs_deobfusc.Admission.Contract.{
  covered, includes_push, includes_append, covered_push, covered_append, covered_nil, bool_laws,
}

-- Each feature that is there is safe to rewrite.
unfoldable pub all_safe : Features → Bool
all_safe c =
    (not c.vararg_detected || c.vararg_safe_to_inline)
    && ((not c.multi_return_recovered || c.multi_return_safe_to_inline)
        && ((not (needs_capture c) || c.closure_safe_to_inline)
            && ((not c.table_recovered || (c.safe_to_inline_field || c.safe_to_eliminate_table))
                && (not (needs_nested c) || (c.safe_to_inline_inner && c.safe_to_inline_outer)))))

open_case :
    (c : Features)
    → c.whole_program_closed ≡ false
    → covered (feature_required c ++ closed_part c) (feature_proven c ++ closed_part c) ≡ all_safe c
unfolding feature_required feature_proven closed_part same_proof includes all_safe proves_vararg
    proves_multi_return proves_capture proves_lookup proves_nested
open_case c e = simp (
  e, covered_append, covered_push, covered_nil, includes_append, includes_push, bool_laws, and_self,
)

closed_case :
    (c : Features)
    → c.whole_program_closed ≡ true
    → covered (feature_required c ++ closed_part c) (feature_proven c ++ closed_part c) ≡ true
unfolding feature_required feature_proven closed_part same_proof includes proves_vararg
    proves_multi_return proves_capture proves_lookup proves_nested
closed_case c e =
    simp (e, covered_append, covered_push, covered_nil, includes_append, includes_push, bool_laws)

consistent : (o : Option Mixed) → is_inconsistent o false ≡ false
unfolding is_inconsistent
consistent none = refl
consistent (some m) = and-false _

single_pass :
    (c : Features) (trace : Option (List Event))
    → is_cross_feature c trace ≡ false
    → (validate (some c) trace).pass
      ≡ covered (feature_required c ++ closed_part c) (feature_proven c ++ closed_part c)
unfolding validate required_of proven_of report_on
single_pass c trace x =
    ap (λ b. covered (required_of c b) (proven_of c b) && not (is_inconsistent c.mixed_closed b)) x
    ∙ (ap (λ b. covered (required_of c false) (proven_of c false) && not b)
          (consistent c.mixed_closed)
        ∙ and-true _)

-- A program with single features only passes exactly when it is closed as a whole, or each feature
-- that was found is safe to rewrite.
pub validate-all_safe :
    (c : Features) (trace : Option (List Event))
    → is_cross_feature c trace ≡ false
    → (validate (some c) trace).pass ≡ (c.whole_program_closed || all_safe c)
validate-all_safe c trace x = elim (Bool-cases c.whole_program_closed) [
  | inl e ↦ single_pass c trace x ∙ (closed_case c e ∙ ap (λ b. b || all_safe c) (sym e))
  | inr e ↦ single_pass c trace x ∙ (open_case c e ∙ ap (λ b. b || all_safe c) (sym e))
]

In-push : (p q : Proof) (b : Bool) (ps : List Proof) → In p ps → In p (push_if b q ps)
unfolding push_if
In-push p q true ps h = inr h
In-push p q false ps h = h

In-push_self : (p : Proof) (b : Bool) (ps : List Proof) → b ≡ true → In p (push_if b p ps)
unfolding push_if
In-push_self p true ps e = inl refl
In-push_self p false ps e = cc

In-missing :
    (rs proven : List Proof) (p : Proof)
    → In p rs
    → includes proven p ≡ false
    → In p (missing_of rs proven)
unfolding missing_of
In-missing [] proven p h n = elim h [ ]
In-missing (r ∷ rs) proven p (inl e) n = rw (e, n) (inl refl)
In-missing (r ∷ rs) proven p (inr h) n = elim (Bool-cases (includes proven r)) [
  | inl y ↦ rw (y, missing_of) (In-missing rs proven p h n)
  | inr z ↦ rw (z, missing_of) (inr (In-missing rs proven p h n))
]

required_undefined :
    (c : Features) → c.multi_return_recovered ≡ true → In undefined (feature_required c)
unfolding feature_required
required_undefined c e =
    In-push undefined Proof.vararg_binding_flow c.vararg_detected _
      (In-push_self undefined c.multi_return_recovered _ e)

proven_undefined :
    (c : Features) → includes (feature_proven c ++ closed_part c) undefined ≡ proves_multi_return c
unfolding feature_proven closed_part same_proof includes
proven_undefined c = simp (includes_append, includes_push, bool_laws)

-- The defect: the contract for several return values names a proof that `MandatoryProofs` does not
-- have. Where an open program returns several values that are not safe to inline, the proof that the
-- report calls missing is `undefined`.
pub missing_undefined :
    (c : Features) (trace : Option (List Event))
    → is_cross_feature c trace ≡ false
    → c.multi_return_recovered ≡ true
    → c.multi_return_safe_to_inline ≡ false
    → c.whole_program_closed ≡ false
    → In undefined (validate (some c) trace).missing
unfolding validate required_of proven_of report_on proves_multi_return
missing_undefined c trace x r s w =
    rw (x, required_of, proven_of)
      (In-missing (feature_required c ++ closed_part c) (feature_proven c ++ closed_part c)
        undefined
        (In-append_left undefined (feature_required c) (closed_part c) (required_undefined c r))
        (proven_undefined c ∙ ground arith))
