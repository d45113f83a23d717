-- ===== src/Evaluator/Whole.antt =====
-- packages/core/src/evaluator/constant-evaluator.js: `fold` on a whole expression.
use mathlib.Core.Path.{fun_ext}
use valax_wearedevs_deobfusc.Prelude.{
  ◌≡◌, refl, ap, ◌∙◌, true, some, [], ◌∷◌, arith, Option-cases, inl, inr,
}
use valax_wearedevs_deobfusc.Evaluator.Syntax.{
  Numbers, Expr, numeric_literal, string_literal, boolean_literal, nil_literal, table_constructor,
  function_expression, unary_expression, binary_expression, logical_expression, other, Exprs,
  none_left, child,
}
use valax_wearedevs_deobfusc.Evaluator.Fold.{
  try_evaluate, Stats, settle, visit, fold, fold_all, fold_fields, fold_constants, reset_stats,
}
use valax_wearedevs_deobfusc.Evaluator.Meaning.{
  function_value, Rest, run_unary, run_binary, run_logical, run_table, run_other, meaning, meanings,
  field_meanings,
}
use valax_wearedevs_deobfusc.Evaluator.Quiet.{yields_one, all_plain}
use valax_wearedevs_deobfusc.Evaluator.Sound.{try_evaluate_sound}
use valax_wearedevs_deobfusc.Evaluator.Plain.{
  is_safe, all_safe, all_true, right_yields_one, drops_of_safe, visit-plain, visit-yields_one,
  literals_kept,
}

module _ {N T F S : Type 0} (num : Numbers N) (lua : Rest N T F S) where
  visit_sound :
      (e : Expr N) (st : Stats) (s : S)
      → is_safe num e ≡ true
      → meaning num lua (visit num e st).0 s ≡ meaning num lua e s
  unfolding visit settle
  visit_sound e st s q = elim (Option-cases (try_evaluate num e)) [
    | inl n ↦ ground (arith, n)
    | inr (x, h) ↦ ground (arith, h, try_evaluate_sound num lua e x (drops_of_safe num e q) h s)
  ]

  record Kept (e e' : Expr N) : Type 0 where
    does : meaning num lua e' ≡ meaning num lua e
    plain : is_safe num e' ≡ true
    single : yields_one e ≡ true → yields_one e' ≡ true

  -- A node whose children were kept is kept.
  node-Kept :
      (e e' : Expr N) (st : Stats)
      → meaning num lua e' ≡ meaning num lua e
      → is_safe num e' ≡ true
      → (yields_one e ≡ true → yields_one e' ≡ true)
      → Kept e (visit num e' st).0
  node-Kept e e' st m q y = record {
    does = fun_ext (λ s. visit_sound e' st s q) ∙ m;
    plain = visit-plain num e' st q;
    single = λ h. visit-yields_one num e' st q (y h);
  }

  mutual
    unfolding fold meaning is_safe yields_one

    fold-Kept : (e : Expr N) (st : Stats) → is_safe num e ≡ true → Kept e (fold num e st).0
    fold-Kept (numeric_literal n raw) st q =
        node-Kept (numeric_literal n raw) (numeric_literal n raw) st refl q (λ h. h)
    fold-Kept (string_literal b) st q =
        node-Kept (string_literal b) (string_literal b) st refl q (λ h. h)
    fold-Kept (boolean_literal b) st q =
        node-Kept (boolean_literal b) (boolean_literal b) st refl q (λ h. h)
    fold-Kept nil_literal st q = node-Kept nil_literal nil_literal st refl q (λ h. h)
    fold-Kept (table_constructor fields) st q =
        let m = literals_kept num fields st q in
        node-Kept (table_constructor fields) (table_constructor (fold_fields num fields st).0)
          (fold_fields num fields st).1 (ap (λ fs. run_table num lua (field_meanings num lua fs)) m)
          (ap (all_plain num) m ∙ q) (λ h. refl)
    fold-Kept (function_expression ps body) st q =
        let (m, p) = fold_all-Kept body st q in
        node-Kept (function_expression ps body) (function_expression ps (fold_all num body st).0)
          (fold_all num body st).1
          (ap (λ ms. λ s. some (function_value (lua.make_function ps ms) ∷ [], s)) m) p (λ h. refl)
    fold-Kept (unary_expression o a) st q =
        let a' = fold-Kept a st q in
        node-Kept (unary_expression o a) (unary_expression o (fold num a st).0) (fold num a st).1
          (ap (run_unary num lua o) a'.does) a'.plain (λ h. refl)
    fold-Kept (binary_expression o l r) st q =
        let l' = fold-Kept l st (ground (arith, q)) in
        let st' = (fold num l st).1 in
        let r' = fold-Kept r st' (ground (arith, q)) in
        node-Kept (binary_expression o l r)
          (binary_expression o (fold num l st).0 (fold num r st').0) (fold num r st').1
          (ap (λ m. run_binary num lua o m (meaning num lua (fold num r st').0)) l'.does
            ∙ ap (run_binary num lua o (meaning num lua l)) r'.does)
          (ground (arith, l'.plain, r'.plain)) (λ h. refl)
    fold-Kept (logical_expression o l r) st q =
        let l' = fold-Kept l st (ground (arith, q)) in
        let st' = (fold num l st).1 in
        let r' = fold-Kept r st' (ground (arith, q)) in
        node-Kept (logical_expression o l r)
          (logical_expression o (fold num l st).0 (fold num r st').0) (fold num r st').1
          (ap (λ m. run_logical num lua o m (meaning num lua (fold num r st').0)) l'.does
            ∙ ap (run_logical num lua o (meaning num lua l)) r'.does)
          (all_true _ _ _ l'.plain r'.plain
            (r'.single (right_yields_one (is_safe num l) (is_safe num r) (yields_one r) q)))
          (λ h. refl)
    fold-Kept (other k es) st q =
        let (m, p) = fold_all-Kept es st q in
        node-Kept (other k es) (other k (fold_all num es st).0) (fold_all num es st).1
          (ap (λ ms. run_other num lua k (lua.run_node k ms)) m) p (λ h. h)

    fold_all-Kept :
        (es : Exprs N) (st : Stats)
        → all_safe num es ≡ true
        → (meanings num lua (fold_all num es st).0 ≡ meanings num lua es)
          × (all_safe num (fold_all num es st).0 ≡ true)
    fold_all-Kept none_left st q = (refl, refl)
    fold_all-Kept (child e es) st q =
        let e' = fold-Kept e st (ground (arith, q)) in
        let st' = (fold num e st).1 in
        let (m, p) = fold_all-Kept es st' (ground (arith, q)) in
        (
          ap (λ r. r ∷ meanings num lua (fold_all num es st').0) e'.does
              ∙ ap (λ rs. meaning num lua e ∷ rs) m,
          ground (arith, e'.plain, p),
        )

  -- Folding a whole expression keeps what it does from every state of the program: all its values, its
  -- effects, its error or its endlessness, where each of its tables is built from literals, and where
  -- the right side of each `and` and `or` is no call and no `...` outside of parentheses. The rest of Lua
  -- (other nodes, metamethods) is any interpretation that is built up from the meanings of the parts.
  pub fold_constants_sound :
      (e : Expr N) (s : S)
      → is_safe num e ≡ true
      → meaning num lua (fold_constants num e).0 s ≡ meaning num lua e s
  unfolding fold_constants
  fold_constants_sound e s q = ap (λ m. m s) (fold-Kept e reset_stats q).does
