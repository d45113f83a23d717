-- ===== src/Evaluator/Count.antt =====
-- packages/core/src/evaluator/constant-evaluator.js: the statistics of a fold, and what a fold of a
-- table leaves out.
use valax_wearedevs_deobfusc.Prelude.{
  ℕ, suc, ◌+◌, ◌≡◌, refl, true, false, some, List, [], ◌∷◌, arith, Option-cases, inl, inr,
}
use valax_wearedevs_deobfusc.Evaluator.Syntax.{
  Numbers, negation, Expr, numeric_literal, string_literal, boolean_literal, nil_literal,
  table_constructor, function_expression, unary_expression, binary_expression, logical_expression,
  other, Exprs, none_left, child, Fields, end_of_table, table_key, table_key_string, table_value,
}
use valax_wearedevs_deobfusc.Evaluator.Fold.{
  is_foldable, try_evaluate, Stats, settle, visit, fold, fold_all, fold_fields, fold_constants,
  reset_stats,
}
use valax_wearedevs_deobfusc.Evaluator.Meaning.{
  Value, boolean_value, Rest, bind, value_of, keys_allowed, run_fields, meaning,
}

module _ {N : Type 0} where
  -- How many operators the expression has.
  unfoldable mutual
    pub operators : Expr N → ℕ
    operators (table_constructor fields) = field_operators fields
    operators (function_expression ps body) = all_operators body
    operators (unary_expression o a) = suc (operators a)
    operators (binary_expression o l r) = suc (operators l + operators r)
    operators (logical_expression o l r) = suc (operators l + operators r)
    operators (other k es) = all_operators es
    operators _ = 0

    pub all_operators : Exprs N → ℕ
    all_operators none_left = 0
    all_operators (child e es) = operators e + all_operators es

    pub field_operators : Fields N → ℕ
    field_operators end_of_table = 0
    field_operators (table_key k e fs) = operators k + (operators e + field_operators fs)
    field_operators (table_key_string k e fs) = operators e + field_operators fs
    field_operators (table_value e fs) = operators e + field_operators fs

-- From `st` to `st'`, `n` nodes were inspected, and each was simplified or skipped.
record Grown (n : ℕ) (st st' : Stats) : Type 0 where
  inspected : st'.expressions_inspected ≡ n + st.expressions_inspected
  split :
      st'.expressions_simplified + st'.unsafe_expressions_skipped
      ≡ n + (st.expressions_simplified + st.unsafe_expressions_skipped)

unmoved : (st : Stats) → Grown 0 st st
unmoved st = record { inspected = omega arith; split = omega arith }

module _ {N : Type 0} (num : Numbers N) where
  one_visit :
      (e : Expr N) (n : ℕ) (st st' : Stats)
      → is_foldable e ≡ true
      → Grown n st st'
      → Grown (suc n) st (visit num e st').1
  unfolding visit settle
  one_visit e n st st' f g = elim (Option-cases (try_evaluate num e)) [
    | inl h ↦ record {
      inspected = ground (arith, f, h, g.inspected);
      split = ground (arith, f, h, g.split);
    }
    | inr (x, h) ↦ record {
      inspected = ground (arith, f, h, g.inspected);
      split = ground (arith, f, h, g.split);
    }
  ]

  both : (a b : ℕ) (st st' st'' : Stats) → Grown a st st' → Grown b st' st'' → Grown (a + b) st st''
  both a b st st' st'' g h = record {
    inspected = omega (arith, g.inspected, h.inspected);
    split = omega (arith, g.split, h.split);
  }

  mutual
    unfolding fold operators

    fold-Grown : (e : Expr N) (st : Stats) → Grown (operators e) st (fold num e st).1
    fold-Grown (numeric_literal n raw) st = unmoved st
    fold-Grown (string_literal b) st = unmoved st
    fold-Grown (boolean_literal b) st = unmoved st
    fold-Grown nil_literal st = unmoved st
    fold-Grown (table_constructor fields) st = fold_fields-Grown fields st
    fold-Grown (function_expression ps body) st = fold_all-Grown body st
    fold-Grown (unary_expression o a) st =
        one_visit (unary_expression o (fold num a st).0) (operators a) st (fold num a st).1 refl
          (fold-Grown a st)
    fold-Grown (binary_expression o l r) st =
        let st' = (fold num l st).1 in
        one_visit (binary_expression o (fold num l st).0 (fold num r st').0)
          (operators l + operators r) st (fold num r st').1 refl
          (both (operators l) (operators r) st st' (fold num r st').1 (fold-Grown l st)
            (fold-Grown r st'))
    fold-Grown (logical_expression o l r) st =
        let st' = (fold num l st).1 in
        one_visit (logical_expression o (fold num l st).0 (fold num r st').0)
          (operators l + operators r) st (fold num r st').1 refl
          (both (operators l) (operators r) st st' (fold num r st').1 (fold-Grown l st)
            (fold-Grown r st'))
    fold-Grown (other k es) st = fold_all-Grown es st

    fold_all-Grown :
        (es : Exprs N) (st : Stats) → Grown (all_operators es) st (fold_all num es st).1
    fold_all-Grown none_left st = unmoved st
    fold_all-Grown (child e es) st =
        let st' = (fold num e st).1 in
        both (operators e) (all_operators es) st st' (fold_all num es st').1 (fold-Grown e st)
          (fold_all-Grown es st')

    fold_fields-Grown :
        (fs : Fields N) (st : Stats) → Grown (field_operators fs) st (fold_fields num fs st).1
    fold_fields-Grown end_of_table st = unmoved st
    fold_fields-Grown (table_key k e fs) st =
        let st1 = (fold num k st).1 in
        let st2 = (fold num e st1).1 in
        let st3 = (fold_fields num fs st2).1 in
        both (operators k) (operators e + field_operators fs) st st1 st3 (fold-Grown k st) (
          both (operators e) (field_operators fs) st1 st2 st3 (fold-Grown e st1)
            (fold_fields-Grown fs st2))
    fold_fields-Grown (table_key_string k e fs) st =
        let st' = (fold num e st).1 in
        both (operators e) (field_operators fs) st st' (fold_fields num fs st').1 (fold-Grown e st)
          (fold_fields-Grown fs st')
    fold_fields-Grown (table_value e fs) st =
        let st' = (fold num e st).1 in
        both (operators e) (field_operators fs) st st' (fold_fields num fs st').1 (fold-Grown e st)
          (fold_fields-Grown fs st')

  -- The statistics of a fold: as many nodes are inspected as the expression has operators, and each of
  -- them is counted once, as simplified or as skipped.
  pub fold_constants-stats :
      (e : Expr N)
      → ((fold_constants num e).1.expressions_inspected ≡ operators e)
        × ((fold_constants num e).1.expressions_simplified
              + (fold_constants num e).1.unsafe_expressions_skipped
            ≡ (fold_constants num e).1.expressions_inspected)
  unfolding fold_constants
  fold_constants-stats e =
      let g = fold-Grown e reset_stats in
      (omega (arith, g.inspected), omega (arith, g.inspected, g.split))

module _ {N T F S : Type 0} (num : Numbers N) (lua : Rest N T F S) where
  -- The defect: `not { f() }`, for any expression `f()` that ends, as a call does, brings the program
  -- from `s` to the state `s'` that `f()` leaves. Its fold is `false` and leaves the program in `s`: what
  -- `f()` does is lost.
  pub table_effect_lost :
      (f : Expr N) (vs : List (Value N T F)) (s s' : S)
      → meaning num lua f s ≡ some (vs, s')
      → (meaning num lua
            (unary_expression negation (table_constructor (table_value f end_of_table)))
            s
          ≡ some (boolean_value false ∷ [], s'))
        × (meaning num lua
              (fold_constants num
                (unary_expression negation (table_constructor (table_value f end_of_table)))).0
              s
            ≡ some (boolean_value false ∷ [], s))
  unfolding meaning fold_constants keys_allowed value_of
  table_effect_lost f vs s s' h = (rw (h, run_fields, bind) refl, refl)
