-- ===== src/Evaluator/Examples.antt =====
-- Tests and instances for the folding of constants. Numbers are naturals here.
use valax_wearedevs_deobfusc.Prelude.{
  ℕ, suc, ◌+◌, ◌-◌, ◌*◌, ◌/◌, ◌≡◌, refl, true, false, some, none, [], ◌∷◌, text_discrete, ltb, leb,
  ◌==◌,
}
use valax_wearedevs_deobfusc.Evaluator.Syntax.{
  Numbers, negation, plus, conj, Expr, Label, boolean_literal, numeric_literal, table_constructor,
  end_of_table, table_value, table_key_string, unary_expression, binary_expression,
  logical_expression, other, none_left, child,
}
use valax_wearedevs_deobfusc.Evaluator.Fold.{fold_constants}
use valax_wearedevs_deobfusc.Evaluator.Meaning.{
  Rest, number_value, boolean_value, yields_many, meaning,
}
use valax_wearedevs_deobfusc.Evaluator.Plain.{is_safe}
use valax_wearedevs_deobfusc.Evaluator.Whole.{fold_constants_sound}
use valax_wearedevs_deobfusc.Evaluator.Count.{operators, fold_constants-stats, table_effect_lost}

abbrev naturals : Numbers ℕ
naturals = record {
  add = λ a b. a + b;
  sub = λ a b. a - b;
  mul = λ a b. a * b;
  div = λ a b. a / b;
  pow = λ a b. a;
  floor = λ a. a;
  negate = λ a. 0 - a;
  abs = λ a. a;
  lt = ltb;
  le = leb;
  same = λ a b. a == b;
  is_finite = λ a. true;
  of_count = λ a. a;
  zero_number = 0;
  exponent_limit = 64;
  base_limit = 1000000000;
  text_of = λ a. "";
}

-- A call counts up, and gives the old and the new count.
abbrev counting : Rest ℕ ℕ Unit ℕ
counting = record {
  make_table = λ es. 0;
  make_function = λ ps ms. tt;
  run_node = λ l ms s. some (number_value s ∷ number_value (suc s) ∷ [], suc s);
  unary_event = λ o v s. none;
  binary_event = λ o v w s. none;
}

abbrev call_label : Label
call_label = record { kind = "CallExpression"; details = []; in_parens = false }

abbrev f_call : Expr ℕ
f_call = other call_label none_left

abbrev name_label : Label
name_label = record { kind = "Identifier"; details = "x" ∷ []; in_parens = false }

-- `{2, a = 3} and (f(x and 2 + 3))`
abbrev sample : Expr ℕ
sample =
    logical_expression conj
      (table_constructor (
        table_value (numeric_literal 2 "2")
          (table_key_string "a" (numeric_literal 3 "3") end_of_table)))
      (other (record { kind = "CallExpression"; details = []; in_parens = true })
        (child
          (logical_expression conj (other name_label none_left)
            (binary_expression plus (numeric_literal 2 "2") (numeric_literal 3 "3")))
          none_left))

fold_constants_sound_example :
    meaning naturals counting (fold_constants naturals sample).0 4
    ≡ meaning naturals counting sample 4
unfolding is_safe yields_many text_discrete
fold_constants_sound_example = fold_constants_sound naturals counting sample 4 refl

-- `true and f()` gives one value, and is folded to `f()`, which gives two.
counts_values :
    meaning naturals counting (logical_expression conj (boolean_literal true) f_call) 4
    ≡ some (number_value 4 ∷ [], 5)
unfolding meaning yields_many text_discrete
counts_values = refl

values_added :
    meaning naturals counting
      (fold_constants naturals (logical_expression conj (boolean_literal true) f_call)).0
      4
    ≡ some (number_value 4 ∷ number_value 5 ∷ [], 5)
unfolding meaning fold_constants yields_many text_discrete
values_added = refl

fold_constants-stats_example :
    ((fold_constants naturals sample).1.expressions_inspected ≡ operators sample)
    × ((fold_constants naturals sample).1.expressions_simplified
          + (fold_constants naturals sample).1.unsafe_expressions_skipped
        ≡ (fold_constants naturals sample).1.expressions_inspected)
fold_constants-stats_example = fold_constants-stats naturals sample

call_ends : meaning naturals counting f_call 4 ≡ some (number_value 4 ∷ number_value 5 ∷ [], 5)
unfolding meaning yields_many text_discrete
call_ends = refl

table_effect_lost_example :
    (meaning naturals counting
        (unary_expression negation (table_constructor (table_value f_call end_of_table)))
        4
      ≡ some (boolean_value false ∷ [], 5))
    × (meaning naturals counting
          (fold_constants naturals
            (unary_expression negation (table_constructor (table_value f_call end_of_table)))).0
          4
        ≡ some (boolean_value false ∷ [], 4))
table_effect_lost_example =
    table_effect_lost naturals counting f_call (number_value 4 ∷ number_value 5 ∷ []) 4 5 call_ends
