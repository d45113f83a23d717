-- ===== src/Evaluator/Fold.antt =====
-- packages/core/src/evaluator/constant-evaluator.js: `ConstantEvaluator`. `none` is `null`.
use valax_wearedevs_deobfusc.Prelude.{
  ℕ, suc, Bool, true, false, not, ◌&&◌, Option, none, some, length, if◌then◌else◌,
}
use valax_wearedevs_deobfusc.Bytes.Defs.{equals, concat}
use valax_wearedevs_deobfusc.Evaluator.Syntax.{
  Numbers, UnaryOp, minus, negation, len, BinaryOp, plus, difference, times, over, modulo, power,
  less, less_equal, greater, greater_equal, equal, not_equal, concatenation, LogicalOp, conj, disj,
  Expr, numeric_literal, string_literal, boolean_literal, nil_literal, table_constructor,
  function_expression, unary_expression, binary_expression, logical_expression, other, Exprs,
  none_left, child, Fields, end_of_table, table_key, table_key_string, table_value,
}

pub record Stats : Type 0 where
  pub expressions_inspected : ℕ
  pub expressions_simplified : ℕ
  pub constants_propagated : ℕ
  pub unsafe_expressions_skipped : ℕ

-- `resetStats`, and the constructor
abbrev pub reset_stats : Stats
reset_stats = record {
  expressions_inspected = 0;
  expressions_simplified = 0;
  constants_propagated = 0;
  unsafe_expressions_skipped = 0;
}

module _ {N : Type 0} where
  unfoldable pub is_foldable : Expr N → Bool
  is_foldable (unary_expression o a) = true
  is_foldable (binary_expression o l r) = true
  is_foldable (logical_expression o l r) = true
  is_foldable _ = false

  unfoldable pub is_statically_truthy : Expr N → Option Bool
  is_statically_truthy (boolean_literal b) = some b
  is_statically_truthy nil_literal = some false
  is_statically_truthy (numeric_literal n raw) = some true
  is_statically_truthy (string_literal s) = some true
  is_statically_truthy (table_constructor fields) = some true
  is_statically_truthy (function_expression ps body) = some true
  is_statically_truthy _ = none

  unfoldable pub eval_logical : LogicalOp → Expr N → Expr N → Option (Expr N)
  unfolding is_statically_truthy
  eval_logical conj left right = elim (is_statically_truthy left) [
    | none ↦ none
    | some t ↦ some (if t then right else left)
  ]
  eval_logical disj left right = elim (is_statically_truthy left) [
    | none ↦ none
    | some t ↦ some (if t then left else right)
  ]

  -- `isEq ? b : !b`
  abbrev pub when_equal : Bool → Bool → Expr N
  when_equal is_eq b = boolean_literal (if is_eq then b else not b)

  -- The part on `==` and `~=`, with `isEq`.
  unfoldable pub eval_equality : Bool → Expr N → Expr N → Option (Expr N)
  unfolding equals
  eval_equality is_eq (boolean_literal a) (boolean_literal b) =
      some (when_equal is_eq (if a then b else not b))
  eval_equality is_eq nil_literal nil_literal = some (boolean_literal is_eq)
  eval_equality is_eq nil_literal (numeric_literal n raw) = some (boolean_literal (not is_eq))
  eval_equality is_eq nil_literal (string_literal s) = some (boolean_literal (not is_eq))
  eval_equality is_eq nil_literal (boolean_literal b) = some (boolean_literal (not is_eq))
  eval_equality is_eq (numeric_literal n raw) nil_literal = some (boolean_literal (not is_eq))
  eval_equality is_eq (string_literal s) nil_literal = some (boolean_literal (not is_eq))
  eval_equality is_eq (boolean_literal b) nil_literal = some (boolean_literal (not is_eq))
  eval_equality is_eq (string_literal s) (string_literal t) = some (when_equal is_eq (equals s t))
  eval_equality is_eq (numeric_literal n raw) (string_literal s) =
      some (boolean_literal (not is_eq))
  eval_equality is_eq (string_literal s) (numeric_literal n raw) =
      some (boolean_literal (not is_eq))
  eval_equality is_eq (boolean_literal b) (numeric_literal n raw) =
      some (boolean_literal (not is_eq))
  eval_equality is_eq (numeric_literal n raw) (boolean_literal b) =
      some (boolean_literal (not is_eq))
  eval_equality is_eq _ _ = none

  -- What is left of `evalBinary` once the switch on two numbers has found nothing.
  unfoldable pub eval_rest : BinaryOp → Expr N → Expr N → Option (Expr N)
  unfolding concat eval_equality
  eval_rest concatenation (string_literal s) (string_literal t) = some (string_literal (concat s t))
  eval_rest equal left right = eval_equality true left right
  eval_rest not_equal left right = eval_equality false left right
  eval_rest _ left right = none

  module _ (num : Numbers N) where
    -- `numericLiteral(res, String(res))`
    abbrev pub number : N → Expr N
    number n = numeric_literal n (num.text_of n)

    -- `if (Number.isFinite(res)) return numericLiteral(res, String(res))`
    unfoldable pub if_finite : N → Option (Expr N)
    if_finite n = if num.is_finite n then some (number n) else none

    -- `l - Math.floor(l / r) * r`
    abbrev pub floored : N → N → N
    floored l r = num.sub l (num.mul (num.floor (num.div l r)) r)

    -- The switch on the operator for two numbers. `none` is a `break`, or no case.
    unfoldable pub eval_numbers : BinaryOp → N → N → Option (Expr N)
    unfolding if_finite
    eval_numbers plus l r = if_finite (num.add l r)
    eval_numbers difference l r = if_finite (num.sub l r)
    eval_numbers times l r = if_finite (num.mul l r)
    eval_numbers over l r =
        if not (num.same r num.zero_number) then if_finite (num.div l r) else none
    eval_numbers modulo l r =
        if not (num.same r num.zero_number) then if_finite (floored l r) else none
    eval_numbers power l r =
        if num.le (num.abs r) num.exponent_limit && num.le (num.abs l) num.base_limit
        then if_finite (num.pow l r)
        else none
    eval_numbers less l r = some (boolean_literal (num.lt l r))
    eval_numbers less_equal l r = some (boolean_literal (num.le l r))
    eval_numbers greater l r = some (boolean_literal (num.lt r l))
    eval_numbers greater_equal l r = some (boolean_literal (num.le r l))
    eval_numbers equal l r = some (boolean_literal (num.same l r))
    eval_numbers not_equal l r = some (boolean_literal (not (num.same l r)))
    eval_numbers concatenation l r = none

    unfoldable pub eval_binary : BinaryOp → Expr N → Expr N → Option (Expr N)
    unfolding eval_numbers eval_rest
    eval_binary o (numeric_literal l x) (numeric_literal r y) = elim (eval_numbers o l r) [
      | none ↦ eval_rest o (numeric_literal l x) (numeric_literal r y)
      | some e ↦ some e
    ]
    eval_binary o left right = eval_rest o left right

    unfoldable pub eval_unary : UnaryOp → Expr N → Option (Expr N)
    eval_unary minus (numeric_literal n raw) = some (number (num.negate n))
    eval_unary negation (boolean_literal b) = some (boolean_literal (not b))
    eval_unary negation nil_literal = some (boolean_literal true)
    eval_unary negation (numeric_literal n raw) = some (boolean_literal false)
    eval_unary negation (string_literal s) = some (boolean_literal false)
    eval_unary negation (table_constructor fields) = some (boolean_literal false)
    eval_unary len (string_literal s) = some (number (num.of_count (length s)))
    eval_unary _ _ = none

    unfoldable pub try_evaluate : Expr N → Option (Expr N)
    unfolding eval_unary eval_binary eval_logical
    try_evaluate (unary_expression o a) = eval_unary o a
    try_evaluate (binary_expression o l r) = eval_binary o l r
    try_evaluate (logical_expression o l r) = eval_logical o l r
    try_evaluate _ = none

    -- What the transformer makes of the node: the node's place is taken, or it stays.
    unfoldable pub settle : Expr N → Option (Expr N) → Stats → Expr N × Stats
    settle e none st = (
      e,
      record st {
        expressions_inspected = suc st.expressions_inspected;
        unsafe_expressions_skipped = suc st.unsafe_expressions_skipped;
      },
    )
    settle e (some folded) st = (
      folded,
      record st {
        expressions_inspected = suc st.expressions_inspected;
        expressions_simplified = suc st.expressions_simplified;
      },
    )

    unfoldable pub visit : Expr N → Stats → Expr N × Stats
    unfolding is_foldable settle try_evaluate
    visit e st = if is_foldable e then settle e (try_evaluate e) st else (e, st)

    -- `transform`: the children first, in order, then the node.
    unfoldable mutual
      unfolding visit

      pub fold : Expr N → Stats → Expr N × Stats
      fold (numeric_literal n raw) st = visit (numeric_literal n raw) st
      fold (string_literal s) st = visit (string_literal s) st
      fold (boolean_literal b) st = visit (boolean_literal b) st
      fold nil_literal st = visit nil_literal st
      fold (table_constructor fields) st =
          let (fs, st') = fold_fields fields st in visit (table_constructor fs) st'
      fold (function_expression ps body) st =
          let (fs, st') = fold_all body st in visit (function_expression ps fs) st'
      fold (unary_expression o a) st = let (x, st') = fold a st in visit (unary_expression o x) st'
      fold (binary_expression o l r) st =
          let (x, st') = fold l st in
          let (y, st'') = fold r st' in visit (binary_expression o x y) st''
      fold (logical_expression o l r) st =
          let (x, st') = fold l st in
          let (y, st'') = fold r st' in visit (logical_expression o x y) st''
      fold (other l es) st = let (fs, st') = fold_all es st in visit (other l fs) st'

      pub fold_all : Exprs N → Stats → Exprs N × Stats
      fold_all none_left st = (none_left, st)
      fold_all (child e es) st =
          let (x, st') = fold e st in let (xs, st'') = fold_all es st' in (child x xs, st'')

      -- The nodes of the fields are not foldable themselves.
      pub fold_fields : Fields N → Stats → Fields N × Stats
      fold_fields end_of_table st = (end_of_table, st)
      fold_fields (table_key k e fs) st =
          let (j, st') = fold k st in
          let (x, st'') = fold e st' in
          let (xs, st''') = fold_fields fs st'' in (table_key j x xs, st''')
      fold_fields (table_key_string k e fs) st =
          let (x, st') = fold e st in
          let (xs, st'') = fold_fields fs st' in (table_key_string k x xs, st'')
      fold_fields (table_value e fs) st =
          let (x, st') = fold e st in
          let (xs, st'') = fold_fields fs st' in (table_value x xs, st'')

    unfoldable pub fold_constants : Expr N → Expr N × Stats
    unfolding fold
    fold_constants e = fold e reset_stats
