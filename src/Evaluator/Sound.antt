-- ===== src/Evaluator/Sound.antt =====
-- packages/core/src/evaluator/constant-evaluator.js: one fold keeps what the expression does.
use valax_wearedevs_deobfusc.Prelude.{
  ◌≡◌, String, Bool, true, false, some, arith, if◌then◌else◌, Option-cases, inl, inr,
}
use valax_wearedevs_deobfusc.Evaluator.Syntax.{
  Numbers, UnaryOp, negation, BinaryOp, equal, not_equal, LogicalOp, Expr, numeric_literal,
  string_literal, boolean_literal, nil_literal, table_constructor, function_expression,
  unary_expression, binary_expression, logical_expression, other,
}
use valax_wearedevs_deobfusc.Evaluator.Fold.{
  is_statically_truthy, eval_logical, eval_equality, eval_rest, eval_numbers, eval_binary,
  eval_unary, try_evaluate,
}
use valax_wearedevs_deobfusc.Evaluator.Meaning.{
  Rest, bind, first, value_of, alone, run_unary, run_binary, run_logical, meaning,
}
use valax_wearedevs_deobfusc.Evaluator.Quiet.{
  yields_one, is_quiet, drops_quietly, table_run, truthy_run, yields_one_lem,
}

module _ {N T F S : Type 0} (num : Numbers N) (lua : Rest N T F S) where
  equality_sound :
      (is_eq : Bool) (l r x : Expr N)
      → eval_equality is_eq l r ≡ some x
      → (s : S)
      → meaning num lua x s
        ≡ run_binary num lua
            (if is_eq then equal else not_equal)
            (meaning num lua l)
            (meaning num lua r)
            s
  unfolding eval_equality meaning
  equality_sound is_eq l r x h s = ground arith

  numbers_sound :
      (o : BinaryOp) (a b : N) (x : Expr N)
      → eval_numbers num o a b ≡ some x
      → (s : S) → (ra rb : String)
      → meaning num lua x s
        ≡ run_binary num lua o
            (meaning num lua (numeric_literal a ra))
            (meaning num lua (numeric_literal b rb))
            s
  unfolding eval_numbers meaning
  numbers_sound o a b x h s ra rb = ground arith

  rest_sound :
      (o : BinaryOp) (l r x : Expr N)
      → eval_rest o l r ≡ some x
      → (s : S)
      → meaning num lua x s ≡ run_binary num lua o (meaning num lua l) (meaning num lua r) s
  unfolding eval_rest meaning
  rest_sound equal l r x h s = equality_sound true l r x h s
  rest_sound not_equal l r x h s = equality_sound false l r x h s
  rest_sound o l r x h s = ground arith

  binary_sound :
      (o : BinaryOp) (l r x : Expr N)
      → eval_binary num o l r ≡ some x
      → (s : S)
      → meaning num lua x s ≡ run_binary num lua o (meaning num lua l) (meaning num lua r) s
  unfolding eval_binary
  binary_sound o (numeric_literal a ra) (numeric_literal b rb) x h s =
      elim (Option-cases (eval_numbers num o a b)) [
        | inl n ↦ rest_sound o _ _ x (ground (arith, n, h)) s
        | inr (y, e) ↦ numbers_sound o a b x (ground (arith, e, h)) s ra rb
      ]
  binary_sound o l r x h s = rest_sound o l r x h s

  logical_sound :
      (o : LogicalOp) (l r x : Expr N)
      → is_quiet num l ≡ true
      → yields_one r ≡ true
      → eval_logical o l r ≡ some x
      → (s : S)
      → meaning num lua x s ≡ run_logical num lua o (meaning num lua l) (meaning num lua r) s
  unfolding eval_logical run_logical bind value_of alone first
  logical_sound o l r x q y h s = elim (Option-cases (is_statically_truthy l)) [
    | inl n ↦ ground arith
    | inr (t, e) ↦
        let (v, (k, m)) = truthy_run num lua l t q e in
        ground (arith, m s, e, k, yields_one_lem num lua r y s)
  ]

  unary_sound :
      (o : UnaryOp) (a x : Expr N)
      → is_quiet num a ≡ true
      → eval_unary num o a ≡ some x
      → (s : S) → meaning num lua x s ≡ run_unary num lua o (meaning num lua a) s
  unfolding eval_unary meaning is_quiet
  unary_sound negation (table_constructor fields) x q h s =
      let (t, r) = table_run num lua fields q in rw (r s, run_unary) (ground arith)
  unary_sound o a x q h s = ground arith

  -- Where a node drops no table that does more than hold literals and keeps no node of several values,
  -- what it is folded to does the same.
  pub try_evaluate_sound :
      (e x : Expr N)
      → drops_quietly num e ≡ true
      → try_evaluate num e ≡ some x
      → (s : S) → meaning num lua x s ≡ meaning num lua e s
  unfolding try_evaluate meaning drops_quietly
  try_evaluate_sound (unary_expression o a) x q h s = unary_sound o a x q h s
  try_evaluate_sound (binary_expression o l r) x q h s = binary_sound o l r x h s
  try_evaluate_sound (logical_expression o l r) x q h s =
      logical_sound o l r x (ground (arith, q)) (ground (arith, q)) h s
  try_evaluate_sound (numeric_literal n raw) x q h s = absurd (cc h)
  try_evaluate_sound (string_literal b) x q h s = absurd (cc h)
  try_evaluate_sound (boolean_literal b) x q h s = absurd (cc h)
  try_evaluate_sound nil_literal x q h s = absurd (cc h)
  try_evaluate_sound (table_constructor fields) x q h s = absurd (cc h)
  try_evaluate_sound (function_expression ps body) x q h s = absurd (cc h)
  try_evaluate_sound (other k es) x q h s = absurd (cc h)
