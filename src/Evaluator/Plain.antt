-- ===== src/Evaluator/Plain.antt =====
-- packages/core/src/evaluator/constant-evaluator.js: folding builds no table that the program has not,
-- and leaves no call where an operator was, if none stands on the right of `and` and `or`.
use valax_wearedevs_deobfusc.Prelude.{
  ◌≡◌, refl, Bool, true, false, ◌&&◌, some, arith, Option-cases, inl, inr,
}
use valax_wearedevs_deobfusc.Evaluator.Syntax.{
  Numbers, UnaryOp, BinaryOp, equal, not_equal, LogicalOp, Expr, numeric_literal, string_literal,
  boolean_literal, nil_literal, table_constructor, function_expression, unary_expression,
  binary_expression, logical_expression, other, Exprs, none_left, child, Fields, end_of_table,
  table_key, table_key_string, table_value,
}
use valax_wearedevs_deobfusc.Evaluator.Fold.{
  eval_logical, eval_equality, eval_rest, eval_numbers, eval_binary, eval_unary, try_evaluate,
  Stats, settle, visit, fold, fold_fields, is_statically_truthy,
}
use valax_wearedevs_deobfusc.Evaluator.Quiet.{
  is_plain, is_key, yields_one, all_plain, is_quiet, drops_quietly,
}

both_true : (a b : Bool) → a ≡ true → b ≡ true → (a && b) ≡ true
both_true a b p q = cc (p, q)

pub all_true : (a b c : Bool) → a ≡ true → b ≡ true → c ≡ true → (a && (b && c)) ≡ true
all_true a b c p q r = cc (p, q, r)

pub right_yields_one : (a b c : Bool) → (a && (b && c)) ≡ true → c ≡ true
right_yields_one a b c h = ground arith

left_true : (a b : Bool) → (a && b) ≡ true → a ≡ true
left_true a b h = ground arith

-- Every table of the expression is built from literals, and the right side of every `and` and `or` is
-- no call and no `...`, unless in parentheses.
module _ {N : Type 0} (num : Numbers N) where
  unfoldable mutual
    unfolding all_plain yields_one

    pub is_safe : Expr N → Bool
    is_safe (table_constructor fields) = all_plain num fields
    is_safe (function_expression ps body) = all_safe body
    is_safe (unary_expression o a) = is_safe a
    is_safe (binary_expression o l r) = is_safe l && is_safe r
    is_safe (logical_expression o l r) = is_safe l && (is_safe r && yields_one r)
    is_safe (other k es) = all_safe es
    is_safe _ = true

    pub all_safe : Exprs N → Bool
    all_safe none_left = true
    all_safe (child e es) = is_safe e && all_safe es

  quiet_of_safe : (e : Expr N) → is_safe e ≡ true → is_quiet num e ≡ true
  unfolding is_safe is_quiet
  quiet_of_safe e h = ground arith

  pub drops_of_safe : (e : Expr N) → is_safe e ≡ true → drops_quietly num e ≡ true
  unfolding is_safe drops_quietly
  drops_of_safe (unary_expression o a) h = quiet_of_safe a h
  drops_of_safe (logical_expression o l r) h =
      both_true (is_quiet num l) (yields_one r) (quiet_of_safe l (left_true (is_safe l) _ h))
        (right_yields_one (is_safe l) (is_safe r) (yields_one r) h)
  drops_of_safe _ h = refl

module _ {N : Type 0} (num : Numbers N) where
  equality-plain :
      (is_eq : Bool) (l r x : Expr N) → eval_equality is_eq l r ≡ some x → is_safe num x ≡ true
  unfolding eval_equality is_safe
  equality-plain is_eq l r x h = ground arith

  numbers-plain :
      (o : BinaryOp) (a b : N) (x : Expr N) → eval_numbers num o a b ≡ some x → is_safe num x ≡ true
  unfolding eval_numbers is_safe
  numbers-plain o a b x h = ground arith

  rest-plain : (o : BinaryOp) (l r x : Expr N) → eval_rest o l r ≡ some x → is_safe num x ≡ true
  unfolding eval_rest is_safe
  rest-plain equal l r x h = equality-plain true l r x h
  rest-plain not_equal l r x h = equality-plain false l r x h
  rest-plain o l r x h = ground arith

  binary-plain :
      (o : BinaryOp) (l r x : Expr N) → eval_binary num o l r ≡ some x → is_safe num x ≡ true
  unfolding eval_binary
  binary-plain o (numeric_literal a ra) (numeric_literal b rb) x h =
      elim (Option-cases (eval_numbers num o a b)) [
        | inl n ↦
            rest-plain o (numeric_literal a ra) (numeric_literal b rb) x (ground (arith, n, h))
        | inr (y, e) ↦ numbers-plain o a b x (ground (arith, e, h))
      ]
  binary-plain o l r x h = rest-plain o l r x h

  unary-plain : (o : UnaryOp) (a x : Expr N) → eval_unary num o a ≡ some x → is_safe num x ≡ true
  unfolding eval_unary is_safe
  unary-plain o a x h = ground arith

  unary-yields_one :
      (o : UnaryOp) (a x : Expr N) → eval_unary num o a ≡ some x → yields_one x ≡ true
  unfolding eval_unary yields_one
  unary-yields_one o a x h = ground arith

  equality-yields_one :
      (is_eq : Bool) (l r x : Expr N) → eval_equality is_eq l r ≡ some x → yields_one x ≡ true
  unfolding eval_equality yields_one
  equality-yields_one is_eq l r x h = ground arith

  numbers-yields_one :
      (o : BinaryOp) (a b : N) (x : Expr N) → eval_numbers num o a b ≡ some x → yields_one x ≡ true
  unfolding eval_numbers yields_one
  numbers-yields_one o a b x h = ground arith

  rest-yields_one : (o : BinaryOp) (l r x : Expr N) → eval_rest o l r ≡ some x → yields_one x ≡ true
  unfolding eval_rest yields_one
  rest-yields_one equal l r x h = equality-yields_one true l r x h
  rest-yields_one not_equal l r x h = equality-yields_one false l r x h
  rest-yields_one o l r x h = ground arith

  binary-yields_one :
      (o : BinaryOp) (l r x : Expr N) → eval_binary num o l r ≡ some x → yields_one x ≡ true
  unfolding eval_binary
  binary-yields_one o (numeric_literal a ra) (numeric_literal b rb) x h =
      elim (Option-cases (eval_numbers num o a b)) [
        | inl n ↦
            rest-yields_one o (numeric_literal a ra) (numeric_literal b rb) x (ground (arith, n, h))
        | inr (y, e) ↦ numbers-yields_one o a b x (ground (arith, e, h))
      ]
  binary-yields_one o l r x h = rest-yields_one o l r x h

  logical-plain :
      (o : LogicalOp) (l r x : Expr N)
      → eval_logical o l r ≡ some x
      → is_safe num l ≡ true
      → is_safe num r ≡ true
      → is_safe num x ≡ true
  unfolding eval_logical
  logical-plain o l r x h p q = ground arith

  try_evaluate-plain :
      (e x : Expr N) → try_evaluate num e ≡ some x → is_safe num e ≡ true → is_safe num x ≡ true
  unfolding try_evaluate is_safe
  try_evaluate-plain (unary_expression o a) x h q = unary-plain o a x h
  try_evaluate-plain (binary_expression o l r) x h q = binary-plain o l r x h
  try_evaluate-plain (logical_expression o l r) x h q =
      logical-plain o l r x h (ground (arith, q)) (ground (arith, q))
  try_evaluate-plain (numeric_literal n raw) x h q = absurd (cc h)
  try_evaluate-plain (string_literal b) x h q = absurd (cc h)
  try_evaluate-plain (boolean_literal b) x h q = absurd (cc h)
  try_evaluate-plain nil_literal x h q = absurd (cc h)
  try_evaluate-plain (table_constructor fields) x h q = absurd (cc h)
  try_evaluate-plain (function_expression ps body) x h q = absurd (cc h)
  try_evaluate-plain (other k es) x h q = absurd (cc h)

  pub visit-plain :
      (e : Expr N) (st : Stats) → is_safe num e ≡ true → is_safe num (visit num e st).0 ≡ true
  unfolding visit settle
  visit-plain e st q = elim (Option-cases (try_evaluate num e)) [
    | inl n ↦ ground (arith, n, q)
    | inr (x, h) ↦ ground (arith, h, q, try_evaluate-plain e x h q)
  ]

  literal_kept : (e : Expr N) (st : Stats) → is_plain e ≡ true → (fold num e st).0 ≡ e
  unfolding fold visit is_plain
  literal_kept e st h = ground arith

  key_kept : (e : Expr N) (st : Stats) → is_key num e ≡ true → (fold num e st).0 ≡ e
  unfolding fold visit is_key
  key_kept e st h = ground arith

  pub literals_kept :
      (fs : Fields N) (st : Stats) → all_plain num fs ≡ true → (fold_fields num fs st).0 ≡ fs
  unfolding fold all_plain
  literals_kept end_of_table st h = refl
  literals_kept (table_key k e fs) st h =
      let a = key_kept k st (ground arith) in
      let b = literal_kept e (fold num k st).1 (ground arith) in
      let c = literals_kept fs (fold num e (fold num k st).1).1 (ground arith) in cc (a, b, c)
  literals_kept (table_key_string k e fs) st h =
      let b = literal_kept e st (ground arith) in
      let c = literals_kept fs (fold num e st).1 (ground arith) in cc (b, c)
  literals_kept (table_value e fs) st h =
      let b = literal_kept e st (ground arith) in
      let c = literals_kept fs (fold num e st).1 (ground arith) in cc (b, c)

  -- What a fold leaves over gives one value, if the node did.
  logical-yields_one :
      (o : LogicalOp) (l r x : Expr N)
      → eval_logical o l r ≡ some x
      → yields_one r ≡ true
      → yields_one x ≡ true
  unfolding eval_logical is_statically_truthy yields_one
  logical-yields_one o l r x h y = ground arith

  try_evaluate-yields_one :
      (e x : Expr N) → try_evaluate num e ≡ some x → is_safe num e ≡ true → yields_one x ≡ true
  unfolding try_evaluate is_safe
  try_evaluate-yields_one (unary_expression o a) x h q = unary-yields_one o a x h
  try_evaluate-yields_one (binary_expression o l r) x h q = binary-yields_one o l r x h
  try_evaluate-yields_one (logical_expression o l r) x h q =
      logical-yields_one o l r x h (ground (arith, q))
  try_evaluate-yields_one (numeric_literal n raw) x h q = absurd (cc h)
  try_evaluate-yields_one (string_literal b) x h q = absurd (cc h)
  try_evaluate-yields_one (boolean_literal b) x h q = absurd (cc h)
  try_evaluate-yields_one nil_literal x h q = absurd (cc h)
  try_evaluate-yields_one (table_constructor fields) x h q = absurd (cc h)
  try_evaluate-yields_one (function_expression ps body) x h q = absurd (cc h)
  try_evaluate-yields_one (other k es) x h q = absurd (cc h)

  pub visit-yields_one :
      (e : Expr N) (st : Stats)
      → is_safe num e ≡ true
      → yields_one e ≡ true
      → yields_one (visit num e st).0 ≡ true
  unfolding visit settle
  visit-yields_one e st q y = elim (Option-cases (try_evaluate num e)) [
    | inl n ↦ ground (arith, n, y)
    | inr (x, h) ↦ ground (arith, h, y, try_evaluate-yields_one e x h q)
  ]
