-- ===== src/Syntax/RoundTrip/Form.antt =====
-- packages/core/src: what the parser makes of the text that the generator writes for a tree, and the trees
-- for which it makes that.
use valax_wearedevs_deobfusc.Prelude.{ℕ, suc, ◌*◌, ◌≤◌, ◌≡◌, ◌⊎◌, ltb, if◌then◌else◌}
use valax_wearedevs_deobfusc.Bytes.Defs.{Text, to_lua_literal}
use valax_wearedevs_deobfusc.Syntax.Tree.{
  Operator, Expr, identifier, numeric_literal, string_literal, boolean_literal, nil_literal,
  vararg_literal, marked, unary, binary, logical, call, method_call, member, index,
  function_expression, table, Exprs, nothing, item, Fields, no_fields, key_field, name_field,
  value_field, Statement, local_statement, assignment, local_function, function_declaration,
  call_statement, if_statement, while_statement, repeat_statement, numeric_for, generic_for,
  do_statement, return_statement, break_statement, continue_statement, empty_statement, Step,
  no_step, step, Block, done, statement, Clauses, no_clauses, clause, Else, no_else, else_body,
}
use valax_wearedevs_deobfusc.Syntax.Parse.Heads.{mark}
use valax_wearedevs_deobfusc.Syntax.Generate.Pieces.{
  operator_precedence, logical_precedence, is_right_associative, precedence, left_precedence,
  right_precedence, is_function,
}
use valax_wearedevs_deobfusc.Syntax.Generate.Write.{literal_text}

module _ {N : Type 0} where
  -- The mark of the parentheses that `enclose` puts.
  unfoldable pub in_parens : ℕ → ℕ → Expr N → Expr N
  unfolding mark
  in_parens current parent e = if ltb (10 * current) parent then mark e else e

  unfoldable pub base_form : Expr N → Expr N → Expr N
  unfolding in_parens mark is_function precedence
  base_form b e = if is_function b then mark e else in_parens (precedence b) 990 e

module _ {N : Type 0} (number_text : N → Text) where
  unfoldable mutual
    unfolding in_parens base_form precedence left_precedence right_precedence logical_precedence
        literal_text to_lua_literal

    pub form : Expr N → Expr N
    form (identifier x) = identifier x
    form (numeric_literal n raw) = numeric_literal n (literal_text number_text n raw)
    form (string_literal s raw) = string_literal s (to_lua_literal 34 s)
    form (boolean_literal b) = boolean_literal b
    form nil_literal = nil_literal
    form vararg_literal = vararg_literal
    form (marked vararg_literal) = marked vararg_literal
    form (marked e) = form e
    form (unary o e) = unary o (in_parens (precedence e) 70 (form e))
    form (binary o l r) =
        binary o (in_parens (precedence l) (left_precedence o) (form l))
          (in_parens (precedence r) (right_precedence o) (form r))
    form (logical o l r) =
        logical o (in_parens (precedence l) (10 * logical_precedence o) (form l))
          (in_parens (precedence r) (suc (10 * logical_precedence o)) (form r))
    form (call b es) = call (base_form b (form b)) (forms es)
    form (method_call b x es) = method_call (base_form b (form b)) x (forms es)
    form (member b x) = member (base_form b (form b)) x
    form (index b e) = index (base_form b (form b)) (form e)
    form (function_expression xs variadic b) = function_expression xs variadic (block_form b)
    form (table fs) = table (field_forms fs)

    pub forms : Exprs N → Exprs N
    forms nothing = nothing
    forms (item e es) = item (form e) (forms es)

    pub field_forms : Fields N → Fields N
    field_forms no_fields = no_fields
    field_forms (key_field k e fs) = key_field (form k) (form e) (field_forms fs)
    field_forms (name_field x e fs) = name_field x (form e) (field_forms fs)
    field_forms (value_field e fs) = value_field (form e) (field_forms fs)

    pub statement_form : Statement N → Statement N
    statement_form (local_statement xs es) = local_statement xs (forms es)
    statement_form (assignment ts es) = assignment (forms ts) (forms es)
    statement_form (local_function x xs variadic b) = local_function x xs variadic (block_form b)
    statement_form (function_declaration name xs variadic b is_method) =
        function_declaration (form name) xs variadic (block_form b) is_method
    statement_form (call_statement e) = call_statement (form e)
    statement_form (if_statement cs e) = if_statement (clause_forms cs) (else_form e)
    statement_form (while_statement c b) = while_statement (form c) (block_form b)
    statement_form (repeat_statement c b) = repeat_statement (form c) (block_form b)
    statement_form (numeric_for x first last by b) =
        numeric_for x (form first) (form last) (step_form by) (block_form b)
    statement_form (generic_for xs es b) = generic_for xs (forms es) (block_form b)
    statement_form (do_statement b) = do_statement (block_form b)
    statement_form (return_statement es) = return_statement (forms es)
    statement_form break_statement = break_statement
    statement_form continue_statement = continue_statement
    statement_form empty_statement = empty_statement

    pub step_form : Step N → Step N
    step_form no_step = no_step
    step_form (step e) = step (form e)

    -- The generator writes nothing for an empty statement, nor for an empty `else`.
    pub block_form : Block N → Block N
    block_form done = done
    block_form (statement empty_statement b) = block_form b
    block_form (statement s b) = statement (statement_form s) (block_form b)

    pub clause_forms : Clauses N → Clauses N
    clause_forms no_clauses = no_clauses
    clause_forms (clause c b cs) = clause (form c) (block_form b) (clause_forms cs)

    pub else_form : Else N → Else N
    else_form no_else = no_else
    else_form (else_body done) = no_else
    else_form (else_body b) = else_body (block_form b)

unfoldable pub next_level : Operator → ℕ
unfolding is_right_associative operator_precedence
next_level o = if is_right_associative o then operator_precedence o else suc (operator_precedence o)

module _ {N : Type 0} where
  -- The precedence from which on an operator behind the text of the tree would take part of it.
  unfoldable pub bound : Expr N → ℕ
  unfolding logical_precedence next_level
  bound (logical o l r) = suc (logical_precedence o)
  bound (binary o l r) = next_level o
  bound (unary o e) = 7
  bound (marked e) = bound e
  bound _ = 9

-- The precedences of operators of left and of right associativity.
abbrev pub IsLeft : ℕ → Type 0
IsLeft c = (c ≤ 3) ⊎ ((c ≡ 5) ⊎ (c ≡ 6))

abbrev pub IsRight : ℕ → Type 0
IsRight c = (c ≡ 4) ⊎ (c ≡ 8)
