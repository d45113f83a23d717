-- ===== src/Syntax/RoundTrip/Bare.antt =====
-- packages/core/src/ast/nodes.js: trees without the marks of parentheses, without the raw texts of their literals, and
-- without empty statements and empty `else` blocks.
use valax_wearedevs_deobfusc.Prelude.{ℕ, suc, ◌*◌, ◌≡◌, refl, ap, ◌∙◌, inl, inr, []}
use valax_wearedevs_deobfusc.Bytes.Defs.{Text}
use valax_wearedevs_deobfusc.Syntax.Tree.{
  Expr, identifier, vararg_literal, marked, unary, binary, logical, call, method_call, member,
  index, Exprs, nothing, item, table, function_expression, Fields, no_fields, key_field, name_field,
  value_field, Block, numeric_literal, string_literal, boolean_literal, nil_literal, Statement,
  local_statement, assignment, local_function, function_declaration, call_statement, if_statement,
  while_statement, repeat_statement, numeric_for, generic_for, do_statement, return_statement,
  break_statement, continue_statement, empty_statement, Step, no_step, step, done, statement,
  Clauses, no_clauses, clause, Else, no_else, else_body,
}
use valax_wearedevs_deobfusc.Syntax.Parse.Heads.{mark}
use valax_wearedevs_deobfusc.Syntax.Generate.Pieces.{
  precedence, left_precedence, right_precedence, logical_precedence, is_function,
}
use valax_wearedevs_deobfusc.Syntax.RoundTrip.Form.{
  form, forms, field_forms, statement_form, step_form, clause_forms, else_form, block_form,
  in_parens, base_form,
}
use valax_wearedevs_deobfusc.Prelude.{Bool-cases, ltb}

module _ {N : Type 0} where
  else_bare : Block N → Else N
  else_bare done = no_else
  else_bare b = else_body b

  unfoldable mutual
    unfolding else_bare

    pub bare : Expr N → Expr N
    bare (identifier x) = identifier x
    bare (numeric_literal n raw) = numeric_literal n []
    bare (string_literal s raw) = string_literal s []
    bare (boolean_literal b) = boolean_literal b
    bare nil_literal = nil_literal
    bare vararg_literal = vararg_literal
    bare (marked e) = bare e
    bare (unary o e) = unary o (bare e)
    bare (binary o l r) = binary o (bare l) (bare r)
    bare (logical o l r) = logical o (bare l) (bare r)
    bare (call b es) = call (bare b) (bare_list es)
    bare (method_call b x es) = method_call (bare b) x (bare_list es)
    bare (member b x) = member (bare b) x
    bare (index b e) = index (bare b) (bare e)
    bare (function_expression xs variadic b) = function_expression xs variadic (bare_block b)
    bare (table fs) = table (bare_fields fs)

    pub bare_list : Exprs N → Exprs N
    bare_list nothing = nothing
    bare_list (item e es) = item (bare e) (bare_list es)

    pub bare_fields : Fields N → Fields N
    bare_fields no_fields = no_fields
    bare_fields (key_field k e fs) = key_field (bare k) (bare e) (bare_fields fs)
    bare_fields (name_field x e fs) = name_field x (bare e) (bare_fields fs)
    bare_fields (value_field e fs) = value_field (bare e) (bare_fields fs)

    pub bare_statement : Statement N → Statement N
    bare_statement (local_statement xs es) = local_statement xs (bare_list es)
    bare_statement (assignment ts es) = assignment (bare_list ts) (bare_list es)
    bare_statement (local_function x xs variadic b) = local_function x xs variadic (bare_block b)
    bare_statement (function_declaration name xs variadic b is_method) =
        function_declaration (bare name) xs variadic (bare_block b) is_method
    bare_statement (call_statement e) = call_statement (bare e)
    bare_statement (if_statement cs e) = if_statement (bare_clauses cs) (bare_else e)
    bare_statement (while_statement c b) = while_statement (bare c) (bare_block b)
    bare_statement (repeat_statement c b) = repeat_statement (bare c) (bare_block b)
    bare_statement (numeric_for x first last by b) =
        numeric_for x (bare first) (bare last) (bare_step by) (bare_block b)
    bare_statement (generic_for xs es b) = generic_for xs (bare_list es) (bare_block b)
    bare_statement (do_statement b) = do_statement (bare_block b)
    bare_statement (return_statement es) = return_statement (bare_list es)
    bare_statement break_statement = break_statement
    bare_statement continue_statement = continue_statement
    bare_statement empty_statement = empty_statement

    pub bare_step : Step N → Step N
    bare_step no_step = no_step
    bare_step (step e) = step (bare e)

    pub bare_block : Block N → Block N
    bare_block done = done
    bare_block (statement empty_statement b) = bare_block b
    bare_block (statement s b) = statement (bare_statement s) (bare_block b)

    pub bare_clauses : Clauses N → Clauses N
    bare_clauses no_clauses = no_clauses
    bare_clauses (clause c b cs) = clause (bare c) (bare_block b) (bare_clauses cs)

    pub bare_else : Else N → Else N
    bare_else no_else = no_else
    bare_else (else_body b) = else_bare (bare_block b)

  bare-mark : (e : Expr N) → bare (mark e) ≡ bare e
  unfolding bare mark
  bare-mark (marked e) = refl
  bare-mark e = refl

  bare-in_parens : (c p : ℕ) (e d : Expr N) → bare e ≡ bare d → bare (in_parens c p e) ≡ bare d
  unfolding in_parens
  bare-in_parens c p e d h = elim (Bool-cases (ltb (10 * c) p)) [
    | inl k ↦ rw (k) (bare-mark e ∙ h)
    | inr k ↦ rw (k) h
  ]

  bare-base_form : (b e d : Expr N) → bare e ≡ bare d → bare (base_form b e) ≡ bare d
  unfolding base_form
  bare-base_form b e d h = elim (Bool-cases (is_function b)) [
    | inl k ↦ rw (k) (bare-mark e ∙ h)
    | inr k ↦ rw (k) (bare-in_parens (precedence b) 990 e d h)
  ]

  module _ (t : N → Text) where
    mutual
      unfolding bare form

      bare-form : (e : Expr N) → bare (form t e) ≡ bare e
      bare-form (identifier x) = refl
      bare-form (numeric_literal n raw) = refl
      bare-form (string_literal s raw) = refl
      bare-form (boolean_literal b) = refl
      bare-form nil_literal = refl
      bare-form vararg_literal = refl
      bare-form (marked vararg_literal) = refl
      bare-form (marked e) = bare-form e
      bare-form (unary o e) = rw (bare-in_parens (precedence e) 70 (form t e) e (bare-form e)) refl
      bare-form (binary o l r) =
          rw
            (
              bare-in_parens (precedence l) (left_precedence o) (form t l) l (bare-form l),
              bare-in_parens (precedence r) (right_precedence o) (form t r) r (bare-form r),
            )
            refl
      bare-form (logical o l r) =
          rw
            (
              bare-in_parens (precedence l) (10 * logical_precedence o) (form t l) l (bare-form l),
              bare-in_parens (precedence r) (suc (10 * logical_precedence o)) (form t r) r
                  (bare-form r),
            )
            refl
      bare-form (call b es) = rw (bare-base_form b (form t b) b (bare-form b), bare-forms es) refl
      bare-form (method_call b x es) =
          rw (bare-base_form b (form t b) b (bare-form b), bare-forms es) refl
      bare-form (member b x) = rw (bare-base_form b (form t b) b (bare-form b)) refl
      bare-form (index b e) = rw (bare-base_form b (form t b) b (bare-form b), bare-form e) refl
      bare-form (function_expression xs variadic b) =
          ap (function_expression xs variadic) (bare-block_form b)
      bare-form (table fs) = ap table (bare-field_forms fs)

      bare-forms : (es : Exprs N) → bare_list (forms t es) ≡ bare_list es
      bare-forms nothing = refl
      bare-forms (item e es) = rw (bare-form e, bare-forms es) refl

      bare-field_forms : (fs : Fields N) → bare_fields (field_forms t fs) ≡ bare_fields fs
      bare-field_forms no_fields = refl
      bare-field_forms (key_field k e fs) = rw (bare-form k, bare-form e, bare-field_forms fs) refl
      bare-field_forms (name_field x e fs) = rw (bare-form e, bare-field_forms fs) refl
      bare-field_forms (value_field e fs) = rw (bare-form e, bare-field_forms fs) refl

      bare-statement_form :
          (s : Statement N) → bare_statement (statement_form t s) ≡ bare_statement s
      bare-statement_form (local_statement xs es) = ap (local_statement xs) (bare-forms es)
      bare-statement_form (assignment ts es) = rw (bare-forms ts, bare-forms es) refl
      bare-statement_form (local_function x xs variadic b) =
          ap (local_function x xs variadic) (bare-block_form b)
      bare-statement_form (function_declaration name xs variadic b is_method) =
          rw (bare-form name, bare-block_form b) refl
      bare-statement_form (call_statement e) = ap call_statement (bare-form e)
      bare-statement_form (if_statement cs e) = rw (bare-clause_forms cs, bare-else_form e) refl
      bare-statement_form (while_statement c b) = rw (bare-form c, bare-block_form b) refl
      bare-statement_form (repeat_statement c b) = rw (bare-form c, bare-block_form b) refl
      bare-statement_form (numeric_for x first last by b) =
          rw (bare-form first, bare-form last, bare-step_form by, bare-block_form b) refl
      bare-statement_form (generic_for xs es b) = rw (bare-forms es, bare-block_form b) refl
      bare-statement_form (do_statement b) = ap do_statement (bare-block_form b)
      bare-statement_form (return_statement es) = ap return_statement (bare-forms es)
      bare-statement_form break_statement = refl
      bare-statement_form continue_statement = refl
      bare-statement_form empty_statement = refl

      bare-step_form : (by : Step N) → bare_step (step_form t by) ≡ bare_step by
      bare-step_form no_step = refl
      bare-step_form (step e) = ap step (bare-form e)

      pub bare-block_form : (b : Block N) → bare_block (block_form t b) ≡ bare_block b
      bare-block_form done = refl
      bare-block_form (statement empty_statement b) = bare-block_form b
      bare-block_form (statement s b) =
          ap (λ x. statement x (bare_block (block_form t b))) (bare-statement_form s)
          ∙ ap (statement (bare_statement s)) (bare-block_form b)

      bare-clause_forms : (cs : Clauses N) → bare_clauses (clause_forms t cs) ≡ bare_clauses cs
      bare-clause_forms no_clauses = refl
      bare-clause_forms (clause c b cs) =
          rw (bare-form c, bare-block_form b, bare-clause_forms cs) refl

      bare-else_form : (e : Else N) → bare_else (else_form t e) ≡ bare_else e
      bare-else_form no_else = refl
      bare-else_form (else_body done) = refl
      bare-else_form (else_body (statement s b)) = ap else_bare (bare-block_form (statement s b))
