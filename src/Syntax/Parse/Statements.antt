-- ===== src/Syntax/Parse/Statements.antt =====
-- packages/core/src/parser/parser.js: the methods that parse statements. The blocks inside a statement
-- are parsed by a parameter, which `parse_block` fills with itself on less fuel.
use valax_wearedevs_deobfusc.Prelude.{ℕ, zero, suc, String, Bool, true, false, List, [], ◌∷◌}
use valax_wearedevs_deobfusc.Bytes.Defs.{Text}
use valax_wearedevs_deobfusc.Syntax.Tokens.{
  Kind, keyword, symbol, k_local, k_function, k_if, k_while, k_repeat, k_do, k_for, k_break,
  k_continue, k_return, semicolon,
}
use valax_wearedevs_deobfusc.Syntax.Tree.{
  Expr, identifier, binary, member, Exprs, nothing, item, Statement, local_statement, assignment,
  local_function, function_declaration, call_statement, if_statement, while_statement,
  repeat_statement, numeric_for, generic_for, do_statement, return_statement, break_statement,
  continue_statement, empty_statement, Step, no_step, step, Block, done, statement, Clauses,
  no_clauses, clause, Else, no_else, else_body,
}
use valax_wearedevs_deobfusc.Syntax.Result.{
  Result, ok, parse_error, out_of_fuel, bind, Kinds, Parser, peek, advance, is, is_any, skip,
  consume, consume_name,
}
use valax_wearedevs_deobfusc.Syntax.Parse.Heads.{operator_of, is_call}
use valax_wearedevs_deobfusc.Syntax.Parse.Expressions.{
  parse_function_body, parse_sub, parse_prefix, parse_list,
}

-- `while (this.match(TokenType.COMMA))` with a name each round.
unfoldable pub more_names : {N : Type 0} → String → ℕ → Parser N (List Text)
unfolding is consume_name
more_names message zero ks = out_of_fuel
more_names message (suc f) ks = elim (is "," (peek ks)) [
  | false ↦ ok ([], ks)
  | true ↦
      bind (consume_name message (advance ks))
        λ (x, rest). bind (more_names message f rest) λ (xs, rest'). ok (x ∷ xs, rest')
]

-- `while (this.match(TokenType.DOT))` with a property each round.
unfoldable pub more_properties : {N : Type 0} → ℕ → Expr N → Parser N (Expr N)
unfolding is consume_name
more_properties zero name ks = out_of_fuel
more_properties (suc f) name ks = elim (is "." (peek ks)) [
  | false ↦ ok (name, ks)
  | true ↦
      bind (consume_name "Expected property name after ." (advance ks))
        λ (x, rest). more_properties f (member name x) rest
]

abbrev pub block_ends : List String
block_ends = "EOF" ∷ "END" ∷ "ELSEIF" ∷ "ELSE" ∷ "UNTIL" ∷ []

abbrev pub return_ends : List String
return_ends = "END" ∷ "ELSEIF" ∷ "ELSE" ∷ "UNTIL" ∷ ";" ∷ "EOF" ∷ []

abbrev pub assignment_signs : List String
assignment_signs = "," ∷ "=" ∷ "+=" ∷ "-=" ∷ "*=" ∷ "/=" ∷ "..=" ∷ []

-- `init[0] = binaryExpression(binOp, variables[0], init[0])` for a compound assignment
unfoldable pub compound : {N : Type 0} → Kind N → Expr N → Exprs N → Result (Exprs N)
unfolding is operator_of
compound k target nothing = ok nothing
compound k target (item e es) = elim (is "=" k) [
  | true ↦ ok (item e es)
  | false ↦ bind (operator_of k) λ o. ok (item (binary o target e) es)
]

-- The name that a declaration ends up with, and whether a method's name ends it.
unfoldable pub method_name : {N : Type 0} → Expr N → Parser N (Expr N × Bool)
unfolding is consume_name
method_name name ks = elim (is ":" (peek ks)) [
  | true ↦
      bind (consume_name "Expected method name after :" (advance ks))
        λ (x, rest). ok ((member name x, true), rest)
  | false ↦ ok ((name, false), ks)
]

module _ {N : Type 0} (block : Parser N (Block N)) where
  unfoldable pub parse_local_function : ℕ → Parser N (Statement N)
  unfolding consume_name parse_function_body
  parse_local_function f ks =
      bind (consume_name "Expected function name after local function" ks) λ (x, ks1).
        bind (parse_function_body f block ks1)
          λ (d, rest). ok (local_function x d.params d.is_vararg d.body, rest)

  unfoldable pub parse_local_variables : ℕ → Parser N (Statement N)
  unfolding is consume_name more_names parse_list
  parse_local_variables f ks =
      bind (consume_name "Expected variable name in local statement" ks) λ (x, ks1).
        bind (more_names "Expected variable name after comma in local statement" f ks1) λ (xs, ks2).
          elim (is "=" (peek ks2)) [
            | true ↦
                bind (parse_list block f (advance ks2))
                  λ (es, rest). ok (local_statement (x ∷ xs) es, skip ";" rest)
            | false ↦ ok (local_statement (x ∷ xs) nothing, skip ";" ks2)
          ]

  unfoldable pub parse_function_declaration : ℕ → Parser N (Statement N)
  unfolding consume_name more_properties method_name parse_function_body
  parse_function_declaration f ks = bind (consume_name "Expected function name" ks) λ (x, ks1).
      bind (more_properties f (identifier x) ks1) λ (path, ks2).
        bind (method_name path ks2) λ ((name, is_method), ks3).
          bind (parse_function_body f block ks3)
            λ (d, rest). ok (function_declaration name d.params d.is_vararg d.body is_method, rest)

  -- A condition, `then` and a block, and the clauses behind `elseif`.
  unfoldable pub parse_clauses : String → ℕ → Parser N (Clauses N)
  unfolding is consume parse_sub
  parse_clauses message zero ks = out_of_fuel
  parse_clauses message (suc f) ks = bind (parse_sub block f 0 ks) λ (c, ks1).
      bind (consume "THEN" message ks1) λ ks2. bind (block ks2) λ (b, ks3).
        elim (is "ELSEIF" (peek ks3)) [
          | false ↦ ok (clause c b no_clauses, ks3)
          | true ↦
              bind (parse_clauses "Expected 'then' after elseif condition" f (advance ks3))
                λ (cs, rest). ok (clause c b cs, rest)
        ]

  unfoldable pub parse_else : Parser N (Else N)
  unfolding is
  parse_else ks = elim (is "ELSE" (peek ks)) [
    | true ↦ bind (block (advance ks)) λ (b, rest). ok (else_body b, rest)
    | false ↦ ok (no_else, ks)
  ]

  unfoldable pub parse_if_statement : ℕ → Parser N (Statement N)
  unfolding parse_clauses parse_else consume
  parse_if_statement f ks =
      bind (parse_clauses "Expected 'then' after if condition" f ks) λ (cs, ks1).
        bind (parse_else ks1) λ (e, ks2).
          bind (consume "END" "Expected 'end' to close if statement" ks2)
            λ rest. ok (if_statement cs e, rest)

  unfoldable pub parse_while_statement : ℕ → Parser N (Statement N)
  unfolding parse_sub consume
  parse_while_statement f ks = bind (parse_sub block f 0 ks) λ (c, ks1).
      bind (consume "DO" "Expected 'do' after while condition" ks1) λ ks2.
        bind (block ks2) λ (b, ks3).
          bind (consume "END" "Expected 'end' to close while loop" ks3)
            λ rest. ok (while_statement c b, rest)

  unfoldable pub parse_repeat_statement : ℕ → Parser N (Statement N)
  unfolding parse_sub consume is
  parse_repeat_statement f ks = bind (block ks) λ (b, ks1).
      bind (consume "UNTIL" "Expected 'until' after repeat block" ks1)
        λ ks2. bind (parse_sub block f 0 ks2) λ (c, rest). ok (repeat_statement c b, skip ";" rest)

  unfoldable pub parse_step : ℕ → Parser N (Step N)
  unfolding is parse_sub
  parse_step f ks = elim (is "," (peek ks)) [
    | true ↦ bind (parse_sub block f 0 (advance ks)) λ (e, rest). ok (step e, rest)
    | false ↦ ok (no_step, ks)
  ]

  unfoldable pub parse_numeric_for : ℕ → Text → Parser N (Statement N)
  unfolding parse_sub consume parse_step
  parse_numeric_for f x ks = bind (parse_sub block f 0 ks) λ (first, ks1).
      bind (consume "," "Expected ',' after for start expression" ks1) λ ks2.
        bind (parse_sub block f 0 ks2) λ (last, ks3). bind (parse_step f ks3) λ (by, ks4).
          bind (consume "DO" "Expected 'do' in numeric for loop" ks4) λ ks5.
            bind (block ks5) λ (b, ks6).
              bind (consume "END" "Expected 'end' to close numeric for loop" ks6)
                λ rest. ok (numeric_for x first last by b, rest)

  unfoldable pub parse_generic_for : ℕ → Text → Parser N (Statement N)
  unfolding parse_list consume more_names
  parse_generic_for f x ks =
      bind (more_names "Expected variable name after comma" f ks) λ (xs, ks1).
        bind (consume "IN" "Expected '=' or 'in' in for loop" ks1) λ ks2.
          bind (parse_list block f ks2) λ (es, ks3).
            bind (consume "DO" "Expected 'do' in generic for loop" ks3) λ ks4.
              bind (block ks4) λ (b, ks5).
                bind (consume "END" "Expected 'end' to close generic for loop" ks5)
                  λ rest. ok (generic_for (x ∷ xs) es b, rest)

  unfoldable pub parse_for_statement : ℕ → Parser N (Statement N)
  unfolding consume_name is parse_numeric_for parse_generic_for
  parse_for_statement f ks = bind (consume_name "Expected variable name after for" ks) λ (x, ks1).
      elim (is "=" (peek ks1)) [
        | true ↦ parse_numeric_for f x (advance ks1)
        | false ↦ parse_generic_for f x ks1
      ]

  unfoldable pub parse_return : ℕ → Parser N (Statement N)
  unfolding is parse_list
  parse_return f ks = elim (is_any return_ends (peek ks)) [
    | true ↦ ok (return_statement nothing, skip ";" ks)
    | false ↦ bind (parse_list block f ks) λ (es, rest). ok (return_statement es, skip ";" rest)
  ]

  -- `while (this.match(TokenType.COMMA))` with a target each round.
  unfoldable pub more_targets : ℕ → Parser N (Exprs N)
  unfolding is parse_prefix
  more_targets zero ks = out_of_fuel
  more_targets (suc f) ks = elim (is "," (peek ks)) [
    | false ↦ ok (nothing, ks)
    | true ↦
        bind (parse_prefix block f (advance ks))
          λ (e, rest). bind (more_targets f rest) λ (es, rest'). ok (item e es, rest')
  ]

  unfoldable pub parse_call_or_assignment : ℕ → Parser N (Statement N)
  unfolding is is_call parse_prefix more_targets parse_list compound
  parse_call_or_assignment f ks = bind (parse_prefix block f ks) λ (first, ks1).
      elim (is_any assignment_signs (peek ks1)) [
        | true ↦ bind (more_targets f ks1) λ (targets, ks2).
            bind (parse_list block f (advance ks2)) λ (es, rest).
              bind (compound (peek ks2) first es)
                λ values. ok (assignment (item first targets) values, skip ";" rest)
        | false ↦ elim (is_call first) [
          | true ↦ ok (call_statement first, skip ";" ks1)
          | false ↦ parse_error "Expected assignment or function call"
        ]
      ]

  unfoldable pub parse_local : ℕ → Parser N (Statement N)
  unfolding parse_local_function parse_local_variables
  parse_local f (keyword k_function ∷ ks) = parse_local_function f ks
  parse_local f ks = parse_local_variables f ks

  unfoldable pub parse_statement : ℕ → Parser N (Statement N)
  unfolding parse_local parse_function_declaration parse_if_statement parse_while_statement
      parse_repeat_statement parse_for_statement parse_return parse_call_or_assignment consume is
  parse_statement f (symbol semicolon ∷ ks) = ok (empty_statement, ks)
  parse_statement f (keyword k_local ∷ ks) = parse_local f ks
  parse_statement f (keyword k_function ∷ ks) = parse_function_declaration f ks
  parse_statement f (keyword k_if ∷ ks) = parse_if_statement f ks
  parse_statement f (keyword k_while ∷ ks) = parse_while_statement f ks
  parse_statement f (keyword k_repeat ∷ ks) = parse_repeat_statement f ks
  parse_statement f (keyword k_do ∷ ks) = bind (block ks) λ (b, ks1).
      bind (consume "END" "Expected 'end' to close 'do' block" ks1)
        λ rest. ok (do_statement b, rest)
  parse_statement f (keyword k_for ∷ ks) = parse_for_statement f ks
  parse_statement f (keyword k_break ∷ ks) = ok (break_statement, skip ";" ks)
  parse_statement f (keyword k_continue ∷ ks) = ok (continue_statement, skip ";" ks)
  parse_statement f (keyword k_return ∷ ks) = parse_return f ks
  parse_statement f ks = parse_call_or_assignment f ks

unfoldable pub parse_block : {N : Type 0} → ℕ → Parser N (Block N)
unfolding is parse_statement
parse_block zero ks = out_of_fuel
parse_block (suc f) ks = elim (is_any block_ends (peek ks)) [
  | true ↦ ok (done, ks)
  | false ↦
      bind (parse_statement (parse_block f) f ks)
        λ (s, rest). bind (parse_block f rest) λ (b, rest'). ok (statement s b, rest')
]

unfoldable pub parse_chunk : {N : Type 0} → ℕ → Kinds N → Result (Block N)
unfolding is parse_block
parse_chunk f ks = bind (parse_block f ks) λ (b, rest). elim (is "EOF" (peek rest)) [
  | true ↦ ok b
  | false ↦ parse_error "Unexpected token after chunk"
]
