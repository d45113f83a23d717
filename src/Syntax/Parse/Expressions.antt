-- ===== src/Syntax/Parse/Expressions.antt =====
-- packages/core/src/parser/parser.js: the methods that parse expressions. Each call of a method and
-- each round of a loop takes one unit of fuel. The block of a function is parsed by a parameter.
use valax_wearedevs_deobfusc.Prelude.{ℕ, zero, suc, Bool, true, false, List, [], ◌∷◌, if◌then◌else◌}
use valax_wearedevs_deobfusc.Bytes.Defs.{Text}
use valax_wearedevs_deobfusc.Evaluator.Syntax.{UnaryOp, negation, len}
use valax_wearedevs_deobfusc.Syntax.Tokens.{
  keyword, symbol, ident, number, string, k_true, k_false, k_nil, k_not, k_function, Symbol, hash,
  lparen, lbrace, dot_dot_dot,
}
use valax_wearedevs_deobfusc.Syntax.Tree.{
  Expr, identifier, numeric_literal, string_literal, boolean_literal, nil_literal, vararg_literal,
  unary, call, method_call, member, index, function_expression, table, Exprs, nothing, item, Fields,
  no_fields, key_field, name_field, value_field, Block,
}
use valax_wearedevs_deobfusc.Syntax.Result.{
  ok, parse_error, out_of_fuel, bind, Kinds, Parser, peek, advance, is, is_any, consume,
  consume_name,
}
use valax_wearedevs_deobfusc.Syntax.Parse.Heads.{
  stops, next_precedence, join, index_suffix, member_suffix, method_suffix, call_suffix, no_suffix,
  suffix_of, mark,
}

-- A name with `=` behind it.
unfoldable pub names_field : {N : Type 0} → Kinds N → Bool
unfolding is
names_field ks = if is "IDENT" (peek ks) then is "=" (peek (advance ks)) else false

-- The names after the first of a parameter list, and whether `...` ends it.
unfoldable pub more_parameters : {N : Type 0} → ℕ → Parser N (List Text × Bool)
unfolding is consume_name
more_parameters zero ks = out_of_fuel
more_parameters (suc f) ks = elim (is "," (peek ks)) [
  | false ↦ ok (([], false), ks)
  | true ↦ elim (is "..." (peek (advance ks))) [
    | true ↦ ok (([], true), advance (advance ks))
    | false ↦ bind (consume_name "Expected parameter name after comma" (advance ks)) λ (x, rest).
        bind (more_parameters f rest) λ ((xs, variadic), rest'). ok ((x ∷ xs, variadic), rest')
  ]
]

unfoldable pub parse_parameters : {N : Type 0} → ℕ → Parser N (List Text × Bool)
unfolding is consume_name more_parameters
parse_parameters f ks = elim (is ")" (peek ks)) [
  | true ↦ ok (([], false), ks)
  | false ↦ elim (is "..." (peek ks)) [
    | true ↦ ok (([], true), advance ks)
    | false ↦ bind (consume_name "Expected parameter name" ks) λ (x, rest).
        bind (more_parameters f rest) λ ((xs, variadic), rest'). ok ((x ∷ xs, variadic), rest')
  ]
]

pub record Function (N : Type 0) : Type 0 where
  pub params : List Text
  pub is_vararg : Bool
  pub body : Block N

-- `parseFunctionBody`
unfoldable pub parse_function_body : {N : Type 0} → ℕ → Parser N (Block N) → Parser N (Function N)
unfolding consume parse_parameters
parse_function_body f block ks = bind (consume "(" "Expected '(' for parameter list" ks) λ ks1.
    bind (parse_parameters f ks1) λ ((xs, variadic), ks2).
      bind (consume ")" "Expected ')' to close parameter list" ks2) λ ks3.
        bind (block ks3) λ (body, ks4).
          bind (consume "END" "Expected 'end' to close function body" ks4)
            λ ks5. ok (record { params = xs; is_vararg = variadic; body = body }, ks5)

module _ {N : Type 0} (block : Parser N (Block N)) where
  unfoldable mutual
    unfolding is names_field consume consume_name parse_function_body stops next_precedence join
        suffix_of mark

    -- `parseSubExpression`
    pub parse_sub : ℕ → ℕ → Parser N (Expr N)
    parse_sub zero m ks = out_of_fuel
    parse_sub (suc f) m ks = bind (parse_simple f ks) λ (left, rest). climb f m left rest

    -- The loop of `parseSubExpression`.
    pub climb : ℕ → ℕ → Expr N → Parser N (Expr N)
    climb zero m left ks = out_of_fuel
    climb (suc f) m left ks = elim (stops m (peek ks)) [
      | true ↦ ok (left, ks)
      | false ↦
          bind (parse_sub f (next_precedence (peek ks)) (advance ks))
            λ (right, rest). climb f m (join (peek ks) left right) rest
    ]

    -- `parseSimpleExpression`
    pub parse_simple : ℕ → Parser N (Expr N)
    parse_simple zero ks = out_of_fuel
    parse_simple (suc f) (keyword k_not ∷ ks) =
        bind (parse_sub f 7 ks) λ (e, rest). ok (unary negation e, rest)
    parse_simple (suc f) (symbol hash ∷ ks) =
        bind (parse_sub f 7 ks) λ (e, rest). ok (unary len e, rest)
    parse_simple (suc f) (symbol Symbol.minus ∷ ks) =
        bind (parse_sub f 7 ks) λ (e, rest). ok (unary UnaryOp.minus e, rest)
    parse_simple (suc f) (number n raw ∷ ks) = ok (numeric_literal n raw, ks)
    parse_simple (suc f) (string s raw ∷ ks) = ok (string_literal s raw, ks)
    parse_simple (suc f) (keyword k_true ∷ ks) = ok (boolean_literal true, ks)
    parse_simple (suc f) (keyword k_false ∷ ks) = ok (boolean_literal false, ks)
    parse_simple (suc f) (keyword k_nil ∷ ks) = ok (nil_literal, ks)
    parse_simple (suc f) (symbol dot_dot_dot ∷ ks) = ok (vararg_literal, ks)
    parse_simple (suc f) (symbol lbrace ∷ ks) = parse_table f (symbol lbrace ∷ ks)
    parse_simple (suc f) (keyword k_function ∷ ks) =
        bind (parse_function_body f block ks)
          λ (d, rest). ok (function_expression d.params d.is_vararg d.body, rest)
    parse_simple (suc f) ks = parse_prefix f ks

    -- `parsePrefixExp`
    pub parse_prefix : ℕ → Parser N (Expr N)
    parse_prefix zero ks = out_of_fuel
    parse_prefix (suc f) (symbol lparen ∷ ks) = bind (parse_sub f 0 ks) λ (e, ks1).
        bind (consume ")" "Expected ')' after parenthesized expression" ks1)
          λ ks2. suffixes f (mark e) ks2
    parse_prefix (suc f) (ident x ∷ ks) = suffixes f (identifier x) ks
    parse_prefix (suc f) ks = parse_error "Unexpected token in expression"

    -- The loop of `parsePrefixExp`.
    pub suffixes : ℕ → Expr N → Parser N (Expr N)
    suffixes zero base ks = out_of_fuel
    suffixes (suc f) base ks = elim (suffix_of (peek ks)) [
      | index_suffix ↦ bind (parse_sub f 0 (advance ks)) λ (e, ks1).
          bind (consume "]" "Expected ']' after indexing expression" ks1)
            λ ks2. suffixes f (index base e) ks2
      | member_suffix ↦
          bind (consume_name "Expected property name after ." (advance ks))
            λ (x, rest). suffixes f (member base x) rest
      | method_suffix ↦
          bind (consume_name "Expected method name after :" (advance ks))
            λ (x, ks1). bind (parse_args f ks1) λ (es, ks2). suffixes f (method_call base x es) ks2
      | call_suffix ↦ bind (parse_args f ks) λ (es, rest). suffixes f (call base es) rest
      | no_suffix ↦ ok (base, ks)
    ]

    -- `parseCallArgs`
    pub parse_args : ℕ → Parser N (Exprs N)
    parse_args zero ks = out_of_fuel
    parse_args (suc f) (symbol lparen ∷ ks) = elim (is ")" (peek ks)) [
      | true ↦ ok (nothing, advance ks)
      | false ↦ bind (parse_list f ks) λ (es, ks1).
          bind (consume ")" "Expected ')' to close function arguments" ks1) λ ks2. ok (es, ks2)
    ]
    parse_args (suc f) (string s raw ∷ ks) = ok (item (string_literal s raw) nothing, ks)
    parse_args (suc f) (symbol lbrace ∷ ks) =
        bind (parse_table f (symbol lbrace ∷ ks)) λ (e, rest). ok (item e nothing, rest)
    parse_args (suc f) ks = parse_error "Expected function arguments"

    -- An expression, and those behind commas.
    pub parse_list : ℕ → Parser N (Exprs N)
    parse_list zero ks = out_of_fuel
    parse_list (suc f) ks = bind (parse_sub f 0 ks) λ (e, rest). more_of f e rest

    pub more_of : ℕ → Expr N → Parser N (Exprs N)
    more_of zero e ks = out_of_fuel
    more_of (suc f) e ks = elim (is "," (peek ks)) [
      | false ↦ ok (item e nothing, ks)
      | true ↦ bind (parse_list f (advance ks)) λ (es, rest). ok (item e es, rest)
    ]

    -- `parseTableConstructor`
    pub parse_table : ℕ → Parser N (Expr N)
    parse_table zero ks = out_of_fuel
    parse_table (suc f) ks = bind (consume "{" "Expected '{'" ks) λ ks1.
        bind (parse_fields f ks1) λ (fs, ks2).
          bind (consume "}" "Expected '}' to close table constructor" ks2) λ ks3. ok (table fs, ks3)

    -- Its loop.
    pub parse_fields : ℕ → Parser N (Fields N)
    parse_fields zero ks = out_of_fuel
    parse_fields (suc f) ks = elim (is_any ("}" ∷ "EOF" ∷ []) (peek ks)) [
      | true ↦ ok (no_fields, ks)
      | false ↦ parse_field f ks
    ]

    -- One field, the separator, and the rounds that follow.
    pub parse_field : ℕ → Parser N (Fields N)
    parse_field zero ks = out_of_fuel
    parse_field (suc f) ks = elim (is "[" (peek ks)) [
      | true ↦ bind (parse_sub f 0 (advance ks)) λ (key, ks1).
          bind (consume "]" "Expected ']' after table key" ks1) λ ks2.
            bind (consume "=" "Expected '=' after table key" ks2) λ ks3.
              bind (parse_sub f 0 ks3)
                λ (e, ks4). bind (more_fields f ks4) λ (fs, rest). ok (key_field key e fs, rest)
      | false ↦ elim (names_field ks) [
        | true ↦ bind (consume_name "Expected field name" ks) λ (x, ks1).
            bind (consume "=" "Expected '=' after field name" ks1) λ ks2.
              bind (parse_sub f 0 ks2)
                λ (e, ks3). bind (more_fields f ks3) λ (fs, rest). ok (name_field x e fs, rest)
        | false ↦
            bind (parse_sub f 0 ks)
              λ (e, ks1). bind (more_fields f ks1) λ (fs, rest). ok (value_field e fs, rest)
      ]
    ]

    pub more_fields : ℕ → Parser N (Fields N)
    more_fields zero ks = out_of_fuel
    more_fields (suc f) ks = elim (is_any ("," ∷ ";" ∷ []) (peek ks)) [
      | true ↦ parse_fields f (advance ks)
      | false ↦ ok (no_fields, ks)
    ]
