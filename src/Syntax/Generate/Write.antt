-- ===== src/Syntax/Generate/Write.antt =====
-- packages/core/src/generator/lua-generator.js: `LuaGenerator`, for an indentation and JavaScript's text
-- of a number. Each function takes `indentLevel`.
use valax_wearedevs_deobfusc.Prelude.{ℕ, suc, ◌*◌, Bool, ◌&&◌, [], ◌∷◌, ◌++◌, leb, if◌then◌else◌}
use valax_wearedevs_deobfusc.Bytes.Defs.{Text, to_lua_literal}
use valax_wearedevs_deobfusc.Bytes.Literal.{is_space}
use valax_wearedevs_deobfusc.Syntax.Tokens.{
  k_break, k_do, k_else, k_elseif, k_end, k_false, k_for, k_function, k_if, k_in, k_local, k_nil,
  k_repeat, k_return, k_then, k_true, k_until, k_while, k_continue, keyword, symbol, ident, number,
  string, Keyword, lparen, rparen, lbrace, rbrace, lbracket, rbracket, colon, comma, dot,
  dot_dot_dot, assign,
}
use valax_wearedevs_deobfusc.Syntax.Tree.{
  Expr, identifier, numeric_literal, string_literal, boolean_literal, nil_literal, vararg_literal,
  marked, unary, binary, logical, call, method_call, member, index, function_expression, table,
  Exprs, nothing, item, Fields, no_fields, key_field, name_field, value_field, Statement,
  local_statement, assignment, local_function, function_declaration, call_statement, if_statement,
  while_statement, repeat_statement, numeric_for, generic_for, do_statement, return_statement,
  break_statement, continue_statement, empty_statement, Step, no_step, step, Block, done, statement,
  Clauses, no_clauses, clause, Else, no_else, else_body,
}
use valax_wearedevs_deobfusc.Syntax.Generate.Pieces.{
  token, layout, Pieces, render, space, unary_pieces, operator_piece, logical_token,
  logical_precedence, precedence, left_precedence, right_precedence, enclose, as_base, name_list,
  parameter_list, is_array, repeat_text,
}

module _ {N : Type 0} where
  abbrev pub word : Keyword → Pieces N
  word k = token (keyword k) ∷ space ∷ []

  abbrev pub comma_space : Pieces N
  comma_space = token (symbol comma) ∷ space ∷ []

  abbrev pub equals_sign : Pieces N
  equals_sign = space ∷ token (symbol assign) ∷ space ∷ []

  unfoldable pub count_fields : Fields N → ℕ
  count_fields no_fields = 0
  count_fields (key_field k e fs) = suc (count_fields fs)
  count_fields (name_field x e fs) = suc (count_fields fs)
  count_fields (value_field e fs) = suc (count_fields fs)

  -- `join(',\n')`: the fields that follow one, written as `ps`.
  unfoldable pub field_end : Fields N → Pieces N → Pieces N
  field_end no_fields ps = []
  field_end fs ps = token (symbol comma) ∷ layout (10 ∷ []) ∷ ps

  -- An array of at most four fields is written on one line.
  unfoldable pub is_compact : Fields N → Bool
  unfolding count_fields is_array
  is_compact fs = leb (count_fields fs) 4 && is_array fs

-- `raw`, or else `String(value)`
unfoldable pub literal_text : {N : Type 0} → (N → Text) → N → Text → Text
literal_text number_text n [] = number_text n
literal_text number_text n (c ∷ raw) = c ∷ raw

module _ {N : Type 0} (indent : Text) (number_text : N → Text) where
  abbrev pub indented : ℕ → Pieces N
  indented level = layout (repeat_text level indent) ∷ []

  abbrev pub newline : Pieces N
  newline = layout (10 ∷ []) ∷ []

  -- `writeln`
  unfoldable pub line : ℕ → Pieces N → Pieces N
  unfolding repeat_text
  line level ps = indented level ++ (ps ++ newline)

  -- A table, with its fields as `items` on one line and as `lines` of their own.
  unfoldable pub table_pieces : ℕ → Fields N → Pieces N → Pieces N → Pieces N
  unfolding is_compact repeat_text
  table_pieces level no_fields items lines = token (symbol lbrace) ∷ token (symbol rbrace) ∷ []
  table_pieces level fs items lines =
      if is_compact fs
      then (token (symbol lbrace) ∷ space ∷ []) ++ items ++ space ∷ token (symbol rbrace) ∷ []
      else (token (symbol lbrace) ∷ [])
        ++ newline
        ++ lines
        ++ newline
        ++ indented level
        ++ token (symbol rbrace) ∷ []

  unfoldable mutual
    unfolding precedence logical_precedence left_precedence right_precedence enclose as_base
        unary_pieces operator_piece logical_token name_list parameter_list table_pieces
        to_lua_literal repeat_text literal_text line field_end

    -- `exprToString` without the parentheses at its end; `enclose` puts them.
    pub expression : ℕ → Expr N → Pieces N
    expression level (identifier x) = token (ident x) ∷ []
    expression level (numeric_literal n raw) =
        token (number n (literal_text number_text n raw)) ∷ []
    expression level (string_literal s raw) = token (string s (to_lua_literal 34 s)) ∷ []
    expression level (boolean_literal b) = token (keyword (if b then k_true else k_false)) ∷ []
    expression level nil_literal = token (keyword k_nil) ∷ []
    expression level vararg_literal = token (symbol dot_dot_dot) ∷ []
    expression level (marked vararg_literal) =
        token (symbol lparen) ∷ token (symbol dot_dot_dot) ∷ token (symbol rparen) ∷ []
    expression level (marked e) = expression level e
    expression level (unary o e) = unary_pieces o ++ enclose (precedence e) 70 (expression level e)
    expression level (binary o l r) =
        enclose (precedence l) (left_precedence o) (expression level l)
        ++ (space ∷ operator_piece o ∷ space ∷ [])
        ++ enclose (precedence r) (right_precedence o) (expression level r)
    expression level (logical o l r) =
        enclose (precedence l) (10 * logical_precedence o) (expression level l)
        ++ (space ∷ token (logical_token o) ∷ space ∷ [])
        ++ enclose (precedence r) (suc (10 * logical_precedence o)) (expression level r)
    expression level (call b es) =
        as_base b (expression level b)
        ++ (token (symbol lparen) ∷ [])
        ++ expressions level es
        ++ token (symbol rparen) ∷ []
    expression level (method_call b x es) =
        as_base b (expression level b)
        ++ (token (symbol colon) ∷ token (ident x) ∷ token (symbol lparen) ∷ [])
        ++ expressions level es
        ++ token (symbol rparen) ∷ []
    expression level (member b x) =
        as_base b (expression level b) ++ token (symbol dot) ∷ token (ident x) ∷ []
    expression level (index b e) =
        as_base b (expression level b)
        ++ (token (symbol lbracket) ∷ [])
        ++ expression level e
        ++ token (symbol rbracket) ∷ []
    expression level (function_expression xs variadic body) =
        (token (keyword k_function) ∷ token (symbol lparen) ∷ [])
        ++ parameter_list xs variadic
        ++ (token (symbol rparen) ∷ [])
        ++ newline
        ++ block (suc level) body
        ++ indented level
        ++ token (keyword k_end) ∷ []
    expression level (table fs) = table_pieces level fs (compact level fs) (fields level fs)

    -- `map(a => this.exprToString(a)).join(', ')`
    pub expressions : ℕ → Exprs N → Pieces N
    expressions level nothing = []
    expressions level (item e es) = expression level e ++ more_expressions level es

    pub more_expressions : ℕ → Exprs N → Pieces N
    more_expressions level nothing = []
    more_expressions level (item e es) =
        comma_space ++ expression level e ++ more_expressions level es

    -- `items.join(', ')`
    pub compact : ℕ → Fields N → Pieces N
    compact level (value_field e no_fields) = expression level e
    compact level (value_field e fs) = expression level e ++ comma_space ++ compact level fs
    compact level _ = []

    -- `fieldsStr`
    pub fields : ℕ → Fields N → Pieces N
    fields level no_fields = []
    fields level (key_field k e fs) =
        indented (suc level)
        ++ (token (symbol lbracket) ∷ [])
        ++ expression level k
        ++ (token (symbol rbracket) ∷ [])
        ++ equals_sign
        ++ expression level e
        ++ field_end fs (fields level fs)
    fields level (name_field x e fs) =
        indented (suc level)
        ++ (token (ident x) ∷ [])
        ++ equals_sign
        ++ expression level e
        ++ field_end fs (fields level fs)
    fields level (value_field e fs) =
        indented (suc level) ++ expression level e ++ field_end fs (fields level fs)

    -- `generateBlock`
    pub block : ℕ → Block N → Pieces N
    block level done = []
    block level (statement s b) = write level s ++ block level b

    -- `if`, or else `elseif`, with the clause, and those that follow.
    pub clauses : ℕ → Keyword → Clauses N → Pieces N
    clauses level k no_clauses = []
    clauses level k (clause c b cs) =
        line level (word k ++ expression level c ++ space ∷ token (keyword k_then) ∷ [])
        ++ block (suc level) b
        ++ clauses level k_elseif cs

    pub otherwise : ℕ → Else N → Pieces N
    otherwise level no_else = []
    otherwise level (else_body done) = []
    otherwise level (else_body b) = line level (token (keyword k_else) ∷ []) ++ block (suc level) b

    pub stride : ℕ → Step N → Pieces N
    stride level no_step = []
    stride level (step e) = comma_space ++ expression level e

    -- `generateNode`
    pub write : ℕ → Statement N → Pieces N
    write level (local_statement xs nothing) = line level (word k_local ++ name_list xs)
    write level (local_statement xs es) =
        line level (word k_local ++ name_list xs ++ equals_sign ++ expressions level es)
    write level (assignment ts es) =
        line level (expressions level ts ++ equals_sign ++ expressions level es)
    write level (local_function x xs variadic b) =
        line level (
          word k_local
          ++ word k_function
          ++ (token (ident x) ∷ token (symbol lparen) ∷ [])
          ++ parameter_list xs variadic
          ++ token (symbol rparen) ∷ [])
        ++ block (suc level) b
        ++ line level (token (keyword k_end) ∷ [])
    write level (function_declaration name xs variadic b is_method) =
        line level (
          word k_function
          ++ expression level name
          ++ (token (symbol lparen) ∷ [])
          ++ parameter_list xs variadic
          ++ token (symbol rparen) ∷ [])
        ++ block (suc level) b
        ++ line level (token (keyword k_end) ∷ [])
    write level (call_statement e) = line level (expression level e)
    write level (if_statement cs e) =
        clauses level k_if cs ++ otherwise level e ++ line level (token (keyword k_end) ∷ [])
    write level (while_statement c b) =
        line level (word k_while ++ expression level c ++ space ∷ token (keyword k_do) ∷ [])
        ++ block (suc level) b
        ++ line level (token (keyword k_end) ∷ [])
    write level (repeat_statement c b) =
        line level (token (keyword k_repeat) ∷ [])
        ++ block (suc level) b
        ++ line level (word k_until ++ expression level c)
    write level (numeric_for x first last by b) =
        line level (
          word k_for
          ++ (token (ident x) ∷ [])
          ++ equals_sign
          ++ expression level first
          ++ comma_space
          ++ expression level last
          ++ stride level by
          ++ space ∷ token (keyword k_do) ∷ [])
        ++ block (suc level) b
        ++ line level (token (keyword k_end) ∷ [])
    write level (generic_for xs es b) =
        line level (
          word k_for
          ++ name_list xs
          ++ (space ∷ word k_in)
          ++ expressions level es
          ++ space ∷ token (keyword k_do) ∷ [])
        ++ block (suc level) b
        ++ line level (token (keyword k_end) ∷ [])
    write level (do_statement b) =
        line level (token (keyword k_do) ∷ [])
        ++ block (suc level) b
        ++ line level (token (keyword k_end) ∷ [])
    write level (return_statement nothing) = line level (token (keyword k_return) ∷ [])
    write level (return_statement es) = line level (word k_return ++ expressions level es)
    write level break_statement = line level (token (keyword k_break) ∷ [])
    write level continue_statement = line level (token (keyword k_continue) ∷ [])
    write level empty_statement = []

-- `trimEnd`
unfoldable pub trim_end : Text → Text
unfolding is_space
trim_end [] = []
trim_end (c ∷ cs) = elim (trim_end cs) [
  | [] ↦ if is_space c then [] else c ∷ []
  | d ∷ ds ↦ c ∷ d ∷ ds
]

-- `generate` on a chunk.
unfoldable pub generate : {N : Type 0} → Text → (N → Text) → Block N → Text
unfolding block trim_end render
generate indent number_text b = trim_end (render (block indent number_text 0 b)) ++ 10 ∷ []
