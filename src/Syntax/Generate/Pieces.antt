-- ===== src/Syntax/Generate/Pieces.antt =====
-- packages/core/src/generator/lua-generator.js: the text that the generator writes, in pieces: the
-- tokens that it means to write, and the spaces and lines between them. `render` makes the text of them,
-- which the lexer may divide otherwise.
use valax_wearedevs_deobfusc.Prelude.{
  ℕ, zero, suc, ◌*◌, String, Bool, true, false, List, [], ◌∷◌, ◌++◌, ◌≡◌, ap, refl, ltb,
  if◌then◌else◌,
}
use valax_wearedevs_deobfusc.Bytes.Defs.{Text}
use valax_wearedevs_deobfusc.Evaluator.Syntax.{
  UnaryOp, negation, len, BinaryOp, difference, times, over, modulo, power, less, less_equal,
  greater, greater_equal, equal, not_equal, concatenation, LogicalOp, conj, disj,
}
use valax_wearedevs_deobfusc.Syntax.Tokens.{
  Keyword, k_and, k_break, k_do, k_else, k_elseif, k_end, k_false, k_for, k_function, k_if, k_in,
  k_local, k_nil, k_not, k_or, k_repeat, k_return, k_then, k_true, k_until, k_while, k_continue,
  Symbol, star, slash, percent, caret, hash, eq_eq, tilde_eq, lt_eq, gt_eq, lt, gt, lparen, rparen,
  comma, dot_dot, dot_dot_dot, Kind, keyword, symbol, ident, number, string, inherited, eof,
  symbol_type,
}
use valax_wearedevs_deobfusc.Syntax.Tree.{
  Operator, op, named, Expr, marked, unary, binary, logical, function_expression, Fields, no_fields,
  value_field,
}
use Prim.Native.Char.{code}
use Prim.Native.String.{[] as end_of_text, ◌∷◌ as ◌∷ₛ◌}

-- The code units of a text in ASCII.
unfoldable pub units : String → Text
units end_of_text = []
units (c ∷ₛ s) = code c ∷ units s

unfoldable pub keyword_word : Keyword → String
keyword_word k_and = "and"
keyword_word k_break = "break"
keyword_word k_do = "do"
keyword_word k_else = "else"
keyword_word k_elseif = "elseif"
keyword_word k_end = "end"
keyword_word k_false = "false"
keyword_word k_for = "for"
keyword_word k_function = "function"
keyword_word k_if = "if"
keyword_word k_in = "in"
keyword_word k_local = "local"
keyword_word k_nil = "nil"
keyword_word k_not = "not"
keyword_word k_or = "or"
keyword_word k_repeat = "repeat"
keyword_word k_return = "return"
keyword_word k_then = "then"
keyword_word k_true = "true"
keyword_word k_until = "until"
keyword_word k_while = "while"
keyword_word k_continue = "continue"

pub data Piece (N : Type 0) : Type 0 where
  token : Kind N → Piece N
  layout : Text → Piece N

abbrev pub Pieces : Type 0 → Type 0
Pieces N = List (Piece N)

unfoldable pub operator_precedence : Operator → ℕ
operator_precedence (op BinaryOp.plus) = 5
operator_precedence (op difference) = 5
operator_precedence (op times) = 6
operator_precedence (op over) = 6
operator_precedence (op modulo) = 6
operator_precedence (op power) = 8
operator_precedence (op less) = 3
operator_precedence (op less_equal) = 3
operator_precedence (op greater) = 3
operator_precedence (op greater_equal) = 3
operator_precedence (op equal) = 3
operator_precedence (op not_equal) = 3
operator_precedence (op concatenation) = 4
operator_precedence (named t) = 0

unfoldable pub logical_precedence : LogicalOp → ℕ
logical_precedence disj = 1
logical_precedence conj = 2

unfoldable pub is_right_associative : Operator → Bool
is_right_associative (op concatenation) = true
is_right_associative (op power) = true
is_right_associative _ = false

-- The parent precedences of the operands in tenths, as `currentPrec + 0.1` is one of them.
unfoldable pub left_precedence : Operator → ℕ
unfolding is_right_associative operator_precedence
left_precedence o =
    if is_right_associative o then suc (10 * operator_precedence o) else 10 * operator_precedence o

unfoldable pub right_precedence : Operator → ℕ
unfolding is_right_associative operator_precedence
right_precedence o =
    if is_right_associative o then 10 * operator_precedence o else suc (10 * operator_precedence o)

module _ {N : Type 0} where
  unfoldable pub token_text : Kind N → Text
  unfolding units keyword_word symbol_type
  token_text (keyword k) = units (keyword_word k)
  token_text (symbol s) = units (symbol_type s)
  token_text (ident x) = x
  token_text (number n raw) = raw
  token_text (string s raw) = raw
  token_text (inherited x) = x
  token_text eof = []

  unfoldable pub render : Pieces N → Text
  unfolding token_text
  render [] = []
  render (token k ∷ ps) = token_text k ++ render ps
  render (layout t ∷ ps) = t ++ render ps

  unfoldable pub kinds : Pieces N → List (Kind N)
  kinds [] = []
  kinds (token k ∷ ps) = k ∷ kinds ps
  kinds (layout t ∷ ps) = kinds ps

  pub kinds-append : (ps qs : Pieces N) → kinds (ps ++ qs) ≡ kinds ps ++ kinds qs
  unfolding kinds
  kinds-append [] qs = refl
  kinds-append (token k ∷ ps) qs = ap (λ l. k ∷ l) (kinds-append ps qs)
  kinds-append (layout t ∷ ps) qs = kinds-append ps qs

  abbrev pub space : Piece N
  space = layout (32 ∷ [])

  unfoldable pub unary_pieces : UnaryOp → Pieces N
  unary_pieces UnaryOp.minus = token (symbol Symbol.minus) ∷ []
  unary_pieces negation = token (keyword k_not) ∷ space ∷ []
  unary_pieces len = token (symbol hash) ∷ []

  unfoldable pub binary_token : BinaryOp → Kind N
  binary_token BinaryOp.plus = symbol Symbol.plus
  binary_token difference = symbol Symbol.minus
  binary_token times = symbol star
  binary_token over = symbol slash
  binary_token modulo = symbol percent
  binary_token power = symbol caret
  binary_token less = symbol lt
  binary_token less_equal = symbol lt_eq
  binary_token greater = symbol gt
  binary_token greater_equal = symbol gt_eq
  binary_token equal = symbol eq_eq
  binary_token not_equal = symbol tilde_eq
  binary_token concatenation = symbol dot_dot

  unfoldable pub operator_piece : Operator → Piece N
  unfolding binary_token units
  operator_piece (op o) = token (binary_token o)
  operator_piece (named t) = layout (units t)

  unfoldable pub logical_token : LogicalOp → Kind N
  logical_token conj = keyword k_and
  logical_token disj = keyword k_or

  -- `getPrecedence`
  unfoldable pub precedence : Expr N → ℕ
  unfolding operator_precedence logical_precedence
  precedence (logical o l r) = logical_precedence o
  precedence (binary o l r) = operator_precedence o
  precedence (unary o e) = 7
  precedence (marked e) = precedence e
  precedence _ = 99

  -- The end of `exprToString`, on the node's precedence and its parent's in tenths.
  unfoldable pub enclose : ℕ → ℕ → Pieces N → Pieces N
  enclose current parent ps =
      if ltb (10 * current) parent
      then token (symbol lparen) ∷ (ps ++ token (symbol rparen) ∷ [])
      else ps

  -- The test on `node.base.type`, which puts a function in parentheses.
  unfoldable pub is_function : Expr N → Bool
  is_function (function_expression params variadic body) = true
  is_function (marked e) = is_function e
  is_function _ = false

  unfoldable pub parenthesised : Bool → Pieces N → Pieces N
  parenthesised true ps = token (symbol lparen) ∷ (ps ++ token (symbol rparen) ∷ [])
  parenthesised false ps = ps

  -- `baseStr`, of what `exprToString` gives without its parentheses.
  unfoldable pub as_base : Expr N → Pieces N → Pieces N
  unfolding parenthesised is_function enclose precedence
  as_base b ps = parenthesised (is_function b) (enclose (precedence b) 990 ps)

  -- `join(', ')`
  unfoldable pub name_list : List Text → Pieces N
  name_list [] = []
  name_list (x ∷ []) = token (ident x) ∷ []
  name_list (x ∷ y ∷ xs) = token (ident x) ∷ token (symbol comma) ∷ space ∷ name_list (y ∷ xs)

  -- The names and `...`, joined by `', '`.
  unfoldable pub parameter_list : List Text → Bool → Pieces N
  unfolding name_list
  parameter_list [] false = []
  parameter_list [] true = token (symbol dot_dot_dot) ∷ []
  parameter_list (x ∷ xs) false = name_list (x ∷ xs)
  parameter_list (x ∷ xs) true =
      name_list (x ∷ xs) ++ token (symbol comma) ∷ space ∷ token (symbol dot_dot_dot) ∷ []

  unfoldable pub is_array : Fields N → Bool
  is_array no_fields = true
  is_array (value_field e fs) = is_array fs
  is_array _ = false

unfoldable pub repeat_text : ℕ → Text → Text
repeat_text zero s = []
repeat_text (suc n) s = s ++ repeat_text n s
