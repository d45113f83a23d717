-- ===== src/Syntax/Parse/Heads.antt =====
-- packages/core/src/parser/parser.js: what the parser reads off one token.
use valax_wearedevs_deobfusc.Prelude.{ℕ, Bool, true, false, ◌||◌, ltb, ◌==◌, suc, none, some}
use valax_wearedevs_deobfusc.Evaluator.Syntax.{
  BinaryOp, difference, times, over, modulo, power, less, less_equal, greater, greater_equal, equal,
  not_equal, concatenation, conj, disj,
}
use valax_wearedevs_deobfusc.Syntax.Tokens.{
  Kind, keyword, symbol, string, k_and, k_or, Symbol, star, slash, percent, caret, eq_eq, tilde_eq,
  lt_eq, gt_eq, lt, gt, lparen, lbrace, lbracket, colon, dot, dot_dot, plus_eq, minus_eq, star_eq,
  slash_eq, concat_eq, type_name,
}
use valax_wearedevs_deobfusc.Syntax.Tree.{
  Operator, op, named, Expr, marked, binary, logical, call, method_call,
}
use valax_wearedevs_deobfusc.Syntax.Result.{Result, ok, type_error}

-- What the loop of `parsePrefixExp` finds behind a base.
pub data Suffix : Type 0 where
  index_suffix member_suffix method_suffix call_suffix no_suffix : Suffix

module _ {N : Type 0} where
  unfoldable pub binary_precedence : Kind N → ℕ
  binary_precedence (keyword k_or) = 1
  binary_precedence (keyword k_and) = 2
  binary_precedence (symbol lt) = 3
  binary_precedence (symbol gt) = 3
  binary_precedence (symbol lt_eq) = 3
  binary_precedence (symbol gt_eq) = 3
  binary_precedence (symbol tilde_eq) = 3
  binary_precedence (symbol eq_eq) = 3
  binary_precedence (symbol dot_dot) = 4
  binary_precedence (symbol Symbol.plus) = 5
  binary_precedence (symbol Symbol.minus) = 5
  binary_precedence (symbol star) = 6
  binary_precedence (symbol slash) = 6
  binary_precedence (symbol percent) = 6
  binary_precedence (symbol caret) = 8
  binary_precedence _ = 0

  unfoldable pub is_right_associative : Kind N → Bool
  is_right_associative (symbol dot_dot) = true
  is_right_associative (symbol caret) = true
  is_right_associative _ = false

  -- `prec === 0 || prec < minPrec`
  unfoldable pub stops : ℕ → Kind N → Bool
  unfolding binary_precedence
  stops m k = binary_precedence k == 0 || ltb (binary_precedence k) m

  unfoldable pub next_precedence : Kind N → ℕ
  unfolding binary_precedence is_right_associative
  next_precedence k = elim (is_right_associative k) [
    | true ↦ binary_precedence k
    | false ↦ suc (binary_precedence k)
  ]

  -- `type.replace('=', '')` on the type of a token; the texts that are operators of binary
  -- expressions are those operators.
  unfoldable pub operator_of : Kind N → Result Operator
  unfolding type_name
  operator_of (symbol Symbol.plus) = ok (op BinaryOp.plus)
  operator_of (symbol Symbol.minus) = ok (op difference)
  operator_of (symbol star) = ok (op times)
  operator_of (symbol slash) = ok (op over)
  operator_of (symbol percent) = ok (op modulo)
  operator_of (symbol caret) = ok (op power)
  operator_of (symbol lt) = ok (op less)
  operator_of (symbol gt) = ok (op greater)
  operator_of (symbol dot_dot) = ok (op concatenation)
  operator_of (symbol plus_eq) = ok (op BinaryOp.plus)
  operator_of (symbol minus_eq) = ok (op difference)
  operator_of (symbol star_eq) = ok (op times)
  operator_of (symbol slash_eq) = ok (op over)
  operator_of (symbol concat_eq) = ok (op concatenation)
  operator_of (symbol lt_eq) = ok (op less)
  operator_of (symbol gt_eq) = ok (op greater)
  operator_of (symbol eq_eq) = ok (named "=")
  operator_of (symbol tilde_eq) = ok (named "~")
  operator_of k = elim (type_name k) [ none ↦ type_error | some t ↦ ok (named t) ]

  -- `opToken.value` as the operator of a node; a token of no precedence gets none.
  unfoldable pub join : Kind N → Expr N → Expr N → Expr N
  join (keyword k_or) l r = logical disj l r
  join (keyword k_and) l r = logical conj l r
  join (symbol lt) l r = binary (op less) l r
  join (symbol gt) l r = binary (op greater) l r
  join (symbol lt_eq) l r = binary (op less_equal) l r
  join (symbol gt_eq) l r = binary (op greater_equal) l r
  join (symbol tilde_eq) l r = binary (op not_equal) l r
  join (symbol eq_eq) l r = binary (op equal) l r
  join (symbol dot_dot) l r = binary (op concatenation) l r
  join (symbol Symbol.plus) l r = binary (op BinaryOp.plus) l r
  join (symbol Symbol.minus) l r = binary (op difference) l r
  join (symbol star) l r = binary (op times) l r
  join (symbol slash) l r = binary (op over) l r
  join (symbol percent) l r = binary (op modulo) l r
  join (symbol caret) l r = binary (op power) l r
  join _ l r = l

  unfoldable pub suffix_of : Kind N → Suffix
  suffix_of (symbol lbracket) = index_suffix
  suffix_of (symbol dot) = member_suffix
  suffix_of (symbol colon) = method_suffix
  suffix_of (symbol lparen) = call_suffix
  suffix_of (string s raw) = call_suffix
  suffix_of (symbol lbrace) = call_suffix
  suffix_of _ = no_suffix

  -- `inParens = true`
  unfoldable pub mark : Expr N → Expr N
  mark (marked e) = marked e
  mark e = marked e

  -- The test on `first.type` for a statement that is a call.
  unfoldable pub is_call : Expr N → Bool
  is_call (call b args) = true
  is_call (method_call b x args) = true
  is_call (marked e) = is_call e
  is_call _ = false
