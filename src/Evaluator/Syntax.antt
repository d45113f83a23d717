-- ===== src/Evaluator/Syntax.antt =====
-- The nodes of packages/core/src/ast/nodes.js as far as constant-evaluator.js tells them apart, and
-- the numbers that it computes with.
use valax_wearedevs_deobfusc.Prelude.{ℕ, String, Bool, List}
use valax_wearedevs_deobfusc.Bytes.Defs.{Bytes}

-- JavaScript's numbers, which are doubles as Lua's are. The constants are those of the source.
pub record Numbers (N : Type 0) : Type 0 where
  pub add : N → N → N
  pub sub : N → N → N
  pub mul : N → N → N
  pub div : N → N → N
  pub pow : N → N → N
  pub floor : N → N
  pub negate : N → N
  pub abs : N → N
  pub lt : N → N → Bool
  pub le : N → N → Bool
  pub same : N → N → Bool
  pub is_finite : N → Bool
  pub of_count : ℕ → N
  pub zero_number : N
  pub exponent_limit : N
  pub base_limit : N
  pub text_of : N → String

pub data UnaryOp : Type 0 where
  minus negation len : UnaryOp

pub data BinaryOp : Type 0 where
  plus difference times over modulo power : BinaryOp
  less less_equal greater greater_equal equal not_equal concatenation : BinaryOp

pub data LogicalOp : Type 0 where
  conj disj : LogicalOp

-- What of a node of any other type is no child: its type, its names, parameters and flags as texts, and
-- the parser's mark of parentheses.
pub record Label : Type 0 where
  pub kind : String
  pub details : List String
  pub in_parens : Bool

-- A node of any other type, with its children in order, is `other`. A text literal holds the bytes of
-- its `ByteString`, a function its parameters. The fields of a table are `TableKey`, `TableKeyString`
-- and `TableValue`, the nodes of the types that only a table holds.
mutual
  pub data Expr (N : Type 0) : Type 0 where
    numeric_literal : N → String → Expr N
    string_literal : Bytes → Expr N
    boolean_literal : Bool → Expr N
    nil_literal : Expr N
    table_constructor : Fields N → Expr N
    function_expression : List String → Exprs N → Expr N
    unary_expression : UnaryOp → Expr N → Expr N
    binary_expression : BinaryOp → Expr N → Expr N → Expr N
    logical_expression : LogicalOp → Expr N → Expr N → Expr N
    other : Label → Exprs N → Expr N

  pub data Exprs (N : Type 0) : Type 0 where
    none_left : Exprs N
    child : Expr N → Exprs N → Exprs N

  pub data Fields (N : Type 0) : Type 0 where
    end_of_table : Fields N
    table_key : Expr N → Expr N → Fields N → Fields N
    table_key_string : String → Expr N → Fields N → Fields N
    table_value : Expr N → Fields N → Fields N
