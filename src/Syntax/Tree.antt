-- ===== src/Syntax/Tree.antt =====
-- packages/core/src/ast/nodes.js: the nodes that the parser builds.
use valax_wearedevs_deobfusc.Prelude.{String, Bool, List}
use valax_wearedevs_deobfusc.Bytes.Defs.{Bytes, Text}
use valax_wearedevs_deobfusc.Evaluator.Syntax.{UnaryOp, BinaryOp, LogicalOp}

-- A binary operator. A compound assignment takes its operator from the token's type, and where several
-- targets stand before it from a token of any type: that type's name is an operator then.
pub data Operator : Type 0 where
  op : BinaryOp → Operator
  named : String → Operator

-- `marked e` is the node `e` with `inParens` set.
mutual
  pub data Expr (N : Type 0) : Type 0 where
    identifier : Text → Expr N
    numeric_literal : N → Text → Expr N
    string_literal : Bytes → Text → Expr N
    boolean_literal : Bool → Expr N
    nil_literal : Expr N
    vararg_literal : Expr N
    marked : Expr N → Expr N
    unary : UnaryOp → Expr N → Expr N
    binary : Operator → Expr N → Expr N → Expr N
    logical : LogicalOp → Expr N → Expr N → Expr N
    call : Expr N → Exprs N → Expr N
    method_call : Expr N → Text → Exprs N → Expr N
    member : Expr N → Text → Expr N
    index : Expr N → Expr N → Expr N
    function_expression : List Text → Bool → Block N → Expr N
    table : Fields N → Expr N

  pub data Exprs (N : Type 0) : Type 0 where
    nothing : Exprs N
    item : Expr N → Exprs N → Exprs N

  pub data Fields (N : Type 0) : Type 0 where
    no_fields : Fields N
    key_field : Expr N → Expr N → Fields N → Fields N
    name_field : Text → Expr N → Fields N → Fields N
    value_field : Expr N → Fields N → Fields N

  pub data Statement (N : Type 0) : Type 0 where
    local_statement : List Text → Exprs N → Statement N
    assignment : Exprs N → Exprs N → Statement N
    local_function : Text → List Text → Bool → Block N → Statement N
    function_declaration : Expr N → List Text → Bool → Block N → Bool → Statement N
    call_statement : Expr N → Statement N
    if_statement : Clauses N → Else N → Statement N
    while_statement : Expr N → Block N → Statement N
    repeat_statement : Expr N → Block N → Statement N
    numeric_for : Text → Expr N → Expr N → Step N → Block N → Statement N
    generic_for : List Text → Exprs N → Block N → Statement N
    do_statement : Block N → Statement N
    return_statement : Exprs N → Statement N
    break_statement continue_statement empty_statement : Statement N

  -- The step of a numeric `for`; `null` is none.
  pub data Step (N : Type 0) : Type 0 where
    no_step : Step N
    step : Expr N → Step N

  pub data Block (N : Type 0) : Type 0 where
    done : Block N
    statement : Statement N → Block N → Block N

  -- The conditions of an `if` with their blocks.
  pub data Clauses (N : Type 0) : Type 0 where
    no_clauses : Clauses N
    clause : Expr N → Block N → Clauses N → Clauses N

  pub data Else (N : Type 0) : Type 0 where
    no_else : Else N
    else_body : Block N → Else N
