-- ===== src/Syntax/RoundTrip/Printable.antt =====
-- packages/core/src/generator/lua-generator.js: the trees that the generator writes as a program that the
-- parser reads as they are.
use valax_wearedevs_deobfusc.Prelude.{true, false, [], ◌∷◌, ◌≡◌}
use valax_wearedevs_deobfusc.Syntax.Tree.{
  op, named, Expr, identifier, numeric_literal, string_literal, boolean_literal, nil_literal,
  vararg_literal, marked, unary, binary, logical, call, method_call, member, index,
  function_expression, table, Exprs, nothing, item, Fields, no_fields, key_field, name_field,
  value_field, Statement, local_statement, assignment, local_function, function_declaration,
  call_statement, if_statement, while_statement, repeat_statement, numeric_for, generic_for,
  do_statement, return_statement, break_statement, continue_statement, empty_statement, Step,
  no_step, step, Block, done, statement, Clauses, no_clauses, clause, Else, no_else, else_body,
}
use valax_wearedevs_deobfusc.Syntax.Parse.Heads.{is_call}

module _ {N : Type 0} where
  -- What can stand before a suffix: no literal and no table, whose parentheses the generator leaves out.
  unfoldable pub IsBase : Expr N → Type 0
  IsBase (numeric_literal n raw) = ⊥
  IsBase (string_literal s raw) = ⊥
  IsBase (boolean_literal b) = ⊥
  IsBase nil_literal = ⊥
  IsBase vararg_literal = ⊥
  IsBase (table fs) = ⊥
  IsBase (marked vararg_literal) = Unit
  IsBase (marked e) = IsBase e
  IsBase _ = Unit

  -- What the left end of a statement is: a name, so that no statement before takes it for arguments.
  unfoldable pub StartsPlain : Expr N → Type 0
  StartsPlain (identifier x) = Unit
  StartsPlain (call b es) = StartsPlain b
  StartsPlain (method_call b x es) = StartsPlain b
  StartsPlain (member b x) = StartsPlain b
  StartsPlain (index b e) = StartsPlain b
  StartsPlain (marked e) = StartsPlain e
  StartsPlain _ = ⊥

  unfoldable pub AllStartPlain : Exprs N → Type 0
  unfolding StartsPlain
  AllStartPlain nothing = Unit
  AllStartPlain (item e es) = StartsPlain e × AllStartPlain es

  -- `a.b.c`
  unfoldable pub IsPath : Expr N → Type 0
  IsPath (identifier x) = Unit
  IsPath (member e x) = IsPath e
  IsPath _ = ⊥

  unfoldable pub IsSome : Exprs N → Type 0
  IsSome nothing = ⊥
  IsSome (item e es) = Unit

  unfoldable pub IsLast : Block N → Type 0
  IsLast done = Unit
  IsLast (statement empty_statement b) = IsLast b
  IsLast _ = ⊥

  unfoldable mutual
    unfolding IsBase StartsPlain AllStartPlain IsPath IsSome IsLast is_call

    pub IsPrintable : Expr N → Type 0
    IsPrintable (identifier x) = Unit
    IsPrintable (numeric_literal n raw) = Unit
    IsPrintable (string_literal s raw) = Unit
    IsPrintable (boolean_literal b) = Unit
    IsPrintable nil_literal = Unit
    IsPrintable vararg_literal = Unit
    IsPrintable (marked e) = IsPrintable e
    IsPrintable (unary o e) = IsPrintable e
    IsPrintable (binary (op o) l r) = IsPrintable l × IsPrintable r
    IsPrintable (binary (named t) l r) = ⊥
    IsPrintable (logical o l r) = IsPrintable l × IsPrintable r
    IsPrintable (call b es) = IsBase b × (IsPrintable b × ArePrintable es)
    IsPrintable (method_call b x es) = IsBase b × (IsPrintable b × ArePrintable es)
    IsPrintable (member b x) = IsBase b × IsPrintable b
    IsPrintable (index b e) = IsBase b × (IsPrintable b × IsPrintable e)
    IsPrintable (function_expression xs variadic b) = IsPrintableBlock b
    IsPrintable (table fs) = ArePrintableFields fs

    pub ArePrintable : Exprs N → Type 0
    ArePrintable nothing = Unit
    ArePrintable (item e es) = IsPrintable e × ArePrintable es

    pub ArePrintableFields : Fields N → Type 0
    ArePrintableFields no_fields = Unit
    ArePrintableFields (key_field k e fs) = IsPrintable k × (IsPrintable e × ArePrintableFields fs)
    ArePrintableFields (name_field x e fs) = IsPrintable e × ArePrintableFields fs
    ArePrintableFields (value_field e fs) = IsPrintable e × ArePrintableFields fs

    -- Each list has an item where the grammar wants one. The generator writes no `:` for the name of
    -- a method.
    pub IsPrintableStatement : Statement N → Type 0
    IsPrintableStatement (local_statement [] es) = ⊥
    IsPrintableStatement (local_statement (x ∷ xs) es) = ArePrintable es
    IsPrintableStatement (assignment ts es) =
        (IsSome ts × IsSome es) × (AllStartPlain ts × (ArePrintable ts × ArePrintable es))
    IsPrintableStatement (local_function x xs variadic b) = IsPrintableBlock b
    IsPrintableStatement (function_declaration name xs variadic b true) = ⊥
    IsPrintableStatement (function_declaration name xs variadic b false) =
        IsPath name × IsPrintableBlock b
    IsPrintableStatement (call_statement e) = (is_call e ≡ true) × (StartsPlain e × IsPrintable e)
    IsPrintableStatement (if_statement no_clauses e) = ⊥
    IsPrintableStatement (if_statement (clause c b cs) e) =
        (IsPrintable c × (IsPrintableBlock b × ArePrintableClauses cs)) × IsPrintableElse e
    IsPrintableStatement (while_statement c b) = IsPrintable c × IsPrintableBlock b
    IsPrintableStatement (repeat_statement c b) = IsPrintable c × IsPrintableBlock b
    IsPrintableStatement (numeric_for x first last by b) =
        (IsPrintable first × IsPrintable last) × (IsPrintableStep by × IsPrintableBlock b)
    IsPrintableStatement (generic_for [] es b) = ⊥
    IsPrintableStatement (generic_for (x ∷ xs) es b) =
        IsSome es × (ArePrintable es × IsPrintableBlock b)
    IsPrintableStatement (do_statement b) = IsPrintableBlock b
    IsPrintableStatement (return_statement es) = ArePrintable es
    IsPrintableStatement break_statement = Unit
    IsPrintableStatement continue_statement = Unit
    IsPrintableStatement empty_statement = Unit

    pub IsPrintableStep : Step N → Type 0
    IsPrintableStep no_step = Unit
    IsPrintableStep (step e) = IsPrintable e

    -- `return` stands last.
    pub IsPrintableBlock : Block N → Type 0
    IsPrintableBlock done = Unit
    IsPrintableBlock (statement (return_statement es) b) = ArePrintable es × IsLast b
    IsPrintableBlock (statement s b) = IsPrintableStatement s × IsPrintableBlock b

    pub ArePrintableClauses : Clauses N → Type 0
    ArePrintableClauses no_clauses = Unit
    ArePrintableClauses (clause c b cs) =
        IsPrintable c × (IsPrintableBlock b × ArePrintableClauses cs)

    pub IsPrintableElse : Else N → Type 0
    IsPrintableElse no_else = Unit
    IsPrintableElse (else_body b) = IsPrintableBlock b
