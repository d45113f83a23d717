-- ===== src/Evaluator/Meaning.antt =====
-- What a Lua expression does, for packages/core/src/evaluator/constant-evaluator.js: it gives a list of
-- values, a program state is carried along, and `none` is an error or a run that does not end.
use valax_wearedevs_deobfusc.Prelude.{
  String, Bool, true, false, not, ◌&&◌, ◌||◌, ite, text_discrete, Option, none, some, List, [], ◌∷◌,
  length, if◌then◌else◌,
}
use valax_wearedevs_deobfusc.Bytes.Defs.{Bytes, equals, concat}
use valax_wearedevs_deobfusc.Evaluator.Syntax.{
  Numbers, UnaryOp, minus, negation, len, BinaryOp, plus, difference, times, over, modulo, power,
  less, less_equal, greater, greater_equal, equal, not_equal, concatenation, LogicalOp, conj, disj,
  Expr, numeric_literal, string_literal, boolean_literal, nil_literal, table_constructor,
  function_expression, unary_expression, binary_expression, logical_expression, other, Exprs,
  none_left, child, Label, Fields, end_of_table, table_key, table_key_string, table_value,
}

pub data Value (N T F : Type 0) : Type 0 where
  nil_value : Value N T F
  boolean_value : Bool → Value N T F
  number_value : N → Value N T F
  string_value : Bytes → Value N T F
  table_reference : T → Value N T F
  function_value : F → Value N T F

-- An operator gives one value, an expression may give several.
abbrev pub Act : Type 0 → Type 0 → Type 0 → Type 0 → Type 0
Act N T F S = S → Option (Value N T F × S)

abbrev pub Run : Type 0 → Type 0 → Type 0 → Type 0 → Type 0
Run N T F S = S → Option (List (Value N T F) × S)

-- What a table is built from. An entry by place may hold several values if it is the last.
pub data Entry (N T F : Type 0) : Type 0 where
  keyed : Value N T F → Value N T F → Entry N T F
  named : String → Value N T F → Entry N T F
  listed : List (Value N T F) → Entry N T F

-- The rest of Lua: tables and functions, the nodes of other types, and what an operator does to
-- values that it has no meaning of its own for (metamethods, coercions, errors).
pub record Rest (N T F S : Type 0) : Type 0 where
  pub make_table : List (Entry N T F) → T
  pub make_function : List String → List (Run N T F S) → F
  pub run_node : Label → List (Run N T F S) → Run N T F S
  pub unary_event : UnaryOp → Value N T F → Act N T F S
  pub binary_event : BinaryOp → Value N T F → Value N T F → Act N T F S

-- Calls and `...` give several values, unless they stand in parentheses.
unfoldable pub yields_many : Label → Bool
unfolding text_discrete
yields_many l =
    not l.in_parens
    && (ite (text_discrete l.kind "CallExpression") true false
        || (ite (text_discrete l.kind "MethodCallExpression") true false
            || ite (text_discrete l.kind "VarargLiteral") true false))

module _ {N T F : Type 0} where
  unfoldable pub is_true : Value N T F → Bool
  is_true nil_value = false
  is_true (boolean_value b) = b
  is_true _ = true

unfoldable pub bind : {S A B : Type 0} → Option (A × S) → (A → S → Option (B × S)) → Option (B × S)
bind none k = none
bind (some (a, s)) k = k a s

module _ {N T F : Type 0} where
  -- Several values where one is wanted: the first, or nil.
  unfoldable pub first : List (Value N T F) → Value N T F
  first [] = nil_value
  first (v ∷ vs) = v

-- A field of a table, with what its expressions do.
pub data FieldRun (N T F S : Type 0) : Type 0 where
  by_key : Run N T F S → Run N T F S → FieldRun N T F S
  by_name : String → Run N T F S → FieldRun N T F S
  by_place : Run N T F S → FieldRun N T F S

module _ {N T F S : Type 0} where
  unfoldable pub value_of : Option (List (Value N T F) × S) → Option (Value N T F × S)
  unfolding first
  value_of none = none
  value_of (some (vs, s)) = some (first vs, s)

  unfoldable pub alone : Option (Value N T F × S) → Option (List (Value N T F) × S)
  alone none = none
  alone (some (v, s)) = some (v ∷ [], s)

  unfoldable pub run_fields : List (FieldRun N T F S) → S → Option (List (Entry N T F) × S)
  unfolding bind value_of
  run_fields [] s = some ([], s)
  run_fields (by_key k r ∷ fs) s = bind (value_of (k s)) λ v s1.
      bind (value_of (r s1)) λ w s2. bind (run_fields fs s2) λ es s3. some (keyed v w ∷ es, s3)
  run_fields (by_name x r ∷ fs) s =
      bind (value_of (r s)) λ w s1. bind (run_fields fs s1) λ es s2. some (named x w ∷ es, s2)
  run_fields (by_place r ∷ []) s = bind (r s) λ vs s1. some (listed vs ∷ [], s1)
  run_fields (by_place r ∷ f ∷ fs) s =
      bind (value_of (r s))
        λ w s1. bind (run_fields (f ∷ fs) s1) λ es s2. some (listed (w ∷ []) ∷ es, s2)

module _ {N T F : Type 0} (num : Numbers N) where
  -- Equality without metamethods. `none` is two tables, or two functions.
  unfoldable pub raw_equal : Value N T F → Value N T F → Option Bool
  unfolding equals
  raw_equal nil_value nil_value = some true
  raw_equal (boolean_value a) (boolean_value b) = some (if a then b else not b)
  raw_equal (number_value a) (number_value b) = some (num.same a b)
  raw_equal (string_value a) (string_value b) = some (equals a b)
  raw_equal (table_reference a) (table_reference b) = none
  raw_equal (function_value a) (function_value b) = none
  raw_equal _ _ = some false

  unfoldable pub lua_numbers : BinaryOp → N → N → Option (Value N T F)
  lua_numbers plus a b = some (number_value (num.add a b))
  lua_numbers difference a b = some (number_value (num.sub a b))
  lua_numbers times a b = some (number_value (num.mul a b))
  lua_numbers over a b = some (number_value (num.div a b))
  lua_numbers modulo a b = some (number_value (num.sub a (num.mul (num.floor (num.div a b)) b)))
  lua_numbers power a b = some (number_value (num.pow a b))
  lua_numbers less a b = some (boolean_value (num.lt a b))
  lua_numbers less_equal a b = some (boolean_value (num.le a b))
  lua_numbers greater a b = some (boolean_value (num.lt b a))
  lua_numbers greater_equal a b = some (boolean_value (num.le b a))
  lua_numbers _ a b = none

  -- The operator's own meaning on two values.
  unfoldable pub lua_values : BinaryOp → Value N T F → Value N T F → Option (Value N T F)
  unfolding raw_equal lua_numbers concat
  lua_values equal v w = elim (raw_equal v w) [ none ↦ none | some b ↦ some (boolean_value b) ]
  lua_values not_equal v w = elim (raw_equal v w) [
    | none ↦ none
    | some b ↦ some (boolean_value (not b))
  ]
  lua_values concatenation (string_value a) (string_value b) = some (string_value (concat a b))
  lua_values o (number_value a) (number_value b) = lua_numbers o a b
  lua_values _ v w = none

  -- A table takes neither nil nor a number that is not itself as a key.
  unfoldable pub keys_allowed : List (Entry N T F) → Bool
  keys_allowed [] = true
  keys_allowed (keyed nil_value w ∷ es) = false
  keys_allowed (keyed (number_value n) w ∷ es) = num.same n n && keys_allowed es
  keys_allowed (e ∷ es) = keys_allowed es

module _ {N T F S : Type 0} (num : Numbers N) (lua : Rest N T F S) where
  unfoldable pub lua_binary : BinaryOp → Value N T F → Value N T F → Act N T F S
  unfolding lua_values
  lua_binary o v w s = elim (lua_values num o v w) [
    | none ↦ lua.binary_event o v w s
    | some u ↦ some (u, s)
  ]

  unfoldable pub lua_unary : UnaryOp → Value N T F → Act N T F S
  unfolding is_true
  lua_unary minus (number_value n) s = some (number_value (num.negate n), s)
  lua_unary negation v s = some (boolean_value (not (is_true v)), s)
  lua_unary len (string_value b) s = some (number_value (num.of_count (length b)), s)
  lua_unary o v s = lua.unary_event o v s

  unfoldable pub run_unary : UnaryOp → Run N T F S → Run N T F S
  unfolding bind lua_unary value_of alone
  run_unary o r s = alone (bind (value_of (r s)) (lua_unary o))

  unfoldable pub run_binary : BinaryOp → Run N T F S → Run N T F S → Run N T F S
  unfolding bind lua_binary value_of alone
  run_binary o r q s =
      alone (bind (value_of (r s)) λ v s'. bind (value_of (q s')) λ w s''. lua_binary o v w s'')

  unfoldable pub run_logical : LogicalOp → Run N T F S → Run N T F S → Run N T F S
  unfolding bind is_true value_of alone
  run_logical conj r q s =
      alone (bind (value_of (r s)) λ v s'. if is_true v then value_of (q s') else some (v, s'))
  run_logical disj r q s =
      alone (bind (value_of (r s)) λ v s'. if is_true v then some (v, s') else value_of (q s'))

  unfoldable pub run_table : List (FieldRun N T F S) → Run N T F S
  unfolding run_fields bind alone keys_allowed
  run_table fs s = alone (
      bind (run_fields fs s) λ es s'.
        if keys_allowed num es then some (table_reference (lua.make_table es), s') else none)

  -- Only some nodes give several values.
  unfoldable pub run_other : Label → Run N T F S → Run N T F S
  unfolding yields_many value_of alone
  run_other l r s = if yields_many l then r s else alone (value_of (r s))

  unfoldable mutual
    unfolding run_unary run_binary run_logical run_table run_other

    pub meaning : Expr N → Run N T F S
    meaning (numeric_literal n raw) = λ s. some (number_value n ∷ [], s)
    meaning (string_literal b) = λ s. some (string_value b ∷ [], s)
    meaning (boolean_literal b) = λ s. some (boolean_value b ∷ [], s)
    meaning nil_literal = λ s. some (nil_value ∷ [], s)
    meaning (table_constructor fields) = run_table (field_meanings fields)
    meaning (function_expression ps body) =
        λ s. some (function_value (lua.make_function ps (meanings body)) ∷ [], s)
    meaning (unary_expression o a) = run_unary o (meaning a)
    meaning (binary_expression o l r) = run_binary o (meaning l) (meaning r)
    meaning (logical_expression o l r) = run_logical o (meaning l) (meaning r)
    meaning (other l es) = run_other l (lua.run_node l (meanings es))

    pub meanings : Exprs N → List (Run N T F S)
    meanings none_left = []
    meanings (child e es) = meaning e ∷ meanings es

    pub field_meanings : Fields N → List (FieldRun N T F S)
    field_meanings end_of_table = []
    field_meanings (table_key k e fs) = by_key (meaning k) (meaning e) ∷ field_meanings fs
    field_meanings (table_key_string k e fs) = by_name k (meaning e) ∷ field_meanings fs
    field_meanings (table_value e fs) = by_place (meaning e) ∷ field_meanings fs
