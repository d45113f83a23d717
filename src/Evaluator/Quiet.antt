-- ===== src/Evaluator/Quiet.antt =====
-- packages/core/src/evaluator/constant-evaluator.js: what may be folded away, since it does nothing,
-- and what gives one value.
use valax_wearedevs_deobfusc.Prelude.{
  ◌≡◌, refl, Bool, true, false, not, ◌∙◌, ◌&&◌, Option, none, some, Bool-cases, List, [], ◌∷◌,
  arith, inl, inr,
}
use valax_wearedevs_deobfusc.Evaluator.Syntax.{
  Numbers, Expr, numeric_literal, string_literal, boolean_literal, nil_literal, table_constructor,
  function_expression, unary_expression, binary_expression, logical_expression, other, conj, disj,
  Fields, end_of_table, table_key, table_key_string, table_value,
}
use valax_wearedevs_deobfusc.Evaluator.Fold.{is_statically_truthy}
use valax_wearedevs_deobfusc.Evaluator.Meaning.{
  Value, nil_value, boolean_value, number_value, string_value, table_reference, function_value,
  Rest, is_true, bind, first, value_of, alone, run_fields, run_table, run_other, yields_many, Entry,
  keyed, named, listed, keys_allowed, meaning, field_meanings,
}

module _ {N : Type 0} where
  -- A literal of a number, a text, a truth value or nil.
  unfoldable pub is_plain : Expr N → Bool
  is_plain (numeric_literal n raw) = true
  is_plain (string_literal s) = true
  is_plain (boolean_literal b) = true
  is_plain nil_literal = true
  is_plain _ = false

  -- All but calls and `...`.
  unfoldable pub yields_one : Expr N → Bool
  unfolding yields_many
  yields_one (other l es) = not (yields_many l)
  yields_one _ = true

module _ {N : Type 0} (num : Numbers N) where
  -- A literal that a table takes as a key.
  unfoldable pub is_key : Expr N → Bool
  is_key (numeric_literal n raw) = num.same n n
  is_key (string_literal s) = true
  is_key (boolean_literal b) = true
  is_key _ = false

  unfoldable pub all_plain : Fields N → Bool
  unfolding is_plain is_key
  all_plain end_of_table = true
  all_plain (table_key k e fs) = is_key k && (is_plain e && all_plain fs)
  all_plain (table_key_string k e fs) = is_plain e && all_plain fs
  all_plain (table_value e fs) = is_plain e && all_plain fs

  -- If the node builds a table, it builds it from literals.
  unfoldable pub is_quiet : Expr N → Bool
  unfolding all_plain
  is_quiet (table_constructor fields) = all_plain fields
  is_quiet _ = true

  -- What a node folds away is quiet: the operand of a unary, the left side of a logical operator. What
  -- a logical operator leaves over gives one value.
  unfoldable pub drops_quietly : Expr N → Bool
  unfolding is_quiet yields_one
  drops_quietly (unary_expression o a) = is_quiet a
  drops_quietly (logical_expression o l r) = is_quiet l && yields_one r
  drops_quietly _ = true

module _ {N T F S : Type 0} where
  alone-value_of-alone : (x : Option (Value N T F × S)) → alone (value_of (alone x)) ≡ alone x
  unfolding alone value_of first
  alone-value_of-alone none = refl
  alone-value_of-alone (some (v, s)) = refl

  alone-value_of-twice :
      (x : Option (List (Value N T F) × S))
      → alone (value_of (alone (value_of x))) ≡ alone (value_of x)
  alone-value_of-twice x = alone-value_of-alone (value_of x)

module _ {N T F S : Type 0} (num : Numbers N) (lua : Rest N T F S) where
  pub yields_one_lem :
      (e : Expr N)
      → yields_one e ≡ true
      → (s : S) → alone (value_of (meaning num lua e s)) ≡ meaning num lua e s
  unfolding yields_one meaning alone value_of first
  yields_one_lem (numeric_literal n raw) h s = refl
  yields_one_lem (string_literal b) h s = refl
  yields_one_lem (boolean_literal b) h s = refl
  yields_one_lem nil_literal h s = refl
  yields_one_lem (table_constructor fields) h s = alone-value_of-alone _
  yields_one_lem (function_expression ps body) h s = refl
  yields_one_lem (unary_expression o a) h s = alone-value_of-alone _
  yields_one_lem (binary_expression o l r) h s = alone-value_of-alone _
  yields_one_lem (logical_expression conj l r) h s = alone-value_of-alone _
  yields_one_lem (logical_expression disj l r) h s = alone-value_of-alone _
  yields_one_lem (other l es) h s = elim (Bool-cases (yields_many l)) [
    | inl y ↦ absurd (ground (arith, y, h))
    | inr n ↦ rw (run_other, n) (alone-value_of-twice _)
  ]

  plain_value :
      (e : Expr N)
      → is_plain e ≡ true
      → (v : Value N T F) × ((s : S) → meaning num lua e s ≡ some (v ∷ [], s))
  unfolding is_plain meaning
  plain_value (numeric_literal n raw) h = (number_value n, λ s. refl)
  plain_value (string_literal b) h = (string_value b, λ s. refl)
  plain_value (boolean_literal b) h = (boolean_value b, λ s. refl)
  plain_value nil_literal h = (nil_value, λ s. refl)
  plain_value (table_constructor fields) h = absurd (cc h)
  plain_value (function_expression ps body) h = absurd (cc h)
  plain_value (unary_expression o a) h = absurd (cc h)
  plain_value (binary_expression o l r) h = absurd (cc h)
  plain_value (logical_expression o l r) h = absurd (cc h)
  plain_value (other k es) h = absurd (cc h)

  key_value :
      (e : Expr N)
      → is_key num e ≡ true
      → (v : Value N T F) × (((s : S) → meaning num lua e s ≡ some (v ∷ [], s))
          × ((w : Value N T F) (es : List (Entry N T F))
              → keys_allowed num (keyed v w ∷ es) ≡ keys_allowed num es))
  unfolding is_key meaning keys_allowed
  key_value (numeric_literal n raw) h = (number_value n, (λ s. refl, λ w es. ground (arith, h)))
  key_value (string_literal b) h = (string_value b, (λ s. refl, λ w es. refl))
  key_value (boolean_literal b) h = (boolean_value b, (λ s. refl, λ w es. refl))
  key_value nil_literal h = absurd (cc h)
  key_value (table_constructor fields) h = absurd (cc h)
  key_value (function_expression ps body) h = absurd (cc h)
  key_value (unary_expression o a) h = absurd (cc h)
  key_value (binary_expression o l r) h = absurd (cc h)
  key_value (logical_expression o l r) h = absurd (cc h)
  key_value (other k es) h = absurd (cc h)

  -- What a table of literals is built from.
  Built : Fields N → Type 0
  Built fs =
      (es : List (Entry N T F)) × (((s : S)
          → run_fields (field_meanings num lua fs) s ≡ some (es, s))
        × (keys_allowed num es ≡ true))

  by_place-Built :
      (e : Expr N) (fs : Fields N) → is_plain e ≡ true → Built fs → Built (table_value e fs)
  unfolding meaning keys_allowed Built run_fields value_of first
  by_place-Built e end_of_table h b =
      let (v, m) = plain_value e h in
      (listed (v ∷ []) ∷ [], (λ s. rw (m s, run_fields, bind) refl, refl))
  by_place-Built e (table_value d fs) h (es, (r, k)) =
      let (v, m) = plain_value e h in
      (listed (v ∷ []) ∷ es, (λ s. rw (m s, run_fields, value_of, bind, r s, bind) refl, k))
  by_place-Built e (table_key j d fs) h (es, (r, k)) =
      let (v, m) = plain_value e h in
      (listed (v ∷ []) ∷ es, (λ s. rw (m s, run_fields, value_of, bind, r s, bind) refl, k))
  by_place-Built e (table_key_string j d fs) h (es, (r, k)) =
      let (v, m) = plain_value e h in
      (listed (v ∷ []) ∷ es, (λ s. rw (m s, run_fields, value_of, bind, r s, bind) refl, k))

  plain_run : (fs : Fields N) → all_plain num fs ≡ true → Built fs
  unfolding all_plain meaning Built run_fields value_of first keys_allowed
  plain_run end_of_table h = ([], (λ s. refl, refl))
  plain_run (table_key j e fs) h =
      let (a, (m, g)) = key_value j (ground arith) in
      let (v, n) = plain_value e (ground arith) in
      let (es, (r, k)) = plain_run fs (ground arith) in
      (
        keyed a v ∷ es,
        (
          λ s. rw (m s, run_fields, value_of, bind, n s, value_of, bind, r s, bind) refl,
          g v es ∙ k,
        ),
      )
  plain_run (table_key_string j e fs) h =
      let (v, n) = plain_value e (ground arith) in
      let (es, (r, k)) = plain_run fs (ground arith) in
      (named j v ∷ es, (λ s. rw (n s, run_fields, value_of, bind, r s, bind) refl, k))
  plain_run (table_value e fs) h = by_place-Built e fs (ground arith) (plain_run fs (ground arith))

  pub table_run :
      (fs : Fields N)
      → all_plain num fs ≡ true
      → (t : T) × ((s : S)
          → meaning num lua (table_constructor fs) s ≡ some (table_reference t ∷ [], s))
  unfolding meaning Built alone
  table_run fs h =
      let (es, (r, k)) = plain_run fs h in
      (lua.make_table es, λ s. rw (run_table, r s, bind, k) refl)

  -- A node whose truth is known runs to a value of that truth, and changes nothing.
  pub truthy_run :
      (e : Expr N) (t : Bool)
      → is_quiet num e ≡ true
      → is_statically_truthy e ≡ some t
      → (v : Value N T F) × ((is_true v ≡ t) × ((s : S) → meaning num lua e s ≡ some (v ∷ [], s)))
  unfolding is_statically_truthy is_quiet meaning
  truthy_run (numeric_literal n raw) t q h = (number_value n, (ground arith, λ s. refl))
  truthy_run (string_literal b) t q h = (string_value b, (ground arith, λ s. refl))
  truthy_run (boolean_literal b) t q h = (boolean_value b, (ground arith, λ s. refl))
  truthy_run nil_literal t q h = (nil_value, (ground arith, λ s. refl))
  truthy_run (function_expression ps body) t q h = (function_value _, (ground arith, λ s. refl))
  truthy_run (table_constructor fields) t q h =
      let (u, r) = table_run fields q in (table_reference u, (ground arith, r))
  truthy_run (unary_expression o a) t q h = absurd (cc h)
  truthy_run (binary_expression o l r) t q h = absurd (cc h)
  truthy_run (logical_expression o l r) t q h = absurd (cc h)
  truthy_run (other k es) t q h = absurd (cc h)
