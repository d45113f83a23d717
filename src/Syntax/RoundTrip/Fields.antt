-- ===== src/Syntax/RoundTrip/Fields.antt =====
-- packages/core/src/parser/parser.js: the fields of a table, read one by one.
use valax_wearedevs_deobfusc.Prelude.{◌≡◌, refl, false, [], ◌∷◌}
use valax_wearedevs_deobfusc.Bytes.Defs.{Text}
use valax_wearedevs_deobfusc.Syntax.Tokens.{
  symbol, ident, lbracket, rbracket, comma, type_name, lbrace, rbrace, assign,
}
use valax_wearedevs_deobfusc.Syntax.Tree.{
  Expr, table, Fields, no_fields, key_field, name_field, value_field,
}
use valax_wearedevs_deobfusc.Syntax.Result.{
  Result, ok, bind, Kinds, peek, is, is_any, consume, consume_name,
}
use valax_wearedevs_deobfusc.Syntax.Parse.Expressions.{
  names_field, parse_sub, parse_simple, parse_table, parse_fields, parse_field, more_fields,
}
use valax_wearedevs_deobfusc.Syntax.RoundTrip.Steps.{Sub, Simple}
use valax_wearedevs_deobfusc.Syntax.Parse.Statements.{parse_block}
use valax_wearedevs_deobfusc.Syntax.RoundTrip.Enough.{Enough, at_once, after, and_then}

module _ {N : Type 0} where
  pub record FieldsAt (ks : Kinds N) (r : Result (Fields N × Kinds N)) : Type 0 where
    pub enough : Enough (λ g f. parse_fields (parse_block g) f ks) r

  pub record FieldsAfter (ks : Kinds N) (r : Result (Fields N × Kinds N)) : Type 0 where
    pub enough : Enough (λ g f. more_fields (parse_block g) f ks) r

  pub FieldsAt-rbrace :
      {ks : Kinds N} → FieldsAt (symbol rbrace ∷ ks) (ok (no_fields, symbol rbrace ∷ ks))
  unfolding parse_fields is type_name
  FieldsAt-rbrace = record { enough = at_once (λ g f. refl) }

  pub FieldsAfter-rbrace :
      {ks : Kinds N} → FieldsAfter (symbol rbrace ∷ ks) (ok (no_fields, symbol rbrace ∷ ks))
  unfolding more_fields is type_name
  FieldsAfter-rbrace = record { enough = at_once (λ g f. refl) }

  pub FieldsAfter-comma :
      {ks : Kinds N} {r : Result (Fields N × Kinds N)}
      → FieldsAt ks r
      → FieldsAfter (symbol comma ∷ ks) r
  unfolding more_fields is type_name
  FieldsAfter-comma h = record { enough = after _ (λ g f. refl) h.enough }

  -- One field, once the round has begun, and a wrapper for what its expression leads to.
  add_field :
      (make : Expr N → Fields N → Fields N) {e : Expr N} {fs : Fields N} {ks rest rest' : Kinds N}
      → Sub 0 ks (ok (e, rest))
      → FieldsAfter rest (ok (fs, rest'))
      → Enough {A = Fields N × Kinds N}
          (λ g f.
            bind (parse_sub (parse_block g) f 0 ks) λ (e, ks1).
              bind (more_fields (parse_block g) f ks1) λ (fs, rest). ok (make e fs, rest))
          (ok (make e fs, rest'))
  add_field make {e} {fs} {ks} {rest} {rest'} h k =
      and_then
        (λ (e, ks1) g f.
          bind (more_fields (parse_block g) f ks1) λ (fs, rest). ok (make e fs, rest))
        h.enough (and_then (λ (fs, rest) g f. ok (make e fs, rest)) k.enough (at_once λ g f. refl))

  pub FieldsAt-value :
      {e : Expr N} {fs : Fields N} {ks rest rest' : Kinds N}
      → is_any ("}" ∷ "EOF" ∷ []) (peek ks) ≡ false
      → is "[" (peek ks) ≡ false
      → names_field ks ≡ false
      → Sub 0 ks (ok (e, rest))
      → FieldsAfter rest (ok (fs, rest'))
      → FieldsAt ks (ok (value_field e fs, rest'))
  unfolding parse_fields
  FieldsAt-value {e} {fs} {ks} a b c h k = record {
    enough =
        after (λ g f. parse_field (parse_block g) f ks) (λ g f. rw (parse_fields, a) refl)
          (after _ (λ g f. rw (parse_field, b, c) refl) (add_field value_field h k));
  }

  pub FieldsAt-name :
      {x : Text} {e : Expr N} {fs : Fields N} {ks rest rest' : Kinds N}
      → Sub 0 ks (ok (e, rest))
      → FieldsAfter rest (ok (fs, rest'))
      → FieldsAt (ident x ∷ symbol assign ∷ ks) (ok (name_field x e fs, rest'))
  unfolding parse_fields is type_name names_field consume consume_name
  FieldsAt-name {x} {ks = ks} h k = record {
    enough =
        after (λ g f. parse_field (parse_block g) f (ident x ∷ symbol assign ∷ ks)) (λ g f. refl)
          (after _ (λ g f. refl) (add_field (name_field x) h k));
  }

  pub FieldsAt-key :
      {key e : Expr N} {fs : Fields N} {ks ks' rest rest' : Kinds N}
      → Sub 0 ks (ok (key, symbol rbracket ∷ symbol assign ∷ ks'))
      → Sub 0 ks' (ok (e, rest))
      → FieldsAfter rest (ok (fs, rest'))
      → FieldsAt (symbol lbracket ∷ ks) (ok (key_field key e fs, rest'))
  unfolding parse_fields is type_name names_field consume
  FieldsAt-key {key} {ks = ks} a h k = record {
    enough =
        after (λ g f. parse_field (parse_block g) f (symbol lbracket ∷ ks)) (λ g f. refl)
          (after _ (λ g f. refl)
            (and_then
              (λ (key, ks1) g f. bind (consume "]" "Expected ']' after table key" ks1) λ ks2.
                bind (consume "=" "Expected '=' after table key" ks2) λ ks3.
                  bind (parse_sub (parse_block g) f 0 ks3) λ (e, ks4).
                    bind (more_fields (parse_block g) f ks4)
                      λ (fs, rest). ok (key_field key e fs, rest))
              a.enough (add_field (key_field key) h k)));
  }

  pub Simple-table :
      {fs : Fields N} {ks rest : Kinds N}
      → FieldsAt ks (ok (fs, symbol rbrace ∷ rest))
      → Simple (symbol lbrace ∷ ks) (ok (table fs, rest))
  unfolding parse_simple is type_name consume
  Simple-table {fs} {ks} h = record {
    enough =
        after (λ g f. parse_table (parse_block g) f (symbol lbrace ∷ ks)) (λ g f. refl)
          (after _ (λ g f. refl)
            (and_then
              (λ (fs, ks2) g f.
                bind (consume "}" "Expected '}' to close table constructor" ks2)
                  λ ks3. ok (table fs, ks3))
              h.enough (at_once λ g f. refl)));
  }
