-- ===== src/Syntax/RoundTrip/Tables.antt =====
-- packages/core/src: table constructors are read back, if their fields are.
use valax_wearedevs_deobfusc.Prelude.{
  ℕ, ◌≡◌, refl, ap, arith, Bool, true, false, [], ◌∷◌, ◌++◌, append_assoc, append-nil,
}
use valax_wearedevs_deobfusc.Bytes.Defs.{Text}
use valax_wearedevs_deobfusc.Syntax.Tokens.{symbol, comma, type_name, lbrace, rbrace}
use valax_wearedevs_deobfusc.Syntax.Tree.{
  Expr, table, Fields, no_fields, key_field, name_field, value_field,
}
use valax_wearedevs_deobfusc.Syntax.Result.{ok, Kinds, peek, is}
use valax_wearedevs_deobfusc.Syntax.Parse.Heads.{binary_precedence, suffix_of}
use valax_wearedevs_deobfusc.Syntax.Parse.Expressions.{names_field}
use valax_wearedevs_deobfusc.Syntax.Generate.Pieces.{
  token, Pieces, kinds, kinds-append, space, layout, repeat_text, is_array,
}
use valax_wearedevs_deobfusc.Syntax.Generate.Write.{
  expression, compact, fields, field_end, is_compact, table_pieces,
}
use valax_wearedevs_deobfusc.Syntax.RoundTrip.Form.{form, field_forms}
use valax_wearedevs_deobfusc.Syntax.RoundTrip.Steps.{Sub, Sub-Simple}
use valax_wearedevs_deobfusc.Syntax.RoundTrip.Operands.{Reads}
use valax_wearedevs_deobfusc.Prelude.{if◌then◌else◌}
use valax_wearedevs_deobfusc.Syntax.RoundTrip.Nodes.{Ends, Ends-rbracket, Reads-whole}
use valax_wearedevs_deobfusc.Syntax.RoundTrip.Fields.{
  FieldsAt, FieldsAfter, FieldsAt-rbrace, FieldsAfter-rbrace, FieldsAfter-comma, FieldsAt-value,
  FieldsAt-name, FieldsAt-key, Simple-table,
}

module _ {N : Type 0} (indent : Text) (number_text : N → Text) (level : ℕ) where
  pub record ReadsFields (fs : Fields N) : Type 0 where
    pub reads_fields :
        (rest : Kinds N)
        → FieldsAt
            (kinds (fields indent number_text level fs) ++ (symbol rbrace ∷ rest))
            (ok (field_forms number_text fs, symbol rbrace ∷ rest))
    pub reads_after :
        (rest : Kinds N)
        → FieldsAfter
            (kinds (field_end fs (fields indent number_text level fs)) ++ (symbol rbrace ∷ rest))
            (ok (field_forms number_text fs, symbol rbrace ∷ rest))

  pub ReadsFields-none : ReadsFields no_fields
  unfolding fields field_end kinds field_forms
  ReadsFields-none = record {
    reads_fields = λ rest. FieldsAt-rbrace;
    reads_after = λ rest. FieldsAfter-rbrace;
  }

  pub Ends-fields :
      (fs : Fields N) (ps : Pieces N) (rest : Kinds N)
      → Ends (kinds (field_end fs ps) ++ (symbol rbrace ∷ rest))
        × (is "=" (peek (kinds (field_end fs ps) ++ (symbol rbrace ∷ rest))) ≡ false)
  unfolding field_end kinds binary_precedence suffix_of is type_name
  Ends-fields no_fields ps rest = (record { no_operator = refl; no_suffix_follows = refl }, refl)
  Ends-fields (key_field k e fs) ps rest =
      (record { no_operator = refl; no_suffix_follows = refl }, refl)
  Ends-fields (name_field x e fs) ps rest =
      (record { no_operator = refl; no_suffix_follows = refl }, refl)
  Ends-fields (value_field e fs) ps rest =
      (record { no_operator = refl; no_suffix_follows = refl }, refl)

  field_read :
      (e : Expr N) (fs : Fields N) (rest : Kinds N)
      → Reads indent number_text level e
      → Sub 0
          (kinds (expression indent number_text level e)
            ++ (kinds (field_end fs (fields indent number_text level fs))
                ++ (symbol rbrace ∷ rest)))
          (ok (
            form number_text e,
            kinds (field_end fs (fields indent number_text level fs)) ++ (symbol rbrace ∷ rest),
          ))
  field_read e fs rest h = Reads-whole indent number_text level e _ h (Ends-fields fs _ rest).0

  value_read :
      (e : Expr N) (fs : Fields N) (rest : Kinds N)
      → Reads indent number_text level e
      → ReadsFields fs
      → FieldsAt
          (kinds (fields indent number_text level (value_field e fs)) ++ (symbol rbrace ∷ rest))
          (ok (field_forms number_text (value_field e fs), symbol rbrace ∷ rest))
  unfolding fields kinds field_forms
  value_read e fs rest h t =
      let s =
        h.starts
          (kinds (field_end fs (fields indent number_text level fs)) ++ (symbol rbrace ∷ rest)) in
      rw (kinds-append, append_assoc)
        (FieldsAt-value s.no_end s.no_key (s.no_name (Ends-fields fs _ rest).1)
          (field_read e fs rest h) (t.reads_after rest))

  pub ReadsFields-value :
      (e : Expr N) (fs : Fields N)
      → Reads indent number_text level e
      → ReadsFields fs
      → ReadsFields (value_field e fs)
  unfolding field_end kinds
  ReadsFields-value e fs h t = record {
    reads_fields = λ rest. value_read e fs rest h t;
    reads_after = λ rest. FieldsAfter-comma (value_read e fs rest h t);
  }

  name_read :
      (x : Text) (e : Expr N) (fs : Fields N) (rest : Kinds N)
      → Reads indent number_text level e
      → ReadsFields fs
      → FieldsAt
          (kinds (fields indent number_text level (name_field x e fs)) ++ (symbol rbrace ∷ rest))
          (ok (field_forms number_text (name_field x e fs), symbol rbrace ∷ rest))
  unfolding fields kinds field_forms
  name_read x e fs rest h t =
      rw (kinds-append, append_assoc) (FieldsAt-name (field_read e fs rest h) (t.reads_after rest))

  pub ReadsFields-name :
      (x : Text) (e : Expr N) (fs : Fields N)
      → Reads indent number_text level e
      → ReadsFields fs
      → ReadsFields (name_field x e fs)
  unfolding field_end kinds
  ReadsFields-name x e fs h t = record {
    reads_fields = λ rest. name_read x e fs rest h t;
    reads_after = λ rest. FieldsAfter-comma (name_read x e fs rest h t);
  }

  key_read :
      (k e : Expr N) (fs : Fields N) (rest : Kinds N)
      → Reads indent number_text level k
      → Reads indent number_text level e
      → ReadsFields fs
      → FieldsAt
          (kinds (fields indent number_text level (key_field k e fs)) ++ (symbol rbrace ∷ rest))
          (ok (field_forms number_text (key_field k e fs), symbol rbrace ∷ rest))
  unfolding fields kinds field_forms
  key_read k e fs rest a h t =
      simp (kinds-append, append_assoc)
        (FieldsAt-key (Reads-whole indent number_text level k _ a Ends-rbracket)
          (field_read e fs rest h) (t.reads_after rest))

  pub ReadsFields-key :
      (k e : Expr N) (fs : Fields N)
      → Reads indent number_text level k
      → Reads indent number_text level e
      → ReadsFields fs
      → ReadsFields (key_field k e fs)
  unfolding field_end kinds
  ReadsFields-key k e fs a h t = record {
    reads_fields = λ rest. key_read k e fs rest a h t;
    reads_after = λ rest. FieldsAfter-comma (key_read k e fs rest a h t);
  }

  kinds-joined :
      (ps qs qs' : Pieces N)
      → kinds qs ≡ kinds qs'
      → kinds (ps ++ (token (symbol comma) ∷ space ∷ []) ++ qs)
        ≡ kinds (ps ++ token (symbol comma) ∷ layout (10 ∷ []) ∷ qs')
  unfolding kinds
  kinds-joined ps qs qs' h =
      simp (append_assoc, kinds-append) (ap (λ l. kinds ps ++ (symbol comma ∷ l)) h)

  -- An array on one line has the same tokens.
  kinds-compact :
      (fs : Fields N)
      → is_array fs ≡ true
      → kinds (compact indent number_text level fs) ≡ kinds (fields indent number_text level fs)
  unfolding is_array compact kinds field_end
  kinds-compact no_fields h = refl
  kinds-compact (value_field e no_fields) h = rw (append-nil) refl
  kinds-compact (value_field e (value_field d fs)) h =
      kinds-joined (expression indent number_text level e)
        (compact indent number_text level (value_field d fs))
        (fields indent number_text level (value_field d fs)) (kinds-compact (value_field d fs) h)
  kinds-compact (value_field e (name_field x d fs)) h = absurd (cc h)
  kinds-compact (value_field e (key_field k d fs)) h = absurd (cc h)
  kinds-compact (name_field x e fs) h = absurd (cc h)
  kinds-compact (key_field k e fs) h = absurd (cc h)

  kinds-braces :
      (ps qs : Pieces N) (b : Bool) (rest : Kinds N)
      → (b ≡ true → kinds ps ≡ kinds qs)
      → kinds (
            if b
            then (token (symbol lbrace) ∷ space ∷ []) ++ ps ++ space ∷ token (symbol rbrace) ∷ []
            else (token (symbol lbrace) ∷ [])
              ++ (layout (10 ∷ []) ∷ [])
              ++ qs
              ++ (layout (10 ∷ []) ∷ [])
              ++ (layout (repeat_text level indent) ∷ [])
              ++ token (symbol rbrace) ∷ [])
          ++ rest
        ≡ symbol lbrace ∷ (kinds qs ++ (symbol rbrace ∷ rest))
  unfolding kinds
  kinds-braces ps qs true rest h = rw (← h refl) (simp (append_assoc, kinds-append) refl)
  kinds-braces ps qs false rest h = simp (append_assoc, kinds-append) refl

  is_array-of_compact : (fs : Fields N) → is_compact fs ≡ true → is_array fs ≡ true
  unfolding is_compact
  is_array-of_compact fs h = ground arith

  kinds-table :
      (fs : Fields N) (rest : Kinds N)
      → kinds (
            table_pieces indent number_text level fs
              (compact indent number_text level fs)
              (fields indent number_text level fs))
          ++ rest
        ≡ symbol lbrace ∷ (kinds (fields indent number_text level fs) ++ (symbol rbrace ∷ rest))
  unfolding table_pieces
  kinds-table no_fields rest = unfold kinds fields in refl
  kinds-table (key_field k e fs) rest =
      kinds-braces _ _ _ rest
        (λ h. kinds-compact (key_field k e fs) (is_array-of_compact (key_field k e fs) h))
  kinds-table (name_field x e fs) rest =
      kinds-braces _ _ _ rest
        (λ h. kinds-compact (name_field x e fs) (is_array-of_compact (name_field x e fs) h))
  kinds-table (value_field e fs) rest =
      kinds-braces _ _ _ rest
        (λ h. kinds-compact (value_field e fs) (is_array-of_compact (value_field e fs) h))

  pub Reads-table : (fs : Fields N) → ReadsFields fs → Reads indent number_text level (table fs)
  unfolding expression form names_field is type_name
  Reads-table fs h = record {
    starts = λ rest. rw (kinds-table) (record {
      no_paren = refl;
      no_end = refl;
      no_return = refl;
      no_key = refl;
      no_name = λ e. refl;
    });
    reads =
        λ m rest r a b s k. rw (kinds-table) (Sub-Simple (Simple-table (h.reads_fields rest)) k);
  }
