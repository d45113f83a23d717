-- ===== src/Syntax/RoundTrip/Locals.antt =====
-- packages/core/src: declarations of variables are read back, if their parts are.
use valax_wearedevs_deobfusc.Prelude.{
  ℕ, suc, ◌≡◌, refl, ap, ◌∙◌, Bool, true, false, List, ◌∷◌, ◌++◌, append_assoc,
}
use valax_wearedevs_deobfusc.Bytes.Defs.{Text}
use valax_wearedevs_deobfusc.Syntax.Tokens.{keyword, symbol, ident, type_name, k_local, assign}
use valax_wearedevs_deobfusc.Syntax.Tree.{Expr, Exprs, nothing, item, Statement, local_statement}
use valax_wearedevs_deobfusc.Syntax.Result.{
  Result, ok, bind, skip, Kinds, peek, advance, is, consume_name,
}
use valax_wearedevs_deobfusc.Syntax.Parse.Expressions.{parse_list}
use valax_wearedevs_deobfusc.Syntax.Generate.Pieces.{Pieces, kinds, kinds-append, name_list}
use valax_wearedevs_deobfusc.Syntax.Generate.Write.{expressions, write, word, equals_sign, line}
use valax_wearedevs_deobfusc.Syntax.RoundTrip.Form.{forms, statement_form}
use valax_wearedevs_deobfusc.Syntax.RoundTrip.Printable.{IsSome}
use valax_wearedevs_deobfusc.Syntax.Parse.Statements.{
  parse_block, parse_statement, parse_local, parse_local_variables,
}
use valax_wearedevs_deobfusc.Syntax.RoundTrip.Enough.{at_once, and_then}
use valax_wearedevs_deobfusc.Syntax.RoundTrip.Functions.{parameters_after}
use valax_wearedevs_deobfusc.Syntax.RoundTrip.Follow.{
  begins_local, Free, Free-Follows, EndsList-Free, skip-Free,
}
use valax_wearedevs_deobfusc.Syntax.RoundTrip.Loops.{ReadsStatement, ReadsStatement-of}
use valax_wearedevs_deobfusc.Syntax.RoundTrip.Calls.{ReadsList}
use valax_wearedevs_deobfusc.Syntax.RoundTrip.For.{names_read, kinds-name_list}

module _ {N : Type 0} (indent : Text) (number_text : N → Text) (level : ℕ) where
  kinds-local :
      (ps : Pieces N) (rest : Kinds N)
      → kinds (line indent number_text level (word k_local ++ ps)) ++ rest
        ≡ keyword k_local ∷ (kinds ps ++ rest)
  unfolding kinds line
  kinds-local ps rest = simp (append_assoc, kinds-append) refl

  kinds-local_init :
      (ps qs : Pieces N) (rest : Kinds N)
      → kinds (line indent number_text level (word k_local ++ ps ++ equals_sign ++ qs)) ++ rest
        ≡ keyword k_local ∷ (kinds ps ++ (symbol assign ∷ (kinds qs ++ rest)))
  unfolding kinds line
  kinds-local_init ps qs rest = simp (append_assoc, kinds-append) refl

  -- What `parseLocalVariables` does behind the names.
  abbrev behind_names : Text → List Text × Kinds N → ℕ → ℕ → Result (Statement N × Kinds N)
  behind_names x (xs, ks2) g f = elim (is "=" (peek ks2)) [
    | true ↦
        bind (parse_list (parse_block g) f (advance ks2))
          λ (es, rest). ok (local_statement (x ∷ xs) es, skip ";" rest)
    | false ↦ ok (local_statement (x ∷ xs) nothing, skip ";" ks2)
  ]

  no_init :
      (x : Text) (xs : List Text) (rest : Kinds N) (g f : ℕ)
      → Free (peek rest)
      → behind_names x (xs, rest) g f ≡ ok (local_statement (x ∷ xs) nothing, rest)
  no_init x xs rest g f h =
      ap
        (λ (b : Bool). elim b [
          | true ↦
              bind (parse_list (parse_block g) f (advance rest))
                λ (es, rest). ok (local_statement (x ∷ xs) es, skip ";" rest)
          | false ↦ ok (local_statement (x ∷ xs) nothing, skip ";" rest)
        ])
        h.no_equals
      ∙ ap (λ l. ok (local_statement (x ∷ xs) nothing, l)) (skip-Free rest h)

  Reads-local_none :
      (x : Text) (xs : List Text)
      → ReadsStatement indent number_text level (local_statement (x ∷ xs) nothing)
  unfolding write statement_form parse_statement parse_local parse_local_variables consume_name
  Reads-local_none x xs =
      ReadsStatement-of indent number_text level (local_statement (x ∷ xs) nothing)
        (λ rest. keyword k_local ∷ ident x ∷ (parameters_after xs false ++ rest))
        (λ rest. kinds-local (name_list (x ∷ xs)) rest ∙ rw (kinds-name_list x xs) refl)
        (λ rest. begins_local)
        (λ rest k.
          and_then (behind_names x)
            (names_read "Expected variable name after comma in local statement" xs rest
              (Free-Follows k).no_comma)
            (at_once λ g f. no_init x xs rest g (suc f) (Free-Follows k)))

  Reads-local_some :
      (x : Text) (xs : List Text) (e : Expr N) (es : Exprs N)
      → ReadsList indent number_text level (item e es)
      → ReadsStatement indent number_text level (local_statement (x ∷ xs) (item e es))
  unfolding write statement_form parse_statement parse_local parse_local_variables consume_name is
      type_name IsSome
  Reads-local_some x xs e es h =
      ReadsStatement-of indent number_text level (local_statement (x ∷ xs) (item e es))
        (λ rest.
          keyword k_local
          ∷ ident x
          ∷ (parameters_after xs false
              ++ (symbol assign
                  ∷ (kinds (expressions indent number_text level (item e es)) ++ rest))))
        (λ rest.
          kinds-local_init (name_list (x ∷ xs)) (expressions indent number_text level (item e es))
            rest
          ∙ rw (kinds-name_list x xs) refl)
        (λ rest. begins_local)
        (λ rest k.
          and_then (behind_names x)
            (names_read "Expected variable name after comma in local statement" xs _ refl)
            (and_then (λ (es, rest) g f. ok (local_statement (x ∷ xs) es, skip ";" rest))
              (h.reads_items rest tt (EndsList-Free rest (Free-Follows k))).enough
              (at_once λ g f.
                ap (λ l. ok (local_statement (x ∷ xs) (forms number_text (item e es)), l))
                  (skip-Free rest (Free-Follows k)))))

  pub Reads-local :
      (x : Text) (xs : List Text) (es : Exprs N)
      → ReadsList indent number_text level es
      → ReadsStatement indent number_text level (local_statement (x ∷ xs) es)
  Reads-local x xs nothing h = Reads-local_none x xs
  Reads-local x xs (item e es) h = Reads-local_some x xs e es h
