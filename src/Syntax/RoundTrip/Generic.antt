-- ===== src/Syntax/RoundTrip/Generic.antt =====
-- packages/core/src: `for` loops over a list are read back, if their parts are.
use valax_wearedevs_deobfusc.Prelude.{
  ℕ, suc, ◌≡◌, refl, ap, ◌∙◌, Bool, true, false, List, [], ◌∷◌, ◌++◌, append_assoc,
}
use valax_wearedevs_deobfusc.Bytes.Defs.{Text}
use valax_wearedevs_deobfusc.Syntax.Tokens.{keyword, ident, type_name, k_for, k_in, k_do, k_end}
use valax_wearedevs_deobfusc.Syntax.Tree.{Exprs, Block, generic_for}
use valax_wearedevs_deobfusc.Syntax.Result.{
  ok, bind, Kinds, peek, advance, is, consume, consume_name,
}
use valax_wearedevs_deobfusc.Syntax.Parse.Heads.{binary_precedence, suffix_of}
use valax_wearedevs_deobfusc.Syntax.Parse.Expressions.{parse_list}
use valax_wearedevs_deobfusc.Syntax.Generate.Pieces.{
  token, Pieces, kinds, kinds-append, space, name_list,
}
use valax_wearedevs_deobfusc.Syntax.Generate.Write.{expressions, block, write, word, line}
use valax_wearedevs_deobfusc.Syntax.RoundTrip.Form.{forms, statement_form}
use valax_wearedevs_deobfusc.Syntax.RoundTrip.Printable.{IsSome}
use valax_wearedevs_deobfusc.Syntax.Parse.Statements.{
  parse_block, parse_statement, parse_numeric_for, parse_generic_for, parse_for_statement,
}
use valax_wearedevs_deobfusc.Syntax.RoundTrip.Enough.{Enough, at_once, same_run, and_then}
use valax_wearedevs_deobfusc.Syntax.RoundTrip.Nodes.{EndsList}
use valax_wearedevs_deobfusc.Syntax.RoundTrip.Functions.{ReadsBlock, parameters_after}
use valax_wearedevs_deobfusc.Syntax.RoundTrip.Follow.{begins_for, ends_end}
use valax_wearedevs_deobfusc.Syntax.RoundTrip.Loops.{ReadsStatement, ReadsStatement-of}
use valax_wearedevs_deobfusc.Syntax.RoundTrip.Calls.{ReadsList}
use valax_wearedevs_deobfusc.Syntax.RoundTrip.For.{names_read, kinds-name_list}

module _ {N : Type 0} (indent : Text) (number_text : N → Text) (level : ℕ) where
  kinds-generic :
      (ps qs bs : Pieces N) (rest : Kinds N)
      → kinds (
            line indent number_text level
              (word k_for ++ ps ++ (space ∷ word k_in) ++ qs ++ space ∷ token (keyword k_do) ∷ [])
            ++ bs
            ++ line indent number_text level (token (keyword k_end) ∷ []))
          ++ rest
        ≡ keyword k_for
          ∷ (kinds ps
              ++ (keyword k_in
                  ∷ (kinds qs ++ (keyword k_do ∷ (kinds bs ++ (keyword k_end ∷ rest))))))
  unfolding kinds line
  kinds-generic ps qs bs rest = simp (append_assoc, kinds-append) refl

  EndsList-do : (rest : Kinds N) → EndsList (keyword k_do ∷ rest)
  unfolding binary_precedence suffix_of is type_name
  EndsList-do rest = record {
    ends = record { no_operator = refl; no_suffix_follows = refl };
    no_comma = refl;
  }

  generic_read :
      (x : Text) (xs : List Text) (es : Exprs N) (b : Block N) (rest : Kinds N)
      → IsSome es
      → ReadsList indent number_text level es
      → ReadsBlock indent number_text (suc level) b
      → Enough
          (λ g f. parse_generic_for (parse_block g) f x (
            parameters_after xs false
            ++ (keyword k_in
                ∷ (kinds (expressions indent number_text level es)
                    ++ (keyword k_do
                        ∷ (kinds (block indent number_text (suc level) b)
                            ++ (keyword k_end ∷ rest)))))))
          (ok (statement_form number_text (generic_for (x ∷ xs) es b), rest))
  unfolding parse_generic_for statement_form consume is type_name
  generic_read x xs es b rest some h1 h2 =
      and_then
        (λ (xs, ks1) g f. bind (consume "IN" "Expected '=' or 'in' in for loop" ks1) λ ks2.
          bind (parse_list (parse_block g) f ks2) λ (es, ks3).
            bind (consume "DO" "Expected 'do' in generic for loop" ks3) λ ks4.
              bind (parse_block g ks4) λ (b, ks5).
                bind (consume "END" "Expected 'end' to close generic for loop" ks5)
                  λ rest. ok (generic_for (x ∷ xs) es b, rest))
        (names_read "Expected variable name after comma" xs _ refl)
        (and_then
          (λ (es, ks3) g f. bind (consume "DO" "Expected 'do' in generic for loop" ks3) λ ks4.
            bind (parse_block g ks4) λ (b, ks5).
              bind (consume "END" "Expected 'end' to close generic for loop" ks5)
                λ rest. ok (generic_for (x ∷ xs) es b, rest))
          (h1.reads_items _ some (EndsList-do _)).enough
          (and_then
            (λ (b, ks5) g f.
              bind (consume "END" "Expected 'end' to close generic for loop" ks5)
                λ rest. ok (generic_for (x ∷ xs) (forms number_text es) b, rest))
            (h2.reads_block _ ends_end) (at_once λ g f. refl)))

  is_for_in :
      (xs : List Text) (ks : Kinds N)
      → is "=" (peek (parameters_after xs false ++ (keyword k_in ∷ ks))) ≡ false
  unfolding parameters_after is type_name
  is_for_in [] ks = refl
  is_for_in (x ∷ xs) ks = refl

  not_numeric :
      (x : Text) (ks : Kinds N) (g f : ℕ)
      → is "=" (peek ks) ≡ false
      → parse_statement (parse_block g) f (keyword k_for ∷ ident x ∷ ks)
        ≡ parse_generic_for (parse_block g) f x ks
  unfolding parse_statement parse_for_statement consume_name
  not_numeric x ks g f h =
      ap
        (λ (b : Bool). elim b [
          | true ↦ parse_numeric_for (parse_block g) f x (advance ks)
          | false ↦ parse_generic_for (parse_block g) f x ks
        ])
        h

  pub Reads-generic_for :
      (x : Text) (xs : List Text) (es : Exprs N) (b : Block N)
      → IsSome es
      → ReadsList indent number_text level es
      → ReadsBlock indent number_text (suc level) b
      → ReadsStatement indent number_text level (generic_for (x ∷ xs) es b)
  unfolding write parse_statement parse_for_statement consume_name
  Reads-generic_for x xs es b some h1 h2 =
      ReadsStatement-of indent number_text level (generic_for (x ∷ xs) es b)
        (λ rest.
          keyword k_for
          ∷ ident x
          ∷ (parameters_after xs false
              ++ (keyword k_in
                  ∷ (kinds (expressions indent number_text level es)
                      ++ (keyword k_do
                          ∷ (kinds (block indent number_text (suc level) b)
                              ++ (keyword k_end ∷ rest)))))))
        (λ rest.
          kinds-generic (name_list (x ∷ xs)) (expressions indent number_text level es)
            (block indent number_text (suc level) b) rest
          ∙ rw (kinds-name_list x xs) refl)
        (λ rest. begins_for)
        (λ rest k.
          same_run _ (λ g f. not_numeric x _ g f (is_for_in xs _))
            (generic_read x xs es b rest some h1 h2))
