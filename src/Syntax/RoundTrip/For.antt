-- ===== src/Syntax/RoundTrip/For.antt =====
-- packages/core/src: numeric `for` loops are read back, if their parts are.
use valax_wearedevs_deobfusc.Prelude.{
  String, ℕ, suc, ◌≡◌, refl, false, List, [], ◌∷◌, ◌++◌, append_assoc,
}
use valax_wearedevs_deobfusc.Bytes.Defs.{Text}
use valax_wearedevs_deobfusc.Syntax.Tokens.{
  keyword, symbol, ident, comma, type_name, k_for, k_do, assign, k_end,
}
use valax_wearedevs_deobfusc.Syntax.Tree.{Expr, Block, numeric_for, Step, no_step, step}
use valax_wearedevs_deobfusc.Syntax.Result.{ok, bind, Kinds, peek, is, consume, consume_name}
use valax_wearedevs_deobfusc.Syntax.Parse.Heads.{binary_precedence, suffix_of}
use valax_wearedevs_deobfusc.Syntax.Parse.Expressions.{parse_sub}
use valax_wearedevs_deobfusc.Syntax.Generate.Pieces.{
  token, Pieces, kinds, kinds-append, space, parameter_list, name_list,
}
use valax_wearedevs_deobfusc.Syntax.Generate.Write.{
  expression, block, write, word, comma_space, equals_sign, line, stride,
}
use valax_wearedevs_deobfusc.Syntax.RoundTrip.Form.{form, statement_form, step_form}
use valax_wearedevs_deobfusc.Syntax.RoundTrip.Operands.{Reads}
use valax_wearedevs_deobfusc.Syntax.Parse.Statements.{
  parse_block, parse_statement, more_names, parse_step, parse_numeric_for, parse_for_statement,
}
use valax_wearedevs_deobfusc.Syntax.RoundTrip.Enough.{Enough, at_once, after, and_then}
use valax_wearedevs_deobfusc.Syntax.RoundTrip.Nodes.{Ends, Reads-whole}
use valax_wearedevs_deobfusc.Syntax.RoundTrip.Functions.{ReadsBlock, parameters_after, kinds-names}
use valax_wearedevs_deobfusc.Syntax.RoundTrip.Follow.{begins_for, ends_end}
use valax_wearedevs_deobfusc.Syntax.RoundTrip.Loops.{ReadsStatement, ReadsStatement-of}

module _ {N : Type 0} where
  -- The names of a list behind the first.
  pub names_read :
      (message : String) (xs : List Text) (rest : Kinds N)
      → is "," (peek rest) ≡ false
      → Enough (λ g f. more_names message f (parameters_after xs false ++ rest)) (ok (xs, rest))
  unfolding more_names parameters_after is type_name consume_name
  names_read message [] rest h = at_once (λ g f. rw (more_names, h) refl)
  names_read message (x ∷ xs) rest h =
      after _ (λ g f. refl)
        (and_then (λ (xs, rest') g f. ok (x ∷ xs, rest')) (names_read message xs rest h)
          (at_once λ g f. refl))

  pub kinds-name_list :
      (x : Text) (xs : List Text)
      → kinds {N = N} (name_list (x ∷ xs)) ≡ ident x ∷ parameters_after xs false
  unfolding parameter_list
  kinds-name_list x xs = kinds-names x xs false

module _ {N : Type 0} (indent : Text) (number_text : N → Text) (level : ℕ) where
  -- The step of a loop, in front of `do`.
  pub record ReadsStep (by : Step N) : Type 0 where
    pub step_ends :
        (rest : Kinds N)
        → Ends (kinds (stride indent number_text level by) ++ (keyword k_do ∷ rest))
    pub reads_step :
        (rest : Kinds N)
        → Enough
            (λ g f.
              parse_step
                (parse_block g)
                f
                (kinds (stride indent number_text level by) ++ (keyword k_do ∷ rest)))
            (ok (step_form number_text by, keyword k_do ∷ rest))

  pub ReadsStep-none : ReadsStep no_step
  unfolding stride kinds parse_step step_form binary_precedence suffix_of is type_name
  ReadsStep-none = record {
    step_ends = λ rest. record { no_operator = refl; no_suffix_follows = refl };
    reads_step = λ rest. at_once λ g f. refl;
  }

  pub ReadsStep-some : (e : Expr N) → Reads indent number_text level e → ReadsStep (step e)
  unfolding stride kinds parse_step step_form binary_precedence suffix_of is type_name
  ReadsStep-some e h = record {
    step_ends = λ rest. record { no_operator = refl; no_suffix_follows = refl };
    reads_step = λ rest.
        and_then (λ (e, rest) g f. ok (step e, rest))
          (Reads-whole indent number_text level e (keyword k_do ∷ rest) h
            (record { no_operator = refl; no_suffix_follows = refl })).enough
          (at_once λ g f. refl);
  }

  kinds-numeric :
      (x : Text) (ps qs ss bs : Pieces N) (rest : Kinds N)
      → kinds (
            line indent number_text level (
              word k_for
              ++ (token (ident x) ∷ [])
              ++ equals_sign
              ++ ps
              ++ comma_space
              ++ qs
              ++ ss
              ++ space ∷ token (keyword k_do) ∷ [])
            ++ bs
            ++ line indent number_text level (token (keyword k_end) ∷ []))
          ++ rest
        ≡ keyword k_for
          ∷ ident x
          ∷ symbol assign
          ∷ (kinds ps
              ++ (symbol comma
                  ∷ (kinds qs
                      ++ (kinds ss ++ (keyword k_do ∷ (kinds bs ++ (keyword k_end ∷ rest)))))))
  unfolding kinds line
  kinds-numeric x ps qs ss bs rest = simp (append_assoc, kinds-append) refl

  numeric_read :
      (x : Text) (first last : Expr N) (by : Step N) (b : Block N) (rest : Kinds N)
      → Reads indent number_text level first
      → Reads indent number_text level last
      → ReadsStep by
      → ReadsBlock indent number_text (suc level) b
      → Enough
          (λ g f. parse_numeric_for (parse_block g) f x (
            kinds (expression indent number_text level first)
            ++ (symbol comma
                ∷ (kinds (expression indent number_text level last)
                    ++ (kinds (stride indent number_text level by)
                        ++ (keyword k_do
                            ∷ (kinds (block indent number_text (suc level) b)
                                ++ (keyword k_end ∷ rest))))))))
          (ok (statement_form number_text (numeric_for x first last by b), rest))
  unfolding parse_numeric_for statement_form binary_precedence suffix_of consume is type_name
  numeric_read x first last by b rest h1 h2 h3 h4 =
      and_then
        (λ (first, ks1) g f. bind (consume "," "Expected ',' after for start expression" ks1) λ ks2.
          bind (parse_sub (parse_block g) f 0 ks2) λ (last, ks3).
            bind (parse_step (parse_block g) f ks3) λ (by, ks4).
              bind (consume "DO" "Expected 'do' in numeric for loop" ks4) λ ks5.
                bind (parse_block g ks5) λ (b, ks6).
                  bind (consume "END" "Expected 'end' to close numeric for loop" ks6)
                    λ rest. ok (numeric_for x first last by b, rest))
        (Reads-whole indent number_text level first _ h1
          (record { no_operator = refl; no_suffix_follows = refl })).enough
        (and_then
          (λ (last, ks3) g f. bind (parse_step (parse_block g) f ks3) λ (by, ks4).
            bind (consume "DO" "Expected 'do' in numeric for loop" ks4) λ ks5.
              bind (parse_block g ks5) λ (b, ks6).
                bind (consume "END" "Expected 'end' to close numeric for loop" ks6)
                  λ rest. ok (numeric_for x (form number_text first) last by b, rest))
          (Reads-whole indent number_text level last _ h2 (h3.step_ends _)).enough
          (and_then
            (λ (by, ks4) g f. bind (consume "DO" "Expected 'do' in numeric for loop" ks4) λ ks5.
              bind (parse_block g ks5) λ (b, ks6).
                bind (consume "END" "Expected 'end' to close numeric for loop" ks6) λ rest.
                  ok (numeric_for x (form number_text first) (form number_text last) by b, rest))
            (h3.reads_step _)
            (and_then
              (λ (b, ks6) g f.
                bind (consume "END" "Expected 'end' to close numeric for loop" ks6) λ rest. ok (
                  numeric_for x (form number_text first) (form number_text last)
                      (step_form number_text by) b,
                  rest,
                ))
              (h4.reads_block _ ends_end) (at_once λ g f. refl))))

  pub Reads-numeric_for :
      (x : Text) (first last : Expr N) (by : Step N) (b : Block N)
      → Reads indent number_text level first
      → Reads indent number_text level last
      → ReadsStep by
      → ReadsBlock indent number_text (suc level) b
      → ReadsStatement indent number_text level (numeric_for x first last by b)
  unfolding write parse_statement parse_for_statement consume_name is type_name
  Reads-numeric_for x first last by b h1 h2 h3 h4 =
      ReadsStatement-of indent number_text level (numeric_for x first last by b) _
        (kinds-numeric x (expression indent number_text level first)
          (expression indent number_text level last) (stride indent number_text level by)
          (block indent number_text (suc level) b))
        (λ rest. begins_for) (λ rest k. numeric_read x first last by b rest h1 h2 h3 h4)
