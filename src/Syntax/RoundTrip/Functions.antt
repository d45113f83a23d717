-- ===== src/Syntax/RoundTrip/Functions.antt =====
-- packages/core/src: functions are read back, if their bodies are, and the nodes without parts.
use valax_wearedevs_deobfusc.Prelude.{ℕ, ◌≡◌, refl, ap, Bool, true, false, List, [], ◌∷◌, ◌++◌}
use valax_wearedevs_deobfusc.Bytes.Defs.{Text}
use valax_wearedevs_deobfusc.Syntax.Tokens.{
  keyword, symbol, ident, lparen, rparen, comma, dot_dot_dot, type_name, k_end,
}
use valax_wearedevs_deobfusc.Syntax.Tree.{Block}
use valax_wearedevs_deobfusc.Syntax.Result.{ok, bind, Kinds, peek, is, consume, consume_name}
use valax_wearedevs_deobfusc.Syntax.Parse.Expressions.{
  parse_function_body, parse_parameters, more_parameters,
}
use valax_wearedevs_deobfusc.Syntax.Generate.Pieces.{kinds, parameter_list, name_list}
use valax_wearedevs_deobfusc.Syntax.Generate.Write.{block}
use valax_wearedevs_deobfusc.Syntax.RoundTrip.Form.{block_form}
use valax_wearedevs_deobfusc.Syntax.Parse.Statements.{parse_block}
use valax_wearedevs_deobfusc.Syntax.RoundTrip.Enough.{Enough, at_once, after, and_then}
use valax_wearedevs_deobfusc.Syntax.RoundTrip.Follow.{BlockEnds, ends_end, Follows}

module _ {N : Type 0} where
  -- The parameters behind the first.
  unfoldable pub parameters_after : List Text → Bool → Kinds N
  parameters_after [] false = []
  parameters_after [] true = symbol comma ∷ symbol dot_dot_dot ∷ []
  parameters_after (x ∷ xs) variadic = symbol comma ∷ ident x ∷ parameters_after xs variadic

  more_read :
      (xs : List Text) (variadic : Bool) (rest : Kinds N)
      → Enough
          (λ g f. more_parameters f (parameters_after xs variadic ++ (symbol rparen ∷ rest)))
          (ok ((xs, variadic), symbol rparen ∷ rest))
  unfolding more_parameters is type_name consume_name parameters_after
  more_read [] false rest = at_once (λ g f. refl)
  more_read [] true rest = at_once (λ g f. refl)
  more_read (x ∷ xs) variadic rest =
      after _ (λ g f. refl)
        (and_then (λ ((ys, v), rest') g f. ok ((x ∷ ys, v), rest')) (more_read xs variadic rest)
          (at_once λ g f. refl))

  pub kinds-names :
      (x : Text) (xs : List Text) (variadic : Bool)
      → kinds (parameter_list (x ∷ xs) variadic) ≡ ident x ∷ parameters_after xs variadic
  unfolding kinds parameter_list name_list parameters_after
  kinds-names x [] false = refl
  kinds-names x [] true = refl
  kinds-names x (y ∷ xs) false = ap (λ l. ident x ∷ symbol comma ∷ l) (kinds-names y xs false)
  kinds-names x (y ∷ xs) true = ap (λ l. ident x ∷ symbol comma ∷ l) (kinds-names y xs true)

  pub parameters_read :
      (xs : List Text) (variadic : Bool) (rest : Kinds N)
      → Enough
          (λ g f. parse_parameters f (kinds (parameter_list xs variadic) ++ (symbol rparen ∷ rest)))
          (ok ((xs, variadic), symbol rparen ∷ rest))
  unfolding parse_parameters is type_name consume_name
  parameters_read [] false rest = unfold kinds parameter_list in at_once (λ g f. refl)
  parameters_read [] true rest = unfold kinds parameter_list in at_once (λ g f. refl)
  parameters_read (x ∷ xs) variadic rest = rw (kinds-names) (
      and_then (λ ((ys, v), rest') g f. ok ((x ∷ ys, v), rest')) (more_read xs variadic rest)
        (at_once λ g f. refl))

module _ {N : Type 0} (indent : Text) (number_text : N → Text) (level : ℕ) where
  pub record ReadsBlock (b : Block N) : Type 0 where
    pub heads :
        (rest : Kinds N)
        → BlockEnds (peek rest)
        → Follows (peek (kinds (block indent number_text level b) ++ rest))
    pub reads_block :
        (rest : Kinds N)
        → BlockEnds (peek rest)
        → Enough
            (λ g f. parse_block g (kinds (block indent number_text level b) ++ rest))
            (ok (block_form number_text b, rest))

  pub body_read :
      (xs : List Text) (variadic : Bool) (b : Block N) (rest : Kinds N)
      → ReadsBlock b
      → Enough
          (λ g f. parse_function_body f (parse_block g) (
            symbol lparen
            ∷ (kinds (parameter_list xs variadic)
                ++ (symbol rparen
                    ∷ (kinds (block indent number_text level b) ++ (keyword k_end ∷ rest))))))
          (ok (record { params = xs; is_vararg = variadic; body = block_form number_text b }, rest))
  unfolding parse_function_body consume is type_name
  body_read xs variadic b rest h =
      and_then
        (λ ((xs, variadic), ks2) g f.
          bind (consume ")" "Expected ')' to close parameter list" ks2) λ ks3.
            bind (parse_block g ks3) λ (body, ks4).
              bind (consume "END" "Expected 'end' to close function body" ks4)
                λ ks5. ok (record { params = xs; is_vararg = variadic; body = body }, ks5))
        (parameters_read xs variadic _)
        (and_then
          (λ (body, ks4) g f.
            bind (consume "END" "Expected 'end' to close function body" ks4)
              λ ks5. ok (record { params = xs; is_vararg = variadic; body = body }, ks5))
          (h.reads_block (keyword k_end ∷ rest) ends_end) (at_once λ g f. refl))
