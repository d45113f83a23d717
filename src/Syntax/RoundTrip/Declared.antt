-- ===== src/Syntax/RoundTrip/Declared.antt =====
-- packages/core/src: declarations of functions are read back, if their parts are.
use valax_wearedevs_deobfusc.Prelude.{
  ℕ, suc, ◌≡◌, refl, sym, subst, Bool, false, List, [], ◌∷◌, ◌++◌, append_assoc,
}
use valax_wearedevs_deobfusc.Bytes.Defs.{Text}
use valax_wearedevs_deobfusc.Syntax.Tokens.{
  keyword, symbol, ident, lparen, rparen, dot, type_name, k_local, k_function, k_end,
}
use valax_wearedevs_deobfusc.Syntax.Tree.{
  Expr, identifier, member, Block, local_function, function_declaration,
}
use valax_wearedevs_deobfusc.Syntax.Result.{Result, ok, bind, Kinds, is, consume_name}
use valax_wearedevs_deobfusc.Syntax.Parse.Expressions.{parse_function_body, Function}
use valax_wearedevs_deobfusc.Syntax.Generate.Pieces.{
  token, Pieces, kinds, kinds-append, space, parameter_list,
}
use valax_wearedevs_deobfusc.Syntax.Generate.Write.{expression, block, write, word, line}
use valax_wearedevs_deobfusc.Syntax.RoundTrip.Form.{form, statement_form}
use valax_wearedevs_deobfusc.Syntax.RoundTrip.Printable.{StartsPlain, IsPath}
use valax_wearedevs_deobfusc.Syntax.Parse.Statements.{
  parse_block, parse_statement, parse_local, parse_local_function, more_properties, method_name,
  parse_function_declaration,
}
use valax_wearedevs_deobfusc.Syntax.RoundTrip.Enough.{
  Enough, at_once, after, same_run, and_then, bind_assoc,
}
use valax_wearedevs_deobfusc.Syntax.RoundTrip.Functions.{ReadsBlock, body_read}
use valax_wearedevs_deobfusc.Syntax.RoundTrip.Follow.{begins_local, begins_function}
use valax_wearedevs_deobfusc.Syntax.RoundTrip.Loops.{ReadsStatement, ReadsStatement-of}
use valax_wearedevs_deobfusc.Syntax.RoundTrip.Plain.{
  StartsPlain-IsPath, as_base_plain, base_form_plain,
}

module _ {N : Type 0} (indent : Text) (number_text : N → Text) (level : ℕ) where
  -- A header, a body and `end`.
  kinds-definition :
      (hs ps qs : Pieces N) (rest : Kinds N)
      → kinds (
            line indent number_text level
              (hs ++ (token (symbol lparen) ∷ []) ++ ps ++ token (symbol rparen) ∷ [])
            ++ qs
            ++ line indent number_text level (token (keyword k_end) ∷ []))
          ++ rest
        ≡ kinds hs
          ++ (symbol lparen ∷ (kinds ps ++ (symbol rparen ∷ (kinds qs ++ (keyword k_end ∷ rest)))))
  unfolding kinds line
  kinds-definition hs ps qs rest = simp (append_assoc, kinds-append) refl

  pub Reads-local_function :
      (x : Text) (xs : List Text) (variadic : Bool) (b : Block N)
      → ReadsBlock indent number_text (suc level) b
      → ReadsStatement indent number_text level (local_function x xs variadic b)
  unfolding write statement_form parse_statement parse_local parse_local_function consume_name kinds
  Reads-local_function x xs variadic b h =
      ReadsStatement-of indent number_text level (local_function x xs variadic b) _
        (kinds-definition
          (token (keyword k_local)
            ∷ space
            ∷ token (keyword k_function)
            ∷ space
            ∷ token (ident x)
            ∷ [])
          (parameter_list xs variadic) (block indent number_text (suc level) b))
        (λ rest. begins_local)
        (λ rest k.
          and_then (λ (d, rest) g f. ok (local_function x d.params d.is_vararg d.body, rest))
            (body_read indent number_text (suc level) xs variadic b rest h) (at_once λ g f. refl))

  kinds-member :
      (e : Expr N) (x : Text) (rest : Kinds N)
      → StartsPlain e
      → kinds (expression indent number_text level (member e x)) ++ rest
        ≡ kinds (expression indent number_text level e) ++ (symbol dot ∷ ident x ∷ rest)
  unfolding expression kinds
  kinds-member e x rest p =
      rw (as_base_plain e (expression indent number_text level e) p, kinds-append, append_assoc)
        refl

  form-member :
      (e : Expr N) (x : Text)
      → StartsPlain e
      → form number_text (member e x) ≡ member (form number_text e) x
  unfolding form
  form-member e x p = rw (base_form_plain e (form number_text e) p) refl

  -- A name, and the properties behind it.
  abbrev path : Kinds N → ℕ → ℕ → Result (Expr N × Kinds N)
  path ks g f =
      bind (consume_name "Expected function name" ks)
        λ (x, ks1). more_properties f (identifier x) ks1

  one_property :
      (e : Expr N) (x : Text) (rest : Kinds N) (r : Result (Expr N × Kinds N))
      → Enough (λ g f. more_properties f (member e x) rest) r
      → Enough (λ g f. more_properties f e (symbol dot ∷ ident x ∷ rest)) r
  unfolding more_properties is type_name consume_name
  one_property e x rest r h = after _ (λ g f. refl) h

  path_read :
      (e : Expr N) (rest : Kinds N) (r : Result (Expr N × Kinds N))
      → IsPath e
      → Enough (λ g f. more_properties f (form number_text e) rest) r
      → Enough (path (kinds (expression indent number_text level e) ++ rest)) r
  unfolding IsPath
  path_read (identifier x) rest r p h = unfold expression kinds form consume_name in h
  path_read (member e x) rest r p h = rw (kinds-member e x rest (StartsPlain-IsPath e p)) (
      path_read e _ r p (
        one_property _ x rest r (
          subst (λ d. Enough (λ g f. more_properties f d rest) r)
            (form-member e x (StartsPlain-IsPath e p)) h)))
  path_read e rest r p h = absurd p

  no_more :
      (e : Expr N) (ks : Kinds N)
      → Enough (λ g f. more_properties f e (symbol lparen ∷ ks)) (ok (e, symbol lparen ∷ ks))
  unfolding more_properties is type_name
  no_more e ks = at_once (λ g f. refl)

  kinds-function_declaration :
      (hs ps qs : Pieces N) (rest : Kinds N)
      → kinds (
            line indent number_text level (
              word k_function
              ++ hs
              ++ (token (symbol lparen) ∷ [])
              ++ ps
              ++ token (symbol rparen) ∷ [])
            ++ qs
            ++ line indent number_text level (token (keyword k_end) ∷ []))
          ++ rest
        ≡ keyword k_function
          ∷ (kinds hs
              ++ (symbol lparen
                  ∷ (kinds ps ++ (symbol rparen ∷ (kinds qs ++ (keyword k_end ∷ rest))))))
  unfolding kinds line
  kinds-function_declaration hs ps qs rest = simp (append_assoc, kinds-append) refl

  declaration_read :
      (e : Expr N) (ks : Kinds N) (d : Function N) (rest : Kinds N)
      → Enough (path ks) (ok (e, symbol lparen ∷ rest))
      → (last : Kinds N)
      → Enough (λ g f. parse_function_body f (parse_block g) (symbol lparen ∷ rest)) (ok (d, last))
      → Enough
          (λ g f. parse_function_declaration (parse_block g) f ks)
          (ok (function_declaration e d.params d.is_vararg d.body false, last))
  unfolding parse_function_declaration method_name is type_name
  declaration_read e ks d rest h last k =
      same_run
        (λ g f. bind (path ks g f) λ (path, ks2).
          bind (method_name path ks2) λ ((name, is_method), ks3).
            bind (parse_function_body f (parse_block g) ks3) λ (d, rest).
              ok (function_declaration name d.params d.is_vararg d.body is_method, rest))
        (λ g f. sym (bind_assoc (consume_name "Expected function name" ks) _ _))
        (and_then
          (λ (path, ks2) g f. bind (method_name path ks2) λ ((name, is_method), ks3).
            bind (parse_function_body f (parse_block g) ks3) λ (d, rest).
              ok (function_declaration name d.params d.is_vararg d.body is_method, rest))
          h
          (and_then
            (λ (d, rest) g f. ok (function_declaration e d.params d.is_vararg d.body false, rest)) k
            (at_once λ g f. refl)))

  pub Reads-function_declaration :
      (e : Expr N) (xs : List Text) (variadic : Bool) (b : Block N)
      → IsPath e
      → ReadsBlock indent number_text (suc level) b
      → ReadsStatement indent number_text level (function_declaration e xs variadic b false)
  unfolding write statement_form parse_statement
  Reads-function_declaration e xs variadic b p h =
      ReadsStatement-of indent number_text level (function_declaration e xs variadic b false) _
        (kinds-function_declaration (expression indent number_text level e)
          (parameter_list xs variadic) (block indent number_text (suc level) b))
        (λ rest. begins_function)
        (λ rest k.
          declaration_read (form number_text e) _ _ _ (path_read e _ _ p (no_more _ _)) rest
            (body_read indent number_text (suc level) xs variadic b rest h))
