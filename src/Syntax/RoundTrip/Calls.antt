-- ===== src/Syntax/RoundTrip/Calls.antt =====
-- packages/core/src: lists of expressions, and the nodes that have them, are read back, if their parts are.
use valax_wearedevs_deobfusc.Prelude.{ℕ, refl, [], ◌∷◌, ◌++◌, append_assoc}
use valax_wearedevs_deobfusc.Bytes.Defs.{Text}
use valax_wearedevs_deobfusc.Syntax.Tokens.{
  symbol, ident, lparen, rparen, lbracket, rbracket, colon, type_name,
}
use valax_wearedevs_deobfusc.Syntax.Tree.{Expr, call, method_call, index, Exprs, nothing, item}
use valax_wearedevs_deobfusc.Syntax.Result.{ok, Kinds, is}
use valax_wearedevs_deobfusc.Syntax.Parse.Heads.{binary_precedence, suffix_of}
use valax_wearedevs_deobfusc.Syntax.Generate.Pieces.{token, Pieces, kinds, kinds-append}
use valax_wearedevs_deobfusc.Syntax.Generate.Write.{expression, expressions, more_expressions}
use valax_wearedevs_deobfusc.Syntax.RoundTrip.Form.{form, forms}
use valax_wearedevs_deobfusc.Syntax.RoundTrip.Printable.{IsSome}
use valax_wearedevs_deobfusc.Syntax.RoundTrip.Steps.{
  Args, Items, More, Suffixes-index, Suffixes-call, Suffixes-method_call, Args-none, Args-some,
  Items-More, More-stops, More-comma,
}
use valax_wearedevs_deobfusc.Syntax.RoundTrip.Operands.{Reads}
use valax_wearedevs_deobfusc.Syntax.RoundTrip.Nodes.{
  Ends, Ends-rbracket, EndsList, EndsList-rparen, Leads, Leads-suffix, Reads-whole,
}

module _ {N : Type 0} (indent : Text) (number_text : N → Text) (level : ℕ) where
  pub Leads-index :
      (ps : Pieces N) (b e : Expr N)
      → Leads ps b
      → Reads indent number_text level e
      → Leads
          (ps
            ++ (token (symbol lbracket) ∷ [])
            ++ expression indent number_text level e
            ++ token (symbol rbracket) ∷ [])
          (index b (form number_text e))
  unfolding kinds is type_name
  Leads-index ps b e h k = simp (append_assoc) (
      Leads-suffix ps _ b _ h
        (λ rest r s.
          rw (kinds-append, append_assoc)
            (Suffixes-index
              (Reads-whole indent number_text level e (symbol rbracket ∷ rest) k Ends-rbracket) s))
        (λ rest. refl))

  -- A list is read back, as the arguments of a call or where something follows that ends it.
  pub record ReadsList (es : Exprs N) : Type 0 where
    pub follows :
        (rest : Kinds N)
        → EndsList rest
        → Ends (kinds (more_expressions indent number_text level es) ++ rest)
    pub reads_more :
        (e : Expr N) (rest : Kinds N)
        → EndsList rest
        → More e
            (kinds (more_expressions indent number_text level es) ++ rest)
            (ok (item e (forms number_text es), rest))
    pub reads_items :
        (rest : Kinds N)
        → IsSome es
        → EndsList rest
        → Items
            (kinds (expressions indent number_text level es) ++ rest)
            (ok (forms number_text es, rest))
    pub reads_args :
        (rest : Kinds N)
        → Args
            (symbol lparen
              ∷ (kinds (expressions indent number_text level es) ++ symbol rparen ∷ rest))
            (ok (forms number_text es, rest))

  pub ReadsList-nothing : ReadsList nothing
  unfolding expression kinds form IsSome
  ReadsList-nothing = record {
    follows = λ rest h. h.ends;
    reads_more = λ e rest h. More-stops h.no_comma;
    reads_items = λ rest none h. absurd none;
    reads_args = λ rest. Args-none;
  }

  Reads-first :
      (e : Expr N) (es : Exprs N) (rest : Kinds N)
      → Reads indent number_text level e
      → ReadsList es
      → EndsList rest
      → Items
          (kinds (expressions indent number_text level (item e es)) ++ rest)
          (ok (forms number_text (item e es), rest))
  unfolding expression kinds form
  Reads-first e es rest h t k =
      rw (kinds-append, append_assoc)
        (Items-More (Reads-whole indent number_text level e _ h (t.follows rest k))
          (t.reads_more _ rest k))

  pub ReadsList-item :
      (e : Expr N) (es : Exprs N)
      → Reads indent number_text level e
      → ReadsList es
      → ReadsList (item e es)
  unfolding expression kinds form binary_precedence suffix_of
  ReadsList-item e es h t = record {
    follows = λ rest k. record { no_operator = refl; no_suffix_follows = refl };
    reads_more = λ d rest k. More-comma (Reads-first e es rest h t k);
    reads_items = λ rest some k. Reads-first e es rest h t k;
    reads_args = λ rest.
        Args-some (rw (kinds-append, append_assoc) (h.starts _).no_paren)
          (Reads-first e es (symbol rparen ∷ rest) h t EndsList-rparen);
  }

  pub Leads-call :
      (ps : Pieces N) (b : Expr N) (es : Exprs N)
      → Leads ps b
      → ReadsList es
      → Leads
          (ps
            ++ (token (symbol lparen) ∷ [])
            ++ expressions indent number_text level es
            ++ token (symbol rparen) ∷ [])
          (call b (forms number_text es))
  unfolding kinds is type_name
  Leads-call ps b es h t = simp (append_assoc) (
      Leads-suffix ps _ b _ h
        (λ rest r s. rw (kinds-append, append_assoc) (Suffixes-call (t.reads_args rest) s))
        (λ rest. refl))

  pub Leads-method_call :
      (ps : Pieces N) (b : Expr N) (x : Text) (es : Exprs N)
      → Leads ps b
      → ReadsList es
      → Leads
          (ps
            ++ (token (symbol colon) ∷ token (ident x) ∷ token (symbol lparen) ∷ [])
            ++ expressions indent number_text level es
            ++ token (symbol rparen) ∷ [])
          (method_call b x (forms number_text es))
  unfolding kinds is type_name
  Leads-method_call ps b x es h t = simp (append_assoc) (
      Leads-suffix ps _ b _ h
        (λ rest r s. rw (kinds-append, append_assoc) (Suffixes-method_call (t.reads_args rest) s))
        (λ rest. refl))
