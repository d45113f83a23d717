-- ===== src/Syntax/RoundTrip/Nodes.antt =====
-- packages/core/src: each node of an expression is read back, if its parts are.
use valax_wearedevs_deobfusc.Prelude.{ℕ, ◌≡◌, refl, arith, true, false, [], ◌∷◌, ◌++◌, append_assoc}
use valax_wearedevs_deobfusc.Bytes.Defs.{Text}
use valax_wearedevs_deobfusc.Syntax.Tokens.{symbol, ident, lparen, rparen, rbracket, dot, type_name}
use valax_wearedevs_deobfusc.Syntax.Tree.{Expr, identifier, member}
use valax_wearedevs_deobfusc.Syntax.Result.{Result, ok, Kinds, peek, is}
use valax_wearedevs_deobfusc.Syntax.Parse.Heads.{
  binary_precedence, stops, suffix_of, no_suffix, mark,
}
use valax_wearedevs_deobfusc.Syntax.Parse.Expressions.{names_field}
use valax_wearedevs_deobfusc.Syntax.Generate.Pieces.{token, Pieces, kinds, kinds-append}
use valax_wearedevs_deobfusc.Syntax.Generate.Write.{expression}
use valax_wearedevs_deobfusc.Syntax.RoundTrip.Form.{form}
use valax_wearedevs_deobfusc.Syntax.RoundTrip.Steps.{
  Sub, Simple, Prefix, Suffixes, Sub-Simple, Climb-stops, Suffixes-stop, Suffixes-member,
  Prefix-ident, Simple-lparen, Simple-ident,
}
use valax_wearedevs_deobfusc.Syntax.RoundTrip.Operands.{
  bound-cases, Starts, Starts-lparen, Reads, Prefix-parens,
}

-- A prefix expression begins with a name or a parenthesis.
pub data Opens {N : Type 0} : Kinds N → Type 0 where
  opens_name : (x : Text) (ks : Kinds N) → Opens (ident x ∷ ks)
  opens_paren : (ks : Kinds N) → Opens (symbol lparen ∷ ks)

module _ {N : Type 0} where
  pub Simple-Prefix :
      {ks : Kinds N} {r : Result (Expr N × Kinds N)} → Opens ks → Prefix ks r → Simple ks r
  Simple-Prefix (opens_name x ks) h = Simple-ident h
  Simple-Prefix (opens_paren ks) h = Simple-lparen h

  pub Starts-then : {ks l rest : Kinds N} → is "=" (peek l) ≡ false → Starts ks l → Starts ks rest
  Starts-then h s = record {
    no_paren = s.no_paren;
    no_end = s.no_end;
    no_return = s.no_return;
    no_key = s.no_key;
    no_name = λ e. s.no_name h;
  }

  -- The tokens `ks` go on with no part of an expression.
  pub record Ends (ks : Kinds N) : Type 0 where
    pub no_operator : binary_precedence (peek ks) ≡ 0
    pub no_suffix_follows : suffix_of (peek ks) ≡ no_suffix

  pub Ends-rbracket : {ks : Kinds N} → Ends (symbol rbracket ∷ ks)
  unfolding binary_precedence suffix_of
  Ends-rbracket = record { no_operator = refl; no_suffix_follows = refl }

  -- Nor with a further item of a list.
  pub record EndsList (ks : Kinds N) : Type 0 where
    pub ends : Ends ks
    pub no_comma : is "," (peek ks) ≡ false

  pub EndsList-rparen : {ks : Kinds N} → EndsList (symbol rparen ∷ ks)
  unfolding binary_precedence suffix_of is type_name
  EndsList-rparen = record {
    ends = record { no_operator = refl; no_suffix_follows = refl };
    no_comma = refl;
  }

  pub stops-Ends : (ks : Kinds N) → Ends ks → (m : ℕ) → stops m (peek ks) ≡ true
  unfolding stops
  stops-Ends ks h m = ground (arith, h.no_operator)

  -- The pieces begin a prefix expression, and `e` is what is read of them.
  pub record Leads (ps : Pieces N) (e : Expr N) : Type 0 where
    pub chains :
        (rest : Kinds N) (r : Result (Expr N × Kinds N))
        → Suffixes e rest r
        → Prefix (kinds ps ++ rest) r
    pub opens : (rest : Kinds N) → Opens (kinds ps ++ rest)
    pub starts : (rest : Kinds N) → Starts (kinds ps ++ rest) rest

  pub Leads-suffix :
      (ps qs : Pieces N) (b e : Expr N)
      → Leads ps b
      → ((rest : Kinds N) (r : Result (Expr N × Kinds N))
          → Suffixes e rest r
          → Suffixes b (kinds qs ++ rest) r)
      → ((rest : Kinds N) → is "=" (peek (kinds qs ++ rest)) ≡ false)
      → Leads (ps ++ qs) e
  Leads-suffix ps qs b e h step sign = record {
    chains = λ rest r k. rw (kinds-append, append_assoc) (h.chains _ r (step rest r k));
    opens = λ rest. rw (kinds-append, append_assoc) (h.opens (kinds qs ++ rest));
    starts = λ rest.
        rw (kinds-append, append_assoc) (Starts-then (sign rest) (h.starts (kinds qs ++ rest)));
  }

  pub Leads-identifier : (x : Text) → Leads (token (ident x) ∷ []) (identifier x)
  unfolding kinds names_field is type_name
  Leads-identifier x = record {
    chains = λ rest r k. Prefix-ident k;
    opens = λ rest. opens_name x rest;
    starts = λ rest. record {
      no_paren = refl;
      no_end = refl;
      no_return = refl;
      no_key = refl;
      no_name = λ e. e;
    };
  }

  pub Leads-member :
      (ps : Pieces N) (b : Expr N) (x : Text)
      → Leads ps b
      → Leads (ps ++ token (symbol dot) ∷ token (ident x) ∷ []) (member b x)
  unfolding kinds is type_name
  Leads-member ps b x h =
      Leads-suffix ps (token (symbol dot) ∷ token (ident x) ∷ []) b _ h
        (λ rest r k. Suffixes-member k) (λ rest. refl)

module _ {N : Type 0} (indent : Text) (number_text : N → Text) (level : ℕ) where
  pub Reads-whole :
      (e : Expr N) (rest : Kinds N)
      → Reads indent number_text level e
      → Ends rest
      → Sub 0
          (kinds (expression indent number_text level e) ++ rest)
          (ok (form number_text e, rest))
  Reads-whole e rest h k =
      h.reads 0 rest _ (omega arith) (ground (arith, k.no_operator, bound-cases e))
        k.no_suffix_follows (Climb-stops (stops-Ends rest k 0))

  pub Reads-Leads :
      (e : Expr N)
      → Leads (expression indent number_text level e) (form number_text e)
      → Reads indent number_text level e
  Reads-Leads e h = record {
    starts = h.starts;
    reads = λ m rest r a b s k.
        Sub-Simple (Simple-Prefix (h.opens rest) (h.chains rest _ (Suffixes-stop s))) k;
  }

  -- In the parentheses that the generator puts around it, any operand begins a prefix expression.
  pub Leads-parens :
      (e : Expr N)
      → Reads indent number_text level e
      → Leads
          (token (symbol lparen)
            ∷ (expression indent number_text level e ++ token (symbol rparen) ∷ []))
          (mark (form number_text e))
  unfolding kinds
  Leads-parens e h = record {
    chains = λ rest r k.
        rw (kinds-append, append_assoc) (Prefix-parens indent number_text level e rest r h k);
    opens = λ rest. opens_paren _;
    starts = λ rest. Starts-lparen;
  }
