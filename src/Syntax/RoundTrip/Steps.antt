-- ===== src/Syntax/RoundTrip/Steps.antt =====
-- packages/core/src/parser/parser.js: one lemma for each way through a method that parses expressions.
use valax_wearedevs_deobfusc.Prelude.{ℕ, ◌≡◌, refl, true, false, ◌∷◌}
use valax_wearedevs_deobfusc.Bytes.Defs.{Text}
use valax_wearedevs_deobfusc.Evaluator.Syntax.{UnaryOp, negation, len}
use valax_wearedevs_deobfusc.Syntax.Tokens.{
  Kind, keyword, symbol, ident, k_not, Symbol, hash, lparen, rparen, comma, lbracket, rbracket, dot,
  colon, type_name,
}
use valax_wearedevs_deobfusc.Syntax.Tree.{
  Expr, identifier, call, method_call, member, index, unary, Exprs, nothing, item,
}
use valax_wearedevs_deobfusc.Syntax.Result.{
  Result, ok, bind, Kinds, peek, is, consume, consume_name,
}
use valax_wearedevs_deobfusc.Syntax.Parse.Heads.{
  stops, next_precedence, join, suffix_of, no_suffix, mark,
}
use valax_wearedevs_deobfusc.Syntax.Parse.Expressions.{
  parse_sub, climb, parse_simple, parse_prefix, suffixes, parse_args, parse_list, more_of,
}
use valax_wearedevs_deobfusc.Syntax.Parse.Statements.{parse_block}
use valax_wearedevs_deobfusc.Syntax.RoundTrip.Enough.{Enough, at_once, after, and_then}

module _ {N : Type 0} where
  pub record Sub (m : ℕ) (ks : Kinds N) (r : Result (Expr N × Kinds N)) : Type 0 where
    pub enough : Enough (λ g f. parse_sub (parse_block g) f m ks) r

  pub record Climb (m : ℕ) (e : Expr N) (ks : Kinds N) (r : Result (Expr N × Kinds N))
      : Type 0 where
    pub enough : Enough (λ g f. climb (parse_block g) f m e ks) r

  pub record Simple (ks : Kinds N) (r : Result (Expr N × Kinds N)) : Type 0 where
    pub enough : Enough (λ g f. parse_simple (parse_block g) f ks) r

  pub record Prefix (ks : Kinds N) (r : Result (Expr N × Kinds N)) : Type 0 where
    pub enough : Enough (λ g f. parse_prefix (parse_block g) f ks) r

  pub record Suffixes (e : Expr N) (ks : Kinds N) (r : Result (Expr N × Kinds N)) : Type 0 where
    pub enough : Enough (λ g f. suffixes (parse_block g) f e ks) r

  pub record Args (ks : Kinds N) (r : Result (Exprs N × Kinds N)) : Type 0 where
    pub enough : Enough (λ g f. parse_args (parse_block g) f ks) r

  pub record Items (ks : Kinds N) (r : Result (Exprs N × Kinds N)) : Type 0 where
    pub enough : Enough (λ g f. parse_list (parse_block g) f ks) r

  pub record More (e : Expr N) (ks : Kinds N) (r : Result (Exprs N × Kinds N)) : Type 0 where
    pub enough : Enough (λ g f. more_of (parse_block g) f e ks) r

  pub Sub-Simple :
      {m : ℕ} {e : Expr N} {ks rest : Kinds N} {r : Result (Expr N × Kinds N)}
      → Simple ks (ok (e, rest))
      → Climb m e rest r
      → Sub m ks r
  unfolding parse_sub
  Sub-Simple {m} h k = record {
    enough =
        after _ (λ g f. refl)
          (and_then (λ (e, rest) g f. climb (parse_block g) f m e rest) h.enough k.enough);
  }

  pub Climb-stops :
      {m : ℕ} {e : Expr N} {ks : Kinds N} → stops m (peek ks) ≡ true → Climb m e ks (ok (e, ks))
  unfolding climb
  Climb-stops h = record { enough = at_once (λ g f. rw (climb, h) refl) }

  pub Climb-goes :
      {m : ℕ} {k : Kind N} {left right : Expr N} {ks rest : Kinds N} {r : Result (Expr N × Kinds N)}
      → stops m k ≡ false
      → Sub (next_precedence k) ks (ok (right, rest))
      → Climb m (join k left right) rest r
      → Climb m left (k ∷ ks) r
  unfolding climb
  Climb-goes {m} {k} {left} h a b = record {
    enough =
        after _ (λ g f. rw (climb, h) refl)
          (and_then (λ (e, rest) g f. climb (parse_block g) f m (join k left e) rest) a.enough
            b.enough);
  }

  pub Suffixes-stop :
      {e : Expr N} {ks : Kinds N} → suffix_of (peek ks) ≡ no_suffix → Suffixes e ks (ok (e, ks))
  unfolding suffixes
  Suffixes-stop h = record { enough = at_once (λ g f. rw (suffixes, h) refl) }

  pub Suffixes-member :
      {b : Expr N} {x : Text} {ks : Kinds N} {r : Result (Expr N × Kinds N)}
      → Suffixes (member b x) ks r
      → Suffixes b (symbol dot ∷ ident x ∷ ks) r
  unfolding suffixes consume_name suffix_of
  Suffixes-member h = record { enough = after _ (λ g f. refl) h.enough }

  pub Suffixes-index :
      {b e : Expr N} {ks rest : Kinds N} {r : Result (Expr N × Kinds N)}
      → Sub 0 ks (ok (e, symbol rbracket ∷ rest))
      → Suffixes (index b e) rest r
      → Suffixes b (symbol lbracket ∷ ks) r
  unfolding suffixes consume is type_name suffix_of
  Suffixes-index {b} h k = record {
    enough =
        after _ (λ g f. refl)
          (and_then
            (λ (e, ks1) g f.
              bind (consume "]" "Expected ']' after indexing expression" ks1)
                (λ ks2. suffixes (parse_block g) f (index b e) ks2))
            h.enough k.enough);
  }

  pub Suffixes-call :
      {b : Expr N} {es : Exprs N} {ks rest : Kinds N} {r : Result (Expr N × Kinds N)}
      → Args (symbol lparen ∷ ks) (ok (es, rest))
      → Suffixes (call b es) rest r
      → Suffixes b (symbol lparen ∷ ks) r
  unfolding suffixes suffix_of
  Suffixes-call {b} h k = record {
    enough =
        after _ (λ g f. refl)
          (and_then (λ (es, rest) g f. suffixes (parse_block g) f (call b es) rest) h.enough
            k.enough);
  }

  pub Suffixes-method_call :
      {b : Expr N} {x : Text} {es : Exprs N} {ks rest : Kinds N} {r : Result (Expr N × Kinds N)}
      → Args ks (ok (es, rest))
      → Suffixes (method_call b x es) rest r
      → Suffixes b (symbol colon ∷ ident x ∷ ks) r
  unfolding suffixes consume_name suffix_of
  Suffixes-method_call {b} {x} h k = record {
    enough =
        after _ (λ g f. refl)
          (and_then (λ (es, rest) g f. suffixes (parse_block g) f (method_call b x es) rest)
            h.enough k.enough);
  }

  pub Prefix-ident :
      {x : Text} {ks : Kinds N} {r : Result (Expr N × Kinds N)}
      → Suffixes (identifier x) ks r
      → Prefix (ident x ∷ ks) r
  unfolding parse_prefix
  Prefix-ident h = record { enough = after _ (λ g f. refl) h.enough }

  pub Prefix-lparen :
      {e : Expr N} {ks rest : Kinds N} {r : Result (Expr N × Kinds N)}
      → Sub 0 ks (ok (e, symbol rparen ∷ rest))
      → Suffixes (mark e) rest r
      → Prefix (symbol lparen ∷ ks) r
  unfolding parse_prefix consume is type_name
  Prefix-lparen h k = record {
    enough =
        after _ (λ g f. refl)
          (and_then
            (λ (e, ks1) g f.
              bind (consume ")" "Expected ')' after parenthesized expression" ks1)
                (λ ks2. suffixes (parse_block g) f (mark e) ks2))
            h.enough k.enough);
  }

  -- How the parser reads the operator `o` of a node `unary o`.
  unfoldable pub unary_token : UnaryOp → Kind N
  unary_token UnaryOp.minus = symbol Symbol.minus
  unary_token negation = keyword k_not
  unary_token len = symbol hash

  pub Simple-unary :
      (o : UnaryOp) {e : Expr N} {ks rest : Kinds N}
      → Sub 7 ks (ok (e, rest))
      → Simple (unary_token o ∷ ks) (ok (unary o e, rest))
  unfolding parse_simple unary_token
  Simple-unary UnaryOp.minus h = record {
    enough =
        after _ (λ g f. refl)
          (and_then (λ (e, rest) g f. ok (unary UnaryOp.minus e, rest)) h.enough
            (at_once λ g f. refl));
  }
  Simple-unary negation h = record {
    enough =
        after _ (λ g f. refl)
          (and_then (λ (e, rest) g f. ok (unary negation e, rest)) h.enough (at_once λ g f. refl));
  }
  Simple-unary len h = record {
    enough =
        after _ (λ g f. refl)
          (and_then (λ (e, rest) g f. ok (unary len e, rest)) h.enough (at_once λ g f. refl));
  }

  pub Simple-lparen :
      {ks : Kinds N} {r : Result (Expr N × Kinds N)}
      → Prefix (symbol lparen ∷ ks) r
      → Simple (symbol lparen ∷ ks) r
  unfolding parse_simple
  Simple-lparen h = record { enough = after _ (λ g f. refl) h.enough }

  pub Simple-ident :
      {x : Text} {ks : Kinds N} {r : Result (Expr N × Kinds N)}
      → Prefix (ident x ∷ ks) r
      → Simple (ident x ∷ ks) r
  unfolding parse_simple
  Simple-ident h = record { enough = after _ (λ g f. refl) h.enough }

  pub Args-none :
      {rest : Kinds N} → Args (symbol lparen ∷ symbol rparen ∷ rest) (ok (nothing, rest))
  unfolding parse_args is type_name
  Args-none = record { enough = at_once (λ g f. refl) }

  pub Args-some :
      {es : Exprs N} {ks rest : Kinds N}
      → is ")" (peek ks) ≡ false
      → Items ks (ok (es, symbol rparen ∷ rest))
      → Args (symbol lparen ∷ ks) (ok (es, rest))
  unfolding parse_args consume type_name
  Args-some h k = record {
    enough =
        after _ (λ g f. rw (parse_args, h) refl)
          (and_then
            (λ (es, ks1) g f.
              bind (consume ")" "Expected ')' to close function arguments" ks1)
                (λ ks2. ok (es, ks2)))
            k.enough (at_once λ g f. refl));
  }

  pub Items-More :
      {e : Expr N} {ks rest : Kinds N} {r : Result (Exprs N × Kinds N)}
      → Sub 0 ks (ok (e, rest))
      → More e rest r
      → Items ks r
  unfolding parse_list
  Items-More h k = record {
    enough =
        after _ (λ g f. refl)
          (and_then (λ (e, rest) g f. more_of (parse_block g) f e rest) h.enough k.enough);
  }

  pub More-stops :
      {e : Expr N} {ks : Kinds N} → is "," (peek ks) ≡ false → More e ks (ok (item e nothing, ks))
  unfolding more_of
  More-stops h = record { enough = at_once (λ g f. rw (more_of, h) refl) }

  pub More-comma :
      {e : Expr N} {es : Exprs N} {ks rest : Kinds N}
      → Items ks (ok (es, rest))
      → More e (symbol comma ∷ ks) (ok (item e es, rest))
  unfolding more_of is type_name
  More-comma {e} h = record {
    enough =
        after _ (λ g f. refl)
          (and_then (λ (es, rest) g f. ok (item e es, rest)) h.enough (at_once λ g f. refl));
  }
