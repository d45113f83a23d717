-- ===== src/Syntax/RoundTrip/Operands.antt =====
-- packages/core/src: an operand that the generator writes, with its parentheses, is read back.
use valax_wearedevs_deobfusc.Prelude.{
  ℕ, suc, ◌*◌, ◌≤◌, ◌<◌, ◌≡◌, refl, subst, inl, inr, ◌⊎◌, arith, true, false, [], ◌∷◌, ◌++◌,
  append_assoc, ltb, Bool-cases, ltb→le, if◌then◌else◌,
}
use valax_wearedevs_deobfusc.Bytes.Defs.{Text}
use valax_wearedevs_deobfusc.Syntax.Tokens.{type_name, Kind, symbol, lparen, rparen}
use valax_wearedevs_deobfusc.Syntax.Tree.{Expr, marked, binary, logical}
use valax_wearedevs_deobfusc.Syntax.Result.{Result, Kinds, peek, is, is_any}
use valax_wearedevs_deobfusc.Syntax.Parse.Heads.{
  binary_precedence, stops, suffix_of, no_suffix, mark,
}
use valax_wearedevs_deobfusc.Syntax.Parse.Expressions.{names_field}
use valax_wearedevs_deobfusc.Syntax.Parse.Statements.{return_ends}
use valax_wearedevs_deobfusc.Syntax.Generate.Pieces.{
  token, Pieces, kinds, kinds-append, precedence, enclose, operator_precedence, logical_precedence,
  is_right_associative,
}
use valax_wearedevs_deobfusc.Syntax.Generate.Write.{expression}
use valax_wearedevs_deobfusc.Syntax.RoundTrip.Form.{form, in_parens, bound, next_level, IsRight}
use valax_wearedevs_deobfusc.Syntax.RoundTrip.Steps.{
  Sub, Climb, Prefix, Suffixes, Sub-Simple, Climb-stops, Suffixes-stop, Prefix-lparen,
  Simple-lparen,
}

module _ {N : Type 0} where
  pub stops-below : (m : ℕ) (k : Kind N) → binary_precedence k < m → stops m k ≡ true
  unfolding stops
  stops-below m k h = ground arith

  pub stops-not :
      (m c : ℕ) (k : Kind N) → binary_precedence k ≡ suc c → m ≤ suc c → stops m k ≡ false
  unfolding stops
  stops-not m c k e h = ground arith

  pub kinds-parens :
      (ps : Pieces N) (rest : Kinds N)
      → kinds (token (symbol lparen) ∷ (ps ++ token (symbol rparen) ∷ [])) ++ rest
        ≡ symbol lparen ∷ (kinds ps ++ symbol rparen ∷ rest)
  unfolding kinds
  kinds-parens ps rest = rw (kinds-append, append_assoc) refl

  -- How the precedence of a tree and its bound compare.
  pub bound-cases :
      (e : Expr N)
      → ((9 ≤ precedence e) × (bound e ≡ 9))
        ⊎ (((precedence e ≤ 8) × (bound e ≡ suc (precedence e)))
            ⊎ ((bound e ≡ precedence e) × (IsRight (precedence e) ⊎ (precedence e ≡ 7))))
  unfolding precedence bound next_level operator_precedence logical_precedence is_right_associative
  bound-cases (marked e) = bound-cases e
  bound-cases (logical o l r) = ground arith
  bound-cases (binary o l r) = ground arith
  bound-cases e = ground arith

module _ {N : Type 0} where
  -- What can be told of the text of a tree by its first token, and its second.
  pub record Starts (ks rest : Kinds N) : Type 0 where
    pub no_paren : is ")" (peek ks) ≡ false
    pub no_end : is_any ("}" ∷ "EOF" ∷ []) (peek ks) ≡ false
    pub no_return : is_any return_ends (peek ks) ≡ false
    pub no_key : is "[" (peek ks) ≡ false
    pub no_name : is "=" (peek rest) ≡ false → names_field ks ≡ false

  pub Starts-lparen : {ks rest : Kinds N} → Starts (symbol lparen ∷ ks) rest
  unfolding is type_name names_field
  Starts-lparen = record {
    no_paren = refl;
    no_end = refl;
    no_return = refl;
    no_key = refl;
    no_name = λ e. refl;
  }

module _ {N : Type 0} (indent : Text) (number_text : N → Text) (level : ℕ) where
  -- The text of a tree is read wherever the operand may be of its precedence, and what follows takes
  -- no part of it.
  pub record Reads (e : Expr N) : Type 0 where
    pub starts :
        (rest : Kinds N) → Starts (kinds (expression indent number_text level e) ++ rest) rest
    pub reads :
        (m : ℕ) (rest : Kinds N) (r : Result (Expr N × Kinds N))
        → m ≤ precedence e
        → binary_precedence (peek rest) < bound e
        → suffix_of (peek rest) ≡ no_suffix
        → Climb m (form number_text e) rest r
        → Sub m (kinds (expression indent number_text level e) ++ rest) r

  -- In parentheses it is read anywhere.
  pub Prefix-parens :
      (e : Expr N) (rest : Kinds N) (r : Result (Expr N × Kinds N))
      → Reads e
      → Suffixes (mark (form number_text e)) rest r
      → Prefix
          (symbol lparen ∷ (kinds (expression indent number_text level e) ++ symbol rparen ∷ rest))
          r
  unfolding binary_precedence suffix_of stops
  Prefix-parens e rest r h k =
      Prefix-lparen
        (h.reads 0 _ _ (omega arith) (ground (arith, bound-cases e)) refl (Climb-stops refl)) k

  pub operand :
      (e : Expr N) (p m : ℕ) (rest : Kinds N) (r : Result (Expr N × Kinds N))
      → Reads e
      → (p ≤ 10 * precedence e → (m ≤ precedence e) × (binary_precedence (peek rest) < bound e))
      → suffix_of (peek rest) ≡ no_suffix
      → Climb m (in_parens (precedence e) p (form number_text e)) rest r
      → Sub m (kinds (enclose (precedence e) p (expression indent number_text level e)) ++ rest) r
  unfolding enclose in_parens
  operand e p m rest r h fits s k = elim (Bool-cases (ltb (10 * precedence e) p)) [
    | inl t ↦
        let ps = expression indent number_text level e in
        let k' =
          subst (λ b. Climb m (if b then mark (form number_text e) else form number_text e) rest r)
            t k in
        rw (t, kinds-parens ps rest)
          (Sub-Simple (Simple-lparen (Prefix-parens e rest _ h (Suffixes-stop s))) k')
    | inr t ↦
        let k' =
          subst (λ b. Climb m (if b then mark (form number_text e) else form number_text e) rest r)
            t k in
        let (a, b) = fits (ltb→le _ _ t) in rw (t) (h.reads m rest r a b s k')
  ]

  pub Starts-operand :
      (e : Expr N) (p : ℕ) (rest : Kinds N)
      → Reads e
      → Starts
          (kinds (enclose (precedence e) p (expression indent number_text level e)) ++ rest)
          rest
  unfolding enclose
  Starts-operand e p rest h = elim (Bool-cases (ltb (10 * precedence e) p)) [
    | inl t ↦ rw (t, kinds-parens (expression indent number_text level e) rest) Starts-lparen
    | inr t ↦ rw (t) (h.starts rest)
  ]
