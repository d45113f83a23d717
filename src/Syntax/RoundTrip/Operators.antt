-- ===== src/Syntax/RoundTrip/Operators.antt =====
-- packages/core/src: nodes with operators are read back, if their operands are.
use valax_wearedevs_deobfusc.Prelude.{
  ℕ, ◌-◌, ◌≤◌, ◌<◌, ◌≡◌, refl, arith, [], ◌∷◌, ◌++◌, append_assoc,
}
use valax_wearedevs_deobfusc.Bytes.Defs.{Text}
use valax_wearedevs_deobfusc.Evaluator.Syntax.{UnaryOp, negation, len, BinaryOp, LogicalOp}
use valax_wearedevs_deobfusc.Syntax.Tokens.{Kind, type_name}
use valax_wearedevs_deobfusc.Syntax.Tree.{op, Expr, unary, binary, logical}
use valax_wearedevs_deobfusc.Syntax.Result.{Result, Kinds, peek, is}
use valax_wearedevs_deobfusc.Syntax.Parse.Heads.{binary_precedence, suffix_of, no_suffix}
use valax_wearedevs_deobfusc.Syntax.Parse.Expressions.{names_field}
use valax_wearedevs_deobfusc.Syntax.Generate.Pieces.{
  token, Pieces, kinds, kinds-append, precedence, enclose, unary_pieces, operator_piece, space,
}
use valax_wearedevs_deobfusc.Syntax.Generate.Write.{expression}
use valax_wearedevs_deobfusc.Syntax.RoundTrip.Form.{form, in_parens, bound}
use valax_wearedevs_deobfusc.Syntax.RoundTrip.Infix.{Infix, binary_infix, logical_infix}
use valax_wearedevs_deobfusc.Syntax.RoundTrip.Steps.{
  Sub, Climb, Sub-Simple, Climb-stops, Climb-goes, Simple-unary, unary_token,
}
use valax_wearedevs_deobfusc.Syntax.RoundTrip.Operands.{
  stops-below, stops-not, bound-cases, Starts, Reads, operand, Starts-operand,
}
use valax_wearedevs_deobfusc.Syntax.RoundTrip.Nodes.{Starts-then}

module _ {N : Type 0} where
  kinds-unary :
      (o : UnaryOp) (ps : Pieces N) (rest : Kinds N)
      → kinds (unary_pieces o ++ ps) ++ rest ≡ unary_token o ∷ (kinds ps ++ rest)
  unfolding kinds unary_pieces unary_token
  kinds-unary UnaryOp.minus ps rest = refl
  kinds-unary negation ps rest = refl
  kinds-unary len ps rest = refl

  Starts-unary : (o : UnaryOp) (ks rest : Kinds N) → Starts (unary_token o ∷ ks) rest
  unfolding unary_token is type_name names_field
  Starts-unary UnaryOp.minus ks rest = record {
    no_paren = refl;
    no_end = refl;
    no_return = refl;
    no_key = refl;
    no_name = λ e. refl;
  }
  Starts-unary negation ks rest = record {
    no_paren = refl;
    no_end = refl;
    no_return = refl;
    no_key = refl;
    no_name = λ e. refl;
  }
  Starts-unary len ks rest = record {
    no_paren = refl;
    no_end = refl;
    no_return = refl;
    no_key = refl;
    no_name = λ e. refl;
  }

module _ {N : Type 0} (indent : Text) (number_text : N → Text) (level : ℕ) where
  pub Reads-unary :
      (o : UnaryOp) (e : Expr N)
      → Reads indent number_text level e
      → Reads indent number_text level (unary o e)
  unfolding expression form precedence bound
  Reads-unary o e h = record {
    starts = λ rest. rw (kinds-unary) (Starts-unary o _ rest);
    reads = λ m rest r a b s k. rw (kinds-unary) (
        Sub-Simple
          (Simple-unary o (
            operand indent number_text level e 70 7 rest _ h
              (λ p. (omega arith, ground (arith, bound-cases e))) s
              (Climb-stops (stops-below 7 _ b))))
          k);
  }

  kinds-infix :
      (k : Kind N) (ps qs : Pieces N) (rest : Kinds N)
      → kinds (ps ++ (space ∷ token k ∷ space ∷ []) ++ qs) ++ rest
        ≡ kinds ps ++ (k ∷ (kinds qs ++ rest))
  unfolding kinds
  kinds-infix k ps qs rest = simp (append_assoc, kinds-append) refl

  -- What `binary` and `logical` nodes share.
  Reads-infix :
      (k : Kind N) (make : Expr N → Expr N → Expr N) (c next left right : ℕ) (a b : Expr N)
      → Infix N k make c next left right
      → Reads indent number_text level a
      → Reads indent number_text level b
      → (m : ℕ) (rest : Kinds N) (r : Result (Expr N × Kinds N)) → m ≤ c
      → binary_precedence (peek rest) < next
      → suffix_of (peek rest) ≡ no_suffix
      → Climb m
          (make
            (in_parens (precedence a) left (form number_text a))
            (in_parens (precedence b) right (form number_text b)))
          rest
          r
      → Sub m
          (kinds (enclose (precedence a) left (expression indent number_text level a))
            ++ (k
                ∷ (kinds (enclose (precedence b) right (expression indent number_text level b))
                    ++ rest)))
          r
  Reads-infix k make c next left right a b i ha hb m rest r p q s t =
      operand indent number_text level a left m _ r ha
        (λ u. ground (arith, i.level, i.sides, bound-cases a)) i.ends
        (Climb-goes {right = in_parens (precedence b) right (form number_text b)} {rest = rest}
          (ground (arith, i.level, i.positive, stops-not m (c - 1) k))
          (rw (i.above) (
            operand indent number_text level b right next rest _ hb
              (λ u. ground (arith, i.sides, bound-cases b)) s (Climb-stops (stops-below next _ q))))
          (rw (i.joins) t))

  Starts-infix :
      (k : Kind N) (make : Expr N → Expr N → Expr N) (c next left right : ℕ) (a : Expr N)
      (ks rest : Kinds N)
      → Infix N k make c next left right
      → Reads indent number_text level a
      → Starts
          (kinds (enclose (precedence a) left (expression indent number_text level a)) ++ (k ∷ ks))
          rest
  Starts-infix k make c next left right a ks rest i h =
      Starts-then i.sign (Starts-operand indent number_text level a left (k ∷ ks) h)

  pub Reads-binary :
      (o : BinaryOp) (a b : Expr N)
      → Reads indent number_text level a
      → Reads indent number_text level b
      → Reads indent number_text level (binary (op o) a b)
  unfolding expression form precedence bound operator_piece
  Reads-binary o a b ha hb = record {
    starts = λ rest. rw (kinds-infix) (Starts-infix _ _ _ _ _ _ a _ rest (binary_infix N o) ha);
    reads = λ m rest r p q s t.
        rw (kinds-infix) (Reads-infix _ _ _ _ _ _ a b (binary_infix N o) ha hb m rest r p q s t);
  }

  pub Reads-logical :
      (o : LogicalOp) (a b : Expr N)
      → Reads indent number_text level a
      → Reads indent number_text level b
      → Reads indent number_text level (logical o a b)
  unfolding expression form precedence bound
  Reads-logical o a b ha hb = record {
    starts = λ rest. rw (kinds-infix) (Starts-infix _ _ _ _ _ _ a _ rest (logical_infix N o) ha);
    reads = λ m rest r p q s t.
        rw (kinds-infix) (Reads-infix _ _ _ _ _ _ a b (logical_infix N o) ha hb m rest r p q s t);
  }
