-- ===== src/Syntax/RoundTrip/Plain.antt =====
-- packages/core/src: the expressions that begin with a name need no parentheses as a base.
use valax_wearedevs_deobfusc.Prelude.{ℕ, ◌≡◌, refl, [], ◌∷◌, ◌++◌, append_assoc}
use valax_wearedevs_deobfusc.Bytes.Defs.{Text}
use valax_wearedevs_deobfusc.Syntax.Tokens.{
  symbol, ident, lparen, rparen, lbracket, rbracket, colon, dot,
}
use valax_wearedevs_deobfusc.Syntax.Tree.{
  Expr, identifier, vararg_literal, marked, call, method_call, member, index, Exprs,
}
use valax_wearedevs_deobfusc.Syntax.Result.{Kinds}
use valax_wearedevs_deobfusc.Syntax.Parse.Heads.{is_call}
use valax_wearedevs_deobfusc.Syntax.Generate.Pieces.{token, Pieces, kinds, kinds-append, as_base}
use valax_wearedevs_deobfusc.Syntax.Generate.Write.{expression, expressions}
use valax_wearedevs_deobfusc.Syntax.RoundTrip.Form.{form, base_form}
use valax_wearedevs_deobfusc.Syntax.RoundTrip.Printable.{IsBase, StartsPlain, IsPath}

-- The tokens begin with a name.
pub record NameFirst {N : Type 0} (ks : Kinds N) : Type 0 where
  pub name : Text
  pub behind : Kinds N
  pub splits : ks ≡ ident name ∷ behind

module _ {N : Type 0} where
  pub StartsPlain-IsPath : (e : Expr N) → IsPath e → StartsPlain e
  unfolding IsPath StartsPlain
  StartsPlain-IsPath (identifier x) p = tt
  StartsPlain-IsPath (member e x) p = StartsPlain-IsPath e p
  StartsPlain-IsPath e p = absurd p

  pub IsBase-StartsPlain : (e : Expr N) → StartsPlain e → IsBase e
  unfolding IsBase StartsPlain
  IsBase-StartsPlain (identifier x) p = tt
  IsBase-StartsPlain (call b es) p = tt
  IsBase-StartsPlain (method_call b x es) p = tt
  IsBase-StartsPlain (member b x) p = tt
  IsBase-StartsPlain (index b e) p = tt
  IsBase-StartsPlain (marked vararg_literal) p = absurd p
  IsBase-StartsPlain (marked e) p = IsBase-StartsPlain e p
  IsBase-StartsPlain e p = absurd p

  pub as_base_plain : (e : Expr N) (ps : Pieces N) → StartsPlain e → as_base e ps ≡ ps
  unfolding StartsPlain as_base
  as_base_plain (identifier x) ps p = refl
  as_base_plain (call b es) ps p = refl
  as_base_plain (method_call b x es) ps p = refl
  as_base_plain (member b x) ps p = refl
  as_base_plain (index b e) ps p = refl
  as_base_plain (marked e) ps p = as_base_plain e ps p
  as_base_plain e ps p = absurd p

  pub base_form_plain : (e x : Expr N) → StartsPlain e → base_form e x ≡ x
  unfolding StartsPlain base_form
  base_form_plain (identifier y) x p = refl
  base_form_plain (call b es) x p = refl
  base_form_plain (method_call b y es) x p = refl
  base_form_plain (member b y) x p = refl
  base_form_plain (index b e) x p = refl
  base_form_plain (marked e) x p = base_form_plain e x p
  base_form_plain e x p = absurd p

module _ {N : Type 0} (indent : Text) (number_text : N → Text) (level : ℕ) where
  pub is_call-form : (e : Expr N) → StartsPlain e → is_call (form number_text e) ≡ is_call e
  unfolding StartsPlain form is_call
  is_call-form (identifier x) p = refl
  is_call-form (call b es) p = refl
  is_call-form (method_call b x es) p = refl
  is_call-form (member b x) p = refl
  is_call-form (index b e) p = refl
  is_call-form (marked vararg_literal) p = absurd p
  is_call-form (marked e) p = is_call-form e p
  is_call-form e p = absurd p

  behind_base :
      (b : Expr N) (qs : Pieces N) (rest : Kinds N)
      → StartsPlain b
      → NameFirst (kinds (expression indent number_text level b) ++ (kinds qs ++ rest))
      → NameFirst (kinds (as_base b (expression indent number_text level b) ++ qs) ++ rest)
  behind_base b qs rest p h =
      rw (as_base_plain b (expression indent number_text level b) p, kinds-append, append_assoc) h

  first_call :
      (b : Expr N) (es : Exprs N) (rest : Kinds N)
      → StartsPlain b
      → ((l : Kinds N) → NameFirst (kinds (expression indent number_text level b) ++ l))
      → NameFirst (kinds (expression indent number_text level (call b es)) ++ rest)
  unfolding expression
  first_call b es rest p h = simp (append_assoc) (
      behind_base b
        ((token (symbol lparen) ∷ [])
          ++ (expressions indent number_text level es ++ token (symbol rparen) ∷ []))
        rest p (h _))

  first_method_call :
      (b : Expr N) (x : Text) (es : Exprs N) (rest : Kinds N)
      → StartsPlain b
      → ((l : Kinds N) → NameFirst (kinds (expression indent number_text level b) ++ l))
      → NameFirst (kinds (expression indent number_text level (method_call b x es)) ++ rest)
  unfolding expression
  first_method_call b x es rest p h = simp (append_assoc) (
      behind_base b
        ((token (symbol colon) ∷ token (ident x) ∷ token (symbol lparen) ∷ [])
          ++ (expressions indent number_text level es ++ token (symbol rparen) ∷ []))
        rest p (h _))

  first_member :
      (b : Expr N) (x : Text) (rest : Kinds N)
      → StartsPlain b
      → ((l : Kinds N) → NameFirst (kinds (expression indent number_text level b) ++ l))
      → NameFirst (kinds (expression indent number_text level (member b x)) ++ rest)
  unfolding expression
  first_member b x rest p h = behind_base b (token (symbol dot) ∷ token (ident x) ∷ []) rest p (h _)

  first_index :
      (b e : Expr N) (rest : Kinds N)
      → StartsPlain b
      → ((l : Kinds N) → NameFirst (kinds (expression indent number_text level b) ++ l))
      → NameFirst (kinds (expression indent number_text level (index b e)) ++ rest)
  unfolding expression
  first_index b e rest p h = simp (append_assoc) (
      behind_base b
        ((token (symbol lbracket) ∷ [])
          ++ (expression indent number_text level e ++ token (symbol rbracket) ∷ []))
        rest p (h _))

  first_identifier :
      (x : Text) (rest : Kinds N)
      → NameFirst (kinds (expression indent number_text level (identifier x)) ++ rest)
  unfolding expression kinds
  first_identifier x rest = record { name = x; behind = rest; splits = refl }

  first_marked :
      (e : Expr N) (rest : Kinds N)
      → StartsPlain e
      → NameFirst (kinds (expression indent number_text level e) ++ rest)
      → NameFirst (kinds (expression indent number_text level (marked e)) ++ rest)
  unfolding expression StartsPlain
  first_marked vararg_literal rest p h = absurd p
  first_marked e rest p h = h

  pub NameFirst-StartsPlain :
      (e : Expr N) (rest : Kinds N)
      → StartsPlain e
      → NameFirst (kinds (expression indent number_text level e) ++ rest)
  unfolding StartsPlain
  NameFirst-StartsPlain (identifier x) rest p = first_identifier x rest
  NameFirst-StartsPlain (call b es) rest p =
      first_call b es rest p (λ l. NameFirst-StartsPlain b l p)
  NameFirst-StartsPlain (method_call b x es) rest p =
      first_method_call b x es rest p (λ l. NameFirst-StartsPlain b l p)
  NameFirst-StartsPlain (member b x) rest p =
      first_member b x rest p (λ l. NameFirst-StartsPlain b l p)
  NameFirst-StartsPlain (index b e) rest p =
      first_index b e rest p (λ l. NameFirst-StartsPlain b l p)
  NameFirst-StartsPlain (marked e) rest p = first_marked e rest p (NameFirst-StartsPlain e rest p)
  NameFirst-StartsPlain e rest p = absurd p
