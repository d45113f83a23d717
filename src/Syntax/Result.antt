-- ===== src/Syntax/Result.antt =====
-- packages/core/src/parser/parser.js, the methods on the tokens: a parser gives a value with the
-- tokens that are left, or a `ParseError` by its message without the token found.
use valax_wearedevs_deobfusc.Prelude.{
  String, text_discrete, Bool, true, false, List, [], ◌∷◌, none, some, ite, if◌then◌else◌,
}
use valax_wearedevs_deobfusc.Syntax.Tokens.{Kind, eof, ident, type_name}
use valax_wearedevs_deobfusc.Bytes.Defs.{Text}

-- `type_error` is the `TypeError` of a call of `replace` on a type that is no text.
pub data Result {ℓ} (A : Type ℓ) : Type ℓ where
  ok : A → Result A
  parse_error : String → Result A
  type_error : Result A
  out_of_fuel : Result A

abbrev pub bind {ℓ κ} : {A : Type ℓ} {B : Type κ} → Result A → (A → Result B) → Result B
bind (ok a) k = k a
bind (parse_error m) k = parse_error m
bind type_error k = type_error
bind out_of_fuel k = out_of_fuel

-- The tokens from `pos` on, but the last, which the lexer makes an end of file.
abbrev pub Kinds : Type 0 → Type 0
Kinds N = List (Kind N)

abbrev pub Parser : Type 0 → Type 0 → Type 0
Parser N A = Kinds N → Result (A × Kinds N)

module _ {N : Type 0} where
  abbrev pub peek : Kinds N → Kind N
  peek [] = eof
  peek (k ∷ ks) = k

  -- `advance`: the end of file stays.
  abbrev pub advance : Kinds N → Kinds N
  advance [] = []
  advance (k ∷ ks) = ks

  unfoldable pub is : String → Kind N → Bool
  unfolding type_name text_discrete
  is t k = elim (type_name k) [ none ↦ false | some s ↦ ite (text_discrete s t) true false ]

  abbrev pub is_any : List String → Kind N → Bool
  is_any [] k = false
  is_any (t ∷ ts) k = if is t k then true else is_any ts k

  -- `match`, where nothing depends on its result
  abbrev pub skip : String → Kinds N → Kinds N
  skip t ks = if is t (peek ks) then advance ks else ks

  unfoldable pub consume : String → String → Kinds N → Result (Kinds N)
  unfolding is
  consume t message ks = if is t (peek ks) then ok (advance ks) else parse_error message

  -- `consume(TokenType.IDENT, …)` with the name that the token holds
  unfoldable pub consume_name : String → Parser N Text
  consume_name message (ident x ∷ ks) = ok (x, ks)
  consume_name message _ = parse_error message
