-- ===== src/Syntax/Lexer/Closed.antt =====
-- packages/core/src/lexer/lexer.js: where the token for the end of the source stands.
use valax_wearedevs_deobfusc.Prelude.{
  ℕ, ◌≡◌, refl, Bool, true, false, List, [], ◌∷◌, ◌++◌, Option, none, some, Option-cases, inl, inr,
  if◌then◌else◌, String, ◌==◌, ◌&&◌, ◌||◌,
}
use valax_wearedevs_deobfusc.Bytes.Defs.{Text}
use valax_wearedevs_deobfusc.Bytes.Literal.{is_digit}
use valax_wearedevs_deobfusc.Syntax.Tokens.{Keyword, Kind, keyword, ident, inherited, eof, Token}
use valax_wearedevs_deobfusc.Syntax.Result.{Result, ok, parse_error, type_error, out_of_fuel, bind}
use valax_wearedevs_deobfusc.Syntax.Lexer.Cursor.{
  Cursor, peek, peek_next, first_of, drop_one, Reading, read_run,
}
use valax_wearedevs_deobfusc.Syntax.Lexer.Words.{
  word_kind, is_name_start, is_name_part, punctuation,
}
use valax_wearedevs_deobfusc.Syntax.Lexer.Tokenize.{
  before_closing, open_bracket, backtrack, read_string, read_bracket, read_punctuation, read_plain,
  round_bracket, round_string, round_comment, round, is_blank,
}

module _ {N : Type 0} where
  unfoldable pub is_eof : Kind N → Bool
  is_eof eof = true
  is_eof k = false

  pub data AreOpen : List (Token N) → Type 0 where
    open_none : AreOpen []
    open_more :
        (t : Token N) (ts : List (Token N)) → is_eof t.kind ≡ false → AreOpen ts → AreOpen (t ∷ ts)

  -- One token for the end of the source, behind all others.
  pub data IsClosed : List (Token N) → Type 0 where
    closed_end : (t : Token N) → is_eof t.kind ≡ true → IsClosed (t ∷ [])
    closed_more :
        (t : Token N) (ts : List (Token N))
        → is_eof t.kind ≡ false
        → IsClosed ts
        → IsClosed (t ∷ ts)

  pub IsClosed-append :
      (ts rest : List (Token N)) → AreOpen ts → IsClosed rest → IsClosed (ts ++ rest)
  IsClosed-append [] rest open_none h = h
  IsClosed-append (t ∷ ts) rest (open_more _ _ e o) h =
      closed_more t (ts ++ rest) e (IsClosed-append ts rest o h)

  -- A round gives an error, or tokens that are not the end.
  pub data IsOpen : Result (List (Token N) × Cursor) → Type 0 where
    open_error : (message : String) → IsOpen (parse_error message)
    open_type_error : IsOpen type_error
    open_fuel : IsOpen out_of_fuel
    opens : (ts : List (Token N)) (last : Cursor) → AreOpen ts → IsOpen (ok (ts, last))

  if-IsOpen :
      (b : Bool) (x y : Result (List (Token N) × Cursor))
      → IsOpen x
      → IsOpen y
      → IsOpen (if b then x else y)
  if-IsOpen true x y h k = h
  if-IsOpen false x y h k = k

  IsOpen-one : (t : Token N) (last : Cursor) → is_eof t.kind ≡ false → IsOpen (ok (t ∷ [], last))
  IsOpen-one t last e = opens (t ∷ []) last (open_more t [] e open_none)

  IsOpen-bind :
      (r : Result Reading) (f : Reading → Token N)
      → ((x : Reading) → is_eof (f x).kind ≡ false)
      → IsOpen (bind r λ x. ok (f x ∷ [], x.1))
  IsOpen-bind (ok x) f h = IsOpen-one (f x) x.1 (h x)
  IsOpen-bind (parse_error m) f h = open_error m
  IsOpen-bind type_error f h = open_type_error
  IsOpen-bind out_of_fuel f h = open_fuel

kind-is_eof :
    (N : Type 0) (o : Option Keyword) (b : Bool) (x : Text)
    → is_eof {N = N} (elim o [ some k ↦ keyword k | none ↦ if b then inherited x else ident x ])
      ≡ false
unfolding is_eof
kind-is_eof N (some k) b x = refl
kind-is_eof N none true x = refl
kind-is_eof N none false x = refl

word_kind-is_eof : (N : Type 0) (x : Text) → is_eof (word_kind {N = N} x) ≡ false
unfolding word_kind
word_kind-is_eof N x = kind-is_eof N _ _ x

module _ {N : Type 0} (number_of : Text → N) where
  read_string-IsOpen : (cur : Cursor) → IsOpen (read_string number_of cur)
  unfolding read_string is_eof
  read_string-IsOpen cur = IsOpen-bind _ _ (λ x. refl)

  read_bracket-IsOpen :
      (cur inside : Cursor) (level : ℕ) → IsOpen (read_bracket number_of cur level inside)
  unfolding read_bracket is_eof
  read_bracket-IsOpen cur inside level = elim (Option-cases (before_closing level inside.text)) [
    | inl n ↦ rw (read_bracket, n) (open_error _)
    | inr (content, e) ↦ rw (read_bracket, e) (IsOpen-one _ _ refl)
  ]

  read_punctuation-IsOpen : (cur : Cursor) → IsOpen (read_punctuation number_of cur)
  unfolding read_punctuation is_eof
  read_punctuation-IsOpen cur =
      elim (Option-cases
        (punctuation (peek cur) (peek_next cur) (first_of (drop_one (drop_one cur.text))))) [
          | inl n ↦ rw (read_punctuation, n) (open_error _)
          | inr ((s, n), e) ↦ rw (read_punctuation, e) (IsOpen-one _ _ refl)
        ]

  read_plain-IsOpen : (cur : Cursor) → IsOpen (read_plain number_of cur)
  unfolding read_plain is_eof
  read_plain-IsOpen cur =
      if-IsOpen (is_digit (peek cur) || (peek cur == b'.' && is_digit (peek_next cur))) _ _
        (IsOpen-one _ _ refl)
        (if-IsOpen (is_name_start (peek cur)) _ _
          (IsOpen-one _ _ (word_kind-is_eof N (read_run is_name_part ([], cur)).0))
          (read_punctuation-IsOpen cur))

  bracket-IsOpen :
      (cur : Cursor) (o : Option (ℕ × Cursor))
      → IsOpen (elim o [
        | some (level, inside) ↦ read_bracket number_of cur level inside
        | none ↦ read_plain number_of (backtrack cur)
      ])
  bracket-IsOpen cur none = read_plain-IsOpen (backtrack cur)
  bracket-IsOpen cur (some (level, inside)) = read_bracket-IsOpen cur inside level

  pub round-IsOpen : (cur : Cursor) → IsOpen (round number_of cur)
  unfolding round round_comment round_string round_bracket
  round-IsOpen cur = if-IsOpen (is_blank (peek cur)) _ _ (opens [] _ open_none) (
      if-IsOpen (peek cur == b'-' && peek_next cur == b'-') _ _ (opens [] _ open_none) (
        if-IsOpen (peek cur == 34 || peek cur == 39) _ _ (read_string-IsOpen cur) (
          if-IsOpen (peek cur == b'[' && (peek_next cur == b'[' || peek_next cur == b'=')) _ _
            (bracket-IsOpen cur (open_bracket cur)) (read_plain-IsOpen cur))))
