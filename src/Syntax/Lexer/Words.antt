-- ===== src/Syntax/Lexer/Words.antt =====
-- packages/core/src/lexer/lexer.js: the tokens of names, numbers and punctuation; `KEYWORDS` of tokens.js.
use valax_wearedevs_deobfusc.Prelude.{
  ℕ, Bool, true, false, not, ◌&&◌, ◌||◌, Option, none, some, List, [], ◌∷◌, leb, ◌==◌,
  if◌then◌else◌, String,
}
use valax_wearedevs_deobfusc.Bytes.Defs.{Text}
use valax_wearedevs_deobfusc.Bytes.Literal.{is_digit, hex_value, same_text}
use valax_wearedevs_deobfusc.Syntax.Tokens.{
  Keyword, k_and, k_break, k_do, k_else, k_elseif, k_end, k_false, k_for, k_function, k_if, k_in,
  k_local, k_nil, k_not, k_or, k_repeat, k_return, k_then, k_true, k_until, k_while, k_continue,
  Symbol, star, slash, percent, caret, hash, eq_eq, tilde_eq, lt_eq, gt_eq, lt, gt, assign, lparen,
  rparen, lbrace, rbrace, lbracket, rbracket, semicolon, colon, comma, dot, dot_dot, dot_dot_dot,
  plus_eq, minus_eq, star_eq, slash_eq, concat_eq, Kind, keyword, ident, inherited,
}
use valax_wearedevs_deobfusc.Syntax.Generate.Pieces.{units, keyword_word}
use valax_wearedevs_deobfusc.Syntax.Lexer.Cursor.{
  Cursor, peek, peek_next, first_of, drop_one, Reading, read_run, read_one, read_if,
}

abbrev pub all_keywords : List Keyword
all_keywords =
    k_and ∷ k_break ∷ k_do ∷ k_else ∷ k_elseif ∷ k_end ∷ k_false ∷ k_for ∷ k_function ∷ k_if ∷ k_in
    ∷ k_local ∷ k_nil ∷ k_not ∷ k_or ∷ k_repeat ∷ k_return ∷ k_then ∷ k_true ∷ k_until ∷ k_while
    ∷ k_continue ∷ []

unfoldable pub find_keyword : List Keyword → Text → Option Keyword
unfolding units keyword_word same_text
find_keyword [] name = none
find_keyword (k ∷ ks) name =
    let rest = find_keyword ks name in
    if same_text (units (keyword_word k)) name then some k else rest

-- The properties that `KEYWORDS` has as an object.
abbrev pub inherited_names : List String
inherited_names =
    "constructor" ∷ "hasOwnProperty" ∷ "isPrototypeOf" ∷ "propertyIsEnumerable" ∷ "toLocaleString"
    ∷ "toString" ∷ "valueOf" ∷ "__proto__" ∷ "__defineGetter__" ∷ "__defineSetter__"
    ∷ "__lookupGetter__" ∷ "__lookupSetter__" ∷ []

unfoldable pub is_inherited : List String → Text → Bool
unfolding units same_text
is_inherited [] name = false
is_inherited (s ∷ ss) name = same_text (units s) name || is_inherited ss name

-- The token of a name: `KEYWORDS[name]`, or an identifier.
unfoldable pub word_kind : {N : Type 0} → Text → Kind N
unfolding find_keyword is_inherited
word_kind name = elim (find_keyword all_keywords name) [
  | some k ↦ keyword k
  | none ↦ if is_inherited inherited_names name then inherited name else ident name
]

unfoldable pub is_name_start : ℕ → Bool
is_name_start c = (leb b'a' c && leb c b'z') || (leb b'A' c && leb c b'Z') || c == b'_'

unfoldable pub is_name_part : ℕ → Bool
unfolding is_name_start is_digit
is_name_part c = is_name_start c || is_digit c

unfoldable pub is_hex : ℕ → Bool
unfolding hex_value
is_hex c = elim (hex_value c) [ none ↦ false | some n ↦ true ]

abbrev pub is_either : ℕ → ℕ → ℕ → Bool
is_either a b c = c == a || c == b

unfoldable pub read_sign : Reading → Reading
unfolding read_if first_of
read_sign (raw, cur) = read_if (is_either b'+' b'-' (peek cur)) (raw, cur)

-- The letter of an exponent, its sign and its digits, where the letter is there.
unfoldable pub read_letter : Bool → Reading → Reading
unfolding read_one read_run is_digit read_sign
read_letter true r = read_run is_digit (read_sign (read_one r))
read_letter false r = r

unfoldable pub read_exponent : ℕ → ℕ → Reading → Reading
unfolding read_letter first_of
read_exponent a b (raw, cur) = read_letter (is_either a b (peek cur)) (raw, cur)

-- The digits behind a point, where there is one.
unfoldable pub read_fraction : (ℕ → Bool) → Bool → Reading → Reading
unfolding read_one read_run
read_fraction p here r = if here then read_run p (read_one r) else r

unfoldable pub hex_fraction : Reading → Reading
unfolding read_fraction is_hex first_of
hex_fraction (raw, cur) = read_fraction is_hex (peek cur == b'.') (raw, cur)

unfoldable pub read_hex : Cursor → Reading
unfolding read_one read_run is_hex hex_fraction read_exponent
read_hex cur =
    read_exponent b'p' b'P' (hex_fraction (read_run is_hex (read_one (read_one ([], cur)))))

unfoldable pub decimal_fraction : Reading → Reading
unfolding read_fraction is_digit first_of drop_one
decimal_fraction (raw, cur) =
    read_fraction is_digit (peek cur == b'.' && not (peek_next cur == b'.')) (raw, cur)

unfoldable pub read_decimal : Cursor → Reading
unfolding read_run is_digit decimal_fraction read_exponent
read_decimal cur = read_exponent b'e' b'E' (decimal_fraction (read_run is_digit ([], cur)))

-- `readNumber`
unfoldable pub read_number : Cursor → Reading
unfolding read_hex read_decimal first_of drop_one
read_number cur =
    if peek cur == b'0' && is_either b'x' b'X' (peek_next cur)
    then read_hex cur
    else read_decimal cur

-- The symbols of one character.
unfoldable pub single_token : ℕ → Option Symbol
single_token c =
    if c == b'+'
    then some Symbol.plus
    else if c == b'-'
    then some Symbol.minus
    else if c == b'*'
    then some star
    else if c == b'/'
    then some slash
    else if c == b'%'
    then some percent
    else if c == b'^'
    then some caret
    else if c == b'#'
    then some hash
    else if c == b'='
    then some assign
    else if c == b'<'
    then some lt
    else if c == b'>'
    then some gt
    else if c == b'('
    then some lparen
    else if c == b')'
    then some rparen
    else if c == b'{'
    then some lbrace
    else if c == b'}'
    then some rbrace
    else if c == b'['
    then some lbracket
    else if c == b']'
    then some rbracket
    else if c == b';'
    then some semicolon
    else if c == b':'
    then some colon
    else if c == b','
    then some comma
    else if c == b'.'
    then some dot
    else none

-- `readPunctuation` on its character, the next and the one after it: the symbol, and how many characters it has
-- behind its first.
unfoldable pub punctuation : ℕ → ℕ → ℕ → Option (Symbol × ℕ)
unfolding single_token
punctuation c next third =
    if c == b'.' && next == b'.' && third == b'.'
    then some (dot_dot_dot, 2)
    else if c == b'.' && next == b'.' && third == b'='
    then some (concat_eq, 2)
    else if c == b'=' && next == b'='
    then some (eq_eq, 1)
    else if c == b'~' && next == b'='
    then some (tilde_eq, 1)
    else if c == b'<' && next == b'='
    then some (lt_eq, 1)
    else if c == b'>' && next == b'='
    then some (gt_eq, 1)
    else if c == b'.' && next == b'.'
    then some (dot_dot, 1)
    else if c == b'+' && next == b'='
    then some (plus_eq, 1)
    else if c == b'-' && next == b'='
    then some (minus_eq, 1)
    else if c == b'*' && next == b'='
    then some (star_eq, 1)
    else if c == b'/' && next == b'='
    then some (slash_eq, 1)
    else elim (single_token c) [ none ↦ none | some s ↦ some (s, 0) ]
