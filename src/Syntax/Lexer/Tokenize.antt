-- ===== src/Syntax/Lexer/Tokenize.antt =====
-- packages/core/src/lexer/lexer.js: `tokenize`, with JavaScript's `Number` of a text as a parameter.
use valax_wearedevs_deobfusc.Prelude.{
  ℕ, zero, suc, ◌+◌, Bool, true, false, not, ◌&&◌, ◌||◌, Option, none, some, List, [], ◌∷◌, ◌++◌,
  length, ◌==◌, if◌then◌else◌,
}
use valax_wearedevs_deobfusc.Bytes.Defs.{Text}
use valax_wearedevs_deobfusc.Bytes.Literal.{is_digit, close_bracket, from_lua_literal}
use valax_wearedevs_deobfusc.Syntax.Tokens.{Kind, symbol, number, string, eof, Token, symbol_type}
use valax_wearedevs_deobfusc.Syntax.Generate.Pieces.{units}
use valax_wearedevs_deobfusc.Syntax.Result.{Result, ok, parse_error, out_of_fuel, bind}
use valax_wearedevs_deobfusc.Syntax.Lexer.Cursor.{
  Cursor, start_of, peek, peek_next, first_of, drop_one, past, advance, advance_by, Reading,
  read_run,
}
use valax_wearedevs_deobfusc.Syntax.Lexer.Words.{
  word_kind, is_name_start, is_name_part, read_number, punctuation,
}

-- `startsWith`
unfoldable pub begins_with : Text → Text → Bool
begins_with [] cs = true
begins_with (d ∷ ds) [] = false
begins_with (d ∷ ds) (c ∷ cs) = c == d && begins_with ds cs

-- What stands before the closing bracket of the level.
unfoldable pub before_closing : ℕ → Text → Option Text
unfolding begins_with close_bracket
before_closing level [] = none
before_closing level (c ∷ cs) =
    let rest = before_closing level cs in
    if begins_with (b']' ∷ close_bracket level) (c ∷ cs)
    then some []
    else elim rest [ none ↦ none | some content ↦ some (c ∷ content) ]

abbrev pub is_blank : ℕ → Bool
is_blank c = c == 32 || c == 9 || c == 13 || c == 10

-- A long bracket at the cursor, on `[`: its level and the text behind its second `[`; `none` where no second
-- `[` follows the `=`.
unfoldable pub open_bracket : Cursor → Option (ℕ × Cursor)
unfolding advance read_run first_of
open_bracket cur =
    let (equal_signs, cur1) = read_run (λ c. c == b'=') ([], advance cur) in
    if peek cur1 == b'[' then some (length equal_signs, advance cur1) else none

-- The place that backtracking leaves: `pos` is set back, but `line` and `col` are not.
unfoldable pub backtrack : Cursor → Cursor
unfolding advance read_run
backtrack cur =
    let (equal_signs, cur1) = read_run (λ c. c == b'=') ([], advance cur) in
    record { text = cur.text; pos = cur.pos; line = cur1.line; column = cur1.column }

-- `while (this.pos < this.length) this.advance()`, up to a newline or to the end.
unfoldable pub skip_line : Cursor → Cursor
unfolding read_run
skip_line cur = (read_run (λ c. not (c == 10)) ([], cur)).1

unfoldable pub skip_all : Cursor → Cursor
unfolding advance_by
skip_all cur = advance_by (length cur.text) cur

-- What follows a long bracket's opening, which ends at its closing.
unfoldable pub skip_bracket : ℕ → Cursor → Cursor
unfolding before_closing advance_by skip_all
skip_bracket level cur = elim (before_closing level cur.text) [
  | some content ↦ advance_by (length content + (level + 2)) cur
  | none ↦ skip_all cur
]

-- `skipComment`
unfoldable pub skip_comment : Cursor → Cursor
unfolding advance_by open_bracket skip_bracket backtrack skip_line first_of drop_one
skip_comment cur =
    let cur1 = advance_by 2 cur in
    if peek cur1 == b'[' && (peek_next cur1 == b'[' || peek_next cur1 == b'=')
    then elim (open_bracket cur1) [
      | some (level, cur2) ↦ skip_bracket level cur2
      | none ↦ skip_line (backtrack cur1)
    ]
    else skip_line cur1

-- The loop of `readString` behind the quote; `escaped` says that a backslash stands before.
unfoldable pub string_in : ℕ → Bool → Text → Cursor → Result Reading
unfolding past
string_in quote escaped [] cur = parse_error "Unterminated string literal at EOF"
string_in quote escaped (c ∷ cs) cur =
    let after = past c cs cur in
    let rest = string_in quote (not escaped && c == 92) cs after in
    let longer = bind rest λ (raw, last). ok (c ∷ raw, last) in
    if escaped || c == 92
    then longer
    else if c == quote
    then ok (c ∷ [], after)
    else if c == 10 || c == 13
    then parse_error "Unfinished string literal before newline"
    else longer

unfoldable pub take_text : ℕ → Text → Text
take_text zero cs = []
take_text (suc n) [] = []
take_text (suc n) (c ∷ cs) = c ∷ take_text n cs

module _ {N : Type 0} (number_of : Text → N) where
  -- `new Token(kind, …)` at the place where the token starts
  abbrev pub token_at : Cursor → Kind N → Text → Token N
  token_at cur k raw = record {
    kind = k;
    line = cur.line;
    column = cur.column;
    offset = cur.pos;
    raw = raw;
  }

  abbrev pub one : Token N → Cursor → Result (List (Token N) × Cursor)
  one t cur = ok (t ∷ [], cur)

  unfoldable pub read_string : Cursor → Result (List (Token N) × Cursor)
  unfolding advance string_in first_of from_lua_literal
  read_string cur =
      let after = advance cur in
      bind (string_in (peek cur) false after.text after) λ (rest, last).
        one
          (token_at cur (string (from_lua_literal (peek cur ∷ rest)) (peek cur ∷ rest))
            (peek cur ∷ rest))
          last

  -- `tryReadLongStringOrComment`, behind the opening.
  unfoldable pub read_bracket : Cursor → ℕ → Cursor → Result (List (Token N) × Cursor)
  unfolding before_closing take_text from_lua_literal advance_by
  read_bracket cur level inside = elim (before_closing level inside.text) [
    | none ↦ parse_error "Unterminated long bracket string"
    | some content ↦
        let n = length content + (level + 2) in
        let raw = take_text (level + 2 + n) cur.text in
        one (token_at cur (string (from_lua_literal raw) raw) raw) (advance_by n inside)
  ]

  unfoldable pub read_punctuation : Cursor → Result (List (Token N) × Cursor)
  unfolding first_of drop_one punctuation advance_by units symbol_type
  read_punctuation cur =
      elim (punctuation (peek cur) (peek_next cur) (first_of (drop_one (drop_one cur.text)))) [
        | none ↦ parse_error "Unexpected character"
        | some (s, n) ↦
            one (token_at cur (symbol s) (units (symbol_type s))) (advance_by (suc n) cur)
      ]

  -- The rest of a round, behind strings: numbers, names and punctuation.
  unfoldable pub read_plain : Cursor → Result (List (Token N) × Cursor)
  unfolding first_of drop_one is_digit read_number is_name_start read_run is_name_part word_kind
      read_punctuation
  read_plain cur =
      if is_digit (peek cur) || (peek cur == b'.' && is_digit (peek_next cur))
      then (let (raw, last) = read_number cur in
          one (token_at cur (number (number_of raw) raw) raw) last)
      else if is_name_start (peek cur)
      then (let (name, last) = read_run is_name_part ([], cur) in
          one (token_at cur (word_kind name) name) last)
      else read_punctuation cur

  -- Where a string in long brackets may stand, then the rest.
  unfoldable pub round_bracket : Cursor → Result (List (Token N) × Cursor)
  unfolding first_of drop_one open_bracket read_bracket backtrack read_plain
  round_bracket cur =
      if peek cur == b'[' && (peek_next cur == b'[' || peek_next cur == b'=')
      then elim (open_bracket cur) [
        | some (level, inside) ↦ read_bracket cur level inside
        | none ↦ read_plain (backtrack cur)
      ]
      else read_plain cur

  unfoldable pub round_string : Cursor → Result (List (Token N) × Cursor)
  unfolding first_of read_string round_bracket
  round_string cur = if peek cur == 34 || peek cur == 39 then read_string cur else round_bracket cur

  unfoldable pub round_comment : Cursor → Result (List (Token N) × Cursor)
  unfolding first_of drop_one skip_comment round_string
  round_comment cur =
      if peek cur == b'-' && peek_next cur == b'-'
      then ok ([], skip_comment cur)
      else round_string cur

  -- One round of the loop of `tokenize`: the tokens that it adds.
  unfoldable pub round : Cursor → Result (List (Token N) × Cursor)
  unfolding first_of advance round_comment
  round cur = if is_blank (peek cur) then ok ([], advance cur) else round_comment cur

  -- `tokenize`, on fuel for the rounds.
  unfoldable pub tokenize_from : ℕ → Cursor → Result (List (Token N))
  unfolding round
  tokenize_from zero cur = out_of_fuel
  tokenize_from (suc f) cur = elim cur.text [
    | [] ↦ ok (token_at cur eof [] ∷ [])
    | c ∷ cs ↦ bind (round cur) λ (ts, last). bind (tokenize_from f last) λ rest. ok (ts ++ rest)
  ]

  -- Each round takes a character away, so the length of the source is fuel enough.
  unfoldable pub tokenize : Text → Result (List (Token N))
  unfolding tokenize_from
  tokenize source = tokenize_from (suc (length source)) (start_of source)
