-- ===== src/Syntax/Tokens.antt =====
-- packages/core/src/lexer/tokens.js: `TokenType`, `KEYWORDS` and `Token`.
use valax_wearedevs_deobfusc.Prelude.{ℕ, String, Option, none, some}
use valax_wearedevs_deobfusc.Bytes.Defs.{Bytes, Text}

pub data Keyword : Type 0 where
  k_and k_break k_do k_else k_elseif k_end k_false k_for k_function k_if k_in k_local k_nil :
      Keyword
  k_not k_or k_repeat k_return k_then k_true k_until k_while k_continue : Keyword

pub data Symbol : Type 0 where
  plus minus star slash percent caret hash eq_eq tilde_eq lt_eq gt_eq lt gt assign : Symbol
  lparen rparen lbrace rbrace lbracket rbracket semicolon colon comma dot : Symbol
  dot_dot dot_dot_dot plus_eq minus_eq star_eq slash_eq concat_eq : Symbol

-- A token's type with its value, and the raw text of literals. A word that `KEYWORDS` has from
-- `Object.prototype`, such as `toString`, gets no text for its type: `inherited`.
pub data Kind (N : Type 0) : Type 0 where
  keyword : Keyword → Kind N
  symbol : Symbol → Kind N
  ident : Text → Kind N
  number : N → Text → Kind N
  string : Bytes → Text → Kind N
  inherited : Text → Kind N
  eof : Kind N

-- Lines and columns count from 1, offsets from 0.
pub record Token (N : Type 0) : Type 0 where
  pub kind : Kind N
  pub line : ℕ
  pub column : ℕ
  pub offset : ℕ
  pub raw : Text

unfoldable pub keyword_type : Keyword → String
keyword_type k_and = "AND"
keyword_type k_break = "BREAK"
keyword_type k_do = "DO"
keyword_type k_else = "ELSE"
keyword_type k_elseif = "ELSEIF"
keyword_type k_end = "END"
keyword_type k_false = "FALSE"
keyword_type k_for = "FOR"
keyword_type k_function = "FUNCTION"
keyword_type k_if = "IF"
keyword_type k_in = "IN"
keyword_type k_local = "LOCAL"
keyword_type k_nil = "NIL"
keyword_type k_not = "NOT"
keyword_type k_or = "OR"
keyword_type k_repeat = "REPEAT"
keyword_type k_return = "RETURN"
keyword_type k_then = "THEN"
keyword_type k_true = "TRUE"
keyword_type k_until = "UNTIL"
keyword_type k_while = "WHILE"
keyword_type k_continue = "CONTINUE"

unfoldable pub symbol_type : Symbol → String
symbol_type Symbol.plus = "+"
symbol_type Symbol.minus = "-"
symbol_type star = "*"
symbol_type slash = "/"
symbol_type percent = "%"
symbol_type caret = "^"
symbol_type hash = "#"
symbol_type eq_eq = "=="
symbol_type tilde_eq = "~="
symbol_type lt_eq = "<="
symbol_type gt_eq = ">="
symbol_type lt = "<"
symbol_type gt = ">"
symbol_type assign = "="
symbol_type lparen = "("
symbol_type rparen = ")"
symbol_type lbrace = "{"
symbol_type rbrace = "}"
symbol_type lbracket = "["
symbol_type rbracket = "]"
symbol_type semicolon = ";"
symbol_type colon = ":"
symbol_type comma = ","
symbol_type dot = "."
symbol_type dot_dot = ".."
symbol_type dot_dot_dot = "..."
symbol_type plus_eq = "+="
symbol_type minus_eq = "-="
symbol_type star_eq = "*="
symbol_type slash_eq = "/="
symbol_type concat_eq = "..="

-- The token's type, as far as it is a text.
unfoldable pub type_name : {N : Type 0} → Kind N → Option String
unfolding keyword_type symbol_type
type_name (keyword k) = some (keyword_type k)
type_name (symbol s) = some (symbol_type s)
type_name (ident x) = some "IDENT"
type_name (number n raw) = some "NUMBER"
type_name (string s raw) = some "STRING"
type_name (inherited x) = none
type_name eof = some "EOF"
