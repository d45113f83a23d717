-- ===== src/Bytes/Literal.antt =====
-- packages/shared/src/bytestring.js: `fromLuaLiteral`.
use valax_wearedevs_deobfusc.Prelude.{
  ℕ, zero, suc, ◌+◌, ◌-◌, ◌*◌, ◌%◌, Bool, true, false, ◌&&◌, ◌||◌, Option, none, some, List, [],
  ◌∷◌, ◌++◌, length, leb, ◌==◌, if◌then◌else◌,
}
use valax_wearedevs_deobfusc.Bytes.Defs.{Bytes, Text, of_units}

unfoldable pub is_digit : ℕ → Bool
is_digit c = leb b'0' c && leb c b'9'

-- `parseInt` of one hexadecimal digit; `none` where the pattern `[0-9a-fA-F]` does not fit.
unfoldable pub hex_value : ℕ → Option ℕ
unfolding is_digit
hex_value c =
    if is_digit c
    then some (c - b'0')
    else if leb b'a' c && leb c b'f'
    then some (c - b'a' + 10)
    else if leb b'A' c && leb c b'F'
    then some (c - b'A' + 10)
    else none

-- The pattern `\s`.
unfoldable pub is_space : ℕ → Bool
is_space c =
    (leb 9 c && leb c 13)
    || c == 32
    || c == 160
    || c == 5760
    || (leb 8192 c && leb c 8202)
    || c == 8232
    || c == 8233
    || c == 8239
    || c == 8287
    || c == 12288
    || c == 65279

unfoldable pub skip_spaces : Text → Text
unfolding is_space
skip_spaces [] = []
skip_spaces (c ∷ cs) = let rest = skip_spaces cs in if is_space c then rest else c ∷ cs

-- One more decimal digit, if it is there.
unfoldable pub third_digit : ℕ → Text → List ℕ × Text
unfolding is_digit
third_digit n [] = (n ∷ [], [])
third_digit n (c ∷ cs) = if is_digit c then ((n * 10 + (c - b'0')) ∷ [], cs) else (n ∷ [], c ∷ cs)

unfoldable pub second_digit : ℕ → Text → List ℕ × Text
unfolding is_digit third_digit
second_digit n [] = (n ∷ [], [])
second_digit n (c ∷ cs) =
    if is_digit c then third_digit (n * 10 + (c - b'0')) cs else (n ∷ [], c ∷ cs)

-- After `\x`: two hexadecimal digits, or the letter x by itself.
unfoldable pub hex_pair : Option ℕ → Option ℕ → Text → Text → List ℕ × Text
hex_pair (some h) (some l) rest cs = ((h * 16 + l) ∷ [], rest)
hex_pair _ _ rest cs = (b'x' ∷ [], cs)

unfoldable pub hex_escape : Text → List ℕ × Text
unfolding hex_value hex_pair
hex_escape (a ∷ b ∷ rest) = hex_pair (hex_value a) (hex_value b) rest (a ∷ b ∷ rest)
hex_escape cs = (b'x' ∷ [], cs)

-- What follows a backslash: the bytes that it stands for, and the rest of the text.
unfoldable pub escape_code : ℕ → Text → List ℕ × Text
unfolding is_digit second_digit hex_escape skip_spaces
escape_code next cs =
    if is_digit next
    then (let (bytes, rest) = second_digit (next - b'0') cs in (of_units bytes, rest))
    else if next == b'x' || next == b'X'
    then hex_escape cs
    else if next == b'a'
    then (7 ∷ [], cs)
    else if next == b'b'
    then (8 ∷ [], cs)
    else if next == b'f'
    then (12 ∷ [], cs)
    else if next == b'n'
    then (10 ∷ [], cs)
    else if next == b'r'
    then (13 ∷ [], cs)
    else if next == b't'
    then (9 ∷ [], cs)
    else if next == b'v'
    then (11 ∷ [], cs)
    else if next == 92
    then (92 ∷ [], cs)
    else if next == 34
    then (34 ∷ [], cs)
    else if next == 39
    then (39 ∷ [], cs)
    else if next == b'z'
    then ([], skip_spaces cs)
    else (next ∷ [], cs)

-- A backslash at the end stands for itself.
unfoldable pub unescape : Text → List ℕ × Text
unfolding escape_code
unescape [] = (92 ∷ [], [])
unescape (next ∷ cs) = escape_code next cs

-- One round of the loop.
unfoldable pub decode_one : ℕ → Text → List ℕ × Text
unfolding unescape
decode_one c cs = if c == 92 then unescape cs else ((c % 256) ∷ [], cs)

unfoldable pub decode : ℕ → Text → List ℕ
unfolding decode_one
decode zero cs = []
decode (suc fuel) [] = []
decode (suc fuel) (c ∷ cs) = let (bytes, rest) = decode_one c cs in bytes ++ decode fuel rest

-- Each round takes a unit of the text away, so its length is fuel enough.
unfoldable pub decode_all : Text → Bytes
unfolding decode
decode_all cs = of_units (decode (length cs) cs)

unfoldable pub starts_with : ℕ → Text → Bool
starts_with q [] = false
starts_with q (c ∷ cs) = c == q

unfoldable pub ends_with : ℕ → Text → Bool
ends_with q [] = false
ends_with q (c ∷ []) = c == q
ends_with q (c ∷ d ∷ cs) = ends_with q (d ∷ cs)

unfoldable pub drop_last : Text → Text
drop_last [] = []
drop_last (c ∷ []) = []
drop_last (c ∷ d ∷ cs) = c ∷ drop_last (d ∷ cs)

-- `slice(1, -1)`
unfoldable pub inner : Text → Text
unfolding drop_last
inner [] = []
inner (c ∷ cs) = drop_last cs

-- The pattern `^\[(=*)\[([\s\S]*?)\]\1\]$`: `level` counts the `=` of the opening bracket.
unfoldable pub close_bracket : ℕ → Text
close_bracket zero = b']' ∷ []
close_bracket (suc n) = b'=' ∷ close_bracket n

unfoldable pub same_text : Text → Text → Bool
same_text [] [] = true
same_text (a ∷ as') (b ∷ bs) = a == b && same_text as' bs
same_text _ _ = false

-- The content, if the text ends in the closing bracket.
unfoldable pub before_close : ℕ → Text → Option Text
unfolding same_text close_bracket
before_close level [] = none
before_close level (c ∷ cs) =
    let rest = before_close level cs in
    if same_text (c ∷ cs) (b']' ∷ close_bracket level)
    then some []
    else elim rest [ none ↦ none | some content ↦ some (c ∷ content) ]

unfoldable pub after_open : ℕ → Text → Option Text
unfolding before_close
after_open level [] = none
after_open level (c ∷ cs) =
    let more = after_open (suc level) cs in
    if c == b'=' then more else if c == b'[' then before_close level cs else none

unfoldable pub long_bracket : Text → Option Text
unfolding after_open
long_bracket [] = none
long_bracket (c ∷ cs) = if c == b'[' then after_open 0 cs else none

unfoldable pub skip_newline : Text → Text
skip_newline [] = []
skip_newline (c ∷ cs) = if c == 10 then cs else c ∷ cs

unfoldable pub is_quoted : Text → Bool
unfolding starts_with ends_with
is_quoted raw = (starts_with 34 raw && ends_with 34 raw) || (starts_with 39 raw && ends_with 39 raw)

unfoldable pub from_lua_literal : Text → Bytes
unfolding is_quoted inner long_bracket skip_newline decode_all
from_lua_literal raw =
    if is_quoted raw
    then decode_all (inner raw)
    else if starts_with b'[' raw && ends_with b']' raw
    then elim (long_bracket raw) [
      | none ↦ decode_all raw
      | some content ↦ of_units (skip_newline content)
    ]
    else decode_all raw
