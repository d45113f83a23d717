-- ===== src/Bytes/Defs.antt =====
-- packages/shared/src/bytestring.js: `ByteString`, as the list of its bytes. A JavaScript text is the
-- list of its UTF-16 code units.
use valax_wearedevs_deobfusc.Prelude.{
  ℕ, ◌+◌, ◌%◌, ◌/◌, Bool, true, false, ◌&&◌, ◌||◌, Option, none, some, List, [], ◌∷◌, ◌++◌, map,
  ltb, leb, ◌==◌, if◌then◌else◌,
}

abbrev pub Bytes : Type 0
Bytes = List ℕ

abbrev pub Text : Type 0
Text = List ℕ

-- `Buffer.from(array)` and `Buffer.from(text, 'latin1')`: each item is cut to a byte.
abbrev pub of_units : List ℕ → Bytes
of_units = map (λ n. n % 256)

-- `ByteString.equals`
unfoldable pub equals : Bytes → Bytes → Bool
equals [] [] = true
equals (a ∷ as') (b ∷ bs) = a == b && equals as' bs
equals _ _ = false

-- `ByteString.concat`
unfoldable pub concat : Bytes → Bytes → Bytes
concat a b = a ++ b

unfoldable pub is_printable_ascii : Bytes → Bool
is_printable_ascii [] = true
is_printable_ascii (b ∷ bs) =
    let rest = is_printable_ascii bs in
    if b == 9 || b == 10 || b == 13 then rest else if ltb b 32 || ltb 126 b then false else rest

-- `'\\' + String(b).padStart(3, '0')` for a byte
unfoldable pub decimal_escape : ℕ → Text
decimal_escape b = 92 ∷ (48 + b / 100) ∷ (48 + b / 10 % 10) ∷ (48 + b % 10) ∷ []

-- The letter behind the backslash, for the bytes that have one.
unfoldable pub escape_letter : ℕ → Option ℕ
escape_letter b =
    if b == 0
    then some b'0'
    else if b == 7
    then some b'a'
    else if b == 8
    then some b'b'
    else if b == 9
    then some b't'
    else if b == 10
    then some b'n'
    else if b == 11
    then some b'v'
    else if b == 12
    then some b'f'
    else if b == 13
    then some b'r'
    else if b == 92
    then some 92
    else none

-- The text for one byte, where the literal is quoted by `quote`.
unfoldable pub escape_byte : ℕ → ℕ → Text
unfolding escape_letter decimal_escape
escape_byte quote b = elim (escape_letter b) [
  | some c ↦ 92 ∷ c ∷ []
  | none ↦
      if b == quote
      then 92 ∷ quote ∷ []
      else if leb 32 b && leb b 126
      then b ∷ []
      else decimal_escape b
]

unfoldable pub escape_bytes : ℕ → Bytes → Text
unfolding escape_byte
escape_bytes quote [] = []
escape_bytes quote (b ∷ bs) = escape_byte quote b ++ escape_bytes quote bs

unfoldable pub to_lua_literal : ℕ → Bytes → Text
unfolding escape_bytes
to_lua_literal quote bs = quote ∷ (escape_bytes quote bs ++ quote ∷ [])
