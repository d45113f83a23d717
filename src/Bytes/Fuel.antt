-- ===== src/Bytes/Fuel.antt =====
-- packages/shared/src/bytestring.js: the loop of `fromLuaLiteral` ends, and where `toLuaLiteral`
-- writes a text that reads back as other bytes.
use valax_wearedevs_deobfusc.Prelude.{
  ℕ, zero, suc, ◌+◌, ◌-◌, ◌*◌, ◌<◌, ◌≤◌, ◌≡◌, ◌≢◌, refl, ap, ◌∙◌, sym, true, false, Option, some,
  List, [], ◌∷◌, ◌++◌, length, All, arith,
}
use valax_wearedevs_deobfusc.Bytes.Defs.{
  Bytes, Text, of_units, escape_letter, escape_byte, escape_bytes, to_lua_literal,
}
use valax_wearedevs_deobfusc.Bytes.Literal.{
  is_digit, third_digit, second_digit, skip_spaces, hex_pair, hex_value, hex_escape, escape_code,
  unescape, decode_one, decode, decode_all, from_lua_literal,
}
use valax_wearedevs_deobfusc.Bytes.RoundTrip.{
  IsQuote, digit_first, merges, decode_next, escape_none,
}
use valax_wearedevs_deobfusc.Bytes.Inverse.{
  IsByte, quoted, of_units_bytes, length-escape, digit_first-escape, decode_escaped,
}

third_digit-rest : (n : ℕ) (cs : Text) → length (third_digit n cs).1 ≤ length cs
unfolding third_digit
third_digit-rest n [] = omega arith
third_digit-rest n (c ∷ cs) = ground arith

second_digit-rest : (n : ℕ) (cs : Text) → length (second_digit n cs).1 ≤ length cs
unfolding second_digit
second_digit-rest n [] = omega arith
second_digit-rest n (c ∷ cs) = ground (arith, third_digit-rest (n * 10 + (c - 48)) cs)

skip_spaces-rest : (cs : Text) → length (skip_spaces cs) ≤ length cs
unfolding skip_spaces
skip_spaces-rest [] = omega arith
skip_spaces-rest (c ∷ cs) = ground (arith, skip_spaces-rest cs)

hex_pair-rest :
    (a b : Option ℕ) (rest cs : Text) (n : ℕ)
    → length rest ≤ n
    → length cs ≤ n
    → length (hex_pair a b rest cs).1 ≤ n
unfolding hex_pair
hex_pair-rest (some a) (some b) rest cs n h k = h
hex_pair-rest _ _ rest cs n h k = k

hex_escape-rest : (cs : Text) → length (hex_escape cs).1 ≤ length cs
unfolding hex_escape
hex_escape-rest (a ∷ b ∷ rest) =
    hex_pair-rest (hex_value a) (hex_value b) rest (a ∷ b ∷ rest) _ (omega arith) (omega arith)
hex_escape-rest (a ∷ []) = omega arith
hex_escape-rest [] = omega arith

escape_code-rest : (c : ℕ) (cs : Text) → length (escape_code c cs).1 ≤ length cs
unfolding escape_code
escape_code-rest c cs =
    ground (arith, second_digit-rest (c - 48) cs, hex_escape-rest cs, skip_spaces-rest cs)

decode_one-rest : (c : ℕ) (cs : Text) → length (decode_one c cs).1 ≤ length cs
unfolding decode_one unescape
decode_one-rest c [] = ground arith
decode_one-rest c (d ∷ cs) = ground (arith, escape_code-rest d cs)

-- Fuel of at least the text's length gives one result, whatever the text: the loop of
-- `fromLuaLiteral` has ended by then.
pub decode_fuel : (f g : ℕ) (cs : Text) → length cs ≤ f → length cs ≤ g → decode f cs ≡ decode g cs
unfolding decode
decode_fuel zero zero [] h k = refl
decode_fuel zero (suc g) [] h k = refl
decode_fuel (suc f) zero [] h k = refl
decode_fuel (suc f) (suc g) [] h k = refl
decode_fuel zero g (c ∷ cs) h k = absurd (omega arith)
decode_fuel (suc f) zero (c ∷ cs) h k = absurd (omega arith)
decode_fuel (suc f) (suc g) (c ∷ cs) h k =
    ap (λ (r : List ℕ). (decode_one c cs).0 ++ r)
      (decode_fuel f g (decode_one c cs).1 (omega (arith, decode_one-rest c cs))
        (omega (arith, decode_one-rest c cs)))

merged_value :
    (d : ℕ) (rest : Text)
    → is_digit d ≡ true
    → digit_first rest ≡ false
    → decode_one 92 (48 ∷ d ∷ rest) ≡ ((d - 48) ∷ [], rest)
unfolding decode_one second_digit third_digit is_digit digit_first
merged_value d [] h k = ground arith
merged_value d (c ∷ rest) h k = ground arith

digit_byte : (d : ℕ) → is_digit d ≡ true → (d - 48) < 256
unfolding is_digit
digit_byte d h = ground arith

digit-plain : (q d : ℕ) → IsQuote q → is_digit d ≡ true → escape_byte q d ≡ d ∷ []
unfolding is_digit
digit-plain q d k h = escape_none q d (unfold escape_letter in ground arith) ∙ ground arith

merged_text :
    (q d : ℕ) (bs : Bytes)
    → IsQuote q
    → is_digit d ≡ true
    → escape_bytes q (0 ∷ d ∷ bs) ≡ 92 ∷ 48 ∷ d ∷ escape_bytes q bs
unfolding escape_bytes
merged_text q d bs k h = ap (λ (t : Text). 92 ∷ 48 ∷ (t ++ escape_bytes q bs)) (digit-plain q d k h)

merged_read :
    (q d : ℕ) (bs : Bytes)
    → IsQuote q
    → is_digit d ≡ true
    → digit_first bs ≡ false
    → All IsByte bs
    → merges bs ≡ false
    → from_lua_literal (to_lua_literal q (0 ∷ d ∷ bs)) ≡ (d - 48) ∷ bs
unfolding to_lua_literal decode_all
merged_read q d bs k h n b m =
    let text = escape_bytes q bs in
    let fuel = suc (suc (length text)) in
    quoted q (escape_bytes q (0 ∷ d ∷ bs)) k
    ∙ (ap decode_all (merged_text q d bs k h)
        ∙ (ap of_units (
              decode_next fuel 92 (d - 48) (48 ∷ d ∷ text) text
                (merged_value d text h (digit_first-escape q bs k ∙ n))
              ∙ ap (λ (r : Bytes). (d - 48) ∷ r)
                  (decode_escaped fuel q bs k b m (omega (arith, length-escape q bs))))
            ∙ of_units_bytes ((d - 48) ∷ bs) (digit_byte d h, b)))

-- The defect: a NUL byte is written `\0`, so a digit that follows it becomes part of the escape. A
-- NUL and one digit read back as the one byte of that value, and the digit is lost.
pub nul_before_digit :
    (q d : ℕ) (bs : Bytes)
    → IsQuote q
    → is_digit d ≡ true
    → digit_first bs ≡ false
    → All IsByte bs
    → merges bs ≡ false
    → (from_lua_literal (to_lua_literal q (0 ∷ d ∷ bs)) ≡ (d - 48) ∷ bs)
      × (from_lua_literal (to_lua_literal q (0 ∷ d ∷ bs)) ≢ 0 ∷ d ∷ bs)
unfolding to_lua_literal
nul_before_digit q d bs k h n b m =
    let e = merged_read q d bs k h n b m in
    (e, λ p. absurd (omega (arith, ap (λ (l : Bytes). length l) (sym e ∙ p))))
