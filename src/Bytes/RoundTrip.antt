-- ===== src/Bytes/RoundTrip.antt =====
-- packages/shared/src/bytestring.js: what `toLuaLiteral` writes, `fromLuaLiteral` reads.
use valax_wearedevs_deobfusc.Prelude.{
  ℕ, suc, ◌+◌, ◌%◌, ◌/◌, ◌<◌, ◌≡◌, refl, ap, ◌∙◌, Bool, true, false, ◌&&◌, ◌||◌, ◌⊎◌, inl, inr,
  none, some, [], ◌∷◌, ◌++◌, arith, leb, ◌==◌, Bool-cases, Option-cases, if◌then◌else◌,
}
use valax_wearedevs_deobfusc.Bytes.Defs.{Bytes, Text, decimal_escape, escape_letter, escape_byte}
use valax_wearedevs_deobfusc.Bytes.Literal.{is_digit, decode_one, decode}

-- The quotes that Lua has.
abbrev pub IsQuote : ℕ → Type 0
IsQuote q = (q ≡ 34) ⊎ (q ≡ 39)

unfoldable pub digit_first : Text → Bool
unfolding is_digit
digit_first [] = false
digit_first (c ∷ cs) = is_digit c

-- A NUL byte stands before the byte of a digit.
unfoldable pub merges : Bytes → Bool
unfolding digit_first
merges [] = false
merges (b ∷ bs) = (b == 0 && digit_first bs) || merges bs

digits_value :
    (b : ℕ) (rest : Text)
    → b < 256
    → decode_one 92 ((48 + b / 100) ∷ (48 + b / 10 % 10) ∷ (48 + b % 10) ∷ rest) ≡ (b ∷ [], rest)
unfolding decode_one
digits_value b rest h = ground arith

zero_value : (rest : Text) → digit_first rest ≡ false → decode_one 92 (48 ∷ rest) ≡ (0 ∷ [], rest)
unfolding decode_one digit_first
zero_value [] h = refl
zero_value (c ∷ rest) h = rw h refl

letter_value :
    (b c : ℕ) (rest : Text)
    → escape_letter b ≡ some c
    → (b == 0) ≡ false
    → decode_one 92 (c ∷ rest) ≡ (b ∷ [], rest)
unfolding escape_letter decode_one
letter_value b c rest e z = ground arith

zero_letter : (b c : ℕ) → escape_letter b ≡ some c → (b == 0) ≡ true → c ≡ 48
unfolding escape_letter
zero_letter b c e z = ground arith

letter-none : (b : ℕ) → escape_letter b ≡ none → (b == 92) ≡ false
unfolding escape_letter
letter-none b e = ground arith

quote_value : (q : ℕ) (rest : Text) → IsQuote q → decode_one 92 (q ∷ rest) ≡ (q ∷ [], rest)
unfolding decode_one
quote_value q rest (inl e) = rw e refl
quote_value q rest (inr e) = rw e refl

plain_value :
    (b : ℕ) (rest : Text) → (b == 92) ≡ false → b < 256 → decode_one b rest ≡ (b ∷ [], rest)
unfolding decode_one
plain_value b rest n h = ground arith

pub decode_next :
    (f c b : ℕ) (cs rest : Text)
    → decode_one c cs ≡ (b ∷ [], rest)
    → decode (suc f) (c ∷ cs) ≡ b ∷ decode f rest
unfolding decode
decode_next f c b cs rest e = ap (λ r. r.0 ++ decode f r.1) e

pub escape_none :
    (q b : ℕ)
    → escape_letter b ≡ none
    → escape_byte q b
      ≡ (if b == q then 92 ∷ q ∷ [] else if leb 32 b && leb b 126 then b ∷ [] else decimal_escape b)
unfolding escape_byte
escape_none q b e = rw (e, escape_byte)

pub escape_some : (q b c : ℕ) → escape_letter b ≡ some c → escape_byte q b ≡ 92 ∷ c ∷ []
unfolding escape_byte
escape_some q b c e = rw (e, escape_byte)

letter :
    (b c : ℕ) (rest : Text)
    → escape_letter b ≡ some c
    → (b == 0 && digit_first rest) ≡ false
    → decode_one 92 (c ∷ rest) ≡ (b ∷ [], rest)
letter b c rest e z = elim (Bool-cases (b == 0)) [
  | inr n ↦ letter_value b c rest e n
  | inl y ↦
      ground
        (arith, ap (λ (d : ℕ). decode_one 92 (d ∷ rest)) (zero_letter b c e y), zero_value rest)
]

unlettered :
    (f q b : ℕ) (rest : Text)
    → IsQuote q
    → b < 256
    → (b == 92) ≡ false
    → decode (suc f) (
        (if b == q then 92 ∷ q ∷ [] else if leb 32 b && leb b 126 then b ∷ [] else decimal_escape b)
        ++ rest)
      ≡ b ∷ decode f rest
unfolding decimal_escape
unlettered f q b rest k h n = elim (Bool-cases (b == q)) [
  | inl e ↦ rw e (
      decode_next f 92 q (q ∷ rest) rest (quote_value q rest k)
      ∙ ap (λ (d : ℕ). d ∷ decode f rest) (ground arith))
  | inr d ↦ elim (Bool-cases (leb 32 b && leb b 126)) [
    | inl p ↦ rw (d, p) (decode_next f b b rest rest (plain_value b rest n h))
    | inr p ↦ rw (d, p) (decode_next f 92 b _ rest (digits_value b rest h))
  ]
]

-- One byte is read back, and the rest of the text is left.
pub decode_escape :
    (f q b : ℕ) (rest : Text)
    → IsQuote q
    → b < 256
    → (b == 0 && digit_first rest) ≡ false
    → decode (suc f) (escape_byte q b ++ rest) ≡ b ∷ decode f rest
decode_escape f q b rest k h z = elim (Option-cases (escape_letter b)) [
  | inr (c, e) ↦
      ap (λ t. decode (suc f) (t ++ rest)) (escape_some q b c e)
      ∙ decode_next f 92 b (c ∷ rest) rest (letter b c rest e z)
  | inl e ↦
      ap (λ t. decode (suc f) (t ++ rest)) (escape_none q b e)
      ∙ unlettered f q b rest k h (letter-none b e)
]
