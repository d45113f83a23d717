-- ===== src/Bytes/Inverse.antt =====
-- packages/shared/src/bytestring.js: whole literals, and how much fuel the decoder needs.
use valax_wearedevs_deobfusc.Prelude.{
  ℕ, zero, suc, ◌<◌, ◌≤◌, ◌≡◌, refl, ap, ◌∙◌, sym, true, false, ◌&&◌, inl, inr, some, [], ◌∷◌, ◌++◌,
  length, length-append, All, arith, leb, ◌==◌, Bool-cases, Option-cases, if◌then◌else◌,
}
use valax_wearedevs_deobfusc.Bytes.Defs.{
  Bytes, Text, of_units, decimal_escape, escape_letter, escape_byte, escape_bytes, to_lua_literal,
}
use valax_wearedevs_deobfusc.Bytes.Literal.{
  is_digit, decode, decode_all, is_quoted, ends_with, drop_last, inner, from_lua_literal,
}
use valax_wearedevs_deobfusc.Bytes.RoundTrip.{
  IsQuote, digit_first, merges, escape_none, escape_some, decode_escape,
}

abbrev pub IsByte : ℕ → Type 0
IsByte b = b < 256

pub of_units_bytes : (bs : Bytes) → All IsByte bs → of_units bs ≡ bs
of_units_bytes [] h = refl
of_units_bytes (b ∷ bs) h = ground (arith, of_units_bytes bs h.1)

-- The text of a byte is not empty.
escape_byte-cons : (q b : ℕ) → (c : ℕ) × (cs : Text) × (escape_byte q b ≡ c ∷ cs)
unfolding escape_byte decimal_escape
escape_byte-cons q b = elim (Option-cases (escape_letter b)) [
  | inr (c, e) ↦ rw (e, escape_byte) (92, c ∷ [], refl)
  | inl e ↦ elim (Bool-cases (b == q)) [
    | inl p ↦ rw (e, escape_byte, p) (92, q ∷ [], refl)
    | inr p ↦ elim (Bool-cases (leb 32 b && leb b 126)) [
      | inl r ↦ rw (e, escape_byte, p, r) (b, [], refl)
      | inr r ↦ rw (e, escape_byte, p, r) (92, _, refl)
    ]
  ]
]

pub length-escape : (q : ℕ) (bs : Bytes) → length bs ≤ length (escape_bytes q bs)
unfolding escape_bytes
length-escape q [] = omega arith
length-escape q (b ∷ bs) =
    let (c, cs, e) = escape_byte-cons q b in
    rw e (omega (arith, length-append cs (escape_bytes q bs), length-escape q bs))

letter-not-digit : (b c : ℕ) → escape_letter b ≡ some c → is_digit b ≡ false
unfolding escape_letter is_digit
letter-not-digit b c e = ground arith

unlettered-first :
    (q b : ℕ) (rest : Text)
    → IsQuote q
    → digit_first (
        (if b == q then 92 ∷ q ∷ [] else if leb 32 b && leb b 126 then b ∷ [] else decimal_escape b)
        ++ rest)
      ≡ is_digit b
unfolding digit_first decimal_escape
unlettered-first q b rest k = elim (Bool-cases (b == q)) [
  | inl e ↦ rw e (ground arith)
  | inr d ↦ elim (Bool-cases (leb 32 b && leb b 126)) [
    | inl p ↦ rw (d, p) refl
    | inr p ↦ rw (d, p) (ground arith)
  ]
]

-- A text that begins with a digit is the text of a byte string that does.
escape_byte-first :
    (q b : ℕ) (rest : Text) → IsQuote q → digit_first (escape_byte q b ++ rest) ≡ is_digit b
unfolding digit_first
escape_byte-first q b rest k = elim (Option-cases (escape_letter b)) [
  | inr (c, e) ↦
      ap (λ t. digit_first (t ++ rest)) (escape_some q b c e) ∙ sym (letter-not-digit b c e)
  | inl e ↦ ap (λ t. digit_first (t ++ rest)) (escape_none q b e) ∙ unlettered-first q b rest k
]

pub digit_first-escape :
    (q : ℕ) (bs : Bytes) → IsQuote q → digit_first (escape_bytes q bs) ≡ digit_first bs
unfolding escape_bytes digit_first
digit_first-escape q [] k = refl
digit_first-escape q (b ∷ bs) k = escape_byte-first q b (escape_bytes q bs) k

pub decode_escaped :
    (f q : ℕ) (bs : Bytes)
    → IsQuote q
    → All IsByte bs
    → merges bs ≡ false
    → length bs ≤ f
    → decode f (escape_bytes q bs) ≡ bs
unfolding escape_bytes merges
decode_escaped zero q [] k h m l = unfold decode in refl
decode_escaped (suc f) q [] k h m l = unfold decode in refl
decode_escaped zero q (b ∷ bs) k h m l = absurd (omega arith)
decode_escaped (suc f) q (b ∷ bs) k h m l =
    decode_escape f q b (escape_bytes q bs) k h.0 (ground (arith, digit_first-escape q bs k))
    ∙ ap (λ (r : Bytes). b ∷ r) (decode_escaped f q bs k h.1 (ground arith) (omega arith))

ends_with-append : (q : ℕ) (body : Text) → ends_with q (body ++ q ∷ []) ≡ true
unfolding ends_with
ends_with-append q [] = ground arith
ends_with-append q (c ∷ []) = ground arith
ends_with-append q (c ∷ d ∷ body) = ends_with-append q (d ∷ body)

drop_last-append : (q : ℕ) (body : Text) → drop_last (body ++ q ∷ []) ≡ body
unfolding drop_last
drop_last-append q [] = refl
drop_last-append q (c ∷ []) = refl
drop_last-append q (c ∷ d ∷ body) = ap (λ (r : Text). c ∷ r) (drop_last-append q (d ∷ body))

is_quoted-quotes : (q : ℕ) (body : Text) → IsQuote q → is_quoted (q ∷ (body ++ q ∷ [])) ≡ true
unfolding is_quoted
is_quoted-quotes q body k = ground (arith, ends_with-append q (q ∷ body))

-- A quoted text is decoded without its quotes.
pub quoted :
    (q : ℕ) (body : Text) → IsQuote q → from_lua_literal (q ∷ (body ++ q ∷ [])) ≡ decode_all body
unfolding from_lua_literal inner
quoted q body k =
    rw (is_quoted-quotes q body k, from_lua_literal) (ap decode_all (drop_last-append q body))

-- The literal of a byte string decodes to it, in either quote, if no NUL stands before a digit.
pub from-to_lua_literal :
    (q : ℕ) (bs : Bytes)
    → IsQuote q
    → All IsByte bs
    → merges bs ≡ false
    → from_lua_literal (to_lua_literal q bs) ≡ bs
unfolding to_lua_literal decode_all
from-to_lua_literal q bs k h m =
    quoted q (escape_bytes q bs) k
    ∙ (ap of_units (decode_escaped _ q bs k h m (length-escape q bs)) ∙ of_units_bytes bs h)
