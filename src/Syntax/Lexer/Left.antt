-- ===== src/Syntax/Lexer/Left.antt =====
-- packages/core/src/lexer/lexer.js: how many characters each reading leaves.
use valax_wearedevs_deobfusc.Prelude.{
  ℕ, zero, suc, ◌≤◌, ◌≡◌, refl, arith, inl, inr, Bool, true, false, not, ◌&&◌, ◌||◌, Bool-cases, [],
  ◌∷◌, length, ◌==◌,
}
use valax_wearedevs_deobfusc.Bytes.Defs.{Text}
use valax_wearedevs_deobfusc.Bytes.Literal.{is_digit}
use valax_wearedevs_deobfusc.Syntax.Lexer.Cursor.{
  Cursor, peek, peek_next, first_of, past, advance, advance_in, advance_by, Reading, run_in,
  read_run, read_one, read_if,
}
use valax_wearedevs_deobfusc.Syntax.Lexer.Words.{
  read_number, read_hex, read_decimal, read_fraction, read_exponent, read_sign, read_letter,
  hex_fraction, decimal_fraction, is_hex, is_either,
}

-- The characters behind a cursor.
abbrev pub left : Cursor → ℕ
left cur = length cur.text

pub past_text : (c : ℕ) (cs : Text) (cur : Cursor) → (past c cs cur).text ≡ cs
unfolding past
past_text c cs cur = ground arith

advance_in-left : (cs : Text) (cur : Cursor) → cur.text ≡ cs → left (advance_in cs cur) ≤ left cur
unfolding advance_in
advance_in-left [] cur h = omega arith
advance_in-left (c ∷ cs) cur h = ground (arith, past_text c cs cur)

pub advance-left : (cur : Cursor) → left (advance cur) ≤ left cur
unfolding advance
advance-left cur = advance_in-left cur.text cur refl

advance_in-strict :
    (cs : Text) (cur : Cursor)
    → cur.text ≡ cs
    → 1 ≤ length cs
    → suc (left (advance_in cs cur)) ≤ left cur
unfolding advance_in
advance_in-strict [] cur h p = absurd (omega arith)
advance_in-strict (c ∷ cs) cur h p = ground (arith, past_text c cs cur)

pub advance-strict : (cur : Cursor) → 1 ≤ left cur → suc (left (advance cur)) ≤ left cur
unfolding advance
advance-strict cur h = advance_in-strict cur.text cur refl h

pub advance_by-left : (n : ℕ) (cur : Cursor) → left (advance_by n cur) ≤ left cur
unfolding advance_by
advance_by-left zero cur = omega arith
advance_by-left (suc n) cur = ground (arith, advance_by-left n (advance cur), advance-left cur)

pub advance_by-strict :
    (n : ℕ) (cur : Cursor) → 1 ≤ left cur → suc (left (advance_by (suc n) cur)) ≤ left cur
unfolding advance_by
advance_by-strict n cur h = ground (arith, advance_by-left n (advance cur), advance-strict cur h)

run_in-left :
    (p : ℕ → Bool) (cs : Text) (cur : Cursor) → cur.text ≡ cs → left (run_in p cs cur).1 ≤ left cur
unfolding run_in
run_in-left p [] cur h = omega arith
run_in-left p (c ∷ cs) cur h =
    ground (arith, past_text c cs cur, run_in-left p cs (past c cs cur) (past_text c cs cur))

run_in-strict :
    (p : ℕ → Bool) (cs : Text) (cur : Cursor)
    → cur.text ≡ cs
    → 1 ≤ length cs
    → p (first_of cs) ≡ true
    → suc (left (run_in p cs cur).1) ≤ left cur
unfolding run_in first_of
run_in-strict p [] cur h k e = absurd (omega arith)
run_in-strict p (c ∷ cs) cur h k e =
    ground (arith, past_text c cs cur, run_in-left p cs (past c cs cur) (past_text c cs cur))

pub read_run-left : (p : ℕ → Bool) (r : Reading) → left (read_run p r).1 ≤ left r.1
unfolding read_run
read_run-left p (raw, cur) = run_in-left p cur.text cur refl

pub read_run-strict :
    (p : ℕ → Bool) (r : Reading)
    → 1 ≤ left r.1
    → p (peek r.1) ≡ true
    → suc (left (read_run p r).1) ≤ left r.1
unfolding read_run
read_run-strict p (raw, cur) h e = run_in-strict p cur.text cur refl h e

read_one-left : (r : Reading) → left (read_one r).1 ≤ left r.1
unfolding read_one
read_one-left (raw, cur) = advance-left cur

read_one-strict : (r : Reading) → 1 ≤ left r.1 → suc (left (read_one r).1) ≤ left r.1
unfolding read_one
read_one-strict (raw, cur) h = advance-strict cur h

read_if-left : (b : Bool) (r : Reading) → left (read_if b r).1 ≤ left r.1
unfolding read_if
read_if-left true r = read_one-left r
read_if-left false r = omega arith

read_sign-left : (r : Reading) → left (read_sign r).1 ≤ left r.1
unfolding read_sign
read_sign-left (raw, cur) = read_if-left (is_either b'+' b'-' (peek cur)) (raw, cur)

read_letter-left : (b : Bool) (r : Reading) → left (read_letter b r).1 ≤ left r.1
unfolding read_letter
read_letter-left true r = ground (
  arith,
  read_run-left is_digit (read_sign (read_one r)),
  read_sign-left (read_one r),
  read_one-left r,
)
read_letter-left false r = omega arith

read_exponent-left : (a b : ℕ) (r : Reading) → left (read_exponent a b r).1 ≤ left r.1
unfolding read_exponent
read_exponent-left a b (raw, cur) = read_letter-left (is_either a b (peek cur)) (raw, cur)

read_fraction-left :
    (p : ℕ → Bool) (here : Bool) (r : Reading) → left (read_fraction p here r).1 ≤ left r.1
unfolding read_fraction
read_fraction-left p true r = ground (arith, read_run-left p (read_one r), read_one-left r)
read_fraction-left p false r = omega arith

read_fraction-strict :
    (p : ℕ → Bool) (here : Bool) (r : Reading)
    → here ≡ true
    → 1 ≤ left r.1
    → suc (left (read_fraction p here r).1) ≤ left r.1
unfolding read_fraction
read_fraction-strict p true r e h =
    ground (arith, read_run-left p (read_one r), read_one-strict r h)
read_fraction-strict p false r e h = absurd (cc e)

hex_fraction-left : (r : Reading) → left (hex_fraction r).1 ≤ left r.1
unfolding hex_fraction
hex_fraction-left (raw, cur) = read_fraction-left is_hex (peek cur == b'.') (raw, cur)

decimal_fraction-left : (r : Reading) → left (decimal_fraction r).1 ≤ left r.1
unfolding decimal_fraction
decimal_fraction-left (raw, cur) =
    read_fraction-left is_digit (peek cur == b'.' && not (peek_next cur == b'.')) (raw, cur)

read_hex-strict : (cur : Cursor) → 1 ≤ left cur → suc (left (read_hex cur).1) ≤ left cur
unfolding read_hex
read_hex-strict cur h =
    let one = read_one ([], cur) in
    let two = read_one one in
    let run = read_run is_hex two in
    ground (
      arith,
      read_exponent-left b'p' b'P' (hex_fraction run),
      hex_fraction-left run,
      read_run-left is_hex two,
      read_one-left one,
      read_one-strict ([], cur) h,
    )

run_in-stops :
    (p : ℕ → Bool) (cs : Text) (cur : Cursor) → p (first_of cs) ≡ false → (run_in p cs cur).1 ≡ cur
unfolding run_in first_of
run_in-stops p [] cur h = refl
run_in-stops p (c ∷ cs) cur h = ground (arith, h)

no_run : (p : ℕ → Bool) (cur : Cursor) → p (peek cur) ≡ false → (read_run p ([], cur)).1 ≡ cur
unfolding read_run
no_run p cur h = run_in-stops p cur.text cur h

decimal_point :
    (r : Reading) (cur : Cursor)
    → r.1 ≡ cur
    → 1 ≤ left cur
    → peek cur ≡ b'.'
    → is_digit (peek_next cur) ≡ true
    → suc (left (decimal_fraction r).1) ≤ left cur
unfolding decimal_fraction is_digit
decimal_point (raw, at) cur e h a b = ground (
  arith,
  e,
  a,
  b,
  read_fraction-strict is_digit (peek at == b'.' && not (peek_next at == b'.')) (raw, at),
)

read_decimal-strict :
    (cur : Cursor)
    → 1 ≤ left cur
    → (is_digit (peek cur) || (peek cur == b'.' && is_digit (peek_next cur))) ≡ true
    → suc (left (read_decimal cur).1) ≤ left cur
unfolding read_decimal
read_decimal-strict cur h e = elim (Bool-cases (is_digit (peek cur))) [
  | inl d ↦ ground (
    arith,
    read_exponent-left b'e' b'E' (decimal_fraction (read_run is_digit ([], cur))),
    decimal_fraction-left (read_run is_digit ([], cur)),
    read_run-strict is_digit ([], cur) h d,
  )
  | inr d ↦ ground (
    arith,
    d,
    read_exponent-left b'e' b'E' (decimal_fraction (read_run is_digit ([], cur))),
    decimal_point (read_run is_digit ([], cur)) cur (no_run is_digit cur d) h,
  )
]

pub read_number-strict :
    (cur : Cursor)
    → 1 ≤ left cur
    → (is_digit (peek cur) || (peek cur == b'.' && is_digit (peek_next cur))) ≡ true
    → suc (left (read_number cur).1) ≤ left cur
unfolding read_number
read_number-strict cur h e =
    elim (Bool-cases (peek cur == b'0' && is_either b'x' b'X' (peek_next cur))) [
      | inl k ↦ rw (k) (read_hex-strict cur h)
      | inr k ↦ rw (k) (read_decimal-strict cur h e)
    ]
