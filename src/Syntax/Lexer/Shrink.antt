-- ===== src/Syntax/Lexer/Shrink.antt =====
-- packages/core/src/lexer/lexer.js: a round of `tokenize` ends in an error or takes a character away.
use valax_wearedevs_deobfusc.Prelude.{
  ℕ, suc, ◌+◌, ◌≤◌, ◌≡◌, refl, arith, inl, inr, Bool, true, false, not, ◌&&◌, ◌||◌, Option, none,
  some, Option-cases, Bool-cases, List, [], ◌∷◌, length, ◌==◌, if◌then◌else◌, String,
}
use valax_wearedevs_deobfusc.Bytes.Defs.{Text}
use valax_wearedevs_deobfusc.Bytes.Literal.{is_digit}
use valax_wearedevs_deobfusc.Syntax.Tokens.{Token}
use valax_wearedevs_deobfusc.Syntax.Result.{Result, ok, parse_error, bind}
use valax_wearedevs_deobfusc.Syntax.Lexer.Cursor.{
  Cursor, peek, peek_next, first_of, drop_one, past, advance, advance_by, read_run,
}
use valax_wearedevs_deobfusc.Syntax.Lexer.Words.{is_name_start, is_name_part, punctuation}
use valax_wearedevs_deobfusc.Syntax.Lexer.Tokenize.{
  before_closing, open_bracket, backtrack, skip_line, skip_all, skip_bracket, skip_comment,
  string_in, read_string, read_bracket, read_punctuation, read_plain, round_bracket, round_string,
  round_comment, round, is_blank,
}
use valax_wearedevs_deobfusc.Syntax.Lexer.Left.{
  left, past_text, advance-left, advance-strict, advance_by-left, advance_by-strict, read_run-left,
  read_run-strict, read_number-strict,
}

-- What a round comes to: an error, or fewer characters left.
pub data Shrinks {A : Type 0} (cur : Cursor) : Result (A × Cursor) → Type 0 where
  fails : (message : String) → Shrinks cur (parse_error message)
  takes : (a : A) (last : Cursor) → suc (left last) ≤ left cur → Shrinks cur (ok (a, last))

if-Shrinks :
    {A : Type 0} (cur : Cursor) (b : Bool) (x y : Result (A × Cursor))
    → (b ≡ true → Shrinks cur x)
    → (b ≡ false → Shrinks cur y)
    → Shrinks cur (if b then x else y)
if-Shrinks cur true x y h k = h refl
if-Shrinks cur false x y h k = k refl

-- What is done with the result of a run from a later cursor.
carry :
    {A B : Type 0} (cur mid : Cursor) (f : A → Cursor → B) (r : Result (A × Cursor))
    → left mid ≤ left cur
    → Shrinks mid r
    → Shrinks cur (bind r λ (a, last). ok (f a last, last))
carry cur mid f r h (fails m) = fails m
carry cur mid f r h (takes a last k) = takes (f a last) last (omega arith)

string_in-Shrinks :
    (quote : ℕ) (escaped : Bool) (cs : Text) (cur : Cursor)
    → cur.text ≡ cs
    → Shrinks cur (string_in quote escaped cs cur)
unfolding string_in
string_in-Shrinks quote escaped [] cur e = fails _
string_in-Shrinks quote escaped (c ∷ cs) cur e =
    let step = past_text c cs cur in
    let rest =
      carry cur (past c cs cur) (λ raw last. c ∷ raw)
        (string_in quote (not escaped && c == 92) cs (past c cs cur)) (ground (arith, e, step))
        (string_in-Shrinks quote (not escaped && c == 92) cs (past c cs cur) step) in
    if-Shrinks cur (escaped || c == 92) _ _ (λ h. rest)
      (λ h.
        if-Shrinks cur (c == quote) _ _
          (λ h. takes (c ∷ []) (past c cs cur) (ground (arith, e, step)))
          (λ h. if-Shrinks cur (c == 10 || c == 13) _ _ (λ h. fails _) (λ h. rest)))

open_bracket-strict :
    (cur inside : Cursor) (level : ℕ)
    → 1 ≤ left cur
    → open_bracket cur ≡ some (level, inside)
    → suc (left inside) ≤ left cur
unfolding open_bracket
open_bracket-strict cur inside level h e =
    let run = read_run (λ c. c == b'=') ([], advance cur) in
    ground (
      arith,
      e,
      advance-left run.1,
      read_run-left (λ c. c == b'=') ([], advance cur),
      advance-strict cur h,
    )

skip_bracket-left : (level : ℕ) (cur : Cursor) → left (skip_bracket level cur) ≤ left cur
unfolding skip_bracket skip_all
skip_bracket-left level cur = elim (Option-cases (before_closing level cur.text)) [
  | inl n ↦ rw (skip_bracket, n) (advance_by-left (length cur.text) cur)
  | inr (content, e) ↦ rw (skip_bracket, e) (advance_by-left (length content + (level + 2)) cur)
]

skip_line-left : (cur : Cursor) → left (skip_line cur) ≤ left cur
unfolding skip_line
skip_line-left cur = read_run-left (λ c. not (c == 10)) ([], cur)

backtrack-text : (cur : Cursor) → (backtrack cur).text ≡ cur.text
unfolding backtrack
backtrack-text cur = refl

skip_comment-strict : (cur : Cursor) → 1 ≤ left cur → suc (left (skip_comment cur)) ≤ left cur
unfolding skip_comment
skip_comment-strict cur h =
    let mid = advance_by 2 cur in
    let first = advance_by-strict 1 cur h in
    elim (Bool-cases (peek mid == b'[' && (peek_next mid == b'[' || peek_next mid == b'='))) [
      | inl k ↦ elim (Option-cases (open_bracket mid)) [
        | inl n ↦ rw (k, n) (ground (arith, skip_line-left (backtrack mid), backtrack-text mid))
        | inr ((level, inside), e) ↦
            rw (k, e)
              (ground (
                arith,
                skip_bracket-left level inside,
                advance_by-left 2 cur,
                open_bracket-strict mid inside level,
              ))
      ]
      | inr k ↦ rw (k) (ground (arith, skip_line-left mid))
    ]

module _ {N : Type 0} (number_of : Text → N) where
  read_string-Shrinks : (cur : Cursor) → Shrinks cur (read_string number_of cur)
  unfolding read_string
  read_string-Shrinks cur =
      carry cur (advance cur) _ (string_in (peek cur) false (advance cur).text (advance cur))
        (advance-left cur)
        (string_in-Shrinks (peek cur) false (advance cur).text (advance cur) refl)

  read_bracket-Shrinks :
      (cur inside : Cursor) (level : ℕ)
      → suc (left inside) ≤ left cur
      → Shrinks cur (read_bracket number_of cur level inside)
  unfolding read_bracket
  read_bracket-Shrinks cur inside level h = elim (Option-cases (before_closing level inside.text)) [
    | inl n ↦ rw (read_bracket, n) (fails _)
    | inr (content, e) ↦
        rw (read_bracket, e)
          (takes _ _ (ground (arith, h, advance_by-left (length content + (level + 2)) inside)))
  ]

  read_punctuation-Shrinks :
      (cur : Cursor) → 1 ≤ left cur → Shrinks cur (read_punctuation number_of cur)
  unfolding read_punctuation
  read_punctuation-Shrinks cur h =
      elim (Option-cases
        (punctuation (peek cur) (peek_next cur) (first_of (drop_one (drop_one cur.text))))) [
          | inl n ↦ rw (read_punctuation, n) (fails _)
          | inr ((s, n), e) ↦ rw (read_punctuation, e) (takes _ _ (advance_by-strict n cur h))
        ]

  read_plain-Shrinks : (cur : Cursor) → 1 ≤ left cur → Shrinks cur (read_plain number_of cur)
  unfolding read_plain
  read_plain-Shrinks cur h =
      if-Shrinks cur (is_digit (peek cur) || (peek cur == b'.' && is_digit (peek_next cur))) _ _
        (λ e. takes _ _ (read_number-strict cur h e))
        (λ n.
          if-Shrinks cur (is_name_start (peek cur)) _ _
            (λ e.
              takes _ _ (
                read_run-strict is_name_part ([], cur) h
                  (unfold is_name_part in ground (arith, e))))
            (λ n. read_punctuation-Shrinks cur h))

  at_backtrack :
      (cur : Cursor) (r : Result (List (Token N) × Cursor))
      → Shrinks (backtrack cur) r
      → Shrinks cur r
  at_backtrack cur r (fails m) = fails m
  at_backtrack cur r (takes a last h) = takes a last (ground (arith, h, backtrack-text cur))

  bracket-Shrinks :
      (cur : Cursor) (o : Option (ℕ × Cursor))
      → open_bracket cur ≡ o
      → 1 ≤ left cur
      → Shrinks cur (elim o [
        | some (level, inside) ↦ read_bracket number_of cur level inside
        | none ↦ read_plain number_of (backtrack cur)
      ])
  bracket-Shrinks cur none e h =
      at_backtrack cur _
        (read_plain-Shrinks (backtrack cur) (ground (arith, h, backtrack-text cur)))
  bracket-Shrinks cur (some (level, inside)) e h =
      read_bracket-Shrinks cur inside level (open_bracket-strict cur inside level h e)

  round_string-Shrinks : (cur : Cursor) → 1 ≤ left cur → Shrinks cur (round_string number_of cur)
  unfolding round_string round_bracket
  round_string-Shrinks cur h =
      if-Shrinks cur (peek cur == 34 || peek cur == 39) (read_string number_of cur)
        (round_bracket number_of cur) (λ e. read_string-Shrinks cur)
        (λ n.
          if-Shrinks cur (peek cur == b'[' && (peek_next cur == b'[' || peek_next cur == b'=')) _
            (read_plain number_of cur) (λ e. bracket-Shrinks cur (open_bracket cur) refl h)
            (λ n. read_plain-Shrinks cur h))

  pub round-Shrinks : (cur : Cursor) → 1 ≤ left cur → Shrinks cur (round number_of cur)
  unfolding round round_comment
  round-Shrinks cur h =
      if-Shrinks cur (is_blank (peek cur)) (ok ([], advance cur)) (round_comment number_of cur)
        (λ e. takes [] (advance cur) (advance-strict cur h))
        (λ n.
          if-Shrinks cur (peek cur == b'-' && peek_next cur == b'-') (ok ([], skip_comment cur))
            (round_string number_of cur)
            (λ e. takes [] (skip_comment cur) (skip_comment-strict cur h))
            (λ n. round_string-Shrinks cur h))
