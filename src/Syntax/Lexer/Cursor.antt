-- ===== src/Syntax/Lexer/Cursor.antt =====
-- packages/core/src/lexer/lexer.js: `peek`, `advance`, and the loops that read while a test holds.
use valax_wearedevs_deobfusc.Prelude.{
  ℕ, zero, suc, Bool, true, false, [], ◌∷◌, ◌++◌, ◌==◌, if◌then◌else◌,
}
use valax_wearedevs_deobfusc.Bytes.Defs.{Text}

-- The source from `pos` on, with `pos`, `line` and `col`.
pub record Cursor : Type 0 where
  pub text : Text
  pub pos : ℕ
  pub line : ℕ
  pub column : ℕ

abbrev pub start_of : Text → Cursor
start_of source = record { text = source; pos = 0; line = 1; column = 1 }

-- `peek`: the character of code 0 stands for the end.
unfoldable pub first_of : Text → ℕ
first_of [] = 0
first_of (c ∷ cs) = c

unfoldable pub drop_one : Text → Text
drop_one [] = []
drop_one (c ∷ cs) = cs

abbrev pub peek : Cursor → ℕ
peek cur = first_of cur.text

abbrev pub peek_next : Cursor → ℕ
peek_next cur = first_of (drop_one cur.text)

-- What one character does to the place.
unfoldable pub past : ℕ → Text → Cursor → Cursor
past c cs cur =
    if c == 10
    then record { text = cs; pos = suc cur.pos; line = suc cur.line; column = 1 }
    else record { text = cs; pos = suc cur.pos; line = cur.line; column = suc cur.column }

unfoldable pub advance_in : Text → Cursor → Cursor
unfolding past
advance_in [] cur = cur
advance_in (c ∷ cs) cur = past c cs cur

unfoldable pub advance : Cursor → Cursor
unfolding advance_in
advance cur = advance_in cur.text cur

unfoldable pub advance_by : ℕ → Cursor → Cursor
unfolding advance
advance_by zero cur = cur
advance_by (suc n) cur = advance_by n (advance cur)

-- `while (test(this.peek())) raw += this.advance()`, on the text behind the cursor. No test holds of the end.
unfoldable pub run_in : (ℕ → Bool) → Text → Cursor → Text × Cursor
unfolding past
run_in p [] cur = ([], cur)
run_in p (c ∷ cs) cur =
    let (raw, after) = run_in p cs (past c cs cur) in if p c then (c ∷ raw, after) else ([], cur)

-- What was read so far, with the cursor behind it.
abbrev pub Reading : Type 0
Reading = Text × Cursor

unfoldable pub read_run : (ℕ → Bool) → Reading → Reading
unfolding run_in
read_run p (raw, cur) = let (more, after) = run_in p cur.text cur in (raw ++ more, after)

-- `raw += this.advance()`
unfoldable pub read_one : Reading → Reading
unfolding first_of advance
read_one (raw, cur) = (raw ++ peek cur ∷ [], advance cur)

unfoldable pub read_if : Bool → Reading → Reading
unfolding read_one
read_if true r = read_one r
read_if false r = r
