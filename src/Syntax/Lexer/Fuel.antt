-- ===== src/Syntax/Lexer/Fuel.antt =====
-- packages/core/src/lexer/lexer.js: the loop of `tokenize` ends.
use valax_wearedevs_deobfusc.Prelude.{
  ℕ, zero, suc, ◌≤◌, ◌≡◌, refl, arith, List, [], ◌∷◌, ◌++◌, length, String,
}
use valax_wearedevs_deobfusc.Bytes.Defs.{Text}
use valax_wearedevs_deobfusc.Syntax.Tokens.{Token, eof}
use valax_wearedevs_deobfusc.Syntax.Result.{Result, ok, parse_error, bind}
use valax_wearedevs_deobfusc.Syntax.Lexer.Cursor.{Cursor, start_of}
use valax_wearedevs_deobfusc.Syntax.Lexer.Tokenize.{round, token_at, tokenize_from, tokenize}
use valax_wearedevs_deobfusc.Syntax.Lexer.Closed.{
  is_eof, AreOpen, IsClosed, closed_end, IsClosed-append, IsOpen, opens, round-IsOpen,
}
use valax_wearedevs_deobfusc.Syntax.Lexer.Left.{left}
use valax_wearedevs_deobfusc.Syntax.Lexer.Shrink.{Shrinks, round-Shrinks, fails, takes}

module _ {N : Type 0} (number_of : Text → N) where
  -- What the loop comes to: tokens with one end behind them, or an error of the source text.
  pub data Ends : Result (List (Token N)) → Type 0 where
    ends_error : (message : String) → Ends (parse_error message)
    ends_tokens : (ts : List (Token N)) → IsClosed ts → Ends (ok ts)

  prepend :
      (ts : List (Token N)) (r : Result (List (Token N)))
      → AreOpen ts
      → Ends r
      → Ends (bind r λ rest. ok (ts ++ rest))
  prepend ts r o (ends_error m) = ends_error m
  prepend ts r o (ends_tokens rest h) = ends_tokens (ts ++ rest) (IsClosed-append ts rest o h)

  after_round :
      (f : ℕ) (cur : Cursor) (r : Result (List (Token N) × Cursor))
      → Shrinks cur r
      → IsOpen r
      → left cur ≤ f
      → ((last : Cursor) → suc (left last) ≤ f → Ends (tokenize_from number_of f last))
      → Ends (bind r λ (ts, last). bind (tokenize_from number_of f last) λ rest. ok (ts ++ rest))
  after_round f cur r (fails m) o p h = ends_error m
  after_round f cur r (takes ts last k) (opens _ _ o) p h = prepend ts _ o (h last (omega arith))

  at_text :
      (f : ℕ) (cur : Cursor) (cs : Text)
      → cur.text ≡ cs
      → left cur ≤ f
      → ((last : Cursor) → suc (left last) ≤ f → Ends (tokenize_from number_of f last))
      → Ends (elim cs [
        | [] ↦ ok (token_at number_of cur eof [] ∷ [])
        | c ∷ cs ↦
            bind
              (round number_of cur)
              λ (ts, last). bind (tokenize_from number_of f last) λ rest. ok (ts ++ rest)
      ])
  unfolding is_eof
  at_text f cur [] e p h = ends_tokens _ (closed_end _ refl)
  at_text f cur (c ∷ cs) e p h =
      after_round f cur _ (round-Shrinks number_of cur (ground (arith, e)))
        (round-IsOpen number_of cur) p h

  loop-Ends : (f : ℕ) (cur : Cursor) → suc (left cur) ≤ f → Ends (tokenize_from number_of f cur)
  unfolding tokenize_from
  loop-Ends zero cur h = absurd (omega arith)
  loop-Ends (suc f) cur h = at_text f cur cur.text refl (omega arith) (loop-Ends f)

  -- The lexer ends on every source text: with one of its errors, or with
  -- tokens of which the last is the end of the source and no other is.
  pub tokenize-Ends : (source : Text) → Ends (tokenize number_of source)
  unfolding tokenize
  tokenize-Ends source = loop-Ends (suc (length source)) (start_of source) (omega arith)
