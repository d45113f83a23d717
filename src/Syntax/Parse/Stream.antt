-- ===== src/Syntax/Parse/Stream.antt =====
-- packages/core/src/parser/parser.js: the parser's place in the tokens of the lexer.
use valax_wearedevs_deobfusc.Prelude.{
  ℕ, zero, suc, ◌-◌, ◌≡◌, refl, ap, ◌∙◌, arith, true, Option, none, some, List, [], ◌∷◌, length,
  ltb, if◌then◌else◌,
}
use valax_wearedevs_deobfusc.Syntax.Tokens.{
  Kind, keyword, symbol, ident, number, string, inherited, eof, Token,
}
use valax_wearedevs_deobfusc.Syntax.Result.{Kinds, peek, advance}
use valax_wearedevs_deobfusc.Syntax.Lexer.Closed.{is_eof, IsClosed, closed_end, closed_more}

index_step :
    (pos n : ℕ)
    → (if ltb (suc pos) (suc (suc n)) then suc pos else suc (suc n) - 1)
      ≡ suc (if ltb pos (suc n) then pos else suc n - 1)
index_step pos n = ground arith

index_first : (n : ℕ) → (if ltb 0 (suc n) then 0 else suc n - 1) ≡ 0
index_first n = ground arith

index_last : (pos : ℕ) → (if ltb (suc pos) 1 then suc pos else 1 - 1) ≡ 0
index_last pos = ground arith

next_first : (n : ℕ) → (if ltb 0 (suc (suc n) - 1) then suc zero else zero) ≡ suc zero
next_first n = ground arith

module _ {N : Type 0} where
  -- `tokens[i]`
  unfoldable pub token_of : List (Token N) → ℕ → Option (Token N)
  token_of [] i = none
  token_of (t ∷ ts) zero = some t
  token_of (t ∷ ts) (suc i) = token_of ts i

  -- `peek`
  unfoldable pub peek_at : List (Token N) → ℕ → Option (Token N)
  unfolding token_of
  peek_at ts pos = token_of ts (if ltb pos (length ts) then pos else length ts - 1)

  -- The place that `advance` leaves.
  unfoldable pub next_pos : List (Token N) → ℕ → ℕ
  next_pos ts pos = if ltb pos (length ts - 1) then suc pos else pos

  -- The kinds of all tokens but the last.
  unfoldable pub kinds_of : List (Token N) → Kinds N
  kinds_of [] = []
  kinds_of (t ∷ []) = []
  kinds_of (t ∷ u ∷ ts) = t.kind ∷ kinds_of (u ∷ ts)

  unfoldable pub from : ℕ → Kinds N → Kinds N
  from zero ks = ks
  from (suc n) [] = []
  from (suc n) (k ∷ ks) = from n ks

  eof_of : (k : Kind N) → is_eof k ≡ true → k ≡ eof
  unfolding is_eof
  eof_of eof e = refl
  eof_of (keyword k) e = absurd (cc e)
  eof_of (symbol s) e = absurd (cc e)
  eof_of (ident x) e = absurd (cc e)
  eof_of (number n raw) e = absurd (cc e)
  eof_of (string s raw) e = absurd (cc e)
  eof_of (inherited x) e = absurd (cc e)

  abbrev pub kind_of : Option (Token N) → Option (Kind N)
  kind_of none = none
  kind_of (some t) = some t.kind

  from-nil : (n : ℕ) → from n [] ≡ []
  unfolding from
  from-nil zero = refl
  from-nil (suc n) = refl

  peek_step :
      (t u : Token N) (ts : List (Token N)) (pos : ℕ)
      → peek_at (t ∷ u ∷ ts) (suc pos) ≡ peek_at (u ∷ ts) pos
  unfolding peek_at token_of
  peek_step t u ts pos = ap (token_of (t ∷ u ∷ ts)) (index_step pos (length ts))

  next_step :
      (t u : Token N) (ts : List (Token N)) (pos : ℕ)
      → next_pos (t ∷ u ∷ ts) (suc pos) ≡ suc (next_pos (u ∷ ts) pos)
  unfolding next_pos
  next_step t u ts pos = ground arith

  peek_at_lem :
      (ts : List (Token N)) (pos : ℕ)
      → IsClosed ts
      → kind_of (peek_at ts pos) ≡ some (peek (from pos (kinds_of ts)))
  unfolding peek_at token_of from kinds_of
  peek_at_lem [] pos h = elim h [ ]
  peek_at_lem (t ∷ []) zero (closed_more _ _ e h) = elim h [ ]
  peek_at_lem (t ∷ []) (suc pos) (closed_more _ _ e h) = elim h [ ]
  peek_at_lem (t ∷ []) zero (closed_end _ e) = ap some (eof_of t.kind e)
  peek_at_lem (t ∷ []) (suc pos) (closed_end _ e) =
      ap (λ n. kind_of (token_of (t ∷ []) n)) (index_last pos) ∙ ap some (eof_of t.kind e)
  peek_at_lem (t ∷ u ∷ ts) zero (closed_more _ _ e h) =
      ap (λ n. kind_of (token_of (t ∷ u ∷ ts) n)) (index_first (suc (length ts)))
  peek_at_lem (t ∷ u ∷ ts) (suc pos) (closed_more _ _ e h) =
      ap kind_of (peek_step t u ts pos) ∙ peek_at_lem (u ∷ ts) pos h

  next_pos_lem :
      (ts : List (Token N)) (pos : ℕ)
      → IsClosed ts
      → from (next_pos ts pos) (kinds_of ts) ≡ advance (from pos (kinds_of ts))
  unfolding next_pos from kinds_of
  next_pos_lem [] pos h = elim h [ ]
  next_pos_lem (t ∷ []) zero h = refl
  next_pos_lem (t ∷ []) (suc pos) h = from-nil _
  next_pos_lem (t ∷ u ∷ ts) zero (closed_more _ _ e h) =
      ap (λ n. from n (t.kind ∷ kinds_of (u ∷ ts))) (next_first (length ts))
  next_pos_lem (t ∷ u ∷ ts) (suc pos) (closed_more _ _ e h) =
      ap (λ n. from n (t.kind ∷ kinds_of (u ∷ ts))) (next_step t u ts pos)
      ∙ next_pos_lem (u ∷ ts) pos h

  -- On tokens of which the last is the end of the source and no other is, `peek` at any place is a
  -- token, its kind is the first of the kinds before the end from that place on, or the end where none
  -- is left, and the place behind `advance` leaves those kinds without their first.
  pub peek_at-of_closed :
      (ts : List (Token N)) (pos : ℕ)
      → IsClosed ts
      → (kind_of (peek_at ts pos) ≡ some (peek (from pos (kinds_of ts))))
        × (from (next_pos ts pos) (kinds_of ts) ≡ advance (from pos (kinds_of ts)))
  peek_at-of_closed ts pos h = (peek_at_lem ts pos h, next_pos_lem ts pos h)
