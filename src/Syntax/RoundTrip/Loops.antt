-- ===== src/Syntax/RoundTrip/Loops.antt =====
-- packages/core/src: loops and blocks as statements are read back, if their parts are.
use valax_wearedevs_deobfusc.Prelude.{ℕ, suc, ◌≡◌, refl, ap, [], ◌∷◌, ◌++◌, append_assoc}
use valax_wearedevs_deobfusc.Bytes.Defs.{Text}
use valax_wearedevs_deobfusc.Syntax.Tokens.{
  keyword, type_name, k_do, k_while, k_repeat, k_until, k_break, k_continue, k_end,
}
use valax_wearedevs_deobfusc.Syntax.Tree.{
  Expr, Block, Statement, while_statement, repeat_statement, do_statement, break_statement,
  continue_statement,
}
use valax_wearedevs_deobfusc.Syntax.Result.{ok, bind, skip, Kinds, peek, is, consume}
use valax_wearedevs_deobfusc.Syntax.Parse.Heads.{binary_precedence, suffix_of}
use valax_wearedevs_deobfusc.Syntax.Parse.Expressions.{parse_sub}
use valax_wearedevs_deobfusc.Syntax.Generate.Pieces.{token, Pieces, kinds, kinds-append, space}
use valax_wearedevs_deobfusc.Syntax.Generate.Write.{expression, block, write, word, line}
use valax_wearedevs_deobfusc.Syntax.RoundTrip.Form.{form, statement_form, block_form}
use valax_wearedevs_deobfusc.Syntax.RoundTrip.Operands.{Reads}
use valax_wearedevs_deobfusc.Syntax.Parse.Statements.{
  parse_block, parse_statement, parse_while_statement, parse_repeat_statement,
}
use valax_wearedevs_deobfusc.Syntax.RoundTrip.Enough.{Enough, at_once, and_then}
use valax_wearedevs_deobfusc.Syntax.RoundTrip.Nodes.{Reads-whole}
use valax_wearedevs_deobfusc.Syntax.RoundTrip.Functions.{ReadsBlock}
use valax_wearedevs_deobfusc.Syntax.RoundTrip.Follow.{
  Begins, begins_while, begins_repeat, begins_do, begins_break, begins_continue, ends_end,
  ends_until, Follows, Free-Follows, EndsList-Free, skip-Free,
}

module _ {N : Type 0} (indent : Text) (number_text : N → Text) (level : ℕ) where
  pub record ReadsStatement (s : Statement N) : Type 0 where
    pub begins : (rest : Kinds N) → Begins (peek (kinds (write indent number_text level s) ++ rest))
    pub reads_statement :
        (rest : Kinds N)
        → Follows (peek rest)
        → Enough
            (λ g f.
              parse_statement (parse_block g) f (kinds (write indent number_text level s) ++ rest))
            (ok (statement_form number_text s, rest))

  -- On the tokens `ts rest` of the statement.
  pub ReadsStatement-of :
      (s : Statement N) (ts : Kinds N → Kinds N)
      → ((rest : Kinds N) → kinds (write indent number_text level s) ++ rest ≡ ts rest)
      → ((rest : Kinds N) → Begins (peek (ts rest)))
      → ((rest : Kinds N)
          → Follows (peek rest)
          → Enough
              (λ g f. parse_statement (parse_block g) f (ts rest))
              (ok (statement_form number_text s, rest)))
      → ReadsStatement s
  ReadsStatement-of s ts same begin read = record {
    begins = λ rest. rw (same) (begin rest);
    reads_statement = λ rest h. rw (same) (read rest h);
  }

  -- `exprToString` with `do` behind it, as all loops have it.
  kinds-while :
      (ps qs : Pieces N) (rest : Kinds N)
      → kinds (
            line indent number_text level (word k_while ++ ps ++ space ∷ token (keyword k_do) ∷ [])
            ++ qs
            ++ line indent number_text level (token (keyword k_end) ∷ []))
          ++ rest
        ≡ keyword k_while ∷ (kinds ps ++ (keyword k_do ∷ (kinds qs ++ (keyword k_end ∷ rest))))
  unfolding kinds line
  kinds-while ps qs rest = simp (append_assoc, kinds-append) refl

  pub Reads-while :
      (c : Expr N) (b : Block N)
      → Reads indent number_text level c
      → ReadsBlock indent number_text (suc level) b
      → ReadsStatement (while_statement c b)
  unfolding write statement_form parse_statement parse_while_statement binary_precedence suffix_of
      consume is type_name
  Reads-while c b hc hb =
      ReadsStatement-of (while_statement c b) _
        (kinds-while (expression indent number_text level c)
          (block indent number_text (suc level) b))
        (λ rest. begins_while)
        (λ rest k.
          and_then
            (λ (c, ks1) g f. bind (consume "DO" "Expected 'do' after while condition" ks1) λ ks2.
              bind (parse_block g ks2) λ (b, ks3).
                bind (consume "END" "Expected 'end' to close while loop" ks3)
                  λ rest. ok (while_statement c b, rest))
            (Reads-whole indent number_text level c _ hc
              (record { no_operator = refl; no_suffix_follows = refl })).enough
            (and_then
              (λ (b, ks3) g f.
                bind (consume "END" "Expected 'end' to close while loop" ks3)
                  λ rest. ok (while_statement (form number_text c) b, rest))
              (hb.reads_block _ ends_end) (at_once λ g f. refl)))

  kinds-repeat :
      (ps qs : Pieces N) (rest : Kinds N)
      → kinds (
            line indent number_text level (token (keyword k_repeat) ∷ [])
            ++ qs
            ++ line indent number_text level (word k_until ++ ps))
          ++ rest
        ≡ keyword k_repeat ∷ (kinds qs ++ (keyword k_until ∷ (kinds ps ++ rest)))
  unfolding kinds line
  kinds-repeat ps qs rest = simp (append_assoc, kinds-append) refl

  pub Reads-repeat :
      (c : Expr N) (b : Block N)
      → Reads indent number_text level c
      → ReadsBlock indent number_text (suc level) b
      → ReadsStatement (repeat_statement c b)
  unfolding write statement_form parse_statement parse_repeat_statement consume is type_name
  Reads-repeat c b hc hb =
      ReadsStatement-of (repeat_statement c b) _
        (kinds-repeat (expression indent number_text level c)
          (block indent number_text (suc level) b))
        (λ rest. begins_repeat)
        (λ rest k.
          let free = Free-Follows k in
          and_then
            (λ (b, ks1) g f. bind (consume "UNTIL" "Expected 'until' after repeat block" ks1) λ ks2.
              bind (parse_sub (parse_block g) f 0 ks2)
                λ (c, rest). ok (repeat_statement c b, skip ";" rest))
            (hb.reads_block _ ends_until)
            (and_then
              (λ (c, rest) g f. ok (repeat_statement c (block_form number_text b), skip ";" rest))
              (Reads-whole indent number_text level c rest hc (EndsList-Free rest free).ends).enough
              (at_once λ g f.
                ap (λ l. ok (statement_form number_text (repeat_statement c b), l))
                  (skip-Free rest free))))

  kinds-do :
      (qs : Pieces N) (rest : Kinds N)
      → kinds (
            line indent number_text level (token (keyword k_do) ∷ [])
            ++ qs
            ++ line indent number_text level (token (keyword k_end) ∷ []))
          ++ rest
        ≡ keyword k_do ∷ (kinds qs ++ (keyword k_end ∷ rest))
  unfolding kinds line
  kinds-do qs rest = simp (append_assoc, kinds-append) refl

  pub Reads-do :
      (b : Block N) → ReadsBlock indent number_text (suc level) b → ReadsStatement (do_statement b)
  unfolding write statement_form parse_statement consume is type_name
  Reads-do b hb =
      ReadsStatement-of (do_statement b) _ (kinds-do (block indent number_text (suc level) b))
        (λ rest. begins_do)
        (λ rest k.
          and_then
            (λ (b, ks1) g f.
              bind (consume "END" "Expected 'end' to close 'do' block" ks1)
                λ rest. ok (do_statement b, rest))
            (hb.reads_block _ ends_end) (at_once λ g f. refl))

  pub Reads-break : ReadsStatement break_statement
  unfolding write statement_form parse_statement kinds line
  Reads-break =
      ReadsStatement-of break_statement (λ rest. keyword k_break ∷ rest) (λ rest. refl)
        (λ rest. begins_break)
        (λ rest k.
          at_once (λ g f. ap (λ l. ok (break_statement, l)) (skip-Free rest (Free-Follows k))))

  pub Reads-continue : ReadsStatement continue_statement
  unfolding write statement_form parse_statement kinds line
  Reads-continue =
      ReadsStatement-of continue_statement (λ rest. keyword k_continue ∷ rest) (λ rest. refl)
        (λ rest. begins_continue)
        (λ rest k.
          at_once (λ g f. ap (λ l. ok (continue_statement, l)) (skip-Free rest (Free-Follows k))))
