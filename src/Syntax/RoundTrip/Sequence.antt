-- ===== src/Syntax/RoundTrip/Sequence.antt =====
-- packages/core/src: blocks are read back, if their statements are; `return` stands last.
use valax_wearedevs_deobfusc.Prelude.{
  ℕ, zero, suc, ◌+◌, ◌≤◌, ◌≡◌, refl, ap, ◌∙◌, arith, Bool, true, false, [], ◌∷◌, ◌++◌, append_assoc,
}
use valax_wearedevs_deobfusc.Bytes.Defs.{Text}
use valax_wearedevs_deobfusc.Syntax.Tokens.{keyword, k_return}
use valax_wearedevs_deobfusc.Syntax.Tree.{
  Expr, Exprs, nothing, item, Block, Statement, return_statement, empty_statement, done, statement,
}
use valax_wearedevs_deobfusc.Syntax.Result.{Result, ok, bind, skip, Kinds, peek, is_any}
use valax_wearedevs_deobfusc.Syntax.Parse.Expressions.{parse_list}
use valax_wearedevs_deobfusc.Syntax.Generate.Pieces.{Pieces, kinds, kinds-append}
use valax_wearedevs_deobfusc.Syntax.Generate.Write.{expressions, block, write, word, line}
use valax_wearedevs_deobfusc.Syntax.RoundTrip.Form.{forms, statement_form, block_form}
use valax_wearedevs_deobfusc.Syntax.RoundTrip.Printable.{IsSome, IsLast}
use valax_wearedevs_deobfusc.Syntax.RoundTrip.Operands.{Reads}
use valax_wearedevs_deobfusc.Syntax.Parse.Statements.{
  parse_block, block_ends, return_ends, parse_statement, parse_return,
}
use valax_wearedevs_deobfusc.Syntax.RoundTrip.Enough.{Enough, at_once, same_run, and_then}
use valax_wearedevs_deobfusc.Syntax.RoundTrip.Functions.{ReadsBlock}
use valax_wearedevs_deobfusc.Syntax.RoundTrip.Follow.{
  Begins, begins_return, BlockEnds, follows_end, follows_begin, Free-Follows, any_end,
  no_end-Begins, EndsList-Free, skip-Free,
}
use valax_wearedevs_deobfusc.Syntax.RoundTrip.Loops.{ReadsStatement}
use valax_wearedevs_deobfusc.Syntax.RoundTrip.Calls.{ReadsList}

module _ {N : Type 0} (indent : Text) (number_text : N → Text) (level : ℕ) where
  closed :
      (g : ℕ) (rest : Kinds N)
      → 1 ≤ g
      → BlockEnds (peek rest)
      → parse_block g rest ≡ ok (done, rest)
  unfolding parse_block
  closed zero rest p h = absurd (omega arith)
  closed (suc g) rest p h =
      ap
        (λ (b : Bool). elim b [
          | true ↦ ok (done, rest)
          | false ↦
              bind (parse_statement (parse_block g) g rest)
                λ (s, l). bind (parse_block g l) λ (b, l'). ok (statement s b, l')
        ])
        (any_end h).0

  opened :
      (g : ℕ) (s : Statement N) (b : Block N) (ks l rest : Kinds N) (c d : ℕ)
      → is_any block_ends (peek ks) ≡ false
      → ((g : ℕ) → c ≤ g → parse_statement (parse_block g) g ks ≡ ok (s, l))
      → ((g : ℕ) → d ≤ g → parse_block g l ≡ ok (b, rest))
      → suc (c + d) ≤ g
      → parse_block g ks ≡ ok (statement s b, rest)
  unfolding parse_block
  opened zero s b ks l rest c d e h k p = absurd (omega arith)
  opened (suc g) s b ks l rest c d e h k p =
      ap
        (λ (b : Bool). elim b [
          | true ↦ ok (done, ks)
          | false ↦
              bind (parse_statement (parse_block g) g ks)
                λ (s, l). bind (parse_block g l) λ (b, l'). ok (statement s b, l')
        ])
        e
      ∙ ap (λ x. bind x λ (s, l). bind (parse_block g l) λ (b, l'). ok (statement s b, l'))
          (h g (omega arith))
      ∙ ap (λ x. bind x λ (b, l'). ok (statement s b, l')) (k g (omega arith))

  sequence :
      (s : Statement N) (b : Block N) (ks l rest : Kinds N)
      → is_any block_ends (peek ks) ≡ false
      → Enough (λ g f. parse_statement (parse_block g) f ks) (ok (s, l))
      → Enough (λ g f. parse_block g l) (ok (b, rest))
      → Enough (λ g f. parse_block g ks) (ok (statement s b, rest))
  sequence s b ks l rest e h k = record {
    fuel = suc (h.fuel + k.fuel);
    result = λ g f p q.
        opened g s b ks l rest h.fuel k.fuel e (λ g r. h.result g g r r) (λ g r. k.result g g r r)
          p;
  }

  pub ReadsBlock-done : ReadsBlock indent number_text level done
  unfolding block kinds block_form
  ReadsBlock-done = record {
    heads = λ rest h. follows_end h;
    reads_block = λ rest h. record { fuel = 1; result = λ g f p q. closed g rest p h };
  }

  kinds-statement :
      (s : Statement N) (b : Block N) (rest : Kinds N)
      → kinds (block indent number_text level (statement s b)) ++ rest
        ≡ kinds (write indent number_text level s)
          ++ (kinds (block indent number_text level b) ++ rest)
  unfolding block
  kinds-statement s b rest = rw (kinds-append, append_assoc) refl

  pub ReadsBlock-empty :
      (b : Block N)
      → ReadsBlock indent number_text level b
      → ReadsBlock indent number_text level (statement empty_statement b)
  unfolding block block_form
  ReadsBlock-empty b h = record { heads = h.heads; reads_block = h.reads_block }

  pub ReadsBlock-statement :
      (s : Statement N) (b : Block N)
      → block_form number_text (statement s b)
        ≡ statement (statement_form number_text s) (block_form number_text b)
      → ReadsStatement indent number_text level s
      → ReadsBlock indent number_text level b
      → ReadsBlock indent number_text level (statement s b)
  ReadsBlock-statement s b e h k = record {
    heads = λ rest l. rw (kinds-statement s b rest) (follows_begin (h.begins _));
    reads_block = λ rest l.
        rw (kinds-statement s b rest, e)
          (sequence _ _ _ _ _ (no_end-Begins (h.begins _)) (h.reads_statement _ (k.heads rest l))
            (k.reads_block rest l));
  }

  -- `return` is read in front of the end of a block.
  pub record ReadsReturn (es : Exprs N) : Type 0 where
    pub begins_so :
        (rest : Kinds N)
        → Begins (peek (kinds (write indent number_text level (return_statement es)) ++ rest))
    pub reads_return :
        (rest : Kinds N)
        → BlockEnds (peek rest)
        → Enough
            (λ g f.
              parse_statement
                (parse_block g)
                f
                (kinds (write indent number_text level (return_statement es)) ++ rest))
            (ok (return_statement (forms number_text es), rest))

  -- What `return` does with the tokens behind it.
  abbrev return_behind : Kinds N → Bool → ℕ → ℕ → Result (Statement N × Kinds N)
  return_behind ks b g f = elim b [
    | true ↦ ok (return_statement nothing, skip ";" ks)
    | false ↦
        bind (parse_list (parse_block g) f ks) λ (es, rest). ok (return_statement es, skip ";" rest)
  ]

  return_read :
      (ks : Kinds N) (r : Result (Statement N × Kinds N)) (b : Bool)
      → is_any return_ends (peek ks) ≡ b
      → Enough (return_behind ks b) r
      → Enough (λ g f. parse_statement (parse_block g) f (keyword k_return ∷ ks)) r
  unfolding parse_statement parse_return
  return_read ks r b e h = same_run _ (λ g f. ap (λ b. return_behind ks b g f) e) h

  kinds-return :
      (ps : Pieces N) (rest : Kinds N)
      → kinds (line indent number_text level (word k_return ++ ps)) ++ rest
        ≡ keyword k_return ∷ (kinds ps ++ rest)
  unfolding kinds line
  kinds-return ps rest = simp (append_assoc, kinds-append) refl

  pub ReadsReturn-nothing : ReadsReturn nothing
  unfolding write kinds line forms
  ReadsReturn-nothing = record {
    begins_so = λ rest. begins_return;
    reads_return = λ rest h. return_read rest _ true (any_end h).1 (
        at_once λ g f.
          ap (λ l. ok (return_statement nothing, l))
            (skip-Free rest (Free-Follows (follows_end h))));
  }

  no_return_item :
      (e : Expr N) (es : Exprs N) (rest : Kinds N)
      → Reads indent number_text level e
      → is_any return_ends (peek (kinds (expressions indent number_text level (item e es)) ++ rest))
        ≡ false
  unfolding expressions
  no_return_item e es rest h = rw (kinds-append, append_assoc) (h.starts _).no_return

  pub ReadsReturn-item :
      (e : Expr N) (es : Exprs N)
      → Reads indent number_text level e
      → ReadsList indent number_text level (item e es)
      → ReadsReturn (item e es)
  unfolding write IsSome
  ReadsReturn-item e es s h = record {
    begins_so = λ rest.
        rw (kinds-return (expressions indent number_text level (item e es)) rest) begins_return;
    reads_return = λ rest k.
        rw (kinds-return (expressions indent number_text level (item e es)) rest) (
          return_read _ _ false (no_return_item e es rest s) (
            and_then (λ (es, rest) g f. ok (return_statement es, skip ";" rest))
              (h.reads_items rest tt (EndsList-Free rest (Free-Follows (follows_end k)))).enough
              (at_once λ g f.
                ap (λ l. ok (return_statement (forms number_text (item e es)), l))
                  (skip-Free rest (Free-Follows (follows_end k))))));
  }

  last_done :
      (b : Block N)
      → IsLast b
      → (kinds (block indent number_text level b) ≡ []) × (block_form number_text b ≡ done)
  unfolding IsLast block kinds block_form
  last_done done h = (refl, refl)
  last_done (statement empty_statement b) h = last_done b h
  last_done (statement s b) h = absurd h

  pub ReadsBlock-return :
      (es : Exprs N) (b : Block N)
      → IsLast b
      → ReadsReturn es
      → ReadsBlock indent number_text level (statement (return_statement es) b)
  unfolding block_form
  ReadsBlock-return es b last h = record {
    heads =
        λ rest l. rw (kinds-statement (return_statement es) b rest) (follows_begin (h.begins_so _));
    reads_block = λ rest l.
        rw
          (kinds-statement (return_statement es) b rest, (last_done b last).0, (last_done b last).1)
          (sequence _ _ _ _ _ (no_end-Begins (h.begins_so _)) (h.reads_return rest l)
            (record { fuel = 1; result = λ g f p q. closed g rest p l }));
  }
