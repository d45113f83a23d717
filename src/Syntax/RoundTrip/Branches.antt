-- ===== src/Syntax/RoundTrip/Branches.antt =====
-- packages/core/src: `if` statements are read back, if their parts are.
use valax_wearedevs_deobfusc.Prelude.{
  String, ℕ, suc, ◌≡◌, refl, ap, ◌∙◌, Bool, true, false, [], ◌∷◌, ◌++◌, append_assoc,
}
use valax_wearedevs_deobfusc.Bytes.Defs.{Text}
use valax_wearedevs_deobfusc.Syntax.Tokens.{
  keyword, type_name, k_if, k_else, k_elseif, k_then, Keyword, k_end,
}
use valax_wearedevs_deobfusc.Syntax.Tree.{
  Expr, Block, if_statement, done, statement, Clauses, no_clauses, clause, Else, no_else, else_body,
}
use valax_wearedevs_deobfusc.Syntax.Result.{Result, ok, bind, Kinds, peek, advance, is, consume}
use valax_wearedevs_deobfusc.Syntax.Parse.Heads.{binary_precedence, suffix_of}
use valax_wearedevs_deobfusc.Syntax.Generate.Pieces.{token, Pieces, kinds, kinds-append, space}
use valax_wearedevs_deobfusc.Syntax.Generate.Write.{
  expression, block, write, word, line, clauses, otherwise,
}
use valax_wearedevs_deobfusc.Syntax.RoundTrip.Form.{
  form, statement_form, clause_forms, else_form, block_form,
}
use valax_wearedevs_deobfusc.Syntax.RoundTrip.Operands.{Reads}
use valax_wearedevs_deobfusc.Syntax.Parse.Statements.{
  parse_block, parse_statement, parse_clauses, parse_else, parse_if_statement,
}
use valax_wearedevs_deobfusc.Syntax.RoundTrip.Enough.{Enough, at_once, after, and_then}
use valax_wearedevs_deobfusc.Syntax.RoundTrip.Nodes.{Reads-whole}
use valax_wearedevs_deobfusc.Syntax.RoundTrip.Functions.{ReadsBlock}
use valax_wearedevs_deobfusc.Syntax.RoundTrip.Follow.{
  begins_if, BlockEnds, ends_end, ends_elseif, ends_else,
}
use valax_wearedevs_deobfusc.Syntax.RoundTrip.Loops.{ReadsStatement, ReadsStatement-of}

module _ {N : Type 0} (indent : Text) (number_text : N → Text) (level : ℕ) where
  -- What `parse_clauses` does behind a condition and its block.
  abbrev next_clauses : Expr N → Block N × Kinds N → ℕ → ℕ → Result (Clauses N × Kinds N)
  next_clauses c (b, ks3) g f = elim (is "ELSEIF" (peek ks3)) [
    | false ↦ ok (clause c b no_clauses, ks3)
    | true ↦
        bind
          (parse_clauses (parse_block g) "Expected 'then' after elseif condition" f (advance ks3))
          λ (cs, rest). ok (clause c b cs, rest)
  ]

  pub record ReadsClauses (cs : Clauses N) : Type 0 where
    pub closes :
        (rest : Kinds N)
        → BlockEnds (peek rest)
        → BlockEnds (peek (kinds (clauses indent number_text level k_elseif cs) ++ rest))
    pub reads_clauses :
        (c : Expr N) (b : Block N) (rest : Kinds N)
        → is "ELSEIF" (peek rest) ≡ false
        → BlockEnds (peek rest)
        → Enough
            (next_clauses c (b, kinds (clauses indent number_text level k_elseif cs) ++ rest))
            (ok (clause c b (clause_forms number_text cs), rest))

  pub ReadsClauses-none : ReadsClauses no_clauses
  unfolding clauses kinds clause_forms
  ReadsClauses-none = record {
    closes = λ rest h. h;
    reads_clauses = λ c b rest h k. at_once λ g f.
        ap
          (λ (t : Bool). elim t [
            | false ↦ ok (clause c b no_clauses, rest)
            | true ↦
                bind
                  (parse_clauses (parse_block g) "Expected 'then' after elseif condition" (suc f)
                    (advance rest))
                  λ (cs, rest). ok (clause c b cs, rest)
          ])
          h;
  }

  kinds-clause :
      (k : Keyword) (ps bs cs : Pieces N) (rest : Kinds N)
      → kinds (
            line indent number_text level (word k ++ ps ++ space ∷ token (keyword k_then) ∷ [])
            ++ bs
            ++ cs)
          ++ rest
        ≡ keyword k ∷ (kinds ps ++ (keyword k_then ∷ (kinds bs ++ (kinds cs ++ rest))))
  unfolding kinds line
  kinds-clause k ps bs cs rest = simp (append_assoc, kinds-append) refl

  pub clause_read :
      (message : String) (c : Expr N) (b : Block N) (cs : Clauses N) (rest : Kinds N)
      → Reads indent number_text level c
      → ReadsBlock indent number_text (suc level) b
      → ReadsClauses cs
      → is "ELSEIF" (peek rest) ≡ false
      → BlockEnds (peek rest)
      → Enough
          (λ g f. parse_clauses (parse_block g) message f (
            kinds (expression indent number_text level c)
            ++ (keyword k_then
                ∷ (kinds (block indent number_text (suc level) b)
                    ++ (kinds (clauses indent number_text level k_elseif cs) ++ rest)))))
          (ok (clause_forms number_text (clause c b cs), rest))
  unfolding parse_clauses clause_forms binary_precedence suffix_of consume is type_name
  clause_read message c b cs rest h k l s t =
      after _ (λ g f. refl)
        (and_then
          (λ (c, ks1) g f.
            bind (consume "THEN" message ks1)
              λ ks2. bind (parse_block g ks2) λ d. next_clauses c d g f)
          (Reads-whole indent number_text level c _ h
            (record { no_operator = refl; no_suffix_follows = refl })).enough
          (and_then (λ d g f. next_clauses (form number_text c) d g f)
            (k.reads_block _ (l.closes rest t)) (l.reads_clauses _ _ rest s t)))

  pub ReadsClauses-clause :
      (c : Expr N) (b : Block N) (cs : Clauses N)
      → Reads indent number_text level c
      → ReadsBlock indent number_text (suc level) b
      → ReadsClauses cs
      → ReadsClauses (clause c b cs)
  unfolding clauses clause_forms is type_name
  ReadsClauses-clause c b cs h k l = record {
    closes = λ rest t.
        rw
          (kinds-clause k_elseif (expression indent number_text level c)
            (block indent number_text (suc level) b) (clauses indent number_text level k_elseif cs)
            rest)
          ends_elseif;
    reads_clauses = λ c' b' rest s t.
        rw
          (kinds-clause k_elseif (expression indent number_text level c)
            (block indent number_text (suc level) b) (clauses indent number_text level k_elseif cs)
            rest)
          (and_then (λ (cs, rest) g f. ok (clause c' b' cs, rest))
            (clause_read "Expected 'then' after elseif condition" c b cs rest h k l s t)
            (at_once λ g f. refl));
  }

  pub record ReadsElse (e : Else N) : Type 0 where
    pub behind :
        (rest : Kinds N)
        → BlockEnds (peek (kinds (otherwise indent number_text level e) ++ (keyword k_end ∷ rest)))
          × (is "ELSEIF"
                (peek (kinds (otherwise indent number_text level e) ++ (keyword k_end ∷ rest)))
              ≡ false)
    pub reads_else :
        (rest : Kinds N)
        → Enough
            (λ g f.
              parse_else
                (parse_block g)
                (kinds (otherwise indent number_text level e) ++ (keyword k_end ∷ rest)))
            (ok (else_form number_text e, keyword k_end ∷ rest))

  pub ReadsElse-none : ReadsElse no_else
  unfolding otherwise kinds else_form parse_else is type_name
  ReadsElse-none = record {
    behind = λ rest. (ends_end, refl);
    reads_else = λ rest. at_once λ g f. refl;
  }

  kinds-else :
      (bs : Pieces N) (rest : Kinds N)
      → kinds (line indent number_text level (token (keyword k_else) ∷ []) ++ bs) ++ rest
        ≡ keyword k_else ∷ (kinds bs ++ rest)
  unfolding kinds line
  kinds-else bs rest = refl

  else_read :
      (b : Block N) (rest : Kinds N)
      → ReadsBlock indent number_text (suc level) b
      → Enough
          (λ g f. parse_else (parse_block g) (
            keyword k_else
            ∷ (kinds (block indent number_text (suc level) b) ++ (keyword k_end ∷ rest))))
          (ok (else_body (block_form number_text b), keyword k_end ∷ rest))
  unfolding parse_else is type_name
  else_read b rest h =
      and_then (λ (b, rest) g f. ok (else_body b, rest)) (h.reads_block _ ends_end)
        (at_once λ g f. refl)

  -- An empty block behind `else` is left out.
  pub ReadsElse-body :
      (b : Block N) → ReadsBlock indent number_text (suc level) b → ReadsElse (else_body b)
  unfolding otherwise else_form is type_name
  ReadsElse-body done h =
      unfold kinds parse_else in
      record { behind = λ rest. (ends_end, refl); reads_else = λ rest. at_once λ g f. refl }
  ReadsElse-body (statement s b) h = record {
    behind = λ rest.
        rw
          (kinds-else (block indent number_text (suc level) (statement s b)) (keyword k_end ∷ rest))
          (ends_else, refl);
    reads_else = λ rest.
        rw
          (kinds-else (block indent number_text (suc level) (statement s b)) (keyword k_end ∷ rest))
          (else_read (statement s b) rest h);
  }

  kinds-if :
      (cs es : Pieces N) (rest : Kinds N)
      → kinds (cs ++ es ++ line indent number_text level (token (keyword k_end) ∷ [])) ++ rest
        ≡ kinds cs ++ (kinds es ++ (keyword k_end ∷ rest))
  unfolding kinds line
  kinds-if cs es rest = simp (append_assoc, kinds-append) refl

  pub Reads-if :
      (c : Expr N) (b : Block N) (cs : Clauses N) (e : Else N)
      → Reads indent number_text level c
      → ReadsBlock indent number_text (suc level) b
      → ReadsClauses cs
      → ReadsElse e
      → ReadsStatement indent number_text level (if_statement (clause c b cs) e)
  unfolding write clauses statement_form parse_statement parse_if_statement consume is type_name
  Reads-if c b cs e h k l o =
      ReadsStatement-of indent number_text level (if_statement (clause c b cs) e) _
        (λ rest.
          kinds-if (clauses indent number_text level k_if (clause c b cs))
            (otherwise indent number_text level e) rest
          ∙ kinds-clause k_if (expression indent number_text level c)
              (block indent number_text (suc level) b)
              (clauses indent number_text level k_elseif cs)
              (kinds (otherwise indent number_text level e) ++ (keyword k_end ∷ rest)))
        (λ rest. begins_if)
        (λ rest f.
          and_then
            (λ (cs, ks1) g f. bind (parse_else (parse_block g) ks1) λ (e, ks2).
              bind (consume "END" "Expected 'end' to close if statement" ks2)
                λ rest. ok (if_statement cs e, rest))
            (clause_read "Expected 'then' after if condition" c b cs _ h k l (o.behind rest).1
              (o.behind rest).0)
            (and_then
              (λ (e, ks2) g f.
                bind (consume "END" "Expected 'end' to close if statement" ks2)
                  λ rest. ok (if_statement (clause_forms number_text (clause c b cs)) e, rest))
              (o.reads_else rest) (at_once λ g f. refl)))
