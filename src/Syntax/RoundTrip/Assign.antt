-- ===== src/Syntax/RoundTrip/Assign.antt =====
-- packages/core/src: calls, assignments and `return` are read back, if their parts are.
use valax_wearedevs_deobfusc.Prelude.{
  ℕ, suc, ◌≡◌, refl, sym, ap, ◌∙◌, subst, Bool, true, false, ◌∷◌, ◌++◌, append_assoc,
}
use valax_wearedevs_deobfusc.Bytes.Defs.{Text}
use valax_wearedevs_deobfusc.Syntax.Tokens.{symbol, type_name, assign}
use valax_wearedevs_deobfusc.Syntax.Tree.{
  Expr, Exprs, nothing, item, Block, Statement, assignment, call_statement,
}
use valax_wearedevs_deobfusc.Syntax.Result.{
  Result, ok, parse_error, bind, skip, Kinds, peek, advance, is, is_any,
}
use valax_wearedevs_deobfusc.Syntax.Parse.Heads.{suffix_of, no_suffix, is_call}
use valax_wearedevs_deobfusc.Syntax.Parse.Expressions.{parse_list}
use valax_wearedevs_deobfusc.Syntax.Generate.Pieces.{Pieces, kinds, kinds-append}
use valax_wearedevs_deobfusc.Syntax.Generate.Write.{
  expression, expressions, more_expressions, block, write, equals_sign, line,
}
use valax_wearedevs_deobfusc.Syntax.RoundTrip.Form.{form, forms, statement_form}
use valax_wearedevs_deobfusc.Syntax.RoundTrip.Printable.{IsSome, StartsPlain}
use valax_wearedevs_deobfusc.Syntax.RoundTrip.Steps.{Prefix, Suffixes-stop}
use valax_wearedevs_deobfusc.Syntax.Parse.Statements.{
  parse_block, assignment_signs, parse_statement, more_targets, parse_call_or_assignment, compound,
}
use valax_wearedevs_deobfusc.Syntax.RoundTrip.Enough.{Enough, at_once, after, same_run, and_then}
use valax_wearedevs_deobfusc.Syntax.RoundTrip.Nodes.{Leads}
use valax_wearedevs_deobfusc.Syntax.RoundTrip.Follow.{
  Begins, begins_name, Free, Free-Follows, EndsList-Free, skip-Free,
}
use valax_wearedevs_deobfusc.Syntax.RoundTrip.Loops.{ReadsStatement, ReadsStatement-of}
use valax_wearedevs_deobfusc.Syntax.RoundTrip.Calls.{ReadsList}
use valax_wearedevs_deobfusc.Syntax.RoundTrip.Plain.{NameFirst, is_call-form, NameFirst-StartsPlain}

module _ {N : Type 0} where
  dispatch :
      (block : Kinds N → Result (Block N × Kinds N)) (f : ℕ) (ks : Kinds N)
      → NameFirst ks
      → parse_statement block f ks ≡ parse_call_or_assignment block f ks
  unfolding parse_statement
  dispatch block f ks h =
      subst (λ l. parse_statement block f l ≡ parse_call_or_assignment block f l) (sym h.splits)
        refl

  Begins-first : (ks : Kinds N) → NameFirst ks → Begins (peek ks)
  Begins-first ks h = rw (h.splits) (begins_name h.name)

  -- What `parseCallOrAssignment` does behind its first expression.
  abbrev assign_behind : Expr N × Kinds N → ℕ → ℕ → Result (Statement N × Kinds N)
  assign_behind (first, ks1) g f = bind (more_targets (parse_block g) f ks1) λ (targets, ks2).
      bind (parse_list (parse_block g) f (advance ks2)) λ (es, rest).
        bind (compound (peek ks2) first es)
          λ values. ok (assignment (item first targets) values, skip ";" rest)

  abbrev call_behind : Expr N × Kinds N → Result (Statement N × Kinds N)
  call_behind (first, ks1) = elim (is_call first) [
    | true ↦ ok (call_statement first, skip ";" ks1)
    | false ↦ parse_error "Expected assignment or function call"
  ]

  abbrev behind_first : Expr N × Kinds N → ℕ → ℕ → Result (Statement N × Kinds N)
  behind_first (first, ks1) g f = elim (is_any assignment_signs (peek ks1)) [
    | true ↦ assign_behind (first, ks1) g f
    | false ↦ call_behind (first, ks1)
  ]

  call_read :
      (e : Expr N) (rest : Kinds N) (g f : ℕ)
      → is_call e ≡ true
      → Free (peek rest)
      → behind_first (e, rest) g f ≡ ok (call_statement e, rest)
  call_read e rest g f c h =
      ap
        (λ (b : Bool). elim b [
          | true ↦ assign_behind (e, rest) g f
          | false ↦ call_behind (e, rest)
        ])
        h.no_sign
      ∙ ap
          (λ (b : Bool). elim b [
            | true ↦ ok (call_statement e, skip ";" rest)
            | false ↦ parse_error "Expected assignment or function call"
          ])
          c
      ∙ ap (λ l. ok (call_statement e, l)) (skip-Free rest h)

  assign_sign :
      (e : Expr N) (ks : Kinds N) (g f : ℕ)
      → is_any assignment_signs (peek ks) ≡ true
      → behind_first (e, ks) g f ≡ assign_behind (e, ks) g f
  assign_sign e ks g f h =
      ap (λ (b : Bool). elim b [ true ↦ assign_behind (e, ks) g f | false ↦ call_behind (e, ks) ]) h

module _ {N : Type 0} (indent : Text) (number_text : N → Text) (level : ℕ) where
  pub record ReadsTarget (e : Expr N) : Type 0 where
    pub plain : StartsPlain e
    pub leads : Leads (expression indent number_text level e) (form number_text e)

  kinds-line :
      (ps : Pieces N) (rest : Kinds N)
      → kinds (line indent number_text level ps) ++ rest ≡ kinds ps ++ rest
  unfolding kinds line
  kinds-line ps rest = simp (append_assoc, kinds-append) refl

  target_read :
      (e : Expr N) (rest : Kinds N)
      → ReadsTarget e
      → suffix_of (peek rest) ≡ no_suffix
      → Prefix
          (kinds (expression indent number_text level e) ++ rest)
          (ok (form number_text e, rest))
  target_read e rest h s = h.leads.chains rest _ (Suffixes-stop s)

  pub Reads-call :
      (e : Expr N)
      → is_call e ≡ true
      → ReadsTarget e
      → ReadsStatement indent number_text level (call_statement e)
  unfolding write statement_form
  Reads-call e c h =
      ReadsStatement-of indent number_text level (call_statement e) _
        (kinds-line (expression indent number_text level e))
        (λ rest. Begins-first _ (NameFirst-StartsPlain indent number_text level e rest h.plain))
        (λ rest k.
          same_run _
            (λ g f.
              dispatch (parse_block g) f _
                (NameFirst-StartsPlain indent number_text level e rest h.plain))
            (unfold parse_call_or_assignment in
              and_then behind_first (target_read e rest h (Free-Follows k).no_suffix_follows).enough
                (at_once λ g f.
                  call_read (form number_text e) rest g (suc f)
                    (is_call-form indent number_text level e h.plain ∙ c) (Free-Follows k))))

  -- The targets behind the first, in front of `=`.
  pub record ReadsTargets (ts : Exprs N) : Type 0 where
    pub signs :
        (ks : Kinds N)
        → (is_any assignment_signs
              (peek (kinds (more_expressions indent number_text level ts) ++ (symbol assign ∷ ks)))
            ≡ true)
          × (suffix_of (
                peek (kinds (more_expressions indent number_text level ts) ++ (symbol assign ∷ ks)))
              ≡ no_suffix)
    pub reads_targets :
        (ks : Kinds N)
        → Enough
            (λ g f.
              more_targets
                (parse_block g)
                f
                (kinds (more_expressions indent number_text level ts) ++ (symbol assign ∷ ks)))
            (ok (forms number_text ts, symbol assign ∷ ks))

  pub ReadsTargets-nothing : ReadsTargets nothing
  unfolding more_expressions kinds more_targets forms suffix_of is type_name
  ReadsTargets-nothing = record {
    signs = λ ks. (refl, refl);
    reads_targets = λ ks. at_once λ g f. refl;
  }

  pub ReadsTargets-item :
      (t : Expr N) (ts : Exprs N) → ReadsTarget t → ReadsTargets ts → ReadsTargets (item t ts)
  unfolding more_expressions kinds more_targets forms suffix_of is type_name
  ReadsTargets-item t ts h k = record {
    signs = λ ks. (refl, refl);
    reads_targets = λ ks.
        rw (kinds-append, append_assoc)
          (after _ (λ g f. refl)
            (and_then
              (λ (e, rest) g f.
                bind (more_targets (parse_block g) f rest) λ (es, rest'). ok (item e es, rest'))
              (target_read t _ h (k.signs ks).1).enough
              (and_then (λ (es, rest') g f. ok (item (form number_text t) es, rest'))
                (k.reads_targets ks) (at_once λ g f. refl))));
  }

  kinds-assignment :
      (ps ms qs : Pieces N) (rest : Kinds N)
      → kinds (line indent number_text level (ps ++ ms ++ equals_sign ++ qs)) ++ rest
        ≡ kinds ps ++ (kinds ms ++ (symbol assign ∷ (kinds qs ++ rest)))
  unfolding kinds line
  kinds-assignment ps ms qs rest = simp (append_assoc, kinds-append) refl

  assignment_read :
      (t : Expr N) (ts : Exprs N) (e : Expr N) (es : Exprs N) (rest : Kinds N)
      → ReadsTarget t
      → ReadsTargets ts
      → ReadsList indent number_text level (item e es)
      → Free (peek rest)
      → Enough
          (λ g f. parse_call_or_assignment (parse_block g) f (
            kinds (expression indent number_text level t)
            ++ (kinds (more_expressions indent number_text level ts)
                ++ (symbol assign
                    ∷ (kinds (expressions indent number_text level (item e es)) ++ rest)))))
          (ok (
            assignment
                (item (form number_text t) (forms number_text ts))
                (forms number_text (item e es)),
            rest,
          ))
  unfolding parse_call_or_assignment compound forms is type_name IsSome
  assignment_read t ts e es rest h k l free =
      and_then behind_first (target_read t _ h (k.signs _).1).enough (
        same_run _ (λ g f. assign_sign (form number_text t) _ g f (k.signs _).0)
          (and_then
            (λ (targets, ks2) g f. bind (parse_list (parse_block g) f (advance ks2)) λ (es, rest).
              bind (compound (peek ks2) (form number_text t) es)
                λ values. ok (assignment (item (form number_text t) targets) values, skip ";" rest))
            (k.reads_targets _)
            (and_then
              (λ (es, rest) g f. bind (compound (symbol assign) (form number_text t) es) λ values.
                ok (
                  assignment (item (form number_text t) (forms number_text ts)) values,
                  skip ";" rest,
                ))
              (l.reads_items rest tt (EndsList-Free rest free)).enough
              (at_once λ g f.
                ap
                  (λ l. ok (
                    assignment (item (form number_text t) (forms number_text ts))
                        (forms number_text (item e es)),
                    l,
                  ))
                  (skip-Free rest free)))))

  pub Reads-assignment :
      (t : Expr N) (ts : Exprs N) (es : Exprs N)
      → IsSome es
      → ReadsTarget t
      → ReadsTargets ts
      → ReadsList indent number_text level es
      → ReadsStatement indent number_text level (assignment (item t ts) es)
  unfolding write statement_form expressions forms IsSome
  Reads-assignment t ts nothing some h k l = absurd some
  Reads-assignment t ts (item e es) some h k l =
      ReadsStatement-of indent number_text level (assignment (item t ts) (item e es)) _
        (kinds-assignment (expression indent number_text level t)
          (more_expressions indent number_text level ts)
          (expressions indent number_text level (item e es)))
        (λ rest. Begins-first _ (NameFirst-StartsPlain indent number_text level t _ h.plain))
        (λ rest f.
          same_run _
            (λ g f.
              dispatch (parse_block g) f _
                (NameFirst-StartsPlain indent number_text level t _ h.plain))
            (assignment_read t ts e es rest h k l (Free-Follows f)))
