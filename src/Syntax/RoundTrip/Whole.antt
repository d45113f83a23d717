-- ===== src/Syntax/RoundTrip/Whole.antt =====
-- packages/core/src: the parser reads what the generator writes for a program as that program.
use valax_wearedevs_deobfusc.Prelude.{
  ℕ, suc, ◌≤◌, ◌≡◌, refl, ap, subst, true, false, [], ◌∷◌, append-nil, List, ◌∙◌,
}
use valax_wearedevs_deobfusc.Bytes.Defs.{Text}
use valax_wearedevs_deobfusc.Syntax.Tokens.{type_name}
use valax_wearedevs_deobfusc.Syntax.Tree.{
  op, named, Expr, identifier, vararg_literal, marked, unary, binary, logical, call, method_call,
  member, index, Exprs, nothing, item, table, function_expression, Fields, no_fields, key_field,
  name_field, value_field, Block, numeric_literal, string_literal, boolean_literal, nil_literal,
  local_statement, assignment, local_function, function_declaration, call_statement, if_statement,
  while_statement, repeat_statement, numeric_for, generic_for, do_statement, return_statement,
  break_statement, continue_statement, empty_statement, Step, no_step, step, done, statement,
  Clauses, no_clauses, clause, Else, no_else, else_body,
}
use valax_wearedevs_deobfusc.Syntax.Result.{ok, parse_error, bind, Kinds, peek, is}
use valax_wearedevs_deobfusc.Syntax.Generate.Pieces.{kinds}
use valax_wearedevs_deobfusc.Syntax.Generate.Write.{block}
use valax_wearedevs_deobfusc.Syntax.RoundTrip.Form.{block_form}
use valax_wearedevs_deobfusc.Syntax.RoundTrip.Printable.{IsBase, AllStartPlain, IsPrintable}
use valax_wearedevs_deobfusc.Syntax.RoundTrip.Operands.{Reads}
use valax_wearedevs_deobfusc.Syntax.Parse.Statements.{parse_block}
use valax_wearedevs_deobfusc.Syntax.RoundTrip.Functions.{ReadsBlock}
use valax_wearedevs_deobfusc.Syntax.RoundTrip.Follow.{ends_file}
use valax_wearedevs_deobfusc.Syntax.RoundTrip.Calls.{ReadsList, ReadsList-item, ReadsList-nothing}
use valax_wearedevs_deobfusc.Syntax.RoundTrip.Nodes.{Reads-Leads}
use valax_wearedevs_deobfusc.Syntax.RoundTrip.Operators.{Reads-unary, Reads-binary, Reads-logical}
use valax_wearedevs_deobfusc.Syntax.RoundTrip.Atoms.{
  Reads-function, Reads-number, Reads-string, Reads-boolean, Reads-nil, Reads-vararg, Reads-marked,
}
use valax_wearedevs_deobfusc.Syntax.RoundTrip.Tables.{
  ReadsFields, ReadsFields-none, ReadsFields-key, ReadsFields-name, ReadsFields-value, Reads-table,
}
use valax_wearedevs_deobfusc.Syntax.RoundTrip.Bases.{
  LeadsBase, call_leads, method_call_leads, member_leads, index_leads, identifier_leads, call_base,
  method_call_base, member_base, index_base, identifier_base, unary_base, binary_base, logical_base,
  function_base, marked_base, target_of,
}
use valax_wearedevs_deobfusc.Syntax.RoundTrip.Printable.{
  ArePrintable, ArePrintableFields, IsPrintableStep, IsPrintableBlock, ArePrintableClauses,
  IsPrintableElse,
}
use valax_wearedevs_deobfusc.Syntax.RoundTrip.Loops.{
  Reads-while, Reads-repeat, Reads-do, Reads-break, Reads-continue,
}
use valax_wearedevs_deobfusc.Syntax.RoundTrip.For.{
  ReadsStep, ReadsStep-none, ReadsStep-some, Reads-numeric_for,
}
use valax_wearedevs_deobfusc.Syntax.RoundTrip.Generic.{Reads-generic_for}
use valax_wearedevs_deobfusc.Syntax.RoundTrip.Locals.{Reads-local}
use valax_wearedevs_deobfusc.Syntax.RoundTrip.Declared.{
  Reads-local_function, Reads-function_declaration,
}
use valax_wearedevs_deobfusc.Syntax.RoundTrip.Assign.{
  Reads-call, ReadsTargets, ReadsTargets-nothing, ReadsTargets-item, Reads-assignment,
}
use valax_wearedevs_deobfusc.Syntax.RoundTrip.Branches.{
  ReadsClauses, ReadsClauses-none, ReadsClauses-clause, ReadsElse, ReadsElse-none, ReadsElse-body,
  Reads-if,
}
use valax_wearedevs_deobfusc.Syntax.RoundTrip.Sequence.{
  ReadsBlock-done, ReadsBlock-empty, ReadsBlock-statement, ReadsReturn-nothing, ReadsReturn-item,
  ReadsBlock-return,
}
use valax_wearedevs_deobfusc.Syntax.Parse.Statements.{parse_chunk}
use valax_wearedevs_deobfusc.Syntax.RoundTrip.Bare.{bare_block, bare-block_form}
use valax_wearedevs_deobfusc.Syntax.Tokens.{Token}
use valax_wearedevs_deobfusc.Syntax.Lexer.Tokenize.{tokenize}
use valax_wearedevs_deobfusc.Syntax.Parse.Stream.{kinds_of}
use valax_wearedevs_deobfusc.Syntax.Parse.Source.{parse}
use valax_wearedevs_deobfusc.Syntax.Generate.Write.{generate}

module _ {N : Type 0} (i : Text) (t : N → Text) where
  mutual
    unfolding IsPrintable IsBase AllStartPlain block_form

    read_expr : (level : ℕ) (e : Expr N) → IsPrintable e → Reads i t level e
    read_expr level (identifier x) p =
        Reads-Leads i t level (identifier x) (identifier_leads i t level x)
    read_expr level (numeric_literal n raw) p = Reads-number i t level n raw
    read_expr level (string_literal s raw) p = Reads-string i t level s raw
    read_expr level (boolean_literal b) p = Reads-boolean i t level b
    read_expr level nil_literal p = Reads-nil i t level
    read_expr level vararg_literal p = Reads-vararg i t level
    read_expr level (marked e) p = Reads-marked i t level e (read_expr level e p)
    read_expr level (unary o e) p = Reads-unary i t level o e (read_expr level e p)
    read_expr level (binary (op o) a b) (p, q) =
        Reads-binary i t level o a b (read_expr level a p) (read_expr level b q)
    read_expr level (binary (named s) a b) p = absurd p
    read_expr level (logical o a b) (p, q) =
        Reads-logical i t level o a b (read_expr level a p) (read_expr level b q)
    read_expr level (call b es) (h, (p, q)) =
        Reads-Leads i t level (call b es)
          (call_leads i t level b es (read_base level b h p) (read_list level es q))
    read_expr level (method_call b x es) (h, (p, q)) =
        Reads-Leads i t level (method_call b x es)
          (method_call_leads i t level b x es (read_base level b h p) (read_list level es q))
    read_expr level (member b x) (h, p) =
        Reads-Leads i t level (member b x) (member_leads i t level b x (read_base level b h p))
    read_expr level (index b e) (h, (p, q)) =
        Reads-Leads i t level (index b e)
          (index_leads i t level b e (read_base level b h p) (read_expr level e q))
    read_expr level (function_expression xs variadic b) p =
        Reads-function i t level xs variadic b (read_block (suc level) b p)
    read_expr level (table fs) p = Reads-table i t level fs (read_fields level fs p)

    read_base : (level : ℕ) (e : Expr N) → IsBase e → IsPrintable e → LeadsBase i t level e
    read_base level (identifier x) h p = identifier_base i t level x
    read_base level (marked e) h p = marked_base i t level e h (λ k. read_base level e k p)
    read_base level (unary o e) h p =
        unary_base i t level o e (Reads-unary i t level o e (read_expr level e p))
    read_base level (binary (op o) a b) h (p, q) =
        binary_base i t level o a b
          (Reads-binary i t level o a b (read_expr level a p) (read_expr level b q))
    read_base level (binary (named s) a b) h p = absurd p
    read_base level (logical o a b) h (p, q) =
        logical_base i t level o a b
          (Reads-logical i t level o a b (read_expr level a p) (read_expr level b q))
    read_base level (call b es) h (k, (p, q)) =
        call_base i t level b es
          (call_leads i t level b es (read_base level b k p) (read_list level es q))
    read_base level (method_call b x es) h (k, (p, q)) =
        method_call_base i t level b x es
          (method_call_leads i t level b x es (read_base level b k p) (read_list level es q))
    read_base level (member b x) h (k, p) =
        member_base i t level b x (member_leads i t level b x (read_base level b k p))
    read_base level (index b e) h (k, (p, q)) =
        index_base i t level b e
          (index_leads i t level b e (read_base level b k p) (read_expr level e q))
    read_base level (function_expression xs variadic b) h p =
        function_base i t level xs variadic b
          (Reads-function i t level xs variadic b (read_block (suc level) b p))
    read_base level (numeric_literal n raw) h p = absurd h
    read_base level (string_literal s raw) h p = absurd h
    read_base level (boolean_literal b) h p = absurd h
    read_base level nil_literal h p = absurd h
    read_base level vararg_literal h p = absurd h
    read_base level (table fs) h p = absurd h

    read_list : (level : ℕ) (es : Exprs N) → ArePrintable es → ReadsList i t level es
    read_list level nothing p = ReadsList-nothing i t level
    read_list level (item e es) (p, q) =
        ReadsList-item i t level e es (read_expr level e p) (read_list level es q)

    read_fields : (level : ℕ) (fs : Fields N) → ArePrintableFields fs → ReadsFields i t level fs
    read_fields level no_fields p = ReadsFields-none i t level
    read_fields level (key_field k e fs) (h, (p, q)) =
        ReadsFields-key i t level k e fs (read_expr level k h) (read_expr level e p)
          (read_fields level fs q)
    read_fields level (name_field x e fs) (p, q) =
        ReadsFields-name i t level x e fs (read_expr level e p) (read_fields level fs q)
    read_fields level (value_field e fs) (p, q) =
        ReadsFields-value i t level e fs (read_expr level e p) (read_fields level fs q)

    read_targets :
        (level : ℕ) (ts : Exprs N) → AllStartPlain ts → ArePrintable ts → ReadsTargets i t level ts
    read_targets level nothing h p = ReadsTargets-nothing i t level
    read_targets level (item e es) (h, k) (p, q) =
        ReadsTargets-item i t level e es (target_of i t level e h (λ b. read_base level e b p))
          (read_targets level es k q)

    read_step : (level : ℕ) (by : Step N) → IsPrintableStep by → ReadsStep i t level by
    read_step level no_step p = ReadsStep-none i t level
    read_step level (step e) p = ReadsStep-some i t level e (read_expr level e p)

    read_clauses : (level : ℕ) (cs : Clauses N) → ArePrintableClauses cs → ReadsClauses i t level cs
    read_clauses level no_clauses p = ReadsClauses-none i t level
    read_clauses level (clause c b cs) (p, (q, r)) =
        ReadsClauses-clause i t level c b cs (read_expr level c p) (read_block (suc level) b q)
          (read_clauses level cs r)

    read_else : (level : ℕ) (e : Else N) → IsPrintableElse e → ReadsElse i t level e
    read_else level no_else p = ReadsElse-none i t level
    read_else level (else_body b) p = ReadsElse-body i t level b (read_block (suc level) b p)

    read_block : (level : ℕ) (b : Block N) → IsPrintableBlock b → ReadsBlock i t level b
    read_block level done p = ReadsBlock-done i t level
    read_block level (statement empty_statement b) (p, q) =
        ReadsBlock-empty i t level b (read_block level b q)
    read_block level (statement (return_statement nothing) b) (p, q) =
        ReadsBlock-return i t level nothing b q (ReadsReturn-nothing i t level)
    read_block level (statement (return_statement (item e es)) b) ((p, r), q) =
        ReadsBlock-return i t level (item e es) b q (
          ReadsReturn-item i t level e es (read_expr level e p)
            (ReadsList-item i t level e es (read_expr level e p) (read_list level es r)))
    read_block level (statement (local_statement [] es) b) (p, q) = absurd p
    read_block level (statement (local_statement (x ∷ xs) es) b) (p, q) =
        ReadsBlock-statement i t level _ b refl
          (Reads-local i t level x xs es (read_list level es p)) (read_block level b q)
    read_block level (statement (assignment nothing es) b) (((p, r), u), q) = absurd p
    read_block level (statement (assignment (item e ts) es) b)
          (((p, r), ((h, k), ((u, v), w))), q) =
        ReadsBlock-statement i t level _ b refl
          (Reads-assignment i t level e ts es r
            (target_of i t level e h (λ b. read_base level e b u)) (read_targets level ts k v)
            (read_list level es w))
          (read_block level b q)
    read_block level (statement (local_function x xs variadic d) b) (p, q) =
        ReadsBlock-statement i t level _ b refl
          (Reads-local_function i t level x xs variadic d (read_block (suc level) d p))
          (read_block level b q)
    read_block level (statement (function_declaration e xs variadic d true) b) (p, q) = absurd p
    read_block level (statement (function_declaration e xs variadic d false) b) ((p, r), q) =
        ReadsBlock-statement i t level _ b refl
          (Reads-function_declaration i t level e xs variadic d p (read_block (suc level) d r))
          (read_block level b q)
    read_block level (statement (call_statement e) b) ((p, (h, r)), q) =
        ReadsBlock-statement i t level _ b refl
          (Reads-call i t level e p (target_of i t level e h (λ b. read_base level e b r)))
          (read_block level b q)
    read_block level (statement (if_statement no_clauses o) b) (p, q) = absurd p
    read_block level (statement (if_statement (clause c d cs) o) b) (((p, (h, r)), k), q) =
        ReadsBlock-statement i t level _ b refl
          (Reads-if i t level c d cs o (read_expr level c p) (read_block (suc level) d h)
            (read_clauses level cs r) (read_else level o k))
          (read_block level b q)
    read_block level (statement (while_statement c d) b) ((p, r), q) =
        ReadsBlock-statement i t level _ b refl
          (Reads-while i t level c d (read_expr level c p) (read_block (suc level) d r))
          (read_block level b q)
    read_block level (statement (repeat_statement c d) b) ((p, r), q) =
        ReadsBlock-statement i t level _ b refl
          (Reads-repeat i t level c d (read_expr level c p) (read_block (suc level) d r))
          (read_block level b q)
    read_block level (statement (numeric_for x first last by d) b) (((p, r), (h, k)), q) =
        ReadsBlock-statement i t level _ b refl
          (Reads-numeric_for i t level x first last by d (read_expr level first p)
            (read_expr level last r) (read_step level by h) (read_block (suc level) d k))
          (read_block level b q)
    read_block level (statement (generic_for [] es d) b) (p, q) = absurd p
    read_block level (statement (generic_for (x ∷ xs) es d) b) ((p, (h, r)), q) =
        ReadsBlock-statement i t level _ b refl
          (Reads-generic_for i t level x xs es d p (read_list level es h)
            (read_block (suc level) d r))
          (read_block level b q)
    read_block level (statement (do_statement d) b) (p, q) =
        ReadsBlock-statement i t level _ b refl (Reads-do i t level d (read_block (suc level) d p))
          (read_block level b q)
    read_block level (statement break_statement b) (p, q) =
        ReadsBlock-statement i t level _ b refl (Reads-break i t level) (read_block level b q)
    read_block level (statement continue_statement b) (p, q) =
        ReadsBlock-statement i t level _ b refl (Reads-continue i t level) (read_block level b q)

whole :
    {N : Type 0} (b : Block N) (ks : Kinds N) (f : ℕ)
    → parse_block f ks ≡ ok (b, [])
    → parse_chunk f ks ≡ ok b
unfolding parse_chunk is type_name
whole b ks f h =
    ap
      (λ x. bind x λ (b, rest). elim (is "EOF" (peek rest)) [
        | true ↦ ok b
        | false ↦ parse_error "Unexpected token after chunk"
      ])
      h

-- The parser on the tokens that the generator means to write.
parse_chunk-kinds :
    {N : Type 0} (indent : Text) (number_text : N → Text) (b : Block N)
    → IsPrintableBlock b
    → (c : ℕ) × ((f : ℕ)
        → c ≤ f
        → (d : Block N) × ((parse_chunk f (kinds (block indent number_text 0 b)) ≡ ok d)
            × (bare_block d ≡ bare_block b)))
parse_chunk-kinds indent number_text b p =
    let h = (read_block indent number_text 0 b p).reads_block [] ends_file in
    (
      h.fuel,
      λ f k. (
        block_form number_text b,
        (
          whole _ _ f (
              subst (λ ks. parse_block f ks ≡ ok (block_form number_text b, []))
                (append-nil (kinds (block indent number_text 0 b))) (h.result f f k k)),
          bare-block_form number_text b,
        ),
      ),
    )

-- The lexer reads the text that the generator writes as the tokens of which the text is made.
pub record LexesAsMeant {N : Type 0} (number_of : Text → N) (indent : Text) (number_text : N → Text)
    (b : Block N) : Type 0 where
  pub tokens : List (Token N)
  pub lexed : tokenize number_of (generate indent number_text b) ≡ ok tokens
  pub as_meant : kinds_of tokens ≡ kinds (block indent number_text 0 b)

-- A printable program, of which the lexer reads the written text as the tokens that were meant, is
-- read back from its text: on any fuel from some amount on, `parse` gives the program up to the marks
-- of parentheses, the raw texts of literals, empty statements and empty `else` blocks. Not all texts
-- are lexed as meant: `-(-x)` is written `--x`, a comment.
pub parse-generate :
    {N : Type 0} (number_of : Text → N) (indent : Text) (number_text : N → Text) (b : Block N)
    → IsPrintableBlock b
    → LexesAsMeant number_of indent number_text b
    → (c : ℕ) × ((f : ℕ)
        → c ≤ f
        → (d : Block N) × ((parse number_of f (generate indent number_text b) ≡ ok d)
            × (bare_block d ≡ bare_block b)))
unfolding parse
parse-generate number_of indent number_text b p l =
    let (c, h) = parse_chunk-kinds indent number_text b p in
    (
      c,
      λ f k.
          let (d, (e, same)) = h f k in
          (
            d,
            (
              ap (λ r. bind r λ ts. parse_chunk f (kinds_of ts)) l.lexed
                  ∙ (ap (parse_chunk f) l.as_meant ∙ e),
              same,
            ),
          ),
    )
