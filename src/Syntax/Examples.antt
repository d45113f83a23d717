-- ===== src/Syntax/Examples.antt =====
-- Tests of packages/core/src/lexer, parser and generator, and their theorems on concrete programs.
use valax_wearedevs_deobfusc.Prelude.{ℕ, ◌≡◌, refl, ◌≤◌, true, false, [], ◌∷◌, List, some}
use valax_wearedevs_deobfusc.Bytes.Defs.{Text}
use valax_wearedevs_deobfusc.Evaluator.Syntax.{UnaryOp, BinaryOp, times}
use valax_wearedevs_deobfusc.Syntax.Tokens.{Kind, symbol, ident, comma, inherited}
use valax_wearedevs_deobfusc.Syntax.Tree.{
  op, named, assignment, identifier, numeric_literal, unary, binary, call, member, nothing, item,
  Block, done, statement, local_statement, call_statement, if_statement, clause, no_clauses,
  no_else, function_declaration, return_statement,
}
use valax_wearedevs_deobfusc.Syntax.Result.{ok, peek, advance}
use valax_wearedevs_deobfusc.Syntax.Tokens.{Token, eof}
use valax_wearedevs_deobfusc.Syntax.Lexer.Closed.{IsClosed, is_eof, closed_end, closed_more}
use valax_wearedevs_deobfusc.Syntax.Parse.Stream.{
  kind_of, peek_at, next_pos, kinds_of, from, peek_at-of_closed,
}
use valax_wearedevs_deobfusc.Syntax.Parse.Statements.{parse_chunk}
use valax_wearedevs_deobfusc.Syntax.Generate.Pieces.{units, kinds, render}
use valax_wearedevs_deobfusc.Syntax.Generate.Write.{expression, generate}
use valax_wearedevs_deobfusc.Syntax.RoundTrip.Printable.{IsPrintableBlock}
use valax_wearedevs_deobfusc.Syntax.RoundTrip.Bare.{bare_block}
use valax_wearedevs_deobfusc.Syntax.RoundTrip.Whole.{LexesAsMeant, parse-generate}
use valax_wearedevs_deobfusc.Syntax.Parse.Source.{parse}
use valax_wearedevs_deobfusc.Syntax.Lexer.Words.{word_kind}
use valax_wearedevs_deobfusc.Syntax.Lexer.Tokenize.{tokenize}
use valax_wearedevs_deobfusc.Syntax.Lexer.Fuel.{Ends, tokenize-Ends}

abbrev two_spaces : Text
two_spaces = 32 ∷ 32 ∷ []

-- All numbers are written as 7 here.
abbrev seven : ℕ → Text
seven n = b'7' ∷ []

abbrev x_name : Text
x_name = b'x' ∷ []

abbrev f_name : Text
f_name = b'f' ∷ []

-- `local x = (f + x) * 7` and `if x then f(-x) end`
abbrev sample : Block ℕ
sample =
    statement
      (local_statement (x_name ∷ []) (
        item
          (binary (op times) (binary (op BinaryOp.plus) (identifier f_name) (identifier x_name))
            (numeric_literal 7 []))
          nothing))
      (statement
        (if_statement
          (clause (identifier x_name)
            (statement
              (call_statement
                (call (identifier f_name) (item (unary UnaryOp.minus (identifier x_name)) nothing)))
              done)
            no_clauses)
          no_else)
        done)

sample-IsPrintable : IsPrintableBlock sample
unfolding IsPrintableBlock
sample-IsPrintable =
    ((((tt, tt), tt), tt), (((tt, (((refl, (tt, (tt, (tt, (tt, tt))))), tt), tt)), tt), tt))

-- The source `x--`.
abbrev always_seven : Text → ℕ
always_seven raw = 7

sample-LexesAsMeant : LexesAsMeant always_seven two_spaces seven sample
unfolding generate tokenize kinds_of kinds
sample-LexesAsMeant = record { tokens = _; lexed = refl; as_meant = refl }

parse-generate_example :
    (c : ℕ) × ((f : ℕ)
      → c ≤ f
      → (d : Block ℕ) × ((parse always_seven f (generate two_spaces seven sample) ≡ ok d)
          × (bare_block d ≡ bare_block sample)))
parse-generate_example =
    parse-generate always_seven two_spaces seven sample sample-IsPrintable sample-LexesAsMeant

-- `return -(-x)` is written as a comment behind `return`, and is read as a bare `return`.
sign_lost :
    parse always_seven 20 (
      generate two_spaces seven (
        statement
          (return_statement
            (item (unary UnaryOp.minus (unary UnaryOp.minus (identifier x_name))) nothing))
          done))
    ≡ ok (statement (return_statement nothing) done)
unfolding parse generate
sign_lost = refl

tokenize-Ends_example : Ends always_seven (tokenize always_seven (b'x' ∷ b'-' ∷ b'-' ∷ []))
tokenize-Ends_example = tokenize-Ends always_seven (b'x' ∷ b'-' ∷ b'-' ∷ [])

sample_text :
    generate two_spaces seven sample ≡ units "local x = (f + x) * 7\nif x then\n  f(-x)\nend\n"
unfolding generate units
sample_text = refl

-- The negation of a negation is written as a comment.
double_minus :
    render (
      expression two_spaces seven 0 (unary UnaryOp.minus (unary UnaryOp.minus (identifier x_name))))
    ≡ units "--x"
unfolding render expression units
double_minus = refl

-- A method's name is written without its colon.
method_text :
    generate two_spaces seven
      (statement (function_declaration (member (identifier x_name) f_name) [] false done true) done)
    ≡ units "function x.f()\nend\n"
unfolding generate units
method_text = refl

-- The word `toString` is no identifier.
inherited_word : word_kind {N = ℕ} (units "toString") ≡ inherited (units "toString")
unfolding word_kind units
inherited_word = refl

-- `f, x f x`
abbrev odd_tokens : List (Kind ℕ)
odd_tokens = ident f_name ∷ symbol comma ∷ ident x_name ∷ ident f_name ∷ ident x_name ∷ []

abbrev odd_block : Block ℕ
odd_block =
    statement
      (assignment (item (identifier f_name) (item (identifier x_name) nothing))
        (item (binary (named "IDENT") (identifier f_name) (identifier x_name)) nothing))
      done

-- It is parsed as an assignment.
no_sign_needed : parse_chunk 20 odd_tokens ≡ ok odd_block
unfolding parse_chunk
no_sign_needed = refl

-- The tokens of `x`.
abbrev x_tokens : List (Token ℕ)
x_tokens =
    record { kind = ident x_name; line = 1; column = 1; offset = 0; raw = x_name }
    ∷ record { kind = eof; line = 1; column = 2; offset = 1; raw = [] }
    ∷ []

x_tokens-IsClosed : IsClosed x_tokens
unfolding is_eof
x_tokens-IsClosed = closed_more _ _ refl (closed_end _ refl)

peek_at-of_closed_example :
    (kind_of (peek_at x_tokens 1) ≡ some (peek (from 1 (kinds_of x_tokens))))
    × (from (next_pos x_tokens 1) (kinds_of x_tokens) ≡ advance (from 1 (kinds_of x_tokens)))
peek_at-of_closed_example = peek_at-of_closed x_tokens 1 x_tokens-IsClosed
