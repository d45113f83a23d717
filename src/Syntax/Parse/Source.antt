-- ===== src/Syntax/Parse/Source.antt =====
-- packages/core/src/parser/index.js: `parse` of a source text, by the lexer and the parser.
use valax_wearedevs_deobfusc.Prelude.{ℕ}
use valax_wearedevs_deobfusc.Bytes.Defs.{Text}
use valax_wearedevs_deobfusc.Syntax.Tree.{Block}
use valax_wearedevs_deobfusc.Syntax.Result.{Result, bind}
use valax_wearedevs_deobfusc.Syntax.Lexer.Tokenize.{tokenize}
use valax_wearedevs_deobfusc.Syntax.Parse.Stream.{kinds_of}
use valax_wearedevs_deobfusc.Syntax.Parse.Statements.{parse_chunk}

module _ {N : Type 0} (number_of : Text → N) where
  -- `new Parser(source).parseChunk()`
  unfoldable pub parse : ℕ → Text → Result (Block N)
  unfolding tokenize kinds_of parse_chunk
  parse fuel source = bind (tokenize number_of source) λ ts. parse_chunk fuel (kinds_of ts)
