-- ===== src/Syntax/RoundTrip/Atoms.antt =====
-- packages/core/src: functions as expressions, and the nodes that have no parts, are read back.
use valax_wearedevs_deobfusc.Prelude.{
  ℕ, suc, ◌≡◌, refl, Bool, true, false, List, [], ◌∷◌, ◌++◌, append_assoc,
}
use valax_wearedevs_deobfusc.Bytes.Defs.{Bytes, Text}
use valax_wearedevs_deobfusc.Syntax.Tokens.{
  keyword, symbol, lparen, rparen, type_name, k_function, k_end,
}
use valax_wearedevs_deobfusc.Syntax.Tree.{
  Expr, vararg_literal, marked, function_expression, Block, numeric_literal, string_literal,
  boolean_literal, nil_literal,
}
use valax_wearedevs_deobfusc.Syntax.Result.{ok, Kinds, is}
use valax_wearedevs_deobfusc.Syntax.Parse.Heads.{mark}
use valax_wearedevs_deobfusc.Syntax.Parse.Expressions.{names_field, parse_simple}
use valax_wearedevs_deobfusc.Syntax.Generate.Pieces.{
  token, Pieces, kinds, kinds-append, precedence, layout, repeat_text, parameter_list,
}
use valax_wearedevs_deobfusc.Syntax.Generate.Write.{expression, block}
use valax_wearedevs_deobfusc.Syntax.RoundTrip.Form.{form, bound}
use valax_wearedevs_deobfusc.Syntax.RoundTrip.Steps.{Simple, Sub-Simple}
use valax_wearedevs_deobfusc.Syntax.RoundTrip.Operands.{Starts-lparen, Reads, Prefix-parens}
use valax_wearedevs_deobfusc.Syntax.RoundTrip.Enough.{at_once, after, and_then}
use valax_wearedevs_deobfusc.Syntax.RoundTrip.Nodes.{Leads, opens_paren, Reads-Leads}
use valax_wearedevs_deobfusc.Syntax.RoundTrip.Functions.{ReadsBlock, body_read}

module _ {N : Type 0} (indent : Text) (number_text : N → Text) (level : ℕ) where
  kinds-body :
      (ps qs : Pieces N) (rest : Kinds N)
      → kinds (
            (token (keyword k_function) ∷ token (symbol lparen) ∷ [])
            ++ ps
            ++ (token (symbol rparen) ∷ [])
            ++ (layout (10 ∷ []) ∷ [])
            ++ qs
            ++ (layout (repeat_text level indent) ∷ [])
            ++ token (keyword k_end) ∷ [])
          ++ rest
        ≡ keyword k_function
          ∷ symbol lparen
          ∷ (kinds ps ++ (symbol rparen ∷ (kinds qs ++ (keyword k_end ∷ rest))))
  unfolding kinds
  kinds-body ps qs rest = simp (append_assoc, kinds-append) refl

  kinds-function :
      (xs : List Text) (variadic : Bool) (b : Block N) (rest : Kinds N)
      → kinds (expression indent number_text level (function_expression xs variadic b)) ++ rest
        ≡ keyword k_function
          ∷ symbol lparen
          ∷ (kinds (parameter_list xs variadic)
              ++ (symbol rparen
                  ∷ (kinds (block indent number_text (suc level) b) ++ (keyword k_end ∷ rest))))
  unfolding expression
  kinds-function xs variadic b rest =
      kinds-body (parameter_list xs variadic) (block indent number_text (suc level) b) rest

  Simple-function :
      (xs : List Text) (variadic : Bool) (b : Block N) (rest : Kinds N)
      → ReadsBlock indent number_text (suc level) b
      → Simple
          (keyword k_function
            ∷ symbol lparen
            ∷ (kinds (parameter_list xs variadic)
                ++ (symbol rparen
                    ∷ (kinds (block indent number_text (suc level) b) ++ (keyword k_end ∷ rest)))))
          (ok (form number_text (function_expression xs variadic b), rest))
  unfolding parse_simple form
  Simple-function xs variadic b rest h = record {
    enough =
        after _ (λ g f. refl)
          (and_then (λ (d, rest) g f. ok (function_expression d.params d.is_vararg d.body, rest))
            (body_read indent number_text (suc level) xs variadic b rest h) (at_once λ g f. refl));
  }

  pub Reads-function :
      (xs : List Text) (variadic : Bool) (b : Block N)
      → ReadsBlock indent number_text (suc level) b
      → Reads indent number_text level (function_expression xs variadic b)
  unfolding is type_name names_field
  Reads-function xs variadic b h = record {
    starts = λ rest. rw (kinds-function) (record {
      no_paren = refl;
      no_end = refl;
      no_return = refl;
      no_key = refl;
      no_name = λ e. refl;
    });
    reads = λ m rest r p q s k.
        rw (kinds-function) (Sub-Simple (Simple-function xs variadic b rest h) k);
  }

  pub Reads-number : (n : N) (raw : Text) → Reads indent number_text level (numeric_literal n raw)
  unfolding expression form kinds parse_simple is type_name names_field
  Reads-number n raw = record {
    starts = λ rest. record {
      no_paren = refl;
      no_end = refl;
      no_return = refl;
      no_key = refl;
      no_name = λ e. refl;
    };
    reads = λ m rest r p q s k. Sub-Simple (record { enough = at_once (λ g f. refl) }) k;
  }

  pub Reads-string :
      (t : Bytes) (raw : Text) → Reads indent number_text level (string_literal t raw)
  unfolding expression form kinds parse_simple is type_name names_field
  Reads-string t raw = record {
    starts = λ rest. record {
      no_paren = refl;
      no_end = refl;
      no_return = refl;
      no_key = refl;
      no_name = λ e. refl;
    };
    reads = λ m rest r p q s k. Sub-Simple (record { enough = at_once (λ g f. refl) }) k;
  }

  pub Reads-boolean : (b : Bool) → Reads indent number_text level (boolean_literal b)
  unfolding expression form kinds parse_simple is type_name names_field
  Reads-boolean true = record {
    starts = λ rest. record {
      no_paren = refl;
      no_end = refl;
      no_return = refl;
      no_key = refl;
      no_name = λ e. refl;
    };
    reads = λ m rest r p q s k. Sub-Simple (record { enough = at_once (λ g f. refl) }) k;
  }
  Reads-boolean false = record {
    starts = λ rest. record {
      no_paren = refl;
      no_end = refl;
      no_return = refl;
      no_key = refl;
      no_name = λ e. refl;
    };
    reads = λ m rest r p q s k. Sub-Simple (record { enough = at_once (λ g f. refl) }) k;
  }

  pub Reads-nil : Reads indent number_text level nil_literal
  unfolding expression form kinds parse_simple is type_name names_field
  Reads-nil = record {
    starts = λ rest. record {
      no_paren = refl;
      no_end = refl;
      no_return = refl;
      no_key = refl;
      no_name = λ e. refl;
    };
    reads = λ m rest r p q s k. Sub-Simple (record { enough = at_once (λ g f. refl) }) k;
  }

  pub Reads-vararg : Reads indent number_text level vararg_literal
  unfolding expression form kinds parse_simple is type_name names_field
  Reads-vararg = record {
    starts = λ rest. record {
      no_paren = refl;
      no_end = refl;
      no_return = refl;
      no_key = refl;
      no_name = λ e. refl;
    };
    reads = λ m rest r p q s k. Sub-Simple (record { enough = at_once (λ g f. refl) }) k;
  }

  -- `(...)` is read with its mark.
  pub Leads-marked :
      Leads
        (expression indent number_text level (marked vararg_literal))
        (form number_text (marked vararg_literal))
  unfolding expression form kinds mark
  Leads-marked = record {
    chains =
        λ rest r k. Prefix-parens indent number_text level vararg_literal rest r Reads-vararg k;
    opens = λ rest. opens_paren _;
    starts = λ rest. Starts-lparen;
  }

  -- Other marks are left out.
  pub Reads-marked :
      (e : Expr N) → Reads indent number_text level e → Reads indent number_text level (marked e)
  unfolding expression form precedence bound
  Reads-marked vararg_literal h =
      unfold kinds in Reads-Leads indent number_text level (marked vararg_literal) Leads-marked
  Reads-marked e h = record { starts = h.starts; reads = h.reads }
