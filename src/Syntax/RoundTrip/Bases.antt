-- ===== src/Syntax/RoundTrip/Bases.antt =====
-- packages/core/src: what stands before a suffix is read back, if its parts are.
use valax_wearedevs_deobfusc.Prelude.{ℕ, subst, Bool, List}
use valax_wearedevs_deobfusc.Bytes.Defs.{Text}
use valax_wearedevs_deobfusc.Evaluator.Syntax.{UnaryOp, BinaryOp, LogicalOp, conj, disj}
use valax_wearedevs_deobfusc.Syntax.Tree.{
  op, Expr, identifier, vararg_literal, marked, unary, binary, logical, call, method_call, member,
  index, Exprs, function_expression, Block,
}
use valax_wearedevs_deobfusc.Syntax.Generate.Pieces.{as_base}
use valax_wearedevs_deobfusc.Syntax.Generate.Write.{expression}
use valax_wearedevs_deobfusc.Syntax.RoundTrip.Form.{form, base_form}
use valax_wearedevs_deobfusc.Syntax.RoundTrip.Printable.{IsBase, StartsPlain}
use valax_wearedevs_deobfusc.Syntax.RoundTrip.Operands.{Reads}
use valax_wearedevs_deobfusc.Syntax.RoundTrip.Nodes.{Leads}
use valax_wearedevs_deobfusc.Syntax.RoundTrip.Calls.{ReadsList}
use valax_wearedevs_deobfusc.Syntax.RoundTrip.Plain.{
  IsBase-StartsPlain, as_base_plain, base_form_plain,
}
use valax_wearedevs_deobfusc.Syntax.RoundTrip.Calls.{Leads-index, Leads-call, Leads-method_call}
use valax_wearedevs_deobfusc.Syntax.RoundTrip.Nodes.{Leads-identifier, Leads-member, Leads-parens}
use valax_wearedevs_deobfusc.Syntax.RoundTrip.Atoms.{Leads-marked}
use valax_wearedevs_deobfusc.Syntax.RoundTrip.Assign.{ReadsTarget}

module _ {N : Type 0} (indent : Text) (number_text : N → Text) (level : ℕ) where
  -- The tree as a base, with the parentheses that it gets there.
  abbrev pub LeadsBase : Expr N → Type 0
  LeadsBase b =
      Leads (as_base b (expression indent number_text level b)) (base_form b (form number_text b))

  abbrev pub LeadsSo : Expr N → Type 0
  LeadsSo e = Leads (expression indent number_text level e) (form number_text e)

  pub call_leads :
      (b : Expr N) (es : Exprs N)
      → LeadsBase b
      → ReadsList indent number_text level es
      → LeadsSo (call b es)
  unfolding expression form
  call_leads b es h k = Leads-call indent number_text level _ _ es h k

  pub method_call_leads :
      (b : Expr N) (x : Text) (es : Exprs N)
      → LeadsBase b
      → ReadsList indent number_text level es
      → LeadsSo (method_call b x es)
  unfolding expression form
  method_call_leads b x es h k = Leads-method_call indent number_text level _ _ x es h k

  pub member_leads : (b : Expr N) (x : Text) → LeadsBase b → LeadsSo (member b x)
  unfolding expression form
  member_leads b x h = Leads-member _ _ x h

  pub index_leads :
      (b e : Expr N) → LeadsBase b → Reads indent number_text level e → LeadsSo (index b e)
  unfolding expression form
  index_leads b e h k = Leads-index indent number_text level _ _ e h k

  pub identifier_leads : (x : Text) → LeadsSo (identifier x)
  unfolding expression form
  identifier_leads x = Leads-identifier x

  -- As a base, a tree that begins with a name or a base has no parentheses, and one with an operator
  -- and a function have them.
  pub call_base : (b : Expr N) (es : Exprs N) → LeadsSo (call b es) → LeadsBase (call b es)
  unfolding as_base base_form
  call_base b es h = h

  pub method_call_base :
      (b : Expr N) (x : Text) (es : Exprs N)
      → LeadsSo (method_call b x es)
      → LeadsBase (method_call b x es)
  unfolding as_base base_form
  method_call_base b x es h = h

  pub member_base : (b : Expr N) (x : Text) → LeadsSo (member b x) → LeadsBase (member b x)
  unfolding as_base base_form
  member_base b x h = h

  pub index_base : (b e : Expr N) → LeadsSo (index b e) → LeadsBase (index b e)
  unfolding as_base base_form
  index_base b e h = h

  pub identifier_base : (x : Text) → LeadsBase (identifier x)
  unfolding as_base base_form
  identifier_base x = identifier_leads x

  pub unary_base :
      (o : UnaryOp) (e : Expr N)
      → Reads indent number_text level (unary o e)
      → LeadsBase (unary o e)
  unfolding as_base base_form
  unary_base o e h = Leads-parens indent number_text level (unary o e) h

  pub binary_base :
      (o : BinaryOp) (a b : Expr N)
      → Reads indent number_text level (binary (op o) a b)
      → LeadsBase (binary (op o) a b)
  unfolding as_base base_form
  binary_base BinaryOp.plus a b h =
      Leads-parens indent number_text level (binary (op BinaryOp.plus) a b) h
  binary_base o a b h = Leads-parens indent number_text level (binary (op o) a b) h

  pub logical_base :
      (o : LogicalOp) (a b : Expr N)
      → Reads indent number_text level (logical o a b)
      → LeadsBase (logical o a b)
  unfolding as_base base_form
  logical_base conj a b h = Leads-parens indent number_text level (logical conj a b) h
  logical_base disj a b h = Leads-parens indent number_text level (logical disj a b) h

  pub function_base :
      (xs : List Text) (variadic : Bool) (b : Block N)
      → Reads indent number_text level (function_expression xs variadic b)
      → LeadsBase (function_expression xs variadic b)
  unfolding as_base base_form
  function_base xs variadic b h =
      Leads-parens indent number_text level (function_expression xs variadic b) h

  vararg_base : LeadsBase (marked vararg_literal)
  unfolding as_base base_form
  vararg_base = Leads-marked indent number_text level

  pub marked_base :
      (e : Expr N) → IsBase (marked e) → (IsBase e → LeadsBase e) → LeadsBase (marked e)
  unfolding expression form as_base base_form IsBase
  marked_base vararg_literal b h = vararg_base
  marked_base e b h = h b

  pub target_of :
      (e : Expr N)
      → StartsPlain e
      → (IsBase e → LeadsBase e)
      → ReadsTarget indent number_text level e
  target_of e p h = record {
    plain = p;
    leads =
        subst (λ ps. Leads ps (form number_text e))
          (as_base_plain e (expression indent number_text level e) p)
          (subst (λ x. Leads (as_base e (expression indent number_text level e)) x)
            (base_form_plain e (form number_text e) p) (h (IsBase-StartsPlain e p)));
  }
