-- ===== src/Syntax/RoundTrip/Infix.antt =====
-- packages/core/src: the parser and the generator agree on the infix operators.
use valax_wearedevs_deobfusc.Prelude.{ℕ, suc, ◌*◌, ◌≤◌, ◌≡◌, refl, inl, inr, ◌⊎◌, arith, false}
use valax_wearedevs_deobfusc.Evaluator.Syntax.{
  BinaryOp, difference, times, over, modulo, power, less, less_equal, greater, greater_equal, equal,
  not_equal, concatenation, LogicalOp, conj, disj,
}
use valax_wearedevs_deobfusc.Syntax.Tokens.{type_name, Kind}
use valax_wearedevs_deobfusc.Syntax.Tree.{op, Expr, binary, logical}
use valax_wearedevs_deobfusc.Syntax.Result.{is}
use valax_wearedevs_deobfusc.Syntax.Parse.Heads.{
  binary_precedence, next_precedence, join, suffix_of, no_suffix,
}
use valax_wearedevs_deobfusc.Syntax.Generate.Pieces.{
  binary_token, logical_token, operator_precedence, logical_precedence, left_precedence,
  right_precedence, is_right_associative,
}
use valax_wearedevs_deobfusc.Syntax.RoundTrip.Form.{next_level, IsLeft, IsRight}

-- What an infix token has to do with the operator of the node that the parser makes of it: the node's
-- precedence `c`, the level `next` of the right operand, and the operands' precedences in tenths.
pub record Infix (N : Type 0) (k : Kind N) (make : Expr N → Expr N → Expr N) (c next left right : ℕ)
    : Type 0 where
  pub level : binary_precedence k ≡ c
  pub above : next_precedence k ≡ next
  pub joins : (l r : Expr N) → join k l r ≡ make l r
  pub ends : suffix_of k ≡ no_suffix
  pub positive : 1 ≤ c
  pub sign : is "=" k ≡ false
  pub sides :
      (IsLeft c × ((next ≡ suc c) × ((left ≡ 10 * c) × (right ≡ suc (10 * c)))))
      ⊎ (IsRight c × ((next ≡ c) × ((left ≡ suc (10 * c)) × (right ≡ 10 * c))))

left_infix :
    {N : Type 0} (k : Kind N) (make : Expr N → Expr N → Expr N) (c : ℕ)
    → binary_precedence k ≡ suc c
    → next_precedence k ≡ suc (suc c)
    → ((l r : Expr N) → join k l r ≡ make l r)
    → suffix_of k ≡ no_suffix
    → is "=" k ≡ false
    → IsLeft (suc c)
    → Infix N k make (suc c) (suc (suc c)) (10 * suc c) (suc (10 * suc c))
left_infix k make c a b j s g h = record {
  level = a;
  above = b;
  joins = j;
  ends = s;
  positive = omega arith;
  sign = g;
  sides = inl (h, (refl, (refl, refl)));
}

right_infix :
    {N : Type 0} (k : Kind N) (make : Expr N → Expr N → Expr N) (c : ℕ)
    → binary_precedence k ≡ suc c
    → next_precedence k ≡ suc c
    → ((l r : Expr N) → join k l r ≡ make l r)
    → suffix_of k ≡ no_suffix
    → is "=" k ≡ false
    → IsRight (suc c)
    → Infix N k make (suc c) (suc c) (suc (10 * suc c)) (10 * suc c)
right_infix k make c a b j s g h = record {
  level = a;
  above = b;
  joins = j;
  ends = s;
  positive = omega arith;
  sign = g;
  sides = inr (h, (refl, (refl, refl)));
}

abbrev BinaryInfix : Type 0 → BinaryOp → Type 0
BinaryInfix N o =
    Infix N (binary_token o) (binary (op o)) (operator_precedence (op o)) (next_level (op o))
      (left_precedence (op o)) (right_precedence (op o))

pub binary_infix : (N : Type 0) (o : BinaryOp) → BinaryInfix N o
unfolding binary_token binary_precedence next_precedence join suffix_of is type_name
    operator_precedence next_level left_precedence right_precedence is_right_associative
binary_infix N BinaryOp.plus = left_infix _ _ 4 refl refl (λ l r. refl) refl refl (inr (inl refl))
binary_infix N difference = left_infix _ _ 4 refl refl (λ l r. refl) refl refl (inr (inl refl))
binary_infix N times = left_infix _ _ 5 refl refl (λ l r. refl) refl refl (inr (inr refl))
binary_infix N over = left_infix _ _ 5 refl refl (λ l r. refl) refl refl (inr (inr refl))
binary_infix N modulo = left_infix _ _ 5 refl refl (λ l r. refl) refl refl (inr (inr refl))
binary_infix N power = right_infix _ _ 7 refl refl (λ l r. refl) refl refl (inr refl)
binary_infix N less = left_infix _ _ 2 refl refl (λ l r. refl) refl refl (inl (omega arith))
binary_infix N less_equal = left_infix _ _ 2 refl refl (λ l r. refl) refl refl (inl (omega arith))
binary_infix N greater = left_infix _ _ 2 refl refl (λ l r. refl) refl refl (inl (omega arith))
binary_infix N greater_equal =
    left_infix _ _ 2 refl refl (λ l r. refl) refl refl (inl (omega arith))
binary_infix N equal = left_infix _ _ 2 refl refl (λ l r. refl) refl refl (inl (omega arith))
binary_infix N not_equal = left_infix _ _ 2 refl refl (λ l r. refl) refl refl (inl (omega arith))
binary_infix N concatenation = right_infix _ _ 3 refl refl (λ l r. refl) refl refl (inl refl)

abbrev LogicalInfix : Type 0 → LogicalOp → Type 0
LogicalInfix N o =
    Infix N (logical_token o) (logical o) (logical_precedence o) (suc (logical_precedence o))
      (10 * logical_precedence o) (suc (10 * logical_precedence o))

pub logical_infix : (N : Type 0) (o : LogicalOp) → LogicalInfix N o
unfolding logical_token binary_precedence next_precedence join suffix_of is type_name
    logical_precedence
logical_infix N conj = left_infix _ _ 1 refl refl (λ l r. refl) refl refl (inl (omega arith))
logical_infix N disj = left_infix _ _ 0 refl refl (λ l r. refl) refl refl (inl (omega arith))
