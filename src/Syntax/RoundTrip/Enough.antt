-- ===== src/Syntax/RoundTrip/Enough.antt =====
-- Runs of packages/core/src/parser/parser.js that end the same on any fuel from some amount on. `g` is the
-- fuel of the blocks of functions, `f` that of all else.
use valax_wearedevs_deobfusc.Prelude.{ℕ, zero, suc, ◌+◌, ◌≤◌, ◌≡◌, refl, ap, ◌∙◌, arith}
use valax_wearedevs_deobfusc.Syntax.Result.{Result, ok, parse_error, type_error, out_of_fuel, bind}

pub record Enough {A : Type 0} (F : ℕ → ℕ → Result A) (r : Result A) : Type 0 where
  pub fuel : ℕ
  pub result : (g f : ℕ) → fuel ≤ g → fuel ≤ f → F g f ≡ r

module _ {A : Type 0} where
  at_successor :
      (F : ℕ → ℕ → Result A) {r : Result A} (c : ℕ)
      → ((g f : ℕ) → c ≤ g → c ≤ f → F g (suc f) ≡ r)
      → (g f : ℕ) → suc c ≤ g
      → suc c ≤ f
      → F g f ≡ r
  at_successor F c h g (suc f) a b = h g f (omega arith) (omega arith)
  at_successor F c h g zero a b = absurd (omega arith)

  -- It ends whatever the fuel.
  pub at_once : {F : ℕ → ℕ → Result A} {r : Result A} → ((g f : ℕ) → F g (suc f) ≡ r) → Enough F r
  at_once {F} h = record { fuel = 1; result = at_successor F 0 (λ g f a b. h g f) }

  -- One call more.
  pub after :
      (F : ℕ → ℕ → Result A) {G : ℕ → ℕ → Result A} {r : Result A}
      → ((g f : ℕ) → G g (suc f) ≡ F g f)
      → Enough F r
      → Enough G r
  after F {G} h e = record {
    fuel = suc e.fuel;
    result = at_successor G e.fuel (λ g f a b. h g f ∙ e.result g f a b);
  }

  pub same_run :
      (F : ℕ → ℕ → Result A) {G : ℕ → ℕ → Result A} {r : Result A}
      → ((g f : ℕ) → G g f ≡ F g f)
      → Enough F r
      → Enough G r
  same_run F h e = record { fuel = e.fuel; result = λ g f a b. h g f ∙ e.result g f a b }

pub and_then :
    {A B : Type 0} {F : ℕ → ℕ → Result A} {a : A} {r : Result B} (k : A → ℕ → ℕ → Result B)
    → Enough F (ok a)
    → Enough (k a) r
    → Enough (λ g f. bind (F g f) (λ x. k x g f)) r
and_then {F = F} k e d = record {
  fuel = e.fuel + d.fuel;
  result = λ g f p q.
      ap (λ x. bind x (λ y. k y g f)) (e.result g f (omega arith) (omega arith))
      ∙ d.result g f (omega arith) (omega arith);
}

pub bind_assoc :
    {A B C : Type 0} (c : Result A) (f : A → Result B) (g : B → Result C)
    → bind (bind c f) g ≡ bind c (λ a. bind (f a) g)
bind_assoc (ok a) f g = refl
bind_assoc (parse_error m) f g = refl
bind_assoc type_error f g = refl
bind_assoc out_of_fuel f g = refl
