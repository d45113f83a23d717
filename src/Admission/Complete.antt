-- ===== src/Admission/Complete.antt =====
-- packages/core/src/analysis/semantic-graph-completeness-verifier.js: what a complete graph has.
use valax_wearedevs_deobfusc.Prelude.{
  ◌≡◌, ◌≤◌, ◌↔◌, ◌⊎◌, inl, inr, refl, ap, ◌∙◌, Bool, true, false, ◌&&◌, ◌||◌, Option, none, some,
  List, [], ◌∷◌, arith, if◌then◌else◌,
}
use valax_wearedevs_deobfusc.Admission.Graph.{
  Binding, EnvironmentGraph, LiftStats, OrderGraph, source_closures, is_prefix_binding,
  is_args_binding, is_count_binding, Found, scan_binding, scan_environments, bindings_complete,
  order_complete, verify,
}

-- Some binding of some environment passes the test.
unfoldable pub any_binding : (Binding → Bool) → List (List Binding) → Bool
any_binding p [] = false
any_binding p ([] ∷ es) = any_binding p es
any_binding p ((b ∷ bs) ∷ es) = p b || any_binding p (bs ∷ es)

abbrev pub seen : List (List Binding) → Found → Found
seen es f = record {
  has_prefix = any_binding is_prefix_binding es || f.has_prefix;
  has_args = any_binding is_args_binding es || f.has_args;
  has_count = any_binding is_count_binding es || f.has_count;
}

or_step : (a b c : Bool) → (b || (if a then true else c)) ≡ ((a || b) || c)
or_step true true c = refl
or_step true false c = refl
or_step false b c = refl

abbrev found : Bool → Bool → Bool → Found
found p a c = record { has_prefix = p; has_args = a; has_count = c }

found_eq : (p p' a a' c c' : Bool) → p ≡ p' → a ≡ a' → c ≡ c' → found p a c ≡ found p' a' c'
found_eq p p' a a' c c' e f g =
    ap (λ x. found x a c) e ∙ (ap (λ x. found p' x c) f ∙ ap (found p' a') g)

scan-seen : (es : List (List Binding)) (f : Found) → scan_environments es f ≡ seen es f
unfolding scan_environments any_binding
scan-seen [] f = refl
scan-seen ([] ∷ es) f = scan-seen es f
scan-seen ((b ∷ bs) ∷ es) f =
    scan-seen (bs ∷ es) (scan_binding b f)
    ∙ found_eq _ _ _ _ _ _ (or_step (is_prefix_binding b) _ f.has_prefix)
        (or_step (is_args_binding b) _ f.has_args) (or_step (is_count_binding b) _ f.has_count)

-- What the graph must hold before a program is emitted from it.
pub record IsCovered (g : EnvironmentGraph) (v : LiftStats) (o : Option OrderGraph) : Type 0 where
  pub closures : 2 ≤ source_closures g.closure_kinds
  pub prefix_kept : any_binding is_prefix_binding g.environments ≡ true
  pub args_kept : any_binding is_args_binding g.environments ≡ true
  pub count_kept : any_binding is_count_binding g.environments ≡ true
  pub calls : 2 ≤ g.call_count
  pub branches : 1 ≤ v.stateful_branches
  pub returns : 2 ≤ v.multi_returns
  pub tables : 1 ≤ g.table_count
  pub varargs : 1 ≤ v.vararg_packs
  pub ordered :
      (o ≡ none) ⊎ ((w : OrderGraph) × ((o ≡ some w) × ((w.acyclic ≡ true) × (4 ≤ w.node_count))))

bindings_iff :
    (es : List (List Binding))
    → bindings_complete es ≡ (
        any_binding is_prefix_binding es
        && any_binding is_args_binding es
        && any_binding is_count_binding es)
unfolding bindings_complete
bindings_iff es =
    ground
      (arith, scan-seen es (record { has_prefix = false; has_args = false; has_count = false }))

order_iff :
    (o : Option OrderGraph)
    → (order_complete o ≡ true) ↔ (
        (o ≡ none)
        ⊎ ((w : OrderGraph) × ((o ≡ some w) × ((w.acyclic ≡ true) × (4 ≤ w.node_count)))))
unfolding order_complete
order_iff none = (λ h. inl refl, λ h. refl)
order_iff (some w) = (
  λ h. inr (w, (refl, (ground (arith, h), ground (arith, h)))),
  λ h. elim h [ inl n ↦ absurd (cc n) | inr (x, (e, (a, c))) ↦ ground (arith, e, a, c) ],
)

-- Where the graph, the lifted blocks and the lifter's counts are there, the verifier calls the graph
-- complete exactly when it has two closures of the source, bindings of all three kinds somewhere in
-- its environments, two calls, a stateful branch, two returns, a table and packed varargs, and the
-- order of evaluation, if it is given, is acyclic with four nodes. The code's comments ask for more:
-- an extra binding, and a call of the factory and prints beside two calls of closures.
pub verify-IsCovered :
    (g : EnvironmentGraph) (v : LiftStats) (o : Option OrderGraph)
    → ((verify (some g) true (some v) o).complete ≡ true) ↔ IsCovered g v o
unfolding verify
verify-IsCovered g v o =
    let b = bindings_iff g.environments in
    let (to, from) = order_iff o in
    (
      λ h. record {
        closures = ground (arith, h);
        prefix_kept = ground (arith, h, b);
        args_kept = ground (arith, h, b);
        count_kept = ground (arith, h, b);
        calls = ground (arith, h);
        branches = ground (arith, h);
        returns = ground (arith, h);
        tables = ground (arith, h);
        varargs = ground (arith, h);
        ordered = to (ground (arith, h));
      },
      λ c. ground (
        arith,
        b,
        from c.ordered,
        c.closures,
        c.prefix_kept,
        c.args_kept,
        c.count_kept,
        c.calls,
        c.branches,
        c.returns,
        c.tables,
        c.varargs,
      ),
    )
