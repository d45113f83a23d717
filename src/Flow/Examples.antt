-- ===== src/Flow/Examples.antt =====
-- Tests and instances for the graph of basic blocks: two blocks, each of which leads to the other.
use valax_wearedevs_deobfusc.Prelude.{ℕ_discrete, ◌≡◌, refl, String, some, none, [], ◌∷◌, inl, inr}
use valax_wearedevs_deobfusc.Flow.Blocks.{
  Block, id_key, id_discrete, number_id, unconditional, Graph, new_block, new_graph, add_block,
  add_edge,
}
use valax_wearedevs_deobfusc.Flow.Reach.{Reachability, one_entry, compute_reachability}
use valax_wearedevs_deobfusc.Flow.Fuel.{compute_reachability-ends}
use valax_wearedevs_deobfusc.Flow.Sweep.{AreUnique}
use valax_wearedevs_deobfusc.Flow.Whole.{compute_reachability_complete}
use valax_wearedevs_deobfusc.Prelude.{ℕ, arith, ap, sym, true, ◌⊎◌}
use valax_wearedevs_deobfusc.Prelude.Dict
use valax_wearedevs_deobfusc.Prelude.Dict.{number_key}
use valax_wearedevs_deobfusc.Flow.Reach.{member}
use valax_wearedevs_deobfusc.Flow.Closed.{
  Leads, stay, step, Named, Reached, compute_reachability-Reached,
}

abbrev cycle : Graph String String
cycle = add_edge 1 0 unconditional none (
    add_edge 0 1 unconditional none (
      add_block 2 (new_block (number_id 30)) (
        add_block 1 (new_block (number_id 20))
          (add_block 0 (new_block (number_id 10)) (new_graph "Q")))))

abbrev walked : Reachability
walked = record {
  dispatcher_candidate = "Q";
  states = 3;
  reachable = 2;
  unreachable = 1;
  transitions = 2;
  conditional_transitions = 0;
  terminal_states = 0;
  reachable_set = number_id 10 ∷ number_id 20 ∷ [];
  unreachable_set = number_id 30 ∷ [];
}

walks_cycle : compute_reachability cycle (one_entry (number_id 10)) ≡ some walked
unfolding compute_reachability add_edge add_block id_discrete ℕ_discrete
walks_cycle = refl

compute_reachability-ends_example :
    (r : Reachability) × (compute_reachability cycle (one_entry (number_id 10)) ≡ some r)
compute_reachability-ends_example = compute_reachability-ends cycle (one_entry (number_id 10))

compute_reachability-Reached_example :
    Named cycle.heap (Reached cycle (one_entry (number_id 10))) (number_id 20)
compute_reachability-Reached_example =
    compute_reachability-Reached cycle (one_entry (number_id 10)) walked (number_id 20) walks_cycle
      (inr (inl refl))

cycle_entries :
    (a : ℕ) (b : Block String String)
    → Dict.get a cycle.heap ≡ some b
    → ((a ≡ 0) × (b.id ≡ number_id 10))
      ⊎ (((a ≡ 1) × (b.id ≡ number_id 20)) ⊎ ((a ≡ 2) × (b.id ≡ number_id 30)))
unfolding add_edge add_block ℕ_discrete
cycle_entries a b e = elim (Dict.In-of_get a b cycle.heap e) [
  | inl p ↦ inl (sym (ap (λ x. x.0) p), sym (ap (λ x. x.1.id) p))
  | inr (inl p) ↦ inr (inl (sym (ap (λ x. x.0) p), sym (ap (λ x. x.1.id) p)))
  | inr (inr (inl p)) ↦ inr (inr (sym (ap (λ x. x.0) p), sym (ap (λ x. x.1.id) p)))
  | inr (inr (inr z)) ↦ absurd z
]

cycle_unique : AreUnique cycle.heap
cycle_unique a c b d p q e = ground (arith, cycle_entries a b p, cycle_entries c d q, e)

-- The block that the first edge leads to.
abbrev second_block : Block String String
second_block = record (new_block (number_id 20)) {
  predecessors =
      record { source = 0; target = 1; edge_type = unconditional; condition = none } ∷ [];
  successors = record { source = 1; target = 0; edge_type = unconditional; condition = none } ∷ [];
}

second_found : Dict.get 1 cycle.heap ≡ some second_block
unfolding add_edge add_block ℕ_discrete
second_found = refl

start_found : Dict.get (number_id 10) cycle.blocks ≡ some 0
unfolding add_edge add_block id_discrete ℕ_discrete
start_found = refl

Leads-on : Leads cycle.heap 0 1
unfolding add_edge add_block ℕ_discrete
Leads-on = step _ stay refl (inl refl) refl

compute_reachability_complete_example : member second_block.id walked.reachable_set ≡ true
compute_reachability_complete_example =
    compute_reachability_complete cycle (one_entry (number_id 10)) walked 0 1 second_block
      cycle_unique walks_cycle start_found Leads-on second_found
