-- ===== src/Flow/Reach.antt =====
-- packages/core/src/cfg/cfg.js: `computeReachability`.
use valax_wearedevs_deobfusc.Prelude.{
  ℕ, zero, suc, String, Bool, true, false, ◌&&◌, Option, none, some, List, [], ◌∷◌, ◌++◌, ltb, leb,
  length, ite, if◌then◌else◌,
}
use valax_wearedevs_deobfusc.Prelude.Dict
use valax_wearedevs_deobfusc.Prelude.Dict.{Dict, Key, number_key}
use valax_wearedevs_deobfusc.Flow.Blocks.{
  BlockId, number_id, text_id, id_discrete, id_key, EdgeType, conditional_true, conditional_false,
  Address, Edge, Block, Graph, lowest, bound_at, highest, Bound,
}

-- `reachableSet.has(id)`
unfoldable pub member : BlockId → List BlockId → Bool
member i [] = false
member i (j ∷ js) = let rest = member i js in ite (id_discrete i j) true rest

-- A block that was not seen before goes into the set and to the end of the queue.
unfoldable pub push_new :
    BlockId → Address → List BlockId × List Address → List BlockId × List Address
unfolding member
push_new i a (seen, queue) =
    if member i seen then (seen, queue) else (seen ++ (i ∷ []), queue ++ (a ∷ []))

-- The comparisons of a number with the bounds of a range.
unfoldable pub at_least : ℕ → Bound → Bool
at_least n lowest = true
at_least n (bound_at lo) = leb lo n
at_least n highest = false

unfoldable pub is_under : ℕ → Bound → Bool
is_under n lowest = false
is_under n (bound_at hi) = ltb n hi
is_under n highest = true

module _ {C S : Type 0} where
  unfoldable pub push_target :
      Dict Address (Block C S) → Edge C → List BlockId × List Address → List BlockId × List Address
  unfolding push_new Dict.get
  push_target h e f = elim (Dict.get e.target h) [ none ↦ f | some b ↦ push_new b.id e.target f ]

  -- `for (const edge of current.successors)`
  unfoldable pub push_targets :
      Dict Address (Block C S)
      → List (Edge C)
      → List BlockId × List Address
      → List BlockId × List Address
  unfolding push_target
  push_targets h [] f = f
  push_targets h (e ∷ es) f = push_targets h es (push_target h e f)

  unfoldable pub successors_of : Dict Address (Block C S) → Address → List (Edge C)
  unfolding Dict.get
  successors_of h a = elim (Dict.get a h) [ none ↦ [] | some b ↦ b.successors ]

  -- `while (queue.length > 0)`, on fuel. `none` is fuel that ran out.
  unfoldable pub walk :
      ℕ → Dict Address (Block C S) → List BlockId × List Address → Option (List BlockId)
  unfolding push_targets successors_of
  walk fuel h (seen, []) = some seen
  walk zero h (seen, a ∷ queue) = none
  walk (suc fuel) h (seen, a ∷ queue) =
      walk fuel h (push_targets h (successors_of h a) (seen, queue))

  -- `id >= block.minState && id < block.maxState`; a comparison with `undefined` fails.
  unfoldable pub in_range : ℕ → Block C S → Bool
  unfolding at_least is_under
  in_range n b = elim b.min_state [
    | none ↦ false
    | some lo ↦ elim b.max_state [ none ↦ false | some hi ↦ at_least n lo && is_under n hi ]
  ]

  -- The first block of the map whose range has the number.
  unfoldable pub by_range : ℕ → Dict Address (Block C S) → Dict BlockId Address → Option Address
  unfolding in_range Dict.get
  by_range n h [] = none
  by_range n h ((i, a) ∷ bs) =
      let rest = by_range n h bs in
      elim (Dict.get a h) [ none ↦ rest | some b ↦ if in_range n b then some a else rest ]

  unfoldable pub entry_block : BlockId → Graph C S → Option Address
  unfolding by_range Dict.get
  entry_block i g = elim (Dict.get i g.blocks) [
    | some a ↦ some a
    | none ↦ elim i [ number_id n ↦ by_range n g.heap g.blocks | text_id s ↦ none ]
  ]

  -- The body of the loop over the entries, and that of a single entry.
  unfoldable pub push_start :
      Graph C S → Option Address → List BlockId × List Address → List BlockId × List Address
  unfolding push_new Dict.get
  push_start g none f = f
  push_start g (some a) f = elim (Dict.get a g.heap) [ none ↦ f | some b ↦ push_new b.id a f ]

  unfoldable pub push_entries :
      Graph C S → List BlockId → List BlockId × List Address → List BlockId × List Address
  unfolding push_start entry_block
  push_entries g [] f = f
  push_entries g (i ∷ is) f = push_entries g is (push_start g (entry_block i g) f)

-- The argument: a collection of ids, one id, or none.
pub data Start : Type 0 where
  entries : List BlockId → Start
  one_entry : BlockId → Start
  own_entry : Start

unfoldable pub unreachable_ids : List BlockId → Dict BlockId Address → List BlockId
unfolding member
unreachable_ids seen [] = []
unreachable_ids seen ((i, a) ∷ bs) =
    let rest = unreachable_ids seen bs in if member i seen then rest else i ∷ rest

unfoldable pub is_conditional : EdgeType → Bool
is_conditional conditional_true = true
is_conditional conditional_false = true
is_conditional _ = false

unfoldable pub conditional_count : {C : Type 0} → List (Edge C) → ℕ
unfolding is_conditional
conditional_count [] = 0
conditional_count (e ∷ es) =
    let rest = conditional_count es in if is_conditional e.edge_type then suc rest else rest

pub record Reachability : Type 0 where
  pub dispatcher_candidate : String
  pub states : ℕ
  pub reachable : ℕ
  pub unreachable : ℕ
  pub transitions : ℕ
  pub conditional_transitions : ℕ
  pub terminal_states : ℕ
  pub reachable_set : List BlockId
  pub unreachable_set : List BlockId

module _ {C S : Type 0} where
  unfoldable pub start_from : Graph C S → Start → List BlockId × List Address
  unfolding push_entries push_start Dict.get
  start_from g (entries is) = push_entries g is ([], [])
  start_from g (one_entry i) = push_start g (Dict.get i g.blocks) ([], [])
  start_from g own_entry = push_start g g.entry ([], [])

  unfoldable pub report : Graph C S → List BlockId → Reachability
  unfolding unreachable_ids conditional_count
  report g seen =
      let unseen = unreachable_ids seen g.blocks in
      record {
        dispatcher_candidate = g.dispatcher_var;
        states = length g.blocks;
        reachable = length seen;
        unreachable = length unseen;
        transitions = length g.edges;
        conditional_transitions = conditional_count g.edges;
        terminal_states = length g.exits;
        reachable_set = seen;
        unreachable_set = unseen;
      }

  -- The loop has fuel for each block of the heap once.
  unfoldable pub compute_reachability : Graph C S → Start → Option Reachability
  unfolding walk start_from report
  compute_reachability g start = elim (walk (length g.heap) g.heap (start_from g start)) [
    | none ↦ none
    | some seen ↦ some (report g seen)
  ]
