-- ===== src/Flow/Whole.antt =====
-- packages/core/src/cfg/cfg.js: `computeReachability` misses no block.
use valax_wearedevs_deobfusc.Prelude.{
  ℕ, zero, suc, ◌≡◌, sym, ap, subst, ◌∙◌, true, Option, none, some, List, [], ◌∷◌, length, In,
  arith, Option-cases, inl, inr,
}
use valax_wearedevs_deobfusc.Prelude.Dict
use valax_wearedevs_deobfusc.Prelude.Dict.{Dict, Key, number_key}
use valax_wearedevs_deobfusc.Flow.Blocks.{BlockId, id_key, Address, Block, Graph}
use valax_wearedevs_deobfusc.Flow.Reach.{
  member, push_targets, successors_of, walk, push_start, push_entries, entry_block, Start, entries,
  one_entry, own_entry, start_from, Reachability, compute_reachability,
}
use valax_wearedevs_deobfusc.Flow.Closed.{successors_some, Leads, stay, step, IsStart, result_ids}
use valax_wearedevs_deobfusc.Flow.Sweep.{
  push_new-seen, push_new_self, Nobody, AreUnique, Swept, push_new-Swept, push_targets-seen,
  push_targets-all, push_targets-Swept,
}

module _ {C S : Type 0} where
  -- One turn of the loop.
  turn-Swept :
      (h : Dict Address (Block C S)) (a : Address) (seen : List BlockId) (queue : List Address)
      → AreUnique h
      → Swept h Nobody (seen, a ∷ queue)
      → Swept h Nobody (push_targets h (successors_of h a) (seen, queue))
  turn-Swept h a seen queue u k c d g m =
      let held : Swept h (λ x. x ≡ a) (seen, queue) = λ x y t n. elim (k x y t n) [
        | inl (inl q) ↦ inr (inl (sym q))
        | inl (inr q) ↦ inl q
        | inr (inl z) ↦ absurd z
        | inr (inr w) ↦ inr (inr w)
      ] in
      elim (push_targets-Swept h (λ x. x ≡ a) (successors_of h a) (seen, queue) u held c d g m) [
        | inl q ↦ inl q
        | inr (inl p) ↦ inr (
            inr (λ e n i t.
              push_targets-all h (successors_of h a) (seen, queue) e n
                (subst (In e) (sym (successors_some h a d (ap (λ x. Dict.get x h) (sym p) ∙ g))) i)
                t))
        | inr (inr w) ↦ inr (inr w)
      ]

  walk-closed :
      (fuel : ℕ) (h : Dict Address (Block C S)) (seen : List BlockId) (queue : List Address)
      (ids : List BlockId)
      → AreUnique h
      → Swept h Nobody (seen, queue)
      → walk fuel h (seen, queue) ≡ some ids
      → Swept h Nobody (ids, [])
  unfolding walk
  walk-closed fuel h seen [] ids u k w = subst (λ l. Swept h Nobody (l, [])) (cc w) k
  walk-closed zero h seen (a ∷ queue) ids u k w = absurd (cc w)
  walk-closed (suc fuel) h seen (a ∷ queue) ids u k w =
      let next = push_targets h (successors_of h a) (seen, queue) in
      walk-closed fuel h next.0 next.1 ids u (turn-Swept h a seen queue u k) w

  walk-seen :
      (fuel : ℕ) (h : Dict Address (Block C S)) (seen : List BlockId) (queue : List Address)
      (ids : List BlockId) (i : BlockId)
      → walk fuel h (seen, queue) ≡ some ids
      → member i seen ≡ true
      → member i ids ≡ true
  unfolding walk
  walk-seen fuel h seen [] ids i w m = subst (λ l. member i l ≡ true) (cc w) m
  walk-seen zero h seen (a ∷ queue) ids i w m = absurd (cc w)
  walk-seen (suc fuel) h seen (a ∷ queue) ids i w m =
      let next = push_targets h (successors_of h a) (seen, queue) in
      walk-seen fuel h next.0 next.1 ids i w
        (push_targets-seen h (successors_of h a) (seen, queue) i m)

  push_start-Swept :
      (g : Graph C S) (o : Option Address) (f : List BlockId × List Address)
      → AreUnique g.heap
      → Swept g.heap Nobody f
      → Swept g.heap Nobody (push_start g o f)
  unfolding push_start
  push_start-Swept g none f u k = k
  push_start-Swept g (some a) f u k = elim (Option-cases (Dict.get a g.heap)) [
    | inl n ↦ rw (n, push_start) k
    | inr (b, s) ↦ rw (s, push_start) (push_new-Swept g.heap Nobody a b f u s k)
  ]

  push_start-seen :
      (g : Graph C S) (o : Option Address) (f : List BlockId × List Address) (i : BlockId)
      → member i f.0 ≡ true
      → member i (push_start g o f).0 ≡ true
  unfolding push_start
  push_start-seen g none f i m = m
  push_start-seen g (some a) f i m = elim (Option-cases (Dict.get a g.heap)) [
    | inl n ↦ rw (n, push_start) m
    | inr (b, s) ↦ rw (s, push_start) (push_new-seen i b.id a f m)
  ]

  push_start_self :
      (g : Graph C S) (o : Option Address) (f : List BlockId × List Address) (a : Address)
      (b : Block C S)
      → o ≡ some a
      → Dict.get a g.heap ≡ some b
      → member b.id (push_start g o f).0 ≡ true
  unfolding push_start
  push_start_self g none f a b e s = absurd (cc e)
  push_start_self g (some c) f a b e s =
      let t : Dict.get c g.heap ≡ some b = ground (arith, e, s) in
      rw (t, push_start) (push_new_self b.id c f)

  push_entries-Swept :
      (g : Graph C S) (is : List BlockId) (f : List BlockId × List Address)
      → AreUnique g.heap
      → Swept g.heap Nobody f
      → Swept g.heap Nobody (push_entries g is f)
  unfolding push_entries
  push_entries-Swept g [] f u k = k
  push_entries-Swept g (i ∷ is) f u k =
      push_entries-Swept g is (push_start g (entry_block i g) f) u
        (push_start-Swept g (entry_block i g) f u k)

  push_entries-seen :
      (g : Graph C S) (is : List BlockId) (f : List BlockId × List Address) (i : BlockId)
      → member i f.0 ≡ true
      → member i (push_entries g is f).0 ≡ true
  unfolding push_entries
  push_entries-seen g [] f i m = m
  push_entries-seen g (j ∷ is) f i m =
      push_entries-seen g is (push_start g (entry_block j g) f) i
        (push_start-seen g (entry_block j g) f i m)

  push_entries-all :
      (g : Graph C S) (is : List BlockId) (f : List BlockId × List Address) (i : BlockId)
      (a : Address) (b : Block C S)
      → In i is
      → entry_block i g ≡ some a
      → Dict.get a g.heap ≡ some b
      → member b.id (push_entries g is f).0 ≡ true
  unfolding push_entries
  push_entries-all g (j ∷ is) f i a b (inl q) e s =
      push_entries-seen g is (push_start g (entry_block j g) f) b.id
        (push_start_self g (entry_block j g) f a b (ap (λ k. entry_block k g) q ∙ e) s)
  push_entries-all g (j ∷ is) f i a b (inr m) e s =
      push_entries-all g is (push_start g (entry_block j g) f) i a b m e s
  push_entries-all g [] f i a b m e s = elim m [ ]

  nothing-Swept : (h : Dict Address (Block C S)) → Swept h Nobody ([], [])
  unfolding member
  nothing-Swept h a b e m = absurd (cc m)

  start-Swept :
      (g : Graph C S) (start : Start) → AreUnique g.heap → Swept g.heap Nobody (start_from g start)
  unfolding start_from
  start-Swept g (entries is) u = push_entries-Swept g is ([], []) u (nothing-Swept g.heap)
  start-Swept g (one_entry i) u =
      push_start-Swept g (Dict.get i g.blocks) ([], []) u (nothing-Swept g.heap)
  start-Swept g own_entry u = push_start-Swept g g.entry ([], []) u (nothing-Swept g.heap)

  start_seen :
      (g : Graph C S) (start : Start) (a : Address) (b : Block C S)
      → IsStart g start a
      → Dict.get a g.heap ≡ some b
      → member b.id (start_from g start).0 ≡ true
  unfolding start_from
  start_seen g (entries is) a b (i, (m, e)) s = push_entries-all g is ([], []) i a b m e s
  start_seen g (one_entry i) a b e s = push_start_self g (Dict.get i g.blocks) ([], []) a b e s
  start_seen g own_entry a b e s = push_start_self g g.entry ([], []) a b e s

  Swept-along :
      (h : Dict Address (Block C S)) (ids : List BlockId) (a c : Address) (b : Block C S)
      → Swept h Nobody (ids, [])
      → ((d : Block C S) → Dict.get a h ≡ some d → member d.id ids ≡ true)
      → Leads h a c
      → Dict.get c h ≡ some b
      → member b.id ids ≡ true
  Swept-along h ids a _ b k m stay e = m b e
  Swept-along h ids a _ b k m (step {b = c} {block} e l p i q) t =
      elim (k c block p (Swept-along h ids a c block k m l p)) [
        | inl z ↦ elim z [ ]
        | inr (inl z) ↦ absurd z
        | inr (inr w) ↦ w e b i t
      ]

  -- Where no two blocks have the same id, the walk misses nothing: the id of each block that edges lead
  -- to from a block of the start is in the answered set.
  pub compute_reachability_complete :
      (g : Graph C S) (start : Start) (r : Reachability) (a c : Address) (b : Block C S)
      → AreUnique g.heap
      → compute_reachability g start ≡ some r
      → IsStart g start a
      → Leads g.heap a c
      → Dict.get c g.heap ≡ some b
      → member b.id r.reachable_set ≡ true
  compute_reachability_complete g start r a c b u e m l t =
      let w = result_ids g start r e in
      let f = start_from g start in
      let closed =
        walk-closed (length g.heap) g.heap f.0 f.1 r.reachable_set u (start-Swept g start u) w in
      Swept-along g.heap r.reachable_set a c b closed
        (λ d s.
          walk-seen (length g.heap) g.heap f.0 f.1 r.reachable_set d.id w
            (start_seen g start a d m s))
        l t
