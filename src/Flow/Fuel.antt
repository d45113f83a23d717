-- ===== src/Flow/Fuel.antt =====
-- packages/core/src/cfg/cfg.js: the loop of `computeReachability` ends.
use valax_wearedevs_deobfusc.Prelude.{
  ℕ, zero, suc, ◌+◌, ◌≤◌, ◌≡◌, refl, ap, Bool, true, false, not, ◌||◌, Option, none, some, List, [],
  ◌∷◌, ◌++◌, length, length-append, In, arith, keep_if, length-keep_if-le, ite, Option-cases,
  Bool-cases, inl, inr,
}
use valax_wearedevs_deobfusc.Prelude.Dict
use valax_wearedevs_deobfusc.Prelude.Dict.{Dict, Key, number_key}
use valax_wearedevs_deobfusc.Flow.Blocks.{BlockId, id_discrete, id_key, Address, Edge, Block, Graph}
use valax_wearedevs_deobfusc.Flow.Reach.{
  member, push_new, push_target, push_targets, successors_of, walk, push_start, push_entries,
  entry_block, Start, entries, one_entry, own_entry, start_from, report, Reachability,
  compute_reachability,
}

pub member-push :
    (i j : BlockId) (seen : List BlockId)
    → member i (seen ++ (j ∷ [])) ≡ (member i seen || ite (id_discrete i j) true false)
unfolding member
member-push i j [] = refl
member-push i j (k ∷ seen) = ground (arith, member-push i j seen)

keep_if-fewer :
    {A : Type 0} (q p : A → Bool) (xs : List A)
    → ((x : A) → q x ≡ true → p x ≡ true)
    → length (keep_if q xs) ≤ length (keep_if p xs)
unfolding keep_if
keep_if-fewer q p [] h = omega arith
keep_if-fewer q p (x ∷ xs) h = ground (arith, h x, keep_if-fewer q p xs h)

-- A narrower filter that drops an item in addition keeps fewer.
keep_if-drop :
    {A : Type 0} (q p : A → Bool) (x : A) (xs : List A)
    → ((y : A) → q y ≡ true → p y ≡ true)
    → In x xs
    → p x ≡ true
    → q x ≡ false
    → suc (length (keep_if q xs)) ≤ length (keep_if p xs)
unfolding keep_if
keep_if-drop q p x (y ∷ ys) h (inl e) a b =
    let a' = ap p e in let b' = ap q e in ground (arith, a, b, a', b', keep_if-fewer q p ys h)
keep_if-drop q p x (y ∷ ys) h (inr m) a b = ground (arith, h y, keep_if-drop q p x ys h m a b)
keep_if-drop q p x [] h m a b = elim m [ ]

module _ {C S : Type 0} where
  fresh_in : List BlockId → Address × Block C S → Bool
  fresh_in seen (a, b) = not (member b.id seen)

  -- The blocks of the heap that were not seen yet.
  unseen : Dict Address (Block C S) → List BlockId → ℕ
  unseen h seen = length (keep_if (fresh_in seen) h)

  unseen-push :
      (h : Dict Address (Block C S)) (a : Address) (b : Block C S) (seen : List BlockId)
      → Dict.get a h ≡ some b
      → member b.id seen ≡ false
      → suc (unseen h (seen ++ (b.id ∷ []))) ≤ unseen h seen
  unfolding unseen fresh_in
  unseen-push h a b seen e m =
      keep_if-drop (fresh_in (seen ++ (b.id ∷ []))) (fresh_in seen) (a, b) h
        (λ (k, c) g. ground (arith, g, member-push c.id b.id seen)) (Dict.In-of_get a b h e)
        (ground (arith, m)) (ground (arith, member-push b.id b.id seen))

  push_new-unseen :
      (h : Dict Address (Block C S)) (a : Address) (b : Block C S) (seen : List BlockId)
      (queue : List Address)
      → Dict.get a h ≡ some b
      → unseen h (push_new b.id a (seen, queue)).0 + length (push_new b.id a (seen, queue)).1
        ≤ unseen h seen + length queue
  unfolding push_new
  push_new-unseen h a b seen queue e = elim (Bool-cases (member b.id seen)) [
    | inl m ↦ ground (arith, m)
    | inr m ↦ ground (arith, m, unseen-push h a b seen e m, length-append queue (a ∷ []))
  ]

  abbrev left_over : Dict Address (Block C S) → List BlockId × List Address → ℕ
  left_over h f = unseen h f.0 + length f.1

  push_target-left :
      (h : Dict Address (Block C S)) (e : Edge C) (f : List BlockId × List Address)
      → left_over h (push_target h e f) ≤ left_over h f
  unfolding push_target
  push_target-left h e (seen, queue) = elim (Option-cases (Dict.get e.target h)) [
    | inl n ↦ rw (n, push_target) (omega arith)
    | inr (b, s) ↦ rw (s, push_target) (push_new-unseen h e.target b seen queue s)
  ]

  push_targets-left :
      (h : Dict Address (Block C S)) (es : List (Edge C)) (f : List BlockId × List Address)
      → left_over h (push_targets h es f) ≤ left_over h f
  unfolding push_targets
  push_targets-left h [] f = omega arith
  push_targets-left h (e ∷ es) f =
      omega (arith, push_targets-left h es (push_target h e f), push_target-left h e f)

  walk-ends :
      (fuel : ℕ) (h : Dict Address (Block C S)) (seen : List BlockId) (queue : List Address)
      → unseen h seen + length queue ≤ fuel
      → (ids : List BlockId) × (walk fuel h (seen, queue) ≡ some ids)
  unfolding walk
  walk-ends fuel h seen [] l = (seen, refl)
  walk-ends zero h seen (a ∷ queue) l = absurd (omega (arith, l))
  walk-ends (suc fuel) h seen (a ∷ queue) l =
      let next = push_targets h (successors_of h a) (seen, queue) in
      walk-ends fuel h next.0 next.1
        (omega (arith, l, push_targets-left h (successors_of h a) (seen, queue)))

  push_start-left :
      (g : Graph C S) (o : Option Address) (f : List BlockId × List Address)
      → left_over g.heap (push_start g o f) ≤ left_over g.heap f
  unfolding push_start
  push_start-left g none f = omega arith
  push_start-left g (some a) (seen, queue) = elim (Option-cases (Dict.get a g.heap)) [
    | inl n ↦ rw (n, push_start) (omega arith)
    | inr (b, s) ↦ rw (s, push_start) (push_new-unseen g.heap a b seen queue s)
  ]

  push_entries-left :
      (g : Graph C S) (is : List BlockId) (f : List BlockId × List Address)
      → left_over g.heap (push_entries g is f) ≤ left_over g.heap f
  unfolding push_entries
  push_entries-left g [] f = omega arith
  push_entries-left g (i ∷ is) f = omega (
    arith,
    push_entries-left g is (push_start g (entry_block i g) f),
    push_start-left g (entry_block i g) f,
  )

  empty-left : (h : Dict Address (Block C S)) → left_over h ([], []) ≤ length h
  unfolding unseen
  empty-left h = omega (arith, length-keep_if-le (fresh_in []) h)

  start_from-left :
      (g : Graph C S) (start : Start) → left_over g.heap (start_from g start) ≤ length g.heap
  unfolding start_from
  start_from-left g (entries is) = omega (arith, push_entries-left g is ([], []), empty-left g.heap)
  start_from-left g (one_entry i) =
      omega (arith, push_start-left g (Dict.get i g.blocks) ([], []), empty-left g.heap)
  start_from-left g own_entry = omega (arith, push_start-left g g.entry ([], []), empty-left g.heap)

  pub walk_result :
      (g : Graph C S) (start : Start)
      → (ids : List BlockId) × (walk (length g.heap) g.heap (start_from g start) ≡ some ids)
  walk_result g start =
      let f = start_from g start in
      walk-ends (length g.heap) g.heap f.0 f.1 (start_from-left g start)

  -- The walk over the graph ends, on every graph (with cycles, with edges to blocks that the graph does
  -- not hold) and from every start: no block is taken from the queue twice, so fuel for each block of
  -- the heap is enough.
  pub compute_reachability-ends :
      (g : Graph C S) (start : Start) → (r : Reachability) × (compute_reachability g start ≡ some r)
  unfolding compute_reachability
  compute_reachability-ends g start =
      let (ids, e) = walk_result g start in (report g ids, rw (e, compute_reachability) refl)
