-- ===== src/Flow/Closed.antt =====
-- packages/core/src/cfg/cfg.js: the set that `computeReachability` answers.
use valax_wearedevs_deobfusc.Prelude.{
  ℕ, zero, suc, ◌≡◌, refl, sym, subst, Option, none, some, List, [], ◌∷◌, length, In,
  In-append_cases, arith, Option-cases, Bool-cases, inl, inr,
}
use valax_wearedevs_deobfusc.Prelude.Dict
use valax_wearedevs_deobfusc.Prelude.Dict.{Dict, Key, number_key}
use valax_wearedevs_deobfusc.Flow.Blocks.{BlockId, id_key, Address, Edge, Block, Graph}
use valax_wearedevs_deobfusc.Flow.Reach.{
  member, push_new, push_target, push_targets, successors_of, walk, push_start, push_entries,
  entry_block, Start, entries, one_entry, own_entry, start_from, report, Reachability,
  compute_reachability,
}

none-In : {A : Type 0} (es : List A) (e : A) → es ≡ [] → ¬ In e es
none-In [] e q m = m
none-In (d ∷ es) e q m = absurd (cc q)

module _ {C S : Type 0} where
  -- The blocks that the edges lead to from a block.
  pub data Leads (h : Dict Address (Block C S)) (a : Address) : Address → Type 0 where
    stay : Leads h a a
    step :
        {b : Address} {block next : Block C S} (e : Edge C)
        → Leads h a b
        → Dict.get b h ≡ some block
        → In e block.successors
        → Dict.get e.target h ≡ some next
        → Leads h a e.target

  -- An id that belongs to a block of the heap.
  abbrev pub Named : Dict Address (Block C S) → (Address → Type 0) → BlockId → Type 0
  Named h P i = (a : Address) × ((b : Block C S) × ((Dict.get a h ≡ some b) × ((b.id ≡ i) × P a)))

  -- Every id of the set names a block that has the property, and so has every address of the queue.
  record Holds (h : Dict Address (Block C S)) (P : Address → Type 0)
      (f : List BlockId × List Address) : Type 0 where
    ids : (i : BlockId) → In i f.0 → Named h P i
    queued : (a : Address) → In a f.1 → P a

  push_new-Holds :
      (h : Dict Address (Block C S)) (P : Address → Type 0) (a : Address) (b : Block C S)
      (f : List BlockId × List Address)
      → Dict.get a h ≡ some b
      → P a
      → Holds h P f
      → Holds h P (push_new b.id a f)
  unfolding push_new
  push_new-Holds h P a b (seen, queue) e p k = elim (Bool-cases (member b.id seen)) [
    | inl m ↦ rw (m, push_new) k
    | inr m ↦
        rw (m, push_new)
          (record {
            ids = λ i t. elim (In-append_cases i seen (b.id ∷ []) t) [
              | inl u ↦ k.ids i u
              | inr u ↦ elim u [ inl q ↦ (a, (b, (e, (q, p)))) | inr z ↦ elim z [ ] ]
            ];
            queued = λ c t. elim (In-append_cases c queue (a ∷ []) t) [
              | inl u ↦ k.queued c u
              | inr u ↦ elim u [ inl q ↦ subst P q p | inr z ↦ elim z [ ] ]
            ];
          })
  ]

  push_targets-Holds :
      (h : Dict Address (Block C S)) (P : Address → Type 0) (es : List (Edge C))
      (f : List BlockId × List Address)
      → ((e : Edge C) (b : Block C S) → In e es → Dict.get e.target h ≡ some b → P e.target)
      → Holds h P f
      → Holds h P (push_targets h es f)
  unfolding push_targets push_target
  push_targets-Holds h P [] f p k = k
  push_targets-Holds h P (e ∷ es) f p k =
      push_targets-Holds h P es (push_target h e f) (λ d b m. p d b (inr m))
        (elim (Option-cases (Dict.get e.target h)) [
          | inl n ↦ rw (n, push_target) k
          | inr (b, s) ↦
              rw (s, push_target) (push_new-Holds h P e.target b f s (p e b (inl refl) s) k)
        ])

  -- A property that goes along the edges.
  abbrev Travels : Dict Address (Block C S) → (Address → Type 0) → Type 0
  Travels h P =
      (a : Address) (block : Block C S) (e : Edge C) (next : Block C S)
      → P a
      → Dict.get a h ≡ some block
      → In e block.successors
      → Dict.get e.target h ≡ some next
      → P e.target

  successors_none :
      (h : Dict Address (Block C S)) (a : Address) → Dict.get a h ≡ none → successors_of h a ≡ []
  unfolding successors_of
  successors_none h a n = rw (n, successors_of) refl

  pub successors_some :
      (h : Dict Address (Block C S)) (a : Address) (b : Block C S)
      → Dict.get a h ≡ some b
      → successors_of h a ≡ b.successors
  unfolding successors_of
  successors_some h a b k = rw (k, successors_of) refl

  successors-Travels :
      (h : Dict Address (Block C S)) (P : Address → Type 0) (a : Address) (e : Edge C)
      (next : Block C S)
      → Travels h P
      → P a
      → In e (successors_of h a)
      → Dict.get e.target h ≡ some next
      → P e.target
  successors-Travels h P a e next t p m s = elim (Option-cases (Dict.get a h)) [
    | inl n ↦ absurd (none-In (successors_of h a) e (successors_none h a n) m)
    | inr (b, k) ↦ t a b e next p k (subst (In e) (successors_some h a b k) m) s
  ]

  walk-Holds :
      (fuel : ℕ) (h : Dict Address (Block C S)) (P : Address → Type 0) (seen : List BlockId)
      (queue : List Address) (ids : List BlockId)
      → Travels h P
      → Holds h P (seen, queue)
      → walk fuel h (seen, queue) ≡ some ids
      → (i : BlockId) → In i ids
      → Named h P i
  unfolding walk
  walk-Holds fuel h P seen [] ids t k w i m = k.ids i (subst (In i) (cc (sym w)) m)
  walk-Holds zero h P seen (a ∷ queue) ids t k w i m = absurd (cc w)
  walk-Holds (suc fuel) h P seen (a ∷ queue) ids t k w i m =
      let next = push_targets h (successors_of h a) (seen, queue) in
      walk-Holds fuel h P next.0 next.1 ids t
        (push_targets-Holds h P (successors_of h a) (seen, queue)
          (λ e b u s. successors-Travels h P a e b t (k.queued a (inl refl)) u s)
          (record { ids = k.ids; queued = λ c u. k.queued c (inr u) }))
        w i m

  -- The blocks that the walk starts from.
  abbrev pub IsStart : Graph C S → Start → Address → Type 0
  IsStart g (entries is) a = (i : BlockId) × (In i is × (entry_block i g ≡ some a))
  IsStart g (one_entry i) a = Dict.get i g.blocks ≡ some a
  IsStart g own_entry a = g.entry ≡ some a

  -- What edges lead to from them.
  abbrev pub Reached : Graph C S → Start → Address → Type 0
  Reached g start b = (a : Address) × (IsStart g start a × Leads g.heap a b)

  Reached-Travels : (g : Graph C S) (start : Start) → Travels g.heap (Reached g start)
  Reached-Travels g start a block e next (r, (m, l)) b i s = (r, (m, step e l b i s))

  push_start-Holds :
      (g : Graph C S) (P : Address → Type 0) (o : Option Address) (f : List BlockId × List Address)
      → ((a : Address) → o ≡ some a → P a)
      → Holds g.heap P f
      → Holds g.heap P (push_start g o f)
  unfolding push_start
  push_start-Holds g P none f p k = k
  push_start-Holds g P (some a) f p k = elim (Option-cases (Dict.get a g.heap)) [
    | inl n ↦ rw (n, push_start) k
    | inr (b, s) ↦ rw (s, push_start) (push_new-Holds g.heap P a b f s (p a refl) k)
  ]

  push_entries-Holds :
      (g : Graph C S) (P : Address → Type 0) (is : List BlockId) (f : List BlockId × List Address)
      → ((i : BlockId) (a : Address) → In i is → entry_block i g ≡ some a → P a)
      → Holds g.heap P f
      → Holds g.heap P (push_entries g is f)
  unfolding push_entries
  push_entries-Holds g P [] f p k = k
  push_entries-Holds g P (i ∷ is) f p k =
      push_entries-Holds g P is (push_start g (entry_block i g) f) (λ j a m. p j a (inr m))
        (push_start-Holds g P (entry_block i g) f (λ a. p i a (inl refl)) k)

  nothing-Holds : (h : Dict Address (Block C S)) (P : Address → Type 0) → Holds h P ([], [])
  nothing-Holds h P = record { ids = λ i m. elim m [ ]; queued = λ a m. elim m [ ] }

  start-Holds :
      (g : Graph C S) (start : Start) → Holds g.heap (Reached g start) (start_from g start)
  unfolding start_from
  start-Holds g (entries is) =
      push_entries-Holds g (Reached g (entries is)) is ([], [])
        (λ i a m e. (a, ((i, (m, e)), stay))) (nothing-Holds g.heap (Reached g (entries is)))
  start-Holds g (one_entry i) =
      push_start-Holds g (Reached g (one_entry i)) (Dict.get i g.blocks) ([], [])
        (λ a e. (a, (e, stay))) (nothing-Holds g.heap (Reached g (one_entry i)))
  start-Holds g own_entry =
      push_start-Holds g (Reached g own_entry) g.entry ([], []) (λ a e. (a, (e, stay)))
        (nothing-Holds g.heap (Reached g own_entry))

  pub result_ids :
      (g : Graph C S) (start : Start) (r : Reachability)
      → compute_reachability g start ≡ some r
      → walk (length g.heap) g.heap (start_from g start) ≡ some r.reachable_set
  unfolding compute_reachability report
  result_ids g start r e = ground (arith, e)

  -- Each id of the answered set is the id of a block that edges lead to from a block of the start.
  pub compute_reachability-Reached :
      (g : Graph C S) (start : Start) (r : Reachability) (i : BlockId)
      → compute_reachability g start ≡ some r
      → In i r.reachable_set
      → Named g.heap (Reached g start) i
  compute_reachability-Reached g start r i e m =
      let f = start_from g start in
      walk-Holds (length g.heap) g.heap (Reached g start) f.0 f.1 r.reachable_set
        (Reached-Travels g start) (start-Holds g start) (result_ids g start r e) i m
