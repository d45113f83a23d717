-- ===== src/Flow/Sweep.antt =====
-- packages/core/src/cfg/cfg.js: what the loop of `computeReachability` has swept.
use valax_wearedevs_deobfusc.Prelude.{
  ◌≡◌, sym, ap, ◌∙◌, true, some, List, [], ◌∷◌, ◌++◌, In, In-append_left, In-append_right, arith,
  Option-cases, Bool-cases, inl, inr, ◌⊎◌,
}
use valax_wearedevs_deobfusc.Prelude.Dict
use valax_wearedevs_deobfusc.Prelude.Dict.{Dict, Key, number_key}
use valax_wearedevs_deobfusc.Flow.Blocks.{BlockId, id_discrete, id_key, Address, Edge, Block}
use valax_wearedevs_deobfusc.Flow.Reach.{member, push_new, push_target, push_targets}
use valax_wearedevs_deobfusc.Flow.Fuel.{member-push}

member-push_old :
    (i j : BlockId) (seen : List BlockId)
    → member i seen ≡ true
    → member i (seen ++ (j ∷ [])) ≡ true
member-push_old i j seen h = ground (arith, member-push i j seen, h)

member-push_new : (i : BlockId) (seen : List BlockId) → member i (seen ++ (i ∷ [])) ≡ true
member-push_new i seen = ground (arith, member-push i i seen)

member-push_cases :
    (i j : BlockId) (seen : List BlockId)
    → member i (seen ++ (j ∷ [])) ≡ true
    → (member i seen ≡ true) ⊎ (i ≡ j)
member-push_cases i j seen h = elim (id_discrete i j) [
  | yes e ↦ inr e
  | no d ↦ inl (ground (arith, member-push i j seen, h, d))
]

pub push_new-seen :
    (i j : BlockId) (a : Address) (f : List BlockId × List Address)
    → member i f.0 ≡ true
    → member i (push_new j a f).0 ≡ true
unfolding push_new
push_new-seen i j a (seen, queue) h = elim (Bool-cases (member j seen)) [
  | inl m ↦ rw (m, push_new) h
  | inr m ↦ rw (m, push_new) (member-push_old i j seen h)
]

pub push_new_self :
    (i : BlockId) (a : Address) (f : List BlockId × List Address)
    → member i (push_new i a f).0 ≡ true
unfolding push_new
push_new_self i a (seen, queue) = elim (Bool-cases (member i seen)) [
  | inl m ↦ rw (m, push_new) m
  | inr m ↦ rw (m, push_new) (member-push_new i seen)
]

abbrev pub Nobody : Address → Type 0
Nobody a = ⊥

module _ {C S : Type 0} where
  -- No two blocks of the heap have the same id.
  abbrev pub AreUnique : Dict Address (Block C S) → Type 0
  AreUnique h =
      (a c : Address) (b d : Block C S)
      → Dict.get a h ≡ some b
      → Dict.get c h ≡ some d
      → b.id ≡ d.id
      → a ≡ c

  abbrev pub Covered : Dict Address (Block C S) → Block C S → List BlockId → Type 0
  Covered h b seen =
      (e : Edge C) (n : Block C S)
      → In e b.successors
      → Dict.get e.target h ≡ some n
      → member n.id seen ≡ true

  -- A block that was seen waits in the queue, or its successors were seen, or it is the one in hand.
  abbrev pub Swept :
      Dict Address (Block C S) → (Address → Type 0) → List BlockId × List Address → Type 0
  Swept h InHand f =
      (a : Address) (b : Block C S)
      → Dict.get a h ≡ some b
      → member b.id f.0 ≡ true
      → In a f.1 ⊎ (InHand a ⊎ Covered h b f.0)

  pub push_new-Swept :
      (h : Dict Address (Block C S)) (P : Address → Type 0) (a : Address) (b : Block C S)
      (f : List BlockId × List Address)
      → AreUnique h
      → Dict.get a h ≡ some b
      → Swept h P f
      → Swept h P (push_new b.id a f)
  unfolding push_new
  push_new-Swept h P a b (seen, queue) u e k = elim (Bool-cases (member b.id seen)) [
    | inl m ↦ rw (m, push_new) k
    | inr m ↦
        rw (m, push_new)
          (λ c d g n. elim (member-push_cases d.id b.id seen n) [
            | inl o ↦ elim (k c d g o) [
              | inl q ↦ inl (In-append_left c queue (a ∷ []) q)
              | inr (inl p) ↦ inr (inl p)
              | inr (inr w) ↦ inr (inr (λ x y i t. member-push_old y.id b.id seen (w x y i t)))
            ]
            | inr o ↦ inl (In-append_right c queue (a ∷ []) (inl (u a c b d e g (sym o))))
          ])
  ]

  push_target-seen :
      (h : Dict Address (Block C S)) (e : Edge C) (f : List BlockId × List Address) (i : BlockId)
      → member i f.0 ≡ true
      → member i (push_target h e f).0 ≡ true
  unfolding push_target
  push_target-seen h e f i m = elim (Option-cases (Dict.get e.target h)) [
    | inl n ↦ rw (n, push_target) m
    | inr (b, s) ↦ rw (s, push_target) (push_new-seen i b.id e.target f m)
  ]

  pub push_targets-seen :
      (h : Dict Address (Block C S)) (es : List (Edge C)) (f : List BlockId × List Address)
      (i : BlockId)
      → member i f.0 ≡ true
      → member i (push_targets h es f).0 ≡ true
  unfolding push_targets
  push_targets-seen h [] f i m = m
  push_targets-seen h (e ∷ es) f i m =
      push_targets-seen h es (push_target h e f) i (push_target-seen h e f i m)

  pub push_targets-all :
      (h : Dict Address (Block C S)) (es : List (Edge C)) (f : List BlockId × List Address)
      (e : Edge C) (n : Block C S)
      → In e es
      → Dict.get e.target h ≡ some n
      → member n.id (push_targets h es f).0 ≡ true
  unfolding push_targets push_target
  push_targets-all h (d ∷ es) f e n (inl q) s =
      push_targets-seen h es (push_target h d f) n.id
        (rw (ap (λ x. Dict.get x.target h) q ∙ s, push_target) (push_new_self n.id d.target f))
  push_targets-all h (d ∷ es) f e n (inr m) s = push_targets-all h es (push_target h d f) e n m s
  push_targets-all h [] f e n m s = elim m [ ]

  pub push_targets-Swept :
      (h : Dict Address (Block C S)) (P : Address → Type 0) (es : List (Edge C))
      (f : List BlockId × List Address)
      → AreUnique h
      → Swept h P f
      → Swept h P (push_targets h es f)
  unfolding push_targets push_target
  push_targets-Swept h P [] f u k = k
  push_targets-Swept h P (e ∷ es) f u k =
      push_targets-Swept h P es (push_target h e f) u (elim (Option-cases (Dict.get e.target h)) [
        | inl n ↦ rw (n, push_target) k
        | inr (b, s) ↦ rw (s, push_target) (push_new-Swept h P e.target b f u s k)
      ])
