-- ===== src/Families/Grouping.antt =====
-- packages/core/src/adapters/clustering.js: what `cluster` groups.
use valax_wearedevs_deobfusc.Prelude.{
  ◌≡◌, refl, sym, ◌∙◌, Option, none, some, Option-cases, Bool-cases, inl, inr, List, [], ◌∷◌, ◌++◌,
  append_assoc, append-nil, String, text_discrete, ite, if_pos, if_neg, ap,
}
use valax_wearedevs_deobfusc.Prelude.Dict.{
  Dict, text_key, get, has, has_of_get, none_of_get, get-set_self, get-set_ne,
}
use valax_wearedevs_deobfusc.Families.Clusterer.{
  Fixture, classify, opened, push_to, add_fixture, cluster_from, cluster,
}

module _ {I : Type 0} where
  -- The fixtures of a family, in the order of the list.
  abbrev pub members : String → List (Fixture I) → List I
  members family [] = []
  members family (f ∷ fs) =
      let rest = members family fs in
      ite (text_discrete (classify f.fingerprint) family) (f.fixture_id ∷ rest) rest

  -- A family without fixtures has no list.
  abbrev pub joined : Option (List I) → List I → Option (List I)
  joined none [] = none
  joined none (i ∷ is) = some (i ∷ is)
  joined (some ids) is = some (ids ++ is)

  joined-cons :
      (o : Option (List I)) (i : I) (is : List I)
      → joined (joined o (i ∷ [])) is ≡ joined o (i ∷ is)
  joined-cons none i is = refl
  joined-cons (some ids) i is = rw (append_assoc) refl

  joined-nil : (o : Option (List I)) → joined o [] ≡ o
  joined-nil none = refl
  joined-nil (some ids) = rw (append-nil) refl

  add_self :
      (family : String) (id : I) (m : Dict String (List I))
      → get family (push_to family id (opened family m)) ≡ joined (get family m) (id ∷ [])
  unfolding push_to opened
  add_self family id m = elim (Option-cases (get family m)) [
    | inl n ↦
        rw (none_of_get family m n, push_to, get-set_self family family [] m refl, n)
          (get-set_self family family _ _ refl)
    | inr (ids, e) ↦
        rw (has_of_get family ids m e, push_to, e) (get-set_self family family _ _ refl)
  ]

  push_other :
      (family j : String) (id : I) (m : Dict String (List I))
      → ¬ (family ≡ j)
      → get j (push_to family id m) ≡ get j m
  unfolding push_to
  push_other family j id m h = elim (Option-cases (get family m)) [
    | inl n ↦ rw (push_to, n) refl
    | inr (ids, e) ↦ rw (push_to, e) (get-set_ne family j _ m h)
  ]

  opened_other :
      (family j : String) (m : Dict String (List I))
      → ¬ (family ≡ j)
      → get j (opened family m) ≡ get j m
  unfolding opened
  opened_other family j m h = elim (Bool-cases (has family m)) [
    | inl t ↦ rw (opened, t) refl
    | inr f ↦ rw (opened, f) (get-set_ne family j [] m h)
  ]

  at_fixture :
      (family own : String) (id : I) (m : Dict String (List I)) (is : List I)
      → joined (get family (push_to own id (opened own m))) is
        ≡ joined (get family m) (ite (text_discrete own family) (id ∷ is) is)
  at_fixture family own id m is = elim (text_discrete own family) [
    | yes e ↦
        rw (if_pos (text_discrete own family) e, ← e)
          (ap (λ o. joined o is) (add_self own id m) ∙ joined-cons (get own m) id is)
    | no h ↦
        rw (if_neg (text_discrete own family) h)
          (ap (λ o. joined o is) (push_other own family id _ h ∙ opened_other own family m h))
  ]

  loop_lem :
      (family : String) (m : Dict String (List I)) (fs : List (Fixture I))
      → get family (cluster_from m fs) ≡ joined (get family m) (members family fs)
  unfolding cluster_from add_fixture
  loop_lem family m [] = sym (joined-nil (get family m))
  loop_lem family m (f ∷ fs) =
      let own = classify f.fingerprint in
      let rest = loop_lem family (add_fixture m f) fs in
      rest ∙ at_fixture family own f.fixture_id m (members family fs)

  -- The clusterer lists under each name exactly the fixtures that are classified by that name, in
  -- the order in which they came, and has no list where there is none.
  pub get-cluster :
      (family : String) (fs : List (Fixture I))
      → get family (cluster fs) ≡ joined none (members family fs)
  unfolding cluster get
  get-cluster family fs = loop_lem family [] fs
