-- ===== src/Prelude/Dict.antt =====
-- A JavaScript `Map`: its entries in the order of insertion. Setting a key that is present keeps
-- the entry's place.
use Prim.Native.Nat.{ℕ, suc, ◌≤◌}
use Prim.Native.String.{String}
use mathlib.Core.Path.{◌≡◌, refl}
use mathlib.Core.Logic.{ite, inl, inr}
use mathlib.Core.Bool.{Bool, true, false}
use mathlib.Core.List.{List, [], ◌∷◌}
use mathlib.Core.Option.{Option, none, some}
use native.Mathlib.Omega.{arith}
use native.Mathlib.Decide.{ℕ_discrete}
use valax_wearedevs_deobfusc.Prelude.Tests.{text_discrete}
use valax_wearedevs_deobfusc.Prelude.Lists.{length, In}

-- The keys that a map compares by `===`.
pub record Key (K : Type 0) : Type 0 where
  pub dec : Discrete K

instance abbrev pub text_key : Key String
text_key = record { dec = text_discrete }

instance abbrev pub number_key : Key ℕ
number_key = record { dec = ℕ_discrete }

abbrev pub Dict : Type 0 → Type 0 → Type 0
Dict K V = List (K × V)

module _ {K V : Type 0} where
  abbrev pub keys : Dict K V → List K
  keys [] = []
  keys ((j, v) ∷ m) = j ∷ keys m

  abbrev pub values : Dict K V → List V
  values [] = []
  values ((j, v) ∷ m) = v ∷ values m

  abbrev pub size : Dict K V → ℕ
  size = length

module _ {K V : Type 0} ⦃key : Key K⦄ where
  unfoldable pub get : K → Dict K V → Option V
  get k [] = none
  get k ((j, v) ∷ m) = ite (key.dec j k) (some v) (get k m)

  unfoldable pub set : K → V → Dict K V → Dict K V
  set k v [] = (k, v) ∷ []
  set k v ((j, w) ∷ m) = ite (key.dec j k) ((j, v) ∷ m) ((j, w) ∷ set k v m)

  unfoldable pub delete : K → Dict K V → Dict K V
  delete k [] = []
  delete k ((j, w) ∷ m) = let rest = delete k m in ite (key.dec j k) rest ((j, w) ∷ rest)

  pub get-set :
      (k j : K) (v : V) (m : Dict K V) → get j (set k v m) ≡ ite (key.dec k j) (some v) (get j m)
  unfolding get set
  get-set k j v [] = refl
  get-set k j v ((i, w) ∷ m) = ground (arith, get-set k j v m)

  pub get-delete : (k j : K) (m : Dict K V) → get j (delete k m) ≡ ite (key.dec k j) none (get j m)
  unfolding get delete
  get-delete k j [] = ground arith
  get-delete k j ((i, w) ∷ m) = ground (arith, get-delete k j m)

  pub size-set-le : (k : K) (v : V) (m : Dict K V) → size (set k v m) ≤ suc (size m)
  unfolding set
  size-set-le k v [] = omega arith
  size-set-le k v ((j, w) ∷ m) = ground (arith, size-set-le k v m)

  pub size-set_present :
      (k : K) (v w : V) (m : Dict K V) → get k m ≡ some w → size (set k v m) ≡ size m
  unfolding get set
  size-set_present k v w [] h = ground arith
  size-set_present k v w ((j, u) ∷ m) h = ground (arith, size-set_present k v w m)

  pub size-delete-le : (k : K) (m : Dict K V) → size (delete k m) ≤ size m
  unfolding delete
  size-delete-le k [] = omega arith
  size-delete-le k ((j, w) ∷ m) = ground (arith, size-delete-le k m)

  pub size-delete_present :
      (k : K) (w : V) (m : Dict K V) → get k m ≡ some w → suc (size (delete k m)) ≤ size m
  unfolding get delete
  size-delete_present k w [] h = ground arith
  size-delete_present k w ((j, u) ∷ m) h =
      ground (arith, size-delete_present k w m, size-delete-le k m)

  -- `m.has(k)`
  unfoldable pub has : K → Dict K V → Bool
  has k [] = false
  has k ((j, v) ∷ m) = ite (key.dec j k) true (has k m)

  pub has-set :
      (k j : K) (v : V) (m : Dict K V) → has j (set k v m) ≡ ite (key.dec k j) true (has j m)
  unfolding has set
  has-set k j v [] = refl
  has-set k j v ((i, w) ∷ m) = ground (arith, has-set k j v m)

  pub has-delete : (k j : K) (m : Dict K V) → has j (delete k m) ≡ ite (key.dec k j) false (has j m)
  unfolding has delete
  has-delete k j [] = ground arith
  has-delete k j ((i, w) ∷ m) = ground (arith, has-delete k j m)

  pub has_of_get : (k : K) (v : V) (m : Dict K V) → get k m ≡ some v → has k m ≡ true
  unfolding has get
  has_of_get k v [] h = ground arith
  has_of_get k v ((j, w) ∷ m) h = ground (arith, has_of_get k v m)

  pub none_of_get : (k : K) (m : Dict K V) → get k m ≡ none → has k m ≡ false
  unfolding has get
  none_of_get k [] h = refl
  none_of_get k ((j, w) ∷ m) h = ground (arith, none_of_get k m)

  pub size-delete-has : (k : K) (m : Dict K V) → has k m ≡ true → suc (size (delete k m)) ≤ size m
  unfolding has delete
  size-delete-has k [] h = ground arith
  size-delete-has k ((j, u) ∷ m) h = ground (arith, size-delete-has k m, size-delete-le k m)

  pub size-set-has : (k : K) (v : V) (m : Dict K V) → has k m ≡ true → size (set k v m) ≡ size m
  unfolding has set
  size-set-has k v [] h = ground arith
  size-set-has k v ((j, u) ∷ m) h = ground (arith, size-set-has k v m)

  pub get-set_self : (k j : K) (v : V) (m : Dict K V) → k ≡ j → get j (set k v m) ≡ some v
  get-set_self k j v m p = ground (arith, get-set k j v m)

  pub get-set_ne : (k j : K) (v : V) (m : Dict K V) → ¬ (k ≡ j) → get j (set k v m) ≡ get j m
  get-set_ne k j v m p = ground (arith, get-set k j v m)

  pub In-of_get : (k : K) (v : V) (m : Dict K V) → get k m ≡ some v → In (k, v) m
  unfolding get
  In-of_get k v [] h = ground arith
  In-of_get k v ((j, w) ∷ m) h = elim (key.dec j k) [
    | yes p ↦ inl (ground arith)
    | no p ↦ inr (In-of_get k v m (ground arith))
  ]

  pub get-delete_self : (k j : K) (m : Dict K V) → k ≡ j → get j (delete k m) ≡ none
  get-delete_self k j m p = ground (arith, get-delete k j m)

  pub get-delete_ne : (k j : K) (m : Dict K V) → ¬ (k ≡ j) → get j (delete k m) ≡ get j m
  get-delete_ne k j m p = ground (arith, get-delete k j m)
