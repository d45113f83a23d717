-- ===== src/Gateway/Window.antt =====
-- packages/gateway/src/rate-limiter.js: the filter of a key's timestamps, as time goes on.
use valax_wearedevs_deobfusc.Prelude.{
  ℕ, suc, ◌≤◌, ◌≡◌, refl, String, Bool, true, ◌&&◌, List, [], ◌∷◌, ◌++◌, arith, ltb, length,
  keep_if, if◌then◌else◌,
}
use valax_wearedevs_deobfusc.Prelude.Dict
use valax_wearedevs_deobfusc.Prelude.Dict.{Dict, text_key, Key}
use valax_wearedevs_deobfusc.Gateway.Limiter.{within, stamps, Limits, decide}

module _ {A : Type 0} where
  pub keep_if-append :
      (p : A → Bool) (xs ys : List A) → keep_if p (xs ++ ys) ≡ keep_if p xs ++ keep_if p ys
  unfolding keep_if
  keep_if-append p [] ys = refl
  keep_if-append p (x ∷ xs) ys = ground (arith, keep_if-append p xs ys)

  -- What one filter drops, a narrower filter does not miss.
  pub keep_if-keep_if :
      (q p : A → Bool) (xs : List A)
      → ((x : A) → q x ≡ true → p x ≡ true)
      → keep_if q (keep_if p xs) ≡ keep_if q xs
  unfolding keep_if
  keep_if-keep_if q p [] h = refl
  keep_if-keep_if q p (x ∷ xs) h = ground (arith, h x, keep_if-keep_if q p xs h)

  pub length-keep_if_mono :
      (q p : A → Bool) (xs : List A)
      → ((x : A) → q x ≡ true → p x ≡ true)
      → length (keep_if q xs) ≤ length (keep_if p xs)
  unfolding keep_if
  length-keep_if_mono q p [] h = omega arith
  length-keep_if_mono q p (x ∷ xs) h = ground (arith, h x, length-keep_if_mono q p xs h)

  pub length-keep_if-push :
      (p : A → Bool) (xs : List A) (x : A)
      → length (keep_if p (xs ++ (x ∷ []))) ≤ suc (length (keep_if p xs))
  unfolding keep_if
  length-keep_if-push p [] x = ground arith
  length-keep_if-push p (y ∷ ys) x = ground (arith, length-keep_if-push p ys x)

pub within_earlier :
    (span now later ts : ℕ) → now ≤ later → within span later ts ≡ true → within span now ts ≡ true
unfolding within
within_earlier span now later ts l h = ground arith

pub within_wider : (a b now ts : ℕ) → a ≤ b → within a now ts ≡ true → within b now ts ≡ true
unfolding within
within_wider a b now ts l h = ground arith

pub stamps-set_self :
    (k : String) (ts : List ℕ) (m : Dict String (List ℕ)) → stamps k (Dict.set k ts m) ≡ ts
unfolding stamps
stamps-set_self k ts m = rw (Dict.get-set_self k k ts m refl, stamps) refl

pub stamps-set_ne :
    (k j : String) (ts : List ℕ) (m : Dict String (List ℕ))
    → ¬ (k ≡ j)
    → stamps j (Dict.set k ts m) ≡ stamps j m
unfolding stamps
stamps-set_ne k j ts m n = rw (Dict.get-set_ne k j ts m n, stamps) refl

-- The decision in terms of the two counts.
pub decide-allowed :
    (c : Limits) (now : ℕ) (ts : List ℕ)
    → (decide c now ts).1.allowed ≡ (
        ltb (length (keep_if (within 1000 now) ts)) c.burst_limit && ltb (length ts) c.max_requests)
unfolding decide
decide-allowed c now ts = ground arith

pub decide-stamps :
    (c : Limits) (now : ℕ) (ts : List ℕ)
    → (decide c now ts).0 ≡ (if (decide c now ts).1.allowed then ts ++ (now ∷ []) else ts)
unfolding decide
decide-stamps c now ts = ground arith
