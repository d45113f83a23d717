-- ===== src/Gateway/Slots.antt =====
-- packages/gateway/src/rate-limiter.js: the slots of running jobs.
use valax_wearedevs_deobfusc.Prelude.{
  ℕ, suc, ◌-◌, ◌≤◌, ◌<◌, ◌≡◌, ◌↔◌, refl, ap, ◌∙◌, String, true, false, arith, if◌then◌else◌,
}
use valax_wearedevs_deobfusc.Prelude.Dict
use valax_wearedevs_deobfusc.Prelude.Dict.{Dict, text_key}
use valax_wearedevs_deobfusc.Gateway.Limiter.{
  Limits, Limiter, fresh, active, check_limit, acquire_concurrency, release_concurrency,
}

-- The running jobs of one principal, counted from outside: a slot that was acquired is one more, a
-- slot that is given back one less.
pub data Running (p : String) : Limiter → ℕ → Type 0 where
  started : (c : Limits) → Running p (fresh c) 0
  checked :
      {lim : Limiter} {n : ℕ} (q action : String) (now : ℕ)
      → Running p lim n
      → Running p (check_limit lim q action now).0 n
  acquired :
      {lim : Limiter} {n : ℕ}
      → Running p lim n
      → (acquire_concurrency lim p).1.acquired ≡ true
      → Running p (acquire_concurrency lim p).0 (suc n)
  turned_away :
      {lim : Limiter} {n : ℕ}
      → Running p lim n
      → (acquire_concurrency lim p).1.acquired ≡ false
      → Running p (acquire_concurrency lim p).0 n
  released :
      {lim : Limiter} {n : ℕ} → Running p lim n → Running p (release_concurrency lim p) (n - 1)
  other_acquired :
      {lim : Limiter} {n : ℕ} (q : String)
      → ¬ (q ≡ p)
      → Running p lim n
      → Running p (acquire_concurrency lim q).0 n
  other_released :
      {lim : Limiter} {n : ℕ} (q : String)
      → ¬ (q ≡ p)
      → Running p lim n
      → Running p (release_concurrency lim q) n

-- Slots of one principal before and after each operation.
active-acquire :
    (lim : Limiter) (p : String)
    → active (acquire_concurrency lim p).0 p
      ≡ (if (acquire_concurrency lim p).1.acquired then suc (active lim p) else active lim p)
unfolding acquire_concurrency active
active-acquire lim p =
    ground (arith, Dict.get-set_self p p (suc (active lim p)) lim.active_jobs refl)

active-release :
    (lim : Limiter) (p : String) → active (release_concurrency lim p) p ≡ active lim p - 1
unfolding release_concurrency active
active-release lim p = ground (
  arith,
  Dict.get-set_self p p (active lim p - 1) lim.active_jobs refl,
  Dict.get-delete_self p p lim.active_jobs refl,
)

active-acquire_other :
    (lim : Limiter) (q p : String)
    → ¬ (q ≡ p)
    → active (acquire_concurrency lim q).0 p ≡ active lim p
unfolding acquire_concurrency active
active-acquire_other lim q p n =
    ground (arith, Dict.get-set_ne q p (suc (active lim q)) lim.active_jobs n)

active-release_other :
    (lim : Limiter) (q p : String) → ¬ (q ≡ p) → active (release_concurrency lim q) p ≡ active lim p
unfolding release_concurrency active
active-release_other lim q p n = ground (
  arith,
  Dict.get-set_ne q p (active lim q - 1) lim.active_jobs n,
  Dict.get-delete_ne q p lim.active_jobs n,
)

active-check :
    (lim : Limiter) (q action : String) (now : ℕ) (p : String)
    → active (check_limit lim q action now).0 p ≡ active lim p
unfolding check_limit active
active-check lim q action now p = refl

check-max :
    (lim : Limiter) (q action : String) (now : ℕ)
    → (check_limit lim q action now).0.limits ≡ lim.limits
unfolding check_limit
check-max lim q action now = refl

acquire-max : (lim : Limiter) (p : String) → (acquire_concurrency lim p).0.limits ≡ lim.limits
unfolding acquire_concurrency
acquire-max lim p = ground arith

release-max : (lim : Limiter) (p : String) → (release_concurrency lim p).limits ≡ lim.limits
unfolding release_concurrency
release-max lim p = ground arith

acquired_room :
    (lim : Limiter) (p : String)
    → (acquire_concurrency lim p).1.acquired ≡ true
    → active lim p < lim.limits.max_concurrent
unfolding acquire_concurrency
acquired_room lim p h = ground (arith, h)

record Counted (p : String) (lim : Limiter) (n : ℕ) : Type 0 where
  count : active lim p ≡ n
  bound : n ≤ lim.limits.max_concurrent

move :
    (p : String) (lim new : Limiter) (n m : ℕ)
    → new.limits ≡ lim.limits
    → active new p ≡ m
    → m ≤ lim.limits.max_concurrent
    → Counted p new m
move p lim new n m e a b = record { count = a; bound = rw (e) b }

fresh-Counted : (p : String) (c : Limits) → Counted p (fresh c) 0
unfolding active Dict.get
fresh-Counted p c = record { count = refl; bound = omega arith }

Running-Counted : (p : String) (lim : Limiter) (n : ℕ) → Running p lim n → Counted p lim n
Running-Counted p _ _ (started c) = fresh-Counted p c
Running-Counted p _ _ (checked {lim} {n} q action now r) =
    let i = Running-Counted p lim n r in
    move p lim _ n n (check-max lim q action now) (active-check lim q action now p ∙ i.count)
      i.bound
Running-Counted p _ _ (acquired {lim} {n} r a) =
    let i = Running-Counted p lim n r in
    move p lim _ n (suc n) (acquire-max lim p) (active-acquire lim p ∙ ground (arith, a, i.count))
      (ground (arith, acquired_room lim p a, i.count))
Running-Counted p _ _ (turned_away {lim} {n} r a) =
    let i = Running-Counted p lim n r in
    move p lim _ n n (acquire-max lim p) (active-acquire lim p ∙ ground (arith, a, i.count)) i.bound
Running-Counted p _ _ (released {lim} {n} r) =
    let i = Running-Counted p lim n r in
    move p lim _ n (n - 1) (release-max lim p) (active-release lim p ∙ ap (λ k. k - 1) i.count)
      (omega (arith, i.bound))
Running-Counted p _ _ (other_acquired {lim} {n} q d r) =
    let i = Running-Counted p lim n r in
    move p lim _ n n (acquire-max lim q) (active-acquire_other lim q p d ∙ i.count) i.bound
Running-Counted p _ _ (other_released {lim} {n} q d r) =
    let i = Running-Counted p lim n r in
    move p lim _ n n (release-max lim q) (active-release_other lim q p d ∙ i.count) i.bound

-- However requests, starts and ends of jobs of all principals come one after the other, the limiter's
-- count for a principal is the number of its slots that were acquired and not given back (giving back
-- none too many), and never more than the limit.
pub Running-bounded :
    (p : String) (lim : Limiter) (n : ℕ)
    → Running p lim n
    → (active lim p ≡ n) × (n ≤ lim.limits.max_concurrent)
Running-bounded p lim n r = let i = Running-Counted p lim n r in (i.count, i.bound)

refused_full :
    (lim : Limiter) (p : String)
    → ((acquire_concurrency lim p).1.acquired ≡ false) ↔ (lim.limits.max_concurrent ≤ active lim p)
unfolding acquire_concurrency
refused_full lim p = ground arith

-- A principal is refused a slot exactly when it holds as many as the limit.
pub acquire_concurrency-full :
    (p : String) (lim : Limiter) (n : ℕ)
    → Running p lim n
    → ((acquire_concurrency lim p).1.acquired ≡ false) ↔ (n ≡ lim.limits.max_concurrent)
acquire_concurrency-full p lim n r =
    let i = Running-Counted p lim n r in
    let f = refused_full lim p in
    (λ a. ground (arith, f.0 a, i.count, i.bound), λ e. f.1 (ground (arith, e, i.count)))
