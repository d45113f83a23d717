-- ===== src/Queue/Invariant.antt =====
-- The invariant of packages/queue/src/in-memory-queue.js: a job's state says where the job stands.
use Prim.Native.Nat.{max}
use valax_wearedevs_deobfusc.Prelude.{
  ℕ, suc, ◌+◌, ◌≤◌, ◌≡◌, String, Bool, false, not, ite, Option, none, some, List, [], ◌∷◌, ◌++◌,
  arith, length, keep_if, text_discrete, if◌then◌else◌,
}
use valax_wearedevs_deobfusc.Prelude.Dict
use valax_wearedevs_deobfusc.Prelude.Dict.{Dict, text_key, get-set, get-delete, has-set, has-delete}
use valax_wearedevs_deobfusc.Jobs.Legal.{queued, running, same_state}
use valax_wearedevs_deobfusc.Queue.Defs.{same_text, Job, Queue}

-- How often an id stands in the waiting queue.
unfoldable pub times : String → List String → ℕ
times id [] = 0
times id (x ∷ xs) = ite (text_discrete x id) (suc (times id xs)) (times id xs)

pub times-append :
    (id : String) (xs ys : List String) → times id (xs ++ ys) ≡ times id xs + times id ys
unfolding times
times-append id [] ys = omega arith
times-append id (x ∷ xs) ys = ground (arith, times-append id xs ys)

pub times-drop :
    (id k : String) (xs : List String)
    → times id (keep_if (λ i. not (same_text i k)) xs) ≡ ite (text_discrete k id) 0 (times id xs)
unfolding times keep_if same_text
times-drop id k [] = ground arith
times-drop id k (x ∷ xs) = ground (arith, times-drop id k xs)

module _ {J : Type 0} where
  -- A queued job waits once; a running one is leased.
  abbrev pub waits : Option (Job J) → ℕ
  waits none = 0
  waits (some job) = if same_state job.state queued then 1 else 0

  abbrev pub runs : Option (Job J) → Bool
  runs none = false
  runs (some job) = same_state job.state running

  -- A job is leased once, or as often as it may be tried; one that waits has a try left.
  abbrev pub Tried : Option (Job J) → Type 0
  Tried none = Unit {0}
  Tried (some job) = job.attempts + waits (some job) ≤ max 1 job.max_retries

  pub record Inv (q : Queue J) : Type 0 where
    pub placed : (id : String) → times id q.waiting_queue ≡ waits (Dict.get id q.jobs)
    pub leased : (id : String) → Dict.has id q.leases ≡ runs (Dict.get id q.jobs)
    pub tried : (id : String) → Tried (Dict.get id q.jobs)
    pub running_bound : Dict.size q.leases ≤ q.config.max_running_jobs
    pub depth_bound :
        length q.waiting_queue + Dict.size q.leases
        ≤ q.config.max_queue_depth + q.config.max_running_jobs
