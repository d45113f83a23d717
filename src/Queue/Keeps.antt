-- ===== src/Queue/Keeps.antt =====
-- Each method of packages/queue/src/in-memory-queue.js keeps the invariant.
use Prim.Native.Nat.{max}
use valax_wearedevs_deobfusc.Prelude.{
  ℕ, ◌≤◌, ◌≡◌, refl, ap, String, Bool, true, false, not, Option, some, ◌∷◌, arith,
  length-keep_if-le, ltb, inl, inr, Option-cases, Bool-cases,
}
use valax_wearedevs_deobfusc.Prelude.Dict
use valax_wearedevs_deobfusc.Prelude.Dict.{
  Dict, text_key, get-set, get-delete, has-set, has-delete, size-delete-has, size-delete-le,
  size-set-le, size-set-has,
}
use valax_wearedevs_deobfusc.Jobs.Legal.{
  JobState, queued, running, completed, same_state, is_terminal, is_valid_transition,
}
use valax_wearedevs_deobfusc.Queue.Defs.{same_text, coded, Job, Lease, Queue}
use valax_wearedevs_deobfusc.Queue.Methods.{held_lease}
use valax_wearedevs_deobfusc.Queue.Settle.{
  settle, with_held, complete_held, complete_job, fail_held, retry_or_fail, fail_job, cancel_job,
  touch_job, heartbeat,
}
use valax_wearedevs_deobfusc.Queue.Invariant.{times, times-drop, runs, Tried, Inv}

pub running-not-queued : (s : JobState) → same_state s running ≡ true → same_state s queued ≡ false
unfolding same_state
running-not-queued s h = ground arith

module _ {J : Type 0} where
  -- A running job ends in a state in which it neither waits nor runs.
  pub settle-Inv :
      (q : Queue J) (id : String) (old job : Job J)
      → Inv q
      → Dict.get id q.jobs ≡ some old
      → same_state old.state queued ≡ false
      → same_state job.state queued ≡ false
      → same_state job.state running ≡ false
      → Tried (some job)
      → Inv (settle q id job)
  unfolding settle
  settle-Inv q id old job v e oq nq nr t = record {
    placed = λ k. ground (arith, v.placed k, get-set id k job q.jobs);
    leased = λ k. ground (arith, v.leased k, get-set id k job q.jobs, has-delete id k q.leases);
    tried = λ k. ground (arith, v.tried k, get-set id k job q.jobs);
    running_bound = omega (arith, v.running_bound, size-delete-le id q.leases);
    depth_bound = omega (arith, v.depth_bound, size-delete-le id q.leases);
  }

  pub held_lease-has :
      (q : Queue J) (id token : String) (lease : Lease)
      → held_lease q id token ≡ some lease
      → Dict.has id q.leases ≡ true
  unfolding held_lease
  held_lease-has q id token lease h =
      ground (arith, Dict.none_of_get id q.leases, Dict.has_of_get id lease q.leases)

  -- A job under a lease is running.
  pub held-running :
      (q : Queue J) (id : String) (job : Job J)
      → Inv q
      → Dict.has id q.leases ≡ true
      → Dict.get id q.jobs ≡ some job
      → (same_state job.state running ≡ true) × (same_state job.state queued ≡ false)
  held-running q id job v h e =
      let r : same_state job.state running ≡ true = ground (arith, v.leased id) in
      (r, running-not-queued job.state r)

  -- A leased job goes back to the front of the queue.
  pub requeue-Inv :
      (q : Queue J) (id : String) (old job : Job J)
      → Inv q
      → Dict.get id q.jobs ≡ some old
      → Dict.has id q.leases ≡ true
      → same_state old.state queued ≡ false
      → same_state job.state queued ≡ true
      → same_state job.state running ≡ false
      → Tried (some job)
      → Inv (record (settle q id job) { waiting_queue = id ∷ q.waiting_queue })
  unfolding settle times
  requeue-Inv q id old job v e l oq jq jr t = record {
    placed = λ k. ground (arith, v.placed k, get-set id k job q.jobs);
    leased = λ k. ground (arith, v.leased k, get-set id k job q.jobs, has-delete id k q.leases);
    tried = λ k. ground (arith, v.tried k, get-set id k job q.jobs);
    running_bound = omega (arith, v.running_bound, size-delete-le id q.leases);
    depth_bound = omega (arith, v.depth_bound, size-delete-has id q.leases l);
  }

  pub attempts-le :
      (q : Queue J) (id : String) (job : Job J)
      → Inv q
      → Dict.get id q.jobs ≡ some job
      → job.attempts ≤ max 1 job.max_retries
  attempts-le q id job v e = ground (arith, v.tried id)

  -- To check a method that works on a leased job, check what it does to such a job.
  pub held_cases :
      (P : Queue J → Type 0) (q : Queue J) (id token : String)
      (act : Lease → Job J → Queue J × Bool)
      → P q
      → Inv q
      → ((lease : Lease) (job : Job J)
          → Dict.has id q.leases ≡ true
          → Dict.get id q.jobs ≡ some job
          → same_state job.state queued ≡ false
          → same_state job.state running ≡ true
          → P (act lease job).0)
      → P (with_held q id token act).0
  unfolding with_held
  held_cases P q id token act base v step = elim (Option-cases (held_lease q id token)) [
    | inl e ↦ rw (e, with_held) base
    | inr (lease, e) ↦ elim (Option-cases (Dict.get id q.jobs)) [
      | inl n ↦ rw (e, n, with_held) base
      | inr (job, j) ↦
          let l = held_lease-has q id token lease e in
          let (r, nq) = held-running q id job v l j in
          rw (e, j, with_held) (step lease job l j nq r)
    ]
  ]

  pub complete_job-Inv :
      (q : Queue J) (id token : String) (value : J) (now : ℕ)
      → Inv q
      → Inv (complete_job q id token value now).0
  unfolding complete_job complete_held same_state
  complete_job-Inv q id token value now v =
      held_cases Inv q id token (complete_held q id value now) v v λ lease job l j nq r.
        elim (Bool-cases (is_valid_transition job.state completed)) [
          | inl b ↦
              rw b
                (settle-Inv q id job _ v j nq refl refl (omega (arith, attempts-le q id job v j)))
          | inr b ↦ rw b v
        ]

  pub fail_job-Inv :
      (q : Queue J) (id token : String) (value : J) (now : ℕ)
      → Inv q
      → Inv (fail_job q id token value now).0
  unfolding fail_job fail_held retry_or_fail same_state
  fail_job-Inv q id token value now v =
      held_cases Inv q id token (fail_held q id value now) v v λ lease job l j nq r.
        elim (Bool-cases (ltb job.attempts job.max_retries)) [
          | inl b ↦
              rw b (
                requeue-Inv q id job _ v j l nq refl refl
                  (ground (arith, attempts-le q id job v j)))
          | inr b ↦
              rw b
                (settle-Inv q id job _ v j nq refl refl (omega (arith, attempts-le q id job v j)))
        ]

  -- A job may be touched as long as its state and its tries stay.
  pub touch-Inv :
      (q : Queue J) (id : String) (now : ℕ) (lease : Lease)
      → Inv q
      → Dict.has id q.leases ≡ true
      → Inv (record q { jobs = touch_job id now q.jobs; leases = Dict.set id lease q.leases })
  unfolding touch_job
  touch-Inv q id now lease v l = elim (Option-cases (Dict.get id q.jobs)) [
    | inl e ↦ absurd (cc (ap runs e, v.leased id, l))
    | inr (job, e) ↦
        let job' = record job { updated_at = now } in
        rw (e, touch_job)
          (record {
            placed = λ k. ground (arith, v.placed k, get-set id k job' q.jobs);
            leased = λ k.
                ground (arith, v.leased k, get-set id k job' q.jobs, has-set id k lease q.leases);
            tried = λ k. ground (arith, v.tried k, get-set id k job' q.jobs);
            running_bound = omega (arith, v.running_bound, size-set-has id lease q.leases l);
            depth_bound = omega (arith, v.depth_bound, size-set-has id lease q.leases l);
          })
  ]

  pub heartbeat-Inv :
      (q : Queue J) (id token : String) (given : Option ℕ) (now : ℕ)
      → Inv q
      → Inv (heartbeat q id token given now).0
  unfolding heartbeat
  heartbeat-Inv q id token given now v = elim (Option-cases (held_lease q id token)) [
    | inl e ↦ rw (e, heartbeat) v
    | inr (lease, e) ↦ elim (Bool-cases (ltb lease.expires_at now)) [
      | inl b ↦ rw (e, b, heartbeat) v
      | inr b ↦ rw (e, b, heartbeat) (touch-Inv q id now _ v (held_lease-has q id token lease e))
    ]
  ]

  pub cancel_job-Inv :
      (q : Queue J) (id reason : String) (now : ℕ) → Inv q → Inv (cancel_job q id reason now).0
  unfolding cancel_job settle same_state
  cancel_job-Inv q id reason now v = elim (Option-cases (Dict.get id q.jobs)) [
    | inl e ↦ rw (e, cancel_job) v
    | inr (job, e) ↦ elim (Bool-cases (is_terminal job.state)) [
      | inl b ↦ rw (e, b, cancel_job) v
      | inr b ↦
          let job' = record job {
            state = JobState.cancelled;
            error = some (coded "CANCELLED" reason);
            updated_at = now;
          } in
          rw (e, b, cancel_job)
            (record {
              placed = λ k.
                  ground
                    (arith, v.placed k, get-set id k job' q.jobs, times-drop k id q.waiting_queue);
              leased = λ k.
                  ground (arith, v.leased k, get-set id k job' q.jobs, has-delete id k q.leases);
              tried = λ k.
                  ground (arith, v.tried k, attempts-le q id job v e, get-set id k job' q.jobs);
              running_bound = omega (arith, v.running_bound, size-delete-le id q.leases);
              depth_bound = omega (
                arith,
                v.depth_bound,
                size-delete-le id q.leases,
                length-keep_if-le (λ i. not (same_text i id)) q.waiting_queue,
              );
            })
    ]
  ]
