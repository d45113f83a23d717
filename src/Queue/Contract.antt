-- ===== src/Queue/Contract.antt =====
-- What the methods of packages/queue/src/in-memory-queue.js promise to their callers.
use valax_wearedevs_deobfusc.Prelude.{
  ℕ, ◌≡◌, refl, ap, ◌∙◌, String, Bool, true, false, Option, none, some, ◌∷◌, arith, ltb, inl, inr,
  Option-cases, Bool-cases, if◌then◌else◌,
}
use valax_wearedevs_deobfusc.Prelude.Dict
use valax_wearedevs_deobfusc.Prelude.Dict.{Dict, text_key, get-set, get-delete, get-set_self}
use valax_wearedevs_deobfusc.Jobs.Legal.{
  JobState, queued, running, completed, failed, same_state, is_valid_transition,
}
use valax_wearedevs_deobfusc.Queue.Defs.{same_text, Job, Lease, Queue, reported}
use valax_wearedevs_deobfusc.Queue.Methods.{held_lease}
use valax_wearedevs_deobfusc.Queue.Settle.{
  settle, with_held, complete_held, complete_job, fail_held, retry_or_fail, fail_job, heartbeat,
}
use valax_wearedevs_deobfusc.Queue.Invariant.{runs, Inv}
use valax_wearedevs_deobfusc.Queue.Keeps.{held-running, held_lease-has}

running-completes :
    (s : JobState) → same_state s running ≡ true → is_valid_transition s completed ≡ true
unfolding is_valid_transition
running-completes s h = ground arith

module _ {J : Type 0} where
  -- The caller holds the lease of the job: it is there under the caller's token.
  abbrev pub Holds : Queue J → String → String → Type 0
  Holds q id token = (lease : Lease) × (Dict.get id q.leases ≡ some lease) × (lease.token ≡ token)

  Holds-of_held :
      (q : Queue J) (id token : String) (lease : Lease)
      → held_lease q id token ≡ some lease
      → Holds q id token
  unfolding held_lease same_text
  Holds-of_held q id token lease h = (lease, ground arith, ground arith)

  pub held_of_Holds :
      (q : Queue J) (id token : String)
      → (h : Holds q id token) → held_lease q id token ≡ some (h.0)
  unfolding held_lease same_text
  held_of_Holds q id token (lease, e, t) = ground arith

  not_held : (q : Queue J) (id token : String) → ¬ Holds q id token → held_lease q id token ≡ none
  not_held q id token h = elim (Option-cases (held_lease q id token)) [
    | inl e ↦ e
    | inr (lease, e) ↦ absurd (h (Holds-of_held q id token lease e))
  ]

  pub with_held-held :
      (q : Queue J) (id token : String) (act : Lease → Job J → Queue J × Bool) (lease : Lease)
      (job : Job J)
      → held_lease q id token ≡ some lease
      → Dict.get id q.jobs ≡ some job
      → with_held q id token act ≡ act lease job
  unfolding with_held
  with_held-held q id token act lease job e j = rw (e, j, with_held)

  complete_held-running :
      (q : Queue J) (id : String) (value : J) (now : ℕ) (lease : Lease) (job : Job J)
      → same_state job.state running ≡ true
      → complete_held q id value now lease job ≡ (
        settle q id (record job { state = completed; result = some value; updated_at = now }),
        true,
      )
  unfolding complete_held
  complete_held-running q id value now lease job r =
      rw (running-completes job.state r, complete_held)

  -- The job under a lease, with the facts that the invariant gives.
  leased_job :
      (q : Queue J) (id token : String)
      → Inv q
      → (h : Holds q id token)
      → (job : Job J) × (Dict.get id q.jobs ≡ some job) × (same_state job.state running ≡ true)
  leased_job q id token v h =
      let l = held_lease-has q id token h.0 (held_of_Holds q id token h) in
      elim (Option-cases (Dict.get id q.jobs)) [
        | inl n ↦ absurd (cc (ap runs n, v.leased id, l))
        | inr (job, j) ↦ (job, j, (held-running q id job v l j).0)
      ]

  -- In a queue that meets the invariant, the holder of a job's lease completes the job: it then has
  -- the state `COMPLETED` and the result, its time of update is now, its other fields are as before, and it has no lease.
  pub complete_job-of_held :
      (q : Queue J) (id token : String) (value : J) (now : ℕ)
      → Inv q
      → Holds q id token
      → (job : Job J) × (Dict.get id q.jobs ≡ some job)
        × ((complete_job q id token value now).1 ≡ true)
        × (Dict.get id (complete_job q id token value now).0.jobs
            ≡ some (record job { state = completed; result = some value; updated_at = now }))
        × (Dict.get id (complete_job q id token value now).0.leases ≡ none)
  unfolding complete_job settle
  complete_job-of_held q id token value now v h =
      let (job, j, r) = leased_job q id token v h in
      let e =
        with_held-held q id token (complete_held q id value now) h.0 job
          (held_of_Holds q id token h) j
        ∙ complete_held-running q id value now h.0 job r in
      (
        job,
        j,
        ap (λ x. x.1) e,
        ap (λ x. Dict.get id x.0.jobs) e ∙ get-set_self id id _ q.jobs refl,
        ap (λ x. Dict.get id x.0.leases) e ∙ ground (arith, get-delete id id q.leases),
      )

  refused_without_lease :
      (q : Queue J) (id token : String) (value : J) (given : Option ℕ) (now : ℕ)
      → ¬ Holds q id token
      → (complete_job q id token value now ≡ (q, false))
        × (fail_job q id token value now ≡ (q, false))
        × (heartbeat q id token given now ≡ (q, false))
  unfolding complete_job fail_job heartbeat with_held
  refused_without_lease q id token value given now h =
      let e = not_held q id token h in (rw (e, with_held), rw (e, with_held), rw (e, heartbeat))

  fail_held-running :
      (q : Queue J) (id token : String) (value : J) (now : ℕ) (lease : Lease) (job : Job J)
      → held_lease q id token ≡ some lease
      → Dict.get id q.jobs ≡ some job
      → fail_job q id token value now ≡ (retry_or_fail q id job value now, true)
  unfolding fail_job fail_held
  fail_held-running q id token value now lease job e j =
      with_held-held q id token (fail_held q id value now) lease job e j

  -- A failure that the holder of the lease reports sends the job back to the head of the waiting
  -- queue while tries are left, and fails it with the error after that; the lease is gone either way.
  pub fail_job-of_held :
      (q : Queue J) (id token : String) (value : J) (now : ℕ)
      → Inv q
      → Holds q id token
      → (job : Job J) × (Dict.get id q.jobs ≡ some job)
        × ((fail_job q id token value now).1 ≡ true)
        × (Dict.get id (fail_job q id token value now).0.leases ≡ none)
        × (Dict.get id (fail_job q id token value now).0.jobs
            ≡ some (
                if ltb job.attempts job.max_retries
                then record job { state = queued; updated_at = now }
                else record job {
                  state = failed;
                  error = some (reported value);
                  updated_at = now;
                }))
        × ((fail_job q id token value now).0.waiting_queue
            ≡ (if ltb job.attempts job.max_retries then id ∷ q.waiting_queue else q.waiting_queue))
  unfolding retry_or_fail settle
  fail_job-of_held q id token value now v h =
      let (job, j, r) = leased_job q id token v h in
      let e = fail_held-running q id token value now h.0 job (held_of_Holds q id token h) j in
      elim (Bool-cases (ltb job.attempts job.max_retries)) [
        | inl b ↦
            rw (e, b, retry_or_fail)
              (
                job,
                j,
                refl,
                ground (arith, get-delete id id q.leases),
                rw b (get-set_self id id _ q.jobs refl),
                rw b refl,
              )
        | inr b ↦
            rw (e, b, retry_or_fail)
              (
                job,
                j,
                refl,
                ground (arith, get-delete id id q.leases),
                rw b (get-set_self id id _ q.jobs refl),
                rw b refl,
              )
      ]

  -- The three methods of a worker, with any token, refuse the job and leave the queue alone.
  abbrev pub Refuses : Queue J → String → Type 0
  Refuses q id =
      (token : String) (value : J) (given : Option ℕ) (now : ℕ)
      → (complete_job q id token value now ≡ (q, false))
        × (fail_job q id token value now ≡ (q, false))
        × (heartbeat q id token given now ≡ (q, false))

  Refuses-of_none : (q : Queue J) (id : String) → Dict.get id q.leases ≡ none → Refuses q id
  Refuses-of_none q id n token value given now =
      refused_without_lease q id token value given now (λ h. cc (n, h.1))

  -- In a queue that meets the invariant, a job is reported on once: behind the completion and behind
  -- the failure that the holder of its lease reports, `completeJob`, `failJob` and `heartbeat` return
  -- false for the job under every token and leave the queue alone, also where the job waits again.
  pub reported_once :
      (q : Queue J) (id token : String) (value : J) (now : ℕ)
      → Inv q
      → Holds q id token
      → Refuses (complete_job q id token value now).0 id
        × Refuses (fail_job q id token value now).0 id
  reported_once q id token value now v h = (
    Refuses-of_none _ id (complete_job-of_held q id token value now v h).4,
    Refuses-of_none _ id (fail_job-of_held q id token value now v h).3,
  )
