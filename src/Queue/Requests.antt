-- ===== src/Queue/Requests.antt =====
-- Requests that packages/queue/src/in-memory-queue.js gets twice, and its statistics.
use valax_wearedevs_deobfusc.Prelude.{
  ℕ, ◌+◌, ◌≤◌, ◌<◌, ◌≡◌, refl, sym, ap, ◌∙◌, String, Bool, true, false, Option, none, some, [], ◌∷◌,
  arith, length, keep_if, ltb, ltb→lt, ltb→le, inl, inr, Option-cases, Bool-cases,
}
use valax_wearedevs_deobfusc.Prelude.Dict.{Dict, text_key, get-set_self}
use valax_wearedevs_deobfusc.Jobs.Legal.{
  JobState, queued, running, completed, failed, cancelled, timed_out, same_state,
  is_valid_transition,
}
use valax_wearedevs_deobfusc.Queue.Defs.{same_text, js_or, Job, Lease, Queue, JobData}
use valax_wearedevs_deobfusc.Queue.Methods.{
  Enqueued, accepted, backpressure_exceeded, existing_job, remember, new_job, insert_job,
  request_id, enqueue, reclaim_stale_leases,
}
use valax_wearedevs_deobfusc.Queue.Settle.{
  complete_held, complete_job, Stats, tally, tally_all, stats_of, get_stats,
}
use valax_wearedevs_deobfusc.Queue.Invariant.{runs, Inv}
use valax_wearedevs_deobfusc.Queue.Keeps.{held_lease-has}
use valax_wearedevs_deobfusc.Queue.Contract.{Holds, held_of_Holds, with_held-held}

module _ {J : Type 0} where
  existing_job-insert :
      (q : Queue J) (d : JobData J) (id k : String) (now : ℕ)
      → js_or d.idempotency_key d.job_id ≡ some k
      → same_text k "" ≡ false
      → existing_job (insert_job q d id now).0 (some k) ≡ some (new_job q d id now)
  unfolding existing_job insert_job remember
  existing_job-insert q d id k now e t = ground (
    arith,
    get-set_self k k id q.idempotency_map refl,
    get-set_self id id (new_job q d id now) q.jobs refl,
  )

  enqueue-duplicate :
      (q : Queue J) (d : JobData J) (uuid : String) (now : ℕ) (job : Job J)
      → existing_job q (js_or d.idempotency_key d.job_id) ≡ some job
      → enqueue q d uuid now ≡ (q, accepted job true)
  unfolding enqueue
  enqueue-duplicate q d uuid now job e = rw (e, enqueue)

  enqueue-full :
      (q : Queue J) (d : JobData J) (uuid : String) (now : ℕ)
      → existing_job q (js_or d.idempotency_key d.job_id) ≡ none
      → q.config.max_queue_depth ≤ length q.waiting_queue
      → enqueue q d uuid now ≡ (q, backpressure_exceeded q.config.max_queue_depth)
  unfolding enqueue
  enqueue-full q d uuid now e full = rw (e, enqueue) (ground arith)

  enqueue-room :
      (q : Queue J) (d : JobData J) (uuid : String) (now : ℕ)
      → existing_job q (js_or d.idempotency_key d.job_id) ≡ none
      → length q.waiting_queue < q.config.max_queue_depth
      → enqueue q d uuid now ≡ insert_job q d (request_id d uuid) now
  unfolding enqueue
  enqueue-room q d uuid now e room = rw (e, enqueue) (ground arith)

  abbrev job_of : Enqueued J → Option (Job J)
  job_of (backpressure_exceeded n) = none
  job_of (accepted job b) = some job

  enqueue-found :
      (q : Queue J) (d : JobData J) (uuid : String) (now : ℕ) (k : String) (job : Job J)
      (duplicate : Bool)
      → js_or d.idempotency_key d.job_id ≡ some k
      → same_text k "" ≡ false
      → (enqueue q d uuid now).1 ≡ accepted job duplicate
      → existing_job (enqueue q d uuid now).0 (some k) ≡ some job
  unfolding insert_job
  enqueue-found q d uuid now k job duplicate e t h =
      elim (Option-cases (existing_job q (js_or d.idempotency_key d.job_id))) [
        | inr (old, x) ↦
            let s = enqueue-duplicate q d uuid now old x in
            ap (λ r. existing_job r.0 (some k)) s
            ∙ (ap (existing_job q) (sym e) ∙ (x ∙ (sym (ap (λ r. job_of r.1) s) ∙ ap job_of h)))
        | inl n ↦ elim (Bool-cases (ltb (length q.waiting_queue) q.config.max_queue_depth)) [
          | inl b ↦
              let s = enqueue-room q d uuid now n (ltb→lt _ _ b) in
              ap (λ r. existing_job r.0 (some k)) s
              ∙ (existing_job-insert q d (request_id d uuid) k now e t
                  ∙ (sym (ap (λ r. job_of r.1) s) ∙ ap job_of h))
          | inr b ↦
              let s = enqueue-full q d uuid now n (ltb→le _ _ b) in
              absurd (cc (sym (ap (λ r. job_of r.1) s) ∙ ap job_of h))
        ]
      ]

  reused-not-Inv :
      (q : Queue J) (d : JobData J) (id token : String) (now : ℕ)
      → Holds q id token
      → ¬ Inv (insert_job q d id now).0
  unfolding insert_job new_job same_state
  reused-not-Inv q d id token now h v = cc (
    v.leased id,
    held_lease-has q id token h.0 (held_of_Holds q id token h),
    ap runs (get-set_self id id (new_job q d id now) q.jobs refl),
  )

  complete-new_job :
      (q : Queue J) (d : JobData J) (id : String) (value : J) (now later : ℕ) (lease : Lease)
      → complete_held (insert_job q d id now).0 id value later lease (new_job q d id now)
        ≡ ((insert_job q d id now).0, false)
  unfolding complete_held new_job is_valid_transition
  complete-new_job q d id value now later lease = refl

  -- A request that is accepted and repeated under the same idempotency key, a text that is not
  -- empty, gets the same job as a duplicate, and the second request leaves the queue alone.
  pub enqueue_again :
      (q : Queue J) (d d' : JobData J) (uuid uuid' : String) (now now' : ℕ) (k : String)
      (job : Job J) (duplicate : Bool)
      → js_or d.idempotency_key d.job_id ≡ some k
      → js_or d'.idempotency_key d'.job_id ≡ some k
      → same_text k "" ≡ false
      → (enqueue q d uuid now).1 ≡ accepted job duplicate
      → enqueue (enqueue q d uuid now).0 d' uuid' now'
        ≡ ((enqueue q d uuid now).0, accepted job true)
  enqueue_again q d d' uuid uuid' now now' k job duplicate e e' t h =
      enqueue-duplicate (enqueue q d uuid now).0 d' uuid' now' job (
        ap (existing_job (enqueue q d uuid now).0) e'
        ∙ enqueue-found q d uuid now k job duplicate e t h)

  -- A worker's lease outlives a request that reuses the id of its running job under a new key: the job
  -- is queued again while it is leased, so the invariant is lost, and the worker can no longer
  -- complete it.
  pub enqueue_reused_id :
      (q : Queue J) (d : JobData J) (uuid token : String) (value : J) (now later : ℕ)
      → Holds q (request_id d uuid) token
      → existing_job q (js_or d.idempotency_key d.job_id) ≡ none
      → length q.waiting_queue < q.config.max_queue_depth
      → (¬ Inv (enqueue q d uuid now).0)
        × (complete_job (enqueue q d uuid now).0 (request_id d uuid) token value later
            ≡ ((enqueue q d uuid now).0, false))
  unfolding complete_job
  enqueue_reused_id q d uuid token value now later h n room =
      let id = request_id d uuid in
      let e = enqueue-room q d uuid now n room in
      rw e (
        λ v. reused-not-Inv q d id token now h v,
        with_held-held (insert_job q d id now).0 id token
              (complete_held (insert_job q d id now).0 id value later) h.0 (new_job q d id now)
              (unfold insert_job in held_of_Holds (insert_job q d id now).0 id token h)
              (unfold insert_job in get-set_self id id (new_job q d id now) q.jobs refl)
            ∙ complete-new_job q d id value now later h.0,
      )

  -- How many jobs are in a state.
  abbrev pub in_state : JobState → Dict String (Job J) → ℕ
  in_state s jobs = length (keep_if (λ (id, job). same_state job.state s) jobs)

  -- What a loop adds to the counters.
  record Counted (t u : Stats) (jobs : Dict String (Job J)) : Type 0 where
    total : u.total_jobs ≡ t.total_jobs
    all_queued : u.queued ≡ t.queued + in_state queued jobs
    all_running : u.running ≡ t.running + in_state running jobs
    all_completed : u.completed ≡ t.completed + in_state completed jobs
    all_failed : u.failed ≡ t.failed + in_state failed jobs
    all_cancelled : u.cancelled ≡ t.cancelled + in_state cancelled jobs
    all_timed_out : u.timed_out ≡ t.timed_out + in_state timed_out jobs

  tally_all-Counted : (t : Stats) (jobs : Dict String (Job J)) → Counted t (tally_all t jobs) jobs
  unfolding tally_all tally keep_if same_state
  tally_all-Counted t [] = record {
    total = refl;
    all_queued = omega arith;
    all_running = omega arith;
    all_completed = omega arith;
    all_failed = omega arith;
    all_cancelled = omega arith;
    all_timed_out = omega arith;
  }
  tally_all-Counted t ((id, job) ∷ jobs) =
      let h = tally_all-Counted (tally t job.state) jobs in
      record {
        total = ground (arith, h.total);
        all_queued = ground (arith, h.all_queued);
        all_running = ground (arith, h.all_running);
        all_completed = ground (arith, h.all_completed);
        all_failed = ground (arith, h.all_failed);
        all_cancelled = ground (arith, h.all_cancelled);
        all_timed_out = ground (arith, h.all_timed_out);
      }

  -- `getStats` counts, once stale leases are reclaimed, how many jobs there are and how many are in
  -- each of six states.
  pub get_stats-counts :
      (q : Queue J) (now : ℕ)
      → let r = get_stats q now in
        (r.1.total_jobs ≡ length r.0.jobs)
        × (r.1.queued ≡ in_state queued r.0.jobs)
        × (r.1.running ≡ in_state running r.0.jobs)
        × (r.1.completed ≡ in_state completed r.0.jobs)
        × (r.1.failed ≡ in_state failed r.0.jobs)
        × (r.1.cancelled ≡ in_state cancelled r.0.jobs)
        × (r.1.timed_out ≡ in_state timed_out r.0.jobs)
        × (r.0 ≡ reclaim_stale_leases now q)
  unfolding get_stats stats_of
  get_stats-counts q now =
      let h = tally_all-Counted _ (reclaim_stale_leases now q).jobs in
      (
        h.total,
        omega (arith, h.all_queued),
        omega (arith, h.all_running),
        omega (arith, h.all_completed),
        omega (arith, h.all_failed),
        omega (arith, h.all_cancelled),
        omega (arith, h.all_timed_out),
        refl,
      )
