-- ===== src/Queue/Flow.antt =====
-- The methods of packages/queue/src/in-memory-queue.js that move jobs through the waiting queue:
-- they keep the invariant too.
use valax_wearedevs_deobfusc.Prelude.{
  ℕ, suc, ◌+◌, ◌<◌, ◌≡◌, refl, ap, String, true, false, Option, none, some, List, [], ◌∷◌, arith,
  length, length-append, ltb, leb, inl, inr, Option-cases, Bool-cases,
}
use valax_wearedevs_deobfusc.Prelude.Dict
use valax_wearedevs_deobfusc.Prelude.Dict.{
  Dict, text_key, get-set, get-delete, has-set, has-delete, size-delete-has, size-delete-le,
  size-set-le, size-set-has,
}
use valax_wearedevs_deobfusc.Jobs.Legal.{queued, running, same_state}
use valax_wearedevs_deobfusc.Queue.Defs.{js_or, Job, Lease, Queue, JobData}
use valax_wearedevs_deobfusc.Queue.Methods.{
  reclaim_job, reclaim_lease, reclaim_all, reclaim_stale_leases, existing_job, new_job, insert_job,
  request_id, enqueue, grant, lease_front, lease_waiting, lease_next_job,
}
use valax_wearedevs_deobfusc.Queue.Settle.{settle}
use valax_wearedevs_deobfusc.Queue.Invariant.{times, times-append, Inv}
use valax_wearedevs_deobfusc.Queue.Keeps.{settle-Inv, requeue-Inv, attempts-le, running-not-queued}

module _ {J : Type 0} where
  -- A lease whose job does not run is not there.
  drop-Inv :
      (q : Queue J) (id : String)
      → Inv q
      → Dict.has id q.leases ≡ false
      → Inv (record q { leases = Dict.delete id q.leases })
  drop-Inv q id v l = record {
    placed = v.placed;
    leased = λ k. ground (arith, v.leased k, v.leased id, has-delete id k q.leases);
    tried = v.tried;
    running_bound = omega (arith, v.running_bound, size-delete-le id q.leases);
    depth_bound = omega (arith, v.depth_bound, size-delete-le id q.leases);
  }

  reclaim_found-Inv :
      (now : ℕ) (q : Queue J) (id : String) (job : Job J)
      → Inv q
      → Dict.get id q.jobs ≡ some job
      → Inv (reclaim_job now (record q { leases = Dict.delete id q.leases }) id job)
  unfolding reclaim_job
  reclaim_found-Inv now q id job v e = elim (Bool-cases (same_state job.state running)) [
    | inr nr ↦ rw (nr, reclaim_job) (drop-Inv q id v (ground (arith, v.leased id)))
    | inl r ↦
        let l : Dict.has id q.leases ≡ true = ground (arith, v.leased id) in
        let nq = running-not-queued job.state r in
        elim (Bool-cases (ltb job.attempts job.max_retries)) [
          | inl b ↦
              rw (r, b, reclaim_job)
                (unfold settle same_state in
                  requeue-Inv q id job (record job { state = queued; updated_at = now }) v e l nq
                    refl refl (ground (arith, attempts-le q id job v e)))
          | inr b ↦
              rw (r, b, reclaim_job)
                (unfold settle same_state in
                  settle-Inv q id job _ v e nq refl refl (omega (arith, attempts-le q id job v e)))
        ]
  ]

  reclaim_lease-Inv :
      (now : ℕ) (q : Queue J) (e : String × Lease) → Inv q → Inv (reclaim_lease now q e)
  unfolding reclaim_lease
  reclaim_lease-Inv now q (id, lease) v = elim (Bool-cases (ltb lease.expires_at now)) [
    | inr b ↦ rw (b, reclaim_lease) v
    | inl b ↦ elim (Option-cases (Dict.get id q.jobs)) [
      | inl n ↦ rw (b, n, reclaim_lease) (drop-Inv q id v (ground (arith, v.leased id)))
      | inr (job, e) ↦ rw (b, e, reclaim_lease) (reclaim_found-Inv now q id job v e)
    ]
  ]

  reclaim_all-Inv :
      (now : ℕ) (q : Queue J) (es : List (String × Lease)) → Inv q → Inv (reclaim_all now q es)
  unfolding reclaim_all
  reclaim_all-Inv now q [] v = v
  reclaim_all-Inv now q (e ∷ es) v =
      reclaim_all-Inv now (reclaim_lease now q e) es (reclaim_lease-Inv now q e v)

  pub reclaim_stale_leases-Inv : (now : ℕ) (q : Queue J) → Inv q → Inv (reclaim_stale_leases now q)
  unfolding reclaim_stale_leases
  reclaim_stale_leases-Inv now q v = reclaim_all-Inv now q q.leases v

  grant-Inv :
      (q : Queue J) (id : String) (rest : List String) (job : Job J) (worker : String)
      (duration : ℕ) (token : String) (now : ℕ)
      → Inv q
      → q.waiting_queue ≡ id ∷ rest
      → Dict.get id q.jobs ≡ some job
      → same_state job.state queued ≡ true
      → Dict.size q.leases < q.config.max_running_jobs
      → Inv (grant (record q { waiting_queue = rest }) id job worker duration token now).0
  unfolding grant same_state times
  grant-Inv q id rest job worker duration token now v w e s room = record {
    placed =
        λ k. ground (arith, v.placed k, ap (times k) w, v.placed id, get-set id k leased q.jobs);
    leased =
        λ k. ground (arith, v.leased k, get-set id k leased q.jobs, has-set id k lease q.leases);
    tried = λ k. ground (arith, v.tried k, v.tried id, get-set id k leased q.jobs);
    running_bound = omega (arith, size-set-le id lease q.leases);
    depth_bound =
        omega (
          arith,
          v.depth_bound,
          ap (λ (l : List String). length l) w,
          size-set-le id lease q.leases,
        );
  }
    where
      leased : Job J
      leased = record job { state = running; attempts = suc job.attempts; updated_at = now }

      lease : Lease
      lease = record {
        token = token;
        worker_id = worker;
        expires_at = now + duration;
        lease_duration = duration;
      }

  -- The job at the head of the waiting queue is there, and queued.
  pub head_queued :
      (q : Queue J) (id : String) (rest : List String)
      → Inv q
      → q.waiting_queue ≡ id ∷ rest
      → (job : Job J) × (Dict.get id q.jobs ≡ some job) × (same_state job.state queued ≡ true)
  unfolding times
  head_queued q id rest v w = elim (Option-cases (Dict.get id q.jobs)) [
    | inl n ↦ absurd (ground (arith, v.placed id, ap (times id) w))
    | inr (job, e) ↦ (job, e, ground (arith, v.placed id, ap (times id) w))
  ]

  lease_front-Inv :
      (q : Queue J) (ws : List String) (worker : String) (duration : ℕ) (token : String) (now : ℕ)
      → Inv q
      → q.waiting_queue ≡ ws
      → Dict.size q.leases < q.config.max_running_jobs
      → Inv (lease_front q ws worker duration token now).0
  unfolding lease_front
  lease_front-Inv q [] worker duration token now v w room = v
  lease_front-Inv q (id ∷ rest) worker duration token now v w room =
      let (job, e, s) = head_queued q id rest v w in
      rw (e, lease_front, s) (grant-Inv q id rest job worker duration token now v w e s room)

  lease_waiting-Inv :
      (q : Queue J) (worker : String) (duration : ℕ) (token : String) (now : ℕ)
      → Inv q
      → Inv (lease_waiting q worker duration token now).0
  unfolding lease_waiting
  lease_waiting-Inv q worker duration token now v =
      elim (Bool-cases (leb q.config.max_running_jobs (Dict.size q.leases))) [
        | inl b ↦ rw b v
        | inr b ↦
            rw b (lease_front-Inv q q.waiting_queue worker duration token now v refl (ground arith))
      ]

  pub lease_next_job-Inv :
      (q : Queue J) (worker : String) (duration : Option ℕ) (token : String) (now : ℕ)
      → Inv q
      → Inv (lease_next_job q worker duration token now).0
  unfolding lease_next_job
  lease_next_job-Inv q worker duration token now v =
      lease_waiting-Inv (reclaim_stale_leases now q) worker _ token now
        (reclaim_stale_leases-Inv now q v)

  insert_job-Inv :
      (q : Queue J) (d : JobData J) (id : String) (now : ℕ)
      → Inv q
      → Dict.get id q.jobs ≡ none
      → length q.waiting_queue < q.config.max_queue_depth
      → Inv (insert_job q d id now).0
  unfolding insert_job same_state times new_job
  insert_job-Inv q d id now v n room = record {
    placed = λ k.
        ground
          (arith, v.placed k, times-append k q.waiting_queue (id ∷ []), get-set id k job q.jobs);
    leased = λ k. ground (arith, v.leased k, get-set id k job q.jobs);
    tried = λ k. ground (arith, v.tried k, get-set id k job q.jobs);
    running_bound = v.running_bound;
    depth_bound = omega (arith, v.running_bound, length-append q.waiting_queue (id ∷ []));
  }
    where
      job : Job J
      job = new_job q d id now

  -- A request may name a job that is there only by asking for that job again.
  pub data IsFresh (q : Queue J) (d : JobData J) (uuid : String) : Type 0 where
    unused : Dict.get (request_id d uuid) q.jobs ≡ none → IsFresh q d uuid
    again :
        (job : Job J)
        → existing_job q (js_or d.idempotency_key d.job_id) ≡ some job
        → IsFresh q d uuid

  pub enqueue-Inv :
      (q : Queue J) (d : JobData J) (uuid : String) (now : ℕ)
      → IsFresh q d uuid
      → Inv q
      → Inv (enqueue q d uuid now).0
  unfolding enqueue
  enqueue-Inv q d uuid now (again job e) v = rw (e, enqueue) v
  enqueue-Inv q d uuid now (unused n) v =
      elim (Option-cases (existing_job q (js_or d.idempotency_key d.job_id))) [
        | inr (job, e) ↦ rw (e, enqueue) v
        | inl e ↦ elim (Bool-cases (leb q.config.max_queue_depth (length q.waiting_queue))) [
          | inl b ↦ rw (e, b, enqueue) v
          | inr b ↦
              rw (e, b, enqueue) (insert_job-Inv q d (request_id d uuid) now v n (ground arith))
        ]
      ]
