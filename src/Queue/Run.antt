-- ===== src/Queue/Run.antt =====
-- Runs of packages/queue/src/in-memory-queue.js: any sequence of calls, as steps of one relation. An
-- enqueued request brings an id that no job has, or the key of a known job: `enqueue` does not check that.
use valax_wearedevs_deobfusc.Prelude.{
  ℕ, ◌≡◌, refl, String, Option, some, List, [], ◌∷◌, arith, length, ltb, leb, inl, inr,
  Option-cases, Bool-cases,
}
use valax_wearedevs_deobfusc.Prelude.Dict
use valax_wearedevs_deobfusc.Prelude.Dict.{Dict, text_key}
use valax_wearedevs_deobfusc.Jobs.Legal.{queued, running, same_state, is_valid_transition}
use valax_wearedevs_deobfusc.Queue.Defs.{js_or, Job, Lease, Queue, JobData, Options, new}
use valax_wearedevs_deobfusc.Queue.Methods.{
  reclaim_job, reclaim_lease, reclaim_all, reclaim_stale_leases, existing_job, insert_job,
  request_id, enqueue, grant, lease_front, lease_waiting, lease_next_job,
}
use valax_wearedevs_deobfusc.Queue.Settle.{complete_job, fail_job, cancel_job, heartbeat, get_stats}
use valax_wearedevs_deobfusc.Queue.Invariant.{times, Inv}
use valax_wearedevs_deobfusc.Queue.Keeps.{
  complete_job-Inv, fail_job-Inv, cancel_job-Inv, heartbeat-Inv,
}
use valax_wearedevs_deobfusc.Queue.Flow.{
  IsFresh, unused, again, enqueue-Inv, lease_next_job-Inv, reclaim_stale_leases-Inv,
}
use valax_wearedevs_deobfusc.Queue.History.{
  same, Followed, Followed-trans, Follows-set, Follows-set_new, step_from, queued-nonterminal,
}
use valax_wearedevs_deobfusc.Queue.Progress.{
  unmoved, run_step, complete_job-Followed, fail_job-Followed, heartbeat-Followed,
  cancel_job-Followed,
}

module _ {J : Type 0} where
  reclaim_job-Followed :
      (now : ℕ) (q : Queue J) (id : String) (job : Job J)
      → Dict.get id q.jobs ≡ some job
      → Followed q (reclaim_job now q id job)
  unfolding reclaim_job is_valid_transition
  reclaim_job-Followed now q id job e = elim (Bool-cases (same_state job.state running)) [
    | inr nr ↦ rw (nr, reclaim_job) (unmoved q)
    | inl r ↦ elim (Bool-cases (ltb job.attempts job.max_retries)) [
      | inl b ↦ rw (r, b, reclaim_job) (run_step q id job _ e r refl)
      | inr b ↦ rw (r, b, reclaim_job) (run_step q id job _ e r refl)
    ]
  ]

  reclaim_lease-Followed :
      (now : ℕ) (q : Queue J) (e : String × Lease) → Followed q (reclaim_lease now q e)
  unfolding reclaim_lease
  reclaim_lease-Followed now q (id, lease) = elim (Bool-cases (ltb lease.expires_at now)) [
    | inr b ↦ rw (b, reclaim_lease) (unmoved q)
    | inl b ↦ elim (Option-cases (Dict.get id q.jobs)) [
      | inl n ↦ rw (b, n, reclaim_lease) (λ k. same refl)
      | inr (job, e) ↦
          rw (b, e, reclaim_lease)
            (reclaim_job-Followed now (record q { leases = Dict.delete id q.leases }) id job e)
    ]
  ]

  reclaim_all-Followed :
      (now : ℕ) (q : Queue J) (es : List (String × Lease)) → Followed q (reclaim_all now q es)
  unfolding reclaim_all
  reclaim_all-Followed now q [] = unmoved q
  reclaim_all-Followed now q (e ∷ es) =
      Followed-trans q (reclaim_lease now q e) (reclaim_all now (reclaim_lease now q e) es)
        (reclaim_lease-Followed now q e) (reclaim_all-Followed now (reclaim_lease now q e) es)

  reclaim_stale_leases-Followed : (now : ℕ) (q : Queue J) → Followed q (reclaim_stale_leases now q)
  unfolding reclaim_stale_leases
  reclaim_stale_leases-Followed now q = reclaim_all-Followed now q q.leases

  lease_front-Followed :
      (q : Queue J) (ws : List String) (worker : String) (duration : ℕ) (token : String) (now : ℕ)
      → Followed q (lease_front q ws worker duration token now).0
  unfolding lease_front grant is_valid_transition
  lease_front-Followed q [] worker duration token now = unmoved q
  lease_front-Followed q (id ∷ rest) worker duration token now =
      elim (Option-cases (Dict.get id q.jobs)) [
        | inl n ↦ rw (n, lease_front) (λ k. same refl)
        | inr (job, e) ↦ elim (Bool-cases (same_state job.state queued)) [
          | inr nq ↦ rw (e, nq, lease_front) (λ k. same refl)
          | inl s ↦
              rw (e, s, lease_front)
                (λ k.
                  Follows-set id k job _ q.jobs e (queued-nonterminal job.state s)
                    (step_from job.state queued running s refl))
        ]
      ]

  lease_waiting-Followed :
      (q : Queue J) (worker : String) (duration : ℕ) (token : String) (now : ℕ)
      → Followed q (lease_waiting q worker duration token now).0
  unfolding lease_waiting
  lease_waiting-Followed q worker duration token now =
      elim (Bool-cases (leb q.config.max_running_jobs (Dict.size q.leases))) [
        | inl b ↦ rw b (unmoved q)
        | inr b ↦ rw b (lease_front-Followed q q.waiting_queue worker duration token now)
      ]

  lease_next_job-Followed :
      (q : Queue J) (worker : String) (duration : Option ℕ) (token : String) (now : ℕ)
      → Followed q (lease_next_job q worker duration token now).0
  unfolding lease_next_job
  lease_next_job-Followed q worker duration token now =
      Followed-trans q (reclaim_stale_leases now q) (lease_next_job q worker duration token now).0
        (reclaim_stale_leases-Followed now q)
        (lease_waiting-Followed (reclaim_stale_leases now q) worker _ token now)

  enqueue-Followed :
      (q : Queue J) (d : JobData J) (uuid : String) (now : ℕ)
      → IsFresh q d uuid
      → Followed q (enqueue q d uuid now).0
  unfolding enqueue insert_job
  enqueue-Followed q d uuid now (again job e) = rw (e, enqueue) (unmoved q)
  enqueue-Followed q d uuid now (unused n) =
      elim (Option-cases (existing_job q (js_or d.idempotency_key d.job_id))) [
        | inr (job, e) ↦ rw (e, enqueue) (unmoved q)
        | inl e ↦ elim (Bool-cases (leb q.config.max_queue_depth (length q.waiting_queue))) [
          | inl b ↦ rw (e, b, enqueue) (unmoved q)
          | inr b ↦ rw (e, b, enqueue) (λ k. Follows-set_new (request_id d uuid) k _ q.jobs n)
        ]
      ]

  -- One call, with the time and the random values that it reads.
  pub data Call (q : Queue J) : Queue J → Type 0 where
    enqueues :
        (d : JobData J) (uuid : String) (now : ℕ)
        → IsFresh q d uuid
        → Call q (enqueue q d uuid now).0
    leases :
        (worker : String) (duration : Option ℕ) (token : String) (now : ℕ)
        → Call q (lease_next_job q worker duration token now).0
    heartbeats :
        (id token : String) (given : Option ℕ) (now : ℕ) → Call q (heartbeat q id token given now).0
    completes :
        (id token : String) (value : J) (now : ℕ) → Call q (complete_job q id token value now).0
    fails : (id token : String) (value : J) (now : ℕ) → Call q (fail_job q id token value now).0
    cancels : (id reason : String) (now : ℕ) → Call q (cancel_job q id reason now).0
    reads_stats : (now : ℕ) → Call q (get_stats q now).0

  -- Any number of calls.
  pub data Run (q : Queue J) : Queue J → Type 0 where
    started : Run q q
    called : {r s : Queue J} → Run q r → Call r s → Run q s

  -- Whatever is called, the invariant stays.
  pub Call-Inv : {q r : Queue J} → Call q r → Inv q → Inv r
  unfolding get_stats
  Call-Inv {q} (enqueues d uuid now f) v = enqueue-Inv q d uuid now f v
  Call-Inv {q} (leases worker duration token now) v =
      lease_next_job-Inv q worker duration token now v
  Call-Inv {q} (heartbeats id token given now) v = heartbeat-Inv q id token given now v
  Call-Inv {q} (completes id token value now) v = complete_job-Inv q id token value now v
  Call-Inv {q} (fails id token value now) v = fail_job-Inv q id token value now v
  Call-Inv {q} (cancels id reason now) v = cancel_job-Inv q id reason now v
  Call-Inv {q} (reads_stats now) v = reclaim_stale_leases-Inv now q v

  Call-Followed : {q r : Queue J} → Call q r → Inv q → Followed q r
  unfolding get_stats
  Call-Followed {q} (enqueues d uuid now f) v = enqueue-Followed q d uuid now f
  Call-Followed {q} (leases worker duration token now) v =
      lease_next_job-Followed q worker duration token now
  Call-Followed {q} (heartbeats id token given now) v = heartbeat-Followed q id token given now v
  Call-Followed {q} (completes id token value now) v = complete_job-Followed q id token value now v
  Call-Followed {q} (fails id token value now) v = fail_job-Followed q id token value now v
  Call-Followed {q} (cancels id reason now) v = cancel_job-Followed q id reason now
  Call-Followed {q} (reads_stats now) v = reclaim_stale_leases-Followed now q

  new-Inv : (o : Options) → Inv (new {J = J} o)
  unfolding new times Dict.get Dict.has
  new-Inv o = record {
    placed = λ k. refl;
    leased = λ k. refl;
    tried = λ k. tt;
    running_bound = omega arith;
    depth_bound = omega arith;
  }

  pub Run-Inv_from : {q r : Queue J} → Inv q → Run q r → Inv r
  Run-Inv_from v started = v
  Run-Inv_from v (called r c) = Call-Inv c (Run-Inv_from v r)

  -- After any calls on a new queue, in which a request is only enqueued under an id that no job has or
  -- under the idempotency key of a known job, the invariant holds: each queued job stands in the waiting queue
  -- once and each running job has a lease, no other id is there, no job is tried more often than
  -- `max(1, maxRetries)` times, and the leases and the waiting jobs stay within their bounds.
  pub Run-Inv : (o : Options) {q : Queue J} → Run (new o) q → Inv q
  Run-Inv o r = Run-Inv_from (new-Inv o) r

  -- From a queue that meets the invariant, any calls, in which a request is only enqueued under an id
  -- that no job has or under the idempotency key of a known job, leave every job there: it is unchanged,
  -- or it was
  -- not finished and went on along transitions that `isValidTransition` allows.
  pub Run-Followed : (q r : Queue J) → Inv q → Run q r → Followed q r
  Run-Followed q r v started = unmoved q
  Run-Followed q r v (called {r = p} run c) =
      Followed-trans q p r (Run-Followed q p v run) (Call-Followed c (Run-Inv_from v run))
