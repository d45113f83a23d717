-- ===== src/Queue/Service.antt =====
-- The order in which packages/queue/src/in-memory-queue.js serves jobs.
use valax_wearedevs_deobfusc.Prelude.{
  ℕ, suc, ◌+◌, ◌≤◌, ◌<◌, ◌≡◌, refl, ap, ◌∙◌, String, true, Option, none, some, List, [], ◌∷◌, arith,
  ltb, inl, inr, ◌⊎◌, Bool-cases, ltb→lt, ltb→le, ◌↔◌,
}
use valax_wearedevs_deobfusc.Prelude.Dict
use valax_wearedevs_deobfusc.Prelude.Dict.{Dict, text_key, get-set, get-delete, get-set_self}
use valax_wearedevs_deobfusc.Jobs.Legal.{queued, running, same_state}
use valax_wearedevs_deobfusc.Queue.Defs.{number_or, Job, Lease, Queue}
use valax_wearedevs_deobfusc.Queue.Methods.{
  reclaim_stale_leases, grant, lease_front, lease_waiting, lease_next_job,
}
use valax_wearedevs_deobfusc.Queue.Invariant.{Inv}
use valax_wearedevs_deobfusc.Queue.Flow.{head_queued, reclaim_stale_leases-Inv}

-- The lease that a grant records.
abbrev lease_form : String → ℕ → String → ℕ → Lease
lease_form worker duration token now = record {
  token = token;
  worker_id = worker;
  expires_at = now + duration;
  lease_duration = duration;
}

list_cases : {A : Type 0} (xs : List A) → (xs ≡ []) ⊎ ((x : A) × (rest : List A) × (xs ≡ x ∷ rest))
list_cases [] = inl refl
list_cases (x ∷ xs) = inr (x, xs, refl)

module _ {J : Type 0} where
  abbrev leased_form : Job J → ℕ → Job J
  leased_form job now = record job {
    state = running;
    attempts = suc job.attempts;
    updated_at = now;
  }

  lease_front-head :
      (q : Queue J) (id : String) (rest : List String) (job : Job J) (worker : String)
      (duration : ℕ) (token : String) (now : ℕ)
      → Dict.get id q.jobs ≡ some job
      → same_state job.state queued ≡ true
      → lease_front q (id ∷ rest) worker duration token now
        ≡ grant (record q { waiting_queue = rest }) id job worker duration token now
  unfolding lease_front
  lease_front-head q id rest job worker duration token now e s = rw (e, lease_front, s)

  lease_waiting-room :
      (q : Queue J) (ws : List String) (worker : String) (duration : ℕ) (token : String) (now : ℕ)
      → q.waiting_queue ≡ ws
      → Dict.size q.leases < q.config.max_running_jobs
      → lease_waiting q worker duration token now ≡ lease_front q ws worker duration token now
  unfolding lease_waiting
  lease_waiting-room q ws worker duration token now w room = ground arith

  pub lease_next_job-serves_head :
      (q : Queue J) (id : String) (rest : List String) (worker : String) (duration : Option ℕ)
      (token : String) (now : ℕ)
      → Inv q
      → (reclaim_stale_leases now q).waiting_queue ≡ id ∷ rest
      → Dict.size (reclaim_stale_leases now q).leases
        < (reclaim_stale_leases now q).config.max_running_jobs
      → let r = lease_next_job q worker duration token now in
        let wait = number_or duration q.config.default_lease_duration in
        (job : Job J) × (Dict.get id (reclaim_stale_leases now q).jobs ≡ some job)
        × (r.1
            ≡ some (record {
              job = leased_form job now;
              lease_token = token;
              expires_at = now + wait;
            }))
        × (Dict.get id r.0.jobs ≡ some (leased_form job now))
        × (Dict.get id r.0.leases ≡ some (lease_form worker wait token now))
        × (r.0.waiting_queue ≡ rest)
  unfolding lease_next_job grant
  lease_next_job-serves_head q id rest worker duration token now v w room =
      let p = reclaim_stale_leases now q in
      let wait = number_or duration q.config.default_lease_duration in
      let (job, e, s) = head_queued p id rest (reclaim_stale_leases-Inv now q v) w in
      let step =
        lease_waiting-room p (id ∷ rest) worker wait token now w room
        ∙ lease_front-head p id rest job worker wait token now e s in
      (
        job,
        e,
        ap (λ x. x.1) step,
        ap (λ x. Dict.get id x.0.jobs) step ∙ get-set_self id id _ p.jobs refl,
        ap (λ x. Dict.get id x.0.leases) step ∙ get-set_self id id _ p.leases refl,
        ap (λ x. x.0.waiting_queue) step,
      )

  idle :
      (p : Queue J) (worker : String) (wait : ℕ) (token : String) (now : ℕ)
      → (p.waiting_queue ≡ []) ⊎ (p.config.max_running_jobs ≤ Dict.size p.leases)
      → lease_waiting p worker wait token now ≡ (p, none)
  unfolding lease_waiting lease_front
  idle p worker wait token now k = ground arith

  busy_or_room :
      (p : Queue J)
      → ((p.waiting_queue ≡ []) ⊎ (p.config.max_running_jobs ≤ Dict.size p.leases))
        ⊎ ((id : String) × (rest : List String) × (p.waiting_queue ≡ id ∷ rest)
            × (Dict.size p.leases < p.config.max_running_jobs))
  busy_or_room p = elim (Bool-cases (ltb (Dict.size p.leases) p.config.max_running_jobs)) [
    | inr b ↦ inl (inr (ltb→le _ _ b))
    | inl b ↦ elim (list_cases p.waiting_queue) [
      | inl n ↦ inl (inl n)
      | inr (id, rest, e) ↦ inr (id, rest, e, ltb→lt _ _ b)
    ]
  ]

  -- In a queue that meets the invariant, `leaseNextJob` returns null exactly when, once stale leases
  -- are reclaimed, nobody waits or all leases are taken: no job that waits is passed over.
  pub lease_next_job-null :
      (q : Queue J) (worker : String) (duration : Option ℕ) (token : String) (now : ℕ)
      → Inv q
      → ((lease_next_job q worker duration token now).1 ≡ none) ↔ (
          ((reclaim_stale_leases now q).waiting_queue ≡ [])
          ⊎ ((reclaim_stale_leases now q).config.max_running_jobs
              ≤ Dict.size (reclaim_stale_leases now q).leases))
  unfolding lease_next_job
  lease_next_job-null q worker duration token now v = (
    λ n. elim (busy_or_room (reclaim_stale_leases now q)) [
      | inl c ↦ c
      | inr (id, rest, w, room) ↦
          let g = lease_next_job-serves_head q id rest worker duration token now v w room in
          absurd (cc (n, g.2))
    ],
    λ c. ap (λ r. r.1) (idle (reclaim_stale_leases now q) worker _ token now c),
  )
