-- ===== src/Queue/Methods.antt =====
-- packages/queue/src/in-memory-queue.js: the methods of `InMemoryJobQueue`. A method that mutates
-- returns the new queue; the objects that a map holds are replaced in it.
use Prim.Native.String
use valax_wearedevs_deobfusc.Prelude.{
  ℕ, suc, ◌+◌, String, Bool, true, false, Option, none, some, List, [], ◌∷◌, ◌++◌, length, ltb, leb,
  if◌then◌else◌,
}
use valax_wearedevs_deobfusc.Prelude.Dict
use valax_wearedevs_deobfusc.Prelude.Dict.{Dict, text_key}
use valax_wearedevs_deobfusc.Jobs.Legal.{queued, running, timed_out, same_state}
use valax_wearedevs_deobfusc.Queue.Defs.{
  same_text, js_or, text_or, number_or, coded, Job, Lease, Queue, JobData,
}

pub data Enqueued (J : Type 0) : Type 0 where
  backpressure_exceeded : ℕ → Enqueued J
  accepted : Job J → Bool → Enqueued J

pub record Leased (J : Type 0) : Type 0 where
  pub job : Job J
  pub lease_token : String
  pub expires_at : ℕ

-- `if (idempotencyKey) map.set(idempotencyKey, jobId)`
unfoldable pub remember : Option String → String → Dict String String → Dict String String
unfolding same_text
remember none id m = m
remember (some k) id m = if same_text k "" then m else Dict.set k id m

module _ {J : Type 0} where
  -- The job that an idempotency key stands for, if the key is known.
  unfoldable pub existing_job : Queue J → Option String → Option (Job J)
  unfolding same_text
  existing_job q none = none
  existing_job q (some k) =
      if same_text k ""
      then none
      else elim (Dict.get k q.idempotency_map) [ none ↦ none | some id ↦ Dict.get id q.jobs ]

  unfoldable pub new_job : Queue J → JobData J → String → ℕ → Job J
  unfolding js_or text_or
  new_job q d id now = record {
    job_id = id;
    idempotency_key = js_or d.idempotency_key d.job_id;
    principal_id = text_or d.principal_id "anonymous";
    state = queued;
    created_at = now;
    updated_at = now;
    attempts = 0;
    max_retries = q.config.max_retries;
    payload = d.payload;
    result = none;
    error = none;
  }

  unfoldable pub insert_job : Queue J → JobData J → String → ℕ → Queue J × Enqueued J
  unfolding js_or remember new_job
  insert_job q d id now =
      let job = new_job q d id now in
      (
        record q {
          jobs = Dict.set id job q.jobs;
          idempotency_map = remember (js_or d.idempotency_key d.job_id) id q.idempotency_map;
          waiting_queue = q.waiting_queue ++ id ∷ [];
        },
        accepted job false,
      )

  -- `uuid` is what `crypto.randomUUID()` returns.
  unfoldable pub request_id : JobData J → String → String
  unfolding text_or
  request_id d uuid = text_or d.job_id (String.◌++◌ "job-" uuid)

  unfoldable pub enqueue : Queue J → JobData J → String → ℕ → Queue J × Enqueued J
  unfolding js_or request_id existing_job insert_job
  enqueue q d uuid now = elim (existing_job q (js_or d.idempotency_key d.job_id)) [
    | some job ↦ (q, accepted job true)
    | none ↦
        if leb q.config.max_queue_depth (length q.waiting_queue)
        then (q, backpressure_exceeded q.config.max_queue_depth)
        else insert_job q d (request_id d uuid) now
  ]

  -- A job whose lease has run out goes back to the front, or times out.
  unfoldable pub reclaim_job : ℕ → Queue J → String → Job J → Queue J
  unfolding same_state
  reclaim_job now q id job =
      if same_state job.state running
      then (if ltb job.attempts job.max_retries
          then record q {
            jobs = Dict.set id (record job { state = queued; updated_at = now }) q.jobs;
            waiting_queue = id ∷ q.waiting_queue;
          }
          else record q {
            jobs =
                Dict.set id
                  (record job {
                    state = timed_out;
                    error =
                        some (coded "LEASE_EXPIRED" "Worker lease expired and retry limit reached");
                    updated_at = now;
                  })
                  q.jobs;
          })
      else q

  unfoldable pub reclaim_lease : ℕ → Queue J → String × Lease → Queue J
  unfolding reclaim_job
  reclaim_lease now q (id, lease) =
      if ltb lease.expires_at now
      then (let r = record q { leases = Dict.delete id q.leases } in
          elim (Dict.get id r.jobs) [ none ↦ r | some job ↦ reclaim_job now r id job ])
      else q

  unfoldable pub reclaim_all : ℕ → Queue J → List (String × Lease) → Queue J
  unfolding reclaim_lease
  reclaim_all now q [] = q
  reclaim_all now q (e ∷ es) = reclaim_all now (reclaim_lease now q e) es

  -- The loop deletes only the entry that it stands at, so it visits the entries that were there.
  unfoldable pub reclaim_stale_leases : ℕ → Queue J → Queue J
  unfolding reclaim_all
  reclaim_stale_leases now q = reclaim_all now q q.leases

  unfoldable pub grant :
      Queue J → String → Job J → String → ℕ → String → ℕ → Queue J × Option (Leased J)
  grant q id job worker duration token now =
      let leased = record job { state = running; attempts = suc job.attempts; updated_at = now } in
      (
        record q {
          jobs = Dict.set id leased q.jobs;
          leases =
              Dict.set id
                (record {
                  token = token;
                  worker_id = worker;
                  expires_at = now + duration;
                  lease_duration = duration;
                })
                q.leases;
        },
        some (record { job = leased; lease_token = token; expires_at = now + duration }),
      )

  unfoldable pub lease_front :
      Queue J → List String → String → ℕ → String → ℕ → Queue J × Option (Leased J)
  unfolding grant same_state
  lease_front q [] worker duration token now = (q, none)
  lease_front q (id ∷ rest) worker duration token now =
      let r = record q { waiting_queue = rest } in
      elim (Dict.get id q.jobs) [
        | none ↦ (r, none)
        | some job ↦
            if same_state job.state queued
            then grant r id job worker duration token now
            else (r, none)
      ]

  unfoldable pub lease_waiting : Queue J → String → ℕ → String → ℕ → Queue J × Option (Leased J)
  unfolding lease_front
  lease_waiting q worker duration token now =
      if leb q.config.max_running_jobs (Dict.size q.leases)
      then (q, none)
      else lease_front q q.waiting_queue worker duration token now

  -- `token` is what `crypto.randomBytes(16)` gives in hexadecimal.
  unfoldable pub lease_next_job :
      Queue J → String → Option ℕ → String → ℕ → Queue J × Option (Leased J)
  unfolding reclaim_stale_leases lease_waiting number_or
  lease_next_job q worker duration token now =
      lease_waiting (reclaim_stale_leases now q) worker
        (number_or duration q.config.default_lease_duration) token now

  -- The lease of the job, if it is held under this token.
  unfoldable pub held_lease : Queue J → String → String → Option Lease
  unfolding same_text
  held_lease q id token = elim (Dict.get id q.leases) [
    | none ↦ none
    | some lease ↦ if same_text lease.token token then some lease else none
  ]
