-- ===== src/Queue/Settle.antt =====
-- packages/queue/src/in-memory-queue.js: the methods that work on a leased job or end a job, and
-- the ones that only read.
use valax_wearedevs_deobfusc.Prelude.{
  ℕ, suc, ◌+◌, String, Bool, true, false, not, Option, none, some, [], ◌∷◌, keep_if, ltb,
  if◌then◌else◌,
}
use valax_wearedevs_deobfusc.Prelude.Dict
use valax_wearedevs_deobfusc.Prelude.Dict.{Dict, text_key}
use valax_wearedevs_deobfusc.Jobs.Legal.{
  JobState, queued, running, completed, failed, cancelled, timed_out, resource_limit, is_terminal,
  is_valid_transition,
}
use valax_wearedevs_deobfusc.Queue.Defs.{same_text, number_or, reported, coded, Job, Lease, Queue}
use valax_wearedevs_deobfusc.Queue.Methods.{held_lease, reclaim_stale_leases}

-- `extensionMs || lease.leaseDurationMs || this.defaultLeaseDurationMs`
unfoldable pub extension : Option ℕ → ℕ → ℕ → ℕ
unfolding number_or
extension given own default = number_or given (number_or (some own) default)

module _ {J : Type 0} where
  unfoldable pub touch_job : String → ℕ → Dict String (Job J) → Dict String (Job J)
  touch_job id now jobs = elim (Dict.get id jobs) [
    | none ↦ jobs
    | some job ↦ Dict.set id (record job { updated_at = now }) jobs
  ]

  unfoldable pub heartbeat : Queue J → String → String → Option ℕ → ℕ → Queue J × Bool
  unfolding held_lease extension touch_job
  heartbeat q id token given now = elim (held_lease q id token) [
    | none ↦ (q, false)
    | some lease ↦ if ltb lease.expires_at now then (q, false) else (
      record q {
        jobs = touch_job id now q.jobs;
        leases =
            Dict.set id
              (record lease {
                expires_at =
                    now + extension given lease.lease_duration q.config.default_lease_duration;
              })
              q.leases;
      },
      true,
    )
  ]

  -- The job is given its new form, and its lease is dropped.
  unfoldable pub settle : Queue J → String → Job J → Queue J
  settle q id job = record q { jobs = Dict.set id job q.jobs; leases = Dict.delete id q.leases }

  -- Both guards of `completeJob` and `failJob`: the lease is held, and the job is there.
  unfoldable pub with_held :
      Queue J → String → String → (Lease → Job J → Queue J × Bool) → Queue J × Bool
  unfolding held_lease
  with_held q id token act = elim (held_lease q id token) [
    | none ↦ (q, false)
    | some lease ↦ elim (Dict.get id q.jobs) [ none ↦ (q, false) | some job ↦ act lease job ]
  ]

  unfoldable pub complete_held : Queue J → String → J → ℕ → Lease → Job J → Queue J × Bool
  unfolding is_valid_transition settle
  complete_held q id value now lease job =
      if not (is_valid_transition job.state completed) then (q, false) else (
        settle q id (record job { state = completed; result = some value; updated_at = now }),
        true,
      )

  unfoldable pub complete_job : Queue J → String → String → J → ℕ → Queue J × Bool
  unfolding with_held complete_held
  complete_job q id token value now = with_held q id token (complete_held q id value now)

  unfoldable pub retry_or_fail : Queue J → String → Job J → J → ℕ → Queue J
  unfolding settle
  retry_or_fail q id job value now =
      if ltb job.attempts job.max_retries
      then (let r = settle q id (record job { state = queued; updated_at = now }) in
          record r { waiting_queue = id ∷ r.waiting_queue })
      else settle q id
          (record job { state = failed; error = some (reported value); updated_at = now })

  unfoldable pub fail_held : Queue J → String → J → ℕ → Lease → Job J → Queue J × Bool
  unfolding retry_or_fail
  fail_held q id value now lease job = (retry_or_fail q id job value now, true)

  unfoldable pub fail_job : Queue J → String → String → J → ℕ → Queue J × Bool
  unfolding with_held fail_held
  fail_job q id token value now = with_held q id token (fail_held q id value now)

  unfoldable pub cancel_job : Queue J → String → String → ℕ → Queue J × Bool
  unfolding is_terminal settle same_text
  cancel_job q id reason now = elim (Dict.get id q.jobs) [
    | none ↦ (q, false)
    | some job ↦ if is_terminal job.state then (q, false) else (
      (let r = settle q id (record job {
        state = cancelled;
        error = some (coded "CANCELLED" reason);
        updated_at = now;
      }) in
          record r { waiting_queue = keep_if (λ i. not (same_text i id)) r.waiting_queue }),
      true,
    )
  ]

  unfoldable pub get_job : Queue J → String → Option (Job J)
  get_job q id = Dict.get id q.jobs

  unfoldable pub get_active_lease_count : Queue J → ℕ
  get_active_lease_count q = Dict.size q.leases

pub record Stats : Type 0 where
  pub total_jobs : ℕ
  pub queued : ℕ
  pub running : ℕ
  pub completed : ℕ
  pub failed : ℕ
  pub cancelled : ℕ
  pub timed_out : ℕ

-- The `switch` of the loop over `jobs.values()`: it has no case for `RESOURCE_LIMIT`.
unfoldable pub tally : Stats → JobState → Stats
tally t JobState.queued = record t { queued = suc t.queued }
tally t running = record t { running = suc t.running }
tally t JobState.completed = record t { completed = suc t.completed }
tally t JobState.failed = record t { failed = suc t.failed }
tally t JobState.cancelled = record t { cancelled = suc t.cancelled }
tally t timed_out = record t { timed_out = suc t.timed_out }
tally t resource_limit = t

module _ {J : Type 0} where
  unfoldable pub tally_all : Stats → Dict String (Job J) → Stats
  unfolding tally
  tally_all t [] = t
  tally_all t ((id, job) ∷ jobs) = tally_all (tally t job.state) jobs

  unfoldable pub stats_of : Dict String (Job J) → Stats
  unfolding tally_all
  stats_of jobs =
      tally_all
        (record {
          total_jobs = Dict.size jobs;
          queued = 0;
          running = 0;
          completed = 0;
          failed = 0;
          cancelled = 0;
          timed_out = 0;
        })
        jobs

  -- Reading the statistics reclaims stale leases first.
  unfoldable pub get_stats : Queue J → ℕ → Queue J × Stats
  unfolding reclaim_stale_leases stats_of
  get_stats q now = let r = reclaim_stale_leases now q in (r, stats_of r.jobs)
