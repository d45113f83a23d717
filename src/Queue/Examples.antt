-- ===== src/Queue/Examples.antt =====
-- Tests and instances for the job queue. The values that it carries are texts here.
use valax_wearedevs_deobfusc.Prelude.{
  ◌<◌, ◌≤◌, ◌≡◌, refl, ◌↔◌, ◌⊎◌, String, true, false, none, some, [], ◌∷◌, arith, length,
  text_discrete,
}
use valax_wearedevs_deobfusc.Prelude.Dict
use valax_wearedevs_deobfusc.Prelude.Dict.{Dict, text_key}
use valax_wearedevs_deobfusc.Jobs.Legal.{queued, running}
use valax_wearedevs_deobfusc.Queue.Defs.{same_text, js_or, Job, Lease, Queue, JobData, Options, new}
use valax_wearedevs_deobfusc.Queue.Methods.{
  accepted, existing_job, reclaim_stale_leases, request_id, enqueue, lease_next_job,
}
use valax_wearedevs_deobfusc.Queue.Settle.{complete_job, fail_job, get_stats}
use valax_wearedevs_deobfusc.Queue.Invariant.{Inv}
use valax_wearedevs_deobfusc.Queue.Flow.{unused}
use valax_wearedevs_deobfusc.Queue.History.{Followed}
use valax_wearedevs_deobfusc.Queue.Run.{
  Run, started, called, enqueues, leases, Run-Inv, Run-Followed,
}
use valax_wearedevs_deobfusc.Queue.Contract.{
  Holds, complete_job-of_held, reported_once, fail_job-of_held,
}
use valax_wearedevs_deobfusc.Queue.Service.{lease_next_job-null}
use valax_wearedevs_deobfusc.Queue.Requests.{
  enqueue_again, enqueue_reused_id, in_state, get_stats-counts,
}

abbrev defaults : Options
defaults = record {
  max_queue_depth = none;
  max_running_jobs = none;
  default_lease_duration = none;
  max_retries = none;
}

abbrev request : JobData String
request = record {
  job_id = some "a";
  idempotency_key = none;
  principal_id = none;
  payload = "source";
}

-- The same id under a key of its own.
abbrev reusing : JobData String
reusing = record {
  job_id = some "a";
  idempotency_key = some "other";
  principal_id = none;
  payload = "source";
}

empty : Queue String
empty = new defaults

one_waiting : Queue String
one_waiting = (enqueue empty request "u" 0).0

one_leased : Queue String
one_leased = (lease_next_job one_waiting "w" none "t" 5).0

run_to_waiting : Run (new defaults) one_waiting
unfolding one_waiting empty new Dict.get request_id
run_to_waiting = called started (enqueues request "u" 0 (unused refl))

run_to_leased : Run (new defaults) one_leased
unfolding one_leased
run_to_leased = called run_to_waiting (leases "w" none "t" 5)

leased_lease : Lease
leased_lease = record { token = "t"; worker_id = "w"; expires_at = 30005; lease_duration = 30000 }

lease_held : Holds one_leased "a" "t"
unfolding one_leased one_waiting empty new enqueue lease_next_job Dict.get Dict.set text_discrete
    leased_lease same_text
lease_held = (leased_lease, refl, refl)

Run-Inv_example : Inv one_leased
Run-Inv_example = Run-Inv defaults run_to_leased

waiting-Inv : Inv one_waiting
waiting-Inv = Run-Inv defaults run_to_waiting

leased-Inv : Inv one_leased
leased-Inv = Run-Inv defaults run_to_leased

Run-Followed_example : Followed one_waiting one_leased
unfolding one_leased
Run-Followed_example =
    Run-Followed one_waiting one_leased waiting-Inv (called started (leases "w" none "t" 5))

complete_job-of_held_example : (complete_job one_leased "a" "t" "ok" 9).1 ≡ true
complete_job-of_held_example =
    (complete_job-of_held one_leased "a" "t" "ok" 9 leased-Inv lease_held).2

reported_once_example :
    complete_job (complete_job one_leased "a" "t" "ok" 9).0 "a" "t" "late" 12
    ≡ ((complete_job one_leased "a" "t" "ok" 9).0, false)
reported_once_example =
    ((reported_once one_leased "a" "t" "ok" 9 leased-Inv lease_held).0 "t" "late" none 12).0

fail_job-of_held_example : (fail_job one_leased "a" "t" "crash" 9).1 ≡ true
fail_job-of_held_example = (fail_job-of_held one_leased "a" "t" "crash" 9 leased-Inv lease_held).2

lease_next_job-null_example : ((lease_next_job one_leased "v" none "u" 7).1 ≡ none) ↔ (
    ((reclaim_stale_leases 7 one_leased).waiting_queue ≡ [])
    ⊎ ((reclaim_stale_leases 7 one_leased).config.max_running_jobs
        ≤ Dict.size (reclaim_stale_leases 7 one_leased).leases))
lease_next_job-null_example = lease_next_job-null one_leased "v" none "u" 7 leased-Inv

-- A lease that has run out is taken back, and the job waits again.
reclaimed : (reclaim_stale_leases 30006 one_leased).waiting_queue ≡ "a" ∷ []
unfolding one_leased one_waiting empty new enqueue lease_next_job reclaim_stale_leases Dict.get
    Dict.set Dict.delete text_discrete leased_lease
reclaimed = refl

waiting_job : Job String
waiting_job = record {
  job_id = "a";
  idempotency_key = some "a";
  principal_id = "anonymous";
  state = queued;
  created_at = 0;
  updated_at = 0;
  attempts = 0;
  max_retries = 2;
  payload = "source";
  result = none;
  error = none;
}

enqueue_again_example :
    enqueue (enqueue empty request "u" 0).0 request "v" 3
    ≡ ((enqueue empty request "u" 0).0, accepted waiting_job true)
unfolding empty new enqueue Dict.get Dict.set text_discrete waiting_job same_text
enqueue_again_example =
    enqueue_again empty request request "u" "v" 0 3 "a" waiting_job false refl refl refl refl

unknown_key : existing_job one_leased (js_or reusing.idempotency_key reusing.job_id) ≡ none
unfolding one_leased one_waiting empty new enqueue lease_next_job existing_job js_or Dict.get
    Dict.set text_discrete same_text
unknown_key = refl

held_as_requested : Holds one_leased (request_id reusing "u") "t"
unfolding request_id same_text text_discrete
held_as_requested = lease_held

room_left : length one_leased.waiting_queue < one_leased.config.max_queue_depth
unfolding one_leased one_waiting empty new enqueue lease_next_job Dict.get Dict.set text_discrete
room_left = omega arith

enqueue_reused_id_example : ¬ Inv (enqueue one_leased reusing "u" 6).0
enqueue_reused_id_example =
    (enqueue_reused_id one_leased reusing "u" "t" "ok" 6 9 held_as_requested unknown_key
      room_left).0

get_stats-counts_example :
    (get_stats one_leased 9).1.running ≡ in_state running (get_stats one_leased 9).0.jobs
get_stats-counts_example = (get_stats-counts one_leased 9).2
