-- ===== src/Queue/Progress.antt =====
-- Each method of packages/queue/src/in-memory-queue.js moves jobs along legal transitions only, and
-- leaves finished jobs alone.
use valax_wearedevs_deobfusc.Prelude.{
  ℕ, ◌≡◌, refl, String, true, false, Option, some, arith, ltb, inl, inr, Option-cases, Bool-cases,
}
use valax_wearedevs_deobfusc.Prelude.Dict
use valax_wearedevs_deobfusc.Prelude.Dict.{Dict, text_key, get-set}
use valax_wearedevs_deobfusc.Jobs.Legal.{
  JobState, running, completed, cancelled, same_state, is_terminal, is_valid_transition, here, next,
}
use valax_wearedevs_deobfusc.Queue.Defs.{Job, Queue}
use valax_wearedevs_deobfusc.Queue.Methods.{held_lease}
use valax_wearedevs_deobfusc.Queue.Settle.{
  settle, complete_held, complete_job, fail_held, retry_or_fail, fail_job, cancel_job, touch_job,
  heartbeat,
}
use valax_wearedevs_deobfusc.Queue.Invariant.{Inv}
use valax_wearedevs_deobfusc.Queue.Keeps.{held-running, held_cases, held_lease-has}
use valax_wearedevs_deobfusc.Queue.History.{
  Follows, same, Followed, Follows-set, step_from, running-nonterminal,
}

cancellable : (s : JobState) → is_terminal s ≡ false → is_valid_transition s cancelled ≡ true
unfolding is_valid_transition
cancellable s h = ground arith

module _ {J : Type 0} where
  pub unmoved : (q : Queue J) → Followed q q
  unmoved q = λ k. same refl

  -- A running job takes a legal step.
  pub run_step :
      (q : Queue J) (id : String) (old job : Job J)
      → Dict.get id q.jobs ≡ some old
      → same_state old.state running ≡ true
      → is_valid_transition running job.state ≡ true
      → (k : String) → Follows (Dict.get k q.jobs) (Dict.get k (Dict.set id job q.jobs))
  run_step q id old job e r ok k =
      Follows-set id k old job q.jobs e (running-nonterminal old.state r)
        (step_from old.state running job.state r ok)

  pub complete_job-Followed :
      (q : Queue J) (id token : String) (value : J) (now : ℕ)
      → Inv q
      → Followed q (complete_job q id token value now).0
  unfolding complete_job complete_held settle same_state
  complete_job-Followed q id token value now v =
      held_cases (Followed q) q id token (complete_held q id value now) (unmoved q) v
        λ lease job l j nq r. elim (Bool-cases (is_valid_transition job.state completed)) [
          | inl b ↦ rw b (run_step q id job _ j r refl)
          | inr b ↦ rw b (unmoved q)
        ]

  pub fail_job-Followed :
      (q : Queue J) (id token : String) (value : J) (now : ℕ)
      → Inv q
      → Followed q (fail_job q id token value now).0
  unfolding fail_job fail_held retry_or_fail settle same_state is_valid_transition
  fail_job-Followed q id token value now v =
      held_cases (Followed q) q id token (fail_held q id value now) (unmoved q) v
        λ lease job l j nq r. elim (Bool-cases (ltb job.attempts job.max_retries)) [
          | inl b ↦ rw b (run_step q id job _ j r refl)
          | inr b ↦ rw b (run_step q id job _ j r refl)
        ]

  pub heartbeat-Followed :
      (q : Queue J) (id token : String) (given : Option ℕ) (now : ℕ)
      → Inv q
      → Followed q (heartbeat q id token given now).0
  unfolding heartbeat touch_job
  heartbeat-Followed q id token given now v = elim (Option-cases (held_lease q id token)) [
    | inl e ↦ rw (e, heartbeat) (unmoved q)
    | inr (lease, e) ↦ elim (Bool-cases (ltb lease.expires_at now)) [
      | inl b ↦ rw (e, b, heartbeat) (unmoved q)
      | inr b ↦ elim (Option-cases (Dict.get id q.jobs)) [
        | inl n ↦ rw (e, b, n, heartbeat, touch_job) (λ k. same refl)
        | inr (job, j) ↦
            let (r, nq) = held-running q id job v (held_lease-has q id token lease e) j in
            rw (e, b, j, heartbeat, touch_job)
              (λ k. Follows-set id k job _ q.jobs j (running-nonterminal job.state r) here)
      ]
    ]
  ]

  pub cancel_job-Followed :
      (q : Queue J) (id reason : String) (now : ℕ) → Followed q (cancel_job q id reason now).0
  unfolding cancel_job settle
  cancel_job-Followed q id reason now = elim (Option-cases (Dict.get id q.jobs)) [
    | inl e ↦ rw (e, cancel_job) (unmoved q)
    | inr (job, e) ↦ elim (Bool-cases (is_terminal job.state)) [
      | inl b ↦ rw (e, b, cancel_job) (unmoved q)
      | inr b ↦
          rw (e, b, cancel_job)
            (λ k. Follows-set id k job _ q.jobs e b (next here (cancellable job.state b)))
    ]
  ]
