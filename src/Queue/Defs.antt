-- ===== src/Queue/Defs.antt =====
-- packages/queue/src/in-memory-queue.js: the class `InMemoryJobQueue`. The clock, the random id and
-- the random token that a call reads are its arguments; the events that it emits are left out.
-- `J` is the type of the values that the queue only carries: payloads, results and errors.
use valax_wearedevs_deobfusc.Prelude.{
  ℕ, String, Bool, true, false, ite, Option, none, some, List, [], ◌==◌, text_discrete,
  if◌then◌else◌,
}
use valax_wearedevs_deobfusc.Prelude.Dict.{Dict, text_key}
use valax_wearedevs_deobfusc.Jobs.Legal.{JobState}

-- `===` on texts
unfoldable pub same_text : String → String → Bool
same_text s t = ite (text_discrete s t) true false

-- A value that may be `undefined`; the empty text is falsy too. `a || b`:
unfoldable pub js_or : Option String → Option String → Option String
unfolding same_text
js_or none b = b
js_or (some a) b = if same_text a "" then b else some a

unfoldable pub text_or : Option String → String → String
unfolding same_text
text_or none b = b
text_or (some a) b = if same_text a "" then b else a

-- `a || b` on numbers, where 0 and `undefined` are falsy.
unfoldable pub number_or : Option ℕ → ℕ → ℕ
number_or none b = b
number_or (some a) b = if a == 0 then b else a

pub data JobError (J : Type 0) : Type 0 where
  reported : J → JobError J
  coded : String → String → JobError J

pub record Job (J : Type 0) : Type 0 where
  pub job_id : String
  pub idempotency_key : Option String
  pub principal_id : String
  pub state : JobState
  pub created_at : ℕ
  pub updated_at : ℕ
  pub attempts : ℕ
  pub max_retries : ℕ
  pub payload : J
  pub result : Option J
  pub error : Option (JobError J)

pub record Lease : Type 0 where
  pub token : String
  pub worker_id : String
  pub expires_at : ℕ
  pub lease_duration : ℕ

pub record Config : Type 0 where
  pub max_queue_depth : ℕ
  pub max_running_jobs : ℕ
  pub default_lease_duration : ℕ
  pub max_retries : ℕ

pub record Queue (J : Type 0) : Type 0 where
  pub config : Config
  pub jobs : Dict String (Job J)
  pub idempotency_map : Dict String String
  pub waiting_queue : List String
  pub leases : Dict String Lease

-- The constructor's options; `maxRetries ?? 2` keeps a 0.
pub record Options : Type 0 where
  pub max_queue_depth : Option ℕ
  pub max_running_jobs : Option ℕ
  pub default_lease_duration : Option ℕ
  pub max_retries : Option ℕ

unfoldable pub number_given : Option ℕ → ℕ → ℕ
number_given none b = b
number_given (some a) b = a

unfoldable pub new : {J : Type 0} → Options → Queue J
unfolding number_or number_given
new o = record {
  config = record {
    max_queue_depth = number_or o.max_queue_depth 100;
    max_running_jobs = number_or o.max_running_jobs 10;
    default_lease_duration = number_or o.default_lease_duration 30000;
    max_retries = number_given o.max_retries 2;
  };
  jobs = [];
  idempotency_map = [];
  waiting_queue = [];
  leases = [];
}

pub record JobData (J : Type 0) : Type 0 where
  pub job_id : Option String
  pub idempotency_key : Option String
  pub principal_id : Option String
  pub payload : J
