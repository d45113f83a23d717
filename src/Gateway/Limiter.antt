-- ===== src/Gateway/Limiter.antt =====
-- packages/gateway/src/rate-limiter.js: `RateLimiter` and `RedisBackedRateLimiter`. Times are in
-- milliseconds; `now` is what `Date.now()` answers.
use Prim.Native.String.{◌++◌ as join}
use valax_wearedevs_deobfusc.Prelude.{
  ℕ, ◌+◌, ◌-◌, String, Bool, true, false, Option, none, some, List, [], ◌∷◌, ◌++◌, ltb, leb, ◌==◌,
  length, keep_if, if◌then◌else◌,
}
use valax_wearedevs_deobfusc.Prelude.Dict
use valax_wearedevs_deobfusc.Prelude.Dict.{Dict, text_key}

pub record Limits : Type 0 where
  pub window_ms : ℕ
  pub max_requests : ℕ
  pub burst_limit : ℕ
  pub max_concurrent : ℕ

pub record Limiter : Type 0 where
  pub limits : Limits
  pub request_timestamps : Dict String (List ℕ)
  pub active_jobs : Dict String ℕ

-- The options of the constructor. A missing one is `none`.
pub record Options : Type 0 where
  pub window_option : Option ℕ
  pub requests_option : Option ℕ
  pub burst_option : Option ℕ
  pub concurrent_option : Option ℕ

-- `x || d`
unfoldable pub or_default : Option ℕ → ℕ → ℕ
or_default none d = d
or_default (some n) d = if n == 0 then d else n

abbrev pub fresh : Limits → Limiter
fresh c = record { limits = c; request_timestamps = []; active_jobs = [] }

unfoldable pub new : Options → Limiter
unfolding or_default
new o = fresh (record {
  window_ms = or_default o.window_option 60000;
  max_requests = or_default o.requests_option 60;
  burst_limit = or_default o.burst_option 10;
  max_concurrent = or_default o.concurrent_option 2;
})

pub data Refusal : Type 0 where
  burst_limit_exceeded window_rate_limit_exceeded : Refusal

pub record Check : Type 0 where
  pub allowed : Bool
  pub remaining : ℕ
  pub reset_ms : ℕ
  pub reason : Option Refusal

abbrev pub refused : ℕ → Refusal → Check
refused ms r = record { allowed = false; remaining = 0; reset_ms = ms; reason = some r }

abbrev pub granted : ℕ → ℕ → Check
granted left ms = record { allowed = true; remaining = left; reset_ms = ms; reason = none }

-- `${principalId}:${action}`
abbrev pub key_of : String → String → String
key_of principal action = join principal (join ":" action)

-- `now - ts < span`
unfoldable pub within : ℕ → ℕ → ℕ → Bool
within span now ts = ltb now (ts + span)

-- `map.get(key) || []`
unfoldable pub stamps : String → Dict String (List ℕ) → List ℕ
unfolding Dict.get
stamps k m = elim (Dict.get k m) [ none ↦ [] | some ts ↦ ts ]

-- `timestamps[0]`, for the list that the caller has found not to be empty
unfoldable pub oldest_or : ℕ → List ℕ → ℕ
oldest_or d [] = d
oldest_or d (t ∷ ts) = t

-- `checkLimit` after the filter: `ts` is what is left of the key's timestamps, already stored.
unfoldable pub decide : Limits → ℕ → List ℕ → List ℕ × Check
unfolding oldest_or within
decide c now ts =
    if leb c.burst_limit (length (keep_if (within 1000 now) ts))
    then (ts, refused 1000 burst_limit_exceeded)
    else if leb c.max_requests (length ts)
    then (ts, refused ((c.window_ms + oldest_or now ts) - now) window_rate_limit_exceeded)
    else (ts ++ (now ∷ []), granted (c.max_requests - length (ts ++ (now ∷ []))) c.window_ms)

unfoldable pub check_limit : Limiter → String → String → ℕ → Limiter × Check
unfolding Dict.set stamps decide
check_limit lim principal action now =
    let key = key_of principal action in
    let live = keep_if (within lim.limits.window_ms now) (stamps key lim.request_timestamps) in
    let result = decide lim.limits now live in
    (record lim { request_timestamps = Dict.set key result.0 lim.request_timestamps }, result.1)

-- `this.activeJobs.get(principalId) || 0`
unfoldable pub active : Limiter → String → ℕ
unfolding Dict.get
active lim principal = elim (Dict.get principal lim.active_jobs) [ none ↦ 0 | some n ↦ n ]

pub record Slot : Type 0 where
  pub acquired : Bool
  pub active_count : ℕ
  pub max_allowed : ℕ

unfoldable pub acquire_concurrency : Limiter → String → Limiter × Slot
unfolding active Dict.set
acquire_concurrency lim principal =
    let current = active lim principal in
    let limit = lim.limits.max_concurrent in
    if leb limit current
    then (lim, record { acquired = false; active_count = current; max_allowed = limit })
    else (
      record lim { active_jobs = Dict.set principal (current + 1) lim.active_jobs },
      record { acquired = true; active_count = current + 1; max_allowed = limit },
    )

unfoldable pub release_concurrency : Limiter → String → Limiter
unfolding active Dict.set Dict.delete
release_concurrency lim principal =
    let current = active lim principal in
    if leb current 1
    then record lim { active_jobs = Dict.delete principal lim.active_jobs }
    else record lim { active_jobs = Dict.set principal (current - 1) lim.active_jobs }

unfoldable pub reset : Limiter → Limiter
reset lim = fresh lim.limits

-- What `PTTL` answers: no time to live, or the milliseconds that are left.
pub data Ttl : Type 0 where
  negative : Ttl
  left : ℕ → Ttl

-- `redisClient.sendCommand`, for the three commands that are sent. `none` is a command that throws.
pub record Client (S : Type 0) : Type 0 where
  pub incr : String → S → S × Option ℕ
  pub pexpire : String → ℕ → S → S × Option ℕ
  pub pttl : String → S → S × Option Ttl

-- `Math.max(a, b)`
unfoldable pub maximum : ℕ → ℕ → ℕ
maximum a b = if ltb a b then b else a

-- `Math.max(1000, Number(ttl) || this.windowMs)`
unfoldable pub reset_of : ℕ → Ttl → ℕ
unfolding maximum
reset_of window negative = 1000
reset_of window (left n) = maximum 1000 (if n == 0 then window else n)

-- The body of the `try` from the `PTTL` on, once the counter is known.
unfoldable pub judge_count : {S : Type 0} → Client S → Limits → String → ℕ → S → S × Option Check
unfolding reset_of
judge_count cl c key n s =
    if ltb c.max_requests n
    then (let asked = cl.pttl key s in
        elim asked.1 [
          | none ↦ (asked.0, none)
          | some ttl ↦
              (asked.0, some (refused (reset_of c.window_ms ttl) window_rate_limit_exceeded))
        ])
    else (s, some (granted (c.max_requests - n) c.window_ms))

-- The body of the `try`. `none` is an error that the `catch` takes.
unfoldable pub ask_redis : {S : Type 0} → Client S → Limits → String → S → S × Option Check
unfolding judge_count
ask_redis cl c key s =
    let counted = cl.incr key s in
    elim counted.1 [
      | none ↦ (counted.0, none)
      | some n ↦
          if n == 1
          then (let expiring = cl.pexpire key c.window_ms counted.0 in
              elim expiring.1 [
                | none ↦ (expiring.0, none)
                | some r ↦ judge_count cl c key n expiring.0
              ])
          else judge_count cl c key n counted.0
    ]

-- `checkLimitAsync`. `none` is a limiter without a Redis client that can send commands.
unfoldable pub check_limit_async :
    {S : Type 0}
    → Option (Client S)
    → String
    → Limiter
    → String
    → String
    → ℕ
    → S
    → S × (Limiter × Check)
unfolding ask_redis
check_limit_async none prefix lim principal action now s = (s, check_limit lim principal action now)
check_limit_async (some cl) prefix lim principal action now s =
    let asked = ask_redis cl lim.limits (join prefix (key_of principal action)) s in
    elim asked.1 [
      | none ↦ (asked.0, check_limit lim principal action now)
      | some result ↦ (asked.0, (lim, result))
    ]
