-- ===== src/Gateway/Examples.antt =====
-- Tests and instances for the gateway's limits.
use valax_wearedevs_deobfusc.Prelude.{
  ℕ, ◌≤◌, ◌≡◌, ◌↔◌, refl, true, false, ◌&&◌, none, some, [], arith, ltb, List,
}
use valax_wearedevs_deobfusc.Gateway.Limiter.{
  Limits, Limiter, fresh, key_of, new, active, check_limit, acquire_concurrency,
}
use valax_wearedevs_deobfusc.Gateway.Tracks.{recent}
use valax_wearedevs_deobfusc.Gateway.Sliding.{
  Served, started, checked, note, Served-bounds, check_limit-by_log,
}
use valax_wearedevs_deobfusc.Gateway.Slots.{
  Running, started, acquired, Running-bounded, acquire_concurrency-full,
}

abbrev tight : Limits
tight = record { window_ms = 60000; max_requests = 60; burst_limit = 1; max_concurrent = 1 }

abbrev once : Limiter
once = (check_limit (fresh tight) "u" "submit" 5000).0

once_log : List ℕ
once_log =
    note (key_of "u" "submit") (key_of "u" "submit")
      (check_limit (fresh tight) "u" "submit" 5000).1.allowed 5000 []

once-Served : Served (key_of "u" "submit") once 5000 once_log
unfolding once_log
once-Served = checked "u" "submit" 5000 (started tight) (omega arith)

wide : 1000 ≤ once.limits.window_ms
unfolding check_limit
wide = omega arith

Served-bounds_example :
    (recent once.limits.window_ms 5500 once_log ≤ once.limits.max_requests)
    × (recent 1000 5500 once_log ≤ once.limits.burst_limit)
Served-bounds_example =
    Served-bounds (key_of "u" "submit") once 5000 once_log 5500 wide once-Served (omega arith)

check_limit-by_log_example : (check_limit once "u" "submit" 5500).1.allowed ≡ (
    ltb (recent 1000 5500 once_log) once.limits.burst_limit
    && ltb (recent once.limits.window_ms 5500 once_log) once.limits.max_requests)
check_limit-by_log_example =
    check_limit-by_log once 5000 once_log "u" "submit" 5500 wide once-Served (omega arith)

abbrev busy : Limiter
busy = (acquire_concurrency (fresh tight) "u").0

first_slot : (acquire_concurrency (fresh tight) "u").1.acquired ≡ true
unfolding acquire_concurrency
first_slot = refl

busy-Running : Running "u" busy 1
busy-Running = acquired (started tight) first_slot

Running-bounded_example : (active busy "u" ≡ 1) × (1 ≤ busy.limits.max_concurrent)
Running-bounded_example = Running-bounded "u" busy 1 busy-Running

acquire_concurrency-full_example :
    ((acquire_concurrency busy "u").1.acquired ≡ false) ↔ (1 ≡ busy.limits.max_concurrent)
acquire_concurrency-full_example = acquire_concurrency-full "u" busy 1 busy-Running

default_limits :
    (new (record {
      window_option = none;
      requests_option = some 0;
      burst_option = none;
      concurrent_option = some 4;
    })).limits
    ≡ record { window_ms = 60000; max_requests = 60; burst_limit = 10; max_concurrent = 4 }
unfolding new
default_limits = refl
