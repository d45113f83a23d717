-- ===== src/Gateway/Tracks.antt =====
-- packages/gateway/src/rate-limiter.js: the invariant that ties a key's stored timestamps to the log
-- of the requests that were allowed.
use valax_wearedevs_deobfusc.Prelude.{
  ℕ, ◌≤◌, ◌<◌, ◌≡◌, sym, ap, ◌∙◌, String, Bool, true, ◌&&◌, List, [], ◌∷◌, ◌++◌, arith, ltb, length,
  keep_if,
}
use valax_wearedevs_deobfusc.Prelude.Dict.{text_key}
use valax_wearedevs_deobfusc.Gateway.Limiter.{Limiter, key_of, within, stamps, decide, check_limit}
use valax_wearedevs_deobfusc.Gateway.Window.{
  keep_if-append, keep_if-keep_if, length-keep_if_mono, length-keep_if-push, within_earlier,
  within_wider, decide-allowed,
}

-- How many of the log are within the last `span` milliseconds.
abbrev pub recent : ℕ → ℕ → List ℕ → ℕ
recent span now log = length (keep_if (within span now) log)

pub record Tracks (k : String) (lim : Limiter) (t : ℕ) (log : List ℕ) : Type 0 where
  pub mirrored :
      (now : ℕ)
      → t ≤ now
      → keep_if (within lim.limits.window_ms now) (stamps k lim.request_timestamps)
        ≡ keep_if (within lim.limits.window_ms now) log
  pub in_window :
      (now : ℕ) → t ≤ now → recent lim.limits.window_ms now log ≤ lim.limits.max_requests
  pub in_burst : (now : ℕ) → t ≤ now → recent 1000 now log ≤ lim.limits.burst_limit

-- The counts that the decision compares are the counts of the log.
live_count :
    (k : String) (lim : Limiter) (t : ℕ) (log : List ℕ) (now : ℕ)
    → Tracks k lim t log
    → t ≤ now
    → length (keep_if (within lim.limits.window_ms now) (stamps k lim.request_timestamps))
      ≡ recent lim.limits.window_ms now log
live_count k lim t log now i h = ap length (i.mirrored now h)

burst_count :
    (k : String) (lim : Limiter) (t : ℕ) (log : List ℕ) (now : ℕ)
    → 1000 ≤ lim.limits.window_ms
    → Tracks k lim t log
    → t ≤ now
    → length (
        keep_if
          (within 1000 now)
          (keep_if (within lim.limits.window_ms now) (stamps k lim.request_timestamps)))
      ≡ recent 1000 now log
burst_count k lim t log now w i h =
    ap (λ l. length (keep_if (within 1000 now) l)) (i.mirrored now h)
    ∙ ap length (
        keep_if-keep_if (within 1000 now) (within lim.limits.window_ms now) log
          (λ x. within_wider 1000 lim.limits.window_ms now x w))

-- One more request, allowed while there was room, keeps the bound.
pushed_bound :
    (span limit now later : ℕ) (log : List ℕ)
    → recent span now log < limit
    → now ≤ later
    → recent span later (log ++ (now ∷ [])) ≤ limit
pushed_bound span limit now later log r h = omega (
  arith,
  r,
  length-keep_if-push (within span later) log now,
  length-keep_if_mono (within span later) (within span now) log
      (λ x. within_earlier span now later x h),
)

later_mirror :
    (w now later : ℕ) (ts log : List ℕ)
    → now ≤ later
    → keep_if (within w now) ts ≡ keep_if (within w now) log
    → keep_if (within w later) (keep_if (within w now) ts) ≡ keep_if (within w later) log
later_mirror w now later ts log h e =
    ap (keep_if (within w later)) e
    ∙ keep_if-keep_if (within w later) (within w now) log (λ x. within_earlier w now later x h)

push_mirror :
    (p : ℕ → Bool) (now : ℕ) (xs ys : List ℕ)
    → keep_if p xs ≡ keep_if p ys
    → keep_if p (xs ++ (now ∷ [])) ≡ keep_if p (ys ++ (now ∷ []))
push_mirror p now xs ys e =
    keep_if-append p xs (now ∷ [])
    ∙ (ap (λ l. l ++ keep_if p (now ∷ [])) e ∙ sym (keep_if-append p ys (now ∷ [])))

-- The key's log and its timestamps before and after one request of the key.
allowed_room :
    (k : String) (lim : Limiter) (t : ℕ) (log : List ℕ) (now : ℕ)
    → 1000 ≤ lim.limits.window_ms
    → Tracks k lim t log
    → t ≤ now
    → (decide lim.limits now
        (keep_if (within lim.limits.window_ms now) (stamps k lim.request_timestamps))).1.allowed
      ≡ (ltb (recent 1000 now log) lim.limits.burst_limit
          && ltb (recent lim.limits.window_ms now log) lim.limits.max_requests)
allowed_room k lim t log now w i h =
    decide-allowed lim.limits now
      (keep_if (within lim.limits.window_ms now) (stamps k lim.request_timestamps))
    ∙ ap
        (λ n.
          ltb n lim.limits.burst_limit
          && ltb
              (length (keep_if (within lim.limits.window_ms now) (stamps k lim.request_timestamps)))
              lim.limits.max_requests)
        (burst_count k lim t log now w i h)
    ∙ ap (λ n. ltb (recent 1000 now log) lim.limits.burst_limit && ltb n lim.limits.max_requests)
        (live_count k lim t log now i h)

-- The request is allowed exactly when the log has room in both spans.
pub allowed_by_log :
    (lim : Limiter) (t : ℕ) (log : List ℕ) (principal action : String) (now : ℕ)
    → 1000 ≤ lim.limits.window_ms
    → Tracks (key_of principal action) lim t log
    → t ≤ now
    → (check_limit lim principal action now).1.allowed ≡ (
        ltb (recent 1000 now log) lim.limits.burst_limit
        && ltb (recent lim.limits.window_ms now log) lim.limits.max_requests)
unfolding check_limit
allowed_by_log lim t log principal action now w i h =
    allowed_room (key_of principal action) lim t log now w i h

-- What the other requests, and the slots of running jobs, leave as it is.
pub unmoved :
    (k : String) (lim new : Limiter) (t now : ℕ) (log : List ℕ)
    → new.limits ≡ lim.limits
    → stamps k new.request_timestamps ≡ stamps k lim.request_timestamps
    → t ≤ now
    → Tracks k lim t log
    → Tracks k new now log
unmoved k lim new t now log e f h i = record {
  mirrored = λ later l. rw (e, f) (i.mirrored later (omega (arith, h, l)));
  in_window = λ later l. rw (e) (i.in_window later (omega (arith, h, l)));
  in_burst = λ later l. rw (e) (i.in_burst later (omega (arith, h, l)));
}

pub room : (a b c d : ℕ) → (ltb a b && ltb c d) ≡ true → (a < b) × (c < d)
room a b c d h = ground arith

-- The filter alone changes nothing that the log tells.
pub filtered :
    (k : String) (lim new : Limiter) (t now : ℕ) (log : List ℕ)
    → new.limits ≡ lim.limits
    → stamps k new.request_timestamps
      ≡ keep_if (within lim.limits.window_ms now) (stamps k lim.request_timestamps)
    → t ≤ now
    → Tracks k lim t log
    → Tracks k new now log
filtered k lim new t now log e f h i = record {
  mirrored = λ later l.
      rw (e, f)
        (later_mirror lim.limits.window_ms now later (stamps k lim.request_timestamps) log l
          (i.mirrored now h));
  in_window = λ later l. rw (e) (i.in_window later (omega (arith, h, l)));
  in_burst = λ later l. rw (e) (i.in_burst later (omega (arith, h, l)));
}

-- A request that is allowed goes to the end of both lists.
pub pushed :
    (k : String) (lim new : Limiter) (t now : ℕ) (log : List ℕ)
    → new.limits ≡ lim.limits
    → stamps k new.request_timestamps
      ≡ keep_if (within lim.limits.window_ms now) (stamps k lim.request_timestamps) ++ (now ∷ [])
    → t ≤ now
    → recent 1000 now log < lim.limits.burst_limit
    → recent lim.limits.window_ms now log < lim.limits.max_requests
    → Tracks k lim t log
    → Tracks k new now (log ++ (now ∷ []))
pushed k lim new t now log e f h b r i =
    let live = keep_if (within lim.limits.window_ms now) (stamps k lim.request_timestamps) in
    record {
      mirrored = λ later l.
          rw (e, f)
            (push_mirror (within lim.limits.window_ms later) now live log (
              later_mirror lim.limits.window_ms now later (stamps k lim.request_timestamps) log l
                (i.mirrored now h)));
      in_window = λ later l.
          rw (e) (pushed_bound lim.limits.window_ms lim.limits.max_requests now later log r l);
      in_burst = λ later l. rw (e) (pushed_bound 1000 lim.limits.burst_limit now later log b l);
    }
