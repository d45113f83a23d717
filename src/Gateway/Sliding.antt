-- ===== src/Gateway/Sliding.antt =====
-- packages/gateway/src/rate-limiter.js: `checkLimit` as a sliding window over all the requests that
-- were ever allowed.
use mathlib.Core.Logic.{ite, if_pos, if_neg}
use valax_wearedevs_deobfusc.Prelude.{
  ℕ, ◌≤◌, ◌≡◌, refl, sym, ap, subst, ◌∙◌, String, Bool, true, false, ◌&&◌, List, [], ◌∷◌, ◌++◌,
  arith, ltb, keep_if, if◌then◌else◌,
}
use valax_wearedevs_deobfusc.Prelude.Dict
use valax_wearedevs_deobfusc.Prelude.Dict.{Dict, text_key}
use valax_wearedevs_deobfusc.Gateway.Limiter.{
  Limits, Limiter, fresh, key_of, within, stamps, decide, check_limit, acquire_concurrency,
  release_concurrency,
}
use valax_wearedevs_deobfusc.Gateway.Tracks.{
  recent, Tracks, allowed_by_log, unmoved, room, filtered, pushed,
}
use valax_wearedevs_deobfusc.Gateway.Window.{stamps-set_self, stamps-set_ne, decide-stamps}

-- The requests of one key that were allowed, in order.
unfoldable pub note : String → String → Bool → ℕ → List ℕ → List ℕ
note k key allowed now log =
    ite (text_key.dec key k) (if allowed then log ++ (now ∷ []) else log) log

-- The states that a new limiter comes to by its calls while the clock does not go back, with the time
-- of the last request and the log of the requests of the key `k` that were allowed.
pub data Served (k : String) : Limiter → ℕ → List ℕ → Type 0 where
  started : (c : Limits) → Served k (fresh c) 0 []
  checked :
      {lim : Limiter} {t : ℕ} {log : List ℕ} (principal action : String) (now : ℕ)
      → Served k lim t log
      → t ≤ now
      → Served k (check_limit lim principal action now).0 now (
          note k (key_of principal action) (check_limit lim principal action now).1.allowed now log)
  acquired :
      {lim : Limiter} {t : ℕ} {log : List ℕ} (principal : String)
      → Served k lim t log
      → Served k (acquire_concurrency lim principal).0 t log
  released :
      {lim : Limiter} {t : ℕ} {log : List ℕ} (principal : String)
      → Served k lim t log
      → Served k (release_concurrency lim principal) t log

own_stamps :
    (lim : Limiter) (principal action : String) (now : ℕ) (b : Bool)
    → (check_limit lim principal action now).1.allowed ≡ b
    → stamps (key_of principal action) (check_limit lim principal action now).0.request_timestamps
      ≡ (if b
          then keep_if
              (within lim.limits.window_ms now)
              (stamps (key_of principal action) lim.request_timestamps)
            ++ (now ∷ [])
          else keep_if
              (within lim.limits.window_ms now)
              (stamps (key_of principal action) lim.request_timestamps))
unfolding check_limit
own_stamps lim principal action now b e =
    let k = key_of principal action in
    let live = keep_if (within lim.limits.window_ms now) (stamps k lim.request_timestamps) in
    stamps-set_self k (decide lim.limits now live).0 lim.request_timestamps
    ∙ (decide-stamps lim.limits now live ∙ ap (λ a. if a then live ++ (now ∷ []) else live) e)

check_limit-limits :
    (lim : Limiter) (principal action : String) (now : ℕ)
    → (check_limit lim principal action now).0.limits ≡ lim.limits
unfolding check_limit
check_limit-limits lim principal action now = refl

acquire-same :
    (lim : Limiter) (principal : String)
    → ((acquire_concurrency lim principal).0.limits ≡ lim.limits)
      × ((acquire_concurrency lim principal).0.request_timestamps ≡ lim.request_timestamps)
unfolding acquire_concurrency
acquire-same lim principal = ground arith

release-same :
    (lim : Limiter) (principal : String)
    → ((release_concurrency lim principal).limits ≡ lim.limits)
      × ((release_concurrency lim principal).request_timestamps ≡ lim.request_timestamps)
unfolding release_concurrency
release-same lim principal = ground arith

-- One request of the key.
own_request :
    (lim : Limiter) (t : ℕ) (log : List ℕ) (principal action : String) (now : ℕ) (b : Bool)
    → (check_limit lim principal action now).1.allowed ≡ b
    → 1000 ≤ lim.limits.window_ms
    → Tracks (key_of principal action) lim t log
    → t ≤ now
    → Tracks
        (key_of principal action)
        (check_limit lim principal action now).0
        now
        (if b then log ++ (now ∷ []) else log)
own_request lim t log principal action now true e w i h =
    let (y, z) = room _ _ _ _ (sym (allowed_by_log lim t log principal action now w i h) ∙ e) in
    pushed (key_of principal action) lim _ t now log (check_limit-limits lim principal action now)
      (own_stamps lim principal action now true e) h y z i
own_request lim t log principal action now false e w i h =
    filtered (key_of principal action) lim _ t now log (check_limit-limits lim principal action now)
      (own_stamps lim principal action now false e) h i

other_request :
    (k : String) (lim : Limiter) (t : ℕ) (log : List ℕ) (principal action : String) (now : ℕ)
    → ¬ (key_of principal action ≡ k)
    → Tracks k lim t log
    → t ≤ now
    → Tracks k (check_limit lim principal action now).0 now log
unfolding check_limit
other_request k lim t log principal action now n i h =
    unmoved k lim (check_limit lim principal action now).0 t now log refl
      (stamps-set_ne (key_of principal action) k _ lim.request_timestamps n) h i

note_own :
    (k key : String) (b : Bool) (now : ℕ) (log : List ℕ)
    → key ≡ k
    → note k key b now log ≡ (if b then log ++ (now ∷ []) else log)
unfolding note
note_own k key b now log e = if_pos (text_key.dec key k) e _ _

note_other :
    (k key : String) (b : Bool) (now : ℕ) (log : List ℕ) → ¬ (key ≡ k) → note k key b now log ≡ log
unfolding note
note_other k key b now log n = if_neg (text_key.dec key k) n _ _

checked-Tracks :
    (k : String) (lim : Limiter) (t : ℕ) (log : List ℕ) (principal action : String) (now : ℕ)
    → 1000 ≤ lim.limits.window_ms
    → Tracks k lim t log
    → t ≤ now
    → Tracks k
        (check_limit lim principal action now).0
        now
        (note k (key_of principal action) (check_limit lim principal action now).1.allowed now log)
checked-Tracks k lim t log principal action now w i h =
    let new = check_limit lim principal action now in
    let key = key_of principal action in
    elim (text_key.dec key k) [
      | yes e ↦ subst (Tracks k new.0 now) (sym (note_own k key new.1.allowed now log e)) (
          subst (λ j. Tracks j new.0 now (if new.1.allowed then log ++ (now ∷ []) else log)) e
            (own_request lim t log principal action now new.1.allowed refl w
              (subst (λ j. Tracks j lim t log) (sym e) i) h))
      | no n ↦
          subst (Tracks k new.0 now) (sym (note_other k key new.1.allowed now log n))
            (other_request k lim t log principal action now n i h)
    ]

fresh-Tracks : (k : String) (c : Limits) → Tracks k (fresh c) 0 []
unfolding stamps Dict.get keep_if
fresh-Tracks k c = record {
  mirrored = λ now h. refl;
  in_window = λ now h. omega arith;
  in_burst = λ now h. omega arith;
}

Served-Tracks :
    (k : String) (lim : Limiter) (t : ℕ) (log : List ℕ)
    → 1000 ≤ lim.limits.window_ms
    → Served k lim t log
    → Tracks k lim t log
Served-Tracks k _ _ _ w (started c) = fresh-Tracks k c
Served-Tracks k _ _ _ w (checked {lim} {t} {log} principal action now s h) =
    let w' = subst (λ c. 1000 ≤ c.window_ms) (check_limit-limits lim principal action now) w in
    checked-Tracks k lim t log principal action now w' (Served-Tracks k lim t log w' s) h
Served-Tracks k _ _ _ w (acquired {lim} {t} {log} principal s) =
    let (e, f) = acquire-same lim principal in
    unmoved k lim (acquire_concurrency lim principal).0 t t log e (ap (stamps k) f) (omega arith)
      (Served-Tracks k lim t log (subst (λ c. 1000 ≤ c.window_ms) e w) s)
Served-Tracks k _ _ _ w (released {lim} {t} {log} principal s) =
    let (e, f) = release-same lim principal in
    unmoved k lim (release_concurrency lim principal) t t log e (ap (stamps k) f) (omega arith)
      (Served-Tracks k lim t log (subst (λ c. 1000 ≤ c.window_ms) e w) s)

-- While the clock does not go back, and for a window of a second or more: however requests of all
-- keys, and starts and ends of jobs, come one after the other, at any time from the last request on
-- the requests of a key that were allowed within the window are at most the window's limit, and those
-- within the last second at most the burst limit.
pub Served-bounds :
    (k : String) (lim : Limiter) (t : ℕ) (log : List ℕ) (now : ℕ)
    → 1000 ≤ lim.limits.window_ms
    → Served k lim t log
    → t ≤ now
    → (recent lim.limits.window_ms now log ≤ lim.limits.max_requests)
      × (recent 1000 now log ≤ lim.limits.burst_limit)
Served-bounds k lim t log now w s h =
    let i = Served-Tracks k lim t log w s in (i.in_window now h, i.in_burst now h)

-- While the clock does not go back, and for a window of a second or more: in each state that a new
-- limiter comes to, `checkLimit` decides as a sliding window over the log of all allowed requests
-- does. A request is allowed exactly when fewer requests of its key than the burst limit were allowed
-- in the last second, and fewer than the window's limit in the window.
pub check_limit-by_log :
    (lim : Limiter) (t : ℕ) (log : List ℕ) (principal action : String) (now : ℕ)
    → 1000 ≤ lim.limits.window_ms
    → Served (key_of principal action) lim t log
    → t ≤ now
    → (check_limit lim principal action now).1.allowed ≡ (
        ltb (recent 1000 now log) lim.limits.burst_limit
        && ltb (recent lim.limits.window_ms now log) lim.limits.max_requests)
check_limit-by_log lim t log principal action now w s h =
    allowed_by_log lim t log principal action now w
      (Served-Tracks (key_of principal action) lim t log w s) h
