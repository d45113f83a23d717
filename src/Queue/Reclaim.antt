-- ===== src/Queue/Reclaim.antt =====
-- What packages/queue/src/in-memory-queue.js reclaims: the leases that have run out, and their jobs.
use valax_wearedevs_deobfusc.Prelude.{ℕ, ◌≡◌, String, false, some, [], ◌∷◌, ltb, if◌then◌else◌}
use valax_wearedevs_deobfusc.Prelude.Dict
use valax_wearedevs_deobfusc.Prelude.Dict.{Dict, text_key, get-set}
use valax_wearedevs_deobfusc.Jobs.Legal.{queued, timed_out}
use valax_wearedevs_deobfusc.Queue.Defs.{coded, Job, Lease, Queue}

-- No id is leased twice.
unfoldable pub AreDistinct : Dict String Lease → Type 0
unfolding Dict.has
AreDistinct [] = Unit
AreDistinct ((id, l) ∷ es) = (Dict.has id es ≡ false) × AreDistinct es

-- What `_reclaimStaleLeases` makes of a running job whose lease has run out.
module _ {J : Type 0} where
  abbrev pub reclaimed : ℕ → Job J → Job J
  reclaimed now job =
      if ltb job.attempts job.max_retries
      then record job { state = queued; updated_at = now }
      else record job {
        state = timed_out;
        error = some (coded "LEASE_EXPIRED" "Worker lease expired and retry limit reached");
        updated_at = now;
      }
