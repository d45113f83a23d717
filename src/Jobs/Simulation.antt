-- ===== src/Jobs/Simulation.antt =====
-- `mapInternalToProductState` of packages/api/src/state-machine.js: what the queue does with a job
-- is legal for the product.
use valax_wearedevs_deobfusc.Prelude.{◌≡◌, true, String, arith}
use valax_wearedevs_deobfusc.Jobs.Legal.{JobState, is_terminal, is_valid_transition}
use valax_wearedevs_deobfusc.Jobs.Product.{
  ProductState, named, is_valid_product_transition, same_name,
}
use valax_wearedevs_deobfusc.Jobs.Product

-- The texts that the `switch` tells apart.
pub data InternalState : Type 0 where
  job : JobState → InternalState
  leased : InternalState
  other : String → InternalState

unfoldable pub map_internal_to_product : InternalState → ProductState
map_internal_to_product (job JobState.queued) = ProductState.queued
map_internal_to_product leased = ProductState.leased
map_internal_to_product (job JobState.running) = ProductState.running
map_internal_to_product (job JobState.completed) = ProductState.succeeded
map_internal_to_product (job JobState.failed) = ProductState.failed
map_internal_to_product (job JobState.timed_out) = ProductState.timed_out
map_internal_to_product (job JobState.cancelled) = ProductState.cancelled
map_internal_to_product (job JobState.resource_limit) = ProductState.failed
map_internal_to_product (other s) = ProductState.failed

-- The product's view of a job of the queue.
abbrev pub shown : JobState → Product.StateName
shown s = named (map_internal_to_product (job s))

-- A legal step of the queue's machine is shown as a legal step of the product's machine.
pub shown_step :
    (s t : JobState)
    → is_valid_transition s t ≡ true
    → is_valid_product_transition (shown s) (shown t) ≡ true
unfolding is_valid_transition is_valid_product_transition map_internal_to_product
shown_step s t h = ground arith

-- A job is shown as finished exactly when it is finished.
pub shown-is_terminal : (s : JobState) → Product.is_terminal (shown s) ≡ is_terminal s
unfolding is_terminal Product.is_terminal map_internal_to_product
shown-is_terminal s = ground arith
