-- ===== src/Jobs/Product.antt =====
-- packages/api/src/state-machine.js: the states that the product shows, and their transitions.
use valax_wearedevs_deobfusc.Prelude.{
  ◌≡◌, Bool, true, false, String, List, [], ◌∷◌, ◌||◌, not, ite, arith, text_discrete,
  if◌then◌else◌,
}

pub data ProductState : Type 0 where
  queued leased running succeeded failed timed_out cancelled : ProductState

-- A text that is handed to the checks: a state's name, the name of a property that every object
-- inherits (`toString`), or some other text.
pub data StateName : Type 0 where
  named : ProductState → StateName
  inherited : String → StateName
  unknown : String → StateName

unfoldable pub same_state : ProductState → ProductState → Bool
same_state queued queued = true
same_state leased leased = true
same_state running running = true
same_state succeeded succeeded = true
same_state failed failed = true
same_state timed_out timed_out = true
same_state cancelled cancelled = true
same_state _ _ = false

unfoldable pub same_name : StateName → StateName → Bool
unfolding same_state text_discrete
same_name (named s) (named t) = same_state s t
same_name (inherited s) (inherited t) = ite (text_discrete s t) true false
same_name (unknown s) (unknown t) = ite (text_discrete s t) true false
same_name _ _ = false

unfoldable pub includes : List ProductState → StateName → Bool
unfolding same_name
includes [] n = false
includes (x ∷ xs) n = same_name (named x) n || includes xs n

-- `TERMINAL_PRODUCT_STATES.has`
unfoldable pub is_terminal : StateName → Bool
unfolding includes
is_terminal n = includes (succeeded ∷ failed ∷ timed_out ∷ cancelled ∷ []) n

-- `ACTIVE_PRODUCT_STATES.has`
unfoldable pub is_active : StateName → Bool
unfolding includes
is_active n = includes (queued ∷ leased ∷ running ∷ []) n

-- `CANCELLABLE_PRODUCT_STATES.has`
unfoldable pub is_cancellable : StateName → Bool
unfolding includes
is_cancellable n = includes (queued ∷ leased ∷ running ∷ []) n

-- `ProductJobState[n]` is truthy: also for the inherited properties
unfoldable pub is_known : StateName → Bool
is_known (unknown s) = false
is_known _ = true

-- The `switch` on the state that is left.
unfoldable pub leaves_to : StateName → StateName → Bool
unfolding includes
leaves_to (named queued) to = includes (leased ∷ running ∷ cancelled ∷ timed_out ∷ failed ∷ []) to
leaves_to (named leased) to = includes (running ∷ queued ∷ cancelled ∷ timed_out ∷ failed ∷ []) to
leaves_to (named running) to =
    includes (succeeded ∷ failed ∷ timed_out ∷ cancelled ∷ queued ∷ []) to
leaves_to _ to = false

unfoldable pub is_valid_product_transition : StateName → StateName → Bool
unfolding is_known same_name is_terminal leaves_to
is_valid_product_transition from to =
    if not (is_known from) || not (is_known to)
    then false
    else if same_name from to
    then true
    else if is_terminal from
    then false
    else leaves_to from to

-- `assertValidTransition`: throws with the code `ILLEGAL_STATE_TRANSITION`, or returns.
pub data Assertion : Type 0 where
  passed : Assertion
  illegal_state_transition : StateName → StateName → Assertion

unfoldable pub assert_valid_transition : StateName → StateName → Assertion
unfolding is_valid_product_transition
assert_valid_transition from to =
    if not (is_valid_product_transition from to) then illegal_state_transition from to else passed

-- A name that is no state is never part of a transition.
pub unknown-refused :
    (s : String) (n : StateName)
    → (is_valid_product_transition (unknown s) n ≡ false)
      × (is_valid_product_transition n (unknown s) ≡ false)
unfolding is_valid_product_transition
unknown-refused s n = ground arith

-- Every state of the product is either terminal, or active and cancellable, and never both.
pub active_xor_terminal :
    (s : ProductState)
    → (is_active (named s) ≡ not (is_terminal (named s)))
      × (is_cancellable (named s) ≡ is_active (named s))
unfolding is_terminal is_active is_cancellable
active_xor_terminal s = ground arith
