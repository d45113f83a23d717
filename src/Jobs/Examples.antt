-- ===== src/Jobs/Examples.antt =====
-- Tests and instances for the two machines of job states.
use valax_wearedevs_deobfusc.Prelude.{◌≡◌, refl, ◌↔◌, ◌⊎◌, true}
use valax_wearedevs_deobfusc.Jobs.Legal.{
  queued, running, completed, failed, here, next, Allowed, is_valid_transition, transition-Allowed,
  Reaches-terminal, is_terminal,
}
use valax_wearedevs_deobfusc.Jobs.Product
use valax_wearedevs_deobfusc.Jobs.Product.{
  ProductState, StateName, named, inherited, unknown, is_valid_product_transition,
  assert_valid_transition, illegal_state_transition, unknown-refused, active_xor_terminal,
}
use valax_wearedevs_deobfusc.Jobs.Simulation.{shown, shown_step, shown-is_terminal}

-- A name that every object inherits passes as a transition to itself.
inherited_accepted :
    is_valid_product_transition (inherited "toString") (inherited "toString") ≡ true
unfolding is_valid_product_transition
inherited_accepted = refl

assert_refuses :
    assert_valid_transition (named ProductState.succeeded) (named ProductState.queued)
    ≡ illegal_state_transition (named ProductState.succeeded) (named ProductState.queued)
unfolding assert_valid_transition
assert_refuses = refl

transition-Allowed_example :
    (is_valid_transition queued completed ≡ true)
    ↔ ((queued ≡ completed) ⊎ Allowed queued completed)
transition-Allowed_example = transition-Allowed queued completed

Reaches-terminal_example : failed ≡ failed
unfolding is_valid_transition
Reaches-terminal_example = Reaches-terminal {s = failed} {t = failed} refl (next here refl)

shown_step_example : is_valid_product_transition (shown running) (shown queued) ≡ true
unfolding is_valid_transition
shown_step_example = shown_step running queued refl

shown-is_terminal_example : Product.is_terminal (shown failed) ≡ is_terminal failed
shown-is_terminal_example = shown-is_terminal failed
