-- ===== src/Jobs/Legal.antt =====
-- packages/queue/src/types.js: the states of a queued job, and the legal transitions.
use valax_wearedevs_deobfusc.Prelude.{
  ◌≡◌, refl, ◌∙◌, ◌↔◌, ◌⊎◌, inl, inr, subst, Bool, true, false, List, [], ◌∷◌, ◌||◌, arith,
  if◌then◌else◌,
}

pub data JobState : Type 0 where
  queued running completed failed cancelled timed_out resource_limit : JobState

-- `===` on states
unfoldable pub same_state : JobState → JobState → Bool
same_state queued queued = true
same_state running running = true
same_state completed completed = true
same_state failed failed = true
same_state cancelled cancelled = true
same_state timed_out timed_out = true
same_state resource_limit resource_limit = true
same_state _ _ = false

-- `[…].includes(s)`, and `has` of a set of states
unfoldable pub includes : List JobState → JobState → Bool
unfolding same_state
includes [] s = false
includes (x ∷ xs) s = same_state x s || includes xs s

abbrev terminal_states : List JobState
terminal_states = completed ∷ failed ∷ cancelled ∷ timed_out ∷ resource_limit ∷ []

unfoldable pub is_terminal : JobState → Bool
unfolding includes
is_terminal s = includes terminal_states s

unfoldable pub is_valid_transition : JobState → JobState → Bool
unfolding same_state is_terminal
is_valid_transition from to =
    if same_state from to
    then true
    else if is_terminal from
    then false
    else if same_state from queued
    then includes (running ∷ cancelled ∷ timed_out ∷ []) to
    else if same_state from running
    then includes (completed ∷ failed ∷ cancelled ∷ timed_out ∷ resource_limit ∷ queued ∷ []) to
    else false

-- The table in the source's comment, one constructor for each entry. It lists no step from a state to
-- itself.
pub data Allowed : JobState → JobState → Type 0 where
  leases : Allowed queued running
  withdraws : Allowed queued cancelled
  expires : Allowed queued timed_out
  succeeds : Allowed running completed
  fails : Allowed running failed
  aborts : Allowed running cancelled
  overruns : Allowed running timed_out
  exhausts : Allowed running resource_limit
  reclaims : Allowed running queued

Allowed-of_valid : (s t : JobState) → is_valid_transition s t ≡ true → (s ≡ t) ⊎ Allowed s t
unfolding is_valid_transition
Allowed-of_valid queued queued h = inl refl
Allowed-of_valid queued running h = inr leases
Allowed-of_valid queued cancelled h = inr withdraws
Allowed-of_valid queued timed_out h = inr expires
Allowed-of_valid running queued h = inr reclaims
Allowed-of_valid running running h = inl refl
Allowed-of_valid running completed h = inr succeeds
Allowed-of_valid running failed h = inr fails
Allowed-of_valid running cancelled h = inr aborts
Allowed-of_valid running timed_out h = inr overruns
Allowed-of_valid running resource_limit h = inr exhausts
Allowed-of_valid completed completed h = inl refl
Allowed-of_valid failed failed h = inl refl
Allowed-of_valid cancelled cancelled h = inl refl
Allowed-of_valid timed_out timed_out h = inl refl
Allowed-of_valid resource_limit resource_limit h = inl refl
Allowed-of_valid s t h = cc

pub transition_self : (s : JobState) → is_valid_transition s s ≡ true
unfolding is_valid_transition
transition_self queued = refl
transition_self _ = refl

valid_of_Allowed : (s t : JobState) → Allowed s t → is_valid_transition s t ≡ true
unfolding is_valid_transition
valid_of_Allowed s t leases = refl
valid_of_Allowed s t withdraws = refl
valid_of_Allowed s t expires = refl
valid_of_Allowed s t succeeds = refl
valid_of_Allowed s t fails = refl
valid_of_Allowed s t aborts = refl
valid_of_Allowed s t overruns = refl
valid_of_Allowed s t exhausts = refl
valid_of_Allowed s t reclaims = refl

-- `isValidTransition` accepts exactly the steps of the table in its comment, and each state as its
-- own successor, which the table does not list and for finished states excludes.
pub transition-Allowed :
    (s t : JobState) → (is_valid_transition s t ≡ true) ↔ ((s ≡ t) ⊎ Allowed s t)
transition-Allowed s t = (
  Allowed-of_valid s t,
  λ h. elim h [
    | inl e ↦ subst (λ u. is_valid_transition s u ≡ true) e (transition_self s)
    | inr a ↦ valid_of_Allowed s t a
  ],
)

-- A run of the machine.
pub data Reaches (s : JobState) : JobState → Type 0 where
  here : Reaches s s
  next : {t u : JobState} → Reaches s t → is_valid_transition t u ≡ true → Reaches s u

valid_from_terminal :
    (s t : JobState) → is_terminal s ≡ true → is_valid_transition s t ≡ true → t ≡ s
unfolding is_valid_transition
valid_from_terminal s t e h = ground arith

-- However long the run, it never leaves a terminal state.
pub Reaches-terminal : {s t : JobState} → is_terminal s ≡ true → Reaches s t → t ≡ s
Reaches-terminal e here = refl
Reaches-terminal {s} e (next {t = t} {u = u} r h) =
    let p = Reaches-terminal e r in valid_from_terminal t u (rw p e) h ∙ p
