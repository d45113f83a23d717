-- ===== src/Queue/History.antt =====
-- How the jobs of packages/queue/src/in-memory-queue.js change: along legal transitions, and not at
-- all once they are finished.
use valax_wearedevs_deobfusc.Prelude.{
  ◌≡◌, sym, ap, ◌∙◌, subst, String, true, false, Option, none, some, arith, text_discrete,
}
use valax_wearedevs_deobfusc.Prelude.Dict
use valax_wearedevs_deobfusc.Prelude.Dict.{Dict, text_key, get-set_self, get-set_ne}
use valax_wearedevs_deobfusc.Jobs.Legal.{
  JobState, queued, running, same_state, is_terminal, is_valid_transition, Reaches, here, next,
}
use valax_wearedevs_deobfusc.Queue.Defs.{Job, Queue}

pub Reaches-trans : {s t u : JobState} → Reaches s t → Reaches t u → Reaches s u
Reaches-trans r here = r
Reaches-trans r (next p h) = next (Reaches-trans r p) h

once : {s t : JobState} → is_valid_transition s t ≡ true → Reaches s t
once h = next here h

pub running-nonterminal : (s : JobState) → same_state s running ≡ true → is_terminal s ≡ false
unfolding is_terminal same_state
running-nonterminal s h = ground arith

pub queued-nonterminal : (s : JobState) → same_state s queued ≡ true → is_terminal s ≡ false
unfolding is_terminal same_state
queued-nonterminal s h = ground arith

same_state→eq : (s t : JobState) → same_state s t ≡ true → s ≡ t
unfolding same_state
same_state→eq s t h = ground arith

-- A step that is legal for a state, from a value that tests equal to that state.
pub step_from :
    (s t u : JobState) → same_state s t ≡ true → is_valid_transition t u ≡ true → Reaches s u
step_from s t u h k = rw (same_state→eq s t h) (once k)

module _ {J : Type 0} where
  -- What may become of a job: it is new, it stays as it is, or it was not finished and went on
  -- along legal transitions.
  pub data Follows (a b : Option (Job J)) : Type 0 where
    born : a ≡ none → Follows a b
    same : b ≡ a → Follows a b
    advances :
        (j k : Job J)
        → a ≡ some j
        → b ≡ some k
        → is_terminal j.state ≡ false
        → Reaches j.state k.state
        → Follows a b

  pub Follows-trans : (a b c : Option (Job J)) → Follows a b → Follows b c → Follows a c
  Follows-trans a b c (born e) g = born e
  Follows-trans a b c (same e) (born n) = born (sym e ∙ n)
  Follows-trans a b c (same e) (same f) = same (f ∙ e)
  Follows-trans a b c (same e) (advances j k p q t r) = advances j k (sym e ∙ p) q t r
  Follows-trans a b c (advances j k p q t r) (born n) = absurd (cc (sym q ∙ n))
  Follows-trans a b c (advances j k p q t r) (same f) = advances j k p (f ∙ q) t r
  Follows-trans a b c (advances j k p q t r) (advances j' k' p' q' t' r') = advances j k' p q' t (
      Reaches-trans r
        (subst (λ (o : JobState). Reaches o k'.state) (state_eq j' k (sym p' ∙ q)) r'))
    where
      state_eq : (x y : Job J) → some x ≡ some y → x.state ≡ y.state
      state_eq x y e = ground arith

  -- Every job of one queue, and what became of it in another.
  abbrev pub Followed : Queue J → Queue J → Type 0
  Followed q r = (id : String) → Follows (Dict.get id q.jobs) (Dict.get id r.jobs)

  pub Followed-trans : (q r s : Queue J) → Followed q r → Followed r s → Followed q s
  Followed-trans q r s f g = λ id. Follows-trans _ (Dict.get id r.jobs) _ (f id) (g id)

  pub Follows-set :
      (id k : String) (old job : Job J) (jobs : Dict String (Job J))
      → Dict.get id jobs ≡ some old
      → is_terminal old.state ≡ false
      → Reaches old.state job.state
      → Follows (Dict.get k jobs) (Dict.get k (Dict.set id job jobs))
  Follows-set id k old job jobs e t r = elim (text_discrete id k) [
    | yes p ↦
        advances old job (ap (λ i. Dict.get i jobs) (sym p) ∙ e) (get-set_self id k job jobs p) t r
    | no p ↦ same (get-set_ne id k job jobs p)
  ]

  pub Follows-set_new :
      (id k : String) (job : Job J) (jobs : Dict String (Job J))
      → Dict.get id jobs ≡ none
      → Follows (Dict.get k jobs) (Dict.get k (Dict.set id job jobs))
  Follows-set_new id k job jobs e = elim (text_discrete id k) [
    | yes p ↦ born (ap (λ i. Dict.get i jobs) (sym p) ∙ e)
    | no p ↦ same (get-set_ne id k job jobs p)
  ]
