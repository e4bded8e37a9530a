-- ===== src/Orchestrator/Hedged.antt =====
-- internal/orchestrator/execution.go, `runChildHedged`: the outcome that it returns.
use koios.Prelude.{
  ◌≡◌, refl, arith, Bool, true, Option, none, some, List, [], ◌∷◌, if◌then◌else◌, length,
  Option-cases,
}
use koios.Orchestrator.Types.{ChildOutcome}
use koios.Orchestrator.Child.{is_completed, elect, receive, run_child_hedged}

-- The first outcome that is a success.
pub first_success : List ChildOutcome → Option ChildOutcome
first_success [] = none
first_success (o ∷ os) = let rest = first_success os in if is_completed o then some o else rest

abbrev or_first : Option ChildOutcome → List ChildOutcome → Option ChildOutcome
or_first none os = first_success os
or_first (some w) os = some w

or_first-elect :
    (w : Option ChildOutcome) (o : ChildOutcome) (os : List ChildOutcome)
    → or_first (elect w o) os ≡ or_first w (o ∷ os)
unfolding elect first_success
or_first-elect none o os = ground arith
or_first-elect (some w) o os = refl

receive_all :
    (os : List ChildOutcome) (w : Option ChildOutcome)
    → receive (length os) os w ≡ some (or_first w os, [])
unfolding receive first_success
receive_all [] none = refl
receive_all [] (some w) = refl
receive_all (o ∷ os) w = rw (receive_all os (elect w o), or_first-elect w o os) refl

-- The successes among the outcomes, and what the hedged call makes of the first.
abbrev pub hedge_result : Option ChildOutcome → Option (ChildOutcome × Bool)
hedge_result none = none
hedge_result (some o) = some (o, true)

-- When each of its copies has sent an outcome, the hedged call returns the first success, marked as
-- one; without a success it does not return.
pub run_child_hedged_lem :
    (os : List ChildOutcome) → run_child_hedged (length os) os ≡ hedge_result (first_success os)
unfolding run_child_hedged
run_child_hedged_lem os = ground (arith, receive_all os none, Option-cases (first_success os))
