-- ===== src/Orchestrator/Attempts.antt =====
-- internal/orchestrator/execution.go, `runChild`: the outcome that is kept, and the number of
-- spawns.
use koios.Prelude.{
  ℕ, zero, suc, ◌+◌, ◌≤◌, ◌<◌, ◌-◌, nat_eqb, nat_eqb_iff, subst, ap, sym, ◌∙◌, ◌≡◌, ◌⊎◌, inl, inr,
  refl, arith, max, true, false, Option, none, some, Bool-cases,
}
use koios.Orchestrator.Types.{SpawnTask, ChildTask, ChildOutcome, FanOutRequest}
use koios.Orchestrator.Child.{
  is_completed, Attempt, only_arrival, Progress, run_attempt, run_attempts, run_fallback, run_tries,
  effective_retry, no_progress, no_outcome,
}

-- The outcome of the `i`-th attempt, without copies.
abbrev pub outcome_of : (ℕ → Attempt) → ℕ → ChildOutcome
outcome_of env i = only_arrival (env i).arrivals

-- The attempts from `i` on, `n` of them, fail.
abbrev pub AllFail : (ℕ → Attempt) → ℕ → ℕ → Type 0
AllFail env i n = (j : ℕ) → i ≤ j → j < i + n → is_completed (outcome_of env j) ≡ false

after_failure : (ℕ → Attempt) → ℕ → Progress → Progress
after_failure env i p = record p {
  last_outcome = outcome_of env i;
  succeeded = false;
  attempts = suc p.attempts;
}

run_attempts-fail :
    (backoff : ℕ) (env : ℕ → Attempt) (i left : ℕ) (p : Progress)
    → p.succeeded ≡ false
    → (env i).stopped ≡ false
    → is_completed (outcome_of env i) ≡ false
    → run_attempts backoff 1 env i (suc left) p
      ≡ run_attempts backoff 1 env (suc i) left (after_failure env i p)
unfolding run_attempts run_attempt after_failure
run_attempts-fail backoff env i left p hs hr hc = ground arith

run_attempts-success :
    (backoff : ℕ) (env : ℕ → Attempt) (i left : ℕ) (p : Progress)
    → p.succeeded ≡ false
    → (env i).stopped ≡ false
    → is_completed (outcome_of env i) ≡ true
    → run_attempts backoff 1 env i (suc left) p
      ≡ some (record p {
        last_outcome = outcome_of env i;
        succeeded = true;
        attempts = suc p.attempts;
      })
unfolding run_attempts run_attempt
run_attempts-success backoff env i zero p hs hr hc = ground arith
run_attempts-success backoff env i (suc left) p hs hr hc = ground arith

AllFail-cons :
    (env : ℕ → Attempt) (i n : ℕ)
    → is_completed (outcome_of env i) ≡ false
    → AllFail env (suc i) n
    → AllFail env i (suc n)
AllFail-cons env i n h f = λ j lo hi. elim (Bool-cases (nat_eqb i j)) [
  | inl e ↦ subst (λ x. is_completed (outcome_of env x) ≡ false) ((nat_eqb_iff i j).0 e) h
  | inr e ↦ f j (ground (arith, nat_eqb_iff i j)) (omega arith)
]

-- The last outcome after `n` attempts from `i` on, that is `before` without any.
abbrev last_of : (ℕ → Attempt) → ℕ → ℕ → ChildOutcome → ChildOutcome
last_of env i zero before = before
last_of env i (suc n) before = outcome_of env (i + n)

last_of-suc :
    (env : ℕ → Attempt) (i n : ℕ)
    → last_of env (suc i) n (outcome_of env i) ≡ outcome_of env (i + n)
last_of-suc env i zero = let e : i + 0 ≡ i = omega arith in rw e refl
last_of-suc env i (suc n) = let e : i + suc n ≡ suc i + n = omega arith in rw e refl

-- The loop ends with the first success, the `k`-th attempt from here, or without one.
abbrev LoopEnds : ℕ → (ℕ → Attempt) → ℕ → ℕ → Progress → Type 0
LoopEnds backoff env i left p =
    ((k : ℕ) × (k < left)
      × AllFail env i k
      × (is_completed (outcome_of env (i + k)) ≡ true)
      × (run_attempts backoff 1 env i left p
          ≡ some (record p {
            last_outcome = outcome_of env (i + k);
            succeeded = true;
            attempts = p.attempts + suc k;
          })))
    ⊎ (AllFail env i left
        × (run_attempts backoff 1 env i left p
            ≡ some (record p {
              last_outcome = last_of env i left p.last_outcome;
              succeeded = false;
              attempts = p.attempts + left;
            })))

run_attempts_cases :
    (backoff : ℕ) (env : ℕ → Attempt) (i left : ℕ) (p : Progress)
    → ((j : ℕ) → (env j).stopped ≡ false)
    → p.succeeded ≡ false
    → LoopEnds backoff env i left p
unfolding run_attempts after_failure
run_attempts_cases backoff env i zero p hr hs = inr (
  λ j lo hi. absurd (omega arith),
  let e : p.attempts + 0 ≡ p.attempts = omega arith in rw (e, sym hs) refl,
)
run_attempts_cases backoff env i (suc left) p hr hs =
    elim (Bool-cases (is_completed (outcome_of env i))) [
      | inl c ↦ inl (
        0,
        omega arith,
        λ j lo hi. absurd (omega arith),
        let e : i + 0 ≡ i = omega arith in rw e c,
        let e : i + 0 ≡ i = omega arith in
            let a : p.attempts + 1 ≡ suc p.attempts = omega arith in
            rw (e, a) (run_attempts-success backoff env i left p hs (hr i) c),
      )
      | inr c ↦ elim (run_attempts_cases backoff env (suc i) left (after_failure env i p) hr refl) [
        | inl (k, l, f, t, e) ↦ inl (
          suc k,
          omega arith,
          AllFail-cons env i k c f,
          let a : i + suc k ≡ suc i + k = omega arith in rw a t,
          let a : i + suc k ≡ suc i + k = omega arith in
              let b : p.attempts + suc (suc k) ≡ suc p.attempts + suc k = omega arith in
              rw (a, b) (run_attempts-fail backoff env i left p hs (hr i) c ∙ e),
        )
        | inr (f, e) ↦ inr (
          AllFail-cons env i left c f,
          let b : p.attempts + suc left ≡ suc p.attempts + left = omega arith in
              rw b (
                run_attempts-fail backoff env i left p hs (hr i) c
                ∙ (rw (sym (last_of-suc env i left)) e)),
        )
      ]
    ]

effective_retry_positive :
    (task : ChildTask) (req : FanOutRequest) → 0 < (effective_retry task req).max_attempts
unfolding effective_retry
effective_retry_positive task req = ground arith

last_of_positive :
    (env : ℕ → Attempt) (n : ℕ) (o : ChildOutcome)
    → 0 < n
    → last_of env 0 n o ≡ outcome_of env (n - 1)
last_of_positive env zero o h = ground arith
last_of_positive env (suc n) o h =
    let e : suc n - 1 ≡ n = omega arith in let z : 0 + n ≡ n = omega arith in rw (e, z) refl

max_one : (h : ℕ) → h ≤ 1 → max h 1 ≡ 1
max_one h l = omega arith

run_tries-run_attempts :
    (req : FanOutRequest) (task : ChildTask) (env : ℕ → Attempt) (fallback : ChildOutcome)
    (p : Progress)
    → task.hedge_count ≤ 1
    → run_attempts
        (effective_retry task req).backoff_base
        1
        env
        0
        (effective_retry task req).max_attempts
        no_progress
      ≡ some p
    → run_tries req task env fallback ≡ some (run_fallback task.fallback_task fallback p)
unfolding run_tries
run_tries-run_attempts req task env fallback p h e = ground (arith, max_one task.hedge_count h)

run_fallback_succeeded :
    (t : Option SpawnTask) (o : ChildOutcome) (p : Progress)
    → p.succeeded ≡ true
    → run_fallback t o p ≡ p
unfolding run_fallback
run_fallback_succeeded none o p h = refl
run_fallback_succeeded (some t) o p h = ground arith

-- The fallback follows a loop in which no attempt succeeded.
run_fallback_failed :
    (t : Option SpawnTask) (o : ChildOutcome) (p : Progress)
    → p.succeeded ≡ false
    → p.stopped ≡ false
    → run_fallback t o p ≡ record p {
      last_outcome = elim t [ none ↦ p.last_outcome | some task ↦ o ];
      attempts = elim t [ none ↦ p.attempts | some task ↦ suc p.attempts ];
    }
unfolding run_fallback
run_fallback_failed none o p h k = refl
run_fallback_failed (some t) o p h k = ground arith

-- A task without copies, in a run that is not stopped during a wait, ends with its first success, on
-- which no fallback follows. If each of its `n` attempts fails, its last outcome is that of its
-- fallback task, which counts as one more attempt, or without one that of the last attempt.
pub run_tries_lem :
    (req : FanOutRequest) (task : ChildTask) (env : ℕ → Attempt) (fallback : ChildOutcome)
    → task.hedge_count ≤ 1
    → ((j : ℕ) → (env j).stopped ≡ false)
    → let n = (effective_retry task req).max_attempts in
      ((k : ℕ) × (k < n)
        × AllFail env 0 k
        × (is_completed (outcome_of env k) ≡ true)
        × (run_tries req task env fallback
            ≡ some record {
              last_outcome = outcome_of env k;
              succeeded = true;
              attempts = suc k;
              stopped = false;
            }))
      ⊎ (AllFail env 0 n
          × (run_tries req task env fallback
              ≡ some record {
                last_outcome = elim task.fallback_task [
                  | none ↦ outcome_of env (n - 1)
                  | some t ↦ fallback
                ];
                succeeded = false;
                attempts = elim task.fallback_task [ none ↦ n | some t ↦ suc n ];
                stopped = false;
              }))
run_tries_lem req task env fallback h hr =
    let retry = effective_retry task req in
    elim (run_attempts_cases retry.backoff_base env 0 retry.max_attempts no_progress hr refl) [
      | inl (k, l, f, t, e) ↦
          let z : 0 + k ≡ k = omega arith in
          let y : 0 + suc k ≡ suc k = omega arith in
          let q : Progress = record {
            last_outcome = outcome_of env (0 + k);
            succeeded = true;
            attempts = 0 + suc k;
            stopped = false;
          } in
          let r = run_tries-run_attempts req task env fallback q h e in
          inl (
            k,
            l,
            f,
            subst (λ x. is_completed (outcome_of env x) ≡ true) z t,
            r
                ∙ ap some
                    (run_fallback_succeeded task.fallback_task fallback q refl ∙ rw (z, y) refl),
          )
      | inr (f, e) ↦
          let y : 0 + retry.max_attempts ≡ retry.max_attempts = omega arith in
          let r = run_tries-run_attempts req task env fallback _ h e in
          let p : Progress = record {
            last_outcome = outcome_of env (retry.max_attempts - 1);
            succeeded = false;
            attempts = retry.max_attempts;
            stopped = false;
          } in
          let q : run_tries req task env fallback
              ≡ some (run_fallback task.fallback_task fallback p) =
            r
            ∙ rw
                (
                  y,
                  last_of_positive env retry.max_attempts no_outcome
                      (effective_retry_positive task req),
                )
                refl in
          inr (f, q ∙ ap some (run_fallback_failed task.fallback_task fallback p refl refl))
    ]
