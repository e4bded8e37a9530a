-- ===== src/Orchestrator/Unstuck.antt =====
-- internal/orchestrator/execution.go, `runDAGWave`: a wave of tasks without a cycle never waits for a
-- task that nothing will make ready.
use koios.Prelude.{
  ℕ, zero, suc, ◌≤◌, ◌<◌, ◌≡◌, inl, inr, refl, ap, sym, subst, ◌∙◌, arith, Bool, true, false, some,
  List, [], ◌∷◌, nat_eqb, nat_eqb_iff, lt→ltb, Bool-cases, List-cases, if◌then◌else◌, length,
  is_empty,
}
use koios.Orchestrator.Types.{ChildResult}
use koios.Orchestrator.Cycle.{detect_cycle}
use koios.Orchestrator.Graph.{has, Edge, IsTopological}
use koios.Orchestrator.Neighbours.{InRange}
use koios.Orchestrator.Verdict.{detect_cycle_order}
use koios.Orchestrator.Wave.{
  Plan, Wave, new_wave, is_launching, launch, WaveEvent, run_wave, remove_one,
}
use koios.Orchestrator.Wait.{stage_wait_satisfied}
use koios.Orchestrator.Released.{occ, pending, occ_nil, occ-remove_one, length-remove_one}
use koios.Orchestrator.Ordered.{IsOrdered, run_wave-IsOrdered, new_wave-IsOrdered, deps_of}

-- A list in which each number below `n` stands has `n` entries or more.
length_at_least : (n : ℕ) (xs : List ℕ) → ((v : ℕ) → v < n → 0 < occ v xs) → n ≤ length xs
length_at_least zero xs h = omega arith
length_at_least (suc n) xs h =
    let l : 0 < occ n xs = h n (omega arith) in
    let rest =
      length_at_least n (remove_one n xs)
        (λ v lv. ground (arith, h v, occ-remove_one n v xs l, nat_eqb_iff n v)) in
    omega (arith, length-remove_one n xs l)

has-occ : (w : ℕ) (xs : List ℕ) → (0 < occ w xs) → has w xs ≡ true
has-occ w [] h = ground arith
has-occ w (x ∷ xs) h = ground (arith, has-occ w xs, nat_eqb_iff w x, nat_eqb_iff x w)

pending_met :
    (ds finished : List ℕ) → ((d : ℕ) → 0 < occ d ds → 0 < occ d finished) → pending ds finished ≡ 0
pending_met [] finished h = refl
pending_met (d ∷ ds) finished h =
    let rest = pending_met ds finished (λ x l. h x (ground arith)) in
    ground (arith, h d, nat_eqb_iff d d)

module _ (plan : Plan) (w : Wave) where
  all_begun :
      (order : List ℕ)
      → InRange plan.adj (length plan.adj)
      → IsTopological plan.adj order
      → IsOrdered plan w
      → w.aborted ≡ false
      → w.active ≡ []
      → w.ready ≡ []
      → (v : ℕ) → v < length plan.adj
      → has v order ≡ true
      → 0 < occ v w.begun
  all_begun [] rg t o na ea er v l h = cc
  all_begun (x ∷ order) rg (e, n, t) o na ea er v l h = elim (Bool-cases (nat_eqb x v)) [
    | inr q ↦ all_begun order rg t o na ea er v l (ground arith)
    | inl q ↦
        let xv : x ≡ v = (nat_eqb_iff x v).0 q in
        let (p, u, r, s, a, c) = o in
        let met : pending (deps_of plan v) w.finished ≡ 0 =
          pending_met (deps_of plan v) w.finished (λ d dl.
            let g : Edge plan.adj v d = has-occ d (deps_of plan v) dl in
            let b =
              all_begun order rg t o na ea er d (rg v d g)
                (e d (subst (λ y. Edge plan.adj y d) (sym xv) g)) in
            omega (arith, a d, occ_nil d w.active (ap is_empty ea))) in
        omega (arith, s na v l (p v ∙ met), occ_nil v w.ready (ap is_empty er))
  ]

abbrev after_launch : Plan → Wave → ℕ → List ℕ → Wave
after_launch plan w i rest =
    if stage_wait_satisfied w.children plan.wait_policy
    then record w { ready = rest; stopped = true; aborted = true }
    else record w { ready = rest; begun = i ∷ w.begun; active = i ∷ w.active }

launch_ready :
    (plan : Plan) (w : Wave) (i : ℕ) (rest : List ℕ)
    → is_launching plan w ≡ true
    → length w.active < plan.capacity
    → w.ready ≡ i ∷ rest
    → launch plan w ≡ some (after_launch plan w i rest)
unfolding launch
launch_ready plan w i rest l c e = ground (arith, lt→ltb (length w.active) plan.capacity)

-- A wave whose tasks depend on tasks of the wave, without a cycle, is never stuck: while it is
-- launching and none of its tasks is active, and the semaphore has a slot, it has a task that is
-- ready, to launch or to end the launching with if the policy is met.
pub run_wave_unstuck :
    (plan : Plan) (cs : List ChildResult) (stopped : Bool) (es : List WaveEvent) (w : Wave)
    → InRange plan.adj (length plan.adj)
    → detect_cycle (length plan.adj) plan.adj ≡ false
    → 0 < plan.capacity
    → run_wave plan es (new_wave plan cs stopped) ≡ some w
    → is_launching plan w ≡ true
    → w.active ≡ []
    → (v : Wave) × (launch plan w ≡ some v)
unfolding is_launching
run_wave_unstuck plan cs stopped es w rg nc cp h la ea =
    let o =
      run_wave-IsOrdered plan es (new_wave plan cs stopped) w h
        (new_wave-IsOrdered plan cs stopped) in
    let (order, t, all) = detect_cycle_order plan.adj (length plan.adj) rg nc in
    elim (List-cases w.ready) [
      | inl e ↦
          let m =
            length_at_least (length plan.adj) w.begun
              (λ v l. all_begun plan w order rg t o (ground arith) ea e v l (all v l)) in
          absurd (ground arith)
      | inr (i, rest, e) ↦
          let z : length w.active ≡ 0 = ap length ea in
          (after_launch plan w i rest, launch_ready plan w i rest la (omega arith) e)
    ]
