-- ===== src/Orchestrator/Watched.antt =====
-- internal/orchestrator: what a wave whose policy is not to wait for all children leaves to its stage.
use koios.Prelude.{
  ℕ, suc, ◌+◌, ◌≤◌, ◌<◌, ◌≡◌, inl, inr, sym, subst, ◌∙◌, arith, Bool, true, false, not, ◌&&◌, some,
  List, [], ◌∷◌, ltb, leb, nat_eqb_iff, Bool-cases, Option-cases, List-cases, length,
}
use koios.Orchestrator.Types.{ChildResult}
use koios.Orchestrator.Wait.{stage_wait_satisfied, total_steps}
use koios.Orchestrator.Wave.{
  Plan, Wave, new_wave, is_launching, launch, finish_child, is_wait_all, check_budget, check_policy,
  collect_one, launch_next, give_up, finish, collect, stop, WaveEvent, wave_step, run_wave, is_over,
}
use koios.Orchestrator.Released.{occ, occ_nil, occ_le_length}
use koios.Orchestrator.Ordered.{run_wave_order}

module _ (plan : Plan) where
  abbrev pub IsWatched : Wave → Type 0
  IsWatched w =
      (w.collected ≤ length w.finished)
      × (w.budget_exceeded ≡ true → w.stopped ≡ true)
      × (w.aborted ≡ true → w.stopped ≡ true)
      × (w.stopped ≡ false
          → 0 < w.collected
          → w.collected ≡ length w.finished
          → stage_wait_satisfied w.children plan.wait_policy ≡ false)

  launch-IsWatched : (w v : Wave) → launch plan w ≡ some v → IsWatched w → IsWatched v
  unfolding launch
  launch-IsWatched w v h o =
      ground
        (arith, Bool-cases (stage_wait_satisfied w.children plan.wait_policy), List-cases w.ready)

  finish_child-IsWatched :
      (i : ℕ) (x : ChildResult) (w v : Wave)
      → finish_child plan i x w ≡ some v
      → IsWatched w
      → IsWatched v
  unfolding finish_child
  finish_child-IsWatched i x w v h o = ground arith

  -- What a check leaves as it is.
  abbrev Checked : Wave → Wave → Type 0
  Checked w v =
      (v.collected ≡ w.collected)
      × (v.finished ≡ w.finished)
      × (v.children ≡ w.children)
      × (v.aborted ≡ w.aborted)
      × (w.stopped ≡ true → v.stopped ≡ true)

  check_budget_lem :
      (w : Wave)
      → (w.budget_exceeded ≡ true → w.stopped ≡ true)
      → Checked w (check_budget plan w)
        × ((check_budget plan w).budget_exceeded ≡ true → (check_budget plan w).stopped ≡ true)
  unfolding check_budget
  check_budget_lem w h = ground (
    arith,
    Bool-cases (
        ltb 0 plan.max_steps
        && not w.budget_exceeded
        && leb plan.max_steps (plan.prior_steps + total_steps w.children)),
  )

  check_policy_lem :
      (w : Wave)
      → is_wait_all plan.wait_policy ≡ false
      → (w.budget_exceeded ≡ true → w.stopped ≡ true)
      → Checked w (check_policy plan w)
        × ((check_policy plan w).budget_exceeded ≡ true → (check_policy plan w).stopped ≡ true)
        × ((check_policy plan w).stopped ≡ false
            → stage_wait_satisfied w.children plan.wait_policy ≡ false)
  unfolding check_policy
  check_policy_lem w pa h = ground (
    arith,
    Bool-cases w.budget_exceeded,
    Bool-cases (stage_wait_satisfied w.children plan.wait_policy),
  )

  IsWatched-Checked :
      (u c v : Wave)
      → u.collected ≤ length u.finished
      → (u.aborted ≡ true → u.stopped ≡ true)
      → Checked u c
      → Checked c v
      → (v.budget_exceeded ≡ true → v.stopped ≡ true)
      → (v.stopped ≡ false → stage_wait_satisfied c.children plan.wait_policy ≡ false)
      → IsWatched v
  IsWatched-Checked u c v l ab (k0, k1, k2, k3, k4) (m0, m1, m2, m3, m4) b st =
      (rw (m0, k0, m1, k1) l, b, λ h. m4 (k4 (ab (sym k3 ∙ (sym m3 ∙ h)))), λ h p q. rw m2 (st h))

  collect_one-IsWatched :
      (w v : Wave)
      → is_wait_all plan.wait_policy ≡ false
      → collect_one plan w ≡ some v
      → IsWatched w
      → IsWatched v
  unfolding collect_one
  collect_one-IsWatched w v pa h (l, b, ab, st) =
      let u : Wave = record w { collected = suc w.collected } in
      let (k, kb) = check_budget_lem u b in
      let (m, mb, ms) = check_policy_lem (check_budget plan u) pa kb in
      let q : check_policy plan (check_budget plan u) ≡ v = ground arith in
      subst IsWatched q (
        IsWatched-Checked u (check_budget plan u) (check_policy plan (check_budget plan u))
          (ground arith) ab k m mb ms)

  wave_step-IsWatched :
      (e : WaveEvent) (w v : Wave)
      → is_wait_all plan.wait_policy ≡ false
      → wave_step plan e w ≡ some v
      → IsWatched w
      → IsWatched v
  unfolding wave_step
  wave_step-IsWatched launch_next w v pa h o = launch-IsWatched w v h o
  wave_step-IsWatched give_up w v pa h (l, b, ab, st) = ground arith
  wave_step-IsWatched (finish i x) w v pa h o = finish_child-IsWatched i x w v h o
  wave_step-IsWatched collect w v pa h o = collect_one-IsWatched w v pa h o
  wave_step-IsWatched stop w v pa h (l, b, ab, st) = ground arith

  run_wave-IsWatched :
      (es : List WaveEvent) (w v : Wave)
      → is_wait_all plan.wait_policy ≡ false
      → run_wave plan es w ≡ some v
      → IsWatched w
      → IsWatched v
  unfolding run_wave
  run_wave-IsWatched [] w v pa h o = let q : w ≡ v = ground arith in subst IsWatched q o
  run_wave-IsWatched (e ∷ es) w v pa h o = elim (Option-cases (wave_step plan e w)) [
    | inl n ↦ absurd (ground arith)
    | inr (u, n) ↦ run_wave-IsWatched es u v pa (ground arith) (wave_step-IsWatched e w u pa n o)
  ]

  new_wave-IsWatched :
      (cs : List ChildResult) (stopped : Bool) → IsWatched (new_wave plan cs stopped)
  unfolding new_wave
  new_wave-IsWatched cs stopped = ground arith

  -- A wave of at least one task that ends without a stop leaves children that do not meet a policy
  -- other than to wait for all of them.
  pub wave_unmet :
      (cs : List ChildResult) (stopped : Bool) (es : List WaveEvent) (w : Wave)
      → 0 < length plan.adj
      → is_wait_all plan.wait_policy ≡ false
      → run_wave plan es (new_wave plan cs stopped) ≡ some w
      → is_over plan w ≡ true
      → w.stopped ≡ false
      → stage_wait_satisfied w.children plan.wait_policy ≡ false
  unfolding is_over is_launching
  wave_unmet cs stopped es w n pa h ov st =
      let (l, b, ab, f) =
        run_wave-IsWatched es (new_wave plan cs stopped) w pa h (new_wave-IsWatched cs stopped) in
      let (q, d, a, c) = run_wave_order plan cs stopped es w h in
      elim (List-cases w.begun) [
        | inl e ↦ absurd (ground arith)
        | inr (x, xs, e) ↦
            let p : 0 < occ x w.begun = rw e (ground (arith, nat_eqb_iff x x)) in
            let y : occ x w.active ≡ 0 = occ_nil x w.active (ground arith) in
            let z : 0 < length w.finished = omega (arith, a x, occ_le_length x w.finished) in
            let m : w.collected ≡ length w.finished =
              ground (arith, nat_eqb_iff w.collected (length w.finished)) in
            f st (omega arith) m
      ]
