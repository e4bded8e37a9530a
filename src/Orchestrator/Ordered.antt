-- ===== src/Orchestrator/Ordered.antt =====
-- internal/orchestrator/execution.go, `runDAGWave`: the order in which the tasks are launched.
use koios.Prelude.{
  ℕ, zero, suc, ◌+◌, ◌≤◌, ◌<◌, ◌≡◌, ◌⊎◌, inl, inr, refl, ap, sym, subst, ◌∙◌, arith, Bool, true,
  false, some, List, [], ◌∷◌, map, ltb, nat_eqb_iff, ltb→lt, Bool-cases, Option-cases, List-cases,
  if◌then◌else◌, length, length-map, get_or, set,
}
use koios.Orchestrator.Types.{ChildResult}
use koios.Orchestrator.Wave.{
  Plan, Wave, dependents, new_wave, release, remove_one, launch, finish_child, check_budget,
  check_policy, collect_one, launch_next, give_up, finish, collect, stop, WaveEvent, wave_step,
  run_wave,
}
use koios.Orchestrator.Wait.{stage_wait_satisfied}
use koios.Orchestrator.Released.{
  occ, pending, occ-remove_one, length-remove_one, pending-cons, pending-nil, pending_none,
  occ-dependents, occ-initially_ready, release_lem,
}

dep_index : (adj : List (List ℕ)) (i k : ℕ) → 0 < occ i (get_or adj k []) → k < length adj
dep_index [] i k h = ground arith
dep_index (ds ∷ adj) i zero h = ground arith
dep_index (ds ∷ adj) i (suc k) h = ground (arith, dep_index adj i k)

get_or-map-length :
    (adj : List (List ℕ)) (i : ℕ) → get_or (map length adj) i 0 ≡ length (get_or adj i [])
get_or-map-length [] i = refl
get_or-map-length (ds ∷ adj) zero = refl
get_or-map-length (ds ∷ adj) (suc i) = get_or-map-length adj i

get_or_default :
    (us : List ℕ) (i : ℕ)
    → ((i < length us) × (get_or us i 1 ≡ get_or us i 0))
      ⊎ ((length us ≤ i) × (get_or us i 1 ≡ 1) × (get_or us i 0 ≡ 0))
get_or_default [] i = inr (ground arith, refl, refl)
get_or_default (u ∷ us) zero = inl (ground arith, refl)
get_or_default (u ∷ us) (suc i) = elim (get_or_default us i) [
  | inl (l, e) ↦ inl (ground arith, e)
  | inr (l, e, f) ↦ inr (ground arith, e, f)
]

if_both {ℓ κ} :
    {A : Type ℓ} (P : A → Type κ) (b : Bool) (x y : A) → P x → P y → P (if b then x else y)
if_both P true x y p q = p
if_both P false x y p q = q

module _ (plan : Plan) where
  abbrev pub deps_of : ℕ → List ℕ
  deps_of i = get_or plan.adj i []

  -- The counts of unmet dependencies are right; a task is ready or launched once at most, and only
  -- if none of its dependencies is unmet, and it is so unless the launching ended; the tasks launched
  -- are active or finished; the semaphore bounds the active ones.
  abbrev pub IsOrdered : Wave → Type 0
  IsOrdered w =
      ((i : ℕ) → get_or w.unmet i 0 ≡ pending (deps_of i) w.finished)
      × ((i : ℕ) → occ i w.ready + occ i w.begun ≤ 1)
      × ((i : ℕ)
          → 0 < occ i w.ready + occ i w.begun
          → (i < length plan.adj) × (get_or w.unmet i 0 ≡ 0))
      × (w.aborted ≡ false
          → (i : ℕ) → i < length plan.adj
          → get_or w.unmet i 0 ≡ 0
          → occ i w.ready + occ i w.begun ≡ 1)
      × ((i : ℕ) → occ i w.active + occ i w.finished ≡ occ i w.begun)
      × (length w.active ≤ plan.capacity)

  launched-IsOrdered :
      (w : Wave) (i : ℕ) (rest : List ℕ)
      → w.ready ≡ i ∷ rest
      → length w.active < plan.capacity
      → IsOrdered w
      → IsOrdered (record w { ready = rest; begun = i ∷ w.begun; active = i ∷ w.active })
  launched-IsOrdered w i rest e l (p, q, r, s, a, c) =
      let o : (k : ℕ) → occ k w.ready ≡ occ k (i ∷ rest) = λ k. ap (occ k) e in
      (
        p,
        λ k. ground (arith, o k, q k),
        λ k h. r k (ground (arith, o k)),
        λ h k lk u. let t = s h k lk u in ground (arith, o k),
        λ k. ground (arith, a k),
        omega arith,
      )

  ended-IsOrdered :
      (w : Wave) (i : ℕ) (rest : List ℕ)
      → w.ready ≡ i ∷ rest
      → IsOrdered w
      → IsOrdered (record w { ready = rest; stopped = true; aborted = true })
  ended-IsOrdered w i rest e (p, q, r, s, a, c) =
      let o : (k : ℕ) → occ k w.ready ≡ occ k (i ∷ rest) = λ k. ap (occ k) e in
      (p, λ k. ground (arith, o k, q k), λ k h. r k (ground (arith, o k)), λ h. cc, a, c)

  abbrev after_finish : ℕ → ChildResult → Wave → Wave
  after_finish i x w = record w {
    children = set w.children i x;
    unmet = (release (dependents 0 plan.adj i) w.unmet w.ready).0;
    ready = (release (dependents 0 plan.adj i) w.unmet w.ready).1;
    active = remove_one i w.active;
    finished = i ∷ w.finished;
  }

  finished-IsOrdered :
      (w : Wave) (i : ℕ) (x : ChildResult)
      → 0 < occ i w.active
      → IsOrdered w
      → IsOrdered (after_finish i x w)
  finished-IsOrdered w i x l (p, q, r, s, a, c) =
      let f : occ i w.finished ≡ 0 = omega (arith, a i, q i) in
      let d : (k : ℕ) → occ k (dependents 0 plan.adj i) ≡ occ i (deps_of k) =
        λ k. occ-dependents plan.adj i k in
      let n : (k : ℕ)
          → pending (deps_of k) (i ∷ w.finished) + occ i (deps_of k)
            ≡ pending (deps_of k) w.finished =
        λ k. pending-cons i (deps_of k) w.finished f in
      let t =
        release_lem (dependents 0 plan.adj i) w.unmet w.ready (λ k. omega (arith, d k, n k, p k)) in
      (
        λ k. omega (arith, t.1 k, d k, n k, p k),
        λ k. ground (arith, t.1 k, t.2 k, q k, r k),
        λ k h. ground (arith, t.1 k, t.2 k, r k, d k, dep_index plan.adj i k),
        λ h k lk u. ground (arith, t.1 k, t.2 k, r k, s h k lk),
        λ k. ground (arith, a k, occ-remove_one i k w.active l, nat_eqb_iff i k, nat_eqb_iff k i),
        omega (arith, length-remove_one i w.active l),
      )

  launch-IsOrdered : (w v : Wave) → launch plan w ≡ some v → IsOrdered w → IsOrdered v
  unfolding launch
  launch-IsOrdered w v h o = elim (List-cases w.ready) [
    | inl e ↦ absurd (ground arith)
    | inr (i, rest, e) ↦ elim (Bool-cases (stage_wait_satisfied w.children plan.wait_policy)) [
      | inl b ↦
          let q : record w { ready = rest; stopped = true; aborted = true } ≡ v = ground arith in
          subst IsOrdered q (ended-IsOrdered w i rest e o)
      | inr b ↦
          let q : record w { ready = rest; begun = i ∷ w.begun; active = i ∷ w.active } ≡ v =
            ground arith in
          subst IsOrdered q (launched-IsOrdered w i rest e (ground arith) o)
    ]
  ]

  finish_child-IsOrdered :
      (i : ℕ) (x : ChildResult) (w v : Wave)
      → finish_child plan i x w ≡ some v
      → IsOrdered w
      → IsOrdered v
  unfolding finish_child
  finish_child-IsOrdered i x w v h o = elim (Bool-cases (ltb 0 (occ i w.active))) [
    | inl b ↦
        let q : after_finish i x w ≡ v = ground arith in
        subst IsOrdered q (finished-IsOrdered w i x (ltb→lt 0 (occ i w.active) b) o)
    | inr b ↦ absurd (ground arith)
  ]

  check_budget-IsOrdered : (w : Wave) → IsOrdered w → IsOrdered (check_budget plan w)
  unfolding check_budget
  check_budget-IsOrdered w o =
      if_both IsOrdered _ (record w { budget_exceeded = true; stopped = true }) w o o

  check_policy-IsOrdered : (w : Wave) → IsOrdered w → IsOrdered (check_policy plan w)
  unfolding check_policy
  check_policy-IsOrdered w o =
      if_both IsOrdered _ (record w { policy_early_exit = true; stopped = true }) w o o

  collect_one-IsOrdered : (w v : Wave) → collect_one plan w ≡ some v → IsOrdered w → IsOrdered v
  unfolding collect_one
  collect_one-IsOrdered w v h o =
      let u : Wave = record w { collected = suc w.collected } in
      let q : check_policy plan (check_budget plan u) ≡ v = ground arith in
      subst IsOrdered q (check_policy-IsOrdered (check_budget plan u) (check_budget-IsOrdered u o))

  wave_step-IsOrdered :
      (e : WaveEvent) (w v : Wave) → wave_step plan e w ≡ some v → IsOrdered w → IsOrdered v
  unfolding wave_step
  wave_step-IsOrdered launch_next w v h o = launch-IsOrdered w v h o
  wave_step-IsOrdered give_up w v h (p, q, r, s, a, c) =
      let t : record w { aborted = true } ≡ v = ground arith in
      subst IsOrdered t (p, q, r, (λ b. cc), a, c)
  wave_step-IsOrdered (finish i x) w v h o = finish_child-IsOrdered i x w v h o
  wave_step-IsOrdered collect w v h o = collect_one-IsOrdered w v h o
  wave_step-IsOrdered stop w v h o =
      let t : record w { stopped = true } ≡ v = ground arith in subst IsOrdered t o

  pub run_wave-IsOrdered :
      (es : List WaveEvent) (w v : Wave) → run_wave plan es w ≡ some v → IsOrdered w → IsOrdered v
  unfolding run_wave
  run_wave-IsOrdered [] w v h o = let q : w ≡ v = ground arith in subst IsOrdered q o
  run_wave-IsOrdered (e ∷ es) w v h o = elim (Option-cases (wave_step plan e w)) [
    | inl n ↦ absurd (ground arith)
    | inr (u, n) ↦ run_wave-IsOrdered es u v (ground arith) (wave_step-IsOrdered e w u n o)
  ]

  pub new_wave-IsOrdered :
      (cs : List ChildResult) (stopped : Bool) → IsOrdered (new_wave plan cs stopped)
  unfolding new_wave
  new_wave-IsOrdered cs stopped =
      let us = map length plan.adj in
      let z : length us ≡ length plan.adj = length-map plan.adj length in
      (
        λ i. get_or-map-length plan.adj i ∙ sym (pending-nil (deps_of i)),
        λ i. ground (arith, occ-initially_ready us i),
        λ i h. ground (arith, occ-initially_ready us i, get_or_default us i),
        λ h i l u. ground (arith, occ-initially_ready us i, get_or_default us i),
        λ i. omega arith,
        omega arith,
      )

  -- In every state that a wave comes to, a task was launched once at most, and then each of its
  -- dependencies had finished; the tasks that are active, no more than the semaphore has slots, are
  -- those launched that have not finished.
  pub run_wave_order :
      (cs : List ChildResult) (stopped : Bool) (es : List WaveEvent) (w : Wave)
      → run_wave plan es (new_wave plan cs stopped) ≡ some w
      → ((i : ℕ) → occ i w.begun ≤ 1)
        × ((i d : ℕ) → 0 < occ i w.begun → 0 < occ d (get_or plan.adj i []) → 0 < occ d w.finished)
        × ((i : ℕ) → occ i w.active + occ i w.finished ≡ occ i w.begun)
        × (length w.active ≤ plan.capacity)
  run_wave_order cs stopped es w h =
      let (p, q, r, s, a, c) =
        run_wave-IsOrdered es (new_wave plan cs stopped) w h (new_wave-IsOrdered cs stopped) in
      (
        λ i. omega (arith, q i),
        λ i d b l. pending_none (deps_of i) w.finished d (sym (p i) ∙ (r i (omega arith)).1) l,
        a,
        c,
      )
