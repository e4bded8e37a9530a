-- ===== src/Orchestrator/Neighbours.antt =====
-- internal/orchestrator/lifecycle.go, `detectCycle`: the invariant of the search, and its loop over
-- the neighbours of a node.
use koios.Prelude.{
  ℕ, suc, ◌<◌, ◌≤◌, ◌≡◌, ◌↔◌, refl, sym, subst, true, List, [], ◌∷◌, arith, nat_eqb, nat_eqb_iff,
  Bool-cases, length, get_or, ◌⊎◌, inl, inr,
}
use koios.Orchestrator.Cycle.{
  Color, white, gray, black, Search, cycle_found, finished, then_search, visit_neighbours,
}
use koios.Orchestrator.Graph.{has, Edge, PathOf, HasCycle, IsTopological, PathOf-snoc}
use koios.Orchestrator.Colors.{whites, Color-cases, visit_white, visit_gray, visit_black}

module _ (adj : List (List ℕ)) (n : ℕ) where
  -- Every node leads to nodes below `n` only.
  abbrev pub InRange : Type 0
  InRange = (u w : ℕ) → Edge adj u w → w < n

  -- The black nodes are those of a topological order.
  abbrev pub Inv : List Color → List ℕ → Type 0
  Inv cs order =
      (length cs ≡ n)
      × IsTopological adj order
      × ((v : ℕ) → v < n → (get_or cs v black ≡ black) ↔ (has v order ≡ true))

  -- Every gray node leads to `v`.
  abbrev pub GraysReach : List Color → ℕ → Type 0
  GraysReach cs v = (g : ℕ) → g < n → get_or cs g black ≡ gray → (k : ℕ) × PathOf adj k g v

  -- What a call makes of the colours: a black node stays black, the gray ones are the same, and no
  -- node turns white.
  abbrev pub Kept : List Color → List Color → Type 0
  Kept cs ds =
      ((u : ℕ) → u < n → get_or cs u black ≡ black → get_or ds u black ≡ black)
      × ((u : ℕ) → u < n → (get_or ds u black ≡ gray) ↔ (get_or cs u black ≡ gray))
      × (whites ds ≤ whites cs)

  abbrev pub Outcome : (List Color → Type 0) → List Color → Search → Type 0
  Outcome Q cs s =
      ((s ≡ cycle_found) × HasCycle adj)
      ⊎ ((ds : List Color) × (order : List ℕ) × (s ≡ finished ds)
          × Inv ds order
          × Kept cs ds
          × Q ds)

  -- What the search from a white node does, in a state with at most `fuel` white nodes.
  abbrev pub Searches : ℕ → (ℕ → List Color → Search) → Type 0
  Searches fuel d =
      (v : ℕ) (cs : List Color) (order : List ℕ)
      → v < n
      → get_or cs v black ≡ white
      → Inv cs order
      → whites cs ≤ fuel
      → GraysReach cs v
      → Outcome (λ ds. get_or ds v black ≡ black) cs (d v cs)

  pub Kept-refl : (cs : List Color) → Kept cs cs
  Kept-refl cs = (λ u l h. h, λ u l. (λ h. h, λ h. h), omega arith)

  pub Kept-trans : (cs ds es : List Color) → Kept cs ds → Kept ds es → Kept cs es
  Kept-trans cs ds es (a, b, c) (a2, b2, c2) = (
    λ u l h. a2 u l (a u l h),
    λ u l. (λ h. (b u l).0 ((b2 u l).0 h), λ h. (b2 u l).1 ((b u l).1 h)),
    omega arith,
  )

  -- The rest of a loop after a call that kept the colours.
  pub Outcome-trans :
      {Q : List Color → Type 0} (cs ds : List Color) (s : Search)
      → Kept cs ds
      → Outcome Q ds s
      → Outcome Q cs s
  Outcome-trans cs ds s k (inl o) = inl o
  Outcome-trans cs ds s k (inr (es, order, e, i, k2, q)) =
      inr (es, order, e, i, Kept-trans cs ds es k k2, q)

  pub Outcome-eq :
      {Q : List Color → Type 0} (cs : List Color) (s t : Search)
      → s ≡ t
      → Outcome Q cs s
      → Outcome Q cs t
  Outcome-eq {Q} cs s t e = subst (Outcome Q cs) e

  pub GraysReach-Kept :
      (cs ds : List Color) (v : ℕ) → Kept cs ds → GraysReach cs v → GraysReach ds v
  GraysReach-Kept cs ds v k r = λ g l h. r g l ((k.1 g l).0 h)

  -- A search, and what is done with the colours that it leaves.
  pub then_search-Outcome :
      {P Q : List Color → Type 0} (cs : List Color) (s : Search) (next : List Color → Search)
      → Outcome P cs s
      → ((ds : List Color) (order : List ℕ)
          → Inv ds order
          → Kept cs ds
          → P ds
          → Outcome Q ds (next ds))
      → Outcome Q cs (then_search s next)
  unfolding then_search
  then_search-Outcome {Q} cs s next (inl (e, c)) h = inl (ground arith, c)
  then_search-Outcome {Q} cs s next (inr (ds, order, e, i, k, p)) h =
      Outcome-eq cs (next ds) (then_search s next) (ground arith)
        (Outcome-trans cs ds (next ds) k (h ds order i k p))

  abbrev pub BlackOn : List ℕ → List Color → Type 0
  BlackOn ws ds = (w : ℕ) → has w ws ≡ true → get_or ds w black ≡ black

  pub BlackOn-cons :
      (w : ℕ) (ws : List ℕ) (cs : List Color) (s : Search)
      → w < n
      → get_or cs w black ≡ black
      → Outcome (BlackOn ws) cs s
      → Outcome (BlackOn (w ∷ ws)) cs s
  BlackOn-cons w ws cs s l b (inl o) = inl o
  BlackOn-cons w ws cs s l b (inr (ds, order, e, i, k, q)) = inr (
    ds,
    order,
    e,
    i,
    k,
    λ x h. elim (Bool-cases (nat_eqb w x)) [
      | inl t ↦ subst (λ y. get_or ds y black ≡ black) ((nat_eqb_iff w x).0 t) (k.0 w l b)
      | inr t ↦ q x (ground arith)
    ],
  )

  pub neighbours_lem :
      (fuel : ℕ) (d : ℕ → List Color → Search)
      → InRange
      → Searches fuel d
      → (v : ℕ) → v < n
      → (ws : List ℕ) → ((w : ℕ) → has w ws ≡ true → Edge adj v w)
      → (cs : List Color) (order : List ℕ) → get_or cs v black ≡ gray
      → Inv cs order
      → whites cs ≤ fuel
      → GraysReach cs v
      → Outcome (BlackOn ws) cs (visit_neighbours d ws cs)
  unfolding visit_neighbours
  neighbours_lem fuel d rg sd v l [] sub cs order hv i f r =
      inr (cs, order, refl, i, Kept-refl cs, λ w h. cc)
  neighbours_lem fuel d rg sd v l (w ∷ ws) sub cs order hv i f r =
      let edge : Edge adj v w = sub w (ground (arith, nat_eqb_iff w w)) in
      let lw : w < n = rg v w edge in
      let rest = neighbours_lem fuel d rg sd v l ws (λ x h. sub x (ground arith)) in
      elim (Color-cases (get_or cs w black)) [
        | inl e ↦
            Outcome-eq cs (then_search (d w cs) (visit_neighbours d ws))
              (visit_neighbours d (w ∷ ws) cs) (sym (visit_white d w ws cs e))
              (then_search-Outcome cs (d w cs) (visit_neighbours d ws)
                (sd w cs order lw e i f
                  (λ g lg h. let p = r g lg h in (suc p.0, PathOf-snoc adj p.0 g v w p.1 edge)))
                (λ ds order2 i2 k b. BlackOn-cons w ws ds (visit_neighbours d ws ds) lw b (
                  rest ds order2 ((k.1 v l).1 hv) i2 (let m = k.2 in omega arith)
                    (GraysReach-Kept cs ds v k r))))
        | inr (inl e) ↦
            let p = r w lw e in
            inl (visit_gray d w ws cs e, (w, p.0, PathOf-snoc adj p.0 w v w p.1 edge))
        | inr (inr e) ↦
            Outcome-eq cs (visit_neighbours d ws cs) (visit_neighbours d (w ∷ ws) cs)
              (sym (visit_black d w ws cs e))
              (BlackOn-cons w ws cs (visit_neighbours d ws cs) lw e (rest cs order hv i f r))
      ]
