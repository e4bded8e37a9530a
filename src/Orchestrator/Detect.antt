-- ===== src/Orchestrator/Detect.antt =====
-- internal/orchestrator/lifecycle.go, `detectCycle`: the call on a node.
use koios.Prelude.{
  ℕ, zero, suc, ◌<◌, ◌≡◌, sym, ◌∙◌, List, [], ◌∷◌, arith, nat_eqb, nat_eqb_iff, Bool-cases, length,
  get_or, get_or-set, length-set, set, inl, inr,
}
use koios.Orchestrator.Cycle.{
  Color, white, gray, black, Search, then_search, visit_neighbours, blacken, dfs,
}
use koios.Orchestrator.Graph.{has}
use koios.Orchestrator.Colors.{whites_positive, whites-set, whites-set_same}
use koios.Orchestrator.Neighbours.{
  InRange, Inv, GraysReach, Kept, Outcome, Searches, BlackOn, neighbours_lem,
}

module _ (adj : List (List ℕ)) (n : ℕ) where
  pub Inv-gray :
      (cs : List Color) (order : List ℕ) (v : ℕ)
      → v < n
      → get_or cs v black ≡ white
      → (Inv adj n) cs order
      → (Inv adj n) (set cs v gray) order
  Inv-gray cs order v l hw (len, t, b) = (
    length-set cs v gray ∙ len,
    t,
    λ u lu. ground (arith, get_or-set cs v u gray black, b u lu, nat_eqb_iff v u),
  )

  pub GraysReach-gray :
      (cs : List Color) (v : ℕ)
      → v < length cs
      → (GraysReach adj n) cs v
      → (GraysReach adj n) (set cs v gray) v
  GraysReach-gray cs v l r = λ g lg h. elim (Bool-cases (nat_eqb v g)) [
    | inl e ↦ (0, sym ((nat_eqb_iff v g).0 e))
    | inr e ↦ r g lg (ground (arith, get_or-set cs v g gray black))
  ]

  -- A node whose neighbours are black is next in the order.
  pub Inv-black :
      (ds : List Color) (order : List ℕ) (v : ℕ)
      → (InRange adj n)
      → v < n
      → get_or ds v black ≡ gray
      → (BlackOn adj n) (get_or adj v []) ds
      → (Inv adj n) ds order
      → (Inv adj n) (set ds v black) (v ∷ order)
  Inv-black ds order v rg l hv q (len, t, b) = (
    length-set ds v black ∙ len,
    (λ w e. (b w (rg v w e)).0 (q w e), ground (arith, b v l, Bool-cases (has v order)), t),
    λ u lu. ground (arith, get_or-set ds v u black black, b u lu, nat_eqb_iff v u),
  )

  -- A node is gray from its call to the end of the call.
  pub Kept-dfs :
      (cs ds : List Color) (v : ℕ)
      → v < n
      → length cs ≡ n
      → length ds ≡ n
      → get_or cs v black ≡ white
      → (Kept adj n) (set cs v gray) ds
      → (Kept adj n) cs (set ds v black)
  Kept-dfs cs ds v l lc ld hw (b, g, m) =
      let gv = (g v l).1 (ground (arith, get_or-set cs v v gray black, nat_eqb_iff v v)) in
      (
        λ u lu h.
            let bu = b u lu in
            ground
              (arith, get_or-set cs v u gray black, get_or-set ds v u black black, nat_eqb_iff v u),
        λ u lu.
            let gu = g u lu in
            ground
              (arith, get_or-set cs v u gray black, get_or-set ds v u black black, nat_eqb_iff v u),
        ground (arith, whites-set cs v gray, whites-set_same ds v black),
      )

  pub dfs_end :
      (cs : List Color) (v : ℕ) (s : Search)
      → (InRange adj n)
      → v < n
      → get_or cs v black ≡ white
      → length cs ≡ n
      → (Outcome adj n) ((BlackOn adj n) (get_or adj v [])) (set cs v gray) s
      → (Outcome adj n) (λ ds. get_or ds v black ≡ black) cs (then_search s (blacken v))
  unfolding then_search blacken
  dfs_end cs v s rg l hw lc (inl (e, c)) = inl (ground arith, c)
  dfs_end cs v s rg l hw lc (inr (ds, order, e, i, k, q)) =
      let gv : get_or ds v black ≡ gray =
        (k.1 v l).1 (ground (arith, get_or-set cs v v gray black, nat_eqb_iff v v)) in
      inr (
        set ds v black,
        v ∷ order,
        ground arith,
        Inv-black ds order v rg l gv q i,
        Kept-dfs cs ds v l lc i.0 hw k,
        ground (arith, get_or-set ds v v black black, nat_eqb_iff v v),
      )

  pub dfs_lem : (fuel : ℕ) → (InRange adj n) → (Searches adj n) fuel (dfs fuel adj)
  unfolding dfs
  dfs_lem zero rg = λ v cs order l hw i f r. let p = whites_positive cs v hw in absurd (omega arith)
  dfs_lem (suc fuel) rg = λ v cs order l hw i f r.
      dfs_end cs v (visit_neighbours (dfs fuel adj) (get_or adj v []) (set cs v gray)) rg l hw (i.0)
        (neighbours_lem adj n fuel (dfs fuel adj) rg (dfs_lem fuel rg) v l (get_or adj v [])
          (λ w h. h) (set cs v gray) order
          (ground (arith, get_or-set cs v v gray black, nat_eqb_iff v v))
          (Inv-gray cs order v l hw i) (let m = whites-set cs v gray hw (λ e. cc) in omega arith)
          (GraysReach-gray cs v (rw (i.0) l) r))
