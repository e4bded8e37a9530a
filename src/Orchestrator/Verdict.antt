-- ===== src/Orchestrator/Verdict.antt =====
-- internal/orchestrator/lifecycle.go, `detectCycle`: its verdict.
use koios.Prelude.{
  ℕ, zero, suc, ◌+◌, ◌<◌, ◌≤◌, ◌≡◌, ◌≢◌, ◌↔◌, refl, sym, ap, subst, true, false, List, [], ◌∷◌,
  arith, nat_eqb_iff, get_or, length-replicate, replicate, ◌⊎◌, inl, inr,
}
use koios.Orchestrator.Cycle.{
  Color, white, gray, black, Search, cycle_found, finished, then_search, dfs, visit_roots,
  range_from, search_graph, detect_cycle,
}
use koios.Orchestrator.Graph.{has, PathOf, HasCycle, IsTopological, IsTopological-acyclic}
use koios.Orchestrator.Colors.{whites, Color-cases}
use koios.Orchestrator.Neighbours.{
  InRange, Inv, Outcome, Searches, Kept-refl, Outcome-eq, then_search-Outcome, BlackOn,
  BlackOn-cons,
}
use koios.Orchestrator.Detect.{dfs_lem}

roots_white :
    (d : ℕ → List Color → Search) (w : ℕ) (ws : List ℕ) (cs : List Color)
    → get_or cs w black ≡ white
    → visit_roots d (w ∷ ws) cs ≡ then_search (d w cs) (visit_roots d ws)
unfolding visit_roots
roots_white d w ws cs e = ground arith

roots_black :
    (d : ℕ → List Color → Search) (w : ℕ) (ws : List ℕ) (cs : List Color)
    → get_or cs w black ≡ black
    → visit_roots d (w ∷ ws) cs ≡ visit_roots d ws cs
unfolding visit_roots
roots_black d w ws cs e = ground arith

get_or-replicate {ℓ} :
    {A : Type ℓ} (n : ℕ) (a : A) (i : ℕ) (d : A) → i < n → get_or (replicate n a) i d ≡ a
get_or-replicate zero a i d l = ground arith
get_or-replicate (suc n) a zero d l = refl
get_or-replicate (suc n) a (suc i) d l = get_or-replicate n a i d (ground arith)

whites-replicate : (n : ℕ) → whites (replicate n white) ≡ n
whites-replicate zero = refl
whites-replicate (suc n) = ap suc (whites-replicate n)

has-range_from : (i n v : ℕ) → (has v (range_from i n) ≡ true) ↔ ((i ≤ v) × (v < i + n))
unfolding range_from
has-range_from i zero v = ground arith
has-range_from i (suc n) v = ground (arith, has-range_from (suc i) n v, nat_eqb_iff i v)

has-range : (n v : ℕ) → (has v (range_from 0 n) ≡ true) ↔ (v < n)
has-range n v = ground (arith, has-range_from 0 n v)

module _ (adj : List (List ℕ)) (n : ℕ) where
  roots_lem :
      (d : ℕ → List Color → Search)
      → (InRange adj n)
      → (Searches adj n) n d
      → (is : List ℕ) → ((i : ℕ) → has i is ≡ true → i < n)
      → (cs : List Color) (order : List ℕ) → ((i : ℕ) → i < n → get_or cs i black ≢ gray)
      → (Inv adj n) cs order
      → whites cs ≤ n
      → (Outcome adj n) ((BlackOn adj n) is) cs (visit_roots d is cs)
  unfolding visit_roots
  roots_lem d rg sd [] sub cs order ng i f = inr (cs, order, refl, i, Kept-refl adj n cs, λ w h. cc)
  roots_lem d rg sd (w ∷ ws) sub cs order ng i f =
      let lw : w < n = sub w (ground (arith, nat_eqb_iff w w)) in
      let rest = roots_lem d rg sd ws (λ x h. sub x (ground arith)) in
      elim (Color-cases (get_or cs w black)) [
        | inl e ↦
            Outcome-eq adj n cs (then_search (d w cs) (visit_roots d ws))
              (visit_roots d (w ∷ ws) cs) (sym (roots_white d w ws cs e))
              (then_search-Outcome adj n cs (d w cs) (visit_roots d ws)
                (sd w cs order lw e i f (λ g lg h. absurd (ng g lg h)))
                (λ ds order2 i2 k b. BlackOn-cons adj n w ws ds (visit_roots d ws ds) lw b (
                  rest ds order2 (λ x lx gx. ng x lx ((k.1 x lx).0 gx)) i2
                    (let m = k.2 in omega arith))))
        | inr (inl e) ↦ absurd (ng w lw e)
        | inr (inr e) ↦
            Outcome-eq adj n cs (visit_roots d ws cs) (visit_roots d (w ∷ ws) cs)
              (sym (roots_black d w ws cs e))
              (BlackOn-cons adj n w ws cs (visit_roots d ws cs) lw e (rest cs order ng i f))
      ]

  -- The search ends: it finds a cycle, or it leaves an order of all the nodes.
  pub search_graph_lem :
      (InRange adj n)
      → ((search_graph n adj ≡ cycle_found) × HasCycle adj)
        ⊎ ((ds : List Color) × (order : List ℕ) × (search_graph n adj ≡ finished ds)
            × IsTopological adj order
            × ((v : ℕ) → v < n → has v order ≡ true))
  unfolding search_graph
  search_graph_lem rg =
      elim (roots_lem (dfs n adj) rg (dfs_lem adj n n rg) (range_from 0 n)
        (λ i h. (has-range n i).0 h) (replicate n white) []
        (λ i l. rw (get_or-replicate n white i black l) (λ e. cc))
        (
          length-replicate n white,
          tt,
          λ v l. rw (get_or-replicate n white v black l) (λ e. cc, λ e. cc),
        )
        (omega (arith, whites-replicate n))) [
          | inl o ↦ inl o
          | inr (ds, order, e, i, k, q) ↦
              inr (ds, order, e, i.1, λ v l. (i.2 v l).0 (q v ((has-range n v).1 l)))
        ]

  path_end : (k u v : ℕ) → InRange adj n → PathOf adj (suc k) u v → v < n
  path_end zero u v rg (w, e, p) = subst (λ x. x < n) p (rg u w e)
  path_end (suc k) u v rg (w, e, p) = path_end k w v rg p

  -- `detectCycle`, on a graph of `n` nodes that lead to nodes below `n`, says that there is a cycle
  -- exactly if some node leads back to itself.
  pub detect_cycle_iff : InRange adj n → (detect_cycle n adj ≡ true) ↔ HasCycle adj
  unfolding detect_cycle
  detect_cycle_iff rg = elim (search_graph_lem rg) [
    | inl (e, c) ↦ (λ h. c, λ h. ground arith)
    | inr (ds, order, e, t, b) ↦ (
      λ h. ground arith,
      λ (u, k, p). absurd (IsTopological-acyclic adj order k u t (b u (path_end k u u rg p)) p),
    )
  ]

  -- A graph without a cycle has an order of all its nodes in which each node comes after those that
  -- it leads to.
  pub detect_cycle_order :
      InRange adj n
      → detect_cycle n adj ≡ false
      → (order : List ℕ) × IsTopological adj order × ((v : ℕ) → v < n → has v order ≡ true)
  unfolding detect_cycle
  detect_cycle_order rg h = elim (search_graph_lem rg) [
    | inl (e, c) ↦ ground arith
    | inr (ds, order, e, t, b) ↦ (order, t, b)
  ]
