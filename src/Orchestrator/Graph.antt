-- ===== src/Orchestrator/Graph.antt =====
-- Paths, cycles and topological orders of a dependency graph, independently of the search of
-- internal/orchestrator/lifecycle.go.
use koios.Prelude.{
  ℕ, zero, suc, ◌≡◌, refl, sym, subst, Bool, true, false, ◌||◌, List, [], ◌∷◌, arith, nat_eqb,
  nat_eqb_iff, Bool-cases, get_or, inl, inr,
}

-- `w` occurs in the list.
abbrev pub has : ℕ → List ℕ → Bool
has w [] = false
has w (x ∷ xs) = nat_eqb x w || has w xs

module _ (adj : List (List ℕ)) where
  abbrev pub Edge : ℕ → ℕ → Type 0
  Edge u w = has w (get_or adj u []) ≡ true

  -- A path of `k` edges.
  abbrev pub PathOf : ℕ → ℕ → ℕ → Type 0
  PathOf zero u v = u ≡ v
  PathOf (suc k) u v = (w : ℕ) × Edge u w × PathOf k w v

  -- Some node leads back to itself in one edge or more.
  abbrev pub HasCycle : Type 0
  HasCycle = (u : ℕ) × (k : ℕ) × PathOf (suc k) u u

  -- Every node of the list comes before the nodes that it leads to, which are all in the list.
  abbrev pub IsTopological : List ℕ → Type 0
  IsTopological [] = Unit
  IsTopological (v ∷ order) =
      ((w : ℕ) → Edge v w → has w order ≡ true) × (has v order ≡ false) × IsTopological order

  pub PathOf-snoc : (k u v w : ℕ) → PathOf k u v → Edge v w → PathOf (suc k) u w
  PathOf-snoc zero u v w p e = (w, subst (λ x. Edge x w) (sym p) e, refl)
  PathOf-snoc (suc k) u v w (x, e, p) f = (x, e, PathOf-snoc k x v w p f)

  IsTopological-Edge :
      (order : List ℕ) (u w : ℕ)
      → IsTopological order
      → has u order ≡ true
      → Edge u w
      → has w order ≡ true
  IsTopological-Edge [] u w t h e = cc
  IsTopological-Edge (v ∷ order) u w (l, n, t) h e = elim (Bool-cases (nat_eqb v u)) [
    | inl q ↦ let m = l w (subst (λ x. Edge x w) (sym ((nat_eqb_iff v u).0 q)) e) in ground arith
    | inr q ↦ let m = IsTopological-Edge order u w t (ground arith) e in ground arith
  ]

  IsTopological-path :
      (order : List ℕ) (k u v : ℕ)
      → IsTopological order
      → has u order ≡ true
      → PathOf k u v
      → has v order ≡ true
  IsTopological-path order zero u v t h p = subst (λ x. has x order ≡ true) p h
  IsTopological-path order (suc k) u v t h (w, e, p) =
      IsTopological-path order k w v t (IsTopological-Edge order u w t h e) p

  -- No node of a topological order is on a cycle.
  pub IsTopological-acyclic :
      (order : List ℕ) (k u : ℕ) → IsTopological order → has u order ≡ true → ¬ PathOf (suc k) u u
  IsTopological-acyclic [] k u t h p = cc
  IsTopological-acyclic (v ∷ order) k u (l, n, t) h (w, e, p) = elim (Bool-cases (nat_eqb v u)) [
    | inl q ↦
        let m = l w (subst (λ x. Edge x w) (sym ((nat_eqb_iff v u).0 q)) e) in
        let r = IsTopological-path order k w u t m p in ground (arith, nat_eqb_iff v u)
    | inr q ↦ IsTopological-acyclic order k u t (ground arith) (w, e, p)
  ]
