-- ===== src/Orchestrator/Cycle.antt =====
-- internal/orchestrator/lifecycle.go, `detectCycle`: the search of the dependency graph, whose
-- neighbours are the lists of `adj`. The colours are passed from call to call. The depth of the
-- search is on fuel, of which `n` is enough.
use koios.Prelude.{ℕ, zero, suc, Bool, true, false, List, [], ◌∷◌, get_or, set, replicate}

pub data Color : Type 0 where
  white : Color
  gray : Color
  black : Color

pub data Search : Type 0 where
  cycle_found : Search
  finished : List Color → Search
  out_of_fuel : Search

unfoldable pub then_search : Search → (List Color → Search) → Search
then_search cycle_found next = cycle_found
then_search (finished color) next = next color
then_search out_of_fuel next = out_of_fuel

-- The loop over the neighbours of a node; `dfs` is the call on a white one.
unfoldable pub visit_neighbours : (ℕ → List Color → Search) → List ℕ → List Color → Search
visit_neighbours dfs [] color = finished color
visit_neighbours dfs (w ∷ ws) color = elim (get_or color w black) [
  | white ↦ then_search (dfs w color) (visit_neighbours dfs ws)
  | gray ↦ cycle_found
  | black ↦ visit_neighbours dfs ws color
]

unfoldable pub blacken : ℕ → List Color → Search
blacken v color = finished (set color v black)

unfoldable pub dfs : ℕ → List (List ℕ) → ℕ → List Color → Search
dfs zero adj v color = out_of_fuel
dfs (suc fuel) adj v color =
    then_search (visit_neighbours (dfs fuel adj) (get_or adj v []) (set color v gray)) (blacken v)

-- The loop over all the nodes.
unfoldable pub visit_roots : (ℕ → List Color → Search) → List ℕ → List Color → Search
visit_roots dfs [] color = finished color
visit_roots dfs (i ∷ is) color = elim (get_or color i black) [
  | white ↦ then_search (dfs i color) (visit_roots dfs is)
  | gray ↦ visit_roots dfs is color
  | black ↦ visit_roots dfs is color
]

-- `range n`, from `i` on.
unfoldable pub range_from : ℕ → ℕ → List ℕ
range_from i zero = []
range_from i (suc n) = i ∷ range_from (suc i) n

unfoldable pub search_graph : ℕ → List (List ℕ) → Search
search_graph n adj = visit_roots (dfs n adj) (range_from 0 n) (replicate n white)

unfoldable pub detect_cycle : ℕ → List (List ℕ) → Bool
detect_cycle n adj = elim (search_graph n adj) [
  | cycle_found ↦ true
  | finished color ↦ false
  | out_of_fuel ↦ false
]
