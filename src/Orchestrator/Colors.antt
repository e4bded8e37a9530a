-- ===== src/Orchestrator/Colors.antt =====
-- internal/orchestrator/lifecycle.go, `detectCycle`: its colours, and its loop by the colour of
-- the first neighbour.
use koios.Prelude.{
  ℕ, zero, suc, ◌<◌, ◌≡◌, ◌≢◌, refl, Bool, true, false, List, [], ◌∷◌, arith, get_or, count_of, set,
  ◌⊎◌, inl, inr,
}
use koios.Orchestrator.Cycle.{
  Color, white, gray, black, Search, cycle_found, then_search, visit_neighbours,
}

abbrev pub is_white : Color → Bool
is_white white = true
is_white gray = false
is_white black = false

-- The nodes that are left to search.
abbrev pub whites : List Color → ℕ
whites = count_of is_white

pub Color-cases : (c : Color) → (c ≡ white) ⊎ ((c ≡ gray) ⊎ (c ≡ black))
Color-cases white = inl refl
Color-cases gray = inr (inl refl)
Color-cases black = inr (inr refl)

pub whites_positive : (cs : List Color) (v : ℕ) → get_or cs v black ≡ white → 0 < whites cs
whites_positive [] v h = cc
whites_positive (c ∷ cs) zero h = ground arith
whites_positive (c ∷ cs) (suc v) h = ground (arith, whites_positive cs v)

pub whites-set :
    (cs : List Color) (v : ℕ) (c : Color)
    → get_or cs v black ≡ white
    → c ≢ white
    → suc (whites (set cs v c)) ≡ whites cs
whites-set [] v c h n = cc
whites-set (d ∷ cs) zero c h n = ground (arith, Color-cases c)
whites-set (d ∷ cs) (suc v) c h n = ground (arith, whites-set cs v c)

pub whites-set_same :
    (cs : List Color) (v : ℕ) (c : Color)
    → get_or cs v black ≢ white
    → c ≢ white
    → whites (set cs v c) ≡ whites cs
whites-set_same [] v c h n = refl
whites-set_same (d ∷ cs) zero c h n = ground (arith, Color-cases c, Color-cases d)
whites-set_same (d ∷ cs) (suc v) c h n = ground (arith, whites-set_same cs v c)

pub visit_white :
    (d : ℕ → List Color → Search) (w : ℕ) (ws : List ℕ) (cs : List Color)
    → get_or cs w black ≡ white
    → visit_neighbours d (w ∷ ws) cs ≡ then_search (d w cs) (visit_neighbours d ws)
unfolding visit_neighbours
visit_white d w ws cs e = ground arith

pub visit_gray :
    (d : ℕ → List Color → Search) (w : ℕ) (ws : List ℕ) (cs : List Color)
    → get_or cs w black ≡ gray
    → visit_neighbours d (w ∷ ws) cs ≡ cycle_found
unfolding visit_neighbours
visit_gray d w ws cs e = ground arith

pub visit_black :
    (d : ℕ → List Color → Search) (w : ℕ) (ws : List ℕ) (cs : List Color)
    → get_or cs w black ≡ black
    → visit_neighbours d (w ∷ ws) cs ≡ visit_neighbours d ws cs
unfolding visit_neighbours
visit_black d w ws cs e = ground arith
