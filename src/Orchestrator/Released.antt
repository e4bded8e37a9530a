-- ===== src/Orchestrator/Released.antt =====
-- internal/orchestrator/execution.go, `runDAGWave`: counting the dependencies that are not met.
use koios.Prelude.{
  ℕ, zero, suc, ◌+◌, ◌-◌, ◌≤◌, ◌<◌, ◌≡◌, refl, ap, subst, ◌∙◌, arith, true, ◌&&◌, List, [], ◌∷◌,
  ◌++◌, ltb, nat_eqb, nat_eqb_iff, if◌then◌else◌, length, length-set, get_or, get_or-set, set,
  count_of, is_empty,
}
use koios.Orchestrator.Wave.{entries_of, dependents, initially_ready, release, remove_one}

-- How often `i` stands in the list.
abbrev pub occ : ℕ → List ℕ → ℕ
occ i = count_of (nat_eqb i)

-- The dependencies that are not in the list of finished tasks.
abbrev pub pending : List ℕ → List ℕ → ℕ
pending ds finished = count_of (λ d. nat_eqb (occ d finished) 0) ds

pub occ_nil : (i : ℕ) (xs : List ℕ) → is_empty xs ≡ true → occ i xs ≡ 0
occ_nil i [] h = refl
occ_nil i (x ∷ xs) h = cc

pub occ_le_length : (i : ℕ) (xs : List ℕ) → occ i xs ≤ length xs
occ_le_length i [] = omega arith
occ_le_length i (x ∷ xs) = ground (arith, occ_le_length i xs)

pub occ-append : (i : ℕ) (xs ys : List ℕ) → occ i (xs ++ ys) ≡ occ i xs + occ i ys
occ-append i [] ys = omega arith
occ-append i (x ∷ xs) ys = ground (arith, occ-append i xs ys)

pub occ-remove_one :
    (i j : ℕ) (xs : List ℕ)
    → 0 < occ i xs
    → occ j (remove_one i xs) + (if nat_eqb i j then 1 else 0) ≡ occ j xs
unfolding remove_one
occ-remove_one i j [] h = ground arith
occ-remove_one i j (x ∷ xs) h =
    ground (arith, occ-remove_one i j xs, nat_eqb_iff i j, nat_eqb_iff x i)

pub length-remove_one :
    (i : ℕ) (xs : List ℕ) → 0 < occ i xs → suc (length (remove_one i xs)) ≡ length xs
unfolding remove_one
length-remove_one i [] h = ground arith
length-remove_one i (x ∷ xs) h = ground (arith, length-remove_one i xs, nat_eqb_iff x i)

pub pending-cons :
    (i : ℕ) (ds finished : List ℕ)
    → occ i finished ≡ 0
    → pending ds (i ∷ finished) + occ i ds ≡ pending ds finished
pending-cons i [] finished h = omega arith
pending-cons i (d ∷ ds) finished h =
    ground (arith, pending-cons i ds finished, nat_eqb_iff i d, nat_eqb_iff d i)

pub pending-nil : (ds : List ℕ) → pending ds [] ≡ length ds
pending-nil [] = refl
pending-nil (d ∷ ds) = ap suc (pending-nil ds)

pub pending_none :
    (ds finished : List ℕ) (d : ℕ) → pending ds finished ≡ 0 → 0 < occ d ds → 0 < occ d finished
pending_none [] finished d h l = ground arith
pending_none (x ∷ ds) finished d h l = ground (arith, pending_none ds finished d, nat_eqb_iff d x)

occ-entries_of :
    (i j k : ℕ) (ds : List ℕ) → occ k (entries_of i j ds) ≡ (if nat_eqb k i then occ j ds else 0)
unfolding entries_of
occ-entries_of i j k [] = ground arith
occ-entries_of i j k (d ∷ ds) = ground (arith, occ-entries_of i j k ds)

dependents_below : (i : ℕ) (adj : List (List ℕ)) (j k : ℕ) → k < i → occ k (dependents i adj j) ≡ 0
unfolding dependents
dependents_below i [] j k h = refl
dependents_below i (ds ∷ adj) j k h = ground (
  arith,
  occ-append k (entries_of i j ds) (dependents (suc i) adj j),
  occ-entries_of i j k ds,
  dependents_below (suc i) adj j k,
)

dependents_from :
    (i m : ℕ) (adj : List (List ℕ)) (j : ℕ)
    → occ (i + m) (dependents i adj j) ≡ occ j (get_or adj m [])
unfolding dependents
dependents_from i m [] j = refl
dependents_from i zero (ds ∷ adj) j =
    let e : i + 0 ≡ i = omega arith in
    rw e (
      ground (
        arith,
        occ-append i (entries_of i j ds) (dependents (suc i) adj j),
        occ-entries_of i j i ds,
        dependents_below (suc i) adj j i,
      ))
dependents_from i (suc m) (ds ∷ adj) j =
    let e : i + suc m ≡ suc i + m = omega arith in
    rw e (
      ground (
        arith,
        occ-append (suc i + m) (entries_of i j ds) (dependents (suc i) adj j),
        occ-entries_of i j (suc i + m) ds,
        dependents_from (suc i) m adj j,
      ))

-- A task is as often among the dependents of `j` as `j` is among its dependencies.
pub occ-dependents :
    (adj : List (List ℕ)) (j k : ℕ) → occ k (dependents 0 adj j) ≡ occ j (get_or adj k [])
occ-dependents adj j k =
    let e : 0 + k ≡ k = omega arith in
    subst (λ x. occ x (dependents 0 adj j) ≡ occ j (get_or adj k [])) e (dependents_from 0 k adj j)

ready_below : (i : ℕ) (us : List ℕ) (k : ℕ) → k < i → occ k (initially_ready i us) ≡ 0
unfolding initially_ready
ready_below i [] k h = refl
ready_below i (u ∷ us) k h = ground (arith, ready_below (suc i) us k)

ready_from :
    (i m : ℕ) (us : List ℕ)
    → occ (i + m) (initially_ready i us) ≡ (if nat_eqb (get_or us m 1) 0 then 1 else 0)
unfolding initially_ready
ready_from i m [] = refl
ready_from i zero (u ∷ us) =
    let e : i + 0 ≡ i = omega arith in rw e (ground (arith, ready_below (suc i) us i))
ready_from i (suc m) (u ∷ us) =
    let e : i + suc m ≡ suc i + m = omega arith in rw e (ground (arith, ready_from (suc i) m us))

pub occ-initially_ready :
    (us : List ℕ) (k : ℕ)
    → occ k (initially_ready 0 us) ≡ (if nat_eqb (get_or us k 1) 0 then 1 else 0)
occ-initially_ready us k =
    let e : 0 + k ≡ k = omega arith in
    subst (λ x. occ x (initially_ready 0 us) ≡ (if nat_eqb (get_or us k 1) 0 then 1 else 0)) e
      (ready_from 0 k us)

-- What the loop over the dependents `is` leaves: each count falls by the entries of its task, and a
-- task is sent when its count reaches 0.
abbrev pub Released : List ℕ → List ℕ → List ℕ → List ℕ × List ℕ → Type 0
Released is unmet ready r =
    (length r.0 ≡ length unmet)
    × ((k : ℕ) → get_or r.0 k 0 + occ k is ≡ get_or unmet k 0)
    × ((k : ℕ)
        → occ k r.1
          ≡ occ k ready + (if ltb 0 (occ k is) && nat_eqb (get_or r.0 k 0) 0 then 1 else 0))

unmet_index : (us : List ℕ) (i : ℕ) → 0 < get_or us i 0 → i < length us
unmet_index [] i h = ground arith
unmet_index (u ∷ us) zero h = ground arith
unmet_index (u ∷ us) (suc i) h = ground (arith, unmet_index us i)

pub release_lem :
    (is unmet ready : List ℕ)
    → ((k : ℕ) → occ k is ≤ get_or unmet k 0)
    → Released is unmet ready (release is unmet ready)
unfolding release
release_lem [] unmet ready h = (refl, λ k. omega arith, λ k. ground arith)
release_lem (i ∷ is) unmet ready h =
    let u : List ℕ = set unmet i (get_or unmet i 0 - 1) in
    let r : List ℕ = if nat_eqb (get_or unmet i 0) 1 then ready ++ (i ∷ []) else ready in
    let hi : 0 < get_or unmet i 0 = ground (arith, h i, nat_eqb_iff i i) in
    let g = λ (k : ℕ). get_or-set unmet i k (get_or unmet i 0 - 1) 0 (unmet_index unmet i hi) in
    let rest =
      release_lem is u r (λ k. ground (arith, h k, g k, nat_eqb_iff k i, nat_eqb_iff i k)) in
    (
      rest.0 ∙ length-set unmet i (get_or unmet i 0 - 1),
      λ k. ground (arith, rest.1 k, g k, nat_eqb_iff k i, nat_eqb_iff i k, h k),
      λ k. ground (
        arith,
        rest.2 k,
        rest.1 k,
        g k,
        nat_eqb_iff k i,
        nat_eqb_iff i k,
        h k,
        occ-append k ready (i ∷ []),
      ),
    )
