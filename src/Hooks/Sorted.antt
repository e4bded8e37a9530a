-- ===== src/Hooks/Sorted.antt =====
-- internal/ops/hooks.go, the stable sorting of handlers.
use koios.Prelude.{
  ℕ, ◌≤◌, ◌≡◌, sym, subst, refl, arith, Bool, true, false, ◌||◌, List, [], ◌∷◌, ◌++◌, All, keep,
  some_of, leb, nat_eqb, Bool-cases, inl, inr, text_eq,
}
use koios.Hooks.Manager.{Registration, insert_stable, sort_stable}

abbrev pub IsSorted : List Registration → Type 0
IsSorted [] = Unit
IsSorted (r ∷ rs) = All (λ x. r.priority ≤ x.priority) rs × IsSorted rs

abbrev pub has_priority : ℕ → Registration → Bool
has_priority p r = nat_eqb r.priority p

abbrev pub prio : Registration → ℕ
prio r = r.priority

-- The two cases of an insertion.
insert_front :
    (r y : Registration) (rs : List Registration)
    → leb r.priority y.priority ≡ true
    → insert_stable prio r (y ∷ rs) ≡ r ∷ y ∷ rs
unfolding insert_stable
insert_front r y rs b = rw b

insert_behind :
    (r y : Registration) (rs : List Registration)
    → leb r.priority y.priority ≡ false
    → insert_stable prio r (y ∷ rs) ≡ y ∷ insert_stable prio r rs
unfolding insert_stable
insert_behind r y rs b = rw b

above_trans :
    (p q : ℕ) (rs : List Registration)
    → p ≤ q
    → All (λ x. q ≤ x.priority) rs
    → All (λ x. p ≤ x.priority) rs
above_trans p q [] h a = tt
above_trans p q (r ∷ rs) h a = (omega (arith, a.0), above_trans p q rs h a.1)

insert_stable-All :
    (p : ℕ) (r : Registration) (rs : List Registration)
    → p ≤ r.priority
    → All (λ x. p ≤ x.priority) rs
    → All (λ x. p ≤ x.priority) (insert_stable prio r rs)
unfolding insert_stable
insert_stable-All p r [] h a = (h, tt)
insert_stable-All p r (y ∷ rs) h a = elim (Bool-cases (leb r.priority y.priority)) [
  | inl b ↦ subst (All (λ x. p ≤ x.priority)) (sym (insert_front r y rs b)) (h, a)
  | inr b ↦
      subst (All (λ x. p ≤ x.priority)) (sym (insert_behind r y rs b))
        (a.0, insert_stable-All p r rs h a.1)
]

insert_stable-IsSorted :
    (r : Registration) (rs : List Registration) → IsSorted rs → IsSorted (insert_stable prio r rs)
unfolding insert_stable
insert_stable-IsSorted r [] s = (tt, tt)
insert_stable-IsSorted r (y ∷ rs) s = elim (Bool-cases (leb r.priority y.priority)) [
  | inl b ↦
      subst IsSorted (sym (insert_front r y rs b))
        ((ground arith, above_trans r.priority y.priority rs (ground arith) s.0), s)
  | inr b ↦
      subst IsSorted (sym (insert_behind r y rs b))
        (insert_stable-All y.priority r rs (ground arith) s.0, insert_stable-IsSorted r rs s.1)
]

pub sort_stable-IsSorted : (rs : List Registration) → IsSorted (sort_stable prio rs)
unfolding sort_stable
sort_stable-IsSorted [] = tt
sort_stable-IsSorted (r ∷ rs) =
    insert_stable-IsSorted r (sort_stable prio rs) (sort_stable-IsSorted rs)

keep-insert_stable :
    (p : ℕ) (r : Registration) (rs : List Registration)
    → keep (has_priority p) (insert_stable prio r rs) ≡ keep (has_priority p) (r ∷ rs)
unfolding insert_stable
keep-insert_stable p r [] = refl
keep-insert_stable p r (y ∷ rs) = ground (arith, keep-insert_stable p r rs)

pub keep-sort_stable :
    (p : ℕ) (rs : List Registration)
    → keep (has_priority p) (sort_stable prio rs) ≡ keep (has_priority p) rs
unfolding sort_stable
keep-sort_stable p [] = refl
keep-sort_stable p (r ∷ rs) =
    let a = keep-insert_stable p r (sort_stable prio rs) in ground (arith, keep-sort_stable p rs)

pub keep-append :
    (p : ℕ) (xs ys : List Registration)
    → keep (has_priority p) (xs ++ ys) ≡ keep (has_priority p) xs ++ keep (has_priority p) ys
keep-append p [] ys = refl
keep-append p (x ∷ xs) ys = ground (arith, keep-append p xs ys)

some_of-insert_stable :
    (q : Registration → Bool) (r : Registration) (rs : List Registration)
    → some_of q (insert_stable prio r rs) ≡ some_of q (r ∷ rs)
unfolding insert_stable
some_of-insert_stable q r [] = refl
some_of-insert_stable q r (y ∷ rs) = ground (arith, some_of-insert_stable q r rs)

pub some_of-sort_stable :
    (q : Registration → Bool) (rs : List Registration)
    → some_of q (sort_stable prio rs) ≡ some_of q rs
unfolding sort_stable
some_of-sort_stable q [] = refl
some_of-sort_stable q (r ∷ rs) =
    let a = some_of-insert_stable q r (sort_stable prio rs) in
    ground (arith, some_of-sort_stable q rs)

pub some_of-append :
    (q : Registration → Bool) (xs ys : List Registration)
    → some_of q (xs ++ ys) ≡ (some_of q xs || some_of q ys)
some_of-append q [] ys = refl
some_of-append q (x ∷ xs) ys = ground (arith, some_of-append q xs ys)
