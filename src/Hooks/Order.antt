-- ===== src/Hooks/Order.antt =====
-- internal/ops/hooks.go, the order in which handlers are called.
use koios.Prelude.{
  ℕ, ◌≡◌, ◌∙◌, sym, ap, subst, refl, arith, Bool, true, not, ◌&&◌, ◌||◌, List, [], ◌∷◌, ◌++◌, keep,
  some_of, if◌then◌else◌, Bool-cases, inl, inr, append-nil, append_assoc, lookup, lookup-insert,
  Text, text_eq, ◌==◌, ==_lem,
}
use koios.Hooks.Manager.{
  Event, Registration, Manager, new_manager, sort_stable, entries_of, register, stamped, emit_to,
  emit,
}
use koios.Hooks.Sorted.{
  IsSorted, has_priority, prio, sort_stable-IsSorted, keep-sort_stable, keep-append,
  some_of-sort_stable, some_of-append,
}

-- Calls of `Register`, from the first on.
unfoldable pub register_all : List (Text × Registration) → Manager → Manager
register_all [] m = m
register_all ((name, r) ∷ calls) m = register_all calls (register name r m)

-- What was registered under the name, in that order.
unfoldable pub registered : Text → List (Text × Registration) → List Registration
registered name [] = []
registered name ((other, r) ∷ calls) =
    let rest = registered name calls in if other == name then r ∷ rest else rest

-- The list is in the order of priorities, and in the order of `rs` within each; it has the handlers
-- of `rs` and no others.
abbrev IsOrdering : List Registration → List Registration → Type 0
IsOrdering rs xs =
    IsSorted xs
    × ((p : ℕ) → keep (has_priority p) xs ≡ keep (has_priority p) rs)
    × ((q : Registration → Bool) → some_of q xs ≡ some_of q rs)

sort-IsOrdering :
    (r : Registration) (rs xs : List Registration)
    → IsOrdering rs xs
    → IsOrdering (rs ++ (r ∷ [])) (sort_stable prio (xs ++ (r ∷ [])))
sort-IsOrdering r rs xs h = (
  sort_stable-IsSorted (xs ++ (r ∷ [])),
  λ p.
      keep-sort_stable p (xs ++ (r ∷ []))
      ∙ keep-append p xs (r ∷ [])
      ∙ ap (λ l. l ++ keep (has_priority p) (r ∷ [])) (h.1 p)
      ∙ sym (keep-append p rs (r ∷ [])),
  λ q.
      some_of-sort_stable q (xs ++ (r ∷ []))
      ∙ some_of-append q xs (r ∷ [])
      ∙ ap (λ b. b || some_of q (r ∷ [])) (h.2 q)
      ∙ sym (some_of-append q rs (r ∷ [])),
)

if_true : {A : Type 0} {b : Bool} {x : A} (y : A) → b ≡ true → (if b then x else y) ≡ x
if_true y h = rw h

entries_of-register :
    (name other : Text) (r : Registration) (m : Manager)
    → entries_of name (register other r m).handlers ≡ (
        if other == name
        then sort_stable prio (entries_of name m.handlers ++ (r ∷ []))
        else entries_of name m.handlers)
unfolding entries_of register
entries_of-register name other r m =
    let new = sort_stable prio (entries_of other m.handlers ++ (r ∷ [])) in
    let l = lookup-insert other name new m.handlers in
    elim (Bool-cases (other == name)) [
      | inl b ↦
          let same : other ≡ name = ground (arith, ==_lem other name) in
          let e : entries_of name (register other r m).handlers ≡ new = ground arith in
          e
          ∙ ap (λ n. sort_stable prio (entries_of n m.handlers ++ (r ∷ []))) same
          ∙ sym (if_true _ b)
      | inr b ↦ ground arith
    ]

register_all-IsOrdering :
    (name : Text) (calls : List (Text × Registration)) (m : Manager) (rs : List Registration)
    → IsOrdering rs (entries_of name m.handlers)
    → IsOrdering (rs ++ registered name calls) (entries_of name (register_all calls m).handlers)
unfolding register_all registered
register_all-IsOrdering name [] m rs h =
    subst (λ l. IsOrdering l (entries_of name m.handlers)) (sym (append-nil rs)) h
register_all-IsOrdering name ((other, r) ∷ calls) m rs h =
    let m' = register other r m in
    elim (Bool-cases (other == name)) [
      | inl b ↦
          let step : entries_of name m'.handlers
              ≡ sort_stable prio (entries_of name m.handlers ++ (r ∷ [])) =
            entries_of-register name other r m ∙ rw b in
          let all : rs ++ registered name ((other, r) ∷ calls)
              ≡ (rs ++ (r ∷ [])) ++ registered name calls =
            rw b (sym (append_assoc rs (r ∷ []) (registered name calls))) in
          subst (λ l. IsOrdering l (entries_of name (register_all calls m').handlers)) (sym all)
            (register_all-IsOrdering name calls m' (rs ++ (r ∷ [])) (
              subst (IsOrdering (rs ++ (r ∷ []))) (sym step)
                (sort-IsOrdering r rs (entries_of name m.handlers) h)))
      | inr b ↦
          let step : entries_of name m'.handlers ≡ entries_of name m.handlers =
            entries_of-register name other r m ∙ rw b in
          let all : rs ++ registered name ((other, r) ∷ calls) ≡ rs ++ registered name calls =
            rw b in
          subst (λ l. IsOrdering l (entries_of name (register_all calls m').handlers)) (sym all)
            (register_all-IsOrdering name calls m' rs (subst (IsOrdering rs) (sym step) h))
    ]

emit_to_closed :
    (fail_closed : Bool) (ev : Event) (rs : List Registration)
    → (emit_to fail_closed ev rs).1 ≡ not (fail_closed && some_of (λ r. not (r.handler ev)) rs)
unfolding emit_to
emit_to_closed fail_closed ev [] = ground arith
emit_to_closed fail_closed ev (r ∷ rs) = ground (arith, emit_to_closed fail_closed ev rs)

emit_to_all :
    (fail_closed : Bool) (ev : Event) (rs : List Registration)
    → (emit_to fail_closed ev rs).1 ≡ true
    → (emit_to fail_closed ev rs).0 ≡ rs
unfolding emit_to
emit_to_all fail_closed ev [] h = refl
emit_to_all fail_closed ev (r ∷ rs) h = ground (arith, emit_to_all fail_closed ev rs)

fail_closed-register_all :
    (calls : List (Text × Registration)) (m : Manager)
    → (register_all calls m).fail_closed ≡ m.fail_closed
unfolding register_all register
fail_closed-register_all [] m = refl
fail_closed-register_all ((name, r) ∷ calls) m = fail_closed-register_all calls (register name r m)

-- An event that is emitted after any registrations gives an error exactly if the manager fails closed
-- and one of the handlers that were registered under its name fails. Otherwise these handlers are
-- called, in the order of their priorities and, within one priority, in the order of registration.
pub emit-register_all :
    (now : ℕ) (ev : Event) (timeout : ℕ) (fail_closed : Bool) (calls : List (Text × Registration))
    → let called = emit now ev (register_all calls (new_manager timeout fail_closed)) in
      let rs = registered ev.name calls in
      (called.1 ≡ not (fail_closed && some_of (λ r. not (r.handler (stamped now ev))) rs))
      × (called.1 ≡ true
          → IsSorted called.0
            × ((p : ℕ) → keep (has_priority p) called.0 ≡ keep (has_priority p) rs))
unfolding emit new_manager entries_of lookup
emit-register_all now ev timeout fail_closed calls =
    let m = register_all calls (new_manager timeout fail_closed) in
    let hs = entries_of ev.name m.handlers in
    let order =
      register_all-IsOrdering ev.name calls (new_manager timeout fail_closed) []
        (tt, λ p. refl, λ q. refl) in
    let closed = fail_closed-register_all calls (new_manager timeout fail_closed) in
    (
      emit_to_closed m.fail_closed (stamped now ev) hs
          ∙ ap (λ b. not (b && some_of (λ r. not (r.handler (stamped now ev))) hs)) closed
          ∙ ap (λ b. not (fail_closed && b)) (order.2 (λ r. not (r.handler (stamped now ev)))),
      λ h.
          let all = emit_to_all m.fail_closed (stamped now ev) hs h in
          (subst IsSorted (sym all) order.0, λ p. ap (keep (has_priority p)) all ∙ order.1 p),
    )
