-- ===== src/RunLedger/Replay.antt =====
-- internal/runledger/store.go: what `New` reads back.
use koios.Prelude.{
  ℕ, ◌+◌, ◌<◌, ◌≡◌, ◌∙◌, refl, inl, inr, sym, ap, subst, arith, Bool, none, some, List, [], ◌∷◌,
  ◌++◌, append-nil, append_assoc, All, Option-cases, lookup, Text, text_eq,
}
use koios.RunLedger.Store.{
  Record, Index, empty_index, Line, entry, broken, Tail, clean, unfinished, Store, Write, whole,
  refused, short, max_line, enter, replay, new_store, tail_lines, append_line, append_short,
  write_locked, add, update,
}
use koios.RunLedger.SameIndex.{
  IsStable, Fits, SameIndex, enter-SameIndex, replay-append, replay_too_long,
}

pub data Operation : Type 0 where
  add_record : Write → Record → Operation
  update_record : Write → Text → (Record → Record) → Operation

module _ (size : Record → ℕ) where
  unfoldable pub operate : Operation → Store → Store
  operate (add_record write r) s = (add size write r s).0
  operate (update_record write id change) s = (update size write id change s).0

  unfoldable pub operate_all : List Operation → Store → Store
  operate_all [] s = s
  operate_all (o ∷ os) s = operate_all os (operate o s)

All-prefix : {A : Type 0} (P : A → Type 0) (xs ys : List A) → All P (xs ++ ys) → All P xs × All P ys
All-prefix P [] ys h = (tt, h)
All-prefix P (x ∷ xs) ys (f, h) = let (a, b) = All-prefix P xs ys h in ((f, a), b)

module _ (decode : Record → Record) (stable : IsStable decode) (size : Record → ℕ) where
  -- The file of the store gives its index back, if each of its lines is a whole record that fits.
  abbrev IsReplayed : Store → Type 0
  IsReplayed s =
      All (Fits size) s.lines
      → s.tail ≡ clean
      → (y : Index) × (replay decode size s.lines empty_index ≡ some y)
        × SameIndex decode stable size s.index y

  append_line-IsReplayed :
      (r : Record) (tail : Tail) (lines : List Line) (x : Index)
      → IsReplayed record { lines = lines; tail = tail; index = x }
      → IsReplayed record (append_line size r record { lines = lines; tail = tail; index = x }) {
        index = enter r x;
      }
  unfolding append_line
  append_line-IsReplayed r clean lines x h = λ f t.
      let (a, (b, u)) = All-prefix (Fits size) lines (entry r ∷ []) f in
      let (y, e, same) = h a refl in
      (
        enter (decode r) y,
        replay-append decode stable size lines r empty_index y b e,
        enter-SameIndex decode stable size r x y same,
      )
  append_line-IsReplayed r (unfinished o n) lines x h =
      λ f t. absurd (All-prefix (Fits size) lines (broken (n + size r) ∷ []) f).1.0

  append_short-IsReplayed :
      (r : Record) (complete : Bool) (n : ℕ) (tail : Tail) (lines : List Line) (x : Index)
      → IsReplayed (append_short size r complete n record { lines = lines; tail = tail; index = x })
  unfolding append_short
  append_short-IsReplayed r complete n clean lines x = λ f t. cc
  append_short-IsReplayed r complete n (unfinished o m) lines x = λ f t. cc

  write_locked-IsReplayed :
      (write : Write) (r : Record) (s : Store)
      → IsReplayed s
      → IsReplayed (write_locked size write r s).0
  unfolding write_locked
  write_locked-IsReplayed whole r s h = append_line-IsReplayed r s.tail s.lines s.index h
  write_locked-IsReplayed refused r s h = h
  write_locked-IsReplayed (short complete n) r s h =
      append_short-IsReplayed r complete n s.tail s.lines s.index

  operate-IsReplayed : (o : Operation) (s : Store) → IsReplayed s → IsReplayed (operate size o s)
  unfolding operate add update
  operate-IsReplayed (add_record write r) s h =
      elim (Option-cases (lookup r.id (s.index).entries)) [
        | inl e ↦
            let q : (add size write r s).0 ≡ (write_locked size write r s).0 = ground arith in
            subst IsReplayed (sym q) (write_locked-IsReplayed write r s h)
        | inr (old, e) ↦
            let q : (add size write r s).0 ≡ s = ground arith in subst IsReplayed (sym q) h
      ]
  operate-IsReplayed (update_record write id change) s h =
      elim (Option-cases (lookup id (s.index).entries)) [
        | inl e ↦
            let q : (update size write id change s).0 ≡ s = ground arith in
            subst IsReplayed (sym q) h
        | inr (r, e) ↦
            let q : (update size write id change s).0 ≡ (write_locked size write (change r) s).0 =
              ground arith in
            subst IsReplayed (sym q) (write_locked-IsReplayed write (change r) s h)
      ]

  operate_all-IsReplayed :
      (os : List Operation) (s : Store) → IsReplayed s → IsReplayed (operate_all size os s)
  unfolding operate_all
  operate_all-IsReplayed [] s h = h
  operate_all-IsReplayed (o ∷ os) s h =
      operate_all-IsReplayed os (operate size o s) (operate-IsReplayed o s h)

  opened-IsReplayed :
      (lines : List Line) (tail : Tail) (x : Index)
      → replay decode size (lines ++ tail_lines tail) empty_index ≡ some x
      → IsReplayed record { lines = lines; tail = tail; index = x }
  unfolding tail_lines
  opened-IsReplayed lines clean x h = λ f t. (
    x,
    ap (λ ls. replay decode size ls empty_index) (sym (append-nil lines)) ∙ h,
    (refl, λ id. refl),
  )
  opened-IsReplayed lines (unfinished o n) x h = λ f t. cc

  new_store-IsReplayed :
      (lines : List Line) (tail : Tail) (s : Store)
      → new_store decode size lines tail ≡ some s
      → IsReplayed s
  unfolding new_store
  new_store-IsReplayed lines tail s h =
      elim (Option-cases (replay decode size (lines ++ tail_lines tail) empty_index)) [
        | inl e ↦ absurd (ground arith)
        | inr (x, e) ↦
            let q : record { lines = lines; tail = tail; index = x } ≡ s = ground arith in
            subst IsReplayed q (opened-IsReplayed lines tail x e)
      ]

  new_store_clean :
      (lines : List Line) (tail : Tail) (y : Index)
      → tail ≡ clean
      → replay decode size lines empty_index ≡ some y
      → new_store decode size lines tail ≡ some record { lines = lines; tail = tail; index = y }
  unfolding new_store tail_lines
  new_store_clean lines clean y t h =
      let e = append-nil lines in
      let k : replay decode size (lines ++ []) empty_index ≡ some y =
        ap (λ ls. replay decode size ls empty_index) e ∙ h in
      ground arith
  new_store_clean lines (unfinished o n) y t h = cc

  new_store_too_long :
      (lines before rest : List Line) (tail : Tail) (r : Record)
      → lines ≡ before ++ (entry r ∷ rest)
      → max_line < size r
      → new_store decode size lines tail ≡ none
  unfolding new_store
  new_store_too_long lines before rest tail r e l =
      let long =
        replay_too_long decode stable size before (rest ++ tail_lines tail) r empty_index l in
      let all : replay decode size (lines ++ tail_lines tail) empty_index ≡ none =
        ap (λ ls. replay decode size (ls ++ tail_lines tail) empty_index) e
        ∙ ap (λ ls. replay decode size ls empty_index)
            (append_assoc before (entry r ∷ rest) (tail_lines tail))
        ∙ long in
      ground arith

  -- Where encoding/json keeps ids, and rereads what it read as it is: after any additions and updates of
  -- a store that was opened, with writes that the file takes or refuses or takes in part, opening the
  -- file again gives the same ids in the same order and the same records, once they are written and
  -- read back, if each line is a whole record with an id that fits the buffer and nothing is left
  -- unfinished. A record that does not fit makes it fail.
  pub reopen_lem :
      (lines : List Line) (tail : Tail) (s : Store) (os : List Operation)
      → new_store decode size lines tail ≡ some s
      → let after = operate_all size os s in
        (All (Fits size) after.lines
          → after.tail ≡ clean
          → (again : Store) × (new_store decode size after.lines after.tail ≡ some again)
            × SameIndex decode stable size after.index again.index)
        × ((before rest : List Line) (r : Record)
            → after.lines ≡ before ++ (entry r ∷ rest)
            → max_line < size r
            → new_store decode size after.lines after.tail ≡ none)
  reopen_lem lines tail s os h =
      let after = operate_all size os s in
      let opened = new_store-IsReplayed lines tail s h in
      (
        λ f t.
            let (y, e, same) = operate_all-IsReplayed os s opened f t in
            (
              record { lines = after.lines; tail = after.tail; index = y },
              new_store_clean after.lines after.tail y t e,
              same,
            ),
        λ before rest r e l. new_store_too_long after.lines before rest after.tail r e l,
      )
