-- ===== src/RunLedger/SameIndex.antt =====
-- internal/runledger/store.go: the index that `replay` makes of lines.
use koios.Prelude.{
  ℕ, ◌≤◌, ◌<◌, ◌≡◌, ◌∙◌, inl, inr, sym, ap, arith, false, none, some, Option, List, [], ◌∷◌, ◌++◌,
  Option-cases, lookup, insert, lookup-insert, Text, text_eq, is_empty,
}
use koios.RunLedger.Store.{Record, Index, Line, entry, broken, max_line, note_id, enter, replay}

-- What the ledger relies on of encoding/json: it keeps an id, and a record that was read is written and
-- read again as it is.
pub record IsStable (decode : Record → Record) : Type 0 where
  pub same_id : (r : Record) → (decode r).id ≡ r.id
  pub same_again : (r : Record) → decode (decode r) ≡ decode r

module _ (size : Record → ℕ) where
  -- The line is a record with an id, and fits the buffer.
  abbrev pub Fits : Line → Type 0
  Fits (entry r) = (is_empty r.id ≡ false) × (size r ≤ max_line)
  Fits (broken n) = ⊥

module _ (decode : Record → Record) (stable : IsStable decode) (size : Record → ℕ) where
  abbrev pub read_back : Option Record → Option Record
  read_back none = none
  read_back (some r) = some (decode r)

  -- The same ids in the same order, and the same records once they are written and read back.
  abbrev pub SameIndex : Index → Index → Type 0
  SameIndex x y =
      (x.order ≡ y.order)
      × ((id : Text) → read_back (lookup id x.entries) ≡ read_back (lookup id y.entries))

  note_id-SameIndex : (id : Text) (x y : Index) → SameIndex x y → note_id id x ≡ note_id id y
  unfolding note_id
  note_id-SameIndex id x y (o, e) =
      let at = e id in
      elim (Option-cases (lookup id x.entries)) [
        | inl a ↦ elim (Option-cases (lookup id y.entries)) [
          | inl b ↦ ground arith
          | inr (t, b) ↦ absurd (ground arith)
        ]
        | inr (r, a) ↦ elim (Option-cases (lookup id y.entries)) [
          | inl b ↦ absurd (ground arith)
          | inr (t, b) ↦ ground arith
        ]
      ]

  pub enter-SameIndex :
      (r : Record) (x y : Index) → SameIndex x y → SameIndex (enter r x) (enter (decode r) y)
  unfolding enter
  enter-SameIndex r x y (o, e) =
      let i = stable.same_id r in
      (
        note_id-SameIndex r.id x y (o, e) ∙ ap (λ k. note_id k y) (sym i),
        λ id.
            let a = lookup-insert r.id id r x.entries in
            let b = lookup-insert r.id id (decode r) y.entries in
            let c = stable.same_again r in
            let f = e id in
            let g : read_back (lookup id (insert r.id r x.entries))
                ≡ read_back (lookup id (insert r.id (decode r) y.entries)) =
              ground arith in
            g ∙ ap (λ k. read_back (lookup id (insert k (decode r) y.entries))) (sym i),
      )

  pub replay-append :
      (ls : List Line) (r : Record) (x y : Index)
      → Fits size (entry r)
      → replay decode size ls x ≡ some y
      → replay decode size (ls ++ (entry r ∷ [])) x ≡ some (enter (decode r) y)
  unfolding replay
  replay-append [] r x y f h = let i = stable.same_id r in ground arith
  replay-append (entry q ∷ ls) r x y f h =
      ground (arith, replay-append ls r x y f, replay-append ls r (enter (decode q) x) y f)
  replay-append (broken n ∷ ls) r x y f h = ground (arith, replay-append ls r x y f)

  pub replay_too_long :
      (before after : List Line) (r : Record) (x : Index)
      → max_line < size r
      → replay decode size (before ++ (entry r ∷ after)) x ≡ none
  unfolding replay
  replay_too_long [] after r x h = ground arith
  replay_too_long (entry q ∷ before) after r x h = ground (
    arith,
    replay_too_long before after r x h,
    replay_too_long before after r (enter (decode q) x) h,
  )
  replay_too_long (broken n ∷ before) after r x h =
      ground (arith, replay_too_long before after r x h)
