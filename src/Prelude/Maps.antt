-- ===== src/Prelude/Maps.antt =====
-- Go's `map[K]V` as an association list. A map holds each key once (`NodupKeys`); the order of the
-- list stands for the order in which a `range` loop happens to visit the entries.
use mathlib.Core.Path.{◌≡◌, refl}
use mathlib.Core.List.{List, [], ◌∷◌}
use mathlib.Core.Bool.{Bool}
use mathlib.Core.Option.{Option, none, some}
use native.Mathlib.Omega.{arith}
use koios.Prelude.Tests.{if◌then◌else◌, Eq, ◌==◌}
use koios.Prelude.Lists.{keep}

abbrev pub Dict {ℓ κ} : Type ℓ → Type κ → Type (ℓ ⊔ κ)
Dict K V = List (K × V)

module _ {ℓ κ} {K : Type ℓ} {V : Type κ} ⦃d : Eq K⦄ where
  unfoldable pub lookup : K → Dict K V → Option V
  lookup key [] = none
  lookup key ((other, val) ∷ entries) = if other == key then some val else lookup key entries

  unfoldable pub insert : K → V → Dict K V → Dict K V
  insert key val [] = (key, val) ∷ []
  insert key val ((other, old) ∷ entries) =
      if other == key then (key, val) ∷ entries else (other, old) ∷ insert key val entries

  unfoldable pub delete : K → Dict K V → Dict K V
  delete key [] = []
  delete key ((other, old) ∷ entries) =
      let rest = delete key entries in if other == key then rest else (other, old) ∷ rest

  abbrev pub NodupKeys : Dict K V → Type κ
  NodupKeys [] = Unit
  NodupKeys ((key, val) ∷ entries) = (lookup key entries ≡ none) × NodupKeys entries

  pub lookup-insert :
      (key other : K) (val : V) (entries : Dict K V)
      → lookup other (insert key val entries)
        ≡ (if key == other then some val else lookup other entries)
  unfolding lookup insert
  lookup-insert key other val [] = refl
  lookup-insert key other val ((head, old) ∷ entries) = ground (
    arith,
    d.same_iff key other,
    d.same_iff head key,
    d.same_iff head other,
    lookup-insert key other val entries,
  )

  pub lookup-delete :
      (key other : K) (entries : Dict K V)
      → lookup other (delete key entries) ≡ (if key == other then none else lookup other entries)
  unfolding lookup delete
  lookup-delete key other [] = ground arith
  lookup-delete key other ((head, old) ∷ entries) = ground (
    arith,
    d.same_iff key other,
    d.same_iff head key,
    d.same_iff head other,
    lookup-delete key other entries,
  )

  pub lookup-keep-none :
      (p : K × V → Bool) (key : K) (entries : Dict K V)
      → lookup key entries ≡ none
      → lookup key (keep p entries) ≡ none
  unfolding lookup
  lookup-keep-none p key [] h = refl
  lookup-keep-none p key ((other, val) ∷ entries) h = ground (arith, lookup-keep-none p key entries)

  pub NodupKeys-insert :
      (key : K) (val : V) (entries : Dict K V)
      → NodupKeys entries
      → NodupKeys (insert key val entries)
  unfolding lookup insert
  NodupKeys-insert key val [] n = (refl, tt)
  NodupKeys-insert key val ((head, old) ∷ entries) (a, n) = ground (
    arith,
    NodupKeys-insert key val entries n,
    lookup-insert key head val entries,
    d.same_iff head key,
    d.same_iff key head,
  )
