-- ===== src/Handler/Leading.antt =====
-- internal/handler/tool_registry.go, `CanonicalAlias`: where a chain of aliases ends.
use koios.Prelude.{
  ℕ, zero, suc, ◌+◌, ◌<◌, ◌≡◌, ◌⊎◌, inl, inr, refl, ap, sym, subst, ◌∙◌, arith, false, none, some,
  List, [], ◌∷◌, All, length, some_of, Bool-cases, Dict, lookup, Text, text_eqb, text_eqb_iff,
  text_eq, trim_space, trim_space_idem,
}
use koios.Handler.ToolPolicy.{BuiltInToolRegistry, follow_aliases, canonical_alias}
use koios.Handler.Denied.{follow_end, follow_stop, follow_next, canonical_alias_fuel}

module _ (aliases : Dict Text Text) where
  -- The name is an alias of no other name.
  abbrev pub IsFinal : Text → Type 0
  IsFinal name = (lookup name aliases ≡ none) ⊎ (lookup name aliases ≡ some name)

  -- So many steps from alias to alias lead from a name to a final one.
  abbrev pub LeadsIn : ℕ → Text → Text → Type 0
  LeadsIn zero name final = IsFinal name × (name ≡ final)
  LeadsIn (suc n) name final =
      (mapped : Text) × (lookup name aliases ≡ some mapped)
      × (text_eqb mapped name ≡ false)
      × LeadsIn n (trim_space mapped) final

  abbrev pub Leads : Text → Text → Type 0
  Leads name final = (n : ℕ) × LeadsIn n name final

  LeadsIn-unique :
      (n m : ℕ) (name final : Text) → LeadsIn n name final → LeadsIn m name final → n ≡ m
  LeadsIn-unique zero zero name final a b = refl
  LeadsIn-unique zero (suc m) name final (f, e) (mapped, l, d, b) =
      absurd (elim f [ inl x ↦ ground arith | inr x ↦ ground (arith, text_eqb_iff mapped name) ])
  LeadsIn-unique (suc n) zero name final (mapped, l, d, a) (f, e) =
      absurd (elim f [ inl x ↦ ground arith | inr x ↦ ground (arith, text_eqb_iff mapped name) ])
  LeadsIn-unique (suc n) (suc m) name final (x, l, d, a) (y, k, c, b) =
      let same : y ≡ x = ground arith in
      ap suc (
        LeadsIn-unique n m (trim_space x) final a
          (subst (λ z. LeadsIn m (trim_space z) final) same b))

  -- The names looked up lie farther from the end.
  abbrev Above : ℕ → List Text → Text → Type 0
  Above n seen final = All (λ x. (k : ℕ) × (n < k) × LeadsIn k x final) seen

  unseen_name :
      (n : ℕ) (name final : Text) (seen : List Text)
      → LeadsIn n name final
      → Above n seen final
      → some_of (text_eqb name) seen ≡ false
  unseen_name n name final [] a s = refl
  unseen_name n name final (x ∷ seen) a ((k, l, b), s) = elim (Bool-cases (text_eqb name x)) [
    | inl e ↦
        let same : x ≡ name = ground (arith, text_eqb_iff name x) in
        let u = LeadsIn-unique n k name final a (subst (λ z. LeadsIn k z final) same b) in
        absurd (omega (arith, u, l))
    | inr e ↦ let rest = unseen_name n name final seen a s in ground arith
  ]

  Above-down :
      (n : ℕ) (seen : List Text) (final : Text) → Above (suc n) seen final → Above n seen final
  Above-down n [] final s = tt
  Above-down n (x ∷ seen) final ((k, l, b), s) =
      ((k, omega (arith, l), b), Above-down n seen final s)

  follow_aliases-LeadsIn :
      (fuel n : ℕ) (name final : Text) (seen : List Text)
      → n < fuel
      → LeadsIn n name final
      → Above n seen final
      → follow_aliases fuel aliases seen name ≡ final
  follow_aliases-LeadsIn zero n name final seen h a s = absurd (omega arith)
  follow_aliases-LeadsIn (suc fuel) zero name final seen h (f, e) s = elim f [
    | inl x ↦ follow_end fuel aliases seen name x ∙ e
    | inr x ↦ follow_stop fuel aliases seen name name x (ground (arith, text_eqb_iff name name)) ∙ e
  ]
  follow_aliases-LeadsIn (suc fuel) (suc n) name final seen h (mapped, l, d, a) s =
      let fresh = unseen_name (suc n) name final seen (mapped, l, d, a) s in
      follow_next fuel aliases seen name mapped l (ground arith)
      ∙ follow_aliases-LeadsIn fuel n (trim_space mapped) final (name ∷ seen) (omega arith) a
          ((suc n, omega arith, (mapped, l, d, a)), Above-down n seen final s)

-- Aliases that lead to a final name are followed to it.
pub canonical_alias-Leads :
    (r : BuiltInToolRegistry) (name final : Text)
    → Leads r.aliases (trim_space name) final
    → canonical_alias r (trim_space name) ≡ final
canonical_alias-Leads r name final (n, a) =
    sym (canonical_alias_fuel n r (trim_space name))
    ∙ ap (follow_aliases (n + suc (length r.aliases)) r.aliases []) (trim_space_idem name)
    ∙ follow_aliases-LeadsIn r.aliases (n + suc (length r.aliases)) n (trim_space name) final []
        (omega arith) a tt
