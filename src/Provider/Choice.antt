-- ===== src/Provider/Choice.antt =====
-- internal/provider/key_selector.go: which key is picked for a new assignment.
use koios.Prelude.{
  ℕ, zero, suc, ◌+◌, ◌≤◌, ◌<◌, ◌≡◌, refl, sym, subst, inl, inr, Bool, true, false, Option, none,
  some, List, arith, ltb, nat_eqb, if◌then◌else◌, Bool-cases, Option-cases, nat_eq, length, get_or,
  text_eq,
}
use koios.Provider.Keys.{
  CredentialSelector, is_unhealthy, better, least_used_from, least_used_healthy_index,
  least_used_index, pick_index,
}

-- What the loop has found after the keys below `idx`: a key that may be used and has no more uses
-- than any other such key, if there is one.
pub record Best (skip : ℕ → Bool) (usage : List ℕ) (idx : ℕ) (best : Option ℕ) : Type 0 where
  pub usable : (b : ℕ) → best ≡ some b → (b < idx) × (skip b ≡ false)
  pub least :
      (j : ℕ)
      → j < idx
      → skip j ≡ false
      → (b : ℕ) × (best ≡ some b) × (get_or usage b 0 ≤ get_or usage j 0)

Best-skipped :
    (skip : ℕ → Bool) (usage : List ℕ) (idx : ℕ) (best : Option ℕ)
    → Best skip usage idx best
    → skip idx ≡ true
    → Best skip usage (idx + 1) best
Best-skipped skip usage idx best i h = record {
  usable = λ b e. ground (arith, i.usable b e);
  least = λ j l e. i.least j (ground arith) e;
}

Best-first :
    (skip : ℕ → Bool) (usage : List ℕ) (idx : ℕ)
    → Best skip usage idx none
    → skip idx ≡ false
    → Best skip usage (idx + 1) (some idx)
Best-first skip usage idx i h = record {
  usable = λ b e. ground arith;
  least = λ j l e. elim (Bool-cases (nat_eqb j idx)) [
    | inl q ↦ (idx, refl, ground arith)
    | inr q ↦ let (b, n, _) = i.least j (ground arith) e in ground arith
  ];
}

Best-next :
    (skip : ℕ → Bool) (usage : List ℕ) (idx o b : ℕ)
    → Best skip usage idx (some o)
    → skip idx ≡ false
    → (b ≡ (if ltb (get_or usage idx 0) (get_or usage o 0) then idx else o))
    → Best skip usage (idx + 1) (some b)
Best-next skip usage idx o b i h g = record {
  usable = λ c e. ground (arith, i.usable o refl);
  least = λ j l e. elim (Bool-cases (nat_eqb j idx)) [
    | inl q ↦ (b, refl, ground arith)
    | inr q ↦ let (c, n, le) = i.least j (ground arith) e in (b, refl, ground arith)
  ];
}

Best-step :
    (skip : ℕ → Bool) (usage : List ℕ) (idx : ℕ) (best : Option ℕ)
    → Best skip usage idx best
    → Best skip usage (idx + 1) (if skip idx then best else better usage idx best)
unfolding better
Best-step skip usage idx none i = elim (Bool-cases (skip idx)) [
  | inl e ↦ rw e (Best-skipped skip usage idx none i e)
  | inr e ↦ rw e (Best-first skip usage idx i e)
]
Best-step skip usage idx (some o) i = elim (Bool-cases (skip idx)) [
  | inl e ↦ rw e (Best-skipped skip usage idx (some o) i e)
  | inr e ↦ elim (Bool-cases (ltb (get_or usage idx 0) (get_or usage o 0))) [
    | inl l ↦
        subst (Best skip usage (idx + 1)) (ground arith)
          (Best-next skip usage idx o idx i e (ground arith))
    | inr l ↦
        subst (Best skip usage (idx + 1)) (ground arith)
          (Best-next skip usage idx o o i e (ground arith))
  ]
]

least_used_from-Best :
    (skip : ℕ → Bool) (usage : List ℕ) (n idx : ℕ) (best : Option ℕ)
    → Best skip usage idx best
    → Best skip usage (idx + n) (least_used_from skip usage n idx best)
unfolding least_used_from
least_used_from-Best skip usage zero idx best i = let e : idx + 0 ≡ idx = omega arith in rw e i
least_used_from-Best skip usage (suc n) idx best i =
    let e : idx + suc n ≡ (idx + 1) + n = omega arith in
    rw e (least_used_from-Best skip usage n (idx + 1) _ (Best-step skip usage idx best i))

Best-start : (skip : ℕ → Bool) (usage : List ℕ) → Best skip usage 0 none
Best-start skip usage = record { usable = λ b e. ground arith; least = λ j l e. ground arith }

healthy-Best :
    (now : ℕ) (s : CredentialSelector)
    → Best (λ i. is_unhealthy now i s) s.usage (length s.keys) (least_used_healthy_index now s)
unfolding least_used_healthy_index
healthy-Best now s =
    let e : length s.keys ≡ 0 + length s.keys = omega arith in
    subst
      (λ n.
        Best (λ i. is_unhealthy now i s) s.usage n
          (least_used_from (λ i. is_unhealthy now i s) s.usage (length s.keys) 0 none))
      (sym e)
      (least_used_from-Best (λ i. is_unhealthy now i s) s.usage (length s.keys) 0 none
        (Best-start (λ i. is_unhealthy now i s) s.usage))

any-Best : (s : CredentialSelector) → Best (λ i. false) s.usage (length s.keys) (least_used_index s)
unfolding least_used_index
any-Best s =
    let e : length s.keys ≡ 0 + length s.keys = omega arith in
    subst
      (λ n.
        Best (λ i. false) s.usage n (least_used_from (λ i. false) s.usage (length s.keys) 0 none))
      (sym e)
      (least_used_from-Best (λ i. false) s.usage (length s.keys) 0 none
        (Best-start (λ i. false) s.usage))

-- If there is a key, one of the keys is picked. If some key is healthy, the picked one is
-- healthy too, and has no more uses than that key.
pub pick_index_lem :
    (now j : ℕ) (s : CredentialSelector)
    → j < length s.keys
    → (b : ℕ) × (pick_index now s ≡ some b)
      × (b < length s.keys)
      × (is_unhealthy now j s ≡ false
          → (is_unhealthy now b s ≡ false) × (get_or s.usage b 0 ≤ get_or s.usage j 0))
unfolding pick_index
pick_index_lem now j s h = elim (Option-cases (least_used_healthy_index now s)) [
  | inr (b, e) ↦
      let (lt, ok) = (healthy-Best now s).usable b e in
      (b, ground arith, lt, λ g. let (c, f, le) = (healthy-Best now s).least j h g in ground arith)
  | inl e ↦
      let (b, f, le) = (any-Best s).least j h refl in
      let (lt, _) = (any-Best s).usable b f in
      (b, ground arith, lt, λ g. let (c, f, le) = (healthy-Best now s).least j h g in ground arith)
]

pub pick_index-lt :
    (now b : ℕ) (s : CredentialSelector) → pick_index now s ≡ some b → b < length s.keys
unfolding pick_index
pick_index-lt now b s h = elim (Option-cases (least_used_healthy_index now s)) [
  | inr (c, e) ↦ ground (arith, (healthy-Best now s).usable c e)
  | inl e ↦ ground (arith, (any-Best s).usable b)
]
