-- ===== src/Provider/Sticky.antt =====
-- internal/provider/key_selector.go: how long a requester keeps its key.
use koios.Prelude.{
  ℕ, ◌+◌, ◌<◌, ◌≡◌, refl, sym, subst, ◌∙◌, ◌≢◌, inl, inr, false, some, [], ◌∷◌, arith, ltb,
  Bool-cases, nat_eq, length, Dict, lookup, NodupKeys, lookup-insert, lookup-delete, Text,
  text_eqb_iff, text_eq,
}
use koios.Provider.Keys.{
  KeyAssignment, CredentialSelector, assignment_ttl, is_unhealthy, release_assignment,
  prune_entries, prune_expired_assignments, select_in, select_index,
}
use koios.Provider.Usage.{Present, Present-release, Present-all}

-- What pruning leaves alone: the keys, their health, and an assignment in use.
abbrev Keeps : Text → KeyAssignment → CredentialSelector → CredentialSelector → Type 0
Keeps identity a s t =
    (lookup identity t.assignments ≡ some a) × (t.keys ≡ s.keys) × (t.unhealthy ≡ s.unhealthy)

release-Keeps :
    (k identity : Text) (b a : KeyAssignment) (s : CredentialSelector)
    → k ≢ identity
    → lookup identity s.assignments ≡ some a
    → Keeps identity a s (release_assignment k b s)
unfolding release_assignment
release-Keeps k identity b a s n h =
    (ground (arith, lookup-delete k identity s.assignments, text_eqb_iff k identity), refl, refl)

prune_entries-Keeps :
    (now : ℕ) (identity : Text) (a : KeyAssignment) (m : Dict Text KeyAssignment)
    (s : CredentialSelector)
    → NodupKeys m
    → Present s m
    → lookup identity s.assignments ≡ some a
    → now < a.last_seen + assignment_ttl
    → Keeps identity a s (prune_entries now m s)
unfolding prune_entries
prune_entries-Keeps now identity a [] s n p h g = (h, refl, refl)
prune_entries-Keeps now identity a ((k, b) ∷ m) s (e, n) (x, p) h g =
    elim (Bool-cases (ltb now (b.last_seen + assignment_ttl))) [
      | inl c ↦
          subst (λ t. Keeps identity a s (prune_entries now m t)) (ground arith)
            (prune_entries-Keeps now identity a m s n p h g)
      | inr c ↦
          let r = release_assignment k b s in
          let ne : k ≢ identity = λ q. ground arith in
          let (y, u, v) = release-Keeps k identity b a s ne h in
          let (y', u', v') =
            prune_entries-Keeps now identity a m r n (Present-release k b s m e p) y g in
          subst (λ t. Keeps identity a s (prune_entries now m t)) (ground arith)
            (y', u' ∙ u, v' ∙ v)
    ]

is_unhealthy_same :
    (now idx : ℕ) (t s : CredentialSelector)
    → t.unhealthy ≡ s.unhealthy
    → is_unhealthy now idx t ≡ is_unhealthy now idx s
unfolding is_unhealthy
is_unhealthy_same now idx t s e = rw e refl

select_in_kept :
    (now : ℕ) (identity : Text) (a : KeyAssignment) (t : CredentialSelector)
    → lookup identity t.assignments ≡ some a
    → a.index < length t.keys
    → is_unhealthy now a.index t ≡ false
    → let r = select_in now identity (lookup identity t.assignments) t in
      (r.1 ≡ some a.index)
      × (lookup identity (r.0).assignments ≡ some (record { index = a.index; last_seen = now }))
unfolding select_in
select_in_kept now identity a t x l u = ground (
  arith,
  lookup-insert identity identity (record { index = a.index; last_seen = now }) t.assignments,
  text_eqb_iff identity identity,
)

-- In a selector with one assignment for each requester: while its last request is less than half
-- an hour ago and its key is one of the keys and healthy, a requester gets the same key again,
-- and its assignment is renewed.
pub select_index_sticky :
    (now : ℕ) (identity : Text) (a : KeyAssignment) (s : CredentialSelector)
    → NodupKeys s.assignments
    → lookup identity s.assignments ≡ some a
    → now < a.last_seen + assignment_ttl
    → a.index < length s.keys
    → is_unhealthy now a.index s ≡ false
    → ((select_index now identity s).1 ≡ some a.index)
      × (lookup identity ((select_index now identity s).0).assignments
          ≡ some (record { index = a.index; last_seen = now }))
unfolding select_index prune_expired_assignments
select_index_sticky now identity a s n h g l u =
    let t = prune_entries now s.assignments s in
    let (x, ek, eu) =
      prune_entries-Keeps now identity a s.assignments s n (Present-all s.assignments s n refl) h
        g in
    select_in_kept now identity a t x (subst (λ ks. a.index < length ks) (sym ek) l)
      (is_unhealthy_same now a.index t s eu ∙ u)
