-- ===== src/Provider/Usage.antt =====
-- internal/provider/key_selector.go: the usage counts under the assignments.
use koios.Prelude.{
  NodupKeys-insert, get_or-set, ℕ, zero, suc, ◌+◌, ◌-◌, ◌<◌, ◌≡◌, refl, sym, ◌∙◌, inl, inr, Bool,
  true, false, not, ◌&&◌, Option, none, some, List, [], ◌∷◌, arith, ltb, nat_eqb, if◌then◌else◌,
  Bool-cases, nat_eq, length, get_or, replicate, length-set, length-replicate, Dict, lookup, insert,
  NodupKeys, lookup-delete, Text, text_eqb_iff, text_eq,
}
use koios.Provider.Counting.{
  get_or_positive, tally, tally-insert, tally-replace, tally-delete, NodupKeys-delete,
}
use koios.Provider.Choice.{pick_index-lt}
use koios.Provider.Keys.{
  distinct_keys, new_credential_selector, KeyAssignment, CredentialSelector, assignment_ttl,
  is_unhealthy, release_assignment, prune_entries, prune_expired_assignments, pick_index, assign_to,
  assign, select_in, select_index,
}

abbrev pub uses : ℕ → KeyAssignment → Bool
uses i a = nat_eqb a.index i

-- The counts are as many as the keys, and each is the number of assignments of its key.
pub record Counted (s : CredentialSelector) : Type 0 where
  pub same_length : length s.usage ≡ length s.keys
  pub nodup : NodupKeys s.assignments
  pub counts : (i : ℕ) → get_or s.usage i 0 ≡ tally (uses i) s.assignments

release-Counted :
    (identity : Text) (a : KeyAssignment) (s : CredentialSelector)
    → lookup identity s.assignments ≡ some a
    → Counted s
    → Counted (release_assignment identity a s)
unfolding release_assignment
release-Counted identity a s h c = record {
  same_length =
      ground (arith, c.same_length, length-set s.usage a.index (get_or s.usage a.index 0 - 1));
  nodup = NodupKeys-delete identity s.assignments c.nodup;
  counts = λ i. ground (
    arith,
    c.counts i,
    c.counts a.index,
    get_or_positive s.usage a.index,
    get_or-set s.usage a.index i (get_or s.usage a.index 0 - 1) 0,
    tally-delete (uses i) identity a s.assignments c.nodup h,
    tally-delete (uses a.index) identity a s.assignments c.nodup h,
  );
}

-- The invariant of the loop: the entries to come are those of the map.
abbrev pub Present : CredentialSelector → Dict Text KeyAssignment → Type 0
Present s [] = Unit
Present s ((k, a) ∷ m) = (lookup k s.assignments ≡ some a) × Present s m

pub Present-release :
    (identity : Text) (a : KeyAssignment) (s : CredentialSelector) (m : Dict Text KeyAssignment)
    → lookup identity m ≡ none
    → Present s m
    → Present (release_assignment identity a s) m
unfolding lookup release_assignment
Present-release identity a s [] h p = tt
Present-release identity a s ((k, b) ∷ m) h (e, p) = ground (
  arith,
  lookup-delete identity k s.assignments,
  text_eqb_iff identity k,
  text_eqb_iff k identity,
  Present-release identity a s m,
)

-- What holds of the loop's result for both answers to whether the assignment is kept.
pub kept_or_released :
    (P : CredentialSelector → Type 0) (b : Bool) (s r : CredentialSelector)
    → P s
    → P r
    → P (if b then s else r)
kept_or_released P true s r x y = x
kept_or_released P false s r x y = y

keys-release :
    (identity : Text) (a : KeyAssignment) (s : CredentialSelector)
    → (release_assignment identity a s).keys ≡ s.keys
unfolding release_assignment
keys-release identity a s = refl

prune_entries-Counted :
    (now : ℕ) (m : Dict Text KeyAssignment) (s : CredentialSelector)
    → NodupKeys m
    → Present s m
    → Counted s
    → Counted (prune_entries now m s) × ((prune_entries now m s).keys ≡ s.keys)
unfolding prune_entries
prune_entries-Counted now [] s n p c = (c, refl)
prune_entries-Counted now ((k, a) ∷ m) s (e, n) (h, p) c =
    let r = release_assignment k a s in
    let (cr, kr) =
      prune_entries-Counted now m r n (Present-release k a s m e p) (release-Counted k a s h c) in
    kept_or_released
      (λ t. Counted (prune_entries now m t) × ((prune_entries now m t).keys ≡ s.keys))
      (ltb now (a.last_seen + assignment_ttl)) s r (prune_entries-Counted now m s n p c)
      (cr, kr ∙ keys-release k a s)

Present-cons :
    (k : Text) (a : KeyAssignment) (s t : CredentialSelector) (m : Dict Text KeyAssignment)
    → lookup k m ≡ none
    → t.assignments ≡ (k, a) ∷ s.assignments
    → Present s m
    → Present t m
unfolding lookup
Present-cons k a s t [] h e p = tt
Present-cons k a s t ((j, b) ∷ m) h e (x, p) =
    ground (arith, text_eqb_iff j k, text_eqb_iff k j, Present-cons k a s t m)

pub Present-all :
    (m : Dict Text KeyAssignment) (s : CredentialSelector)
    → NodupKeys m
    → s.assignments ≡ m
    → Present s m
unfolding lookup
Present-all [] s n e = tt
Present-all ((k, a) ∷ m) s (h, n) e =
    let t : CredentialSelector = record s { assignments = m } in
    (ground (arith, text_eqb_iff k k), Present-cons k a t s m h e (Present-all m t n refl))

prune_expired-Counted :
    (now : ℕ) (s : CredentialSelector)
    → Counted s
    → Counted (prune_expired_assignments now s) × ((prune_expired_assignments now s).keys ≡ s.keys)
unfolding prune_expired_assignments
prune_expired-Counted now s c =
    prune_entries-Counted now s.assignments s c.nodup (Present-all s.assignments s c.nodup refl) c

assign_to-Counted :
    (now : ℕ) (identity : Text) (idx : Option ℕ) (s : CredentialSelector)
    → lookup identity s.assignments ≡ none
    → ((b : ℕ) → idx ≡ some b → b < length s.keys)
    → Counted s
    → Counted ((assign_to now identity idx s).0)
unfolding assign_to
assign_to-Counted now identity none s h l c = c
assign_to-Counted now identity (some b) s h l c =
    let a : KeyAssignment = record { index = b; last_seen = now } in
    record {
      same_length = ground (arith, c.same_length, length-set s.usage b (get_or s.usage b 0 + 1));
      nodup = NodupKeys-insert identity a s.assignments c.nodup;
      counts = λ i. ground (
        arith,
        c.counts i,
        c.same_length,
        l b refl,
        get_or-set s.usage b i (get_or s.usage b 0 + 1) 0,
        tally-insert (uses i) identity a s.assignments h,
      );
    }

lookup-release :
    (identity : Text) (a : KeyAssignment) (s : CredentialSelector)
    → lookup identity (release_assignment identity a s).assignments ≡ none
unfolding release_assignment
lookup-release identity a s =
    ground (arith, lookup-delete identity identity s.assignments, text_eqb_iff identity identity)

assign-Counted :
    (now : ℕ) (identity : Text) (s : CredentialSelector)
    → lookup identity s.assignments ≡ none
    → Counted s
    → Counted ((assign now identity s).0)
unfolding assign
assign-Counted now identity s h c =
    assign_to-Counted now identity (pick_index now s) s h (λ b e. pick_index-lt now b s e) c

select_in-Counted :
    (now : ℕ) (identity : Text) (o : Option KeyAssignment) (s : CredentialSelector)
    → lookup identity s.assignments ≡ o
    → Counted s
    → Counted ((select_in now identity o s).0)
unfolding select_in
select_in-Counted now identity none s h c = assign-Counted now identity s h c
select_in-Counted now identity (some a) s h c =
    let fresh : KeyAssignment = record { index = a.index; last_seen = now } in
    let kept : CredentialSelector = record s {
      assignments = insert identity fresh s.assignments;
    } in
    let kept_Counted : Counted kept = record {
      same_length = c.same_length;
      nodup = NodupKeys-insert identity fresh s.assignments c.nodup;
      counts = λ i. c.counts i ∙ sym (tally-replace (uses i) identity fresh a s.assignments h refl);
    } in
    elim (Bool-cases (ltb a.index (length s.keys) && not (is_unhealthy now a.index s))) [
      | inl e ↦ rw e kept_Counted
      | inr e ↦ rw e (
          assign-Counted now identity (release_assignment identity a s)
            (lookup-release identity a s) (release-Counted identity a s h c))
    ]

-- Selecting a key, with the expiry and the release of assignments that go with it, keeps the usage
-- counts right: every count is the number of requesters assigned to its key.
pub select_index-Counted :
    (now : ℕ) (identity : Text) (s : CredentialSelector)
    → Counted s
    → Counted ((select_index now identity s).0)
unfolding select_index
select_index-Counted now identity s c =
    let (d, _) = prune_expired-Counted now s c in
    select_in-Counted now identity (lookup identity (prune_expired_assignments now s).assignments)
      (prune_expired_assignments now s) refl d

get_or-replicate : (n i : ℕ) → get_or {A = ℕ} (replicate n 0) i 0 ≡ 0
get_or-replicate zero i = ground arith
get_or-replicate (suc n) zero = ground arith
get_or-replicate (suc n) (suc i) = ground (arith, get_or-replicate n i)

-- The counts of a new selector are right, whatever keys are configured.
pub new_credential_selector-Counted :
    (provider : Text) (keys : List Text) → Counted (new_credential_selector provider keys)
unfolding new_credential_selector
new_credential_selector-Counted provider keys = record {
  same_length = ground (arith, length-replicate {A = ℕ} (length (distinct_keys [] keys)) 0);
  nodup = tt;
  counts = λ i. ground (arith, get_or-replicate (length (distinct_keys [] keys)) i);
}
