-- ===== src/Provider/Keys.antt =====
-- internal/provider/key_selector.go: which of a provider's keys a request uses. A request's identity,
-- which `selectorIdentity` makes, is a text; `lower` stands for `unicode.ToLower`.
use koios.Prelude.{
  ℕ, zero, suc, ◌+◌, ◌-◌, ◌*◌, Bool, false, not, ◌&&◌, ◌||◌, Option, none, some, List, [], ◌∷◌,
  ◌++◌, map, ltb, leb, nat_eqb, if◌then◌else◌, nat_eq, length, get_elem?, get_or, set, replicate,
  some_of, Dict, lookup, insert, delete, Text, text, text_eqb, text_eq, is_empty, trim_space,
  contains,
}

pub record KeyAssignment : Type 0 where
  pub index : ℕ
  pub last_seen : ℕ

pub record CredentialSelector : Type 0 where
  pub provider : Text
  pub keys : List Text
  pub usage : List ℕ
  pub unhealthy : List ℕ
  pub assignments : Dict Text KeyAssignment

abbrev pub minutes : ℕ → ℕ
minutes n = n * 60_000_000_000

abbrev pub assignment_ttl : ℕ
assignment_ttl = minutes 30

-- The keys of the loop in `newCredentialSelector`: trimmed, and each once.
unfoldable pub distinct_keys : List Text → List Text → List Text
distinct_keys trimmed [] = trimmed
distinct_keys trimmed (k ∷ ks) =
    distinct_keys
      (if is_empty (trim_space k) || some_of (text_eqb (trim_space k)) trimmed
        then trimmed
        else trimmed ++ (trim_space k ∷ []))
      ks

unfoldable pub new_credential_selector : Text → List Text → CredentialSelector
new_credential_selector provider keys =
    let trimmed = distinct_keys [] keys in
    record {
      provider = trim_space provider;
      keys = trimmed;
      usage = replicate (length trimmed) 0;
      unhealthy = replicate (length trimmed) 0;
      assignments = [];
    }

unfoldable pub is_unhealthy : ℕ → ℕ → CredentialSelector → Bool
is_unhealthy now idx s = elim (get_elem? s.unhealthy idx) [
  | some until ↦ not (nat_eqb until 0) && ltb now until
  | none ↦ false
]

unfoldable pub release_assignment : Text → KeyAssignment → CredentialSelector → CredentialSelector
release_assignment identity a s = record s {
  assignments = delete identity s.assignments;
  usage =
      if ltb 0 (get_or s.usage a.index 0)
      then set s.usage a.index (get_or s.usage a.index 0 - 1)
      else s.usage;
}

-- The loop over the entries that the map has at the start.
unfoldable pub prune_entries : ℕ → Dict Text KeyAssignment → CredentialSelector → CredentialSelector
prune_entries now [] s = s
prune_entries now ((identity, a) ∷ m) s =
    prune_entries now m
      (if ltb now (a.last_seen + assignment_ttl) then s else release_assignment identity a s)

unfoldable pub prune_expired_assignments : ℕ → CredentialSelector → CredentialSelector
prune_expired_assignments now s = prune_entries now s.assignments s

unfoldable pub better : List ℕ → ℕ → Option ℕ → Option ℕ
better usage idx none = some idx
better usage idx (some best) =
    if ltb (get_or usage idx 0) (get_or usage best 0) then some idx else some best

-- The loop `for idx := range s.keys` from `idx`, with `n` keys to come.
unfoldable pub least_used_from : (ℕ → Bool) → List ℕ → ℕ → ℕ → Option ℕ → Option ℕ
least_used_from skip usage zero idx best = best
least_used_from skip usage (suc n) idx best =
    least_used_from skip usage n (idx + 1) (if skip idx then best else better usage idx best)

unfoldable pub least_used_healthy_index : ℕ → CredentialSelector → Option ℕ
least_used_healthy_index now s =
    least_used_from (λ i. is_unhealthy now i s) s.usage (length s.keys) 0 none

unfoldable pub least_used_index : CredentialSelector → Option ℕ
least_used_index s = least_used_from (λ i. false) s.usage (length s.keys) 0 none

unfoldable pub pick_index : ℕ → CredentialSelector → Option ℕ
pick_index now s = elim (least_used_healthy_index now s) [
  | some idx ↦ some idx
  | none ↦ least_used_index s
]

unfoldable pub assign_to : ℕ → Text → Option ℕ → CredentialSelector → CredentialSelector × Option ℕ
assign_to now identity none s = (s, none)
assign_to now identity (some idx) s = (
  record s {
    assignments = insert identity (record { index = idx; last_seen = now }) s.assignments;
    usage = set s.usage idx (get_or s.usage idx 0 + 1);
  },
  some idx,
)

unfoldable pub assign : ℕ → Text → CredentialSelector → CredentialSelector × Option ℕ
assign now identity s = assign_to now identity (pick_index now s) s

-- `selectIndex` once the expired assignments are gone.
unfoldable pub select_in :
    ℕ → Text → Option KeyAssignment → CredentialSelector → CredentialSelector × Option ℕ
select_in now identity none s = assign now identity s
select_in now identity (some a) s =
    if ltb a.index (length s.keys) && not (is_unhealthy now a.index s)
    then (
      record s {
        assignments = insert identity (record { index = a.index; last_seen = now }) s.assignments;
      },
      some a.index,
    )
    else assign now identity (release_assignment identity a s)

unfoldable pub select_index : ℕ → Text → CredentialSelector → CredentialSelector × Option ℕ
select_index now identity s =
    let pruned = prune_expired_assignments now s in
    select_in now identity (lookup identity pruned.assignments) pruned

unfoldable pub report_result : ℕ → ℕ → ℕ → CredentialSelector → CredentialSelector
report_result now cooldown idx s =
    if nat_eqb cooldown 0 || leb (length s.unhealthy) idx
    then s
    else if ltb (get_or s.unhealthy idx 0) (now + cooldown)
    then record s { unhealthy = set s.unhealthy idx (now + cooldown) }
    else s

unfoldable pub unhealthy_cooldown : (ℕ → ℕ) → Option Text → ℕ
unhealthy_cooldown lower none = 0
unhealthy_cooldown lower (some e) =
    let msg = map lower e in
    if some_of (contains msg) (
      text "401"
      ∷ text "403"
      ∷ text "unauthorized"
      ∷ text "forbidden"
      ∷ text "invalid api key"
      ∷ text "authentication"
      ∷ [])
    then minutes 5
    else if some_of (contains msg)
        (text "429" ∷ text "rate limit" ∷ text "too many requests" ∷ text "quota" ∷ [])
    then minutes 1
    else 0
