-- ===== src/Tests/Selection.antt =====
-- Selecting of keys: examples for internal/provider/key_selector.go.
use koios.Prelude.{
  ℕ, zero, suc, ◌≤◌, ◌<◌, ◌≡◌, refl, false, some, [], ◌∷◌, arith, nat_eq, length, get_or, lookup,
  text, text_eq,
}
use koios.Provider.Keys.{KeyAssignment, CredentialSelector, is_unhealthy, pick_index, select_index}
use koios.Provider.Usage.{Counted, uses, select_index-Counted}
use koios.Provider.Counting.{tally}
use koios.Provider.Choice.{pick_index_lem}
use koios.Provider.Sticky.{select_index_sticky}

abbrev alice_key : KeyAssignment
alice_key = record { index = 0; last_seen = 100 }

-- Two keys, of which the first is in use by one requester.
abbrev selector : CredentialSelector
selector = record {
  provider = text "openai";
  keys = text "k0" ∷ text "k1" ∷ [];
  usage = 1 ∷ 0 ∷ [];
  unhealthy = 0 ∷ 0 ∷ [];
  assignments = (text "peer:alice", alice_key) ∷ [];
}

selector-Counted : Counted selector
unfolding lookup
selector-Counted = record { same_length = refl; nodup = (refl, tt); counts = λ i. one_use i }
  where
    one_use : (i : ℕ) → get_or (1 ∷ 0 ∷ []) i 0 ≡ tally (uses i) selector.assignments
    one_use zero = refl
    one_use (suc zero) = refl
    one_use (suc (suc i)) = ground arith

select_index-Counted_example : Counted ((select_index 200 (text "peer:bob") selector).0)
select_index-Counted_example = select_index-Counted 200 (text "peer:bob") selector selector-Counted

pick_index_lem_example :
    (b : ℕ) × (pick_index 200 selector ≡ some b)
    × (b < length selector.keys)
    × (is_unhealthy 200 1 selector ≡ false
        → (is_unhealthy 200 b selector ≡ false)
          × (get_or selector.usage b 0 ≤ get_or selector.usage 1 0))
pick_index_lem_example = pick_index_lem 200 1 selector (omega arith)

found_alice : lookup (text "peer:alice") selector.assignments ≡ some alice_key
unfolding lookup
found_alice = refl

first_healthy : is_unhealthy 200 0 selector ≡ false
unfolding is_unhealthy
first_healthy = refl

select_index_sticky_example :
    ((select_index 200 (text "peer:alice") selector).1 ≡ some 0)
    × (lookup (text "peer:alice") ((select_index 200 (text "peer:alice") selector).0).assignments
        ≡ some (record { index = 0; last_seen = 200 }))
select_index_sticky_example =
    select_index_sticky 200 (text "peer:alice") alice_key selector selector-Counted.nodup
      found_alice (omega arith) (omega arith) first_healthy
