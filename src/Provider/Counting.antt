-- ===== src/Provider/Counting.antt =====
-- Counting the entries of a map whose value passes a test, for internal/provider/key_selector.go.
use koios.Prelude.{
  ℕ, zero, suc, ◌+◌, ◌<◌, ◌≡◌, refl, Bool, none, some, List, [], ◌∷◌, arith, if◌then◌else◌, nat_eq,
  length, get_or, count_of, Dict, lookup, insert, delete, NodupKeys, lookup-delete, Text,
  text_eqb_iff, text_eq,
}

pub get_or_positive : (xs : List ℕ) (i : ℕ) → 0 < get_or xs i 0 → i < length xs
get_or_positive [] i h = ground arith
get_or_positive (x ∷ xs) zero h = ground arith
get_or_positive (x ∷ xs) (suc i) h = ground (arith, get_or_positive xs i)

module _ {V : Type 0} where
  abbrev pub tally : (V → Bool) → Dict Text V → ℕ
  tally q = count_of (λ e. q e.1)

  pub tally-insert :
      (q : V → Bool) (k : Text) (v : V) (m : Dict Text V)
      → lookup k m ≡ none
      → tally q (insert k v m) ≡ tally q m + (if q v then 1 else 0)
  unfolding lookup insert
  tally-insert q k v [] h = ground arith
  tally-insert q k v ((j, w) ∷ m) h = ground (arith, tally-insert q k v m)

  pub tally-replace :
      (q : V → Bool) (k : Text) (v w : V) (m : Dict Text V)
      → lookup k m ≡ some w
      → q v ≡ q w
      → tally q (insert k v m) ≡ tally q m
  unfolding lookup insert
  tally-replace q k v w [] h e = cc
  tally-replace q k v w ((j, u) ∷ m) h e = ground (arith, tally-replace q k v w m)

  pub delete_absent : (k : Text) (m : Dict Text V) → lookup k m ≡ none → delete k m ≡ m
  unfolding lookup delete
  delete_absent k [] h = refl
  delete_absent k ((j, w) ∷ m) h = ground (arith, delete_absent k m)

  pub tally-delete :
      (q : V → Bool) (k : Text) (w : V) (m : Dict Text V)
      → NodupKeys m
      → lookup k m ≡ some w
      → tally q m ≡ tally q (delete k m) + (if q w then 1 else 0)
  unfolding lookup delete
  tally-delete q k w [] n h = cc
  tally-delete q k w ((j, u) ∷ m) (a, n) h =
      ground (arith, tally-delete q k w m n, delete_absent k m, text_eqb_iff j k)

  pub NodupKeys-delete : (k : Text) (m : Dict Text V) → NodupKeys m → NodupKeys (delete k m)
  unfolding delete
  NodupKeys-delete k [] n = tt
  NodupKeys-delete k ((j, u) ∷ m) (a, n) =
      ground
        (arith, NodupKeys-delete k m n, lookup-delete k j m, text_eqb_iff j k, text_eqb_iff k j)
