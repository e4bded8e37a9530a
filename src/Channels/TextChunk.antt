-- ===== src/Channels/TextChunk.antt =====
-- internal/channels/text_chunk.go: how a long text is cut into messages of a channel's size.
-- `lower` stands for `unicode.ToLower`; a negative limit is 0.
use koios.Prelude.{
  ℕ, zero, suc, ◌+◌, ◌-◌, Bool, false, ◌&&◌, ◌||◌, none, some, List, [], ◌∷◌, map, ltb, leb,
  nat_eqb, if◌then◌else◌, nat_eq, length, get_elem?, take, drop, Text, text, text_eqb, text_eq,
  is_empty, trim_space,
}

pub record TextChunkPolicy : Type 0 where
  pub limit : ℕ
  pub mode : Text

unfoldable pub is_chunk_whitespace : ℕ → Bool
is_chunk_whitespace r = nat_eqb r b' ' || nat_eqb r b'\n' || nat_eqb r b'\t' || nat_eqb r b'\r'

-- `runes[i]` is a rune for which `test` holds, and not out of range.
unfoldable pub rune_at : (ℕ → Bool) → ℕ → Text → Bool
rune_at test i runes = elim (get_elem? runes i) [ some r ↦ test r | none ↦ false ]

unfoldable pub newline_at : ℕ → Text → Bool
newline_at i runes = rune_at (λ r. nat_eqb r b'\n') i runes

unfoldable pub paragraph_at : ℕ → Text → Bool
paragraph_at i runes = newline_at i runes && newline_at (i + 1) runes

-- `for i := end - 1; i > start; i--`, from `i = start + n`: the first position that passes, or 0.
unfoldable pub scan_back : (ℕ → Bool) → ℕ → ℕ → ℕ
scan_back test start zero = 0
scan_back test start (suc n) =
    let rest = scan_back test start n in if test (start + suc n) then start + suc n else rest

-- The common shape of the three searches for a boundary in `(start, end]`.
unfoldable pub find_boundary : (ℕ → Bool) → ℕ → ℕ → ℕ
find_boundary test start end = if test end then end else scan_back test start ((end - 1) - start)

unfoldable pub find_paragraph_boundary : Text → ℕ → ℕ → ℕ
find_paragraph_boundary runes = find_boundary (λ i. paragraph_at i runes)

unfoldable pub find_newline_boundary : Text → ℕ → ℕ → ℕ
find_newline_boundary runes = find_boundary (λ i. newline_at i runes)

unfoldable pub find_whitespace_boundary : Text → ℕ → ℕ → ℕ
find_whitespace_boundary runes = find_boundary (λ i. rune_at is_chunk_whitespace i runes)

unfoldable pub find_word_boundary : Text → ℕ → ℕ → ℕ
find_word_boundary runes start end =
    if ltb start (find_whitespace_boundary runes start end)
    then find_whitespace_boundary runes start end
    else end

unfoldable pub find_chunk_boundary : Text → ℕ → ℕ → Text → ℕ
find_chunk_boundary runes start end mode =
    if text_eqb mode (text "hard")
    then end
    else if text_eqb mode (text "paragraph")
    then if ltb start (find_paragraph_boundary runes start end)
      then find_paragraph_boundary runes start end
      else if ltb start (find_newline_boundary runes start end)
      then find_newline_boundary runes start end
      else find_word_boundary runes start end
    else find_word_boundary runes start end

-- `if split <= start { split = end }`.
unfoldable pub split_at : Text → ℕ → ℕ → Text → ℕ
split_at runes start end mode =
    if leb (find_chunk_boundary runes start end mode) start
    then end
    else find_chunk_boundary runes start end mode

unfoldable pub push_chunk : Text → List Text → List Text
push_chunk chunk chunks = if is_empty (trim_space chunk) then chunks else trim_space chunk ∷ chunks

-- How many runes `start` moves over in the last loop of a round.
unfoldable pub leading_whitespace : Text → ℕ
leading_whitespace [] = 0
leading_whitespace (r ∷ rs) =
    let rest = leading_whitespace rs in if is_chunk_whitespace r then suc rest else 0

-- The outer loop from `start`, on fuel.
unfoldable pub chunk_from : ℕ → ℕ → Text → Text → ℕ → List Text
chunk_from zero limit mode runes start = []
chunk_from (suc n) limit mode runes start =
    let split = split_at runes start (start + limit) mode in
    let rest = chunk_from n limit mode runes (split + leading_whitespace (drop split runes)) in
    if leb (length runes) start
    then []
    else if leb (length runes - start) limit
    then push_chunk (drop start runes) []
    else push_chunk (take (split - start) (drop start runes)) rest

module _ (lower : ℕ → ℕ) where
  unfoldable pub normalize_text_chunk_mode : Text → Text
  normalize_text_chunk_mode mode =
      let m = map lower (trim_space mode) in if is_empty m then text "paragraph" else m

  unfoldable pub chunk_text_with_policy : Text → TextChunkPolicy → List Text
  chunk_text_with_policy input policy =
      let trimmed = trim_space input in
      if is_empty trimmed
      then []
      else if nat_eqb policy.limit 0
      then trimmed ∷ []
      else if leb (length trimmed) policy.limit
      then trimmed ∷ []
      else chunk_from (length trimmed) policy.limit (normalize_text_chunk_mode policy.mode) trimmed
          0

  unfoldable pub chunk_text : Text → ℕ → List Text
  chunk_text input limit =
      chunk_text_with_policy input (record { limit = limit; mode = text "paragraph" })
