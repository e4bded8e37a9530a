-- ===== src/Channels/Chunks.antt =====
-- internal/channels/text_chunk.go: the size and the content of the chunks.
use koios.Prelude.{
  ℕ, zero, suc, ◌+◌, ◌-◌, ◌≤◌, ◌<◌, max, ◌≡◌, refl, sym, subst, inl, inr, Bool, false, not, List,
  [], ◌∷◌, ◌++◌, append-nil, arith, leb, Bool-cases, nat_eq, length, take, drop, keep, All,
  take-append-drop, length-take, length-drop, drop-drop, drop_past, List-cases, Text, text_eq,
  is_empty, is_empty_iff, is_space, trim_space, trim_left, trim_right,
}
use koios.Channels.TextChunk.{
  TextChunkPolicy, is_chunk_whitespace, rune_at, scan_back, find_boundary, find_paragraph_boundary,
  find_newline_boundary, find_whitespace_boundary, find_word_boundary, find_chunk_boundary,
  split_at, paragraph_at, newline_at, push_chunk, leading_whitespace, chunk_from,
  normalize_text_chunk_mode, chunk_text_with_policy,
}

scan_back_le : (test : ℕ → Bool) (start n : ℕ) → scan_back test start n ≤ start + n
unfolding scan_back
scan_back_le test start zero = ground arith
scan_back_le test start (suc n) = ground (arith, scan_back_le test start n)

find_boundary_le : (test : ℕ → Bool) (start end : ℕ) → find_boundary test start end ≤ max start end
unfolding find_boundary
find_boundary_le test start end = ground (arith, scan_back_le test start ((end - 1) - start))

-- A round makes progress and takes at most `limit` runes.
split_at_bounds :
    (runes mode : Text) (start end : ℕ)
    → start < end
    → (start < split_at runes start end mode) × (split_at runes start end mode ≤ end)
unfolding split_at find_chunk_boundary find_word_boundary find_paragraph_boundary
    find_newline_boundary find_whitespace_boundary
split_at_bounds runes mode start end h = ground (
  arith,
  find_boundary_le (λ i. paragraph_at i runes) start end,
  find_boundary_le (λ i. newline_at i runes) start end,
  find_boundary_le (λ i. rune_at is_chunk_whitespace i runes) start end,
)

-- A text without its whitespace.
abbrev pub squeeze : Text → Text
squeeze = keep (λ c. not (is_space c))

abbrev pub concat : List Text → Text
concat [] = []
concat (s ∷ r) = s ++ concat r

squeeze-append : (s t : Text) → squeeze (s ++ t) ≡ squeeze s ++ squeeze t
squeeze-append [] t = refl
squeeze-append (c ∷ s) t = ground (arith, squeeze-append s t)

squeeze-trim_left : (s : Text) → squeeze (trim_left s) ≡ squeeze s
unfolding trim_left
squeeze-trim_left [] = refl
squeeze-trim_left (c ∷ s) = ground (arith, squeeze-trim_left s)

squeeze-trim_right : (s : Text) → squeeze (trim_right s) ≡ squeeze s
unfolding trim_right
squeeze-trim_right [] = refl
squeeze-trim_right (c ∷ s) = elim (List-cases (trim_right s)) [
  | inl e ↦ ground (arith, squeeze-trim_right s)
  | inr (d, t, e) ↦ ground (arith, squeeze-trim_right s)
]

squeeze-trim_space : (s : Text) → squeeze (trim_space s) ≡ squeeze s
unfolding trim_space
squeeze-trim_space s = ground (arith, squeeze-trim_left s, squeeze-trim_right (trim_left s))

squeeze-push_chunk :
    (c : Text) (chunks : List Text)
    → squeeze (concat (push_chunk c chunks)) ≡ squeeze c ++ squeeze (concat chunks)
unfolding push_chunk
squeeze-push_chunk c chunks = elim (Bool-cases (is_empty (trim_space c))) [
  | inl e ↦ ground (arith, squeeze-trim_space c, is_empty_iff (trim_space c))
  | inr e ↦ ground (arith, squeeze-trim_space c, squeeze-append (trim_space c) (concat chunks))
]

squeeze-leading_whitespace : (s : Text) → squeeze (drop (leading_whitespace s) s) ≡ squeeze s
unfolding leading_whitespace is_chunk_whitespace is_space
squeeze-leading_whitespace [] = refl
squeeze-leading_whitespace (c ∷ s) = ground (arith, squeeze-leading_whitespace s)

squeeze-drop-leading :
    (runes : Text) (start split : ℕ)
    → start ≤ split
    → squeeze (take (split - start) (drop start runes))
        ++ squeeze (drop (split + leading_whitespace (drop split runes)) runes)
      ≡ squeeze (drop start runes)
squeeze-drop-leading runes start split h = ground (
  arith,
  squeeze-append (take (split - start) (drop start runes))
      (drop (split - start) (drop start runes)),
  take-append-drop (split - start) (drop start runes),
  drop-drop start (split - start) runes,
  drop-drop split (leading_whitespace (drop split runes)) runes,
  squeeze-leading_whitespace (drop split runes),
)

-- With enough fuel, the chunks hold every rune that is no space, in order.
squeeze-chunk_from :
    (n limit : ℕ) (mode runes : Text) (start : ℕ)
    → 0 < limit
    → length runes ≤ start + n
    → squeeze (concat (chunk_from n limit mode runes start)) ≡ squeeze (drop start runes)
unfolding chunk_from
squeeze-chunk_from zero limit mode runes start h hn = ground (arith, drop_past start runes)
squeeze-chunk_from (suc n) limit mode runes start h hn =
    let split = split_at runes start (start + limit) mode in
    let next = split + leading_whitespace (drop split runes) in
    elim (Bool-cases (leb (length runes) start)) [
      | inl e ↦ ground (arith, drop_past start runes)
      | inr e ↦ elim (Bool-cases (leb (length runes - start) limit)) [
        | inl e' ↦ ground (
          arith,
          squeeze-push_chunk (drop start runes) [],
          append-nil (squeeze (drop start runes)),
        )
        | inr e' ↦
            let (lo, hi) = split_at_bounds runes mode start (start + limit) (omega arith) in
            ground (
              arith,
              squeeze-push_chunk (take (split - start) (drop start runes))
                  (chunk_from n limit mode runes next),
              squeeze-chunk_from n limit mode runes next h,
              squeeze-drop-leading runes start split,
            )
      ]
    ]

length-trim_right-le : (s : Text) → length (trim_right s) ≤ length s
unfolding trim_right
length-trim_right-le [] = ground arith
length-trim_right-le (c ∷ s) = elim (List-cases (trim_right s)) [
  | inl e ↦ ground (arith, length-trim_right-le s)
  | inr (d, t, e) ↦ ground (arith, length-trim_right-le s)
]

length-trim_left-le : (s : Text) → length (trim_left s) ≤ length s
unfolding trim_left
length-trim_left-le [] = ground arith
length-trim_left-le (c ∷ s) = ground (arith, length-trim_left-le s)

length-trim_space-le : (s : Text) → length (trim_space s) ≤ length s
unfolding trim_space
length-trim_space-le s = ground (arith, length-trim_left-le s, length-trim_right-le (trim_left s))

-- What a channel can send: a text that is not empty and not longer than the limit.
abbrev pub Fits : ℕ → Text → Type 0
Fits limit chunk = (is_empty chunk ≡ false) × (length chunk ≤ limit)

push_chunk-Fits :
    (limit : ℕ) (c : Text) (chunks : List Text)
    → length c ≤ limit
    → All (Fits limit) chunks
    → All (Fits limit) (push_chunk c chunks)
unfolding push_chunk
push_chunk-Fits limit c chunks h hs = elim (Bool-cases (is_empty (trim_space c))) [
  | inl e ↦ simp e hs
  | inr e ↦ simp e ((refl, ground (arith, length-trim_space-le c)), hs)
]

chunk_from-Fits :
    (n limit : ℕ) (mode runes : Text) (start : ℕ)
    → 0 < limit
    → All (Fits limit) (chunk_from n limit mode runes start)
unfolding chunk_from
chunk_from-Fits zero limit mode runes start h = tt
chunk_from-Fits (suc n) limit mode runes start h =
    let split = split_at runes start (start + limit) mode in
    let next = split + leading_whitespace (drop split runes) in
    elim (Bool-cases (leb (length runes) start)) [
      | inl e ↦ rw e tt
      | inr e ↦ elim (Bool-cases (leb (length runes - start) limit)) [
        | inl e' ↦
            rw (e, e')
              (push_chunk-Fits limit (drop start runes) [] (ground (arith, length-drop start runes))
                tt)
        | inr e' ↦
            let (lo, hi) = split_at_bounds runes mode start (start + limit) (omega arith) in
            rw (e, e')
              (push_chunk-Fits limit (take (split - start) (drop start runes)) _
                (ground (arith, length-take (split - start) (drop start runes)))
                (chunk_from-Fits n limit mode runes next h))
      ]
    ]

Fits-one :
    (limit : ℕ) (c : Text) (chunks : List Text)
    → is_empty c ≡ false
    → length c ≤ limit
    → chunks ≡ c ∷ []
    → All (Fits limit) chunks
Fits-one limit c chunks e h hc = subst (All (Fits limit)) (sym hc) ((e, h), tt)

-- Cutting a text into chunks loses no character but whitespace: the chunks together read as the text,
-- in its order. With a limit, every chunk has a character and none is longer than the limit. This holds for any mode.
pub chunk_text_with_policy_lem :
    (lower : ℕ → ℕ) (input : Text) (policy : TextChunkPolicy)
    → (squeeze (concat (chunk_text_with_policy lower input policy)) ≡ squeeze input)
      × (0 < policy.limit → All (Fits policy.limit) (chunk_text_with_policy lower input policy))
unfolding chunk_text_with_policy
chunk_text_with_policy_lem lower input policy =
    let t = trim_space input in
    let m = normalize_text_chunk_mode lower policy.mode in
    (
      ground (
        arith,
        squeeze-trim_space input,
        append-nil (squeeze t),
        append-nil t,
        is_empty_iff t,
        squeeze-chunk_from (length t) policy.limit m t 0,
      ),
      λ h. elim (Bool-cases (is_empty t)) [
        | inl e ↦ rw e tt
        | inr e ↦ elim (Bool-cases (leb (length t) policy.limit)) [
          | inl e' ↦ Fits-one policy.limit t _ e (ground arith) (ground arith)
          | inr e' ↦
              subst (All (Fits policy.limit)) (ground arith)
                (chunk_from-Fits (length t) policy.limit m t 0 h)
        ]
      ],
    )
