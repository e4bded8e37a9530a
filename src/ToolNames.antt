-- ===== src/ToolNames.antt =====
-- internal/types/tool_names.go: tool names as a provider accepts them. A name is its list of bytes.
use koios.Prelude.{
  ℕ, zero, suc, ◌+◌, ◌-◌, ◌*◌, ◌/◌, ◌%◌, ◌<◌, ◌≡◌, refl, ap, ◌⊎◌, inl, inr, Bool, true, false, not,
  ◌&&◌, ◌||◌, List, [], ◌∷◌, arith, ltb, leb, nat_eqb, if◌then◌else◌, nat_eq, text_eq,
}

unfoldable pub is_provider_tool_name_byte : ℕ → Bool
is_provider_tool_name_byte b =
    (leb b'a' b && leb b b'z')
    || (leb b'A' b && leb b b'Z')
    || (leb b'0' b && leb b b'9')
    || nat_eqb b b'_'
    || nat_eqb b b'-'

unfoldable pub is_hex_byte : ℕ → Bool
is_hex_byte b =
    (leb b'0' b && leb b b'9') || (leb b'a' b && leb b b'f') || (leb b'A' b && leb b b'F')

-- `name[i:]` starts with `_xHH_`.
unfoldable pub starts_provider_escape : List ℕ → Bool
starts_provider_escape (a ∷ b ∷ c ∷ d ∷ e ∷ r) =
    nat_eqb a b'_' && nat_eqb b b'x' && is_hex_byte c && is_hex_byte d && nat_eqb e b'_'
starts_provider_escape (a ∷ b ∷ c ∷ d ∷ []) = false
starts_provider_escape (a ∷ b ∷ c ∷ []) = false
starts_provider_escape (a ∷ b ∷ []) = false
starts_provider_escape (a ∷ []) = false
starts_provider_escape [] = false

-- A digit of `%x`.
unfoldable pub hex_digit : ℕ → ℕ
hex_digit n = if ltb n 10 then b'0' + n else b'a' + (n - 10)

-- The value of a digit for `strconv.ParseUint` in base 16.
unfoldable pub hex_value : ℕ → ℕ
hex_value c =
    if leb b'0' c && leb c b'9'
    then c - b'0'
    else if leb b'a' c && leb c b'f'
    then (c - b'a') + 10
    else (c - b'A') + 10

unfoldable pub escape : ℕ → List ℕ → List ℕ
escape b r = b'_' ∷ b'x' ∷ hex_digit (b / 16) ∷ hex_digit (b % 16) ∷ b'_' ∷ r

unfoldable pub encode_provider_tool_name : List ℕ → List ℕ
encode_provider_tool_name [] = []
encode_provider_tool_name (b ∷ s) =
    let rest = encode_provider_tool_name s in
    if is_provider_tool_name_byte b && not (starts_provider_escape (b ∷ s))
    then b ∷ rest
    else escape b rest

-- The value that an escape at the start stands for.
unfoldable pub escaped_value : List ℕ → ℕ
escaped_value (a ∷ b ∷ c ∷ d ∷ r) = 16 * hex_value c + hex_value d
escaped_value s = 0

-- The loop, with `skip` bytes still to pass over (`i += 4`).
unfoldable pub decode_from : ℕ → List ℕ → List ℕ
decode_from skip [] = []
decode_from (suc skip) (b ∷ s) = decode_from skip s
decode_from zero (b ∷ s) =
    let rest = decode_from (if starts_provider_escape (b ∷ s) then 4 else 0) s in
    if starts_provider_escape (b ∷ s) then escaped_value (b ∷ s) ∷ rest else b ∷ rest

unfoldable pub decode_provider_tool_name : List ℕ → List ℕ
decode_provider_tool_name = decode_from 0

-- `_xHH` before a byte that is itself going to be escaped, but no underscore: the encoding of that
-- byte starts with the underscore that makes an escape of the four.
unfoldable pub dangling : List ℕ → Bool
dangling (a ∷ b ∷ c ∷ d ∷ e ∷ r) =
    nat_eqb a b'_'
    && nat_eqb b b'x'
    && is_hex_byte c
    && is_hex_byte d
    && not (is_provider_tool_name_byte e)
dangling (a ∷ b ∷ c ∷ d ∷ []) = false
dangling (a ∷ b ∷ c ∷ []) = false
dangling (a ∷ b ∷ []) = false
dangling (a ∷ []) = false
dangling [] = false

-- No part of the name is dangling, and every element is a byte.
abbrev pub Escapable : List ℕ → Type 0
Escapable [] = Unit
Escapable (b ∷ s) = (b < 256) × (dangling (b ∷ s) ≡ false) × Escapable s

hex_digit-IsHex :
    (n : ℕ) → n < 16 → (is_hex_byte (hex_digit n) ≡ true) × (hex_value (hex_digit n) ≡ n)
unfolding is_hex_byte hex_digit hex_value
hex_digit-IsHex n h = ground arith

byte_split : (b : ℕ) → b < 256 → (b / 16 < 16) × (b % 16 < 16) × (16 * (b / 16) + b % 16 ≡ b)
byte_split b h = (omega arith, omega arith, omega arith)

decode_from-escape :
    (b : ℕ) (r : List ℕ) → b < 256 → decode_from 0 (escape b r) ≡ b ∷ decode_from 0 r
unfolding decode_from escape starts_provider_escape escaped_value
decode_from-escape b r h =
    let (hi, lo, e) = byte_split b h in
    ground (arith, hex_digit-IsHex (b / 16) hi, hex_digit-IsHex (b % 16) lo)

starts-head : (c : ℕ) (s : List ℕ) → starts_provider_escape (c ∷ s) ≡ true → c ≡ b'_'
unfolding starts_provider_escape
starts-head c [] h = ground arith
starts-head c (d ∷ []) h = ground arith
starts-head c (d ∷ e ∷ []) h = ground arith
starts-head c (d ∷ e ∷ f ∷ []) h = ground arith
starts-head c (d ∷ e ∷ f ∷ g ∷ s) h = ground arith

-- A byte stays as it is, or is escaped: then it is no byte of a provider's name, or an underscore.
encode-cases :
    (c : ℕ) (s : List ℕ)
    → ((encode_provider_tool_name (c ∷ s) ≡ c ∷ encode_provider_tool_name s)
        × (starts_provider_escape (c ∷ s) ≡ false))
      ⊎ ((encode_provider_tool_name (c ∷ s) ≡ escape c (encode_provider_tool_name s))
          × ((is_provider_tool_name_byte c ≡ false) ⊎ (c ≡ b'_')))
unfolding encode_provider_tool_name
encode-cases c s = ground (arith, starts-head c s)

encode-nil : encode_provider_tool_name [] ≡ []
unfolding encode_provider_tool_name
encode-nil = refl

-- An escape starts with an underscore and an `x`, and so is no second, third or fourth byte of one.
escape_second : (b c : ℕ) (r : List ℕ) → starts_provider_escape (b ∷ escape c r) ≡ false
unfolding starts_provider_escape escape
escape_second b c r = ground arith

escape_third : (b c d : ℕ) (r : List ℕ) → starts_provider_escape (b ∷ c ∷ escape d r) ≡ false
unfolding starts_provider_escape escape is_hex_byte
escape_third b c d r = ground arith

escape_fourth : (b c d f : ℕ) (r : List ℕ) → starts_provider_escape (b ∷ c ∷ d ∷ escape f r) ≡ false
unfolding starts_provider_escape escape is_hex_byte
escape_fourth b c d f r = ground arith

starts-encode_fifth :
    (b c d f : ℕ) (s : List ℕ)
    → starts_provider_escape (b ∷ c ∷ d ∷ f ∷ s) ≡ false
    → dangling (b ∷ c ∷ d ∷ f ∷ s) ≡ false
    → starts_provider_escape (b ∷ c ∷ d ∷ f ∷ encode_provider_tool_name s) ≡ false
unfolding starts_provider_escape dangling escape
starts-encode_fifth b c d f [] h k = rw encode-nil refl
starts-encode_fifth b c d f (g ∷ s) h k = elim (encode-cases g s) [
  | inr (e, j) ↦ rw e (ground arith)
  | inl (e, _) ↦ rw e h
]

starts-encode_fourth :
    (b c d : ℕ) (s : List ℕ)
    → starts_provider_escape (b ∷ c ∷ d ∷ s) ≡ false
    → dangling (b ∷ c ∷ d ∷ s) ≡ false
    → starts_provider_escape (b ∷ c ∷ d ∷ encode_provider_tool_name s) ≡ false
starts-encode_fourth b c d [] h k = rw encode-nil h
starts-encode_fourth b c d (g ∷ s) h k = elim (encode-cases g s) [
  | inr (e, j) ↦ rw e (escape_fourth b c d g _)
  | inl (e, _) ↦ rw e (starts-encode_fifth b c d g s h k)
]

starts-encode_third :
    (b c : ℕ) (s : List ℕ)
    → starts_provider_escape (b ∷ c ∷ s) ≡ false
    → dangling (b ∷ c ∷ s) ≡ false
    → starts_provider_escape (b ∷ c ∷ encode_provider_tool_name s) ≡ false
starts-encode_third b c [] h k = rw encode-nil h
starts-encode_third b c (g ∷ s) h k = elim (encode-cases g s) [
  | inr (e, j) ↦ rw e (escape_third b c g _)
  | inl (e, _) ↦ rw e (starts-encode_fourth b c g s h k)
]

starts-encode :
    (b : ℕ) (s : List ℕ)
    → starts_provider_escape (b ∷ s) ≡ false
    → dangling (b ∷ s) ≡ false
    → starts_provider_escape (b ∷ encode_provider_tool_name s) ≡ false
starts-encode b [] h k = rw encode-nil h
starts-encode b (g ∷ s) h k = elim (encode-cases g s) [
  | inr (e, j) ↦ rw e (escape_second b g _)
  | inl (e, _) ↦ rw e (starts-encode_third b g s h k)
]

decode_from-verbatim :
    (b : ℕ) (s : List ℕ)
    → starts_provider_escape (b ∷ s) ≡ false
    → decode_from 0 (b ∷ s) ≡ b ∷ decode_from 0 s
unfolding decode_from
decode_from-verbatim b s h = rw h refl

decode_from-nil : decode_from 0 [] ≡ []
unfolding decode_from
decode_from-nil = refl

-- A name of bytes, none of whose parts is dangling (`_xHH` before a byte that must be escaped),
-- is decoded to what was encoded.
pub decode-encode :
    (s : List ℕ) → Escapable s → decode_provider_tool_name (encode_provider_tool_name s) ≡ s
unfolding decode_provider_tool_name
decode-encode [] h = rw encode-nil decode_from-nil
decode-encode (b ∷ s) (hb, hd, hs) = elim (encode-cases b s) [
  | inr (e, _) ↦
      rw (e, decode_from-escape b (encode_provider_tool_name s) hb)
        (ap (λ r. b ∷ r) (decode-encode s hs))
  | inl (e, k) ↦
      rw (e, decode_from-verbatim b _ (starts-encode b s k hd))
        (ap (λ r. b ∷ r) (decode-encode s hs))
]
