-- ===== src/Prelude/Strings.antt =====
-- Go's `string` as its list of code points, with the functions of package `strings` that the
-- program calls. Text that is not valid UTF-8 is outside the model.
use Prim.Native.Char.{code}
use Prim.Native.String.{String}
use Prim.Native.Nat.{ℕ, zero, suc, ◌+◌, ◌-◌, ◌/◌, ◌%◌}
use mathlib.Core.Path.{◌≡◌, refl, ap, ◌∙◌, sym}
use mathlib.Core.Logic.{◌↔◌, inl, inr}
use mathlib.Core.Bool.{Bool, true, false, ◌&&◌, ◌||◌}
use mathlib.Core.List.{List, [], ◌∷◌, ◌++◌, map}
use native.Mathlib.Omega.{arith}
use koios.Prelude.Tests.{nat_eqb, ltb, leb, if◌then◌else◌, Eq, Bool-cases}
use koios.Prelude.Lists.{drop, take, length}

abbrev pub Text : Type 0
Text = List ℕ

-- A literal of the source.
abbrev pub text : String → Text
text String.[] = []
text (String.◌∷◌ c s) = code c ∷ text s

abbrev pub text_eqb : Text → Text → Bool
text_eqb [] [] = true
text_eqb [] (d ∷ t) = false
text_eqb (c ∷ s) [] = false
text_eqb (c ∷ s) (d ∷ t) = nat_eqb c d && text_eqb s t

text_eqb_refl : (s : Text) → text_eqb s s ≡ true
text_eqb_refl [] = refl
text_eqb_refl (c ∷ s) = ground (arith, text_eqb_refl s)

text_eqb-eq : (s t : Text) → text_eqb s t ≡ true → s ≡ t
text_eqb-eq [] [] h = refl
text_eqb-eq [] (d ∷ t) h = cc
text_eqb-eq (c ∷ s) [] h = cc
text_eqb-eq (c ∷ s) (d ∷ t) h = ground (arith, text_eqb-eq s t)

pub text_eqb_iff : (s t : Text) → (text_eqb s t ≡ true) ↔ (s ≡ t)
text_eqb_iff s t = (text_eqb-eq s t, λ e. ap (text_eqb s) (sym e) ∙ text_eqb_refl s)

instance abbrev pub text_eq : Eq Text
text_eq = record { same_test = text_eqb; same_iff = text_eqb_iff }

-- `s == ""`
abbrev pub is_empty {ℓ} : {A : Type ℓ} → List A → Bool
is_empty [] = true
is_empty (c ∷ s) = false

-- `unicode.IsSpace`
unfoldable pub is_space : ℕ → Bool
is_space c =
    (leb 9 c && leb c 13)
    || nat_eqb c 32
    || nat_eqb c 0x85
    || nat_eqb c 0xa0
    || nat_eqb c 0x1680
    || (leb 0x2000 c && leb c 0x200a)
    || nat_eqb c 0x2028
    || nat_eqb c 0x2029
    || nat_eqb c 0x202f
    || nat_eqb c 0x205f
    || nat_eqb c 0x3000

unfoldable pub trim_left : Text → Text
trim_left [] = []
trim_left (c ∷ s) = let rest = trim_left s in if is_space c then rest else c ∷ s

-- A space goes exactly when all that follows it goes.
trim_cons : ℕ → Text → Text
trim_cons c [] = if is_space c then [] else c ∷ []
trim_cons c (d ∷ s) = c ∷ d ∷ s

unfoldable pub trim_right : Text → Text
unfolding trim_cons
trim_right [] = []
trim_right (c ∷ s) = trim_cons c (trim_right s)

-- `strings.TrimSpace`
unfoldable pub trim_space : Text → Text
unfolding trim_left trim_right is_space
trim_space s = trim_right (trim_left s)

-- `strings.HasPrefix(s, p)`
unfoldable pub has_prefix : Text → Text → Bool
has_prefix s [] = true
has_prefix [] (c ∷ p) = false
has_prefix (d ∷ s) (c ∷ p) = nat_eqb d c && has_prefix s p

-- `strings.Contains(s, p)`
unfoldable pub contains : Text → Text → Bool
unfolding has_prefix
contains [] p = is_empty p
contains (d ∷ s) p = has_prefix (d ∷ s) p || contains s p

-- `strings.TrimPrefix(s, p)`
unfoldable pub trim_prefix : Text → Text → Text
unfolding has_prefix
trim_prefix s p = if has_prefix s p then drop (length p) s else s

-- `strings.HasSuffix(s, p)`
unfoldable pub has_suffix : Text → Text → Bool
has_suffix s p = leb (length p) (length s) && text_eqb (drop (length s - length p) s) p

-- `strings.TrimSuffix(s, p)`
unfoldable pub trim_suffix : Text → Text → Text
unfolding has_suffix
trim_suffix s p = if has_suffix s p then take (length s - length p) s else s

-- `len(s)`: the bytes of the text's UTF-8 form.
rune_len : ℕ → ℕ
rune_len c = if ltb c 0x80 then 1 else if ltb c 0x800 then 2 else if ltb c 0x10000 then 3 else 4

unfoldable pub byte_len : Text → ℕ
unfolding rune_len
byte_len [] = 0
byte_len (c ∷ s) = rune_len c + byte_len s

-- The simple case folding of `strings.EqualFold`, exact for a comparison with ASCII text: the
-- long s and the Kelvin sign are the only other runes that fold to a letter of it.
fold_rune : ℕ → ℕ
fold_rune c =
    if leb b'A' c && leb c b'Z'
    then c + 32
    else if nat_eqb c 0x17f
    then b's'
    else if nat_eqb c 0x212a
    then b'k'
    else c

-- `strings.EqualFold(s, t)` for ASCII `t`.
unfoldable pub equal_fold : Text → Text → Bool
unfolding fold_rune
equal_fold s t = text_eqb (map fold_rune s) (map fold_rune t)

pub has_prefix-append : (p s : Text) → has_prefix (p ++ s) p ≡ true
unfolding has_prefix
has_prefix-append [] s = refl
has_prefix-append (c ∷ p) s = ground (arith, has_prefix-append p s)

pub is_empty_iff {ℓ} : {A : Type ℓ} (s : List A) → (is_empty s ≡ true) ↔ (s ≡ [])
is_empty_iff [] = (λ h. refl, λ h. refl)
is_empty_iff (c ∷ s) = (λ h. cc, λ h. cc)

-- Trimming text that begins with a character other than space leaves that character first.
trim_cons_kept : (c : ℕ) (s : Text) → is_space c ≡ false → trim_cons c s ≡ c ∷ s
unfolding trim_cons
trim_cons_kept c [] h = rw h
trim_cons_kept c (d ∷ s) h = refl

trim_right_idem : (s : Text) → trim_right (trim_right s) ≡ trim_right s
unfolding trim_right
trim_right_idem [] = refl
trim_right_idem (c ∷ s) = go (trim_right s) (trim_right_idem s)
  where
    go : (t : Text) → trim_right t ≡ t → trim_right (trim_cons c t) ≡ trim_cons c t
    go [] e = elim (Bool-cases (is_space c)) [
      | inl h ↦ rw (h, trim_cons) refl
      | inr h ↦ rw (h, trim_cons) (rw (h, trim_cons) refl)
    ]
    go (d ∷ t) e = ap (trim_cons c) e

pub data StartsBare : Text → Type 0 where
  bare_nil : StartsBare []
  bare_cons : (c : ℕ) (s : Text) → is_space c ≡ false → StartsBare (c ∷ s)

trim_left-StartsBare : (s : Text) → StartsBare (trim_left s)
unfolding trim_left
trim_left-StartsBare [] = bare_nil
trim_left-StartsBare (c ∷ s) = elim (Bool-cases (is_space c)) [
  | inl h ↦ rw (h, trim_left) (trim_left-StartsBare s)
  | inr h ↦ rw (h, trim_left) (bare_cons c s h)
]

trim_right-StartsBare : {s : Text} → StartsBare s → StartsBare (trim_right s)
unfolding trim_right
trim_right-StartsBare bare_nil = bare_nil
trim_right-StartsBare (bare_cons c s h) =
    rw (trim_cons_kept c (trim_right s) h) (bare_cons c (trim_right s) h)

trim_left_bare : {s : Text} → StartsBare s → trim_left s ≡ s
unfolding trim_left
trim_left_bare bare_nil = refl
trim_left_bare (bare_cons c s h) = rw h

-- Trimming twice is trimming once.
pub trim_space_idem : (s : Text) → trim_space (trim_space s) ≡ trim_space s
unfolding trim_space
trim_space_idem s =
    rw (trim_left_bare (trim_right-StartsBare (trim_left-StartsBare s)))
      (trim_right_idem (trim_left s))

unfoldable pub digits : ℕ → ℕ → Text → Text
digits zero n after = after
digits (suc fuel) n after =
    let rest = digits fuel (n / 10) ((48 + n % 10) ∷ after) in
    if ltb n 10 then (48 + n) ∷ after else rest

-- `fmt.Sprintf("%d", n)`; a number has at most as many digits as its successor counts.
unfoldable pub decimal : ℕ → Text
decimal n = digits (suc n) n []
