-- ===== src/Handler/Denied.antt =====
-- internal/handler/tool_policy.go and tool_registry.go: denied tools and their aliases.
use koios.Prelude.{
  ℕ, zero, suc, ◌+◌, ◌≤◌, ◌<◌, ◌≡◌, inl, inr, refl, ap, sym, subst, ◌∙◌, arith, Bool, true, false,
  not, ◌||◌, none, some, List, [], ◌∷◌, ◌++◌, length, some_of, count_of, Bool-cases, Option-cases,
  Dict, lookup, Text, text, text_eqb, text_eqb_iff, text_eq, is_empty, trim_space,
}
use koios.Handler.ToolPolicy.{
  ToolPolicy, BuiltInToolRegistry, follow_aliases, canonical_alias, expand_token, expand_tokens,
  matches_tool_token, allows,
}

some_of-append {ℓ} :
    {A : Type ℓ} (p : A → Bool) (xs ys : List A)
    → some_of p (xs ++ ys) ≡ (some_of p xs || some_of p ys)
some_of-append p [] ys = refl
some_of-append p (x ∷ xs) ys = ground (arith, some_of-append p xs ys)

expand_tokens_has :
    (r : BuiltInToolRegistry) (name token : Text) (ts : List Text)
    → some_of (text_eqb token) ts ≡ true
    → some_of (text_eqb name) (expand_token r token) ≡ true
    → some_of (text_eqb name) (expand_tokens r ts) ≡ true
unfolding expand_tokens
expand_tokens_has r name token [] m h = cc
expand_tokens_has r name token (t ∷ ts) m h =
    let a = some_of-append (text_eqb name) (expand_token r t) (expand_tokens r ts) in
    elim (Bool-cases (text_eqb token t)) [
      | inl e ↦
          let q : token ≡ t = (text_eqb_iff token t).0 e in
          let b : some_of (text_eqb name) (expand_token r t) ≡ true =
            subst (λ x. some_of (text_eqb name) (expand_token r x) ≡ true) q h in
          ground arith
      | inr e ↦ let rest = expand_tokens_has r name token ts (ground arith) h in ground arith
    ]

expand_token_plain :
    (r : BuiltInToolRegistry) (token : Text)
    → is_empty (trim_space token) ≡ false
    → text_eqb (trim_space token) (text "group:openclaw") ≡ false
    → lookup (trim_space token) r.groups ≡ none
    → expand_token r token ≡ canonical_alias r (trim_space token) ∷ []
unfolding expand_token
expand_token_plain r token e o g = ground arith

-- Where some token of the deny list, which is no group, has the same canonical name as the given name,
-- `Allows` is false of that canonical name, whatever the list of allowed tools and the profile.
pub allows-denied :
    (lower : ℕ → ℕ) (r : BuiltInToolRegistry) (p : ToolPolicy) (token name : Text)
    → some_of (text_eqb token) p.deny ≡ true
    → is_empty (trim_space token) ≡ false
    → text_eqb (trim_space token) (text "group:openclaw") ≡ false
    → lookup (trim_space token) r.groups ≡ none
    → canonical_alias r (trim_space token) ≡ canonical_alias r name
    → allows lower r p (canonical_alias r name) ≡ false
unfolding allows matches_tool_token
allows-denied lower r p token name m e o g c =
    let x : expand_token r token ≡ canonical_alias r name ∷ [] =
      expand_token_plain r token e o g ∙ ap (λ z. z ∷ []) c in
    let h : some_of (text_eqb (canonical_alias r name)) (expand_token r token) ≡ true =
      rw x (ground (arith, text_eqb_iff (canonical_alias r name) (canonical_alias r name))) in
    let k = expand_tokens_has r (canonical_alias r name) token p.deny m h in ground arith

-- The aliases that were not looked up.
abbrev unseen : Dict Text Text → List Text → ℕ
unseen aliases seen = count_of (λ e. not (some_of (text_eqb e.0) seen)) aliases

unseen_cons :
    (aliases : Dict Text Text) (name : Text) (seen : List Text)
    → unseen aliases (name ∷ seen) ≤ unseen aliases seen
unseen_cons [] name seen = omega arith
unseen_cons ((a, b) ∷ aliases) name seen =
    ground (arith, unseen_cons aliases name seen, Bool-cases (text_eqb a name))

unseen_less :
    (aliases : Dict Text Text) (name mapped : Text) (seen : List Text)
    → lookup name aliases ≡ some mapped
    → some_of (text_eqb name) seen ≡ false
    → unseen aliases (name ∷ seen) < unseen aliases seen
unfolding lookup
unseen_less [] name mapped seen h s = cc
unseen_less ((a, b) ∷ aliases) name mapped seen h s = elim (Bool-cases (text_eqb a name)) [
  | inl e ↦
      let q : a ≡ name = (text_eqb_iff a name).0 e in
      let t : some_of (text_eqb a) seen ≡ false =
        subst (λ x. some_of (text_eqb x) seen ≡ false) (sym q) s in
      ground (arith, unseen_cons aliases name seen)
  | inr e ↦ ground (arith, unseen_less aliases name mapped seen)
]

pub follow_end :
    (fuel : ℕ) (aliases : Dict Text Text) (seen : List Text) (name : Text)
    → lookup name aliases ≡ none
    → follow_aliases (suc fuel) aliases seen name ≡ name
unfolding follow_aliases
follow_end fuel aliases seen name e = ground arith

pub follow_stop :
    (fuel : ℕ) (aliases : Dict Text Text) (seen : List Text) (name mapped : Text)
    → lookup name aliases ≡ some mapped
    → (text_eqb mapped name || some_of (text_eqb name) seen) ≡ true
    → follow_aliases (suc fuel) aliases seen name ≡ name
unfolding follow_aliases
follow_stop fuel aliases seen name mapped e b = ground arith

pub follow_next :
    (fuel : ℕ) (aliases : Dict Text Text) (seen : List Text) (name mapped : Text)
    → lookup name aliases ≡ some mapped
    → (text_eqb mapped name || some_of (text_eqb name) seen) ≡ false
    → follow_aliases (suc fuel) aliases seen name
      ≡ follow_aliases fuel aliases (name ∷ seen) (trim_space mapped)
unfolding follow_aliases
follow_next fuel aliases seen name mapped e b = ground arith

follow_aliases_more :
    (fuel : ℕ) (aliases : Dict Text Text) (seen : List Text) (name : Text)
    → unseen aliases seen < fuel
    → follow_aliases (suc fuel) aliases seen name ≡ follow_aliases fuel aliases seen name
follow_aliases_more zero aliases seen name h = ground arith
follow_aliases_more (suc fuel) aliases seen name h = elim (Option-cases (lookup name aliases)) [
  | inl e ↦ follow_end (suc fuel) aliases seen name e ∙ sym (follow_end fuel aliases seen name e)
  | inr (mapped, e) ↦ elim (Bool-cases (text_eqb mapped name || some_of (text_eqb name) seen)) [
    | inl b ↦
        follow_stop (suc fuel) aliases seen name mapped e b
        ∙ sym (follow_stop fuel aliases seen name mapped e b)
    | inr b ↦
        let l = unseen_less aliases name mapped seen e (ground arith) in
        follow_next (suc fuel) aliases seen name mapped e b
        ∙ (follow_aliases_more fuel aliases (name ∷ seen) (trim_space mapped) (omega arith)
            ∙ sym (follow_next fuel aliases seen name mapped e b))
  ]
]

unseen_all : (aliases : Dict Text Text) → unseen aliases [] ≡ length aliases
unseen_all [] = refl
unseen_all ((a, b) ∷ aliases) = ap suc (unseen_all aliases)

-- The fuel of `canonical_alias` is enough: with more, whatever the number, the result is the same.
pub canonical_alias_fuel :
    (more : ℕ) (r : BuiltInToolRegistry) (name : Text)
    → follow_aliases (more + suc (length r.aliases)) r.aliases [] (trim_space name)
      ≡ canonical_alias r name
unfolding canonical_alias
canonical_alias_fuel zero r name =
    let e : 0 + suc (length r.aliases) ≡ suc (length r.aliases) = omega arith in rw e refl
canonical_alias_fuel (suc more) r name =
    let e : suc more + suc (length r.aliases) ≡ suc (more + suc (length r.aliases)) = omega arith in
    rw e (
      follow_aliases_more (more + suc (length r.aliases)) r.aliases [] (trim_space name)
        (omega (arith, unseen_all r.aliases))
      ∙ canonical_alias_fuel more r name)
