-- ===== src/Presence/Typing.antt =====
-- internal/presence/manager.go, `ClearExpiredTyping`.
use koios.Prelude.{
  ℕ, ◌-◌, ◌≡◌, ◌<◌, ◌⊎◌, inl, inr, refl, arith, true, false, Option, none, some, [], ◌∷◌, ltb,
  if◌then◌else◌, Bool-cases, Option-cases, Dict, lookup, Text, text_eq,
}
use koios.Presence.Manager.{
  State, Manager, get, is_stale, cleared, clear_entries, clear_expired_typing,
}

abbrev after_clear : ℕ → ℕ → Option State → Option State
after_clear ttl now none = none
after_clear ttl now (some st) = some (if is_stale ttl now st then cleared now st else st)

lookup-clear_entries :
    (ttl now : ℕ) (p : Text) (sts : Dict Text State)
    → lookup p (clear_entries ttl now sts) ≡ after_clear ttl now (lookup p sts)
unfolding lookup clear_entries
lookup-clear_entries ttl now p [] = refl
lookup-clear_entries ttl now p ((q, st) ∷ sts) = ground (arith, lookup-clear_entries ttl now p sts)

-- A peer that is typing after a clearing was so before it, in the same state, which is younger than
-- the time to live. A peer keeps its state unless it was typing for that time: then it is not typing
-- since the clearing, and the rest of its state is the same.
pub clear_expired_typing_lem :
    (now : ℕ) (m : Manager) (p : Text) (st : State)
    → let after = (clear_expired_typing now m).0 in
      (get p after ≡ some st
        → st.typing ≡ true
        → (get p m ≡ some st) × (now - st.updated_at < m.typing_ttl))
      × (get p m ≡ some st
          → (get p after ≡ some st)
            ⊎ ((st.typing ≡ true)
                × (ltb (now - st.updated_at) m.typing_ttl ≡ false)
                × (get p after ≡ some (record st { typing = false; updated_at = now }))))
unfolding clear_expired_typing get is_stale cleared
clear_expired_typing_lem now m p st =
    let l = lookup-clear_entries m.typing_ttl now p m.states in
    (
      λ h t. elim (Option-cases (lookup p m.states)) [
        | inl e ↦ absurd (ground arith)
        | inr (s, e) ↦ elim (Bool-cases (is_stale m.typing_ttl now s)) [
          | inl b ↦ absurd (ground arith)
          | inr b ↦ ground arith
        ]
      ],
      λ h. elim (Bool-cases (is_stale m.typing_ttl now st)) [
        | inl b ↦ ground arith
        | inr b ↦ inl (ground arith)
      ],
    )
