-- ===== src/Channels/Approval.antt =====
-- internal/channels/bindings.go: who gets approved, and how.
use koios.Prelude.{
  ℕ, ◌≡◌, refl, ap, inl, inr, Bool, true, false, Option, some, arith, Bool-cases, Option-cases,
  nat_eq, Dict, lookup, insert, Text, text_eq, is_empty, trim_space,
}
use koios.Channels.BindingData.{
  PendingBinding, ApprovedBinding, BindingRequest, BindingFile, BindingStore, Result, ◌>>=◌, Env,
  drop_expired, read_disk, load_locked, save_locked, refreshed, or_fail, ok, >>=-eq-ok,
}
use koios.Channels.Bindings.{
  binding_key, is_approved, new_pending, save_pending, create_pending, ensure_in, ensure_pending,
}

-- What a reader finds after a write that was accepted.
pub load-save :
    (now : ℕ) (accepted : Bool) (f : BindingFile) (s s' : BindingStore)
    → is_empty (trim_space s.path) ≡ false
    → save_locked accepted f s ≡ ok s'
    → (load_locked now s' ≡ ok (record f { pending = drop_expired now f.pending }))
      × (s'.path ≡ s.path)
unfolding load_locked save_locked read_disk
load-save now accepted f s s' p h = ground arith

save_blank :
    (accepted : Bool) (f : BindingFile) (s s' : BindingStore)
    → is_empty (trim_space s.path) ≡ true
    → save_locked accepted f s ≡ ok s'
    → s' ≡ s
unfolding save_locked
save_blank accepted f s s' p h = ground arith

-- The approved senders that a reader finds, if it can read.
approved_in : ℕ → BindingStore → Result (Dict Text ApprovedBinding)
approved_in now s = do f ← load_locked now s; ok f.approved

save_keeps_approved :
    (now : ℕ) (accepted : Bool) (f g : BindingFile) (s s' : BindingStore)
    → load_locked now s ≡ ok f
    → g.approved ≡ f.approved
    → save_locked accepted g s ≡ ok s'
    → approved_in now s' ≡ approved_in now s
unfolding approved_in
save_keeps_approved now accepted f g s s' l e h = elim (Bool-cases (is_empty (trim_space s.path))) [
  | inl b ↦ ap (approved_in now) (save_blank accepted g s s' b h)
  | inr b ↦ ground (arith, load-save now accepted g s s' b h)
]

module _ (lower upper : ℕ → ℕ) where
  save_pending_approved :
      (env : Env) (key : Text) (b : PendingBinding) (f : BindingFile) (s s' : BindingStore)
      (p : Option PendingBinding)
      → load_locked env.now s ≡ ok f
      → save_pending lower upper env key b f s ≡ ok (s', p)
      → approved_in env.now s' ≡ approved_in env.now s
  unfolding save_pending
  save_pending_approved env key b f s s' p l h = ground (
    arith,
    save_keeps_approved env.now env.accepted f (record f { pending = insert key b f.pending }) s s'
        l refl,
  )

  create_pending_approved :
      (env : Env) (req : BindingRequest) (key : Text) (f : BindingFile) (s s' : BindingStore)
      (p : Option PendingBinding)
      → load_locked env.now s ≡ ok f
      → create_pending lower upper env req key f s ≡ ok (s', p)
      → approved_in env.now s' ≡ approved_in env.now s
  unfolding create_pending or_fail
  create_pending_approved env req key f s s' p l h = elim (Option-cases env.random_code) [
    | inl e ↦ ground arith
    | inr (code, e) ↦
        save_pending_approved env key (new_pending lower upper env.now code req) f s s' p l
          (ground arith)
  ]

  ensure_in_approved :
      (env : Env) (req : BindingRequest) (key : Text) (f : BindingFile) (s s' : BindingStore)
      (p : Option PendingBinding)
      → load_locked env.now s ≡ ok f
      → ensure_in lower upper env req key f s ≡ ok (s', p)
      → approved_in env.now s' ≡ approved_in env.now s
  unfolding ensure_in
  ensure_in_approved env req key f s s' p l h = elim (Option-cases (lookup key f.approved)) [
    | inr (a, e) ↦ ground arith
    | inl e ↦ elim (Option-cases (lookup key f.pending)) [
      | inl e' ↦ create_pending_approved env req key f s s' p l (ground arith)
      | inr (b, e') ↦ ground (
        arith,
        create_pending_approved env req key f s s' p l,
        save_pending_approved env key (refreshed req b) f s s' p l,
      )
    ]
  ]

  is_approved_of :
      (now : ℕ) (channel subject_id : Text) (s s' : BindingStore)
      → approved_in now s' ≡ approved_in now s
      → is_approved lower upper now channel subject_id (some s')
        ≡ is_approved lower upper now channel subject_id (some s)
  unfolding is_approved approved_in
  is_approved_of now channel subject_id s s' h = ground arith

  -- A request for access that succeeds lets nobody in: whatever it stores, whether a sender is
  -- approved is afterwards what it was before, for every sender.
  pub ensure_pending_approves_nobody :
      (env : Env) (req : BindingRequest) (s s' : BindingStore) (p : Option PendingBinding)
      (channel subject_id : Text)
      → ensure_pending lower upper env req s ≡ ok (s', p)
      → is_approved lower upper env.now channel subject_id (some s')
        ≡ is_approved lower upper env.now channel subject_id (some s)
  unfolding ensure_pending
  ensure_pending_approves_nobody env req s s' p channel subject_id h =
      let (key, ek, h1) = >>=-eq-ok (binding_key lower upper req.channel req.subject_id) _ h in
      let (f, ef, h2) = >>=-eq-ok (load_locked env.now s) _ h1 in
      is_approved_of env.now channel subject_id s s' (ensure_in_approved env req key f s s' p ef h2)
