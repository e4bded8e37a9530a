-- ===== src/Channels/Bindings.antt =====
-- internal/channels/bindings.go, the operations of the store. `lower` and `upper` stand for
-- `unicode.ToLower` and `unicode.ToUpper`.
use koios.Prelude.{
  ℕ, ◌+◌, Bool, true, false, not, Option, none, some, ◌∷◌, ◌++◌, map, ltb, nat_eqb, if◌then◌else◌,
  nat_eq, Dict, lookup, insert, delete, Text, text_eqb, text_eq, is_empty, trim_space,
}
use koios.Channels.BindingData.{
  PendingBinding, ApprovedBinding, BindingRequest, BindingRoute, BindingFile, BindingStore, Result,
  ◌>>=◌, Env, hours, load_locked, save_locked, copy_binding_metadata, find_code, refreshed,
  as_pending, as_approved, or_fail, require, channel_required, subject_required, code_required,
  random_failed, code_not_found, wrong_channel, binding_not_found, ok, err,
}

module _ (lower upper : ℕ → ℕ) where
  unfoldable pub normalize_binding_channel : Text → Text
  normalize_binding_channel channel = map lower (trim_space channel)

  unfoldable pub normalize_code : Text → Text
  normalize_code code = map upper (trim_space code)

  unfoldable pub binding_key : Text → Text → Result Text
  binding_key channel subject_id =
      let c = normalize_binding_channel channel in
      let s = trim_space subject_id in
      if is_empty c
      then err channel_required
      else if is_empty s
      then err subject_required
      else ok (c ++ (b':' ∷ s))

  unfoldable pub is_approved : ℕ → Text → Text → Option BindingStore → Result Bool
  is_approved now channel subject_id none = ok false
  is_approved now channel subject_id (some s) = do
    key ← binding_key channel subject_id
    f ← load_locked now s
    ok (elim (lookup key f.approved) [ some a ↦ true | none ↦ false ])

  unfoldable pub new_pending : ℕ → Text → BindingRequest → PendingBinding
  new_pending now code req = record {
    code = code;
    channel = normalize_binding_channel req.channel;
    subject_id = trim_space req.subject_id;
    conversation_id = trim_space req.conversation_id;
    username = trim_space req.username;
    display_name = trim_space req.display_name;
    metadata = copy_binding_metadata req.metadata;
    created_at = now;
    expires_at = now + (if nat_eqb req.ttl 0 then hours 24 else req.ttl);
  }

  unfoldable pub save_pending :
      Env
      → Text
      → PendingBinding
      → BindingFile
      → BindingStore
      → Result (BindingStore × Option PendingBinding)
  save_pending env key p f s = do
    s' ← save_locked env.accepted (record f { pending = insert key p f.pending }) s
    ok (s', some p)

  unfoldable pub create_pending :
      Env
      → BindingRequest
      → Text
      → BindingFile
      → BindingStore
      → Result (BindingStore × Option PendingBinding)
  create_pending env req key f s = do
    code ← or_fail env.random_code random_failed
    save_pending env key (new_pending env.now code req) f s

  -- `EnsurePending` on a store, once the file is read: an approved sender, a request that is still
  -- pending, and a new one.
  unfoldable pub ensure_in :
      Env
      → BindingRequest
      → Text
      → BindingFile
      → BindingStore
      → Result (BindingStore × Option PendingBinding)
  ensure_in env req key f s = elim (lookup key f.approved) [
    | some a ↦ ok (s, some (as_pending a))
    | none ↦ elim (lookup key f.pending) [
      | some p ↦
          if ltb env.now p.expires_at
          then save_pending env key (refreshed req p) f s
          else create_pending env req key f s
      | none ↦ create_pending env req key f s
    ]
  ]

  unfoldable pub ensure_pending :
      Env → BindingRequest → BindingStore → Result (BindingStore × Option PendingBinding)
  ensure_pending env req s = do
    key ← binding_key req.channel req.subject_id
    f ← load_locked env.now s
    ensure_in env req key f s

  unfoldable pub approve_entry :
      Env
      → Text
      → BindingRoute
      → BindingFile
      → BindingStore
      → Text × PendingBinding
      → Result (BindingStore × ApprovedBinding)
  approve_entry env approved_by route f s (key, p) = do
    let a = as_approved env.now approved_by route p
    s' ←
        save_locked env.accepted
          (record { pending = delete key f.pending; approved = insert key a f.approved }) s
    ok (s', a)

  unfoldable pub approve_code_with_route :
      Env → Text → Text → BindingRoute → BindingStore → Result (BindingStore × ApprovedBinding)
  approve_code_with_route env code approved_by route s = do
    let c = normalize_code code
    _ ← require (not (is_empty c)) code_required
    f ← load_locked env.now s
    e ← or_fail (find_code c f.pending) (code_not_found c)
    approve_entry env approved_by route f s e

  unfoldable pub approve_code_for_channel_with_route :
      Env
      → Text
      → Text
      → Text
      → BindingRoute
      → BindingStore
      → Result (BindingStore × ApprovedBinding)
  approve_code_for_channel_with_route env channel code approved_by route s = do
    let ch = normalize_binding_channel channel
    let c = normalize_code code
    _ ← require (not (is_empty ch)) channel_required
    _ ← require (not (is_empty c)) code_required
    f ← load_locked env.now s
    e ← or_fail (find_code c f.pending) (code_not_found c)
    _ ← require (text_eqb (e.1).channel ch) (wrong_channel c (e.1).channel ch)
    approve_entry env approved_by route f s e

  unfoldable pub reject_entry :
      Env
      → BindingFile
      → BindingStore
      → Text × PendingBinding
      → Result (BindingStore × PendingBinding)
  reject_entry env f s (key, p) = do
    s' ← save_locked env.accepted (record f { pending = delete key f.pending }) s
    ok (s', p)

  unfoldable pub reject_code : Env → Text → BindingStore → Result (BindingStore × PendingBinding)
  reject_code env code s = do
    let c = normalize_code code
    _ ← require (not (is_empty c)) code_required
    f ← load_locked env.now s
    e ← or_fail (find_code c f.pending) (code_not_found c)
    reject_entry env f s e

  unfoldable pub reject_code_for_channel :
      Env → Text → Text → BindingStore → Result (BindingStore × PendingBinding)
  reject_code_for_channel env channel code s = do
    let ch = normalize_binding_channel channel
    let c = normalize_code code
    _ ← require (not (is_empty ch)) channel_required
    _ ← require (not (is_empty c)) code_required
    f ← load_locked env.now s
    e ← or_fail (find_code c f.pending) (code_not_found c)
    _ ← require (text_eqb (e.1).channel ch) (wrong_channel c (e.1).channel ch)
    reject_entry env f s e

  unfoldable pub approved_binding : ℕ → Text → Text → BindingStore → Result (Option ApprovedBinding)
  approved_binding now channel subject_id s = do
    key ← binding_key channel subject_id
    f ← load_locked now s
    ok (lookup key f.approved)

  -- The common part of `UpdateApprovedRoute` and `UpdateApprovedMetadata`.
  unfoldable pub update_approved :
      Env
      → (ApprovedBinding → ApprovedBinding)
      → Text
      → Text
      → BindingStore
      → Result (BindingStore × ApprovedBinding)
  update_approved env change channel subject_id s = do
    key ← binding_key channel subject_id
    f ← load_locked env.now s
    a ←
        or_fail (lookup key f.approved)
          (binding_not_found (normalize_binding_channel channel) (trim_space subject_id))
    s' ← save_locked env.accepted (record f { approved = insert key (change a) f.approved }) s
    ok (s', change a)

  unfoldable pub update_approved_route :
      Env → Text → Text → BindingRoute → BindingStore → Result (BindingStore × ApprovedBinding)
  update_approved_route env channel subject_id route s =
      update_approved env
        (λ a. record a {
          peer_id = trim_space route.peer_id;
          session_key = trim_space route.session_key;
        })
        channel subject_id s

  unfoldable pub update_approved_metadata :
      Env → Text → Text → Dict Text Text → BindingStore → Result (BindingStore × ApprovedBinding)
  update_approved_metadata env channel subject_id metadata s =
      update_approved env (λ a. record a { metadata = copy_binding_metadata metadata }) channel
        subject_id s
