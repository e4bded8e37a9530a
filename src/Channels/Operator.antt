-- ===== src/Channels/Operator.antt =====
-- internal/channels/bindings.go: what the operator's approval and rejection of a code do.
use koios.Prelude.{
  ℕ, ◌≡◌, refl, sym, ap, subst, ◌∙◌, inl, inr, false, not, none, some, [], ◌∷◌, arith,
  if◌then◌else◌, Bool-cases, nat_eq, Dict, lookup, insert, delete, lookup-insert, lookup-delete,
  lookup-keep-none, Text, text_eqb, text_eqb_iff, text_eq, is_empty, trim_space,
}
use koios.Channels.BindingData.{
  PendingBinding, ApprovedBinding, BindingRoute, BindingFile, Disk, BindingStore, Env, has_expired,
  drop_expired, copy_binding_metadata, read_disk, load_locked, find_code, as_approved, or_fail,
  require, missing, unreadable, undecodable, holds, channel_required, code_required, code_not_found,
  wrong_channel, ok, >>=-eq-ok, or_fail-ok, require-ok,
}
use koios.Channels.Bindings.{
  normalize_binding_channel, normalize_code, approve_entry, approve_code_for_channel_with_route,
  reject_entry, reject_code_for_channel,
}
use koios.Channels.Approval.{load-save}

find_code-keep :
    (now : ℕ) (code key : Text) (p : PendingBinding) (m : Dict Text PendingBinding)
    → find_code code (drop_expired now m) ≡ some (key, p)
    → (has_expired now p ≡ false) × (p.code ≡ code)
unfolding find_code drop_expired
find_code-keep now code key p [] h = cc
find_code-keep now code key p ((j, v) ∷ m) h =
    ground (arith, find_code-keep now code key p m, text_eqb_iff v.code code)

read_disk-dropped :
    (now : ℕ) (d : Disk) (f : BindingFile)
    → read_disk now d ≡ ok f
    → (m : Dict Text PendingBinding) × (f.pending ≡ drop_expired now m)
unfolding read_disk drop_expired
read_disk-dropped now missing f h = ([], ground arith)
read_disk-dropped now unreadable f h = cc
read_disk-dropped now undecodable f h = cc
read_disk-dropped now (holds g) f h = (g.pending, ground arith)

load_locked-dropped :
    (now : ℕ) (s : BindingStore) (f : BindingFile)
    → load_locked now s ≡ ok f
    → (m : Dict Text PendingBinding) × (f.pending ≡ drop_expired now m)
unfolding load_locked drop_expired
load_locked-dropped now s f h = elim (Bool-cases (is_empty (trim_space s.path))) [
  | inl e ↦ ([], ground arith)
  | inr e ↦ read_disk-dropped now s.disk f (ground arith)
]

-- A code that is found belongs to a request whose time is not up.
unexpired_entry :
    (now : ℕ) (code key : Text) (p : PendingBinding) (s : BindingStore) (f : BindingFile)
    → load_locked now s ≡ ok f
    → find_code code f.pending ≡ some (key, p)
    → (has_expired now p ≡ false) × (p.code ≡ code)
unexpired_entry now code key p s f l h =
    let (m, e) = load_locked-dropped now s f l in find_code-keep now code key p m (rw e at h)

gone :
    (now : ℕ) (key : Text) (m : Dict Text PendingBinding)
    → lookup key (drop_expired now (delete key m)) ≡ none
unfolding drop_expired
gone now key m =
    lookup-keep-none _ key (delete key m)
      (ground (arith, lookup-delete key key m, text_eqb_iff key key))

as_approved_with :
    (now : ℕ) (by : Text) (route : BindingRoute) (p : PendingBinding) (c : Text)
    → p.code ≡ c
    → as_approved now by route p ≡ record {
      channel = p.channel;
      subject_id = p.subject_id;
      conversation_id = p.conversation_id;
      username = p.username;
      display_name = p.display_name;
      peer_id = trim_space route.peer_id;
      session_key = trim_space route.session_key;
      metadata = copy_binding_metadata p.metadata;
      approved_at = now;
      approved_by = trim_space by;
      code = c;
    }
unfolding as_approved
as_approved_with now by route p c h =
    subst
      (λ x. as_approved now by route p ≡ record {
        channel = p.channel;
        subject_id = p.subject_id;
        conversation_id = p.conversation_id;
        username = p.username;
        display_name = p.display_name;
        peer_id = trim_space route.peer_id;
        session_key = trim_space route.session_key;
        metadata = copy_binding_metadata p.metadata;
        approved_at = now;
        approved_by = trim_space by;
        code = x;
      })
      h refl

-- From store `s` to `s'`, what approving the code `c` of a request of channel `ch` amounts to, for
-- any sender `k`.
abbrev pub Approves :
    ℕ
    → Text
    → BindingRoute
    → BindingStore
    → BindingStore
    → Text
    → Text
    → ApprovedBinding
    → Text
    → Type 0
Approves now by route s s' c ch a k =
    (f : BindingFile) × (f' : BindingFile) × (key : Text) × (p : PendingBinding) × (load_locked now
        s
      ≡ ok f)
    × (load_locked now s' ≡ ok f')
    × (find_code c f.pending ≡ some (key, p))
    × (p.channel ≡ ch)
    × (has_expired now p ≡ false)
    × (a ≡ record {
      channel = p.channel;
      subject_id = p.subject_id;
      conversation_id = p.conversation_id;
      username = p.username;
      display_name = p.display_name;
      peer_id = trim_space route.peer_id;
      session_key = trim_space route.session_key;
      metadata = copy_binding_metadata p.metadata;
      approved_at = now;
      approved_by = trim_space by;
      code = c;
    })
    × (f'.pending ≡ drop_expired now (delete key f.pending))
    × (f'.approved ≡ insert key a f.approved)
    × (lookup key f'.pending ≡ none)
    × (lookup k f'.approved ≡ (if text_eqb key k then some a else lookup k f.approved))

module _ (lower upper : ℕ → ℕ) where
  -- What one approval of the entry under `key` does to the file.
  approve_entry_effect :
      (env : Env) (by : Text) (route : BindingRoute) (f : BindingFile) (s s' : BindingStore)
      (key : Text) (p : PendingBinding) (a : ApprovedBinding)
      → is_empty (trim_space s.path) ≡ false
      → approve_entry lower upper env by route f s (key, p) ≡ ok (s', a)
      → (a ≡ as_approved env.now by route p)
        × (load_locked env.now s'
            ≡ ok (record {
              pending = drop_expired env.now (delete key f.pending);
              approved = insert key a f.approved;
            }))
  unfolding approve_entry
  approve_entry_effect env by route f s s' key p a path h =
      let g : BindingFile = record {
        pending = delete key f.pending;
        approved = insert key (as_approved env.now by route p) f.approved;
      } in
      ground (arith, load-save env.now env.accepted g s s' path)

  reject_entry_effect :
      (env : Env) (f : BindingFile) (s s' : BindingStore) (key : Text) (r p : PendingBinding)
      → is_empty (trim_space s.path) ≡ false
      → reject_entry lower upper env f s (key, r) ≡ ok (s', p)
      → (p ≡ r)
        × (load_locked env.now s'
            ≡ ok (record f { pending = drop_expired env.now (delete key f.pending) }))
  unfolding reject_entry
  reject_entry_effect env f s s' key r p path h =
      let g : BindingFile = record f { pending = delete key f.pending } in
      ground (arith, load-save env.now env.accepted g s s' path)

  approved_by_entry :
      (env : Env) (by : Text) (route : BindingRoute) (f : BindingFile) (s s' : BindingStore)
      (ch c key : Text) (p : PendingBinding) (a : ApprovedBinding) (k : Text)
      → is_empty (trim_space s.path) ≡ false
      → load_locked env.now s ≡ ok f
      → find_code c f.pending ≡ some (key, p)
      → p.channel ≡ ch
      → approve_entry lower upper env by route f s (key, p) ≡ ok (s', a)
      → Approves env.now by route s s' c ch a k
  approved_by_entry env by route f s s' ch c key p a k path l e hc h =
      let (q, l') = approve_entry_effect env by route f s s' key p a path h in
      let (up, same_code) = unexpired_entry env.now c key p s f l e in
      (
        f,
        record {
          pending = drop_expired env.now (delete key f.pending);
          approved = insert key a f.approved;
        },
        key,
        p,
        l,
        l',
        e,
        hc,
        up,
        q ∙ as_approved_with env.now by route p c same_code,
        refl,
        refl,
        gone env.now key f.pending,
        lookup-insert key k a f.approved,
      )

  -- If approving a code for a channel succeeds, on a store with a path, then a pending request
  -- of that channel held the code and its time was not up. Afterwards an approval with the data of
  -- the request, the route and the operator's name stands under its key, in place of an earlier one if
  -- there was one, every other key is approved as it was, and the file holds the other requests whose
  -- time is not up, without that one.
  pub approve_code_for_channel_lem :
      (env : Env) (channel code by : Text) (route : BindingRoute) (s s' : BindingStore)
      (a : ApprovedBinding) (k : Text)
      → is_empty (trim_space s.path) ≡ false
      → approve_code_for_channel_with_route lower upper env channel code by route s ≡ ok (s', a)
      → Approves env.now by route s s'
          (normalize_code lower upper code)
          (normalize_binding_channel lower upper channel)
          a
          k
  unfolding approve_code_for_channel_with_route
  approve_code_for_channel_lem env channel code by route s s' a k path h =
      let ch = normalize_binding_channel lower upper channel in
      let c = normalize_code lower upper code in
      let (_, _, h1) = >>=-eq-ok (require (not (is_empty ch)) channel_required) _ h in
      let (_, _, h2) = >>=-eq-ok (require (not (is_empty c)) code_required) _ h1 in
      let (f, l, h3) = >>=-eq-ok (load_locked env.now s) _ h2 in
      let ((key, p), e, h4) = >>=-eq-ok (or_fail (find_code c f.pending) (code_not_found c)) _ h3 in
      let (_, hc, h5) =
        >>=-eq-ok (require (text_eqb p.channel ch) (wrong_channel c p.channel ch)) _ h4 in
      approved_by_entry env by route f s s' ch c key p a k path l (or_fail-ok _ _ e)
        ((text_eqb_iff p.channel ch).0 (require-ok _ _ hc)) h5

  -- If rejecting a code for a channel succeeds, on a store with a path, then a pending request
  -- of that channel held the code. Afterwards the file holds the other requests whose time is
  -- not up, without that one, and the approved senders it held before.
  pub reject_code_for_channel_lem :
      (env : Env) (channel code : Text) (s s' : BindingStore) (p : PendingBinding)
      → is_empty (trim_space s.path) ≡ false
      → reject_code_for_channel lower upper env channel code s ≡ ok (s', p)
      → (f : BindingFile) × (key : Text) × (load_locked env.now s ≡ ok f)
        × (find_code (normalize_code lower upper code) f.pending ≡ some (key, p))
        × (p.channel ≡ normalize_binding_channel lower upper channel)
        × (load_locked env.now s'
            ≡ ok (record f { pending = drop_expired env.now (delete key f.pending) }))
        × (lookup key (drop_expired env.now (delete key f.pending)) ≡ none)
  unfolding reject_code_for_channel
  reject_code_for_channel_lem env channel code s s' p path h =
      let ch = normalize_binding_channel lower upper channel in
      let c = normalize_code lower upper code in
      let (_, _, h1) = >>=-eq-ok (require (not (is_empty ch)) channel_required) _ h in
      let (_, _, h2) = >>=-eq-ok (require (not (is_empty c)) code_required) _ h1 in
      let (f, l, h3) = >>=-eq-ok (load_locked env.now s) _ h2 in
      let ((key, r), e, h4) = >>=-eq-ok (or_fail (find_code c f.pending) (code_not_found c)) _ h3 in
      let (_, hc, h5) =
        >>=-eq-ok (require (text_eqb r.channel ch) (wrong_channel c r.channel ch)) _ h4 in
      let (q, l') = reject_entry_effect env f s s' key r p path h5 in
      (
        f,
        key,
        l,
        subst (λ x. find_code c f.pending ≡ some (key, x)) (sym q) (or_fail-ok _ _ e),
        ap (λ x. x.channel) q ∙ (text_eqb_iff r.channel ch).0 (require-ok _ _ hc),
        l',
        gone env.now key f.pending,
      )
