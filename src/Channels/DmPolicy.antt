-- ===== src/Channels/DmPolicy.antt =====
-- internal/channels/dm_policy.go: whether a direct message is let through. `lower` and `upper` stand
-- for `unicode.ToLower` and `unicode.ToUpper`. The reply of a pairing is the code it tells of.
use koios.Prelude.{
  ℕ, ◌≡◌, refl, ◌↔◌, ◌⊎◌, Bool, true, false, Option, none, some, map, arith, if◌then◌else◌, nat_eq,
  Dict, Text, text, text_eqb, text_eq, is_empty, trim_space,
}
use koios.Channels.BindingData.{
  PendingBinding, BindingRequest, BindingStore, Error, Result, Env, ok, err,
}
use koios.Channels.Bindings.{is_approved, ensure_pending}

pub data DmPolicy : Type 0 where
  dm_policy_open dm_policy_pairing dm_policy_closed : DmPolicy

-- `Store` is an argument of the functions.
pub record DirectMessageAuthRequest : Type 0 where
  pub channel : Text
  pub policy : Text
  pub subject_id : Text
  pub conversation_id : Text
  pub username : Text
  pub display_name : Text
  pub metadata : Dict Text Text
  pub pairing_code_ttl : ℕ
  pub allowed : Bool
  pub closed_message : Text

pub data Reply : Type 0 where
  no_reply : Reply
  closed_reply : Text → Reply
  pairing_reply : Text → Text → Reply

pub record DirectMessageAuthDecision : Type 0 where
  pub allowed : Bool
  pub reply : Reply
  pub pending : Option PendingBinding

-- What the request comes to: an error of the store, the lack of a store, or a decision.
pub data Outcome : Type 0 where
  decided : DirectMessageAuthDecision → Outcome
  failed : Error → Outcome
  requires_store : Text → Outcome

abbrev pub let_in : DirectMessageAuthDecision
let_in = record { allowed = true; reply = no_reply; pending = none }

abbrev pub dropped : DirectMessageAuthDecision
dropped = record { allowed = false; reply = no_reply; pending = none }

unfoldable pub closed_decision : DirectMessageAuthRequest → DirectMessageAuthDecision
closed_decision req = record {
  allowed = false;
  reply = closed_reply (
      if is_empty (trim_space req.closed_message)
      then text "Direct messages are closed for this bot."
      else trim_space req.closed_message);
  pending = none;
}

unfoldable pub binding_request : DirectMessageAuthRequest → BindingRequest
binding_request req = record {
  channel = req.channel;
  subject_id = trim_space req.subject_id;
  conversation_id = trim_space req.conversation_id;
  username = trim_space req.username;
  display_name = trim_space req.display_name;
  metadata = req.metadata;
  ttl = req.pairing_code_ttl;
}

unfoldable pub pairing_decision :
    Text
    → Option BindingStore
    → Result (BindingStore × Option PendingBinding)
    → Outcome × Option BindingStore
pairing_decision channel s (err e) = (failed e, s)
pairing_decision channel s (ok (s', none)) = (decided dropped, some s')
pairing_decision channel s (ok (s', some p)) = (
  decided (record {
    allowed = false;
    reply = pairing_reply (trim_space channel) p.code;
    pending = some p;
  }),
  some s',
)

unfoldable pub lets_in : Outcome → Bool
lets_in (decided d) = d.allowed
lets_in (failed e) = false
lets_in (requires_store c) = false

pairing_decision-lets_in :
    (channel : Text) (s : Option BindingStore) (r : Result (BindingStore × Option PendingBinding))
    → lets_in ((pairing_decision channel s r).0) ≡ false
unfolding pairing_decision lets_in
pairing_decision-lets_in channel s (err e) = refl
pairing_decision-lets_in channel s (ok (s', none)) = refl
pairing_decision-lets_in channel s (ok (s', some p)) = refl

module _ (lower upper : ℕ → ℕ) where
  unfoldable pub normalize_direct_message_policy : Text → DmPolicy
  normalize_direct_message_policy policy =
      let p = map lower (trim_space policy) in
      if text_eqb p (text "pairing")
      then dm_policy_pairing
      else if text_eqb p (text "closed")
      then dm_policy_closed
      else dm_policy_open

  unfoldable pub pair_with :
      Env → DirectMessageAuthRequest → Option BindingStore → Outcome × Option BindingStore
  pair_with env req none = (requires_store (trim_space req.channel), none)
  pair_with env req (some s) =
      pairing_decision req.channel (some s) (ensure_pending lower upper env (binding_request req) s)

  -- The switch on the policy, for a sender who is not approved.
  unfoldable pub by_policy :
      Env
      → DirectMessageAuthRequest
      → Option BindingStore
      → DmPolicy
      → Outcome × Option BindingStore
  by_policy env req s dm_policy_open = (decided let_in, s)
  by_policy env req s dm_policy_closed = (decided (closed_decision req), s)
  by_policy env req s dm_policy_pairing = pair_with env req s

  unfoldable pub after_approval_check :
      Env
      → DirectMessageAuthRequest
      → Option BindingStore
      → Result Bool
      → Outcome × Option BindingStore
  after_approval_check env req s (err e) = (failed e, s)
  after_approval_check env req s (ok true) = (decided let_in, s)
  after_approval_check env req s (ok false) =
      by_policy env req s (normalize_direct_message_policy req.policy)

  unfoldable pub authorize_direct_message :
      Env → DirectMessageAuthRequest → Option BindingStore → Outcome × Option BindingStore
  authorize_direct_message env req s =
      if req.allowed
      then (decided let_in, s)
      else if is_empty (trim_space req.subject_id)
      then (decided dropped, s)
      else after_approval_check env req s
          (is_approved lower upper env.now req.channel (trim_space req.subject_id) s)

  pair_with-lets_in :
      (env : Env) (req : DirectMessageAuthRequest) (s : Option BindingStore)
      → lets_in ((pair_with env req s).0) ≡ false
  unfolding pair_with lets_in
  pair_with-lets_in env req none = refl
  pair_with-lets_in env req (some s) =
      pairing_decision-lets_in req.channel (some s)
        (ensure_pending lower upper env (binding_request req) s)

  by_policy-lets_in :
      (env : Env) (req : DirectMessageAuthRequest) (s : Option BindingStore) (p : DmPolicy)
      → (lets_in ((by_policy env req s p).0) ≡ true) ↔ (p ≡ dm_policy_open)
  unfolding by_policy lets_in closed_decision
  by_policy-lets_in env req s dm_policy_open = ground arith
  by_policy-lets_in env req s dm_policy_closed = ground arith
  by_policy-lets_in env req s dm_policy_pairing = ground (arith, pair_with-lets_in env req s)

  after_approval_check-lets_in :
      (env : Env) (req : DirectMessageAuthRequest) (s : Option BindingStore) (r : Result Bool)
      → (lets_in ((after_approval_check env req s r).0) ≡ true) ↔ (
          (r ≡ ok true)
          ⊎ ((r ≡ ok false) × (normalize_direct_message_policy req.policy ≡ dm_policy_open)))
  unfolding after_approval_check lets_in
  after_approval_check-lets_in env req s (err e) = ground arith
  after_approval_check-lets_in env req s (ok true) = ground arith
  after_approval_check-lets_in env req s (ok false) =
      ground (arith, by_policy-lets_in env req s (normalize_direct_message_policy req.policy))

  -- A direct message is let through exactly if the channel allows the sender outright, or the sender
  -- has an id and either is approved in the store or is not approved while the policy is open. A
  -- store that cannot be read lets nobody in, and neither does a pairing or a closed policy.
  pub authorize_direct_message_lem :
      (env : Env) (req : DirectMessageAuthRequest) (s : Option BindingStore)
      → (lets_in ((authorize_direct_message env req s).0) ≡ true) ↔ (
          (req.allowed ≡ true)
          ⊎ ((is_empty (trim_space req.subject_id) ≡ false)
              × ((is_approved lower upper env.now req.channel (trim_space req.subject_id) s
                    ≡ ok true)
                  ⊎ ((is_approved lower upper env.now req.channel (trim_space req.subject_id) s
                        ≡ ok false)
                      × (normalize_direct_message_policy req.policy ≡ dm_policy_open)))))
  unfolding authorize_direct_message lets_in
  authorize_direct_message_lem env req s = ground (
    arith,
    after_approval_check-lets_in env req s
        (is_approved lower upper env.now req.channel (trim_space req.subject_id) s),
  )
