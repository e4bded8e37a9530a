-- ===== src/Session/PolicyEffects.antt =====
-- internal/session/store.go: what is read back after a policy is set, patched or cleared.
use koios.Prelude.{
  ◌≡◌, refl, ◌∙◌, ◌≢◌, ◌⊎◌, inl, inr, Bool, true, false, Option, none, some, [], ◌∷◌, arith,
  if◌then◌else◌, Bool-cases, Option-cases, nat_eq, Dict, lookup, lookup-insert, lookup-delete, Text,
  text_eqb, text_eqb_iff, text_eq, is_empty, is_empty_iff, trim_space,
}
use koios.Session.Policies.{
  SessionPolicy, zero_policy, no_modes, no_switches, no_provider, is_zero_policy, Policies,
  save_policies, store_policy, set_policy, policy, patch_policy, owned_by, clear_references,
  clear_provider_profile_references,
}

no_modes-fields :
    (p : SessionPolicy)
    → no_modes p ≡ true
    → p ≡ record p {
      reply_back = false;
      inbox_read_user_count = 0;
      activation_mode = [];
      group_activation_mode = [];
      chat_activation_mode = [];
      usage_mode = [];
      model_override = [];
      active_profile = [];
      browser_profile = [];
      queue_mode = [];
    }
unfolding no_modes
no_modes-fields p h = ground arith

no_switches-fields :
    (p : SessionPolicy)
    → no_switches p ≡ true
    → p ≡ record p {
      think_level = [];
      reasoning_visibility = [];
      verbose_mode = false;
      trace_mode = false;
      block_stream = false;
      stream_chunk_chars = 0;
      stream_coalesce_ms = 0;
      session_kind = [];
      elevated_bash = false;
    }
unfolding no_switches
no_switches-fields p h = ground arith

no_provider-fields :
    (p : SessionPolicy)
    → no_provider p ≡ true
    → p ≡ record p {
      provider_profile = [];
      openai_previous_response_id = [];
      openai_covered_messages = 0;
      openai_covered_messages_hash = [];
      llm_route_key = [];
      llm_provider = [];
      llm_model = [];
      tools_allow = [];
      tools_deny = [];
    }
unfolding no_provider
no_provider-fields p h = ground arith

is_zero_policy-eq : (p : SessionPolicy) → is_zero_policy p ≡ true → p ≡ zero_policy
unfolding is_zero_policy
is_zero_policy-eq p h =
    ground (arith, no_modes-fields p, no_switches-fields p, no_provider-fields p)

policy-store_policy :
    (key key' : Text) (p : SessionPolicy) (ps : Policies)
    → policy key' (store_policy key p ps) ≡ (if text_eqb key key' then p else policy key' ps)
unfolding policy store_policy
policy-store_policy key key' p ps = ground (
  arith,
  lookup-insert key key' p ps.policies,
  lookup-delete key key' ps.policies,
  is_zero_policy-eq p,
)

policy-save_policies :
    (accepted : Bool) (key : Text) (ps : Policies)
    → policy key (save_policies accepted ps).0 ≡ policy key ps
unfolding policy save_policies
policy-save_policies accepted key ps = ground arith

-- A policy that was set is read back, also one whose fields are all empty, which the code deletes;
-- the other sessions keep theirs. Patching applies the function to the policy in force.
pub policy-set_policy :
    (accepted : Bool) (key key' : Text) (p : SessionPolicy) (patch : SessionPolicy → SessionPolicy)
    (ps : Policies)
    → (policy key' (set_policy accepted key p ps).0
        ≡ (if text_eqb key key' then p else policy key' ps))
      × (policy key' (patch_policy accepted key patch ps).0
          ≡ (if text_eqb key key' then patch (policy key ps) else policy key' ps))
unfolding set_policy patch_policy
policy-set_policy accepted key key' p patch ps = (
  policy-save_policies accepted key' (store_policy key p ps) ∙ policy-store_policy key key' p ps,
  policy-save_policies accepted key' (store_policy key (patch (policy key ps)) ps)
      ∙ policy-store_policy key key' (patch (policy key ps)) ps,
)

UnrelatedProfile : Text → Option SessionPolicy → Type 0
UnrelatedProfile profile none = Unit
UnrelatedProfile profile (some p) = text_eqb p.provider_profile profile ≡ false

clear_references_cleared :
    (peer profile key : Text) (m : Dict Text SessionPolicy)
    → is_empty profile ≡ false
    → owned_by peer key ≡ true
    → UnrelatedProfile profile (lookup key (clear_references peer profile m).0)
unfolding clear_references lookup UnrelatedProfile
clear_references_cleared peer profile key [] ne own = tt
clear_references_cleared peer profile key ((j, p) ∷ m) ne own = ground (
  arith,
  clear_references_cleared peer profile key m ne own,
  text_eqb_iff j key,
  text_eqb_iff [] profile,
  is_empty_iff profile,
)

clear_references_others :
    (peer profile key : Text) (m : Dict Text SessionPolicy)
    → owned_by peer key ≡ false
    → lookup key (clear_references peer profile m).0 ≡ lookup key m
unfolding clear_references lookup
clear_references_others peer profile key [] own = refl
clear_references_others peer profile key ((j, p) ∷ m) own =
    ground (arith, clear_references_others peer profile key m own, text_eqb_iff j key)

clear_references_none :
    (peer profile : Text) (m : Dict Text SessionPolicy)
    → (clear_references peer profile m).1 ≡ 0
    → (clear_references peer profile m).0 ≡ m
unfolding clear_references
clear_references_none peer profile [] h = refl
clear_references_none peer profile ((j, p) ∷ m) h =
    ground (arith, clear_references_none peer profile m)

policies-clear :
    (accepted : Bool) (peer profile : Text) (ps : Policies)
    → is_empty (trim_space peer) ≡ false
    → is_empty (trim_space profile) ≡ false
    → (clear_provider_profile_references accepted peer profile ps).0.policies
      ≡ (clear_references (trim_space peer) (trim_space profile) ps.policies).0
unfolding clear_provider_profile_references save_policies
policies-clear accepted peer profile ps e f =
    ground (arith, clear_references_none (trim_space peer) (trim_space profile) ps.policies)

policy_elsewhere :
    (profile key : Text) (ps : Policies)
    → is_empty profile ≡ false
    → UnrelatedProfile profile (lookup key ps.policies)
    → (policy key ps).provider_profile ≢ profile
unfolding policy UnrelatedProfile
policy_elsewhere profile key ps ne u c = elim (Option-cases (lookup key ps.policies)) [
  | inl e ↦ ground (arith, is_empty_iff profile)
  | inr (p, e) ↦ ground (arith, text_eqb_iff p.provider_profile profile)
]

policy_of_lookup :
    (key : Text) (ps' ps : Policies)
    → lookup key ps'.policies ≡ lookup key ps.policies
    → policy key ps' ≡ policy key ps
unfolding policy
policy_of_lookup key ps' ps h = ground arith

-- After the references of a peer to a provider profile are cleared (both names not blank), no
-- session of the peer selects that profile, and the sessions of other peers keep their policies.
pub clear_provider_profile_references_lem :
    (accepted : Bool) (peer profile key : Text) (ps : Policies)
    → is_empty (trim_space peer) ≡ false
    → is_empty (trim_space profile) ≡ false
    → let ps' = (clear_provider_profile_references accepted peer profile ps).0 in
      ((owned_by (trim_space peer) key ≡ true)
        × ((policy key ps').provider_profile ≢ trim_space profile))
      ⊎ ((owned_by (trim_space peer) key ≡ false) × (policy key ps' ≡ policy key ps))
clear_provider_profile_references_lem accepted peer profile key ps e f =
    elim (Bool-cases (owned_by (trim_space peer) key)) [
      | inl own ↦ inl (
        own,
        λ c.
            policy_elsewhere (trim_space profile) key _ f
              (rw (policies-clear accepted peer profile ps e f) (
                clear_references_cleared (trim_space peer) (trim_space profile) key ps.policies f
                  own))
              c,
      )
      | inr own ↦ inr (
        own,
        policy_of_lookup key _ ps (
            rw (policies-clear accepted peer profile ps e f)
              (clear_references_others (trim_space peer) (trim_space profile) key ps.policies own)),
      )
    ]
