-- ===== src/Session/Policies.antt =====
-- internal/session/store.go: the per-session policies and their file. Every field of the code's
-- `SessionPolicy` is here; its counters are never negative.
use koios.Prelude.{
  ℕ, suc, Bool, true, false, not, ◌&&◌, ◌||◌, Option, none, some, List, [], ◌∷◌, ◌++◌, nat_eqb,
  if◌then◌else◌, nat_eq, Dict, lookup, insert, delete, Text, text, text_eqb, text_eq, is_empty,
  trim_space, has_prefix,
}

pub record SessionPolicy : Type 0 where
  pub reply_back : Bool
  pub inbox_read_user_count : ℕ
  pub activation_mode : Text
  pub group_activation_mode : Text
  pub chat_activation_mode : Text
  pub usage_mode : Text
  pub model_override : Text
  pub active_profile : Text
  pub browser_profile : Text
  pub provider_profile : Text
  pub openai_previous_response_id : Text
  pub openai_covered_messages : ℕ
  pub openai_covered_messages_hash : Text
  pub llm_route_key : Text
  pub llm_provider : Text
  pub llm_model : Text
  pub queue_mode : Text
  pub think_level : Text
  pub reasoning_visibility : Text
  pub verbose_mode : Bool
  pub trace_mode : Bool
  pub block_stream : Bool
  pub stream_chunk_chars : ℕ
  pub stream_coalesce_ms : ℕ
  pub session_kind : Text
  pub elevated_bash : Bool
  pub tools_allow : List Text
  pub tools_deny : List Text

-- Go's zero value, which a missing key of the map yields.
abbrev pub zero_policy : SessionPolicy
zero_policy = record {
  reply_back = false;
  inbox_read_user_count = 0;
  activation_mode = [];
  group_activation_mode = [];
  chat_activation_mode = [];
  usage_mode = [];
  model_override = [];
  active_profile = [];
  browser_profile = [];
  provider_profile = [];
  openai_previous_response_id = [];
  openai_covered_messages = 0;
  openai_covered_messages_hash = [];
  llm_route_key = [];
  llm_provider = [];
  llm_model = [];
  queue_mode = [];
  think_level = [];
  reasoning_visibility = [];
  verbose_mode = false;
  trace_mode = false;
  block_stream = false;
  stream_chunk_chars = 0;
  stream_coalesce_ms = 0;
  session_kind = [];
  elevated_bash = false;
  tools_allow = [];
  tools_deny = [];
}

-- The test in three parts, which together name every field.
unfoldable pub no_modes : SessionPolicy → Bool
no_modes p =
    not p.reply_back
    && nat_eqb p.inbox_read_user_count 0
    && is_empty p.activation_mode
    && is_empty p.group_activation_mode
    && is_empty p.chat_activation_mode
    && is_empty p.usage_mode
    && is_empty p.model_override
    && is_empty p.active_profile
    && is_empty p.browser_profile
    && is_empty p.queue_mode

unfoldable pub no_switches : SessionPolicy → Bool
no_switches p =
    is_empty p.think_level
    && is_empty p.reasoning_visibility
    && not p.verbose_mode
    && not p.trace_mode
    && not p.block_stream
    && nat_eqb p.stream_chunk_chars 0
    && nat_eqb p.stream_coalesce_ms 0
    && is_empty p.session_kind
    && not p.elevated_bash

unfoldable pub no_provider : SessionPolicy → Bool
no_provider p =
    is_empty p.provider_profile
    && is_empty p.openai_previous_response_id
    && nat_eqb p.openai_covered_messages 0
    && is_empty p.openai_covered_messages_hash
    && is_empty p.llm_route_key
    && is_empty p.llm_provider
    && is_empty p.llm_model
    && is_empty p.tools_allow
    && is_empty p.tools_deny

unfoldable pub is_zero_policy : SessionPolicy → Bool
is_zero_policy p = no_modes p && no_switches p && no_provider p

-- The map in memory, and the file that holds its last saved form, if there is a session directory.
pub record Policies : Type 0 where
  pub policies : Dict Text SessionPolicy
  pub saved : Option (Dict Text SessionPolicy)

-- `savePoliciesLocked`: whether it succeeds, which it does at once where there is no file.
unfoldable pub save_policies : Bool → Policies → Policies × Bool
save_policies accepted ps = elim ps.saved [
  | none ↦ (ps, true)
  | some old ↦ if accepted then (record ps { saved = some ps.policies }, true) else (ps, false)
]

unfoldable pub store_policy : Text → SessionPolicy → Policies → Policies
store_policy key p ps =
    if is_zero_policy p
    then record ps { policies = delete key ps.policies }
    else record ps { policies = insert key p ps.policies }

unfoldable pub set_policy : Bool → Text → SessionPolicy → Policies → Policies × Bool
set_policy accepted key p ps = save_policies accepted (store_policy key p ps)

unfoldable pub policy : Text → Policies → SessionPolicy
policy key ps = elim (lookup key ps.policies) [ some p ↦ p | none ↦ zero_policy ]

unfoldable pub patch_policy :
    Bool → Text → (SessionPolicy → SessionPolicy) → Policies → Policies × Bool
patch_policy accepted key patch ps =
    save_policies accepted (store_policy key (patch (policy key ps)) ps)

-- Does the key belong to the peer: the peer's own, or one of its sub-sessions?
unfoldable pub owned_by : Text → Text → Bool
owned_by peer key = text_eqb key peer || has_prefix key (peer ++ text "::")

-- The loop of `ClearProviderProfileReferences`, with the count of cleared references.
unfoldable pub clear_references :
    Text → Text → Dict Text SessionPolicy → Dict Text SessionPolicy × ℕ
clear_references peer profile [] = ([], 0)
clear_references peer profile ((key, p) ∷ m) =
    let (rest, n) = clear_references peer profile m in
    if owned_by peer key && text_eqb p.provider_profile profile
    then (
      if is_zero_policy (record p { provider_profile = [] })
          then rest
          else (key, record p { provider_profile = [] }) ∷ rest,
      suc n,
    )
    else ((key, p) ∷ rest, n)

unfoldable pub clear_provider_profile_references :
    Bool → Text → Text → Policies → Policies × ℕ × Bool
clear_provider_profile_references accepted peer profile ps =
    let peer' = trim_space peer in
    let profile' = trim_space profile in
    let (m, n) = clear_references peer' profile' ps.policies in
    let (ps', saved) = save_policies accepted (record ps { policies = m }) in
    if is_empty peer' || is_empty profile'
    then (ps, 0, true)
    else if nat_eqb n 0
    then (ps, 0, true)
    else (ps', n, saved)
