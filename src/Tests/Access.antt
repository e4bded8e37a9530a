-- ===== src/Tests/Access.antt =====
-- Examples for internal/channels and internal/types/tool_names.go.
use koios.Channels.Bindings.{reject_code_for_channel, reject_entry}
use koios.Channels.Operator.{reject_code_for_channel_lem}
use koios.Prelude.{
  ℕ, ◌<◌, ◌≡◌, refl, ◌↔◌, ◌⊎◌, true, false, none, some, [], ◌∷◌, arith, nat_eq, All, lookup, insert,
  delete, Text, text, text_eq, is_empty, is_space, trim_space,
}
use koios.Channels.BindingData.{
  PendingBinding, BindingRequest, BindingRoute, BindingFile, BindingStore, Env, has_expired,
  drop_expired, read_disk, load_locked, save_locked, copy_metadata_into, copy_binding_metadata,
  find_code, as_approved, or_fail, require, missing, holds, ok,
}
use koios.Channels.Bindings.{
  ensure_pending, is_approved, normalize_binding_channel, normalize_code, binding_key,
  approve_code_for_channel_with_route, approve_entry, ensure_in, create_pending, save_pending,
  new_pending,
}
use koios.Channels.Approval.{ensure_pending_approves_nobody}
use koios.Channels.Operator.{Approves, approve_code_for_channel_lem}
use koios.Channels.DmPolicy.{
  DirectMessageAuthRequest, authorize_direct_message, lets_in, normalize_direct_message_policy,
  dm_policy_open, authorize_direct_message_lem,
}
use koios.Channels.TextChunk.{TextChunkPolicy, chunk_text_with_policy}
use koios.Channels.Chunks.{squeeze, concat, Fits, chunk_text_with_policy_lem}
use koios.ToolNames.{
  encode_provider_tool_name, decode_provider_tool_name, Escapable, dangling, decode-encode,
}

abbrev same : ℕ → ℕ
same c = c

abbrev binding_env : Env
binding_env = record { now = 100; accepted = true; random_code = some (text "ABCD") }

abbrev request : BindingRequest
request = record {
  channel = text "telegram";
  subject_id = text "7";
  conversation_id = text "7";
  username = text "eve";
  display_name = [];
  metadata = [];
  ttl = 50;
}

abbrev waiting : PendingBinding
waiting = record {
  code = text "ABCD";
  channel = text "telegram";
  subject_id = text "7";
  conversation_id = text "7";
  username = text "eve";
  display_name = [];
  metadata = [];
  created_at = 100;
  expires_at = 150;
}

abbrev empty_store : BindingStore
empty_store = record { path = text "b.json"; disk = missing }

abbrev asked_file : BindingFile
asked_file = record { pending = (text "telegram:7", waiting) ∷ []; approved = [] }

abbrev asked_store : BindingStore
asked_store = record { path = text "b.json"; disk = holds asked_file }

abbrev route : BindingRoute
route = record { peer_id = text "eve"; session_key = [] }

abbrev approved_store : BindingStore
approved_store = record {
  path = text "b.json";
  disk = holds (record {
    pending = [];
    approved = (text "telegram:7", as_approved 100 (text "op") route waiting) ∷ [];
  });
}

asked : ensure_pending same same binding_env request empty_store ≡ ok (asked_store, some waiting)
unfolding ensure_pending binding_key normalize_binding_channel trim_space is_space load_locked
    read_disk save_locked ensure_in create_pending save_pending new_pending or_fail
    copy_binding_metadata copy_metadata_into lookup insert
asked = refl

ensure_pending_approves_nobody_example :
    is_approved same same 100 (text "telegram") (text "7") (some asked_store)
    ≡ is_approved same same 100 (text "telegram") (text "7") (some empty_store)
ensure_pending_approves_nobody_example =
    ensure_pending_approves_nobody same same binding_env request empty_store asked_store
      (some waiting) (text "telegram") (text "7") asked

has_path : is_empty (trim_space asked_store.path) ≡ false
unfolding trim_space is_space
has_path = refl

approved_now :
    approve_code_for_channel_with_route same same binding_env
      (text "telegram")
      (text "ABCD")
      (text "op")
      route
      asked_store
    ≡ ok (approved_store, as_approved 100 (text "op") route waiting)
unfolding approve_code_for_channel_with_route approve_entry normalize_binding_channel normalize_code
    trim_space is_space load_locked read_disk drop_expired has_expired save_locked or_fail require
    find_code lookup insert delete
approved_now = refl

approve_code_for_channel_lem_example :
    Approves 100
      (text "op")
      route
      asked_store
      approved_store
      (normalize_code same same (text "ABCD"))
      (normalize_binding_channel same same (text "telegram"))
      (as_approved 100 (text "op") route waiting)
      (text "telegram:7")
approve_code_for_channel_lem_example =
    approve_code_for_channel_lem same same binding_env (text "telegram") (text "ABCD") (text "op")
      route asked_store approved_store (as_approved 100 (text "op") route waiting)
      (text "telegram:7") has_path approved_now

abbrev knock : DirectMessageAuthRequest
knock = record {
  channel = text "telegram";
  policy = text "pairing";
  subject_id = text "7";
  conversation_id = text "7";
  username = text "eve";
  display_name = [];
  metadata = [];
  pairing_code_ttl = 50;
  allowed = false;
  closed_message = [];
}

authorize_direct_message_lem_example :
    (lets_in ((authorize_direct_message same same binding_env knock (some asked_store)).0) ≡ true)
    ↔ ((false ≡ true)
        ⊎ ((is_empty (trim_space (text "7")) ≡ false)
            × ((is_approved same same 100
                    (text "telegram")
                    (trim_space (text "7"))
                    (some asked_store)
                  ≡ ok true)
                ⊎ ((is_approved same same 100
                        (text "telegram")
                        (trim_space (text "7"))
                        (some asked_store)
                      ≡ ok false)
                    × (normalize_direct_message_policy same same (text "pairing")
                        ≡ dm_policy_open)))))
authorize_direct_message_lem_example =
    authorize_direct_message_lem same same binding_env knock (some asked_store)

abbrev small : TextChunkPolicy
small = record { limit = 4; mode = text "word" }

chunk_text_with_policy_lem_example :
    (squeeze (concat (chunk_text_with_policy same (text "one two three") small))
      ≡ squeeze (text "one two three"))
    × (0 < 4 → All (Fits 4) (chunk_text_with_policy same (text "one two three") small))
chunk_text_with_policy_lem_example = chunk_text_with_policy_lem same (text "one two three") small

list_name-Escapable : Escapable (text "a.b")
unfolding dangling
list_name-Escapable = (omega arith, refl, (omega arith, refl, (omega arith, refl, tt)))

decode-encode_example :
    decode_provider_tool_name (encode_provider_tool_name (text "a.b")) ≡ text "a.b"
decode-encode_example = decode-encode (text "a.b") list_name-Escapable

abbrev cleared_store : BindingStore
cleared_store = record {
  path = text "b.json";
  disk = holds (record { pending = []; approved = [] });
}

rejected_now :
    reject_code_for_channel same same binding_env (text "telegram") (text "ABCD") asked_store
    ≡ ok (cleared_store, waiting)
unfolding reject_code_for_channel reject_entry normalize_binding_channel normalize_code trim_space
    is_space load_locked read_disk drop_expired has_expired save_locked or_fail require find_code
    delete
rejected_now = refl

reject_code_for_channel_lem_example :
    (f : BindingFile) × (key : Text) × (load_locked 100 asked_store ≡ ok f)
    × (find_code (normalize_code same same (text "ABCD")) f.pending ≡ some (key, waiting))
    × (text "telegram" ≡ normalize_binding_channel same same (text "telegram"))
    × (load_locked 100 cleared_store
        ≡ ok (record f { pending = drop_expired 100 (delete key f.pending) }))
    × (lookup key (drop_expired 100 (delete key f.pending)) ≡ none)
reject_code_for_channel_lem_example =
    reject_code_for_channel_lem same same binding_env (text "telegram") (text "ABCD") asked_store
      cleared_store waiting has_path rejected_now
