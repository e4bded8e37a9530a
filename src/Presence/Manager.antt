-- ===== src/Presence/Manager.antt =====
-- internal/presence/manager.go. A call of a subscriber is a value; the manager is not nil.
use koios.Prelude.{
  ℕ, suc, ◌-◌, Bool, false, not, ◌&&◌, Option, List, [], ◌∷◌, ◌++◌, map, ltb, nat_eqb,
  if◌then◌else◌, length, keep, Dict, lookup, insert, Text, text, text_eq, is_empty,
}

pub record State : Type 0 where
  pub peer_id : Text
  pub status : Text
  pub typing : Bool
  pub updated_at : ℕ
  pub source : Text

pub record Manager : Type 0 where
  pub states : Dict Text State
  -- The ids of the callbacks.
  pub subscribers : List ℕ
  pub next_sub_id : ℕ
  pub typing_ttl : ℕ

-- The callback that is called, and the state it is given.
pub record Notice : Type 0 where
  pub subscriber : ℕ
  pub state : State

abbrev pub no_state : State
no_state = record { peer_id = []; status = []; typing = false; updated_at = 0; source = [] }

-- Eight seconds, in nanoseconds.
abbrev pub default_typing_ttl : ℕ
default_typing_ttl = 8_000_000_000

unfoldable pub new_manager : ℕ → Manager
new_manager ttl = record {
  states = [];
  subscribers = [];
  next_sub_id = 0;
  typing_ttl = if nat_eqb ttl 0 then default_typing_ttl else ttl;
}

unfoldable pub notices_of : List ℕ → State → List Notice
notices_of ids st = map (λ i. record { subscriber = i; state = st }) ids

unfoldable pub all_notices : List ℕ → List State → List Notice
all_notices ids [] = []
all_notices ids (st ∷ sts) = notices_of ids st ++ all_notices ids sts

unfoldable pub new_state : ℕ → Text → Text → Bool → Text → State
new_state now peer status typing source = record {
  peer_id = peer;
  status = if is_empty status then text "online" else status;
  typing = typing;
  updated_at = now;
  source = source;
}

unfoldable pub set_state : ℕ → Text → Text → Bool → Text → Manager → Manager × State × List Notice
set_state now peer status typing source m =
    let st = new_state now peer status typing source in
    if is_empty peer
    then (m, no_state, [])
    else (record m { states = insert peer st m.states }, st, notices_of m.subscribers st)

unfoldable pub get : Text → Manager → Option State
get peer m = lookup peer m.states

unfoldable pub snapshot : Manager → List State
snapshot m = map (λ e. e.1) m.states

unfoldable pub subscribe : Manager → Manager × ℕ
subscribe m =
    let id = suc m.next_sub_id in
    (record m { next_sub_id = id; subscribers = m.subscribers ++ (id ∷ []) }, id)

unfoldable pub unsubscribe : ℕ → Manager → Manager
unsubscribe id m = record m { subscribers = keep (λ i. not (nat_eqb i id)) m.subscribers }

unfoldable pub is_stale : ℕ → ℕ → State → Bool
is_stale ttl now st = st.typing && not (ltb (now - st.updated_at) ttl)

unfoldable pub cleared : ℕ → State → State
cleared now st = record st { typing = false; updated_at = now }

unfoldable pub clear_entries : ℕ → ℕ → Dict Text State → Dict Text State
clear_entries ttl now [] = []
clear_entries ttl now ((p, st) ∷ sts) =
    (p, if is_stale ttl now st then cleared now st else st) ∷ clear_entries ttl now sts

unfoldable pub updated_states : ℕ → ℕ → Dict Text State → List State
updated_states ttl now [] = []
updated_states ttl now ((p, st) ∷ sts) =
    let rest = updated_states ttl now sts in
    if is_stale ttl now st then cleared now st ∷ rest else rest

-- The manager, the number of states that are cleared, and the callbacks called.
unfoldable pub clear_expired_typing : ℕ → Manager → Manager × ℕ × List Notice
clear_expired_typing now m =
    let updated = updated_states m.typing_ttl now m.states in
    (
      record m { states = clear_entries m.typing_ttl now m.states },
      length updated,
      all_notices m.subscribers updated,
    )
