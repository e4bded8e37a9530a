-- ===== src/Channels/BindingData.antt =====
-- internal/channels/bindings.go, its data and its file: senders who asked for access (pending) and those
-- an operator has let in (approved), kept in one JSON file. A write that fails is an error; what it
-- leaves of the file is not modelled, and a caller that goes on has the store as it was. Times are
-- numbers, 0 for Go's zero time, and the order of a map is that in which a loop happens to visit it.
use koios.Prelude.{
  ℕ, ◌*◌, ◌≡◌, refl, Bool, true, false, not, ◌&&◌, Option, none, some, [], ◌∷◌, leb, nat_eqb,
  if◌then◌else◌, nat_eq, keep, Dict, insert, Text, text_eqb, text_eq, is_empty, trim_space,
}

pub record PendingBinding : Type 0 where
  pub code : Text
  pub channel : Text
  pub subject_id : Text
  pub conversation_id : Text
  pub username : Text
  pub display_name : Text
  pub metadata : Dict Text Text
  pub created_at : ℕ
  pub expires_at : ℕ

pub record ApprovedBinding : Type 0 where
  pub channel : Text
  pub subject_id : Text
  pub conversation_id : Text
  pub username : Text
  pub display_name : Text
  pub peer_id : Text
  pub session_key : Text
  pub metadata : Dict Text Text
  pub approved_at : ℕ
  pub approved_by : Text
  pub code : Text

pub record BindingRequest : Type 0 where
  pub channel : Text
  pub subject_id : Text
  pub conversation_id : Text
  pub username : Text
  pub display_name : Text
  pub metadata : Dict Text Text
  pub ttl : ℕ

pub record BindingRoute : Type 0 where
  pub peer_id : Text
  pub session_key : Text

pub record BindingFile : Type 0 where
  pub pending : Dict Text PendingBinding
  pub approved : Dict Text ApprovedBinding

-- What `os.ReadFile` and `json.Unmarshal` find at the store's path.
pub data Disk : Type 0 where
  missing : Disk
  unreadable : Disk
  undecodable : Disk
  holds : BindingFile → Disk

pub record BindingStore : Type 0 where
  pub path : Text
  pub disk : Disk

pub data Error : Type 0 where
  channel_required subject_required code_required not_configured : Error
  read_failed decode_failed write_failed random_failed : Error
  code_not_found : Text → Error
  wrong_channel : Text → Text → Text → Error
  binding_not_found : Text → Text → Error

pub data Result {ℓ} (Value : Type ℓ) : Type ℓ where
  err : Error → Result Value
  ok : Value → Result Value

infixl 5 ◌>>=◌
abbrev pub ◌>>=◌ {ℓ κ} :
    {Value : Type ℓ} {Next : Type κ} → Result Value → (Value → Result Next) → Result Next
err problem >>= next = err problem
ok value >>= next = next value

-- Inversion of a successful bind.
pub >>=-eq-ok {ℓ κ} :
    {Value : Type ℓ} {Next : Type κ} (first : Result Value) (next : Value → Result Next)
    {result : Next}
    → (first >>= next) ≡ ok result
    → (value : Value) × (first ≡ ok value) × (next value ≡ ok result)
>>=-eq-ok (err problem) next done = cc
>>=-eq-ok (ok value) next done = (value, refl, done)

-- The clock, the file system and the random source, during one call.
pub record Env : Type 0 where
  pub now : ℕ
  pub accepted : Bool
  pub random_code : Option Text

-- Hours in the unit of time, nanoseconds.
abbrev pub hours : ℕ → ℕ
hours n = n * 3_600_000_000_000

abbrev pub no_bindings : BindingFile
no_bindings = record { pending = []; approved = [] }

-- A binding whose time is up: `!ExpiresAt.IsZero() && !ExpiresAt.After(now)`.
unfoldable pub has_expired : ℕ → PendingBinding → Bool
has_expired now p = not (nat_eqb p.expires_at 0) && leb p.expires_at now

unfoldable pub drop_expired : ℕ → Dict Text PendingBinding → Dict Text PendingBinding
drop_expired now = keep (λ e. not (has_expired now e.1))

unfoldable pub read_disk : ℕ → Disk → Result BindingFile
read_disk now missing = ok no_bindings
read_disk now unreadable = err read_failed
read_disk now undecodable = err decode_failed
read_disk now (holds f) = ok (record f { pending = drop_expired now f.pending })

unfoldable pub load_locked : ℕ → BindingStore → Result BindingFile
load_locked now s = if is_empty (trim_space s.path) then ok no_bindings else read_disk now s.disk

unfoldable pub save_locked : Bool → BindingFile → BindingStore → Result BindingStore
save_locked accepted f s =
    if is_empty (trim_space s.path)
    then ok s
    else if accepted
    then ok (record s { disk = holds f })
    else err write_failed

unfoldable pub new_binding_store : Text → Disk → Option BindingStore
new_binding_store path disk =
    if is_empty (trim_space path) then none else some (record { path = path; disk = disk })

-- `copyBindingMetadata`: the keys are trimmed, and blank ones dropped. Where two keys are the same
-- once trimmed, the later one visited wins.
unfoldable pub copy_metadata_into : Dict Text Text → Dict Text Text → Dict Text Text
copy_metadata_into acc [] = acc
copy_metadata_into acc ((k, v) ∷ m) =
    copy_metadata_into (if is_empty (trim_space k) then acc else insert (trim_space k) v acc) m

unfoldable pub copy_binding_metadata : Dict Text Text → Dict Text Text
copy_binding_metadata m = copy_metadata_into [] m

-- The first entry, in the order of the map, with the code.
unfoldable pub find_code : Text → Dict Text PendingBinding → Option (Text × PendingBinding)
find_code code [] = none
find_code code ((k, p) ∷ m) = if text_eqb p.code code then some (k, p) else find_code code m

-- `state.Pending[key] = pending` for a request that is still pending.
unfoldable pub refreshed : BindingRequest → PendingBinding → PendingBinding
refreshed req p = record p {
  conversation_id = trim_space req.conversation_id;
  username = if is_empty (trim_space req.username) then p.username else trim_space req.username;
  display_name =
      if is_empty (trim_space req.display_name)
      then p.display_name
      else trim_space req.display_name;
  metadata = if is_empty req.metadata then p.metadata else copy_binding_metadata req.metadata;
}

-- What a sender who is already approved gets: its binding, with no times.
unfoldable pub as_pending : ApprovedBinding → PendingBinding
as_pending a = record {
  code = a.code;
  channel = a.channel;
  subject_id = a.subject_id;
  conversation_id = a.conversation_id;
  username = a.username;
  display_name = a.display_name;
  metadata = copy_binding_metadata a.metadata;
  created_at = 0;
  expires_at = 0;
}

unfoldable pub as_approved : ℕ → Text → BindingRoute → PendingBinding → ApprovedBinding
as_approved now approved_by route p = record {
  channel = p.channel;
  subject_id = p.subject_id;
  conversation_id = p.conversation_id;
  username = p.username;
  display_name = p.display_name;
  peer_id = trim_space route.peer_id;
  session_key = trim_space route.session_key;
  metadata = copy_binding_metadata p.metadata;
  approved_at = now;
  approved_by = trim_space approved_by;
  code = p.code;
}

unfoldable pub or_fail {ℓ} : {A : Type ℓ} → Option A → Error → Result A
or_fail none e = err e
or_fail (some a) e = ok a

unfoldable pub require : Bool → Error → Result (Unit {0})
require true e = ok tt
require false e = err e

pub or_fail-ok {ℓ} :
    {A : Type ℓ} (o : Option A) (e : Error) {a : A} → or_fail o e ≡ ok a → o ≡ some a
unfolding or_fail
or_fail-ok none e h = cc
or_fail-ok (some a) e h = cc

pub require-ok : (b : Bool) (e : Error) {u : Unit {0}} → require b e ≡ ok u → b ≡ true
unfolding require
require-ok true e h = refl
require-ok false e h = cc
