-- ===== src/Hooks/Manager.antt =====
-- internal/ops/hooks.go, the manager of handlers and interceptors; neither it nor a handler is nil.
-- `priority` is the int of the source plus 2^63, which keeps the order. The data of an event are
-- their JSON text. What a handler does at the deadline of its context is part of its answer.
use koios.Prelude.{
  ℕ, Bool, true, false, not, ◌&&◌, Option, none, some, List, [], ◌∷◌, ◌++◌, leb, nat_eqb,
  if◌then◌else◌, Dict, lookup, insert, Text, text_eq,
}

pub record Event : Type 0 where
  pub name : Text
  pub timestamp : ℕ
  pub peer_id : Text
  pub session_key : Text
  pub payload : Text

-- A handler says whether it succeeds; an interceptor gives the event that goes on, or fails.
pub record Registration : Type 0 where
  pub priority : ℕ
  pub handler : Event → Bool

pub record InterceptorRegistration : Type 0 where
  pub priority : ℕ
  pub interceptor : Event → Option Event

pub record Manager : Type 0 where
  pub handlers : Dict Text (List Registration)
  pub interceptors : Dict Text (List InterceptorRegistration)
  pub timeout : ℕ
  pub fail_closed : Bool

abbrev pub default_timeout : ℕ
default_timeout = 2_000_000_000

unfoldable pub new_manager : ℕ → Bool → Manager
new_manager timeout fail_closed = record {
  handlers = [];
  interceptors = [];
  timeout = if nat_eqb timeout 0 then default_timeout else timeout;
  fail_closed = fail_closed;
}

-- `sort.SliceStable` on priorities.
module _ {A : Type 0} (priority_of : A → ℕ) where
  unfoldable pub insert_stable : A → List A → List A
  insert_stable x [] = x ∷ []
  insert_stable x (y ∷ ys) =
      let rest = insert_stable x ys in
      if leb (priority_of x) (priority_of y) then x ∷ y ∷ ys else y ∷ rest

  unfoldable pub sort_stable : List A → List A
  sort_stable [] = []
  sort_stable (x ∷ xs) = insert_stable x (sort_stable xs)

-- A name without entries has the nil slice.
unfoldable pub entries_of {ℓ} : {A : Type ℓ} → Text → Dict Text (List A) → List A
entries_of name m = elim (lookup name m) [ none ↦ [] | some rs ↦ rs ]

unfoldable pub register : Text → Registration → Manager → Manager
register name r m = record m {
  handlers =
      insert name (sort_stable (λ x. x.priority) (entries_of name m.handlers ++ (r ∷ [])))
        m.handlers;
}

unfoldable pub register_interceptor : Text → InterceptorRegistration → Manager → Manager
register_interceptor name r m = record m {
  interceptors =
      insert name (sort_stable (λ x. x.priority) (entries_of name m.interceptors ++ (r ∷ [])))
        m.interceptors;
}

unfoldable pub stamped : ℕ → Event → Event
stamped now ev = record ev { timestamp = if nat_eqb ev.timestamp 0 then now else ev.timestamp }

-- The handlers that are called, and whether no error is returned.
unfoldable pub emit_to : Bool → Event → List Registration → List Registration × Bool
emit_to fail_closed ev [] = ([], true)
emit_to fail_closed ev (r ∷ rs) =
    let rest = emit_to fail_closed ev rs in
    if not (r.handler ev) && fail_closed then (r ∷ [], false) else (r ∷ rest.0, rest.1)

unfoldable pub emit : ℕ → Event → Manager → List Registration × Bool
emit now ev m = emit_to m.fail_closed (stamped now ev) (entries_of ev.name m.handlers)

-- The event that goes on, and whether no error is returned.
unfoldable pub intercept_with : Bool → List InterceptorRegistration → Event → Event × Bool
intercept_with fail_closed [] current = (current, true)
intercept_with fail_closed (r ∷ rs) current =
    let passed = intercept_with fail_closed rs current in
    elim (r.interceptor current) [
      | none ↦ if fail_closed then (current, false) else passed
      | some next ↦ intercept_with fail_closed rs (stamped current.timestamp next)
    ]

unfoldable pub intercept : ℕ → Event → Manager → Event × Bool
intercept now ev m =
    intercept_with m.fail_closed (entries_of ev.name m.interceptors) (stamped now ev)
