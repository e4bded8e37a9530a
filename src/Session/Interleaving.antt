-- ===== src/Session/Interleaving.antt =====
-- internal/session/store.go: the goroutines that work on one session, as a sequence of critical
-- sections. An append or a forced compaction leaves an attempt behind, which completes later, when
-- other appends, resets and prunings may have changed the session.
use koios.Prelude.{
  ℕ, zero, suc, Bool, true, false, Option, none, some, List, [], ◌∷◌, ◌++◌, if◌then◌else◌, nat_eq,
  get_elem?, text_eq,
}
use koios.Types.{Message}
use koios.Session.Data.{Session, reset}
use koios.Session.Compaction.{CompactionAttempt, Answers, prepare_compaction, execute_compaction}
use koios.Session.Append.{Limits, append_msgs, complete_append}
use koios.Session.Lifecycle.{Cutover, Lifetimes, apply_lifecycle}

-- An attempt under way, and whether it was left by an append (or by `CompactNow`).
pub record Pending : Type 0 where
  pub by_append : Bool
  pub attempt : CompactionAttempt

pub record Shared : Type 0 where
  pub session : Session
  pub pending : List Pending

pub data Event : Type 0 where
  append : ℕ → List Message → Event
  compact_now : Event
  complete : ℕ → Answers → Event
  lifecycle : ℕ → Event
  reset_at : ℕ → Event

unfoldable pub remove_at {ℓ} : {A : Type ℓ} → ℕ → List A → List A
remove_at i [] = []
remove_at zero (x ∷ xs) = xs
remove_at (suc i) (x ∷ xs) = x ∷ remove_at i xs

unfoldable pub with_attempt : Bool → Option CompactionAttempt → List Pending → List Pending
with_attempt by_append none ps = ps
with_attempt by_append (some a) ps = ps ++ record { by_append = by_append; attempt = a } ∷ []

unfoldable pub complete_attempt : Bool → Limits → Answers → Option Pending → Session → Session
complete_attempt accepted l answers none s = s
complete_attempt accepted l answers (some p) s =
    if p.by_append
    then (complete_append accepted l answers p.attempt s).0
    else (execute_compaction accepted answers p.attempt s).0

module _ (request_bytes : List Message → ℕ) (cutover : Cutover) (l : Limits) (lt : Lifetimes) where
  unfoldable pub step : Bool → Shared → Event → Shared
  step accepted st (append now ms) =
      let (s', attempt) = append_msgs request_bytes accepted l now ms st.session in
      record { session = s'; pending = with_attempt true attempt st.pending }
  step accepted st compact_now = record st {
    pending =
        with_attempt false
          (prepare_compaction request_bytes l.compact_reserve l.has_compactor l.has_flusher
            st.session)
          st.pending;
  }
  step accepted st (complete i answers) = record {
    session = complete_attempt accepted l answers (get_elem? st.pending i) st.session;
    pending = remove_at i st.pending;
  }
  step accepted st (lifecycle now) = record st {
    session = (apply_lifecycle cutover accepted lt now st.session).0;
  }
  step accepted st (reset_at now) = record st { session = reset accepted now st.session }

  unfoldable pub run : Bool → Shared → List Event → Shared
  run accepted st [] = st
  run accepted st (e ∷ es) = run accepted (step accepted st e) es
