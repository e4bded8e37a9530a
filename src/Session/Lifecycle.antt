-- ===== src/Session/Lifecycle.antt =====
-- internal/session/store.go: resets and pruning of an idle session (`applyLifecycle`). Times are
-- numbers, with 0 for Go's zero time; a duration or a count that is not positive is 0.
use koios.Prelude.{
  ℕ, ◌-◌, Bool, false, not, ◌&&◌, Option, none, some, [], ltb, leb, nat_eqb, if◌then◌else◌, nat_eq,
  text_eq, is_empty,
}
use koios.Session.Data.{Session, truncate_file, rewrite_file}
use koios.Session.Prune.{prune_session_messages}

-- `time.Date(now.Year(), now.Month(), now.Day(), m / 60, m % 60, 0, 0, loc)` for the local day that
-- holds `now`: package `time`, with the location's calendar.
abbrev pub Cutover : Type 0
Cutover = ℕ → ℕ → ℕ

-- `dailyResetMins`, which is -1 where no reset time is configured.
unfoldable pub should_daily_reset : Cutover → ℕ → ℕ → Option ℕ → Bool
should_daily_reset cutover now last none = false
should_daily_reset cutover now last (some minutes) =
    let c = cutover now minutes in if ltb now c then false else ltb last c

pub record Lifetimes : Type 0 where
  pub idle_reset_after : ℕ
  pub idle_prune_after : ℕ
  pub idle_prune_keep : ℕ
  pub daily_reset_mins : Option ℕ

pub data Action : Type 0 where
  nothing idle idle_prune daily : Action

-- `len(sess.Messages) == 0` and the idle reset come first, then idle pruning, then the daily reset,
-- which is also tried where idle pruning removed nothing.
unfoldable pub daily_step : Cutover → Bool → Lifetimes → ℕ → Session → Session × Action
daily_step cutover accepted l now s =
    if not (nat_eqb s.last_activity 0)
      && should_daily_reset cutover now s.last_activity l.daily_reset_mins
    then (truncate_file accepted (record s { messages = []; last_activity = now }), daily)
    else (s, nothing)

unfoldable pub idle_prune_step : Cutover → Bool → Lifetimes → ℕ → Session → Session × Action
idle_prune_step cutover accepted l now s =
    let (s', pruned) = prune_session_messages l.idle_prune_keep s in
    if ltb 0 l.idle_prune_after
      && ltb 0 l.idle_prune_keep
      && not (nat_eqb s.last_activity 0)
      && leb l.idle_prune_after (now - s.last_activity)
      && pruned
    then (rewrite_file accepted s', idle_prune)
    else daily_step cutover accepted l now s

unfoldable pub apply_lifecycle : Cutover → Bool → Lifetimes → ℕ → Session → Session × Action
apply_lifecycle cutover accepted l now s =
    if is_empty s.messages
    then (s, nothing)
    else if ltb 0 l.idle_reset_after
        && not (nat_eqb s.last_activity 0)
        && leb l.idle_reset_after (now - s.last_activity)
    then (truncate_file accepted (record s { messages = []; last_activity = now }), idle)
    else idle_prune_step cutover accepted l now s
