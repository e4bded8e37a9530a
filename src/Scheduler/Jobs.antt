-- ===== src/Scheduler/Jobs.antt =====
-- internal/scheduler/job.go and scheduler.go: jobs, their next run, and what an execution leaves in
-- the store. Times are nanoseconds, 0 is the zero time. `Clock` holds time.Parse, the cron parser
-- with the zones, and FNV. An interval of at most 0 is 0, and none reaches the end of its range.
use koios.Prelude.{
  ℕ, zero, suc, ◌+◌, ◌-◌, ◌*◌, ◌%◌, min, Bool, true, false, not, ◌&&◌, ◌||◌, Option, none, some,
  List, [], ◌∷◌, ltb, nat_eqb, if◌then◌else◌, length, get_or, some_of, Dict, lookup, insert, delete,
  Text, text, text_eq, contains, is_empty,
}

pub data ScheduleKind : Type 0 where
  kind_at kind_every kind_cron other_kind : ScheduleKind

pub record Schedule : Type 0 where
  pub kind : ScheduleKind
  pub at : Text
  pub every_ms : ℕ
  pub expr : Text
  pub tz : Text
  pub stagger_ms : ℕ

pub record DispatchPolicy : Type 0 where
  pub defer_if_active : Bool
  pub require_approval : Bool

pub record Job : Type 0 where
  pub job_id : Text
  pub peer_id : Text
  pub name : Text
  pub schedule : Schedule
  pub dispatch : DispatchPolicy
  pub enabled : Bool
  pub delete_after_run : Bool
  pub next_run_at : ℕ
  pub last_run_at : ℕ
  pub consec_errors : ℕ

pub record Clock : Type 0 where
  -- With a zone, and without.
  pub parse_zoned : Text → Option ℕ
  pub parse_plain : Text → Option ℕ
  pub is_zone : Text → Bool
  pub parse_cron : Text → Option (Text → ℕ → ℕ)
  pub hash : Text → ℕ
  pub to_lower : Text → Text

abbrev pub millisecond : ℕ
millisecond = 1_000_000

abbrev pub second : ℕ
second = 1_000_000_000

abbrev pub recurring_backoff : List ℕ
recurring_backoff = 30 * second ∷ 60 * second ∷ 300 * second ∷ 900 * second ∷ 3600 * second ∷ []

abbrev pub oneshot_backoff : List ℕ
oneshot_backoff = 30 * second ∷ 60 * second ∷ 300 * second ∷ []

unfoldable pub is_at : ScheduleKind → Bool
is_at kind_at = true
is_at kind_every = false
is_at kind_cron = false
is_at other_kind = false

unfoldable pub backoff_of : List ℕ → ℕ → ℕ
backoff_of steps errors = get_or steps (min (errors - 1) (length steps - 1)) 0

unfoldable pub backoff_duration : ℕ → ScheduleKind → ℕ
backoff_duration errors kind =
    if is_at kind then backoff_of oneshot_backoff errors else backoff_of recurring_backoff errors

abbrev pub permanent : List Text
permanent =
    text "401"
    ∷ text "403"
    ∷ text "unauthorized"
    ∷ text "forbidden"
    ∷ text "invalid api key"
    ∷ text "auth"
    ∷ []

abbrev pub transient_errors : List Text
transient_errors =
    text "429"
    ∷ text "too many requests"
    ∷ text "rate limit"
    ∷ text "overloaded"
    ∷ text "network"
    ∷ text "timeout"
    ∷ text "connection"
    ∷ text "server_error"
    ∷ text "503"
    ∷ text "502"
    ∷ text "500"
    ∷ []

-- An error that is in neither list is permanent.
unfoldable pub is_permanent_error : Clock → Text → Bool
is_permanent_error c err =
    let msg = c.to_lower err in
    if some_of (contains msg) permanent then true else not (some_of (contains msg) transient_errors)

unfoldable pub stagger_offset : Clock → Text → ℕ → ℕ
stagger_offset c id zero = 0
stagger_offset c id (suc ms) = (c.hash id % suc ms) * millisecond

-- `none` is an error.
unfoldable pub calc_next_run : Clock → Job → ℕ → Option ℕ
calc_next_run c job from =
    let s = job.schedule in
    let stagger = stagger_offset c job.job_id s.stagger_ms in
    elim s.kind [
      | kind_at ↦ elim (c.parse_zoned s.at) [
        | some t ↦ some (t + stagger)
        | none ↦ elim (c.parse_plain s.at) [ some t ↦ some (t + stagger) | none ↦ none ]
      ]
      | kind_every ↦
          if nat_eqb s.every_ms 0 then none else some (from + s.every_ms * millisecond + stagger)
      | kind_cron ↦
          if is_empty s.tz || c.is_zone s.tz
          then (elim (c.parse_cron s.expr) [
            | some next ↦ some (next s.tz from + stagger)
            | none ↦ none
          ])
          else none
      | other_kind ↦ none
    ]

unfoldable pub after_error : Clock → ℕ → Text → Job → Job
after_error c now err job =
    let errors = suc job.consec_errors in
    let failed = record job { last_run_at = now; consec_errors = errors } in
    if is_permanent_error c err || is_at job.schedule.kind && ltb (length oneshot_backoff) errors
    then record failed { enabled = false }
    else record failed { next_run_at = now + backoff_duration errors job.schedule.kind }

-- `none` says that the job is removed.
unfoldable pub after_success : Clock → ℕ → Job → Option Job
after_success c now job =
    let done = record job { last_run_at = now; consec_errors = 0 } in
    if job.delete_after_run && is_at job.schedule.kind
    then none
    else if is_at job.schedule.kind
    then some record done { enabled = false }
    else (elim (calc_next_run c done now) [
      | some next ↦ some record done { next_run_at = next }
      | none ↦ some record done { enabled = false }
    ])

-- The job after an execution with the error, if there is one.
unfoldable pub after_run : Clock → ℕ → Option Text → Job → Option Job
after_run c now none job = after_success c now job
after_run c now (some err) job = some (after_error c now err job)

unfoldable pub update : Job → Dict Text Job → Dict Text Job
update job jobs = elim (lookup job.job_id jobs) [
  | none ↦ jobs
  | some old ↦ insert job.job_id job jobs
]

-- The end of `executeJob`, from the reload of the job on.
unfoldable pub execute_job : Clock → ℕ → Option Text → Text → Dict Text Job → Dict Text Job
execute_job c now err id jobs = elim (lookup id jobs) [
  | none ↦ jobs
  | some job ↦ elim (after_run c now err job) [
    | none ↦ delete id jobs
    | some next ↦ update next jobs
  ]
]
