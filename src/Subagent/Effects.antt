-- ===== src/Subagent/Effects.antt =====
-- internal/subagent/registry.go: what the operations make of the records, and what the ledger is told.
use koios.Prelude.{
  ℕ, ◌+◌, ◌-◌, min, ◌≡◌, refl, ◌≢◌, ◌⊎◌, inl, inr, Bool, true, false, not, ◌||◌, none, some, ltb,
  List, [], ◌∷◌, ◌++◌, arith, nat_eqb, if◌then◌else◌, Bool-cases, nat_eq, length, drop, keep,
  count_of, some_of, length-append, length-drop, Dict, lookup, insert, NodupKeys, lookup-insert,
  lookup-keep-none, Text, text_eqb, text_eqb_iff, text_eq, is_empty,
}
use koios.Subagent.Records.{
  Status, queued, running, completed, errored, killed, session_reset, session_delete,
  LifecycleEvent, RunRecord, LedgerCall, ledger_queued, ledger_started, ledger_finished,
  ledger_metadata, status_eqb,
}
use koios.Subagent.Registry.{
  Registry, save_locked, update, add_event, append_event, add_child, link_child, is_active,
  is_swept, sweep, transition_calls,
}

records-save_locked :
    (scrub : Text → Text) (accepted : Bool) (r : Registry)
    → (save_locked scrub accepted r).records ≡ r.records
unfolding save_locked
records-save_locked scrub accepted r = ground arith

-- The records after an update of a run that is there.
lookup-update :
    (scrub : Text → Text) (accepted : Bool) (id key : Text) (change : RunRecord → RunRecord)
    (r : Registry) (rec : RunRecord)
    → lookup id r.records ≡ some rec
    → lookup key ((update scrub accepted id change r).0).records
      ≡ (if text_eqb id key then some (change rec) else lookup key r.records)
unfolding update
lookup-update scrub accepted id key change r rec h = ground (
  arith,
  records-save_locked scrub accepted (record r { records = insert id (change rec) r.records }),
  lookup-insert id key (change rec) r.records,
)

-- For a run that is recorded, an event is added at the end of its events, of which at most the
-- last `max_events` are kept; all other runs stay as they are.
pub append_event_lem :
    (scrub : Text → Text) (accepted : Bool) (now : ℕ) (id kind message key : Text) (r : Registry)
    (rec : RunRecord)
    → lookup id r.records ≡ some rec
    → (after : RunRecord) × (lookup key
          ((append_event scrub accepted now id kind message r).0).records
        ≡ (if text_eqb id key then some after else lookup key r.records))
      × (after.events
          ≡ drop
              ((length rec.events + 1) - r.max_events)
              (rec.events ++ (record { at = now; kind = kind; message = scrub message } ∷ [])))
      × (length after.events ≡ min (length rec.events + 1) r.max_events)
unfolding append_event add_event
append_event_lem scrub accepted now id kind message key r rec h =
    let e : LifecycleEvent = record { at = now; kind = kind; message = scrub message } in
    let events = rec.events ++ (e ∷ []) in
    (
      add_event scrub r.max_events now kind message rec,
      lookup-update scrub accepted id key (add_event scrub r.max_events now kind message) r rec h,
      ground (arith, length-append rec.events (e ∷ [])),
      ground (
        arith,
        length-append rec.events (e ∷ []),
        length-drop (length events - r.max_events) events,
      ),
    )

keep-lookup :
    (q : RunRecord → Bool) (k : Text) (m : Dict Text RunRecord)
    → NodupKeys m
    → lookup k (keep (λ e. q e.1) m)
      ≡ elim (lookup k m) [ none ↦ none | some rec ↦ if q rec then some rec else none ]
unfolding lookup
keep-lookup q k [] n = refl
keep-lookup q k ((j, v) ∷ m) (e, n) =
    ground (arith, keep-lookup q k m n, text_eqb_iff j k, lookup-keep-none (λ x. q x.1) j m e)

-- With each run recorded once, a sweep removes exactly the runs that are neither running nor
-- queued and that finished (or, with no such time, were created) longer ago than the age given,
-- or than the registry's age if it is 0.
pub sweep_lem :
    (scrub : Text → Text) (accepted : Bool) (now age : ℕ) (key : Text) (r : Registry)
    → NodupKeys r.records
    → lookup key ((sweep scrub accepted now age r).0).records ≡ elim (lookup key r.records) [
      | none ↦ none
      | some rec ↦
          let limit = if nat_eqb age 0 then r.max_age else age in
          let since = if nat_eqb rec.finished_at 0 then rec.created_at else rec.finished_at in
          if status_eqb rec.status running || status_eqb rec.status queued
          then some rec
          else if ltb limit (now - since)
          then none
          else some rec
    ]
unfolding sweep is_swept is_active
sweep_lem scrub accepted now age key r n =
    let max_age = if nat_eqb age 0 then r.max_age else age in
    let kept = keep (λ e. not (is_swept now max_age e.1)) r.records in
    ground (
      arith,
      records-save_locked scrub accepted (record r { records = kept }),
      keep-lookup (λ rec. not (is_swept now max_age rec)) key r.records n,
    )

-- No list of children holds an id twice.
abbrev pub Distinct : List Text → Type 0
Distinct [] = Unit
Distinct (c ∷ cs) = (some_of (λ d. text_eqb d c) cs ≡ false) × Distinct cs

some_of-append :
    (p : Text → Bool) (xs : List Text) (y : Text) → some_of p (xs ++ (y ∷ [])) ≡ some_of p xs || p y
some_of-append p [] y = ground arith
some_of-append p (x ∷ xs) y = ground (arith, some_of-append p xs y)

Distinct-append :
    (cs : List Text) (c : Text)
    → Distinct cs
    → some_of (λ d. text_eqb d c) cs ≡ false
    → Distinct (cs ++ (c ∷ []))
Distinct-append [] c d h = (refl, tt)
Distinct-append (x ∷ cs) c (e, d) h = (
  ground (arith, some_of-append (λ y. text_eqb y x) cs c, text_eqb_iff c x, text_eqb_iff x c),
  Distinct-append cs c d (ground arith),
)

add_child_lem :
    (child : Text) (rec : RunRecord)
    → Distinct rec.children
    → (some_of (λ c. text_eqb c child) (add_child child rec).children ≡ true)
      × Distinct (add_child child rec).children
      × (add_child child (add_child child rec) ≡ add_child child rec)
unfolding add_child
add_child_lem child rec d = elim (Bool-cases (some_of (λ c. text_eqb c child) rec.children)) [
  | inl e ↦ simp e (refl, d, refl)
  | inr e ↦
      let last : some_of (λ c. text_eqb c child) (rec.children ++ (child ∷ [])) ≡ true = ground (
        arith,
        some_of-append (λ c. text_eqb c child) rec.children child,
        text_eqb_iff child child,
      ) in
      simp (e, last) (refl, Distinct-append rec.children child d e, refl)
]

-- Linking a child to another run that is recorded, with both ids given, records the child and
-- keeps the children distinct; adding it a second time would change nothing.
pub link_child_lem :
    (scrub : Text → Text) (accepted : Bool) (parent child : Text) (r : Registry) (rec : RunRecord)
    → lookup parent r.records ≡ some rec
    → is_empty parent ≡ false
    → is_empty child ≡ false
    → parent ≢ child
    → Distinct rec.children
    → (after : RunRecord) × (lookup parent ((link_child scrub accepted parent child r).0).records
        ≡ some after)
      × (some_of (λ c. text_eqb c child) after.children ≡ true)
      × Distinct after.children
      × (add_child child after ≡ after)
unfolding link_child
link_child_lem scrub accepted parent child r rec h e f n d =
    let (linked, distinct, again) = add_child_lem child rec d in
    (
      add_child child rec,
      ground (
        arith,
        lookup-update scrub accepted parent parent (add_child child) r rec h,
        text_eqb_iff parent child,
        text_eqb_iff parent parent,
      ),
      linked,
      distinct,
      again,
    )

Status-cases :
    (s : Status)
    → (s ≡ queued)
      ⊎ (s ≡ running)
      ⊎ (s ≡ completed)
      ⊎ (s ≡ errored)
      ⊎ (s ≡ killed)
      ⊎ (s ≡ session_reset)
      ⊎ (s ≡ session_delete)
Status-cases queued = ground arith
Status-cases running = ground arith
Status-cases completed = ground arith
Status-cases errored = ground arith
Status-cases killed = ground arith
Status-cases session_reset = ground arith
Status-cases session_delete = ground arith

unfoldable pub is_finish : LedgerCall → Bool
is_finish (ledger_finished id at status err steps) = true
is_finish (ledger_queued id peer session model at) = false
is_finish (ledger_started id at) = false
is_finish (ledger_metadata id parent calls) = false

count-transition_calls :
    (id : Text) (previous : Status) (rec : RunRecord)
    → count_of is_finish (transition_calls id previous rec)
      ≡ (if status_eqb rec.status previous || is_active rec.status then 0 else 1)
unfolding transition_calls is_finish is_active status_eqb
count-transition_calls id previous rec = ground (arith, Status-cases rec.status)

-- With a ledger, an update of a run that is recorded tells it of a finish exactly when it takes
-- the run to another status that is neither running nor queued, and then once.
pub update_finishes :
    (scrub : Text → Text) (accepted : Bool) (id : Text) (change : RunRecord → RunRecord)
    (r : Registry) (rec : RunRecord)
    → lookup id r.records ≡ some rec
    → r.has_ledger ≡ true
    → count_of is_finish (update scrub accepted id change r).2 ≡ (
        if status_eqb (change rec).status rec.status || is_active (change rec).status then 0 else 1)
unfolding update is_finish
update_finishes scrub accepted id change r rec h l =
    ground (arith, count-transition_calls id rec.status (change rec))
