-- ===== src/Handler/Relation.antt =====
-- internal/handler/idempotency.go against the log of executions: the relation of the two, and a new
-- reservation.
use koios.Prelude.{
  NodupKeys-insert, ℕ, suc, ◌≤◌, ◌<◌, ◌≡◌, ◌⊎◌, inl, inr, refl, ap, subst, arith, Bool, true, false,
  not, Option, none, some, List, [], ◌∷◌, map, nat_eqb_iff, if◌then◌else◌, nat_eq, keep, Bool-cases,
  Dict, NodupKeys, lookup, insert, lookup-insert, lookup-keep-none, Text, text_eqb, text_eqb_iff,
  text_eq,
}
use koios.Handler.Idempotency.{
  IdempotencyRecord, IdempotencyStore, IdempotencyReservation, reserved, must_wait, conflict,
  is_expired, is_live, drop_expired, allocate, reserve, finish, wait,
}
use koios.Handler.Executions.{
  Execution, Log, newest, Event, request, answer, resume, Reply, executes, waits, conflicts,
  answered, panics, resumes, blocked, log_execution,
}

unfoldable pub reply_of : IdempotencyReservation → Reply
reply_of (reserved i) = executes i
reply_of (must_wait i) = waits i
reply_of conflict = conflicts

-- The server's operations, event by event.
unfoldable pub serve : Event → IdempotencyStore → IdempotencyStore × Reply
serve (request scope params_hash now) s =
    let (t, r) = reserve scope params_hash now s in (t, reply_of r)
serve (answer i resp) s = elim (finish i resp s) [ none ↦ (s, panics) | some t ↦ (t, answered) ]
serve (resume i) s = elim (wait i s) [ none ↦ (s, blocked) | some resp ↦ (s, resumes resp) ]

unfoldable pub served : List Event → IdempotencyStore → List Reply
served [] s = []
served (e ∷ es) s = let (t, r) = serve e s in r ∷ served es t

abbrev pub calls_of : Dict ℕ Execution → Dict ℕ IdempotencyRecord
calls_of = map (λ e. (e.0, (e.1).call))

-- The numbers fall along the log, and are below `n`.
abbrev pub IdsBelow : ℕ → Dict ℕ Execution → Type 0
IdsBelow n [] = Unit
IdsBelow n ((i, e) ∷ es) = (i < n) × IdsBelow i es

abbrev pub call_of : Option Execution → Option IdempotencyRecord
call_of none = none
call_of (some e) = some e.call

pub lookup-calls_of :
    (i : ℕ) (es : Dict ℕ Execution) → lookup i (calls_of es) ≡ call_of (lookup i es)
unfolding lookup
lookup-calls_of i [] = refl
lookup-calls_of i ((j, e) ∷ es) = ground (arith, lookup-calls_of i es)

pub insert-calls_of :
    (i : ℕ) (e : Execution) (es : Dict ℕ Execution)
    → insert i e.call (calls_of es) ≡ calls_of (insert i e es)
unfolding insert
insert-calls_of i e [] = refl
insert-calls_of i e ((j, f) ∷ es) = ground (arith, insert-calls_of i e es)

pub lookup_high : (n i : ℕ) (es : Dict ℕ Execution) → IdsBelow n es → n ≤ i → lookup i es ≡ none
unfolding lookup
lookup_high n i [] b h = refl
lookup_high n i ((j, e) ∷ es) (l, b) h = ground (arith, lookup_high j i es b, nat_eqb_iff j i)

pub newest-lookup :
    (n : ℕ) (scope : Text) (es : Dict ℕ Execution) (i : ℕ) (e : Execution)
    → IdsBelow n es
    → newest scope es ≡ some (i, e)
    → (lookup i es ≡ some e) × (i < n)
unfolding newest lookup
newest-lookup n scope [] i e b h = cc
newest-lookup n scope ((j, f) ∷ es) i e (l, b) h =
    ground (arith, newest-lookup j scope es i e b, nat_eqb_iff j i)

-- Setting the response of an execution leaves the log's numbers and its scopes.
pub IdsBelow-insert :
    (n i : ℕ) (e f : Execution) (es : Dict ℕ Execution)
    → lookup i es ≡ some f
    → IdsBelow n es
    → IdsBelow n (insert i e es)
unfolding lookup insert
IdsBelow-insert n i e f [] h b = cc
IdsBelow-insert n i e f ((j, g) ∷ es) h (l, b) =
    ground (arith, IdsBelow-insert j i e f es, nat_eqb_iff j i)

pub lookup-keep_head :
    (p : Text × ℕ → Bool) (j : Text) (x : ℕ) (m : Dict Text ℕ)
    → lookup j m ≡ none
    → lookup j (keep p ((j, x) ∷ m)) ≡ (if p (j, x) then some x else none)
unfolding lookup
lookup-keep_head p j x m a =
    ground (arith, lookup-keep-none p j m a, Bool-cases (p (j, x)), text_eqb_iff j j)

pub lookup-keep :
    (p : Text × ℕ → Bool) (k : Text) (i : ℕ) (m : Dict Text ℕ)
    → NodupKeys m
    → lookup k m ≡ some i
    → lookup k (keep p m) ≡ (if p (k, i) then some i else none)
unfolding lookup
lookup-keep p k i [] n h = cc
lookup-keep p k i ((j, x) ∷ m) (a, n) h = elim (Bool-cases (text_eqb j k)) [
  | inl q ↦
      let e : j ≡ k = (text_eqb_iff j k).0 q in
      let f : x ≡ i = ground arith in
      subst (λ y. lookup y (keep p ((j, x) ∷ m)) ≡ (if p (y, i) then some i else none)) e
        (subst (λ y. lookup j (keep p ((j, x) ∷ m)) ≡ (if p (j, y) then some y else none)) f
          (lookup-keep_head p j x m a))
  | inr q ↦ ground (arith, lookup-keep p k i m n)
]

pub NodupKeys-keep : (p : Text × ℕ → Bool) (m : Dict Text ℕ) → NodupKeys m → NodupKeys (keep p m)
NodupKeys-keep p [] n = tt
NodupKeys-keep p ((j, x) ∷ m) (a, n) =
    ground (arith, NodupKeys-keep p m n, lookup-keep-none p j m a)

-- What the map holds for a scope at the time `now`, when it may still hold old entries.
abbrev pub Points : ℕ → ℕ → Option ℕ → Option (ℕ × Execution) → Type 0
Points ttl now found latest =
    ((latest ≡ none) × (found ≡ none))
    ⊎ ((i : ℕ) × (e : Execution) × (latest ≡ some (i, e))
        × ((found ≡ some i) ⊎ ((found ≡ none) × (is_expired ttl now e.call ≡ true))))

-- The same once the old entries are dropped.
abbrev pub Sharp : ℕ → ℕ → Option ℕ → Option (ℕ × Execution) → Type 0
Sharp ttl now found latest =
    ((latest ≡ none) × (found ≡ none))
    ⊎ ((i : ℕ) × (e : Execution) × (latest ≡ some (i, e))
        × (((found ≡ some i) × (is_expired ttl now e.call ≡ false))
            ⊎ ((found ≡ none) × (is_expired ttl now e.call ≡ true))))

abbrev pub Same : IdempotencyStore → Log → Type 0
Same s l =
    (s.ttl ≡ l.ttl)
    × (s.next_record ≡ l.next_execution)
    × (s.records ≡ calls_of l.executions)
    × NodupKeys s.entries
    × IdsBelow l.next_execution l.executions

abbrev pub Refines : ℕ → IdempotencyStore → Log → Type 0
Refines now s l =
    Same s l
    × ((scope : Text) → Points l.ttl now (lookup scope s.entries) (newest scope l.executions))

pub Sharp-Points :
    (ttl now : ℕ) (found : Option ℕ) (latest : Option (ℕ × Execution))
    → Sharp ttl now found latest
    → Points ttl now found latest
Sharp-Points ttl now found latest (inl h) = inl h
Sharp-Points ttl now found latest (inr (i, e, h, inl (f, x))) = inr (i, e, h, inl f)
Sharp-Points ttl now found latest (inr (i, e, h, inr f)) = inr (i, e, h, inr f)

pub is_expired_later :
    (ttl now t : ℕ) (r : IdempotencyRecord)
    → now ≤ t
    → is_expired ttl now r ≡ true
    → is_expired ttl t r ≡ true
unfolding is_expired
is_expired_later ttl now t r l h = ground arith

pub is_live_lem :
    (ttl now i n : ℕ) (scope : Text) (es : Dict ℕ Execution) (e : Execution)
    → IdsBelow n es
    → newest scope es ≡ some (i, e)
    → is_live ttl now (calls_of es) (scope, i) ≡ not (is_expired ttl now e.call)
unfolding is_live
is_live_lem ttl now i n scope es e b h =
    let m = newest-lookup n scope es i e b h in ground (arith, lookup-calls_of i es)

pub drop_expired-Sharp :
    (now t : ℕ) (s : IdempotencyStore) (l : Log)
    → now ≤ t
    → Refines now s l
    → Same (drop_expired t s) l
      × ((scope : Text)
          → Sharp l.ttl t (lookup scope (drop_expired t s).entries) (newest scope l.executions))
unfolding drop_expired
drop_expired-Sharp now t s l le ((st, sn, sr, nd, ids), pts) = (
  (st, sn, sr, NodupKeys-keep (is_live s.ttl t s.records) s.entries nd, ids),
  λ scope. elim (pts scope) [
    | inl (h, f) ↦ inl (h, lookup-keep-none (is_live s.ttl t s.records) scope s.entries f)
    | inr (i, e, h, inr (f, x)) ↦ inr (
      i,
      e,
      h,
      inr (
        lookup-keep-none (is_live s.ttl t s.records) scope s.entries f,
        is_expired_later l.ttl now t e.call le x,
      ),
    )
    | inr (i, e, h, inl f) ↦
        let k = lookup-keep (is_live s.ttl t s.records) scope i s.entries nd f in
        let v = is_live_lem l.ttl t i l.next_execution scope l.executions e ids h in
        let w : is_live s.ttl t s.records (scope, i) ≡ not (is_expired l.ttl t e.call) =
          rw (st, sr) v in
        inr (i, e, h, ground (arith, Bool-cases (is_expired l.ttl t e.call)))
  ],
)

pub allocate-Refines :
    (t : ℕ) (scope h : Text) (u : IdempotencyStore) (l : Log)
    → Same u l
    → ((k : Text) → Points l.ttl t (lookup k u.entries) (newest k l.executions))
    → Refines t (allocate scope h t u) (log_execution scope h t l)
unfolding allocate log_execution newest
allocate-Refines t scope h u l (st, sn, sr, nd, ids) pts = (
  (
    st,
    ap suc sn,
    rw (sn, sr) refl,
    NodupKeys-insert scope u.next_record u.entries nd,
    (omega arith, ids),
  ),
  λ k. elim (Bool-cases (text_eqb scope k)) [
    | inl q ↦ inr (
      l.next_execution,
      record { scope = scope; call = record { params_hash = h; created_at = t; response = none } },
      ground arith,
      inl (ground (arith, lookup-insert scope k u.next_record u.entries)),
    )
    | inr q ↦ let a = lookup-insert scope k u.next_record u.entries in ground (arith, pts k)
  ],
)
