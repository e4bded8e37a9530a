-- ===== src/Session/Prune.antt =====
-- internal/session/store.go: bounding the history of a session by dropping old messages that are
-- not part of its leading system messages. Limits are Go ints; one that is not positive is 0 here.
use koios.Prelude.{
  ℕ, suc, ◌+◌, ◌-◌, ◌≤◌, ◌<◌, min, max, ◌≡◌, ◌⊎◌, inl, inr, Bool, true, false, not, ◌||◌, List, [],
  ◌∷◌, ◌++◌, arith, leb, nat_eqb, if◌then◌else◌, Bool-cases, ◌==◌, nat_eq, length, take, drop,
  take-append-drop, length-take-append-drop, text, text_eq,
}
use koios.Types.{Message}
use koios.Session.Data.{Session}

unfoldable pub is_system : Message → Bool
is_system m = m.role == text "system"

-- The loop `for sysEnd < len(messages) && messages[sysEnd].Role == "system"`.
unfoldable pub system_end : List Message → ℕ
system_end [] = 0
system_end (m ∷ ms) = let rest = system_end ms in if is_system m then suc rest else 0

unfoldable pub prune_to_max : ℕ → Session → Session × Bool
prune_to_max max_msgs s =
    if nat_eqb max_msgs 0 || leb (length s.messages) max_msgs
    then (s, false)
    else let sys_end = system_end s.messages in
      let excess = length s.messages - max_msgs in
      let cut_end = min (sys_end + excess) (length s.messages) in
      let kept = take sys_end s.messages ++ drop cut_end s.messages in
      (record s { messages = kept }, not (nat_eqb (length kept) (length s.messages)))

unfoldable pub prune_session_messages : ℕ → Session → Session × Bool
prune_session_messages keep_n s =
    let n = length s.messages in
    if nat_eqb keep_n 0 || leb n keep_n
    then (s, false)
    else let sys_end = system_end s.messages in
      if leb n sys_end
      then (s, false)
      else if leb (n - sys_end) keep_n
      then (s, false)
      else let start = max (n - keep_n) sys_end in
        (record s { messages = take sys_end s.messages ++ drop start s.messages }, true)

pub system_end-le : (ms : List Message) → system_end ms ≤ length ms
unfolding system_end
system_end-le [] = omega arith
system_end-le (m ∷ ms) = ground (arith, system_end-le ms)

-- The cap on a session: with a positive limit, pruning leaves the leading system messages followed by
-- an end piece of the old history. It leaves as many messages as the limit says, or all of them if
-- there are no more, or the leading system messages alone if these exceed the limit.
pub prune_to_max_bound :
    (max_msgs : ℕ) (s : Session)
    → 0 < max_msgs
    → (length (prune_to_max max_msgs s).0.messages
        ≡ min (length s.messages) (max max_msgs (system_end s.messages)))
      × ((k : ℕ) × (system_end s.messages ≤ k)
          × ((prune_to_max max_msgs s).0.messages
              ≡ take (system_end s.messages) s.messages ++ drop k s.messages))
unfolding prune_to_max
prune_to_max_bound max_msgs s h = elim (Bool-cases (leb (length s.messages) max_msgs)) [
  | inl e ↦ (
    ground (arith, system_end-le s.messages),
    (
      system_end s.messages,
      omega arith,
      ground (arith, take-append-drop (system_end s.messages) s.messages),
    ),
  )
  | inr e ↦ (
    ground (
      arith,
      system_end-le s.messages,
      length-take-append-drop (system_end s.messages)
          (min (system_end s.messages + (length s.messages - max_msgs)) (length s.messages))
          s.messages,
    ),
    (
      min (system_end s.messages + (length s.messages - max_msgs)) (length s.messages),
      ground (arith, system_end-le s.messages),
      ground arith,
    ),
  )
]

-- Idle pruning changes nothing if the number of messages to keep is 0, or if no more messages follow
-- the leading system messages. Otherwise it leaves the leading system messages followed by exactly
-- that number of the most recent messages.
pub prune_session_messages_lem :
    (keep_n : ℕ) (s : Session)
    → let r = prune_session_messages keep_n s in
      ((keep_n ≡ 0) ⊎ (length s.messages ≤ system_end s.messages + keep_n)
        → (r.1 ≡ false) × (r.0 ≡ s))
      × (0 < keep_n
          → system_end s.messages + keep_n < length s.messages
          → (r.1 ≡ true)
            × (r.0.messages
                ≡ take (system_end s.messages) s.messages
                  ++ drop (length s.messages - keep_n) s.messages)
            × (length r.0.messages ≡ system_end s.messages + keep_n))
unfolding prune_session_messages
prune_session_messages_lem keep_n s =
    let le = system_end-le s.messages in
    let l =
      length-take-append-drop (system_end s.messages) (length s.messages - keep_n) s.messages in
    (λ h. elim h [ inl z ↦ ground arith | inr g ↦ ground arith ], λ p g. ground arith)

-- A prune that reports no change made none.
pub prune_to_max_unpruned :
    (max_msgs : ℕ) (s : Session)
    → (prune_to_max max_msgs s).1 ≡ false
    → (prune_to_max max_msgs s).0 ≡ s
unfolding prune_to_max
prune_to_max_unpruned max_msgs s = ground (
  arith,
  system_end-le s.messages,
  take-append-drop (system_end s.messages) s.messages,
  length-take-append-drop (system_end s.messages)
      (min (system_end s.messages + (length s.messages - max_msgs)) (length s.messages)) s.messages,
)

pub persisted-prune_to_max : (k : ℕ) (s : Session) → (prune_to_max k s).0.persisted ≡ s.persisted
unfolding prune_to_max
persisted-prune_to_max k s = ground arith

pub persisted-prune_session_messages :
    (k : ℕ) (s : Session) → (prune_session_messages k s).0.persisted ≡ s.persisted
unfolding prune_session_messages
persisted-prune_session_messages k s = ground arith
