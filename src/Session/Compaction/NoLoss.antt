-- ===== src/Session/Compaction/NoLoss.antt =====
-- internal/session/store.go: applying the summary of a compaction to a session that may have grown
-- while the compactor ran, and the cases of a compaction.
use koios.Prelude.{
  ℕ, ◌≤◌, ◌<◌, ◌≡◌, refl, sym, ap, ◌∙◌, ◌↔◌, ◌⊎◌, inl, inr, Bool, true, false, not, ◌||◌, Option,
  none, some, List, [], ◌∷◌, ◌++◌, arith, Bool-cases, nat_eq, length, take, drop, take-append-drop,
  length-take, drop-append, Text, text_eq, is_empty,
}
use koios.Types.{Message}
use koios.Session.Data.{Session, checkpoint, rewrite_file}
use koios.Session.Compaction.{
  CompactionAttempt, CompactionReport, Answers, Summary, usable, empty_summary, silent_token,
  Compacted, compactor_failed, Flush, no_flusher, flushed, flush_failed, summarised, message_eqb,
  Message-discrete, has_message_prefix, apply_compaction_attempt, prepare_compaction,
  execute_compaction, finish_compaction, run_compactor, after_hook, normalize_compaction_summary,
  after_flush,
}
use mathlib.Core.Bool.{decide_iff}

pub message_eqb_iff : (m n : Message) → (message_eqb m n ≡ true) ↔ (m ≡ n)
unfolding message_eqb
message_eqb_iff m n = decide_iff (Message-discrete m n)

pub has_message_prefix-append :
    (ps suffix : List Message) → has_message_prefix (ps ++ suffix) ps ≡ true
unfolding has_message_prefix
has_message_prefix-append [] suffix = refl
has_message_prefix-append (p ∷ ps) suffix =
    ground (arith, message_eqb_iff p p, has_message_prefix-append ps suffix)

pub has_message_prefix-eq :
    (ms ps : List Message) → has_message_prefix ms ps ≡ true → ms ≡ ps ++ drop (length ps) ms
unfolding has_message_prefix
has_message_prefix-eq ms [] h = refl
has_message_prefix-eq [] (p ∷ ps) h = cc
has_message_prefix-eq (m ∷ ms) (p ∷ ps) h =
    ground (arith, message_eqb_iff m p, has_message_prefix-eq ms ps)

-- What a prepared attempt holds.
prepare_compaction-fields :
    (request_bytes : List Message → ℕ) (reserve : ℕ) (flush : Bool) (s : Session)
    (a : CompactionAttempt)
    → prepare_compaction request_bytes reserve true flush s ≡ some a
    → (a.base_messages ≡ s.messages)
      × (a.to_compact ≡ take a.split_idx s.messages)
      × (a.split_idx ≤ length s.messages)
      × (0 < a.split_idx)
unfolding prepare_compaction
prepare_compaction-fields request_bytes reserve flush s a h = ground arith

messages-rewrite_file :
    (accepted : Bool) (s : Session) → (rewrite_file accepted s).messages ≡ s.messages
unfolding rewrite_file
messages-rewrite_file accepted s = ground arith

apply_compaction_attempt_prefix :
    (accepted : Bool) (a : CompactionAttempt) (summary : Text) (s : Session) (suffix : List Message)
    → s.messages ≡ a.base_messages ++ suffix
    → ((apply_compaction_attempt accepted a summary s).1 ≡ true)
      × ((apply_compaction_attempt accepted a summary s).0.messages
          ≡ checkpoint summary ∷ (drop a.split_idx a.base_messages ++ suffix))
unfolding apply_compaction_attempt rewrite_file
apply_compaction_attempt_prefix accepted a summary s suffix h =
    ground
      (arith, has_message_prefix-append a.base_messages suffix, drop-append a.base_messages suffix)

-- Applying a summary to a session that has only grown since the attempt was prepared replaces the
-- summarised messages by the summary and keeps all others, those that came in between included.
pub apply_compaction_attempt_grown :
    (request_bytes : List Message → ℕ) (reserve : ℕ) (flush accepted : Bool) (summary : Text)
    (s0 s1 : Session) (suffix : List Message) (a : CompactionAttempt)
    → prepare_compaction request_bytes reserve true flush s0 ≡ some a
    → s1.messages ≡ s0.messages ++ suffix
    → ((apply_compaction_attempt accepted a summary s1).1 ≡ true)
      × ((apply_compaction_attempt accepted a summary s1).0.messages
          ≡ checkpoint summary ∷ (drop (length a.to_compact) s0.messages ++ suffix))
      × (a.to_compact ++ drop (length a.to_compact) s0.messages ≡ s0.messages)
      × (0 < length a.to_compact)
apply_compaction_attempt_grown request_bytes reserve flush accepted summary s0 s1 suffix a h g =
    let (base, compact, split, pos) =
      prepare_compaction-fields request_bytes reserve flush s0 a h in
    ground (
      arith,
      apply_compaction_attempt_prefix accepted a summary s1 suffix
          (g ∙ ap (λ ms. ms ++ suffix) (sym base)),
      base,
      compact,
      length-take a.split_idx s0.messages,
      take-append-drop a.split_idx s0.messages,
    )

-- A compaction of session `s` took place: a usable summary was applied to a session that begins
-- with the attempt's messages.
abbrev pub Applied : Bool → Answers → CompactionAttempt → Session → Session → Type 0
Applied accepted answers a s s' =
    (summary : Text) × (summary' : Text) × (answers.hook_error ≡ none)
    × (answers.compactor ≡ summarised summary)
    × (normalize_compaction_summary summary ≡ usable summary')
    × (has_message_prefix s.messages a.base_messages ≡ true)
    × (s' ≡ (apply_compaction_attempt accepted a summary' s).0)

compacted-after_flush :
    (f : Flush) (r : CompactionReport) → (after_flush f r).compacted ≡ r.compacted
unfolding after_flush
compacted-after_flush no_flusher r = refl
compacted-after_flush flushed r = refl
compacted-after_flush (flush_failed e) r = refl

finish_compaction_cases :
    (accepted : Bool) (m : Summary) (a : CompactionAttempt) (r : CompactionReport) (s : Session)
    → r.compacted ≡ false
    → let (s', r') = finish_compaction accepted m a r s in
      ((r'.compacted ≡ true)
        × ((t : Text) × (m ≡ usable t)
            × (has_message_prefix s.messages a.base_messages ≡ true)
            × (s' ≡ (apply_compaction_attempt accepted a t s).0)))
      ⊎ ((r'.compacted ≡ false) × (s' ≡ s) × (is_empty r'.error ≡ false))
unfolding finish_compaction apply_compaction_attempt
finish_compaction_cases accepted empty_summary a r s h = inr (h, refl, refl)
finish_compaction_cases accepted (silent_token t) a r s h = inr (h, refl, refl)
finish_compaction_cases accepted (usable t) a r s h =
    elim (Bool-cases (has_message_prefix s.messages a.base_messages)) [
      | inl e ↦ inl (ground arith, (t, refl, e, ground arith))
      | inr e ↦ inr (ground arith, ground arith, ground arith)
    ]

run_compactor_cases :
    (accepted : Bool) (f : Flush) (c : Compacted) (a : CompactionAttempt) (r : CompactionReport)
    (s : Session)
    → r.compacted ≡ false
    → let (s', r') = run_compactor accepted f c a r s in
      ((r'.compacted ≡ true)
        × ((summary : Text) × (t : Text) × (c ≡ summarised summary)
            × (normalize_compaction_summary summary ≡ usable t)
            × (has_message_prefix s.messages a.base_messages ≡ true)
            × (s' ≡ (apply_compaction_attempt accepted a t s).0)))
      ⊎ ((r'.compacted ≡ false) × (s' ≡ s))
unfolding run_compactor
run_compactor_cases accepted f (compactor_failed e) a r s h =
    inr (compacted-after_flush f r ∙ h, refl)
run_compactor_cases accepted f (summarised summary) a r s h =
    elim (finish_compaction_cases accepted (normalize_compaction_summary summary) a
      (after_flush f r) s (compacted-after_flush f r ∙ h)) [
        | inl (c, (t, m, p, q)) ↦ inl (c, (summary, t, refl, m, p, q))
        | inr (c, u, _) ↦ inr (c, u)
      ]

after_hook_cases :
    (accepted : Bool) (h : Option Text) (answers : Answers) (a : CompactionAttempt)
    (r : CompactionReport) (s : Session)
    → answers.hook_error ≡ h
    → r.compacted ≡ false
    → let (s', r') = after_hook accepted h answers a r s in
      ((r'.compacted ≡ true) × Applied accepted answers a s s')
      ⊎ ((r'.compacted ≡ false) × (s' ≡ s))
unfolding after_hook
after_hook_cases accepted (some e) answers a r s eh h = inr (h, refl)
after_hook_cases accepted none answers a r s eh h =
    elim (run_compactor_cases accepted answers.flush answers.compactor a r s h) [
      | inl (c, (summary, t, ec, m, p, q)) ↦ inl (c, (summary, t, eh, ec, m, p, q))
      | inr c ↦ inr c
    ]

-- Whatever the hook, the flusher and the compactor answer: the report of an eligible attempt
-- that is not yet compacted either says "compacted", and then a usable summary was applied to a
-- session that still began with the attempt's messages, or does not say so, and then the session
-- is left as it was.
pub execute_compaction_cases :
    (accepted : Bool) (answers : Answers) (a : CompactionAttempt) (s : Session)
    → a.report.status.eligible ≡ true
    → a.report.status.enabled ≡ true
    → a.report.compacted ≡ false
    → let (s', r) = execute_compaction accepted answers a s in
      ((r.compacted ≡ true) × Applied accepted answers a s s') ⊎ ((r.compacted ≡ false) × (s' ≡ s))
unfolding execute_compaction
execute_compaction_cases accepted answers a s e1 e2 e3 =
    simp (e1, e2) (after_hook_cases accepted answers.hook_error answers a a.report s refl e3)

-- Case rules: a property that holds of the session before a compaction and after each possible
-- application of a summary holds after the compaction.
finish_compaction_rule :
    (P : Session → Type 0) (accepted : Bool) (m : Summary) (a : CompactionAttempt)
    (r : CompactionReport) (s : Session)
    → P s
    → ((t : Text) → P (apply_compaction_attempt accepted a t s).0)
    → P (finish_compaction accepted m a r s).0
unfolding finish_compaction
finish_compaction_rule P accepted empty_summary a r s p q = p
finish_compaction_rule P accepted (silent_token t) a r s p q = p
finish_compaction_rule P accepted (usable t) a r s p q =
    elim (Bool-cases (apply_compaction_attempt accepted a t s).1) [
      | inl e ↦ rw (e, finish_compaction) (q t)
      | inr e ↦ rw (e, finish_compaction) p
    ]

after_hook_rule :
    (P : Session → Type 0) (accepted : Bool) (h : Option Text) (f : Flush) (c : Compacted)
    (a : CompactionAttempt) (r : CompactionReport) (s : Session)
    → P s
    → ((t : Text) → P (apply_compaction_attempt accepted a t s).0)
    → P (after_hook accepted h (record { hook_error = h; flush = f; compactor = c }) a r s).0
unfolding after_hook run_compactor
after_hook_rule P accepted (some e) f c a r s p q = p
after_hook_rule P accepted none f (compactor_failed e) a r s p q = p
after_hook_rule P accepted none f (summarised summary) a r s p q =
    finish_compaction_rule P accepted (normalize_compaction_summary summary) a (after_flush f r) s p
      q

pub execute_compaction_rule :
    (P : Session → Type 0) (accepted : Bool) (answers : Answers) (a : CompactionAttempt)
    (s : Session)
    → P s
    → ((t : Text) → P (apply_compaction_attempt accepted a t s).0)
    → P (execute_compaction accepted answers a s).0
unfolding execute_compaction
execute_compaction_rule P accepted answers a s p q =
    elim (Bool-cases (not a.report.status.eligible || not a.report.status.enabled)) [
      | inl e ↦ rw (e, execute_compaction) p
      | inr e ↦
          rw (e, execute_compaction)
            (after_hook_rule P accepted answers.hook_error answers.flush answers.compactor a
              a.report s p q)
    ]
