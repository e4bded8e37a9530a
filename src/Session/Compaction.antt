-- ===== src/Session/Compaction.antt =====
-- internal/session/store.go: compaction of a session, the replacement of its oldest messages by a
-- summary. The attempt is prepared under the session's lock and applied later under the lock again,
-- so the session may have changed in between.
-- `request_bytes` stands for the size of the JSON form of a request with the given messages.
pub mod NoLoss
pub mod Status
pub mod Usable
use koios.Prelude.{
  ℕ, zero, suc, ◌+◌, ◌-◌, ◌*◌, ◌/◌, ◌%◌, ◌≤◌, ◌<◌, min, max, ◌≡◌, refl, sym, ap, subst, ◌∙◌, ◌≢◌,
  ◌↔◌, ◌⊎◌, inl, inr, Bool, true, false, not, ◌&&◌, ◌||◌, Option, none, some, List, [], ◌∷◌, ◌++◌,
  map, append-nil, append_assoc, arith, ltb, leb, nat_eqb, if◌then◌else◌, ltb→lt, lt→ltb, leb→le,
  nat_eqb_iff, Bool-cases, Option-cases, Eq, ◌==◌, nat_eq, ==_refl, ==_lem, length, get_elem?,
  get_or, set, take, drop, replicate, keep, count_of, some_of, All, length-append, length-set,
  take-append-drop, length-take, length-drop, drop-append, length-take-append-drop, length-map,
  length-replicate, length-keep-le, All-append, List-cases, Dict, lookup, insert, delete, NodupKeys,
  lookup-insert, lookup-delete, Text, text, text_eqb, text_eqb_iff, text_eq, is_empty, is_empty_iff,
  is_space, trim_space, trim_left, trim_right, trim_space_idem, has_prefix, contains, trim_prefix,
  has_suffix, trim_suffix, byte_len, equal_fold, has_prefix-append,
}
use native.Mathlib.Decide.{ℕ_discrete}
use koios.Types.{Message}
use koios.Session.Data.{Session, checkpoint, rewrite_file}
use mathlib.Core.Bool.{decide}

pub record CompactionStatus : Type 0 where
  pub enabled : Bool
  pub memory_flush_enabled : Bool
  pub session_messages : ℕ
  pub estimated_prompt_tokens : ℕ
  pub reserve : ℕ
  pub compacted_messages : ℕ
  pub kept_messages : ℕ
  pub eligible : Bool
  pub reason : Text

pub record CompactionReport : Type 0 where
  pub status : CompactionStatus
  pub compacted : Bool
  pub memory_flushed : Bool
  pub memory_flush_error : Text
  pub summary_chars : ℕ
  pub error : Text

pub record CompactionAttempt : Type 0 where
  pub base_messages : List Message
  pub to_compact : List Message
  pub split_idx : ℕ
  pub report : CompactionReport

-- `requestctx.EstimateRequestTokens`
unfoldable pub estimate_request_tokens : (List Message → ℕ) → List Message → ℕ
estimate_request_tokens request_bytes ms =
    let bytes = request_bytes ms in if nat_eqb bytes 0 then 0 else max ((bytes + 3) / 4) 1

unfoldable pub should_compact : (List Message → ℕ) → ℕ → ℕ → List Message → Bool
unfolding estimate_request_tokens
should_compact request_bytes threshold token_threshold ms =
    if ltb 0 threshold && leb threshold (length ms)
    then true
    else if ltb 0 token_threshold
    then leb token_threshold (estimate_request_tokens request_bytes ms)
    else false

-- The reserve that `buildCompactionStatus` works with.
unfoldable pub effective_reserve : ℕ → ℕ → ℕ
effective_reserve total reserve =
    if nat_eqb reserve 0 || leb total reserve
    then (if ltb 1 total && nat_eqb (total / 2) 0 then 1 else total / 2)
    else reserve

unfoldable pub build_compaction_status : ℕ → ℕ → ℕ → Bool → Bool → CompactionStatus
unfolding effective_reserve
build_compaction_status total tokens reserve enabled flush =
    let r = effective_reserve total reserve in
    let base : CompactionStatus = record {
      enabled = enabled;
      memory_flush_enabled = flush;
      session_messages = total;
      estimated_prompt_tokens = tokens;
      reserve = r;
      compacted_messages = 0;
      kept_messages = 0;
      eligible = false;
      reason = [];
    } in
    if not enabled
    then record base { reason = text "no compactor configured" }
    else if nat_eqb total 0
    then record base { reason = text "session is empty" }
    else let c = if nat_eqb (total - r) 0 then total else total - r in
      record base {
        compacted_messages = c;
        kept_messages = total - c;
        eligible = ltb 0 c;
        reason = if ltb 0 c then [] else text "nothing eligible to compact";
      }

unfoldable pub prepare_compaction :
    (List Message → ℕ) → ℕ → Bool → Bool → Session → Option CompactionAttempt
unfolding build_compaction_status estimate_request_tokens
prepare_compaction request_bytes reserve enabled flush s =
    let status =
      build_compaction_status (length s.messages) (estimate_request_tokens request_bytes s.messages)
        reserve enabled flush in
    let report : CompactionReport = record {
      status = status;
      compacted = false;
      memory_flushed = false;
      memory_flush_error = [];
      summary_chars = 0;
      error = [];
    } in
    if not status.eligible || not status.enabled
    then none
    else some (record {
      base_messages = s.messages;
      to_compact = take status.compacted_messages s.messages;
      split_idx = status.compacted_messages;
      report = report;
    })

pub data Summary : Type 0 where
  usable : Text → Summary
  empty_summary : Summary
  silent_token : Text → Summary

unfoldable pub is_silent : Text → Bool
unfolding equal_fold
is_silent t =
    equal_fold t (text "NO_REPLY")
    || equal_fold t (text "SILENT_REPLY")
    || equal_fold t (text "SILENT_REPLY_TOKEN")

-- The `<summary>` element around a summary is taken off.
unfoldable pub strip_element : Text → Text
strip_element t =
    if has_prefix t (text "<summary>") && has_suffix t (text "</summary>")
    then trim_space (trim_suffix (trim_prefix t (text "<summary>")) (text "</summary>"))
    else t

unfoldable pub normalize_compaction_summary : Text → Summary
normalize_compaction_summary summary =
    let trimmed = strip_element (trim_space summary) in
    if is_empty (trim_space summary)
    then empty_summary
    else if is_empty trimmed
    then empty_summary
    else if is_silent trimmed
    then silent_token trimmed
    else usable trimmed

pub Message-discrete : Discrete Message
Message-discrete = hlevel ℕ_discrete

-- `reflect.DeepEqual` on two messages.
unfoldable pub message_eqb : Message → Message → Bool
unfolding Message-discrete ℕ_discrete
message_eqb m n = decide (Message-discrete m n)

unfoldable pub has_message_prefix : List Message → List Message → Bool
unfolding message_eqb
has_message_prefix ms [] = true
has_message_prefix [] (p ∷ ps) = false
has_message_prefix (m ∷ ms) (p ∷ ps) = message_eqb m p && has_message_prefix ms ps

unfoldable pub apply_compaction_attempt : Bool → CompactionAttempt → Text → Session → Session × Bool
apply_compaction_attempt accepted a summary s =
    if has_message_prefix s.messages a.base_messages
    then (
      rewrite_file accepted (record s {
        messages =
            checkpoint summary
            ∷ (drop a.split_idx a.base_messages ++ drop (length a.base_messages) s.messages);
      }),
      true,
    )
    else (s, false)

-- The answers of the components that one compaction calls: the error of the before-compaction hook,
-- if any; the memory flusher; the compactor. The after-compaction hook's error is only logged.
pub data Flush : Type 0 where
  no_flusher flushed : Flush
  flush_failed : Text → Flush

pub data Compacted : Type 0 where
  summarised : Text → Compacted
  compactor_failed : Text → Compacted

pub record Answers : Type 0 where
  pub hook_error : Option Text
  pub flush : Flush
  pub compactor : Compacted

unfoldable pub after_flush : Flush → CompactionReport → CompactionReport
after_flush no_flusher r = r
after_flush flushed r = record r { memory_flushed = true }
after_flush (flush_failed e) r = record r { memory_flush_error = e }

unfoldable pub finish_compaction :
    Bool → Summary → CompactionAttempt → CompactionReport → Session → Session × CompactionReport
finish_compaction accepted empty_summary a r s =
    (s, record r { error = text "compaction summary is empty" })
finish_compaction accepted (silent_token t) a r s = (
  s,
  record r {
    error = text "compaction summary returned silent reply token " ++ (b'"' ∷ t ++ b'"' ∷ []);
  },
)
finish_compaction accepted (usable summary) a r s =
    let (s', applied) = apply_compaction_attempt accepted a summary s in
    if applied then (s', record r { compacted = true; summary_chars = byte_len summary }) else (
      s,
      record r { error = text "session changed during compaction; skipped applying summary" },
    )

-- What follows the hook: flushing, then the compactor.
unfoldable pub run_compactor :
    Bool
    → Flush
    → Compacted
    → CompactionAttempt
    → CompactionReport
    → Session
    → Session × CompactionReport
run_compactor accepted flush (compactor_failed e) a r s =
    (s, record (after_flush flush r) { error = e })
run_compactor accepted flush (summarised summary) a r s =
    finish_compaction accepted (normalize_compaction_summary summary) a (after_flush flush r) s

unfoldable pub after_hook :
    Bool
    → Option Text
    → Answers
    → CompactionAttempt
    → CompactionReport
    → Session
    → Session × CompactionReport
after_hook accepted (some e) answers a r s = (s, record r { error = e })
after_hook accepted none answers a r s =
    run_compactor accepted answers.flush answers.compactor a r s

-- `executeCompaction`, with the session as it stands when the summary is there.
unfoldable pub execute_compaction :
    Bool → Answers → CompactionAttempt → Session → Session × CompactionReport
execute_compaction accepted answers a s =
    let r = a.report in
    if not r.status.eligible || not r.status.enabled
    then (s, r)
    else after_hook accepted answers.hook_error answers a r s
