-- ===== src/Session/Compaction/Usable.antt =====
-- internal/session/store.go: what `normalizeCompactionSummary` lets through.
use koios.Prelude.{
  ◌≡◌, false, arith, nat_eq, Text, text, text_eq, is_empty, trim_space, trim_space_idem,
  trim_prefix, trim_suffix,
}
use koios.Session.Compaction.{usable, strip_element, is_silent, normalize_compaction_summary}

trim_space-strip_element :
    (t : Text) → trim_space t ≡ t → trim_space (strip_element t) ≡ strip_element t
unfolding strip_element
trim_space-strip_element t h =
    ground
      (arith, trim_space_idem (trim_suffix (trim_prefix t (text "<summary>")) (text "</summary>")))

-- A summary that is accepted has no space at its ends, is not empty, and is no silent-reply token.
pub normalize_compaction_summary_usable :
    (summary t : Text)
    → normalize_compaction_summary summary ≡ usable t
    → (trim_space t ≡ t) × (is_empty t ≡ false) × (is_silent t ≡ false)
unfolding normalize_compaction_summary
normalize_compaction_summary_usable summary t h =
    ground (arith, trim_space-strip_element (trim_space summary) (trim_space_idem summary))
