-- ===== src/Session/Compaction/Status.antt =====
-- internal/session/store.go: how many messages a compaction takes and how many it leaves.
use koios.Prelude.{ℕ, ◌+◌, ◌<◌, ◌≡◌, ◌⊎◌, Bool, true, false, [], arith, nat_eq, text_eq, is_empty}
use koios.Session.Compaction.{build_compaction_status}

-- A session with messages and a compactor is always eligible: the summarised and the kept messages
-- are together all of them, at least one is summarised, and a reserve that is positive and below
-- the total is kept in full.
pub build_compaction_status_lem :
    (total tokens reserve : ℕ) (flush : Bool)
    → 0 < total
    → let st = build_compaction_status total tokens reserve true flush in
      (st.eligible ≡ true)
      × (st.compacted_messages + st.kept_messages ≡ total)
      × (0 < st.compacted_messages)
      × (0 < reserve → reserve < total → st.kept_messages ≡ reserve)
      × (st.reason ≡ [])
unfolding build_compaction_status
build_compaction_status_lem total tokens reserve flush h = ground arith

-- Without a compactor, or on an empty session, nothing is eligible and a reason is given.
pub build_compaction_status_refused :
    (total tokens reserve : ℕ) (enabled flush : Bool)
    → (enabled ≡ false) ⊎ (total ≡ 0)
    → let st = build_compaction_status total tokens reserve enabled flush in
      (st.eligible ≡ false) × (st.compacted_messages ≡ 0) × (is_empty st.reason ≡ false)
unfolding build_compaction_status
build_compaction_status_refused total tokens reserve enabled flush h = ground arith
