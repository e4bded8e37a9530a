-- ===== src/Scheduler/Newest.antt =====
-- internal/scheduler/job.go, `AppendRunRecord` and `ReadRunRecords`.
use koios.Prelude.{
  ℕ, suc, zero, ◌+◌, ◌-◌, ◌≤◌, ◌<◌, ◌≡◌, ◌∙◌, sym, ap, subst, append-nil, append_assoc, refl, arith,
  true, false, none, some, List, [], ◌∷◌, ◌++◌, All, length, drop, leb, ltb, Bool-cases, inl, inr,
  length-append, length-drop, drop-drop, drop_past, All-append,
}
use koios.Scheduler.RunLog.{
  RunRecord, scan, last, file_size, prune_run_log, append_run_record, append_all, read_run_records,
  max_scan_token_size, run_log_keep_lines, run_log_max_bytes,
}

abbrev pub Fits : (RunRecord → ℕ) → List RunRecord → Type 0
Fits size rs = All (λ r. size r ≤ max_scan_token_size) rs

scan-Fits : (size : RunRecord → ℕ) (rs : List RunRecord) → Fits size rs → scan size rs ≡ (rs, true)
unfolding scan
scan-Fits size [] f = refl
scan-Fits size (r ∷ rs) f = ground (arith, scan-Fits size rs f.1)

drop-Fits :
    (size : RunRecord → ℕ) (n : ℕ) (rs : List RunRecord) → Fits size rs → Fits size (drop n rs)
drop-Fits size zero rs f = f
drop-Fits size (suc n) [] f = f
drop-Fits size (suc n) (r ∷ rs) f = drop-Fits size n rs f.1

drop_snoc :
    (n : ℕ) (rs : List RunRecord) (r : RunRecord)
    → n ≤ length rs
    → drop n (rs ++ (r ∷ [])) ≡ drop n rs ++ (r ∷ [])
drop_snoc zero rs r h = refl
drop_snoc (suc n) [] r h = absurd (ground arith)
drop_snoc (suc n) (x ∷ rs) r h = drop_snoc n rs r (omega arith)

last-last : (n k : ℕ) (rs : List RunRecord) → n ≤ k → k ≤ length rs → last n (last k rs) ≡ last n rs
last-last n k rs h g =
    let l = length-drop (length rs - k) rs in
    let e : (length rs - k) + (length (last k rs) - n) ≡ length rs - n = omega (arith, l) in
    drop-drop (length rs - k) (length (last k rs) - n) rs ∙ ap (λ i. drop i rs) e

last_zero : (rs : List RunRecord) → last 0 rs ≡ []
last_zero rs = drop_past (length rs - 0) rs (omega arith)

last_snoc :
    (n : ℕ) (rs : List RunRecord) (r : RunRecord)
    → last (suc n) (rs ++ (r ∷ [])) ≡ last n rs ++ (r ∷ [])
last_snoc n rs r =
    let e : length (rs ++ (r ∷ [])) - suc n ≡ length rs - n =
      omega (arith, length-append rs (r ∷ [])) in
    ap (λ i. drop i (rs ++ (r ∷ []))) e ∙ drop_snoc (length rs - n) rs r (omega arith)

scan_overlong :
    (size : RunRecord → ℕ) (before after : List RunRecord) (r : RunRecord)
    → max_scan_token_size < size r
    → (scan size (before ++ (r ∷ after))).1 ≡ false
unfolding scan
scan_overlong size [] after r h = ground arith
scan_overlong size (x ∷ before) after r h = ground (arith, scan_overlong size before after r h)

-- The newest records of two logs are the same, as far as one is kept.
abbrev SameNewest : List RunRecord → List RunRecord → Type 0
SameNewest lines rs = (n : ℕ) → n ≤ run_log_keep_lines → last n lines ≡ last n rs

snoc-SameNewest :
    (lines rs : List RunRecord) (r : RunRecord)
    → SameNewest lines rs
    → SameNewest (lines ++ (r ∷ [])) (rs ++ (r ∷ []))
snoc-SameNewest lines rs r s zero h =
    last_zero (lines ++ (r ∷ [])) ∙ sym (last_zero (rs ++ (r ∷ [])))
snoc-SameNewest lines rs r s (suc n) h =
    last_snoc n lines r ∙ ap (λ l. l ++ (r ∷ [])) (s n (omega arith)) ∙ sym (last_snoc n rs r)

-- A log that holds the newest of the records, and whose lines the scanner reads.
abbrev HoldsNewest : (RunRecord → ℕ) → List RunRecord → List RunRecord → Type 0
HoldsNewest size rs lines = SameNewest lines rs × Fits size lines

prune-HoldsNewest :
    (size : RunRecord → ℕ) (lines : List RunRecord)
    → Fits size lines
    → HoldsNewest size lines (prune_run_log size run_log_keep_lines lines)
unfolding prune_run_log
prune-HoldsNewest size lines f =
    let read = scan-Fits size lines f in
    elim (Bool-cases (leb (length lines) run_log_keep_lines)) [
      | inl b ↦
          let e : prune_run_log size run_log_keep_lines lines ≡ lines = ground arith in
          subst (HoldsNewest size lines) (sym e) (λ n h. refl, f)
      | inr b ↦
          let e : prune_run_log size run_log_keep_lines lines ≡ last run_log_keep_lines lines =
            ground arith in
          subst (HoldsNewest size lines) (sym e) (
            λ n h. last-last n run_log_keep_lines lines h (ground arith),
            drop-Fits size (length lines - run_log_keep_lines) lines f,
          )
    ]

append-HoldsNewest :
    (size : RunRecord → ℕ) (r : RunRecord) (lines rs : List RunRecord)
    → size r ≤ max_scan_token_size
    → HoldsNewest size rs lines
    → HoldsNewest size (rs ++ (r ∷ [])) (append_run_record size r lines)
unfolding append_run_record
append-HoldsNewest size r lines rs h good =
    let written = lines ++ (r ∷ []) in
    let same = snoc-SameNewest lines rs r good.0 in
    let fits = All-append (λ x. size x ≤ max_scan_token_size) lines (r ∷ []) good.1 (h, tt) in
    let pruned = prune-HoldsNewest size written fits in
    elim (Bool-cases (ltb run_log_max_bytes (file_size size written))) [
      | inl b ↦
          let e : append_run_record size r lines ≡ prune_run_log size run_log_keep_lines written =
            ground arith in
          subst (HoldsNewest size (rs ++ (r ∷ []))) (sym e)
            (λ n k. pruned.0 n k ∙ same n k, pruned.1)
      | inr b ↦
          let e : append_run_record size r lines ≡ written = ground arith in
          subst (HoldsNewest size (rs ++ (r ∷ []))) (sym e) (same, fits)
    ]

append_all-HoldsNewest :
    (size : RunRecord → ℕ) (new lines rs : List RunRecord)
    → Fits size new
    → HoldsNewest size rs lines
    → HoldsNewest size (rs ++ new) (append_all size new lines)
unfolding append_all
append_all-HoldsNewest size [] lines rs f good =
    subst (λ l. HoldsNewest size l lines) (sym (append-nil rs)) good
append_all-HoldsNewest size (r ∷ new) lines rs f good =
    subst (λ l. HoldsNewest size l (append_all size (r ∷ new) lines)) (append_assoc rs (r ∷ []) new)
      (append_all-HoldsNewest size new (append_run_record size r lines) (rs ++ (r ∷ [])) f.1
        (append-HoldsNewest size r lines rs f.0 good))

-- If the line of each record fits the scanner's buffer, reading at most as many records as a
-- pruning keeps gives the newest of all that were written, in their order, however often the log
-- was pruned between.
pub read_run_records-append_all :
    (size : RunRecord → ℕ) (rs : List RunRecord) (limit : ℕ)
    → Fits size rs
    → limit ≤ run_log_keep_lines
    → read_run_records size limit (append_all size rs []) ≡ some (last limit rs)
unfolding read_run_records
read_run_records-append_all size rs limit f h =
    let good = append_all-HoldsNewest size rs [] [] f (λ n k. refl, tt) in
    ground (arith, scan-Fits size (append_all size rs []) good.1, good.0 limit h)

-- A line that does not fit ends every reading of the log with an error, until a pruning rewrites it.
pub read_run_records_overlong :
    (size : RunRecord → ℕ) (limit : ℕ) (before after : List RunRecord) (r : RunRecord)
    → max_scan_token_size < size r
    → read_run_records size limit (before ++ (r ∷ after)) ≡ none
unfolding read_run_records
read_run_records_overlong size limit before after r h =
    ground (arith, scan_overlong size before after r h)
