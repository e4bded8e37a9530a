-- ===== src/Orchestrator/Aggregate.antt =====
-- internal/orchestrator/aggregation.go, but for the clusters of a vote, which compare floating-point
-- numbers: `vote` stands for `aggregateVote`. `scrub` stands for `redact.String`.
use koios.Prelude.{
  Bool, true, false, not, Option, none, some, List, [], ◌∷◌, ◌++◌, if◌then◌else◌, Text, text,
  is_empty,
}
use koios.Orchestrator.Types.{
  AggregationMode, collect, concat, reducer, vote, ChildResult, FanOutRequest,
}

-- One or two line feeds.
abbrev pub line : Text
line = 10 ∷ []

abbrev pub blank_line : Text
blank_line = 10 ∷ 10 ∷ []

-- `strings.Join(parts, "\n\n")`
unfoldable pub join_parts : List Text → Text
join_parts [] = []
join_parts (p ∷ []) = p
join_parts (p ∷ q ∷ ps) = p ++ blank_line ++ join_parts (q ∷ ps)

unfoldable pub collect_parts : List ChildResult → List Text
collect_parts [] = []
collect_parts (c ∷ cs) =
    let rest = collect_parts cs in
    if not (is_empty c.final_reply)
    then (text "[" ++ c.label ++ text "]: " ++ c.final_reply) ∷ rest
    else if not (is_empty c.error)
    then (text "[" ++ c.label ++ text "]: error: " ++ c.error) ∷ rest
    else rest

unfoldable pub aggregate_collect : List ChildResult → Text
aggregate_collect cs = join_parts (collect_parts cs)

unfoldable pub concat_section : ChildResult → Text
concat_section c =
    text "## "
    ++ c.label
    ++ blank_line
    ++ (if not (is_empty c.final_reply)
        then c.final_reply
        else if not (is_empty c.error)
        then text "Error: " ++ c.error
        else text "(no output)")

-- The sections from the second on, each behind a rule.
unfoldable pub concat_more : List ChildResult → Text
concat_more [] = []
concat_more (c ∷ cs) = blank_line ++ text "---" ++ blank_line ++ concat_section c ++ concat_more cs

unfoldable pub aggregate_concat : List ChildResult → Text
aggregate_concat [] = []
aggregate_concat (c ∷ cs) = concat_section c ++ concat_more cs

abbrev pub default_reducer_prompt : Text
default_reducer_prompt =
    text
      "Synthesize the following agent results into a single coherent reply. Preserve key findings from each contributor."

unfoldable pub reducer_task : FanOutRequest → List ChildResult → Text
reducer_task req cs =
    (if is_empty req.reducer_prompt then default_reducer_prompt else req.reducer_prompt)
    ++ blank_line
    ++ text "Child results:"
    ++ blank_line
    ++ aggregate_concat cs

-- `none` stands for an error of the agent. The runtime may be missing.
unfoldable pub aggregate_reducer :
    (Text → Text)
    → Option (FanOutRequest → Text → Option Text)
    → FanOutRequest
    → List ChildResult
    → Text × Bool
aggregate_reducer scrub none req cs = (aggregate_concat cs, true)
aggregate_reducer scrub (some agent) req cs = elim (agent req (reducer_task req cs)) [
  | none ↦ (aggregate_concat cs, false)
  | some reply ↦ (scrub reply, true)
]

-- The text, and whether there was no error.
unfoldable pub aggregate_with :
    (Text → Text)
    → Option (FanOutRequest → Text → Option Text)
    → (FanOutRequest → List ChildResult → Text)
    → AggregationMode
    → FanOutRequest
    → List ChildResult
    → Text × Bool
aggregate_with scrub agent elect collect req cs = (aggregate_collect cs, true)
aggregate_with scrub agent elect concat req cs = (aggregate_concat cs, true)
aggregate_with scrub agent elect reducer req cs = aggregate_reducer scrub agent req cs
aggregate_with scrub agent elect vote req cs = (elect req cs, true)
