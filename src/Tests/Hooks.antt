-- ===== src/Tests/Hooks.antt =====
-- Examples for internal/ops/hooks.go.
use koios.Prelude.{◌≡◌, refl, true, false, Bool, List, [], ◌∷◌, not, some_of, Text, text, text_eq}
use koios.Hooks.Manager.{Event, Registration, new_manager, stamped, emit}
use koios.Hooks.Order.{register_all, registered, emit-register_all}

abbrev handler_of : Bool → Registration
handler_of answer = record { priority = 7; handler = λ ev. answer }

abbrev calls : List (Text × Registration)
calls =
    (text "cron_approval", handler_of true)
    ∷ (text "after_llm", handler_of true)
    ∷ (text "cron_approval", handler_of false)
    ∷ []

abbrev approval : Event
approval = record {
  name = text "cron_approval";
  timestamp = 0;
  peer_id = text "bob";
  session_key = [];
  payload = [];
}

one_fails :
    some_of (λ r. not (r.handler (stamped 5 approval))) (registered approval.name calls) ≡ true
unfolding registered stamped
one_fails = refl

emit-register_all_example :
    (emit 5 approval (register_all calls (new_manager 0 true))).1
    ≡ not (some_of (λ r. not (r.handler (stamped 5 approval))) (registered approval.name calls))
emit-register_all_example = (emit-register_all 5 approval 0 true calls).0
