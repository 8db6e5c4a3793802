-- ===== src/Examples/Hook.antt =====
-- Examples for plugins/claude/hook.go.
use supergraph.Common.{ℕ, ◌≡◌, refl, String, string_eq, none, []}
use supergraph.Common.Int.{pos}
use supergraph.Claude.Redact.{HookPayload}
use supergraph.Claude.Reducer.{known_event}
use supergraph.Claude.Rows.{Tables}
use supergraph.Claude.Store.{apply_fold}
use supergraph.Claude.Hook.{payload, handle_hook, status_ok, bad_request, valid_session_id}
use supergraph.Claude.Hook.Answers.{IsOnRecord, handle_hook-answers}

abbrev ended : HookPayload
ended = record {
  session_id = "0a1b-2c";
  event = "SessionEnd";
  cwd = "/w";
  tool_name = "";
  message = "";
  git_branch = "issue7";
  model = "m";
  tmux_pane = "%1";
  pid = pos 7;
  issue_number = none;
  ts = "t1";
}

abbrev empty : Tables
empty = record { sessions = []; folds = [] }

abbrev format : ℕ → String
format now = "now"

first_answer : (handle_hook none format "box" 5 (payload ended) empty).status ≡ status_ok
unfolding handle_hook valid_session_id known_event apply_fold
first_answer = refl

no_such_event :
    (handle_hook none format "box" 5 (payload (record ended { event = "Sleep" })) empty).status
    ≡ bad_request
unfolding handle_hook valid_session_id known_event
no_such_event = refl

handle_hook-answers_example :
    let r = handle_hook none format "box" 5 (payload ended) empty in
    (r.status ≡ status_ok → IsOnRecord (format 5) (payload ended) r.tables)
    × (¬ (r.status ≡ status_ok) → (r.emitted ≡ []) × (r.tables.sessions ≡ empty.sessions))
handle_hook-answers_example = handle_hook-answers none format "box" 5 (payload ended) empty
