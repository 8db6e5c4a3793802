-- ===== src/Examples/Claude.antt =====
-- Examples for plugins/claude/.
use supergraph.Common.{◌≡◌, refl, string_eq, Bool, false, none, some, List, [], ◌∷◌}
use supergraph.Common.Dict.{lookup}
use supergraph.Common.Int.{ℤ, pos}
use supergraph.Claude.Redact.{Enrichment, FoldInput, StateFile}
use supergraph.Claude.Rows.{SessionRow, Tables, ok, failed}
use supergraph.Claude.Store.{apply_fold, has_fold, has_key}
use supergraph.Claude.Store.Counters.{calls_of, count_calls}
use supergraph.Claude.Store.Retry
use supergraph.Claude.StateFile.{apply_state_file, blank_row}
use supergraph.Claude.StateFile.Authority
use supergraph.Claude.History
use supergraph.Claude.History.{Op, folds_in, reads_file, sweeps, run}

abbrev plain : Enrichment
plain = record {
  cwd = "/w";
  git_branch = "issue1";
  model = "m";
  pr_url = "";
  issue_number = pos 1;
  pr_number = pos 0;
}

abbrev tool_use : FoldInput
tool_use = record {
  sid = "s";
  event = "PreToolUse";
  ts = "t1";
  tool = "Bash";
  permission_ask = false;
  pane = "";
  pid = pos 7;
  enrich = plain;
}

abbrev file : StateFile
file = record {
  sid = "s";
  cwd = "/w";
  pid = pos 7;
  pane = "%1";
  state = "input";
  first_prompt = "hello";
  last_response = "";
}

abbrev empty : Tables
empty = record { sessions = []; folds = [] }

abbrev one_row : SessionRow
one_row = record (blank_row "box" 3) { state = "working"; tool_calls = 1; pid = pos 7 }

abbrev one_session : Tables
one_session = record {
  sessions = ("s", one_row) ∷ [];
  folds = record { sid = "s"; event = "PreToolUse"; ts = "t1" } ∷ [];
}

failed_fold_is_lost_example :
    let t = (apply_fold (some 2) tool_use "box" 5 empty).0 in
    ((apply_fold (some 2) tool_use "box" 5 empty).1 ≡ failed)
    × ((apply_fold none tool_use "box" 9 t).1 ≡ ok false)
    × ((apply_fold none tool_use "box" 9 t).0.sessions ≡ empty.sessions)
failed_fold_is_lost_example =
    Retry.failed_fold_is_lost tool_use "box" 5 9 empty (unfold has_key in refl)

fold_has_authority_example :
    (r' : SessionRow) × (lookup "s"
        (apply_state_file (some 1) file "title" "box" 9 one_session).0.sessions
      ≡ some r')
    × (r'.tool_calls ≡ 1)
    × (r'.state ≡ file.state)
fold_has_authority_example =
    Authority.fold_has_authority (some 1) file "title" "box" 9 one_session one_row "s"
      (unfold lookup in refl) (unfold has_fold in refl)

abbrev nobody : ℤ → Bool
nobody pid = false

abbrev busy : List Op
busy =
    sweeps 20 nobody
    ∷ reads_file file "" "box" 9
    ∷ folds_in tool_use "box" 6
    ∷ folds_in tool_use "box" 5
    ∷ []

run-counted_example : calls_of (run busy) "s" ≡ count_calls "s" (run busy).folds
run-counted_example = History.run-counted busy "s"
