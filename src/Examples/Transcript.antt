-- ===== src/Examples/Transcript.antt =====
-- Examples for the lines of a transcript of plugins/claude/.
use supergraph.Common.{
  ℕ, zero, suc, ◌≡◌, refl, String, string_eq, none, some, List, [], ◌∷◌, Fault, codes,
}
use supergraph.Common.Bytes.{after_prefix}
use supergraph.Common.Int.{pos}
use supergraph.Common.Decimal.{lax_atoi}
use supergraph.Claude.Rows.{Tables}
use supergraph.Claude.Transcript.{Block, TranscriptRecord, pr_number_from_url, fold_line}
use supergraph.Claude.Transcript.Calls.{first_tool, fold_line-first_tool}

abbrev line : TranscriptRecord
line = record {
  session_id = "s";
  cwd = "/w";
  git_branch = "issue7";
  timestamp = "t1";
  pr_number = pos 0;
  pr_url = "https://github.com/o/r/pull/12/files";
  model = "m";
  blocks = none;
}

-- Two calls of tools behind a text.
abbrev blocks : List Block
blocks =
    record { type = "text"; name = "" }
    ∷ record { type = "tool_use"; name = "Bash" }
    ∷ record { type = "tool_use"; name = "Read" }
    ∷ []

abbrev empty : Tables
empty = record { sessions = []; folds = [] }

abbrev format : ℕ → String
format now = "now"

-- The driver fails in the last statement of the second fold.
abbrev faults : ℕ → Fault
faults zero = none
faults (suc zero) = none
faults (suc (suc call)) = some 2

number_of_line : pr_number_from_url line.pr_url ≡ pos 12
unfolding pr_number_from_url after_prefix lax_atoi supergraph.Common.Decimal.read_digits
number_of_line = refl

fold_line-first_tool_example :
    fold_line faults format "box" 5 (some (record line { blocks = some blocks })) empty
    ≡ fold_line faults format "box" 5
        (some (record line { blocks = some (first_tool blocks) }))
        empty
fold_line-first_tool_example =
    fold_line-first_tool faults format "box" 5 line blocks empty refl refl
