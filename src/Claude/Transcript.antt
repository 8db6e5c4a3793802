-- ===== src/Claude/Transcript.antt =====
-- plugins/claude/tail.go: foldLine; projectRecord of redact.go and prNumberFromURL of keys.go. The
-- decoding of a line is outside: `blocks` is the decoded content, nothing where it is no list of blocks.
-- A clock is read once for a line.
pub mod Calls
use supergraph.Common.{
  ℕ, zero, suc, ◌+◌, String, string_eq, Bool, true, false, Option, none, some, List, [], ◌∷◌, ◌++◌,
  ◌==◌, ◌||◌, eqb, codes, if◌then◌else◌, Fault,
}
use supergraph.Common.Int.{ℤ, pos}
use supergraph.Common.Bytes.{Text, after_prefix}
use supergraph.Common.Decimal.{lax_atoi}
use supergraph.Claude.Redact.{Enrichment, FoldInput, issue_from_branch}
use supergraph.Claude.Rows.{Tables, Outcome, ok, failed, is_zero}
use supergraph.Claude.Store.{apply_fold, apply_enrichment}
use supergraph.Claude.Hook.{Envelope, emit_session_updated, emit_for_fold, stamped}

-- What follows the last "/pull/".
unfoldable after_last_pull : Text → Option Text
after_last_pull [] = none
after_last_pull (c ∷ t) =
    let rest = after_last_pull t in
    elim rest [ some u ↦ some u | none ↦ after_prefix (codes "/pull/") (c ∷ t) ]

unfoldable up_to_end : Text → Text
up_to_end [] = []
up_to_end (c ∷ t) =
    let rest = up_to_end t in if eqb c b'/' || eqb c b'?' || eqb c b'#' then [] else c ∷ rest

unfoldable pub pr_number_from_url : String → ℤ
unfolding after_last_pull up_to_end
pr_number_from_url url = elim (after_last_pull (codes url)) [
  | none ↦ pos 0
  | some tail ↦ lax_atoi (up_to_end tail)
]

pub record Block : Type 0 where
  pub type : String
  pub name : String

pub record TranscriptRecord : Type 0 where
  pub session_id : String
  pub cwd : String
  pub git_branch : String
  pub timestamp : String
  pub pr_number : ℤ
  pub pr_url : String
  pub model : String
  pub blocks : Option (List Block)

unfoldable pub record_enrichment : TranscriptRecord → Enrichment
record_enrichment r = record {
  cwd = r.cwd;
  git_branch = r.git_branch;
  model = r.model;
  pr_url = r.pr_url;
  issue_number = pos (issue_from_branch r.git_branch);
  pr_number = if is_zero r.pr_number then pr_number_from_url r.pr_url else r.pr_number;
}

abbrev pub tool_fold : TranscriptRecord → Block → FoldInput
tool_fold r b = record {
  sid = r.session_id;
  event = "PreToolUse";
  ts = r.timestamp;
  tool = b.name;
  permission_ask = false;
  pane = "";
  pid = pos 0;
  enrich = record_enrichment r;
}

unfoldable pub tool_folds : TranscriptRecord → List Block → List FoldInput
tool_folds r [] = []
tool_folds r (b ∷ bs) =
    let rest = tool_folds r bs in if b.type == "tool_use" then tool_fold r b ∷ rest else rest

abbrev pub record_folds : TranscriptRecord → Option (List Block) → List FoldInput
record_folds r none = []
record_folds r (some bs) = tool_folds r bs

unfoldable pub project_record : TranscriptRecord → Enrichment × List FoldInput
project_record r = (record_enrichment r, record_folds r r.blocks)

abbrev pub after_fold : Fault → String → FoldInput → Tables × Outcome Bool → Tables × List Envelope
after_fold fault host fi (t, failed) = (t, [])
after_fold fault host fi (t, ok applied) =
    (t, if applied then emit_for_fold fault host fi t else [])

unfoldable pub fold_one :
    Fault → (ℕ → String) → String → ℕ → FoldInput → Tables → Tables × List Envelope
fold_one fault format host now fi s =
    let one = stamped (format now) fi in after_fold fault host one (apply_fold fault one host now s)

abbrev pub and_then :
    Tables × List Envelope → (Tables → Tables × List Envelope) → Tables × List Envelope
and_then (t, events) more = ((more t).0, events ++ (more t).1)

-- The folds of a line. `faults` says where the driver fails in the call of each number.
unfoldable pub fold_all :
    (ℕ → Fault) → (ℕ → String) → String → ℕ → ℕ → List FoldInput → Tables → Tables × List Envelope
fold_all faults format host now call [] s = (s, [])
fold_all faults format host now call (fi ∷ fis) s =
    and_then (fold_one (faults call) format host now fi s)
      (fold_all faults format host now (suc call) fis)

abbrev pub after_enrichment :
    Fault → String → String → Tables × Outcome (Unit {0}) → Tables × List Envelope
after_enrichment fault host sid (t, failed) = (t, [])
after_enrichment fault host sid (t, ok _) = (t, emit_session_updated fault host sid t)

-- The decoded line, if it could be decoded; the enrichment is the call 0.
unfoldable pub fold_line :
    (ℕ → Fault)
    → (ℕ → String)
    → String
    → ℕ
    → Option TranscriptRecord
    → Tables
    → Tables × List Envelope
unfolding project_record
fold_line faults format host now none s = (s, [])
fold_line faults format host now (some r) s =
    if r.session_id == ""
    then (s, [])
    else let (enrich, folds) = project_record r in
      and_then
        (after_enrichment (faults 0) host r.session_id
          (apply_enrichment (faults 0) r.session_id host enrich now s))
        (fold_all faults format host now 1 folds)
