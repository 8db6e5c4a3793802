-- ===== src/Claude/Store/Counters.antt =====
-- A session's tool counter and the folds table agree, for plugins/claude/store.go.
use supergraph.Common.{
  ℕ, suc, ◌+◌, ◌≡◌, refl, ap, ◌∙◌, String, string_eq, Bool, none, some, List, [], ◌∷◌, ◌++◌, arith,
  ◌==◌, ◌&&◌, if◌then◌else◌, Bool-cases, inl, inr,
}
use supergraph.Common.Int.{pos}
use supergraph.Common.Dict.{lookup, lookup-insert}
use supergraph.Claude.Reducer.{fold, state_idle}
use supergraph.Claude.Redact.{Enrichment, FoldInput}
use supergraph.Claude.Rows.{
  calls_in, SessionRow, FoldKey, Tables, insert_cols, enrich_set, fold_set,
}
use supergraph.Claude.Store.{
  upsert, state_in, has_key, key_of, fold_row, apply_fold, apply_enrichment,
}

-- The counter of a session, 0 for one that is not there.
abbrev pub calls_of : Tables → String → ℕ
calls_of s sid = calls_in (lookup sid s.sessions)

-- How many of the folds are tool calls of a session.
abbrev pub count_calls : String → List FoldKey → ℕ
count_calls sid [] = 0
count_calls sid (k ∷ ks) =
    let rest = count_calls sid ks in
    if k.sid == sid && k.event == "PreToolUse" then suc rest else rest

pub record IsCounted (s : Tables) : Type 0 where
  pub counted : (sid : String) → calls_of s sid ≡ count_calls sid s.folds

count_calls-append :
    (sid : String) (ks : List FoldKey) (k : FoldKey)
    → count_calls sid (ks ++ k ∷ [])
      ≡ count_calls sid ks + (if k.sid == sid && k.event == "PreToolUse" then 1 else 0)
count_calls-append sid [] k = ground arith
count_calls-append sid (j ∷ js) k = ground (arith, count_calls-append sid js k)

-- A tool is called exactly on PreToolUse.
fold_tool_call :
    (prev event : String) (ask : Bool) → (fold prev event ask).1 ≡ (event == "PreToolUse")
unfolding fold
fold_tool_call prev event ask = ground (
  arith,
  string_eq.same_iff event "SessionStart",
  string_eq.same_iff event "Stop",
  string_eq.same_iff event "UserPromptSubmit",
  string_eq.same_iff event "PostToolUse",
  string_eq.same_iff event "PreToolUse",
  string_eq.same_iff "SessionStart" "PreToolUse",
  string_eq.same_iff "Stop" "PreToolUse",
  string_eq.same_iff "UserPromptSubmit" "PreToolUse",
  string_eq.same_iff "PostToolUse" "PreToolUse",
)

-- A merge that adds to the counter, seen at any session.
calls-upsert :
    (merge : SessionRow → SessionRow → SessionRow) (n : ℕ) (sid k : String) (row : SessionRow)
    (m : List (String × SessionRow))
    → row.tool_calls ≡ n
    → ((r : SessionRow) → (merge r row).tool_calls ≡ r.tool_calls + n)
    → calls_in (lookup k (upsert merge sid row m))
      ≡ calls_in (lookup k m) + (if sid == k then n else 0)
calls-upsert merge n sid k row m new old = ground (
  arith,
  lookup-insert sid k (elim (lookup sid m) [ none ↦ row | some r ↦ merge r row ]) m,
  string_eq.same_iff sid k,
  new,
  old (elim (lookup sid m) [ none ↦ row | some r ↦ r ]),
)

-- The row that a fold binds counts one call exactly on PreToolUse.
fold_row_calls :
    (prev : String) (fi : FoldInput) (host : String) (now : ℕ)
    → (fold_row prev fi host now).tool_calls ≡ (if fi.event == "PreToolUse" then 1 else 0)
unfolding fold_row
fold_row_calls prev fi host now =
    ap (λ (b : Bool). if b then 1 else 0) (fold_tool_call prev fi.event fi.permission_ask)

-- A fold that the driver does not fail keeps every session's counter equal to the number of its tool
-- calls among the folds.
pub apply_fold-IsCounted :
    (fi : FoldInput) (host : String) (now : ℕ) (s : Tables)
    → IsCounted s
    → IsCounted (apply_fold none fi host now s).0
unfolding apply_fold
apply_fold-IsCounted fi host now s h = elim (Bool-cases (has_key (key_of fi) s.folds)) [
  | inl dup ↦ rw dup h
  | inr fresh ↦
      let prev = state_in (lookup fi.sid s.sessions) in
      let calls = fold_row_calls prev fi host now in
      rw fresh (record {
        counted = λ k.
            calls-upsert fold_set (if fi.event == "PreToolUse" then 1 else 0) fi.sid k
              (fold_row prev fi host now) s.sessions calls (λ r. ap (λ n. r.tool_calls + n) calls)
            ∙ ground (arith, h.counted k, count_calls-append k s.folds (key_of fi));
      })
]

pub apply_enrichment-IsCounted :
    (sid host : String) (e : Enrichment) (now : ℕ) (s : Tables)
    → IsCounted s
    → IsCounted (apply_enrichment none sid host e now s).0
unfolding apply_enrichment
apply_enrichment-IsCounted sid host e now s h = record {
  counted = λ k.
      calls-upsert enrich_set 0 sid k (insert_cols host e state_idle "" 0 "" (pos 0) now none)
        s.sessions refl (λ r. omega arith)
      ∙ ground (arith, h.counted k);
}
