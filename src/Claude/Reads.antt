-- ===== src/Claude/Reads.antt =====
-- The filtered reads of plugins/claude/store.go, and the accessors of claude.go for a plugin that runs.
-- A row that is read has its sid. A failure of the driver gives no rows.
use supergraph.Common.{
  ◌≡◌, String, string_eq, Bool, true, false, ◌&&◌, not, Option, none, some, List, [], ◌==◌,
  if◌then◌else◌, codes, select, refl, ◌∙◌,
}
use supergraph.Common.Int.{ℤ, eqb_ℤ}
use supergraph.Common.Rows.{order_rows, any, any-order_rows, any-select}
use supergraph.Claude.Rows.{SessionRow, Tables}

-- A row with its sid.
abbrev pub Session : Type 0
Session = String × SessionRow

abbrev is_of_host : Option String → SessionRow → Bool
is_of_host none r = true
is_of_host (some host) r = r.host_id == host

abbrev pub is_of_issue : Option ℤ → SessionRow → Bool
is_of_issue none r = true
is_of_issue (some n) r = eqb_ℤ r.issue_number n

unfoldable pub list : Option String → Option ℤ → Tables → List Session
list host issue s =
    order_rows (λ r. codes r.0)
      (select (λ r. is_of_host host r.1 && is_of_issue issue r.1) s.sessions)

unfoldable pub instances : Option String → Tables → List Session
instances host s =
    order_rows (λ r. codes r.1.pane)
      (select (λ r. not (r.1.pane == "") && is_of_host host r.1) s.sessions)

unfoldable pub query_sessions : Bool → Option String → Option ℤ → Tables → List Session
query_sessions fails host issue s = if fails then [] else list host issue s

unfoldable pub query_instances : Bool → Option String → Tables → List Session
query_instances fails host s = if fails then [] else instances host s

-- Whether some row passes, in terms of the table.
pub any-query_sessions :
    (p : Session → Bool) (fails : Bool) (issue : Option ℤ) (s : Tables)
    → any p (query_sessions fails none issue s)
      ≡ (not fails && any (λ r. is_of_issue issue r.1 && p r) s.sessions)
unfolding query_sessions list
any-query_sessions p true issue s = refl
any-query_sessions p false issue s =
    any-order_rows (λ r. codes r.0) p (select (λ r. is_of_issue issue r.1) s.sessions)
    ∙ any-select p (λ r. is_of_issue issue r.1) s.sessions
