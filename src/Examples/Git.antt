-- ===== src/Examples/Git.antt =====
-- Examples for plugins/git/.
use supergraph.Common.{
  ◌≡◌, refl, true, false, none, some, List, [], ◌∷◌, codes, bytes_eq, bytes_eqb, ◌==◌, arith, map,
  contains, All, ◌≢◌,
}
use mathlib.Core.Option
use supergraph.Common.Dict.{lookup}
use supergraph.Common.Int.{pos}
use supergraph.Common.Bytes.{Text, has_code, has_code-Lacks_of, Lacks}
use supergraph.Common.Decimal.{InRange}
use supergraph.Git.Worktree.{parse_worktree_list}
use supergraph.Git.Worktree.Porcelain.{
  Stanza, IsLine, bare_at, on_branch, detached_at, locked, locked_for, prunable_for, IsPlain,
  porcelain_of, worktree_of,
}
use supergraph.Git.Worktree.RoundTrip.{parse_worktree_list-porcelain_of}
use supergraph.Git.Store.{
  WorktreeNode, WorktreeRow, Tables, Driver, is_gone, gone_keys, mark_worktrees_stale_for_repo,
}
use supergraph.Git.Store.Sweep.{IsKeyed, row_is, swept_row, sweep_exact}
use supergraph.Git.Reconcile.{Plugin, updated, worktree_hash, emit_if_changed}
use supergraph.Git.Reconcile.Gate.{IsReported, visible, emit_if_changed_exact}

abbrev stanzas : List Stanza
stanzas =
    bare_at (codes "/r") []
    ∷ on_branch (codes "/r a") (codes "0f") (codes "issue1/x") (locked_for (codes "on a disk") ∷ [])
    ∷ detached_at (codes "/d") (codes "1a") (locked ∷ prunable_for (codes "gone") ∷ [])
    ∷ []

line : (t : Text) → has_code b'\n' t ≡ false → has_code b'\r' t ≡ false → IsLine t
line t h k = (has_code-Lacks_of b'\n' t h, has_code-Lacks_of b'\r' t k)

stanzas-IsPlain : All IsPlain stanzas
unfolding IsPlain has_code
stanzas-IsPlain = (
  (line (codes "/r") refl refl, tt),
  (
    (
      line (codes "/r a") refl refl,
      line (codes "0f") refl refl,
      line (codes "issue1/x") refl refl,
      (line (codes "on a disk") refl refl, tt),
    ),
    (
      (
        line (codes "/d") refl refl,
        line (codes "1a") refl refl,
        (tt, (line (codes "gone") refl refl, tt)),
      ),
      tt,
    ),
  ),
)

parse_worktree_list-porcelain_of_example :
    parse_worktree_list (porcelain_of stanzas) ≡ map worktree_of stanzas
parse_worktree_list-porcelain_of_example = parse_worktree_list-porcelain_of stanzas stanzas-IsPlain

-- Two states of a worktree on a branch.
abbrev node : WorktreeNode
node = record {
  key = codes "h:/w";
  host_id = codes "h";
  repo_key = codes "h:/r";
  repo_slug = codes "o/r";
  path = codes "/w";
  head = codes "0f";
  branch = some (codes "main");
  detached = false;
  ahead = some (pos 2);
  behind = some (pos 0);
}

abbrev moved : WorktreeNode
moved = record node { head = codes "1a" }

abbrev tables : Tables
tables = record { git_repos = []; git_worktrees = [] }

abbrev plugin : Plugin
plugin = record {
  host_id = codes "h";
  tables = tables;
  hashes = (codes "h:/w", worktree_hash node) ∷ [];
  emitted = [];
  wt_count = 0;
}

with_head-IsReported : (head : Text) → Lacks b'|' head → IsReported (record node { head = head })
unfolding InRange bytes_eqb
with_head-IsReported head h = record {
  head_Lacks = h;
  branch_IsBranch = refl;
  ahead_IsInt = omega arith;
  behind_IsInt = omega arith;
}

node-IsReported : IsReported node
unfolding has_code
node-IsReported = with_head-IsReported (codes "0f") (has_code-Lacks_of b'|' (codes "0f") refl)

moved-IsReported : IsReported moved
unfolding has_code
moved-IsReported = with_head-IsReported (codes "1a") (has_code-Lacks_of b'|' (codes "1a") refl)

emit_if_changed_exact_example :
    (lookup moved.key plugin.hashes ≡ none
      → (emit_if_changed moved plugin).emitted ≡ updated moved ∷ plugin.emitted)
    × (lookup moved.key plugin.hashes ≡ some (worktree_hash node)
        → (visible moved ≡ visible node → (emit_if_changed moved plugin).emitted ≡ plugin.emitted)
          × (visible moved ≢ visible node
              → (emit_if_changed moved plugin).emitted ≡ updated moved ∷ plugin.emitted))
    × (lookup moved.key (emit_if_changed moved plugin).hashes ≡ some (worktree_hash moved))
emit_if_changed_exact_example =
    emit_if_changed_exact moved node plugin moved-IsReported node-IsReported

-- Three live worktrees of one repository.
abbrev live : WorktreeRow
live = record {
  host_id = codes "h";
  repo_key = codes "h:/r";
  path = codes "/w";
  branch = none;
  head = codes "0f";
  detached = true;
  ahead = none;
  behind = none;
  last_seen_at = 1;
  stale_since = none;
}

abbrev three : Tables
three = record {
  git_repos = [];
  git_worktrees = (codes "a", live) ∷ (codes "b", live) ∷ (codes "c", live) ∷ [];
}

three-IsKeyed : IsKeyed three.git_worktrees
unfolding lookup bytes_eqb
three-IsKeyed = (refl, (refl, (refl, tt)))

-- A driver whose statements succeed, but for the stamp of one key.
abbrev failing_at : Text → Driver
failing_at key = record {
  upsert_repo_fails = λ _. false;
  upsert_worktree_fails = λ _. false;
  select_live_fails = λ _. false;
  stamp_fails = λ k. k == key;
}

abbrev calm : Driver
calm = record (failing_at []) { stamp_fails = λ _. false }

sweep_exact_example :
    let out = mark_worktrees_stale_for_repo calm (codes "h:/r") (codes "b" ∷ []) 9 three in
    ((gone : List Text) × (out.1 ≡ some gone)
      × (contains gone (codes "a")
          ≡ row_is
              (is_gone (codes "h:/r") (codes "b" ∷ []) (codes "a"))
              (lookup (codes "a") three.git_worktrees)))
    × (lookup (codes "a") out.0.git_worktrees
        ≡ Option.map
            (swept_row (codes "h:/r") (codes "b" ∷ []) 9 (codes "a"))
            (lookup (codes "a") three.git_worktrees))
sweep_exact_example =
    sweep_exact calm (codes "h:/r") (codes "b" ∷ []) 9 three (codes "a") three-IsKeyed refl
      (λ _. refl)

gone_three :
    gone_keys (codes "h:/r") [] three.git_worktrees ≡ codes "a" ∷ codes "b" ∷ codes "c" ∷ []
unfolding gone_keys contains bytes_eqb
gone_three = refl

lookup_a : lookup (codes "a") three.git_worktrees ≡ some live
unfolding lookup bytes_eqb
lookup_a = refl

failing_at_b :
    ((failing_at (codes "b")).stamp_fails (codes "a") ≡ false)
    × ((failing_at (codes "b")).stamp_fails (codes "b") ≡ true)
unfolding bytes_eqb
failing_at_b = (refl, refl)
