-- ===== src/Git/Reconcile.antt =====
-- plugins/git/reconcile.go: one poll of the configured roots. Git is a function from a directory and
-- the arguments to what it prints and whether it succeeds.
pub mod Gate
use supergraph.Common.{
  ℕ, suc, ◌≡◌, Bool, true, false, ◌&&◌, not, Option, none, some, List, [], ◌∷◌, ◌++◌, codes,
  bytes_eq, bytes_eqb, ◌==◌, if◌then◌else◌, eqb,
}
use supergraph.Common.Dict.{lookup, insert, remove}
use supergraph.Common.Int.{ℤ}
use supergraph.Common.Bytes.{Text}
use supergraph.Common.Decimal.{print_int}
use supergraph.Common.Split.{clean}
use supergraph.Git.Worktree.{Worktree, parse_worktree_list, parse_ahead_behind, repo_slug}
use supergraph.Git.Store.{
  RepoNode, WorktreeNode, Tables, Driver, upsert_repo, upsert_worktree,
  mark_worktrees_stale_for_repo,
}

abbrev pub Runner : Type 0
Runner = Text → List Text → Text × Bool

pub data GitEvent : Type 0 where
  updated : WorktreeNode → GitEvent
  removed : Text → GitEvent

pub data GitError : Type 0 where
  at_repo : Text → GitError
  at_worktree : Text → Text → GitError
  at_sweep : Text → GitError

-- `emitted` is what was handed to the emit closure, the newest first.
pub record Plugin : Type 0 where
  pub host_id : Text
  pub tables : Tables
  pub hashes : List (Text × Text)
  pub emitted : List GitEvent
  pub wt_count : ℕ

unfoldable pub branch_ptr : Text → Option Text
branch_ptr [] = none
branch_ptr (c ∷ branch) = some (c ∷ branch)

abbrev pub ptr_str : Option ℤ → Text
ptr_str none = []
ptr_str (some n) = print_int n

abbrev pub ptr_str_branch : Option Text → Text
ptr_str_branch none = 0 ∷ codes "nil"
ptr_str_branch (some b) = b

abbrev pub bool_str : Bool → Text
bool_str true = codes "true"
bool_str false = codes "false"

unfoldable pub worktree_hash : WorktreeNode → Text
worktree_hash n =
    ptr_str_branch n.branch
    ++ b'|' ∷ n.head
    ++ b'|' ∷ bool_str n.detached
    ++ b'|' ∷ ptr_str n.ahead
    ++ b'|' ∷ ptr_str n.behind

abbrev count_of : Option (ℤ × ℤ) → Option ℤ × Option ℤ
count_of none = (none, none)
count_of (some (a, b)) = (some a, some b)

abbrev upstream : Text × Bool → Option ℤ × Option ℤ
upstream (out, true) = count_of (parse_ahead_behind out)
upstream (out, false) = (none, none)

abbrev rev_list : List Text
rev_list =
    codes "rev-list" ∷ codes "--left-right" ∷ codes "--count" ∷ codes "HEAD...@{upstream}" ∷ []

unfoldable pub worktree_node : Runner → Text → Text → Text → Worktree → WorktreeNode
worktree_node run host_id repo_key slug wt =
    let counts = upstream (run wt.path rev_list) in
    record {
      key = host_id ++ b':' ∷ clean wt.path;
      host_id = host_id;
      repo_key = repo_key;
      repo_slug = slug;
      path = wt.path;
      head = wt.head;
      branch = branch_ptr wt.branch;
      detached = wt.detached;
      ahead = counts.0;
      behind = counts.1;
    }

unfoldable pub emit : GitEvent → Plugin → Plugin
emit e p = record p { emitted = e ∷ p.emitted }

abbrev pub is_hash : Text → Option Text → Bool
is_hash h none = false
is_hash h (some prev) = prev == h

unfoldable pub emit_if_changed : WorktreeNode → Plugin → Plugin
emit_if_changed n p =
    let kept = record p { hashes = insert n.key (worktree_hash n) p.hashes } in
    if is_hash (worktree_hash n) (lookup n.key p.hashes) then kept else emit (updated n) kept

unfoldable pub forget : Text → Plugin → Plugin
forget key p = record p { hashes = remove key p.hashes }

-- The loop over the worktrees of a root.
pub record Pass : Type 0 where
  pub plugin : Plugin
  pub seen : List Text
  pub root_failed : Bool
  pub total : ℕ
  pub errs : List GitError

abbrev upserted : Text → WorktreeNode → Pass → Option Tables → Pass
upserted root n s none = record s { root_failed = true; errs = at_worktree root n.key ∷ s.errs }
upserted root n s (some t) = record s {
  plugin = emit_if_changed n (record s.plugin { tables = t });
  seen = n.key ∷ s.seen;
  total = suc s.total;
}

unfoldable pub visit : Driver → Text → ℕ → WorktreeNode → Pass → Pass
visit d root now n s = upserted root n s (upsert_worktree d n now s.plugin.tables)

unfoldable pub visit_all : Driver → Runner → Text → Text → Text → ℕ → List Worktree → Pass → Pass
visit_all d run root repo_key slug now [] s = s
visit_all d run root repo_key slug now (wt ∷ wts) s =
    let node = worktree_node run s.plugin.host_id repo_key slug wt in
    let next = if wt.bare then s else visit d root now node s in
    visit_all d run root repo_key slug now wts next

unfoldable pub drop_gone : List Text → Plugin → Plugin
drop_gone [] p = p
drop_gone (k ∷ ks) p = drop_gone ks (emit (removed k) (forget k p))

abbrev swept : Text → Pass → Tables × Option (List Text) → Pass
swept root s (t, none) = record s {
  plugin = record s.plugin { tables = t };
  errs = at_sweep root ∷ s.errs;
}
swept root s (t, some gone) = record s { plugin = drop_gone gone (record s.plugin { tables = t }) }

unfoldable pub sweep_root : Driver → Text → Text → ℕ → Pass → Pass
sweep_root d root repo_key now s =
    if s.root_failed
    then s
    else swept root s (mark_worktrees_stale_for_repo d repo_key s.seen now s.plugin.tables)

abbrev listed : Driver → Runner → Text → Text → Text → ℕ → Text → Pass → Option Tables → Pass
listed d run root repo_key slug now out s none = record s { errs = at_repo root ∷ s.errs }
listed d run root repo_key slug now out s (some t) = sweep_root d root repo_key now (
    visit_all d run root repo_key slug now (parse_worktree_list out)
      (record s { plugin = record s.plugin { tables = t }; seen = []; root_failed = false }))

abbrev worktree_list : List Text
worktree_list = codes "worktree" ∷ codes "list" ∷ codes "--porcelain" ∷ []

abbrev get_url : List Text
get_url = codes "remote" ∷ codes "get-url" ∷ codes "origin" ∷ []

abbrev polled : Driver → Runner → ℕ → Text → Pass → Text × Bool → Pass
polled d run now root s (out, false) = s
polled d run now root s (out, true) =
    let slug = repo_slug (run root get_url).0 root in
    let repo_key = s.plugin.host_id ++ b':' ∷ root in
    let node : RepoNode = record {
      key = repo_key;
      host_id = s.plugin.host_id;
      slug = slug;
      root = root;
    } in
    listed d run root repo_key slug now out s (upsert_repo d node now s.plugin.tables)

unfoldable pub reconcile_root : Driver → Runner → ℕ → Text → Pass → Pass
reconcile_root d run now root s = polled d run now root s (run root worktree_list)

unfoldable pub reconcile_roots : Driver → Runner → ℕ → List Text → Pass → Pass
reconcile_roots d run now [] s = s
reconcile_roots d run now (r ∷ rs) s = reconcile_roots d run now rs (reconcile_root d run now r s)

unfoldable pub reconcile : Driver → Runner → ℕ → List Text → Plugin → Plugin × List GitError
reconcile d run now roots p =
    let s =
      reconcile_roots d run now roots
        (record { plugin = p; seen = []; root_failed = false; total = 0; errs = [] }) in
    (record s.plugin { wt_count = s.total }, s.errs)
