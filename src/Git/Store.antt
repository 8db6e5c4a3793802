-- ===== src/Git/Store.antt =====
-- plugins/git/store.go: the rows of repositories and worktrees. A row stands under its key.
pub mod Sweep
use supergraph.Common.{
  ℕ, ◌≡◌, Bool, true, false, ◌&&◌, not, Option, none, some, List, [], ◌∷◌, bytes_eq, bytes_eqb,
  ◌==◌, if◌then◌else◌, contains, is_none,
}
use supergraph.Common.Dict.{insert, update_all}
use supergraph.Common.Int.{ℤ}
use supergraph.Common.Bytes.{Text}

pub record RepoNode : Type 0 where
  pub key : Text
  pub host_id : Text
  pub slug : Text
  pub root : Text

pub record WorktreeNode : Type 0 where
  pub key : Text
  pub host_id : Text
  pub repo_key : Text
  pub repo_slug : Text
  pub path : Text
  pub head : Text
  pub branch : Option Text
  pub detached : Bool
  pub ahead : Option ℤ
  pub behind : Option ℤ

pub record RepoRow : Type 0 where
  pub host_id : Text
  pub slug : Text
  pub root : Text
  pub last_seen_at : ℕ
  pub stale_since : Option ℕ

pub record WorktreeRow : Type 0 where
  pub host_id : Text
  pub repo_key : Text
  pub path : Text
  pub branch : Option Text
  pub head : Text
  pub detached : Bool
  pub ahead : Option ℤ
  pub behind : Option ℤ
  pub last_seen_at : ℕ
  pub stale_since : Option ℕ

pub record Tables : Type 0 where
  pub git_repos : List (Text × RepoRow)
  pub git_worktrees : List (Text × WorktreeRow)

-- The driver: which statements fail, by the key that each is for.
pub record Driver : Type 0 where
  pub upsert_repo_fails : Text → Bool
  pub upsert_worktree_fails : Text → Bool
  pub select_live_fails : Text → Bool
  pub stamp_fails : Text → Bool

unfoldable pub upsert_repo : Driver → RepoNode → ℕ → Tables → Option Tables
upsert_repo d r now t =
    if d.upsert_repo_fails r.key
    then none
    else some (record t {
      git_repos =
          insert r.key
            (record {
              host_id = r.host_id;
              slug = r.slug;
              root = r.root;
              last_seen_at = now;
              stale_since = none;
            })
            t.git_repos;
    })

unfoldable pub upsert_worktree : Driver → WorktreeNode → ℕ → Tables → Option Tables
upsert_worktree d r now t =
    if d.upsert_worktree_fails r.key
    then none
    else some (record t {
      git_worktrees =
          insert r.key
            (record {
              host_id = r.host_id;
              repo_key = r.repo_key;
              path = r.path;
              branch = r.branch;
              head = r.head;
              detached = r.detached;
              ahead = r.ahead;
              behind = r.behind;
              last_seen_at = now;
              stale_since = none;
            })
            t.git_worktrees;
    })

-- Live, of the repository, and not to be kept.
abbrev pub is_gone : Text → List Text → Text → WorktreeRow → Bool
is_gone repo_key keep k r = r.repo_key == repo_key && is_none r.stale_since && not (contains keep k)

unfoldable pub gone_keys : Text → List Text → List (Text × WorktreeRow) → List Text
gone_keys repo_key keep [] = []
gone_keys repo_key keep ((k, r) ∷ rows) =
    let rest = gone_keys repo_key keep rows in if is_gone repo_key keep k r then k ∷ rest else rest

abbrev pub stamp_row : Text → ℕ → Text → WorktreeRow → WorktreeRow
stamp_row key now k r =
    if k == key && is_none r.stale_since then record r { stale_since = some now } else r

unfoldable pub stamp : Text → ℕ → Tables → Tables
stamp key now t = record t { git_worktrees = update_all (stamp_row key now) t.git_worktrees }

-- The first failure ends the loop and leaves what was stamped.
unfoldable pub stamp_all : Driver → List Text → ℕ → Tables → Tables × Bool
stamp_all d [] now t = (t, true)
stamp_all d (k ∷ ks) now t =
    let rest = stamp_all d ks now (stamp k now t) in if d.stamp_fails k then (t, false) else rest

abbrev pub stamped : List Text → Tables × Bool → Tables × Option (List Text)
stamped gone (t, true) = (t, some gone)
stamped gone (t, false) = (t, none)

-- `none` is the error.
unfoldable pub mark_worktrees_stale_for_repo :
    Driver → Text → List Text → ℕ → Tables → Tables × Option (List Text)
mark_worktrees_stale_for_repo d repo_key keep now t =
    let gone = gone_keys repo_key keep t.git_worktrees in
    if d.select_live_fails repo_key then (t, none) else stamped gone (stamp_all d gone now t)
