-- ===== src/Github/Store.antt =====
-- plugins/github/store.go: the cached nodes, the tags of the lists, the hooks and the deliveries.
pub mod Purge
pub mod Like
use supergraph.Common.{
  ℕ, suc, ◌+◌, ◌≡◌, Bool, true, false, ◌&&◌, ◌||◌, not, Option, none, some, List, [], ◌∷◌, ◌++◌,
  codes, bytes_eq, bytes_eqb, ◌==◌, if◌then◌else◌, eqb, leb, is_some, is_none, Eq,
}
use supergraph.Common.Dict.{lookup, insert, remove, update_all}
use supergraph.Common.Int.{ℤ}
use supergraph.Common.Order.{lex_leb}
use supergraph.Common.Bytes.{Text}
use supergraph.Github.Keys.{composite}
use supergraph.Github.Pattern.{escape_like, like}

pub record Node : Type 0 where
  pub key : Text
  pub typename : Text
  pub json : Text
  pub etag : Text
  pub content_hash : Text
  pub pinned : Bool
  pub fetched_at : ℕ
  pub updated_at : ℕ

pub record Tables : Type 0 where
  pub github_nodes : List (Text × Node)
  pub github_tags : List (Text × Text)
  pub github_hooks : List (Text × ℤ)
  pub github_deliveries : List (Text × ℕ)

-- The driver: which statements fail, by the key that each is for.
pub record Driver : Type 0 where
  pub select_fails : Text → Bool
  pub upsert_fails : Text → Bool
  pub bump_fails : Text → Bool
  pub mark_fails : Text → Bool
  pub tag_fails : Text → Bool
  pub scan_tags_fails : Bool
  pub delete_fails : Text → Bool
  pub untag_fails : Text → Bool

-- The node of a key, or the error.
pub data Got : Type 0 where
  got : Option Node → Got
  get_error : Got

unfoldable pub get : Driver → Text → Tables → Got
get d key t = if d.select_fails key then get_error else got (lookup key t.github_nodes)

unfoldable pub upsert : Driver → Node → Tables → Option Tables
upsert d n t =
    if d.upsert_fails n.key
    then none
    else some (record t { github_nodes = insert n.key n t.github_nodes })

abbrev pub bumped : Text → ℕ → Text → Node → Node
bumped key at k n = if k == key then record n { fetched_at = at } else n

unfoldable pub bump_fetched : Driver → Text → ℕ → Tables → Tables
bump_fetched d key at t =
    if d.bump_fails key
    then t
    else record t { github_nodes = update_all (bumped key at) t.github_nodes }

unfoldable pub has_tag : Text → Text → List (Text × Text) → Bool
has_tag tag key [] = false
has_tag tag key ((c, k) ∷ tags) = (c == tag && k == key) || has_tag tag key tags

-- INSERT OR IGNORE
unfoldable pub add_tag : Text → Text → List (Text × Text) → List (Text × Text)
add_tag tag key tags = if has_tag tag key tags then tags else (tag, key) ∷ tags

abbrev pub tagged : Driver → Text → Text → Option Tables → Tables → Tables × Bool
tagged d lk comp none t = (t, false)
tagged d lk comp (some t) _ =
    if comp == []
    then (t, true)
    else if d.tag_fails lk
    then (t, false)
    else (record t { github_tags = add_tag comp lk t.github_tags }, true)

abbrev pub list_node : Text → Text → ℕ → Node
list_node lk body at = record {
  key = lk;
  typename = codes "_list";
  json = body;
  etag = [];
  content_hash = [];
  pinned = false;
  fetched_at = at;
  updated_at = at;
}

-- The flag is false where a statement failed.
unfoldable pub put_list : Driver → Text → Text → Text → ℕ → Tables → Tables × Bool
put_list d lk body comp at t = tagged d lk comp (upsert d (list_node lk body at) t) t

unfoldable pub keys_tagged : Text → List (Text × Text) → List Text
keys_tagged tag [] = []
keys_tagged tag ((c, k) ∷ tags) =
    let rest = keys_tagged tag tags in if c == tag then k ∷ rest else rest

unfoldable pub untag : Text → List (Text × Text) → List (Text × Text)
untag key [] = []
untag key ((c, k) ∷ tags) = let rest = untag key tags in if k == key then rest else (c, k) ∷ rest

abbrev pub without_node : Text → Tables → Tables
without_node key t = record t { github_nodes = remove key t.github_nodes }

abbrev pub without_tags : Text → Tables → Tables
without_tags key t = record t { github_tags = untag key t.github_tags }

-- Both statements of one key; the first failure leaves what was done.
unfoldable pub evict : Driver → Text → Tables → Tables × Bool
evict d key t =
    if d.delete_fails key
    then (t, false)
    else if d.untag_fails key
    then (without_node key t, false)
    else (without_tags key (without_node key t), true)

abbrev pub evict_next : (Tables → Tables × Bool) → Tables × Bool → Tables × Bool
evict_next go (t, true) = go t
evict_next go (t, false) = (t, false)

unfoldable pub evict_all : Driver → List Text → Tables → Tables × Bool
evict_all d [] t = (t, true)
evict_all d (k ∷ ks) t = evict_next (evict_all d ks) (evict d k t)

abbrev pub listed : Text → Tables → List Text
listed comp t = if comp == [] then [] else keys_tagged comp t.github_tags

abbrev pub purged : Text → List Text → Bool → Tables × Bool → Tables × Option (List Text)
purged key lists there (t, true) = (t, some (lists ++ (if there then key ∷ [] else [])))
purged key lists there (t, false) = (t, none)

abbrev pub purge_key : Driver → Text → List Text → Tables × Bool → Tables × Option (List Text)
purge_key d key lists (t, true) =
    purged key lists (is_some (lookup key t.github_nodes)) (evict d key t)
purge_key d key lists (t, false) = (t, none)

-- The keys that were deleted, or the error.
unfoldable pub purge : Driver → Text → Tables → Tables × Option (List Text)
purge d key t =
    let lists = listed (composite key) t in
    if not (composite key == []) && d.scan_tags_fails
    then (t, none)
    else purge_key d key lists (evict_all d lists t)

-- The nodes that a reconcile checks.
abbrev pub is_mutable : Node → Bool
is_mutable n = not n.pinned && not (n.typename == codes "_list")

unfoldable pub non_pinned_nodes : List (Text × Node) → List Node
non_pinned_nodes [] = []
non_pinned_nodes ((k, n) ∷ m) =
    let rest = non_pinned_nodes m in if is_mutable n then n ∷ rest else rest

-- A failure of either statement is not looked at.
unfoldable pub delivery_seen : Driver → Text → Tables → Bool
delivery_seen d id t = not (d.select_fails id) && is_some (lookup id t.github_deliveries)

abbrev pub ignore_known : Text → ℕ → List (Text × ℕ) → Option ℕ → List (Text × ℕ)
ignore_known id at m none = insert id at m
ignore_known id at m (some _) = m

unfoldable pub mark_delivery : Driver → Text → ℕ → Tables → Tables
mark_delivery d id at t = if d.mark_fails id then t else record t {
  github_deliveries = ignore_known id at t.github_deliveries (lookup id t.github_deliveries);
}

-- Times are compared as the texts that `format` prints.
unfoldable pub drop_before : (ℕ → Text) → ℕ → List (Text × ℕ) → List (Text × ℕ)
drop_before format before [] = []
drop_before format before ((id, at) ∷ m) =
    let rest = drop_before format before m in
    if not (lex_leb (format before) (format at)) then rest else (id, at) ∷ rest

unfoldable pub prune_deliveries : (ℕ → Text) → ℕ → Tables → Tables
prune_deliveries format before t = record t {
  github_deliveries = drop_before format before t.github_deliveries;
}

-- A hook stands under its owner and repository, which no slash can confuse.
abbrev pub full_name : Text → Text → Text
full_name owner repo = owner ++ b'/' ∷ repo

unfoldable pub hook : Text → Text → Tables → Option ℤ
hook owner repo t = lookup (full_name owner repo) t.github_hooks

unfoldable pub put_hook : Text → Text → ℤ → Tables → Tables
put_hook owner repo id t = record t {
  github_hooks = insert (full_name owner repo) id t.github_hooks;
}

unfoldable pub nodes_like : Text → List (Text × Node) → List Node
nodes_like pattern [] = []
nodes_like pattern ((k, n) ∷ m) =
    let rest = nodes_like pattern m in
    if not (n.typename == codes "_list") && like pattern k then n ∷ rest else rest

unfoldable pub nodes_by_kind : Text → Text → Tables → List Node
nodes_by_kind kind scope t =
    nodes_like (escape_like (kind ++ b':' ∷ scope ++ b'#' ∷ []) ++ b'%' ∷ []) t.github_nodes
