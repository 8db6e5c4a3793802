-- ===== src/Github/Proxy.antt =====
-- plugins/github/proxy.go: the read-through cache. GitHub's answers, the printing and the reading of
-- JSON, the digest and the reading of a time are parameters. Times are nanoseconds, and the windows of
-- the configuration are not negative.
pub mod Pin
pub mod Updates
pub mod Reads
pub mod Shape
pub mod Flight
use supergraph.Common.{
  ℕ, ◌+◌, ◌≡◌, Bool, true, false, ◌&&◌, ◌||◌, not, Option, none, some, List, [], ◌∷◌, ◌++◌, codes,
  bytes_eq, bytes_eqb, ◌==◌, if◌then◌else◌, ltb, eqb, is_some,
}
use supergraph.Common.Bytes.{Text, has_part}
use supergraph.Common.Chain.{◌>>=◌, ◌>>◌}
use supergraph.Common.Decimal.{atoi}
use supergraph.Common.Int.{ℤ}
use supergraph.Common.Json
use supergraph.Common.Json.{Fields, as_obj}
use supergraph.Github.Keys.{kind_of, parse_key, part, rest_path, typename_for}
use supergraph.Github.Plugin.{Plugin, node_updated}
use supergraph.Github.Proxy.Pin.{PinConfig, eval_pin}
use supergraph.Github.Store.{Node, Tables, Driver, Got, got, get_error, get, upsert, bump_fetched}

-- The answer to a GET: its status, its body and its etag.
pub data Reply : Type 0 where
  no_reply : Reply
  reply : ℕ → Text → Text → Reply

pub record Upstream : Type 0 where
  pub get_rest : Text → Text → Reply
  pub has_op : Text → Bool
  pub point : Text → Text → Text → ℤ → Option Fields
  pub marshal : Fields → Option Text
  pub decode : Text → Fields
  pub digest : Text → Text
  pub parse_time : Text → Option ℕ

-- A kind without a positive ttl has 0.
pub record Config : Type 0 where
  pub pin : PinConfig
  pub ttl : Text → ℕ

pub data Outcome : Type 0 where
  other : Outcome
  not_modified : Outcome
  unchanged : Outcome
  changed : Outcome

-- The node that is served, or the error of a write.
pub data Fetched : Type 0 where
  served : Option Node → Outcome → Fetched
  failed : Fetched

-- The named op of a kind, and the field of the repository that holds its node.
unfoldable pub point_op : Text → Option (Text × Text)
point_op kind =
    if kind == codes "issue"
    then some (codes "issue", codes "issue")
    else if kind == codes "pr"
    then some (codes "pr", codes "pullRequest")
    else none

abbrev pub quoted : Text → Text
quoted t = b'"' ∷ t ++ b'"' ∷ []

unfoldable pub is_graphql_shape : Text → Bool
is_graphql_shape raw = has_part (quoted (codes "updatedAt")) raw

abbrev pub only_if : Bool → Option Bool
only_if true = some true
only_if false = none

unfoldable pub canonical_body : Upstream → Text → Option Text
canonical_body u key = do
  (op, name) ← point_op (kind_of key)
  only_if (u.has_op op)
  number ← atoi (part (codes "disc") (parse_key key))
  reply_data ←
      u.point op (part (codes "owner") (parse_key key)) (part (codes "repo") (parse_key key)) number
  repo ← as_obj (Json.get (codes "repository") reply_data)
  object ← as_obj (Json.get name repo)
  u.marshal object

-- A node whose body is GraphQL's is kept where no canonical body was read.
abbrev pub keeps : Text → Option Node → Bool
keeps key none = false
keeps key (some n) = is_some (point_op (kind_of key)) && is_graphql_shape n.json

abbrev pub chosen : Text → Option Node → Text → Option Text → Option Text
chosen key stored content (some canonical) = some canonical
chosen key stored content none = if keeps key stored then none else some content

abbrev pub etag_of : Option Node → Text
etag_of none = []
etag_of (some n) = n.etag

abbrev pub has_hash : Text → Option Node → Bool
has_hash hash none = false
has_hash hash (some n) = n.content_hash == hash

abbrev pub new_node : Config → Upstream → ℕ → Text → Text → Text → Node
new_node c u now key etag canonical = record {
  key = key;
  typename = typename_for key;
  json = canonical;
  etag = etag;
  content_hash = u.digest canonical;
  pinned = eval_pin u.parse_time c.pin now key (u.decode canonical);
  fetched_at = now;
  updated_at = now;
}

abbrev pub written : Plugin → Option Node → Node → Option Tables → Plugin × Fetched
written p stored n none = (p, failed)
written p stored n (some t) =
    if has_hash n.content_hash stored
    then (record p { tables = t }, served (some n) unchanged)
    else (record p { tables = t; emitted = node_updated n ∷ p.emitted }, served (some n) changed)

-- The write of the body that was chosen.
abbrev pub landed :
    Config
    → Upstream
    → Driver
    → ℕ
    → Text
    → Option Node
    → Plugin
    → Text
    → Option Text
    → Plugin × Fetched
landed c u d now key stored p etag none = (p, served stored other)
landed c u d now key stored p etag (some canonical) =
    written p stored (new_node c u now key etag canonical)
      (upsert d (new_node c u now key etag canonical) p.tables)

abbrev pub replied :
    Config → Upstream → Driver → ℕ → Text → Option Node → Plugin → Reply → Plugin × Fetched
replied c u d now key stored p no_reply = (p, served stored other)
replied c u d now key stored p (reply status content etag) =
    if eqb status 304 && is_some stored
    then (record p { tables = bump_fetched d key now p.tables }, served stored not_modified)
    else if not (eqb status 200)
    then (p, served stored other)
    else landed c u d now key stored p etag (chosen key stored content (canonical_body u key))

unfoldable pub fetch_node :
    Config → Upstream → Driver → ℕ → Text → Option Node → Plugin → Plugin × Fetched
fetch_node c u d now key stored p =
    replied c u d now key stored (record p { asked = rest_path key ∷ p.asked })
      (u.get_rest (rest_path key) (etag_of stored))

unfoldable pub expired : Config → ℕ → Node → Bool
expired c now n = ltb 0 (c.ttl (kind_of n.key)) && ltb (n.fetched_at + c.ttl (kind_of n.key)) now

abbrev pub fetched : Plugin × Fetched → Plugin × Got
fetched (p, served n outcome) = (p, got n)
fetched (p, failed) = (p, get_error)

abbrev pub looked_up : Config → Upstream → Driver → ℕ → Text → Plugin → Got → Plugin × Got
looked_up c u d now key p get_error = (p, get_error)
looked_up c u d now key p (got none) = fetched (fetch_node c u d now key none p)
looked_up c u d now key p (got (some n)) =
    if n.pinned || not (expired c now n)
    then (p, got (some n))
    else fetched (fetch_node c u d now key (some n) p)

unfoldable pub resolve : Config → Upstream → Driver → ℕ → Text → Plugin → Plugin × Got
resolve c u d now key p = looked_up c u d now key p (get d key p.tables)
