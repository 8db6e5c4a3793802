-- ===== src/Cli/Subscribe.antt =====
-- cmd/supergraph/subscribe.go, with parseVars of query.go: the document, the handshake, the stream of
-- one connection and the retries. What a server sends on each connection is a parameter, and so are the
-- parser of JSON and whether the context ends in a pause.
pub mod Exit
use supergraph.Common.{
  ℕ, zero, suc, ◌+◌, ◌≡◌, Bool, true, false, ◌&&◌, not, Option, none, some, List, [], ◌∷◌, ◌++◌,
  bytes_eq, ◌==◌, if◌then◌else◌, codes, contains, map, eqb,
}
use supergraph.Common.Int.{ℤ, pos, negsuc}
use supergraph.Common.Dict.{insert}
use supergraph.Common.Decimal.{max_int}
use supergraph.Common.Bytes.{Text, cut, after_prefix}
use supergraph.Common.Rows.{order_rows}
use supergraph.Common.Json.{Value, str}

abbrev pub Vars : Type 0
Vars = List (Text × Value)

abbrev or_str : Text → Option Value → Value
or_str t none = str t
or_str t (some v) = v

abbrev put_var : (Text → Option Value) → Option (Text × Text) → Vars → Option Vars
put_var parse none vars = none
put_var parse (some (k, v)) vars = some (insert k (or_str v (parse v)) vars)

abbrev next_var : (Vars → Option Vars) → Option Vars → Option Vars
next_var more none = none
next_var more (some vars) = more vars

unfoldable pub parse_vars : (Text → Option Value) → List Text → Vars → Option Vars
parse_vars parse [] vars = some vars
parse_vars parse (kv ∷ kvs) vars =
    next_var (parse_vars parse kvs) (put_var parse (cut b'=' kv) vars)

-- The arguments that a field takes, and nothing for an unknown field.
unfoldable pub subscription_fields : Text → Option (List Text)
subscription_fields field =
    if field == codes "issueUpdated"
    then some (codes "owner" ∷ codes "repo" ∷ [])
    else if field == codes "claudeSessionUpdated"
    then some (codes "hostId" ∷ [])
    else if contains (codes "checkRunUpdated" ∷ codes "tmuxEvents" ∷ codes "worktreeUpdated" ∷ [])
        field
    then some []
    else none

unfoldable pub all_allowed : List Text → Vars → Bool
all_allowed allowed [] = true
all_allowed allowed ((k, _) ∷ vars) = contains allowed k && all_allowed allowed vars

-- strings.Join with ", "
unfoldable pub commas : List Text → Text
commas [] = []
commas (t ∷ []) = t
commas (t ∷ u ∷ ts) = t ++ codes ", " ++ commas (u ∷ ts)

abbrev selection : Text
selection = codes " { ts type v key payload } }"

abbrev decl : Text × Value → Text
decl (k, _) = b'$' ∷ k ++ codes ": String"

abbrev field_arg : Text × Value → Text
field_arg (k, _) = k ++ codes ": $" ++ k

abbrev document : Text → Vars → Text
document field [] = codes "subscription { " ++ field ++ selection
document field (v ∷ vars) =
    codes "subscription("
    ++ commas (map decl (v ∷ vars))
    ++ codes ") { "
    ++ field
    ++ codes "("
    ++ commas (map field_arg (v ∷ vars))
    ++ codes ")"
    ++ selection

abbrev built : Text → Vars → Option (List Text) → Option (Text × Vars)
built field vars none = none
built field vars (some allowed) =
    if all_allowed allowed vars
    then some (document field (order_rows (λ v. v.0) vars), order_rows (λ v. v.0) vars)
    else none

-- The document and its variables, by their names, or an error.
unfoldable pub build_subscription : Text → Vars → Option (Text × Vars)
build_subscription field vars = built field vars (subscription_fields field)

unfoldable pub ws_endpoint : Text → Text
ws_endpoint url = elim (after_prefix (codes "https://") url) [
  | some t ↦ codes "wss://" ++ t
  | none ↦ elim (after_prefix (codes "http://") url) [ some t ↦ codes "ws://" ++ t | none ↦ url ]
]

-- A frame that is read. The end of a list of frames is an error of the read.
pub data Frame : Type 0 where
  connection_ack : Frame
  next : Value → Frame
  error : Frame
  complete : Frame
  other : Frame

-- One connection: which of its steps fail, and what the server sends.
pub record Connection : Type 0 where
  pub dial_fails : Bool
  pub init_fails : Bool
  pub subscribe_fails : Bool
  pub frames : List Frame

unfoldable pub wait_for_ack : List Frame → Option (List Frame)
wait_for_ack [] = none
wait_for_ack (connection_ack ∷ fs) = some fs
wait_for_ack (error ∷ fs) = none
wait_for_ack (next v ∷ fs) = wait_for_ack fs
wait_for_ack (complete ∷ fs) = wait_for_ack fs
wait_for_ack (other ∷ fs) = wait_for_ack fs

-- The events that are printed, and whether the call returns no error.
abbrev pub Stream : Type 0
Stream = List Value × Bool

abbrev pub printed : Bool → Bool → Value → Stream → Stream
printed write_fails once v rest =
    if write_fails then ([], false) else if once then (v ∷ [], true) else (v ∷ rest.0, rest.1)

unfoldable pub read_events : Bool → Bool → List Frame → Stream
read_events write_fails once [] = ([], false)
read_events write_fails once (next v ∷ fs) =
    printed write_fails once v (read_events write_fails once fs)
read_events write_fails once (error ∷ fs) = ([], false)
read_events write_fails once (complete ∷ fs) = ([], false)
read_events write_fails once (connection_ack ∷ fs) = read_events write_fails once fs
read_events write_fails once (other ∷ fs) = read_events write_fails once fs

abbrev pub subscribed : Bool → Bool → Connection → Option (List Frame) → Stream
subscribed write_fails once c none = ([], false)
subscribed write_fails once c (some fs) =
    if c.subscribe_fails then ([], false) else read_events write_fails once fs

unfoldable pub subscribe_once : Bool → Bool → Connection → Stream
subscribe_once write_fails once c =
    if c.dial_fails
    then ([], false)
    else if c.init_fails
    then ([], false)
    else subscribed write_fails once c (wait_for_ack c.frames)

pub record Options : Type 0 where
  pub field : Text
  pub var_args : List Text
  pub once : Bool
  pub max_retries : ℤ

pub record World : Type 0 where
  pub parse : Text → Option Value
  pub connect : ℕ → Connection
  pub is_cancelled : ℕ → Bool
  pub write_fails : Bool

-- What a run prints, its exit status and how often it dialled.
pub record Run : Type 0 where
  pub events : List Value
  pub status : ℕ
  pub dials : ℕ

abbrev pub stopped : Run
stopped = record { events = []; status = 2; dials = 0 }

abbrev pub unless_last : ℕ → Bool → Run → Run
unless_last zero is_cancelled again = stopped
unless_last (suc left) is_cancelled again = if is_cancelled then stopped else again

abbrev pub finish : Stream → Run → Run
finish (events, true) rest = record { events = events; status = 0; dials = 1 }
finish (events, false) rest = record {
  events = events ++ rest.events;
  status = rest.status;
  dials = suc rest.dials;
}

-- The attempts that are left; the last one is followed by no pause.
unfoldable pub attempts : World → Bool → ℕ → ℕ → Run
attempts w once attempt zero = stopped
attempts w once attempt (suc left) =
    finish (subscribe_once w.write_fails once (w.connect attempt))
      (unless_last left (w.is_cancelled attempt) (attempts w once (suc attempt) left))

-- maxRetries + 1, with the default for 0; no attempt is made for a negative number, nor for the
-- largest int, to which 1 cannot be added.
abbrev pub max_attempts : ℤ → ℕ
max_attempts (pos zero) = 4
max_attempts (pos (suc n)) = if eqb (suc n) max_int then 0 else suc (suc n)
max_attempts (negsuc n) = 0

abbrev usage_error : Run
usage_error = record { events = []; status = 1; dials = 0 }

abbrev with_document : World → Options → Option (Text × Vars) → Run
with_document w o none = usage_error
with_document w o (some _) = attempts w o.once 0 (max_attempts o.max_retries)

abbrev with_vars : World → Options → Option Vars → Run
with_vars w o none = usage_error
with_vars w o (some vars) = with_document w o (build_subscription o.field vars)

unfoldable pub run_subscribe : World → Options → Run
run_subscribe w o = with_vars w o (parse_vars w.parse o.var_args [])
