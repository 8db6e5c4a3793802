-- ===== src/Github/Ingest.antt =====
-- plugins/github/ingest.go: the redelivery of what was missed, the arguments of the forwarder and one
-- poll of the notifications. GitHub's answers are parameters; the cursor of a hook is kept as its number.
pub mod Cursors
pub mod Redelivery
use supergraph.Common.{
  ℕ, ◌≡◌, Bool, true, false, ◌&&◌, not, Option, none, some, List, [], ◌∷◌, ◌++◌, bytes_eq, ◌==◌,
  if◌then◌else◌, codes, or_else, map,
}
use supergraph.Common.Int.{ℤ, pos, ltb_ℤ}
use supergraph.Common.Dict.{lookup, insert}
use supergraph.Common.Bytes.{Text}
use supergraph.Common.Split.{join}
use supergraph.Common.Decimal.{atoi, print_int}
use supergraph.Github.Store.{Tables}

pub record Delivery : Type 0 where
  pub id : ℤ
  pub status : Text

-- A hook, by its repository's full name and its id.
abbrev pub Hook : Type 0
Hook = Text × ℤ

-- The answer to the request for a hook's deliveries, `none` if it is not a 200, and the failures of
-- the driver. What an attempt is answered is not looked at.
pub record World : Type 0 where
  pub deliveries : Hook → Option (List Delivery)
  pub hooks_fail : Bool
  pub cursor_fails : Text → Bool
  pub set_cursor_fails : Text → Bool

pub record Ingest : Type 0 where
  pub cursors : List (Text × ℤ)
  pub attempts : List Text

abbrev pub cursor_name : Hook → Text
cursor_name h = codes "hook:" ++ h.0 ++ codes ":lastDeliveryId"

-- A cursor that cannot be read is 0, like one that is not there.
abbrev pub last_of : World → Hook → List (Text × ℤ) → ℤ
last_of w h cursors =
    if w.cursor_fails (cursor_name h)
    then pos 0
    else or_else (lookup (cursor_name h) cursors) (pos 0)

abbrev pub attempt_path : Hook → ℤ → Text
attempt_path h id =
    codes "/repos/"
    ++ h.0
    ++ codes "/hooks/"
    ++ print_int h.1
    ++ codes "/deliveries/"
    ++ print_int id
    ++ codes "/attempts"

-- The failed deliveries behind the cursor.
unfoldable pub missed : ℤ → List Delivery → List ℤ
missed last [] = []
missed last (d ∷ ds) =
    let rest = missed last ds in
    if ltb_ℤ last d.id && not (d.status == codes "OK") then d.id ∷ rest else rest

unfoldable pub max_id : ℤ → List Delivery → ℤ
max_id m [] = m
max_id m (d ∷ ds) = max_id (if ltb_ℤ m d.id then d.id else m) ds

abbrev pub advanced : World → Hook → ℤ → ℤ → List (Text × ℤ) → List (Text × ℤ)
advanced w h last m cursors =
    if ltb_ℤ last m && not (w.set_cursor_fails (cursor_name h))
    then insert (cursor_name h) m cursors
    else cursors

abbrev pub replayed : World → Hook → Option (List Delivery) → Ingest → Ingest
replayed w h none s = s
replayed w h (some ds) s =
    let last = last_of w h s.cursors in
    record {
      cursors = advanced w h last (max_id last ds) s.cursors;
      attempts = s.attempts ++ map (attempt_path h) (missed last ds);
    }

unfoldable pub redeliver_hooks : World → List Hook → Ingest → Ingest
redeliver_hooks w [] s = s
redeliver_hooks w (h ∷ hs) s = redeliver_hooks w hs (replayed w h (w.deliveries h) s)

unfoldable pub redeliver : World → Tables → Ingest → Ingest
redeliver w t s = if w.hooks_fail then s else redeliver_hooks w t.github_hooks s

pub record Config : Type 0 where
  pub self_url : Text
  pub webhook_secret : Text
  pub forward_events : List Text
  pub forward_repo : Text
  pub forward_org : Text

abbrev forward_flags : Config → List Text
forward_flags c =
    codes "webhook"
    ∷ codes "forward"
    ∷ codes "--url"
    ∷ (c.self_url ++ codes "/plugins/github/webhook")
    ∷ codes "--secret"
    ∷ c.webhook_secret
    ∷ codes "--events"
    ∷ join b',' c.forward_events
    ∷ []

unfoldable pub forward_args : Config → Option (List Text)
forward_args c =
    if not (c.forward_repo == [])
    then some (forward_flags c ++ codes "--repo" ∷ c.forward_repo ∷ [])
    else if not (c.forward_org == [])
    then some (forward_flags c ++ codes "--org" ∷ c.forward_org ∷ [])
    else none

-- The answer to a poll: whether it is a 304, and the two headers, "" where they are missing.
pub record Polled : Type 0 where
  pub is_not_modified : Bool
  pub poll_interval : Text
  pub last_modified : Text

abbrev interval : Option ℤ → ℤ
interval none = pos 60
interval (some n) = if ltb_ℤ (pos 0) n then n else pos 60

-- The seconds to wait, and the cursor; an error of the request leaves both as they are by default.
unfoldable pub poll_once : (Text → Option Polled) → Text → ℤ × Text
poll_once send since = elim (send since) [
  | none ↦ (pos 60, since)
  | some r ↦ (
    interval (atoi r.poll_interval),
    if r.is_not_modified then since else if r.last_modified == [] then since else r.last_modified,
  )
]
