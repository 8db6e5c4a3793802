-- ===== src/Github/Events.antt =====
-- plugins/github/keys.go: which keys an event of GitHub touches. The payload is the decoded body; a
-- body that is no object is decoded to no fields.
pub mod Address
use supergraph.Common.{
  ℕ, ◌≡◌, Bool, true, false, ◌&&◌, ◌||◌, not, Option, none, some, List, [], ◌∷◌, ◌++◌, codes,
  bytes_eq, bytes_eqb, ◌==◌, if◌then◌else◌, or_else, is_some,
}
use supergraph.Common.Bytes.{Text, cut}
use supergraph.Common.Json.{
  Value, null, obj, Items, no_item, item, Fields, no_field, get, as_str, as_obj, as_arr,
}
use supergraph.Github.Names.{Parts, fill, safe_name, coerce}
use supergraph.Github.Keys.{KindSpec, spec_by_event, pr_spec}

abbrev pub fields_or_none : Option Fields → Fields
fields_or_none none = no_field
fields_or_none (some fs) = fs

-- The owner's login and the name, where the full name is none with a slash.
abbrev owner_login : Fields → Text → Text × Text
owner_login repo name = (
  or_else (as_str (get (codes "login") (fields_or_none (as_obj (get (codes "owner") repo))))) [],
  name,
)

abbrev full_or_parts : Fields → Option (Text × Text) → Text × Text
full_or_parts repo (some names) = names
full_or_parts repo none = owner_login repo (or_else (as_str (get (codes "name") repo)) [])

abbrev cut_full : Option Text → Option (Text × Text)
cut_full none = none
cut_full (some full) = cut b'/' full

abbrev names_of : Option Fields → Text × Text
names_of none = ([], [])
names_of (some repo) = full_or_parts repo (cut_full (as_str (get (codes "full_name") repo)))

unfoldable pub repo_full_name : Fields → Text × Text
repo_full_name payload = names_of (as_obj (get (codes "repository") payload))

abbrev pub nonempty : Text → Option Text
nonempty [] = none
nonempty (c ∷ t) = some (c ∷ t)

-- A comment on a pull request comes as one on an issue that has a field of this name.
unfoldable pub is_pr_comment : Text → Fields → Bool
is_pr_comment event payload =
    event == codes "issue_comment"
    && is_some (get (codes "pull_request") (fields_or_none (as_obj (get (codes "issue") payload))))

abbrev pub named_parts : Text × Text → Text → Parts
named_parts (owner, repo) disc =
    (codes "owner", owner) ∷ (codes "repo", repo) ∷ (codes "disc", disc) ∷ []

abbrev pub keyed : Text → Text × Text → Option Text → Option Text
keyed fmt names none = none
keyed fmt names (some disc) = some (fill (named_parts names disc) fmt)

-- An owner and a repository that may stand in a path.
abbrev pub usable : Text × Text → Bool
usable (owner, repo) =
    not (owner == [] || repo == []) && not (not (safe_name owner) || not (safe_name repo))

abbrev pub keyfmt_for : Text → Fields → KindSpec → Text
keyfmt_for event payload s = if is_pr_comment event payload then pr_spec.keyfmt else s.keyfmt

module _ (print_other : Value → Text) where
  abbrev disc_of : Option Value → Option Text
  disc_of none = none
  disc_of (some null) = none
  disc_of (some v) = nonempty (coerce print_other (some v))

  abbrev disc_in : Text → Option Fields → Option Text
  disc_in name none = none
  disc_in name (some m) = disc_of (get name m)

  unfoldable pub disc_field : Fields → Text → Text → Option Text
  disc_field payload object name = disc_in name (as_obj (get object payload))

  abbrev pub addressed : Text → Fields → Option KindSpec → Option Text
  addressed event payload none = none
  addressed event payload (some s) =
      if usable (repo_full_name payload)
      then keyed (keyfmt_for event payload s) (repo_full_name payload)
          (disc_field payload s.object s.name)
      else none

  unfoldable pub event_key : Text → Fields → Option Text
  event_key event payload = addressed event payload (spec_by_event event)

  abbrev pr_number : Value → Option Text
  pr_number (obj m) = nonempty (coerce print_other (get (codes "number") m))
  pr_number _ = none

  abbrev cons_key : Option Text → List Text → List Text
  cons_key none ks = ks
  cons_key (some k) ks = k ∷ ks

  unfoldable pub pr_keys : Text × Text → Items → List Text
  pr_keys names no_item = []
  pr_keys names (item v vs) = cons_key (keyed pr_spec.keyfmt names (pr_number v)) (pr_keys names vs)

  abbrev items_or_none : Option Items → Items
  items_or_none none = no_item
  items_or_none (some xs) = xs

  unfoldable pub related_keys : Text → Fields → List Text
  related_keys event payload =
      if event == codes "check_run" && usable (repo_full_name payload)
      then pr_keys (repo_full_name payload) (
          items_or_none (
            as_arr (
              get (codes "pull_requests")
                (fields_or_none (as_obj (get (codes "check_run") payload))))))
      else []
