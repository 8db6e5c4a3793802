-- ===== src/Github/Events/Address.antt =====
-- plugins/github/keys.go: the repository and the kind of the key that an event addresses.
use mathlib.Core.Path.{subst}
use supergraph.Common.{
  ℕ, ◌≡◌, refl, ap, sym, ◌∙◌, inl, inr, true, false, ◌||◌, Option, none, some, List, [], ◌∷◌, ◌++◌,
  codes, bytes_eq, bytes_eqb, ◌==◌, if◌then◌else◌, eqb, arith, All, Bool-cases, contains,
  Option-cases,
}
use supergraph.Common.Dict.{lookup}
use supergraph.Common.Bytes.{Text, has_code, has_code-Lacks_of}
use supergraph.Common.Json.{Value, Fields}
use supergraph.Github.Names.{fill}
use supergraph.Github.Keys.{
  KindSpec, issue_spec, pr_spec, check_run_spec, label_spec, release_spec, kind_specs, event_in,
  spec_by_event, composite, prefix_of,
}
use supergraph.Github.Keys.Scope.{IsName, named, IsKind, key_of, composite_of_key}
use supergraph.Github.Events.{
  repo_full_name, is_pr_comment, named_parts, keyed, usable, disc_field, keyfmt_for, addressed,
  event_key,
}

-- The rows of the table that an event addresses.
pub data IsAddressed : KindSpec → Type 0 where
  issue : IsAddressed issue_spec
  pr : IsAddressed pr_spec
  check_run : IsAddressed check_run_spec
  label : IsAddressed label_spec
  release : IsAddressed release_spec

some_inj : {A : Type 0} {a b : A} → some a ≡ some b → a ≡ b
some_inj h = cc

found :
    (P : KindSpec → Type 0) (event : Text) (specs : List KindSpec) (s : KindSpec)
    → All (λ r. contains r.events event ≡ true → P r) specs
    → event_in event specs ≡ some s
    → P s
unfolding event_in
found P event [] s _ e = absurd (cc)
found P event (r ∷ specs) s (h, hs) e = elim (Bool-cases (contains r.events event)) [
  | inl yes_in ↦ subst P (some_inj (rw yes_in at e)) (h yes_in)
  | inr not_in ↦ found P event specs s hs (rw not_in at e)
]

never : (r : KindSpec) (event : Text) → contains {A = Text} [] event ≡ true → IsAddressed r
unfolding contains
never r event h = absurd (cc)

spec-IsAddressed : (event : Text) (s : KindSpec) → spec_by_event event ≡ some s → IsAddressed s
unfolding spec_by_event
spec-IsAddressed event s e =
    found IsAddressed event kind_specs s
      (
        (λ _. issue),
        (
          (λ _. pr),
          (
            (λ _. check_run),
            (
              never _ event,
              (
                never _ event,
                (
                  (λ _. label),
                  (
                    (λ _. release),
                    (never _ event, (never _ event, (never _ event, (never _ event, tt)))),
                  ),
                ),
              ),
            ),
          ),
        ),
      )
      e

-- What stands between the repository and the discriminator.
abbrev pub separator : {s : KindSpec} → IsAddressed s → ℕ
separator issue = b'#'
separator pr = b'#'
separator _ = b'/'

fill-keyfmt :
    {s : KindSpec} (a : IsAddressed s) (owner repo disc : Text)
    → fill (named_parts (owner, repo) disc) s.keyfmt
      ≡ key_of s.kind owner repo (separator a) (disc ++ [])
unfolding fill lookup bytes_eqb
fill-keyfmt issue owner repo disc = refl
fill-keyfmt pr owner repo disc = refl
fill-keyfmt check_run owner repo disc = refl
fill-keyfmt label owner repo disc = refl
fill-keyfmt release owner repo disc = refl

checked :
    (kind : Text)
    → has_code b':' kind ≡ false
    → has_code b'@' kind ≡ false
    → (kind == codes "user") ≡ false
    → IsKind kind
checked kind h k u = record {
  no_colon = has_code-Lacks_of b':' kind h;
  no_at = has_code-Lacks_of b'@' kind k;
  not_user = u;
}

kind-IsKind : {s : KindSpec} → IsAddressed s → IsKind s.kind
unfolding has_code bytes_eqb
kind-IsKind issue = checked (codes "issue") refl refl refl
kind-IsKind pr = checked (codes "pr") refl refl refl
kind-IsKind check_run = checked (codes "checkRun") refl refl refl
kind-IsKind label = checked (codes "label") refl refl refl
kind-IsKind release = checked (codes "release") refl refl refl

separator_ends :
    {s : KindSpec} (a : IsAddressed s)
    → (eqb (separator a) b'@' ≡ false) × ((eqb (separator a) b'#' || eqb (separator a) b'/') ≡ true)
separator_ends issue = (refl, refl)
separator_ends pr = (refl, refl)
separator_ends check_run = (refl, refl)
separator_ends label = (refl, refl)
separator_ends release = (refl, refl)

composite_of_filled :
    {s : KindSpec} (a : IsAddressed s) (owner repo disc : Text)
    → IsName owner
    → IsName repo
    → composite (fill (named_parts (owner, repo) disc) s.keyfmt)
      ≡ prefix_of owner repo ++ b'|' ∷ s.kind
composite_of_filled {s} a owner repo disc o r =
    ap composite (fill-keyfmt a owner repo disc)
    ∙ composite_of_key s.kind owner repo (separator a) (disc ++ []) (kind-IsKind a) o r
        (separator_ends a).0 (separator_ends a).1

-- The kind that an event of a row addresses.
abbrev pub kind_for : Text → Fields → KindSpec → Text
kind_for event payload s = if is_pr_comment event payload then codes "pr" else s.kind

composite_for :
    (event : Text) (payload : Fields) {s : KindSpec} (a : IsAddressed s) (owner repo disc : Text)
    → IsName owner
    → IsName repo
    → composite (fill (named_parts (owner, repo) disc) (keyfmt_for event payload s))
      ≡ prefix_of owner repo ++ b'|' ∷ kind_for event payload s
composite_for event payload a owner repo disc o r =
    elim (Bool-cases (is_pr_comment event payload)) [
      | inl e ↦ rw e (composite_of_filled pr owner repo disc o r)
      | inr e ↦ rw e (composite_of_filled a owner repo disc o r)
    ]

usable-IsName : (owner repo : Text) → usable (owner, repo) ≡ true → IsName owner × IsName repo
unfolding bytes_eqb
usable-IsName [] repo h = absurd (cc)
usable-IsName (c ∷ owner) [] h = absurd (cc)
usable-IsName (c ∷ owner) (d ∷ repo) h = (named c owner (ground arith), named d repo (ground arith))

module _ (print_other : Value → Text) where
  addressed_lem :
      (event : Text) (payload : Fields) (s : KindSpec) (key : Text)
      → IsAddressed s
      → addressed print_other event payload (some s) ≡ some key
      → (usable (repo_full_name payload) ≡ true)
        × (composite key
            ≡ prefix_of (repo_full_name payload).0 (repo_full_name payload).1
              ++ b'|' ∷ kind_for event payload s)
  addressed_lem event payload s key a e = elim (Bool-cases (usable (repo_full_name payload))) [
    | inr no_use ↦ absurd (let e' = rw no_use at e in cc)
    | inl in_use ↦ (
      in_use,
      keyed_lem (disc_field print_other payload s.object s.name) (rw in_use at e)
          (usable-IsName (repo_full_name payload).0 (repo_full_name payload).1 in_use),
    )
  ]
    where
      keyed_lem :
          (d : Option Text)
          → keyed (keyfmt_for event payload s) (repo_full_name payload) d ≡ some key
          → IsName (repo_full_name payload).0 × IsName (repo_full_name payload).1
          → composite key
            ≡ prefix_of (repo_full_name payload).0 (repo_full_name payload).1
              ++ b'|' ∷ kind_for event payload s
      keyed_lem none e _ = absurd (cc)
      keyed_lem (some disc) e (o, r) =
          ap composite (sym (some_inj e))
          ∙ composite_for event payload a (repo_full_name payload).0 (repo_full_name payload).1 disc
              o r

  -- The key that an event touches belongs to the list of the payload's repository and of the kind of
  -- the event's row, or of pull requests for a comment on one, whatever the rest of the payload
  -- holds; and both names of the repository are not empty and may stand in a path.
  pub event_key_addresses :
      (event : Text) (payload : Fields) (key : Text)
      → event_key print_other event payload ≡ some key
      → (usable (repo_full_name payload) ≡ true)
        × ((s : KindSpec) × (spec_by_event event ≡ some s)
            × (composite key
                ≡ prefix_of (repo_full_name payload).0 (repo_full_name payload).1
                  ++ b'|' ∷ kind_for event payload s))
  unfolding event_key
  event_key_addresses event payload key e = elim (Option-cases (spec_by_event event)) [
    | inl unknown ↦ absurd (let e' = rw unknown at e in cc)
    | inr (s, known) ↦
        let out =
          addressed_lem event payload s key (spec-IsAddressed event s known) (rw known at e) in
        (out.0, (s, known, out.1))
  ]
