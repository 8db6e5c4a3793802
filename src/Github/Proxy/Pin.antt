-- ===== src/Github/Proxy/Pin.antt =====
-- plugins/github/proxy.go: which objects are taken to change no more.
use supergraph.Common.{
  ℕ, ◌+◌, ◌*◌, Bool, true, false, ◌&&◌, ◌||◌, Option, none, some, List, [], ◌∷◌, codes, bytes_eq,
  ◌==◌, if◌then◌else◌, ltb, eqb, or_else,
}
use supergraph.Common.Bytes.{Text}
use supergraph.Common.Json.{Fields, get, as_str}
use supergraph.Github.Keys.{kind_of}
use supergraph.Github.Pattern.{same_code}

pub record PinConfig : Type 0 where
  pub commits : Bool
  pub releases : Bool
  pub merged_prs_after_days : ℕ
  pub closed_issues_after_days : ℕ

abbrev pub days : ℕ → ℕ
days n = n * 86400000000000

-- strings.EqualFold with a text of small letters: the long s is an s too.
unfoldable pub folds_to : Text → Text → Bool
folds_to [] [] = true
folds_to [] (x ∷ t) = false
folds_to (c ∷ s) [] = false
folds_to (c ∷ []) (x ∷ t) = same_code c x && folds_to [] t
folds_to (c ∷ d ∷ s) (x ∷ t) =
    (same_code c x && folds_to (d ∷ s) t) || (eqb x b's' && eqb c 197 && eqb d 191 && folds_to s t)

abbrev nonempty_time : (Text → Option ℕ) → Option Text → Option ℕ
nonempty_time parse_time none = none
nonempty_time parse_time (some []) = none
nonempty_time parse_time (some (c ∷ t)) = parse_time (c ∷ t)

unfoldable pub time_field : (Text → Option ℕ) → Fields → Text → Option ℕ
time_field parse_time content name = nonempty_time parse_time (as_str (get name content))

abbrev first_some : Option ℕ → Option ℕ → Option ℕ
first_some none b = b
first_some (some a) b = some a

unfoldable pub first_time : (Text → Option ℕ) → Fields → List Text → Option ℕ
first_time parse_time content [] = none
first_time parse_time content (f ∷ fs) =
    first_some (time_field parse_time content f) (first_time parse_time content fs)

-- A time that lies more than a window back.
abbrev pub is_past : ℕ → ℕ → Option ℕ → Bool
is_past now window none = false
is_past now window (some at) = ltb (at + window) now

unfoldable pub is_closed : Fields → Bool
is_closed content = folds_to (or_else (as_str (get (codes "state") content)) []) (codes "closed")

abbrev pub closed_time : (Text → Option ℕ) → Fields → Option ℕ
closed_time parse_time content =
    first_time parse_time content (codes "closedAt" ∷ codes "closed_at" ∷ [])

abbrev pub closed_past : (Text → Option ℕ) → ℕ → ℕ → Fields → Bool
closed_past parse_time now window content =
    is_closed content && is_past now window (closed_time parse_time content)

abbrev pub merged_or_closed : (Text → Option ℕ) → ℕ → ℕ → Fields → Option ℕ → Bool
merged_or_closed parse_time now window content (some at) = is_past now window (some at)
merged_or_closed parse_time now window content none = closed_past parse_time now window content

unfoldable pub eval_pin : (Text → Option ℕ) → PinConfig → ℕ → Text → Fields → Bool
eval_pin parse_time c now key content =
    if kind_of key == codes "commit"
    then c.commits
    else if kind_of key == codes "release"
    then c.releases
    else if kind_of key == codes "pr"
    then merged_or_closed parse_time now (days c.merged_prs_after_days) content
        (first_time parse_time content (codes "mergedAt" ∷ codes "merged_at" ∷ []))
    else if kind_of key == codes "issue"
    then closed_past parse_time now (days c.closed_issues_after_days) content
    else false
