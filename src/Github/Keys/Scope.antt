-- ===== src/Github/Keys/Scope.antt =====
-- plugins/github/keys.go: which repository and which list a key belongs to.
use supergraph.Common.{
  ℕ, ◌≡◌, refl, ap, ◌∙◌, inl, inr, true, false, ◌||◌, Option, none, some, [], ◌∷◌, ◌++◌, codes,
  bytes_eq, bytes_eqb, ◌==◌, if◌then◌else◌, eqb, Bool-cases, &&-eq-true, eqb_iff,
}
use supergraph.Common.Dict.{lookup}
use supergraph.Common.Bytes.{Text, cut_last, Lacks, cut-append, cut_here}
use supergraph.Github.Names.{safe_name, all_codes, is_name_code, Parts}
use supergraph.Github.Keys.{
  tail_parts, strip_host, before_host, split_repo, parse_key, part, prefix_of, scope_prefix,
  composite, kind_of,
}

-- An owner or a repository, as it stands in a path.
pub data IsName : Text → Type 0 where
  named : (c : ℕ) (t : Text) → safe_name (c ∷ t) ≡ true → IsName (c ∷ t)

all_codes-Lacks :
    (s : ℕ) → is_name_code s ≡ false → (t : Text) → all_codes is_name_code t ≡ true → Lacks s t
unfolding all_codes
all_codes-Lacks s h [] _ = tt
all_codes-Lacks s h (c ∷ t) e =
    let both = &&-eq-true (is_name_code c) (all_codes is_name_code t) e in
    (differs s c h both.0, all_codes-Lacks s h t both.1)
  where
    differs : (s c : ℕ) → is_name_code s ≡ false → is_name_code c ≡ true → eqb c s ≡ false
    differs s c h k = elim (Bool-cases (eqb c s)) [ inl e ↦ cc ((eqb_iff c s).0 e) | inr e ↦ e ]

-- No separator of the grammar stands in a name.
IsName-Lacks : (s : ℕ) → is_name_code s ≡ false → {t : Text} → IsName t → Lacks s t
unfolding safe_name
IsName-Lacks s h (named c t e) =
    all_codes-Lacks s h (c ∷ t) (&&-eq-true (all_codes is_name_code (c ∷ t)) _ e).0

strip_cons : (x : ℕ) (t : Text) → eqb x b'@' ≡ false → strip_host (x ∷ t) ≡ x ∷ strip_host t
unfolding strip_host cut_last
strip_cons x t h = split (cut_last b'@' t)
  where
    split :
        (r : Option (Text × Text)) → before_host (x ∷ t) (cut_here b'@' x t r) ≡ x ∷ before_host t r
    split none = rw h refl
    split (some (a, b)) = refl

strip_host-append : (a t : Text) → Lacks b'@' a → strip_host (a ++ t) ≡ a ++ strip_host t
strip_host-append [] t _ = refl
strip_host-append (x ∷ a) t (h, hs) =
    strip_cons x (a ++ t) h ∙ ap (λ u. x ∷ u) (strip_host-append a t hs)

split_repo-append :
    (repo : Text) (sep : ℕ) (t : Text)
    → (eqb sep b'#' || eqb sep b'/') ≡ true
    → Lacks b'#' repo
    → Lacks b'/' repo
    → split_repo (repo ++ sep ∷ t) ≡ (repo, sep ∷ t)
unfolding split_repo
split_repo-append [] sep t s _ _ = rw s refl
split_repo-append (x ∷ repo) sep t s (h, hs) (k, ks) =
    rw (h, k, split_repo-append repo sep t s hs ks) refl

-- A key of a kind, a repository and what stands behind it.
abbrev pub key_of : Text → Text → Text → ℕ → Text → Text
key_of kind owner repo sep disc = kind ++ b':' ∷ (owner ++ b'/' ∷ (repo ++ sep ∷ disc))

-- A kind of the grammar that has a repository.
pub record IsKind (kind : Text) : Type 0 where
  pub no_colon : Lacks b':' kind
  pub no_at : Lacks b'@' kind
  pub not_user : (kind == codes "user") ≡ false

stripped :
    (kind owner repo : Text) (sep : ℕ) (disc : Text)
    → IsKind kind
    → IsName owner
    → IsName repo
    → eqb sep b'@' ≡ false
    → strip_host (key_of kind owner repo sep disc) ≡ key_of kind owner repo sep (strip_host disc)
stripped kind owner repo sep disc k o r s =
    strip_host-append kind (b':' ∷ (owner ++ b'/' ∷ (repo ++ sep ∷ disc))) k.no_at
    ∙ ap (λ u. kind ++ u) (strip_cons b':' (owner ++ b'/' ∷ (repo ++ sep ∷ disc)) refl)
    ∙ ap (λ u. kind ++ b':' ∷ u)
        (strip_host-append owner (b'/' ∷ (repo ++ sep ∷ disc)) (IsName-Lacks b'@' refl o)
          ∙ ap (λ u. owner ++ u) (strip_cons b'/' (repo ++ sep ∷ disc) refl)
          ∙ ap (λ u. owner ++ b'/' ∷ u)
              (strip_host-append repo (sep ∷ disc) (IsName-Lacks b'@' refl r)
                ∙ ap (λ u. repo ++ u) (strip_cons sep disc s)))

kind_of_key :
    (kind owner repo : Text) (sep : ℕ) (disc : Text)
    → IsKind kind
    → kind_of (key_of kind owner repo sep disc) ≡ kind
unfolding kind_of
kind_of_key kind owner repo sep disc k =
    rw (cut-append b':' kind (owner ++ b'/' ∷ (repo ++ sep ∷ disc)) k.no_colon) refl

parsed :
    (kind owner repo : Text) (sep : ℕ) (disc : Text)
    → IsKind kind
    → IsName owner
    → IsName repo
    → eqb sep b'@' ≡ false
    → (eqb sep b'#' || eqb sep b'/') ≡ true
    → parse_key (key_of kind owner repo sep disc)
      ≡ (codes "owner", owner) ∷ (codes "repo", repo) ∷ tail_parts (sep ∷ strip_host disc)
unfolding parse_key
parsed kind owner repo sep disc k o r s t =
    rw
      (
        stripped kind owner repo sep disc k o r s,
        kind_of_key kind owner repo sep disc k,
        k.not_user,
        cut-append b':' kind (owner ++ b'/' ∷ (repo ++ sep ∷ strip_host disc)) k.no_colon,
        cut-append b'/' owner (repo ++ sep ∷ strip_host disc) (IsName-Lacks b'/' refl o),
        split_repo-append repo sep (strip_host disc) t (IsName-Lacks b'#' refl r)
            (IsName-Lacks b'/' refl r),
      )
      refl

scope_named :
    (owner repo : Text) (tail : Parts)
    → IsName owner
    → IsName repo
    → (if part (codes "owner") ((codes "owner", owner) ∷ (codes "repo", repo) ∷ tail) == []
          || part (codes "repo") ((codes "owner", owner) ∷ (codes "repo", repo) ∷ tail) == []
        then []
        else prefix_of
            (part (codes "owner") ((codes "owner", owner) ∷ (codes "repo", repo) ∷ tail))
            (part (codes "repo") ((codes "owner", owner) ∷ (codes "repo", repo) ∷ tail)))
      ≡ prefix_of owner repo
unfolding lookup bytes_eqb
scope_named owner repo tail (named c t e) (named d u f) = refl

scope_of_key :
    (kind owner repo : Text) (sep : ℕ) (disc : Text)
    → IsKind kind
    → IsName owner
    → IsName repo
    → eqb sep b'@' ≡ false
    → (eqb sep b'#' || eqb sep b'/') ≡ true
    → scope_prefix (key_of kind owner repo sep disc) ≡ prefix_of owner repo
unfolding scope_prefix
scope_of_key kind owner repo sep disc k o r s t =
    rw (parsed kind owner repo sep disc k o r s t)
      (scope_named owner repo (tail_parts (sep ∷ strip_host disc)) o r)

-- A key lies on the list of its repository and kind, whatever stands behind the repository.
pub composite_of_key :
    (kind owner repo : Text) (sep : ℕ) (disc : Text)
    → IsKind kind
    → IsName owner
    → IsName repo
    → eqb sep b'@' ≡ false
    → (eqb sep b'#' || eqb sep b'/') ≡ true
    → composite (key_of kind owner repo sep disc) ≡ prefix_of owner repo ++ b'|' ∷ kind
unfolding composite
composite_of_key kind owner repo sep disc k o r s t =
    rw (scope_of_key kind owner repo sep disc k o r s t, kind_of_key kind owner repo sep disc k)
      refl
