-- ===== src/Github/Reconcile/Discovery.antt =====
-- plugins/github/reconcile.go: the loop over the pages of repositories.
use supergraph.Common.{
  ℕ, zero, suc, ◌+◌, ◌<◌, ◌≡◌, refl, ap, sym, ◌∙◌, Bool, true, false, Option, none, some, List, [],
  ◌∷◌, ◌++◌, length, ltb, arith, bytes_eq, ◌==◌, not, if◌then◌else◌, or_else,
}
use supergraph.Common.Bytes.{Text}
use supergraph.Github.Reconcile.{per_page, named, page_turned, discover_repos}

-- A page that is not full, or could not be read.
abbrev pub is_last : Option (List Text) → Bool
is_last none = true
is_last (some out) = ltb (length out) per_page

-- The pages from one on are these, and each is full.
abbrev pub AreFull : (ℕ → Option (List Text)) → ℕ → List (List Text) → Type 0
AreFull pages page [] = Unit
AreFull pages page (out ∷ full) =
    (pages page ≡ some out) × (ltb (length out) per_page ≡ false) × AreFull pages (suc page) full

-- The rows of some pages, one page behind the other.
abbrev pub rows : List (List Text) → List Text → List Text
rows [] more = more
rows (out ∷ full) more = out ++ rows full more

-- The rows that have a name.
abbrev pub with_name : List Text → List Text
with_name [] = []
with_name (r ∷ rs) = let rest = with_name rs in if not (r == []) then r ∷ rest else rest

named-append : (a b : List Text) → named (a ++ b) ≡ named a ++ named b
unfolding named
named-append [] b = refl
named-append (r ∷ a) b = ground (arith, named-append a b)

named_lem : (rs : List Text) → named rs ≡ with_name rs
unfolding named
named_lem [] = refl
named_lem (r ∷ rs) = ground (arith, named_lem rs)

last_turned :
    (x : Option (List Text)) (rest : List Text)
    → is_last x ≡ true
    → page_turned x rest ≡ named (or_else x [])
unfolding named
last_turned none rest h = refl
last_turned (some out) rest h = rw h refl

turned :
    (pages : ℕ → Option (List Text)) (full : List (List Text)) (fuel page : ℕ)
    → AreFull pages page full
    → is_last (pages (length full + page)) ≡ true
    → length full < fuel
    → discover_repos pages fuel page ≡ named (rows full (or_else (pages (length full + page)) []))
unfolding discover_repos
turned pages full zero page a h l = absurd (omega (arith, l))
turned pages [] (suc fuel) page a h l =
    let here : page ≡ 0 + page = omega arith in
    last_turned (pages page) (discover_repos pages fuel (suc page))
      (ap (λ i. is_last (pages i)) here ∙ h)
    ∙ ap (λ i. named (or_else (pages i) [])) here
turned pages (out ∷ full) (suc fuel) page (at, size, a) h l =
    let next : length full + suc page ≡ suc (length full) + page = omega arith in
    let rest =
      turned pages full fuel (suc page) a (ap (λ i. is_last (pages i)) next ∙ h)
        (omega (arith, l)) in
    rw (at, size)
      (ap (λ r. named out ++ r) rest
        ∙ sym (named-append out (rows full (or_else (pages (length full + suc page)) [])))
        ∙ ap (λ i. named (out ++ rows full (or_else (pages i) []))) next)

-- If some pages from the first on are full, and the next one is not or cannot be read, then the loop
-- finds the named rows of those pages and of that one, in their order, with any fuel above the number
-- of the full pages: it ends there, and a page that cannot be read loses nothing before it.
pub discover_repos_exact :
    (pages : ℕ → Option (List Text)) (full : List (List Text)) (fuel : ℕ)
    → AreFull pages 1 full
    → is_last (pages (length full + 1)) ≡ true
    → length full < fuel
    → discover_repos pages fuel 1 ≡ with_name (rows full (or_else (pages (length full + 1)) []))
discover_repos_exact pages full fuel a h l =
    turned pages full fuel 1 a h l ∙ named_lem (rows full (or_else (pages (length full + 1)) []))
