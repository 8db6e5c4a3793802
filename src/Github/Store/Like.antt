-- ===== src/Github/Store/Like.antt =====
-- plugins/github/store.go: which nodes the escaped pattern of nodesByKind finds.
use supergraph.Common.{
  ℕ, ◌≡◌, refl, ap, ◌∙◌, inl, inr, Bool, true, false, ◌&&◌, ◌||◌, not, List, [], ◌∷◌, ◌++◌, codes,
  bytes_eq, ◌==◌, if◌then◌else◌, eqb, arith, Bool-cases,
}
use supergraph.Common.Bytes.{Text}
use supergraph.Github.Pattern.{escape_like, like, one_code, same_code, backslash}
use supergraph.Github.Store.{Node, Tables, nodes_like, nodes_by_kind}

-- The text begins with the prefix, up to the case of the letters of ASCII.
unfoldable pub begins : Text → Text → Bool
begins [] t = true
begins (c ∷ p) [] = false
begins (c ∷ p) (x ∷ t) = same_code c x && begins p t

abbrev is_special : ℕ → Bool
is_special c = eqb c backslash || eqb c b'%' || eqb c b'_'

like_plain :
    (c : ℕ) (r t : Text) → is_special c ≡ false → like (c ∷ r) t ≡ one_code (same_code c) (like r) t
unfolding like
like_plain c [] t h = ground arith
like_plain c (q ∷ r) t h = ground arith

like_escaped : (q : ℕ) (r t : Text) → like (backslash ∷ q ∷ r) t ≡ one_code (same_code q) (like r) t
unfolding like
like_escaped q r t = refl

one_code-begins :
    (c : ℕ) (p r t : Text)
    → ((u : Text) → like r u ≡ begins p u)
    → one_code (same_code c) (like r) t ≡ begins (c ∷ p) t
unfolding begins
one_code-begins c p r [] h = refl
one_code-begins c p r (x ∷ t) h = ap (λ b. same_code c x && b) (h t)

-- The escaped prefix with the wildcard behind it finds the texts that begin with the prefix.
like-escape_like : (p t : Text) → like (escape_like p ++ b'%' ∷ []) t ≡ begins p t
unfolding escape_like
like-escape_like [] t = unfold like begins in refl
like-escape_like (c ∷ p) t = elim (Bool-cases (is_special c)) [
  | inl special ↦ rw special (
      like_escaped c (escape_like p ++ b'%' ∷ []) t
      ∙ one_code-begins c p (escape_like p ++ b'%' ∷ []) t (like-escape_like p))
  | inr plain ↦ rw plain (
      like_plain c (escape_like p ++ b'%' ∷ []) t plain
      ∙ one_code-begins c p (escape_like p ++ b'%' ∷ []) t (like-escape_like p))
]

-- The nodes that pass a test of their key, in the order of the rows.
unfoldable pub nodes_where : (Text → Node → Bool) → List (Text × Node) → List Node
nodes_where p [] = []
nodes_where p ((k, n) ∷ m) = let rest = nodes_where p m in if p k n then n ∷ rest else rest

abbrev pub is_object_under : Text → Text → Text → Node → Bool
is_object_under kind scope k n =
    not (n.typename == codes "_list") && begins (kind ++ b':' ∷ scope ++ b'#' ∷ []) k

nodes_like_where :
    (p : Text) (m : List (Text × Node))
    → nodes_like (escape_like p ++ b'%' ∷ []) m
      ≡ nodes_where (λ k n. not (n.typename == codes "_list") && begins p k) m
unfolding nodes_like nodes_where
nodes_like_where p [] = refl
nodes_like_where p ((k, n) ∷ m) = rw (like-escape_like p k, nodes_like_where p m) refl

-- For any kind and scope, those with the codes that LIKE reads included, the read by kind gives the
-- cached objects, no list among them, whose key begins with kind:scope#, letters of ASCII in either
-- case, in the order of the rows.
pub nodes_by_kind_exact :
    (kind scope : Text) (t : Tables)
    → nodes_by_kind kind scope t ≡ nodes_where (is_object_under kind scope) t.github_nodes
unfolding nodes_by_kind
nodes_by_kind_exact kind scope t =
    nodes_like_where (kind ++ b':' ∷ scope ++ b'#' ∷ []) t.github_nodes
