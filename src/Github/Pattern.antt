-- ===== src/Github/Pattern.antt =====
-- plugins/github/store.go: escapeLike, and LIKE as SQLite reads it.
use supergraph.Common.{ℕ, ◌+◌, Bool, true, false, ◌&&◌, ◌||◌, [], ◌∷◌, if◌then◌else◌, eqb, leb}
use supergraph.Common.Bytes.{Text}

-- strings.NewReplacer of the three codes that LIKE reads, each behind a backslash.
abbrev pub backslash : ℕ
backslash = 92

unfoldable pub escape_like : Text → Text
escape_like [] = []
escape_like (c ∷ t) =
    let rest = c ∷ escape_like t in
    if eqb c backslash || eqb c b'%' || eqb c b'_' then backslash ∷ rest else rest

-- The letters of ASCII are one to LIKE, whatever their case.
abbrev pub fold_code : ℕ → ℕ
fold_code c = if leb b'A' c && leb c b'Z' then c + 32 else c

abbrev pub same_code : ℕ → ℕ → Bool
same_code a b = eqb (fold_code a) (fold_code b)

-- LIKE with the escape \: the pattern, then the text.
unfoldable pub some_tail : (Text → Bool) → Text → Bool
some_tail p [] = p []
some_tail p (c ∷ t) = p (c ∷ t) || some_tail p t

abbrev pub one_code : (ℕ → Bool) → (Text → Bool) → Text → Bool
one_code test p [] = false
one_code test p (x ∷ t) = test x && p t

unfoldable pub like : Text → Text → Bool
like [] [] = true
like [] (x ∷ t) = false
like (c ∷ []) t =
    if eqb c b'%'
    then true
    else if eqb c b'_'
    then one_code (λ _. true) (like []) t
    else if eqb c backslash
    then false
    else one_code (same_code c) (like []) t
like (c ∷ q ∷ pattern) t =
    if eqb c b'%'
    then some_tail (like (q ∷ pattern)) t
    else if eqb c b'_'
    then one_code (λ _. true) (like (q ∷ pattern)) t
    else if eqb c backslash
    then one_code (same_code q) (like pattern) t
    else one_code (same_code c) (like (q ∷ pattern)) t
