-- ===== src/Common/Split.antt =====
-- The functions of Go's strings and path packages that take a text apart.
use supergraph.Common.{
  ℕ, ◌≡◌, refl, ap, ◌∙◌, Bool, true, false, ◌&&◌, ◌||◌, List, [], ◌∷◌, ◌++◌, eqb, leb,
  if◌then◌else◌, ◌==◌, bytes_eq, arith, ◌+◌, All,
}
use supergraph.Common.Bytes.{Text, is_space, Lacks}

abbrev cons_head : ℕ → List Text → List Text
cons_head x [] = (x ∷ []) ∷ []
cons_head x (t ∷ ts) = (x ∷ t) ∷ ts

-- strings.Split at one code
unfoldable pub split : ℕ → Text → List Text
split c [] = [] ∷ []
split c (x ∷ xs) = let rest = split c xs in if eqb x c then [] ∷ rest else cons_head x rest

abbrev add_field : Text → List Text → List Text
add_field [] fs = fs
add_field (x ∷ t) fs = (x ∷ t) ∷ fs

-- The field that is being read, and those behind it.
unfoldable pub fields_from : Text → Text × List Text
fields_from [] = ([], [])
fields_from (x ∷ xs) =
    let rest = fields_from xs in
    if is_space x then ([], add_field rest.0 rest.1) else (x ∷ rest.0, rest.1)

-- strings.Fields
unfoldable pub fields : Text → List Text
fields t = let rest = fields_from t in add_field rest.0 rest.1

-- strings.TrimRight of one code
abbrev pub keep_unless : ℕ → ℕ → Text → Text
keep_unless c x [] = if eqb x c then [] else x ∷ []
keep_unless c x (y ∷ ys) = x ∷ y ∷ ys

unfoldable pub trim_right_of : ℕ → Text → Text
trim_right_of c [] = []
trim_right_of c (x ∷ xs) = keep_unless c x (trim_right_of c xs)

unfoldable pub trim_left_of : ℕ → Text → Text
trim_left_of c [] = []
trim_left_of c (x ∷ xs) = let rest = trim_left_of c xs in if eqb x c then rest else x ∷ xs

-- strings.TrimSuffix
unfoldable pub trim_suffix : Text → Text → Text
trim_suffix s [] = []
trim_suffix s (x ∷ xs) = let rest = x ∷ trim_suffix s xs in if (x ∷ xs) == s then [] else rest

-- strings.EqualFold with a lower-case word of the letters of `file`.
unfoldable pub equal_fold : Text → Text → Bool
equal_fold [] [] = true
equal_fold (x ∷ xs) (y ∷ ys) =
    (eqb x y || (leb b'A' x && leb x b'Z' && eqb (x + 32) y)) && equal_fold xs ys
equal_fold _ _ = false

unfoldable pub join : ℕ → List Text → Text
join c [] = []
join c (t ∷ []) = t
join c (t ∷ u ∷ ts) = t ++ c ∷ join c (u ∷ ts)

-- The elements of a clean path, the last first; a `..` at the root of an absolute path is dropped.
abbrev climb : Bool → List Text → List Text
climb rooted [] = if rooted then [] else (b'.' ∷ b'.' ∷ []) ∷ []
climb rooted (t ∷ ts) = if t == (b'.' ∷ b'.' ∷ []) then (b'.' ∷ b'.' ∷ []) ∷ t ∷ ts else ts

abbrev step_into : Bool → Text → List Text → List Text
step_into rooted t done =
    if t == []
    then done
    else if t == b'.' ∷ []
    then done
    else if t == (b'.' ∷ b'.' ∷ [])
    then climb rooted done
    else t ∷ done

unfoldable pub elements : Bool → List Text → List Text → List Text
elements rooted [] done = done
elements rooted (t ∷ ts) done = elements rooted ts (step_into rooted t done)

unfoldable pub reversed : List Text → List Text → List Text
reversed [] acc = acc
reversed (t ∷ ts) acc = reversed ts (t ∷ acc)

-- filepath.Clean of a Unix path
abbrev pub is_rooted : Text → Bool
is_rooted [] = false
is_rooted (x ∷ _) = eqb x b'/'

abbrev or_dot : Text → Text
or_dot [] = b'.' ∷ []
or_dot (x ∷ t) = x ∷ t

unfoldable pub clean : Text → Text
clean path =
    let body = join b'/' (reversed (elements (is_rooted path) (split b'/' path) []) []) in
    if is_rooted path then b'/' ∷ body else or_dot body

-- filepath.Base of a clean path: what is behind the last slash, and a path of slashes is one slash.
abbrev pub last_of : List Text → Text
last_of [] = []
last_of (t ∷ []) = t
last_of (t ∷ u ∷ ts) = last_of (u ∷ ts)

abbrev or_slash : Text → Text
or_slash [] = b'/' ∷ []
or_slash (x ∷ t) = x ∷ t

unfoldable pub base_of_clean : Text → Text
base_of_clean path = or_slash (last_of (split b'/' path))

-- Lines that are joined by a code that none of them has are split again.
cons_head-split : (c : ℕ) (t : Text) (u : Text) → Lacks c t → split c (t ++ c ∷ u) ≡ t ∷ split c u
unfolding split
cons_head-split c [] u _ = ground arith
cons_head-split c (x ∷ t) u (h, hs) = rw (h, cons_head-split c t u hs) refl

split_end : (c : ℕ) (t : Text) → Lacks c t → split c t ≡ t ∷ []
unfolding split
split_end c [] _ = refl
split_end c (x ∷ t) (h, hs) = rw (h, split_end c t hs) refl

pub split-join :
    (c : ℕ) (t : Text) (ts : List Text)
    → All (Lacks c) (t ∷ ts)
    → split c (join c (t ∷ ts)) ≡ t ∷ ts
unfolding join
split-join c t [] (h, _) = split_end c t h
split-join c t (u ∷ ts) (h, hs) =
    cons_head-split c t (join c (u ∷ ts)) h ∙ ap (λ l. t ∷ l) (split-join c u ts hs)
