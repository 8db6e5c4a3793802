-- ===== src/Common/Bytes.antt =====
-- The functions of Go's strings package that the program calls, on the code points of a text.
use Prim.Native.Nat.{ℕ}
use mathlib.Core.Path.{◌≡◌, refl, ap, ◌∙◌}
use mathlib.Core.Bool.{Bool, true, false, ◌&&◌, ◌||◌}
use mathlib.Core.Option.{Option, none, some}
use mathlib.Core.List.{List, [], ◌∷◌, ◌++◌}
use native.Mathlib.Omega.{arith}
use supergraph.Common.Tests.{if◌then◌else◌, eqb, leb}
use supergraph.Common.Lists.{All}

abbrev pub Text : Type 0
Text = List ℕ

-- strings.Cut, and the cut at the last separator that LastIndexByte finds.
abbrev pub cons_fst : ℕ → Option (Text × Text) → Option (Text × Text)
cons_fst x none = none
cons_fst x (some (a, b)) = some (x ∷ a, b)

unfoldable pub cut : ℕ → Text → Option (Text × Text)
cut c [] = none
cut c (x ∷ xs) = let rest = cut c xs in if eqb x c then some ([], xs) else cons_fst x rest

abbrev pub cut_here : ℕ → ℕ → Text → Option (Text × Text) → Option (Text × Text)
cut_here c x xs (some (a, b)) = some (x ∷ a, b)
cut_here c x xs none = if eqb x c then some ([], xs) else none

unfoldable pub cut_last : ℕ → Text → Option (Text × Text)
cut_last c [] = none
cut_last c (x ∷ xs) = cut_here c x xs (cut_last c xs)

-- What follows a prefix.
unfoldable pub after_prefix : Text → Text → Option Text
after_prefix [] xs = some xs
after_prefix (p ∷ ps) [] = none
after_prefix (p ∷ ps) (x ∷ xs) = let rest = after_prefix ps xs in if eqb x p then rest else none

unfoldable pub starts : Text → Text → Bool
starts [] xs = true
starts (p ∷ ps) [] = false
starts (p ∷ ps) (x ∷ xs) = eqb x p && starts ps xs

-- strings.Contains
unfoldable pub has_part : Text → Text → Bool
has_part part [] = starts part []
has_part part (x ∷ xs) = starts part (x ∷ xs) || has_part part xs

unfoldable pub has_code : ℕ → Text → Bool
has_code c [] = false
has_code c (x ∷ xs) = eqb x c || has_code c xs

-- unicode.IsSpace
unfoldable pub is_space : ℕ → Bool
is_space c =
    (leb 9 c && leb c 13)
    || eqb c 32
    || eqb c 0x85
    || eqb c 0xA0
    || eqb c 0x1680
    || (leb 0x2000 c && leb c 0x200A)
    || eqb c 0x2028
    || eqb c 0x2029
    || eqb c 0x202F
    || eqb c 0x205F
    || eqb c 0x3000

unfoldable pub trim_left : Text → Text
trim_left [] = []
trim_left (x ∷ xs) = let rest = trim_left xs in if is_space x then rest else x ∷ xs

abbrev pub keep_unless_space : ℕ → Text → Text
keep_unless_space x [] = if is_space x then [] else x ∷ []
keep_unless_space x (y ∷ ys) = x ∷ y ∷ ys

unfoldable pub trim_right : Text → Text
trim_right [] = []
trim_right (x ∷ xs) = keep_unless_space x (trim_right xs)

-- strings.TrimSpace
unfoldable pub trim_space : Text → Text
trim_space t = trim_right (trim_left t)

abbrev pub Lacks : ℕ → Text → Type 0
Lacks c = All (λ x. eqb x c ≡ false)

pub cut-append : (c : ℕ) (a b : Text) → Lacks c a → cut c (a ++ c ∷ b) ≡ some (a, b)
unfolding cut
cut-append c [] b _ = ground arith
cut-append c (x ∷ a) b (h, hs) = rw (h, cut-append c a b hs)

pub cut_last-Lacks : (c : ℕ) (b : Text) → Lacks c b → cut_last c b ≡ none
unfolding cut_last
cut_last-Lacks c [] _ = refl
cut_last-Lacks c (x ∷ b) (h, hs) = rw (cut_last-Lacks c b hs, h)

pub cut_last-append : (c : ℕ) (a b : Text) → Lacks c b → cut_last c (a ++ c ∷ b) ≡ some (a, b)
unfolding cut_last
cut_last-append c [] b h = rw (cut_last-Lacks c b h) (ground arith)
cut_last-append c (x ∷ a) b h = rw (cut_last-append c a b h)

pub after_prefix-append : (p t : Text) → after_prefix p (p ++ t) ≡ some t
unfolding after_prefix
after_prefix-append [] t = refl
after_prefix-append (x ∷ p) t = ground (arith, after_prefix-append p t)

-- Codes that are no space stay, whatever is trimmed behind them.
pub trim_right-append :
    (a b : Text) → All (λ x. is_space x ≡ false) a → trim_right (a ++ b) ≡ a ++ trim_right b
unfolding trim_right
trim_right-append [] b _ = refl
trim_right-append (x ∷ a) b (h, hs) =
    ap (keep_unless_space x) (trim_right-append a b hs) ∙ keep (a ++ trim_right b)
  where
    keep : (t : Text) → keep_unless_space x t ≡ x ∷ t
    keep [] = rw h
    keep (y ∷ t) = refl

-- A text that the test clears lacks the code.
pub has_code-Lacks_of : (c : ℕ) (t : Text) → has_code c t ≡ false → Lacks c t
unfolding has_code
has_code-Lacks_of c [] _ = tt
has_code-Lacks_of c (x ∷ t) h = (ground arith, has_code-Lacks_of c t (ground arith))

pub Lacks-append : (c : ℕ) (a b : Text) → Lacks c a → Lacks c b → Lacks c (a ++ b)
Lacks-append c [] b _ h = h
Lacks-append c (x ∷ a) b (p, ps) h = (p, Lacks-append c a b ps h)
