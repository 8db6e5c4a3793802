-- ===== src/Common/Decimal.antt =====
-- Decimal numbers as fmt's %d prints them and strconv.Atoi reads them.
use Prim.Native.Nat.{ℕ, zero, suc, ◌+◌, ◌-◌, ◌*◌, ◌/◌, ◌%◌, ◌^◌, ◌≤◌, ◌<◌}
use mathlib.Core.Path.{◌≡◌, refl, ap, sym, ◌∙◌, subst}
use mathlib.Core.Logic.{inl, inr}
use mathlib.Core.Bool.{Bool, true, false, ◌&&◌}
use mathlib.Core.Option.{Option, none, some}
use mathlib.Core.List.{List, [], ◌∷◌, ◌++◌}
use native.Mathlib.Omega.{arith}
use supergraph.Common.Tests.{if◌then◌else◌, Bool-cases, eqb, leb, ltb}
use supergraph.Common.Lists.{All}
use supergraph.Common.Int.{ℤ, pos, negsuc}
use supergraph.Common.Bytes.{Text, Lacks}

abbrev pub is_digit : ℕ → Bool
is_digit c = leb b'0' c && leb c b'9'

-- The first number is the fuel: a number that is smaller than it is printed whole.
unfoldable pub digits : ℕ → ℕ → Text
digits zero n = []
digits (suc fuel) n = elim (ltb n 10) [
  | true ↦ (b'0' + n) ∷ []
  | false ↦ digits fuel (n / 10) ++ (b'0' + n % 10) ∷ []
]

unfoldable pub print_nat : ℕ → Text
print_nat n = digits (suc n) n

unfoldable pub print_int : ℤ → Text
print_int (pos n) = print_nat n
print_int (negsuc n) = b'-' ∷ print_nat (suc n)

-- One more digit behind a number, and all digits of a text behind it.
abbrev pub push_digit : Option ℕ → ℕ → Option ℕ
push_digit none c = none
push_digit (some n) c = if is_digit c then some (10 * n + (c - b'0')) else none

unfoldable pub read_digits : Option ℕ → Text → Option ℕ
read_digits acc [] = acc
read_digits acc (c ∷ cs) = read_digits (push_digit acc c) cs

-- A text without a digit is a syntax error.
abbrev pub read_nat : Text → Option ℕ
read_nat [] = none
read_nat (c ∷ cs) = read_digits (some 0) (c ∷ cs)

abbrev pub max_int : ℕ
max_int = 2 ^ 63 - 1

-- Out of the range of an int is an error too.
abbrev positive : Option ℕ → Option ℤ
positive none = none
positive (some n) = if leb n max_int then some (pos n) else none

abbrev negative : Option ℕ → Option ℤ
negative none = none
negative (some zero) = some (pos 0)
negative (some (suc n)) = if leb n max_int then some (negsuc n) else none

unfoldable pub atoi : Text → Option ℤ
atoi [] = none
atoi (c ∷ cs) =
    if eqb c b'-'
    then negative (read_nat cs)
    else if eqb c b'+'
    then positive (read_nat cs)
    else positive (read_nat (c ∷ cs))

-- What Atoi returns if its error is not looked at: 0 for a syntax error, the nearest int for a number
-- out of range.
abbrev nearest : Bool → Option ℕ → ℤ
nearest minus none = pos 0
nearest true (some zero) = pos 0
nearest true (some (suc n)) = if leb n max_int then negsuc n else negsuc max_int
nearest false (some n) = if leb n max_int then pos n else pos max_int

unfoldable pub lax_atoi : Text → ℤ
lax_atoi [] = pos 0
lax_atoi (c ∷ cs) =
    if eqb c b'-'
    then nearest true (read_nat cs)
    else if eqb c b'+'
    then nearest false (read_nat cs)
    else nearest false (read_nat (c ∷ cs))

unfoldable pub InRange : ℤ → Type 0
InRange (pos n) = n ≤ max_int
InRange (negsuc n) = n ≤ max_int

read_digits-append :
    (acc : Option ℕ) (a b : Text) → read_digits acc (a ++ b) ≡ read_digits (read_digits acc a) b
unfolding read_digits
read_digits-append acc [] b = refl
read_digits-append acc (c ∷ a) b = read_digits-append (push_digit acc c) a b

digits_small : (fuel n : ℕ) → ltb n 10 ≡ true → digits (suc fuel) n ≡ (b'0' + n) ∷ []
unfolding digits
digits_small fuel n h = ground arith

digits_large :
    (fuel n : ℕ)
    → ltb n 10 ≡ false
    → digits (suc fuel) n ≡ digits fuel (n / 10) ++ (b'0' + n % 10) ∷ []
unfolding digits
digits_large fuel n h = ground arith

read_digits-digits : (fuel n : ℕ) → n < fuel → read_digits (some 0) (digits fuel n) ≡ some n
unfolding digits read_digits
read_digits-digits zero n h = absurd (omega arith)
read_digits-digits (suc fuel) n h = elim (Bool-cases (ltb n 10)) [
  | inl small ↦ rw (digits_small fuel n small) (ground arith)
  | inr large ↦
      rw
        (
          digits_large fuel n large,
          read_digits-append (some 0) (digits fuel (n / 10)) ((b'0' + n % 10) ∷ []),
          read_digits-digits fuel (n / 10) (ground arith),
        )
        (ground arith)
]

pub All-append {ℓ} :
    {A : Type ℓ} (P : A → Type 0) (a b : List A) → All P a → All P b → All P (a ++ b)
All-append P [] b _ q = q
All-append P (x ∷ a) b (p, ps) q = (p, All-append P a b ps q)

digits-All : (fuel n : ℕ) → All (λ c. is_digit c ≡ true) (digits fuel n)
unfolding digits
digits-All zero n = tt
digits-All (suc fuel) n = elim (Bool-cases (ltb n 10)) [
  | inl small ↦ rw (digits_small fuel n small) (ground arith, tt)
  | inr large ↦ rw (digits_large fuel n large) (
      All-append (λ c. is_digit c ≡ true) (digits fuel (n / 10)) ((b'0' + n % 10) ∷ [])
        (digits-All fuel (n / 10)) (ground arith, tt))
]

pub print_nat-All : (n : ℕ) → All (λ c. is_digit c ≡ true) (print_nat n)
unfolding print_nat
print_nat-All n = digits-All (suc n) n

-- What a printed number begins with.
abbrev IsHeaded : Text → Type 0
IsHeaded t = (c : ℕ) × (cs : Text) × (t ≡ c ∷ cs) × (is_digit c ≡ true)

headed :
    (t : Text) (x : ℕ) → All (λ c. is_digit c ≡ true) t → is_digit x ≡ true → IsHeaded (t ++ x ∷ [])
headed [] x _ h = (x, [], refl, h)
headed (c ∷ t) x (p, _) h = (c, t ++ x ∷ [], refl, p)

pub print_nat-IsHeaded : (n : ℕ) → IsHeaded (print_nat n)
unfolding print_nat digits
print_nat-IsHeaded n = elim (Bool-cases (ltb n 10)) [
  | inl small ↦ (b'0' + n, [], digits_small n n small, ground arith)
  | inr large ↦
      subst IsHeaded (sym (digits_large n n large))
        (headed (digits n (n / 10)) (b'0' + n % 10) (digits-All n (n / 10)) (ground arith))
]

read_print : (n : ℕ) → read_digits (some 0) (print_nat n) ≡ some n
unfolding print_nat
read_print n = read_digits-digits (suc n) n (omega arith)

pub read_nat-print_nat : (n : ℕ) → read_nat (print_nat n) ≡ some n
read_nat-print_nat n =
    let (c, cs, e, p) = print_nat-IsHeaded n in
    subst (λ t. read_nat t ≡ some n) (sym e)
      (subst (λ t. read_digits (some 0) t ≡ some n) e (read_print n))

atoi_digit : (c : ℕ) (cs : Text) → is_digit c ≡ true → atoi (c ∷ cs) ≡ positive (read_nat (c ∷ cs))
unfolding atoi
atoi_digit c cs h = ground arith

atoi_unsigned : (n : ℕ) → n ≤ max_int → atoi (print_nat n) ≡ some (pos n)
atoi_unsigned n h =
    let (c, cs, e, p) = print_nat-IsHeaded n in
    subst (λ t. atoi t ≡ some (pos n)) (sym e)
      (atoi_digit c cs p ∙ ap positive (ap read_nat (sym e) ∙ read_nat-print_nat n) ∙ ground arith)

atoi_minus : (t : Text) → atoi (b'-' ∷ t) ≡ negative (read_nat t)
unfolding atoi
atoi_minus t = refl

pub atoi-print_int : (z : ℤ) → InRange z → atoi (print_int z) ≡ some z
unfolding print_int InRange
atoi-print_int (pos n) h = atoi_unsigned n h
atoi-print_int (negsuc n) h =
    atoi_minus (print_nat (suc n)) ∙ ap negative (read_nat-print_nat (suc n)) ∙ ground arith

digits-Lacks :
    (s : ℕ) → is_digit s ≡ false → (t : Text) → All (λ c. is_digit c ≡ true) t → Lacks s t
digits-Lacks s h [] _ = tt
digits-Lacks s h (c ∷ t) (p, ps) = (ground arith, digits-Lacks s h t ps)

-- A printed number has no code but its digits and the sign.
pub print_int-Lacks :
    (s : ℕ) → is_digit s ≡ false → eqb b'-' s ≡ false → (z : ℤ) → Lacks s (print_int z)
unfolding print_int
print_int-Lacks s h m (pos n) = digits-Lacks s h (print_nat n) (print_nat-All n)
print_int-Lacks s h m (negsuc n) = (m, digits-Lacks s h (print_nat (suc n)) (print_nat-All (suc n)))
