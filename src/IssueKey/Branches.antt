-- ===== src/IssueKey/Branches.antt =====
-- internal/issuekey/issuekey.go: the branches that name an issue, and which issue they name.
use supergraph.Common.{
  ℕ, ◌≤◌, ◌≡◌, refl, ap, sym, ◌∙◌, true, false, some, [], ◌∷◌, ◌++◌, codes, arith, All, eqb,
}
use mathlib.Core.Path.{subst}
use supergraph.Common.Bytes.{
  Text, trim_space, trim_left, trim_right, is_space, trim_right-append, after_prefix,
  keep_unless_space,
}
use supergraph.Common.Decimal.{
  is_digit, max_int, print_nat, print_nat-All, read_nat-print_nat, print_nat-IsHeaded, All-append,
}
use supergraph.IssueKey.{span_digits, ends_key, match_branch, from_branch, saturated, number_of}

span_digits-All :
    (ds rest : Text)
    → All (λ c. is_digit c ≡ true) ds
    → ends_key rest ≡ true
    → span_digits (ds ++ rest) ≡ (ds, rest)
unfolding span_digits
span_digits-All [] [] _ _ = refl
span_digits-All [] (c ∷ rest) _ h = ground arith
span_digits-All (d ∷ ds) rest (p, ps) h = rw (p, span_digits-All ds rest ps h) refl

-- What may stand between the word and its number.
pub data Dash : Type 0 where
  no_dash : Dash
  dash : Dash

abbrev pub dash_text : Dash → Text
dash_text no_dash = []
dash_text dash = b'-' ∷ []

matched :
    (d : ℕ) (ds rest : Text)
    → All (λ c. is_digit c ≡ true) (d ∷ ds)
    → ends_key rest ≡ true
    → number_of (some (d ∷ ds ++ rest)) ≡ some (d ∷ ds)
matched d ds rest (p, ps) h = rw (not_dash, span_digits-All (d ∷ ds) rest (p, ps) h, h) refl
  where
    not_dash : eqb d b'-' ≡ false
    not_dash = ground arith

match_key :
    (k : Dash) (d : ℕ) (ds rest : Text)
    → All (λ c. is_digit c ≡ true) (d ∷ ds)
    → ends_key rest ≡ true
    → match_branch (codes "issue" ++ dash_text k ++ d ∷ ds ++ rest) ≡ some (d ∷ ds)
unfolding match_branch after_prefix
match_key no_dash d ds rest ps h = matched d ds rest ps h
match_key dash d ds rest ps h = rw (span_digits-All (d ∷ ds) rest ps h, h) refl

-- The key of issue n with a text behind it.
abbrev pub branch_of : Dash → ℕ → Text → Text
branch_of k n rest = codes "issue" ++ dash_text k ++ print_nat n ++ rest

match_branch_of :
    (k : Dash) (n : ℕ) (rest : Text)
    → ends_key rest ≡ true
    → match_branch (branch_of k n rest) ≡ some (print_nat n)
match_branch_of k n rest h =
    let (d, ds, e, p) = print_nat-IsHeaded n in
    subst (λ t. match_branch (codes "issue" ++ dash_text k ++ t ++ rest) ≡ some t) (sym e)
      (match_key k d ds rest (subst (All (λ c. is_digit c ≡ true)) e (print_nat-All n)) h)

digits-All_solid : (t : Text) → All (λ c. is_digit c ≡ true) t → All (λ c. is_space c ≡ false) t
unfolding is_space
digits-All_solid [] _ = tt
digits-All_solid (c ∷ t) (p, ps) = (ground arith, digits-All_solid t ps)

prefix_solid : (k : Dash) → All (λ c. is_space c ≡ false) (codes "issue" ++ dash_text k)
unfolding is_space
prefix_solid no_dash = (refl, (refl, (refl, (refl, (refl, tt)))))
prefix_solid dash = (refl, (refl, (refl, (refl, (refl, (refl, tt))))))

-- Spaces.
abbrev pub IsBlank : Text → Type 0
IsBlank = All (λ c. is_space c ≡ true)

trim_left-blank : (b t : Text) → IsBlank b → trim_left (b ++ t) ≡ trim_left t
unfolding trim_left
trim_left-blank [] t _ = refl
trim_left-blank (c ∷ b) t (h, hs) = rw h (trim_left-blank b t hs)

trim_right_blank : (b : Text) → IsBlank b → trim_right b ≡ []
unfolding trim_right
trim_right_blank [] _ = refl
trim_right_blank (c ∷ b) (h, hs) = rw (trim_right_blank b hs) (rw h refl)

trim_right-blank : (t b : Text) → IsBlank b → trim_right (t ++ b) ≡ trim_right t
unfolding trim_right
trim_right-blank [] b h = trim_right_blank b h
trim_right-blank (c ∷ t) b h = ap (keep_unless_space c) (trim_right-blank t b h)

trim_space-branch_of :
    (before after : Text) (k : Dash) (n : ℕ) (rest : Text)
    → IsBlank before
    → IsBlank after
    → trim_space (before ++ (branch_of k n rest ++ after)) ≡ trim_right (branch_of k n rest)
unfolding trim_space trim_left is_space
trim_space-branch_of before after k n rest hb ha =
    ap trim_right (trim_left-blank before (branch_of k n rest ++ after) hb)
    ∙ trim_right-blank (branch_of k n rest) after ha

ends_key_trimmed : (rest : Text) → ends_key rest ≡ true → ends_key (trim_right rest) ≡ true
unfolding trim_right is_space
ends_key_trimmed [] h = refl
ends_key_trimmed (c ∷ t) h = kept (trim_right t)
  where
    kept : (u : Text) → ends_key (keep_unless_space c u) ≡ true
    kept [] = ground arith
    kept (x ∷ u) = h

number_small : (n : ℕ) → n ≤ max_int → some (saturated (some n)) ≡ some n
unfolding saturated
number_small n h = ground arith

-- A branch names issue n if it is `issue`, a dash or none, the decimal number n in the range of an
-- int, and then nothing, or a slash or a dash and any text; and spaces before and behind all this
-- change nothing.
pub from_branch_names :
    (before after : Text) (k : Dash) (n : ℕ) (rest : Text)
    → n ≤ max_int
    → ends_key rest ≡ true
    → IsBlank before
    → IsBlank after
    → from_branch (before ++ (branch_of k n rest ++ after)) ≡ some n
unfolding from_branch
from_branch_names before after k n rest small h hb ha =
    rw
      (
        trim_space-branch_of before after k n rest hb ha,
        trim_right-append (codes "issue" ++ dash_text k ++ print_nat n) rest (
            All-append (λ c. is_space c ≡ false) (codes "issue" ++ dash_text k) (print_nat n)
              (prefix_solid k) (digits-All_solid (print_nat n) (print_nat-All n))),
        match_branch_of k n (trim_right rest) (ends_key_trimmed rest h),
        read_nat-print_nat n,
      )
      (number_small n small)
