-- ===== src/Claude/Tail/Lines.antt =====
-- plugins/claude/tail.go: the lines of a transcript, beside the loop that reads them.
use mathlib.Core.Option
use mathlib.Core.List.{append-nil}
use supergraph.Common.{
  ℕ, zero, suc, ◌<◌, ◌≡◌, refl, ap, sym, ◌∙◌, inl, inr, Option, none, some, List, [], ◌∷◌, ◌++◌,
  map, if◌then◌else◌, eqb, leb, arith, Bool-cases, length, length-append,
}
use supergraph.Common.Bytes.{Text, Lacks, Lacks-append}
use supergraph.Claude.Tail.{newline, buffered, Line, read_line, then_lines, read_lines}

-- The lines of a text that end in a newline, which each of them keeps; the first one goes on from a
-- text before it.
unfoldable pub whole_lines : Text → Text → List Text
whole_lines before [] = []
whole_lines before (b ∷ t) =
    let line = (before ++ b ∷ []) ∷ whole_lines [] t in
    let more = whole_lines (before ++ b ∷ []) t in if eqb b newline then line else more

unfoldable pub concat : List Text → Text
concat [] = []
concat (l ∷ ls) = l ++ concat ls

-- A line as it is buffered.
abbrev pub capped : ℕ → Text → Option Text
capped cap line = if leb (length line) cap then some line else none

unfoldable pub first_line : Text → Text → Option (Text × Text)
first_line before [] = none
first_line before (b ∷ t) =
    let more = first_line (before ++ b ∷ []) t in
    if eqb b newline then some (before ++ b ∷ [], t) else more

buffered-capped :
    (cap : ℕ) (before : Text) (b : ℕ)
    → buffered cap (capped cap before) b ≡ capped cap (before ++ b ∷ [])
buffered-capped cap before b = elim (Bool-cases (leb (length before) cap)) [
  | inl e ↦ rw e (ground (arith, e, length-append before (b ∷ [])))
  | inr e ↦ rw e (ground (arith, e, length-append before (b ∷ [])))
]

abbrev line_of : ℕ → Text × Text → Line
line_of cap (l, rest) = record { line = capped cap l; consumed = length l; rest = rest }

read_line_lem :
    (cap : ℕ) (before t : Text)
    → read_line cap (capped cap before) (length before) t
      ≡ Option.map (line_of cap) (first_line before t)
unfolding read_line first_line
read_line_lem cap before [] = refl
read_line_lem cap before (b ∷ t) =
    rw (buffered-capped cap before b, size)
      (elim (Bool-cases (eqb b newline)) [
        | inl e ↦ rw e refl
        | inr e ↦ rw e (read_line_lem cap (before ++ b ∷ []) t)
      ])
  where
    size : suc (length before) ≡ length (before ++ b ∷ [])
    size = omega (arith, length-append before (b ∷ []))

abbrev cons_first : Option (Text × Text) → List Text
cons_first none = []
cons_first (some (l, rest)) = l ∷ whole_lines [] rest

whole_lines-first_line : (before t : Text) → whole_lines before t ≡ cons_first (first_line before t)
unfolding whole_lines first_line
whole_lines-first_line before [] = refl
whole_lines-first_line before (b ∷ t) = elim (Bool-cases (eqb b newline)) [
  | inl e ↦ rw e refl
  | inr e ↦ rw e (whole_lines-first_line (before ++ b ∷ []) t)
]

first_line_shorter :
    (before t l rest : Text) → first_line before t ≡ some (l, rest) → length rest < length t
unfolding first_line
first_line_shorter before [] l rest h = absurd (cc)
first_line_shorter before (b ∷ t) l rest h = elim (Bool-cases (eqb b newline)) [
  | inl e ↦ ground (arith, e, h)
  | inr e ↦ omega (arith, first_line_shorter (before ++ b ∷ []) t l rest (rw e at h))
]

abbrev pub summed : ℕ → List Text → List (Option Text) × ℕ
summed cap ls = (map (capped cap) ls, length (concat ls))

read_first :
    (cap : ℕ) (t : Text) → read_line cap (some []) 0 t ≡ Option.map (line_of cap) (first_line [] t)
read_first cap t = ap (λ line. read_line cap line 0 t) empty ∙ read_line_lem cap [] t
  where
    empty : some [] ≡ capped cap []
    empty = ground arith

then_summed :
    (cap : ℕ) (more : Text → List (Option Text) × ℕ) (x : Option (Text × Text))
    → ((l rest : Text) → x ≡ some (l, rest) → more rest ≡ summed cap (whole_lines [] rest))
    → then_lines (Option.map (line_of cap) x) more ≡ summed cap (cons_first x)
unfolding concat
then_summed cap more none h = refl
then_summed cap more (some (l, rest)) h = rw (h l rest refl) (
    ap (λ n. (capped cap l ∷ map (capped cap) (whole_lines [] rest), n))
      (sym (length-append l (concat (whole_lines [] rest)))))

-- With fuel above the number of bytes, the loop reads the whole lines.
pub read_lines_lem :
    (cap fuel : ℕ) (t : Text)
    → length t < fuel
    → read_lines cap fuel t ≡ summed cap (whole_lines [] t)
unfolding read_lines
read_lines_lem cap zero t h = absurd (omega (arith, h))
read_lines_lem cap (suc fuel) t h =
    let next : (l rest : Text)
        → first_line [] t ≡ some (l, rest)
        → read_lines cap fuel rest ≡ summed cap (whole_lines [] rest) =
      λ l rest e.
        read_lines_lem cap fuel rest (omega (arith, h, first_line_shorter [] t l rest e)) in
    ap (λ x. then_lines x (read_lines cap fuel)) (read_first cap t)
    ∙ then_summed cap (read_lines cap fuel) (first_line [] t) next
    ∙ ap (summed cap) (sym (whole_lines-first_line [] t))

-- What follows the last newline.
unfoldable pub partial : Text → Text → Text
partial before [] = before
partial before (b ∷ t) =
    let line = partial [] t in
    let more = partial (before ++ b ∷ []) t in if eqb b newline then line else more

pub append_assoc : (a b c : Text) → (a ++ b) ++ c ≡ a ++ (b ++ c)
append_assoc [] b c = refl
append_assoc (x ∷ a) b c = ap (λ t. x ∷ t) (append_assoc a b c)

pub whole_lines-append :
    (before a b : Text)
    → whole_lines before (a ++ b) ≡ whole_lines before a ++ whole_lines (partial before a) b
unfolding whole_lines partial
whole_lines-append before [] b = refl
whole_lines-append before (x ∷ a) b = elim (Bool-cases (eqb x newline)) [
  | inl e ↦ rw e (ap (λ ls. (before ++ x ∷ []) ∷ ls) (whole_lines-append [] a b))
  | inr e ↦ rw e (whole_lines-append (before ++ x ∷ []) a b)
]

-- A text is its whole lines and what follows them.
pub concat-whole_lines :
    (before t : Text) → before ++ t ≡ concat (whole_lines before t) ++ partial before t
unfolding whole_lines partial concat
concat-whole_lines before [] = append-nil before
concat-whole_lines before (b ∷ t) = elim (Bool-cases (eqb b newline)) [
  | inl e ↦ rw e (
      sym (append_assoc before (b ∷ []) t)
      ∙ ap (λ u. (before ++ b ∷ []) ++ u) (concat-whole_lines [] t)
      ∙ sym (append_assoc (before ++ b ∷ []) (concat (whole_lines [] t)) (partial [] t)))
  | inr e ↦ rw e (sym (append_assoc before (b ∷ []) t) ∙ concat-whole_lines (before ++ b ∷ []) t)
]

pub partial-Lacks : (before t : Text) → Lacks newline before → Lacks newline (partial before t)
unfolding partial
partial-Lacks before [] h = h
partial-Lacks before (b ∷ t) h = elim (Bool-cases (eqb b newline)) [
  | inl e ↦ rw e (partial-Lacks [] t tt)
  | inr e ↦
      rw e (partial-Lacks (before ++ b ∷ []) t (Lacks-append newline before (b ∷ []) h (e, tt)))
]

-- A text without a newline may stand before a text or at its start.
pub whole_lines-Lacks :
    (before a t : Text)
    → Lacks newline a
    → whole_lines before (a ++ t) ≡ whole_lines (before ++ a) t
unfolding whole_lines
whole_lines-Lacks before [] t h = ap (λ u. whole_lines u t) (sym (append-nil before))
whole_lines-Lacks before (x ∷ a) t (n, h) = rw n (
    whole_lines-Lacks (before ++ x ∷ []) a t h
    ∙ ap (λ u. whole_lines u t) (append_assoc before (x ∷ []) a))
