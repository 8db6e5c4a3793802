-- ===== src/Claude/Tail.antt =====
-- plugins/claude/tail.go: the scan of one transcript. Its cursor is kept as its number.
pub mod Lines
pub mod Once
use supergraph.Common.{
  ℕ, zero, suc, ◌+◌, ◌≡◌, Bool, true, false, Option, none, some, List, [], ◌∷◌, ◌++◌, if◌then◌else◌,
  eqb, leb, length, drop,
}
use supergraph.Common.Bytes.{Text}

abbrev pub newline : ℕ
newline = 10

-- The buffer of a line, or nothing once it is over the cap.
abbrev pub buffered : ℕ → Option Text → ℕ → Option Text
buffered cap none b = none
buffered cap (some line) b = if leb cap (length line) then none else some (line ++ b ∷ [])

-- A line that was read to its end, the number of its bytes, and what follows it.
pub record Line : Type 0 where
  pub line : Option Text
  pub consumed : ℕ
  pub rest : Text

unfoldable pub read_line : ℕ → Option Text → ℕ → Text → Option Line
read_line cap line consumed [] = none
read_line cap line consumed (b ∷ t) =
    let more = read_line cap (buffered cap line b) (suc consumed) t in
    if eqb b newline
    then some (record { line = buffered cap line b; consumed = suc consumed; rest = t })
    else more

abbrev pub cons_line : Line → (Text → List (Option Text) × ℕ) → List (Option Text) × ℕ
cons_line l more = (l.line ∷ (more l.rest).0, l.consumed + (more l.rest).1)

abbrev pub then_lines : Option Line → (Text → List (Option Text) × ℕ) → List (Option Text) × ℕ
then_lines none more = ([], 0)
then_lines (some l) more = cons_line l more

-- The loop of a scan: the lines, and the number of their bytes. A line is not empty, so the fuel of one
-- more than the bytes is enough.
unfoldable pub read_lines : ℕ → ℕ → Text → List (Option Text) × ℕ
read_lines cap zero t = ([], 0)
read_lines cap (suc fuel) t = then_lines (read_line cap (some []) 0 t) (read_lines cap fuel)

-- The lines that are handed to foldLine, which are those that are not over the cap.
unfoldable pub foldable : List (Option Text) → List Text
foldable [] = []
foldable (none ∷ ls) = foldable ls
foldable (some l ∷ ls) = l ∷ foldable ls

-- `folded` holds what was handed to foldLine, in its order.
pub record Tail : Type 0 where
  pub offset : ℕ
  pub folded : List Text

abbrev pub scanned : Bool → Tail → List (Option Text) × ℕ → Tail
scanned set_cursor_fails s (lines, consumed) = record {
  offset = if set_cursor_fails then s.offset else s.offset + consumed;
  folded = s.folded ++ foldable lines;
}

-- A scan of a file that can be opened; `drop` is the seek. Nothing is consumed where the cursor is not written.
unfoldable pub scan_file : ℕ → Bool → Text → Tail → Tail
scan_file cap set_cursor_fails file s =
    if leb (length file) s.offset
    then s
    else scanned set_cursor_fails s
        (read_lines cap (suc (length (drop s.offset file))) (drop s.offset file))
