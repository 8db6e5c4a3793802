-- ===== src/Claude/Tail/Once.antt =====
-- plugins/claude/tail.go: each line of a transcript that grows is folded once.
use supergraph.Common.{ℕ, ◌≡◌, false, List, [], ◌∷◌, ◌++◌, map, length}
use supergraph.Common.Bytes.{Text}
use supergraph.Claude.Tail.{foldable, Tail, scan_file}
use supergraph.Claude.Tail.Lines.{whole_lines, concat, capped}

-- The whole lines of a text that are not over the cap, newlines included.
abbrev pub kept_lines : ℕ → List Text → List Text
kept_lines cap ls = foldable (map (capped cap) ls)

-- A cursor that stands behind the whole lines of a text, which were folded.
abbrev IsAt : ℕ → Text → Tail → Type 0
IsAt cap file s =
    (s.offset ≡ length (concat (whole_lines [] file)))
    × (s.folded ≡ kept_lines cap (whole_lines [] file))

-- The scans of a file to which one text after the other is appended.
unfoldable pub scan_growing : ℕ → Text → List Text → Tail → Tail
scan_growing cap file [] s = s
scan_growing cap file (more ∷ writes) s =
    scan_growing cap (file ++ more) writes (scan_file cap false (file ++ more) s)
