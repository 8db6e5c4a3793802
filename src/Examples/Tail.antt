-- ===== src/Examples/Tail.antt =====
-- Examples for plugins/claude/tail.go.
use supergraph.Common.{[], ◌∷◌, codes, List}
use supergraph.Common.Bytes.{Text}

-- A line that a scan meets in its middle, and one that is over the cap.
abbrev writes : List Text
writes = codes "ab\nc" ∷ codes "d\nlonger\n" ∷ codes "e" ∷ []
