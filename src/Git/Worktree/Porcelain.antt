-- ===== src/Git/Worktree/Porcelain.antt =====
-- What `git worktree list --porcelain` prints, beside plugins/git/worktree.go which reads it.
use supergraph.Common.{◌≡◌, refl, sym, true, false, List, [], ◌∷◌, ◌++◌, codes, bytes_eq, All, ◌≢◌}
use mathlib.Core.List.{nil≢cons}
use supergraph.Common.Bytes.{Text, has_code, has_code-Lacks_of, Lacks-append, Lacks}
use supergraph.Common.Split.{split, split-join, join}
use supergraph.Git.Worktree.{Worktree}

-- A line that git puts at the end of a stanza, and that the plugin does not read.
pub data Note : Type 0 where
  locked : Note
  locked_for : Text → Note
  prunable_for : Text → Note

-- A stanza of `git worktree list --porcelain`.
pub data Stanza : Type 0 where
  bare_at : Text → List Note → Stanza
  on_branch : Text → Text → Text → List Note → Stanza
  detached_at : Text → Text → List Note → Stanza

abbrev pub note_line : Note → Text
note_line locked = codes "locked"
note_line (locked_for reason) = codes "locked " ++ reason
note_line (prunable_for reason) = codes "prunable " ++ reason

-- The notes of a stanza, and the empty line that ends it, above some lines.
abbrev pub notes_above : List Note → List Text → List Text
notes_above [] ls = [] ∷ ls
notes_above (n ∷ ns) ls = note_line n ∷ notes_above ns ls

abbrev pub stanza_above : Stanza → List Text → List Text
stanza_above (bare_at path notes) ls =
    (codes "worktree " ++ path) ∷ codes "bare" ∷ notes_above notes ls
stanza_above (on_branch path head branch notes) ls =
    (codes "worktree " ++ path)
    ∷ (codes "HEAD " ++ head)
    ∷ (codes "branch refs/heads/" ++ branch)
    ∷ notes_above notes ls
stanza_above (detached_at path head notes) ls =
    (codes "worktree " ++ path) ∷ (codes "HEAD " ++ head) ∷ codes "detached" ∷ notes_above notes ls

abbrev pub worktree_of : Stanza → Worktree
worktree_of (bare_at path notes) = record {
  path = path;
  branch = [];
  head = [];
  detached = false;
  bare = true;
}
worktree_of (on_branch path head branch notes) = record {
  path = path;
  branch = branch;
  head = head;
  detached = false;
  bare = false;
}
worktree_of (detached_at path head notes) = record {
  path = path;
  branch = [];
  head = head;
  detached = true;
  bare = false;
}

-- Every line ends in a newline, and an empty line ends a stanza.
unfoldable pub all_lines : List Stanza → List Text
all_lines [] = [] ∷ []
all_lines (s ∷ ss) = stanza_above s (all_lines ss)

abbrev pub porcelain_of : List Stanza → Text
porcelain_of ss = join b'\n' (all_lines ss)

-- A text of one line.
abbrev pub IsLine : Text → Type 0
IsLine t = Lacks b'\n' t × Lacks b'\r' t

abbrev pub IsPlainNote : Note → Type 0
IsPlainNote locked = Unit
IsPlainNote (locked_for reason) = IsLine reason
IsPlainNote (prunable_for reason) = IsLine reason

unfoldable pub IsPlain : Stanza → Type 0
IsPlain (bare_at path notes) = IsLine path × All IsPlainNote notes
IsPlain (on_branch path head branch notes) =
    IsLine path × IsLine head × IsLine branch × All IsPlainNote notes
IsPlain (detached_at path head notes) = IsLine path × IsLine head × All IsPlainNote notes

line-Lacks : (kw t : Text) → has_code b'\n' kw ≡ false → IsLine t → Lacks b'\n' (kw ++ t)
line-Lacks kw t h (l, _) = Lacks-append b'\n' kw t (has_code-Lacks_of b'\n' kw h) l

note-Lacks : (n : Note) → IsPlainNote n → Lacks b'\n' (note_line n)
unfolding has_code
note-Lacks locked _ = has_code-Lacks_of b'\n' (codes "locked") refl
note-Lacks (locked_for reason) h = line-Lacks (codes "locked ") reason refl h
note-Lacks (prunable_for reason) h = line-Lacks (codes "prunable ") reason refl h

notes-Lacks :
    (ns : List Note) (ls : List Text)
    → All IsPlainNote ns
    → All (Lacks b'\n') ls
    → All (Lacks b'\n') (notes_above ns ls)
notes-Lacks [] ls _ k = (tt, k)
notes-Lacks (n ∷ ns) ls (h, hs) k = (note-Lacks n h, notes-Lacks ns ls hs k)

all_lines-Lacks : (ss : List Stanza) → All IsPlain ss → All (Lacks b'\n') (all_lines ss)
unfolding all_lines IsPlain has_code
all_lines-Lacks [] _ = (tt, tt)
all_lines-Lacks (bare_at path notes ∷ ss) ((h, hn), hs) = (
  line-Lacks (codes "worktree ") path refl h,
  (
    has_code-Lacks_of b'\n' (codes "bare") refl,
    notes-Lacks notes (all_lines ss) hn (all_lines-Lacks ss hs),
  ),
)
all_lines-Lacks (on_branch path head branch notes ∷ ss) ((hp, hh, hb, hn), hs) = (
  line-Lacks (codes "worktree ") path refl hp,
  (
    line-Lacks (codes "HEAD ") head refl hh,
    (
      line-Lacks (codes "branch refs/heads/") branch refl hb,
      notes-Lacks notes (all_lines ss) hn (all_lines-Lacks ss hs),
    ),
  ),
)
all_lines-Lacks (detached_at path head notes ∷ ss) ((hp, hh, hn), hs) = (
  line-Lacks (codes "worktree ") path refl hp,
  (
    line-Lacks (codes "HEAD ") head refl hh,
    (
      has_code-Lacks_of b'\n' (codes "detached") refl,
      notes-Lacks notes (all_lines ss) hn (all_lines-Lacks ss hs),
    ),
  ),
)

nonempty : (ss : List Stanza) → all_lines ss ≢ []
unfolding all_lines
nonempty [] e = nil≢cons (sym e)
nonempty (bare_at path notes ∷ ss) e = nil≢cons (sym e)
nonempty (on_branch path head branch notes ∷ ss) e = nil≢cons (sym e)
nonempty (detached_at path head notes ∷ ss) e = nil≢cons (sym e)

pub split-porcelain_of :
    (ss : List Stanza) → All IsPlain ss → split b'\n' (porcelain_of ss) ≡ all_lines ss
split-porcelain_of ss h = go (all_lines ss) (nonempty ss) (all_lines-Lacks ss h)
  where
    go : (ls : List Text) → ls ≢ [] → All (Lacks b'\n') ls → split b'\n' (join b'\n' ls) ≡ ls
    go [] e _ = absurd (e refl)
    go (l ∷ ls) _ h = split-join b'\n' l ls h
