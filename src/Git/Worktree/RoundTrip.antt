-- ===== src/Git/Worktree/RoundTrip.antt =====
-- plugins/git/worktree.go: a list of worktrees as git prints it is read back.
use supergraph.Common.{
  ℕ, ◌≡◌, refl, ap, ◌∙◌, true, false, none, some, List, [], ◌∷◌, ◌++◌, codes, bytes_eq, bytes_eqb,
  ◌==◌, All, map,
}
use supergraph.Common.Bytes.{
  Text, cut, has_code, has_code-Lacks_of, Lacks-append, after_prefix, trim_space, trim_left,
  trim_right, is_space, Lacks, keep_unless_space,
}
use supergraph.Common.Split.{trim_right_of, keep_unless}
use supergraph.Git.Worktree.{
  Worktree, new_worktree, Reader, flush, read_line, read_lines, read_key, key_and_value, in_order,
  parse_worktree_list,
}
use supergraph.Git.Worktree.Porcelain.{
  Note, locked, locked_for, prunable_for, Stanza, bare_at, on_branch, detached_at, note_line,
  notes_above, stanza_above, worktree_of, all_lines, porcelain_of, IsLine, IsPlainNote, IsPlain,
  split-porcelain_of,
}

trim_right_of-Lacks : (c : ℕ) (t : Text) → Lacks c t → trim_right_of c t ≡ t
unfolding trim_right_of
trim_right_of-Lacks c [] _ = refl
trim_right_of-Lacks c (x ∷ t) (h, hs) = rw (trim_right_of-Lacks c t hs) (kept t)
  where
    kept : (u : Text) → keep_unless c x u ≡ x ∷ u
    kept [] = rw h refl
    kept (y ∷ u) = refl

solid_head : (x : ℕ) (t : Text) → is_space x ≡ false → (trim_space (x ∷ t) == []) ≡ false
unfolding trim_space trim_left trim_right bytes_eqb
solid_head x t h = rw h (kept (trim_right t))
  where
    kept : (u : Text) → (keep_unless_space x u == []) ≡ false
    kept [] = rw h refl
    kept (y ∷ u) = refl

-- A line that begins with a letter is read by its key.
read_line_key :
    (x : ℕ) (t : Text) (r : Reader)
    → is_space x ≡ false
    → Lacks b'\r' (x ∷ t)
    → read_line (x ∷ t) r ≡ read_key (key_and_value (x ∷ t) (cut b' ' (x ∷ t))) r
unfolding read_line
read_line_key x t r h l = rw (trim_right_of-Lacks b'\r' (x ∷ t) l, solid_head x t h) refl

-- The lines of a stanza, each read behind the one above it.
read_path :
    (path : Text) (out : List Worktree)
    → IsLine path
    → read_line (codes "worktree " ++ path) (out, none) ≡ (out, some (new_worktree path))
unfolding read_key cut is_space bytes_eqb has_code
read_path path out (_, h) =
    read_line_key b'w' (codes "orktree " ++ path) (out, none) refl
      (Lacks-append b'\r' (codes "worktree ") path
        (has_code-Lacks_of b'\r' (codes "worktree ") refl) h)

read_head :
    (head : Text) (out : List Worktree) (w : Worktree)
    → IsLine head
    → read_line (codes "HEAD " ++ head) (out, some w) ≡ (out, some (record w { head = head }))
unfolding read_key cut is_space bytes_eqb has_code
read_head head out w (_, h) =
    read_line_key b'H' (codes "EAD " ++ head) (out, some w) refl
      (Lacks-append b'\r' (codes "HEAD ") head (has_code-Lacks_of b'\r' (codes "HEAD ") refl) h)

read_branch :
    (branch : Text) (out : List Worktree) (w : Worktree)
    → IsLine branch
    → read_line (codes "branch refs/heads/" ++ branch) (out, some w)
      ≡ (out, some (record w { branch = branch }))
unfolding read_key cut is_space bytes_eqb has_code after_prefix
read_branch branch out w (_, h) =
    read_line_key b'b' (codes "ranch refs/heads/" ++ branch) (out, some w) refl
      (Lacks-append b'\r' (codes "branch refs/heads/") branch
        (has_code-Lacks_of b'\r' (codes "branch refs/heads/") refl) h)

read_empty : (r : Reader) → read_line [] r ≡ flush r
unfolding read_line trim_space trim_left trim_right trim_right_of bytes_eqb
read_empty r = refl

read_flag_detached :
    (out : List Worktree) (w : Worktree)
    → read_line (codes "detached") (out, some w) ≡ (out, some (record w { detached = true }))
unfolding read_key cut is_space bytes_eqb has_code
read_flag_detached out w =
    read_line_key b'd' (codes "etached") (out, some w) refl
      (has_code-Lacks_of b'\r' (codes "detached") refl)

read_flag_bare :
    (out : List Worktree) (w : Worktree)
    → read_line (codes "bare") (out, some w) ≡ (out, some (record w { bare = true }))
unfolding read_key cut is_space bytes_eqb has_code
read_flag_bare out w =
    read_line_key b'b' (codes "are") (out, some w) refl
      (has_code-Lacks_of b'\r' (codes "bare") refl)

read_note : (n : Note) (r : Reader) → IsPlainNote n → read_line (note_line n) r ≡ r
unfolding read_key cut is_space bytes_eqb has_code
read_note locked r _ =
    read_line_key b'l' (codes "ocked") r refl (has_code-Lacks_of b'\r' (codes "locked") refl)
read_note (locked_for reason) r (_, h) =
    read_line_key b'l' (codes "ocked " ++ reason) r refl (
      Lacks-append b'\r' (codes "locked ") reason (has_code-Lacks_of b'\r' (codes "locked ") refl)
        h)
read_note (prunable_for reason) r (_, h) = read_line_key b'p' (codes "runable " ++ reason) r refl (
    Lacks-append b'\r' (codes "prunable ") reason (has_code-Lacks_of b'\r' (codes "prunable ") refl)
      h)

-- The notes are passed over, and the stanza ends.
read_notes :
    (ns : List Note) (ls : List Text) (out : List Worktree) (w : Worktree)
    → All IsPlainNote ns
    → read_lines (notes_above ns ls) (out, some w) ≡ read_lines ls (w ∷ out, none)
unfolding read_lines
read_notes [] ls out w _ = ap (read_lines ls) (read_empty (out, some w))
read_notes (n ∷ ns) ls out w (h, hs) =
    ap (read_lines (notes_above ns ls)) (read_note n (out, some w) h) ∙ read_notes ns ls out w hs

read_stanza :
    (s : Stanza) (ls : List Text) (out : List Worktree)
    → IsPlain s
    → read_lines (stanza_above s ls) (out, none) ≡ read_lines ls (worktree_of s ∷ out, none)
unfolding read_lines IsPlain
read_stanza (bare_at path notes) ls out (h, hs) =
    ap (read_lines (codes "bare" ∷ notes_above notes ls)) (read_path path out h)
    ∙ ap (read_lines (notes_above notes ls)) (read_flag_bare out (new_worktree path))
    ∙ read_notes notes ls out (worktree_of (bare_at path notes)) hs
read_stanza (on_branch path head branch notes) ls out (hp, hh, hb, hs) =
    let with_head = record (new_worktree path) { head = head } in
    ap
      (read_lines
        ((codes "HEAD " ++ head) ∷ (codes "branch refs/heads/" ++ branch) ∷ notes_above notes ls))
      (read_path path out hp)
    ∙ ap (read_lines ((codes "branch refs/heads/" ++ branch) ∷ notes_above notes ls))
        (read_head head out (new_worktree path) hh)
    ∙ ap (read_lines (notes_above notes ls)) (read_branch branch out with_head hb)
    ∙ read_notes notes ls out (worktree_of (on_branch path head branch notes)) hs
read_stanza (detached_at path head notes) ls out (hp, hh, hs) =
    let with_head = record (new_worktree path) { head = head } in
    ap (read_lines ((codes "HEAD " ++ head) ∷ codes "detached" ∷ notes_above notes ls))
      (read_path path out hp)
    ∙ ap (read_lines (codes "detached" ∷ notes_above notes ls))
        (read_head head out (new_worktree path) hh)
    ∙ ap (read_lines (notes_above notes ls)) (read_flag_detached out with_head)
    ∙ read_notes notes ls out (worktree_of (detached_at path head notes)) hs

read_end : (out : List Worktree) → read_lines ([] ∷ []) (out, none) ≡ (out, none)
unfolding read_lines
read_end out = read_empty (out, none)

stanzas_read :
    (ss : List Stanza) (out : List Worktree)
    → All IsPlain ss
    → in_order (flush (read_lines (all_lines ss) (out, none))).0 []
      ≡ in_order out (map worktree_of ss)
unfolding all_lines in_order
stanzas_read [] out _ = rw (read_end out) refl
stanzas_read (s ∷ ss) out (h, hs) =
    rw (read_stanza s (all_lines ss) out h) (stanzas_read ss (worktree_of s ∷ out) hs)

-- A list of worktrees as git prints it, bare ones, ones on a branch and detached ones, each with any
-- `locked` and `prunable` lines, is read as those worktrees, in its order and without those lines, where
-- no path, head, branch or reason has a newline or a carriage return.
pub parse_worktree_list-porcelain_of :
    (ss : List Stanza) → All IsPlain ss → parse_worktree_list (porcelain_of ss) ≡ map worktree_of ss
unfolding parse_worktree_list in_order
parse_worktree_list-porcelain_of ss h = rw (split-porcelain_of ss h) (stanzas_read ss [] h)
