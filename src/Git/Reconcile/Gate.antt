-- ===== src/Git/Reconcile/Gate.antt =====
-- plugins/git/reconcile.go: the digest of a worktree and the gate of its events.
use supergraph.Common.{
  ℕ, ◌≡◌, refl, ap, sym, ◌∙◌, ◌≢◌, inl, inr, Bool, true, false, Option, none, some, [], ◌∷◌, ◌++◌,
  codes, bytes_eq, bytes_eqb, ◌==◌, if◌then◌else◌, Bool-cases, beq_ne,
}
use supergraph.Common.Dict.{lookup, lookup-insert_self}
use supergraph.Common.Int.{ℤ}
use supergraph.Common.Bytes.{Text, Lacks, cut_last, cut_last-append, has_code-Lacks_of, has_code}
use supergraph.Common.Decimal.{atoi, atoi-print_int, InRange, print_int-Lacks}
use supergraph.Git.Store.{WorktreeNode}
use supergraph.Git.Reconcile.{
  Plugin, updated, ptr_str, ptr_str_branch, bool_str, worktree_hash, emit_if_changed, emit, is_hash,
}

abbrev first : Option (Text × Text) → Text
first none = []
first (some (a, b)) = a

abbrev second : Option (Text × Text) → Text
second none = []
second (some (a, b)) = b

-- A text that ends in a last field is taken apart in one way.
last_field :
    (c : ℕ) (a b a' b' : Text)
    → Lacks c b
    → Lacks c b'
    → a ++ c ∷ b ≡ a' ++ c ∷ b'
    → (a ≡ a') × (b ≡ b')
last_field c a b a' b' h h' e =
    let same = sym (cut_last-append c a b h) ∙ ap (cut_last c) e ∙ cut_last-append c a' b' h' in
    (ap first same, ap second same)

-- What the source keeps of an int.
abbrev pub IsInt : Option ℤ → Type 0
IsInt none = Unit
IsInt (some n) = InRange n

atoi-ptr_str : (n : Option ℤ) → IsInt n → atoi (ptr_str n) ≡ n
unfolding atoi
atoi-ptr_str none _ = refl
atoi-ptr_str (some n) h = atoi-print_int n h

ptr_str-Lacks : (n : Option ℤ) → Lacks b'|' (ptr_str n)
ptr_str-Lacks none = tt
ptr_str-Lacks (some n) = print_int-Lacks b'|' refl refl n

bool_str-Lacks : (b : Bool) → Lacks b'|' (bool_str b)
unfolding has_code
bool_str-Lacks true = has_code-Lacks_of b'|' (codes "true") refl
bool_str-Lacks false = has_code-Lacks_of b'|' (codes "false") refl

abbrev read_bool : Text → Bool
read_bool t = t == codes "true"

bool_str_read : (b : Bool) → read_bool (bool_str b) ≡ b
unfolding bytes_eqb
bool_str_read true = refl
bool_str_read false = refl

-- No branch is the sentinel of no branch.
abbrev pub IsBranch : Option Text → Type 0
IsBranch none = Unit
IsBranch (some b) = (b == 0 ∷ codes "nil") ≡ false

abbrev read_branch : Text → Option Text
read_branch t = if t == 0 ∷ codes "nil" then none else some t

branch_read : (b : Option Text) → IsBranch b → read_branch (ptr_str_branch b) ≡ b
unfolding bytes_eqb
branch_read none _ = refl
branch_read (some b) h = rw h refl

-- What git can report: an object name has no bar.
pub record IsReported (n : WorktreeNode) : Type 0 where
  pub head_Lacks : Lacks b'|' n.head
  pub branch_IsBranch : IsBranch n.branch
  pub ahead_IsInt : IsInt n.ahead
  pub behind_IsInt : IsInt n.behind

-- The fields that a subscriber keys on.
abbrev pub visible : WorktreeNode → Option Text × Text × Bool × Option ℤ × Option ℤ
visible n = (n.branch, n.head, n.detached, n.ahead, n.behind)

worktree_hash-visible :
    (n m : WorktreeNode)
    → IsReported n
    → IsReported m
    → worktree_hash n ≡ worktree_hash m
    → visible n ≡ visible m
unfolding worktree_hash
worktree_hash-visible n m hn hm e =
    let f1 = last_field b'|' _ _ _ _ (ptr_str-Lacks n.behind) (ptr_str-Lacks m.behind) e in
    let f2 = last_field b'|' _ _ _ _ (ptr_str-Lacks n.ahead) (ptr_str-Lacks m.ahead) f1.0 in
    let f3 = last_field b'|' _ _ _ _ (bool_str-Lacks n.detached) (bool_str-Lacks m.detached) f2.0 in
    let f4 = last_field b'|' _ _ _ _ hn.head_Lacks hm.head_Lacks f3.0 in
    let behind =
      sym (atoi-ptr_str n.behind hn.behind_IsInt)
      ∙ ap atoi f1.1
      ∙ atoi-ptr_str m.behind hm.behind_IsInt in
    let ahead =
      sym (atoi-ptr_str n.ahead hn.ahead_IsInt)
      ∙ ap atoi f2.1
      ∙ atoi-ptr_str m.ahead hm.ahead_IsInt in
    let detached = sym (bool_str_read n.detached) ∙ ap read_bool f3.1 ∙ bool_str_read m.detached in
    let branch =
      sym (branch_read n.branch hn.branch_IsBranch)
      ∙ ap read_branch f4.0
      ∙ branch_read m.branch hm.branch_IsBranch in
    cc (behind, ahead, detached, branch, f4.1)

hash_of_visible : (n m : WorktreeNode) → visible n ≡ visible m → worktree_hash n ≡ worktree_hash m
unfolding worktree_hash
hash_of_visible n m e =
    ap
      (λ v.
        ptr_str_branch v.0
        ++ b'|' ∷ v.1
        ++ b'|' ∷ bool_str v.2
        ++ b'|' ∷ ptr_str v.3
        ++ b'|' ∷ ptr_str v.4)
      e

silent :
    (n : WorktreeNode) (p : Plugin) (h : Text)
    → lookup n.key p.hashes ≡ some h
    → (h == worktree_hash n) ≡ true
    → (emit_if_changed n p).emitted ≡ p.emitted
unfolding emit_if_changed emit
silent n p h known same = rw (known, same) refl

loud :
    (n : WorktreeNode) (p : Plugin)
    → is_hash (worktree_hash n) (lookup n.key p.hashes) ≡ false
    → (emit_if_changed n p).emitted ≡ updated n ∷ p.emitted
unfolding emit_if_changed emit
loud n p h = rw h refl

hash_kept :
    (n : WorktreeNode) (p : Plugin)
    → lookup n.key (emit_if_changed n p).hashes ≡ some (worktree_hash n)
unfolding emit_if_changed emit
hash_kept n p = elim (Bool-cases (is_hash (worktree_hash n) (lookup n.key p.hashes))) [
  | inl e ↦ rw e (lookup-insert_self n.key (worktree_hash n) p.hashes)
  | inr e ↦ rw e (lookup-insert_self n.key (worktree_hash n) p.hashes)
]

-- Of a worktree whose last digest is that of m, where both are what git can report, an update is
-- emitted exactly if its branch, head, detached flag or one of its counts is not that of m; of one
-- without a digest it is emitted. In each case its digest is the one that is kept.
pub emit_if_changed_exact :
    (n m : WorktreeNode) (p : Plugin)
    → IsReported n
    → IsReported m
    → (lookup n.key p.hashes ≡ none → (emit_if_changed n p).emitted ≡ updated n ∷ p.emitted)
      × (lookup n.key p.hashes ≡ some (worktree_hash m)
          → (visible n ≡ visible m → (emit_if_changed n p).emitted ≡ p.emitted)
            × (visible n ≢ visible m → (emit_if_changed n p).emitted ≡ updated n ∷ p.emitted))
      × (lookup n.key (emit_if_changed n p).hashes ≡ some (worktree_hash n))
emit_if_changed_exact n m p hn hm = (
  (λ unknown. loud n p (ap (is_hash (worktree_hash n)) unknown)),
  (λ known. (
    (λ same. silent n p (worktree_hash m) known (
        (bytes_eq.same_iff (worktree_hash m) (worktree_hash n)).1
          (hash_of_visible m n (sym same)))),
    (λ other. loud n p (
        ap (is_hash (worktree_hash n)) known
        ∙ beq_ne (worktree_hash m) (worktree_hash n)
            (λ e. other (worktree_hash-visible n m hn hm (sym e))))),
  )),
  hash_kept n p,
)
