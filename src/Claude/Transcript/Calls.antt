-- ===== src/Claude/Transcript/Calls.antt =====
-- The tool calls that a line counts.
use supergraph.Common.{
  ℕ, suc, ◌≡◌, refl, String, string_eq, Bool, true, false, some, List, [], ◌∷◌, ◌++◌, Option, ap,
  ◌==◌, Bool-cases, inl, inr, if◌then◌else◌, Fault, fails_at,
}
use supergraph.Claude.Redact.{FoldInput}
use supergraph.Claude.Rows.{Tables, Outcome, ok, failed}
use supergraph.Claude.Store.{apply_fold, apply_enrichment, has_key, key_of}
use supergraph.Claude.Store.Retry.{apply_fold-recorded}
use supergraph.Claude.Hook.{Envelope}
use supergraph.Claude.Hook.Answers.{stamped-own}
use supergraph.Claude.Transcript.{
  Block, TranscriptRecord, tool_fold, tool_folds, record_enrichment, after_fold, fold_one, fold_all,
  fold_line, after_enrichment,
}

-- The first block of a list that is a tool call.
unfoldable pub first_tool : List Block → List Block
first_tool [] = []
first_tool (b ∷ bs) = let rest = first_tool bs in if b.type == "tool_use" then b ∷ [] else rest

after_fold-seen :
    (fault : Fault) (fi : FoldInput) (host : String) (now : ℕ) (s : Tables)
    → has_key (key_of fi) s.folds ≡ true
    → after_fold fault host fi (apply_fold fault fi host now s) ≡ (s, [])
unfolding apply_fold
after_fold-seen fault fi host now s h = elim (Bool-cases (fails_at 0 fault)) [
  | inl p ↦ rw p refl
  | inr p ↦ rw (p, h) refl
]

-- Once one call of a record is on record, its other calls do nothing.
fold_all-seen :
    (faults : ℕ → Fault) (format : ℕ → String) (host : String) (now call : ℕ) (r : TranscriptRecord)
    (b : Block) (bs : List Block) (s : Tables)
    → (r.timestamp == "") ≡ false
    → has_key (key_of (tool_fold r b)) s.folds ≡ true
    → fold_all faults format host now call (tool_folds r bs) s ≡ (s, [])
unfolding fold_all tool_folds fold_one
fold_all-seen faults format host now call r b [] s own h = refl
fold_all-seen faults format host now call r b (c ∷ cs) s own h =
    elim (Bool-cases (c.type == "tool_use")) [
      | inr p ↦ rw p (fold_all-seen faults format host now call r b cs s own h)
      | inl p ↦
          rw
            (
              p,
              stamped-own (format now) (tool_fold r c) own,
              after_fold-seen (faults call) (tool_fold r c) host now s h,
            )
            (fold_all-seen faults format host now (suc call) r b cs s own h)
    ]

tables-after_fold :
    (fault : Fault) (fi : FoldInput) (host : String) (r : Tables × Outcome Bool)
    → (after_fold fault host fi r).0 ≡ r.0
tables-after_fold fault fi host (t, failed) = refl
tables-after_fold fault fi host (t, ok b) = refl

fold_one-recorded :
    (fault : Fault) (format : ℕ → String) (host : String) (now : ℕ) (fi : FoldInput) (s : Tables)
    → (fi.ts == "") ≡ false
    → fails_at 0 fault ≡ false
    → has_key (key_of fi) (fold_one fault format host now fi s).0.folds ≡ true
unfolding fold_one
fold_one-recorded fault format host now fi s own h =
    rw
      (
        stamped-own (format now) fi own,
        tables-after_fold fault fi host (apply_fold fault fi host now s),
      )
      (apply_fold-recorded fault fi host now s h)

fold_all-first_tool :
    (faults : ℕ → Fault) (format : ℕ → String) (host : String) (now call : ℕ) (r : TranscriptRecord)
    (bs : List Block) (s : Tables)
    → (r.timestamp == "") ≡ false
    → fails_at 0 (faults call) ≡ false
    → fold_all faults format host now call (tool_folds r bs) s
      ≡ fold_all faults format host now call (tool_folds r (first_tool bs)) s
unfolding fold_all tool_folds first_tool
fold_all-first_tool faults format host now call r [] s own h = refl
fold_all-first_tool faults format host now call r (c ∷ cs) s own h =
    elim (Bool-cases (c.type == "tool_use")) [
      | inr p ↦ rw p (fold_all-first_tool faults format host now call r cs s own h)
      | inl p ↦
          let one = fold_one (faults call) format host now (tool_fold r c) s in
          rw
            (
              p,
              fold_all-seen faults format host now (suc call) r c cs one.0 own
                  (fold_one-recorded (faults call) format host now (tool_fold r c) s own h),
            )
            (rw p refl)
    ]

tool_folds-blocks :
    (r : TranscriptRecord) (o : Option (List Block)) (bs : List Block)
    → tool_folds (record r { blocks = o }) bs ≡ tool_folds r bs
unfolding tool_folds record_enrichment
tool_folds-blocks r o [] = refl
tool_folds-blocks r o (b ∷ bs) = rw (tool_folds-blocks r o bs) refl

-- A line whose record has a time of its own, where the driver does not fail at the first statement of
-- its first fold: whatever else fails, the line has the effect and the events of the same record
-- with no tool call but its first.
pub fold_line-first_tool :
    (faults : ℕ → Fault) (format : ℕ → String) (host : String) (now : ℕ) (r : TranscriptRecord)
    (bs : List Block) (s : Tables)
    → (r.timestamp == "") ≡ false
    → fails_at 0 (faults 1) ≡ false
    → fold_line faults format host now (some (record r { blocks = some bs })) s
      ≡ fold_line faults format host now (some (record r { blocks = some (first_tool bs) })) s
unfolding fold_line record_enrichment
fold_line-first_tool faults format host now r bs s own h =
    let start =
      after_enrichment (faults 0) host r.session_id
        (apply_enrichment (faults 0) r.session_id host (record_enrichment r) now s) in
    rw
      (tool_folds-blocks r (some bs) bs, tool_folds-blocks r (some (first_tool bs)) (first_tool bs))
      (ap
        (λ (more : Tables × List Envelope).
          if r.session_id == "" then (s, []) else (more.0, start.1 ++ more.1))
        (fold_all-first_tool faults format host now 1 r bs start.0 own h))
