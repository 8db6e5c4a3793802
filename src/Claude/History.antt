-- ===== src/Claude/History.antt =====
-- The three channels and the two sweeps in any order, for plugins/claude/.
use mathlib.Core.Option
use supergraph.Common.{
  ℕ, ◌≡◌, refl, sym, ap, ◌∙◌, String, string_eq, Bool, true, false, Option, none, some, List, [],
  ◌∷◌, arith, ◌==◌, if◌then◌else◌,
}
use supergraph.Common.Int.{ℤ}
use supergraph.Common.Dict.{lookup, remove, lookup-remove}
use supergraph.Claude.Redact.{Enrichment, FoldInput, StateFile}
use supergraph.Claude.Rows.{SessionRow, FoldKey, Tables, calls_in}
use supergraph.Claude.Store.{apply_fold, apply_enrichment}
use supergraph.Claude.Store.Counters.{
  calls_of, count_calls, IsCounted, apply_fold-IsCounted, apply_enrichment-IsCounted,
}
use supergraph.Claude.StateFile.{apply_state_file}
use supergraph.Claude.StateFile.Authority.{calls-apply_state_file, folds-apply_state_file}
use supergraph.Claude.Sweep.{drop_folds, old_sids, delete_sids, prune, dead_sids, stale_scan}
use supergraph.Claude.Sweep.Exact.{lookup-mark_dead, stamp_if}

-- A call that the driver does not fail.
pub data Op : Type 0 where
  folds_in : FoldInput → String → ℕ → Op
  enriches : String → String → Enrichment → ℕ → Op
  reads_file : StateFile → String → String → ℕ → Op
  sweeps : ℕ → (ℤ → Bool) → Op
  prunes : ℕ → Op

unfoldable pub apply : Op → Tables → Tables
apply (folds_in fi host now) s = (apply_fold none fi host now s).0
apply (enriches sid host e now) s = (apply_enrichment none sid host e now s).0
apply (reads_file sf title host now) s = (apply_state_file none sf title host now s).0
apply (sweeps now alive) s = (stale_scan now alive s).0
apply (prunes cutoff) s = prune cutoff s

-- The empty tables after a history, newest call first.
unfoldable pub run : List Op → Tables
unfolding apply
run [] = record { sessions = []; folds = [] }
run (op ∷ older) = apply op (run older)

calls-stamp :
    (b : Bool) (now : ℕ) (o : Option SessionRow)
    → calls_in (Option.map (stamp_if b now) o) ≡ calls_in o
calls-stamp b now none = refl
calls-stamp true now (some r) = refl
calls-stamp false now (some r) = refl

sweep-IsCounted :
    (now : ℕ) (alive : ℤ → Bool) (s : Tables) → IsCounted s → IsCounted (stale_scan now alive s).0
unfolding stale_scan
sweep-IsCounted now alive s h = record {
  counted = λ k.
      ap calls_in (lookup-mark_dead (dead_sids alive s.sessions) now s.sessions k)
      ∙ calls-stamp _ now (lookup k s.sessions)
      ∙ h.counted k;
}

count_calls-drop_folds :
    (sid k : String) (fs : List FoldKey)
    → count_calls k (drop_folds sid fs) ≡ (if sid == k then 0 else count_calls k fs)
count_calls-drop_folds sid k [] = ground arith
count_calls-drop_folds sid k (f ∷ fs) = ground (
  arith,
  count_calls-drop_folds sid k fs,
  string_eq.same_iff f.sid sid,
  string_eq.same_iff f.sid k,
  string_eq.same_iff sid k,
)

delete-IsCounted : (sids : List String) (s : Tables) → IsCounted s → IsCounted (delete_sids sids s)
unfolding delete_sids
delete-IsCounted [] s h = h
delete-IsCounted (sid ∷ sids) s h =
    delete-IsCounted sids
      (record { sessions = remove sid s.sessions; folds = drop_folds sid s.folds })
      (record {
        counted = λ k. ground (
          arith,
          lookup-remove sid k s.sessions,
          count_calls-drop_folds sid k s.folds,
          h.counted k,
        );
      })

prune-IsCounted : (cutoff : ℕ) (s : Tables) → IsCounted s → IsCounted (prune cutoff s)
unfolding prune
prune-IsCounted cutoff s h = delete-IsCounted (old_sids cutoff s.sessions) s h

file-IsCounted :
    (sf : StateFile) (title host : String) (now : ℕ) (s : Tables)
    → IsCounted s
    → IsCounted (apply_state_file none sf title host now s).0
file-IsCounted sf title host now s h = record {
  counted = λ k.
      calls-apply_state_file sf title host now s k
      ∙ h.counted k
      ∙ ap (count_calls k) (sym (folds-apply_state_file sf title host now s));
}

apply-IsCounted : (op : Op) (s : Tables) → IsCounted s → IsCounted (apply op s)
unfolding apply
apply-IsCounted (folds_in fi host now) s h = apply_fold-IsCounted fi host now s h
apply-IsCounted (enriches sid host e now) s h = apply_enrichment-IsCounted sid host e now s h
apply-IsCounted (reads_file sf title host now) s h = file-IsCounted sf title host now s h
apply-IsCounted (sweeps now alive) s h = sweep-IsCounted now alive s h
apply-IsCounted (prunes cutoff) s h = prune-IsCounted cutoff s h

run-IsCounted : (ops : List Op) → IsCounted (run ops)
unfolding run
run-IsCounted [] = record { counted = λ sid. unfold lookup in refl }
run-IsCounted (op ∷ older) = apply-IsCounted op (run older) (run-IsCounted older)

-- After any hooks, transcript records, state files, liveness sweeps and prunes, in any order and
-- with any repetitions, none of them failed by the driver, the tool counter of every session is the
-- number of its PreToolUse rows in the folds table.
pub run-counted :
    (ops : List Op) (sid : String) → calls_of (run ops) sid ≡ count_calls sid (run ops).folds
run-counted ops sid = (run-IsCounted ops).counted sid
