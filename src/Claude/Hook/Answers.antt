-- ===== src/Claude/Hook/Answers.antt =====
-- What the hook handler answers.
use supergraph.Common.{
  ℕ, ◌≡◌, refl, String, string_eq, Bool, true, false, none, [], arith, ◌==◌, Bool-cases, inl, inr,
  Fault, fails_at,
}
use supergraph.Claude.Reducer.{known_event}
use supergraph.Claude.Redact.{FoldInput, HookPayload, project_hook}
use supergraph.Claude.Rows.{Tables, Outcome, ok, failed}
use supergraph.Claude.Store.{apply_fold, has_key, key_of}
use supergraph.Claude.Store.Retry.{apply_fold-recorded, apply_fold_again}
use supergraph.Claude.Hook.{
  Body, too_large, unreadable, malformed, payload, Answer, status_ok, handle_hook, folded, refused,
  stamped, valid_session_id,
}

-- A known event of a well-formed session, whose fold is in the table.
abbrev pub IsOnRecord : String → Body → Tables → Type 0
IsOnRecord now body t =
    (p : HookPayload) × (body ≡ payload p)
    × (valid_session_id p.session_id ≡ true)
    × (known_event p.event ≡ true)
    × (has_key (key_of (stamped now (project_hook p))) t.folds ≡ true)

fails-apply_fold :
    (fault : Fault) (fi : FoldInput) (host : String) (now : ℕ) (s : Tables) (b : Bool)
    → (apply_fold fault fi host now s).1 ≡ ok b
    → fails_at 0 fault ≡ false
unfolding apply_fold
fails-apply_fold fault fi host now s b h = ground (arith, h)

apply_fold-failed :
    (fault : Fault) (fi : FoldInput) (host : String) (now : ℕ) (s : Tables)
    → (apply_fold fault fi host now s).1 ≡ failed
    → (apply_fold fault fi host now s).0.sessions ≡ s.sessions
unfolding apply_fold
apply_fold-failed fault fi host now s h = ground (arith, h)

abbrev Answers : String → Body → Tables → Answer → Type 0
Answers now body s r =
    (r.status ≡ status_ok → IsOnRecord now body r.tables)
    × (¬ (r.status ≡ status_ok) → (r.emitted ≡ []) × (r.tables.sessions ≡ s.sessions))

-- An answer that is not 200, whose sessions are the old ones.
refused-Answers :
    (now : String) (body : Body) (s t : Tables) (status : ℕ)
    → ¬ (status ≡ status_ok)
    → t.sessions ≡ s.sessions
    → Answers now body s (refused t status)
refused-Answers now body s t status n e = (λ p. elim (n p) [ ], λ _. (refl, e))

folded-Answers :
    (fault : Fault) (now : String) (host : String) (s : Tables) (p : HookPayload)
    → (valid_session_id p.session_id ≡ true)
    → (known_event p.event ≡ true)
    → (r : Tables × Outcome Bool)
    → ((b : Bool) → r.1 ≡ ok b → has_key (key_of (stamped now (project_hook p))) r.0.folds ≡ true)
    → (r.1 ≡ failed → r.0.sessions ≡ s.sessions)
    → Answers now (payload p) s (folded fault host (stamped now (project_hook p)) r)
folded-Answers fault now host s p v k (t, failed) rec kept =
    refused-Answers now (payload p) s t 500 (omega arith) (kept refl)
folded-Answers fault now host s p v k (t, ok b) rec kept =
    (λ _. (p, refl, v, k, rec b refl), λ n. elim (n refl) [ ])

handle_hook-Answers :
    (fault : Fault) (format : ℕ → String) (host : String) (now : ℕ) (body : Body) (s : Tables)
    → Answers (format now) body s (handle_hook fault format host now body s)
unfolding handle_hook
handle_hook-Answers fault format host now too_large s =
    refused-Answers (format now) too_large s s 413 (omega arith) refl
handle_hook-Answers fault format host now unreadable s =
    refused-Answers (format now) unreadable s s 400 (omega arith) refl
handle_hook-Answers fault format host now malformed s =
    refused-Answers (format now) malformed s s 400 (omega arith) refl
handle_hook-Answers fault format host now (payload p) s =
    let fi = stamped (format now) (project_hook p) in
    let no : Answers (format now) (payload p) s (refused s 400) =
      refused-Answers (format now) (payload p) s s 400 (omega arith) refl in
    elim (Bool-cases (valid_session_id p.session_id)) [
      | inr v ↦ rw v no
      | inl v ↦ elim (Bool-cases (known_event p.event)) [
        | inr k ↦ rw (v, k) no
        | inl k ↦
            rw (v, k)
              (folded-Answers fault (format now) host s p v k (apply_fold fault fi host now s)
                (λ b e.
                  apply_fold-recorded fault fi host now s
                    (fails-apply_fold fault fi host now s b e))
                (apply_fold-failed fault fi host now s))
      ]
    ]

-- Whatever comes in and whichever statement fails, an answer of 200 says that the body was a known event
-- of a well-formed session and that its fold is in the table, and with any other answer no envelope
-- was emitted and the sessions are as they were.
pub handle_hook-answers :
    (fault : Fault) (format : ℕ → String) (host : String) (now : ℕ) (body : Body) (s : Tables)
    → let r = handle_hook fault format host now body s in
      (r.status ≡ status_ok → IsOnRecord (format now) body r.tables)
      × (¬ (r.status ≡ status_ok) → (r.emitted ≡ []) × (r.tables.sessions ≡ s.sessions))
handle_hook-answers = handle_hook-Answers

pub stamped-own : (now : String) (fi : FoldInput) → (fi.ts == "") ≡ false → stamped now fi ≡ fi
stamped-own now fi h = rw h refl

tables-folded :
    (fault : Fault) (host : String) (fi : FoldInput) (r : Tables × Outcome Bool)
    → (folded fault host fi r).tables ≡ r.0
tables-folded fault host fi (t, failed) = refl
tables-folded fault host fi (t, ok b) = refl

handle_hook-folded :
    (fault : Fault) (format : ℕ → String) (host : String) (now : ℕ) (p : HookPayload) (s : Tables)
    → ((project_hook p).ts == "") ≡ false
    → valid_session_id p.session_id ≡ true
    → known_event p.event ≡ true
    → handle_hook fault format host now (payload p) s
      ≡ folded fault host (project_hook p) (apply_fold fault (project_hook p) host now s)
unfolding handle_hook
handle_hook-folded fault format host now p s own v k =
    rw (v, k, stamped-own (format now) (project_hook p) own) refl

-- A payload with a time of its own, of a known event of a well-formed session, that is posted again
-- after a request whose first statement did not fail: the answer is 200, no envelope is emitted and
-- the tables stay as the first request left them.
pub handle_hook_again :
    (fault : Fault) (format : ℕ → String) (host : String) (now now' : ℕ) (p : HookPayload)
    (s : Tables)
    → (p.ts == "") ≡ false
    → valid_session_id p.session_id ≡ true
    → known_event p.event ≡ true
    → fails_at 0 fault ≡ false
    → let t = (handle_hook fault format host now (payload p) s).tables in
      handle_hook none format host now' (payload p) t
      ≡ record { tables = t; status = status_ok; emitted = [] }
unfolding project_hook
handle_hook_again fault format host now now' p s own v k h =
    let first = apply_fold fault (project_hook p) host now s in
    rw
      (
        handle_hook-folded fault format host now p s own v k,
        tables-folded fault host (project_hook p) first,
        handle_hook-folded none format host now' p first.0 own v k,
        apply_fold_again fault (project_hook p) host host now now' s h,
      )
      refl
