-- ===== src/Claude/Redact/Privacy.antt =====
-- plugins/claude/redact.go: what of a notification's message is left behind the projection.
use supergraph.Common.{◌≡◌, refl, String, string_eq, false, if◌then◌else◌, arith}
use supergraph.Claude.Reducer.{is_nag, fold, state_idle, state_input}
use supergraph.Claude.Redact.{HookPayload, project_hook}

-- Two payloads that differ in their message alone are projected to the same input where both
-- messages, or neither, are a nag.
pub project_hook_forgets :
    (p : HookPayload) (message : String)
    → is_nag message ≡ is_nag p.message
    → project_hook (record p { message = message }) ≡ project_hook p
unfolding project_hook
project_hook_forgets p message h = rw h refl

-- A notification that is a nag makes the session idle and any other makes it wait for input, and
-- neither is a tool call or an end.
notification_folds :
    (prev : String) (p : HookPayload)
    → p.event ≡ "Notification"
    → fold prev (project_hook p).event (project_hook p).permission_ask
      ≡ (if is_nag p.message then state_idle else state_input, false, false)
unfolding project_hook fold
notification_folds prev p h = rw h (ground arith)
