-- ===== src/Claude/Reducer.antt =====
-- plugins/claude/reducer.go: the next state of a session. A state and an event are texts, as in the
-- source.
use supergraph.Common.{
  ℕ, ◌+◌, String, string_eq, Bool, true, false, ◌==◌, ◌||◌, ◌&&◌, if◌then◌else◌, codes, leb, eqb,
  map,
}
use supergraph.Common.Bytes.{has_part}

abbrev pub state_idle : String
state_idle = "idle"

abbrev pub state_working : String
state_working = "working"

abbrev pub state_input : String
state_input = "input"

abbrev pub state_ended : String
state_ended = "ended"

-- The members of `knownEvents`.
unfoldable pub known_event : String → Bool
known_event e =
    e == "SessionStart"
    || e == "UserPromptSubmit"
    || e == "PreToolUse"
    || e == "PostToolUse"
    || e == "Notification"
    || e == "Stop"
    || e == "SessionEnd"

-- The next state, whether a tool was called, and whether the session ended.
unfoldable pub fold : String → String → Bool → String × Bool × Bool
fold prev event permission_ask =
    if event == "SessionStart" || event == "Stop"
    then (state_idle, false, false)
    else if event == "UserPromptSubmit" || event == "PostToolUse"
    then (state_working, false, false)
    else if event == "PreToolUse"
    then (state_working, true, false)
    else if event == "Notification"
    then (if permission_ask then state_input else state_idle, false, false)
    else if event == "SessionEnd"
    then (state_ended, false, true)
    else (prev, false, false)

-- strings.ToLower, on the codes that the sought text can meet: the only letter beyond ASCII that
-- becomes one of it is U+0130, which becomes i.
abbrev lower : ℕ → ℕ
lower c = if leb b'A' c && leb c b'Z' then c + 32 else if eqb c 0x130 then b'i' else c

unfoldable pub is_nag : String → Bool
is_nag message = has_part (codes "waiting for your input") (map lower (codes message))
