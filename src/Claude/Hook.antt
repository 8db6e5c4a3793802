-- ===== src/Claude/Hook.antt =====
-- plugins/claude/hook.go, with emitSessionUpdated of claude.go and the keys of keys.go. The reading and
-- the decoding of a body are outside: `Body` is what came of them. A clock is read once for a request,
-- and `format` prints a time. An envelope is what is handed to core's emit, less its time and source.
pub mod Answers
use supergraph.Common.{
  ℕ, ◌≡◌, String, string_eq, string_append, Bool, true, false, Option, none, some, List, [], ◌∷◌,
  ◌++◌, ◌==◌, ◌&&◌, ◌||◌, not, leb, eqb, length, codes, if◌then◌else◌, Fault, fails_at,
}
use supergraph.Common.Int.{ℤ, pos}
use supergraph.Common.Dict.{lookup}
use supergraph.Claude.Reducer.{known_event}
use supergraph.Claude.Redact.{FoldInput, HookPayload, project_hook}
use supergraph.Claude.Rows.{SessionRow, Tables, Outcome, ok, failed}
use supergraph.Claude.Store.{apply_fold}

-- io.ReadAll and json.Unmarshal: over the cap, another error of reading, not a payload, or a payload.
pub data Body : Type 0 where
  too_large : Body
  unreadable : Body
  malformed : Body
  payload : HookPayload → Body

abbrev pub status_ok : ℕ
status_ok = 200

abbrev pub bad_request : ℕ
bad_request = 400

abbrev pub entity_too_large : ℕ
entity_too_large = 413

abbrev pub internal_server_error : ℕ
internal_server_error = 500

-- [A-Za-z0-9._-]
abbrev session_char : ℕ → Bool
session_char c =
    leb b'A' c && leb c b'Z'
    || leb b'a' c && leb c b'z'
    || leb b'0' c && leb c b'9'
    || eqb c b'.'
    || eqb c b'_'
    || eqb c b'-'

unfoldable all_session_chars : List ℕ → Bool
all_session_chars [] = true
all_session_chars (c ∷ cs) = session_char c && all_session_chars cs

-- The length of the source is in bytes: of a text of these characters it is the number of characters.
unfoldable pub valid_session_id : String → Bool
unfolding all_session_chars
valid_session_id s = not (s == "") && leb (length (codes s)) 128 && all_session_chars (codes s)

abbrev pub session_key : String → String → String
session_key sid host = string_append "session:" (string_append sid (string_append "@" host))

abbrev pub instance_key : String → String → String
instance_key pane host = string_append "instance:" (string_append pane (string_append "@" host))

-- The payloads, by the type of their envelope.
pub data Payload : Type 0 where
  session_updated : String → String → String → String → ℤ → String → String → ℕ → Payload
  tool_used : String → String → Payload
  session_input : String → Payload
  session_ended : String → Payload
  instance_updated : String → String → ℤ → Payload

pub record Envelope : Type 0 where
  pub key : String
  pub payload : Payload

abbrev updated_payload : String → SessionRow → Payload
updated_payload sid r =
    session_updated sid r.state r.cwd r.git_branch r.issue_number r.model r.last_tool r.tool_calls

abbrev told : String → String → Option SessionRow → List Envelope
told host sid none = []
told host sid (some r) = record { key = session_key sid host; payload = updated_payload sid r } ∷ []

-- `get` is the fourth statement of a request.
unfoldable pub emit_session_updated : Fault → String → String → Tables → List Envelope
emit_session_updated fault host sid s =
    if fails_at 3 fault then [] else told host sid (lookup sid s.sessions)

abbrev when : Bool → Envelope → List Envelope
when b e = if b then e ∷ [] else []

unfoldable pub emit_for_fold : Fault → String → FoldInput → Tables → List Envelope
unfolding emit_session_updated
emit_for_fold fault host fi s =
    let session = session_key fi.sid host in
    emit_session_updated fault host fi.sid s
    ++ when (fi.event == "PreToolUse" && not (fi.tool == ""))
        (record { key = session; payload = tool_used fi.sid fi.tool })
    ++ when fi.permission_ask (record { key = session; payload = session_input fi.sid })
    ++ when (fi.event == "SessionEnd") (record { key = session; payload = session_ended fi.sid })
    ++ when (not (fi.pane == "")) (record {
      key = instance_key fi.pane host;
      payload = instance_updated fi.sid fi.pane fi.pid;
    })

pub record Answer : Type 0 where
  pub tables : Tables
  pub status : ℕ
  pub emitted : List Envelope

abbrev pub refused : Tables → ℕ → Answer
refused s status = record { tables = s; status = status; emitted = [] }

abbrev pub stamped : String → FoldInput → FoldInput
stamped now fi = record fi { ts = if fi.ts == "" then now else fi.ts }

abbrev pub folded : Fault → String → FoldInput → Tables × Outcome Bool → Answer
folded fault host fi (t, failed) = refused t internal_server_error
folded fault host fi (t, ok applied) = record {
  tables = t;
  status = status_ok;
  emitted = if applied then emit_for_fold fault host fi t else [];
}

-- readErrStatus, for the two errors of reading, and the handler.
unfoldable pub handle_hook : Fault → (ℕ → String) → String → ℕ → Body → Tables → Answer
handle_hook fault format host now too_large s = refused s entity_too_large
handle_hook fault format host now unreadable s = refused s bad_request
handle_hook fault format host now malformed s = refused s bad_request
handle_hook fault format host now (payload p) s =
    if not (valid_session_id p.session_id) || not (known_event p.event)
    then refused s bad_request
    else let fi = stamped (format now) (project_hook p) in
      folded fault host fi (apply_fold fault fi host now s)
