-- ===== src/Bridge/Sessions.antt =====
-- app/session_routes.py and app/session_runtime_routes.py: the other requests that change a session.
-- What Pi and the file system answer, and new ids, are arguments; the responses are not modelled.
pub mod Deletion
use pi_opensandbox_runner.Base.{
  ℕ, String, Bool, true, false, not, ◌&&◌, Option, none, some, List, [], ◌∷◌, str_eq, if◌then◌else◌,
  is_some,
}
use pi_opensandbox_runner.Bridge.Problem.{
  api_problem, Failure, Result, ok, raise, api, rpc_error, timeout_error, os_error, other, proceed,
}
use pi_opensandbox_runner.Bridge.Catalog.{
  NewSession, SessionRecord, Sessions, create, update_name, update_system_prompt, delete,
}
use pi_opensandbox_runner.Bridge.Journal.{Directory, Envelope}
use pi_opensandbox_runner.Bridge.Supervisor.{Limits, World, active, is_rpc_error, set_journal, stop}
use pi_opensandbox_runner.Bridge.Prompts.{
  Action, ◌>>=◌, pure, answer, require_session, require_allowed_model,
}

-- `assert updated is not None`, after a change of the rows
abbrev pub assert_row : (Sessions → Option SessionRecord × Sessions) → Action SessionRecord
assert_row change w =
    let (found, rows) = change w.rows in
    elim found [
      | none ↦ (raise other, record w { rows = rows })
      | some r ↦ (ok r, record w { rows = rows })
    ]

abbrev pub add_row : (Sessions → Result (SessionRecord × Sessions)) → Action SessionRecord
add_row change w = elim (change w.rows) [
  | raise e ↦ (raise e, w)
  | ok (r, rows) ↦ (ok r, record w { rows = rows })
]

abbrev pub refuse_if : Bool → ℕ → String → Action (Unit {0})
refuse_if b status code = answer (if b then raise (api (api_problem status code)) else ok tt)

-- `payload.model or default_model`
abbrev pub model_or : Option String → Option String → Option String
model_or none default_model = default_model
model_or (some model) default_model = if str_eq model "" then default_model else some model

abbrev pub require_model : Option String → Action String
require_model none = answer (raise (api (api_problem 422 "model_required")))
require_model (some model) =
    answer (if str_eq model "" then raise (api (api_problem 422 "model_required")) else ok model)

abbrev pub require_cwd : Option String → Action String
require_cwd none = answer (raise (api (api_problem 422 "invalid_cwd")))
require_cwd (some cwd) = answer (ok cwd)

-- `create_session`; `cwd` is the resolved directory, or none where the path is not absolute or cannot be
-- made.
unfoldable pub create_session :
    List String
    → Option String
    → ℕ
    → Option String
    → Option String
    → NewSession
    → ℕ
    → Action SessionRecord
create_session allowed default_model id model cwd item now = do
  chosen ← require_model (model_or model default_model)
  _ ← require_allowed_model allowed chosen
  directory ← require_cwd cwd
  add_row (create id (record item { model = chosen; cwd = directory }) now)

abbrev pub unavailable : Result (Unit {0}) → Result (Unit {0})
unavailable (ok a) = ok a
unavailable (raise timeout_error) = raise (api (api_problem 503 "pi_unavailable"))
unavailable (raise e) =
    if is_rpc_error e then raise (api (api_problem 503 "pi_unavailable")) else raise e

-- A request to the process of a session, where it has one.
unfoldable pub ask_if_active : ℕ → Result (Unit {0}) → Action (Unit {0})
ask_if_active id reply w = elim (active id w.processes) [
  | none ↦ (ok tt, w)
  | some p ↦ (unavailable reply, w)
]

-- `patch_session`
unfoldable pub patch_session : ℕ → String → Result (Unit {0}) → ℕ → Action SessionRecord
patch_session id name reply now = do
  _ ← require_session id
  _ ← ask_if_active id reply
  assert_row (update_name id name now)

unfoldable pub refuse_streaming : ℕ → Action (Unit {0})
refuse_streaming id w = elim (active id w.processes) [
  | none ↦ (ok tt, w)
  | some p ↦ refuse_if p.is_streaming 409 "session_streaming" w
]

-- `update_system_prompt`
unfoldable pub change_system_prompt : ℕ → Option String → String → ℕ → Action SessionRecord
change_system_prompt id text mode now = do
  _ ← require_session id
  _ ← refuse_streaming id
  assert_row (update_system_prompt id text mode now)

-- `clear_system_prompt`
unfoldable pub clear_system_prompt : ℕ → ℕ → Action SessionRecord
clear_system_prompt id now = change_system_prompt id none "append" now

-- `abort`
unfoldable pub abort : ℕ → Result (Unit {0}) → Action (Unit {0})
abort id reply = do
  _ ← require_session id
  λ w. elim (active id w.processes) [
    | none ↦ (raise (api (api_problem 409 "session_stopped")), w)
    | some p ↦ (unavailable reply, w)
  ]

abbrev pub is_active : ℕ → World → Bool
is_active id w = is_some (active id w.processes)

abbrev pub failed_deletion : Result (Unit {0}) → Result (Unit {0})
failed_deletion (raise os_error) = raise (api (api_problem 500 "session_delete_failed"))
failed_deletion r = r

-- `journal.delete`; `left` is what `rmtree`, which ignores errors, leaves of a directory.
abbrev pub delete_journal : (Directory → Directory) → ℕ → Action (Unit {0})
delete_journal left id w =
    (ok tt, record w { journals = set_journal id (left (w.journals id)) w.journals })

-- What is left to do when the process is not active.
unfoldable pub erase_session : (Directory → Directory) → ℕ → Result (Unit {0}) → Action (Unit {0})
erase_session left id unlinked = do
  _ ← assert_row (delete id)
  _ ← answer (failed_deletion unlinked)
  delete_journal left id

module _ (limits : Limits) (size : Envelope → ℕ) where
  -- `stop_session`
  unfoldable pub stop_session : ℕ → Result (Unit {0}) → ℕ → Action Bool
  stop_session id reply now = do _ ← require_session id; stop limits size id true reply now

  -- `delete_session`; `unlinked` is what deleting the file of the session answers. A stop
  -- of a session that is not active does nothing.
  unfoldable pub delete_session :
      (Directory → Directory)
      → ℕ
      → Bool
      → Result (Unit {0})
      → Result (Unit {0})
      → ℕ
      → Action (Unit {0})
  delete_session left id force reply unlinked now = do
    _ ← require_session id
    _ ← λ w. refuse_if (is_active id w && not force) 409 "session_active" w
    _ ← stop limits size id true reply now
    erase_session left id unlinked
