-- ===== src/Manager/Turns.antt =====
-- app/turn_routes.py and the handlers of app/session_routes.py that change state. The answer of the
-- bridge to the one call that a handler makes is an argument: what it returned or raised.
mod Reached
pub mod Submit
pub mod Cancel
pub mod Race
use pi_opensandbox_runner.Base.{
  ℕ, String, Bool, true, false, not, ◌&&◌, Option, none, some, List, [], ◌∷◌, ◌++◌, str_eq, ◌==◌,
  if◌then◌else◌, is_some,
}
use pi_opensandbox_runner.Base.Table.{find, get, modify, remove}
use pi_opensandbox_runner.Manager.Problem.{
  UpstreamProblem, as_manager_problem, Failure, upstream, problem, exception, Result, ok, raise,
  manager_problem, retryable_problem, ManagerProblem, is_retryable, proceed, ◌>>=◌,
}
use pi_opensandbox_runner.Manager.Crypto.{CredentialCipher}
use pi_opensandbox_runner.Manager.Models.{
  SessionState, TurnStatus, SessionBinding, TurnBinding, Db, session_id, turn_id,
}
use pi_opensandbox_runner.Manager.Load.{given}
use pi_opensandbox_runner.Manager.Api.{
  Principal, BridgeConnection, SessionEnsure, require, owned_session, session_connection,
  prepare_session,
}

abbrev pub turn_of : ℕ → String → TurnBinding → Bool
turn_of s id t = (t.session_binding_id == s) && str_eq t.external_turn_id id

unfoldable pub new_turn : ℕ → ℕ → String → String → TurnBinding
new_turn new_id s id input = record {
  id = new_id;
  session_binding_id = s;
  external_turn_id = id;
  input_text = input;
  status = TurnStatus.queued;
  command_id = none;
  problem = none;
}

abbrev pub update_turn : Db → ℕ → (TurnBinding → TurnBinding) → Db
update_turn db id f = record db { turns = modify turn_id id f db.turns }

abbrev pub update_session : Db → ℕ → (SessionBinding → SessionBinding) → Db
update_session db id f = record db { sessions = modify session_id id f db.sessions }

pub data Begun : Type 0 where
  existing : TurnBinding → Begun
  started : TurnBinding → Begun

row_or_assert {ℓ} : {A : Type ℓ} → Option A → Result A
row_or_assert none = raise exception
row_or_assert (some a) = ok a

check_input : TurnBinding → String → Result Begun
check_input turn input =
    if str_eq turn.input_text input
    then ok (existing turn)
    else raise (problem (manager_problem 409 "idempotency_conflict"))

add_turn : Db → SessionBinding → TurnBinding → Result (Begun × Db)
add_turn db current turn =
    if is_some (given current.active_turn_id)
    then raise (problem (manager_problem 409 "turn_active"))
    else ok (started turn, record db { turns = db.turns ++ turn ∷ [] })

-- The first transaction of `put_turn`.
unfoldable pub begin_turn : Db → ℕ → String → String → ℕ → Result (Begun × Db)
unfolding row_or_assert check_input add_turn new_turn
begin_turn db s id input new_id = do
  current ← row_or_assert (get session_id s db.sessions)
  elim (find (turn_of current.id id) db.turns) [
    | some turn ↦ do begun ← check_input turn input; ok (begun, db)
    | none ↦ add_turn db current (new_turn new_id current.id id input)
  ]

-- The problem that a failed prompt leaves on its turn: its component is not stored.
prompt_problem : UpstreamProblem → ManagerProblem
prompt_problem p = record {
  status_code = p.status_code;
  code = p.code;
  retryable = is_retryable p;
  component = "";
}

-- The transaction of the `except` clause of `put_turn`.
unfoldable pub reject_turn : Db → ℕ → UpstreamProblem → Db
unfolding prompt_problem
reject_turn db id p =
    update_turn db id
      (λ t. record t { status = TurnStatus.failed; problem = some (prompt_problem p) })

abbrev pub run_turn : Option String → TurnBinding → TurnBinding
run_turn command t = record t { status = TurnStatus.running; command_id = command }

-- The last transaction of `put_turn`.
unfoldable pub accept_turn : Db → ℕ → ℕ → String → Option String → Result (TurnBinding × Db)
unfolding row_or_assert
accept_turn db t s id command = do
  turn ← row_or_assert (get turn_id t db.turns)
  _ ← row_or_assert (get session_id s db.sessions)
  ok (
    run_turn command turn,
    update_session (update_turn db t (run_turn command)) s
        (λ b. record b { state = SessionState.running; active_turn_id = some id }),
  )

-- What follows the first transaction: an existing turn is returned, a new one is sent.
unfoldable pub send_turn :
    Db → SessionBinding → String → Result (Option String) → Begun → Result TurnBinding × Db
unfolding accept_turn reject_turn
send_turn db binding id answer (existing turn) = (ok turn, db)
send_turn db binding id (ok command) (started turn) =
    proceed (accept_turn db turn.id binding.id id (given command)) db λ (t, db'). (ok t, db')
send_turn db binding id (raise (upstream p)) (started turn) =
    (raise (problem (as_manager_problem p)), reject_turn db turn.id p)
send_turn db binding id (raise e) (started turn) = (raise e, db)

-- The session that a turn is for. It has a runtime session.
unfoldable pub turn_session :
    Db → CredentialCipher → Principal → String → String → Result SessionBinding
turn_session db cipher caller subject_ref session = do
  _ ← require caller "sessions:write"
  (bridge, binding) ← session_connection db cipher caller subject_ref session
  if is_some (given binding.bridge_session_id)
      then ok binding
      else raise (problem (retryable_problem 409 "session_not_ready"))

unfoldable pub put_turn :
    CredentialCipher
    → Principal
    → String
    → String
    → String
    → String
    → ℕ
    → Result (Option String)
    → Db
    → Result TurnBinding × Db
unfolding turn_session send_turn begin_turn
put_turn cipher caller subject_ref session id input new_id answer db =
    proceed (turn_session db cipher caller subject_ref session) db λ binding.
      proceed (begin_turn db binding.id id input new_id) db
        λ (begun, db'). send_turn db' binding id answer begun

-- `if exc.status_code != 404: raise` and the like, on the answer to a call with no result.
unfoldable pub ignoring : ℕ → Result (Unit {0}) → Result (Unit {0})
ignoring status (ok u) = ok tt
ignoring status (raise (upstream p)) =
    if p.status_code == status then ok tt else raise (problem (as_manager_problem p))
ignoring status (raise e) = raise e

abbrev pub cancel_row : TurnBinding → TurnBinding
cancel_row t = record t { status = TurnStatus.cancelled }

abbrev pub is_text : String → Option String → Bool
is_text s none = false
is_text s (some t) = str_eq t s

-- The last transaction of `cancel_turn`.
unfoldable pub finish_cancel : Db → Principal → String → String → String → Result (TurnBinding × Db)
finish_cancel db caller subject_ref session id = do
  current ← owned_session db caller subject_ref session
  turn ← elim (find (turn_of current.id id) db.turns) [
    | none ↦ raise (problem (manager_problem 404 "turn_not_found"))
    | some turn ↦ ok turn
  ]
  let db' = update_turn db turn.id cancel_row
  ok (
    cancel_row turn,
    (if is_text id current.active_turn_id
        then update_session db' current.id
            (λ b. record b { active_turn_id = none; state = SessionState.ready })
        else db'),
  )

-- The bridge is asked to abort only if the turn is the active one of a session with a runtime.
unfoldable pub cancel_turn :
    CredentialCipher
    → Principal
    → String
    → String
    → String
    → Result (Unit {0})
    → Db
    → Result TurnBinding × Db
unfolding finish_cancel ignoring
cancel_turn cipher caller subject_ref session id answer db =
    proceed (require caller "sessions:write") db λ _.
      proceed (session_connection db cipher caller subject_ref session) db λ (bridge, binding).
        proceed
          (if is_text id binding.active_turn_id && is_some (given binding.bridge_session_id)
            then ignoring 409 answer
            else ok tt)
          db
          λ _. proceed (finish_cancel db caller subject_ref session id) db λ (t, db'). (ok t, db')
