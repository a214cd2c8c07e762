-- ===== src/Manager/Sessions.antt =====
-- app/session_routes.py: the handlers that change a session, and `get_turn` of app/turn_routes.py,
-- which refreshes its session first. The bridge's answers are arguments.
pub mod Refresh
use pi_opensandbox_runner.Base.{
  ℕ, String, Bool, true, false, not, ◌&&◌, ◌||◌, Option, none, some, List, [], ◌∷◌, str_eq, ◌==◌,
  if◌then◌else◌, is_some, map,
}
use pi_opensandbox_runner.Base.Table.{find, get, modify, remove}
use pi_opensandbox_runner.Manager.Problem.{
  as_manager_problem, upstream, problem, Result, ok, raise, manager_problem, proceed,
}
use pi_opensandbox_runner.Manager.Crypto.{CredentialCipher}
use pi_opensandbox_runner.Manager.Models.{
  SessionState, TurnStatus, SessionBinding, TurnBinding, TerminalBinding, Db, session_id, turn_id,
}
use pi_opensandbox_runner.Manager.Load.{given}
use pi_opensandbox_runner.Manager.Api.{
  Principal, SessionEnsure, require, owned_session, session_connection, prepare_session,
}
use pi_opensandbox_runner.Manager.Turns.{turn_of, update_turn, update_session, ignoring}

-- A session of the bridge, as its list shows it.
pub record BridgeSession : Type 0 where
  pub id : Option String
  pub cwd : Option String

abbrev has_text : String → Option String → Bool
has_text s none = false
has_text s (some t) = str_eq t s

-- `legacy_id and item.get("id") == legacy_id`
is_legacy : Option String → BridgeSession → Bool
is_legacy none item = false
is_legacy (some legacy) item = has_text legacy item.id

-- `_find_bridge_session`
unfoldable pub find_bridge_session : List BridgeSession → String → Option String → Option String
unfolding is_legacy
find_bridge_session [] cwd legacy = none
find_bridge_session (item ∷ items) cwd legacy =
    let rest = find_bridge_session items cwd legacy in
    if is_legacy (given legacy) item
    then legacy
    else if has_text cwd item.cwd && is_some (given item.id)
    then item.id
    else rest

-- A call whose problem of the upstream system becomes a problem of the Manager.
converted {ℓ} : {A : Type ℓ} → Result A → Result A
converted (ok a) = ok a
converted (raise (upstream p)) = raise (problem (as_manager_problem p))
converted (raise e) = raise e

abbrev found_or {ℓ} : {A : Type ℓ} → Option A → Result A → Result A
found_or (some a) r = ok a
found_or none r = r

abbrev attach_runtime : String → SessionBinding → SessionBinding
attach_runtime id b = record b { bridge_session_id = some id; state = SessionState.ready }

-- The last transaction of `put_session`.
attach : Db → SessionBinding → String → SessionBinding × Db
attach db binding id = elim (get session_id binding.id db.sessions) [
  | none ↦ (binding, db)
  | some current ↦
      (attach_runtime id current, update_session db binding.id (λ _. attach_runtime id current))
]

-- `put_session` with what the bridge lists, and what it would create.
unfoldable pub put_session :
    CredentialCipher
    → Principal
    → String
    → String
    → SessionEnsure
    → ℕ
    → Result (List BridgeSession)
    → Result String
    → Db
    → Result SessionBinding × Db
unfolding attach converted
put_session cipher caller subject_ref session payload new_id listed created db =
    proceed (require caller "sessions:write") db λ _.
      proceed (prepare_session db cipher caller subject_ref session payload new_id) db
        λ (bridge, binding, db').
          if is_some binding.bridge_session_id
          then (ok binding, db')
          else proceed (converted listed) db' λ items.
            proceed
              (found_or (find_bridge_session items binding.cwd payload.legacy_bridge_session_id)
                (converted created))
              db' λ id. let (attached, db'') = attach db' binding id in (ok attached, db'')

abbrev pub is_running : TurnStatus → Bool
is_running TurnStatus.running = true
is_running _ = false

abbrev pub succeed_if_running : TurnBinding → TurnBinding
succeed_if_running t = if is_running t.status then record t { status = TurnStatus.succeeded } else t

-- The turn that the session names as active, if it runs, has succeeded.
settle_turn : Db → ℕ → String → Db
settle_turn db s id = elim (find (turn_of s id) db.turns) [
  | none ↦ db
  | some turn ↦ update_turn db turn.id (λ _. succeed_if_running turn)
]

settle_active : Db → ℕ → Option String → Db
unfolding settle_turn
settle_active db s none = db
settle_active db s (some id) = settle_turn db s id

-- The session after a refresh.
abbrev pub refreshed : Bool → SessionBinding → SessionBinding
refreshed true b = record b { state = SessionState.running }
refreshed false b =
    if is_some (given b.active_turn_id)
    then record b { state = SessionState.ready; active_turn_id = none }
    else record b { state = SessionState.ready }

-- The last transaction of `get_session`.
unfoldable pub refresh : Db → SessionBinding → Bool → SessionBinding × Db
unfolding settle_active
refresh db binding is_streaming = elim (get session_id binding.id db.sessions) [
  | none ↦ (binding, db)
  | some current ↦
      let db' =
        if is_streaming then db else settle_active db current.id (given current.active_turn_id) in
      let b = refreshed is_streaming current in (b, update_session db' binding.id (λ _. b))
]

-- `get_session`, with whether the bridge says that the session is streaming.
unfoldable pub get_session :
    CredentialCipher → Principal → String → String → Result Bool → Db → Result SessionBinding × Db
unfolding refresh converted
get_session cipher caller subject_ref session answer db =
    proceed (require caller "sessions:read") db λ _.
      proceed (session_connection db cipher caller subject_ref session) db λ (bridge, binding).
        if is_some (given binding.bridge_session_id)
        then (proceed (converted answer) db
            λ is_streaming. let (b, db') = refresh db binding is_streaming in (ok b, db'))
        else (ok binding, db)

abbrev pub in_session : ℕ → TurnBinding → Bool
in_session s t = t.session_binding_id == s

abbrev pub refers_to : ℕ → TerminalBinding → Bool
refers_to s t = elim t.session_binding_id [ none ↦ false | some id ↦ id == s ]

release_terminal : ℕ → TerminalBinding → TerminalBinding
release_terminal s t = if refers_to s t then record t { session_binding_id = none } else t

-- What deleting a session does: its turns go with it (`ON DELETE CASCADE`), and its terminals lose
-- their reference to it (`ON DELETE SET NULL`).
unfoldable pub erase : Db → ℕ → Db
unfolding release_terminal
erase db id = elim (get session_id id db.sessions) [
  | none ↦ db
  | some current ↦ record db {
    sessions = remove (λ b. b.id == id) db.sessions;
    turns = remove (in_session id) db.turns;
    terminals = map (release_terminal id) db.terminals;
  }
]

unfoldable pub delete_session :
    CredentialCipher → Principal → String → String → Result (Unit {0}) → Db → Result (Unit {0}) × Db
unfolding erase
delete_session cipher caller subject_ref session answer db =
    proceed (require caller "sessions:write") db λ _.
      proceed (session_connection db cipher caller subject_ref session) db λ (bridge, binding).
        proceed (if is_some (given binding.bridge_session_id) then ignoring 404 answer else ok tt)
          db λ _. (ok tt, erase db binding.id)

-- `get_turn`
unfoldable pub get_turn :
    CredentialCipher
    → Principal
    → String
    → String
    → String
    → Result Bool
    → Db
    → Result TurnBinding × Db
unfolding get_session
get_turn cipher caller subject_ref session id answer db =
    proceed (get_session cipher caller subject_ref session answer db).0
      (get_session cipher caller subject_ref session answer db).1
      λ _.
        let db' = (get_session cipher caller subject_ref session answer db).1 in
        proceed (owned_session db' caller subject_ref session) db' λ binding.
          elim (find (turn_of binding.id id) db'.turns) [
            | none ↦ (raise (problem (manager_problem 404 "turn_not_found")), db')
            | some turn ↦ (ok turn, db')
          ]
