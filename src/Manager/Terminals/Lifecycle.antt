-- ===== src/Manager/Terminals/Lifecycle.antt =====
-- app/terminal_routes/lifecycle.py: the cleanup of terminals and what a restart does to them; and
-- `get_terminal` of app/terminal_routes/crud.py.
use pi_opensandbox_runner.Base.{
  ℕ, ◌+◌, String, ◌≡◌, refl, Bool, true, false, not, ◌&&◌, ◌||◌, Option, none, some, List, [], ◌∷◌,
  ◌==◌, if◌then◌else◌, leb, map, arith,
}
use pi_opensandbox_runner.Base.Table.{get, remove, count}
use pi_opensandbox_runner.Base.Select.{select}
use pi_opensandbox_runner.Manager.Problem.{
  as_manager_problem, upstream, problem, Result, ok, raise, proceed, ◌>>=◌,
}
use pi_opensandbox_runner.Manager.Crypto.{CredentialCipher}
use pi_opensandbox_runner.Manager.Models.{
  TerminalState, TerminalBinding, RunnerInstance, Db, instance_id,
}
use pi_opensandbox_runner.Manager.Operations.{is_ready}
use pi_opensandbox_runner.Manager.Api.{Principal, BridgeConnection, require, connection}
use pi_opensandbox_runner.Manager.Terminals.{
  is_closed, is_over, load_owned_terminal, mark_terminal_closed, update_terminal,
  finish_terminal_connection,
}

abbrev pub is_connected : TerminalState → Bool
is_connected TerminalState.connected = true
is_connected _ = false

-- `state in ["created", "detached", "exited", "unavailable"]`
abbrev is_idle : TerminalState → Bool
is_idle TerminalState.connected = false
is_idle TerminalState.closed = false
is_idle _ = true

-- `func.coalesce(disconnected_at, created_at)`
abbrev idle_since : TerminalBinding → ℕ
idle_since t = elim t.disconnected_at [ none ↦ t.created_at | some at ↦ at ]

-- The instance of the terminal is there and is not ready.
abbrev is_stranded : List RunnerInstance → TerminalBinding → Bool
is_stranded instances t = elim (get instance_id t.instance_id instances) [
  | none ↦ false
  | some instance ↦ not (is_ready instance.state)
]

-- The condition of the query of `cleanup_terminals`, where `ttl` is
-- `settings.terminal_detached_ttl_seconds`.
abbrev is_stale : ℕ → ℕ → List RunnerInstance → TerminalBinding → Bool
is_stale ttl now instances t =
    not (is_closed t.state)
    && (leb t.expires_at now
        || (is_idle t.state && leb (idle_since t + ttl) now)
        || is_stranded instances t)

-- `with suppress(ManagerProblem): bridge = _connection(instance, cipher)`
suppressed : Result BridgeConnection → Result (Option BridgeConnection)
suppressed (ok bridge) = ok (some bridge)
suppressed (raise (problem p)) = ok none
suppressed (raise e) = raise e

bridge_of :
    CredentialCipher → List RunnerInstance → TerminalBinding → Result (Option BridgeConnection)
unfolding suppressed
bridge_of cipher instances t = elim (get instance_id t.instance_id instances) [
  | none ↦ ok none
  | some instance ↦
      if is_ready instance.state then suppressed (connection cipher instance) else ok none
]

-- `cleanup_inputs`: the terminals with what the bridge is reached by.
cleanup_inputs :
    CredentialCipher
    → List RunnerInstance
    → List TerminalBinding
    → Result (List (TerminalBinding × Option BridgeConnection))
unfolding bridge_of
cleanup_inputs cipher instances [] = ok []
cleanup_inputs cipher instances (t ∷ rows) = do
  bridge ← bridge_of cipher instances t
  rest ← cleanup_inputs cipher instances rows
  ok ((t, bridge) ∷ rest)

-- `try: client.delete_terminal(...) except UpstreamProblem: pass`
dropped : Option BridgeConnection → Result (Unit {0}) → Result (Unit {0})
dropped none answer = ok tt
dropped (some bridge) (raise (upstream p)) = ok tt
dropped (some bridge) answer = answer

close_all :
    (ℕ → Result (Unit {0}))
    → ℕ
    → List (TerminalBinding × Option BridgeConnection)
    → Db
    → Result (Unit {0}) × Db
unfolding dropped
close_all answer now [] db = (ok tt, db)
close_all answer now ((t, bridge) ∷ rest) db =
    proceed (dropped bridge (answer t.id)) db
      λ _. close_all answer now rest (mark_terminal_closed db t.id now)

-- `cleanup_terminals`, where `answer` is what the bridge answers for each terminal. The deletes of
-- expired tickets commit with the query.
unfoldable pub cleanup_terminals :
    CredentialCipher → ℕ → (ℕ → Result (Unit {0})) → ℕ → Db → Result (Unit {0}) × Db
unfolding cleanup_inputs close_all
cleanup_terminals cipher ttl answer now db =
    let db' = record db { tickets = remove (λ t. leb t.expires_at now) db.tickets } in
    proceed
      (cleanup_inputs cipher db.instances (select (is_stale ttl now db.instances) db.terminals)) db
      λ inputs. close_all answer now inputs db'

-- `_mark_terminal_detached`
unfoldable pub mark_terminal_detached : Db → ℕ → ℕ → ℕ → Db
mark_terminal_detached db id now offset =
    finish_terminal_connection db id now TerminalState.detached offset

abbrev detach : ℕ → TerminalBinding → TerminalBinding
detach now t =
    if is_connected t.state
    then record t { state = TerminalState.detached; disconnected_at = some now }
    else t

-- `mark_connected_terminals_detached`
unfoldable pub mark_connected_terminals_detached : ℕ → Db → Db
mark_connected_terminals_detached now db = record db { terminals = map (detach now) db.terminals }

-- What the bridge says of a terminal: `running` is a Boolean or missing.
pub record TerminalStatus : Type 0 where
  pub output_offset : ℕ
  pub running : Option Bool

abbrev has_ended : Option Bool → Bool
has_ended none = false
has_ended (some running) = not running

-- The terminal after the bridge was asked.
observed : TerminalBinding → Result TerminalStatus → Result TerminalBinding
observed t (ok status) =
    let seen = record t { output_offset = status.output_offset } in
    ok (
      if has_ended status.running && is_connected t.state
      then record seen { state = TerminalState.exited }
      else seen)
observed t (raise (upstream p)) =
    if p.status_code == 404
    then ok (record t { state = TerminalState.unavailable })
    else raise (problem (as_manager_problem p))
observed t (raise e) = raise e

unfoldable pub get_terminal :
    CredentialCipher
    → Principal
    → String
    → ℕ
    → Result TerminalStatus
    → Db
    → Result TerminalBinding × Db
unfolding observed
get_terminal cipher caller subject_ref id answer db =
    proceed (require caller "terminals:access") db λ _.
      proceed (load_owned_terminal db cipher caller subject_ref id) db λ (terminal, _, _).
        proceed (if is_over terminal.state then ok terminal else observed terminal answer) db
          λ seen. (
            ok seen,
            update_terminal db terminal.id
                (λ t. record t { state = seen.state; output_offset = seen.output_offset }),
          )

detached_rows :
    (now : ℕ) (rows : List TerminalBinding)
    → count (λ t. is_connected t.state) (map (detach now) rows) ≡ 0
unfolding count
detached_rows now [] = refl
detached_rows now (t ∷ rows) = ground (arith, detached_rows now rows)

closed_rows :
    (now : ℕ) (rows : List TerminalBinding)
    → count (λ t. is_closed t.state) (map (detach now) rows) ≡ count (λ t. is_closed t.state) rows
unfolding count
closed_rows now [] = refl
closed_rows now (t ∷ rows) = ground (arith, closed_rows now rows)

-- After a restart has detached the connected terminals, none is connected, and as many are closed
-- as before.
pub mark_connected_terminals_detached_alone :
    (now : ℕ) (db : Db)
    → (count (λ t. is_connected t.state) (mark_connected_terminals_detached now db).terminals ≡ 0)
      × (count (λ t. is_closed t.state) (mark_connected_terminals_detached now db).terminals
          ≡ count (λ t. is_closed t.state) db.terminals)
unfolding mark_connected_terminals_detached
mark_connected_terminals_detached_alone now db =
    (detached_rows now db.terminals, closed_rows now db.terminals)
