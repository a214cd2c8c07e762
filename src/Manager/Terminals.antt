-- ===== src/Manager/Terminals.antt =====
-- app/terminal_routes/: the tickets, the life cycle and the handlers of interactive terminals. The
-- answer of the bridge to the one call that a handler makes is an argument, and so is the time.
pub mod Tickets
pub mod Limits
pub mod Lifecycle
use pi_opensandbox_runner.Base.{
  ℕ, ◌+◌, String, Bool, true, false, not, ◌&&◌, ◌||◌, Option, none, some, List, [], ◌∷◌, ◌++◌,
  str_eq, ◌==◌, if◌then◌else◌, is_some, leb, ltb,
}
use pi_opensandbox_runner.Base.Table.{find, get, modify, remove, count}
use pi_opensandbox_runner.Base.Select.{select}
use pi_opensandbox_runner.Manager.Problem.{
  UpstreamProblem, as_manager_problem, Failure, upstream, problem, exception, Result, ok, raise,
  manager_problem, proceed, ◌>>=◌,
}
use pi_opensandbox_runner.Manager.Crypto.{CredentialCipher}
use pi_opensandbox_runner.Manager.Models.{
  TerminalState, TerminalBinding, TerminalTicket, RunnerInstance, SessionBinding, Db, instance_id,
  terminal_id,
}
use pi_opensandbox_runner.Manager.Load.{given}
use pi_opensandbox_runner.Manager.Operations.{is_ready}
use pi_opensandbox_runner.Manager.Api.{
  Principal, BridgeConnection, require, owned_instance, find_session, connection, member,
}
use pi_opensandbox_runner.Manager.Turns.{ignoring}

-- The settings that the handlers read.
pub record TerminalSettings : Type 0 where
  pub allowed_origins : List String
  pub ticket_ttl : ℕ
  pub max_lifetime : ℕ
  pub max_terminals : ℕ

-- `state in {"closed", "unavailable"}`
abbrev pub is_over : TerminalState → Bool
is_over TerminalState.closed = true
is_over TerminalState.unavailable = true
is_over _ = false

abbrev pub is_closed : TerminalState → Bool
is_closed TerminalState.closed = true
is_closed _ = false

abbrev pub update_terminal : Db → ℕ → (TerminalBinding → TerminalBinding) → Db
update_terminal db id f = record db { terminals = modify terminal_id id f db.terminals }

-- `_load_owned_terminal`
unfoldable pub load_owned_terminal :
    Db
    → CredentialCipher
    → Principal
    → String
    → ℕ
    → Result (TerminalBinding × RunnerInstance × BridgeConnection)
load_owned_terminal db cipher caller subject_ref id = do
  instance ← owned_instance db caller subject_ref
  terminal ← elim (find (λ t. t.id == id && (t.instance_id == instance.id)) db.terminals) [
    | none ↦ raise (problem (manager_problem 404 "terminal_not_found"))
    | some terminal ↦ ok terminal
  ]
  bridge ← connection cipher instance
  ok (terminal, instance, bridge)

-- What `create_ticket` deletes: the terminal's tickets and those that have expired.
abbrev pub is_replaced : ℕ → ℕ → TerminalTicket → Bool
is_replaced terminal now t = t.terminal_id == terminal || leb t.expires_at now

unfoldable pub new_ticket : ℕ → ℕ → String → String → ℕ → TerminalTicket
new_ticket new_id terminal hash origin expires_at = record {
  id = new_id;
  terminal_id = terminal;
  token_hash = hash;
  origin = origin;
  expires_at = expires_at;
}

-- The second transaction of `create_ticket`, with the hash of the secret that it drew.
unfoldable pub replace_ticket : TerminalSettings → Db → ℕ → ℕ → String → String → ℕ → Db
unfolding new_ticket
replace_ticket settings db terminal new_id hash origin now =
    let ticket = new_ticket new_id terminal hash origin (now + settings.ticket_ttl) in
    record db { tickets = remove (is_replaced terminal now) db.tickets ++ ticket ∷ [] }

-- `create_ticket`: returns when the ticket expires.
unfoldable pub create_ticket :
    TerminalSettings
    → CredentialCipher
    → Principal
    → String
    → ℕ
    → String
    → ℕ
    → String
    → ℕ
    → Db
    → Result ℕ × Db
unfolding member
create_ticket settings cipher caller subject_ref id origin new_id hash now db =
    proceed (require caller "terminals:access") db λ _.
      if not (member origin settings.allowed_origins)
      then (raise (problem (manager_problem 422 "terminal_origin_not_allowed")), db)
      else proceed (load_owned_terminal db cipher caller subject_ref id) db λ (terminal, _, _).
        if is_over terminal.state || leb terminal.expires_at now
        then (raise (problem (manager_problem 409 "terminal_unavailable")), db)
        else (
          ok (now + settings.ticket_ttl),
          replace_ticket settings db terminal.id new_id hash origin now,
        )

-- The condition of the DELETE of `_consume_ticket`.
abbrev pub is_redeemed : String → String → ℕ → TerminalTicket → Bool
is_redeemed hash origin now t =
    str_eq t.token_hash hash && str_eq t.origin origin && ltb now t.expires_at

-- `.scalar_one_or_none()`
unfoldable pub one_or_none : List TerminalTicket → Result (Option ℕ)
one_or_none [] = ok none
one_or_none (t ∷ []) = ok (some t.terminal_id)
one_or_none (t ∷ s ∷ rest) = raise exception

abbrev pub Redeemed : Type 0
Redeemed = Result (Option (TerminalBinding × BridgeConnection)) × Db

abbrev pub connect_row : ℕ → TerminalBinding → TerminalBinding
connect_row now t = record t {
  state = TerminalState.connected;
  connected_at = some now;
  disconnected_at = none;
}

-- The rest of `_consume_ticket` on an instance: `before` is what a raise rolls back to.
unfoldable pub connect_ready :
    CredentialCipher → ℕ → Db → Db → TerminalBinding → RunnerInstance → Redeemed
connect_ready cipher now before db terminal instance =
    if not (is_ready instance.state) || leb terminal.expires_at now
    then (ok none, db)
    else proceed (connection cipher instance) before λ bridge. (
      ok (some (connect_row now terminal, bridge)),
      update_terminal db terminal.id (λ _. connect_row now terminal),
    )

unfoldable pub connect_terminal : CredentialCipher → ℕ → Db → Db → Option TerminalBinding → Redeemed
unfolding connect_ready
connect_terminal cipher now before db none = (ok none, db)
connect_terminal cipher now before db (some terminal) =
    if is_over terminal.state
    then (ok none, db)
    else elim (get instance_id terminal.instance_id db.instances) [
      | none ↦ (ok none, db)
      | some instance ↦ connect_ready cipher now before db terminal instance
    ]

unfoldable pub redeem : CredentialCipher → ℕ → Db → Db → Option ℕ → Redeemed
unfolding connect_terminal
redeem cipher now before db none = (ok none, db)
redeem cipher now before db (some terminal) =
    connect_terminal cipher now before db (get terminal_id terminal db.terminals)

-- `_consume_ticket`. Where it returns `None` after the DELETE, the DELETE is committed.
unfoldable pub consume_ticket :
    CredentialCipher → (String → String) → Option String → String → ℕ → Db → Redeemed
unfolding redeem one_or_none
consume_ticket cipher token_hash ticket origin now db = elim (given ticket) [
  | none ↦ (ok none, db)
  | some ticket ↦
      if str_eq origin ""
      then (ok none, db)
      else let p = is_redeemed (token_hash ticket) origin now in
        proceed (one_or_none (select p db.tickets)) db
          λ terminal. redeem cipher now db (record db { tickets = remove p db.tickets }) terminal
]

-- `_finish_terminal_connection`
unfoldable pub finish_terminal_connection : Db → ℕ → ℕ → TerminalState → ℕ → Db
finish_terminal_connection db id now state offset =
    update_terminal db id
      (λ t. record t { output_offset = offset; state = state; disconnected_at = some now })

-- `_mark_terminal_closed`
unfoldable pub mark_terminal_closed : Db → ℕ → ℕ → Db
mark_terminal_closed db id now = elim (get terminal_id id db.terminals) [
  | none ↦ db
  | some terminal ↦ record db {
    terminals =
        modify terminal_id id
          (λ t. record t { state = TerminalState.closed; disconnected_at = some now }) db.terminals;
    tickets = remove (λ t. t.terminal_id == id) db.tickets;
  }
]

-- `delete_terminal`
unfoldable pub delete_terminal :
    CredentialCipher → Principal → String → ℕ → Result (Unit {0}) → ℕ → Db → Result (Unit {0}) × Db
delete_terminal cipher caller subject_ref id answer now db =
    proceed (require caller "terminals:access") db λ _.
      proceed (load_owned_terminal db cipher caller subject_ref id) db λ (terminal, _, _).
        proceed (if is_closed terminal.state then ok tt else ignoring 404 answer) db
          λ _. (ok tt, mark_terminal_closed db terminal.id now)

unfoldable pub new_terminal :
    TerminalSettings → ℕ → ℕ → Option SessionBinding → String → ℕ → TerminalBinding
new_terminal settings new_id i session upstream_id now = record {
  id = new_id;
  instance_id = i;
  session_binding_id = elim session [ none ↦ none | some s ↦ some s.id ];
  external_session_id = elim session [ none ↦ none | some s ↦ some s.external_session_id ];
  upstream_terminal_id = upstream_id;
  cwd = elim session [ none ↦ "/root/workspace" | some s ↦ s.cwd ];
  state = TerminalState.created;
  output_offset = 0;
  created_at = now;
  connected_at = none;
  disconnected_at = none;
  expires_at = now + settings.max_lifetime;
}

abbrev pub is_open_on : ℕ → TerminalBinding → Bool
is_open_on i t = t.instance_id == i && not (is_closed t.state)

unfoldable pub session_for : Db → ℕ → Option String → Result (Option SessionBinding)
session_for db i none = ok none
session_for db i (some id) = do session ← find_session db i id; ok (some session)

-- The first transaction of `create_terminal`.
unfoldable pub admit_terminal :
    TerminalSettings
    → CredentialCipher
    → Principal
    → String
    → Option String
    → Db
    → Result (RunnerInstance × Option SessionBinding)
unfolding session_for
admit_terminal settings cipher caller subject_ref session db = do
  instance ← owned_instance db caller subject_ref
  bridge ← connection cipher instance
  if leb settings.max_terminals (count (is_open_on instance.id) db.terminals)
      then raise (problem (manager_problem 409 "terminal_limit_reached"))
      else do binding ← session_for db instance.id session; ok (instance, binding)

-- `create_terminal`, with the bridge's answer.
unfoldable pub create_terminal :
    TerminalSettings
    → CredentialCipher
    → Principal
    → String
    → Option String
    → Result String
    → ℕ
    → ℕ
    → Db
    → Result TerminalBinding × Db
unfolding admit_terminal new_terminal
create_terminal settings cipher caller subject_ref session answer new_id now db =
    proceed (require caller "terminals:access") db λ _.
      proceed (admit_terminal settings cipher caller subject_ref session db) db
        λ (instance, binding). elim answer [
          | raise (upstream p) ↦ (raise (problem (as_manager_problem p)), db)
          | raise e ↦ (raise e, db)
          | ok upstream_id ↦
              let terminal = new_terminal settings new_id instance.id binding upstream_id now in
              (ok terminal, record db { terminals = db.terminals ++ terminal ∷ [] })
        ]
