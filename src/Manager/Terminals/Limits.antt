-- ===== src/Manager/Terminals/Limits.antt =====
-- The limit on the open terminals of an instance, and what closing a terminal means.
use pi_opensandbox_runner.Base.{
  ℕ, ◌≤◌, String, ◌≡◌, refl, true, false, ◌&&◌, Option, some, List, [], ◌∷◌, ◌++◌, arith, ◌==◌,
  Option-cases, Bool-cases, inl, inr, if◌then◌else◌, leb,
}
use pi_opensandbox_runner.Manager.Turns.{ignoring}
use pi_opensandbox_runner.Base.Table.{find, get, count, count-append, get_key, find-holds}
use pi_opensandbox_runner.Base.Rows.{get-modify_to, Unique, get_of_find}
use pi_opensandbox_runner.Base.Select.{count-remove}
use pi_opensandbox_runner.Manager.Problem.{
  Result, ok, raise, problem, upstream, exception, proceed_inv, Holds, Holds-bind, Holds-ok,
}
use pi_opensandbox_runner.Manager.Crypto.{CredentialCipher}
use pi_opensandbox_runner.Manager.Models.{
  TerminalState, TerminalBinding, RunnerInstance, SessionBinding, Db, terminal_id,
}
use pi_opensandbox_runner.Manager.Api.{
  Principal, BridgeConnection, connection, require, owned_instance,
}
use pi_opensandbox_runner.Manager.Terminals.{
  TerminalSettings, admit_terminal, session_for, new_terminal, create_terminal, is_open_on,
  is_closed, load_owned_terminal, mark_terminal_closed, delete_terminal,
}

-- No instance has more open terminals than the settings allow.
abbrev pub Within : TerminalSettings → Db → Type 0
Within settings db = (i : ℕ) → count (is_open_on i) db.terminals ≤ settings.max_terminals

abbrev HasRoom : TerminalSettings → Db → RunnerInstance × Option SessionBinding → Type 0
HasRoom settings db (i, b) =
    leb settings.max_terminals (count (is_open_on i.id) db.terminals) ≡ false

admit_terminal-HasRoom :
    (settings : TerminalSettings) (cipher : CredentialCipher) (caller : Principal)
    (subject_ref : String) (session : Option String) (db : Db)
    → Holds (HasRoom settings db) (admit_terminal settings cipher caller subject_ref session db)
unfolding admit_terminal
admit_terminal-HasRoom settings cipher caller subject_ref session db =
    Holds-bind (HasRoom settings db) (owned_instance db caller subject_ref) _ λ i.
      Holds-bind (HasRoom settings db) (connection cipher i) _ λ bridge.
        elim (Bool-cases (leb settings.max_terminals (count (is_open_on i.id) db.terminals))) [
          | inl e ↦ rw e tt
          | inr e ↦ rw e (Holds-bind (HasRoom settings db) (session_for db i.id session) _ λ b. e)
        ]

count-append_open :
    (limit i j : ℕ) (rows : List TerminalBinding) (t : TerminalBinding)
    → t.instance_id ≡ i
    → leb limit (count (is_open_on i) rows) ≡ false
    → count (is_open_on j) rows ≤ limit
    → count (is_open_on j) (rows ++ t ∷ []) ≤ limit
unfolding count
count-append_open limit i j rows t e h w = elim (Bool-cases (i == j)) [
  | inl s ↦
      let same : i ≡ j = ground (arith, s) in
      let h' : leb limit (count (is_open_on j) rows) ≡ false = rw (← same) h in
      ground (arith, count-append (is_open_on j) rows (t ∷ []), h')
  | inr s ↦ ground (arith, count-append (is_open_on j) rows (t ∷ []), e, w)
]

-- A request to create a terminal, whatever it returns, keeps every instance within its limit of
-- open terminals.
pub create_terminal-Within :
    (settings : TerminalSettings) (cipher : CredentialCipher) (caller : Principal)
    (subject_ref : String) (session : Option String) (answer : Result String) (new_id now : ℕ)
    (db : Db)
    → Within settings db
    → Within settings
        (create_terminal settings cipher caller subject_ref session answer new_id now db).1
unfolding create_terminal new_terminal
create_terminal-Within settings cipher caller subject_ref session answer new_id now db w =
    by_require (require caller "terminals:access") refl
  where
    by_answer :
        (a : Result String) (i : RunnerInstance) (b : Option SessionBinding)
        → answer ≡ a
        → require caller "terminals:access" ≡ ok tt
        → admit_terminal settings cipher caller subject_ref session db ≡ ok (i, b)
        → Within settings
            (create_terminal settings cipher caller subject_ref session answer new_id now db).1
    by_answer (raise (upstream p)) i b x r e = rw (r, e, x) w
    by_answer (raise (problem p)) i b x r e = rw (r, e, x) w
    by_answer (raise exception) i b x r e = rw (r, e, x) w
    by_answer (ok u) i b x r e =
        let room : leb settings.max_terminals (count (is_open_on i.id) db.terminals) ≡ false =
          Holds-ok (HasRoom settings db) _ (i, b) e
            (admit_terminal-HasRoom settings cipher caller subject_ref session db) in
        rw (r, e, x)
          (λ j.
            count-append_open settings.max_terminals i.id j db.terminals
              (new_terminal settings new_id i.id b u now) refl room (w j))

    by_admit :
        (a : Result (RunnerInstance × Option SessionBinding))
        → require caller "terminals:access" ≡ ok tt
        → admit_terminal settings cipher caller subject_ref session db ≡ a
        → Within settings
            (create_terminal settings cipher caller subject_ref session answer new_id now db).1
    by_admit (raise x) r e = rw (r, e) w
    by_admit (ok (i, b)) r e = by_answer answer i b refl r e

    by_require :
        (r : Result (Unit {0}))
        → require caller "terminals:access" ≡ r
        → Within settings
            (create_terminal settings cipher caller subject_ref session answer new_id now db).1
    by_require (raise x) r = rw r w
    by_require (ok tt) r =
        by_admit (admit_terminal settings cipher caller subject_ref session db) r refl

-- The terminal is stored as closed, and it has no ticket.
abbrev pub Closed : ℕ → Db → Type 0
Closed id db =
    ((t : TerminalBinding) × (get terminal_id id db.terminals ≡ some t)
      × (is_closed t.state ≡ true))
    × (count (λ t. t.terminal_id == id) db.tickets ≡ 0)

mark_terminal_closed-Closed :
    (db : Db) (id now : ℕ) (t : TerminalBinding)
    → get terminal_id id db.terminals ≡ some t
    → Closed id (mark_terminal_closed db id now)
unfolding mark_terminal_closed
mark_terminal_closed-Closed db id now t g =
    let close : TerminalBinding → TerminalBinding =
      λ t. record t { state = TerminalState.closed; disconnected_at = some now } in
    rw (g, mark_terminal_closed)
      (
        (
          close t,
          get-modify_to terminal_id id close db.terminals t g
              (get_key terminal_id id db.terminals t g),
          refl,
        ),
        count-remove (λ t. t.terminal_id == id) (λ t. t.terminal_id == id) (λ t e. e) db.tickets,
      )

abbrev IsStored : Db → ℕ → TerminalBinding × RunnerInstance × BridgeConnection → Type 0
IsStored db id (t, i, b) = (t.id ≡ id) × (get terminal_id id db.terminals ≡ some t)

load_owned_terminal-IsStored :
    (db : Db) (cipher : CredentialCipher) (caller : Principal) (subject_ref : String) (id : ℕ)
    → Unique terminal_id db.terminals
    → Holds (IsStored db id) (load_owned_terminal db cipher caller subject_ref id)
unfolding load_owned_terminal
load_owned_terminal-IsStored db cipher caller subject_ref id u =
    Holds-bind (IsStored db id) (owned_instance db caller subject_ref) _ λ instance.
      elim (Option-cases (find (λ t. t.id == id && (t.instance_id == instance.id)) db.terminals)) [
        | inl e ↦ rw e tt
        | inr (t, e) ↦ rw e (
            Holds-bind (IsStored db id) (connection cipher instance) _ λ bridge.
              let k : t.id ≡ id = ground (arith, find-holds _ db.terminals t e) in
              (k, rw (← k) (get_of_find terminal_id _ db.terminals t u e)))
      ]

-- A request to delete a terminal that succeeds leaves it closed and without a ticket, whether or
-- not it was closed before and whether or not the bridge still knew it. Terminal ids are unique.
pub delete_terminal-Closed :
    (cipher : CredentialCipher) (caller : Principal) (subject_ref : String) (id : ℕ)
    (answer : Result (Unit {0})) (now : ℕ) (db db' : Db)
    → Unique terminal_id db.terminals
    → delete_terminal cipher caller subject_ref id answer now db ≡ (ok tt, db')
    → Closed id db'
unfolding delete_terminal
delete_terminal-Closed cipher caller subject_ref id answer now db db' u h =
    let (_, _, h₁) = proceed_inv (require caller "terminals:access") db _ tt db' h in
    let ((t, i, b), e, h₂) =
      proceed_inv (load_owned_terminal db cipher caller subject_ref id) db _ tt db' h₁ in
    let (_, _, h₃) =
      proceed_inv (if is_closed t.state then ok tt else ignoring 404 answer) db _ tt db' h₂ in
    let stored : IsStored db id (t, i, b) =
      Holds-ok (IsStored db id) _ (t, i, b) e
        (load_owned_terminal-IsStored db cipher caller subject_ref id u) in
    let closed : mark_terminal_closed db id now ≡ db' = ground (arith, h₃, stored.0) in
    rw (← closed) (mark_terminal_closed-Closed db id now t stored.1)
