-- ===== src/Manager/Terminals/Tickets.antt =====
-- Tickets of app/terminal_routes/tickets.py are used once, by the terminal and origin they are for.
use pi_opensandbox_runner.Base.{
  ℕ, ◌+◌, ◌≤◌, ◌<◌, String, ◌≡◌, refl, true, false, not, ◌||◌, Option, none, some, List, [], ◌∷◌,
  arith, str_eq, ◌==◌, Bool-cases, inl, inr, leb, ==_refl,
}
use pi_opensandbox_runner.Base.Table.{find, get, remove, count, count-append, get_key}
use pi_opensandbox_runner.Base.Rows.{get-modify_to}
use pi_opensandbox_runner.Base.Select.{select, select-remove, count-remove, find_of_select}
use pi_opensandbox_runner.Manager.Problem.{Result, ok, raise, proceed_inv}
use pi_opensandbox_runner.Manager.Crypto.{CredentialCipher}
use pi_opensandbox_runner.Manager.Models.{
  TerminalBinding, TerminalTicket, RunnerInstance, Db, instance_id, terminal_id,
}
use pi_opensandbox_runner.Manager.Operations.{is_ready}
use pi_opensandbox_runner.Manager.Api.{BridgeConnection, connection}
use pi_opensandbox_runner.Manager.Terminals.{
  TerminalSettings, is_over, update_terminal, is_redeemed, one_or_none, connect_row, connect_ready,
  connect_terminal, redeem, consume_ticket, is_replaced, replace_ticket, new_ticket,
}

-- A connection that a ticket opens: the ticket, its terminal and the instance are as they must be,
-- and the terminal is stored as connected.
pub record Opened (cipher : CredentialCipher) (hash origin : String) (now : ℕ) (db db' : Db)
    (c : TerminalBinding × BridgeConnection) : Type 0 where
  pub ticket : TerminalTicket
  pub terminal : TerminalBinding
  pub instance_row : RunnerInstance
  pub redeemed : find (is_redeemed hash origin now) db.tickets ≡ some ticket
  pub stored : get terminal_id ticket.terminal_id db.terminals ≡ some terminal
  pub is_open : is_over terminal.state ≡ false
  pub in_time : leb terminal.expires_at now ≡ false
  pub instance_stored : get instance_id terminal.instance_id db.instances ≡ some instance_row
  pub instance_is_ready : is_ready instance_row.state ≡ true
  pub connected : connection cipher instance_row ≡ ok c.1
  pub same : c.0 ≡ connect_row now terminal
  pub spent : db'.tickets ≡ remove (is_redeemed hash origin now) db.tickets
  pub kept : get terminal_id ticket.terminal_id db'.terminals ≡ some c.0

module _ (cipher : CredentialCipher) (hash origin : String) (now : ℕ) (db db' : Db)
    (c : TerminalBinding × BridgeConnection) where
  abbrev spent_db : Db
  spent_db = record db { tickets = remove (is_redeemed hash origin now) db.tickets }

  redeem-Opened :
      (ticket : TerminalTicket)
      → find (is_redeemed hash origin now) db.tickets ≡ some ticket
      → redeem cipher now db spent_db (some ticket.terminal_id) ≡ (ok (some c), db')
      → Opened cipher hash origin now db db' c
  unfolding redeem connect_terminal connect_ready
  redeem-Opened ticket f h = by_terminal (get terminal_id ticket.terminal_id db.terminals) refl
    where
      by_connection :
          (t : TerminalBinding) (i : RunnerInstance) (b : Result BridgeConnection)
          → get terminal_id ticket.terminal_id db.terminals ≡ some t
          → is_over t.state ≡ false
          → get instance_id t.instance_id db.instances ≡ some i
          → (not (is_ready i.state) || leb t.expires_at now) ≡ false
          → connection cipher i ≡ b
          → Opened cipher hash origin now db db' c
      by_connection t i (raise x) g o j r b = absurd (ground (arith, h, g, o, j, r, b))
      by_connection t i (ok bridge) g o j r b =
          let same : ((connect_row now t, bridge) ≡ c)
              × (update_terminal spent_db t.id (λ _. connect_row now t) ≡ db') =
            ground (arith, h, g, o, j, r, b) in
          let k : t.id ≡ ticket.terminal_id =
            get_key terminal_id ticket.terminal_id db.terminals t g in
          rw (← same.0, ← same.1)
            (record {
              ticket = ticket;
              terminal = t;
              instance_row = i;
              redeemed = f;
              stored = g;
              is_open = o;
              in_time = ground (arith, r);
              instance_stored = j;
              instance_is_ready = ground (arith, r);
              connected = b;
              same = refl;
              spent = refl;
              kept = rw (← k) (
                  get-modify_to terminal_id t.id (λ _. connect_row now t) db.terminals t (cc) refl);
            })

      by_instance :
          (t : TerminalBinding) (i : Option RunnerInstance)
          → get terminal_id ticket.terminal_id db.terminals ≡ some t
          → is_over t.state ≡ false
          → get instance_id t.instance_id db.instances ≡ i
          → Opened cipher hash origin now db db' c
      by_instance t none g o j = absurd (ground (arith, h, g, o, j))
      by_instance t (some i) g o j =
          elim (Bool-cases (not (is_ready i.state) || leb t.expires_at now)) [
            | inl r ↦ absurd (ground (arith, h, g, o, j, r))
            | inr r ↦ by_connection t i (connection cipher i) g o j r refl
          ]

      by_terminal :
          (t : Option TerminalBinding)
          → get terminal_id ticket.terminal_id db.terminals ≡ t
          → Opened cipher hash origin now db db' c
      by_terminal none g = absurd (ground (arith, h, g))
      by_terminal (some t) g = elim (Bool-cases (is_over t.state)) [
        | inl o ↦ absurd (ground (arith, h, g, o))
        | inr o ↦ by_instance t (get instance_id t.instance_id db.instances) g o refl
      ]

-- What one ticket of a request redeems.
redeemed_row :
    (rows : List TerminalTicket) (terminal : ℕ)
    → one_or_none rows ≡ ok (some terminal)
    → (t : TerminalTicket) × (rows ≡ t ∷ []) × (t.terminal_id ≡ terminal)
unfolding one_or_none
redeemed_row [] terminal h = absurd (ground arith)
redeemed_row (t ∷ []) terminal h = (t, refl, ground arith)
redeemed_row (t ∷ s ∷ rest) terminal h = absurd (ground arith)

module _ (cipher : CredentialCipher) (token_hash : String → String) (value : String)
    (origin : String) (now : ℕ) (db db' : Db) (c : TerminalBinding × BridgeConnection) where
  consume-Opened :
      str_eq value "" ≡ false
      → consume_ticket cipher token_hash (some value) origin now db ≡ (ok (some c), db')
      → Opened cipher (token_hash value) origin now db db' c
  unfolding consume_ticket redeem
  consume-Opened v h = elim (Bool-cases (str_eq origin "")) [
    | inl e ↦ absurd (ground (arith, h, e, v))
    | inr e ↦
        let p = is_redeemed (token_hash value) origin now in
        let (terminal, r, k) =
          proceed_inv (one_or_none (select p db.tickets)) db
            (redeem cipher now db (record db { tickets = remove p db.tickets })) (some c) db'
            (ground (arith, h, e, v)) in
        by_terminal terminal r k
  ]
    where
      by_terminal :
          (terminal : Option ℕ)
          → one_or_none (select (is_redeemed (token_hash value) origin now) db.tickets)
            ≡ ok terminal
          → redeem cipher now db
              (record db {
                tickets = remove (is_redeemed (token_hash value) origin now) db.tickets;
              })
              terminal
            ≡ (ok (some c), db')
          → Opened cipher (token_hash value) origin now db db' c
      by_terminal none r k = absurd (ground (arith, k))
      by_terminal (some terminal) r k =
          let (t, rows, e) = redeemed_row _ terminal r in
          redeem-Opened cipher (token_hash value) origin now db db' c t
            (find_of_select (is_redeemed (token_hash value) origin now) db.tickets t [] rows)
            (rw e k)

-- A ticket opens a connection only where it is stored for this origin and has not expired, its
-- terminal is neither closed nor unavailable and has not reached the end of its life, and the
-- instance of the terminal is ready and can be reached. The terminal that is returned is that one,
-- stored as connected, and the rows that match the ticket are deleted.
pub consume_ticket-Opened :
    (cipher : CredentialCipher) (token_hash : String → String) (value origin : String) (now : ℕ)
    (db db' : Db) (c : TerminalBinding × BridgeConnection)
    → consume_ticket cipher token_hash (some value) origin now db ≡ (ok (some c), db')
    → Opened cipher (token_hash value) origin now db db' c
unfolding consume_ticket
consume_ticket-Opened cipher token_hash value origin now db db' c h =
    elim (Bool-cases (str_eq value "")) [
      | inl e ↦ absurd (ground (arith, h, e))
      | inr e ↦ consume-Opened cipher token_hash value origin now db db' c e h
    ]

-- Once a ticket has opened a connection, the same ticket from the same origin opens no other, then
-- or at any later time, and does not change the database's terminals.
pub consume_ticket_once :
    (cipher : CredentialCipher) (token_hash : String → String) (value origin : String)
    (now later : ℕ) (db db' : Db) (c : TerminalBinding × BridgeConnection)
    → now ≤ later
    → consume_ticket cipher token_hash (some value) origin now db ≡ (ok (some c), db')
    → ((consume_ticket cipher token_hash (some value) origin later db').0 ≡ ok none)
      × ((consume_ticket cipher token_hash (some value) origin later db').1.terminals
          ≡ db'.terminals)
unfolding consume_ticket redeem one_or_none
consume_ticket_once cipher token_hash value origin now later db db' c le h =
    let o = consume_ticket-Opened cipher token_hash value origin now db db' c h in
    let none_left : select (is_redeemed (token_hash value) origin later) db'.tickets ≡ [] =
      rw (o.spent) (
        select-remove (is_redeemed (token_hash value) origin now)
          (is_redeemed (token_hash value) origin later) (λ t e. ground (arith, e, le))
          db.tickets) in
    ground (arith, none_left)

-- A ticket that is issued to live for some time replaces those of its terminal: the terminal has
-- one ticket, and no ticket that is left has expired.
pub replace_ticket_alone :
    (settings : TerminalSettings) (db : Db) (terminal new_id : ℕ) (hash origin : String) (now : ℕ)
    → 0 < settings.ticket_ttl
    → (count
          (λ t. t.terminal_id == terminal)
          (replace_ticket settings db terminal new_id hash origin now).tickets
        ≡ 1)
      × (count
            (λ t. leb t.expires_at now)
            (replace_ticket settings db terminal new_id hash origin now).tickets
          ≡ 0)
unfolding replace_ticket new_ticket count
replace_ticket_alone settings db terminal new_id hash origin now h =
    let p = is_replaced terminal now in
    let rest = remove p db.tickets in
    let ticket = new_ticket new_id terminal hash origin (now + settings.ticket_ttl) in
    (
      ground (
        arith,
        count-append (λ t. t.terminal_id == terminal) rest (ticket ∷ []),
        count-remove p (λ t. t.terminal_id == terminal) (λ t e. ground arith) db.tickets,
        ==_refl terminal,
      ),
      ground (
        arith,
        count-append (λ t. leb t.expires_at now) rest (ticket ∷ []),
        count-remove p (λ t. leb t.expires_at now) (λ t e. ground arith) db.tickets,
      ),
    )
