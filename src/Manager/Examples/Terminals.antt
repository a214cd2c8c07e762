-- ===== src/Manager/Examples/Terminals.antt =====
-- The results on terminals, applied to the test data.
use pi_opensandbox_runner.Manager.Terminals.Lifecycle.{
  is_connected, mark_connected_terminals_detached, mark_connected_terminals_detached_alone,
}
use pi_opensandbox_runner.Manager.Terminals.{is_closed}
use pi_opensandbox_runner.Base.{String, ◌≡◌, refl, none, some, [], ◌∷◌, arith, ◌==◌, leb}
use pi_opensandbox_runner.Base.Table.{find, get, count, remove, modify}
use pi_opensandbox_runner.Base.Rows.{Unique}
use pi_opensandbox_runner.Base.Select.{select}
use pi_opensandbox_runner.Manager.Problem.{ok}
use pi_opensandbox_runner.Manager.Crypto.{decrypt}
use pi_opensandbox_runner.Manager.Models.{TerminalState, TerminalBinding, Db, terminal_id}
use pi_opensandbox_runner.Manager.Turns.{ignoring}
use pi_opensandbox_runner.Manager.Api.{require, owned_instance, connection}
use pi_opensandbox_runner.Manager.Terminals.{
  TerminalSettings, consume_ticket, redeem, one_or_none, connect_terminal, connect_ready,
  replace_ticket, create_terminal, delete_terminal, load_owned_terminal, mark_terminal_closed,
}
use pi_opensandbox_runner.Manager.Terminals.Tickets.{
  Opened, consume_ticket-Opened, consume_ticket_once, replace_ticket_alone,
}
use pi_opensandbox_runner.Manager.Terminals.Limits.{
  Within, Closed, create_terminal-Within, delete_terminal-Closed,
}
use pi_opensandbox_runner.Manager.Examples.{cipher, terminal_row, ready_db, caller, bridge}

one_terminal-Unique : Unique terminal_id ready_db.terminals
unfolding count
one_terminal-Unique k = ground arith

abbrev hash_of : String → String
hash_of value = value

abbrev connected_row : TerminalBinding
connected_row = record terminal_row { state = TerminalState.connected; connected_at = some 10 }

abbrev connected_db : Db
connected_db = record ready_db { terminals = connected_row ∷ []; tickets = [] }

ticket_consumed :
    consume_ticket cipher hash_of (some "secret") "https://app" 10 ready_db
    ≡ (ok (some (connected_row, bridge)), connected_db)
unfolding consume_ticket redeem one_or_none connect_terminal connect_ready connection select get
    modify remove decrypt
ticket_consumed = refl

consume_ticket-Opened_example :
    Opened cipher "secret" "https://app" 10 ready_db connected_db (connected_row, bridge)
consume_ticket-Opened_example =
    consume_ticket-Opened cipher hash_of "secret" "https://app" 10 ready_db connected_db
      (connected_row, bridge) ticket_consumed

consume_ticket_once_example :
    ((consume_ticket cipher hash_of (some "secret") "https://app" 12 connected_db).0 ≡ ok none)
    × ((consume_ticket cipher hash_of (some "secret") "https://app" 12 connected_db).1.terminals
        ≡ connected_db.terminals)
consume_ticket_once_example =
    consume_ticket_once cipher hash_of "secret" "https://app" 10 12 ready_db connected_db
      (connected_row, bridge) (omega arith) ticket_consumed

abbrev settings : TerminalSettings
settings = record {
  allowed_origins = "https://app" ∷ [];
  ticket_ttl = 60;
  max_lifetime = 100;
  max_terminals = 2;
}

replace_ticket_alone_example :
    (count
        (λ t. t.terminal_id == 30)
        (replace_ticket settings ready_db 30 32 "new" "https://app" 10).tickets
      ≡ 1)
    × (count
          (λ t. leb t.expires_at 10)
          (replace_ticket settings ready_db 30 32 "new" "https://app" 10).tickets
        ≡ 0)
replace_ticket_alone_example =
    replace_ticket_alone settings ready_db 30 32 "new" "https://app" 10 (omega arith)

one_terminal-Within : Within settings ready_db
unfolding count
one_terminal-Within i = ground arith

create_terminal-Within_example :
    Within settings
      (create_terminal settings cipher caller "user" none (ok "pty2") 33 10 ready_db).1
create_terminal-Within_example =
    create_terminal-Within settings cipher caller "user" none (ok "pty2") 33 10 ready_db
      one_terminal-Within

abbrev closed_row : TerminalBinding
closed_row = record terminal_row { state = TerminalState.closed; disconnected_at = some 10 }

abbrev closed_db : Db
closed_db = record ready_db { terminals = closed_row ∷ []; tickets = [] }

terminal_deleted : delete_terminal cipher caller "user" 30 (ok tt) 10 ready_db ≡ (ok tt, closed_db)
unfolding delete_terminal load_owned_terminal mark_terminal_closed require owned_instance connection
    find get modify remove decrypt ignoring
terminal_deleted = refl

delete_terminal-Closed_example : Closed 30 closed_db
delete_terminal-Closed_example =
    delete_terminal-Closed cipher caller "user" 30 (ok tt) 10 ready_db closed_db one_terminal-Unique
      terminal_deleted

mark_connected_terminals_detached_alone_example :
    (count (λ t. is_connected t.state) (mark_connected_terminals_detached 12 connected_db).terminals
      ≡ 0)
    × (count (λ t. is_closed t.state) (mark_connected_terminals_detached 12 connected_db).terminals
        ≡ count (λ t. is_closed t.state) connected_db.terminals)
mark_connected_terminals_detached_alone_example =
    mark_connected_terminals_detached_alone 12 connected_db
