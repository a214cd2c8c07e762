-- ===== src/Manager/Examples/Sessions.antt =====
-- The results on sessions, applied to the test data.
use pi_opensandbox_runner.Base.{◌≡◌, ◌⊎◌, refl, false, none, some, [], ◌∷◌, arith}
use pi_opensandbox_runner.Base.Table.{find, get, remove, count}
use pi_opensandbox_runner.Base.Rows.{Unique}
use pi_opensandbox_runner.Manager.Problem.{ok}
use pi_opensandbox_runner.Manager.Crypto.{decrypt}
use pi_opensandbox_runner.Manager.Models.{
  SessionState, TurnStatus, SessionBinding, TurnBinding, Db, session_id, turn_id,
}
use pi_opensandbox_runner.Manager.Api.{
  require, owned_instance, owned_session, session_connection, connection, find_session,
}
use pi_opensandbox_runner.Manager.Turns.{turn_of, ignoring}
use pi_opensandbox_runner.Manager.Sessions.{refresh, is_running, delete_session, erase}
use pi_opensandbox_runner.Manager.Sessions.Refresh.{refresh_idle, Erased, delete_session-Erased}
use pi_opensandbox_runner.Manager.Examples.{cipher, caller, bridge, session_row, ready_db}

abbrev turn_row : TurnBinding
turn_row = record {
  id = 40;
  session_binding_id = 20;
  external_turn_id = "turn";
  input_text = "hello";
  status = TurnStatus.running;
  command_id = none;
  problem = none;
}

abbrev busy_row : SessionBinding
busy_row = record session_row { state = SessionState.running; active_turn_id = some "turn" }

abbrev busy_db : Db
busy_db = record ready_db { sessions = busy_row ∷ []; turns = turn_row ∷ [] }

one_turn-Unique : Unique turn_id busy_db.turns
unfolding count
one_turn-Unique k = ground arith

refresh_idle_example :
    ((refresh busy_db busy_row false).0.active_turn_id ≡ none)
    × ((refresh busy_db busy_row false).0.state ≡ SessionState.ready)
    × (get session_id 20 (refresh busy_db busy_row false).1.sessions
        ≡ some (refresh busy_db busy_row false).0)
    × (((turn_row.status ≡ TurnStatus.running)
          × (find (turn_of 20 "turn") (refresh busy_db busy_row false).1.turns
              ≡ some (record turn_row { status = TurnStatus.succeeded })))
        ⊎ ((is_running turn_row.status ≡ false)
            × (find (turn_of 20 "turn") (refresh busy_db busy_row false).1.turns ≡ some turn_row)))
unfolding get find
refresh_idle_example =
    refresh_idle busy_db busy_row busy_row "turn" turn_row one_turn-Unique refl refl refl

abbrev erased_db : Db
erased_db = record ready_db { sessions = [] }

session_deleted : delete_session cipher caller "user" "session" (ok tt) busy_db ≡ (ok tt, erased_db)
unfolding delete_session erase require session_connection owned_instance owned_session connection
    find get remove decrypt find_session ignoring
session_deleted = refl

session_reached : session_connection busy_db cipher caller "user" "session" ≡ ok (bridge, busy_row)
unfolding session_connection owned_instance owned_session connection find decrypt find_session
session_reached = refl

delete_session-Erased_example : Erased 20 erased_db
unfolding get
delete_session-Erased_example =
    delete_session-Erased cipher caller "user" "session" (ok tt) busy_db erased_db bridge busy_row
      session_reached refl session_deleted
