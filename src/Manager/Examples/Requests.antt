-- ===== src/Manager/Examples/Requests.antt =====
-- The results on requests of the API, applied to the test data.
use pi_opensandbox_runner.Manager.Turns.{started, new_turn}
use pi_opensandbox_runner.Manager.Turns.Race.{begin_turn_twice}
use pi_opensandbox_runner.Manager.Examples.{session_row}
use pi_opensandbox_runner.Base.{◌≡◌, ◌⊎◌, refl, true, none, some, [], ◌∷◌, arith}
use pi_opensandbox_runner.Base.Table.{find, get, count, modify, latest}
use pi_opensandbox_runner.Base.Rows.{Unique}
use pi_opensandbox_runner.Manager.Problem.{ok, raise, problem, manager_problem, ManagerProblem}
use pi_opensandbox_runner.Manager.Crypto.{encrypt, decrypt}
use pi_opensandbox_runner.Manager.Models.{
  stop, SessionState, TurnStatus, TurnBinding, Db, instance_id, session_id, turn_id,
}
use pi_opensandbox_runner.Manager.Operations.{
  ensure_instance, published_policy, new_operation, enqueue_instance_operation,
  enqueue_sandbox_recovery, mark_operation_failed, join_or_queue,
}
use pi_opensandbox_runner.Manager.Operations.OneActive.{
  OneActive, ensure_instance-OneActive, enqueue_instance_operation-OneActive,
  enqueue_sandbox_recovery-OneActive,
}
use pi_opensandbox_runner.Manager.Models.{ManagerOperation, operation_id}
use pi_opensandbox_runner.Manager.Operations.Retry.{Waits, HasFailed, mark_operation_failed-outcome}
use pi_opensandbox_runner.Manager.Operations.Idempotent.{ensure_instance_repeated}
use pi_opensandbox_runner.Manager.Turns.{
  put_turn, turn_session, send_turn, begin_turn, accept_turn, cancel_turn, finish_cancel, ignoring,
}
use pi_opensandbox_runner.Manager.Api.{
  require, owned_instance, owned_session, session_connection, connection, find_session,
}
use pi_opensandbox_runner.Manager.Turns.Submit.{put_turn_repeated, put_turn_conflict}
use pi_opensandbox_runner.Manager.Turns.Cancel.{Cancelled, cancel_turn-Cancelled}
use pi_opensandbox_runner.Manager.Examples.{
  cipher, empty_db, digest, fresh, again, new_row, queued, queued_db, session_row, ready_db, caller,
}

no_rows-Unique : Unique instance_id []
unfolding count
no_rows-Unique k = omega arith

ensured :
    ensure_instance cipher digest empty_db fresh 1 "user" "default"
    ≡ ok (new_row, queued, queued_db)
unfolding ensure_instance published_policy join_or_queue new_operation latest find encrypt
ensured = refl

none_active : OneActive []
unfolding count
none_active i k = omega arith

one_queued : OneActive (queued ∷ [])
unfolding count
one_queued i k = ground arith

ensure_instance_repeated_example :
    ensure_instance cipher digest queued_db again 1 "user" "default"
    ≡ ok (new_row, queued, queued_db)
unfolding get
ensure_instance_repeated_example =
    ensure_instance_repeated cipher digest empty_db fresh again 1 "user" "default" new_row queued
      queued_db no_rows-Unique refl ensured

ensure_instance-OneActive_example : OneActive queued_db.operations
ensure_instance-OneActive_example =
    ensure_instance-OneActive cipher digest empty_db fresh 1 "user" "default" new_row queued
      queued_db none_active ensured

enqueue_instance_operation-OneActive_example :
    OneActive (enqueue_instance_operation queued_db 11 6 new_row stop).1.operations
enqueue_instance_operation-OneActive_example =
    enqueue_instance_operation-OneActive queued_db 11 6 new_row stop one_queued

enqueue_sandbox_recovery-OneActive_example :
    OneActive (enqueue_sandbox_recovery ready_db 11 6 7).1.operations
enqueue_sandbox_recovery-OneActive_example =
    enqueue_sandbox_recovery-OneActive ready_db 11 6 7 none_active

abbrev timed_out : ManagerProblem
timed_out = manager_problem 504 "timeout"

mark_operation_failed-outcome_example :
    (let db' = mark_operation_failed queued_db 8 timed_out true 8 0 6 in
      OneActive db'.operations
      × (o' : ManagerOperation) × (get operation_id 8 db'.operations ≡ some o')
      × (o'.attempt ≡ 1)
      × (o'.problem ≡ some timed_out)
      × (Waits timed_out true 8 0 6 queued o' queued_db db'
          ⊎ HasFailed timed_out true 8 0 6 queued o' db'))
unfolding get
mark_operation_failed-outcome_example =
    mark_operation_failed-outcome timed_out true 8 0 6 queued_db 8 queued new_row refl refl refl
      one_queued

one_session-Unique : Unique session_id ready_db.sessions
unfolding count
one_session-Unique k = ground arith

abbrev sent_turn : TurnBinding
sent_turn = record {
  id = 40;
  session_binding_id = 20;
  external_turn_id = "turn";
  input_text = "hello";
  status = TurnStatus.running;
  command_id = some "command";
  problem = none;
}

abbrev sent_db : Db
sent_db = record ready_db {
  turns = sent_turn ∷ [];
  sessions = record session_row { state = SessionState.running; active_turn_id = some "turn" } ∷ [];
}

turn_sent :
    put_turn cipher caller "user" "session" "turn" "hello" 40 (ok (some "command")) ready_db
    ≡ (ok sent_turn, sent_db)
unfolding put_turn turn_session send_turn begin_turn accept_turn require session_connection
    owned_instance owned_session connection find get modify decrypt find_session
turn_sent = refl

put_turn_repeated_example :
    put_turn cipher caller "user" "session" "turn" "hello" 41 (ok none) sent_db
    ≡ (ok sent_turn, sent_db)
unfolding get
put_turn_repeated_example =
    put_turn_repeated cipher caller "user" "session" "turn" "hello" 40 41 (ok (some "command"))
      (ok none) ready_db sent_db sent_turn one_session-Unique refl turn_sent

put_turn_conflict_example :
    put_turn cipher caller "user" "session" "turn" "bye" 41 (ok none) sent_db
    ≡ (raise (problem (manager_problem 409 "idempotency_conflict")), sent_db)
unfolding get
put_turn_conflict_example =
    put_turn_conflict cipher caller "user" "session" "turn" "hello" "bye" 40 41
      (ok (some "command")) (ok none) ready_db sent_db sent_turn one_session-Unique refl refl
      turn_sent

abbrev cancelled_turn : TurnBinding
cancelled_turn = record sent_turn { status = TurnStatus.cancelled }

abbrev cancelled_db : Db
cancelled_db = record ready_db { turns = cancelled_turn ∷ [] }

turn_cancelled :
    cancel_turn cipher caller "user" "session" "turn" (ok tt) sent_db
    ≡ (ok cancelled_turn, cancelled_db)
unfolding cancel_turn finish_cancel ignoring require session_connection owned_instance owned_session
    connection find get modify decrypt find_session
turn_cancelled = refl

running_session-Unique : Unique session_id sent_db.sessions
unfolding count
running_session-Unique k = ground arith

one_turn-Unique : Unique turn_id sent_db.turns
unfolding count
one_turn-Unique k = ground arith

cancel_turn-Cancelled_example : Cancelled cancelled_db caller "user" "session" "turn" cancelled_turn
cancel_turn-Cancelled_example =
    cancel_turn-Cancelled cipher caller "user" "session" "turn" (ok tt) sent_db cancelled_db
      cancelled_turn running_session-Unique one_turn-Unique turn_cancelled

begin_turn_twice_example :
    (db₁ db₂ : Db) × (begin_turn ready_db 20 "a" "hello" 40
      ≡ ok (started (new_turn 40 20 "a" "hello"), db₁))
    × (begin_turn db₁ 20 "b" "bye" 41 ≡ ok (started (new_turn 41 20 "b" "bye"), db₂))
unfolding get find
begin_turn_twice_example =
    begin_turn_twice ready_db 20 "a" "b" "hello" "bye" 40 41 session_row refl refl refl refl refl
