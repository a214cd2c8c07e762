-- ===== src/Manager/Examples/Execution.antt =====
-- The results on the executor, applied to the test data.
use pi_opensandbox_runner.Base.Table.{find}
use pi_opensandbox_runner.Manager.Problem.{UpstreamProblem, raise, upstream}
use pi_opensandbox_runner.Manager.Upstream.{Upstream}
use pi_opensandbox_runner.Manager.Examples.{ready_row}
use pi_opensandbox_runner.Manager.Monitor.Recovers.{Recovering, check_once_missing}
use pi_opensandbox_runner.Base.{◌+◌}
use pi_opensandbox_runner.Manager.Examples.{ready_db}
use pi_opensandbox_runner.Manager.Monitor.{check_once}
use pi_opensandbox_runner.Manager.Monitor.Checks.{check_once_healthy}
use pi_opensandbox_runner.Base.{ℕ, String, ◌≡◌, refl, true, false, none, some, [], ◌∷◌, arith}
use pi_opensandbox_runner.Base.Table.{find, get, count, latest, earliest}
use pi_opensandbox_runner.Base.Rows.{Unique}
use pi_opensandbox_runner.Manager.Models.{
  provision, stop, OperationStatus, InstanceState, RunnerInstance, ManagerOperation, instance_id,
  operation_id,
}
use pi_opensandbox_runner.Manager.Operations.OneActive.{OneActive}
use pi_opensandbox_runner.Manager.Examples.{
  cipher, model, policy, new_row, queued, queued_db, systems,
}
use pi_opensandbox_runner.Manager.Load.{load_models}
use pi_opensandbox_runner.Manager.Exec.{St, returned}
use pi_opensandbox_runner.Manager.Operations.{fail_instance}
use pi_opensandbox_runner.Manager.Executor.Run.{execute_next}
use pi_opensandbox_runner.Manager.Executor.Run.Settles.{Settled}
use pi_opensandbox_runner.Manager.Executor.Run.Next.{execute_next_settles}
use pi_opensandbox_runner.Manager.Executor.Run.Credentials.{stop_needs_credentials, missing}

abbrev hash_of : String → String
hash_of value = value

one_operation-Unique : Unique operation_id queued_db.operations
unfolding count
one_operation-Unique k = ground arith

one_queued : OneActive queued_db.operations
unfolding count
one_queued i k = ground arith

abbrev start : St ℕ
start = record { world = 10; db = queued_db }

execute_next_settles_example :
    (s' : St ℕ) × (execute_next systems cipher hash_of 60 start ≡ (returned true, s'))
    × Settled 8 1 provision s'.db
unfolding earliest
execute_next_settles_example =
    execute_next_settles systems cipher hash_of 60 start queued one_operation-Unique one_queued refl

abbrev stop_operation : ManagerOperation
stop_operation = record queued { kind = stop }

abbrev cleared_row : RunnerInstance
cleared_row = record new_row {
  state = InstanceState.stopped;
  bridge_token_encrypted = none;
  litellm_key_encrypted = none;
}

abbrev stop_start : St ℕ
stop_start = record {
  world = 10;
  db = record queued_db { instances = cleared_row ∷ []; operations = stop_operation ∷ [] };
}

stop_operation-Unique : Unique operation_id stop_start.db.operations
unfolding count
stop_operation-Unique k = ground arith

stop_needs_credentials_example :
    (s' : St ℕ) × (row : ManagerOperation) × (execute_next systems cipher hash_of 60 stop_start
      ≡ (returned true, s'))
    × (s'.world ≡ 10)
    × (get operation_id 8 s'.db.operations ≡ some row)
    × (row.status ≡ OperationStatus.failed)
    × (get instance_id 7 s'.db.instances ≡ some (fail_instance missing cleared_row))
unfolding earliest get load_models latest find
stop_needs_credentials_example =
    stop_needs_credentials systems cipher hash_of 60 stop_start stop_operation cleared_row policy
      (model ∷ []) false stop_operation-Unique refl refl refl refl refl refl

no_operation : OneActive ready_db.operations
unfolding count
no_operation i k = omega arith

abbrev ready_start : St ℕ
ready_start = record { world = 10; db = ready_db }

check_once_healthy_example :
    (s' : St ℕ) × (check_once systems (λ id. id + 100) ready_start ≡ (returned 0, s'))
    × (s'.db ≡ ready_db)
check_once_healthy_example = check_once_healthy systems (λ id. id + 100) (λ id w. refl) ready_start

abbrev not_found : UpstreamProblem
not_found = record { status_code = 404; code = "not_found" }

-- The systems, but OpenSandbox knows no sandbox.
abbrev lost_systems : Upstream
lost_systems = record systems {
  get_sandbox = λ _ w. (raise (upstream not_found), w);
  get_sandbox_monotonic = λ _ w. omega arith;
}

check_once_missing_example :
    (s' : St ℕ) × (check_once lost_systems (λ id. id + 100) ready_start ≡ (returned 1, s'))
    × Recovering lost_systems (λ id. id + 100) ready_row s'.db
unfolding find
check_once_missing_example =
    check_once_missing lost_systems (λ id. id + 100) ready_start ready_row "sandbox" 10 not_found
      refl refl refl refl refl refl refl
