-- ===== src/Manager/Executor.antt =====
-- service/long_tasks.py: `OperationExecutor`, which takes the next operation from the queue, does
-- its work against the upstream systems in several transactions, and records how it went.
-- The clients' `close()` has no effect here, so the `finally` blocks are left out.
pub mod Run
use pi_opensandbox_runner.Base.{
  ℕ, zero, suc, ◌+◌, ◌-◌, String, Bool, true, false, not, ◌&&◌, ◌||◌, Option, none, some, List, [],
  ◌∷◌, str_eq, ◌==◌, ltb, leb, if◌then◌else◌, length, is_some,
}
use pi_opensandbox_runner.Base.Table.{find, get, earliest}
use pi_opensandbox_runner.Manager.Problem.{
  ManagerProblem, UpstreamProblem, is_retryable, Failure, upstream, problem, exception, Result, ok,
  raise, manager_problem, retryable_problem,
}
use pi_opensandbox_runner.Manager.Problem
use pi_opensandbox_runner.Manager.Crypto.{CredentialCipher, decrypt}
use pi_opensandbox_runner.Manager.Models.{
  Kind, provision, recovery, stop, destroy, unknown, OperationStatus, InstanceState,
  ModelDeployment, RunnerPolicy, RunnerInstance, ManagerOperation, Db, model_id, policy_id,
  instance_id, operation_id,
}
use pi_opensandbox_runner.Manager.Operations.{
  update_instance, update_operation, mark_operation_failed,
}
use pi_opensandbox_runner.Manager.Upstream.{Sandbox, ProvisionInput, Upstream}
use pi_opensandbox_runner.Manager.Exec.{
  Exec, St, pure, throw, diverge, asks, reads, commits, call, catch, ◌>>=◌, ◌>>◌,
}

abbrev is_pending : OperationStatus → Bool
is_pending OperationStatus.pending = true
is_pending _ = false

abbrev due_at : ℕ → Option ℕ → Bool
due_at now none = true
due_at now (some t) = leb t now

-- The condition of the query of `execute_next`.
abbrev pub is_due : ℕ → ManagerOperation → Bool
is_due now o = is_pending o.status && due_at now o.next_attempt_at

abbrev pub start_operation : ManagerOperation → ManagerOperation
start_operation o = record o {
  status = OperationStatus.running;
  phase = "starting";
  attempt = o.attempt + 1;
}

-- The first transaction of `execute_next`.
unfoldable pub claim_next : ℕ → Db → Option ManagerOperation × Db
claim_next now db = elim (earliest (λ o. o.created_at) (is_due now) db.operations) [
  | none ↦ (none, db)
  | some o ↦ (some o, update_operation db o.id start_operation)
]

-- `_phase`
unfoldable pub set_phase : ℕ → String → Db → Unit {0} × Db
set_phase id value db = elim (get operation_id id db.operations) [
  | none ↦ (tt, db)
  | some o ↦ (
    tt,
    update_instance (update_operation db id (λ o. record o { phase = value })) o.instance_id
        (λ i. record i { phase = value }),
  )
]

-- The transactions that store `instance.sandbox_id`.
unfoldable pub set_sandbox : ℕ → Option String → Db → Unit {0} × Db
set_sandbox id sandbox_id db =
    (tt, update_instance db id (λ i. record i { sandbox_id = sandbox_id }))

-- The last transaction of `_provision`.
unfoldable pub finish_provision : ℕ → String → ℕ → Db → Unit {0} × Db
finish_provision id bridge_url now db = elim (get operation_id id db.operations) [
  | none ↦ (tt, db)
  | some o ↦ (
    tt,
    update_instance
        (update_operation db id (λ o. record o {
          status = OperationStatus.succeeded;
          phase = "ready";
          problem = none;
          finished_at = some now;
        }))
        o.instance_id
        (λ i. record i {
          state = InstanceState.ready;
          phase = "ready";
          bridge_url = some bridge_url;
          problem = none;
          ready_at = some now;
        }),
  )
]

abbrev stopped_name : Bool → String
stopped_name true = "destroyed"
stopped_name false = "stopped"

abbrev stopped_state : Bool → InstanceState
stopped_state true = InstanceState.destroyed
stopped_state false = InstanceState.stopped

-- The last transaction of `_stop`.
unfoldable pub finish_stop : Bool → ℕ → ℕ → Db → Unit {0} × Db
finish_stop destroying id now db = elim (get operation_id id db.operations) [
  | none ↦ (tt, db)
  | some o ↦ (
    tt,
    update_instance
        (update_operation db id (λ o. record o {
          status = OperationStatus.succeeded;
          phase = stopped_name destroying;
          finished_at = some now;
        }))
        o.instance_id
        (λ i. record i {
          state = stopped_state destroying;
          phase = stopped_name destroying;
          sandbox_id = none;
          bridge_url = none;
          bridge_token_encrypted = none;
          litellm_key_encrypted = none;
        }),
  )
]

abbrev is_recovery : Kind → Bool
is_recovery recovery = true
is_recovery _ = false

-- `RECOVERY_RETRY_DELAYS_SECONDS[attempt]`, or 0 past its end.
abbrev recovery_delay : ℕ → ℕ
recovery_delay zero = 5
recovery_delay (suc zero) = 15
recovery_delay (suc (suc n)) = 0

abbrev pub max_attempts_of : Kind → ℕ
max_attempts_of kind = if is_recovery kind then 3 else 8

-- `_fail`. `execute_next` has counted the attempt already, and `mark_operation_failed` counts it.
unfoldable pub fail : ManagerProblem → ℕ → ℕ → Db → Unit {0} × Db
fail p id now db = elim (get operation_id id db.operations) [
  | none ↦ (tt, db)
  | some o ↦
      let attempt = o.attempt - 1 in
      let delay = if is_recovery o.kind then recovery_delay attempt else 0 in
      (
        tt,
        mark_operation_failed (update_operation db id (λ o. record o { attempt = attempt })) id p
            (p.retryable || is_recovery o.kind) (max_attempts_of o.kind) delay now,
      )
]

-- The three `except` clauses of `execute_next`: the problem that is stored.
unfoldable pub stored_problem : Failure → ManagerProblem
stored_problem (upstream p) = record {
  status_code = p.status_code;
  code = p.code;
  retryable = is_retryable p;
  component = "runner-manager";
}
stored_problem (problem p) = record p { component = "runner-manager" }
stored_problem exception = manager_problem 500 "operation_failed"
