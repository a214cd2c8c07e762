-- ===== src/Manager/Executor/Run/Settles.antt =====
-- What one run of the executor leaves behind: the operation that it took from the queue has
-- succeeded, waits for a retry, or has failed, whatever the upstream systems did.
use pi_opensandbox_runner.Base.{
  ℕ, ◌-◌, ◌≤◌, ◌<◌, String, ◌≡◌, refl, ◌∙◌, Bool, ◌||◌, Option, some, ◌⊎◌, inl, arith,
  if◌then◌else◌,
}
use pi_opensandbox_runner.Base.Table.{get, get-modify_self}
use pi_opensandbox_runner.Manager.Problem.{ManagerProblem}
use pi_opensandbox_runner.Manager.Models.{Kind, OperationStatus, ManagerOperation, Db, operation_id}
use pi_opensandbox_runner.Manager.Operations.{fail_operation, update_operation}
use pi_opensandbox_runner.Manager.Operations.OneActive.{
  OneActive, OneActive-update, mark_operation_failed-OneActive,
}
use pi_opensandbox_runner.Manager.Operations.Retry.{
  fail_operation-attempt, fail_operation-kind, fail_operation-status, mark_operation_failed-row,
}
use pi_opensandbox_runner.Manager.Executor.{
  set_phase, set_sandbox, finish_provision, finish_stop, fail, max_attempts_of, is_recovery,
  recovery_delay,
}

-- The executor works on operation `id`, for the `n`-th time.
pub record Claimed (id n : ℕ) (kind : Kind) (db : Db) : Type 0 where
  pub row : ManagerOperation
  pub stored : get operation_id id db.operations ≡ some row
  pub running : row.status ≡ OperationStatus.running
  pub attempts : row.attempt ≡ n
  pub counted : 1 ≤ n
  pub same_kind : row.kind ≡ kind
  pub one : OneActive db.operations

-- Operation `id` after its `n`-th run. A retry is left only below the bound of its kind.
pub record Settled (id n : ℕ) (kind : Kind) (db : Db) : Type 0 where
  pub row : ManagerOperation
  pub stored : get operation_id id db.operations ≡ some row
  pub attempts : row.attempt ≡ n
  pub same_kind : row.kind ≡ kind
  pub status :
      (row.status ≡ OperationStatus.succeeded)
      ⊎ ((row.status ≡ OperationStatus.pending) × (n < max_attempts_of kind))
      ⊎ (row.status ≡ OperationStatus.failed)
  pub one : OneActive db.operations

module _ (id n : ℕ) (kind : Kind) where
  pub set_phase-Claimed :
      (value : String) (db : Db)
      → Claimed id n kind db
      → Claimed id n kind (set_phase id value db).1
  unfolding set_phase
  set_phase-Claimed value db c =
      rw (c.stored, set_phase)
        (record {
          row = record (c.row) { phase = value };
          stored =
              get-modify_self operation_id (λ o. record o { phase = value }) (λ o. refl) id
                db.operations c.row c.stored;
          running = c.running;
          attempts = c.attempts;
          counted = c.counted;
          same_kind = c.same_kind;
          one =
              OneActive-update db.operations id (λ o. record o { phase = value }) c.row c.stored
                refl refl (λ a. a) c.one;
        })

  pub set_sandbox-Claimed :
      (i : ℕ) (s : Option String) (db : Db)
      → Claimed id n kind db
      → Claimed id n kind (set_sandbox i s db).1
  unfolding set_sandbox
  set_sandbox-Claimed i s db c = record {
    row = c.row;
    stored = c.stored;
    running = c.running;
    attempts = c.attempts;
    counted = c.counted;
    same_kind = c.same_kind;
    one = c.one;
  }

  pub finish_provision-Settled :
      (url : String) (now : ℕ) (db : Db)
      → Claimed id n kind db
      → Settled id n kind (finish_provision id url now db).1
  unfolding finish_provision
  finish_provision-Settled url now db c =
      rw (c.stored, finish_provision)
        (record {
          row = _;
          stored = get-modify_self operation_id _ (λ o. refl) id db.operations c.row c.stored;
          attempts = c.attempts;
          same_kind = c.same_kind;
          status = inl refl;
          one =
              OneActive-update db.operations id _ c.row c.stored refl refl (λ a. absurd (cc)) c.one;
        })

  pub finish_stop-Settled :
      (destroying : Bool) (now : ℕ) (db : Db)
      → Claimed id n kind db
      → Settled id n kind (finish_stop destroying id now db).1
  unfolding finish_stop
  finish_stop-Settled destroying now db c =
      rw (c.stored, finish_stop)
        (record {
          row = _;
          stored = get-modify_self operation_id _ (λ o. refl) id db.operations c.row c.stored;
          attempts = c.attempts;
          same_kind = c.same_kind;
          status = inl refl;
          one =
              OneActive-update db.operations id _ c.row c.stored refl refl (λ a. absurd (cc)) c.one;
        })

  abbrev uncounted : ManagerOperation → ManagerOperation → ManagerOperation
  uncounted row o = record o { attempt = row.attempt - 1 }

  pub fail-Settled :
      (p : ManagerProblem) (now : ℕ) (db : Db)
      → Claimed id n kind db
      → Settled id n kind (fail p id now db).1
  unfolding fail
  fail-Settled p now db c =
      let retry = p.retryable || is_recovery row.kind in
      let bound = max_attempts_of row.kind in
      let delay = if is_recovery row.kind then recovery_delay (row.attempt - 1) else 0 in
      let db' = update_operation db id (uncounted row) in
      let g : get operation_id id db'.operations ≡ some (uncounted row row) =
        get-modify_self operation_id (uncounted row) (λ o. refl) id db.operations row stored in
      let one' : OneActive db'.operations =
        OneActive-update db.operations id (uncounted row) row stored refl refl (λ a. a) one in
      rw (stored, fail)
        (record {
          row = fail_operation p retry bound delay now (uncounted row row);
          stored = mark_operation_failed-row p retry bound delay now db' id (uncounted row row) g;
          attempts =
              omega (arith, fail_operation-attempt p retry bound delay now (uncounted row row));
          same_kind = fail_operation-kind p retry bound delay now (uncounted row row) ∙ same_kind;
          status =
              ground (arith, fail_operation-status p retry bound delay now (uncounted row row));
          one =
              mark_operation_failed-OneActive db' id p retry bound delay now (uncounted row row) g
                (rw running) one';
        })
    where
      open c use {row, stored, running, attempts, counted, same_kind, one}
