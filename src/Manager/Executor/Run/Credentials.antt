-- ===== src/Manager/Executor/Run/Credentials.antt =====
-- An operation on an instance whose credentials were cleared, as a finished stop or destroy does.
use pi_opensandbox_runner.Base.{
  ℕ, ◌-◌, String, ◌≡◌, refl, Bool, true, false, none, some, List, arith,
}
use pi_opensandbox_runner.Base.Table.{get, earliest, get-modify_self}
use pi_opensandbox_runner.Base.Rows.{Unique, get_of_earliest}
use pi_opensandbox_runner.Manager.Problem.{problem, manager_problem, ManagerProblem, ok, raise}
use pi_opensandbox_runner.Manager.Crypto.{CredentialCipher}
use pi_opensandbox_runner.Manager.Models.{
  Kind, stop, destroy, OperationStatus, RunnerInstance, RunnerPolicy, ModelDeployment,
  ManagerOperation, Db, operation_id, instance_id, policy_id,
}
use pi_opensandbox_runner.Manager.Operations.{
  mark_operation_failed, fail_operation, update_operation, fail_instance,
}
use pi_opensandbox_runner.Manager.Operations.Retry.{mark_operation_failed-row}
use pi_opensandbox_runner.Manager.Load.{load, load_models}
use pi_opensandbox_runner.Manager.Upstream.{Upstream}
use pi_opensandbox_runner.Manager.Exec.{
  returned, raised, St, asks, reads, commits, pure, catch, handle_outcome, next, ◌>>=◌,
}
use pi_opensandbox_runner.Manager.Executor.{
  claim_next, is_due, start_operation, fail, is_recovery, stored_problem,
}
use pi_opensandbox_runner.Manager.Executor.Run.{
  work, record_failure, execute_claimed, execute_next, stop_instance,
}

abbrev pub missing : ManagerProblem
missing = manager_problem 500 "instance_credentials_missing"

-- `_load` refuses an instance with no bridge token.
load_refuses :
    (cipher : CredentialCipher) (db : Db) (o : ManagerOperation) (i : RunnerInstance)
    (p : RunnerPolicy) (ms : List ModelDeployment)
    → get operation_id o.id db.operations ≡ some o
    → get instance_id o.instance_id db.instances ≡ some i
    → get policy_id i.policy_id db.policies ≡ some p
    → load_models p db.models ≡ ok ms
    → i.bridge_token_encrypted ≡ none
    → load cipher db o.id ≡ raise (problem missing)
unfolding load
load_refuses cipher db o i p ms go gi gp gm e = ground arith

-- A failure that is not retried ends the operation and fails its instance.
fail_for_good :
    (db : Db) (o : ManagerOperation) (i : RunnerInstance) (now : ℕ)
    → get operation_id o.id db.operations ≡ some o
    → get instance_id o.instance_id db.instances ≡ some i
    → is_recovery o.kind ≡ false
    → (get instance_id o.instance_id (fail missing o.id now db).1.instances
        ≡ some (fail_instance missing i))
unfolding fail mark_operation_failed
fail_for_good db o i now go gi k = ground (
  arith,
  get-modify_self operation_id (λ x. record x { attempt = o.attempt - 1 }) (λ x. refl) o.id
      db.operations o go,
  get-modify_self instance_id (fail_instance missing) (λ x. refl) o.instance_id db.instances i gi,
)

-- The operation after such a failure.
fail_for_good-row :
    (db : Db) (o : ManagerOperation) (now : ℕ)
    → get operation_id o.id db.operations ≡ some o
    → is_recovery o.kind ≡ false
    → (row : ManagerOperation) × (get operation_id o.id (fail missing o.id now db).1.operations
        ≡ some row)
      × (row.status ≡ OperationStatus.failed)
unfolding fail
fail_for_good-row db o now go k =
    let db' = update_operation db o.id (λ x. record x { attempt = o.attempt - 1 }) in
    let g : get operation_id o.id db'.operations ≡ some (record o { attempt = o.attempt - 1 }) =
      get-modify_self operation_id (λ x. record x { attempt = o.attempt - 1 }) (λ x. refl) o.id
        db.operations o go in
    rw (go, fail, k)
      (
        _,
        mark_operation_failed-row missing false 8 0 now db' o.id
            (record o { attempt = o.attempt - 1 }) g,
        unfold fail_operation in refl,
      )

abbrev kind_of : Bool → Kind
kind_of true = destroy
kind_of false = stop

claim_next-db :
    (now : ℕ) (db : Db) (o : ManagerOperation)
    → earliest (λ o. o.created_at) (is_due now) db.operations ≡ some o
    → claim_next now db ≡ (some o, update_operation db o.id start_operation)
unfolding claim_next
claim_next-db now db o e = rw (e, claim_next)

stop_kind : (destroying : Bool) → is_recovery (kind_of destroying) ≡ false
stop_kind true = refl
stop_kind false = refl

module _ (up : Upstream) (cipher : CredentialCipher) (token_hash : String → String)
    (timeout : ℕ) where
  open up use {World}

  -- The work of a stop or destroy, where `_load` raises.
  work_refused :
      (t : St World) (id : ℕ) (destroying : Bool)
      → load cipher t.db id ≡ raise (problem missing)
      → work up cipher token_hash timeout (kind_of destroying) id t ≡ (raised (problem missing), t)
  unfolding work stop_instance ◌>>=◌ next reads
  work_refused t id true h = rw h
  work_refused t id false h = rw h

  execute_claimed_refused :
      (t : St World) (o : ManagerOperation)
      → work up cipher token_hash timeout o.kind o.id t ≡ (raised (problem missing), t)
      → execute_claimed up cipher token_hash timeout (some o) t
        ≡ (returned true, record t { db = (fail missing o.id (up.now t.world) t.db).1 })
  unfolding execute_claimed record_failure stored_problem ◌>>=◌ next asks commits catch
      handle_outcome pure
  execute_claimed_refused t o h = rw h

  -- A stop or a destroy that is next in the queue, of an instance whose bridge token is not stored
  -- any more, does not stop or destroy anything: the run calls no upstream system, fails the
  -- operation for good and puts the instance into the state failed with the problem
  -- instance_credentials_missing. The instance, its policy and the models of the policy are there,
  -- and row ids of operations are unique.
  pub stop_needs_credentials :
      (s : St World) (o : ManagerOperation) (i : RunnerInstance) (p : RunnerPolicy)
      (ms : List ModelDeployment) (destroying : Bool)
      → Unique operation_id s.db.operations
      → earliest (λ o. o.created_at) (is_due (up.now s.world)) s.db.operations ≡ some o
      → o.kind ≡ kind_of destroying
      → get instance_id o.instance_id s.db.instances ≡ some i
      → get policy_id i.policy_id s.db.policies ≡ some p
      → load_models p s.db.models ≡ ok ms
      → i.bridge_token_encrypted ≡ none
      → (s' : St World) × (row : ManagerOperation) × (execute_next up cipher token_hash timeout s
          ≡ (returned true, s'))
        × (s'.world ≡ s.world)
        × (get operation_id o.id s'.db.operations ≡ some row)
        × (row.status ≡ OperationStatus.failed)
        × (get instance_id o.instance_id s'.db.instances ≡ some (fail_instance missing i))
  unfolding execute_next ◌>>=◌ next asks commits
  stop_needs_credentials s o i p ms destroying u e k gi gp gm none_left =
      let db = update_operation s.db o.id start_operation in
      let t : St World = record s { db = db } in
      let started = start_operation o in
      let go : get operation_id o.id db.operations ≡ some started =
        get-modify_self operation_id start_operation (λ x. refl) o.id s.db.operations o
          (get_of_earliest operation_id (λ o. o.created_at) (is_due (up.now s.world))
            s.db.operations o u e) in
      let refused : work up cipher token_hash timeout o.kind o.id t
          ≡ (raised (problem missing), t) =
        rw k (
          work_refused t o.id destroying
            (load_refuses cipher db started i p ms go gi gp gm none_left)) in
      let not_recovery : is_recovery started.kind ≡ false = rw k (stop_kind destroying) in
      let (row, stored, has_failed) =
        fail_for_good-row db started (up.now s.world) go not_recovery in
      (
        record t { db = (fail missing o.id (up.now s.world) db).1 },
        row,
        rw (claim_next-db (up.now s.world) s.db o e) (execute_claimed_refused t o refused),
        refl,
        stored,
        has_failed,
        fail_for_good db started i (up.now s.world) go gi not_recovery,
      )
