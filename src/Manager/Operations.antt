-- ===== src/Manager/Operations.antt =====
-- service/short_transactions.py: the transactions that queue an operation for an instance, and the
-- one that records a failure. A transaction returns the new database; one that raises is rolled
-- back, so it returns no database. Generated ids and secrets, and the current time, are arguments.
pub mod OneActive
pub mod Retry
pub mod Idempotent
use Prim.Native.String.{◌++◌ as str_append}
use pi_opensandbox_runner.Base.{
  ℕ, ◌+◌, String, Bool, true, false, not, ◌&&◌, ◌||◌, Option, none, some, [], ◌∷◌, ◌++◌, str_eq,
  ◌==◌, ltb, if◌then◌else◌,
}
use pi_opensandbox_runner.Base.Table.{find, latest, get, modify}
use pi_opensandbox_runner.Manager.Problem.{
  ManagerProblem, Result, ok, raise, problem, manager_problem, ◌>>=◌,
}
use pi_opensandbox_runner.Manager.Crypto.{CredentialCipher, encrypt}
use pi_opensandbox_runner.Manager.Models.{
  Kind, provision, recovery, stop, destroy, unknown, OperationStatus, InstanceState, CatalogState,
  RunnerPolicy, RunnerInstance, ManagerOperation, Db, instance_id, operation_id,
}

abbrev pub is_active : OperationStatus → Bool
is_active OperationStatus.pending = true
is_active OperationStatus.running = true
is_active OperationStatus.succeeded = false
is_active OperationStatus.failed = false

abbrev pub is_succeeded : OperationStatus → Bool
is_succeeded OperationStatus.succeeded = true
is_succeeded _ = false

abbrev pub is_ready : InstanceState → Bool
is_ready InstanceState.ready = true
is_ready _ = false

-- `state in {"stopped", "failed", "destroyed"}`
abbrev pub is_gone : InstanceState → Bool
is_gone InstanceState.stopped = true
is_gone InstanceState.failed = true
is_gone InstanceState.destroyed = true
is_gone _ = false

abbrev is_published : CatalogState → Bool
is_published CatalogState.published = true
is_published _ = false

abbrev is_provision : Kind → Bool
is_provision provision = true
is_provision _ = false

-- `kind in active_kinds`: a provision and a recovery exclude one another, any other kind itself.
abbrev pub in_active_kinds : Kind → Kind → Bool
in_active_kinds provision provision = true
in_active_kinds provision recovery = true
in_active_kinds recovery provision = true
in_active_kinds recovery recovery = true
in_active_kinds stop stop = true
in_active_kinds destroy destroy = true
in_active_kinds unknown unknown = true
in_active_kinds _ _ = false

-- The condition of the query for an active operation of these kinds on an instance.
abbrev pub active_on : ℕ → Kind → ManagerOperation → Bool
active_on i kind o = (o.instance_id == i) && (in_active_kinds kind o.kind && is_active o.status)

-- `kind in ("provision", "recovery", "stop", "destroy")`
abbrev is_known : Kind → Bool
is_known unknown = false
is_known _ = true

abbrev pub any_active_on : ℕ → ManagerOperation → Bool
any_active_on i o = (o.instance_id == i) && (is_known o.kind && is_active o.status)

-- What the caller generates: `uuid4()`, `secrets.token_urlsafe(32)` and `datetime.now(UTC)`.
pub record Fresh : Type 0 where
  pub instance_id : ℕ
  pub operation_id : ℕ
  pub bridge_secret : String
  pub litellm_secret : String
  pub now : ℕ

unfoldable pub published_policy : Db → String → Result RunnerPolicy
published_policy db slug =
    elim (latest (λ p. p.revision) (λ p. str_eq p.slug slug && is_published p.state) db.policies) [
      | none ↦ raise (problem (manager_problem 422 "policy_not_published"))
      | some policy ↦ ok policy
    ]

unfoldable pub new_operation : ℕ → ℕ → ℕ → Kind → String → ℕ → ManagerOperation
new_operation id consumer_id instance_id kind phase now = record {
  id = id;
  consumer_id = consumer_id;
  instance_id = instance_id;
  kind = kind;
  status = OperationStatus.pending;
  phase = phase;
  attempt = 0;
  next_attempt_at = none;
  problem = none;
  created_at = now;
  finished_at = none;
}

abbrev pub add_operation : Db → ManagerOperation → Db
add_operation db o = record db { operations = db.operations ++ o ∷ [] }

abbrev pub update_instance : Db → ℕ → (RunnerInstance → RunnerInstance) → Db
update_instance db id f = record db { instances = modify instance_id id f db.instances }

abbrev pub update_operation : Db → ℕ → (ManagerOperation → ManagerOperation) → Db
update_operation db id f = record db { operations = modify operation_id id f db.operations }

abbrev owned_by : ℕ → String → RunnerInstance → Bool
owned_by consumer_id subject_ref i =
    (i.consumer_id == consumer_id) && str_eq i.subject_ref subject_ref

-- The end of `ensure_instance`: join an active provision or recovery, or queue a provision.
unfoldable pub join_or_queue : Db → Fresh → RunnerInstance → RunnerInstance × ManagerOperation × Db
unfolding new_operation
join_or_queue db fresh instance = elim (find (active_on instance.id provision) db.operations) [
  | some active ↦ (instance, active, db)
  | none ↦
      let operation =
        new_operation fresh.operation_id instance.consumer_id instance.id provision "queued"
          fresh.now in
      (instance, operation, add_operation db operation)
]

-- `digest` stands for the first 20 hex digits of the SHA-256 of "consumer_id:subject_ref".
new_instance :
    CredentialCipher → (ℕ → String → String) → Fresh → ℕ → String → ℕ → Result RunnerInstance
new_instance cipher digest fresh consumer_id subject_ref policy_id = do
  let name = str_append "pi-manager-" (digest consumer_id subject_ref)
  token ← encrypt cipher fresh.bridge_secret
  key ← encrypt cipher (str_append "sk-" fresh.litellm_secret)
  ok (record {
    id = fresh.instance_id;
    consumer_id = consumer_id;
    subject_ref = subject_ref;
    policy_id = policy_id;
    state = InstanceState.provisioning;
    phase = "queued";
    sandbox_id = none;
    pi_volume_name = str_append name "-pi";
    workspace_volume_name = str_append name "-workspace";
    bridge_url = none;
    bridge_token_encrypted = some token;
    litellm_key_encrypted = some key;
    litellm_key_alias = name;
    problem = none;
    ready_at = none;
  })

-- The reset of an instance whose policy changed or whose sandbox is gone: new credentials.
requeue : CredentialCipher → Fresh → RunnerInstance → Result RunnerInstance
requeue cipher fresh instance = do
  token ← encrypt cipher fresh.bridge_secret
  key ← encrypt cipher (str_append "sk-" fresh.litellm_secret)
  ok (record instance {
    state = InstanceState.provisioning;
    phase = "queued";
    problem = none;
    bridge_token_encrypted = some token;
    litellm_key_encrypted = some key;
  })

-- The latest succeeded provision of an instance.
abbrev completed_on : ℕ → ManagerOperation → Bool
completed_on i o = (o.instance_id == i) && (is_provision o.kind && is_succeeded o.status)

-- The rest of `ensure_instance` for an instance that exists. The `some` is the early return.
queue_existing :
    CredentialCipher
    → Db
    → Fresh
    → RunnerInstance
    → Bool
    → Option ManagerOperation
    → Result (RunnerInstance × ManagerOperation × Db)
queue_existing cipher db fresh instance policy_changed (some completed) =
    ok (instance, completed, update_instance db instance.id (λ _. instance))
queue_existing cipher db fresh instance policy_changed none =
    if policy_changed || is_gone instance.state
    then (do
      renewed ← requeue cipher fresh instance
      ok (join_or_queue (update_instance db instance.id (λ _. renewed)) fresh renewed))
    else ok (join_or_queue (update_instance db instance.id (λ _. instance)) fresh instance)

-- An instance that exists, under the policy of the request.
ensure_existing :
    CredentialCipher
    → Db
    → Fresh
    → RunnerInstance
    → RunnerPolicy
    → Result (RunnerInstance × ManagerOperation × Db)
unfolding queue_existing
ensure_existing cipher db fresh found policy =
    let policy_changed = not (found.policy_id == policy.id) in
    queue_existing cipher db fresh (record found { policy_id = policy.id }) policy_changed
      (if is_ready found.state && not policy_changed
        then latest (λ o. o.created_at) (completed_on found.id) db.operations
        else none)

-- The branch on whether the subject has an instance, once its policy is known.
create_or_renew :
    CredentialCipher
    → (ℕ → String → String)
    → Db
    → Fresh
    → ℕ
    → String
    → RunnerPolicy
    → Result (RunnerInstance × ManagerOperation × Db)
unfolding new_instance ensure_existing requeue join_or_queue
create_or_renew cipher digest db fresh consumer_id subject_ref policy =
    elim (find (owned_by consumer_id subject_ref) db.instances) [
      | none ↦ do
        instance ← new_instance cipher digest fresh consumer_id subject_ref policy.id
        ok (join_or_queue (record db { instances = db.instances ++ instance ∷ [] }) fresh instance)
      | some found ↦ ensure_existing cipher db fresh found policy
    ]

unfoldable pub ensure_instance :
    CredentialCipher
    → (ℕ → String → String)
    → Db
    → Fresh
    → ℕ
    → String
    → String
    → Result (RunnerInstance × ManagerOperation × Db)
unfolding published_policy create_or_renew
ensure_instance cipher digest db fresh consumer_id subject_ref policy_slug = do
  policy ← published_policy db policy_slug
  create_or_renew cipher digest db fresh consumer_id subject_ref policy

-- What queueing a stop or a destroy does to the instance.
abbrev set_stopping : Kind → RunnerInstance → RunnerInstance
set_stopping stop i = record i { state = InstanceState.stopping; phase = "queued" }
set_stopping destroy i = record i { state = InstanceState.destroying; phase = "queued" }
set_stopping _ i = i

unfoldable pub enqueue_instance_operation :
    Db → ℕ → ℕ → RunnerInstance → Kind → ManagerOperation × Db
unfolding new_operation
enqueue_instance_operation db new_id now instance kind =
    elim (find (active_on instance.id kind) db.operations) [
      | some active ↦ (active, db)
      | none ↦
          let operation = new_operation new_id instance.consumer_id instance.id kind "queued" now in
          (operation, update_instance (add_operation db operation) instance.id (set_stopping kind))
    ]

abbrev pub set_recovering : RunnerInstance → RunnerInstance
set_recovering i = record i {
  state = InstanceState.provisioning;
  phase = "recovery_queued";
  problem = none;
  bridge_url = none;
}

unfoldable pub recover_idle : Db → ℕ → ℕ → RunnerInstance → Option ManagerOperation × Db
unfolding new_operation
recover_idle db new_id now instance = elim (find (any_active_on instance.id) db.operations) [
  | some active ↦ (none, db)
  | none ↦
      let operation =
        new_operation new_id instance.consumer_id instance.id recovery "recovery_queued" now in
      (some operation, update_instance (add_operation db operation) instance.id set_recovering)
]

-- Queue one recovery only if this is still an idle, ready instance.
unfoldable pub enqueue_sandbox_recovery : Db → ℕ → ℕ → ℕ → Option ManagerOperation × Db
unfolding recover_idle
enqueue_sandbox_recovery db new_id now id = elim (get instance_id id db.instances) [
  | none ↦ (none, db)
  | some instance ↦
      if is_ready instance.state then recover_idle db new_id now instance else (none, db)
]

-- The operation after a failure: it waits for a retry, or it has failed for good.
unfoldable pub fail_operation :
    ManagerProblem → Bool → ℕ → ℕ → ℕ → ManagerOperation → ManagerOperation
fail_operation p retry max_attempts delay now o =
    let attempt = o.attempt + 1 in
    if retry && ltb attempt max_attempts
    then record o {
      problem = some p;
      attempt = attempt;
      status = OperationStatus.pending;
      phase = "retry_wait";
      next_attempt_at = some (now + delay);
    }
    else record o {
      problem = some p;
      attempt = attempt;
      status = OperationStatus.failed;
      phase = "failed";
      finished_at = some now;
    }

abbrev pub fail_instance : ManagerProblem → RunnerInstance → RunnerInstance
fail_instance p i = record i { state = InstanceState.failed; phase = "failed"; problem = some p }

unfoldable pub mark_operation_failed : Db → ℕ → ManagerProblem → Bool → ℕ → ℕ → ℕ → Db
unfolding fail_operation
mark_operation_failed db id p retry max_attempts delay now =
    elim (get operation_id id db.operations) [
      | none ↦ db
      | some o ↦
          let db' = update_operation db id (fail_operation p retry max_attempts delay now) in
          if retry && ltb (o.attempt + 1) max_attempts
          then db'
          else update_instance db' o.instance_id (fail_instance p)
    ]
