-- ===== src/Manager/Operations/OneActive.antt =====
-- At most one operation of a kind is active on an instance, where a provision and a recovery count
-- as one kind: what the queries of short_transactions.py for an active operation are for.
use pi_opensandbox_runner.Base.{
  ℕ, ◌≤◌, String, ◌≡◌, Bool, true, Option, none, some, List, [], ◌∷◌, ◌++◌, arith, ◌==◌, ◌||◌, ◌&&◌,
  not, if◌then◌else◌, inl, inr, Bool-cases, Option-cases,
}
use pi_opensandbox_runner.Base.Table.{
  find, latest, get, modify, count, count-append, count_of_find-none, count_mono, count-modify,
}
use pi_opensandbox_runner.Manager.Problem.{
  ManagerProblem, ok, Holds, Holds-bind, Holds-if, Holds-ok,
}
use pi_opensandbox_runner.Manager.Crypto.{CredentialCipher}
use pi_opensandbox_runner.Manager.Models.{
  Kind, provision, recovery, RunnerInstance, RunnerPolicy, ManagerOperation, Db, operation_id,
  instance_id,
}
use pi_opensandbox_runner.Manager.Operations.{
  ensure_existing, create_or_renew, new_instance, owned_by, published_policy, completed_on,
  queue_existing, requeue, recover_idle, is_gone, is_ready, Fresh, is_active, active_on,
  any_active_on, join_or_queue, ensure_instance, enqueue_instance_operation,
  enqueue_sandbox_recovery, mark_operation_failed, fail_operation,
}

abbrev pub OneActive : List ManagerOperation → Type 0
OneActive ops = (i : ℕ) (k : Kind) → count (active_on i k) ops ≤ 1

-- A new operation may join where none that excludes it is active.
OneActive-queue :
    (ops : List ManagerOperation) (o : ManagerOperation)
    → OneActive ops
    → count (active_on o.instance_id o.kind) ops ≡ 0
    → OneActive (ops ++ o ∷ [])
unfolding count
OneActive-queue ops o one none_yet i k = elim (Bool-cases (active_on i k o)) [
  | inr e ↦ rw count-append (ground (arith, one i k))
  | inl e ↦ rw count-append (
      ground (
        arith,
        none_yet,
        count_mono (active_on i k) (active_on o.instance_id o.kind) (λ x h. ground arith) ops,
      ))
]

-- A change of one row keeps the bound where the row keeps its instance and kind, and is not active
-- after the change unless it was before.
pub OneActive-update :
    (ops : List ManagerOperation) (id : ℕ) (f : ManagerOperation → ManagerOperation)
    (o : ManagerOperation)
    → get operation_id id ops ≡ some o
    → (f o).instance_id ≡ o.instance_id
    → (f o).kind ≡ o.kind
    → (is_active (f o).status ≡ true → is_active o.status ≡ true)
    → OneActive ops
    → OneActive (modify operation_id id f ops)
OneActive-update ops id f o g same_instance same_kind stays one i k =
    ground (arith, one i k, count-modify operation_id (active_on i k) id f ops o g)

join_or_queue-OneActive :
    (db : Db) (fresh : Fresh) (instance : RunnerInstance)
    → OneActive db.operations
    → OneActive (join_or_queue db fresh instance).2.operations
unfolding join_or_queue
join_or_queue-OneActive db fresh instance one =
    elim (Option-cases (find (active_on instance.id provision) db.operations)) [
      | inr (o, e) ↦ rw (e, join_or_queue) one
      | inl e ↦
          rw (e, join_or_queue)
            (OneActive-queue db.operations _ one
              (count_of_find-none (active_on instance.id provision) db.operations e))
    ]

abbrev Stays : RunnerInstance × ManagerOperation × Db → Type 0
Stays t = OneActive t.2.operations

queue_existing-OneActive :
    (cipher : CredentialCipher) (db : Db) (fresh : Fresh) (instance : RunnerInstance)
    (policy_changed : Bool) (completed : Option ManagerOperation)
    → OneActive db.operations
    → Holds Stays (queue_existing cipher db fresh instance policy_changed completed)
unfolding queue_existing
queue_existing-OneActive cipher db fresh instance policy_changed (some completed) one = one
queue_existing-OneActive cipher db fresh instance policy_changed none one =
    Holds-if Stays (policy_changed || is_gone instance.state) _ _
      (Holds-bind Stays (requeue cipher fresh instance) _
        (λ renewed. join_or_queue-OneActive _ fresh renewed one))
      (join_or_queue-OneActive _ fresh instance one)

ensure_existing-OneActive :
    (cipher : CredentialCipher) (db : Db) (fresh : Fresh) (found : RunnerInstance)
    (policy : RunnerPolicy)
    → OneActive db.operations
    → Holds Stays (ensure_existing cipher db fresh found policy)
unfolding ensure_existing
ensure_existing-OneActive cipher db fresh found policy one =
    let changed = not (found.policy_id == policy.id) in
    queue_existing-OneActive cipher db fresh (record found { policy_id = policy.id }) changed
      (if is_ready found.state && not changed
        then latest (λ o. o.created_at) (completed_on found.id) db.operations
        else none)
      one

create_or_renew-OneActive :
    (cipher : CredentialCipher) (digest : ℕ → String → String) (db : Db) (fresh : Fresh)
    (consumer_id : ℕ) (subject_ref : String) (policy : RunnerPolicy)
    → OneActive db.operations
    → Holds Stays (create_or_renew cipher digest db fresh consumer_id subject_ref policy)
unfolding create_or_renew
create_or_renew-OneActive cipher digest db fresh consumer_id subject_ref policy one =
    elim (Option-cases (find (owned_by consumer_id subject_ref) db.instances)) [
      | inl e ↦
          rw (e, create_or_renew)
            (Holds-bind Stays (new_instance cipher digest fresh consumer_id subject_ref policy.id) _
              (λ instance. join_or_queue-OneActive _ fresh instance one))
      | inr (found, e) ↦
          rw (e, create_or_renew) (ensure_existing-OneActive cipher db fresh found policy one)
    ]

-- Where at most one operation of a kind is active on each instance, so it is after a request to
-- ensure an instance that is accepted.
pub ensure_instance-OneActive :
    (cipher : CredentialCipher) (digest : ℕ → String → String) (db : Db) (fresh : Fresh)
    (consumer_id : ℕ) (subject_ref policy_slug : String) (instance : RunnerInstance)
    (operation : ManagerOperation) (db' : Db)
    → OneActive db.operations
    → ensure_instance cipher digest db fresh consumer_id subject_ref policy_slug
      ≡ ok (instance, operation, db')
    → OneActive db'.operations
unfolding ensure_instance
ensure_instance-OneActive cipher digest db fresh consumer_id subject_ref policy_slug instance
      operation db' one h =
    Holds-ok Stays (ensure_instance cipher digest db fresh consumer_id subject_ref policy_slug)
      (instance, operation, db') h
      (Holds-bind Stays (published_policy db policy_slug) _ (λ policy.
        create_or_renew-OneActive cipher digest db fresh consumer_id subject_ref policy one))

-- Where at most one operation of a kind is active on each instance, so it is after an operation of
-- any kind is asked for on any instance.
pub enqueue_instance_operation-OneActive :
    (db : Db) (new_id now : ℕ) (instance : RunnerInstance) (kind : Kind)
    → OneActive db.operations
    → OneActive (enqueue_instance_operation db new_id now instance kind).1.operations
unfolding enqueue_instance_operation
enqueue_instance_operation-OneActive db new_id now instance kind one =
    elim (Option-cases (find (active_on instance.id kind) db.operations)) [
      | inr (o, e) ↦ rw (e, enqueue_instance_operation) one
      | inl e ↦
          rw (e, enqueue_instance_operation)
            (OneActive-queue db.operations _ one
              (count_of_find-none (active_on instance.id kind) db.operations e))
    ]

recovery_blocked :
    (i : ℕ) (ops : List ManagerOperation)
    → find (any_active_on i) ops ≡ none
    → count (active_on i recovery) ops ≡ 0
recovery_blocked i ops h = omega (
  arith,
  count_of_find-none (any_active_on i) ops h,
  count_mono (active_on i recovery) (any_active_on i) (λ x e. ground arith) ops,
)

recover_idle-OneActive :
    (db : Db) (new_id now : ℕ) (instance : RunnerInstance)
    → OneActive db.operations
    → OneActive (recover_idle db new_id now instance).1.operations
unfolding recover_idle
recover_idle-OneActive db new_id now instance one =
    elim (Option-cases (find (any_active_on instance.id) db.operations)) [
      | inr (o, e) ↦ rw (e, recover_idle) one
      | inl e ↦
          rw (e, recover_idle)
            (OneActive-queue db.operations _ one (recovery_blocked instance.id db.operations e))
    ]

-- Where at most one operation of a kind is active on each instance, so it is after a recovery of
-- an instance is asked for, whether or not one is queued.
pub enqueue_sandbox_recovery-OneActive :
    (db : Db) (new_id now id : ℕ)
    → OneActive db.operations
    → OneActive (enqueue_sandbox_recovery db new_id now id).1.operations
unfolding enqueue_sandbox_recovery
enqueue_sandbox_recovery-OneActive db new_id now id one i k =
    elim (Option-cases (get instance_id id db.instances)) [
      | inl e ↦ rw (e, enqueue_sandbox_recovery) (one i k)
      | inr (instance, e) ↦
          rw (e, enqueue_sandbox_recovery)
            (elim (Bool-cases (is_ready instance.state)) [
              | inl r ↦ rw r (recover_idle-OneActive db new_id now instance one i k)
              | inr r ↦ rw r (one i k)
            ])
    ]

fail_operation-instance :
    (p : ManagerProblem) (retry : Bool) (max_attempts delay now : ℕ) (o : ManagerOperation)
    → (fail_operation p retry max_attempts delay now o).instance_id ≡ o.instance_id
unfolding fail_operation
fail_operation-instance p retry max_attempts delay now o = ground arith

fail_operation-kind :
    (p : ManagerProblem) (retry : Bool) (max_attempts delay now : ℕ) (o : ManagerOperation)
    → (fail_operation p retry max_attempts delay now o).kind ≡ o.kind
unfolding fail_operation
fail_operation-kind p retry max_attempts delay now o = ground arith

-- Where at most one operation of a kind is active on each instance, so it is after a stored
-- operation that is active is marked as failed, with or without a retry.
pub mark_operation_failed-OneActive :
    (db : Db) (id : ℕ) (p : ManagerProblem) (retry : Bool) (max_attempts delay now : ℕ)
    (o : ManagerOperation)
    → get operation_id id db.operations ≡ some o
    → is_active o.status ≡ true
    → OneActive db.operations
    → OneActive (mark_operation_failed db id p retry max_attempts delay now).operations
unfolding mark_operation_failed
mark_operation_failed-OneActive db id p retry max_attempts delay now o g active one i k = ground (
  arith,
  OneActive-update db.operations id (fail_operation p retry max_attempts delay now) o g
      (fail_operation-instance p retry max_attempts delay now o)
      (fail_operation-kind p retry max_attempts delay now o) (λ _. active) one i k,
)
