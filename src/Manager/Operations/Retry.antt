-- ===== src/Manager/Operations/Retry.antt =====
-- How a failure counts attempts, and when it is final.
use pi_opensandbox_runner.Base.{
  ℕ, ◌+◌, ◌<◌, ◌≤◌, ◌≡◌, refl, Bool, true, false, ◌&&◌, ltb, ◌⊎◌, inl, inr, some, arith, Bool-cases,
}
use pi_opensandbox_runner.Base.Table.{get, get-modify_self}
use pi_opensandbox_runner.Manager.Problem.{ManagerProblem}
use pi_opensandbox_runner.Manager.Models.{
  OperationStatus, InstanceState, ManagerOperation, RunnerInstance, Db, operation_id, instance_id,
}
use pi_opensandbox_runner.Manager.Operations.{
  mark_operation_failed, fail_operation, fail_instance, is_active,
}
use pi_opensandbox_runner.Manager.Operations.OneActive.{OneActive, mark_operation_failed-OneActive}

module _ (p : ManagerProblem) (retry : Bool) (max_attempts delay now : ℕ) where
  fail_operation-id :
      (o : ManagerOperation) → (fail_operation p retry max_attempts delay now o).id ≡ o.id
  unfolding fail_operation
  fail_operation-id o = ground arith

  pub fail_operation-attempt :
      (o : ManagerOperation)
      → (fail_operation p retry max_attempts delay now o).attempt ≡ o.attempt + 1
  unfolding fail_operation
  fail_operation-attempt o = ground arith

  pub fail_operation-kind :
      (o : ManagerOperation) → (fail_operation p retry max_attempts delay now o).kind ≡ o.kind
  unfolding fail_operation
  fail_operation-kind o = ground arith

  -- A retry is queued only below the bound.
  pub fail_operation-status :
      (o : ManagerOperation)
      → (((fail_operation p retry max_attempts delay now o).status ≡ OperationStatus.pending)
          × (o.attempt + 1 < max_attempts))
        ⊎ ((fail_operation p retry max_attempts delay now o).status ≡ OperationStatus.failed)
  unfolding fail_operation
  fail_operation-status o = ground arith

  pub mark_operation_failed-row :
      (db : Db) (id : ℕ) (o : ManagerOperation)
      → get operation_id id db.operations ≡ some o
      → get operation_id id (mark_operation_failed db id p retry max_attempts delay now).operations
        ≡ some (fail_operation p retry max_attempts delay now o)
  unfolding mark_operation_failed
  mark_operation_failed-row db id o g = ground (
    arith,
    get-modify_self operation_id (fail_operation p retry max_attempts delay now) fail_operation-id
        id db.operations o g,
  )

  fail_operation-retried :
      (o : ManagerOperation)
      → (retry && ltb (o.attempt + 1) max_attempts) ≡ true
      → ((fail_operation p retry max_attempts delay now o).status ≡ OperationStatus.pending)
        × ((fail_operation p retry max_attempts delay now o).next_attempt_at ≡ some (now + delay))
  unfolding fail_operation
  fail_operation-retried o c = rw c (refl, refl)

  fail_operation-ended :
      (o : ManagerOperation)
      → (retry && ltb (o.attempt + 1) max_attempts) ≡ false
      → (fail_operation p retry max_attempts delay now o).status ≡ OperationStatus.failed
  unfolding fail_operation
  fail_operation-ended o c = rw c refl

  fail_operation-problem :
      (o : ManagerOperation) → (fail_operation p retry max_attempts delay now o).problem ≡ some p
  unfolding fail_operation
  fail_operation-problem o = ground arith

  -- It waits for a retry, which is asked for and within the bound, and no instance is changed.
  abbrev pub Waits : ManagerOperation → ManagerOperation → Db → Db → Type 0
  Waits o o' db db' =
      (retry ≡ true)
      × (o.attempt + 1 < max_attempts)
      × (o'.status ≡ OperationStatus.pending)
      × (o'.next_attempt_at ≡ some (now + delay))
      × (db'.instances ≡ db.instances)

  -- It has failed for good, since no retry is asked for or the bound is reached, and so has its instance.
  abbrev pub HasFailed : ManagerOperation → ManagerOperation → Db → Type 0
  HasFailed o o' db' =
      ((retry ≡ false) ⊎ (max_attempts ≤ o.attempt + 1))
      × (o'.status ≡ OperationStatus.failed)
      × (i' : RunnerInstance) × (get instance_id o.instance_id db'.instances ≡ some i')
      × (i'.state ≡ InstanceState.failed)
      × (i'.problem ≡ some p)

  mark_operation_failed-cases :
      (db : Db) (id : ℕ) (o : ManagerOperation) (i : RunnerInstance)
      → get operation_id id db.operations ≡ some o
      → get instance_id o.instance_id db.instances ≡ some i
      → (let o' = fail_operation p retry max_attempts delay now o in
          let db' = mark_operation_failed db id p retry max_attempts delay now in
          Waits o o' db db' ⊎ HasFailed o o' db')
  unfolding mark_operation_failed
  mark_operation_failed-cases db id o i g h =
      elim (Bool-cases (retry && ltb (o.attempt + 1) max_attempts)) [
        | inl c ↦
            let (pending, later) = fail_operation-retried o c in
            inl (
              ground (arith, c),
              ground (arith, c),
              pending,
              later,
              rw (g, c, mark_operation_failed) refl,
            )
        | inr c ↦
            let failed =
              get-modify_self instance_id (fail_instance p) (λ x. refl) o.instance_id db.instances i
                h in
            inr (
              no_retry c,
              fail_operation-ended o c,
              fail_instance p i,
              rw (g, c, mark_operation_failed) failed,
              refl,
              refl,
            )
      ]
    where
      no_retry :
          (retry && ltb (o.attempt + 1) max_attempts) ≡ false
          → (retry ≡ false) ⊎ (max_attempts ≤ o.attempt + 1)
      no_retry c = elim (Bool-cases retry) [ inr n ↦ inl n | inl y ↦ inr (ground (arith, c, y)) ]

  -- A stored operation that is active and whose instance is stored, when it is marked as failed: one
  -- more attempt is counted and the problem kept. If a retry is asked for and the attempts stay below the
  -- bound, it is pending until the delay is over and no instance changes; if not, it has failed for good
  -- and its instance with it. Still at most one operation of a kind is active on each instance.
  pub mark_operation_failed-outcome :
      (db : Db) (id : ℕ) (o : ManagerOperation) (i : RunnerInstance)
      → get operation_id id db.operations ≡ some o
      → get instance_id o.instance_id db.instances ≡ some i
      → is_active o.status ≡ true
      → OneActive db.operations
      → (let db' = mark_operation_failed db id p retry max_attempts delay now in
          OneActive db'.operations
          × (o' : ManagerOperation) × (get operation_id id db'.operations ≡ some o')
          × (o'.attempt ≡ o.attempt + 1)
          × (o'.problem ≡ some p)
          × (Waits o o' db db' ⊎ HasFailed o o' db'))
  mark_operation_failed-outcome db id o i g h a one = (
    mark_operation_failed-OneActive db id p retry max_attempts delay now o g a one,
    fail_operation p retry max_attempts delay now o,
    mark_operation_failed-row db id o g,
    fail_operation-attempt o,
    fail_operation-problem o,
    mark_operation_failed-cases db id o i g h,
  )
