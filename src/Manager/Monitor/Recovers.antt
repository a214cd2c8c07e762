-- ===== src/Manager/Monitor/Recovers.antt =====
-- A sandbox that OpenSandbox does not know any more is recovered.
use pi_opensandbox_runner.Base.{
  ℕ, String, ◌≡◌, refl, Bool, true, false, ◌&&◌, none, some, [], ◌∷◌, arith, ◌==◌, str_eq, ==_refl,
}
use pi_opensandbox_runner.Base.Table.{
  find, get, count, count-append, count_of_find-none, count_mono, get-modify_self,
}
use pi_opensandbox_runner.Base.Select.{select}
use pi_opensandbox_runner.Manager.Problem.{UpstreamProblem, upstream, raise}
use pi_opensandbox_runner.Manager.Models.{
  Kind, recovery, OperationStatus, InstanceState, RunnerInstance, ManagerOperation, Db, instance_id,
}
use pi_opensandbox_runner.Manager.Upstream.{Upstream}
use pi_opensandbox_runner.Manager.Operations.{
  is_ready, any_active_on, enqueue_sandbox_recovery, recover_idle, new_operation, set_recovering,
}
use pi_opensandbox_runner.Manager.Exec.{
  St, returned, pure, asks, reads, commits, call, catch, ◌>>=◌, next, handle_outcome,
}
use pi_opensandbox_runner.Manager.Monitor.{
  sandbox_of, on_unavailable, queue_recovery, is_lost, recover_if, check_sandbox, check_all,
  check_once,
}

abbrev is_pending_recovery : Kind → OperationStatus → Bool
is_pending_recovery recovery OperationStatus.pending = true
is_pending_recovery _ _ = false

-- A recovery of the instance that has not been tried.
abbrev pub is_new_recovery : ℕ → ManagerOperation → Bool
is_new_recovery id o =
    (o.instance_id == id) && (is_pending_recovery o.kind o.status && o.attempt == 0)

module _ (up : Upstream) (new_id : ℕ → ℕ) where
  open up use {World}

  is_lost_missing :
      (s : St World) (sandbox_id : String) (w : World) (p : UpstreamProblem)
      → up.get_sandbox sandbox_id s.world ≡ (raise (upstream p), w)
      → (p.status_code == 404) ≡ true
      → is_lost up new_id sandbox_id s ≡ (returned true, record s { world = w })
  unfolding is_lost on_unavailable catch handle_outcome call ◌>>=◌ next pure
  is_lost_missing s sandbox_id w p e n = ground (arith, e, n)

  recover_idle_queues :
      (db : Db) (i : RunnerInstance) (now : ℕ)
      → get instance_id i.id db.instances ≡ some i
      → is_ready i.state ≡ true
      → find (any_active_on i.id) db.operations ≡ none
      → (queue_recovery (new_id i.id) now i.id db).0 ≡ 1
  unfolding queue_recovery enqueue_sandbox_recovery recover_idle
  recover_idle_queues db i now g r f = ground (arith, g, r, f)

  check_sandbox_missing :
      (s : St World) (i : RunnerInstance) (sandbox_id : String) (w : World) (p : UpstreamProblem)
      → get instance_id i.id s.db.instances ≡ some i
      → is_ready i.state ≡ true
      → find (any_active_on i.id) s.db.operations ≡ none
      → up.get_sandbox sandbox_id s.world ≡ (raise (upstream p), w)
      → (p.status_code == 404) ≡ true
      → check_sandbox up new_id i.id (some sandbox_id) s ≡ (
        returned 1,
        record { world = w; db = (enqueue_sandbox_recovery s.db (new_id i.id) (up.now w) i.id).1 },
      )
  unfolding check_sandbox recover_if ◌>>=◌ next asks commits queue_recovery
  check_sandbox_missing s i sandbox_id w p g r f e n =
      rw (is_lost_missing s sandbox_id w p e n)
        (ground (arith, recover_idle_queues s.db i (up.now w) g r f))

  -- What is left of a recovery that is queued: one active operation on the instance, a recovery.
  abbrev pub Recovering : RunnerInstance → Db → Type 0
  Recovering i db =
      (count (any_active_on i.id) db.operations ≡ 1)
      × (count (is_new_recovery i.id) db.operations ≡ 1)
      × (i' : RunnerInstance) × (get instance_id i.id db.instances ≡ some i')
      × (i'.state ≡ InstanceState.provisioning)
      × (i'.bridge_url ≡ none)

  recovery-Recovering :
      (db : Db) (i : RunnerInstance) (now : ℕ)
      → get instance_id i.id db.instances ≡ some i
      → is_ready i.state ≡ true
      → find (any_active_on i.id) db.operations ≡ none
      → Recovering i (enqueue_sandbox_recovery db (new_id i.id) now i.id).1
  unfolding enqueue_sandbox_recovery recover_idle new_operation count
  recovery-Recovering db i now g r f =
      let idle = count_of_find-none (any_active_on i.id) db.operations f in
      let none_new : count (is_new_recovery i.id) db.operations ≡ 0 = omega (
        arith,
        idle,
        count_mono (is_new_recovery i.id) (any_active_on i.id) (λ x e. ground arith) db.operations,
      ) in
      let changed = get-modify_self instance_id set_recovering (λ x. refl) i.id db.instances i g in
      rw (g, enqueue_sandbox_recovery, r, f, recover_idle, count-append, count-append)
        (
          ground (arith, idle, ==_refl i.id),
          ground (arith, none_new, ==_refl i.id),
          set_recovering i,
          changed,
          refl,
          refl,
        )

  -- Where the one instance is ready and idle and OpenSandbox answers 404 for its sandbox, a check
  -- returns that it queued one operation: one operation is active on the instance, a recovery that waits
  -- for its first attempt, and the instance is stored as provisioning without a bridge address.
  pub check_once_missing :
      (s : St World) (i : RunnerInstance) (sandbox_id : String) (w : World) (p : UpstreamProblem)
      → s.db.instances ≡ i ∷ []
      → is_ready i.state ≡ true
      → i.sandbox_id ≡ some sandbox_id
      → str_eq sandbox_id "" ≡ false
      → find (any_active_on i.id) s.db.operations ≡ none
      → up.get_sandbox sandbox_id s.world ≡ (raise (upstream p), w)
      → (p.status_code == 404) ≡ true
      → (s' : St World) × (check_once up new_id s ≡ (returned 1, s')) × Recovering i s'.db
  unfolding check_once check_all ◌>>=◌ next reads pure sandbox_of select get
  check_once_missing s i sandbox_id w p only r b v f e n =
      let g : get instance_id i.id s.db.instances ≡ some i =
        rw only (ground (arith, ==_refl i.id)) in
      let queued : St World = record {
        world = w;
        db = (enqueue_sandbox_recovery s.db (new_id i.id) (up.now w) i.id).1;
      } in
      (
        queued,
        ground (
          arith,
          only,
          r,
          b,
          v,
          g,
          ==_refl i.id,
          check_sandbox_missing s i sandbox_id w p g r f e n,
        ),
        recovery-Recovering s.db i (up.now w) g r f,
      )
