-- ===== src/Manager/Monitor.antt =====
-- `SandboxRecoveryMonitor` of service/long_tasks.py: ready instances whose sandbox is gone.
pub mod Checks
pub mod Recovers
use pi_opensandbox_runner.Base.{
  ℕ, ◌+◌, String, ◌≡◌, refl, ◌∙◌, Bool, true, false, not, ◌&&◌, ◌||◌, Option, none, some, List, [],
  ◌∷◌, str_eq, ◌==◌, if◌then◌else◌, is_some, arith, map,
}
use pi_opensandbox_runner.Base.Table.{get}
use pi_opensandbox_runner.Base.Select.{select}
use pi_opensandbox_runner.Manager.Problem.{
  UpstreamProblem, Failure, upstream, problem, exception, Result, ok, raise,
}
use pi_opensandbox_runner.Manager.Models.{RunnerInstance, ManagerOperation, Db, instance_id}
use pi_opensandbox_runner.Manager.Upstream.{Sandbox, Upstream}
use pi_opensandbox_runner.Manager.Load.{given}
use pi_opensandbox_runner.Manager.Operations.{is_ready, enqueue_sandbox_recovery}
use pi_opensandbox_runner.Manager.Operations.OneActive.{
  OneActive, enqueue_sandbox_recovery-OneActive,
}
use pi_opensandbox_runner.Manager.Exec.{
  Exec, St, Outcome, returned, raised, diverged, pure, throw, asks, reads, commits, call, catch,
  ◌>>=◌, next, handle_outcome, outcome_of, Final, Ends, ends_rules, Ends-catch, Ends-commits,
  Ends-bind, Ends-reads, Ends-pure,
}

-- The condition of the query for candidates.
abbrev is_candidate : RunnerInstance → Bool
is_candidate i = is_ready i.state && is_some i.sandbox_id

-- `instance.sandbox_id if instance is not None else None`
sandbox_of : ℕ → Db → Option String
sandbox_of id db = elim (get instance_id id db.instances) [
  | none ↦ none
  | some instance ↦ instance.sandbox_id
]

abbrev is_running : Sandbox → Bool
is_running sandbox = str_eq sandbox.state "running" || str_eq sandbox.state "ready"

-- An unavailable control plane is not evidence that the sandbox died.
on_unavailable : {W : Type 0} → Failure → Exec W Bool
on_unavailable (upstream p) = pure (p.status_code == 404)
on_unavailable e = throw e

-- The transaction that queues a recovery: the number of operations queued.
queue_recovery : ℕ → ℕ → ℕ → Db → ℕ × Db
queue_recovery new_id now id db =
    let (operation, db') = enqueue_sandbox_recovery db new_id now id in
    (if is_some operation then 1 else 0, db')

-- `new_id` gives the id that a recovery of an instance would get.
module _ (up : Upstream) (new_id : ℕ → ℕ) where
  open up use {World}

  -- Whether the sandbox of an instance is gone.
  is_lost : String → Exec World Bool
  unfolding on_unavailable
  is_lost sandbox_id s =
      catch (do sandbox ← call (up.get_sandbox sandbox_id); pure (not (is_running sandbox)))
        on_unavailable s

  recover_if : ℕ → Bool → Exec World ℕ
  unfolding queue_recovery
  recover_if id false = pure 0
  recover_if id true = do now ← asks up.now; commits (queue_recovery (new_id id) now id)

  check_sandbox : ℕ → Option String → Exec World ℕ
  unfolding recover_if is_lost
  check_sandbox id none = pure 0
  check_sandbox id (some sandbox_id) = do lost ← is_lost sandbox_id; recover_if id lost

  -- The loop of `check_once`, with the count of what is queued.
  check_all : List ℕ → Exec World ℕ
  unfolding check_sandbox sandbox_of
  check_all [] = pure 0
  check_all (id ∷ ids) = do
    sandbox_id ← reads (λ db. ok (sandbox_of id db))
    queued ← check_sandbox id (given sandbox_id)
    rest ← check_all ids
    pure (queued + rest)

  unfoldable pub check_once : Exec World ℕ
  unfolding check_all
  check_once = do
    candidates ← reads (λ db. ok (map instance_id (select is_candidate db.instances)))
    check_all candidates
